-- ===== src/Query/Select/Order.antt =====
-- query_select.go: the names that a `SELECT` is ordered by, and the text that `Order` makes of them.
use shilohcommunityenterpris.Common.{
  ℕ, Bool, true, false, ◌||◌, List, [], ◌∷◌, ◌++◌, append_assoc, append-nil, Option, none, some,
  if◌then◌else◌, Bytes, codes, bytes_eq, ◌==◌, ◌≡◌, ◌≢◌, refl, sym, ap, ◌∙◌, Bool-cases, inl, inr,
}
use shilohcommunityenterpris.Common.Result.{ok, ◌>>=◌}
use shilohcommunityenterpris.Dialect.{append_ident}
use shilohcommunityenterpris.Schema.Formatter.{
  Arg, query_appender, append_arg, append_body, appended, put_next, append_round, append_loop,
  append_query, ends_in_backslash, has_question, is_none, is_nil,
}
use shilohcommunityenterpris.Internal.Parser.{
  read_sep, cut_at, sep_or_all, read_identifier, paren_or_word, in_parens, scan_word, word_name,
}
use shilohcommunityenterpris.Query.Fragment.{
  Fmter, QueryWithArgs, is_empty, safe_query, unsafe_ident, append_query_with_args, each, comma,
}
use shilohcommunityenterpris.Query.Join.{behind_commas, joined, piece_list, piece-step}
use shilohcommunityenterpris.Query.Select.{append_clause}
use shilohcommunityenterpris.Dialect.Ident.{append_ident-tokens}
use shilohcommunityenterpris.Query.Insert.Statement.{to_upper}

-- `Ident` and `Safe` as arguments, under the quote of the dialect
abbrev pub ident_arg : ℕ → Bytes → Arg
ident_arg quote s = record {
  body = query_appender (λ b. ok (append_ident b s quote));
  named = none;
}

abbrev pub safe_arg : Bytes → Arg
safe_arg s = record { body = query_appender (λ b. ok (b ++ s)); named = none }

-- The text before the first space and the text behind it.
unfoldable pub split_space : Bytes → Option (Bytes × Bytes)
split_space [] = none
split_space (c ∷ s) =
    let rest = split_space s in
    if c == b' ' then some ([], s) else elim rest [ none ↦ none | some (u, v) ↦ some (c ∷ u, v) ]

abbrev pub sort_words : List Bytes
sort_words =
    codes "ASC"
    ∷ codes "DESC"
    ∷ codes "ASC NULLS FIRST"
    ∷ codes "DESC NULLS FIRST"
    ∷ codes "ASC NULLS LAST"
    ∷ codes "DESC NULLS LAST"
    ∷ []

unfoldable pub mem_text : Bytes → List Bytes → Bool
mem_text w [] = false
mem_text w (v ∷ vs) = bytes_eq w v || mem_text w vs

unfoldable pub is_sort : Bytes → Bool
unfolding mem_text to_upper
is_sort s = mem_text (to_upper s) sort_words

unfoldable pub order_by : ℕ → Bytes → Option (Bytes × Bytes) → QueryWithArgs
unfolding safe_query unsafe_ident is_sort
order_by quote order none = unsafe_ident order
order_by quote order (some (field, sort)) =
    if is_sort sort
    then safe_query (codes "? ?") (some (ident_arg quote field ∷ safe_arg sort ∷ []))
    else unsafe_ident order

-- `Order`
unfoldable pub add_orders : ℕ → List Bytes → List QueryWithArgs → List QueryWithArgs
unfolding order_by split_space
add_orders quote [] qs = qs
add_orders quote (o ∷ os) qs =
    if is_empty o
    then add_orders quote os qs
    else add_orders quote os (qs ++ order_by quote o (split_space o) ∷ [])

-- What one order writes, by the program's own split and test of the sort.
abbrev pub split_text : Fmter → Bytes → Option (Bytes × Bytes) → Bytes → Bytes
split_text fm order none b = append_ident b order fm.ident_quote
split_text fm order (some (field, sort)) b =
    if is_sort sort
    then (append_ident b field fm.ident_quote ++ b' ' ∷ []) ++ sort
    else append_ident b order fm.ident_quote

placeholders :
    (fm : Fmter) (field sort b : Bytes)
    → fm.formatter.is_nop ≡ false
    → append_query_with_args fm
        (safe_query (codes "? ?") (some (ident_arg fm.ident_quote field ∷ safe_arg sort ∷ [])))
        b
      ≡ ok ((append_ident b field fm.ident_quote ++ b' ' ∷ []) ++ sort)
unfolding append_query_with_args safe_query append_query append_loop append_round has_question
    is_none is_nil read_sep cut_at sep_or_all ends_in_backslash read_identifier paren_or_word
    in_parens scan_word word_name put_next append_arg append_body appended
placeholders fm field sort b h = rw (h, append-nil b) refl

order-text :
    (fm : Fmter) (o : Bytes) (p : Option (Bytes × Bytes)) (b : Bytes)
    → fm.formatter.is_nop ≡ false
    → append_query_with_args fm (order_by fm.ident_quote o p) b ≡ ok (split_text fm o p b)
unfolding order_by append_query_with_args unsafe_ident
order-text fm o none b h = refl
order-text fm o (some (field, sort)) b h = elim (Bool-cases (is_sort sort)) [
  | inl e ↦ rw e (placeholders fm field sort b h)
  | inr e ↦ rw e refl
]

-- The texts of the orders that are not empty.
unfoldable pub split_words : Fmter → List Bytes → List Bytes
unfolding is_sort split_space
split_words fm [] = []
split_words fm ([] ∷ os) = split_words fm os
split_words fm ((c ∷ o) ∷ os) = split_text fm (c ∷ o) (split_space (c ∷ o)) [] ∷ split_words fm os

text-append :
    (fm : Fmter) (o : Bytes) (p : Option (Bytes × Bytes)) (b : Bytes)
    → fm.ident_quote ≢ b'.'
    → fm.ident_quote ≢ b'*'
    → split_text fm o p b ≡ b ++ split_text fm o p []
text-append fm o none b nd ns = (append_ident-tokens b o fm.ident_quote nd ns).0
text-append fm o (some (field, sort)) b nd ns = elim (Bool-cases (is_sort sort)) [
  | inl e ↦
      rw (e, (append_ident-tokens b field fm.ident_quote nd ns).0)
        (append_assoc (b ++ append_ident [] field fm.ident_quote) (b' ' ∷ []) sort
          ∙ append_assoc b (append_ident [] field fm.ident_quote) (b' ' ∷ sort)
          ∙ ap (λ w. b ++ w)
              (sym (append_assoc (append_ident [] field fm.ident_quote) (b' ' ∷ []) sort)))
  | inr e ↦ rw e ((append_ident-tokens b o fm.ident_quote nd ns).0)
]

add_orders-append :
    (quote : ℕ) (os : List Bytes) (qs : List QueryWithArgs)
    → add_orders quote os qs ≡ qs ++ add_orders quote os []
unfolding add_orders
add_orders-append quote [] qs = sym (append-nil qs)
add_orders-append quote ([] ∷ os) qs = add_orders-append quote os qs
add_orders-append quote ((c ∷ o) ∷ os) qs =
    let x = order_by quote (c ∷ o) (split_space (c ∷ o)) in
    add_orders-append quote os (qs ++ x ∷ [])
    ∙ append_assoc qs (x ∷ []) (add_orders quote os [])
    ∙ ap (λ l. qs ++ l) (sym (add_orders-append quote os (x ∷ [])))

module _ (fm : Fmter) (nop : fm.formatter.is_nop ≡ false) (nd : fm.ident_quote ≢ b'.')
    (ns : fm.ident_quote ≢ b'*') where
  first-text :
      (first : Bool) (o : Bytes) (os : List Bytes) (b : Bytes)
      → ((b' : Bytes)
          → each comma (append_query_with_args fm) false (add_orders fm.ident_quote os []) b'
            ≡ ok (b' ++ behind_commas (split_words fm os)))
      → each comma
          (append_query_with_args fm)
          first
          (order_by fm.ident_quote o (split_space o) ∷ add_orders fm.ident_quote os [])
          b
        ≡ ok (b ++ piece_list first (split_text fm o (split_space o) [] ∷ split_words fm os))
  unfolding each
  first-text first o os b h =
      let b0 = if first then b else b ++ comma in
      ap
        (λ r. r >>= λ b'.
          each comma (append_query_with_args fm) false (add_orders fm.ident_quote os []) b')
        (order-text fm o (split_space o) b0 nop)
      ∙ h (split_text fm o (split_space o) b0)
      ∙ ap (λ x. ok (x ++ behind_commas (split_words fm os)))
          (text-append fm o (split_space o) b0 nd ns)
      ∙ ap ok (piece-step first b (split_text fm o (split_space o) []) (split_words fm os))

  rest-text :
      (os : List Bytes) (b : Bytes)
      → each comma (append_query_with_args fm) false (add_orders fm.ident_quote os []) b
        ≡ ok (b ++ behind_commas (split_words fm os))
  unfolding add_orders split_words each behind_commas
  rest-text [] b = ap ok (sym (append-nil b))
  rest-text ([] ∷ os) b = rest-text os b
  rest-text ((c ∷ o) ∷ os) b =
      ap (λ qs. each comma (append_query_with_args fm) false qs b)
        (add_orders-append fm.ident_quote os
          (order_by fm.ident_quote (c ∷ o) (split_space (c ∷ o)) ∷ []))
      ∙ first-text false (c ∷ o) os b (λ b'. rest-text os b')

  abbrev pub order_clause : Bytes → List Bytes → Bytes
  order_clause b [] = b
  order_clause b (w ∷ ws) = (b ++ codes " ORDER BY ") ++ joined (w ∷ ws)

  pub split_clause-add_orders :
      (os : List Bytes) (b : Bytes)
      → append_clause fm (codes " ORDER BY ") (add_orders fm.ident_quote os []) b
        ≡ ok (order_clause b (split_words fm os))
  unfolding append_clause add_orders split_words
  split_clause-add_orders [] b = refl
  split_clause-add_orders ([] ∷ os) b = split_clause-add_orders os b
  split_clause-add_orders ((c ∷ o) ∷ os) b =
      ap (λ qs. append_clause fm (codes " ORDER BY ") qs b)
        (add_orders-append fm.ident_quote os
          (order_by fm.ident_quote (c ∷ o) (split_space (c ∷ o)) ∷ []))
      ∙ first-text true (c ∷ o) os (b ++ codes " ORDER BY ") (rest-text os)
