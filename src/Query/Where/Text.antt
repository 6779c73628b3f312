-- ===== src/Query/Where/Text.antt =====
-- The text that `appendWhere` writes for a tree of conditions.
use shilohcommunityenterpris.Common.{
  true, false, List, [], ◌∷◌, ◌++◌, append-nil, append_assoc, Bytes, codes, ◌≡◌, refl, sym, ap, ◌∙◌,
}
use shilohcommunityenterpris.Common.Result.{ok, ◌>>=◌}
use shilohcommunityenterpris.Query.Fragment.{
  Appender, Fmter, QueryWithArgs, QueryWithSep, is_empty, is_empty_list, safe_query_with_sep,
  append_query_with_args,
}
use shilohcommunityenterpris.Query.Where.{
  add_where, add_where_group, drop_first_sep, separator, append_condition, append_conditions,
}
use shilohcommunityenterpris.Query.Where.Tree.{
  Sep, and_, or_, sep_text, Cond, test, group, Conds, end, more, build_one, build, Token,
  open_paren, close_paren, atom, print, print-append, sep_token, tokens, tokens_from,
}

-- The pieces of a condition: its first, and those behind it.
abbrev head : Sep → Cond → QueryWithSep
head s (test q) = record { query = q; sep = sep_text s }
head s (group s' c cs) = separator (sep_text s)

abbrev close : QueryWithSep
close = separator (codes ")")

mutual
  behind : Cond → List QueryWithSep
  behind (test q) = []
  behind (group s c cs) =
      separator (codes "(") ∷ record (head s c) { sep = [] } ∷ (behind c ++ (flat cs ++ close ∷ []))

  flat : Conds → List QueryWithSep
  flat end = []
  flat (more s c cs) = head s c ∷ (behind c ++ flat cs)

mutual
  unfolding build_one build behind flat add_where add_where_group drop_first_sep

  build_one-flat :
      (s : Sep) (c : Cond) (ws : List QueryWithSep) → build_one s c ws ≡ ws ++ head s c ∷ behind c
  build_one-flat s (test q) ws = refl
  build_one-flat s (group s' c cs) ws =
      ap (λ g. add_where_group (sep_text s) g ws)
        (ap (build cs) (build_one-flat s' c []) ∙ build-flat cs (head s' c ∷ behind c))
      ∙ simp append_assoc

  build-flat : (cs : Conds) (ws : List QueryWithSep) → build cs ws ≡ ws ++ flat cs
  build-flat end ws = sym (append-nil ws)
  build-flat (more s c cs) ws =
      ap (build cs) (build_one-flat s c ws)
      ∙ build-flat cs (ws ++ head s c ∷ behind c)
      ∙ append_assoc ws (head s c ∷ behind c) (flat cs)

module _ (fm : Fmter) (text : QueryWithArgs → Bytes) where
  -- The tests of a tree are not empty, and each writes its text.
  unfoldable mutual
    pub IsWritten : Cond → Type 0
    IsWritten (test q) =
        (is_empty q.query ≡ false)
        × ((b : Bytes) → append_query_with_args fm q b ≡ ok (b ++ text q))
    IsWritten (group s c cs) = IsWritten c × AreWritten cs

    pub AreWritten : Conds → Type 0
    AreWritten end = Unit
    AreWritten (more s c cs) = IsWritten c × AreWritten cs

module _ (text : QueryWithArgs → Bytes) where
  mutual
    unfolding tokens tokens_from

    tokens-append : (c : Cond) (ts : List Token) → tokens text c ts ≡ tokens text c [] ++ ts
    tokens-append (test q) ts = refl
    tokens-append (group s c cs) ts =
        ap (λ l. open_paren ∷ l)
          (tokens-append c (tokens_from text cs (close_paren ∷ ts))
            ∙ ap (λ l. tokens text c [] ++ l)
                (tokens_from-append cs (close_paren ∷ ts)
                  ∙ sym (append_assoc (tokens_from text cs []) (close_paren ∷ []) ts)
                  ∙ ap (λ l. l ++ ts) (sym (tokens_from-append cs (close_paren ∷ []))))
            ∙ sym (append_assoc (tokens text c []) (tokens_from text cs (close_paren ∷ [])) ts)
            ∙ ap (λ l. l ++ ts) (sym (tokens-append c (tokens_from text cs (close_paren ∷ [])))))

    tokens_from-append :
        (cs : Conds) (ts : List Token) → tokens_from text cs ts ≡ tokens_from text cs [] ++ ts
    tokens_from-append end ts = refl
    tokens_from-append (more s c cs) ts =
        ap (λ l. sep_token text s ∷ l)
          (tokens-append c (tokens_from text cs ts)
            ∙ ap (λ l. tokens text c [] ++ l) (tokens_from-append cs ts)
            ∙ sym (append_assoc (tokens text c []) (tokens_from text cs []) ts)
            ∙ ap (λ l. l ++ ts) (sym (tokens-append c (tokens_from text cs []))))

  pub print-tokens :
      (c : Cond) (ts : List Token) → print (tokens text c ts) ≡ print (tokens text c []) ++ print ts
  print-tokens c ts = ap print (tokens-append c ts) ∙ print-append (tokens text c []) ts

  pub print-tokens_from :
      (cs : Conds) (ts : List Token)
      → print (tokens_from text cs ts) ≡ print (tokens_from text cs []) ++ print ts
  print-tokens_from cs ts =
      ap print (tokens_from-append cs ts) ∙ print-append (tokens_from text cs []) ts

  print-sep_token :
      (s : Sep) (ts : List Token) → print (sep_token text s ∷ ts) ≡ sep_text s ++ print ts
  unfolding print
  print-sep_token and_ ts = refl
  print-sep_token or_ ts = refl

print-nil : print [] ≡ []
unfolding print
print-nil = refl

sep-head : (s : Sep) (c : Cond) → (head s c).sep ≡ sep_text s
unfolding safe_query_with_sep
sep-head s (test q) = refl
sep-head s (group s' c cs) = refl

module _ (fm : Fmter) (text : QueryWithArgs → Bytes) where
  -- A condition whose separator is written, and what stands behind it.
  abbrev goes_on : Cond → Sep → List QueryWithSep → Appender
  goes_on c s rest b =
      append_condition fm (head s c) b >>= λ b'. append_conditions fm false (behind c ++ rest) b'

  test_text :
      (b : Bytes) (q : QueryWithArgs)
      → ((b ++ b'(' ∷ []) ++ text q) ++ b')' ∷ []
        ≡ b ++ print (open_paren ∷ atom (text q) ∷ close_paren ∷ [])
  unfolding print
  test_text b q = simp append_assoc

  group_text :
      (b : Bytes) (c : Cond) (cs : Conds)
      → ((((b ++ b'(' ∷ []) ++ []) ++ print (tokens text c [])) ++ print (tokens_from text cs []))
          ++ b')' ∷ []
        ≡ b ++ print (open_paren ∷ tokens text c (tokens_from text cs (close_paren ∷ [])))
  unfolding print
  group_text b c cs =
      let e = print-tokens text c (tokens_from text cs (close_paren ∷ [])) in
      let f = print-tokens_from text cs (close_paren ∷ []) in
      rw (e, f) (simp (append_assoc, append-nil))

  more_text :
      (b : Bytes) (s : Sep) (c : Cond) (cs : Conds)
      → ((b ++ (head s c).sep) ++ print (tokens text c [])) ++ print (tokens_from text cs [])
        ≡ b ++ print (sep_token text s ∷ tokens text c (tokens_from text cs []))
  more_text b s c cs =
      rw
        (
          print-sep_token text s (tokens text c (tokens_from text cs [])),
          print-tokens text c (tokens_from text cs []),
          sep-head s c,
        )
        (simp append_assoc)

  mutual
    unfolding append_conditions append_condition behind flat tokens tokens_from safe_query_with_sep
        IsWritten AreWritten

    head-tokens :
        (c : Cond) (s : Sep) (rest : List QueryWithSep) (b : Bytes)
        → IsWritten fm text c
        → goes_on c s rest b ≡ append_conditions fm false rest (b ++ print (tokens text c []))
    head-tokens (test q) s rest b (he, hw) =
        rw (he, hw (b ++ b'(' ∷ [])) (ap (append_conditions fm false rest) (test_text b q))
    head-tokens (group s' c cs) s rest b (hc, hs) =
        let start = (b ++ b'(' ∷ []) ++ [] in
        ap (λ l. append_condition fm (head s' c) start >>= λ b'. append_conditions fm false l b')
          (append_assoc (behind c) (flat cs ++ close ∷ []) rest
            ∙ ap (λ l. behind c ++ l) (append_assoc (flat cs) (close ∷ []) rest))
        ∙ head-tokens c s' (flat cs ++ close ∷ rest) start hc
        ∙ flat-tokens cs (close ∷ rest) (start ++ print (tokens text c [])) hs
        ∙ ap (append_conditions fm false rest) (group_text b c cs)

    flat-tokens :
        (cs : Conds) (rest : List QueryWithSep) (b : Bytes)
        → AreWritten fm text cs
        → append_conditions fm false (flat cs ++ rest) b
          ≡ append_conditions fm false rest (b ++ print (tokens_from text cs []))
    flat-tokens end rest b h =
        ap (append_conditions fm false rest) (sym (append-nil b) ∙ ap (λ w. b ++ w) (sym print-nil))
    flat-tokens (more s c cs) rest b (hc, hs) =
        ap
          (λ l. append_condition fm (head s c) (b ++ (head s c).sep) >>= λ b'.
            append_conditions fm false l b')
          (append_assoc (behind c) (flat cs) rest)
        ∙ head-tokens c s (flat cs ++ rest) (b ++ (head s c).sep) hc
        ∙ flat-tokens cs rest ((b ++ (head s c).sep) ++ print (tokens text c [])) hs
        ∙ ap (append_conditions fm false rest) (more_text b s c cs)

  -- The conditions that the calls have built write the text of their tree.
  pub append_conditions-tokens :
      (s : Sep) (c : Cond) (cs : Conds) (b : Bytes)
      → IsWritten fm text c
      → AreWritten fm text cs
      → append_conditions fm true (build (more s c cs) []) b
        ≡ ok (b ++ print (tokens text c (tokens_from text cs [])))
  unfolding append_conditions flat
  append_conditions-tokens s c cs b hc hs =
      ap (λ l. append_conditions fm true l b) (build-flat (more s c cs) [])
      ∙ ap
          (λ l. append_condition fm (head s c) b >>= λ b'.
            append_conditions fm false (behind c ++ l) b')
          (sym (append-nil (flat cs)))
      ∙ head-tokens c s (flat cs ++ []) b hc
      ∙ flat-tokens cs [] (b ++ print (tokens text c [])) hs
      ∙ ap ok (
          append_assoc b (print (tokens text c [])) (print (tokens_from text cs []))
          ∙ ap (λ w. b ++ w) (sym (print-tokens text c (tokens_from text cs []))))

pub build-cons : (s : Sep) (c : Cond) (cs : Conds) → is_empty_list (build (more s c cs) []) ≡ false
unfolding flat
build-cons s c cs = ap is_empty_list (build-flat (more s c cs) [])
