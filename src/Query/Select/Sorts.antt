-- ===== src/Query/Select/Sorts.antt =====
-- What `Order` of query_select.go writes: an independent reading of the names and sorts it is given.
use shilohcommunityenterpris.Common.{
  ℕ, ◌+◌, ◌≤◌, Bool, true, false, ◌||◌, ◌&&◌, List, [], ◌∷◌, ◌++◌, Option, none, some, map, within,
  All, arith, if◌then◌else◌, Bytes, codes, bytes_eq, ◌==◌, ◌≡◌, ◌≢◌, refl, ap, ◌∙◌, Bool-cases, inl,
  inr,
}
use shilohcommunityenterpris.Common.Result.{ok}
use shilohcommunityenterpris.Common.Utf8.{runes}
use shilohcommunityenterpris.Dialect.{append_ident}
use shilohcommunityenterpris.Query.Fragment.{Fmter}
use shilohcommunityenterpris.Query.Insert.Statement.{upper_rune, to_upper}
use shilohcommunityenterpris.Query.Select.{append_clause}
use shilohcommunityenterpris.Query.Select.Order.{
  split_space, mem_text, is_sort, add_orders, split_text, split_words, order_clause,
  split_clause-add_orders,
}

-- The first space, the text before it and the text behind it.
unfoldable pub has_space : Bytes → Bool
has_space [] = false
has_space (c ∷ o) = c == b' ' || has_space o

unfoldable pub before_space : Bytes → Bytes
before_space [] = []
before_space (c ∷ o) = if c == b' ' then [] else c ∷ before_space o

unfoldable pub behind_space : Bytes → Bytes
behind_space [] = []
behind_space (c ∷ o) = if c == b' ' then o else behind_space o

-- Whether a rune is a capital `c`, in either case; the dotless i and the long s count as I and S.
abbrev pub is_letter : ℕ → ℕ → Bool
is_letter c r =
    r == c
    || (within b'A' b'Z' c && r == c + 32)
    || (c == b'I' && r == 0x131)
    || (c == b'S' && r == 0x17F)

unfoldable pub spells : Bytes → List ℕ → Bool
spells [] [] = true
spells [] (r ∷ rs) = false
spells (c ∷ w) [] = false
spells (c ∷ w) (r ∷ rs) = is_letter c r && spells w rs

-- One direction, with or without a place for NULL.
unfoldable pub spells_order : Bytes → List ℕ → Bool
unfolding spells
spells_order w rs =
    spells w rs || spells (w ++ codes " NULLS FIRST") rs || spells (w ++ codes " NULLS LAST") rs

unfoldable pub is_known : Bytes → Bool
unfolding spells_order
is_known s = spells_order (codes "ASC") (runes s) || spells_order (codes "DESC") (runes s)

-- What an order stands for: a quoted name and a known sort behind it, or all of it as a name.
unfoldable pub order_text : Fmter → Bytes → Bytes
unfolding has_space before_space behind_space is_known
order_text fm o =
    if has_space o && is_known (behind_space o)
    then (append_ident [] (before_space o) fm.ident_quote ++ b' ' ∷ []) ++ behind_space o
    else append_ident [] o fm.ident_quote

-- The texts of the orders that are not empty.
unfoldable pub order_words : Fmter → List Bytes → List Bytes
unfolding order_text
order_words fm [] = []
order_words fm ([] ∷ os) = order_words fm os
order_words fm ((c ∷ o) ∷ os) = order_text fm (c ∷ o) ∷ order_words fm os

split_space-parts :
    (o : Bytes)
    → split_space o
      ≡ if◌then◌else◌ {A = Option (Bytes × Bytes)}
          (has_space o)
          (some (before_space o, behind_space o))
          none
unfolding split_space has_space before_space behind_space
split_space-parts [] = refl
split_space-parts (c ∷ o) = elim (Bool-cases (c == b' ')) [
  | inl e ↦ rw e refl
  | inr e ↦
      rw (e, split_space-parts o) (cons_part c (has_space o) (before_space o) (behind_space o))
]
  where
    cons_part :
        (c : ℕ) (h : Bool) (u v : Bytes)
        → (elim (if◌then◌else◌ {A = Option (Bytes × Bytes)} h (some (u, v)) none)
            as (λ _. Option (Bytes × Bytes)) [ none ↦ none | some (u, v) ↦ some (c ∷ u, v) ])
          ≡ if◌then◌else◌ {A = Option (Bytes × Bytes)} h (some (c ∷ u, v)) none
    cons_part c true u v = refl
    cons_part c false u v = refl

-- A capital or a space.
abbrev IsCapital : ℕ → Type 0
IsCapital c = c ≤ b'Z'

upper_rune-is_letter : (c r : ℕ) → IsCapital c → (upper_rune r == c) ≡ is_letter c r
upper_rune-is_letter c r h = ground arith

bytes_eq-spells :
    (w : Bytes) (rs : List ℕ) → All IsCapital w → bytes_eq (map upper_rune rs) w ≡ spells w rs
unfolding spells
bytes_eq-spells [] [] h = refl
bytes_eq-spells [] (r ∷ rs) h = refl
bytes_eq-spells (c ∷ w) [] h = refl
bytes_eq-spells (c ∷ w) (r ∷ rs) (hc, h) =
    rw (upper_rune-is_letter c r hc, bytes_eq-spells w rs h) refl

sorted_bools :
    (a b c d e f : Bool)
    → (a || (b || (c || (d || (e || (f || false)))))) ≡ ((a || c || e) || (b || d || f))
sorted_bools a b c d e f = ground arith

is_sort-is_known : (s : Bytes) → is_sort s ≡ is_known s
unfolding is_sort mem_text to_upper is_known spells_order
is_sort-is_known s =
    let rs = runes s in
    rw
      (
        bytes_eq-spells (codes "ASC") rs (omega arith),
        bytes_eq-spells (codes "DESC") rs (omega arith),
        bytes_eq-spells (codes "ASC NULLS FIRST") rs (omega arith),
        bytes_eq-spells (codes "DESC NULLS FIRST") rs (omega arith),
        bytes_eq-spells (codes "ASC NULLS LAST") rs (omega arith),
        bytes_eq-spells (codes "DESC NULLS LAST") rs (omega arith),
      )
      (sorted_bools (spells (codes "ASC") rs) (spells (codes "DESC") rs)
        (spells (codes "ASC NULLS FIRST") rs) (spells (codes "DESC NULLS FIRST") rs)
        (spells (codes "ASC NULLS LAST") rs) (spells (codes "DESC NULLS LAST") rs))

split_text-order_text :
    (fm : Fmter) (o : Bytes) → split_text fm o (split_space o) [] ≡ order_text fm o
unfolding order_text
split_text-order_text fm o = rw (split_space-parts o) (elim (Bool-cases (has_space o)) [
  | inl e ↦ rw (e, is_sort-is_known (behind_space o)) refl
  | inr e ↦ rw e refl
])

split_words-order_words : (fm : Fmter) (os : List Bytes) → split_words fm os ≡ order_words fm os
unfolding split_words order_words
split_words-order_words fm [] = refl
split_words-order_words fm ([] ∷ os) = split_words-order_words fm os
split_words-order_words fm ((c ∷ o) ∷ os) =
    ap (λ w. w ∷ split_words fm os) (split_text-order_text fm (c ∷ o))
    ∙ ap (λ l. order_text fm (c ∷ o) ∷ l) (split_words-order_words fm os)

module _ (fm : Fmter) (nop : fm.formatter.is_nop ≡ false) (nd : fm.ident_quote ≢ b'.')
    (ns : fm.ident_quote ≢ b'*') where
  -- The clause ORDER BY of names that Order was given is a list of texts with commas. Each is a
  -- quoted name, whatever the name holds, with nothing behind it or, where the text behind the first
  -- space of what was given is ASC or DESC with or without NULLS FIRST or NULLS LAST in any case,
  -- with a space and that text, where the dotless i and the long s count as I and S; empty names are
  -- left out. The query is no template, and the quote of identifiers is neither a dot nor a star.
  pub append_clause-add_orders :
      (os : List Bytes) (b : Bytes)
      → append_clause fm (codes " ORDER BY ") (add_orders fm.ident_quote os []) b
        ≡ ok (order_clause fm nop nd ns b (order_words fm os))
  append_clause-add_orders os b =
      split_clause-add_orders fm nop nd ns os b
      ∙ ap (λ ws. ok (order_clause fm nop nd ns b ws)) (split_words-order_words fm os)
