-- ===== src/Query/Select/Balance/Columns.antt =====
-- The columns of a `SELECT` keep the depth in parentheses.
use shilohcommunityenterpris.Common.{
  ℕ, Bool, true, false, ◌&&◌, List, [], ◌∷◌, ◌++◌, Option, none, some, if◌then◌else◌, Bytes, codes,
  bytes_eq, length, ltb, ◌==◌, All, refl,
}
use shilohcommunityenterpris.Schema.Formatter.{Arg}
use shilohcommunityenterpris.Query.Fragment.{Fmter, QueryWithArgs, comma}
use shilohcommunityenterpris.Query.Base.{Field, Table, BaseQuery}
use shilohcommunityenterpris.Query.Base.Balance.{
  IsKept, comma-IsBalanced, IsPlainField, IsPlainTable, PlainTable, append_fields-At,
}
use shilohcommunityenterpris.Query.Select.{
  InlineJoin, find_field, known_field, append_known, append_column, count_fields,
  append_all_columns, inline_columns, append_select_columns, columns_or_all,
}
use shilohcommunityenterpris.Query.Balance.{
  nest, At, IsBalanced, At-text, Ends, Keeps, Ends-bind, At-if, each-Keeps,
}
use shilohcommunityenterpris.Query.Balance.Number.{count-IsBalanced, trim_comma-At}

abbrev pub KeptPieces : Fmter → List QueryWithArgs → Type 0
KeptPieces fm qs = All (IsKept fm) qs

abbrev pub KeptOptional : Fmter → Option (List QueryWithArgs) → Type 0
KeptOptional fm none = Unit
KeptOptional fm (some qs) = KeptPieces fm qs

pub record IsPlainInline (fm : Fmter) (j : InlineJoin) : Type 0 where
  pub columns : Keeps (j.append_columns fm)
  pub has_one_join : Keeps (j.append_has_one_join fm)

-- The dialect's string literals keep the depth, if their text does.
abbrev pub IsPlainStrings : (Bytes → Bytes → Bytes) → Type 0
IsPlainStrings append_string =
    (k : ℕ) (b s : Bytes) → IsBalanced s → At k b → At k (append_string b s)

abbrev PlainFound : Option Field → Type 0
PlainFound none = Unit
PlainFound (some f) = IsPlainField f

if-PlainFound :
    (c : Bool) (o p : Option Field) → PlainFound o → PlainFound p → PlainFound (if c then o else p)
if-PlainFound true o p h g = h
if-PlainFound false o p h g = g

find_field-PlainFound :
    (n : Bytes) (fs : List Field) → All IsPlainField fs → PlainFound (find_field n fs)
unfolding find_field
find_field-PlainFound n [] h = tt
find_field-PlainFound n (f ∷ fs) (hf, h) =
    if-PlainFound (bytes_eq f.name n) (some f) (find_field n fs) hf (find_field-PlainFound n fs h)

module _ (fm : Fmter) where
  by_name-Ends :
      (k : ℕ) (q : QueryWithArgs) (t : Table) (o : Option Field) (b : Bytes)
      → IsKept fm q
      → IsPlainTable fm t
      → PlainFound o
      → At k b
      → Ends k (append_known fm q (elim o [ none ↦ none | some f ↦ some (t, f) ]) b)
  unfolding nest
  by_name-Ends k q t none b hq ht ho hb = hq k b hb
  by_name-Ends k q t (some f) b hq ht ho hb =
      At-text _ f.sql_name (At-text _ (b'.' ∷ []) (At-text b t.sql_alias hb (ht.sql_alias k)) refl)
        (ho k)

  with_args-Ends :
      (k : ℕ) (q : QueryWithArgs) (t : Table) (o : Option (List Arg)) (b : Bytes)
      → IsKept fm q
      → IsPlainTable fm t
      → At k b
      → Ends k (
          append_known fm q
            (elim o [
              | none ↦ elim (find_field q.query t.fields) [ none ↦ none | some f ↦ some (t, f) ]
              | some l ↦ none
            ])
            b)
  with_args-Ends k q t none b hq ht hb =
      by_name-Ends k q t (find_field q.query t.fields) b hq ht
        (find_field-PlainFound q.query t.fields ht.fields) hb
  with_args-Ends k q t (some l) b hq ht hb = hq k b hb

  known-Ends :
      (k : ℕ) (q : QueryWithArgs) (o : Option Table) (b : Bytes)
      → IsKept fm q
      → PlainTable fm o
      → At k b
      → Ends k (append_known fm q (known_field q o) b)
  known-Ends k q none b hq ht hb = hq k b hb
  known-Ends k q (some t) b hq ht hb = with_args-Ends k q t q.args b hq ht hb

  column-Keeps :
      (o : Option Table) (q : QueryWithArgs)
      → PlainTable fm o
      → IsKept fm q
      → Keeps (append_column fm o q)
  unfolding append_column
  column-Keeps o q ho hq k b hb = known-Ends k q o b hq ho hb

  columns-All :
      (o : Option Table) (qs : List QueryWithArgs)
      → PlainTable fm o
      → KeptPieces fm qs
      → All (λ q. Keeps (append_column fm o q)) qs
  columns-All o [] ho h = tt
  columns-All o (q ∷ qs) ho (hq, h) = (column-Keeps o q ho hq, columns-All o qs ho h)

  all_columns-At :
      (k : ℕ) (strings : Bytes → Bytes → Bytes) (o : Option Table) (b : Bytes)
      → IsPlainStrings strings
      → PlainTable fm o
      → At k b
      → At k (append_all_columns fm strings o b)
  unfolding append_all_columns nest
  all_columns-At k strings none b hs ho hb = At-text b (codes "*") hb refl
  all_columns-At k strings (some t) b hs ho hb =
      At-if k (ltb 10 (count_fields t.fields) && fm.formatter.is_nop) _ _
        (hs k _ _ (count-IsBalanced (count_fields t.fields) (codes " columns") (λ j. refl))
          (At-text _ (b'.' ∷ []) (At-text b t.sql_alias hb (ho.sql_alias k)) refl))
        (append_fields-At t.sql_alias true t.fields k b ho.sql_alias ho.fields hb)

  inline_columns-Keeps :
      (start : ℕ) (js : List InlineJoin)
      → All (IsPlainInline fm) js
      → Keeps (inline_columns fm start js)
  unfolding inline_columns nest
  inline_columns-Keeps start [] h k b hb = hb
  inline_columns-Keeps start (j ∷ js) (hj, h) k b hb =
      let same = length b == start in
      let b0 = if same then b else b ++ comma in
      Ends-bind k k (j.append_columns fm b0) _
        (hj.columns k b0 (At-if k same b (b ++ comma) hb (At-text b comma hb refl)))
        (λ b1 h1. inline_columns-Keeps (if same then start else length b0) js h k b1 h1)

  chosen-Ends :
      (k : ℕ) (strings : Bytes → Bytes → Bytes) (q : BaseQuery) (o : Option (List QueryWithArgs))
      (b : Bytes)
      → IsPlainStrings strings
      → PlainTable fm q.table
      → KeptOptional fm o
      → At k b
      → Ends k (columns_or_all fm strings q o b)
  chosen-Ends k strings q none b hs ht h hb = all_columns-At k strings q.table b hs ht hb
  chosen-Ends k strings q (some cs) b hs ht h hb =
      each-Keeps comma (append_column fm q.table) comma-IsBalanced true cs
        (columns-All q.table cs ht h) k b hb

  pub append_select_columns-Keeps :
      (strings : Bytes → Bytes → Bytes) (q : BaseQuery) (js : List InlineJoin)
      → IsPlainStrings strings
      → PlainTable fm q.table
      → KeptOptional fm q.columns
      → All (IsPlainInline fm) js
      → Keeps (append_select_columns fm strings q js)
  unfolding append_select_columns
  append_select_columns-Keeps strings q js hs ht hc hj k b hb =
      Ends-bind k k (columns_or_all fm strings q q.columns b) _
        (chosen-Ends k strings q q.columns b hs ht hc hb)
        (λ b1 h1.
          Ends-bind k k (inline_columns fm (length b) js b1) _
            (inline_columns-Keeps (length b) js hj k b1 h1) (λ b2 h2. trim_comma-At k b2 h2))
