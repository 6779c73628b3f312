-- ===== src/Query/Where/Balance.antt =====
-- The `WHERE` clause keeps the depth in parentheses.
use shilohcommunityenterpris.Common.{
  ℕ, suc, Bool, true, false, not, ◌&&◌, ◌||◌, List, [], ◌∷◌, ◌++◌, Option, none, some,
  if◌then◌else◌, Bytes, codes, length, ltb, All, ◌≡◌, refl,
}
use shilohcommunityenterpris.Common.Result.{ok, err}
use shilohcommunityenterpris.Query.Fragment.{no_where, Fmter, comma}
use shilohcommunityenterpris.Query.Base.{
  Field, Table, Struct, Model, struct_model, slice_model, other_model, BaseQuery, is_soft_delete,
  append_fields,
}
use shilohcommunityenterpris.Query.Base.Balance.{
  IsKept, IsPlainField, IsPlainTable, PlainTable, append_fields-At,
}
use shilohcommunityenterpris.Query.Where.{
  WhereQuery, append_conditions, append_deleted_test, append_soft_field, append_soft_delete,
  soft_by, and_if, dotted, field_value, struct_fields, many, row_values, slice_rows,
  append_slice_fields, append_where_fields, append_pk, no_conditions, append_where,
  must_append_where,
}
use shilohcommunityenterpris.Query.Balance.{
  nest, At, IsBalanced, At-text, Ends, Keeps, Ends-bind, Ends-if, At-if,
}
use shilohcommunityenterpris.Query.Where.Conditions.{separators, conditions-Ends}

module _ (fm : Fmter) where
  -- A model whose values keep the depth.
  abbrev pub IsPlainStruct : Struct → Type 0
  IsPlainStruct s = (f : Field) (k : ℕ) (b : Bytes) → At k b → At k (s.append_value f b)

  abbrev pub PlainModel : Option Model → Type 0
  PlainModel none = Unit
  PlainModel (some (struct_model none)) = Unit
  PlainModel (some (struct_model (some s))) = IsPlainStruct s
  PlainModel (some (slice_model ss)) = All IsPlainStruct ss
  PlainModel (some other_model) = Unit

  abbrev pub PlainFields : Option (List Field) → Type 0
  PlainFields none = Unit
  PlainFields (some fs) = All IsPlainField fs

  abbrev pub PlainSoftField : Option Table → Type 0
  PlainSoftField none = Unit
  PlainSoftField (some t) = (f : Field) → t.soft_delete_field ≡ some f → IsPlainField f

  pub record IsPlainWhere (w : WhereQuery) : Type 0 where
    pub conditions : All (λ c. IsKept fm c.query) w.conditions
    pub groups : IsBalanced (separators fm true w.conditions)
    pub table : PlainTable fm w.base.table
    pub model : PlainModel w.base.model
    pub where_fields : PlainFields w.where_fields
    pub soft_field : PlainSoftField w.base.table
    pub zero_time : (k : ℕ) (b : Bytes) → At k b → At k (fm.append_zero_time b)

  and_if-At : (k start : ℕ) (b : Bytes) → At k b → At k (and_if start b)
  unfolding nest
  and_if-At k start b hb =
      At-if k (ltb start (length b)) (b ++ codes " AND ") b (At-text b (codes " AND ") hb refl) hb

  deleted-At :
      (k : ℕ) (deleted : Bool) (f : Field) (b : Bytes)
      → ((k : ℕ) (b : Bytes) → At k b → At k (fm.append_zero_time b))
      → At k b
      → At k (append_deleted_test fm deleted f b)
  unfolding append_deleted_test nest
  deleted-At k deleted f b hz hb =
      At-if k (f.is_ptr || f.null_zero) _ _
        (At-if k deleted _ _ (At-text b (codes " IS NOT NULL") hb refl)
          (At-text b (codes " IS NULL") hb refl))
        (hz k _ (
          At-if k deleted _ _ (At-text b (codes " != ") hb refl) (At-text b (codes " = ") hb refl)))

  soft_field-At :
      (k : ℕ) (alias deleted : Bool) (t : Table) (o : Option Field) (b : Bytes)
      → IsPlainTable fm t
      → ((f : Field) → o ≡ some f → IsPlainField f)
      → ((k : ℕ) (b : Bytes) → At k b → At k (fm.append_zero_time b))
      → At k b
      → At k (append_soft_field fm alias deleted t o b)
  unfolding append_soft_field nest
  soft_field-At k alias deleted t none b ht hf hz hb = hb
  soft_field-At k true deleted t (some f) b ht hf hz hb = deleted-At k deleted f _ hz (
      At-text _ f.sql_name (At-text _ (b'.' ∷ []) (At-text b t.sql_alias hb (ht.sql_alias k)) refl)
        (hf f refl k))
  soft_field-At k false deleted t (some f) b ht hf hz hb = deleted-At k deleted f _ hz (
      At-text _ f.sql_name (At-text _ (b'.' ∷ []) (At-text b t.sql_name hb (ht.name_text k)) refl)
        (hf f refl k))

  soft-At :
      (k : ℕ) (alias deleted : Bool) (start : ℕ) (c : Bool) (o : Option Table) (b : Bytes)
      → PlainTable fm o
      → PlainSoftField o
      → ((k : ℕ) (b : Bytes) → At k b → At k (fm.append_zero_time b))
      → At k b
      → At k (soft_by fm alias deleted start c o b)
  soft-At k alias deleted start false o b ht hf hz hb = hb
  soft-At k alias deleted start true none b ht hf hz hb = hb
  soft-At k alias deleted start true (some t) b ht hf hz hb =
      soft_field-At k alias deleted t t.soft_delete_field (and_if start b) ht hf hz
        (and_if-At k start b hb)

  value-At :
      (k : ℕ) (s : Struct) (f : Field) (b : Bytes)
      → IsPlainStruct s
      → At k b
      → At k (field_value fm s f b)
  unfolding nest
  value-At k s f b hs hb =
      At-if k fm.formatter.is_nop _ _ (At-text b (b'?' ∷ []) hb refl) (hs f k b hb)

  dotted-At :
      (k : ℕ) (alias : Bool) (t : Table) (b : Bytes)
      → IsPlainTable fm t
      → At k b
      → At k (dotted alias t b)
  unfolding nest
  dotted-At k alias t b ht hb =
      At-if k alias _ b (At-text _ (b'.' ∷ []) (At-text b t.sql_alias hb (ht.sql_alias k)) refl) hb

  struct_fields-At :
      (k : ℕ) (alias : Bool) (t : Table) (s : Struct) (first : Bool) (fs : List Field) (b : Bytes)
      → IsPlainTable fm t
      → IsPlainStruct s
      → All IsPlainField fs
      → At k b
      → At k (struct_fields fm alias t s first fs b)
  unfolding struct_fields nest
  struct_fields-At k alias t s first [] b ht hs h hb = hb
  struct_fields-At k alias t s first (f ∷ fs) b ht hs (hf, h) hb =
      let start = if first then b else b ++ codes " AND " in
      let h0 : At k start =
        At-if k first b (b ++ codes " AND ") hb (At-text b (codes " AND ") hb refl) in
      let h1 = dotted-At k alias t start ht h0 in
      let h2 =
        At-text (dotted alias t start ++ f.sql_name) (codes " = ")
          (At-text (dotted alias t start) f.sql_name h1 (hf k)) refl in
      struct_fields-At k alias t s false fs _ ht hs h (value-At k s f _ hs h2)

  row_values-At :
      (k : ℕ) (s : Struct) (first : Bool) (fs : List Field) (b : Bytes)
      → IsPlainStruct s
      → At k b
      → At k (row_values fm s first fs b)
  unfolding row_values nest
  row_values-At k s first [] b hs hb = hb
  row_values-At k s first (f ∷ fs) b hs hb =
      row_values-At k s false fs _ hs
        (value-At k s f _ hs (At-if k first b (b ++ comma) hb (At-text b comma hb refl)))

  -- One row, in parentheses where it has several values.
  row-At :
      (k : ℕ) (s : Struct) (fs : List Field) (c : Bool) (b : Bytes)
      → IsPlainStruct s
      → At k b
      → At k (
          if c
          then row_values fm s true fs (if c then b ++ codes "(" else b) ++ codes ")"
          else row_values fm s true fs (if c then b ++ codes "(" else b))
  unfolding nest
  row-At k s fs true b hs hb =
      At-text _ (codes ")") (row_values-At (suc k) s true fs _ hs (At-text b (codes "(") hb refl))
        refl
  row-At k s fs false b hs hb = row_values-At k s true fs b hs hb

  slice_rows-At :
      (k : ℕ) (fs : List Field) (first : Bool) (ss : List Struct) (b : Bytes)
      → All IsPlainStruct ss
      → At k b
      → At k (slice_rows fm fs first ss b)
  unfolding slice_rows nest
  slice_rows-At k fs first [] b h hb = hb
  slice_rows-At k fs first (s ∷ ss) b (hs, h) hb =
      let b' = if first then b else b ++ comma in
      At-if k (fm.formatter.is_nop && not first) b _ hb (
        slice_rows-At k fs false ss _ h (
          row-At k s fs (many fs) b' hs
            (At-if k first b (b ++ comma) hb (At-text b comma hb refl))))

  names-At :
      (k : ℕ) (alias : Bytes) (fs : List Field) (c : Bool) (b : Bytes)
      → IsBalanced alias
      → All IsPlainField fs
      → At k b
      → At k (
          if c
          then append_fields alias true fs (if c then b ++ codes "(" else b) ++ codes ")"
          else append_fields alias true fs (if c then b ++ codes "(" else b))
  unfolding nest
  names-At k alias fs true b ha h hb =
      At-text _ (codes ")")
        (append_fields-At alias true fs (suc k) _ ha h (At-text b (codes "(") hb refl)) refl
  names-At k alias fs false b ha h hb = append_fields-At alias true fs k b ha h hb

  alias-IsBalanced :
      (alias : Bool) (t : Table)
      → IsPlainTable fm t
      → IsBalanced (if alias then t.sql_alias else [])
  unfolding nest
  alias-IsBalanced true t h k = h.sql_alias k
  alias-IsBalanced false t h k = refl

  where_fields-Ends :
      (k : ℕ) (alias : Bool) (o : Option Table) (m : Option Model) (fs : List Field) (b : Bytes)
      → PlainTable fm o
      → PlainModel m
      → All IsPlainField fs
      → At k b
      → Ends k (append_where_fields fm alias o m fs b)
  unfolding append_where_fields append_slice_fields nest
  where_fields-Ends k alias none m fs b ht hm h hb = tt
  where_fields-Ends k alias (some t) (some (struct_model (some s))) fs b ht hm h hb =
      At-text _ (b')' ∷ [])
        (struct_fields-At (suc k) alias t s true fs _ ht hm h (At-text b (b'(' ∷ []) hb refl)) refl
  where_fields-Ends k alias (some t) (some (struct_model none)) fs b ht hm h hb = tt
  where_fields-Ends k alias (some t) (some (slice_model ss)) fs b ht hm h hb =
      At-text _ (codes ")")
        (slice_rows-At (suc k) fs true ss _ hm (
          At-text _ (codes " IN (")
            (names-At k (if alias then t.sql_alias else []) fs (many fs) b
              (alias-IsBalanced alias t ht) h hb)
            refl))
        refl
  where_fields-Ends k alias (some t) (some other_model) fs b ht hm h hb = tt
  where_fields-Ends k alias (some t) none fs b ht hm h hb = tt

  pk-Ends :
      (k : ℕ) (alias : Bool) (q : BaseQuery) (start : ℕ) (o : Option (List Field)) (b : Bytes)
      → PlainTable fm q.table
      → PlainModel q.model
      → PlainFields o
      → At k b
      → Ends k (append_pk fm alias q start o b)
  pk-Ends k alias q start none b ht hm h hb = hb
  pk-Ends k alias q start (some fs) b ht hm h hb =
      where_fields-Ends k alias q.table q.model fs (and_if start b) ht hm h (and_if-At k start b hb)

  pub append_where-Keeps :
      (alias : Bool) (w : WhereQuery) → IsPlainWhere w → Keeps (append_where fm alias w)
  unfolding append_where append_soft_delete nest
  append_where-Keeps alias w h k b hb =
      let b0 = b ++ codes " WHERE " in
      let start = length b0 in
      Ends-if k (no_conditions w && not (is_soft_delete w.base)) (ok b) _ hb (
        Ends-bind k k (append_conditions fm true w.conditions b0) _
          (conditions-Ends fm true w.conditions k k b0 h.conditions (h.groups k)
            (At-text b (codes " WHERE ") hb refl))
          (λ b1 h1. pk-Ends k alias w.base start w.where_fields _ h.table h.model h.where_fields (
            soft-At k alias w.base.flags.deleted start (is_soft_delete w.base) w.base.table b1
              h.table h.soft_field h.zero_time h1)))

  pub must_append_where-Keeps :
      (alias : Bool) (w : WhereQuery) → IsPlainWhere w → Keeps (must_append_where fm alias w)
  unfolding must_append_where
  must_append_where-Keeps alias w h k b hb =
      Ends-if k (no_conditions w) (err no_where) (append_where fm alias w b) tt
        (append_where-Keeps alias w h k b hb)
