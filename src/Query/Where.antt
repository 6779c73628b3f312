-- ===== src/Query/Where.antt =====
-- query_base.go: the `WHERE` clause.
pub mod Tree
pub mod Text
pub mod Truth
pub mod SoftDelete
pub mod Conditions
pub mod Balance
use shilohcommunityenterpris.Common.{
  ℕ, ◌+◌, Bool, true, false, not, ◌&&◌, ◌||◌, List, [], ◌∷◌, ◌++◌, Option, none, some,
  if◌then◌else◌, Bytes, codes, bytes_eq, length, ltb,
}
use shilohcommunityenterpris.Common.Result.{Result, ok, err, ◌>>=◌}
use shilohcommunityenterpris.Query.Fragment.{
  QueryError, no_where, nil_model, unsupported_model, Appender, Fmter, QueryWithArgs, QueryWithSep,
  is_empty, is_empty_list, safe_query_with_sep, append_query_with_args, each, comma,
}
use shilohcommunityenterpris.Query.Base.{
  Field, Table, Struct, Model, struct_model, slice_model, other_model, BaseQuery, is_soft_delete,
  append_fields,
}

-- `whereBaseQuery`; `where_fields` is `none` where the slice is nil.
pub record WhereQuery : Type 0 where
  pub base : BaseQuery
  pub conditions : List QueryWithSep
  pub where_fields : Option (List Field)

-- `addWhere`
unfoldable pub add_where : QueryWithSep → List QueryWithSep → List QueryWithSep
add_where w ws = ws ++ w ∷ []

abbrev pub separator : Bytes → QueryWithSep
unfolding safe_query_with_sep
separator sep = safe_query_with_sep [] none sep

-- `where[0].Sep = ""`
unfoldable pub drop_first_sep : List QueryWithSep → List QueryWithSep
drop_first_sep [] = []
drop_first_sep (w ∷ ws) = record w { sep = [] } ∷ ws

-- `addWhereGroup`: nothing for an empty group
unfoldable pub add_where_group : Bytes → List QueryWithSep → List QueryWithSep → List QueryWithSep
unfolding add_where drop_first_sep separator
add_where_group sep [] ws = ws
add_where_group sep (g ∷ gs) ws =
    let opened = add_where (separator (codes "(")) (add_where (separator sep) ws) in
    add_where (separator (codes ")")) (opened ++ drop_first_sep (g ∷ gs))

-- One piece of `appendWhere`, whose text may be empty.
unfoldable pub append_condition : Fmter → QueryWithSep → Appender
append_condition fm w b =
    if is_empty w.query.query
    then ok b
    else (append_query_with_args fm w.query (b ++ b'(' ∷ []) >>= λ b'. ok (b' ++ b')' ∷ []))

-- `appendWhere` on a list of conditions
unfoldable pub append_conditions : Fmter → Bool → List QueryWithSep → Appender
unfolding append_condition
append_conditions fm first [] b = ok b
append_conditions fm first (w ∷ ws) b =
    append_condition fm w (if first then b else b ++ w.sep) >>= λ b'.
    append_conditions fm false ws b'

-- What tells a deleted row: `field.IsPtr || field.NullZero` reads NULL, and else the zero time.
unfoldable pub append_deleted_test : Fmter → Bool → Field → Bytes → Bytes
append_deleted_test fm deleted f b =
    if f.is_ptr || f.null_zero
    then (if deleted then b ++ codes " IS NOT NULL" else b ++ codes " IS NULL")
    else fm.append_zero_time (if deleted then b ++ codes " != " else b ++ codes " = ")

unfoldable pub append_soft_field : Fmter → Bool → Bool → Table → Option Field → Bytes → Bytes
unfolding append_deleted_test
append_soft_field fm with_alias deleted t none b = b
append_soft_field fm with_alias deleted t (some f) b =
    append_deleted_test fm deleted f
      (((b ++ (if with_alias then t.sql_alias else t.sql_name)) ++ b'.' ∷ []) ++ f.sql_name)

-- ` AND `, if something has been written since `start`.
abbrev pub and_if : ℕ → Bytes → Bytes
and_if start b = if ltb start (length b) then b ++ codes " AND " else b

abbrev pub soft_by : Fmter → Bool → Bool → ℕ → Bool → Option Table → Bytes → Bytes
soft_by fm with_alias deleted start false t b = b
soft_by fm with_alias deleted start true none b = b
soft_by fm with_alias deleted start true (some t) b =
    append_soft_field fm with_alias deleted t t.soft_delete_field (and_if start b)

-- The soft delete of `appendWhere`.
unfoldable pub append_soft_delete : Fmter → Bool → BaseQuery → ℕ → Bytes → Bytes
unfolding append_soft_field
append_soft_delete fm with_alias q start =
    soft_by fm with_alias q.flags.deleted start (is_soft_delete q) q.table

abbrev pub dotted : Bool → Table → Bytes → Bytes
dotted with_alias t b = if with_alias then (b ++ t.sql_alias) ++ b'.' ∷ [] else b

abbrev pub field_value : Fmter → Struct → Field → Bytes → Bytes
field_value fm s f b = if fm.formatter.is_nop then b ++ b'?' ∷ [] else s.append_value f b

-- The loop of `appendWhereStructFields`.
unfoldable pub struct_fields : Fmter → Bool → Table → Struct → Bool → List Field → Bytes → Bytes
struct_fields fm with_alias t s first [] b = b
struct_fields fm with_alias t s first (f ∷ fs) b =
    let start = if first then b else b ++ codes " AND " in
    struct_fields fm with_alias t s false fs
      (field_value fm s f ((dotted with_alias t start ++ f.sql_name) ++ codes " = "))

abbrev pub many : List Field → Bool
many [] = false
many (f ∷ []) = false
many (f ∷ g ∷ fs) = true

abbrev pub if_many : List Field → Bytes → Bytes → Bytes
if_many fs text b = if many fs then b ++ text else b

unfoldable pub row_values : Fmter → Struct → Bool → List Field → Bytes → Bytes
row_values fm s first [] b = b
row_values fm s first (f ∷ fs) b =
    row_values fm s false fs (field_value fm s f (if first then b else b ++ comma))

-- The loop of `appendWhereSliceFields`: a template has one row.
unfoldable pub slice_rows : Fmter → List Field → Bool → List Struct → Bytes → Bytes
unfolding row_values
slice_rows fm fs first [] b = b
slice_rows fm fs first (s ∷ ss) b =
    let rest = slice_rows fm fs false ss (
      if_many fs (codes ")")
        (row_values fm s true fs (if_many fs (codes "(") (if first then b else b ++ comma)))) in
    if fm.formatter.is_nop && not first then b else rest

unfoldable pub append_slice_fields : Fmter → Bool → Table → List Struct → List Field → Bytes → Bytes
unfolding slice_rows append_fields
append_slice_fields fm with_alias t ss fs b =
    let columns =
      if_many fs (codes ")") (
        append_fields (if with_alias then t.sql_alias else []) true fs
          (if_many fs (codes "(") b)) in
    slice_rows fm fs true ss (columns ++ codes " IN (") ++ codes ")"

-- `appendWhereFields`
unfoldable pub append_where_fields :
    Fmter → Bool → Option Table → Option Model → List Field → Appender
unfolding struct_fields append_slice_fields
append_where_fields fm with_alias none m fs b = err nil_model
append_where_fields fm with_alias (some t) (some (struct_model (some s))) fs b =
    ok (struct_fields fm with_alias t s true fs (b ++ b'(' ∷ []) ++ b')' ∷ [])
append_where_fields fm with_alias (some t) (some (struct_model none)) fs b = err nil_model
append_where_fields fm with_alias (some t) (some (slice_model ss)) fs b =
    ok (append_slice_fields fm with_alias t ss fs b)
append_where_fields fm with_alias (some t) (some other_model) fs b = err unsupported_model
append_where_fields fm with_alias (some t) none fs b = err unsupported_model

abbrev pub append_pk : Fmter → Bool → BaseQuery → ℕ → Option (List Field) → Appender
append_pk fm with_alias q start none b = ok b
append_pk fm with_alias q start (some fs) b =
    append_where_fields fm with_alias q.table q.model fs (and_if start b)

abbrev pub no_fields : Option (List Field) → Bool
no_fields none = true
no_fields (some fs) = false

abbrev pub no_conditions : WhereQuery → Bool
no_conditions w = is_empty_list w.conditions && no_fields w.where_fields

-- `appendWhere`
unfoldable pub append_where : Fmter → Bool → WhereQuery → Appender
unfolding append_conditions append_soft_delete append_where_fields
append_where fm with_alias w b =
    if no_conditions w && not (is_soft_delete w.base)
    then ok b
    else let b0 = b ++ codes " WHERE " in
      let start = length b0 in
      append_conditions fm true w.conditions b0 >>= λ b1.
      append_pk fm with_alias w.base start w.where_fields
        (append_soft_delete fm with_alias w.base start b1)

-- `mustAppendWhere`
unfoldable pub must_append_where : Fmter → Bool → WhereQuery → Appender
unfolding append_where
must_append_where fm with_alias w b =
    if no_conditions w then err no_where else append_where fm with_alias w b
