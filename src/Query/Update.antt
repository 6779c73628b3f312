-- ===== src/Query/Update.antt =====
-- query_update.go: the text of an `UPDATE`.
pub mod Assignments
use shilohcommunityenterpris.Common.{
  ℕ, Bool, true, false, not, ◌&&◌, ◌||◌, List, [], ◌∷◌, ◌++◌, Option, none, some, if◌then◌else◌,
  Bytes, codes, length, ◌==◌,
}
use shilohcommunityenterpris.Common.Result.{Result, ok, err, ◌>>=◌}
use shilohcommunityenterpris.Query.Fragment.{
  QueryError, nil_struct, nil_model, unsupported_model, Appender, Feature, update_multi_table,
  update_table_alias, returning, Fmter, QueryWithArgs, is_empty_list, safe_query,
  append_query_with_args, comma,
}
use shilohcommunityenterpris.Query.Base.{
  Field, Table, Struct, Model, struct_model, slice_model, other_model, PlainModel, map_model,
  map_slice_model, scan_model, WithQuery, BaseQuery, append_with, append_tables, append_first_table,
  has_multi_tables, append_other_tables, formatter_with_model,
}
use shilohcommunityenterpris.Query.IndexHints.{Hints, append_index_hints}
use shilohcommunityenterpris.Query.Maps.{append_map_set}
use shilohcommunityenterpris.Query.Select.{unless}
use shilohcommunityenterpris.Query.Values.{
  Returning, ColumnValue, CustomValues, get_data_fields, append_returning, has_returning,
  model_value, append_set,
}
use shilohcommunityenterpris.Query.Where.{WhereQuery, must_append_where}

pub record UpdateQuery : Type 0 where
  pub wheres : WhereQuery
  pub returning : Returning
  pub values : CustomValues
  pub set : List QueryWithArgs
  pub hints : Hints
  pub omit_zero : Bool

abbrev pub zero_value : Option Struct → Field → Result QueryError Bool
zero_value none f = err nil_struct
zero_value (some s) f = ok (s.has_zero_value f)

-- Whether `appendSetStruct` leaves a field out.
unfoldable pub is_skipped : UpdateQuery → Option Struct → Field → Result QueryError Bool
unfolding model_value
is_skipped q s f =
    if f.skip_update then ok true else elim (model_value f.name q.values.model_values) [
      | none ↦ (if q.omit_zero then zero_value s f else ok false)
      | some v ↦ ok false
    ]

abbrev pub set_by : Fmter → Option Struct → Field → Option QueryWithArgs → Appender
set_by fm none f none b = err nil_struct
set_by fm (some s) f none b = ok (s.append_value f b)
set_by fm s f (some v) b = append_query_with_args fm v b

-- The value of a field in a `SET`; a template has a question mark.
unfoldable pub set_value : Fmter → UpdateQuery → Option Struct → Field → Appender
unfolding model_value
set_value fm q s f b =
    if fm.formatter.is_nop
    then ok (b ++ b'?' ∷ [])
    else set_by fm s f (model_value f.name q.values.model_values) b

-- The loop over the fields: `pos` is the length behind the last comma.
unfoldable pub set_fields : Fmter → UpdateQuery → Option Struct → ℕ → List Field → Appender
unfolding set_value is_skipped
set_fields fm q s pos [] b = ok b
set_fields fm q s pos (f ∷ fs) b =
    let same = length b == pos in
    let start = if same then b else b ++ comma in
    let pos' = if same then pos else length start in
    is_skipped q s f >>= λ skipped.
    (if skipped
      then set_fields fm q s pos fs b
      else (set_value fm q s f ((start ++ f.sql_name) ++ codes " = ") >>= λ b'.
          set_fields fm q s pos' fs b'))

-- The loop over the values of columns that the table does not have.
unfoldable pub set_extra : Fmter → Bool → List ColumnValue → Appender
set_extra fm first [] b = ok b
set_extra fm first (v ∷ vs) b =
    append_query_with_args fm v.value
      (((if first then b else b ++ comma) ++ v.column) ++ codes " = ")
    >>= λ b'. set_extra fm false vs b'

-- `appendSetStruct`
unfoldable pub append_set_struct : Fmter → UpdateQuery → Option Struct → Appender
unfolding set_fields set_extra get_data_fields
append_set_struct fm q s b = get_data_fields q.wheres.base >>= λ fs.
    set_fields fm q s (length b) fs b >>= λ b'.
    set_extra fm (is_empty_list fs) q.values.extra_values b'

abbrev pub set_model : Fmter → UpdateQuery → Option Model → Appender
set_model fm q none b = err nil_model
set_model fm q (some (struct_model s)) b = append_set_struct fm q s b
set_model fm q (some (slice_model ss)) b = err unsupported_model
set_model fm q (some other_model) b = err unsupported_model

abbrev pub set_plain : Fmter → UpdateQuery → Option PlainModel → Appender
set_plain fm q none b = set_model fm q q.wheres.base.model b
set_plain fm q (some (map_model m)) b = ok (append_map_set fm true m b)
set_plain fm q (some (map_slice_model ks rs)) b = set_model fm q q.wheres.base.model b
set_plain fm q (some scan_model) b = set_model fm q q.wheres.base.model b

-- `mustAppendSet`
unfoldable pub must_append_set : Fmter → UpdateQuery → Appender
unfolding append_set append_set_struct append_map_set
must_append_set fm q b =
    let b' = b ++ codes " SET " in
    if is_empty_list q.set
    then set_plain fm q q.wheres.base.plain_model b'
    else append_set fm q.set b'

-- `UpdateQuery.hasTableAlias`
unfoldable pub has_table_alias : Fmter → Bool
has_table_alias fm = fm.has_feature update_multi_table || fm.has_feature update_table_alias

abbrev pub append_updated : Fmter → BaseQuery → Appender
append_updated fm q =
    if fm.has_feature update_multi_table
    then append_tables fm true q
    else append_first_table fm (fm.has_feature update_table_alias) q

-- `UpdateQuery.appendOtherTables`
unfoldable pub append_from : Fmter → BaseQuery → Appender
unfolding has_multi_tables append_other_tables
append_from fm q b =
    if not (has_multi_tables q) then ok b else append_other_tables fm q (b ++ codes " FROM ")

-- The clause `RETURNING`, if the database has it; `has_db` are the database's features.
unfoldable pub append_returned : Fmter → (Feature → Bool) → Returning → Appender
unfolding append_returning has_returning
append_returned fm has_db r b =
    if has_db Feature.returning && has_returning r
    then append_returning fm r (b ++ codes " RETURNING ")
    else ok b

unfoldable pub append_update_body : Fmter → (Feature → Bool) → UpdateQuery → Appender
unfolding append_with append_tables append_first_table append_index_hints must_append_set
    append_from must_append_where has_table_alias append_returned
append_update_body fm has_db q b = do
  b1 ← append_with fm q.wheres.base.withs b
  b2 ← append_updated fm q.wheres.base (b1 ++ codes "UPDATE ")
  b3 ← append_index_hints fm q.hints b2
  b4 ← must_append_set fm q b3
  b5 ← (if not (fm.has_feature update_multi_table) then append_from fm q.wheres.base b4 else ok b4)
  b6 ← must_append_where fm (has_table_alias fm) q.wheres b5
  append_returned fm has_db q.returning b6

-- `UpdateQuery.AppendQuery`
unfoldable pub append_update : Fmter → (Feature → Bool) → UpdateQuery → Appender
unfolding append_update_body formatter_with_model
append_update fm has_db q b =
    unless q.wheres.base.error
      (append_update_body (formatter_with_model fm q.wheres.base) has_db q b)
