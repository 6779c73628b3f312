-- ===== src/Query/Insert/Statement.antt =====
-- query_insert.go: the whole `INSERT`, with its `ON` clause.
use shilohcommunityenterpris.Common.{
  ◌==◌, ℕ, ◌-◌, Bool, true, false, not, ◌&&◌, ◌||◌, List, [], ◌∷◌, ◌++◌, map, Option, none, some,
  if◌then◌else◌, Bytes, codes, bytes_eq, within,
}
use shilohcommunityenterpris.Common.Utf8.{runes}
use shilohcommunityenterpris.Common.Result.{Result, ok, err, ◌>>=◌}
use shilohcommunityenterpris.Query.Fragment.{
  QueryError, nil_table, nil_model, unsupported_model, Appender, Feature, insert_table_alias,
  output, insert_returning, insert_on_duplicate_key, Fmter, QueryWithArgs, is_zero, is_empty_list,
  append_query_with_args, comma,
}
use shilohcommunityenterpris.Query.Base.{
  Field, Table, Model, struct_model, slice_model, other_model, PlainModel, map_model,
  map_slice_model, scan_model, BaseQuery, append_with, append_first_table, has_multi_tables,
  append_other_tables, append_columns, formatter_with_model,
}
use shilohcommunityenterpris.Query.Insert.{
  InsertQuery, Written, append_struct_values, append_slice_values, insert_fields,
  append_insert_fields,
}
use shilohcommunityenterpris.Query.Maps.{append_columns_values}
use shilohcommunityenterpris.Query.Values.{
  Returning, get_data_fields, append_returning, append_output, has_returning, append_set,
}
use shilohcommunityenterpris.Query.Where.{append_conditions}

unfoldable pub column_part : Fmter → Bytes → Bytes → Bytes → Option (List QueryWithArgs) → Appender
unfolding append_columns
column_part fm before after other none b = ok (b ++ other)
column_part fm before after other (some cs) b =
    append_columns fm cs (b ++ before) >>= λ b'. ok (b' ++ after)

-- The clause `OUTPUT`; `has_db` are the database's features.
unfoldable pub append_output_clause : Fmter → (Feature → Bool) → Returning → Appender
unfolding append_output has_returning
append_output_clause fm has_db r b =
    if has_db output && has_returning r then append_output fm r (b ++ codes " OUTPUT ") else ok b

-- `INSERT` from other tables
unfoldable pub append_insert_select : Fmter → (Feature → Bool) → InsertQuery → Appender
unfolding append_columns append_other_tables append_output_clause
append_insert_select fm has_db q b = do
  b1 ← column_part fm (codes " (") (codes ")") [] q.wheres.base.columns b
  b2 ← append_output_clause fm has_db q.returning b1
  b3 ← column_part fm [] [] (codes "*") q.wheres.base.columns (b2 ++ codes " SELECT ")
  append_other_tables fm q.wheres.base (b3 ++ codes " FROM ")

unfoldable pub model_rows :
    Fmter → (Feature → Bool) → InsertQuery → Option Model → List Field → Returning → Bytes → Written
unfolding append_struct_values append_slice_values
model_rows fm has_db q none fs r b = err unsupported_model
model_rows fm has_db q (some (struct_model s)) fs r b =
    append_struct_values fm has_db q.values s fs r b
model_rows fm has_db q (some (slice_model ss)) fs r b =
    append_slice_values fm has_db q.values ss fs r b
model_rows fm has_db q (some other_model) fs r b = err unsupported_model

-- The columns and the rows of a model.
unfoldable pub append_insert_values : Fmter → (Feature → Bool) → InsertQuery → Bytes → Written
unfolding insert_fields append_insert_fields append_output_clause append_struct_values
    append_slice_values
append_insert_values fm has_db q b = insert_fields has_db q.wheres.base q.returning >>= λ (r, fs).
    append_output_clause fm has_db r
      (append_insert_fields fm q.values fs (b ++ codes " (") ++ codes ")")
    >>= λ b1.
        model_rows fm has_db q q.wheres.base.model fs r (b1 ++ codes " VALUES (") >>= λ (r', b2).
        ok (r', b2 ++ b')' ∷ [])

unfoldable pub insert_plain :
    Fmter → (Feature → Bool) → InsertQuery → Option Model → Option PlainModel → Bytes → Written
unfolding append_columns_values append_insert_values
insert_plain fm has_db q m (some (map_model kvs)) b =
    ok (q.returning, append_columns_values fm kvs b)
insert_plain fm has_db q m (some (map_slice_model ks rs)) b = err unsupported_model
insert_plain fm has_db q m (some scan_model) b = append_insert_values fm has_db q b
insert_plain fm has_db q (some m) none b = append_insert_values fm has_db q b
insert_plain fm has_db q none none b = err nil_model

-- `appendColumnsValues`
unfoldable pub append_columns_and_values : Fmter → (Feature → Bool) → InsertQuery → Bytes → Written
unfolding has_multi_tables append_insert_select append_columns_values append_insert_values
append_columns_and_values fm has_db q b =
    if has_multi_tables q.wheres.base
    then (append_insert_select fm has_db q b >>= λ b'. ok (q.returning, b'))
    else insert_plain fm has_db q q.wheres.base.model q.wheres.base.plain_model b

-- `unicode.ToUpper`, as far as it gives ASCII: the dotless i and the long s are letters too.
abbrev pub upper_rune : ℕ → ℕ
upper_rune r =
    if within b'a' b'z' r
    then r - 32
    else if r == 0x131
    then b'I'
    else if r == 0x17F
    then b'S'
    else r

-- The runes of `strings.ToUpper`, which are compared with texts in ASCII.
unfoldable pub to_upper : Bytes → List ℕ
unfolding runes
to_upper s = map upper_rune (runes s)

-- `strings.HasSuffix`
unfoldable pub has_suffix : Bytes → Bytes → Bool
has_suffix [] t = bytes_eq [] t
has_suffix (c ∷ s) t = bytes_eq (c ∷ s) t || has_suffix s t

-- `onConflictDoUpdate` and `onDuplicateKeyUpdate`
unfoldable pub on_conflict_do_update : QueryWithArgs → Bool
unfolding has_suffix to_upper
on_conflict_do_update on = has_suffix (to_upper on.query) (codes " DO UPDATE")

unfoldable pub on_duplicate_key_update : QueryWithArgs → Bool
unfolding to_upper
on_duplicate_key_update on = bytes_eq (to_upper on.query) (codes "DUPLICATE KEY UPDATE")

-- The loops of `appendSetExcluded` and `appendSetValues`: `name = before name after`
unfoldable pub set_names : Bytes → Bytes → Bool → List Field → Bytes → Bytes
set_names before after first [] b = b
set_names before after first (f ∷ fs) b =
    set_names before after false fs
      (((((if first then b else b ++ comma) ++ f.sql_name) ++ before) ++ f.sql_name) ++ after)

unfoldable pub append_set_excluded : List Field → Bytes → Bytes
unfolding set_names
append_set_excluded fs b = set_names (codes " = EXCLUDED.") [] true fs (b ++ codes " SET ")

unfoldable pub append_set_values : List Field → Bytes → Bytes
unfolding set_names
append_set_values fs b = set_names (codes " = VALUES(") (codes ")") true fs (b ++ codes " ")

-- The fields that a conflict updates: all data fields of the model's table, where none is chosen.
abbrev pub or_data_fields : Option Table → List Field → Result QueryError (List Field)
or_data_fields t (f ∷ fs) = ok (f ∷ fs)
or_data_fields none [] = err nil_table
or_data_fields (some t) [] = ok t.data_fields

unfoldable pub updated_fields : BaseQuery → Result QueryError (List Field)
unfolding get_data_fields
updated_fields q = get_data_fields q >>= λ fs. or_data_fields q.table fs

unfoldable pub append_on_set : Fmter → InsertQuery → Appender
unfolding append_set on_conflict_do_update on_duplicate_key_update append_set_excluded
    append_set_values get_data_fields
append_on_set fm q b =
    if not (is_empty_list q.set)
    then append_set fm q.set
        (if fm.has_feature insert_on_duplicate_key then b ++ b' ' ∷ [] else b ++ codes " SET ")
    else if on_conflict_do_update q.on
    then (updated_fields q.wheres.base >>= λ fs. ok (append_set_excluded fs b))
    else if on_duplicate_key_update q.on
    then (updated_fields q.wheres.base >>= λ fs. ok (append_set_values fs b))
    else ok b

-- `appendOn`
unfoldable pub append_on : Fmter → InsertQuery → Appender
unfolding append_set on_conflict_do_update on_duplicate_key_update append_set_excluded
    append_set_values get_data_fields append_conditions is_zero
append_on fm q b =
    if is_zero q.on
    then ok b
    else append_query_with_args fm q.on (b ++ codes " ON ") >>= λ b1.
        append_on_set fm q b1 >>= λ b2.
        (if is_empty_list q.wheres.conditions
          then ok b2
          else append_conditions fm true q.wheres.conditions (b2 ++ codes " WHERE "))

abbrev pub insert_word : InsertQuery → Bytes
insert_word q =
    (if q.replace
      then codes "REPLACE "
      else if q.ignore
      then codes "INSERT IGNORE "
      else codes "INSERT ")
    ++ codes "INTO "

unfoldable pub append_insert_body : Fmter → (Feature → Bool) → InsertQuery → Bytes → Written
unfolding append_with append_first_table append_columns_and_values append_on append_returning
    has_returning is_zero
append_insert_body fm has_db q b = append_with fm q.wheres.base.withs b >>= λ b1.
    append_first_table fm (has_db insert_table_alias && not (is_zero q.on)) q.wheres.base
      (b1 ++ insert_word q)
    >>= λ b2. append_columns_and_values fm has_db q b2 >>= λ (r, b3). append_on fm q b3 >>= λ b4.
        (if has_db insert_returning && has_returning r
          then (append_returning fm r (b4 ++ codes " RETURNING ") >>= λ b5. ok (r, b5))
          else ok (r, b4))

abbrev pub written_unless : Option QueryError → Written → Written
written_unless none w = w
written_unless (some e) w = err e

-- `InsertQuery.AppendQuery`, with the fields to return that the query keeps where there is no error.
unfoldable pub append_insert : Fmter → (Feature → Bool) → InsertQuery → Bytes → Written
unfolding append_insert_body formatter_with_model
append_insert fm has_db q b =
    written_unless q.wheres.base.error
      (append_insert_body (formatter_with_model fm q.wheres.base) has_db q b)
