-- ===== src/Query/Rows.antt =====
-- query_values.go: the text of `VALUES`.
use shilohcommunityenterpris.Common.{
  ℕ, zero, suc, ◌+◌, Bool, true, false, List, [], ◌∷◌, ◌++◌, Option, none, some, if◌then◌else◌,
  Bytes, codes,
}
use shilohcommunityenterpris.Common.Decimal.{pos, append_int}
use shilohcommunityenterpris.Common.Result.{ok, err, ◌>>=◌}
use shilohcommunityenterpris.Query.Fragment.{
  nil_struct, nil_model, unsupported_model, Appender, Feature, values_row, double_colon_cast, Fmter,
  QueryWithArgs, append_query_with_args, comma,
}
use shilohcommunityenterpris.Query.Base.{
  Field, Struct, Model, struct_model, slice_model, other_model, PlainModel, map_model,
  map_slice_model, scan_model, BaseQuery, append_fields, formatter_with_model,
}
use shilohcommunityenterpris.Query.Maps.{open_row, append_slice_columns, append_slice_values}
use shilohcommunityenterpris.Query.Select.{unless}
use shilohcommunityenterpris.Query.Values.{CustomValues, get_fields, model_value}

pub record ValuesQuery : Type 0 where
  pub base : BaseQuery
  pub values : CustomValues
  pub with_order : Bool

-- `AppendColumns`
unfoldable pub model_columns : Bool → BaseQuery → Appender
unfolding get_fields append_fields
model_columns with_order q b = get_fields q >>= λ fs. ok (
    if with_order
    then append_fields [] true fs b ++ codes ", _order"
    else append_fields [] true fs b)

unfoldable pub columns_by : Fmter → ValuesQuery → Option Model → Option PlainModel → Appender
unfolding get_fields append_fields append_slice_columns
columns_by fm q (some m) p b = model_columns q.with_order q.base b
columns_by fm q none (some (map_slice_model ks rs)) b = append_slice_columns fm ks rs b
columns_by fm q none (some (map_model m)) b = err unsupported_model
columns_by fm q none (some scan_model) b = err unsupported_model
columns_by fm q none none b = err nil_model

unfoldable pub append_values_columns : Fmter → ValuesQuery → Appender
unfolding get_fields append_fields append_slice_columns
append_values_columns fm q b =
    unless q.base.error (columns_by fm q q.base.model q.base.plain_model b)

abbrev pub cast_to : Fmter → Field → Bytes → Bytes
cast_to fm f b =
    if fm.has_feature double_colon_cast then (b ++ codes "::") ++ f.user_sql_type else b

abbrev pub plain_cell : Fmter → Option Struct → Field → Appender
plain_cell fm none f b = if fm.formatter.is_nop then ok (b ++ b'?' ∷ []) else err nil_struct
plain_cell fm (some s) f b = ok (if fm.formatter.is_nop then b ++ b'?' ∷ [] else s.append_value f b)

-- The value of one field: a value of the query's own is not cast.
abbrev pub append_cell : Fmter → Option Struct → Field → Option QueryWithArgs → Appender
append_cell fm s f (some v) b = append_query_with_args fm v b
append_cell fm s f none b = plain_cell fm s f b >>= λ b'. ok (cast_to fm f b')

-- `appendValues`
unfoldable pub append_row : Fmter → CustomValues → Option Struct → Bool → List Field → Appender
unfolding model_value
append_row fm vs s first [] b = ok b
append_row fm vs s first (f ∷ fs) b =
    append_cell fm s f (model_value f.name vs.model_values) (if first then b else b ++ comma)
    >>= λ b'. append_row fm vs s false fs b'

unfoldable pub append_order : Bool → ℕ → Bytes → Bytes
unfolding append_int
append_order with_order i b = if with_order then append_int (b ++ comma) (pos i) else b

-- The loop over the rows from row `i` on.
unfoldable pub append_rows : Fmter → Bool → ValuesQuery → ℕ → List Field → List Struct → Appender
unfolding append_row append_int
append_rows fm row q i fs [] b = ok b
append_rows fm row q i fs (s ∷ ss) b =
    append_row fm q.values (some s) true fs
      (elim i [ zero ↦ b | suc j ↦ (b ++ codes "), ") ++ open_row row ])
    >>= λ b'. append_rows fm row q (i + 1) fs ss (append_order q.with_order i b')

unfoldable pub values_of : Fmter → Bool → ValuesQuery → List Field → Option Model → Appender
unfolding append_row append_rows append_int
values_of fm row q fs (some (struct_model s)) b =
    append_row fm q.values s true fs b >>= λ b'. ok (append_order q.with_order 0 b')
values_of fm row q fs (some (slice_model ss)) b = append_rows fm row q 0 fs ss b
values_of fm row q fs (some other_model) b = err unsupported_model
values_of fm row q fs none b = err unsupported_model

-- `appendQuery`
unfoldable pub append_values : Fmter → Bool → ValuesQuery → List Field → Appender
unfolding append_row append_rows append_int
append_values fm row q fs b =
    values_of fm row q fs q.base.model ((b ++ codes "VALUES ") ++ open_row row) >>= λ b'.
    ok (b' ++ b')' ∷ [])

unfoldable pub values_by :
    Fmter → (Feature → Bool) → ValuesQuery → Option Model → Option PlainModel → Appender
unfolding get_fields append_values append_slice_values
values_by fm has_db q (some m) p b =
    get_fields q.base >>= λ fs. append_values fm (has_db values_row) q fs b
values_by fm has_db q none (some (map_slice_model ks rs)) b =
    append_slice_values fm (has_db values_row) ks rs b
values_by fm has_db q none (some (map_model m)) b = err unsupported_model
values_by fm has_db q none (some scan_model) b = err unsupported_model
values_by fm has_db q none none b = err nil_model

-- `ValuesQuery.AppendQuery`
unfoldable pub append_values_query : Fmter → (Feature → Bool) → ValuesQuery → Appender
unfolding get_fields append_values append_slice_values formatter_with_model
append_values_query fm has_db q b =
    unless q.base.error
      (values_by (formatter_with_model fm q.base) has_db q q.base.model q.base.plain_model b)
