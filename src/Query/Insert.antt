-- ===== src/Query/Insert.antt =====
-- query_insert.go: the text of an `INSERT`.
pub mod Statement
pub mod Width
use shilohcommunityenterpris.Common.{
  Bool, true, false, not, ◌&&◌, ◌||◌, List, [], ◌∷◌, ◌++◌, Option, none, some, if◌then◌else◌, Bytes,
  codes, bytes_eq,
}
use shilohcommunityenterpris.Common.Result.{Result, ok, err, ◌>>=◌}
use shilohcommunityenterpris.Dialect.{append_ident}
use shilohcommunityenterpris.Schema.Formatter.{Arg}
use shilohcommunityenterpris.Query.Fragment.{
  QueryError, nil_struct, nil_table, nil_model, empty_slice, unsupported_model, Appender, Feature,
  insert_table_alias, output, default_placeholder, identity, insert_returning, insert_on_conflict,
  insert_ignore, insert_on_duplicate_key, Fmter, QueryWithArgs, is_zero, is_empty, is_empty_list,
  safe_query, append_query_with_args, comma,
}
use shilohcommunityenterpris.Query.Base.{
  Field, Table, Struct, Model, struct_model, slice_model, other_model, PlainModel, map_model,
  map_slice_model, scan_model, BaseQuery, is_some, append_fields, append_with, append_first_table,
  has_multi_tables, append_other_tables, append_columns, formatter_with_model,
}
use shilohcommunityenterpris.Query.Maps.{append_columns_values}
use shilohcommunityenterpris.Query.Select.{unless}
use shilohcommunityenterpris.Query.Values.{
  Returning, ColumnValue, CustomValues, columns_of, get_fields, get_data_fields,
  add_returning_field, append_returning, append_output, has_returning, model_value, append_set,
}
use shilohcommunityenterpris.Query.Where.{WhereQuery, append_conditions}

pub record InsertQuery : Type 0 where
  pub wheres : WhereQuery
  pub returning : Returning
  pub values : CustomValues
  pub set : List QueryWithArgs
  pub on : QueryWithArgs
  pub ignore : Bool
  pub replace : Bool

-- `Ignore`
unfoldable pub set_ignore : Fmter → InsertQuery → InsertQuery
unfolding safe_query
set_ignore fm q =
    if fm.has_feature insert_on_conflict
    then record q { on = safe_query (codes "CONFLICT DO NOTHING") none }
    else if fm.has_feature insert_ignore
    then record q { ignore = true }
    else q

-- Whether a field has no value that an `INSERT` writes; a nil struct cannot be asked.
abbrev pub asks_default : Field → Struct → Bool
asks_default f s = (f.is_ptr && s.has_nil_value f) || (f.null_zero && s.has_zero_value f)

unfoldable pub is_unset : Field → Option Struct → Result QueryError Bool
is_unset f none = if f.is_ptr || f.null_zero then err nil_struct else ok false
is_unset f (some s) = ok (asks_default f s)

abbrev pub placeholder : (Feature → Bool) → Field → Bytes → Bytes
placeholder has_db f b =
    if has_db default_placeholder
    then b ++ codes "DEFAULT"
    else if is_empty f.sql_default
    then b ++ codes "NULL"
    else b ++ f.sql_default

-- What goes on in a builder: the fields to return, and the text.
abbrev pub Written : Type 0
Written = Result QueryError (Returning × Bytes)

unfoldable pub append_set_value :
    (Feature → Bool) → Option Struct → Field → Bool → Returning → Bytes → Written
unfolding add_returning_field
append_set_value has_db s f true r b = ok (add_returning_field f r, placeholder has_db f b)
append_set_value has_db none f false r b = err nil_struct
append_set_value has_db (some s) f false r b = ok (r, s.append_value f b)

unfoldable pub append_field_value :
    Fmter
    → (Feature → Bool)
    → Option Struct
    → Field
    → Option QueryWithArgs
    → Returning
    → Bytes
    → Written
unfolding add_returning_field is_unset
append_field_value fm has_db s f (some v) r b =
    append_query_with_args fm v b >>= λ b'. ok (add_returning_field f r, b')
append_field_value fm has_db s f none r b =
    if fm.formatter.is_nop
    then ok (r, b ++ b'?' ∷ [])
    else (is_unset f s >>= λ unset. append_set_value has_db s f unset r b)

-- The loop of `appendStructValues` over the fields.
unfoldable pub struct_values :
    Fmter
    → (Feature → Bool)
    → CustomValues
    → Option Struct
    → Bool
    → List Field
    → Returning
    → Bytes
    → Written
unfolding model_value add_returning_field is_unset
struct_values fm has_db vs s first [] r b = ok (r, b)
struct_values fm has_db vs s first (f ∷ fs) r b =
    append_field_value fm has_db s f (model_value f.name vs.model_values) r
      (if first then b else b ++ comma)
    >>= λ (r', b'). struct_values fm has_db vs s false fs r' b'

unfoldable pub extra_texts : Fmter → Bool → List ColumnValue → Appender
extra_texts fm first [] b = ok b
extra_texts fm first (v ∷ vs) b =
    append_query_with_args fm v.value (if first then b else b ++ comma) >>= λ b'.
    extra_texts fm false vs b'

-- `appendStructValues`
unfoldable pub append_struct_values :
    Fmter
    → (Feature → Bool)
    → CustomValues
    → Option Struct
    → List Field
    → Returning
    → Bytes
    → Written
unfolding struct_values extra_texts
append_struct_values fm has_db vs s fs r b =
    struct_values fm has_db vs s true fs r b >>= λ (r', b').
    extra_texts fm (is_empty_list fs) vs.extra_values b' >>= λ b''. ok (r', b'')

-- The loop of `appendSliceValues`.
unfoldable pub slice_values :
    Fmter
    → (Feature → Bool)
    → CustomValues
    → Bool
    → List Struct
    → List Field
    → Returning
    → Bytes
    → Written
unfolding append_struct_values
slice_values fm has_db vs first [] fs r b = ok (r, b)
slice_values fm has_db vs first (s ∷ ss) fs r b =
    append_struct_values fm has_db vs (some s) fs r (if first then b else b ++ codes "), (")
    >>= λ (r', b'). slice_values fm has_db vs false ss fs r' b'

-- `appendSliceValues`: a template has one row
unfoldable pub append_slice_values :
    Fmter → (Feature → Bool) → CustomValues → List Struct → List Field → Returning → Bytes → Written
unfolding append_struct_values slice_values
append_slice_values fm has_db vs ss fs r b =
    if fm.formatter.is_nop
    then append_struct_values fm has_db vs none fs r b
    else slice_values fm has_db vs true ss fs r b

-- Whether `getFields` leaves a field out.
unfoldable pub leaves_out : Bool → Option Struct → Field → Result QueryError Bool
unfolding is_unset
leaves_out has_identity s f =
    if has_identity && f.auto_increment
    then ok true
    else if f.not_null && is_empty f.sql_default
    then is_unset f s
    else ok false

-- The loop of `getFields`, with the fields to return.
unfoldable pub chosen_fields :
    Bool → Option Struct → List Field → Returning → Result QueryError (Returning × List Field)
unfolding leaves_out add_returning_field
chosen_fields has_identity s [] r = ok (r, [])
chosen_fields has_identity s (f ∷ fs) r = leaves_out has_identity s f >>= λ out.
    (if out
      then chosen_fields has_identity s fs (add_returning_field f r)
      else (chosen_fields has_identity s fs r >>= λ (r', gs). ok (r', f ∷ gs)))

abbrev pub table_fields : Option Table → List Field
table_fields none = []
table_fields (some t) = t.fields

-- The struct that `getFields` looks at.
abbrev pub first_struct : Option Model → Result QueryError (Option Struct)
first_struct (some (struct_model s)) = ok s
first_struct (some (slice_model [])) = err empty_slice
first_struct (some (slice_model (s ∷ ss))) = ok (some s)
first_struct (some other_model) = err nil_model
first_struct none = err nil_model

-- `InsertQuery.getFields`
unfoldable pub insert_fields :
    (Feature → Bool) → BaseQuery → Returning → Result QueryError (Returning × List Field)
unfolding get_fields chosen_fields
insert_fields has_db q r =
    if not (is_empty_list (columns_of q)) || (has_db default_placeholder && not (has_db identity))
    then (get_fields q >>= λ fs. ok (r, fs))
    else (first_struct q.model >>= λ s. chosen_fields (has_db identity) s (table_fields q.table) r)

unfoldable pub extra_columns : Fmter → Bool → List ColumnValue → Bytes → Bytes
extra_columns fm first [] b = b
extra_columns fm first (v ∷ vs) b =
    extra_columns fm false vs
      (append_ident (if first then b else b ++ comma) v.column fm.ident_quote)

-- `InsertQuery.appendFields`
unfoldable pub append_insert_fields : Fmter → CustomValues → List Field → Bytes → Bytes
unfolding append_fields extra_columns
append_insert_fields fm vs fs b =
    extra_columns fm (is_empty_list fs) vs.extra_values (append_fields [] true fs b)
