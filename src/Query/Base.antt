-- ===== src/Query/Base.antt =====
-- query_base.go: tables, fields, and the clauses that the builders share.
pub mod Balance
use shilohcommunityenterpris.Common.{
  ℕ, ◌+◌, Bool, true, false, not, ◌&&◌, ◌||◌, List, [], ◌∷◌, ◌++◌, Option, none, some,
  if◌then◌else◌, Bytes, codes, bytes_eq, length, ltb,
}
use shilohcommunityenterpris.Common.Result.{Result, ok, err, ◌>>=◌}
use shilohcommunityenterpris.Dialect.{append_ident}
use shilohcommunityenterpris.Schema.Formatter.{Arg, Named, with_arg, append_query}
use shilohcommunityenterpris.Query.Fragment.{
  QueryError, no_table, no_soft_delete, Appender, Feature, with_values, Fmter, QueryWithArgs, done,
  is_empty, is_zero, append_query_with_args, each, comma,
}

-- The parts of a `schema.Field` that the builders read.
pub record Field : Type 0 where
  pub name : Bytes
  pub sql_name : Bytes
  pub is_pk : Bool
  pub is_ptr : Bool
  pub null_zero : Bool
  pub not_null : Bool
  pub auto_increment : Bool
  pub skip_update : Bool
  pub sql_default : Bytes
  pub user_sql_type : Bytes
  pub identity : Bool
  pub discovered_type : Bytes
  pub create_type : Bytes

pub record Table : Type 0 where
  pub sql_name : Bytes
  pub sql_name_for_selects : Bytes
  pub sql_alias : Bytes
  pub fields : List Field
  pub pks : List Field
  pub data_fields : List Field
  pub soft_delete_field : Option Field

-- A struct, which is read through `reflect`: how each of its fields is appended, and whether the
-- field's value is nil or zero.
pub record Struct : Type 0 where
  pub append_value : Field → Bytes → Bytes
  pub has_nil_value : Field → Bool
  pub has_zero_value : Field → Bool

-- A `TableModel`: a struct, which may be nil, a slice of structs, or another model.
pub data Model : Type 0 where
  struct_model : Option Struct → Model
  slice_model : List Struct → Model
  other_model : Model

-- A `Model` that is no `TableModel`: a map with how each key's value is appended, in the order of its
-- keys; a slice of maps by its keys and the rows' values; or another.
pub data PlainModel : Type 0 where
  map_model : List (Bytes × (Bytes → Bytes)) → PlainModel
  map_slice_model : List Bytes → List (Bytes → Bytes → Bytes) → PlainModel
  scan_model : PlainModel

-- A query behind `With`: whether it is a `*ValuesQuery`, its columns if it is a
-- `ColumnsAppender`, and its `AppendQuery`.
pub record WithQuery : Type 0 where
  pub name : Bytes
  pub is_values : Bool
  pub columns : Option (Fmter → Appender)
  pub query : Fmter → Appender

pub record Flags : Type 0 where
  pub force_delete : Bool
  pub deleted : Bool
  pub all_with_deleted : Bool

-- `baseQuery`; `columns` is `none` where the slice is nil, and `model_named` is `AppendNamedArg` of a
-- struct model.
pub record BaseQuery : Type 0 where
  pub error : Option QueryError
  pub table : Option Table
  pub model : Option Model
  pub plain_model : Option PlainModel
  pub withs : List WithQuery
  pub model_table_name : QueryWithArgs
  pub tables : List QueryWithArgs
  pub columns : Option (List QueryWithArgs)
  pub flags : Flags
  pub model_named : Option Named

-- `setErr`: the first error stays.
unfoldable pub set_err : QueryError → BaseQuery → BaseQuery
set_err e q = record q { error = elim q.error [ none ↦ some e | some e' ↦ some e' ] }

abbrev pub soft_field : Option Table → Option Field
soft_field none = none
soft_field (some t) = t.soft_delete_field

abbrev pub is_some : {A : Type 0} → Option A → Bool
is_some none = false
is_some (some a) = true

-- `isSoftDelete`
unfoldable pub is_soft_delete : BaseQuery → Bool
is_soft_delete q =
    is_some (soft_field q.table) && not q.flags.all_with_deleted && not q.flags.force_delete

-- `checkSoftDelete`
unfoldable pub can_soft_delete : BaseQuery → Bool
can_soft_delete q = is_some (soft_field q.table) && is_some q.model

-- `whereDeleted` and `whereAllWithDeleted`
unfoldable pub where_deleted : BaseQuery → BaseQuery
unfolding can_soft_delete set_err
where_deleted q =
    if can_soft_delete q
    then record q { flags = record q.flags { deleted = true; all_with_deleted = false } }
    else set_err no_soft_delete q

unfoldable pub where_all_with_deleted : BaseQuery → BaseQuery
unfolding can_soft_delete set_err
where_all_with_deleted q =
    if can_soft_delete q
    then record q { flags = record q.flags { deleted = false; all_with_deleted = true } }
    else set_err no_soft_delete q

-- `appendColumns` on fields, with the table's name before each if there is one.
unfoldable pub append_fields : Bytes → Bool → List Field → Bytes → Bytes
append_fields table first [] b = b
append_fields table first (f ∷ fs) b =
    let start = if first then b else b ++ comma in
    let named = if is_empty table then start else (start ++ table) ++ b'.' ∷ [] in
    append_fields table false fs (named ++ f.sql_name)

-- The columns of a query behind `WITH` or `VALUES`.
abbrev pub append_column_list : Fmter → Option (Fmter → Appender) → Appender
append_column_list fm none b = ok b
append_column_list fm (some f) b = f fm (b ++ codes " (") >>= λ b'. ok (b' ++ codes ")")

-- `appendSelectFromValues`
unfoldable pub append_select_from_values : Fmter → WithQuery → Appender
append_select_from_values fm c b = do
  b1 ← c.query fm (append_ident b c.name fm.ident_quote ++ codes " AS (SELECT * FROM (")
  b2 ← append_column_list fm c.columns (b1 ++ codes ") AS t")
  ok (b2 ++ codes ")")

-- `appendCTE`
unfoldable pub append_cte : Fmter → WithQuery → Appender
unfolding append_select_from_values
append_cte fm c b =
    if not (fm.has_feature with_values) && c.is_values
    then append_select_from_values fm c b
    else (do
      b1 ← append_column_list fm c.columns (append_ident b c.name fm.ident_quote)
      b2 ← c.query fm (b1 ++ codes " AS (")
      ok (b2 ++ codes ")"))

-- `appendWith`
unfoldable pub append_with : Fmter → List WithQuery → Appender
unfolding append_cte each
append_with fm [] b = ok b
append_with fm (w ∷ ws) b =
    each comma (append_cte fm) true (w ∷ ws) (b ++ codes "WITH ") >>= λ b'. ok (b' ++ b' ' ∷ [])

-- `modelHasTableName`
unfoldable pub model_has_table_name : BaseQuery → Bool
unfolding is_zero
model_has_table_name q =
    if is_zero q.model_table_name then is_some q.table else not (is_empty q.model_table_name.query)

abbrev pub some_tables : List QueryWithArgs → Bool
some_tables [] = false
some_tables (t ∷ ts) = true

unfoldable pub has_tables : BaseQuery → Bool
unfolding model_has_table_name
has_tables q = model_has_table_name q || some_tables q.tables

-- The text of the model's table with the alias, where it differs.
abbrev pub append_table_name : Fmter → Bool → Option Table → Appender
append_table_name fm with_alias none b = ok b
append_table_name fm with_alias (some t) b =
    done (append_query fm.formatter b t.sql_name_for_selects none) >>= λ b'. ok (
      if with_alias && not (bytes_eq t.sql_alias t.sql_name_for_selects)
      then (b' ++ codes " AS ") ++ t.sql_alias
      else b')

abbrev pub append_model_table : Fmter → Bool → BaseQuery → Appender
append_model_table fm with_alias q b =
    if model_has_table_name q
    then (if is_zero q.model_table_name
        then append_table_name fm with_alias q.table b
        else append_query_with_args fm q.model_table_name b)
    else ok b

-- The loop of `_appendTables`, which began with `start` bytes.
unfoldable pub table_loop : Fmter → ℕ → List QueryWithArgs → Appender
table_loop fm start [] b = ok b
table_loop fm start (t ∷ ts) b =
    append_query_with_args fm t (if ltb start (length b) then b ++ comma else b) >>= λ b'.
    table_loop fm start ts b'

-- `_appendTables`
unfoldable pub append_tables : Fmter → Bool → BaseQuery → Appender
unfolding table_loop model_has_table_name
append_tables fm with_alias q b = do
  b' ← append_model_table fm with_alias q b
  table_loop fm (length b) q.tables b'

abbrev pub append_aliased : Fmter → Bool → Table → Appender
append_aliased fm with_alias t b = done (append_query fm.formatter b t.sql_name none) >>= λ b'.
    ok (if with_alias then (b' ++ codes " AS ") ++ t.sql_alias else b')

abbrev pub table_or_first : Fmter → Bool → Option Table → List QueryWithArgs → Appender
table_or_first fm with_alias (some t) ts b = append_aliased fm with_alias t b
table_or_first fm with_alias none (t ∷ ts) b = append_query_with_args fm t b
table_or_first fm with_alias none [] b = err no_table

-- `_appendFirstTable`
unfoldable pub append_first_table : Fmter → Bool → BaseQuery → Appender
unfolding is_zero
append_first_table fm with_alias q b =
    if is_zero q.model_table_name
    then table_or_first fm with_alias q.table q.tables b
    else append_query_with_args fm q.model_table_name b

abbrev pub tail : List QueryWithArgs → List QueryWithArgs
tail [] = []
tail (t ∷ ts) = ts

-- `hasMultiTables`
unfoldable pub has_multi_tables : BaseQuery → Bool
unfolding model_has_table_name
has_multi_tables q =
    if model_has_table_name q then some_tables q.tables else some_tables (tail q.tables)

-- `appendOtherTables`
unfoldable pub append_other_tables : Fmter → BaseQuery → Appender
unfolding model_has_table_name each
append_other_tables fm q =
    each comma (append_query_with_args fm) true
      (if model_has_table_name q then q.tables else tail q.tables)

-- `appendColumns`
unfoldable pub append_columns : Fmter → List QueryWithArgs → Appender
unfolding each
append_columns fm = each comma (append_query_with_args fm) true

-- A table's text behind `b`, as `fmter.AppendQuery` writes it.
abbrev pub named_text : Fmter → Bytes → Bytes → Bytes × Bool
named_text fm b text = elim (append_query fm.formatter b text none) [
  | none ↦ (b, false)
  | some b' ↦ (b', true)
]

unfoldable pub append_table_named_arg : Fmter → Option Table → Named
unfolding append_fields
append_table_named_arg fm none b name = (b, false)
append_table_named_arg fm (some t) b name =
    if bytes_eq name (codes "TableName")
    then named_text fm b t.sql_name
    else if bytes_eq name (codes "TableAlias")
    then named_text fm b t.sql_alias
    else if bytes_eq name (codes "PKs")
    then (append_fields [] true t.pks b, true)
    else if bytes_eq name (codes "TablePKs")
    then (append_fields t.sql_alias true t.pks b, true)
    else if bytes_eq name (codes "Columns")
    then (append_fields [] true t.fields b, true)
    else if bytes_eq name (codes "TableColumns")
    then (append_fields t.sql_alias true t.fields b, true)
    else (b, false)

abbrev pub model_or_table : Fmter → Option Table → Option Named → Named
model_or_table fm none n b name = (b, false)
model_or_table fm (some t) none b name = append_table_named_arg fm (some t) b name
model_or_table fm (some t) (some n) b name =
    let r = n b name in if r.1 then r else append_table_named_arg fm (some t) b name

-- `AppendNamedArg`, with the formatter that the query was given
unfoldable pub append_named_arg : Fmter → BaseQuery → Named
unfolding append_table_named_arg
append_named_arg fm q = model_or_table fm q.table q.model_named

-- `formatterWithModel`
unfoldable pub formatter_with_model : Fmter → BaseQuery → Fmter
unfolding with_arg append_named_arg
formatter_with_model fm q =
    if fm.formatter.is_nop
    then fm
    else record fm { formatter = with_arg fm.formatter (some (append_named_arg fm q)) }
