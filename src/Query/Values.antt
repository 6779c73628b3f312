-- ===== src/Query/Values.antt =====
-- query_base.go: the columns of a query, the fields they stand for, and the parts that the builders
-- of `INSERT`, `UPDATE` and `DELETE` share.
use shilohcommunityenterpris.Common.{
  Bool, true, false, not, ◌&&◌, ◌||◌, List, [], ◌∷◌, ◌++◌, map, Option, none, some, if◌then◌else◌,
  Bytes, codes, bytes_eq,
}
use shilohcommunityenterpris.Common.Result.{Result, ok, err, ◌>>=◌}
use shilohcommunityenterpris.Schema.Formatter.{Arg}
use shilohcommunityenterpris.Query.Fragment.{
  QueryError, nil_table, nil_model, no_column, Appender, table_cascade, Fmter, QueryWithArgs,
  is_empty_list, safe_query, unsafe_ident, append_query_with_args, each, comma,
}
use shilohcommunityenterpris.Query.Base.{Field, Table, BaseQuery, set_err, append_fields}
use shilohcommunityenterpris.Query.Select.{find_field}

-- `q.columns` as the slice that it is, nil or not
abbrev pub columns_of : BaseQuery → List QueryWithArgs
columns_of q = elim q.columns [ none ↦ [] | some cs ↦ cs ]

-- `addColumn`
unfoldable pub add_column : QueryWithArgs → BaseQuery → BaseQuery
add_column c q = record q { columns = some (columns_of q ++ c ∷ []) }

-- `_excludeColumn`: the first column of that name goes; `none` where there is none
unfoldable pub exclude_one : Bytes → List QueryWithArgs → Option (List QueryWithArgs)
exclude_one n [] = none
exclude_one n (c ∷ cs) =
    let rest = exclude_one n cs in
    if elim c.args [ none ↦ bytes_eq c.query n | some l ↦ false ]
    then some cs
    else elim rest [ none ↦ none | some cs' ↦ some (c ∷ cs') ]

-- The loop of `excludeColumn`, which keeps what it has removed before an error.
unfoldable pub exclude_each : List Bytes → List QueryWithArgs → List QueryWithArgs × Bool
unfolding exclude_one
exclude_each [] cs = (cs, true)
exclude_each (n ∷ ns) cs = elim (exclude_one n cs) [
  | none ↦ (cs, false)
  | some cs' ↦ exclude_each ns cs'
]

abbrev pub is_star : List Bytes → Bool
is_star (n ∷ []) = bytes_eq n (codes "*")
is_star _ = false

unfoldable pub all_columns : Table → Option (List QueryWithArgs) → List QueryWithArgs
unfolding unsafe_ident
all_columns t none = map (λ f. unsafe_ident f.name) t.fields
all_columns t (some cs) = cs

unfoldable pub without : List QueryWithArgs × Bool → BaseQuery → BaseQuery
unfolding set_err
without (cs, found) q =
    let q' = record q { columns = some cs } in if found then q' else set_err no_column q'

unfoldable pub exclude_from : Option Table → List Bytes → BaseQuery → BaseQuery
unfolding exclude_each set_err
exclude_from none ns q = set_err nil_model q
exclude_from (some t) ns q =
    if is_star ns
    then record q { columns = some [] }
    else without (exclude_each ns (all_columns t q.columns)) q

-- `excludeColumn`
unfoldable pub exclude_column : List Bytes → BaseQuery → BaseQuery
unfolding exclude_each set_err unsafe_ident
exclude_column ns q = exclude_from q.table ns q

-- `Table.Field`, through a pointer that may be nil.
unfoldable pub table_field : Option Table → Bytes → Result QueryError Field
unfolding find_field
table_field none n = err nil_table
table_field (some t) n = elim (find_field n t.fields) [ none ↦ err no_column | some f ↦ ok f ]

abbrev pub keep_field : Bool → Field → List Field → List Field
keep_field omit_pk f fs = if omit_pk && f.is_pk then fs else f ∷ fs

-- `_getFields`
unfoldable pub column_fields :
    Bool → Option Table → List QueryWithArgs → Result QueryError (List Field)
unfolding table_field
column_fields omit_pk t [] = ok []
column_fields omit_pk t (c ∷ cs) =
    let rest = column_fields omit_pk t cs in
    elim c.args [
      | some l ↦ rest
      | none ↦ (table_field t c.query >>= λ f. rest >>= λ fs. ok (keep_field omit_pk f fs))
    ]

abbrev pub default_fields : Bool → Option Table → Result QueryError (List Field)
default_fields omit_pk none = err nil_model
default_fields omit_pk (some t) = ok (if omit_pk then t.data_fields else t.fields)

unfoldable pub fields_by : Bool → Option Table → List QueryWithArgs → Result QueryError (List Field)
unfolding column_fields
fields_by omit_pk t [] = default_fields omit_pk t
fields_by omit_pk t (c ∷ cs) = column_fields omit_pk t (c ∷ cs)

-- `getFields`
unfoldable pub get_fields : BaseQuery → Result QueryError (List Field)
unfolding column_fields
get_fields q = fields_by false q.table (columns_of q)

-- `getDataFields`
unfoldable pub get_data_fields : BaseQuery → Result QueryError (List Field)
unfolding column_fields
get_data_fields q = fields_by true q.table (columns_of q)

-- `returningQuery`
pub record Returning : Type 0 where
  pub returning : List QueryWithArgs
  pub returning_fields : List Field

unfoldable pub add_returning : QueryWithArgs → Returning → Returning
add_returning x r = record r { returning = r.returning ++ x ∷ [] }

-- The comparison of pointers, where the fields of a table have different names.
unfoldable pub mem_field : Field → List Field → Bool
mem_field f [] = false
mem_field f (g ∷ gs) = bytes_eq g.name f.name || mem_field f gs

-- `addReturningField`
unfoldable pub add_returning_field : Field → Returning → Returning
unfolding mem_field
add_returning_field f r =
    if not (is_empty_list r.returning)
    then r
    else if mem_field f r.returning_fields
    then r
    else record r { returning_fields = r.returning_fields ++ f ∷ [] }

-- `_appendReturning`
unfoldable pub append_returning_from : Fmter → Bytes → Returning → Appender
unfolding each append_fields
append_returning_from fm table r b =
    each comma (append_query_with_args fm) true r.returning b >>= λ b'.
    (if is_empty_list r.returning
      then ok (append_fields table true r.returning_fields b')
      else ok b')

-- `appendReturning` and `appendOutput`
unfoldable pub append_returning : Fmter → Returning → Appender
unfolding append_returning_from
append_returning fm = append_returning_from fm []

unfoldable pub append_output : Fmter → Returning → Appender
unfolding append_returning_from
append_output fm = append_returning_from fm (codes "INSERTED")

abbrev pub no_args : QueryWithArgs → Bool
no_args q = elim q.args [ none ↦ true | some [] ↦ true | some (a ∷ l) ↦ false ]

abbrev pub is_null_text : Bytes → Bool
is_null_text [] = true
is_null_text (c ∷ s) = bytes_eq (c ∷ s) (codes "null") || bytes_eq (c ∷ s) (codes "NULL")

abbrev pub is_suppressed : List QueryWithArgs → Bool
is_suppressed (x ∷ []) = no_args x && is_null_text x.query
is_suppressed _ = false

-- `hasReturning`
unfoldable pub has_returning : Returning → Bool
has_returning r =
    not (is_suppressed r.returning)
    && (not (is_empty_list r.returning) || not (is_empty_list r.returning_fields))

-- `columnValue`
pub record ColumnValue : Type 0 where
  pub column : Bytes
  pub value : QueryWithArgs

-- `customValueQuery`; of two entries of one key in `model_values`, the first counts.
pub record CustomValues : Type 0 where
  pub model_values : List (Bytes × QueryWithArgs)
  pub extra_values : List ColumnValue

-- `q.modelValues[name]`
unfoldable pub model_value : Bytes → List (Bytes × QueryWithArgs) → Option QueryWithArgs
model_value n [] = none
model_value n ((k, v) ∷ vs) = if bytes_eq k n then some v else model_value n vs

-- `addValue`
unfoldable pub add_value : Table → Bytes → Bytes → Option (List Arg) → CustomValues → CustomValues
unfolding find_field safe_query
add_value t column value args q = elim (find_field column t.fields) [
  | none ↦ record q {
    extra_values = q.extra_values ++ record { column = column; value = safe_query value args } ∷ [];
  }
  | some f ↦ record q { model_values = (column, safe_query value args) ∷ q.model_values }
]

-- `appendSet`
unfoldable pub append_set : Fmter → List QueryWithArgs → Appender
unfolding each
append_set fm = each comma (append_query_with_args fm) true

-- `appendCascade`
unfoldable pub append_cascade : Fmter → Bool → Bool → Bytes → Bytes
append_cascade fm cascade restrict b =
    if fm.has_feature table_cascade
    then (let b' = if cascade then b ++ codes " CASCADE" else b in
        if restrict then b' ++ codes " RESTRICT" else b')
    else b
