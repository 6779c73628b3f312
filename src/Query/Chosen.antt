-- ===== src/Query/Chosen.antt =====
-- query_base.go: the columns that `WherePK` takes.
use shilohcommunityenterpris.Common.{
  Bool, true, false, ◌||◌, List, [], ◌∷◌, Option, none, some, if◌then◌else◌, Bytes,
}
use shilohcommunityenterpris.Common.Result.{Result, ok, err, ◌>>=◌}
use shilohcommunityenterpris.Query.Fragment.{
  QueryError, nil_model, no_pks, called_twice, is_empty_list,
}
use shilohcommunityenterpris.Query.Base.{Field, Table, set_err}
use shilohcommunityenterpris.Query.Values.{table_field}
use shilohcommunityenterpris.Query.Where.{WhereQuery, no_fields}

unfoldable pub with_err : QueryError → WhereQuery → WhereQuery
unfolding set_err
with_err e w = record w { base = set_err e w.base }

-- The fields of the columns, in order.
unfoldable pub fields_named : Option Table → List Bytes → Result QueryError (List Field)
unfolding table_field
fields_named t [] = ok []
fields_named t (c ∷ cs) = table_field t c >>= λ f. fields_named t cs >>= λ fs. ok (f ∷ fs)

-- The loop stops at an unknown column, with an error that keeps the query from being written.
unfoldable pub set_fields : WhereQuery → Result QueryError (List Field) → WhereQuery
unfolding with_err
set_fields w (err e) = with_err e (record w { where_fields = some [] })
set_fields w (ok fs) = record w { where_fields = some fs }

unfoldable pub where_by : Option Table → Option (List Bytes) → WhereQuery → WhereQuery
unfolding with_err fields_named set_fields
where_by none cs w = with_err nil_model w
where_by (some t) none w =
    if is_empty_list t.pks then with_err no_pks w else record w { where_fields = some t.pks }
where_by (some t) (some cs) w = set_fields w (fields_named (some t) cs)

abbrev no_table_yet : Option Table → Bool
no_table_yet none = true
no_table_yet (some t) = false

-- `addWhereCols`; `none` stands for no columns
unfoldable pub add_where_cols : Option (List Bytes) → WhereQuery → WhereQuery
unfolding with_err where_by
add_where_cols cs w =
    if no_fields w.where_fields || no_table_yet w.base.table
    then where_by w.base.table cs w
    else with_err called_twice w
