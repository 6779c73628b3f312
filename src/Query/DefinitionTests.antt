-- ===== src/Query/DefinitionTests.antt =====
-- A witness and tests for the queries that define tables.
use shilohcommunityenterpris.Common.{true, false, [], ◌∷◌, none, some, codes, ◌≡◌, refl}
use shilohcommunityenterpris.Common.Decimal.{append_int, append_uint, digits_onto}
use shilohcommunityenterpris.Common.Result.{ok}
use shilohcommunityenterpris.Dialect.{append_ident}
use shilohcommunityenterpris.Schema.Formatter.{append_query, has_question, is_none, is_nil}
use shilohcommunityenterpris.Query.Balance.{At-text, nest, Keeps}
use shilohcommunityenterpris.Query.Fragment.{append_query_with_args, is_zero, each}
use shilohcommunityenterpris.Query.Base.{Table, append_fields, append_first_table}
use shilohcommunityenterpris.Query.Base.Balance.{IsKept, IsPlainTable}
use shilohcommunityenterpris.Query.Definition.{
  CreateTableQuery, append_sql_type, append_definition, append_definitions, append_pk_constraint,
  append_unique_constraint, append_unique_constraints, append_fk_constraints, append_option,
  append_created, append_create_table,
}
use shilohcommunityenterpris.Query.Definition.Balance.{
  IsPlainColumn, IsPlainCreate, append_create_table-Keeps,
}
use shilohcommunityenterpris.Query.Sample.{fm, plain, nothing, field, table, base}

abbrev users : Table
users = table none

abbrev create : CreateTableQuery
create = record {
  base = base (some users) none;
  temp = true;
  if_not_exists = false;
  varchar = 255;
  unique = ([], field (codes "name") ∷ []) ∷ [];
  fks = plain (codes "(id) REFERENCES t (id)") ∷ [];
  partition_by = nothing;
  tablespace = nothing;
}

nothing-IsKept : IsKept fm nothing
unfolding append_query_with_args append_ident
nothing-IsKept k b h = h

table-IsPlain : IsPlainTable fm users
unfolding append_query has_question is_none is_nil nest
table-IsPlain = record {
  sql_name = λ k b h. At-text b (codes "\"users\"") h refl;
  sql_name_for_selects = λ k b h. At-text b (codes "\"users\"") h refl;
  name_text = λ k. refl;
  sql_alias = λ k. refl;
  fields = (λ k. refl, (λ k. refl, tt));
}

id-IsPlain : IsPlainColumn (field (codes "id"))
unfolding nest
id-IsPlain = record { sql_name = λ k. refl; create_type = λ k. refl; sql_default = λ k. refl }

name-IsPlain : IsPlainColumn (field (codes "name"))
unfolding nest
name-IsPlain = record { sql_name = λ k. refl; create_type = λ k. refl; sql_default = λ k. refl }

create-IsPlain : IsPlainCreate fm create users
unfolding append_query_with_args append_query has_question is_none is_nil append_ident nest
create-IsPlain = record {
  tables = record { model_table_name = nothing-IsKept; table = table-IsPlain; tables = tt };
  fields = (id-IsPlain, (name-IsPlain, tt));
  columns = tt;
  pks = (λ k. refl, tt);
  unique = ((λ k b h. h, (λ k. refl, tt)), tt);
  fks = (λ k b h. At-text b (codes "(id) REFERENCES t (id)") h refl, tt);
  partition_by = nothing-IsKept;
  tablespace = nothing-IsKept;
}

append_create_table-Keeps_example : Keeps (append_create_table fm create)
append_create_table-Keeps_example = append_create_table-Keeps fm create users refl create-IsPlain

-- The text of the query.
create_text :
    append_create_table fm create []
    ≡ ok (
        codes
          "CREATE TEMP TABLE \"users\" (\"id\" varchar(255) NOT NULL, \"name\" varchar(255) NOT NULL, PRIMARY KEY (\"id\"), UNIQUE (\"name\"), FOREIGN KEY (id) REFERENCES t (id))")
unfolding append_create_table append_created append_definitions append_definition append_sql_type
    append_pk_constraint append_unique_constraints append_unique_constraint append_fk_constraints
    append_option append_first_table append_fields append_query_with_args append_query has_question
    is_none is_nil is_zero each append_ident append_int append_uint digits_onto
create_text = refl
