-- ===== src/Query/Sample.antt =====
-- A table, a formatter and queries for the tests.
use shilohcommunityenterpris.Common.{true, false, [], ◌∷◌, ◌++◌, Option, none, some, Bytes, codes}
use shilohcommunityenterpris.Query.Fragment.{Fmter, QueryWithArgs}
use shilohcommunityenterpris.Query.Base.{Field, Table, Struct, struct_model, Model, BaseQuery}
use shilohcommunityenterpris.Query.Values.{Returning, CustomValues}
use shilohcommunityenterpris.Query.Where.{WhereQuery}

abbrev pub zero_text : Bytes
zero_text = codes "'0001-01-01'"

abbrev pub fm : Fmter
fm = record {
  formatter = record { is_nop = false; args = [] };
  ident_quote = b'"';
  has_feature = λ f. false;
  append_zero_time = λ b. b ++ zero_text;
}

-- A piece of text without placeholders.
abbrev pub plain : Bytes → QueryWithArgs
plain s = record { query = s; args = some [] }

abbrev pub nothing : QueryWithArgs
nothing = record { query = []; args = none }

abbrev pub field : Bytes → Field
field name = record {
  name = name;
  sql_name = b'"' ∷ name ++ b'"' ∷ [];
  is_pk = false;
  is_ptr = false;
  null_zero = false;
  not_null = true;
  auto_increment = false;
  skip_update = false;
  sql_default = [];
  user_sql_type = [];
  identity = false;
  discovered_type = codes "VARCHAR";
  create_type = codes "VARCHAR";
}

abbrev pub deleted_at : Field
deleted_at = record (field (codes "deleted_at")) { is_ptr = true }

abbrev pub fixed : Field
fixed = record (field (codes "fixed")) { skip_update = true }

abbrev pub table : Option Field → Table
table soft = record {
  sql_name = codes "\"users\"";
  sql_name_for_selects = codes "\"users\"";
  sql_alias = codes "\"u\"";
  fields = field (codes "id") ∷ field (codes "name") ∷ [];
  pks = field (codes "id") ∷ [];
  data_fields = field (codes "name") ∷ field (codes "age") ∷ [];
  soft_delete_field = soft;
}

abbrev pub a_struct : Struct
a_struct = record {
  append_value = λ f b. b ++ b'7' ∷ [];
  has_nil_value = λ f. false;
  has_zero_value = λ f. false;
}

abbrev pub base : Option Table → Option Model → BaseQuery
base t m = record {
  error = none;
  table = t;
  model = m;
  plain_model = none;
  withs = [];
  model_table_name = nothing;
  tables = [];
  columns = none;
  flags = record { force_delete = false; deleted = false; all_with_deleted = false };
  model_named = none;
}

abbrev pub soft_base : BaseQuery
soft_base = base (some (table (some deleted_at))) (some (struct_model (some a_struct)))

abbrev pub wheres : BaseQuery → WhereQuery
wheres q = record { base = q; conditions = []; where_fields = none }

abbrev pub no_returning : Returning
no_returning = record { returning = []; returning_fields = [] }

abbrev pub no_values : CustomValues
no_values = record { model_values = []; extra_values = [] }
