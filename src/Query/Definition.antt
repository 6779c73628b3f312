-- ===== src/Query/Definition.antt =====
-- query_table_create.go, query_index_create.go and the other queries that define tables.
pub mod Balance
use shilohcommunityenterpris.Common.{
  ℕ, zero, suc, Bool, true, false, not, ◌&&◌, ◌||◌, List, [], ◌∷◌, ◌++◌, Option, none, some,
  if◌then◌else◌, Bytes, codes, bytes_eq, ltb,
}
use shilohcommunityenterpris.Common.Decimal.{pos, append_int}
use shilohcommunityenterpris.Common.Result.{Result, ok, err, ◌>>=◌}
use shilohcommunityenterpris.Dialect.{append_ident}
use shilohcommunityenterpris.Query.Fragment.{
  QueryError, nil_model, not_one_column, Appender, Feature, auto_increment, generated_identity,
  table_not_exists, table_truncate, table_identity, Fmter, QueryWithArgs, is_zero, is_empty,
  is_empty_list, append_query_with_args, each, comma,
}
use shilohcommunityenterpris.Query.Base.{
  Field, Table, BaseQuery, append_fields, append_tables, append_first_table,
}
use shilohcommunityenterpris.Query.Select.{unless}
use shilohcommunityenterpris.Query.Values.{append_cascade, columns_of}
use shilohcommunityenterpris.Query.Where.{WhereQuery, append_conditions}

-- `CreateTableQuery`; `unique` is `q.table.Unique` in the order of its keys
pub record CreateTableQuery : Type 0 where
  pub base : BaseQuery
  pub temp : Bool
  pub if_not_exists : Bool
  pub varchar : ℕ
  pub unique : List (Bytes × List Field)
  pub fks : List QueryWithArgs
  pub partition_by : QueryWithArgs
  pub tablespace : QueryWithArgs

abbrev pub when : Bool → Bytes → Bytes → Bytes
when c text b = if c then b ++ text else b

-- `appendSQLType`
unfoldable pub append_sql_type : ℕ → Field → Bytes → Bytes
append_sql_type varchar f b =
    if not (bytes_eq f.create_type f.discovered_type)
    then b ++ f.create_type
    else if ltb 0 varchar && bytes_eq f.create_type (codes "VARCHAR")
    then append_int (b ++ codes "varchar(") (pos varchar) ++ codes ")"
    else b ++ f.create_type

-- One column of the table.
unfoldable pub append_definition : Fmter → ℕ → Field → Bytes → Bytes
unfolding append_sql_type
append_definition fm varchar f b =
    let typed = append_sql_type varchar f ((b ++ f.sql_name) ++ codes " ") in
    let filled = when f.not_null (codes " NOT NULL") typed in
    let counted =
      when
        (f.auto_increment && not (fm.has_feature auto_increment) && fm.has_feature Feature.identity)
        (codes " IDENTITY")
        (when (f.auto_increment && fm.has_feature auto_increment) (codes " AUTO_INCREMENT")
          filled) in
    let generated =
      when (f.identity && fm.has_feature generated_identity)
        (codes " GENERATED BY DEFAULT AS IDENTITY") counted in
    if is_empty f.sql_default then generated else (generated ++ codes " DEFAULT ") ++ f.sql_default

unfoldable pub append_definitions : Fmter → ℕ → Bool → List Field → Bytes → Bytes
unfolding append_definition
append_definitions fm varchar first [] b = b
append_definitions fm varchar first (f ∷ fs) b =
    append_definitions fm varchar false fs
      (append_definition fm varchar f (if first then b else b ++ comma))

-- `appendPKConstraint`
unfoldable pub append_pk_constraint : List Field → Bytes → Bytes
unfolding append_fields
append_pk_constraint [] b = b
append_pk_constraint (f ∷ fs) b =
    append_fields [] true (f ∷ fs) (b ++ codes ", PRIMARY KEY (") ++ codes ")"

-- `appendUniqueConstraint`
unfoldable pub append_unique_constraint : Fmter → Bytes → List Field → Bytes → Bytes
unfolding append_fields
append_unique_constraint fm [] fs b =
    append_fields [] true fs ((b ++ codes ",") ++ codes " UNIQUE (") ++ codes ")"
append_unique_constraint fm (c ∷ name) fs b =
    append_fields [] true fs
      (append_ident (b ++ codes ", CONSTRAINT ") (c ∷ name) fm.ident_quote ++ codes " UNIQUE (")
    ++ codes ")"

-- Without a name each field is unique by itself.
unfoldable pub append_each_unique : Fmter → List Field → Bytes → Bytes
unfolding append_unique_constraint
append_each_unique fm [] b = b
append_each_unique fm (f ∷ fs) b =
    append_each_unique fm fs (append_unique_constraint fm [] (f ∷ []) b)

-- `appendUniqueConstraints`
unfoldable pub append_unique_constraints : Fmter → List (Bytes × List Field) → Bytes → Bytes
unfolding append_each_unique append_unique_constraint
append_unique_constraints fm [] b = b
append_unique_constraints fm (([], fs) ∷ us) b =
    append_unique_constraints fm us (append_each_unique fm fs b)
append_unique_constraints fm ((c ∷ name, fs) ∷ us) b =
    append_unique_constraints fm us (append_unique_constraint fm (c ∷ name) fs b)

-- `appendFKConstraints`
unfoldable pub append_fk_constraints : Fmter → List QueryWithArgs → Appender
append_fk_constraints fm [] b = ok b
append_fk_constraints fm (k ∷ ks) b =
    append_query_with_args fm k (b ++ codes ", FOREIGN KEY ") >>= λ b'.
    append_fk_constraints fm ks b'

-- A clause that is there where its piece is not zero.
unfoldable pub append_option : Fmter → Bytes → QueryWithArgs → Appender
unfolding is_zero
append_option fm word q b = if is_zero q then ok b else append_query_with_args fm q (b ++ word)

unfoldable pub append_created : Fmter → CreateTableQuery → Table → Appender
unfolding append_first_table append_definitions each append_pk_constraint append_unique_constraints
    append_fk_constraints append_option
append_created fm q t b = do
  b1 ← append_first_table fm false q.base (
      when (q.if_not_exists && fm.has_feature table_not_exists) (codes "IF NOT EXISTS ")
        (when q.temp (codes "TEMP ") (b ++ codes "CREATE ") ++ codes "TABLE "))
  b2 ←
      each comma (append_query_with_args fm) (is_empty_list t.fields) (columns_of q.base)
        (append_definitions fm q.varchar true t.fields (b1 ++ codes " ("))
  b3 ←
      append_fk_constraints fm q.fks
        (append_unique_constraints fm q.unique (append_pk_constraint t.pks b2))
  b4 ← append_option fm (codes " PARTITION BY ") q.partition_by (b3 ++ codes ")")
  append_option fm (codes " TABLESPACE ") q.tablespace b4

abbrev pub created_from : Fmter → CreateTableQuery → Option Table → Appender
created_from fm q none b = err nil_model
created_from fm q (some t) b = append_created fm q t b

-- `CreateTableQuery.AppendQuery`
unfoldable pub append_create_table : Fmter → CreateTableQuery → Appender
unfolding append_created
append_create_table fm q b = unless q.base.error (created_from fm q q.base.table b)

pub record CreateIndexQuery : Type 0 where
  pub wheres : WhereQuery
  pub unique : Bool
  pub fulltext : Bool
  pub spatial : Bool
  pub concurrently : Bool
  pub if_not_exists : Bool
  pub index : QueryWithArgs
  pub using : QueryWithArgs
  pub include : List QueryWithArgs

abbrev pub index_word : CreateIndexQuery → Bytes → Bytes
index_word q b = when q.if_not_exists (codes "IF NOT EXISTS ") (
    when q.concurrently (codes "CONCURRENTLY ") (
      when q.spatial (codes "SPATIAL ") (
        when q.fulltext (codes "FULLTEXT ")
          (when q.unique (codes "UNIQUE ") (b ++ codes "CREATE ")))
      ++ codes "INDEX "))

abbrev pub append_include : Fmter → List QueryWithArgs → Appender
append_include fm [] b = ok b
append_include fm (q ∷ qs) b =
    each comma (append_query_with_args fm) true (q ∷ qs) (b ++ codes " INCLUDE (") >>= λ b'.
    ok (b' ++ codes ")")

abbrev pub index_conditions : Fmter → WhereQuery → Appender
index_conditions fm w b =
    if is_empty_list w.conditions
    then ok b
    else append_conditions fm true w.conditions (b ++ codes " WHERE ")

unfoldable pub append_index_body : Fmter → CreateIndexQuery → Appender
unfolding append_first_table append_option each append_conditions
append_index_body fm q b = do
  b1 ← append_query_with_args fm q.index (index_word q b)
  b2 ← append_first_table fm false q.wheres.base (b1 ++ codes " ON ")
  b3 ← append_option fm (codes " USING ") q.using b2
  b4 ← each comma (append_query_with_args fm) true (columns_of q.wheres.base) (b3 ++ codes " (")
  b5 ← append_include fm q.include (b4 ++ codes ")")
  index_conditions fm q.wheres b5

-- `CreateIndexQuery.AppendQuery`
unfoldable pub append_create_index : Fmter → CreateIndexQuery → Appender
unfolding append_index_body
append_create_index fm q b = unless q.wheres.base.error (append_index_body fm q b)

-- `DropIndexQuery.AppendQuery` and `DropTableQuery.AppendQuery`, with the flags of `cascadeQuery`
unfoldable pub append_drop_index :
    Fmter → BaseQuery → Bool → Bool → QueryWithArgs → Bool → Bool → Appender
unfolding append_cascade
append_drop_index fm q concurrently if_exists index cascade restrict b = unless q.error (
    append_query_with_args fm index (
      when if_exists (codes "IF EXISTS ")
        (when concurrently (codes "CONCURRENTLY ") (b ++ codes "DROP INDEX ")))
    >>= λ b'. ok (append_cascade fm cascade restrict b'))

unfoldable pub append_drop_table : Fmter → BaseQuery → Bool → Bool → Bool → Appender
unfolding append_cascade append_tables
append_drop_table fm q if_exists cascade restrict b = unless q.error (
    append_tables fm false q (when if_exists (codes "IF EXISTS ") (b ++ codes "DROP TABLE "))
    >>= λ b'. ok (append_cascade fm cascade restrict b'))

abbrev pub the_column : List QueryWithArgs → Result QueryError QueryWithArgs
the_column (c ∷ []) = ok c
the_column _ = err not_one_column

-- `AddColumnQuery.AppendQuery` and `DropColumnQuery.AppendQuery`: exactly one column
unfoldable pub append_add_column : Fmter → BaseQuery → Bool → Appender
unfolding append_first_table
append_add_column fm q if_not_exists b = unless q.error (
    the_column (columns_of q) >>= λ c.
    append_first_table fm false q (b ++ codes "ALTER TABLE ") >>= λ b'.
    append_query_with_args fm c (when if_not_exists (codes "IF NOT EXISTS ") (b' ++ codes " ADD ")))

unfoldable pub append_drop_column : Fmter → BaseQuery → Appender
unfolding append_first_table
append_drop_column fm q b = unless q.error (
    the_column (columns_of q) >>= λ c.
    append_first_table fm false q (b ++ codes "ALTER TABLE ") >>= λ b'.
    append_query_with_args fm c (b' ++ codes " DROP COLUMN "))

-- `TruncateTableQuery.AppendQuery`; `has_db` are the database's features
unfoldable pub append_truncate :
    Fmter → (Feature → Bool) → BaseQuery → Bool → Bool → Bool → Appender
unfolding append_cascade append_tables
append_truncate fm has_db q continue_identity cascade restrict b = unless q.error (
    if not (fm.has_feature table_truncate)
    then append_tables fm false q (b ++ codes "DELETE FROM ")
    else append_tables fm false q (b ++ codes "TRUNCATE TABLE ") >>= λ b'. ok (
        append_cascade fm cascade restrict (
          if has_db table_identity
          then b'
            ++ (if continue_identity then codes " CONTINUE IDENTITY" else codes " RESTART IDENTITY")
          else b')))
