-- ===== src/Query/Definition/Balance.antt =====
-- `CREATE TABLE` and `CREATE INDEX` keep the depth in parentheses.
use shilohcommunityenterpris.Common.{
  ℕ, suc, Bool, true, false, not, ◌&&◌, List, [], ◌∷◌, ◌++◌, some, Bytes, codes, bytes_eq, ltb, All,
  ◌≡◌, refl, sym, subst,
}
use shilohcommunityenterpris.Common.Decimal.{pos}
use shilohcommunityenterpris.Common.Result.{ok}
use shilohcommunityenterpris.Dialect.{append_ident}
use shilohcommunityenterpris.Query.Fragment.{
  Feature, auto_increment, generated_identity, table_not_exists, Fmter, QueryWithArgs, is_zero,
  is_empty, is_empty_list, append_query_with_args, each, comma,
}
use shilohcommunityenterpris.Query.Base.{Field, Table, append_fields, append_first_table}
use shilohcommunityenterpris.Query.Base.Balance.{
  IsKept, comma-IsBalanced, IsPlainField, IsPlainTables, append_fields-At, append_first_table-Keeps,
}
use shilohcommunityenterpris.Query.Select.Depth.{unless-Ends}
use shilohcommunityenterpris.Query.Values.{columns_of}
use shilohcommunityenterpris.Query.Definition.{
  CreateTableQuery, when, append_sql_type, append_definition, append_definitions,
  append_pk_constraint, append_unique_constraint, append_each_unique, append_unique_constraints,
  append_fk_constraints, append_option, append_created, created_from, append_create_table,
}
use shilohcommunityenterpris.Query.Balance.{
  nest, At, IsBalanced, At-text, Ends, Keeps, Ends-bind, Ends-if, At-if, each-Keeps,
}
use shilohcommunityenterpris.Query.Balance.Number.{append_int-At}

-- A field whose name, type and default keep the depth.
pub record IsPlainColumn (f : Field) : Type 0 where
  pub sql_name : IsPlainField f
  pub create_type : IsBalanced f.create_type
  pub sql_default : IsBalanced f.sql_default

when-At : (k : ℕ) (c : Bool) (w b : Bytes) → IsBalanced w → At k b → At k (when c w b)
when-At k c w b hw h = At-if k c (b ++ w) b (At-text b w h (hw k)) h

type-At :
    (k varchar : ℕ) (f : Field) (b : Bytes)
    → IsPlainColumn f
    → At k b
    → At k (append_sql_type varchar f b)
unfolding append_sql_type nest
type-At k varchar f b hf h =
    let t = At-text b f.create_type h (hf.create_type k) in
    At-if k (not (bytes_eq f.create_type f.discovered_type)) _ _ t (
      At-if k (ltb 0 varchar && bytes_eq f.create_type (codes "VARCHAR")) _ _
        (At-text _ (codes ")")
          (append_int-At (suc k) _ (pos varchar) (At-text b (codes "varchar(") h refl)) refl)
        t)

module _ (fm : Fmter) where
  definition-At :
      (k varchar : ℕ) (f : Field) (b : Bytes)
      → IsPlainColumn f
      → At k b
      → At k (append_definition fm varchar f b)
  unfolding append_definition nest
  definition-At k varchar f b hf h =
      let h0 =
        type-At k varchar f _ hf
          (At-text _ (codes " ") (At-text b f.sql_name h (hf.sql_name k)) refl) in
      let h1 = when-At k f.not_null (codes " NOT NULL") _ (λ j. refl) h0 in
      let h2 =
        when-At k (f.auto_increment && fm.has_feature auto_increment) (codes " AUTO_INCREMENT") _
          (λ j. refl) h1 in
      let h3 =
        when-At k
          (f.auto_increment
            && not (fm.has_feature auto_increment)
            && fm.has_feature Feature.identity)
          (codes " IDENTITY") _ (λ j. refl) h2 in
      let h4 =
        when-At k (f.identity && fm.has_feature generated_identity)
          (codes " GENERATED BY DEFAULT AS IDENTITY") _ (λ j. refl) h3 in
      At-if k (is_empty f.sql_default) _ _ h4
        (At-text _ f.sql_default (At-text _ (codes " DEFAULT ") h4 refl) (hf.sql_default k))

  definitions-At :
      (k varchar : ℕ) (first : Bool) (fs : List Field) (b : Bytes)
      → All IsPlainColumn fs
      → At k b
      → At k (append_definitions fm varchar first fs b)
  unfolding append_definitions nest
  definitions-At k varchar first [] b hf h = h
  definitions-At k varchar first (f ∷ fs) b (hf, hfs) h =
      definitions-At k varchar false fs _ hfs
        (definition-At k varchar f _ hf (At-if k first b (b ++ comma) h (At-text b comma h refl)))

  names-At :
      (k : ℕ) (fs : List Field) (b : Bytes)
      → All IsPlainField fs
      → At (suc k) b
      → At k (append_fields [] true fs b ++ codes ")")
  unfolding nest
  names-At k fs b hf h =
      At-text _ (codes ")") (append_fields-At [] true fs (suc k) b (λ j. refl) hf h) refl

  pk-At :
      (k : ℕ) (fs : List Field) (b : Bytes)
      → All IsPlainField fs
      → At k b
      → At k (append_pk_constraint fs b)
  unfolding append_pk_constraint nest
  pk-At k [] b hf h = h
  pk-At k (f ∷ fs) b hf h = names-At k (f ∷ fs) _ hf (At-text b (codes ", PRIMARY KEY (") h refl)

  -- A name of a constraint, as an identifier.
  abbrev pub IsPlainName : Bytes → Type 0
  IsPlainName n = (k : ℕ) (b : Bytes) → At k b → At k (append_ident b n fm.ident_quote)

  unique-At :
      (k : ℕ) (n : Bytes) (fs : List Field) (b : Bytes)
      → IsPlainName n
      → All IsPlainField fs
      → At k b
      → At k (append_unique_constraint fm n fs b)
  unfolding append_unique_constraint nest
  unique-At k [] fs b hn hf h =
      names-At k fs _ hf (At-text _ (codes " UNIQUE (") (At-text b (codes ",") h refl) refl)
  unique-At k (c ∷ n) fs b hn hf h =
      names-At k fs _ hf
        (At-text _ (codes " UNIQUE (") (hn k _ (At-text b (codes ", CONSTRAINT ") h refl)) refl)

  each_unique-At :
      (k : ℕ) (fs : List Field) (b : Bytes)
      → IsPlainName []
      → All IsPlainField fs
      → At k b
      → At k (append_each_unique fm fs b)
  unfolding append_each_unique
  each_unique-At k [] b hn hf h = h
  each_unique-At k (f ∷ fs) b hn (hf, hfs) h =
      each_unique-At k fs _ hn hfs (unique-At k [] (f ∷ []) b hn (hf, tt) h)

  uniques-At :
      (k : ℕ) (us : List (Bytes × List Field)) (b : Bytes)
      → All (λ u. IsPlainName u.0 × All IsPlainField u.1) us
      → At k b
      → At k (append_unique_constraints fm us b)
  unfolding append_unique_constraints
  uniques-At k [] b hu h = h
  uniques-At k (([], fs) ∷ us) b ((hn, hf), hu) h =
      uniques-At k us _ hu (each_unique-At k fs b hn hf h)
  uniques-At k ((c ∷ n, fs) ∷ us) b ((hn, hf), hu) h =
      uniques-At k us _ hu (unique-At k (c ∷ n) fs b hn hf h)

  fks-Keeps : (ks : List QueryWithArgs) → All (IsKept fm) ks → Keeps (append_fk_constraints fm ks)
  unfolding append_fk_constraints nest
  fks-Keeps [] hk k b h = h
  fks-Keeps (q ∷ ks) (hq, hk) k b h =
      Ends-bind k k (append_query_with_args fm q (b ++ codes ", FOREIGN KEY ")) _
        (hq k _ (At-text b (codes ", FOREIGN KEY ") h refl)) (λ b' h'. fks-Keeps ks hk k b' h')

  option-Keeps :
      (w : Bytes) (q : QueryWithArgs) → IsBalanced w → IsKept fm q → Keeps (append_option fm w q)
  unfolding append_option
  option-Keeps w q hw hq k b h = Ends-if k (is_zero q) (ok b) _ h (hq k _ (At-text b w h (hw k)))

  pub record IsPlainCreate (q : CreateTableQuery) (t : Table) : Type 0 where
    pub tables : IsPlainTables fm q.base
    pub fields : All IsPlainColumn t.fields
    pub columns : All (IsKept fm) (columns_of q.base)
    pub pks : All IsPlainField t.pks
    pub unique : All (λ u. IsPlainName u.0 × All IsPlainField u.1) q.unique
    pub fks : All (IsKept fm) q.fks
    pub partition_by : IsKept fm q.partition_by
    pub tablespace : IsKept fm q.tablespace

  created-Keeps :
      (q : CreateTableQuery) (t : Table) → IsPlainCreate q t → Keeps (append_created fm q t)
  unfolding append_created nest
  created-Keeps q t hq k b h =
      let h0 =
        when-At k (q.if_not_exists && fm.has_feature table_not_exists) (codes "IF NOT EXISTS ") _
          (λ j. refl)
          (At-text _ (codes "TABLE ")
            (when-At k q.temp (codes "TEMP ") _ (λ j. refl) (At-text b (codes "CREATE ") h refl))
            refl) in
      Ends-bind k k (append_first_table fm false q.base _) _
        (append_first_table-Keeps fm false q.base hq.tables k _ h0)
        (λ b1 h1.
          Ends-bind (suc k) k
            (each comma (append_query_with_args fm) (is_empty_list t.fields) (columns_of q.base)
              (append_definitions fm q.varchar true t.fields (b1 ++ codes " (")))
            _
            (each-Keeps comma (append_query_with_args fm) comma-IsBalanced (is_empty_list t.fields)
              (columns_of q.base) hq.columns (suc k) _
              (definitions-At (suc k) q.varchar true t.fields _ hq.fields
                (At-text b1 (codes " (") h1 refl)))
            (λ b2 h2.
              Ends-bind (suc k) k (append_fk_constraints fm q.fks _) _
                (fks-Keeps q.fks hq.fks (suc k) _
                  (uniques-At (suc k) q.unique _ hq.unique (pk-At (suc k) t.pks b2 hq.pks h2)))
                (λ b3 h3.
                  Ends-bind k k
                    (append_option fm (codes " PARTITION BY ") q.partition_by (b3 ++ codes ")")) _
                    (option-Keeps (codes " PARTITION BY ") q.partition_by (λ j. refl)
                      hq.partition_by k _ (At-text b3 (codes ")") h3 refl))
                    (λ b4 h4.
                      option-Keeps (codes " TABLESPACE ") q.tablespace (λ j. refl) hq.tablespace k
                        b4 h4))))

  -- Where the names, types and defaults of the fields and the other pieces keep the depth in
  -- parentheses, CREATE TABLE keeps it, with all its constraints.
  pub append_create_table-Keeps :
      (q : CreateTableQuery) (t : Table)
      → q.base.table ≡ some t
      → IsPlainCreate q t
      → Keeps (append_create_table fm q)
  unfolding append_create_table
  append_create_table-Keeps q t ht hq k b h =
      unless-Ends k q.base.error _
        (subst (λ o. Ends k (created_from fm q o b)) (sym ht) (created-Keeps q t hq k b h))
