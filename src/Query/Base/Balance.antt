-- ===== src/Query/Base/Balance.antt =====
-- The clauses that the builders share keep the depth in parentheses.
use shilohcommunityenterpris.Common.{
  ℕ, suc, Bool, true, false, not, ◌&&◌, List, [], ◌∷◌, ◌++◌, Option, none, some, if◌then◌else◌,
  Bytes, codes, bytes_eq, length, ltb, All, ◌≡◌, refl,
}
use shilohcommunityenterpris.Common.Result.{ok}
use shilohcommunityenterpris.Dialect.{append_ident}
use shilohcommunityenterpris.Schema.Formatter.{append_query}
use shilohcommunityenterpris.Query.Fragment.{
  Appender, with_values, Fmter, QueryWithArgs, done, is_empty, is_zero, append_query_with_args,
  each, comma,
}
use shilohcommunityenterpris.Query.Base.{
  Field, Table, WithQuery, BaseQuery, append_fields, append_column_list, append_select_from_values,
  append_cte, append_with, model_has_table_name, append_table_name, append_model_table, table_loop,
  append_tables, append_aliased, table_or_first, append_first_table, append_other_tables, tail,
}
use shilohcommunityenterpris.Query.Balance.{
  nest, At, IsBalanced, At-text, Ends, Keeps, Ends-bind, Ends-if, At-if, each-Keeps,
}

-- A piece of text that keeps the depth.
abbrev pub IsKept : Fmter → QueryWithArgs → Type 0
IsKept fm q = Keeps (append_query_with_args fm q)

abbrev pub comma-IsBalanced : IsBalanced comma
unfolding nest
comma-IsBalanced k = refl

-- The names of a field and a table.
abbrev pub IsPlainField : Field → Type 0
IsPlainField f = IsBalanced f.sql_name

pub record IsPlainTable (fm : Fmter) (t : Table) : Type 0 where
  pub sql_name : Keeps (λ b. done (append_query fm.formatter b t.sql_name none))
  pub sql_name_for_selects :
      Keeps (λ b. done (append_query fm.formatter b t.sql_name_for_selects none))
  pub name_text : IsBalanced t.sql_name
  pub sql_alias : IsBalanced t.sql_alias
  pub fields : All IsPlainField t.fields

abbrev pub PlainTable : Fmter → Option Table → Type 0
PlainTable fm none = Unit
PlainTable fm (some t) = IsPlainTable fm t

pub record IsPlainWith (fm : Fmter) (w : WithQuery) : Type 0 where
  pub name : (k : ℕ) (b : Bytes) → At k b → At k (append_ident b w.name fm.ident_quote)
  pub columns : (f : Fmter → Appender) → w.columns ≡ some f → Keeps (f fm)
  pub query : Keeps (w.query fm)

pub append_fields-At :
    (table : Bytes) (first : Bool) (fs : List Field) (k : ℕ) (b : Bytes)
    → IsBalanced table
    → All IsPlainField fs
    → At k b
    → At k (append_fields table first fs b)
unfolding append_fields nest
append_fields-At table first [] k b ht h hb = hb
append_fields-At table first (f ∷ fs) k b ht (hf, h) hb =
    let start = if first then b else b ++ comma in
    let hs : At k start = At-if k first b (b ++ comma) hb (At-text b comma hb refl) in
    let named = if is_empty table then start else (start ++ table) ++ b'.' ∷ [] in
    let hn : At k named =
      At-if k (is_empty table) start ((start ++ table) ++ b'.' ∷ []) hs
        (At-text (start ++ table) (b'.' ∷ []) (At-text start table hs (ht k)) refl) in
    append_fields-At table false fs k (named ++ f.sql_name) ht h
      (At-text named f.sql_name hn (hf k))

module _ (fm : Fmter) where
  column_list-Ends :
      (k : ℕ) (o : Option (Fmter → Appender)) (b : Bytes)
      → ((f : Fmter → Appender) → o ≡ some f → Keeps (f fm))
      → At k b
      → Ends k (append_column_list fm o b)
  unfolding nest
  column_list-Ends k none b h hb = hb
  column_list-Ends k (some f) b h hb =
      Ends-bind (suc k) k (f fm (b ++ codes " (")) (λ b'. ok (b' ++ codes ")"))
        (h f refl (suc k) (b ++ codes " (") (At-text b (codes " (") hb refl))
        (λ b' hb'. At-text b' (codes ")") hb' refl)

  append_cte-Keeps : (w : WithQuery) → IsPlainWith fm w → Keeps (append_cte fm w)
  unfolding append_cte append_select_from_values nest
  append_cte-Keeps w h k b hb =
      let i = append_ident b w.name fm.ident_quote in
      let hi = h.name k b hb in
      Ends-if k (not (fm.has_feature with_values) && w.is_values) (append_select_from_values fm w b)
        _
        (Ends-bind (suc (suc k)) k (w.query fm (i ++ codes " AS (SELECT * FROM (")) _
          (h.query (suc (suc k)) _ (At-text i (codes " AS (SELECT * FROM (") hi refl))
          (λ b1 h1.
            Ends-bind (suc k) k (append_column_list fm w.columns (b1 ++ codes ") AS t")) _
              (column_list-Ends (suc k) w.columns _ h.columns (At-text b1 (codes ") AS t") h1 refl))
              (λ b2 h2. At-text b2 (codes ")") h2 refl)))
        (Ends-bind k k (append_column_list fm w.columns i) _
          (column_list-Ends k w.columns i h.columns hi)
          (λ b1 h1.
            Ends-bind (suc k) k (w.query fm (b1 ++ codes " AS (")) _
              (h.query (suc k) _ (At-text b1 (codes " AS (") h1 refl))
              (λ b2 h2. At-text b2 (codes ")") h2 refl)))

  with-All : (ws : List WithQuery) → All (IsPlainWith fm) ws → All (λ w. Keeps (append_cte fm w)) ws
  with-All [] h = tt
  with-All (w ∷ ws) (hw, h) = (append_cte-Keeps w hw, with-All ws h)

  pub append_with-Keeps :
      (ws : List WithQuery) → All (IsPlainWith fm) ws → Keeps (append_with fm ws)
  unfolding append_with nest
  append_with-Keeps [] h k b hb = hb
  append_with-Keeps (w ∷ ws) h k b hb =
      Ends-bind k k (each comma (append_cte fm) true (w ∷ ws) (b ++ codes "WITH ")) _
        (each-Keeps comma (append_cte fm) comma-IsBalanced true (w ∷ ws) (with-All (w ∷ ws) h) k
          (b ++ codes "WITH ") (At-text b (codes "WITH ") hb refl))
        (λ b' h'. At-text b' (b' ' ∷ []) h' refl)

  table_name-Ends :
      (k : ℕ) (alias : Bool) (o : Option Table) (b : Bytes)
      → PlainTable fm o
      → At k b
      → Ends k (append_table_name fm alias o b)
  unfolding nest
  table_name-Ends k alias none b h hb = hb
  table_name-Ends k alias (some t) b h hb =
      Ends-bind k k (done (append_query fm.formatter b t.sql_name_for_selects none)) _
        (h.sql_name_for_selects k b hb)
        (λ b' h'.
          At-if k (alias && not (bytes_eq t.sql_alias t.sql_name_for_selects)) _ b'
            (At-text (b' ++ codes " AS ") t.sql_alias (At-text b' (codes " AS ") h' refl)
              (h.sql_alias k))
            h')

  table_loop-Keeps :
      (start : ℕ) (ts : List QueryWithArgs) → All (IsKept fm) ts → Keeps (table_loop fm start ts)
  unfolding table_loop nest
  table_loop-Keeps start [] h k b hb = hb
  table_loop-Keeps start (t ∷ ts) (ht, h) k b hb =
      let b' = if ltb start (length b) then b ++ comma else b in
      Ends-bind k k (append_query_with_args fm t b') (table_loop fm start ts)
        (ht k b' (At-if k (ltb start (length b)) (b ++ comma) b (At-text b comma hb refl) hb))
        (λ b'' h''. table_loop-Keeps start ts h k b'' h'')

  aliased-Ends :
      (k : ℕ) (alias : Bool) (t : Table) (b : Bytes)
      → IsPlainTable fm t
      → At k b
      → Ends k (append_aliased fm alias t b)
  unfolding nest
  aliased-Ends k alias t b h hb =
      Ends-bind k k (done (append_query fm.formatter b t.sql_name none)) _ (h.sql_name k b hb)
        (λ b' h'.
          At-if k alias _ b'
            (At-text (b' ++ codes " AS ") t.sql_alias (At-text b' (codes " AS ") h' refl)
              (h.sql_alias k))
            h')

  -- The tables of a query.
  pub record IsPlainTables (q : BaseQuery) : Type 0 where
    pub model_table_name : IsKept fm q.model_table_name
    pub table : PlainTable fm q.table
    pub tables : All (IsKept fm) q.tables

  pub append_tables-Keeps :
      (alias : Bool) (q : BaseQuery) → IsPlainTables q → Keeps (append_tables fm alias q)
  unfolding append_tables
  append_tables-Keeps alias q h k b hb =
      Ends-bind k k (append_model_table fm alias q b) (table_loop fm (length b) q.tables)
        (Ends-if k (model_has_table_name q) _ (ok b)
          (Ends-if k (is_zero q.model_table_name) _ _ (table_name-Ends k alias q.table b h.table hb)
            (h.model_table_name k b hb))
          hb)
        (λ b' h'. table_loop-Keeps (length b) q.tables h.tables k b' h')

  first-Ends :
      (k : ℕ) (alias : Bool) (o : Option Table) (ts : List QueryWithArgs) (b : Bytes)
      → PlainTable fm o
      → All (IsKept fm) ts
      → At k b
      → Ends k (table_or_first fm alias o ts b)
  first-Ends k alias (some t) ts b ht h hb = aliased-Ends k alias t b ht hb
  first-Ends k alias none (t ∷ ts) b ht (h, hs) hb = h k b hb
  first-Ends k alias none [] b ht h hb = tt

  pub append_first_table-Keeps :
      (alias : Bool) (q : BaseQuery) → IsPlainTables q → Keeps (append_first_table fm alias q)
  unfolding append_first_table
  append_first_table-Keeps alias q h k b hb =
      Ends-if k (is_zero q.model_table_name) _ _
        (first-Ends k alias q.table q.tables b h.table h.tables hb) (h.model_table_name k b hb)

  tail-All : (ts : List QueryWithArgs) → All (IsKept fm) ts → All (IsKept fm) (tail ts)
  tail-All [] h = tt
  tail-All (t ∷ ts) (ht, h) = h

  if-All :
      (c : Bool) (ts us : List QueryWithArgs)
      → All (IsKept fm) ts
      → All (IsKept fm) us
      → All (IsKept fm) (if c then ts else us)
  if-All true ts us h g = h
  if-All false ts us h g = g

  pub append_other_tables-Keeps :
      (q : BaseQuery) → IsPlainTables q → Keeps (append_other_tables fm q)
  unfolding append_other_tables
  append_other_tables-Keeps q h =
      each-Keeps comma (append_query_with_args fm) comma-IsBalanced true _ (
        if-All (model_has_table_name q) q.tables (tail q.tables) h.tables
          (tail-All q.tables h.tables))
