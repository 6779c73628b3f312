-- ===== src/Query/Select/Depth.antt =====
-- A whole `SELECT` keeps the depth in parentheses.
use shilohcommunityenterpris.Common.{
  ℕ, suc, Bool, true, false, not, ◌&&◌, ◌||◌, [], ◌∷◌, ◌++◌, Option, none, some, if◌then◌else◌,
  Bytes, codes, All, refl,
}
use shilohcommunityenterpris.Common.Result.{Result, ok, ◌>>=◌}
use shilohcommunityenterpris.Query.Fragment.{QueryError, Fmter, is_empty_list}
use shilohcommunityenterpris.Query.Base.{
  append_with, has_tables, append_tables, formatter_with_model,
}
use shilohcommunityenterpris.Query.Base.Balance.{
  IsKept, IsPlainWith, IsPlainTables, append_with-Keeps, append_tables-Keeps,
}
use shilohcommunityenterpris.Query.IndexHints.{append_index_hints}
use shilohcommunityenterpris.Query.IndexHints.Balance.{IsPlainHints, append_index_hints-Keeps}
use shilohcommunityenterpris.Query.Where.{append_where}
use shilohcommunityenterpris.Query.Where.Balance.{IsPlainWhere, append_where-Keeps}
use shilohcommunityenterpris.Query.Select.{
  SelectQuery, append_distinct, append_select_columns, append_inline_joins, append_joins,
  append_clause, append_having, append_tail, append_core, append_combined, append_counted,
  append_query, append_form, unless, is_some_list, Form, rows, count, select_exists, where_exists,
}
use shilohcommunityenterpris.Query.Select.Balance.{
  IsPlainJoin, IsPlainUnion, distinct-Keeps, joins-Keeps, clause-Keeps, having-Keeps, tail-Keeps,
  unions-Keeps, inline_joins-Keeps,
}
use shilohcommunityenterpris.Query.Select.Balance.Columns.{
  KeptPieces, KeptOptional, IsPlainInline, IsPlainStrings, append_select_columns-Keeps,
}
use shilohcommunityenterpris.Query.Balance.{nest, At, At-text, Ends, Keeps, Ends-bind, Ends-if}

-- A query whose pieces keep the depth.
pub record IsPlainSelect (fm : Fmter) (q : SelectQuery) : Type 0 where
  pub withs : All (IsPlainWith fm) q.wheres.base.withs
  pub distinct_on : KeptOptional fm q.distinct_on
  pub columns : KeptOptional fm q.wheres.base.columns
  pub inline_joins : All (IsPlainInline fm) q.inline_joins
  pub tables : IsPlainTables fm q.wheres.base
  pub joins : All (IsPlainJoin fm) q.joins
  pub hints : IsPlainHints fm q.hints
  pub wheres : IsPlainWhere fm q.wheres
  pub group : KeptPieces fm q.group
  pub having : KeptPieces fm q.having
  pub order : KeptPieces fm q.order
  pub sel_for : IsKept fm q.sel_for
  pub unions : All (IsPlainUnion fm) q.unions

module _ (fm : Fmter) (strings : Bytes → Bytes → Bytes) (hs : IsPlainStrings strings)
    (q : SelectQuery) (h : IsPlainSelect fm q) where
  -- The clauses behind the columns.
  rest-Ends :
      (k : ℕ) (c : Bool) (b : Bytes)
      → At k b
      → Ends k (do
        b5 ← append_inline_joins fm q.inline_joins b
        b6 ← append_joins fm q.joins b5
        b7 ← append_index_hints fm q.hints b6
        b8 ← append_where fm true q.wheres b7
        b9 ← append_clause fm (codes " GROUP BY ") q.group b8
        b10 ← append_having fm q.having b9
        (if c then ok b10 else append_tail fm q b10))
  unfolding nest
  rest-Ends k c b hb =
      Ends-bind k k (append_inline_joins fm q.inline_joins b) _
        (inline_joins-Keeps fm q.inline_joins h.inline_joins k b hb)
        (λ b5 h5.
          Ends-bind k k (append_joins fm q.joins b5) _ (joins-Keeps fm q.joins h.joins k b5 h5)
            (λ b6 h6.
              Ends-bind k k (append_index_hints fm q.hints b6) _
                (append_index_hints-Keeps fm q.hints h.hints k b6 h6)
                (λ b7 h7.
                  Ends-bind k k (append_where fm true q.wheres b7) _
                    (append_where-Keeps fm true q.wheres h.wheres k b7 h7)
                    (λ b8 h8.
                      Ends-bind k k (append_clause fm (codes " GROUP BY ") q.group b8) _
                        (clause-Keeps fm (codes " GROUP BY ") q.group (λ j. refl) h.group k b8 h8)
                        (λ b9 h9.
                          Ends-bind k k (append_having fm q.having b9) _
                            (having-Keeps fm q.having h.having k b9 h9)
                            (λ b10 h10.
                              Ends-if k c (ok b10) _ h10
                                (tail-Keeps fm q h.order h.sel_for k b10 h10)))))))

  core-Keeps : (c cte : Bool) → Keeps (append_core fm strings c cte q)
  unfolding append_core nest
  core-Keeps c cte k b hb =
      Ends-bind k k (append_with fm q.wheres.base.withs b) _
        (append_with-Keeps fm q.wheres.base.withs h.withs k b hb)
        (λ b1 h1.
          Ends-bind k k (append_distinct fm q.distinct_on (b1 ++ codes "SELECT ")) _
            (distinct-Keeps fm q.distinct_on h.distinct_on k _
              (At-text b1 (codes "SELECT ") h1 refl))
            (λ b2 h2.
              Ends-bind k k
                (if c && not cte
                  then ok (b2 ++ codes "count(*)")
                  else append_select_columns fm strings q.wheres.base q.inline_joins b2)
                _
                (Ends-if k (c && not cte) (ok (b2 ++ codes "count(*)")) _
                  (At-text b2 (codes "count(*)") h2 refl)
                  (append_select_columns-Keeps fm strings q.wheres.base q.inline_joins hs
                    h.tables.table h.columns h.inline_joins k b2 h2))
                (λ b3 h3.
                  Ends-bind k k
                    (if has_tables q.wheres.base
                      then append_tables fm true q.wheres.base (b3 ++ codes " FROM ")
                      else ok b3)
                    _
                    (Ends-if k (has_tables q.wheres.base) _ (ok b3)
                      (append_tables-Keeps fm true q.wheres.base h.tables k _
                        (At-text b3 (codes " FROM ") h3 refl))
                      h3)
                    (λ b4 h4. rest-Ends k c b4 h4))))

  combined-Keeps : (c cte : Bool) → Keeps (append_combined fm strings c cte q)
  unfolding append_combined nest
  combined-Keeps c cte k b hb =
      Ends-if k (is_empty_list q.unions) (append_core fm strings c cte q b) _
        (core-Keeps c cte k b hb)
        (Ends-bind (suc k) k (append_core fm strings c cte q (b ++ b'(' ∷ [])) _
          (core-Keeps c cte (suc k) _ (At-text b (b'(' ∷ []) hb refl))
          (λ b' h'. unions-Keeps fm q.unions h.unions k _ (At-text b' (b')' ∷ []) h' refl)))

  counted-Keeps : (c : Bool) → Keeps (append_counted fm strings c q)
  unfolding append_counted nest
  counted-Keeps c k b hb =
      Ends-if k (c && (not (is_empty_list q.group) || is_some_list q.distinct_on)) _ _
        (Ends-bind (suc k) k
          (append_combined fm strings c true q (b ++ codes "WITH _count_wrapper AS (")) _
          (combined-Keeps c true (suc k) _ (At-text b (codes "WITH _count_wrapper AS (") hb refl))
          (λ b' h'. At-text b' (codes ") SELECT count(*) FROM _count_wrapper") h' refl))
        (combined-Keeps c false k b hb)

pub unless-Ends :
    (k : ℕ) (e : Option QueryError) (r : Result QueryError Bytes) → Ends k r → Ends k (unless e r)
unless-Ends k none r h = h
unless-Ends k (some e) r h = tt

module _ (fm : Fmter) (strings : Bytes → Bytes → Bytes) (q : SelectQuery) where
  query-Keeps :
      (c : Bool)
      → IsPlainStrings strings
      → IsPlainSelect (formatter_with_model fm q.wheres.base) q
      → Keeps (append_query fm strings c q)
  unfolding append_query
  query-Keeps c hs h k b hb =
      unless-Ends k q.wheres.base.error _
        (counted-Keeps (formatter_with_model fm q.wheres.base) strings hs q h c k b hb)

  -- Where the pieces of a SELECT keep the depth in parentheses, the whole keeps it, in each of the
  -- four forms in which it is written (rows, count, SELECT EXISTS, WHERE EXISTS): read behind any
  -- text, it closes each parenthesis that it opens, and no other.
  pub append_form-Keeps :
      (form : Form)
      → IsPlainStrings strings
      → IsPlainSelect (formatter_with_model fm q.wheres.base) q
      → Keeps (append_form form fm strings q)
  unfolding append_form nest
  append_form-Keeps rows hs h k b hb = query-Keeps false hs h k b hb
  append_form-Keeps count hs h k b hb = query-Keeps true hs h k b hb
  append_form-Keeps select_exists hs h k b hb = unless-Ends k q.wheres.base.error _ (
      Ends-bind (suc k) k (append_query fm strings false q (b ++ codes "SELECT EXISTS (")) _
        (query-Keeps false hs h (suc k) _ (At-text b (codes "SELECT EXISTS (") hb refl))
        (λ b' h'. At-text b' (codes ")") h' refl))
  append_form-Keeps where_exists hs h k b hb = unless-Ends k q.wheres.base.error _ (
      Ends-bind (suc k) k (append_query fm strings false q (b ++ codes "SELECT 1 WHERE EXISTS (")) _
        (query-Keeps false hs h (suc k) _ (At-text b (codes "SELECT 1 WHERE EXISTS (") hb refl))
        (λ b' h'. At-text b' (codes ")") h' refl))
