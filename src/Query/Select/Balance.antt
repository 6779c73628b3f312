-- ===== src/Query/Select/Balance.antt =====
-- A `SELECT` keeps the depth in parentheses.
pub mod Columns
use shilohcommunityenterpris.Common.{
  ℕ, zero, suc, Bool, true, false, not, ◌&&◌, ◌||◌, List, [], ◌∷◌, ◌++◌, Option, none, some,
  if◌then◌else◌, Bytes, codes, length, All, ◌≡◌, refl,
}
use shilohcommunityenterpris.Common.Decimal.{ℤ}
use shilohcommunityenterpris.Common.Result.{Result, ok, err, ◌>>=◌}
use shilohcommunityenterpris.Query.Fragment.{
  QueryError, Appender, offset_fetch, Fmter, QueryWithArgs, QueryWithSep, is_zero, is_empty_list,
  append_query_with_args, each, comma,
}
use shilohcommunityenterpris.Query.Base.{
  BaseQuery, append_with, has_tables, append_tables, formatter_with_model,
}
use shilohcommunityenterpris.Query.Base.Balance.{
  IsKept, comma-IsBalanced, IsPlainWith, IsPlainTables, append_with-Keeps, append_tables-Keeps,
}
use shilohcommunityenterpris.Query.IndexHints.{append_index_hints}
use shilohcommunityenterpris.Query.IndexHints.Balance.{IsPlainHints, append_index_hints-Keeps}
use shilohcommunityenterpris.Query.Where.{append_where}
use shilohcommunityenterpris.Query.Where.Balance.{IsPlainWhere, append_where-Keeps}
use shilohcommunityenterpris.Query.Select
use shilohcommunityenterpris.Query.Select.{
  JoinQuery, Union, SelectQuery, append_distinct, append_select_columns, append_inline_joins,
  append_on, append_join, append_joins, append_clause, in_parens, append_having, append_number,
  fetch_next, offset_rows, given, append_limit, append_for, append_tail, append_unions, append_core,
  append_combined, append_counted, append_form, unless, is_some_list, Form, rows, count,
  select_exists, where_exists,
}
use shilohcommunityenterpris.Query.Select.Balance.Columns.{
  KeptPieces, KeptOptional, IsPlainInline, IsPlainStrings, append_select_columns-Keeps,
}
use shilohcommunityenterpris.Query.Balance.{
  nest, and_then, At, IsBalanced, At-text, Ends, Keeps, Ends-bind, Ends-if, At-if, each-Keeps,
}
use shilohcommunityenterpris.Query.Balance.Number.{append_int-At}

-- The pieces of a join.
pub record IsPlainJoin (fm : Fmter) (j : JoinQuery) : Type 0 where
  pub join : IsKept fm j.join
  pub on : All (λ w. IsKept fm w.query × IsBalanced w.sep) j.on

pub record IsPlainUnion (fm : Fmter) (u : Union) : Type 0 where
  pub expr : IsBalanced u.expr
  pub query : Keeps (u.query fm)

module _ (fm : Fmter) where
  pub distinct-Keeps :
      (o : Option (List QueryWithArgs)) → KeptOptional fm o → Keeps (append_distinct fm o)
  unfolding append_distinct nest
  distinct-Keeps none h k b hb = hb
  distinct-Keeps (some []) h k b hb = At-text b (codes "DISTINCT ") hb refl
  distinct-Keeps (some (d ∷ ds)) h k b hb =
      Ends-bind (suc k) k
        (each comma (append_query_with_args fm) true (d ∷ ds) (b ++ codes "DISTINCT ON (")) _
        (each-Keeps comma (append_query_with_args fm) comma-IsBalanced true (d ∷ ds) h (suc k) _
          (At-text b (codes "DISTINCT ON (") hb refl))
        (λ b' h'. At-text b' (codes ") ") h' refl)

  on-Keeps :
      (first : Bool) (ws : List QueryWithSep)
      → All (λ w. IsKept fm w.query × IsBalanced w.sep) ws
      → Keeps (append_on fm first ws)
  unfolding append_on nest
  on-Keeps first [] h k b hb = hb
  on-Keeps first (w ∷ ws) ((hq, hs), h) k b hb =
      let b0 = if first then b else b ++ w.sep in
      Ends-bind (suc k) k (append_query_with_args fm w.query (b0 ++ b'(' ∷ [])) _
        (hq (suc k) _ (
          At-text b0 (b'(' ∷ []) (At-if k first b (b ++ w.sep) hb (At-text b w.sep hb (hs k)))
            refl))
        (λ b' h'. on-Keeps false ws h k _ (At-text b' (b')' ∷ []) h' refl))

  join-Keeps : (j : JoinQuery) → IsPlainJoin fm j → Keeps (append_join fm j)
  unfolding append_join nest
  join-Keeps j h k b hb =
      Ends-bind k k (append_query_with_args fm j.join (b ++ b' ' ∷ [])) _
        (h.join k _ (At-text b (b' ' ∷ []) hb refl))
        (λ b' h'.
          Ends-if k (is_empty_list j.on) (ok b') _ h'
            (on-Keeps true j.on h.on k _ (At-text b' (codes " ON ") h' refl)))

  pub joins-Keeps : (js : List JoinQuery) → All (IsPlainJoin fm) js → Keeps (append_joins fm js)
  unfolding append_joins
  joins-Keeps [] h k b hb = hb
  joins-Keeps (j ∷ js) (hj, h) k b hb =
      Ends-bind k k (append_join fm j b) _ (join-Keeps j hj k b hb)
        (λ b' h'. joins-Keeps js h k b' h')

  pub clause-Keeps :
      (word : Bytes) (qs : List QueryWithArgs)
      → IsBalanced word
      → KeptPieces fm qs
      → Keeps (append_clause fm word qs)
  unfolding append_clause
  clause-Keeps word [] hw h k b hb = hb
  clause-Keeps word (q ∷ qs) hw h k b hb =
      each-Keeps comma (append_query_with_args fm) comma-IsBalanced true (q ∷ qs) h k _
        (At-text b word hb (hw k))

  in_parens-Keeps : (q : QueryWithArgs) → IsKept fm q → Keeps (in_parens fm q)
  unfolding nest
  in_parens-Keeps q h k b hb =
      Ends-bind (suc k) k (append_query_with_args fm q (b ++ b'(' ∷ [])) _
        (h (suc k) _ (At-text b (b'(' ∷ []) hb refl)) (λ b' h'. At-text b' (b')' ∷ []) h' refl)

  parens-All : (qs : List QueryWithArgs) → KeptPieces fm qs → All (λ q. Keeps (in_parens fm q)) qs
  parens-All [] h = tt
  parens-All (q ∷ qs) (hq, h) = (in_parens-Keeps q hq, parens-All qs h)

  pub having-Keeps : (qs : List QueryWithArgs) → KeptPieces fm qs → Keeps (append_having fm qs)
  unfolding append_having nest
  having-Keeps [] h k b hb = hb
  having-Keeps (q ∷ qs) h k b hb =
      each-Keeps (codes " AND ") (in_parens fm) (λ j. refl) true (q ∷ qs) (parens-All (q ∷ qs) h) k
        _ (At-text b (codes " HAVING ") hb refl)

  number-At :
      (k : ℕ) (word : Bytes) (n : ℤ) (b : Bytes)
      → IsBalanced word
      → At k b
      → At k (append_number word n b)
  number-At k word n b hw hb = append_int-At k (b ++ word) n (At-text b word hb (hw k))

  fetch-At : (k : ℕ) (n : ℤ) (b : Bytes) → At k b → At k (fetch_next n b)
  unfolding nest
  fetch-At k n b hb =
      At-text _ (codes " ROWS ONLY") (number-At k (codes " FETCH NEXT ") n b (λ j. refl) hb) refl

  offset-At : (k : ℕ) (n : ℤ) (b : Bytes) → At k b → At k (offset_rows n b)
  unfolding nest
  offset-At k n b hb =
      At-text _ (codes " ROWS") (number-At k (codes " OFFSET ") n b (λ j. refl) hb) refl

  pub append_limit-At : (k : ℕ) (l o : ℤ) (b : Bytes) → At k b → At k (append_limit fm l o b)
  unfolding append_limit nest
  append_limit-At k l o b hb =
      let hl : At k (if given l then append_number (codes " LIMIT ") l b else b) =
        At-if k (given l) _ b (number-At k (codes " LIMIT ") l b (λ j. refl) hb) hb in
      At-if k (fm.has_feature offset_fetch) _ _
        (At-if k (given l && given o) _ _ (fetch-At k l _ (offset-At k o b hb)) (
          At-if k (given l) _ _ (fetch-At k l _ (At-text b (codes " OFFSET 0 ROWS") hb refl))
            (At-if k (given o) _ b (offset-At k o b hb) hb)))
        (At-if k (given o) _ _ (number-At k (codes " OFFSET ") o _ (λ j. refl) hl) hl)

  pub tail-Keeps :
      (q : SelectQuery) → KeptPieces fm q.order → IsKept fm q.sel_for → Keeps (append_tail fm q)
  unfolding append_tail append_for nest
  tail-Keeps q ho hf k b hb =
      Ends-bind k k (append_clause fm (codes " ORDER BY ") q.order b) _
        (clause-Keeps (codes " ORDER BY ") q.order (λ j. refl) ho k b hb)
        (λ b1 h1.
          let h2 = append_limit-At k q.limit q.offset b1 h1 in
          Ends-if k (is_zero q.sel_for) (ok _) _ h2 (hf k _ (At-text _ (codes " FOR ") h2 refl)))

  pub unions-Keeps : (us : List Union) → All (IsPlainUnion fm) us → Keeps (append_unions fm us)
  unfolding append_unions nest
  unions-Keeps [] h k b hb = hb
  unions-Keeps (u ∷ us) (hu, h) k b hb =
      Ends-bind (suc k) k (u.query fm ((b ++ u.expr) ++ b'(' ∷ [])) _
        (hu.query (suc k) _ (At-text _ (b'(' ∷ []) (At-text b u.expr hb (hu.expr k)) refl))
        (λ b' h'. unions-Keeps us h k _ (At-text b' (b')' ∷ []) h' refl))

  pub inline_joins-Keeps :
      (js : List Select.InlineJoin) → All (IsPlainInline fm) js → Keeps (append_inline_joins fm js)
  unfolding append_inline_joins nest
  inline_joins-Keeps [] h k b hb = hb
  inline_joins-Keeps (j ∷ js) (hj, h) k b hb =
      Ends-bind k k (j.append_has_one_join fm (b ++ b' ' ∷ [])) _
        (hj.has_one_join k _ (At-text b (b' ' ∷ []) hb refl))
        (λ b' h'. inline_joins-Keeps js h k b' h')
