-- ===== src/Query/Select.antt =====
-- query_select.go: the text of a `SELECT`.
pub mod Balance
pub mod Depth
pub mod Order
pub mod Sorts
pub mod Limit
use shilohcommunityenterpris.Common.{
  ℕ, ◌+◌, Bool, true, false, not, ◌&&◌, ◌||◌, List, [], ◌∷◌, ◌++◌, Option, none, some,
  if◌then◌else◌, Bytes, codes, bytes_eq, length, ltb, ◌==◌,
}
use shilohcommunityenterpris.Common.Decimal.{ℤ, pos, negsuc, append_int, append_uint}
use shilohcommunityenterpris.Common.Result.{Result, ok, err, ◌>>=◌}
use shilohcommunityenterpris.Query.Fragment.{
  QueryError, Appender, offset_fetch, Fmter, QueryWithArgs, QueryWithSep, is_zero, is_empty,
  is_empty_list, safe_query, safe_query_with_sep, append_query_with_args, each, comma,
}
use shilohcommunityenterpris.Query.Base.{
  Field, Table, BaseQuery, append_fields, append_with, has_tables, append_tables,
  formatter_with_model,
}
use shilohcommunityenterpris.Query.IndexHints.{Hints, append_index_hints}
use shilohcommunityenterpris.Query.Where.{WhereQuery, append_where}

-- `joinQuery`
pub record JoinQuery : Type 0 where
  pub join : QueryWithArgs
  pub on : List QueryWithSep

-- A relation that is joined inline: `appendInlineRelColumns` and `appendHasOneJoin`.
pub record InlineJoin : Type 0 where
  pub append_columns : Fmter → Appender
  pub append_has_one_join : Fmter → Appender

-- A query that is combined with another by `UNION` and the like, by its `AppendQuery`.
pub record Union : Type 0 where
  pub expr : Bytes
  pub query : Fmter → Appender

pub record SelectQuery : Type 0 where
  pub wheres : WhereQuery
  pub hints : Hints
  pub inline_joins : List InlineJoin
  pub distinct_on : Option (List QueryWithArgs)
  pub joins : List JoinQuery
  pub group : List QueryWithArgs
  pub having : List QueryWithArgs
  pub order : List QueryWithArgs
  pub limit : ℤ
  pub offset : ℤ
  pub sel_for : QueryWithArgs
  pub unions : List Union

-- `DistinctOn` for a `nil` slice and for one that is not.
unfoldable pub add_distinct_on : QueryWithArgs → SelectQuery → SelectQuery
add_distinct_on d q = record q {
  distinct_on = elim q.distinct_on [ none ↦ some (d ∷ []) | some ds ↦ some (ds ++ d ∷ []) ];
}

-- `joinOn` on the last join; `none` is the error that there is no join.
unfoldable pub join_on : QueryWithSep → List JoinQuery → Option (List JoinQuery)
join_on w [] = none
join_on w (j ∷ []) = some (record j { on = j.on ++ w ∷ [] } ∷ [])
join_on w (j ∷ k ∷ js) = elim (join_on w (k ∷ js)) [ none ↦ none | some l ↦ some (j ∷ l) ]

-- `DISTINCT` and `DISTINCT ON`
unfoldable pub append_distinct : Fmter → Option (List QueryWithArgs) → Appender
unfolding each
append_distinct fm none b = ok b
append_distinct fm (some []) b = ok (b ++ codes "DISTINCT ")
append_distinct fm (some (d ∷ ds)) b =
    each comma (append_query_with_args fm) true (d ∷ ds) (b ++ codes "DISTINCT ON (") >>= λ b'.
    ok (b' ++ codes ") ")

-- `q.table.FieldMap`
unfoldable pub find_field : Bytes → List Field → Option Field
find_field n [] = none
find_field n (f ∷ fs) = if bytes_eq f.name n then some f else find_field n fs

abbrev pub known_field : QueryWithArgs → Option Table → Option (Table × Field)
known_field q none = none
known_field q (some t) = elim q.args [
  | none ↦ elim (find_field q.query t.fields) [ none ↦ none | some f ↦ some (t, f) ]
  | some l ↦ none
]

abbrev pub append_known : Fmter → QueryWithArgs → Option (Table × Field) → Appender
append_known fm q none b = append_query_with_args fm q b
append_known fm q (some (t, f)) b = ok (((b ++ t.sql_alias) ++ b'.' ∷ []) ++ f.sql_name)

-- One column of a `SELECT`: a field of the table goes by its alias.
unfoldable pub append_column : Fmter → Option Table → QueryWithArgs → Appender
unfolding find_field
append_column fm t q = append_known fm q (known_field q t)

abbrev pub count_fields : List Field → ℕ
count_fields [] = 0
count_fields (f ∷ fs) = count_fields fs + 1

-- All columns of a table; a template of a wide table says how many.
unfoldable pub append_all_columns : Fmter → (Bytes → Bytes → Bytes) → Option Table → Bytes → Bytes
unfolding append_fields
append_all_columns fm append_string none b = b ++ codes "*"
append_all_columns fm append_string (some t) b =
    if ltb 10 (count_fields t.fields) && fm.formatter.is_nop
    then append_string ((b ++ t.sql_alias) ++ b'.' ∷ [])
        (append_uint [] (count_fields t.fields) ++ codes " columns")
    else append_fields t.sql_alias true t.fields b

-- The loop over the relations that are joined inline, with the length at which a comma was last put.
unfoldable pub inline_columns : Fmter → ℕ → List InlineJoin → Appender
inline_columns fm start [] b = ok b
inline_columns fm start (j ∷ js) b =
    let same = length b == start in
    let b' = if same then b else b ++ comma in
    let start' = if same then start else length b' in
    j.append_columns fm b' >>= λ b''. inline_columns fm start' js b''

-- `bytes.TrimSuffix(b, []byte(", "))`
unfoldable pub trim_comma : Bytes → Bytes
trim_comma [] = []
trim_comma (c ∷ []) = c ∷ []
trim_comma (c ∷ d ∷ []) = if c == b',' && d == b' ' then [] else c ∷ d ∷ []
trim_comma (c ∷ d ∷ e ∷ s) = c ∷ trim_comma (d ∷ e ∷ s)

abbrev pub columns_or_all :
    Fmter → (Bytes → Bytes → Bytes) → BaseQuery → Option (List QueryWithArgs) → Appender
columns_or_all fm append_string q none b = ok (append_all_columns fm append_string q.table b)
columns_or_all fm append_string q (some cs) b = each comma (append_column fm q.table) true cs b

-- `appendColumns`; `append_string` is the dialect's
unfoldable pub append_select_columns :
    Fmter → (Bytes → Bytes → Bytes) → BaseQuery → List InlineJoin → Appender
unfolding each append_column append_all_columns inline_columns trim_comma
append_select_columns fm append_string q js b =
    columns_or_all fm append_string q q.columns b >>= λ b1.
    inline_columns fm (length b) js b1 >>= λ b2. ok (trim_comma b2)

-- The joins of relations.
unfoldable pub append_inline_joins : Fmter → List InlineJoin → Appender
append_inline_joins fm [] b = ok b
append_inline_joins fm (j ∷ js) b =
    j.append_has_one_join fm (b ++ b' ' ∷ []) >>= λ b'. append_inline_joins fm js b'

-- The conditions of a join.
unfoldable pub append_on : Fmter → Bool → List QueryWithSep → Appender
append_on fm first [] b = ok b
append_on fm first (w ∷ ws) b =
    append_query_with_args fm w.query ((if first then b else b ++ w.sep) ++ b'(' ∷ []) >>= λ b'.
    append_on fm false ws (b' ++ b')' ∷ [])

-- `joinQuery.AppendQuery`
unfoldable pub append_join : Fmter → JoinQuery → Appender
unfolding append_on
append_join fm j b = append_query_with_args fm j.join (b ++ b' ' ∷ []) >>= λ b'.
    (if is_empty_list j.on then ok b' else append_on fm true j.on (b' ++ codes " ON "))

unfoldable pub append_joins : Fmter → List JoinQuery → Appender
unfolding append_join
append_joins fm [] b = ok b
append_joins fm (j ∷ js) b = append_join fm j b >>= λ b'. append_joins fm js b'

-- A clause of pieces with commas behind a word, if there are any.
unfoldable pub append_clause : Fmter → Bytes → List QueryWithArgs → Appender
unfolding each
append_clause fm word [] b = ok b
append_clause fm word (q ∷ qs) b = each comma (append_query_with_args fm) true (q ∷ qs) (b ++ word)

abbrev pub in_parens : Fmter → QueryWithArgs → Appender
in_parens fm q b = append_query_with_args fm q (b ++ b'(' ∷ []) >>= λ b'. ok (b' ++ b')' ∷ [])

unfoldable pub append_having : Fmter → List QueryWithArgs → Appender
unfolding each
append_having fm [] b = ok b
append_having fm (q ∷ qs) b =
    each (codes " AND ") (in_parens fm) true (q ∷ qs) (b ++ codes " HAVING ")

abbrev pub append_number : Bytes → ℤ → Bytes → Bytes
append_number word n b = append_int (b ++ word) n

-- Which of `limit >= 0` and `offset >= 0` hold; -1 stands for none.
abbrev pub given : ℤ → Bool
given (pos n) = true
given (negsuc n) = false

abbrev pub fetch_next : ℤ → Bytes → Bytes
fetch_next limit b = append_number (codes " FETCH NEXT ") limit b ++ codes " ROWS ONLY"

abbrev pub offset_rows : ℤ → Bytes → Bytes
offset_rows offset b = append_number (codes " OFFSET ") offset b ++ codes " ROWS"

-- `LIMIT` and `OFFSET`, or `OFFSET` and `FETCH`
unfoldable pub append_limit : Fmter → ℤ → ℤ → Bytes → Bytes
append_limit fm limit offset b =
    if fm.has_feature offset_fetch
    then (if given limit && given offset
        then fetch_next limit (offset_rows offset b)
        else if given limit
        then fetch_next limit (b ++ codes " OFFSET 0 ROWS")
        else if given offset
        then offset_rows offset b
        else b)
    else (let limited = if given limit then append_number (codes " LIMIT ") limit b else b in
        if given offset then append_number (codes " OFFSET ") offset limited else limited)

unfoldable pub append_for : Fmter → QueryWithArgs → Appender
unfolding is_zero
append_for fm q b = if is_zero q then ok b else append_query_with_args fm q (b ++ codes " FOR ")

-- The clauses that a count leaves out.
unfoldable pub append_tail : Fmter → SelectQuery → Appender
unfolding append_clause append_limit append_for
append_tail fm q b = append_clause fm (codes " ORDER BY ") q.order b >>= λ b1.
    append_for fm q.sel_for (append_limit fm q.limit q.offset b1)

unfoldable pub append_unions : Fmter → List Union → Appender
append_unions fm [] b = ok b
append_unions fm (u ∷ us) b =
    u.query fm ((b ++ u.expr) ++ b'(' ∷ []) >>= λ b'. append_unions fm us (b' ++ b')' ∷ [])

-- The query without what combines it with others.
unfoldable pub append_core : Fmter → (Bytes → Bytes → Bytes) → Bool → Bool → SelectQuery → Appender
unfolding append_with append_distinct append_select_columns append_inline_joins append_joins
    append_index_hints append_where append_clause append_having append_tail has_tables append_tables
append_core fm append_string count cte_count q b = do
  b1 ← append_with fm q.wheres.base.withs b
  b2 ← append_distinct fm q.distinct_on (b1 ++ codes "SELECT ")
  b3 ←
      (if count && not cte_count
        then ok (b2 ++ codes "count(*)")
        else append_select_columns fm append_string q.wheres.base q.inline_joins b2)
  b4 ←
      (if has_tables q.wheres.base
        then append_tables fm true q.wheres.base (b3 ++ codes " FROM ")
        else ok b3)
  b5 ← append_inline_joins fm q.inline_joins b4
  b6 ← append_joins fm q.joins b5
  b7 ← append_index_hints fm q.hints b6
  b8 ← append_where fm true q.wheres b7
  b9 ← append_clause fm (codes " GROUP BY ") q.group b8
  b10 ← append_having fm q.having b9
  (if count then ok b10 else append_tail fm q b10)

abbrev pub is_some_list : Option (List QueryWithArgs) → Bool
is_some_list none = false
is_some_list (some l) = true

-- The query, in parentheses with those that it is combined with, if there are any.
unfoldable pub append_combined :
    Fmter → (Bytes → Bytes → Bytes) → Bool → Bool → SelectQuery → Appender
unfolding append_core append_unions
append_combined fm append_string count cte_count q b =
    if is_empty_list q.unions
    then append_core fm append_string count cte_count q b
    else (append_core fm append_string count cte_count q (b ++ b'(' ∷ []) >>= λ b'.
        append_unions fm q.unions (b' ++ b')' ∷ []))

abbrev pub unless : Option QueryError → Result QueryError Bytes → Result QueryError Bytes
unless none r = r
unless (some e) r = err e

unfoldable pub append_counted : Fmter → (Bytes → Bytes → Bytes) → Bool → SelectQuery → Appender
unfolding append_combined
append_counted fm append_string count q b =
    if count && (not (is_empty_list q.group) || is_some_list q.distinct_on)
    then (append_combined fm append_string count true q (b ++ codes "WITH _count_wrapper AS (")
        >>= λ b'. ok (b' ++ codes ") SELECT count(*) FROM _count_wrapper"))
    else append_combined fm append_string count false q b

-- `appendQuery`
unfoldable pub append_query : Fmter → (Bytes → Bytes → Bytes) → Bool → SelectQuery → Appender
unfolding append_counted
append_query fm append_string count q b =
    unless q.wheres.base.error
      (append_counted (formatter_with_model fm q.wheres.base) append_string count q b)

-- `SelectQuery.AppendQuery`, `countQuery.AppendQuery`, `selectExistsQuery.AppendQuery` and
-- `whereExistsQuery.AppendQuery`
pub data Form : Type 0 where
  rows count select_exists where_exists : Form

unfoldable pub append_form : Form → Fmter → (Bytes → Bytes → Bytes) → SelectQuery → Appender
unfolding append_query
append_form rows fm append_string q b = append_query fm append_string false q b
append_form count fm append_string q b = append_query fm append_string true q b
append_form select_exists fm append_string q b = unless q.wheres.base.error (
    append_query fm append_string false q (b ++ codes "SELECT EXISTS (") >>= λ b'.
    ok (b' ++ codes ")"))
append_form where_exists fm append_string q b = unless q.wheres.base.error (
    append_query fm append_string false q (b ++ codes "SELECT 1 WHERE EXISTS (") >>= λ b'.
    ok (b' ++ codes ")"))
