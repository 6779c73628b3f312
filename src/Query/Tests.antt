-- ===== src/Query/Tests.antt =====
-- Witnesses and tests for the `SELECT` and `WHERE` of query_base.go and query_select.go.
use shilohcommunityenterpris.Common.{
  ℕ, Bool, true, false, [], ◌∷◌, ◌++◌, none, some, if◌then◌else◌, Bytes, codes, bytes_eq, ltb, ◌%◌,
  ◌^◌, ◌&&◌, ◌≡◌, ◌≢◌, refl, ap, ◌∙◌, arith,
}
use shilohcommunityenterpris.Common.Decimal.{pos, negsuc, append_uint}
use shilohcommunityenterpris.Common.Utf8.{runes}
use shilohcommunityenterpris.Common.Result.{ok}
use shilohcommunityenterpris.Schema.Formatter.{
  append_query, with_arg, has_question, is_none, is_nil,
}
use shilohcommunityenterpris.Query.Balance.{At-text, nest, and_then, nest-append, IsBalanced, Keeps}
use shilohcommunityenterpris.Query.Fragment.{Fmter, QueryWithArgs, append_query_with_args}
use shilohcommunityenterpris.Query.Base.{BaseQuery, is_soft_delete, formatter_with_model}
use shilohcommunityenterpris.Query.Base.Balance.{IsKept, IsPlainTable, IsPlainTables}
use shilohcommunityenterpris.Query.Sample.{fm, plain, deleted_at, table, base, soft_base, zero_text}
use shilohcommunityenterpris.Query.Select.{
  SelectQuery, count, append_form, append_limit, append_clause,
}
use shilohcommunityenterpris.Query.Select.Limit.{set_limit, append_limit-set_limit}
use shilohcommunityenterpris.Query.Select.Sorts.{order_words, order_text, append_clause-add_orders}
use shilohcommunityenterpris.Query.Select.Order.{add_orders, order_clause}
use shilohcommunityenterpris.Query.Where.{append_where}
use shilohcommunityenterpris.Query.Where.Balance.{IsPlainWhere}
use shilohcommunityenterpris.Query.Where.Conditions.{separators}
use shilohcommunityenterpris.Query.Select.Balance.Columns.{IsPlainStrings}
use shilohcommunityenterpris.Query.Select.Depth.{IsPlainSelect, append_form-Keeps}
use shilohcommunityenterpris.Dialect.{append_ident}
use shilohcommunityenterpris.Query.Where.Tree.{
  and_, or_, Cond, test, group, end, more, print, meets, holds, holds_from, tokens, tokens_from,
}
use shilohcommunityenterpris.Query.Where.Text.{IsWritten, AreWritten}
use shilohcommunityenterpris.Query.Where.Truth.{and_test}
use shilohcommunityenterpris.Query.Where.SoftDelete.{
  where_tree, soft_text, soft_tokens, append_where-tokens, append_where-soft_delete,
  append_where-or,
}

abbrev text : QueryWithArgs → Bytes
text q = q.query

abbrev a_is : Cond
a_is = test (plain (codes "a = 1"))

abbrev b_is : Cond
b_is = test (plain (codes "b = 2"))

-- A row that meets the first test only.
abbrev row : Bytes → Bool
row w = bytes_eq w (codes "a = 1")

abbrev a_group : Cond
a_group = group and_ a_is (more or_ b_is end)

a_is-IsWritten : IsWritten fm text a_is
unfolding IsWritten append_query_with_args append_query has_question
a_is-IsWritten = (refl, λ b. refl)

b_is-IsWritten : IsWritten fm text b_is
unfolding IsWritten append_query_with_args append_query has_question
b_is-IsWritten = (refl, λ b. refl)

group-AreWritten : AreWritten fm text (more and_ a_group end)
unfolding IsWritten AreWritten
group-AreWritten = ((a_is-IsWritten, (b_is-IsWritten, tt)), tt)

or-AreWritten : AreWritten fm text (more or_ b_is end)
unfolding AreWritten
or-AreWritten = (b_is-IsWritten, tt)

abbrev hard_base : BaseQuery
hard_base = base (some (table none)) none

abbrev ne_dot : ◌≢◌ {A = ℕ} b'"' b'.'
ne_dot = omega arith

abbrev ne_star : ◌≢◌ {A = ℕ} b'"' b'*'
ne_star = omega arith

hard-is_soft_delete : is_soft_delete hard_base ≡ false
unfolding is_soft_delete
hard-is_soft_delete = refl

soft-is_soft_delete : is_soft_delete soft_base ≡ true
unfolding is_soft_delete
soft-is_soft_delete = refl

append_where-tokens_example :
    (append_where fm true
        (where_tree fm text and_ a_is (more or_ b_is end) a_is-IsWritten or-AreWritten hard_base)
        (codes "SELECT 1")
      ≡ ok (
          codes "SELECT 1"
          ++ (codes " WHERE "
              ++ print (tokens text a_is (tokens_from text (more or_ b_is end) [])))))
    × (meets row (tokens text a_is (tokens_from text (more or_ b_is end) []))
        ≡ holds_from text row (holds text row a_is) (more or_ b_is end))
append_where-tokens_example =
    append_where-tokens fm text and_ a_is (more or_ b_is end) a_is-IsWritten or-AreWritten true
      hard_base (codes "SELECT 1") row hard-is_soft_delete

append_where-soft_delete_example :
    (append_where fm true
        (where_tree fm text and_ a_is
          (more and_ a_group end)
          a_is-IsWritten
          group-AreWritten
          soft_base)
        []
      ≡ ok (
          []
          ++ (codes " WHERE "
              ++ print (
                  soft_tokens fm text and_ a_is
                    (more and_ a_group end)
                    a_is-IsWritten
                    group-AreWritten
                    zero_text
                    (λ v. refl)
                    true
                    soft_base
                    (table (some deleted_at))
                    deleted_at
                    soft-is_soft_delete
                    refl
                    refl))))
    × (meets row (
          soft_tokens fm text and_ a_is
            (more and_ a_group end)
            a_is-IsWritten
            group-AreWritten
            zero_text
            (λ v. refl)
            true
            soft_base
            (table (some deleted_at))
            deleted_at
            soft-is_soft_delete
            refl
            refl)
        ≡ (holds_from text row (holds text row a_is) (more and_ a_group end)
            && row (soft_text zero_text true false (table (some deleted_at)) deleted_at)))
append_where-soft_delete_example =
    append_where-soft_delete fm text and_ a_is (more and_ a_group end) a_is-IsWritten
      group-AreWritten zero_text (λ v. refl) true soft_base (table (some deleted_at)) deleted_at
      soft-is_soft_delete refl refl [] row refl

append_where-or_example :
    (append_where fm true
        (where_tree fm text and_ a_is (more or_ b_is end) a_is-IsWritten or-AreWritten soft_base)
        []
      ≡ ok (
          []
          ++ (codes " WHERE "
              ++ print (
                  tokens text a_is (
                    tokens_from text (more or_ b_is end) (
                      and_test
                        (soft_text zero_text true false (table (some deleted_at)) deleted_at)))))))
    × (meets row (
          tokens text a_is (
            tokens_from text
              (more or_ b_is end)
              (and_test (soft_text zero_text true false (table (some deleted_at)) deleted_at))))
        ≡ true)
unfolding holds
append_where-or_example =
    append_where-or fm text and_ a_is b_is end a_is-IsWritten or-AreWritten zero_text (λ v. refl)
      true soft_base (table (some deleted_at)) deleted_at soft-is_soft_delete refl refl [] row refl
      refl

abbrev select_base : BaseQuery
select_base = record (base (some (table none)) none) {
  model_table_name = plain (codes "users");
  columns = some (plain (codes "max(id)") ∷ []);
}

abbrev select_query : SelectQuery
select_query = record {
  wheres = record {
    base = select_base;
    conditions = record { query = plain (codes "a = (1)"); sep = codes " AND " } ∷ [];
    where_fields = none;
  };
  hints = record { use_hints = none; ignore_hints = none; force_hints = none };
  inline_joins = [];
  distinct_on = none;
  joins = [];
  group = plain (codes "a") ∷ [];
  having = plain (codes "count(*) > 1") ∷ [];
  order = [];
  limit = pos 10;
  offset = negsuc 0;
  sel_for = plain (codes "UPDATE");
  unions = [];
}

abbrev model_fm : Fmter
model_fm = formatter_with_model fm select_base

plain-Keeps : (w : Bytes) → has_question w ≡ false → IsBalanced w → IsKept model_fm (plain w)
unfolding append_query_with_args append_query formatter_with_model is_none is_nil with_arg
plain-Keeps w hq hw k b h = rw hq (At-text b w h (hw k))

table-IsPlain : IsPlainTable model_fm (table none)
unfolding append_query has_question nest formatter_with_model is_none is_nil with_arg
table-IsPlain = record {
  sql_name = λ k b h. At-text b (codes "\"users\"") h refl;
  sql_name_for_selects = λ k b h. At-text b (codes "\"users\"") h refl;
  name_text = λ k. refl;
  sql_alias = λ k. refl;
  fields = (λ k. refl, (λ k. refl, tt));
}

tables-IsPlain : IsPlainTables model_fm select_base
unfolding has_question nest
tables-IsPlain = record {
  model_table_name = plain-Keeps (codes "users") refl (λ k. refl);
  table = table-IsPlain;
  tables = tt;
}

wheres-IsPlain : IsPlainWhere model_fm select_query.wheres
unfolding nest formatter_with_model has_question separators
wheres-IsPlain = record {
  conditions = (plain-Keeps (codes "a = (1)") refl (λ k. refl), tt);
  groups = λ k. refl;
  table = table-IsPlain;
  model = tt;
  where_fields = tt;
  soft_field = λ f e. ground (arith, e);
  zero_time = λ k b h. At-text b zero_text h refl;
}

select-IsPlain : IsPlainSelect model_fm select_query
unfolding has_question nest
select-IsPlain = record {
  withs = tt;
  distinct_on = tt;
  columns = (plain-Keeps (codes "max(id)") refl (λ k. refl), tt);
  inline_joins = tt;
  tables = tables-IsPlain;
  joins = tt;
  hints = record { use_kept = tt; ignore_kept = tt; force_kept = tt };
  wheres = wheres-IsPlain;
  group = (plain-Keeps (codes "a") refl (λ k. refl), tt);
  having = (plain-Keeps (codes "count(*) > 1") refl (λ k. refl), tt);
  order = tt;
  sel_for = plain-Keeps (codes "UPDATE") refl (λ k. refl);
  unions = tt;
}

strings-IsPlain : IsPlainStrings (λ b s. (b ++ b'\'' ∷ []) ++ (s ++ b'\'' ∷ []))
unfolding nest
strings-IsPlain k b s hs h =
    At-text _ (s ++ b'\'' ∷ []) (At-text b (b'\'' ∷ []) h refl)
      (nest-append s (b'\'' ∷ []) k ∙ ap (and_then (nest (b'\'' ∷ []))) (hs k))

append_form-Keeps_example :
    Keeps (append_form count fm (λ b s. (b ++ b'\'' ∷ []) ++ (s ++ b'\'' ∷ [])) select_query)
append_form-Keeps_example =
    append_form-Keeps fm (λ b s. (b ++ b'\'' ∷ []) ++ (s ++ b'\'' ∷ [])) select_query count
      strings-IsPlain select-IsPlain

append_limit-set_limit_example :
    append_limit fm
      (set_limit (pos 5000000000) select_query).limit
      (set_limit (pos 5000000000) select_query).offset
      []
    ≡ (if ltb (5000000000 % 2 ^ 32) (2 ^ 31)
        then append_uint ([] ++ codes " LIMIT ") (5000000000 % 2 ^ 32)
        else [])
append_limit-set_limit_example = append_limit-set_limit fm select_query 5000000000 [] refl refl

append_clause-add_orders_example :
    append_clause fm
      (codes " ORDER BY ")
      (add_orders b'"' (codes "id; DROP" ∷ [] ∷ codes "u.name desc" ∷ []) [])
      (codes "x")
    ≡ ok (
        order_clause fm refl
          (ne_dot)
          (ne_star)
          (codes "x")
          (order_words fm (codes "id; DROP" ∷ [] ∷ codes "u.name desc" ∷ [])))
append_clause-add_orders_example =
    append_clause-add_orders fm refl ne_dot ne_star
      (codes "id; DROP" ∷ [] ∷ codes "u.name desc" ∷ []) (codes "x")

-- What Order lets through.
orders :
    order_words fm (codes "id; DROP" ∷ [] ∷ codes "u.name desc" ∷ [])
    ≡ codes "\"id; DROP\"" ∷ codes "\"u\".\"name\" desc" ∷ []
unfolding order_words order_text append_ident runes
orders = refl
