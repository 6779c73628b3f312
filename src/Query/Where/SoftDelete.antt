-- ===== src/Query/Where/SoftDelete.antt =====
-- The whole `WHERE` clause of a query: its conditions, and the soft delete behind them.
use shilohcommunityenterpris.Common.{
  ℕ, ◌<◌, Bool, true, false, ◌&&◌, ◌||◌, List, [], ◌∷◌, ◌++◌, append_assoc, append-nil, none, some,
  if◌then◌else◌, Bytes, codes, length, length-append, lt→ltb, ◌≡◌, refl, sym, ap, ◌∙◌, arith,
  Bool-cases, inl, inr,
}
use shilohcommunityenterpris.Common.Result.{ok, ◌>>=◌}
use shilohcommunityenterpris.Query.Fragment.{Fmter, QueryWithArgs}
use shilohcommunityenterpris.Query.Base.{Field, Table, BaseQuery, is_soft_delete}
use shilohcommunityenterpris.Query.Where.{
  WhereQuery, append_deleted_test, append_soft_field, append_soft_delete, append_where, and_if,
  soft_by,
}
use shilohcommunityenterpris.Query.Where.Tree.{
  Sep, or_, Cond, test, group, Conds, more, build, Token, print, meets, holds, holds_from, tokens,
  tokens_from,
}
use shilohcommunityenterpris.Query.Where.Text.{
  IsWritten, AreWritten, build-cons, append_conditions-tokens, print-tokens, print-tokens_from,
}
use shilohcommunityenterpris.Query.Where.Truth.{
  and_test, no_or, meets-tokens, meets-soft_delete, meets-deleted,
}

-- What tells a deleted row, or one that is not, of the table `t`; `zero` is the zero time.
abbrev deleted_word : Bytes → Bool → Field → Bytes
deleted_word zero deleted f =
    if f.is_ptr || f.null_zero
    then (if deleted then codes " IS NOT NULL" else codes " IS NULL")
    else (if deleted then codes " != " else codes " = ") ++ zero

abbrev pub soft_text : Bytes → Bool → Bool → Table → Field → Bytes
soft_text zero with_alias deleted t f =
    (if with_alias then t.sql_alias else t.sql_name)
    ++ b'.' ∷ (f.sql_name ++ deleted_word zero deleted f)

module _ (fm : Fmter) (zero : Bytes)
    (zero_time : (v : Bytes) → fm.append_zero_time v ≡ v ++ zero) where
  deleted_word-append :
      (deleted : Bool) (f : Field) (b : Bytes)
      → append_deleted_test fm deleted f b ≡ b ++ deleted_word zero deleted f
  unfolding append_deleted_test
  deleted_word-append true f b = elim (Bool-cases (f.is_ptr || f.null_zero)) [
    | inl e ↦ rw (e) refl
    | inr e ↦ rw (e) (zero_time (b ++ codes " != ") ∙ append_assoc b (codes " != ") zero)
  ]
  deleted_word-append false f b = elim (Bool-cases (f.is_ptr || f.null_zero)) [
    | inl e ↦ rw (e) refl
    | inr e ↦ rw (e) (zero_time (b ++ codes " = ") ∙ append_assoc b (codes " = ") zero)
  ]

  soft_text-append :
      (with_alias deleted : Bool) (t : Table) (f : Field) (b : Bytes)
      → append_soft_field fm with_alias deleted t (some f) b
        ≡ b ++ soft_text zero with_alias deleted t f
  unfolding append_soft_field
  soft_text-append with_alias deleted t f b = deleted_word-append deleted f _ ∙ simp append_assoc

  module _ (with_alias : Bool) (q : BaseQuery) (t : Table) (f : Field)
      (soft : is_soft_delete q ≡ true) (table : q.table ≡ some t)
      (field : t.soft_delete_field ≡ some f) where
    append_soft_delete-append :
        (start : ℕ) (b : Bytes)
        → start < length b
        → append_soft_delete fm with_alias q start b
          ≡ b ++ (codes " AND " ++ soft_text zero with_alias q.flags.deleted t f)
    unfolding append_soft_delete
    append_soft_delete-append start b h =
        ap (λ x. soft_by fm with_alias q.flags.deleted start x q.table b) soft
        ∙ ap (λ x. soft_by fm with_alias q.flags.deleted start true x b) table
        ∙ ap (λ x. append_soft_field fm with_alias q.flags.deleted t x (and_if start b)) field
        ∙ soft_text-append with_alias q.flags.deleted t f (and_if start b)
        ∙ ap
            (λ x.
              (if x then b ++ codes " AND " else b)
              ++ soft_text zero with_alias q.flags.deleted t f)
            (lt→ltb start (length b) h)
        ∙ append_assoc b (codes " AND ") (soft_text zero with_alias q.flags.deleted t f)

length-tokens :
    (text : QueryWithArgs → Bytes) (c : Cond) (ts : List Token)
    → 0 < length (print (tokens text c ts))
unfolding print tokens
length-tokens text (test q) ts = omega arith
length-tokens text (group s c cs) ts = omega arith

-- A tree of conditions as the list of a query.
module _ (fm : Fmter) (text : QueryWithArgs → Bytes) (s : Sep) (c : Cond) (cs : Conds)
    (hc : IsWritten fm text c) (hs : AreWritten fm text cs) where
  abbrev pub where_tree : BaseQuery → WhereQuery
  where_tree q = record { base = q; conditions = build (more s c cs) []; where_fields = none }

  -- The conditions are written, and what is left is the soft delete.
  tree-text :
      (with_alias : Bool) (q : BaseQuery) (b : Bytes)
      → append_where fm with_alias (where_tree q) b
        ≡ ok (
            append_soft_delete fm with_alias q
              (length (b ++ codes " WHERE "))
              ((b ++ codes " WHERE ") ++ print (tokens text c (tokens_from text cs []))))
  unfolding append_where
  tree-text with_alias q b =
      let start = length (b ++ codes " WHERE ") in
      rw (build-cons s c cs) (
        ap (λ r. r >>= λ b1. ok (append_soft_delete fm with_alias q start b1))
          (append_conditions-tokens fm text s c cs (b ++ codes " WHERE ") hc hs))

  soft_print :
      (v : Bytes)
      → print (tokens text c (tokens_from text cs (and_test v)))
        ≡ print (tokens text c (tokens_from text cs [])) ++ (codes " AND " ++ v)
  unfolding print
  soft_print v =
      rw
        (
          print-tokens text c (tokens_from text cs (and_test v)),
          print-tokens text c (tokens_from text cs []),
          print-tokens_from text cs (and_test v),
          append-nil,
        )
        (sym (
          append_assoc (print (tokens text c [])) (print (tokens_from text cs []))
            (codes " AND " ++ v)))

  -- appendWhere writes, for the tree of conditions that calls of Where, WhereOr and WhereGroup have
  -- built, one clause, which a row meets, with AND binding tighter than OR, just when it meets the
  -- tree as a disjunction of conjunctions; the query has neither a soft delete nor fields, no test
  -- is empty, and each test writes its text.
  pub append_where-tokens :
      (with_alias : Bool) (q : BaseQuery) (b : Bytes) (env : Bytes → Bool)
      → is_soft_delete q ≡ false
      → (append_where fm with_alias (where_tree q) b
          ≡ ok (b ++ (codes " WHERE " ++ print (tokens text c (tokens_from text cs [])))))
        × (meets env (tokens text c (tokens_from text cs []))
            ≡ holds_from text env (holds text env c) cs)
  unfolding append_soft_delete
  append_where-tokens with_alias q b env h = (
    tree-text with_alias q b
        ∙ ap
            (λ x. ok (
              soft_by fm with_alias q.flags.deleted (length (b ++ codes " WHERE ")) x q.table
                ((b ++ codes " WHERE ") ++ print (tokens text c (tokens_from text cs [])))))
            h
        ∙ ap ok (append_assoc b (codes " WHERE ") (print (tokens text c (tokens_from text cs [])))),
    meets-tokens text env c cs,
  )

  module _ (zero : Bytes) (zero_time : (v : Bytes) → fm.append_zero_time v ≡ v ++ zero)
      (with_alias : Bool) (q : BaseQuery) (t : Table) (f : Field) (soft : is_soft_delete q ≡ true)
      (table : q.table ≡ some t) (field : t.soft_delete_field ≡ some f) where
    abbrev pub soft_test : Bytes
    soft_test = soft_text zero with_alias q.flags.deleted t f

    abbrev pub soft_tokens : List Token
    soft_tokens = tokens text c (tokens_from text cs (and_test soft_test))

    soft-tokens :
        (b : Bytes)
        → append_where fm with_alias (where_tree q) b
          ≡ ok (b ++ (codes " WHERE " ++ print soft_tokens))
    soft-tokens b =
        let w = b ++ codes " WHERE " in
        let p = print (tokens text c (tokens_from text cs [])) in
        tree-text with_alias q b
        ∙ ap ok (
            append_soft_delete-append fm zero zero_time with_alias q t f soft table field (length w)
              (w ++ p)
              (omega (arith, length-append w p, length-tokens text c (tokens_from text cs [])))
            ∙ append_assoc w p (codes " AND " ++ soft_test)
            ∙ ap (λ x. w ++ x) (sym (soft_print soft_test))
            ∙ append_assoc b (codes " WHERE ") (print soft_tokens))

    -- appendWhere writes, for a tree of conditions that are joined by AND and a table with a soft
    -- delete, one clause, which a row meets just when it meets the tree and the test of the soft
    -- delete: that the row is deleted, where deleted rows are asked for, and else that it is not; no
    -- test is empty, and each test writes its text.
    pub append_where-soft_delete :
        (b : Bytes) (env : Bytes → Bool)
        → no_or cs ≡ true
        → (append_where fm with_alias (where_tree q) b
            ≡ ok (b ++ (codes " WHERE " ++ print soft_tokens)))
          × (meets env soft_tokens ≡ (holds_from text env (holds text env c) cs && env soft_test))
    append_where-soft_delete b env h = (soft-tokens b, meets-soft_delete text env c cs soft_test h)

-- appendWhere writes no parentheses around the conditions: where the first is joined to the second by
-- OR, a row that is told apart by the soft delete's test still meets the clause, if it meets the
-- first; no test is empty, and each test writes its text.
pub append_where-or :
    (fm : Fmter) (text : QueryWithArgs → Bytes) (s : Sep) (c d : Cond) (ds : Conds)
    (hc : IsWritten fm text c) (hs : AreWritten fm text (more or_ d ds)) (zero : Bytes)
    (zero_time : (v : Bytes) → fm.append_zero_time v ≡ v ++ zero) (with_alias : Bool)
    (q : BaseQuery) (t : Table) (f : Field) (soft : is_soft_delete q ≡ true)
    (table : q.table ≡ some t) (field : t.soft_delete_field ≡ some f) (b : Bytes)
    (env : Bytes → Bool)
    → holds text env c ≡ true
    → env (soft_text zero with_alias q.flags.deleted t f) ≡ false
    → (append_where fm with_alias (where_tree fm text s c (more or_ d ds) hc hs q) b
        ≡ ok (
            b
            ++ (codes " WHERE "
                ++ print (
                    tokens text c (
                      tokens_from text
                        (more or_ d ds)
                        (and_test (soft_text zero with_alias q.flags.deleted t f)))))))
      × (meets env (
            tokens text c (
              tokens_from text
                (more or_ d ds)
                (and_test (soft_text zero with_alias q.flags.deleted t f))))
          ≡ true)
append_where-or fm text s c d ds hc hs zero zero_time with_alias q t f soft table field b env h g =
    (
      soft-tokens fm text s c (more or_ d ds) hc hs zero zero_time with_alias q t f soft table field
          b,
      meets-deleted text env c d ds (soft_text zero with_alias q.flags.deleted t f) h g,
    )
