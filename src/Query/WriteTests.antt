-- ===== src/Query/WriteTests.antt =====
-- Witnesses and tests for the builders of `INSERT`, `UPDATE`, `DELETE` and `VALUES`.
use shilohcommunityenterpris.Common.{
  ℕ, Bool, true, false, [], ◌∷◌, ◌++◌, none, some, Bytes, codes, length, All, Bool-cases, inl, inr,
  ◌≡◌, ◌≢◌, refl, arith,
}
use shilohcommunityenterpris.Common.Result.{ok, err}
use shilohcommunityenterpris.Schema.Formatter.{append_query, has_question, is_none, is_nil}
use shilohcommunityenterpris.Query.Balance.{At-text, nest, Ends}
use shilohcommunityenterpris.Query.Fragment.{
  no_soft_delete, Feature, QueryWithArgs, append_query_with_args, comma,
}
use shilohcommunityenterpris.Query.Base.{
  Field, Struct, struct_model, slice_model, BaseQuery, formatter_with_model,
}
use shilohcommunityenterpris.Query.Delete.{DeleteQuery, append_delete, append_delete_body}
use shilohcommunityenterpris.Query.Guard.{
  is_refused, append_delete-is_refused, append_delete-twice, written,
}
use shilohcommunityenterpris.Query.Insert.{
  InsertQuery, append_field_value, append_set_value, asks_default, is_unset, leaves_out,
  chosen_fields, insert_fields,
}
use shilohcommunityenterpris.Query.Insert.Statement.{append_insert_values}
use shilohcommunityenterpris.Query.Insert.Width.{
  IsInsertable, column_names, row_cells, kept_rows, rows_text, append_insert_values-rows,
}
use shilohcommunityenterpris.Query.Join.{behind_commas, joined}
use shilohcommunityenterpris.Query.Maps.{append_slice_values}
use shilohcommunityenterpris.Query.Maps.Balance.{append_slice_values-Ends}
use shilohcommunityenterpris.Query.Sample
use shilohcommunityenterpris.Query.Sample.{
  fm, plain, field, fixed, deleted_at, table, a_struct, base, soft_base, wheres, no_returning,
  no_values,
}
use shilohcommunityenterpris.Query.Update.{UpdateQuery, append_set_struct, is_skipped, set_value}
use shilohcommunityenterpris.Query.Update.Assignments.{
  assignments, extra_assignments, append_set_struct-assignments, append_set_struct-skipped,
}
use shilohcommunityenterpris.Query.Values.{
  Returning, CustomValues, get_data_fields, fields_by, model_value,
}

abbrev text : QueryWithArgs → Bytes
text q = q.query

abbrev extra : CustomValues
extra = record no_values {
  extra_values = record { column = codes "city"; value = plain (codes "'x'") } ∷ [];
}

abbrev update : BaseQuery → UpdateQuery
update q = record {
  wheres = wheres q;
  returning = no_returning;
  values = extra;
  set = [];
  omit_zero = false;
  hints = record { use_hints = none; ignore_hints = none; force_hints = none };
}

update-skipped :
    (q : BaseQuery) (f : Field) → is_skipped (update q) (some a_struct) f ≡ ok f.skip_update
unfolding is_skipped model_value
update-skipped q f = elim (Bool-cases f.skip_update) [ inl e ↦ rw e refl | inr e ↦ rw e refl ]

update-written :
    (q : BaseQuery) (f : Field) (b : Bytes)
    → set_value fm (update q) (some a_struct) f b ≡ ok (b ++ b'7' ∷ [])
unfolding set_value model_value
update-written q f b = refl

extra-IsText :
    (b : Bytes) → append_query_with_args fm (plain (codes "'x'")) b ≡ ok (b ++ codes "'x'")
unfolding append_query_with_args append_query has_question is_none is_nil
extra-IsText b = refl

abbrev sevens : Field → Bytes
sevens f = b'7' ∷ []

append_set_struct-assignments_example :
    append_set_struct fm (update soft_base) (some a_struct) (codes "SET ")
    ≡ ok (
        codes "SET "
        ++ joined (
            assignments
              (λ f. f.skip_update)
              sevens
              (field (codes "name") ∷ field (codes "age") ∷ [])
            ++ extra_assignments text extra.extra_values))
unfolding get_data_fields fields_by assignments
append_set_struct-assignments_example =
    append_set_struct-assignments fm (update soft_base) (some a_struct) (λ f. f.skip_update) sevens
      (update-skipped soft_base) (update-written soft_base) text
      (field (codes "name") ∷ field (codes "age") ∷ []) (codes "SET ") (extra-IsText, tt) refl refl

abbrev fixed_base : BaseQuery
fixed_base = base (some (record (table none) { data_fields = fixed ∷ [] })) none

append_set_struct-skipped_example :
    append_set_struct fm (update fixed_base) (some a_struct) (codes "SET ")
    ≡ ok (codes "SET " ++ (comma ++ joined (extra_assignments text extra.extra_values)))
unfolding get_data_fields fields_by assignments
append_set_struct-skipped_example =
    append_set_struct-skipped fm (update fixed_base) (some a_struct) (λ f. f.skip_update) sevens
      (update-skipped fixed_base) (update-written fixed_base) text fixed []
      (record { column = codes "city"; value = plain (codes "'x'") }) [] (codes "SET ")
      (extra-IsText, tt) refl refl refl

-- The text of that SET.
skipped_text :
    append_set_struct fm (update fixed_base) (some a_struct) (codes "SET ")
    ≡ ok (codes "SET , city = 'x'")
unfolding joined behind_commas
skipped_text = append_set_struct-skipped_example

abbrev no_features : Feature → Bool
no_features f = false

abbrev now : Bytes → Bytes
now b = b ++ codes "'2024-01-01'"

abbrev unguarded : DeleteQuery
unguarded = record { wheres = wheres soft_base; returning = no_returning }

append_delete-is_refused_example :
    is_refused (append_delete fm no_features now none unguarded []).1 ≡ true
append_delete-is_refused_example =
    append_delete-is_refused fm no_features now none unguarded [] refl

abbrev guarded : DeleteQuery
guarded = record {
  wheres = record (wheres (base (some (table none)) (some (struct_model (some a_struct))))) {
    conditions = record { query = plain (codes "id = 1"); sep = codes " AND " } ∷ [];
  };
  returning = no_returning;
}

append_delete-twice_example :
    ((append_delete fm no_features now none guarded []).1
      ≡ append_delete_body (formatter_with_model fm guarded.wheres.base) no_features guarded [])
    × ((append_delete fm no_features now none
          (written fm no_features now none ([] ∷ [] ∷ []) guarded)
          []).1
        ≡ err no_soft_delete)
append_delete-twice_example =
    append_delete-twice fm no_features now none guarded [] [] ([] ∷ []) refl refl

abbrev insert : InsertQuery
insert = record {
  wheres = wheres (base (some (table none)) (some (slice_model (a_struct ∷ a_struct ∷ []))));
  returning = no_returning;
  values = extra;
  set = [];
  on = Sample.nothing;
  ignore = false;
  replace = false;
}

abbrev cell : Struct → Field → Bytes
cell s f = b'7' ∷ []

abbrev keep : Struct → Field → Returning → Returning
keep s f r = r

a_struct-set : (f : Field) → asks_default f a_struct ≡ false
a_struct-set f = ground arith

abbrev ne_dot : ◌≢◌ {A = ℕ} b'"' b'.'
ne_dot = omega arith

abbrev ne_star : ◌≢◌ {A = ℕ} b'"' b'*'
ne_star = omega arith

a_struct-IsInsertable : IsInsertable fm no_features extra text cell keep a_struct
unfolding append_field_value append_set_value is_unset model_value
a_struct-IsInsertable f r b = rw (a_struct-set f) refl

insert-fields :
    insert_fields no_features insert.wheres.base insert.returning
    ≡ ok (no_returning, (table none).fields)
unfolding insert_fields chosen_fields leaves_out is_unset
insert-fields = refl

append_insert_values-rows_example :
    (append_insert_values fm no_features insert (codes "t")
      ≡ ok (
        kept_rows fm no_features extra text cell keep
            (a_struct ∷ a_struct ∷ [])
            (table none).fields
            no_returning,
        ((((codes "t" ++ codes " (")
                  ++ joined (column_names fm no_features extra text cell keep (table none).fields))
                ++ codes ")")
              ++ codes " VALUES (")
            ++ rows_text fm no_features extra text cell keep true
                (table none).fields
                (a_struct ∷ a_struct ∷ [])
            ++ b')' ∷ [],
      ))
    × All
        (λ s.
          length (row_cells fm no_features extra text cell keep (table none).fields s)
          ≡ length (column_names fm no_features extra text cell keep (table none).fields))
        (a_struct ∷ a_struct ∷ [])
append_insert_values-rows_example =
    append_insert_values-rows fm no_features insert text cell keep (a_struct ∷ a_struct ∷ [])
      no_returning (table none).fields (codes "t") (extra-IsText, tt)
      (a_struct-IsInsertable, (a_struct-IsInsertable, tt)) refl refl refl ne_dot ne_star
      insert-fields

append_slice_values-Ends_example : Ends 0 (
    append_slice_values fm true
      (codes "a" ∷ codes "b" ∷ [])
      ((λ k b. b ++ b'1' ∷ []) ∷ [])
      (codes "x"))
unfolding nest
append_slice_values-Ends_example =
    append_slice_values-Ends fm true (codes "a" ∷ codes "b" ∷ []) (λ k b. b ++ b'1' ∷ []) [] 0
      (codes "x") (λ key k b h. At-text b (b'1' ∷ []) h refl) tt (record { depth = refl })
