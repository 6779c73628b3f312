-- ===== src/Query/Update/Assignments.antt =====
-- What `SET` assigns to the fields of a struct.
use shilohcommunityenterpris.Common.{
  ℕ, ◌<◌, Bool, true, false, List, [], ◌∷◌, ◌++◌, append-nil, append_assoc, Option, if◌then◌else◌,
  Bytes, codes, length, length-append, ◌==◌, Bool-cases, inl, inr, All, ◌≡◌, sym, ap, ◌∙◌, arith,
}
use shilohcommunityenterpris.Common.Result.{ok}
use shilohcommunityenterpris.Query.Fragment.{
  Fmter, QueryWithArgs, is_empty_list, append_query_with_args, comma,
}
use shilohcommunityenterpris.Query.Base.{Field, Struct}
use shilohcommunityenterpris.Query.Join.{behind_commas, joined, piece_list, joined-cons, piece-step}
use shilohcommunityenterpris.Query.Update.{
  UpdateQuery, is_skipped, set_value, set_fields, set_extra, append_set_struct,
}
use shilohcommunityenterpris.Query.Values.{ColumnValue, get_data_fields}

abbrev pub assignment : Bytes → Bytes → Bytes
assignment name v = name ++ (codes " = " ++ v)

-- The assignments to the fields that are not left out.
unfoldable pub assignments : (Field → Bool) → (Field → Bytes) → List Field → List Bytes
assignments skips value [] = []
assignments skips value (f ∷ fs) =
    if skips f
    then assignments skips value fs
    else assignment f.sql_name (value f) ∷ assignments skips value fs

abbrev pub extra_assignments : (QueryWithArgs → Bytes) → List ColumnValue → List Bytes
extra_assignments text [] = []
extra_assignments text (v ∷ vs) = assignment v.column (text v.value) ∷ extra_assignments text vs

module _ (fm : Fmter) (q : UpdateQuery) (s : Option Struct) (skips : Field → Bool)
    (value : Field → Bytes) (skipped : (f : Field) → is_skipped q s f ≡ ok (skips f))
    (written : (f : Field) (b : Bytes) → set_value fm q s f b ≡ ok (b ++ value f)) where
  step-text : (b name v : Bytes) → ((b ++ name) ++ codes " = ") ++ v ≡ b ++ assignment name v
  step-text b name v =
      append_assoc (b ++ name) (codes " = ") v ∙ append_assoc b name (codes " = " ++ v)

  longer : (pos : ℕ) (b : Bytes) → pos < length b → (length b == pos) ≡ false
  longer pos b h = ground arith

  assigned_longer : (b name v : Bytes) → length b < length (((b ++ name) ++ codes " = ") ++ v)
  assigned_longer b name v = omega (
    arith,
    length-append ((b ++ name) ++ codes " = ") v,
    length-append (b ++ name) (codes " = "),
    length-append b name,
  )

  set_fields-behind :
      (pos : ℕ) (fs : List Field) (b : Bytes)
      → pos < length b
      → set_fields fm q s pos fs b ≡ ok (b ++ behind_commas (assignments skips value fs))
  unfolding set_fields assignments behind_commas
  set_fields-behind pos [] b h = ap ok (sym (append-nil b))
  set_fields-behind pos (f ∷ fs) b h = elim (Bool-cases (skips f)) [
    | inl e ↦ rw (skipped f, e) (set_fields-behind pos fs b h)
    | inr e ↦
        let b' = b ++ comma in
        rw (skipped f, e, longer pos b h, written f ((b' ++ f.sql_name) ++ codes " = "))
          (set_fields-behind (length b') fs (((b' ++ f.sql_name) ++ codes " = ") ++ value f)
              (assigned_longer b' f.sql_name (value f))
            ∙ ap (λ x. ok (x ++ behind_commas (assignments skips value fs)))
                (step-text b' f.sql_name (value f))
            ∙ ap ok
                (piece-step false b (assignment f.sql_name (value f)) (assignments skips value fs)))
  ]

  self : (b : Bytes) → (length b == length b) ≡ true
  self b = ground arith

  set_fields-joined :
      (fs : List Field) (b : Bytes)
      → set_fields fm q s (length b) fs b ≡ ok (b ++ joined (assignments skips value fs))
  unfolding set_fields assignments joined
  set_fields-joined [] b = ap ok (sym (append-nil b))
  set_fields-joined (f ∷ fs) b = elim (Bool-cases (skips f)) [
    | inl e ↦ rw (skipped f, e) (set_fields-joined fs b)
    | inr e ↦
        rw (skipped f, e, self b, written f ((b ++ f.sql_name) ++ codes " = "))
          (set_fields-behind (length b) fs (((b ++ f.sql_name) ++ codes " = ") ++ value f)
              (assigned_longer b f.sql_name (value f))
            ∙ ap (λ x. ok (x ++ behind_commas (assignments skips value fs)))
                (step-text b f.sql_name (value f))
            ∙ ap ok
                (piece-step true b (assignment f.sql_name (value f)) (assignments skips value fs)))
  ]

  module _ (text : QueryWithArgs → Bytes) where
    -- The value of a column writes its text.
    abbrev pub IsText : ColumnValue → Type 0
    IsText v = (b : Bytes) → append_query_with_args fm v.value b ≡ ok (b ++ text v.value)

    set_extra-text :
        (first : Bool) (vs : List ColumnValue) (b : Bytes)
        → All IsText vs
        → set_extra fm first vs b ≡ ok (b ++ piece_list first (extra_assignments text vs))
    unfolding set_extra joined behind_commas
    set_extra-text true [] b hq = ap ok (sym (append-nil b))
    set_extra-text false [] b hq = ap ok (sym (append-nil b))
    set_extra-text first (v ∷ vs) b (hv, hq) =
        let b0 = if first then b else b ++ comma in
        rw (hv ((b0 ++ v.column) ++ codes " = ")) (
          set_extra-text false vs (((b0 ++ v.column) ++ codes " = ") ++ text v.value) hq
          ∙ ap (λ x. ok (x ++ behind_commas (extra_assignments text vs)))
              (step-text b0 v.column (text v.value))
          ∙ ap ok
              (piece-step first b (assignment v.column (text v.value)) (extra_assignments text vs)))

    -- The text behind SET.
    set_struct-text :
        (fs : List Field) (b : Bytes)
        → All IsText q.values.extra_values
        → get_data_fields q.wheres.base ≡ ok fs
        → append_set_struct fm q s b
          ≡ ok (
              (b ++ joined (assignments skips value fs))
              ++ piece_list (is_empty_list fs) (extra_assignments text q.values.extra_values))
    unfolding append_set_struct
    set_struct-text fs b hq h =
        rw (h, set_fields-joined fs b)
          (set_extra-text (is_empty_list fs) q.values.extra_values
            (b ++ joined (assignments skips value fs)) hq)

    chosen-text :
        (fs : List Field) (ws es : List Bytes) (b : Bytes)
        → is_empty_list ws ≡ is_empty_list fs
        → (b ++ joined ws) ++ piece_list (is_empty_list fs) es ≡ b ++ joined (ws ++ es)
    unfolding joined
    chosen-text [] [] es b h = ap (λ x. x ++ joined es) (append-nil b)
    chosen-text (f ∷ fs) (w ∷ ws) es b h =
        append_assoc b (joined (w ∷ ws)) (behind_commas es) ∙ ap (λ x. b ++ x) (joined-cons w ws es)
    chosen-text [] (w ∷ ws) es b h = ground (arith, h)
    chosen-text (f ∷ fs) [] es b h = ground (arith, h)

    -- SET assigns, with one comma between two, the value of each data field that is not left out,
    -- and then the values of the columns that the table does not have; each value writes its text,
    -- and some field is assigned, or there is none.
    pub append_set_struct-assignments :
        (fs : List Field) (b : Bytes)
        → All IsText q.values.extra_values
        → get_data_fields q.wheres.base ≡ ok fs
        → is_empty_list (assignments skips value fs) ≡ is_empty_list fs
        → append_set_struct fm q s b
          ≡ ok (
              b
              ++ joined
                  (assignments skips value fs ++ extra_assignments text q.values.extra_values))
    append_set_struct-assignments fs b hq h g =
        set_struct-text fs b hq h
        ∙ ap ok (
            chosen-text fs (assignments skips value fs)
              (extra_assignments text q.values.extra_values) b g)

    -- Where every data field is left out, and there is one, SET begins with a comma, if a column that
    -- the table does not have is given a value; each value writes its text.
    pub append_set_struct-skipped :
        (f : Field) (fs : List Field) (v : ColumnValue) (vs : List ColumnValue) (b : Bytes)
        → All IsText q.values.extra_values
        → get_data_fields q.wheres.base ≡ ok (f ∷ fs)
        → assignments skips value (f ∷ fs) ≡ []
        → q.values.extra_values ≡ v ∷ vs
        → append_set_struct fm q s b ≡ ok (b ++ (comma ++ joined (extra_assignments text (v ∷ vs))))
    unfolding joined behind_commas
    append_set_struct-skipped f fs v vs b hq h g e =
        set_struct-text (f ∷ fs) b hq h
        ∙ ap
            (λ x.
              ok ((b ++ joined x) ++ behind_commas (extra_assignments text q.values.extra_values)))
            g
        ∙ ap (λ x. ok ((b ++ []) ++ behind_commas (extra_assignments text x))) e
        ∙ ap (λ x. ok (x ++ behind_commas (extra_assignments text (v ∷ vs)))) (append-nil b)
