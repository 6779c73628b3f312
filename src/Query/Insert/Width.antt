-- ===== src/Query/Insert/Width.antt =====
-- The rows of an `INSERT` are as wide as its columns.
use shilohcommunityenterpris.Common.{
  Bool, true, false, List, [], ◌∷◌, ◌++◌, append-nil, append_assoc, map, none, some, if◌then◌else◌,
  Bytes, codes, length, length-append, All, ◌≡◌, ◌≢◌, refl, sym, ap, ◌∙◌, arith,
}
use shilohcommunityenterpris.Common.Result.{ok}
use shilohcommunityenterpris.Dialect.{append_ident}
use shilohcommunityenterpris.Dialect.Ident.{append_ident-tokens}
use shilohcommunityenterpris.Query.Fragment.{
  Feature, output, Fmter, QueryWithArgs, is_empty_list, append_query_with_args, comma,
}
use shilohcommunityenterpris.Query.Base.{Field, Struct, slice_model, append_fields}
use shilohcommunityenterpris.Query.Insert.{
  InsertQuery, append_field_value, struct_values, extra_texts, append_struct_values, slice_values,
  append_slice_values, insert_fields, extra_columns, append_insert_fields,
}
use shilohcommunityenterpris.Query.Insert.Statement.{
  append_output_clause, model_rows, append_insert_values,
}
use shilohcommunityenterpris.Query.Join.{
  behind_commas, joined, piece_list, joined-pieces, piece-step,
}
use shilohcommunityenterpris.Query.Values.{Returning, ColumnValue, CustomValues, model_value}

module _ (fm : Fmter) (has_db : Feature → Bool) (vs : CustomValues) (text : QueryWithArgs → Bytes)
    (cell : Struct → Field → Bytes) (keep : Struct → Field → Returning → Returning) where
  -- The cells of a struct write their texts.
  abbrev pub IsInsertable : Struct → Type 0
  IsInsertable s =
      (f : Field) (r : Returning) (b : Bytes)
      → append_field_value fm has_db (some s) f (model_value f.name vs.model_values) r b
        ≡ ok (keep s f r, b ++ cell s f)

  abbrev pub IsText : ColumnValue → Type 0
  IsText v = (b : Bytes) → append_query_with_args fm v.value b ≡ ok (b ++ text v.value)

  -- The columns and the cells of a row.
  abbrev pub column_names : List Field → List Bytes
  column_names fs =
      map (λ f. f.sql_name) fs ++ map (λ v. append_ident [] v.column fm.ident_quote) vs.extra_values

  abbrev pub row_cells : List Field → Struct → List Bytes
  row_cells fs s = map (cell s) fs ++ map (λ v. text v.value) vs.extra_values

  abbrev pub kept : Struct → List Field → Returning → Returning
  kept s [] r = r
  kept s (f ∷ fs) r = kept s fs (keep s f r)

  abbrev pub kept_rows : List Struct → List Field → Returning → Returning
  kept_rows [] fs r = r
  kept_rows (s ∷ ss) fs r = kept_rows ss fs (kept s fs r)

  -- The rows, in parentheses but for the first and the last.
  unfoldable pub rows_text : Bool → List Field → List Struct → Bytes
  unfolding joined
  rows_text first fs [] = []
  rows_text first fs (s ∷ ss) =
      (if first then [] else codes "), (") ++ (joined (row_cells fs s) ++ rows_text false fs ss)

  struct_values-text :
      (s : Struct) (first : Bool) (fs : List Field) (r : Returning) (b : Bytes)
      → IsInsertable s
      → struct_values fm has_db vs (some s) first fs r b
        ≡ ok (kept s fs r, b ++ piece_list first (map (cell s) fs))
  unfolding struct_values behind_commas joined
  struct_values-text s true [] r b h = ap (λ x. ok (r, x)) (sym (append-nil b))
  struct_values-text s false [] r b h = ap (λ x. ok (r, x)) (sym (append-nil b))
  struct_values-text s first (f ∷ fs) r b h = rw (h f r (if first then b else b ++ comma)) (
      struct_values-text s false fs (keep s f r) _ h
      ∙ ap (λ x. ok (kept s fs (keep s f r), x)) (piece-step first b (cell s f) (map (cell s) fs)))

  extra_texts-text :
      (first : Bool) (xs : List ColumnValue) (b : Bytes)
      → All IsText xs
      → extra_texts fm first xs b ≡ ok (b ++ piece_list first (map (λ v. text v.value) xs))
  unfolding extra_texts behind_commas joined
  extra_texts-text true [] b h = ap ok (sym (append-nil b))
  extra_texts-text false [] b h = ap ok (sym (append-nil b))
  extra_texts-text first (x ∷ xs) b (hx, h) = rw (hx (if first then b else b ++ comma)) (
      extra_texts-text false xs _ h
      ∙ ap ok (piece-step first b (text x.value) (map (λ v. text v.value) xs)))

  append_struct_values-text :
      (s : Struct) (fs : List Field) (r : Returning) (b : Bytes)
      → All IsText vs.extra_values
      → IsInsertable s
      → append_struct_values fm has_db vs (some s) fs r b
        ≡ ok (kept s fs r, b ++ joined (row_cells fs s))
  unfolding append_struct_values
  append_struct_values-text s fs r b ht h =
      rw
        (
          struct_values-text s true fs r b h,
          extra_texts-text (is_empty_list fs) vs.extra_values (b ++ joined (map (cell s) fs)) ht,
        )
        (ap (λ x. ok (kept s fs r, x))
          (joined-pieces (cell s) fs (map (λ v. text v.value) vs.extra_values) b))

  row-step :
      (first : Bool) (b w u : Bytes)
      → ((if first then b else b ++ codes "), (") ++ w) ++ u
        ≡ b ++ ((if first then [] else codes "), (") ++ (w ++ u))
  row-step true b w u = append_assoc b w u
  row-step false b w u =
      append_assoc (b ++ codes "), (") w u ∙ append_assoc b (codes "), (") (w ++ u)

  slice_values-text :
      (first : Bool) (ss : List Struct) (fs : List Field) (r : Returning) (b : Bytes)
      → All IsText vs.extra_values
      → All IsInsertable ss
      → slice_values fm has_db vs first ss fs r b
        ≡ ok (kept_rows ss fs r, b ++ rows_text first fs ss)
  unfolding slice_values rows_text
  slice_values-text first [] fs r b ht h = ap (λ x. ok (r, x)) (sym (append-nil b))
  slice_values-text first (s ∷ ss) fs r b ht (hs, h) =
      rw (append_struct_values-text s fs r (if first then b else b ++ codes "), (") ht hs) (
        slice_values-text false ss fs (kept s fs r) _ ht h
        ∙ ap (λ x. ok (kept_rows ss fs (kept s fs r), x))
            (row-step first b (joined (row_cells fs s)) (rows_text false fs ss)))

  append_slice_values-text :
      (ss : List Struct) (fs : List Field) (r : Returning) (b : Bytes)
      → fm.formatter.is_nop ≡ false
      → All IsText vs.extra_values
      → All IsInsertable ss
      → append_slice_values fm has_db vs ss fs r b
        ≡ ok (kept_rows ss fs r, b ++ rows_text true fs ss)
  unfolding append_slice_values
  append_slice_values-text ss fs r b nop ht hs =
      ap
        (λ c.
          if c
          then append_struct_values fm has_db vs none fs r b
          else slice_values fm has_db vs true ss fs r b)
        nop
      ∙ slice_values-text true ss fs r b ht hs

  -- The names of the columns.
  extra_columns-text :
      (first : Bool) (xs : List ColumnValue) (b : Bytes)
      → fm.ident_quote ≢ b'.'
      → fm.ident_quote ≢ b'*'
      → extra_columns fm first xs b
        ≡ b ++ piece_list first (map (λ v. append_ident [] v.column fm.ident_quote) xs)
  unfolding extra_columns behind_commas joined
  extra_columns-text true [] b nd ns = sym (append-nil b)
  extra_columns-text false [] b nd ns = sym (append-nil b)
  extra_columns-text first (x ∷ xs) b nd ns =
      ap (extra_columns fm false xs)
        ((append_ident-tokens (if first then b else b ++ comma) x.column fm.ident_quote nd ns).0)
      ∙ extra_columns-text false xs _ nd ns
      ∙ piece-step first b (append_ident [] x.column fm.ident_quote)
          (map (λ v. append_ident [] v.column fm.ident_quote) xs)

  fields-text :
      (first : Bool) (fs : List Field) (b : Bytes)
      → append_fields [] first fs b ≡ b ++ piece_list first (map (λ f. f.sql_name) fs)
  unfolding append_fields behind_commas joined
  fields-text true [] b = sym (append-nil b)
  fields-text false [] b = sym (append-nil b)
  fields-text first (f ∷ fs) b =
      fields-text false fs ((if first then b else b ++ comma) ++ f.sql_name)
      ∙ piece-step first b f.sql_name (map (λ f. f.sql_name) fs)

  append_insert_fields-text :
      (fs : List Field) (b : Bytes)
      → fm.ident_quote ≢ b'.'
      → fm.ident_quote ≢ b'*'
      → append_insert_fields fm vs fs b ≡ b ++ joined (column_names fs)
  unfolding append_insert_fields
  append_insert_fields-text fs b nd ns =
      extra_columns-text (is_empty_list fs) vs.extra_values (append_fields [] true fs b) nd ns
      ∙ ap
          (λ x.
            x
            ++ piece_list (is_empty_list fs)
                (map (λ v. append_ident [] v.column fm.ident_quote) vs.extra_values))
          (fields-text true fs b)
      ∙ joined-pieces (λ f. f.sql_name) fs
          (map (λ v. append_ident [] v.column fm.ident_quote) vs.extra_values) b

  length-map : {A B : Type 0} (f : A → B) (xs : List A) → length (map f xs) ≡ length xs
  length-map f [] = refl
  length-map f (x ∷ xs) = omega (arith, length-map f xs)

  row-width : (fs : List Field) (s : Struct) → length (row_cells fs s) ≡ length (column_names fs)
  row-width fs s = omega (
    arith,
    length-append (map (cell s) fs) (map (λ v. text v.value) vs.extra_values),
    length-append (map (λ f. f.sql_name) fs)
        (map (λ v. append_ident [] v.column fm.ident_quote) vs.extra_values),
    length-map (cell s) fs,
    length-map (λ f. f.sql_name) fs,
    length-map (λ v. text v.value) vs.extra_values,
    length-map (λ v. append_ident [] v.column fm.ident_quote) vs.extra_values,
  )

  rows-All :
      (fs : List Field) (ss : List Struct)
      → All (λ s. length (row_cells fs s) ≡ length (column_names fs)) ss
  rows-All fs [] = tt
  rows-All fs (s ∷ ss) = (row-width fs s, rows-All fs ss)

-- An INSERT of a slice of structs names its columns, and writes behind VALUES a row for each struct,
-- in parentheses and with as many cells as there are columns, those of the query's own values
-- included; the query is no template, the database has no OUTPUT, the quote of identifiers is neither
-- a dot nor a star, and each cell writes its text.
pub append_insert_values-rows :
    (fm : Fmter) (has_db : Feature → Bool) (q : InsertQuery) (text : QueryWithArgs → Bytes)
    (cell : Struct → Field → Bytes) (keep : Struct → Field → Returning → Returning)
    (ss : List Struct) (r : Returning) (fs : List Field) (b : Bytes)
    → All (IsText fm has_db q.values text cell keep) q.values.extra_values
    → All (IsInsertable fm has_db q.values text cell keep) ss
    → q.wheres.base.model ≡ some (slice_model ss)
    → fm.formatter.is_nop ≡ false
    → has_db output ≡ false
    → fm.ident_quote ≢ b'.'
    → fm.ident_quote ≢ b'*'
    → insert_fields has_db q.wheres.base q.returning ≡ ok (r, fs)
    → (append_insert_values fm has_db q b
        ≡ ok (
          kept_rows fm has_db q.values text cell keep ss fs r,
          ((((b ++ codes " (") ++ joined (column_names fm has_db q.values text cell keep fs))
                  ++ codes ")")
                ++ codes " VALUES (")
              ++ rows_text fm has_db q.values text cell keep true fs ss
              ++ b')' ∷ [],
        ))
      × All
          (λ s.
            length (row_cells fm has_db q.values text cell keep fs s)
            ≡ length (column_names fm has_db q.values text cell keep fs))
          ss
unfolding append_insert_values append_output_clause model_rows
append_insert_values-rows fm has_db q text cell keep ss r fs b ht hs model nop out nd ns hf = (
  rw
      (
        hf,
        out,
        model,
        append_insert_fields-text fm has_db q.values text cell keep fs (b ++ codes " (") nd ns,
        append_slice_values-text fm has_db q.values text cell keep ss fs r
            ((((b ++ codes " (") ++ joined (column_names fm has_db q.values text cell keep fs))
                ++ codes ")")
              ++ codes " VALUES (")
            nop ht hs,
      )
      refl,
  rows-All fm has_db q.values text cell keep fs ss,
)
