-- ===== src/Query/Maps/Balance.antt =====
-- How deep the rows of a slice of maps leave a reader in parentheses.
use shilohcommunityenterpris.Common.{
  ℕ, suc, Bool, true, false, List, [], ◌∷◌, ◌++◌, if◌then◌else◌, Bytes, codes, All, refl,
}
use shilohcommunityenterpris.Query.Fragment.{Fmter, comma}
use shilohcommunityenterpris.Query.Maps.{
  open_row, append_key_values, append_map_rows, question_marks, append_slice_values,
}
use shilohcommunityenterpris.Query.Balance.{nest, At, At-text, Ends, At-if}

-- A map whose values keep the depth.
abbrev pub IsPlainRow : (Bytes → Bytes → Bytes) → Type 0
IsPlainRow row = (key : Bytes) (k : ℕ) (b : Bytes) → At k b → At k (row key b)

comma-At : (k : ℕ) (first : Bool) (b : Bytes) → At k b → At k (if first then b else b ++ comma)
unfolding nest
comma-At k first b h = At-if k first b (b ++ comma) h (At-text b comma h refl)

marks-At :
    (k : ℕ) (first : Bool) (keys : List Bytes) (b : Bytes)
    → At k b
    → At k (question_marks first keys b)
unfolding question_marks nest
marks-At k first [] b h = h
marks-At k first (x ∷ keys) b h =
    marks-At k false keys _ (At-text _ (b'?' ∷ []) (comma-At k first b h) refl)

values-At :
    (k : ℕ) (row : Bytes → Bytes → Bytes) (first : Bool) (keys : List Bytes) (b : Bytes)
    → IsPlainRow row
    → At k b
    → At k (append_key_values row first keys b)
unfolding append_key_values
values-At k row first [] b hr h = h
values-At k row first (x ∷ keys) b hr h =
    values-At k row false keys _ hr (hr x k _ (comma-At k first b h))

opened-At : (k : ℕ) (values_row : Bool) (b : Bytes) → At k b → At (suc k) (b ++ open_row values_row)
unfolding nest
opened-At k true b h = At-text b (codes "ROW(") h refl
opened-At k false b h = At-text b (codes "(") h refl

rows-At :
    (k : ℕ) (values_row : Bool) (keys : List Bytes) (first : Bool)
    (rows : List (Bytes → Bytes → Bytes)) (b : Bytes)
    → All IsPlainRow rows
    → At (suc k) b
    → At (suc k) (append_map_rows values_row keys first rows b)
unfolding append_map_rows nest
rows-At k values_row keys first [] b hr h = h
rows-At k values_row keys first (r ∷ rows) b (h0, hr) h =
    rows-At k values_row keys false rows _ hr (
      values-At (suc k) r true keys _ h0
        (At-if (suc k) first b _ h (opened-At k values_row _ (At-text b (codes "), ") h refl))))

slice-At :
    (nop : Bool) (k : ℕ) (values_row : Bool) (keys : List Bytes)
    (rows : List (Bytes → Bytes → Bytes)) (b : Bytes)
    → All IsPlainRow rows
    → At (suc k) b
    → At (if nop then suc k else k) (
        if nop
        then question_marks true keys b
        else append_map_rows values_row keys true rows b ++ b')' ∷ [])
unfolding nest
slice-At true k values_row keys rows b hr h = marks-At (suc k) true keys b h
slice-At false k values_row keys rows b hr h =
    At-text _ (b')' ∷ []) (rows-At k values_row keys true rows b hr h) refl

-- The VALUES of a slice of maps close each parenthesis that they open, except in a template, which
-- leaves the last one open; each value keeps the depth in parentheses, and there is a map.
pub append_slice_values-Ends :
    (fm : Fmter) (values_row : Bool) (keys : List Bytes) (row : Bytes → Bytes → Bytes)
    (rows : List (Bytes → Bytes → Bytes)) (k : ℕ) (b : Bytes)
    → IsPlainRow row
    → All IsPlainRow rows
    → At k b
    → Ends
        (if fm.formatter.is_nop then suc k else k)
        (append_slice_values fm values_row keys (row ∷ rows) b)
unfolding append_slice_values nest
append_slice_values-Ends fm values_row keys row rows k b h hr hb =
    slice-At fm.formatter.is_nop k values_row keys (row ∷ rows) _ (h, hr)
      (opened-At k values_row _ (At-text b (codes "VALUES ") hb refl))
