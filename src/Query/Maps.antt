-- ===== src/Query/Maps.antt =====
-- model_map.go and model_map_slice.go: the text of maps.
pub mod Balance
use shilohcommunityenterpris.Common.{
  ℕ, Bool, true, false, List, [], ◌∷◌, ◌++◌, Option, none, some, if◌then◌else◌, Bytes, codes,
}
use shilohcommunityenterpris.Common.Result.{Result, ok, err}
use shilohcommunityenterpris.Dialect.{append_ident}
use shilohcommunityenterpris.Query.Fragment.{QueryError, no_map_rows, Fmter, is_empty_list, comma}

-- The names of the keys, with commas.
unfoldable pub append_keys : Fmter → Bool → List Bytes → Bytes → Bytes
append_keys fm first [] b = b
append_keys fm first (k ∷ ks) b =
    append_keys fm false ks (append_ident (if first then b else b ++ comma) k fm.ident_quote)

abbrev pub key_value : Fmter → (Bytes → Bytes) → Bytes → Bytes
key_value fm v b = if fm.formatter.is_nop then b ++ b'?' ∷ [] else v b

-- The values of a map, with commas; a template has a question mark for each.
unfoldable pub append_map_values : Fmter → Bool → List (Bytes × (Bytes → Bytes)) → Bytes → Bytes
append_map_values fm first [] b = b
append_map_values fm first ((k, v) ∷ m) b =
    append_map_values fm false m (key_value fm v (if first then b else b ++ comma))

abbrev pub keys_of : List (Bytes × (Bytes → Bytes)) → List Bytes
keys_of [] = []
keys_of ((k, v) ∷ m) = k ∷ keys_of m

-- `mapModel.appendColumnsValues`
unfoldable pub append_columns_values : Fmter → List (Bytes × (Bytes → Bytes)) → Bytes → Bytes
unfolding append_keys append_map_values
append_columns_values fm m b =
    append_map_values fm true m
      (append_keys fm true (keys_of m) (b ++ codes " (") ++ codes ") VALUES (")
    ++ codes ")"

-- `mapModel.appendSet`
unfoldable pub append_map_set : Fmter → Bool → List (Bytes × (Bytes → Bytes)) → Bytes → Bytes
append_map_set fm first [] b = b
append_map_set fm first ((k, v) ∷ m) b = append_map_set fm false m (
    key_value fm v (append_ident (if first then b else b ++ comma) k fm.ident_quote ++ codes " = "))

-- `mapSliceModel.appendColumns`, whose keys are those of the first map
unfoldable pub append_slice_columns :
    Fmter → List Bytes → List (Bytes → Bytes → Bytes) → Bytes → Result QueryError Bytes
unfolding append_keys
append_slice_columns fm keys rows b =
    if is_empty_list rows then err no_map_rows else ok (append_keys fm true keys b)

abbrev pub open_row : Bool → Bytes
open_row values_row = if values_row then codes "ROW(" else codes "("

unfoldable pub append_key_values : (Bytes → Bytes → Bytes) → Bool → List Bytes → Bytes → Bytes
append_key_values row first [] b = b
append_key_values row first (k ∷ ks) b =
    append_key_values row false ks (row k (if first then b else b ++ comma))

unfoldable pub append_map_rows :
    Bool → List Bytes → Bool → List (Bytes → Bytes → Bytes) → Bytes → Bytes
unfolding append_key_values
append_map_rows values_row keys first [] b = b
append_map_rows values_row keys first (r ∷ rs) b =
    append_map_rows values_row keys false rs (
      append_key_values r true keys
        (if first then b else (b ++ codes "), ") ++ open_row values_row))

unfoldable pub question_marks : Bool → List Bytes → Bytes → Bytes
question_marks first [] b = b
question_marks first (k ∷ ks) b =
    question_marks false ks ((if first then b else b ++ comma) ++ b'?' ∷ [])

-- `mapSliceModel.appendValues`; `values_row` is the database's feature
unfoldable pub append_slice_values :
    Fmter → Bool → List Bytes → List (Bytes → Bytes → Bytes) → Bytes → Result QueryError Bytes
unfolding append_map_rows question_marks
append_slice_values fm values_row keys rows b =
    if is_empty_list rows
    then err no_map_rows
    else let start = (b ++ codes "VALUES ") ++ open_row values_row in
      ok (
        if fm.formatter.is_nop
        then question_marks true keys start
        else append_map_rows values_row keys true rows start ++ b')' ∷ [])
