-- ===== src/PgDialect/Append.antt =====
-- dialect/pgdialect/append.go: array and hstore literals. A `nil` slice or map is `none`.
use shilohcommunityenterpris.Common.{
  ℕ, Bool, List, [], ◌∷◌, ◌++◌, Option, none, some, ltb, ◌==◌, if◌then◌else◌, Bytes, codes,
}
use shilohcommunityenterpris.Common.Decimal.{ℤ, append_int}
use shilohcommunityenterpris.Common.Hex.{hex_encode}
use shilohcommunityenterpris.Common.Utf8.{runes, encode_rune}
use shilohcommunityenterpris.Dialect.{Float, append_null, append_bool, append_float, append_error}

-- `b[len(b)-1] = c`
unfoldable pub set_last : Bytes → ℕ → Bytes
set_last [] c = []
set_last (x ∷ []) c = c ∷ []
set_last (x ∷ y ∷ b) c = x ∷ set_last (y ∷ b) c

-- `b[:len(b)-1]`
unfoldable pub drop_last : Bytes → Bytes
drop_last [] = []
drop_last (x ∷ []) = []
drop_last (x ∷ y ∷ b) = x ∷ drop_last (y ∷ b)

-- What one round of the loop of `arrayAppendString` appends.
unfoldable pub array_rune : ℕ → Bytes
array_rune r =
    if r == 0
    then []
    else if r == b'\''
    then b'\'' ∷ b'\'' ∷ []
    else if r == b'"'
    then b'\\' ∷ b'"' ∷ []
    else if r == b'\\'
    then b'\\' ∷ b'\\' ∷ []
    else if ltb r 0x80
    then r ∷ []
    else encode_rune r

unfoldable pub array_runes : Bytes → List ℕ → Bytes
array_runes b [] = b
array_runes b (r ∷ rs) = array_runes (b ++ array_rune r) rs

unfoldable pub array_append_string : Bytes → Bytes → Bytes
unfolding array_runes array_rune
array_append_string b s = array_runes (b ++ b'"' ∷ []) (runes s) ++ b'"' ∷ []

unfoldable pub array_append_bytes : Bytes → Option Bytes → Bytes
array_append_bytes b none = append_null b
array_append_bytes b (some bs) = (b ++ codes "\"\\\\x") ++ (hex_encode bs ++ b'"' ∷ [])

-- The driver values that `arrayAppend` takes; `time` holds a time as `AppendTime` writes it, and
-- `other` the text of the error for another type.
pub data Value (F : Type 0) : Type 0 where
  int64 : ℤ → Value F
  float64 : Float F → Value F
  bool : Bool → Value F
  bytes : Option Bytes → Value F
  string : Bytes → Value F
  time : Bytes → Value F
  other : Bytes → Value F

array_append : {F : Type 0} → (F → Bytes) → Bytes → Value F → Bytes
array_append print b (int64 v) = append_int b v
array_append print b (float64 v) = append_float print b v
array_append print b (bool v) = append_bool b v
array_append print b (bytes v) = array_append_bytes b v
array_append print b (string v) = array_append_string b v
array_append print b (time v) = b ++ v
array_append print b (other e) = append_error b e

-- The loop that the slice appenders share: an element and a comma.
unfoldable pub elements : {A : Type 0} → (Bytes → A → Bytes) → Bytes → List A → Bytes
elements append b [] = b
elements append b (x ∷ xs) = elements append (append b x ++ b',' ∷ []) xs

-- "Replace trailing comma."
unfoldable pub close_array : {A : Type 0} → Bytes → List A → Bytes
close_array b [] = b ++ b'}' ∷ []
close_array b (x ∷ xs) = set_last b b'}'

unfoldable pub append_slice : {A : Type 0} → (Bytes → A → Bytes) → Bytes → Option (List A) → Bytes
append_slice append b none = append_null b
append_slice append b (some xs) =
    close_array (elements append ((b ++ b'\'' ∷ []) ++ b'{' ∷ []) xs) xs ++ b'\'' ∷ []

unfoldable pub append_string_slice : Bytes → Option (List Bytes) → Bytes
unfolding append_slice elements close_array set_last
append_string_slice = append_slice array_append_string

unfoldable pub append_int_slice : Bytes → Option (List ℤ) → Bytes
unfolding append_slice elements close_array set_last append_int
append_int_slice = append_slice append_int

append_int64_slice : Bytes → Option (List ℤ) → Bytes
append_int64_slice = append_slice append_int

append_float64_slice : {F : Type 0} → (F → Bytes) → Bytes → Option (List (Float F)) → Bytes
append_float64_slice print = append_slice (append_float print)

-- The entries in the order in which `range` takes them.
unfoldable pub entries : Bytes → List (Bytes × Bytes) → Bytes
entries b [] = b
entries b ((k, v) ∷ m) =
    entries (array_append_string (array_append_string b k ++ b'=' ∷ b'>' ∷ []) v ++ b',' ∷ []) m

-- "Strip trailing comma."
unfoldable pub strip_comma : Bytes → List (Bytes × Bytes) → Bytes
strip_comma b [] = b
strip_comma b (e ∷ m) = drop_last b

unfoldable pub append_map_string_string : Bytes → Option (List (Bytes × Bytes)) → Bytes
unfolding entries strip_comma drop_last
append_map_string_string b none = append_null b
append_map_string_string b (some m) = strip_comma (entries (b ++ b'\'' ∷ []) m) m ++ b'\'' ∷ []
