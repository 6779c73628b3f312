-- ===== src/PgDialect/Scan.antt =====
-- dialect/pgdialect/array_scan.go: the loops that read an array's elements into a slice.
use shilohcommunityenterpris.Common.{
  ℕ, zero, suc, List, [], ◌∷◌, ◌++◌, Option, none, some, Bytes, length,
}
use shilohcommunityenterpris.Common.Decimal.{ℤ, pos, parse_int}
use shilohcommunityenterpris.Common.Result.{Result, ok, err}
use shilohcommunityenterpris.PgDialect.Parser.{Error, eof, ArrayParser, new_array_parser, next_elem}

-- What the driver hands to a scanner: `nil`, a string or `[]byte`, or a value of another type.
pub data Source : Type 0 where
  nil : Source
  text : Bytes → Source
  other : Source

-- The parser's errors, those of `strconv`, and "got %T, wanted []byte or string".
pub data ScanError : Type 0 where
  parse : Error → ScanError
  syntax : Bytes → ScanError
  wrong_type : ScanError

unfoldable pub to_bytes : Source → Result ScanError Bytes
to_bytes (text b) = ok b
to_bytes _ = err wrong_type

module _ {A : Type 0} where
  abbrev pub ended : Error → List A → Result ScanError (List A)
  ended eof out = ok out
  ended e out = err (parse e)

module _ {A : Type 0} (convert : Option Bytes → Result ScanError A) where
  -- The loop of the decoders; `none` says that the fuel ran out.
  unfoldable pub scan_elems : ℕ → ArrayParser → List A → Option (Result ScanError (List A))
  scan_elems zero p out = none
  scan_elems (suc fuel) p out = elim (next_elem p) [
    | err e ↦ some (ended e out)
    | ok (elem, q) ↦ elim (convert elem) [
      | err e ↦ some (err e)
      | ok x ↦ scan_elems fuel q (out ++ x ∷ [])
    ]
  ]

  unfoldable pub scan_array : Result ScanError Bytes → Option (Result ScanError (List A))
  unfolding scan_elems new_array_parser next_elem
  scan_array (err e) = some (err e)
  scan_array (ok b) = scan_elems (suc (length b)) (new_array_parser b) []

abbrev pub found : {A : Type 0} → Option (Result ScanError A) → Option (Result ScanError (Option A))
found none = none
found (some (ok x)) = some (ok (some x))
found (some (err e)) = some (err e)

-- `string(elem)`
abbrev pub as_string : Option Bytes → Result ScanError Bytes
as_string none = ok []
as_string (some b) = ok b

-- `decodeStringSlice`; a `nil` slice is `none`
unfoldable pub decode_string_slice : Source → Option (Result ScanError (Option (List Bytes)))
unfolding scan_array to_bytes
decode_string_slice nil = some (ok none)
decode_string_slice src = found (scan_array as_string (to_bytes src))

abbrev pub number_or : {A : Type 0} → Bytes → Option A → Result ScanError A
number_or b none = err (syntax b)
number_or b (some n) = ok n

unfoldable pub as_int : Option Bytes → Result ScanError ℤ
as_int none = ok (pos 0)
as_int (some b) = number_or b (parse_int b)

-- `decodeIntSlice`, where `int` has 64 bits
unfoldable pub decode_int_slice : Source → Option (Result ScanError (Option (List ℤ)))
unfolding scan_array to_bytes as_int parse_int
decode_int_slice nil = some (ok none)
decode_int_slice src = found (scan_array as_int (to_bytes src))

unfoldable pub decode_int64_slice : Source → Option (Result ScanError (Option (List ℤ)))
unfolding scan_array to_bytes as_int parse_int
decode_int64_slice nil = some (ok none)
decode_int64_slice src = found (scan_array as_int (to_bytes src))

-- `strconv.ParseFloat` is `parse_float`, and `zero_float` the value 0.
module _ {F : Type 0} (parse_float : Bytes → Option F) (zero_float : F) where
  as_float : Option Bytes → Result ScanError F
  as_float none = ok zero_float
  as_float (some b) = number_or b (parse_float b)

  -- `scanFloat64Slice`: it tests `src == -1`, which no value of a driver's types meets
  unfoldable pub scan_float64_slice : Source → Option (Result ScanError (Option (List F)))
  unfolding scan_array to_bytes as_float
  scan_float64_slice src = found (scan_array as_float (to_bytes src))
