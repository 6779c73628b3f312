-- ===== src/PgDriver/Format.antt =====
-- driver/pgdriver/format.go: `formatQuery`, which puts arguments in the place of `$1`, `$2`, and so
-- on. A parser is the bytes that it has not read.
use shilohcommunityenterpris.Common.{
  ℕ, zero, suc, ◌-◌, Bool, true, false, not, ◌&&◌, List, [], ◌∷◌, ◌++◌, Option, none, some, ltb,
  ◌==◌, if◌then◌else◌, Bytes, codes, length, get_elem?,
}
use shilohcommunityenterpris.Common.Decimal.{ℤ, is_num, atoi, append_int}
use shilohcommunityenterpris.Common.Hex.{hex_encode}
use shilohcommunityenterpris.Common.Result.{Result, ok, err}
use shilohcommunityenterpris.Common.Utf8.{runes, encode_rune}
use shilohcommunityenterpris.Dialect.{Float, append_float, append_bool, append_null}

-- The driver values that `appendArg` takes; a time is none if it is zero, and else its text between
-- the apostrophes; `other` holds the name of another type.
pub data Arg (F : Type 0) : Type 0 where
  null : Arg F
  int64 : ℤ → Arg F
  float64 : Float F → Arg F
  bool : Bool → Arg F
  bytes : Option Bytes → Arg F
  string : Bytes → Arg F
  time : Option Bytes → Arg F
  other : Bytes → Arg F

-- The errors, and the panic on an index out of range.
pub data FormatError : Type 0 where
  below_one : ℕ → FormatError
  too_few : ℕ → ℕ → FormatError
  unexpected : Bytes → FormatError
  out_of_range : FormatError

-- What one round of the loop on a string appends.
unfoldable pub arg_rune : ℕ → Bytes
arg_rune r =
    if r == 0
    then []
    else if r == b'\''
    then b'\'' ∷ b'\'' ∷ []
    else if ltb r 0x80
    then r ∷ []
    else encode_rune r

unfoldable pub arg_runes : Bytes → List ℕ → Bytes
unfolding arg_rune
arg_runes b [] = b
arg_runes b (r ∷ rs) = arg_runes (b ++ arg_rune r) rs

-- `appendArg`; `print` is `strconv.AppendFloat` on a finite number.
unfoldable pub append_arg : {F : Type 0} → (F → Bytes) → Bytes → Arg F → Result FormatError Bytes
unfolding arg_runes
append_arg print b null = ok (append_null b)
append_arg print b (int64 v) = ok (append_int b v)
append_arg print b (float64 v) = ok (append_float print b v)
append_arg print b (bool v) = ok (append_bool b v)
append_arg print b (bytes none) = ok (append_null b)
append_arg print b (bytes (some v)) = ok ((b ++ codes "'\\x") ++ (hex_encode v ++ b'\'' ∷ []))
append_arg print b (string v) = ok (arg_runes (b ++ b'\'' ∷ []) (runes v) ++ b'\'' ∷ [])
append_arg print b (time none) = ok (append_null b)
append_arg print b (time (some v)) = ok (b ++ b'\'' ∷ (v ++ b'\'' ∷ []))
append_arg print b (other t) = err (unexpected t)

-- The loop of `Number`.
unfoldable pub digits : Bytes → Bytes × Bytes
digits [] = ([], [])
digits (c ∷ s) = if is_num c then (c ∷ (digits s).0, (digits s).1) else ([], c ∷ s)

-- `Number`: the number, and what is left, also where there is none
unfoldable pub number : Bytes → Option ℕ × Bytes
unfolding digits
number s = (atoi (digits s).0, (digits s).1)

-- The loop of `QuotedString`, behind the byte `c`.
unfoldable pub quoted_from : ℕ → Bytes → Bytes × Bytes
quoted_from c [] = ([], [])
quoted_from c (next ∷ s) =
    if c == b'\'' && not (next == b'\'')
    then ([], next ∷ s)
    else (next ∷ (quoted_from next s).0, (quoted_from next s).1)

-- `QuotedString`, behind an apostrophe, which it takes along; it never fails
unfoldable pub quoted_string : Bytes → Bytes × Bytes
unfolding quoted_from
quoted_string s = (b'\'' ∷ (quoted_from 0 s).0, (quoted_from 0 s).1)

abbrev pub no_args : {F : Type 0} → List (Arg F) → Bool
no_args [] = true
no_args (x ∷ xs) = false

module _ {F : Type 0} (print : F → Bytes) (args : List (Arg F)) where
  abbrev pub put_nth : Bytes → Option (Arg F) → Result FormatError Bytes
  put_nth dst none = err out_of_range
  put_nth dst (some v) = append_arg print dst v

  -- `case '$'`, on what `Number` answers
  unfoldable pub put_number : Bytes → Option ℕ → Result FormatError Bytes
  unfolding append_arg
  put_number dst none = ok (dst ++ b'$' ∷ [])
  put_number dst (some i) =
      if ltb i 1
      then err (below_one i)
      else if ltb (length args) i
      then err (too_few (length args) i)
      else put_nth dst (get_elem? args (i - 1))

  abbrev pub go_on :
      (Bytes → Bytes → Option (Result FormatError Bytes))
      → Result FormatError Bytes
      → Bytes
      → Option (Result FormatError Bytes)
  go_on rec (err e) s = some (err e)
  go_on rec (ok dst) s = rec dst s

  -- One round of the loop of `formatQuery`.
  unfoldable pub format_round :
      (Bytes → Bytes → Option (Result FormatError Bytes))
      → Bytes
      → ℕ
      → Bytes
      → Option (Result FormatError Bytes)
  unfolding put_number number quoted_string
  format_round rec dst c s =
      if c == b'$'
      then go_on rec (put_number dst (number s).0) (number s).1
      else if c == b'\''
      then rec (dst ++ (quoted_string s).0) (quoted_string s).1
      else rec (dst ++ c ∷ []) s

  -- The loop of `formatQuery`; `none` says that the fuel ran out.
  unfoldable pub format_loop : ℕ → Bytes → Bytes → Option (Result FormatError Bytes)
  unfolding format_round
  format_loop fuel dst [] = some (ok dst)
  format_loop zero dst (c ∷ s) = none
  format_loop (suc fuel) dst (c ∷ s) = format_round (format_loop fuel) dst c s

  unfoldable pub format_query : Bytes → Option (Result FormatError Bytes)
  unfolding format_loop
  format_query query = if no_args args then some (ok query) else format_loop (length query) [] query
