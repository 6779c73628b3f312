-- ===== src/Common/Decimal.antt =====
-- `strconv`: decimal text of integers.
use shilohcommunityenterpris.Common.Tests.{◌==◌, ltb, leb, within, if◌then◌else◌, Bytes}
use Prim.Native.Nat.{ℕ, zero, suc, ◌+◌, ◌-◌, ◌*◌, ◌/◌, ◌%◌, ◌^◌}
use mathlib.Core.Bool.{Bool, true, false, ◌&&◌}
use mathlib.Core.List.{[], ◌∷◌, ◌++◌}
use mathlib.Core.Option.{Option, none, some}

-- `negsuc n` is -(n + 1).
pub data ℤ : Type 0 where
  pos : ℕ → ℤ
  negsuc : ℕ → ℤ

-- `isNum`
abbrev pub is_num : ℕ → Bool
is_num c = within b'0' b'9' c

-- The fuel bounds the digits left; `n` is enough.
unfoldable pub digits_onto : ℕ → ℕ → Bytes → Bytes
digits_onto zero n out = (b'0' + n % 10) ∷ out
digits_onto (suc fuel) n out =
    let more = digits_onto fuel (n / 10) ((b'0' + n % 10) ∷ out) in
    if ltb n 10 then (b'0' + n) ∷ out else more

-- `strconv.AppendUint(b, n, 10)`
unfoldable pub append_uint : Bytes → ℕ → Bytes
unfolding digits_onto
append_uint b n = b ++ digits_onto n n []

-- `strconv.AppendInt(b, n, 10)`
unfoldable pub append_int : Bytes → ℤ → Bytes
unfolding append_uint
append_int b (pos n) = append_uint b n
append_int b (negsuc n) = append_uint (b ++ b'-' ∷ []) (suc n)

abbrev pub max_int : ℕ
max_int = 2 ^ 63 - 1

-- The number that digits spell behind `n`.
abbrev pub value : ℕ → Bytes → ℕ
value n [] = n
value n (c ∷ s) = value (n * 10 + (c - b'0')) s

-- `strconv.Atoi` on a text of digits: no text and a number above the largest int are errors.
unfoldable pub atoi : Bytes → Option ℕ
atoi [] = none
atoi (c ∷ s) = if leb (value 0 (c ∷ s)) max_int then some (value 0 (c ∷ s)) else none

int_of_magnitude : Bool → ℕ → Option ℤ
int_of_magnitude false n = if leb n max_int then some (pos n) else none
int_of_magnitude true n =
    if n == 0 then some (pos 0) else if leb n (2 ^ 63) then some (negsuc (n - 1)) else none

all_digits : Bytes → Bool
all_digits [] = true
all_digits (c ∷ s) = is_num c && all_digits s

unsigned : Bool → Bytes → Option ℤ
unsigned negative [] = none
unsigned negative (c ∷ s) =
    if all_digits (c ∷ s) then int_of_magnitude negative (value 0 (c ∷ s)) else none

-- `strconv.ParseInt(s, 10, 64)`: an optional sign, digits, and the range of an int64
unfoldable pub parse_int : Bytes → Option ℤ
unfolding unsigned all_digits int_of_magnitude
parse_int [] = none
parse_int (c ∷ s) =
    if c == b'-'
    then unsigned true s
    else if c == b'+'
    then unsigned false s
    else unsigned false (c ∷ s)
