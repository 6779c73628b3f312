-- ===== src/Common/Hex.antt =====
-- `encoding/hex`: `EncodeToString` and `Decode`.
use shilohcommunityenterpris.Common.Tests.{ltb, within, if◌then◌else◌, Bytes}
use shilohcommunityenterpris.Common.Lists.{All}
use Prim.Native.Nat.{ℕ, ◌+◌, ◌-◌, ◌*◌, ◌/◌, ◌%◌, ◌≤◌, ◌<◌}
use mathlib.Core.Path.{◌≡◌, refl}
use mathlib.Core.List.{[], ◌∷◌}
use mathlib.Core.Option.{Option, none, some}
use native.Mathlib.Omega.{arith}

-- one of "0123456789abcdef"
hex_digit : ℕ → ℕ
hex_digit n = if ltb n 10 then b'0' + n else b'a' + (n - 10)

unfoldable pub hex_encode : Bytes → Bytes
unfolding hex_digit
hex_encode [] = []
hex_encode (b ∷ s) = hex_digit (b / 16) ∷ hex_digit (b % 16) ∷ hex_encode s

-- Both cases are read.
hex_value : ℕ → Option ℕ
hex_value c =
    if within b'0' b'9' c
    then some (c - b'0')
    else if within b'a' b'f' c
    then some (c - b'a' + 10)
    else if within b'A' b'F' c
    then some (c - b'A' + 10)
    else none

hex_byte : Option ℕ → Option ℕ → Option Bytes → Option Bytes
hex_byte (some h) (some l) (some s) = some ((h * 16 + l) ∷ s)
hex_byte _ _ _ = none

-- An odd length or another byte is an error.
unfoldable pub hex_decode : Bytes → Option Bytes
unfolding hex_value hex_byte
hex_decode [] = some []
hex_decode (h ∷ []) = none
hex_decode (h ∷ l ∷ s) = hex_byte (hex_value h) (hex_value l) (hex_decode s)

hex_value-hex_digit : (n : ℕ) → n < 16 → hex_value (hex_digit n) ≡ some n
unfolding hex_value hex_digit
hex_value-hex_digit n h = ground arith

pub hex_decode-hex_encode : (s : Bytes) → All (λ b. b < 256) s → hex_decode (hex_encode s) ≡ some s
unfolding hex_encode hex_decode
hex_decode-hex_encode [] h = refl
hex_decode-hex_encode (b ∷ s) (hb, hs) =
    rw
      (
        hex_value-hex_digit (b / 16) (omega arith),
        hex_value-hex_digit (b % 16) (omega arith),
        hex_decode-hex_encode s hs,
      )
      (ground arith)

-- The digits are ASCII letters and digits.
pub hex_encode-All :
    (s : Bytes) → All (λ b. b < 256) s → All (λ c. (b'0' ≤ c) × (c ≤ b'f')) (hex_encode s)
unfolding hex_encode
hex_encode-All [] h = tt
hex_encode-All (b ∷ s) (hb, hs) = (ground arith, (ground arith, hex_encode-All s hs))
