-- ===== src/Common/Utf8.antt =====
-- Go's `for _, r := range s` over a string, and `utf8.EncodeRune`.
use shilohcommunityenterpris.Common.Tests.{ltb, ◌==◌, within, if◌then◌else◌, Bytes}
use Prim.Native.Nat.{ℕ, zero, suc, ◌+◌, ◌-◌, ◌*◌, ◌/◌, ◌%◌, ◌≤◌, ◌<◌}
use mathlib.Core.Path.{◌≡◌}
use mathlib.Core.Bool.{◌||◌}
use mathlib.Core.List.{List, [], ◌∷◌, ◌++◌}
use native.Mathlib.Omega.{arith}
use shilohcommunityenterpris.Common.Lists.{All}

-- `utf8.RuneError`: what an invalid byte reads as, with width 1
abbrev pub rune_error : ℕ
rune_error = 0xFFFD

abbrev invalid : ℕ × ℕ
invalid = (rune_error, 1)

-- The range of the second byte, which leaves out overlong forms, surrogates and what is too large.
second_low : ℕ → ℕ
second_low a = if a == 0xE0 then 0xA0 else if a == 0xF0 then 0x90 else 0x80

second_high : ℕ → ℕ
second_high a = if a == 0xED then 0x9F else if a == 0xF4 then 0x8F else 0xBF

decode_fourth : ℕ → ℕ → ℕ → Bytes → ℕ × ℕ
decode_fourth a b c [] = invalid
decode_fourth a b c (d ∷ s) =
    if within 0x80 0xBF d
    then if within 0xF0 0xF4 a
      then ((a - 0xF0) * 262144 + (b - 0x80) * 4096 + (c - 0x80) * 64 + (d - 0x80), 4)
      else invalid
    else invalid

decode_third : ℕ → ℕ → Bytes → ℕ × ℕ
unfolding decode_fourth
decode_third a b [] = invalid
decode_third a b (c ∷ s) =
    if within 0x80 0xBF c
    then if within 0xE0 0xEF a
      then ((a - 0xE0) * 4096 + (b - 0x80) * 64 + (c - 0x80), 3)
      else decode_fourth a b c s
    else invalid

decode_second : ℕ → Bytes → ℕ × ℕ
unfolding decode_third second_low second_high
decode_second a [] = invalid
decode_second a (b ∷ s) =
    if within (second_low a) (second_high a) b
    then if within 0xC2 0xDF a then ((a - 0xC0) * 64 + (b - 0x80), 2) else decode_third a b s
    else invalid

-- `utf8.DecodeRuneInString`: the rune and its width
pub decode_rune : Bytes → ℕ × ℕ
unfolding decode_second
decode_rune [] = (rune_error, 0)
decode_rune (a ∷ s) = if ltb a 0x80 then (a, 1) else decode_second a s

-- The first argument counts the bytes of the last rune that are still to be passed over.
runes_from : ℕ → Bytes → List ℕ
unfolding decode_rune
runes_from (suc k) (b ∷ s) = runes_from k s
runes_from zero (b ∷ s) = let (r, w) = decode_rune (b ∷ s) in r ∷ runes_from (w - 1) s
runes_from _ [] = []

-- The runes that `for _, r := range s` runs through.
unfoldable pub runes : Bytes → List ℕ
unfolding runes_from
runes = runes_from 0

-- `utf8.EncodeRune`
unfoldable pub encode_rune : ℕ → Bytes
encode_rune r =
    if ltb r 0x80
    then r ∷ []
    else if ltb r 0x800
    then (0xC0 + r / 64) ∷ (0x80 + r % 64) ∷ []
    else if ltb 0x10FFFF r || within 0xD800 0xDFFF r
    then 0xEF ∷ 0xBF ∷ 0xBD ∷ []
    else if ltb r 0x10000
    then (0xE0 + r / 4096) ∷ (0x80 + r / 64 % 64) ∷ (0x80 + r % 64) ∷ []
    else (0xF0 + r / 262144) ∷ (0x80 + r / 4096 % 64) ∷ (0x80 + r / 64 % 64) ∷ (0x80 + r % 64) ∷ []

-- Every rune behind one another.
unfoldable pub encode_runes : List ℕ → Bytes
encode_runes [] = []
encode_runes (r ∷ rs) = encode_rune r ++ encode_runes rs

-- A string that Go reads and writes back as it is: well-formed UTF-8.
abbrev pub IsUtf8 : Bytes → Type 0
IsUtf8 s = encode_runes (runes s) ≡ s

-- No byte of a rune outside ASCII is an ASCII byte.
pub encode_rune-All : (r : ℕ) → 0x80 ≤ r → All (λ c. 0x80 ≤ c) (encode_rune r)
unfolding encode_rune
encode_rune-All r h = ground arith

pub encode_rune_ascii : (r : ℕ) → r < 0x80 → encode_rune r ≡ r ∷ []
unfolding encode_rune
encode_rune_ascii r h = ground arith
