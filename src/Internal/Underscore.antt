-- ===== src/Internal/Underscore.antt =====
-- internal/underscore.go: names with underscores and names in camel case.
pub mod Words
mod Tests
use shilohcommunityenterpris.Common.{
  ℕ, ◌+◌, ◌%◌, Bool, true, false, ◌||◌, ◌&&◌, List, [], ◌∷◌, ◌++◌, Option, none, some, ◌==◌,
  if◌then◌else◌, within, Bytes,
}

abbrev pub is_upper : ℕ → Bool
is_upper c = within b'A' b'Z' c

abbrev pub is_lower : ℕ → Bool
is_lower c = within b'a' b'z' c

-- A byte is taken modulo 256; `c - 32` is `c + 224`.
abbrev pub to_upper : ℕ → ℕ
to_upper c = (c + 224) % 256

abbrev pub to_lower : ℕ → ℕ
to_lower c = (c + 32) % 256

-- Whether an upper-case byte gets an underscore: it has a byte on each side, and one is lower-case.
unfoldable pub starts_word : Option ℕ → Bytes → Bool
starts_word none s = false
starts_word (some before) [] = false
starts_word (some before) (next ∷ s) = is_lower before || is_lower next

-- What one round of the loop of `Underscore` appends.
unfoldable pub underscore_byte : Option ℕ → ℕ → Bytes → Bytes
unfolding starts_word
underscore_byte before c s =
    if is_upper c
    then (if starts_word before s then b'_' ∷ to_lower c ∷ [] else to_lower c ∷ [])
    else c ∷ []

unfoldable pub underscore_loop : Option ℕ → Bytes → Bytes
unfolding underscore_byte
underscore_loop before [] = []
underscore_loop before (c ∷ s) = underscore_byte before c s ++ underscore_loop (some c) s

-- `Underscore`
unfoldable pub underscore : Bytes → Bytes
unfolding underscore_loop
underscore = underscore_loop none

-- The loop of `CamelCased`; the flag is `upperNext`.
unfoldable pub camel_loop : Bool → Bytes → Bytes
camel_loop upper_next [] = []
camel_loop upper_next (c ∷ s) =
    let word = camel_loop true s in
    let on = camel_loop false s in
    if c == b'_' then word else (if upper_next && is_lower c then to_upper c else c) ∷ on

-- `CamelCased`
unfoldable pub camel_cased : Bytes → Bytes
unfolding camel_loop
camel_cased = camel_loop true

unfoldable pub to_exported : Bytes → Bytes
to_exported [] = []
to_exported (c ∷ s) = if is_lower c then to_upper c ∷ s else c ∷ s
