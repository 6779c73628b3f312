-- ===== src/PgDriver/Replies/Tags.antt =====
-- What `parseResult` makes of the tag of a command.
use shilohcommunityenterpris.Common.{
  Option, ◌-◌, ltb, if◌then◌else◌, ℕ, ◌^◌, ◌<◌, true, false, [], ◌∷◌, ◌++◌, none, some, ◌==◌, Bytes,
  length, All, ◌≡◌, refl, ap, ◌∙◌, arith,
}
use shilohcommunityenterpris.Common.Decimal.{ℤ, pos, negsuc, is_num, value}
use shilohcommunityenterpris.Common.Result.{ok}
use shilohcommunityenterpris.PgDriver.Replies.{
  tag_rows, parse_result, parse_uint, to_int64, behind_space, all_but_last, digits_only,
}

abbrev pub tag_text : Bytes → Bytes → Bytes
tag_text w v = w ++ b' ' ∷ (v ++ 0 ∷ [])

-- The rows that a decimal number tells, as an `int64`: from 2^63 on they are negative.
abbrev pub rows : Bytes → ℤ
rows d = if ltb (value 0 d) (2 ^ 63) then pos (value 0 d) else negsuc (2 ^ 64 - 1 - value 0 d)

abbrev pub NoSpace : Bytes → Type 0
NoSpace = All (λ c. (c == b' ') ≡ false)

abbrev pub IsDigits : Bytes → Type 0
IsDigits = All (λ c. is_num c ≡ true)

behind-none : (w : Bytes) → NoSpace w → behind_space (w ++ 0 ∷ []) ≡ none
unfolding behind_space
behind-none [] h = refl
behind-none (c ∷ w) (hc, h) = rw (behind-none w h, hc) refl

behind-tag : (w v : Bytes) → NoSpace v → behind_space (tag_text w v) ≡ some (v ++ 0 ∷ [])
unfolding behind_space
behind-tag [] v h =
    ap (λ x. elim x as (λ _. Option Bytes) [ some w ↦ some w | none ↦ some (v ++ 0 ∷ []) ])
      (behind-none v h)
behind-tag (c ∷ w) v h = rw (behind-tag w v h) refl

last-zero : (v : Bytes) → all_but_last (v ++ 0 ∷ []) ≡ v
last-zero [] = refl
last-zero (c ∷ []) = refl
last-zero (c ∷ d ∷ v) = ap (◌∷◌ c) (last-zero (d ∷ v))

digits-NoSpace : (d : Bytes) → IsDigits d → NoSpace d
digits-NoSpace [] h = tt
digits-NoSpace (c ∷ d) (hc, h) = (ground arith, digits-NoSpace d h)

digits-only : (d : Bytes) → IsDigits d → digits_only d ≡ true
digits-only [] h = refl
digits-only (c ∷ d) (hc, h) = rw (hc, digits-only d h) refl

pub parse_result-tag :
    (w v : Bytes) → NoSpace v → parse_result (tag_text w v) ≡ ok (to_int64 (parse_uint v))
unfolding parse_result
parse_result-tag w [] h = ap tag_rows (behind-tag w [] h)
parse_result-tag w (c ∷ v) h =
    ap tag_rows (behind-tag w (c ∷ v) h)
    ∙ ap (λ u. ok (to_int64 (parse_uint u))) (last-zero (c ∷ v))

pub parse_result-counted :
    (w d : Bytes)
    → 0 < length d
    → IsDigits d
    → value 0 d < 2 ^ 64
    → parse_result (tag_text w d) ≡ ok (rows d)
parse_result-counted w [] l h b = absurd (omega (arith, l))
parse_result-counted w (c ∷ d) l h b =
    parse_result-tag w (c ∷ d) (digits-NoSpace (c ∷ d) h)
    ∙ ap (λ n. ok (to_int64 n)) (number (c ∷ d) (digits-only (c ∷ d) h) b)
    ∙ ap ok (same (value 0 (c ∷ d)))
  where
    number : (d : Bytes) → digits_only d ≡ true → value 0 d < 2 ^ 64 → parse_uint d ≡ value 0 d
    number [] h b = refl
    number (c ∷ d) h b = rw (h) (ground arith)

    same : (n : ℕ) → to_int64 n ≡ (if ltb n (2 ^ 63) then pos n else negsuc (2 ^ 64 - 1 - n))
    same n = ground arith

pub parse_result-worded :
    (w v : Bytes) (c : ℕ)
    → is_num c ≡ false
    → NoSpace (c ∷ v)
    → parse_result (tag_text w (c ∷ v)) ≡ ok (pos 0)
parse_result-worded w v c hc h = parse_result-tag w (c ∷ v) h ∙ rw (hc) refl

pub parse_result-plain : (w : Bytes) → NoSpace w → parse_result (w ++ 0 ∷ []) ≡ ok (pos 0)
unfolding parse_result
parse_result-plain w h = ap tag_rows (behind-none w h)
