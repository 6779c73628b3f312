-- ===== src/Query/Balance/Number.antt =====
-- Decimal numbers and a comma that is cut keep the depth in parentheses.
use shilohcommunityenterpris.Common.{
  ℕ, zero, suc, ◌+◌, ◌/◌, ◌%◌, Bool, true, false, [], ◌∷◌, ◌++◌, Option, none, some, if◌then◌else◌,
  Bytes, ltb, ◌≡◌, refl, ◌∙◌, ap, arith,
}
use shilohcommunityenterpris.Common.Decimal.{ℤ, pos, negsuc, digits_onto, append_uint, append_int}
use shilohcommunityenterpris.Query.Select.{trim_comma}
use shilohcommunityenterpris.Query.Balance.{nest, nest-append, and_then, At, IsBalanced, At-text}

digit-IsBalanced : (d : ℕ) (s : Bytes) → IsBalanced s → IsBalanced ((b'0' + d) ∷ s)
unfolding nest
digit-IsBalanced d s h k = ground (arith, h k)

if-IsBalanced :
    (c : Bool) (s t : Bytes) → IsBalanced s → IsBalanced t → IsBalanced (if c then s else t)
if-IsBalanced true s t h g = h
if-IsBalanced false s t h g = g

digits-IsBalanced : (fuel n : ℕ) (s : Bytes) → IsBalanced s → IsBalanced (digits_onto fuel n s)
unfolding digits_onto
digits-IsBalanced zero n s h = digit-IsBalanced (n % 10) s h
digits-IsBalanced (suc fuel) n s h =
    if-IsBalanced (ltb n 10) _ _ (digit-IsBalanced n s h)
      (digits-IsBalanced fuel (n / 10) _ (digit-IsBalanced (n % 10) s h))

pub append_uint-At : (k : ℕ) (b : Bytes) (n : ℕ) → At k b → At k (append_uint b n)
unfolding append_uint nest
append_uint-At k b n h = At-text b (digits_onto n n []) h (digits-IsBalanced n n [] (λ j. refl) k)

-- A count of things.
pub count-IsBalanced : (n : ℕ) (w : Bytes) → IsBalanced w → IsBalanced (append_uint [] n ++ w)
unfolding append_uint nest
count-IsBalanced n w h k =
    nest-append (digits_onto n n []) w k
    ∙ ap (and_then (nest w)) (digits-IsBalanced n n [] (λ j. refl) k)
    ∙ h k

pub append_int-At : (k : ℕ) (b : Bytes) (n : ℤ) → At k b → At k (append_int b n)
unfolding append_int nest
append_int-At k b (pos n) h = append_uint-At k b n h
append_int-At k b (negsuc n) h = append_uint-At k _ (suc n) (At-text b (b'-' ∷ []) h refl)

trim-step :
    (s t : Bytes) (o : Option ℕ)
    → ((k : ℕ) → nest s k ≡ nest t k)
    → and_then (nest s) o ≡ and_then (nest t) o
trim-step s t none h = refl
trim-step s t (some k) h = h k

trim_comma-nest : (b : Bytes) (k : ℕ) → nest (trim_comma b) k ≡ nest b k
unfolding nest trim_comma
trim_comma-nest [] k = refl
trim_comma-nest (c ∷ []) k = refl
trim_comma-nest (c ∷ d ∷ []) k = ground arith
trim_comma-nest (c ∷ d ∷ e ∷ s) k =
    trim-step (trim_comma (d ∷ e ∷ s)) (d ∷ e ∷ s) _ (trim_comma-nest (d ∷ e ∷ s))

pub trim_comma-At : (k : ℕ) (b : Bytes) → At k b → At k (trim_comma b)
trim_comma-At k b h = record { depth = trim_comma-nest b 0 ∙ h.depth }
