-- ===== src/Query/Balance.antt =====
-- Parentheses of a query's text: how deep a reader is in them, and rules for pieces that keep it.
pub mod Number
use shilohcommunityenterpris.Common.{
  ℕ, zero, suc, ◌+◌, Bool, true, false, not, ◌&&◌, List, [], ◌∷◌, ◌++◌, Option, none, some,
  if◌then◌else◌, ◌==◌, Bytes, codes, All, ◌≡◌, ◌≢◌, refl, sym, ap, ◌∙◌, arith, Bool-cases, inl, inr,
}
use shilohcommunityenterpris.Common.Result.{Result, ok, err, ◌>>=◌}
use shilohcommunityenterpris.Query.Fragment.{QueryError, Appender, QueryWithArgs, each, done}

abbrev close_one : ℕ → Option ℕ
close_one zero = none
close_one (suc k) = some k

abbrev step : ℕ → ℕ → Option ℕ
step c k = if c == b'(' then some (suc k) else if c == b')' then close_one k else some k

abbrev pub and_then : (ℕ → Option ℕ) → Option ℕ → Option ℕ
and_then f none = none
and_then f (some k) = f k

-- The depth behind a text that is read at a depth; `none` is a parenthesis that closes nothing.
unfoldable pub nest : Bytes → ℕ → Option ℕ
nest [] k = some k
nest (c ∷ s) k = and_then (nest s) (step c k)

nest-step :
    (u v : Bytes) (o : Option ℕ)
    → ((k : ℕ) → nest (u ++ v) k ≡ and_then (nest v) (nest u k))
    → and_then (nest (u ++ v)) o ≡ and_then (nest v) (and_then (nest u) o)
nest-step u v none h = refl
nest-step u v (some j) h = h j

pub nest-append : (u v : Bytes) (k : ℕ) → nest (u ++ v) k ≡ and_then (nest v) (nest u k)
unfolding nest
nest-append [] v k = refl
nest-append (c ∷ u) v k = nest-step u v (step c k) (λ j. nest-append u v j)

-- What is written stands at depth `k`.
pub record At (k : ℕ) (b : Bytes) : Type 0 where
  pub depth : nest b 0 ≡ some k

-- A text that leaves the depth as it is, whatever it is.
abbrev pub IsBalanced : Bytes → Type 0
IsBalanced w = (k : ℕ) → nest w k ≡ some k

pub At-text : {k j : ℕ} (b w : Bytes) → At k b → nest w k ≡ some j → At j (b ++ w)
At-text b w h e = record { depth = nest-append b w 0 ∙ ap (and_then (nest w)) h.depth ∙ e }

-- A result that is an error, or text at depth `k`.
abbrev pub Ends : ℕ → Result QueryError Bytes → Type 0
Ends k (ok b) = At k b
Ends k (err e) = Unit

-- An appender that leaves the depth as it is.
abbrev pub Keeps : Appender → Type 0
Keeps f = (k : ℕ) (b : Bytes) → At k b → Ends k (f b)

pub Ends-bind :
    (j k : ℕ) (r : Result QueryError Bytes) (f : Appender)
    → Ends j r
    → ((b : Bytes) → At j b → Ends k (f b))
    → Ends k (r >>= f)
Ends-bind j k (ok b) f h g = g b h
Ends-bind j k (err e) f h g = tt

pub Ends-done : (k : ℕ) (o : Option Bytes) → ((b : Bytes) → o ≡ some b → At k b) → Ends k (done o)
Ends-done k none h = tt
Ends-done k (some b) h = h b refl

pub Ends-if :
    (k : ℕ) (c : Bool) (r s : Result QueryError Bytes)
    → Ends k r
    → Ends k s
    → Ends k (if c then r else s)
Ends-if k true r s h g = h
Ends-if k false r s h g = g

pub At-if : (k : ℕ) (c : Bool) (u v : Bytes) → At k u → At k v → At k (if c then u else v)
At-if k true u v h g = h
At-if k false u v h g = g

-- The loop over pieces keeps the depth if its separator and each piece do.
pub each-Keeps :
    {A : Type 0} (sep : Bytes) (f : A → Appender)
    → IsBalanced sep
    → (first : Bool) (xs : List A) → All (λ x. Keeps (f x)) xs
    → Keeps (each sep f first xs)
unfolding each
each-Keeps sep f hs first [] h k b hb = hb
each-Keeps sep f hs first (x ∷ xs) (hx, h) k b hb =
    Ends-bind k k (f x (if first then b else b ++ sep)) (each sep f false xs)
      (hx k (if first then b else b ++ sep)
        (At-if k first b (b ++ sep) hb (At-text b sep hb (hs k))))
      (λ b' hb'. each-Keeps sep f hs false xs h k b' hb')
