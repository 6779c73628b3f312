-- ===== src/PgDriver/Replies/Progress.antt =====
-- The loops that read replies are done within their fuel.
use shilohcommunityenterpris.Common.{
  ℕ, zero, suc, ◌<◌, ◌≤◌, Bool, true, false, [], ◌∷◌, Option, none, some, if◌then◌else◌, ◌==◌, leb,
  Bytes, length, take, drop, ◌≡◌, ◌≢◌, refl, arith,
}
use shilohcommunityenterpris.Common.Decimal.{ℤ, pos, negsuc}
use shilohcommunityenterpris.Common.Result.{ok, err, ◌>>=◌}
use shilohcommunityenterpris.PgDriver.Wire.{
  ReadError, eof, unexpected_message, negative_length, stuck, bad_slice, buffer_full, Read,
  read_byte, read_temp, discard, read_int32, read_message_type, buffer_size, read_string,
  read_within, with_byte,
}
use shilohcommunityenterpris.PgDriver.Replies.{
  Fields, with_field, error_round, error_loop, read_error, tag_rows, parse_result, parse_uint,
  to_int64, all_but_last, behind_space, ReplyError, broken, Outcome, Kind, Rounds, read_complete,
  reply_round, reply_loop, query_kind, ext_kind, read_query, read_ext_query,
}

abbrev is_stuck : ReadError → Bool
is_stuck eof = false
is_stuck (unexpected_message c) = false
is_stuck negative_length = false
is_stuck stuck = true
is_stuck bad_slice = false
is_stuck buffer_full = false

-- A result that is not for lack of fuel, and leaves at most `n` bytes.
abbrev Leaves : {A : Type 0} → ℕ → Read A → Type 0
Leaves n (ok (a, s)) = length s ≤ n
Leaves n (err e) = is_stuck e ≡ false

Leaves-bind :
    {A B : Type 0} (n m : ℕ) (r : Read A) (f : A × Bytes → Read B)
    → Leaves n r
    → ((a : A) (s : Bytes) → length s ≤ n → Leaves m (f (a, s)))
    → Leaves m (r >>= f)
Leaves-bind n m (ok (a, s)) f h g = g a s h
Leaves-bind n m (err e) f h g = h

Leaves-if :
    {A : Type 0} (n : ℕ) (c : Bool) (r t : Read A)
    → Leaves n r
    → Leaves n t
    → Leaves n (if c then r else t)
Leaves-if n true r t h g = h
Leaves-if n false r t h g = g

Leaves-mono : {A : Type 0} (m n : ℕ) (r : Read A) → m ≤ n → Leaves m r → Leaves n r
Leaves-mono m n (ok (a, s)) h g = omega (arith, h, g)
Leaves-mono m n (err e) h g = g

byte-Leaves : (n : ℕ) (s : Bytes) → length s ≤ suc n → Leaves n (read_byte s)
unfolding read_byte
byte-Leaves n [] h = refl
byte-Leaves n (c ∷ s) h = omega (arith, h)

with_byte-Leaves : (n c : ℕ) (r : Read Bytes) → Leaves n r → Leaves n (with_byte c r)
with_byte-Leaves n c (ok (w, s)) h = h
with_byte-Leaves n c (err e) h = h

within-Leaves : (m n : ℕ) (s : Bytes) → length s ≤ n → Leaves n (read_within m s)
unfolding read_within
within-Leaves zero n s h = refl
within-Leaves (suc m) n [] h = refl
within-Leaves (suc m) n (c ∷ s) h =
    Leaves-if n (c == 0) (ok ([], s)) _ (omega (arith, h))
      (with_byte-Leaves n c (read_within m s) (within-Leaves m n s (omega (arith, h))))

string-Leaves : (n : ℕ) (s : Bytes) → length s ≤ n → Leaves n (read_string s)
unfolding read_string
string-Leaves n s h = within-Leaves buffer_size n s h

int32-Leaves : (n : ℕ) (s : Bytes) → length s ≤ n → Leaves n (read_int32 s)
unfolding read_int32
int32-Leaves n [] h = refl
int32-Leaves n (a ∷ []) h = refl
int32-Leaves n (a ∷ b ∷ []) h = refl
int32-Leaves n (a ∷ b ∷ c ∷ []) h = refl
int32-Leaves n (a ∷ b ∷ c ∷ d ∷ s) h = omega (arith, h)

length-drop : (k : ℕ) (s : Bytes) → length (drop k s) ≤ length s
length-drop zero s = omega arith
length-drop (suc k) [] = omega arith
length-drop (suc k) (c ∷ s) = omega (arith, length-drop k s)

discard-Leaves : (n : ℕ) (l : ℤ) (s : Bytes) → length s ≤ n → Leaves n (discard l s)
unfolding discard read_temp
discard-Leaves n (pos k) s h =
    Leaves-if n (leb k (length s)) (ok (take k s, drop k s)) (err eof)
      (omega (arith, h, length-drop k s)) refl
discard-Leaves n (negsuc k) s h = refl

type-Leaves : (n : ℕ) (s : Bytes) → length s ≤ suc n → Leaves n (read_message_type s)
unfolding read_message_type
type-Leaves n s h =
    Leaves-bind n n (read_byte s) _ (byte-Leaves n s h)
      (λ c s1 h1. Leaves-bind n n (read_int32 s1) _ (int32-Leaves n s1 h1) (λ l s2 h2. h2))

with_field-Leaves :
    (n c : ℕ) (w : Bytes) (r : Read Fields) → Leaves n r → Leaves n (with_field c w r)
with_field-Leaves n c w (ok (fs, s)) h = h
with_field-Leaves n c w (err e) h = h

error-Leaves :
    (fuel n : ℕ) (s : Bytes) → length s < fuel → length s ≤ n → Leaves n (error_loop fuel s)
unfolding error_loop error_round
error-Leaves zero n s h g = absurd (omega (arith, h))
error-Leaves (suc fuel) n [] h g = refl
error-Leaves (suc fuel) n (c ∷ s) h g =
    Leaves-bind {A = ℕ} {B = Fields} (length s) n (read_byte (c ∷ s))
      (λ (d, s1).
        if d == 0
        then ok ([], s1)
        else (read_string s1 >>= λ (w, s2). with_field d w (error_loop fuel s2)))
      (byte-Leaves (length s) (c ∷ s) (omega arith))
      (λ d s1 h1.
        Leaves-if {A = Fields} n (d == 0) (ok ([], s1))
          (read_string s1 >>= λ (w, s2). with_field d w (error_loop fuel s2)) (omega (arith, g, h1))
          (Leaves-bind {A = Bytes} {B = Fields} (length s1) n (read_string s1)
            (λ (w, s2). with_field d w (error_loop fuel s2))
            (string-Leaves (length s1) s1 (omega arith))
            (λ w s2 h2.
              with_field-Leaves n d w (error_loop fuel s2)
                (error-Leaves fuel n s2 (omega (arith, h, h1, h2)) (omega (arith, g, h1, h2))))))

read_error-Leaves : (n : ℕ) (s : Bytes) → length s ≤ n → Leaves n (read_error s)
unfolding read_error
read_error-Leaves n s h = error-Leaves (suc (length s)) n s (omega arith) h

-- A loop that goes on from at most `n` bytes.
abbrev GoesOn : ℕ → Rounds → Type 0
GoesOn n rec = (o : Outcome) (s : Bytes) → length s ≤ n → Leaves n (rec o s)

tag-Leaves :
    (n : ℕ) (e : Option ReplyError) (o : Option Bytes) (s : Bytes) (rec : Rounds)
    → GoesOn n rec
    → length s ≤ n
    → Leaves n (tag_rows o >>= λ r. rec (some r, e) s)
tag-Leaves n e none s rec hr h = hr (some (pos 0), e) s h
tag-Leaves n e (some []) s rec hr h = refl
tag-Leaves n e (some (c ∷ w)) s rec hr h =
    hr (some (to_int64 (parse_uint (all_but_last (c ∷ w)))), e) s h

result-Leaves :
    (n : ℕ) (e : Option ReplyError) (w s : Bytes) (rec : Rounds)
    → GoesOn n rec
    → length s ≤ n
    → Leaves n (parse_result w >>= λ r. rec (some r, e) s)
unfolding parse_result
result-Leaves n e w s rec hr h = tag-Leaves n e (behind_space w) s rec hr h

module _ (k : Kind) where
  complete-Leaves :
      (rec : Rounds) (n : ℕ) (o : Outcome) (r : Read Bytes)
      → GoesOn n rec
      → Leaves n r
      → Leaves n (read_complete k rec o r)
  unfolding read_complete
  complete-Leaves rec n o (ok (w, s)) hr h = result-Leaves n o.1 w s rec hr h
  complete-Leaves rec n o (err eof) hr h =
      Leaves-if n k.goes_on _ (err eof) (hr (o.0, some broken) [] (omega arith)) refl
  complete-Leaves rec n o (err (unexpected_message c)) hr h = refl
  complete-Leaves rec n o (err negative_length) hr h = refl
  complete-Leaves rec n o (err bad_slice) hr h = refl
  complete-Leaves rec n o (err buffer_full) hr h = refl
  complete-Leaves rec n o (err stuck) hr h = h

  round-Leaves :
      (rec : Rounds) (n : ℕ) (o : Outcome) (c : ℕ) (l : ℤ) (s : Bytes)
      → GoesOn n rec
      → length s ≤ n
      → Leaves n (reply_round k rec o ((c, l), s))
  unfolding reply_round
  round-Leaves rec n o c l s hr h =
      Leaves-if {A = Outcome} n (c == b'E') _ _
        (Leaves-bind n n (read_error s) _ (read_error-Leaves n s h) (λ fs s1 h1. hr _ s1 h1))
        (Leaves-if {A = Outcome} n (c == b'I') _ _ (hr _ s h) (
          Leaves-if {A = Outcome} n (c == b'C') _ _
            (complete-Leaves rec n o (discard l s) hr (discard-Leaves n l s h))
            (Leaves-if {A = Outcome} n (k.skips c) _ _
              (Leaves-bind n n (discard l s) _ (discard-Leaves n l s h) (λ w s1 h1. hr _ s1 h1))
              (Leaves-if {A = Outcome} n (c == b'Z') _ _
                (Leaves-bind n n (discard l s) _ (discard-Leaves n l s h) (λ w s1 h1. h1)) refl))))

  loop-Leaves :
      (fuel n : ℕ) (o : Outcome) (s : Bytes)
      → length s < fuel
      → length s ≤ n
      → Leaves n (reply_loop k fuel o s)
  unfolding reply_loop read_message_type read_byte
  loop-Leaves zero n o s h g = absurd (omega (arith, h))
  loop-Leaves (suc fuel) n o [] h g = refl
  loop-Leaves (suc fuel) n o (c ∷ s) h g =
      Leaves-bind {A = ℕ × ℤ} {B = Outcome} (length s) n (read_message_type (c ∷ s))
        (λ m. reply_round k (reply_loop k fuel) o m) (type-Leaves (length s) (c ∷ s) (omega arith))
        (λ (d, l) s1 h1.
          Leaves-mono (length s1) n (reply_round k (reply_loop k fuel) o ((d, l), s1))
            (omega (arith, g, h1))
            (round-Leaves (reply_loop k fuel) (length s1) o d l s1
              (λ o' s2 h2. loop-Leaves fuel (length s1) o' s2 (omega (arith, h, h1, h2)) h2)
              (omega arith)))

not_stuck : {A : Type 0} (n : ℕ) (r : Read A) → Leaves n r → r ≢ err stuck
not_stuck n (ok a) h e = ground (arith, e)
not_stuck n (err x) h e = ground (arith, e, h)

-- readError, readQuery and readExtQuery are done within their fuel, one round more than there are
-- bytes, for every stream, well-formed or not.
pub read_loops-ne-stuck :
    (s : Bytes)
    → (read_error s ≢ err stuck) × (read_query s ≢ err stuck) × (read_ext_query s ≢ err stuck)
unfolding read_query read_ext_query
read_loops-ne-stuck s = (
  not_stuck (length s) (read_error s) (read_error-Leaves (length s) s (omega arith)),
  not_stuck (length s) (reply_loop query_kind (suc (length s)) (none, none) s) (
      loop-Leaves query_kind (suc (length s)) (length s) (none, none) s (omega arith)
        (omega arith)),
  not_stuck (length s) (reply_loop ext_kind (suc (length s)) (none, none) s)
      (loop-Leaves ext_kind (suc (length s)) (length s) (none, none) s (omega arith) (omega arith)),
)
