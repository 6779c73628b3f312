-- ===== src/PgDriver/Wire/Framing.antt =====
-- The messages that a write buffer holds, as a reader of the protocol takes them apart.
use shilohcommunityenterpris.Common.{
  ℕ, suc, ◌+◌, ◌-◌, ◌*◌, ◌/◌, ◌%◌, ◌^◌, ◌<◌, true, [], ◌∷◌, ◌++◌, append_assoc, if◌then◌else◌, leb,
  Bytes, length, length-append, take, drop, ◌≡◌, refl, sym, ap, ◌∙◌, arith, lt→ltb,
}
use shilohcommunityenterpris.Common.Decimal.{pos, negsuc}
use shilohcommunityenterpris.Common.Result.{ok, ◌>>=◌}
use shilohcommunityenterpris.PgDriver.Wire.{
  WriteBuffer, be32, put_uint32, hole, finish_message, signed32, minus_four, read_byte, read_temp,
  read_int32, read_message_type,
}

take-append : (u v : Bytes) → take (length u) (u ++ v) ≡ u
take-append [] v = refl
take-append (c ∷ u) v = ap (λ w. c ∷ w) (take-append u v)

drop-append : (u v : Bytes) → drop (length u) (u ++ v) ≡ v
drop-append [] v = refl
drop-append (c ∷ u) v = drop-append u v

drop-behind : (u v : Bytes) → drop (length u + 4) (u ++ (hole ++ v)) ≡ v
drop-behind [] v = refl
drop-behind (c ∷ u) v =
    let e : length (c ∷ u) + 4 ≡ suc (length u + 4) = omega arith in
    ap (λ n. drop n (c ∷ (u ++ (hole ++ v)))) e ∙ drop-behind u v

pub put-hole :
    (u v : Bytes) (n : ℕ) → put_uint32 (length u) n (u ++ (hole ++ v)) ≡ u ++ (be32 n ++ v)
unfolding put_uint32
put-hole u v n =
    ap (λ w. w ++ (be32 n ++ drop (length u + 4) (u ++ (hole ++ v)))) (take-append u (hole ++ v))
    ∙ ap (λ w. u ++ (be32 n ++ w)) (drop-behind u v)

-- A message: its type, its length with the four bytes of the length, and what it holds.
unfoldable pub message : ℕ → Bytes → Bytes
unfolding be32
message c p = c ∷ (be32 (length p + 4) ++ p)

-- What `FinishMessage` leaves of a message that `StartMessage` has begun and `p` was written to.
pub finish-message :
    (w v : WriteBuffer) (c : ℕ) (p : Bytes)
    → v.msg_start ≡ length w.bytes + 1
    → v.bytes ≡ (w.bytes ++ c ∷ hole) ++ p
    → (finish_message v).bytes ≡ w.bytes ++ message c p
unfolding finish_message message
finish-message w v c p h g =
    let u = w.bytes ++ c ∷ [] in
    let x = u ++ (hole ++ p) in
    let lu : v.msg_start ≡ length u = h ∙ sym (length-append w.bytes (c ∷ []) ∙ refl) in
    let e : v.bytes ≡ x = g ∙ simp append_assoc in
    ap (λ b. put_uint32 v.msg_start (length b - v.msg_start) b) e
    ∙ ap (λ n. put_uint32 n (length x - n) x) lu
    ∙ put-hole u p (length x - length u)
    ∙ ap (λ n. u ++ (be32 n ++ p)) (omega (arith, length-append u (hole ++ p)))
    ∙ append_assoc w.bytes (c ∷ []) (be32 (length p + 4) ++ p)

signed-be32 :
    (n : ℕ)
    → n < 2 ^ 31
    → signed32 (
        ((((n / 2 ^ 24) % 2 ^ 8 * 256 + (n / 2 ^ 16) % 2 ^ 8) * 256 + (n / 2 ^ 8) % 2 ^ 8) * 256)
        + n % 2 ^ 8)
      ≡ pos n
signed-be32 n h =
    let e : ((((n / 2 ^ 24) % 2 ^ 8 * 256 + (n / 2 ^ 16) % 2 ^ 8) * 256 + (n / 2 ^ 8) % 2 ^ 8)
            * 256)
          + n % 2 ^ 8
        ≡ n =
      omega arith in
    ap signed32 e ∙ ap (λ c. if c then pos n else negsuc (2 ^ 32 - 1 - n)) (lt→ltb n (2 ^ 31) h)

pub read_int32-be32 : (n : ℕ) (s : Bytes) → n < 2 ^ 31 → read_int32 (be32 n ++ s) ≡ ok (pos n, s)
unfolding read_int32 be32
read_int32-be32 n s h = ap (λ x. ok (x, s)) (signed-be32 n h)

four : (n : ℕ) → minus_four (pos (n + 4)) ≡ pos n
four n = ground arith

pub read_message_type-message :
    (c : ℕ) (p s : Bytes)
    → length p + 4 < 2 ^ 31
    → read_message_type (message c p ++ s) ≡ ok ((c, pos (length p)), p ++ s)
unfolding read_message_type message read_byte
read_message_type-message c p s h =
    ap (λ w. read_int32 w >>= λ (l, s2). ok ((c, minus_four l), s2))
      (append_assoc (be32 (length p + 4)) p s)
    ∙ ap (λ r. r >>= λ (l, s2). ok ((c, minus_four l), s2))
        (read_int32-be32 (length p + 4) (p ++ s) h)
    ∙ ap (λ l. ok ((c, l), p ++ s)) (four (length p))

pub read_temp-append : (p s : Bytes) → read_temp (length p) (p ++ s) ≡ ok (p, s)
unfolding read_temp
read_temp-append p s =
    let e : leb (length p) (length (p ++ s)) ≡ true = ground (arith, length-append p s) in
    rw (e, take-append p s, drop-append p s) refl
