-- ===== src/PgDriver/Messages/RoundTrip.antt =====
-- What a reader of the protocol finds in the messages that the driver writes.
use shilohcommunityenterpris.Common.{
  ℕ, zero, suc, ◌+◌, ◌-◌, ◌^◌, ◌<◌, false, List, [], ◌∷◌, ◌++◌, append-nil, append_assoc, Option,
  none, some, if◌then◌else◌, ◌==◌, Bytes, length, length-append, ◌≡◌, refl, sym, ap, ◌∙◌, arith,
}
use shilohcommunityenterpris.Common.Result.{Result, ok, err, ◌>>=◌}
use shilohcommunityenterpris.PgDriver.Wire.{
  WriteBuffer, be32, put_uint32, hole, start_message, start_param, finish_param, finish_null_param,
  write, ReadError, eof, discard, read_message_type,
}
use shilohcommunityenterpris.PgDriver.Wire.Framing.{
  message, finish-message, put-hole, read_message_type-message, read_temp-append,
}
use shilohcommunityenterpris.PgDriver.Messages.{write_message, write_param, write_params}

-- The messages of a text, by `readMessageType` and the length that it gives.
unfoldable pub frames : ℕ → Bytes → Result ReadError (List (ℕ × Bytes))
frames fuel [] = ok []
frames zero (c ∷ s) = err eof
frames (suc fuel) (c ∷ s) = read_message_type (c ∷ s) >>= λ ((t, n), s1).
    discard n s1 >>= λ (p, s2). frames fuel s2 >>= λ fs. ok ((t, p) ∷ fs)

pub frames-message :
    (fuel c : ℕ) (p s : Bytes) (fs : List (ℕ × Bytes))
    → length p + 4 < 2 ^ 31
    → frames fuel s ≡ ok fs
    → frames (suc fuel) (message c p ++ s) ≡ ok ((c, p) ∷ fs)
unfolding frames message discard
frames-message fuel c p s fs h g =
    ap
      (λ r.
        r >>= λ ((t, n), s1). discard n s1 >>= λ (p, s2). frames fuel s2 >>= λ fs. ok ((t, p) ∷ fs))
      (read_message_type-message c p s h)
    ∙ ap (λ r. r >>= λ (p, s2). frames fuel s2 >>= λ fs. ok ((c, p) ∷ fs)) (read_temp-append p s)
    ∙ ap (λ r. r >>= λ fs. ok ((c, p) ∷ fs)) g

-- A body that only appends to the message.
pub record Appends (body : WriteBuffer → WriteBuffer) (p : Bytes) : Type 0 where
  pub bytes : (b : WriteBuffer) → (body b).bytes ≡ b.bytes ++ p
  pub msg_start : (b : WriteBuffer) → (body b).msg_start ≡ b.msg_start

pub message-bytes :
    (c : ℕ) (body : WriteBuffer → WriteBuffer) (p : Bytes) (w : WriteBuffer)
    → (c == 0) ≡ false
    → Appends body p
    → (write_message c body w).bytes ≡ w.bytes ++ message c p
unfolding write_message start_message
message-bytes c body p w e h =
    finish-message w (body (start_message c w)) c p
      (h.msg_start (start_message c w)
        ∙ ap
            (λ x.
              (if x
                then record w { msg_start = length w.bytes; bytes = w.bytes ++ hole }
                else record w {
                  msg_start = length w.bytes + 1;
                  bytes = w.bytes ++ c ∷ hole;
                }).msg_start)
            e)
      (h.bytes (start_message c w)
        ∙ ap
            (λ x.
              (if x
                then record w { msg_start = length w.bytes; bytes = w.bytes ++ hole }
                else record w { msg_start = length w.bytes + 1; bytes = w.bytes ++ c ∷ hole }).bytes
              ++ p)
            e)

pub nothing-Appends : Appends (λ b. b) []
nothing-Appends = record { bytes = λ b. sym (append-nil b.bytes); msg_start = λ b. refl }

-- The parameters of a message as they are written.
unfoldable pub param_text : List (Option Bytes) → Bytes
unfolding be32
param_text [] = []
param_text (none ∷ vs) = be32 (2 ^ 32 - 1) ++ param_text vs
param_text (some v ∷ vs) = (be32 (length v) ++ v) ++ param_text vs

finish_param-bytes :
    (v : Bytes) (b : WriteBuffer)
    → (write_param (some v) b).bytes ≡ b.bytes ++ (be32 (length v) ++ v)
unfolding finish_param start_param write
finish_param-bytes v b =
    let x = b.bytes ++ (hole ++ v) in
    ap (λ y. put_uint32 (length b.bytes) (length y - length b.bytes - 4) y)
      (append_assoc b.bytes hole v)
    ∙ put-hole b.bytes v (length x - length b.bytes - 4)
    ∙ ap (λ n. b.bytes ++ (be32 n ++ v)) (omega (arith, length-append b.bytes (hole ++ v)))

null_param-bytes : (b : WriteBuffer) → (write_param none b).bytes ≡ b.bytes ++ be32 (2 ^ 32 - 1)
unfolding finish_null_param start_param
null_param-bytes b =
    ap (λ y. put_uint32 (length b.bytes) (2 ^ 32 - 1) (b.bytes ++ y)) (sym (append-nil hole))
    ∙ put-hole b.bytes [] (2 ^ 32 - 1)
    ∙ ap (λ y. b.bytes ++ y) (append-nil (be32 (2 ^ 32 - 1)))

pub params-bytes :
    (vs : List (Option Bytes)) (b : WriteBuffer)
    → (write_params vs b).bytes ≡ b.bytes ++ param_text vs
unfolding write_params param_text
params-bytes [] b = sym (append-nil b.bytes)
params-bytes (none ∷ vs) b =
    params-bytes vs (write_param none b)
    ∙ ap (λ w. w ++ param_text vs) (null_param-bytes b)
    ∙ append_assoc b.bytes (be32 (2 ^ 32 - 1)) (param_text vs)
params-bytes (some v ∷ vs) b =
    params-bytes vs (write_param (some v) b)
    ∙ ap (λ w. w ++ param_text vs) (finish_param-bytes v b)
    ∙ append_assoc b.bytes (be32 (length v) ++ v) (param_text vs)

pub params-start :
    (vs : List (Option Bytes)) (b : WriteBuffer) → (write_params vs b).msg_start ≡ b.msg_start
unfolding write_params finish_param finish_null_param start_param write
params-start [] b = refl
params-start (none ∷ vs) b = params-start vs (write_param none b)
params-start (some v ∷ vs) b = params-start vs (write_param (some v) b)
