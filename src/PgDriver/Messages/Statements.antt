-- ===== src/PgDriver/Messages/Statements.antt =====
-- The messages of queries and statements, taken apart again.
use shilohcommunityenterpris.Common.{
  ℕ, ◌+◌, ◌^◌, ◌<◌, false, List, [], ◌∷◌, ◌++◌, append-nil, append_assoc, Option, ◌==◌, Bytes,
  length, All, ◌≡◌, refl, sym, ap, ◌∙◌, arith,
}
use shilohcommunityenterpris.Common.Result.{ok}
use shilohcommunityenterpris.PgDriver.Wire.{
  WriteBuffer, be16, be32, empty_buffer, write_int16, write_int32, write_string, write_byte,
}
use shilohcommunityenterpris.PgDriver.Wire.Framing.{message}
use shilohcommunityenterpris.PgDriver.Messages.{
  write_message, write_sync, write_parse_describe_sync, write_params, bind_execute,
}
use shilohcommunityenterpris.PgDriver.Messages.RoundTrip.{
  frames, frames-message, Appends, message-bytes, nothing-Appends, params-bytes, params-start,
}
use shilohcommunityenterpris.PgDriver.Messages.Bind.{
  bind_text, IsShortParam, IsName, read_bind, read_bind-text,
}

-- Whether a message's length fits the 31 bits that a reader takes.
abbrev pub IsShort : Bytes → Type 0
IsShort p = length p + 4 < 2 ^ 31

-- Three messages behind one another.
three :
    (c d : ℕ) (f g : WriteBuffer → WriteBuffer) (p q : Bytes)
    → (c == 0) ≡ false
    → (d == 0) ≡ false
    → Appends f p
    → Appends g q
    → (write_sync (write_message d g (write_message c f empty_buffer))).bytes
      ≡ message c p ++ (message d q ++ message b'S' [])
unfolding write_message
three c d f g p q hc hd hf hg =
    let w1 = write_message c f empty_buffer in
    let w2 = write_message d g w1 in
    message-bytes b'S' (λ b. b) [] w2 refl nothing-Appends
    ∙ ap (λ x. x ++ message b'S' [])
        (message-bytes d g q w1 hd hg
          ∙ ap (λ x. x ++ message d q) (message-bytes c f p empty_buffer hc hf))
    ∙ append_assoc (message c p) (message d q) (message b'S' [])

sync-frames : frames 1 (message b'S' []) ≡ ok ((b'S', []) ∷ [])
unfolding frames
sync-frames =
    ap (frames 1) (sym (append-nil (message b'S' [])))
    ∙ frames-message 0 b'S' [] [] [] (omega arith) refl

two_frames :
    (c d : ℕ) (p q : Bytes)
    → IsShort p
    → IsShort q
    → frames 3 (message c p ++ (message d q ++ message b'S' []))
      ≡ ok ((c, p) ∷ (d, q) ∷ (b'S', []) ∷ [])
two_frames c d p q hp hq =
    frames-message 2 c p (message d q ++ message b'S' []) ((d, q) ∷ (b'S', []) ∷ []) hp
      (frames-message 1 d q (message b'S' []) ((b'S', []) ∷ []) hq sync-frames)

abbrev pub parse_text : Bytes → Bytes → Bytes
parse_text name query = ((((name ++ 0 ∷ []) ++ query) ++ 0 ∷ [])) ++ be16 0

abbrev pub stmt_name : Bytes → Bytes
stmt_name name = (b'S' ∷ [] ++ name) ++ 0 ∷ []

parse-Appends :
    (name query : Bytes)
    → Appends
        (λ b. write_int16 0 (write_string query (write_string name b)))
        (parse_text name query)
unfolding write_int16 write_string
parse-Appends name query = record { bytes = λ b. simp append_assoc; msg_start = λ b. refl }

name-Appends :
    (name : Bytes) → Appends (λ b. write_string name (write_byte b'S' b)) (stmt_name name)
unfolding write_string write_byte
name-Appends name = record { bytes = λ b. simp append_assoc; msg_start = λ b. refl }

-- Parse, Describe and Sync of a prepared statement are three messages, which a reader that goes by
-- their types and lengths takes apart as they were written; each is shorter than 2^31 bytes.
pub write_parse_describe_sync-frames :
    (name query : Bytes)
    → IsShort (parse_text name query)
    → IsShort (stmt_name name)
    → frames 3 (write_parse_describe_sync name query).bytes
      ≡ ok ((b'P', parse_text name query) ∷ (b'D', stmt_name name) ∷ (b'S', []) ∷ [])
unfolding write_parse_describe_sync
write_parse_describe_sync-frames name query hp hd =
    ap (frames 3) (
      three b'P' b'D' _ _ (parse_text name query) (stmt_name name) refl refl
        (parse-Appends name query) (name-Appends name))
    ∙ two_frames b'P' b'D' (parse_text name query) (stmt_name name) hp hd

abbrev pub execute_text : Bytes
execute_text = 0 ∷ [] ++ be32 0

bind-Appends :
    (name : Bytes) (vs : List (Option Bytes))
    → Appends
        (λ b. write_int16 0 (
          write_params vs
            (write_int16 (length vs) (write_int16 0 (write_string name (write_string [] b))))))
        (bind_text name vs)
unfolding write_int16 write_string
bind-Appends name vs = record {
  bytes = λ b.
      ap (λ w. w ++ be16 0)
        (params-bytes vs
          (write_int16 (length vs) (write_int16 0 (write_string name (write_string [] b)))))
      ∙ simp append_assoc;
  msg_start = λ b.
      params-start vs
        (write_int16 (length vs) (write_int16 0 (write_string name (write_string [] b))));
}

execute-Appends : Appends (λ b. write_int32 0 (write_string [] b)) execute_text
unfolding write_int32 write_string
execute-Appends = record { bytes = λ b. simp append_assoc; msg_start = λ b. refl }

execute-IsShort : IsShort execute_text
unfolding be32
execute-IsShort = omega arith

-- Bind, Execute and Sync of a statement with parameters are three messages, which a reader that
-- goes by their types and lengths takes apart as they were written. A reader that goes by the
-- number of parameters in Bind finds there the statement's name and the parameters, NULL as NULL,
-- and no formats behind them. The message and each parameter are shorter than 2^31 bytes, there are
-- less than 2^16 parameters, and the name holds no zero.
pub bind_execute-frames :
    (name : Bytes) (vs : List (Option Bytes))
    → IsShort (bind_text name vs)
    → IsName name
    → length vs < 2 ^ 16
    → All IsShortParam vs
    → (frames 3 (bind_execute name vs).bytes
        ≡ ok ((b'B', bind_text name vs) ∷ (b'E', execute_text) ∷ (b'S', []) ∷ []))
      × (read_bind (bind_text name vs) ≡ ok ((name, vs), be16 0))
unfolding bind_execute
bind_execute-frames name vs hb hn hl hv = (
  ap (frames 3) (
        three b'B' b'E' _ _ (bind_text name vs) execute_text refl refl (bind-Appends name vs)
          execute-Appends)
      ∙ two_frames b'B' b'E' (bind_text name vs) execute_text hb execute-IsShort,
  read_bind-text name vs hn hl hv,
)
