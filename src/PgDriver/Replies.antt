-- ===== src/PgDriver/Replies.antt =====
-- driver/pgdriver/proto.go: the loops that read the replies to a query.
pub mod Tags
pub mod Reading
pub mod Progress
use shilohcommunityenterpris.Common.{
  ℕ, zero, suc, ◌+◌, ◌-◌, ◌^◌, Bool, true, false, ◌&&◌, ◌||◌, List, [], ◌∷◌, ◌++◌, Option, none,
  some, if◌then◌else◌, ◌==◌, leb, Bytes, codes, length,
}
use shilohcommunityenterpris.Common.Decimal.{ℤ, pos, negsuc, is_num, value}
use shilohcommunityenterpris.Common.Result.{Result, ok, err, ◌>>=◌}
use shilohcommunityenterpris.PgDriver.Wire.{
  ReadError, eof, unexpected_message, negative_length, stuck, bad_slice, Read, read_byte,
  read_string, discard, read_message_type,
}

-- The fields of an `Error`, in order; of two with one key the last counts.
abbrev pub Fields : Type 0
Fields = List (ℕ × Bytes)

abbrev pub with_field : ℕ → Bytes → Read Fields → Read Fields
with_field c w (ok (fs, s)) = ok ((c, w) ∷ fs, s)
with_field c w (err e) = err e

-- One round of `readError`, which goes on by `rec`.
unfoldable pub error_round : (Bytes → Read Fields) → Bytes → Read Fields
unfolding read_byte read_string
error_round rec s = read_byte s >>= λ (c, s1).
    (if c == 0 then ok ([], s1) else (read_string s1 >>= λ (w, s2). with_field c w (rec s2)))

unfoldable pub error_loop : ℕ → Bytes → Read Fields
unfolding error_round
error_loop zero s = err stuck
error_loop (suc fuel) s = error_round (error_loop fuel) s

-- `readError`: each round reads at least one byte
unfoldable pub read_error : Bytes → Read Fields
unfolding error_loop
read_error s = error_loop (suc (length s)) s

-- The text behind the last space.
unfoldable pub behind_space : Bytes → Option Bytes
behind_space [] = none
behind_space (c ∷ s) =
    let rest = behind_space s in
    elim rest [ some w ↦ some w | none ↦ if c == b' ' then some s else none ]

abbrev pub digits_only : Bytes → Bool
digits_only [] = true
digits_only (c ∷ s) = is_num c && digits_only s

-- `strconv.ParseUint(s, 10, 64)`, where an error counts as 0.
abbrev pub parse_uint : Bytes → ℕ
parse_uint [] = 0
parse_uint (c ∷ s) =
    if digits_only (c ∷ s) && leb (value 0 (c ∷ s)) (2 ^ 64 - 1) then value 0 (c ∷ s) else 0

abbrev pub all_but_last : Bytes → Bytes
all_but_last [] = []
all_but_last (c ∷ []) = []
all_but_last (c ∷ d ∷ s) = c ∷ all_but_last (d ∷ s)

-- A `uint64` as an `int64`.
abbrev pub to_int64 : ℕ → ℤ
to_int64 n = if leb n (2 ^ 63 - 1) then pos n else negsuc (2 ^ 64 - 1 - n)

-- The rows that the text behind the last space tells, which loses its last byte.
abbrev pub tag_rows : Option Bytes → Result ReadError ℤ
tag_rows none = ok (pos 0)
tag_rows (some []) = err bad_slice
tag_rows (some (c ∷ s)) = ok (to_int64 (parse_uint (all_but_last (c ∷ s))))

-- `parseResult`: the rows affected
unfoldable pub parse_result : Bytes → Result ReadError ℤ
unfolding behind_space
parse_result b = tag_rows (behind_space b)

pub data ReplyError : Type 0 where
  server : Fields → ReplyError
  empty_query broken : ReplyError

abbrev pub or_first : Option ReplyError → ReplyError → Option ReplyError
or_first none e = some e
or_first (some e) e' = some e

-- The result and the first error.
abbrev pub Outcome : Type 0
Outcome = Option ℤ × Option ReplyError

-- How the loops differ: the messages that are passed over, and whether the loop goes on where the
-- stream ends inside a `CommandComplete`.
pub record Kind : Type 0 where
  pub skips : ℕ → Bool
  pub goes_on : Bool

abbrev pub Rounds : Type 0
Rounds = Outcome → Bytes → Read Outcome

unfoldable pub read_complete : Kind → Rounds → Outcome → Read Bytes → Read Outcome
unfolding parse_result
read_complete k rec (res, e) (ok (w, s)) = parse_result w >>= λ r. rec (some r, e) s
read_complete k rec (res, e) (err eof) = if k.goes_on then rec (res, some broken) [] else err eof
read_complete k rec o (err x) = err x

-- One round of `readQuery` and `readExtQuery`, which goes on by `rec`.
unfoldable pub reply_round : Kind → Rounds → Outcome → (ℕ × ℤ) × Bytes → Read Outcome
unfolding read_error read_complete discard
reply_round k rec (res, e) ((c, n), s) =
    if c == b'E'
    then (read_error s >>= λ (fs, s1). rec (res, or_first e (server fs)) s1)
    else if c == b'I'
    then rec (res, or_first e empty_query) s
    else if c == b'C'
    then read_complete k rec (res, e) (discard n s)
    else if k.skips c
    then (discard n s >>= λ (w, s1). rec (res, e) s1)
    else if c == b'Z'
    then (discard n s >>= λ (w, s1). ok ((res, e), s1))
    else err (unexpected_message c)

unfoldable pub reply_loop : Kind → ℕ → Rounds
unfolding reply_round read_message_type
reply_loop k zero o s = err stuck
reply_loop k (suc fuel) o s = read_message_type s >>= λ m. reply_round k (reply_loop k fuel) o m

abbrev pub query_kind : Kind
query_kind = record {
  skips = λ c. c == b'D' || c == b'T' || c == b'N' || c == b'S';
  goes_on = true;
}

abbrev pub ext_kind : Kind
ext_kind = record { skips = λ c. c == b'2' || c == b'D' || c == b'N' || c == b'S'; goes_on = false }

-- `readQuery` and `readExtQuery`: each round reads at least five bytes
unfoldable pub read_query : Bytes → Read Outcome
unfolding reply_loop
read_query s = reply_loop query_kind (suc (length s)) (none, none) s

unfoldable pub read_ext_query : Bytes → Read Outcome
unfolding reply_loop
read_ext_query s = reply_loop ext_kind (suc (length s)) (none, none) s
