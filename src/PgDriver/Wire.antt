-- ===== src/PgDriver/Wire.antt =====
-- driver/pgdriver/write_buffer.go, and the readers of numbers, texts and message headers in proto.go.
pub mod Framing
use shilohcommunityenterpris.Common.{
  ℕ, zero, suc, ◌+◌, ◌-◌, ◌*◌, ◌/◌, ◌%◌, ◌^◌, Bool, true, false, List, [], ◌∷◌, ◌++◌, Option, none,
  some, if◌then◌else◌, ◌==◌, ltb, leb, Bytes, length, take, drop,
}
use shilohcommunityenterpris.Common.Decimal.{ℤ, pos, negsuc}
use shilohcommunityenterpris.Common.Result.{Result, ok, err, ◌>>=◌}

-- `writeBuffer`
pub record WriteBuffer : Type 0 where
  pub bytes : Bytes
  pub msg_start : ℕ
  pub param_start : ℕ

-- `binary.BigEndian`: 16 and 32 bits of a number
unfoldable pub be16 : ℕ → Bytes
be16 n = (n / 2 ^ 8) % 2 ^ 8 ∷ n % 2 ^ 8 ∷ []

unfoldable pub be32 : ℕ → Bytes
be32 n = (n / 2 ^ 24) % 2 ^ 8 ∷ (n / 2 ^ 16) % 2 ^ 8 ∷ (n / 2 ^ 8) % 2 ^ 8 ∷ n % 2 ^ 8 ∷ []

-- `binary.BigEndian.PutUint32(b[at:], n)`, where four bytes stand at that position.
unfoldable pub put_uint32 : ℕ → ℕ → Bytes → Bytes
unfolding be32
put_uint32 at n b = take at b ++ (be32 n ++ drop (at + 4) b)

abbrev pub hole : Bytes
hole = 0 ∷ 0 ∷ 0 ∷ 0 ∷ []

-- A new buffer, and one that `Reset` has emptied.
abbrev pub empty_buffer : WriteBuffer
empty_buffer = record { bytes = []; msg_start = 0; param_start = 0 }

-- `StartMessage`: no byte for the message without a type
unfoldable pub start_message : ℕ → WriteBuffer → WriteBuffer
start_message c b =
    if c == 0
    then record b { msg_start = length b.bytes; bytes = b.bytes ++ hole }
    else record b { msg_start = length b.bytes + 1; bytes = b.bytes ++ c ∷ hole }

-- `FinishMessage`
unfoldable pub finish_message : WriteBuffer → WriteBuffer
unfolding put_uint32
finish_message b = record b {
  bytes = put_uint32 b.msg_start (length b.bytes - b.msg_start) b.bytes;
}

-- `StartParam`, `FinishParam` and `FinishNullParam`
unfoldable pub start_param : WriteBuffer → WriteBuffer
start_param b = record b { param_start = length b.bytes; bytes = b.bytes ++ hole }

unfoldable pub finish_param : WriteBuffer → WriteBuffer
unfolding put_uint32
finish_param b = record b {
  bytes = put_uint32 b.param_start (length b.bytes - b.param_start - 4) b.bytes;
}

unfoldable pub finish_null_param : WriteBuffer → WriteBuffer
unfolding put_uint32
finish_null_param b = record b { bytes = put_uint32 b.param_start (2 ^ 32 - 1) b.bytes }

-- `Write`, `WriteInt16`, `WriteInt32` of numbers that are not negative, `WriteString` and `WriteByte`
unfoldable pub write : Bytes → WriteBuffer → WriteBuffer
write s b = record b { bytes = b.bytes ++ s }

unfoldable pub write_int16 : ℕ → WriteBuffer → WriteBuffer
unfolding be16
write_int16 n b = record b { bytes = b.bytes ++ be16 n }

unfoldable pub write_int32 : ℕ → WriteBuffer → WriteBuffer
unfolding be32
write_int32 n b = record b { bytes = b.bytes ++ be32 n }

unfoldable pub write_string : Bytes → WriteBuffer → WriteBuffer
write_string s b = record b { bytes = (b.bytes ++ s) ++ 0 ∷ [] }

unfoldable pub write_byte : ℕ → WriteBuffer → WriteBuffer
write_byte c b = record b { bytes = b.bytes ++ c ∷ [] }

-- The errors of reading: the end of the stream, a message that is not expected here, and the panic
-- on a negative length and on a slice out of bounds; `bufio.ErrBufferFull`; `stuck` says that a loop ran out of fuel.
pub data ReadError : Type 0 where
  eof : ReadError
  unexpected_message : ℕ → ReadError
  negative_length stuck bad_slice buffer_full : ReadError

-- What is read, and the bytes left.
abbrev pub Read : Type 0 → Type 0
Read A = Result ReadError (A × Bytes)

-- `ReadByte`
unfoldable pub read_byte : Bytes → Read ℕ
read_byte [] = err eof
read_byte (c ∷ s) = ok (c, s)

-- `ReadTemp` on a length that is not negative
unfoldable pub read_temp : ℕ → Bytes → Read Bytes
read_temp n s = if leb n (length s) then ok (take n s, drop n s) else err eof

-- `Discard`, through `ReadTemp`
unfoldable pub discard : ℤ → Bytes → Read Bytes
unfolding read_temp
discard (pos n) s = read_temp n s
discard (negsuc n) s = err negative_length

abbrev pub signed32 : ℕ → ℤ
signed32 n = if ltb n (2 ^ 31) then pos n else negsuc (2 ^ 32 - 1 - n)

-- `readInt32`
unfoldable pub read_int32 : Bytes → Read ℤ
read_int32 (a ∷ b ∷ c ∷ d ∷ s) = ok (signed32 (((a * 256 + b) * 256 + c) * 256 + d), s)
read_int32 _ = err eof

-- `int(l) - 4`
abbrev pub minus_four : ℤ → ℤ
minus_four (pos n) = if ltb n 4 then negsuc (3 - n) else pos (n - 4)
minus_four (negsuc n) = negsuc (n + 4)

-- `readMessageType`: the type and the length of what follows
unfoldable pub read_message_type : Bytes → Read (ℕ × ℤ)
unfolding read_byte read_int32
read_message_type s =
    read_byte s >>= λ (c, s1). read_int32 s1 >>= λ (l, s2). ok ((c, minus_four l), s2)

abbrev pub with_byte : ℕ → Read Bytes → Read Bytes
with_byte c (ok (w, r)) = ok (c ∷ w, r)
with_byte c (err e) = err e

-- The bytes before the first zero, where it is one of the next `n` bytes.
unfoldable pub read_within : ℕ → Bytes → Read Bytes
read_within zero s = err buffer_full
read_within (suc n) [] = err eof
read_within (suc n) (c ∷ s) =
    let rest = read_within n s in if c == 0 then ok ([], s) else with_byte c rest

-- The size of a `bufio.NewReader`.
abbrev pub buffer_size : ℕ
buffer_size = 4096

-- `readString`, through `ReadSlice`: the zero must be in the buffer
unfoldable pub read_string : Bytes → Read Bytes
unfolding read_within
read_string = read_within buffer_size
