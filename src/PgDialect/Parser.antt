-- ===== src/PgDialect/Parser.antt =====
-- dialect/pgdialect/stream_parser.go, array_parser.go, hstore_parser.go and the loops of
-- array_scan.go and hstore_scan.go that call them.
use shilohcommunityenterpris.Common.{
  ℕ, ◌%◌, Bool, true, false, not, ◌&&◌, ◌||◌, [], ◌∷◌, ◌++◌, Option, none, some, ◌==◌,
  if◌then◌else◌, Bytes, bytes_eq, codes, length,
}
use shilohcommunityenterpris.Common.Hex.{hex_decode}
use shilohcommunityenterpris.Common.Result.{Result, ok, err, ◌>>=◌}

-- `io.EOF`, "got %q, wanted %q", "can't parse", and the error of `hex.Decode`
pub data Error : Type 0 where
  eof : Error
  unexpected : ℕ → ℕ → Error
  malformed : Bytes → Error
  bad_hex : Error

-- `readByte`: the byte and what is left to read
unfoldable pub read_byte : Bytes → Result Error (ℕ × Bytes)
read_byte [] = err eof
read_byte (c ∷ s) = ok (c, s)

-- `skipByte`; `unreadByte` leaves the byte in place on an error
unfoldable pub skip_byte : ℕ → Bytes → Result Error Bytes
skip_byte skip [] = err eof
skip_byte skip (c ∷ s) = if c == skip then ok s else err (unexpected c skip)

-- `if p.peek() == c { p.skipNext() }`; at the end `peek` is 0
unfoldable pub skip_if : ℕ → Bytes → Bytes
skip_if c [] = []
skip_if c (x ∷ s) = if x == c then s else x ∷ s

-- The loop of both `readSubstring`s: `c` (`none` where it is about to be read), `p.buf`, and the
-- unread bytes. The flag is set in the array parser, which also reads two apostrophes as one.
unfoldable pub substring_loop : Bool → Option ℕ → Bytes → Bytes → Result Error (Bytes × Bytes)
substring_loop pairs none buf [] = err eof
substring_loop pairs none buf (c ∷ s) = substring_loop pairs (some c) buf s
substring_loop pairs (some c) buf [] = if c == b'"' then ok (buf, []) else err eof
substring_loop pairs (some c) buf (next ∷ s) =
    let escaped = substring_loop pairs none (buf ++ next ∷ []) s in
    let kept = substring_loop pairs (some next) (buf ++ b'\\' ∷ []) s in
    let plain = substring_loop pairs (some next) (buf ++ c ∷ []) s in
    if c == b'"'
    then ok (buf, next ∷ s)
    else if c == b'\\'
    then if next == b'\\' || next == b'"' then escaped else kept
    else if pairs && c == b'\'' && next == b'\''
    then escaped
    else plain

-- `bytes.HasPrefix(p.buf, []byte("\\x")) && len(p.buf)%2 == 0`
abbrev pub has_hex_prefix : Bytes → Bool
has_hex_prefix (a ∷ b ∷ s) = a == b'\\' && b == b'x' && length s % 2 == 0
has_hex_prefix _ = false

-- `hex.Decode` of `p.buf[2:]`
hex_data : Bytes → Result Error Bytes
hex_data (a ∷ b ∷ s) = elim (hex_decode s) [ some t ↦ ok t | none ↦ err bad_hex ]
hex_data _ = err bad_hex

unfoldable pub hex_or_text : Bytes → Result Error Bytes
unfolding hex_data
hex_or_text buf = if has_hex_prefix buf then hex_data buf else ok buf

abbrev pub is_empty : Bytes → Bool
is_empty [] = true
is_empty (c ∷ s) = false

-- `(*arrayParser).readSubstring`. `grown` says that `p.buf` has been appended to; until then an
-- empty result is `nil`, which is `none`.
unfoldable pub array_substring : Bool → Bytes → Result Error (Option Bytes × Bytes × Bool)
unfolding substring_loop hex_or_text
array_substring grown s = do
  (buf, rest) ← substring_loop true none [] s
  b ← hex_or_text buf
  let grown' = grown || not (is_empty buf)
  ok ((if grown' then some b else none), rest, grown')

abbrev pub cons_cut : ℕ → Option (Bytes × Bytes) → Option (Bytes × Bytes)
cons_cut c none = none
cons_cut c (some (b, r)) = some (c ∷ b, r)

-- The bytes before the first comma, and those from it on; `none` without a comma.
unfoldable pub cut_comma : Bytes → Option (Bytes × Bytes)
cut_comma [] = none
cut_comma (c ∷ s) = if c == b',' then some ([], c ∷ s) else cons_cut c (cut_comma s)

-- All bytes but the last, and the last.
unfoldable pub cut_last : Bytes → Bytes × Bytes
cut_last [] = ([], [])
cut_last (c ∷ []) = ([], c ∷ [])
cut_last (c ∷ d ∷ s) = let (b, r) = cut_last (d ∷ s) in (c ∷ b, r)

abbrev pub cut_or : Bytes → Option (Bytes × Bytes) → Bytes × Bytes
cut_or s none = cut_last s
cut_or s (some r) = r

-- `(*arrayParser).readSimple`, behind its `unreadByte`
unfoldable pub array_simple : Bytes → Bytes × Bytes
unfolding cut_comma cut_last
array_simple s = cut_or s (cut_comma s)

pub record ArrayParser : Type 0 where
  pub unread : Bytes
  pub grown : Bool
  pub failure : Option Error

unfoldable pub last_is : ℕ → Bytes → Bool
last_is x [] = false
last_is x (c ∷ []) = c == x
last_is x (c ∷ d ∷ s) = last_is x (d ∷ s)

-- `len(b) < 2 || b[0] != '{' || b[len(b)-1] != '}'` sets the error; the parser starts at 1
unfoldable pub new_array_parser : Bytes → ArrayParser
unfolding last_is
new_array_parser [] = record { unread = []; grown = false; failure = some (malformed []) }
new_array_parser (c ∷ s) = record {
  unread = s;
  grown = false;
  failure = if not (c == b'{') || not (last_is b'}' s) then some (malformed (c ∷ s)) else none;
}

-- a `nil` element is `none`
unfoldable pub array_elem : Bytes → Option Bytes
array_elem b = if bytes_eq b (codes "NULL") then none else some b

unfoldable pub next_in : Bool → Bytes → Result Error (Option Bytes × Bytes × Bool)
unfolding array_elem array_simple array_substring skip_if
next_in grown [] = err eof
next_in grown (c ∷ s) =
    if c == b'}'
    then err eof
    else if c == b'"'
    then array_substring grown s >>= (λ r. ok (r.0, skip_if b',' r.1, r.2))
    else (let r = array_simple (c ∷ s) in ok (array_elem r.0, skip_if b',' r.1, grown))

-- `(*arrayParser).NextElem`
unfoldable pub next_elem : ArrayParser → Result Error (Option Bytes × ArrayParser)
unfolding next_in
next_elem p = elim p.failure [
  | some e ↦ err e
  | none ↦ next_in p.grown p.unread >>= (λ r. ok (r.0, record p { unread = r.1; grown = r.2 }))
]
