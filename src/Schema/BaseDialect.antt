-- ===== src/Schema/BaseDialect.antt =====
-- schema/dialect.go: the appenders of `BaseDialect`.
use shilohcommunityenterpris.Common.{
  ℕ, zero, suc, Bool, false, ◌&&◌, List, [], ◌∷◌, ◌++◌, Option, none, some, ltb, ◌==◌,
  if◌then◌else◌, Bytes, codes,
}
use shilohcommunityenterpris.Common.Decimal.{append_uint}
use shilohcommunityenterpris.Common.Hex.{hex_encode}
use shilohcommunityenterpris.Common.Utf8.{runes, encode_rune}
use shilohcommunityenterpris.Dialect.{append_null}

append_uint32 : Bytes → ℕ → Bytes
append_uint32 = append_uint

append_uint64 : Bytes → ℕ → Bytes
append_uint64 = append_uint

-- `AppendTime`; the text is `tm.UTC().Format("2006-01-02 15:04:05.999999-07:00")`
append_time : Bytes → Bytes → Bytes
append_time b tm = ((b ++ b'\'' ∷ []) ++ tm) ++ b'\'' ∷ []

-- What one round of the loop of `AppendString` appends.
unfoldable pub string_rune : ℕ → Bytes
string_rune r =
    if r == 0
    then []
    else if r == b'\''
    then b'\'' ∷ b'\'' ∷ []
    else if ltb r 0x80
    then r ∷ []
    else encode_rune r

unfoldable pub string_runes : Bytes → List ℕ → Bytes
string_runes b [] = b
string_runes b (r ∷ rs) = string_runes (b ++ string_rune r) rs

unfoldable pub append_string : Bytes → Bytes → Bytes
unfolding string_runes string_rune
append_string b s = string_runes (b ++ b'\'' ∷ []) (runes s) ++ b'\'' ∷ []

unfoldable pub append_bytes : Bytes → Option Bytes → Bytes
append_bytes b none = append_null b
append_bytes b (some bs) = (b ++ codes "'\\x") ++ (hex_encode bs ++ b'\'' ∷ [])

-- Whether `p.SkipBytes([]byte("u0000"))` holds; it takes five bytes.
unfoldable pub nul_escape : Bytes → Bool
nul_escape (a ∷ b ∷ c ∷ d ∷ e ∷ s) = a == b'u' && b == b'0' && c == b'0' && d == b'0' && e == b'0'
nul_escape _ = false

-- `case '\\'`: what is appended, and how many bytes more are taken.
unfoldable pub json_escape : Bytes → Bytes × ℕ
json_escape [] = (b'\\' ∷ [], 0)
json_escape (d ∷ s) = if nul_escape (d ∷ s) then (codes "\\\\u0000", 5) else (b'\\' ∷ d ∷ [], 1)

-- One round of the loop of `AppendJSON`, on the byte `c` with `s` behind it.
unfoldable pub json_byte : ℕ → Bytes → Bytes × ℕ
json_byte c s =
    if c == b'\''
    then (b'\'' ∷ b'\'' ∷ [], 0)
    else if c == 0
    then ([], 0)
    else if c == b'\\'
    then json_escape s
    else (c ∷ [], 0)

-- The first argument counts the bytes that the last round has taken of those left.
unfoldable pub json_loop : ℕ → Bytes → Bytes → Bytes
json_loop k b [] = b
json_loop (suc k) b (c ∷ s) = json_loop k b s
json_loop zero b (c ∷ s) = let r = json_byte c s in json_loop r.1 (b ++ r.0) s

unfoldable pub append_json : Bytes → Bytes → Bytes
unfolding json_loop json_byte json_escape nul_escape
append_json b jsonb = json_loop 0 (b ++ b'\'' ∷ []) jsonb ++ b'\'' ∷ []
