-- ===== src/Schema/Literals.antt =====
-- What a reader of SQL finds in the literals that `BaseDialect` writes.
use shilohcommunityenterpris.Common.{
  bytes_eq, take, ℕ, zero, suc, ◌≤◌, ◌<◌, Bool, true, false, not, ◌&&◌, List, [], ◌∷◌, ◌++◌,
  append-nil, append_assoc, some, ◌≡◌, ◌≢◌, refl, sym, arith, ◌==◌, ltb, if◌then◌else◌, Bytes,
  codes, All, Bool-cases, inl, inr,
}
use shilohcommunityenterpris.Common.Utf8.{
  runes, encode_rune, encode_runes, encode_rune-All, encode_rune_ascii,
}
use shilohcommunityenterpris.Common.Hex.{
  hex_encode, hex_decode, hex_encode-All, hex_decode-hex_encode,
}
use shilohcommunityenterpris.Literal.{
  double, double-append, double_high, keep, clean, read_literal, read_literal-double, Follows,
}
use shilohcommunityenterpris.Schema.BaseDialect.{
  string_rune, string_runes, append_string, append_bytes,
}

string_rune-double : (r : ℕ) → r ≢ 0 → string_rune r ≡ double (encode_rune r)
unfolding string_rune double
string_rune-double r h = elim (Bool-cases (ltb r 0x80)) [
  | inl low ↦ ground (arith, encode_rune_ascii r)
  | inr high ↦ ground (arith, double_high (encode_rune r), encode_rune-All r)
]

string_rune_nul : (r : ℕ) → (r == 0) ≡ true → string_rune r ≡ []
unfolding string_rune
string_rune_nul r h = ground arith

string_runes-double :
    (b : Bytes) (rs : List ℕ) → string_runes b rs ≡ b ++ double (encode_runes (keep rs))
unfolding string_runes keep encode_runes
string_runes-double b [] = unfold double in sym (append-nil b)
string_runes-double b (r ∷ rs) = elim (Bool-cases (r == 0)) [
  | inl nul ↦
      rw (nul, string_runes-double (b ++ string_rune r) rs, string_rune_nul r nul, append-nil)
  | inr other ↦
      rw
        (
          other,
          string_runes-double (b ++ string_rune r) rs,
          string_rune-double r (ground arith),
          double-append,
        )
        (append_assoc b _ _)
]

pub append_string-double :
    (b s : Bytes) → append_string b s ≡ b ++ b'\'' ∷ (double (clean s) ++ b'\'' ∷ [])
unfolding append_string
append_string-double b s = rw (string_runes-double (b ++ b'\'' ∷ []) (runes s)) (simp append_assoc)

-- `AppendString` writes one string literal behind what is written. A reader of SQL takes it
-- whole, whatever bytes the string holds, and its text is the string without its NULs, with
-- invalid bytes replaced. What follows the literal must not begin with an apostrophe.
pub append_string-literal :
    (b s rest : Bytes)
    → Follows rest
    → (w : Bytes) × (append_string b s ≡ b ++ w) × (read_literal (w ++ rest) ≡ some (clean s, rest))
append_string-literal b s rest h = (
  b'\'' ∷ (double (clean s) ++ b'\'' ∷ []),
  append_string-double b s,
  rw append_assoc (read_literal-double (clean s) rest h),
)

-- The text `u0000` at the start, which makes an escape of NUL.
abbrev pub nul_digits : Bytes → Bool
nul_digits s = bytes_eq (take 5 s) (codes "u0000")

-- What an escape stands for: that of NUL gets a second backslash, and others stay; the number of
-- bytes behind the backslash that belong to it.
abbrev pub escape_text : Bytes → Bytes × ℕ
escape_text [] = (b'\\' ∷ [], 0)
escape_text (d ∷ s) =
    if nul_digits (d ∷ s)
    then (b'\\' ∷ b'\\' ∷ b'u' ∷ b'0' ∷ b'0' ∷ b'0' ∷ b'0' ∷ [], 5)
    else (b'\\' ∷ d ∷ [], 1)

-- The text of the JSON: NUL bytes are left out, and the escape of NUL gets a second backslash.
unfoldable pub content_byte : ℕ → Bytes → Bytes × ℕ
content_byte c s = if c == 0 then ([], 0) else if c == b'\\' then escape_text s else (c ∷ [], 0)

content_from : ℕ → Bytes → Bytes
content_from k [] = []
content_from (suc k) (c ∷ s) = content_from k s
content_from zero (c ∷ s) = (content_byte c s).0 ++ content_from (content_byte c s).1 s

unfoldable pub json_content : Bytes → Bytes
unfolding content_from content_byte
json_content = content_from 0

abbrev pub starts_with_quote : Bytes → Bool
starts_with_quote [] = false
starts_with_quote (d ∷ s) = d == b'\''

-- No escape is a backslash and an apostrophe, which JSON does not allow.
unfoldable pub safe_from : ℕ → Bytes → Bool
unfolding content_byte
safe_from k [] = true
safe_from (suc k) (c ∷ s) = safe_from k s
safe_from zero (c ∷ s) = not (c == b'\\' && starts_with_quote s) && safe_from (content_byte c s).1 s

double-All : (s : Bytes) → All (λ c. (b'0' ≤ c) × (c ≤ b'f')) s → double s ≡ s
unfolding double
double-All [] h = refl
double-All (c ∷ s) (hc, hs) = ground (arith, double-All s hs)

-- `AppendBytes` writes one string literal, which a reader of SQL takes whole and whose text is
-- `\x` and digits that stand for the bytes.
pub append_bytes-literal :
    (b bs rest : Bytes)
    → Follows rest
    → All (λ x. x < 256) bs
    → (w h : Bytes) × (append_bytes b (some bs) ≡ b ++ w)
      × (read_literal (w ++ rest) ≡ some (codes "\\x" ++ h, rest))
      × (hex_decode h ≡ some bs)
unfolding append_bytes
append_bytes-literal b bs rest f h = (
  codes "'\\x" ++ (hex_encode bs ++ b'\'' ∷ []),
  hex_encode bs,
  append_assoc b _ _,
  literal,
  hex_decode-hex_encode bs h,
)
  where
    text : Bytes
    text = codes "\\x" ++ hex_encode bs

    same : double text ≡ text
    same = unfold double in rw (double-All (hex_encode bs) (hex_encode-All bs h))

    literal :
        read_literal ((codes "'\\x" ++ (hex_encode bs ++ b'\'' ∷ [])) ++ rest) ≡ some (text, rest)
    literal =
        rw (append_assoc (hex_encode bs) (b'\'' ∷ []) rest)
          (rw same at (read_literal-double text rest f))
