-- ===== src/Literal.antt =====
-- How a database reads a standard string literal: the independent description that the writers of
-- literals are measured by. Two apostrophes in a literal are one of its text; any other byte is
-- itself; an apostrophe ends it. `keep` and `clean` say what a Go string is written as.
use shilohcommunityenterpris.Common.{
  ℕ, Bool, true, false, List, [], ◌∷◌, ◌++◌, append-nil, append_assoc, Option, none, some, ◌≡◌, ◌≢◌,
  refl, arith, ◌==◌, ◌≤◌, if◌then◌else◌, Bytes, All,
}
use shilohcommunityenterpris.Common.Utf8.{runes, encode_runes, IsUtf8}

-- The text of a literal and what follows it; the flag says that the last byte was an apostrophe.
read_in : Bool → Bytes → Bytes → Option (Bytes × Bytes)
read_in false out [] = none
read_in true out [] = some (out, [])
read_in false out (c ∷ s) =
    let quote = read_in true out s in
    let byte = read_in false (out ++ c ∷ []) s in if c == b'\'' then quote else byte
read_in true out (c ∷ s) =
    let doubled = read_in false (out ++ c ∷ []) s in
    if c == b'\'' then doubled else some (out, c ∷ s)

unfoldable pub read_literal : Bytes → Option (Bytes × Bytes)
unfolding read_in
read_literal [] = none
read_literal (c ∷ s) = if c == b'\'' then read_in false [] s else none

-- A text with its apostrophes doubled.
unfoldable pub double : Bytes → Bytes
double [] = []
double (c ∷ s) = if c == b'\'' then b'\'' ∷ b'\'' ∷ double s else c ∷ double s

-- What follows a literal must not begin with an apostrophe.
abbrev pub Follows : Bytes → Type 0
Follows [] = Unit
Follows (c ∷ s) = c ≢ b'\''

read_in_end : (out rest : Bytes) → Follows rest → read_in true out rest ≡ some (out, rest)
unfolding read_in
read_in_end out [] h = refl
read_in_end out (c ∷ s) h = ground arith

read_in-double :
    (s out rest : Bytes)
    → Follows rest
    → read_in false out (double s ++ b'\'' ∷ rest) ≡ some (out ++ s, rest)
unfolding read_in double
read_in-double [] out rest h = rw append-nil (read_in_end out rest h)
read_in-double (c ∷ s) out rest h =
    ground (arith, read_in-double s (out ++ c ∷ []) rest h, append_assoc out (c ∷ []) s)

-- A text between apostrophes, its own doubled, is read back whole.
pub read_literal-double :
    (s rest : Bytes)
    → Follows rest
    → read_literal (b'\'' ∷ (double s ++ b'\'' ∷ rest)) ≡ some (s, rest)
unfolding read_literal
read_literal-double s rest h = read_in-double s [] rest h

pub double-append : (s t : Bytes) → double (s ++ t) ≡ double s ++ double t
unfolding double
double-append [] t = refl
double-append (c ∷ s) t = ground (arith, double-append s t)

pub double_high : (s : Bytes) → All (λ c. 0x80 ≤ c) s → double s ≡ s
unfolding double
double_high [] h = refl
double_high (c ∷ s) h = ground (arith, double_high s h.1)

-- The runes that are written: all but NUL.
unfoldable pub keep : List ℕ → List ℕ
keep [] = []
keep (r ∷ rs) = if r == 0 then keep rs else r ∷ keep rs

-- A string without its NULs, its invalid bytes replaced by `utf8.RuneError`.
abbrev pub clean : Bytes → Bytes
clean s = encode_runes (keep (runes s))

-- A Go string that is written as it is.
pub record IsClean (s : Bytes) : Type 0 where
  pub utf8 : IsUtf8 s
  pub no_nul : keep (runes s) ≡ runes s

pub clean-IsClean : (s : Bytes) → IsClean s → clean s ≡ s
clean-IsClean s h = rw h.no_nul h.utf8
