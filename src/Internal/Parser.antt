-- ===== src/Internal/Parser.antt =====
-- internal/parser/parser.go. A `*Parser` is the bytes that it has not read yet, `p.b[p.i:]`; an
-- operation returns those that it leaves.
use shilohcommunityenterpris.Common.{
  ℕ, Bool, true, false, not, ◌&&◌, ◌||◌, [], ◌∷◌, Option, none, some, ltb, ◌==◌, within,
  if◌then◌else◌, Bytes, length, take, drop, bytes_eq,
}
use shilohcommunityenterpris.Common.Decimal.{is_num, atoi}

abbrev pub is_alpha : ℕ → Bool
is_alpha c = within b'a' b'z' c || within b'A' b'Z' c

unfoldable pub valid : Bytes → Bool
valid [] = false
valid (c ∷ s) = true

-- `Read`: 0 at the end
unfoldable pub read : Bytes → ℕ × Bytes
read [] = (0, [])
read (c ∷ s) = (c, s)

unfoldable pub peek : Bytes → ℕ
peek [] = 0
peek (c ∷ s) = c

-- `SkipBytes`: whether `skip` stood there, and what is left
unfoldable pub skip_bytes : Bytes → Bytes → Bool × Bytes
skip_bytes skip s =
    if ltb (length s) (length skip)
    then (false, s)
    else if bytes_eq (take (length skip) s) skip
    then (true, drop (length skip) s)
    else (false, s)

abbrev pub cons_before : ℕ → Option (Bytes × Bytes) → Option (Bytes × Bytes)
cons_before c none = none
cons_before c (some (b, r)) = some (c ∷ b, r)

-- The bytes before and behind the first `sep`, as `bytes.IndexByte` finds it.
unfoldable pub cut_at : ℕ → Bytes → Option (Bytes × Bytes)
cut_at sep [] = none
cut_at sep (c ∷ s) = if c == sep then some ([], s) else cons_before c (cut_at sep s)

unfoldable pub sep_or_all : Bytes → Option (Bytes × Bytes) → Bytes × Bool × Bytes
sep_or_all s none = (s, false, [])
sep_or_all s (some (b, r)) = (b, true, r)

-- `ReadSep`: the bytes before `sep`, whether it was found, and what is left
unfoldable pub read_sep : ℕ → Bytes → Bytes × Bool × Bytes
unfolding cut_at sep_or_all
read_sep sep s = sep_or_all s (cut_at sep s)

-- The loop of `ReadIdentifier`: `i > 0`, `alpha`, the bytes taken and those left.
unfoldable pub scan_word : Bool → Bool → Bytes → Bytes × Bool × Bytes
scan_word started alpha [] = ([], alpha, [])
scan_word started alpha (c ∷ s) =
    let num = scan_word true alpha s in
    let letter = scan_word true true s in
    if is_num c
    then (c ∷ num.0, num.1, num.2)
    else if is_alpha c || (started && alpha && c == b'_')
    then (c ∷ letter.0, letter.1, letter.2)
    else ([], alpha, c ∷ s)

-- Behind the loop: no byte is no name, and only digits make the name numeric.
unfoldable pub word_name : Bytes → Bytes × Bool × Bytes → Bytes × Bool × Bytes
word_name s ([], alpha, r) = ([], false, s)
word_name s (c ∷ w, alpha, r) = (c ∷ w, not alpha, r)

-- The name between parentheses at the start, and what is left.
unfoldable pub in_parens : Bytes → Option (Bytes × Bytes)
unfolding cut_at
in_parens [] = none
in_parens (c ∷ s) = if c == b'(' then cut_at b')' s else none

unfoldable pub paren_or_word : Bytes → Option (Bytes × Bytes) → Bytes × Bool × Bytes
unfolding scan_word word_name
paren_or_word s (some (name, r)) = (name, false, r)
paren_or_word s none = word_name s (scan_word false false s)

-- `ReadIdentifier`: the name, whether it is numeric, and what is left
unfoldable pub read_identifier : Bytes → Bytes × Bool × Bytes
unfolding paren_or_word in_parens
read_identifier s = paren_or_word s (in_parens s)

unfoldable pub digits_of : Bytes → Bytes × Bytes
digits_of [] = ([], [])
digits_of (c ∷ s) = if is_num c then (c ∷ (digits_of s).0, (digits_of s).1) else ([], c ∷ s)

number_of : Bytes → Bytes × Bytes → Option (ℕ × Bytes)
number_of s ([], r) = some (0, s)
number_of s (c ∷ w, r) = elim (atoi (c ∷ w)) [ none ↦ none | some n ↦ some (n, r) ]

-- `ReadNumber`; `none` is the panic on a number that is no int
unfoldable pub read_number : Bytes → Option (ℕ × Bytes)
unfolding digits_of number_of
read_number s = number_of s (digits_of s)
