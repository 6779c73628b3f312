-- ===== src/PgDialect/ArrayText.antt =====
-- The text of an array, as PostgreSQL documents it: elements between braces and commas, a string
-- in double quotes with a backslash before a double quote or a backslash.
use shilohcommunityenterpris.Common.{
  true, ℕ, List, [], ◌∷◌, ◌++◌, append-nil, append_assoc, some, ◌≡◌, ◌≢◌, refl, sym, ap, arith,
  ◌==◌, ltb, if◌then◌else◌, Bytes, Bool-cases, inl, inr,
}
use shilohcommunityenterpris.Common.Utf8.{runes, encode_rune, encode_rune-All, encode_rune_ascii}
use shilohcommunityenterpris.Literal.{
  double, double-append, double_high, keep, read_literal, read_literal-double, Follows,
}
use shilohcommunityenterpris.PgDialect.Append.{
  set_last, array_rune, array_runes, array_append_string, elements, close_array, append_slice,
  append_string_slice,
}

unfoldable pub escape_rune : ℕ → Bytes
escape_rune r =
    if r == b'"'
    then b'\\' ∷ b'"' ∷ []
    else if r == b'\\'
    then b'\\' ∷ b'\\' ∷ []
    else encode_rune r

unfoldable pub escape_runes : List ℕ → Bytes
escape_runes [] = []
escape_runes (r ∷ rs) = escape_rune r ++ escape_runes rs

-- A quoted element.
unfoldable pub quoted : Bytes → Bytes
quoted s = b'"' ∷ (escape_runes (keep (runes s)) ++ b'"' ∷ [])

-- What stands behind the opening brace.
module _ {A : Type 0} (f : A → Bytes) where
  unfoldable pub array_tail : A → List A → Bytes
  array_tail x [] = f x ++ b'}' ∷ []
  array_tail x (y ∷ ys) = f x ++ b',' ∷ array_tail y ys

  unfoldable pub array_text : List A → Bytes
  unfolding array_tail
  array_text [] = b'{' ∷ b'}' ∷ []
  array_text (x ∷ xs) = b'{' ∷ array_tail x xs

double_cons_comma : (s : Bytes) → double (b',' ∷ s) ≡ b',' ∷ double s
unfolding double
double_cons_comma s = refl

double_braces : double (b'{' ∷ b'}' ∷ []) ≡ b'{' ∷ b'}' ∷ []
unfolding double
double_braces = refl

double_open : (s : Bytes) → double (b'{' ∷ s) ≡ b'{' ∷ double s
unfolding double
double_open s = refl

double_brace : double (b'}' ∷ []) ≡ b'}' ∷ []
unfolding double
double_brace = refl

array_rune-double : (r : ℕ) → r ≢ 0 → array_rune r ≡ double (escape_rune r)
unfolding array_rune escape_rune double
array_rune-double r h = elim (Bool-cases (ltb r 0x80)) [
  | inl low ↦ ground (arith, encode_rune_ascii r)
  | inr high ↦ ground (arith, double_high (encode_rune r), encode_rune-All r)
]

array_rune_nul : (r : ℕ) → (r == 0) ≡ true → array_rune r ≡ []
unfolding array_rune
array_rune_nul r h = ground arith

array_runes-double :
    (b : Bytes) (rs : List ℕ) → array_runes b rs ≡ b ++ double (escape_runes (keep rs))
unfolding array_runes keep escape_runes
array_runes-double b [] = unfold double in sym (append-nil b)
array_runes-double b (r ∷ rs) = elim (Bool-cases (r == 0)) [
  | inl nul ↦ rw (nul, array_runes-double (b ++ array_rune r) rs, array_rune_nul r nul, append-nil)
  | inr other ↦
      rw
        (
          other,
          array_runes-double (b ++ array_rune r) rs,
          array_rune-double r (ground arith),
          double-append,
        )
        (append_assoc b _ _)
]

pub array_append_string-double : (b s : Bytes) → array_append_string b s ≡ b ++ double (quoted s)
unfolding array_append_string quoted double
array_append_string-double b s =
    rw (array_runes-double (b ++ b'"' ∷ []) (runes s)) (simp (append_assoc, double-append))

set_last-concat : (s : Bytes) (c d : ℕ) → set_last (s ++ c ∷ []) d ≡ s ++ d ∷ []
unfolding set_last
set_last-concat [] c d = refl
set_last-concat (x ∷ []) c d = refl
set_last-concat (x ∷ y ∷ s) c d = ap (◌∷◌ x) (set_last-concat (y ∷ s) c d)

module _ {A : Type 0} (append : Bytes → A → Bytes) (f : A → Bytes)
    (each : (b : Bytes) (x : A) → append b x ≡ b ++ double (f x)) where
  elements-array_tail :
      (b : Bytes) (x : A) (xs : List A)
      → set_last (elements append b (x ∷ xs)) b'}' ≡ b ++ double (array_tail f x xs)
  unfolding elements array_tail
  elements-array_tail b x [] =
      rw (set_last-concat, each b x) (simp (double-append, append_assoc, double_brace))
  elements-array_tail b x (y ∷ ys) =
      rw (elements-array_tail (append b x ++ b',' ∷ []) y ys, each b x)
        (simp (double-append, append_assoc, double_cons_comma))

  elements_nil : (b : Bytes) → elements append b [] ≡ b
  unfolding elements
  elements_nil b = refl

  -- A slice is written as a literal whose text is the array's.
  pub append_slice-double :
      (b : Bytes) (xs : List A)
      → append_slice append b (some xs) ≡ b ++ b'\'' ∷ (double (array_text f xs) ++ b'\'' ∷ [])
  unfolding append_slice close_array array_text
  append_slice-double b [] = rw elements_nil (simp (append_assoc, double_braces))
  append_slice-double b (x ∷ xs) = rw elements-array_tail (simp (append_assoc, double_open))

-- `appendStringSlice` writes one string literal, whose text is the array of the quoted strings:
-- no byte of an element ends the literal, and what follows it is left alone. `clean` strings are
-- those that Go writes as they are.
pub append_string_slice-literal :
    (b rest : Bytes) (ss : List Bytes)
    → Follows rest
    → (w : Bytes) × (append_string_slice b (some ss) ≡ b ++ w)
      × (read_literal (w ++ rest) ≡ some (array_text quoted ss, rest))
unfolding append_string_slice
append_string_slice-literal b rest ss h = (
  b'\'' ∷ (double (array_text quoted ss) ++ b'\'' ∷ []),
  append_slice-double array_append_string quoted array_append_string-double b ss,
  rw append_assoc (read_literal-double (array_text quoted ss) rest h),
)
