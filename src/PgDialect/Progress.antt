-- ===== src/PgDialect/Progress.antt =====
-- The array and hstore parsers read on: each call takes bytes, and the loops over them end.
use shilohcommunityenterpris.Common.{
  ℕ, zero, suc, ◌≤◌, ◌<◌, Bool, true, false, List, [], ◌∷◌, ◌++◌, ◌≡◌, ◌≢◌, inl, inr, refl, Option,
  none, some, arith, ◌==◌, Bytes, length, Bool-cases,
}
use shilohcommunityenterpris.Common.Result.{Result, ok, err, bind-eq-ok, Result-cases}
use shilohcommunityenterpris.PgDialect.Parser.{
  Error, skip_if, substring_loop, array_substring, hex_or_text, cons_cut, cut_comma, cut_last,
  cut_or, array_simple, last_is, new_array_parser, next_in, next_elem,
}
use shilohcommunityenterpris.PgDialect.Scan.{
  Source, nil, text, other, ScanError, scan_elems, scan_array, decode_string_slice,
  decode_int_slice, decode_int64_slice, as_int, as_string, found,
}

-- An array ends in a brace, and so does what is left of it to read.
ends : Bytes → Bool
ends [] = true
ends (c ∷ s) = last_is b'}' (c ∷ s)

ends-tail : (c : ℕ) (s : Bytes) → ends (c ∷ s) ≡ true → ends s ≡ true
unfolding ends last_is
ends-tail c [] h = refl
ends-tail c (d ∷ s) h = h

pub length-substring_loop :
    (pairs : Bool) (c : Option ℕ) (buf s b r : Bytes)
    → substring_loop pairs c buf s ≡ ok (b, r)
    → length r ≤ length s
unfolding substring_loop
length-substring_loop pairs none buf [] b r e = ground arith
length-substring_loop pairs none buf (c ∷ s) b r e =
    omega (arith, length-substring_loop pairs (some c) buf s b r e)
length-substring_loop pairs (some c) buf [] b r e = ground arith
length-substring_loop pairs (some c) buf (next ∷ s) b r e = ground (
  arith,
  length-substring_loop pairs none (buf ++ next ∷ []) s b r,
  length-substring_loop pairs (some next) (buf ++ b'\\' ∷ []) s b r,
  length-substring_loop pairs (some next) (buf ++ c ∷ []) s b r,
)

ends-substring_loop :
    (pairs : Bool) (c : Option ℕ) (buf s b r : Bytes)
    → ends s ≡ true
    → substring_loop pairs c buf s ≡ ok (b, r)
    → ends r ≡ true
unfolding substring_loop
ends-substring_loop pairs none buf [] b r h e = ground arith
ends-substring_loop pairs none buf (c ∷ s) b r h e =
    ends-substring_loop pairs (some c) buf s b r (ends-tail c s h) e
ends-substring_loop pairs (some c) buf [] b r h e = ground arith
ends-substring_loop pairs (some c) buf (next ∷ s) b r h e =
    let h' = ends-tail next s h in
    ground (
      arith,
      ends-substring_loop pairs none (buf ++ next ∷ []) s b r h',
      ends-substring_loop pairs (some next) (buf ++ b'\\' ∷ []) s b r h',
      ends-substring_loop pairs (some next) (buf ++ c ∷ []) s b r h',
    )

pub length-skip_if : (c : ℕ) (s : Bytes) → length (skip_if c s) ≤ length s
unfolding skip_if
length-skip_if c [] = omega arith
length-skip_if c (x ∷ s) = ground arith

ends-skip_if : (c : ℕ) (s : Bytes) → ends s ≡ true → ends (skip_if c s) ≡ true
unfolding skip_if
ends-skip_if c [] h = h
ends-skip_if c (x ∷ s) h = ground (arith, ends-tail x s h)

-- What is left behind a cut at a comma.
abbrev Rest : ℕ → Option (Bytes × Bytes) → Type 0
Rest n none = Unit
Rest n (some (b, r)) = (length (skip_if b',' r) < n) × (ends r ≡ true)

cons_cut-Rest : (c n : ℕ) (o : Option (Bytes × Bytes)) → Rest n o → Rest (suc n) (cons_cut c o)
cons_cut-Rest c n none h = tt
cons_cut-Rest c n (some (b, r)) h = (omega arith, h.1)

cut_comma-Rest : (s : Bytes) → ends s ≡ true → Rest (length s) (cut_comma s)
unfolding cut_comma
cut_comma-Rest [] h = tt
cut_comma-Rest (c ∷ s) h = elim (Bool-cases (c == b',')) [
  | inl comma ↦ rw comma (unfold skip_if in rw comma (omega arith), h)
  | inr plain ↦
      rw plain (cons_cut-Rest c (length s) (cut_comma s) (cut_comma-Rest s (ends-tail c s h)))
]

cut_last_rest :
    (s : Bytes) → (length (cut_last s).1 ≤ 1) × (ends s ≡ true → ends (cut_last s).1 ≡ true)
unfolding cut_last ends last_is
cut_last_rest [] = (omega arith, λ h. h)
cut_last_rest (c ∷ []) = (omega arith, λ h. h)
cut_last_rest (c ∷ d ∷ s) = cut_last_rest (d ∷ s)

not_alone : (c : ℕ) (s : Bytes) → (c == b'}') ≡ false → ends (c ∷ s) ≡ true → 0 < length s
unfolding ends last_is
not_alone c [] n h = ground arith
not_alone c (d ∷ s) n h = omega arith

-- A value that is not quoted ends at a comma, or at the brace that ends the array.
array_simple_rest :
    (c : ℕ) (s : Bytes)
    → (c == b'}') ≡ false
    → ends (c ∷ s) ≡ true
    → (length (skip_if b',' (array_simple (c ∷ s)).1) < suc (length s))
      × (ends (skip_if b',' (array_simple (c ∷ s)).1) ≡ true)
unfolding array_simple
array_simple_rest c s brace h = go (cut_comma (c ∷ s)) (cut_comma-Rest (c ∷ s) h)
  where
    go :
        (o : Option (Bytes × Bytes))
        → Rest (suc (length s)) o
        → (length (skip_if b',' (cut_or (c ∷ s) o).1) < suc (length s))
          × (ends (skip_if b',' (cut_or (c ∷ s) o).1) ≡ true)
    go none _ =
        let (short, e) = cut_last_rest (c ∷ s) in
        (
          omega (arith, length-skip_if b',' (cut_last (c ∷ s)).1, not_alone c s brace h),
          ends-skip_if b',' (cut_last (c ∷ s)).1 (e h),
        )
    go (some (b, r)) (short, e) = (short, ends-skip_if b',' r e)

-- A quoted value takes what its loop takes.
array_substring_loop :
    (g : Bool) (s : Bytes) (x : Option Bytes) (r : Bytes) (g' : Bool)
    → array_substring g s ≡ ok (x, r, g')
    → (b : Bytes) × (substring_loop true none [] s ≡ ok (b, r))
unfolding array_substring
array_substring_loop g s x r g' e =
    let ((b, rest), loop, later) = bind-eq-ok (substring_loop true none [] s) _ e in
    let (t, hexed, last) = bind-eq-ok (hex_or_text b) _ later in (b, ground arith)

-- An element that is read takes at least one byte.
next_in_rest :
    (g : Bool) (u : Bytes) (x : Option Bytes) (r : Bytes) (g' : Bool)
    → ends u ≡ true
    → next_in g u ≡ ok (x, r, g')
    → (length r < length u) × (ends r ≡ true)
unfolding next_in
next_in_rest g [] x r g' h e = cc
next_in_rest g (c ∷ s) x r g' h e = elim (Bool-cases (c == b'}')) [
  | inl brace ↦ ground arith
  | inr more ↦ elim (Bool-cases (c == b'"')) [
    | inl quote ↦
        let ((y, v, k), read, last) = bind-eq-ok (array_substring g s) _ (rw (more, quote) at e) in
        let (b, loop) = array_substring_loop g s y v k read in
        let short = length-substring_loop true none [] s b v loop in
        let e' = ends-substring_loop true none [] s b v (ends-tail c s h) loop in
        ground (arith, length-skip_if b',' v, ends-skip_if b',' v e')
    | inr simple ↦ ground (arith, array_simple_rest c s more h)
  ]
]

-- With a good text the loop is done before its fuel.
module _ {A : Type 0} (convert : Option Bytes → Result ScanError A) where
  scan_elems-ne-none :
      (fuel : ℕ) (u : Bytes) (g : Bool) (f : Option Error) (out : List A)
      → (f ≡ none → ends u ≡ true)
      → length u < fuel
      → scan_elems convert fuel (record { unread = u; grown = g; failure = f }) out ≢ none
  unfolding scan_elems next_elem
  scan_elems-ne-none zero u g f out h l = absurd (omega arith)
  scan_elems-ne-none (suc fuel) u g (some e) out h l = ground arith
  scan_elems-ne-none (suc fuel) u g none out h l = elim (Result-cases (next_in g u)) [
    | inl (e, stop) ↦ rw (stop, scan_elems, next_elem) (ground arith)
    | inr ((x, r, g'), step) ↦
        rw (step, scan_elems, next_elem)
          (elim (Result-cases (convert x)) [
            | inl (e, bad) ↦ rw bad (ground arith)
            | inr (a, good) ↦ rw good (
                let (short, e) = next_in_rest g u x r g' (h refl) step in
                scan_elems-ne-none fuel r g' none (out ++ a ∷ []) (λ _. e) (omega arith))
          ])
  ]

  scan_array-ne-none : (b : Result ScanError Bytes) → scan_array convert b ≢ none
  unfolding scan_array new_array_parser ends
  scan_array-ne-none (err e) = ground arith
  scan_array-ne-none (ok []) =
      scan_elems-ne-none 1 [] false (new_array_parser []).failure [] (λ _. refl) (omega arith)
  scan_array-ne-none (ok (c ∷ [])) =
      scan_elems-ne-none 2 [] false (new_array_parser (c ∷ [])).failure [] (λ _. refl) (omega arith)
  scan_array-ne-none (ok (c ∷ d ∷ s)) =
      scan_elems-ne-none (suc (length (c ∷ d ∷ s))) (d ∷ s) false
        (new_array_parser (c ∷ d ∷ s)).failure [] (ground arith) (omega arith)

found-ne-none : {A : Type 0} (o : Option (Result ScanError A)) → o ≢ none → found o ≢ none
found-ne-none none h e = h refl
found-ne-none (some (ok x)) h e = cc
found-ne-none (some (err x)) h e = cc

-- Each decoder of a slice is done within its fuel, one round more than the text has bytes, for
-- every source, well-formed or not.
pub decode_slices-ne-none :
    (src : Source)
    → (decode_string_slice src ≢ none)
      × (decode_int_slice src ≢ none)
      × (decode_int64_slice src ≢ none)
unfolding decode_string_slice decode_int_slice decode_int64_slice
decode_slices-ne-none nil = (ground arith, ground arith, ground arith)
decode_slices-ne-none (text b) = (
  found-ne-none _ (scan_array-ne-none as_string (ok b)),
  found-ne-none _ (scan_array-ne-none as_int (ok b)),
  found-ne-none _ (scan_array-ne-none as_int (ok b)),
)
decode_slices-ne-none other = (ground arith, ground arith, ground arith)
