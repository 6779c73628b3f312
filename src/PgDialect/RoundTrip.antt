-- ===== src/PgDialect/RoundTrip.antt =====
-- Arrays that are written are read back.
use shilohcommunityenterpris.Common.{
  ℕ, zero, suc, ◌+◌, ◌≤◌, Bool, true, false, ◌||◌, not, List, [], ◌∷◌, ◌++◌, append_assoc, Option,
  none, some, ◌≡◌, ◌⊎◌, refl, sym, ap, ◌∙◌, arith, if◌then◌else◌, Bytes, All, length, length-append,
  Bool-cases, inl, inr,
}
use shilohcommunityenterpris.Common.Utf8.{runes}
use shilohcommunityenterpris.Common.Result.{Result, ok}
use shilohcommunityenterpris.PgDialect.Append.{append_string_slice}
use shilohcommunityenterpris.Literal.{Follows, read_literal, IsClean, keep}
use shilohcommunityenterpris.PgDialect.ArrayText.{
  append_string_slice-literal, quoted, escape_runes, array_tail, array_text,
}
use shilohcommunityenterpris.PgDialect.Escape.{has_pair, loop-escape_runes}
use shilohcommunityenterpris.PgDialect.Parser.{
  skip_if, has_hex_prefix, hex_or_text, array_substring, next_in, next_elem, new_array_parser,
  last_is, is_empty,
}
use shilohcommunityenterpris.PgDialect.Scan.{
  text, ScanError, scan_elems, scan_array, as_string, decode_string_slice, to_bytes,
}

-- What stands behind an element: a comma, or the last brace.
abbrev Behind : ℕ → Bytes → Type 0
Behind c t = (c ≡ b',') ⊎ ((c ≡ b'}') × (t ≡ []))

-- An element's text is read as the element.
abbrev Reads : {A : Type 0} → (Option Bytes → Result ScanError A) → (A → Bytes) → A → Type 0
Reads convert f x =
    (g : Bool) (c : ℕ) (t : Bytes)
    → Behind c t
    → (y : Option Bytes) × (g' : Bool) × (next_in g (f x ++ c ∷ t)
        ≡ ok (y, skip_if b',' (c ∷ t), g'))
      × (convert y ≡ ok x)

last_is-cons : (c : ℕ) (s : Bytes) → last_is b'}' s ≡ true → last_is b'}' (c ∷ s) ≡ true
unfolding last_is
last_is-cons c [] h = cc
last_is-cons c (d ∷ s) h = h

module _ {A : Type 0} (convert : Option Bytes → Result ScanError A) (f : A → Bytes) where
  -- One round of the loop.
  scan_step :
      (fuel : ℕ) (u : Bytes) (g : Bool) (out : List A) (y : Option Bytes) (r : Bytes) (g' : Bool)
      (x : A)
      → next_in g u ≡ ok (y, r, g')
      → convert y ≡ ok x
      → scan_elems convert (suc fuel) (record { unread = u; grown = g; failure = none }) out
        ≡ scan_elems convert fuel
            (record { unread = r; grown = g'; failure = none })
            (out ++ x ∷ [])
  unfolding scan_elems next_elem
  scan_step fuel u g out y r g' x read good =
      rw (read, scan_elems, next_elem) (rw (good, scan_elems))

  scan_end :
      (fuel : ℕ) (g : Bool) (out : List A)
      → scan_elems convert (suc fuel) (record { unread = b'}' ∷ []; grown = g; failure = none }) out
        ≡ some (ok out)
  unfolding scan_elems next_elem next_in
  scan_end fuel g out = refl

  skip_comma : (t : Bytes) → skip_if b',' (b',' ∷ t) ≡ t
  unfolding skip_if
  skip_comma t = refl

  skip_brace : skip_if b',' (b'}' ∷ []) ≡ b'}' ∷ []
  unfolding skip_if
  skip_brace = refl

  scan-array_tail :
      (xs : List A) (x : A) (fuel : ℕ) (g : Bool) (out : List A)
      → All (Reads convert f) (x ∷ xs)
      → length xs + 2 ≤ fuel
      → scan_elems convert fuel
          (record { unread = array_tail f x xs; grown = g; failure = none })
          out
        ≡ some (ok (out ++ x ∷ xs))
  unfolding array_tail
  scan-array_tail xs x zero g out h l = absurd (omega arith)
  scan-array_tail xs x (suc zero) g out h l = absurd (omega arith)
  scan-array_tail [] x (suc (suc fuel)) g out (hx, _) l =
      let (y, g', read, good) = hx g b'}' [] (inr (refl, refl)) in
      scan_step (suc fuel) (f x ++ b'}' ∷ []) g out y _ g' x read good
      ∙ rw skip_brace (scan_end fuel g' (out ++ x ∷ []))
  scan-array_tail (z ∷ zs) x (suc (suc fuel)) g out (hx, hs) l =
      let (y, g', read, good) = hx g b',' (array_tail f z zs) (inl refl) in
      scan_step (suc fuel) (f x ++ b',' ∷ array_tail f z zs) g out y _ g' x read good
      ∙ rw skip_comma (
          scan-array_tail zs z (suc fuel) g' (out ++ x ∷ []) hs (omega arith)
          ∙ ap (λ o. some (ok o)) (append_assoc out (x ∷ []) (z ∷ zs)))

  length-array_tail : (xs : List A) (x : A) → length xs + 1 ≤ length (array_tail f x xs)
  unfolding array_tail
  length-array_tail [] x = omega (arith, length-append (f x) (b'}' ∷ []))
  length-array_tail (z ∷ zs) x =
      omega (arith, length-append (f x) (b',' ∷ array_tail f z zs), length-array_tail zs z)

  last_is-append :
      (w : Bytes) (c : ℕ) (t : Bytes) → last_is b'}' (w ++ c ∷ t) ≡ last_is b'}' (c ∷ t)
  unfolding last_is
  last_is-append [] c t = refl
  last_is-append (x ∷ []) c t = refl
  last_is-append (x ∷ y ∷ w) c t = last_is-append (y ∷ w) c t

  last-array_tail : (xs : List A) (x : A) → last_is b'}' (array_tail f x xs) ≡ true
  unfolding array_tail
  last-array_tail [] x = rw last_is-append (unfold last_is in refl)
  last-array_tail (z ∷ zs) x =
      rw last_is-append (last_is-cons b',' (array_tail f z zs) (last-array_tail zs z))

  -- Reading the text of an array gives its elements back, in order.
  pub scan_array-array_text :
      (xs : List A)
      → All (Reads convert f) xs
      → scan_array convert (ok (array_text f xs)) ≡ some (ok xs)
  unfolding scan_array array_text new_array_parser
  scan_array-array_text [] h = unfold last_is in scan_end 2 false []
  scan_array-array_text (x ∷ xs) h = rw (last-array_tail xs x) (
      scan-array_tail xs x (suc (suc (length (array_tail f x xs)))) false [] h
        (omega (arith, length-array_tail xs x)))

-- A string that goes to the database and back: valid UTF-8 without NUL, that holds no two
-- apostrophes in a row and does not look like a `bytea` in hexadecimal.
pub record IsPlain (s : Bytes) : Type 0 where
  pub clean : IsClean s
  pub apart : has_pair (runes s) ≡ false
  pub not_hex : has_hex_prefix s ≡ false

not_grown : (g : Bool) (s : Bytes) → (g || not (is_empty s)) ≡ false → s ≡ []
not_grown g [] h = refl
not_grown g (c ∷ s) h = ground arith

substring-quoted :
    (g : Bool) (s t : Bytes)
    → IsPlain s
    → (y : Option Bytes) × (g' : Bool) × (array_substring g
          (escape_runes (keep (runes s)) ++ b'"' ∷ t)
        ≡ ok (y, t, g'))
      × (as_string y ≡ ok s)
unfolding array_substring hex_or_text
substring-quoted g s t h = (
  (if g || not (is_empty s) then some s else none),
  (g || not (is_empty s)),
  rw (h.clean.no_nul, loop-escape_runes true (runes s) [] t h.apart, h.clean.utf8) (rw h.not_hex),
  string_back (Bool-cases (g || not (is_empty s))),
)
  where
    string_back :
        ((g || not (is_empty s)) ≡ true) ⊎ ((g || not (is_empty s)) ≡ false)
        → as_string (if g || not (is_empty s) then some s else none) ≡ ok s
    string_back (inl grown) = rw grown
    string_back (inr empty) = rw empty (ap ok (sym (not_grown g s empty)))

quoted-Reads : (s : Bytes) → IsPlain s → Reads as_string quoted s
unfolding quoted next_in
quoted-Reads s h g c t b =
    let (y, g', read, good) = substring-quoted g s (c ∷ t) h in
    (y, g', rw (append_assoc (escape_runes (keep (runes s))) (b'"' ∷ []) (c ∷ t), read), good)

-- `decodeStringSlice` reads the array text of `appendStringSlice` back: the same strings in the
-- same order, where each is valid UTF-8 without NUL, holds no two apostrophes in a row and is
-- not of the form `\x…` with an even length.
pub decode_string_slice-array_text :
    (ss : List Bytes)
    → All IsPlain ss
    → decode_string_slice (text (array_text quoted ss)) ≡ some (ok (some ss))
unfolding decode_string_slice to_bytes
decode_string_slice-array_text ss h =
    rw (scan_array-array_text as_string quoted ss (all_Reads ss h))
  where
    all_Reads : (xs : List Bytes) → All IsPlain xs → All (Reads as_string quoted) xs
    all_Reads [] _ = tt
    all_Reads (x ∷ xs) (hx, hs) = (quoted-Reads x hx, all_Reads xs hs)

-- A slice of strings goes to the database as one string literal, which a reader of SQL takes
-- whole, and whose text `decodeStringSlice` reads back as the same strings: each valid UTF-8
-- without NUL, with no two apostrophes in a row and not of the form `\x…` with an even length.
pub string_slice_round_trip :
    (b rest : Bytes) (ss : List Bytes)
    → Follows rest
    → All IsPlain ss
    → (w t : Bytes) × (append_string_slice b (some ss) ≡ b ++ w)
      × (read_literal (w ++ rest) ≡ some (t, rest))
      × (decode_string_slice (text t) ≡ some (ok (some ss)))
string_slice_round_trip b rest ss h plain =
    let (w, written, read) = append_string_slice-literal b rest ss h in
    (w, array_text quoted ss, written, read, decode_string_slice-array_text ss plain)
