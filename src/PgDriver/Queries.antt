-- ===== src/PgDriver/Queries.antt =====
-- Queries as bytes, literals and marks: what `formatQuery` puts out for them.
use shilohcommunityenterpris.Common.{
  ℕ, get_elem?, zero, suc, ◌≤◌, ◌<◌, none, true, false, List, [], ◌∷◌, ◌++◌, Option, some, Bytes,
  length, length-append, All, ◌≡◌, ◌≢◌, refl, ap, ◌∙◌, arith,
}
use shilohcommunityenterpris.Common.Decimal.{is_num, atoi}
use shilohcommunityenterpris.Common.Result.{Result, ok, err, ◌>>=◌}
use shilohcommunityenterpris.Common.Utf8.{runes}
use shilohcommunityenterpris.Literal.{clean, read_literal, Follows}
use shilohcommunityenterpris.Schema.BaseDialect.{string_rune, string_runes, append_string}
use shilohcommunityenterpris.Schema.Literals.{append_string-literal}
use shilohcommunityenterpris.PgDriver.Format.{
  Arg, string, FormatError, too_few, below_one, arg_rune, arg_runes, append_arg, digits, number,
  quoted_from, quoted_string, put_number, go_on, format_round, format_loop, format_query, no_args,
}

-- A byte, a literal without apostrophes in it, or a mark by the digits of its number.
pub data Piece : Type 0 where
  plain : ℕ → Piece
  literal mark : Bytes → Piece

unfoldable pub print_pieces : List Piece → Bytes
print_pieces [] = []
print_pieces (plain c ∷ ps) = c ∷ print_pieces ps
print_pieces (literal q ∷ ps) = b'\'' ∷ (q ++ b'\'' ∷ print_pieces ps)
print_pieces (mark d ∷ ps) = b'$' ∷ (d ++ print_pieces ps)

-- No digit goes on behind a number.
abbrev pub NoDigit : Bytes → Type 0
NoDigit [] = Unit
NoDigit (c ∷ s) = is_num c ≡ false

-- The pieces are what is read: a literal ends at its apostrophe and a number at its last digit.
abbrev pub IsPieces : List Piece → Type 0
IsPieces [] = Unit
IsPieces (plain c ∷ ps) = (c ≢ b'$') × (c ≢ b'\'') × IsPieces ps
IsPieces (literal q ∷ ps) = All (λ c. c ≢ b'\'') q × Follows (print_pieces ps) × IsPieces ps
IsPieces (mark d ∷ ps) = All (λ c. is_num c ≡ true) d × NoDigit (print_pieces ps) × IsPieces ps

digits-append : (d s : Bytes) → All (λ c. is_num c ≡ true) d → NoDigit s → digits (d ++ s) ≡ (d, s)
unfolding digits
digits-append [] [] h k = refl
digits-append [] (c ∷ s) h k = rw (k) refl
digits-append (c ∷ d) s (hc, h) k = rw (hc, digits-append d s h k) refl

quoted_from_end : (s : Bytes) → Follows s → quoted_from b'\'' s ≡ ([], s)
unfolding quoted_from
quoted_from_end [] h = refl
quoted_from_end (c ∷ s) h = ground arith

quoted_from-append :
    (c : ℕ) (q s : Bytes)
    → c ≢ b'\''
    → All (λ x. x ≢ b'\'') q
    → Follows s
    → quoted_from c (q ++ b'\'' ∷ s) ≡ (q ++ b'\'' ∷ [], s)
unfolding quoted_from
quoted_from-append c [] s hc h k = let e = quoted_from_end s k in ground arith
quoted_from-append c (x ∷ q) s hc (hx, h) k =
    let e = quoted_from-append x q s hx h k in ground arith

arg_runes-string_runes : (b : Bytes) (rs : List ℕ) → arg_runes b rs ≡ string_runes b rs
unfolding arg_runes arg_rune string_runes string_rune
arg_runes-string_runes b [] = refl
arg_runes-string_runes b (r ∷ rs) = arg_runes-string_runes (b ++ arg_rune r) rs

get_elem?-none : {A : Type 0} (xs : List A) (j : ℕ) → get_elem? xs j ≡ none → length xs ≤ j
get_elem?-none [] j e = omega arith
get_elem?-none (x ∷ xs) zero e = cc
get_elem?-none (x ∷ xs) (suc j) e = omega (arith, get_elem?-none xs j e)

get_elem?-some :
    {A : Type 0} (xs : List A) (j : ℕ) {x : A} → get_elem? xs j ≡ some x → j < length xs
get_elem?-some [] j e = cc
get_elem?-some (x ∷ xs) zero e = omega arith
get_elem?-some (x ∷ xs) (suc j) e = omega (arith, get_elem?-some xs j e)

module _ {F : Type 0} (show : F → Bytes) where
  append_arg-append_string : (b s : Bytes) → append_arg show b (string s) ≡ ok (append_string b s)
  unfolding append_arg append_string
  append_arg-append_string b s =
      ap (λ x. ok (x ++ b'\'' ∷ [])) (arg_runes-string_runes (b ++ b'\'' ∷ []) (runes s))

  -- appendArg writes a string as one string literal, which a reader of SQL takes whole whatever
  -- bytes the string holds, and whose text is the string without NULs and with invalid UTF-8
  -- replaced; what follows the literal does not begin with an apostrophe.
  pub append_arg-literal :
      (b s rest : Bytes)
      → Follows rest
      → (w : Bytes) × (append_arg show b (string s) ≡ ok (b ++ w))
        × (read_literal (w ++ rest) ≡ some (clean s, rest))
  append_arg-literal b s rest h =
      let (w, e, r) = append_string-literal b s rest h in
      (w, append_arg-append_string b s ∙ ap ok e, r)

  module _ (args : List (Arg F)) where
    abbrev pub nth_or_error : Bytes → ℕ → Option (Arg F) → Result FormatError Bytes
    nth_or_error dst i none = err (too_few (length args) i)
    nth_or_error dst i (some v) = append_arg show dst v

    -- What stands for a mark: a dollar sign where the number is no int, and else the argument of
    -- that number, counted from 1, or an error.
    abbrev pub mark_output : Bytes → Option ℕ → Result FormatError Bytes
    mark_output dst none = ok (dst ++ b'$' ∷ [])
    mark_output dst (some zero) = err (below_one 0)
    mark_output dst (some (suc j)) = nth_or_error dst (suc j) (get_elem? args j)

    nth-mark :
        (dst : Bytes) (j : ℕ) (o : Option (Arg F))
        → get_elem? args j ≡ o
        → put_number show args dst (some (suc j)) ≡ nth_or_error dst (suc j) o
    unfolding put_number
    nth-mark dst j none e = let h = get_elem?-none args j e in ground (arith, h, e)
    nth-mark dst j (some v) e = let h = get_elem?-some args j e in ground (arith, h, e)

    put_number-mark_output :
        (dst : Bytes) (o : Option ℕ) → put_number show args dst o ≡ mark_output dst o
    unfolding put_number
    put_number-mark_output dst none = refl
    put_number-mark_output dst (some zero) = refl
    put_number-mark_output dst (some (suc j)) = nth-mark dst j (get_elem? args j) refl

    -- The output: bytes and literals as they are, and each mark with its argument or error.
    unfoldable pub fill : Bytes → List Piece → Result FormatError Bytes
    fill dst [] = ok dst
    fill dst (plain c ∷ ps) = fill (dst ++ c ∷ []) ps
    fill dst (literal q ∷ ps) = fill (dst ++ b'\'' ∷ (q ++ b'\'' ∷ [])) ps
    fill dst (mark d ∷ ps) = mark_output dst (atoi d) >>= (λ b. fill b ps)

    go_on-bind :
        (rec : Bytes → Bytes → Option (Result FormatError Bytes)) (r : Result FormatError Bytes)
        (s : Bytes) (f : Bytes → Result FormatError Bytes)
        → ((b : Bytes) → rec b s ≡ some (f b))
        → go_on show args rec r s ≡ some (r >>= f)
    go_on-bind rec (ok b) s f h = h b
    go_on-bind rec (err e) s f h = refl

    loop-fill :
        (ps : List Piece) (fuel : ℕ) (dst : Bytes)
        → IsPieces ps
        → length (print_pieces ps) ≤ fuel
        → format_loop show args fuel dst (print_pieces ps) ≡ some (fill dst ps)
    unfolding format_loop format_round number quoted_string print_pieces fill
    loop-fill [] fuel dst h le = refl
    loop-fill (plain c ∷ ps) zero dst h le = absurd (omega (arith, le))
    loop-fill (literal q ∷ ps) zero dst h le = absurd (omega (arith, le))
    loop-fill (mark d ∷ ps) zero dst h le = absurd (omega (arith, le))
    loop-fill (plain c ∷ ps) (suc fuel) dst (hd, hq, h) le =
        let ih = loop-fill ps fuel (dst ++ c ∷ []) h (omega (arith, le)) in ground (arith, ih)
    loop-fill (literal q ∷ ps) (suc fuel) dst (hq, hf, h) le =
        rw (quoted_from-append 0 q (print_pieces ps) (ground arith) hq hf) (
          loop-fill ps fuel (dst ++ b'\'' ∷ (q ++ b'\'' ∷ [])) h
            (omega (arith, le, length-append q (b'\'' ∷ print_pieces ps))))
    loop-fill (mark d ∷ ps) (suc fuel) dst (hd, hn, h) le =
        rw (digits-append d (print_pieces ps) hd hn) (
          go_on-bind (format_loop show args fuel) (put_number show args dst (atoi d))
            (print_pieces ps) (λ b. fill b ps)
            (λ b. loop-fill ps fuel b h (omega (arith, le, length-append d (print_pieces ps))))
          ∙ ap (λ r. some (r >>= (λ b. fill b ps))) (put_number-mark_output dst (atoi d)))

    -- formatQuery, on a query of bytes, string literals and marks, puts out the bytes and the
    -- literals as they are and at each mark the argument of its number, or a dollar sign where the
    -- number is no int, or ends with the error of the first mark without an argument; arguments are
    -- given, no literal holds an apostrophe or stands before one, and no digit stands behind a mark.
    pub format_query-print_pieces :
        (ps : List Piece)
        → no_args args ≡ false
        → IsPieces ps
        → format_query show args (print_pieces ps) ≡ some (fill [] ps)
    unfolding format_query
    format_query-print_pieces ps hn h =
        rw (hn) (loop-fill ps (length (print_pieces ps)) [] h (omega arith))
