-- ===== src/Schema/Placeholders.antt =====
-- The loop of `append` reads a query as its template says.
use shilohcommunityenterpris.Common.{
  get_elem?, if◌then◌else◌, ℕ, zero, suc, ◌+◌, ◌≤◌, Bool, true, false, not, ◌&&◌, ◌||◌, List, [],
  ◌∷◌, ◌++◌, append-nil, append_assoc, none, some, ◌≡◌, ◌≢◌, inl, inr, refl, sym, ap, ◌∙◌, arith,
  ◌==◌, Bytes, length, length-append, Bool-cases, All,
}
use shilohcommunityenterpris.Common.Decimal.{is_num}
use shilohcommunityenterpris.Internal.Parser.{
  is_alpha, cut_at, read_sep, scan_word, word_name, paren_or_word, sep_or_all, read_identifier,
}
use shilohcommunityenterpris.Schema.Formatter.{
  Arg, Formatter, put_name, put_next, append_round, ends_in_backslash, all_but_last, append_loop,
  has_question, append_query,
}
use shilohcommunityenterpris.Schema.Template.{
  Mark, escaped, next, word, paren, Template, end, part, print_mark, print, IsWord, is_numeric,
  Stops, NoName, IsTemplate, argument_or, following, numbered, sole, by_name, fill,
}
use shilohcommunityenterpris.Schema.Arguments.{
  put_next-following, put_name-by_name, put_name-numbered,
}

cut_at-append : (b r : Bytes) → has_question b ≡ false → cut_at b'?' (b ++ b'?' ∷ r) ≡ some (b, r)
unfolding cut_at has_question
cut_at-append [] r h = refl
cut_at-append (c ∷ b) r h = ground (arith, cut_at-append b r)

cut_at-none : (b : Bytes) → has_question b ≡ false → cut_at b'?' b ≡ none
unfolding cut_at has_question
cut_at-none [] h = refl
cut_at-none (c ∷ b) h = ground (arith, cut_at-none b)

cut_at_paren : (n s : Bytes) → All (λ c. c ≢ b')') n → cut_at b')' (n ++ b')' ∷ s) ≡ some (n, s)
unfolding cut_at
cut_at_paren [] s h = refl
cut_at_paren (c ∷ n) s h = ground (arith, cut_at_paren n s h.1)

identifier_none : (s : Bytes) → NoName s → read_identifier s ≡ ([], false, s)
unfolding read_identifier
identifier_none [] h = refl
identifier_none (c ∷ s) h = ground arith

-- Whether there is a letter in a name.
alpha_of : Bool → Bytes → Bool
alpha_of alpha [] = alpha
alpha_of alpha (c ∷ n) = alpha_of (alpha || not (is_num c)) n

alpha_of-is_numeric : (alpha : Bool) (n : Bytes) → alpha_of alpha n ≡ (alpha || not (is_numeric n))
unfolding alpha_of
alpha_of-is_numeric alpha [] = ground arith
alpha_of-is_numeric alpha (c ∷ n) = ground (arith, alpha_of-is_numeric (alpha || not (is_num c)) n)

scan_word-Stops :
    (started alpha : Bool) (s : Bytes)
    → (alpha && not started) ≡ false
    → Stops alpha s
    → scan_word started alpha s ≡ ([], alpha, s)
unfolding scan_word
scan_word-Stops started alpha [] a h = refl
scan_word-Stops started alpha (c ∷ s) a h = ground arith

scan_word_step :
    (c : ℕ) (s : Bytes) (started alpha : Bool)
    → (alpha && not started) ≡ false
    → (is_num c || is_alpha c || (alpha && c == b'_')) ≡ true
    → scan_word started alpha (c ∷ s) ≡ (
      c ∷ (scan_word true (alpha || not (is_num c)) s).0,
      (scan_word true (alpha || not (is_num c)) s).1,
      (scan_word true (alpha || not (is_num c)) s).2,
    )
unfolding scan_word
scan_word_step c s started true a h = elim (Bool-cases (is_num c)) [
  | inl num ↦ rw num
  | inr other ↦ rw other (ground arith)
]
scan_word_step c s started false a h = elim (Bool-cases (is_num c)) [
  | inl num ↦ rw num
  | inr other ↦ rw other (ground arith)
]

scan_word-append :
    (n s : Bytes) (started alpha : Bool)
    → (alpha && not started) ≡ false
    → IsWord alpha n
    → Stops (alpha_of alpha n) s
    → scan_word started alpha (n ++ s) ≡ (n, alpha_of alpha n, s)
unfolding alpha_of
scan_word-append [] s started alpha a w h = scan_word-Stops started alpha s a h
scan_word-append (c ∷ n) s started alpha a (hc, w) h =
    scan_word_step c (n ++ s) started alpha a hc
    ∙ rw (scan_word-append n s true (alpha || not (is_num c)) (ground arith) w h)

not-not : (b : Bool) → not (not b) ≡ b
not-not true = refl
not-not false = refl

-- Where no parenthesis stands, the name is what the loop takes.
identifier_scanned :
    (c : ℕ) (s w r : Bytes) (alpha : Bool)
    → (c == b'(') ≡ false
    → scan_word false false (c ∷ s) ≡ (c ∷ w, alpha, r)
    → read_identifier (c ∷ s) ≡ (c ∷ w, not alpha, r)
unfolding read_identifier
identifier_scanned c s w r alpha p e = rw (p, read_identifier) (ap (word_name (c ∷ s)) e)

identifier_word :
    (n s : Bytes)
    → n ≢ []
    → IsWord false n
    → Stops (not (is_numeric n)) s
    → read_identifier (n ++ s) ≡ (n, is_numeric n, s)
identifier_word [] s ne w h = absurd (ne refl)
identifier_word (c ∷ n) s ne w h =
    let e : alpha_of false (c ∷ n) ≡ not (is_numeric (c ∷ n)) = alpha_of-is_numeric false (c ∷ n) in
    let scanned = scan_word-append (c ∷ n) s false false refl w (rw e h) in
    identifier_scanned c (n ++ s) n s (alpha_of false (c ∷ n)) (word_start c w.0) scanned
    ∙ ap (λ b. (c ∷ n, b, s)) (ap not e ∙ not-not (is_numeric (c ∷ n)))
  where
    word_start :
        (c : ℕ) → (is_num c || is_alpha c || (false && c == b'_')) ≡ true → (c == b'(') ≡ false
    word_start c h = ground arith

identifier_paren :
    (n s : Bytes) → All (λ c. c ≢ b')') n → read_identifier (b'(' ∷ (n ++ b')' ∷ s)) ≡ (n, false, s)
unfolding read_identifier
identifier_paren n s h = ap (paren_or_word (b'(' ∷ (n ++ b')' ∷ s))) (cut_at_paren n s h)

backslash_end :
    (t : Bytes)
    → (ends_in_backslash (t ++ b'\\' ∷ []) ≡ true) × (all_but_last (t ++ b'\\' ∷ []) ≡ t)
unfolding ends_in_backslash all_but_last
backslash_end [] = (refl, refl)
backslash_end (c ∷ []) = (refl, refl)
backslash_end (c ∷ d ∷ t) = ((backslash_end (d ∷ t)).0, ap (◌∷◌ c) (backslash_end (d ∷ t)).1)

has_question_backslash :
    (t : Bytes) → has_question t ≡ false → has_question (t ++ b'\\' ∷ []) ≡ false
unfolding has_question
has_question_backslash [] h = refl
has_question_backslash (c ∷ t) h = ground (arith, has_question_backslash t)

length-print_mark : (m : Mark) → 1 ≤ length (print_mark m)
unfolding print_mark
length-print_mark escaped = omega arith
length-print_mark next = omega arith
length-print_mark (word n) = omega arith
length-print_mark (paren n) = omega arith

-- A round takes one unit of fuel, and a mark at least one byte.
length_part : (t s : Bytes) (m : Mark) → length t + 1 + length s ≤ length (t ++ (print_mark m ++ s))
length_part t s m = omega (
  arith,
  length-append t (print_mark m ++ s),
  length-append (print_mark m) s,
  length-print_mark m,
)

module _ (f : Formatter) (args : List Arg) where
  -- One round on a text without a mark, the last one.
  loop_end :
      (fuel i : ℕ) (dst t : Bytes)
      → has_question t ≡ false
      → length t ≤ fuel
      → append_loop f args fuel dst i t ≡ some (dst ++ t)
  unfolding append_loop read_sep
  loop_end fuel i dst [] h l = rw append-nil
  loop_end zero i dst (c ∷ t) h l = absurd (omega arith)
  loop_end (suc fuel) i dst (c ∷ t) h l =
      ap (λ x. append_round f args (append_loop f args fuel) dst i (sep_or_all (c ∷ t) x))
        (cut_at-none (c ∷ t) h)

  -- One round on a text and a question mark.
  loop_mark :
      (fuel i : ℕ) (dst t r : Bytes)
      → has_question t ≡ false
      → append_loop f args (suc fuel) dst i (t ++ b'?' ∷ r)
        ≡ append_round f args (append_loop f args fuel) dst i (t, true, r)
  unfolding append_loop read_sep
  loop_mark fuel i dst [] r h = refl
  loop_mark fuel i dst (c ∷ t) r h =
      ap
        (λ x.
          append_round f args (append_loop f args fuel) dst i (sep_or_all (c ∷ (t ++ b'?' ∷ r)) x))
        (cut_at-append (c ∷ t) r h)

  -- The rounds, by the mark.
  round_next :
      (fuel i : ℕ) (dst t s : Bytes)
      → ends_in_backslash t ≡ false
      → NoName s
      → append_round f args (append_loop f args fuel) dst i (t, true, s)
        ≡ append_loop f args fuel (put_next args (dst ++ t) i).0 (put_next args (dst ++ t) i).1 s
  unfolding append_round
  round_next fuel i dst t s e h = rw (e, identifier_none s h)

  round_name :
      (fuel i : ℕ) (dst t s n r : Bytes) (numeric : Bool)
      → ends_in_backslash t ≡ false
      → n ≢ []
      → read_identifier s ≡ (n, numeric, r)
      → append_round f args (append_loop f args fuel) dst i (t, true, s)
        ≡ append_loop f args fuel (put_name f args (dst ++ t) n numeric) i r
  unfolding append_round
  round_name fuel i dst t s [] r numeric e ne h = absurd (ne refl)
  round_name fuel i dst t s (c ∷ n) r numeric e ne h = rw (e, h)

  round_escaped :
      (fuel i : ℕ) (dst t s : Bytes)
      → append_round f args (append_loop f args fuel) dst i (t ++ b'\\' ∷ [], true, s)
        ≡ append_loop f args fuel ((dst ++ t) ++ b'?' ∷ []) i s
  unfolding append_round
  round_escaped fuel i dst t s = rw ((backslash_end t).0, (backslash_end t).1)

  loop-print :
      (p : Template) (fuel i : ℕ) (dst : Bytes)
      → IsTemplate p
      → length (print p) ≤ fuel
      → append_loop f args fuel dst i (print p) ≡ some (fill f args dst i p)
  unfolding print fill
  loop-print (end t) fuel i dst h l = loop_end fuel i dst t h l
  loop-print (part t m p) zero i dst h l = absurd (omega (arith, length_part t (print p) m))
  loop-print (part t escaped p) (suc fuel) i dst (h, _, hp) l =
      rw (← append_assoc t (b'\\' ∷ []) (b'?' ∷ print p)) (
        loop_mark fuel i dst (t ++ b'\\' ∷ []) (print p) (has_question_backslash t h)
        ∙ round_escaped fuel i dst t (print p)
        ∙ loop-print p fuel i ((dst ++ t) ++ b'?' ∷ []) hp
            (omega (arith, length_part t (print p) escaped)))
  loop-print (part t next p) (suc fuel) i dst (h, (e, n), hp) l =
      loop_mark fuel i dst t (print p) h
      ∙ round_next fuel i dst t (print p) e n
      ∙ ap (λ o. append_loop f args fuel o.0 o.1 (print p)) (put_next-following args (dst ++ t) i)
      ∙ loop-print p fuel (following i (get_elem? args i))
          (argument_or (dst ++ t) [] (get_elem? args i)) hp
          (omega (arith, length_part t (print p) next))
  loop-print (part t (word n) p) (suc fuel) i dst (h, (e, ne, w, s), hp) l =
      loop_mark fuel i dst t (n ++ print p) h
      ∙ round_name fuel i dst t (n ++ print p) n (print p) (is_numeric n) e ne
          (identifier_word n (print p) ne w s)
      ∙ ap (λ o. append_loop f args fuel o i (print p))
          (put_name-numbered f args (dst ++ t) n (is_numeric n) ne)
      ∙ loop-print p fuel i
          (if is_numeric n
            then argument_or (dst ++ t) n (numbered args n)
            else by_name f (sole args) (dst ++ t) n)
          hp (omega (arith, length_part t (print p) (word n)))
  loop-print (part t (paren n) p) (suc fuel) i dst (h, (e, ne, w), hp) l =
      rw (append_assoc n (b')' ∷ []) (print p)) (
        loop_mark fuel i dst t (b'(' ∷ (n ++ b')' ∷ print p)) h
        ∙ round_name fuel i dst t (b'(' ∷ (n ++ b')' ∷ print p)) n (print p) false e ne
            (identifier_paren n (print p) w)
        ∙ ap (λ o. append_loop f args fuel o i (print p)) (put_name-by_name f args (dst ++ t) n)
        ∙ loop-print p fuel i (by_name f (sole args) (dst ++ t) n) hp
            (omega (arith, length_part t (print p) (paren n))))

-- `AppendQuery` puts each text of a query as it is, and at each mark what the mark stands for: the
-- next argument by position, the argument of that number, the named argument, and a question mark
-- where it is escaped. Where there is no such argument it puts a question mark with the name, if
-- there is one, which drops the parentheses around a name. The formatter has a dialect and
-- arguments are given; the texts hold no question mark, and no text behind a name goes on with it.
pub append_query-print :
    (f : Formatter) (args : List Arg) (dst : Bytes) (p : Template)
    → f.is_nop ≡ false
    → IsTemplate p
    → append_query f dst (print p) (some args) ≡ some (fill f args dst 0 p)
unfolding append_query
append_query-print f args dst p nop h = elim (Bool-cases (has_question (print p))) [
  | inl yes_mark ↦
      simp (nop, yes_mark) (loop-print f args p (length (print p)) 0 dst h (omega arith))
  | inr no_mark ↦
      simp (nop, no_mark)
        (sym (loop_end f args (length (print p)) 0 dst (print p) no_mark (omega arith))
          ∙ loop-print f args p (length (print p)) 0 dst h (omega arith))
]
