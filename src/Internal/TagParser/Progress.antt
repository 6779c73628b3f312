-- ===== src/Internal/TagParser/Progress.antt =====
-- The end of the loops of the tag parser: no loop leaves more than it was given.
use shilohcommunityenterpris.Common.{
  ℕ, zero, suc, ◌-◌, ◌≤◌, Bool-cases, inl, inr, [], ◌∷◌, ◌++◌, Option, none, some, ◌≡◌, ◌≢◌, refl,
  sym, subst, arith, ◌==◌, Bytes, length,
}
use mathlib.Core.Option.{some-injective}
use shilohcommunityenterpris.Internal.Parser.{cut_at, cons_before}
use shilohcommunityenterpris.Internal.TagParser.{
  Tag, State, unescape, ends_escaped, quoted_or, parse_quoted_value, close_pair, skip_pairs,
  after_pairs, value_from, parse_value, with_value, set_name, add_option, before, key_from,
  skip_comma, go_on, parse_loop, parse,
}

length-unescape : (out s : Bytes) → length (unescape out s).1 ≤ length s
unfolding unescape
length-unescape out [] = omega arith
length-unescape out (c ∷ []) = ground arith
length-unescape out (c ∷ d ∷ s) =
    let escaped = length-unescape (out ++ d ∷ []) s in
    let byte = length-unescape (out ++ c ∷ []) (d ∷ s) in ground (arith, escaped, byte)

-- What a cut leaves is shorter.
abbrev Cut : ℕ → Option (Bytes × Bytes) → Type 0
Cut n none = Unit
Cut n (some (b, r)) = length r ≤ n

cons_before-Cut : (c n : ℕ) (o : Option (Bytes × Bytes)) → Cut n o → Cut (suc n) (cons_before c o)
cons_before-Cut c n none h = tt
cons_before-Cut c n (some (b, r)) h = omega (arith, h)

cut_at-Cut : (sep : ℕ) (s : Bytes) → Cut (length s) (cut_at sep s)
unfolding cut_at
cut_at-Cut sep [] = tt
cut_at-Cut sep (c ∷ s) = elim (Bool-cases (c == sep)) [
  | inl e ↦ rw (e) (omega arith)
  | inr e ↦ rw (e) (cons_before-Cut c (length s) (cut_at sep s) (cut_at-Cut sep s))
]

length-quoted_or :
    (s : Bytes) (o : Option (Bytes × Bytes))
    → Cut (length s) o
    → length (quoted_or s o).1 ≤ length s
unfolding quoted_or
length-quoted_or s none h = length-unescape [] s
length-quoted_or s (some (b, r)) h = elim (Bool-cases (ends_escaped b'"' b)) [
  | inl e ↦ rw (e) (length-unescape [] s)
  | inr e ↦ rw (e) h
]

length-parse_quoted_value : (s : Bytes) → length (parse_quoted_value s).1 ≤ length s
unfolding parse_quoted_value
length-parse_quoted_value s = length-quoted_or s (cut_at b'"' s) (cut_at-Cut b'"' s)

abbrev Skipped : ℕ → Option Bytes → Type 0
Skipped n o = (r : Bytes) × (o ≡ some r) × (length r ≤ n)

Skipped-mono : {m n : ℕ} {o : Option Bytes} → m ≤ n → Skipped m o → Skipped n o
Skipped-mono le (r, e, h) = (r, e, omega (arith, le, h))

close_pair-Skipped :
    (rec : ℕ → Bytes → Option Bytes) (lvl : ℕ) (s : Bytes)
    → ((l : ℕ) → Skipped (length s) (rec l s))
    → Skipped (length s) (close_pair rec lvl s)
unfolding close_pair
close_pair-Skipped rec zero s h = (s, refl, omega arith)
close_pair-Skipped rec (suc lvl) s h = h lvl

skip_pairs-Skipped :
    (fuel lvl : ℕ) (s : Bytes) → length s ≤ fuel → Skipped (length s) (skip_pairs fuel lvl s)
unfolding skip_pairs
skip_pairs-Skipped fuel lvl [] le = ([], refl, omega arith)
skip_pairs-Skipped zero lvl (c ∷ s) le = absurd (omega (arith, le))
skip_pairs-Skipped (suc fuel) lvl (c ∷ s) le =
    let shorter : length s ≤ fuel = omega (arith, le) in
    let on : (l : ℕ) → Skipped (length s) (skip_pairs fuel l s) =
      λ l. skip_pairs-Skipped fuel l s shorter in
    let longer : length s ≤ length (c ∷ s) = omega arith in
    elim (Bool-cases (c == b'"')) [
      | inl e ↦
          let q = length-parse_quoted_value s in
          rw (e) (
            Skipped-mono (omega (arith, q))
              (skip_pairs-Skipped fuel lvl (parse_quoted_value s).1 (omega (arith, q, shorter))))
      | inr e ↦ elim (Bool-cases (c == b'(')) [
        | inl f ↦ rw (e, f) (Skipped-mono longer (on (suc lvl)))
        | inr f ↦ elim (Bool-cases (c == b')')) [
          | inl g ↦
              rw (e, f, g) (Skipped-mono longer (close_pair-Skipped (skip_pairs fuel) lvl s on))
          | inr g ↦ rw (e, f, g) (Skipped-mono longer (on lvl))
        ]
      ]
    ]

-- A value is read, and what it leaves is no longer.
abbrev Read : {A : Type 0} → ℕ → Option (A × Bytes) → Type 0
Read {A} n o = (v : A) × (r : Bytes) × (o ≡ some (v, r)) × (length r ≤ n)

Read-mono : {A : Type 0} {m n : ℕ} {o : Option (A × Bytes)} → m ≤ n → Read m o → Read n o
Read-mono le (v, r, e, h) = (v, r, e, omega (arith, le, h))

after_pairs-Read :
    {n : ℕ} (rec : Bytes → Option (Bytes × Bytes)) (o : Option Bytes)
    → Skipped n o
    → ((r : Bytes) → length r ≤ n → Read n (rec r))
    → Read n (after_pairs rec o)
after_pairs-Read rec none (r, e, h) k = cc
after_pairs-Read {n} rec (some x) (r, e, h) k =
    k x (subst (λ y. length y ≤ n) (sym (some-injective _ _ e)) h)

value_from-Read :
    (fuel : ℕ) (whole s : Bytes) → length s ≤ fuel → Read (length s) (value_from fuel whole s)
unfolding value_from
value_from-Read fuel whole [] le = (whole, [], refl, omega arith)
value_from-Read zero whole (c ∷ s) le = absurd (omega (arith, le))
value_from-Read (suc fuel) whole (c ∷ s) le =
    let shorter : length s ≤ fuel = omega (arith, le) in
    let longer : length s ≤ length (c ∷ s) = omega arith in
    elim (Bool-cases (c == b'"')) [
      | inl e ↦ rw (e) (
        (parse_quoted_value s).0,
        (parse_quoted_value s).1,
        refl,
        omega (arith, length-parse_quoted_value s),
      )
      | inr e ↦ elim (Bool-cases (c == b',')) [
        | inl f ↦ rw (e, f) (before whole (c ∷ s), s, refl, longer)
        | inr f ↦ elim (Bool-cases (c == b'(')) [
          | inl g ↦
              rw (e, f, g)
                (Read-mono longer (
                  after_pairs-Read (value_from fuel whole) (skip_pairs (length s) 0 s)
                    (skip_pairs-Skipped (length s) 0 s (omega arith))
                    (λ r h.
                      Read-mono h (value_from-Read fuel whole r (omega (arith, h, shorter))))))
          | inr g ↦ rw (e, f, g) (Read-mono longer (value_from-Read fuel whole s shorter))
        ]
      ]
    ]

with_value-Read :
    {n : ℕ} (st : State) (k : Bytes) (o : Option (Bytes × Bytes))
    → Read n o
    → Read n (with_value st k o)
with_value-Read st k none (v, r, e, h) = cc
with_value-Read {n} st k (some (w, s)) (v, r, e, h) =
    (add_option k w st, s, refl, subst (λ p. length p.1 ≤ n) (sym (some-injective _ _ e)) h)

-- A key takes a byte, if there is one.
key_from-Read : (st : State) (whole s : Bytes) → Read (length s - 1) (key_from st whole s)
unfolding key_from parse_value
key_from-Read st whole [] = (set_name whole st, [], refl, omega arith)
key_from-Read st whole (c ∷ s) =
    let longer : length s ≤ length (c ∷ s) - 1 = omega arith in
    elim (Bool-cases (c == b',')) [
      | inl e ↦ rw (e) (set_name (before whole (c ∷ s)) st, s, refl, longer)
      | inr e ↦ elim (Bool-cases (c == b':')) [
        | inl f ↦
            rw (e, f)
              (with_value-Read st (before whole (c ∷ s)) (value_from (length s) s s)
                (Read-mono longer (value_from-Read (length s) s s (omega arith))))
        | inr f ↦ elim (Bool-cases (c == b'"')) [
          | inl g ↦
              rw (e, f, g)
                (
                  set_name (parse_quoted_value s).0 st,
                  (parse_quoted_value s).1,
                  refl,
                  omega (arith, length-parse_quoted_value s),
                )
          | inr g ↦ rw (e, f, g) (Read-mono (omega arith) (key_from-Read st whole s))
        ]
      ]
    ]

length-skip_comma : (s : Bytes) → length (skip_comma s) ≤ length s
unfolding skip_comma
length-skip_comma [] = omega arith
length-skip_comma (c ∷ s) = ground arith

go_on-ne-none :
    {n : ℕ} (rec : State → Bytes → Option Tag) (o : Option (State × Bytes))
    → Read n o
    → ((st : State) (r : Bytes) → length r ≤ n → rec st r ≢ none)
    → go_on rec o ≢ none
go_on-ne-none rec none (v, r, e, h) k = cc
go_on-ne-none {n} rec (some (st, s)) (v, r, e, h) k =
    let same : length s ≤ n = subst (λ p. length p.1 ≤ n) (sym (some-injective _ _ e)) h in
    k st (skip_comma s) (omega (arith, length-skip_comma s, same))

parse_loop-ne-none :
    (fuel : ℕ) (st : State) (s : Bytes) → length s ≤ fuel → parse_loop fuel st s ≢ none
unfolding parse_loop
parse_loop-ne-none fuel st [] le = λ k. cc
parse_loop-ne-none zero st (c ∷ s) le = absurd (omega (arith, le))
parse_loop-ne-none (suc fuel) st (c ∷ s) le =
    go_on-ne-none (parse_loop fuel) (key_from st (c ∷ s) (c ∷ s)) (key_from-Read st (c ∷ s) (c ∷ s))
      (λ t r h. parse_loop-ne-none fuel t r (omega (arith, le, h)))

-- Parse is done within its fuel, one round for each byte of the tag, for every tag, well-formed or
-- not.
pub parse-ne-none : (s : Bytes) → parse s ≢ none
unfolding parse
parse-ne-none s = parse_loop-ne-none (length s) _ s (omega arith)
