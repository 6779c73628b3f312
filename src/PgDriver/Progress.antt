-- ===== src/PgDriver/Progress.antt =====
-- The end of the loop of `formatQuery`.
use shilohcommunityenterpris.Common.{
  ℕ, zero, suc, ◌≤◌, List, [], ◌∷◌, ◌++◌, Option, none, ◌==◌, Bytes, length, ◌≢◌, arith, Bool-cases,
  inl, inr,
}
use shilohcommunityenterpris.Common.Decimal.{atoi}
use shilohcommunityenterpris.Common.Result.{Result, ok, err}
use shilohcommunityenterpris.PgDriver.Format.{
  Arg, FormatError, digits, number, quoted_from, quoted_string, put_number, go_on, format_round,
  format_loop, format_query, no_args,
}

length-digits : (s : Bytes) → length (digits s).1 ≤ length s
unfolding digits
length-digits [] = omega arith
length-digits (c ∷ s) = let ih = length-digits s in ground (arith, ih)

length-quoted_from : (c : ℕ) (s : Bytes) → length (quoted_from c s).1 ≤ length s
unfolding quoted_from
length-quoted_from c [] = omega arith
length-quoted_from c (x ∷ s) = let ih = length-quoted_from x s in ground (arith, ih)

module _ {F : Type 0} (show : F → Bytes) (args : List (Arg F)) where
  go_on-ne-none :
      (rec : Bytes → Bytes → Option (Result FormatError Bytes)) (r : Result FormatError Bytes)
      (s : Bytes)
      → ((b : Bytes) → rec b s ≢ none)
      → go_on show args rec r s ≢ none
  go_on-ne-none rec (ok b) s h = h b
  go_on-ne-none rec (err e) s h = λ k. cc

  format_loop-ne-none :
      (fuel : ℕ) (dst s : Bytes) → length s ≤ fuel → format_loop show args fuel dst s ≢ none
  unfolding format_loop format_round number quoted_string
  format_loop-ne-none fuel dst [] le = λ k. ground arith
  format_loop-ne-none zero dst (c ∷ s) le = absurd (omega (arith, le))
  format_loop-ne-none (suc fuel) dst (c ∷ s) le = elim (Bool-cases (c == b'$')) [
    | inl e ↦ rw (e) (
        go_on-ne-none (format_loop show args fuel) (put_number show args dst (atoi (digits s).0))
          (digits s).1
          (λ b. format_loop-ne-none fuel b (digits s).1 (omega (arith, le, length-digits s))))
    | inr e ↦ elim (Bool-cases (c == b'\'')) [
      | inl g ↦
          rw (e, g)
            (format_loop-ne-none fuel (dst ++ b'\'' ∷ (quoted_from 0 s).0) (quoted_from 0 s).1
              (omega (arith, le, length-quoted_from 0 s)))
      | inr g ↦ rw (e, g) (format_loop-ne-none fuel (dst ++ c ∷ []) s (omega (arith, le)))
    ]
  ]

  -- formatQuery is done within its fuel, one round for each byte of the query, for every query and
  -- arguments.
  pub format_query-ne-none : (query : Bytes) → format_query show args query ≢ none
  unfolding format_query
  format_query-ne-none query = elim (Bool-cases (no_args args)) [
    | inl e ↦ rw (e) (λ k. cc)
    | inr e ↦ rw (e) (format_loop-ne-none (length query) [] query (omega arith))
  ]
