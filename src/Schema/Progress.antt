-- ===== src/Schema/Progress.antt =====
-- The loop of `append` ends for every query.
use shilohcommunityenterpris.Common.{
  ℕ, zero, suc, ◌≤◌, ◌<◌, Bool, true, false, List, [], ◌∷◌, ◌++◌, Option, none, some, ◌≢◌, inl, inr,
  arith, ◌==◌, Bytes, length, Bool-cases,
}
use shilohcommunityenterpris.Internal.Parser.{
  cut_at, cons_before, read_sep, scan_word, word_name, in_parens, paren_or_word, sep_or_all,
  read_identifier,
}
use shilohcommunityenterpris.Schema.Formatter.{
  Arg, Formatter, append_round, ends_in_backslash, append_loop, append_query, format_query,
  list_or_nil,
}

abbrev Shorter : ℕ → Option (Bytes × Bytes) → Type 0
Shorter n none = Unit
Shorter n (some (b, r)) = length r < n

cut_at-Shorter : (sep : ℕ) (s : Bytes) → Shorter (length s) (cut_at sep s)
unfolding cut_at
cut_at-Shorter sep [] = tt
cut_at-Shorter sep (c ∷ s) = elim (Bool-cases (c == sep)) [
  | inl found ↦ rw found (omega arith)
  | inr other ↦ rw other (go (cut_at sep s) (cut_at-Shorter sep s))
]
  where
    go :
        (o : Option (Bytes × Bytes))
        → Shorter (length s) o
        → Shorter (suc (length s)) (cons_before c o)
    go none h = tt
    go (some (b, r)) h = omega arith

length-scan_word :
    (s : Bytes) (started alpha : Bool) → length (scan_word started alpha s).2 ≤ length s
unfolding scan_word
length-scan_word [] started alpha = omega arith
length-scan_word (c ∷ s) started alpha =
    ground (arith, length-scan_word s true alpha, length-scan_word s true true)

length-word_name :
    (s : Bytes) (r : Bytes × Bool × Bytes)
    → length r.2 ≤ length s
    → length (word_name s r).2 ≤ length s
unfolding word_name
length-word_name s ([], a, r) h = omega arith
length-word_name s (c ∷ w, a, r) h = h

-- `ReadIdentifier` never moves back.
length-read_identifier : (s : Bytes) → length (read_identifier s).2 ≤ length s
unfolding read_identifier
length-read_identifier s = go (in_parens s) (parens s)
  where
    parens : (s : Bytes) → Shorter (suc (length s)) (in_parens s)
    parens [] = tt
    parens (c ∷ s) = elim (Bool-cases (c == b'(')) [
      | inl open_paren ↦ rw open_paren (weaken (cut_at b')' s) (cut_at-Shorter b')' s))
      | inr other ↦ rw other tt
    ]
      where
        weaken :
            (o : Option (Bytes × Bytes)) → Shorter (length s) o → Shorter (suc (suc (length s))) o
        weaken none h = tt
        weaken (some (b, r)) h = omega arith

    go :
        (o : Option (Bytes × Bytes))
        → Shorter (suc (length s)) o
        → length (paren_or_word s o).2 ≤ length s
    go none h = length-word_name s _ (length-scan_word s false false)
    go (some (b, r)) h = omega arith

module _ (f : Formatter) (args : List Arg) where
  -- A round goes on with fewer bytes.
  append_round-ne-none :
      (rec : Bytes → ℕ → Bytes → Option Bytes) (dst : Bytes) (i n : ℕ) (s : Bytes)
      (o : Option (Bytes × Bytes))
      → ((d : Bytes) (j : ℕ) (r : Bytes) → length r < suc n → rec d j r ≢ none)
      → Shorter (suc n) o
      → append_round f args rec dst i (sep_or_all s o) ≢ none
  unfolding append_round sep_or_all
  append_round-ne-none rec dst i n s none h l = h (dst ++ s) i [] (omega arith)
  append_round-ne-none rec dst i n s (some (b, r)) h l = elim (Bool-cases (ends_in_backslash b)) [
    | inl escaped ↦ rw escaped (h _ i r l)
    | inr plain ↦ rw plain (h _ _ _ (omega (arith, length-read_identifier r)))
  ]

  append_loop-ne-none :
      (fuel : ℕ) (dst : Bytes) (i : ℕ) (s : Bytes)
      → length s ≤ fuel
      → append_loop f args fuel dst i s ≢ none
  unfolding append_loop read_sep
  append_loop-ne-none fuel dst i [] l = ground arith
  append_loop-ne-none zero dst i (c ∷ s) l = absurd (omega arith)
  append_loop-ne-none (suc fuel) dst i (c ∷ s) l =
      append_round-ne-none (append_loop f args fuel) dst i (length s) (c ∷ s) (cut_at b'?' (c ∷ s))
        (λ d j r short. append_loop-ne-none fuel d j r (omega arith)) (cut_at-Shorter b'?' (c ∷ s))

-- `FormatQuery` and `AppendQuery` are done within their fuel, one round for each byte of the query,
-- for every query and every arguments.
pub append_query-ne-none :
    (f : Formatter) (dst query : Bytes) (args : Option (List Arg))
    → (append_query f dst query args ≢ none) × (format_query f query args ≢ none)
unfolding append_query format_query
append_query-ne-none f dst query args =
    let done = append_loop-ne-none f (list_or_nil args) (length query) dst 0 query (omega arith) in
    let fresh = append_loop-ne-none f (list_or_nil args) (length query) [] 0 query (omega arith) in
    (ground arith, ground arith)
