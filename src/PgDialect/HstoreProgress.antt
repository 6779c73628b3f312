-- ===== src/PgDialect/HstoreProgress.antt =====
-- The hstore parser reads on, and the loop over it ends.
use shilohcommunityenterpris.Common.{
  ℕ, zero, suc, ◌<◌, false, List, [], ◌∷◌, ◌≡◌, ◌≢◌, inl, inr, Option, none, some, arith, ◌==◌,
  Bytes, length, Bool-cases,
}
use shilohcommunityenterpris.Common.Result.{ok, bind-eq-ok, Result-cases}
use shilohcommunityenterpris.PgDialect.Hstore.{
  HstoreParser, new_hstore_parser, hstore_substring, cut_or_all, hstore_simple, next_key, value_in,
  next_value, put, decode_entries, decode_map_string_string,
}
use shilohcommunityenterpris.PgDialect.Parser.{
  Error, skip_byte, skip_if, substring_loop, cut_comma, cons_cut,
}
use shilohcommunityenterpris.PgDialect.Progress.{length-substring_loop, length-skip_if}

length-skip_byte : (c : ℕ) (s r : Bytes) → skip_byte c s ≡ ok r → length r < length s
unfolding skip_byte
length-skip_byte c [] r e = cc
length-skip_byte c (x ∷ s) r e = ground arith

length-next_key :
    (u : Bytes) (f : Option Error) (k : Bytes) (q : HstoreParser)
    → next_key (record { unread = u; failure = f }) ≡ ok (k, q)
    → (length q.unread < length u) × (q.failure ≡ none)
unfolding next_key hstore_substring
length-next_key u (some x) k q e = cc
length-next_key u none k q e =
    let (s, opened, e1) = bind-eq-ok (skip_byte b'"' u) _ e in
    let ((key, behind), read, e2) = bind-eq-ok (substring_loop false none [] s) _ e1 in
    let (after_eq, equals, e3) = bind-eq-ok (skip_byte b'=' behind) _ e2 in
    let (rest, greater, e4) = bind-eq-ok (skip_byte b'>' after_eq) _ e3 in
    ground (
      arith,
      length-skip_byte b'"' u s,
      length-substring_loop false none [] s key behind,
      length-skip_byte b'=' behind after_eq,
      length-skip_byte b'>' after_eq rest,
    )

abbrev Shorter : ℕ → Option (Bytes × Bytes) → Type 0
Shorter n none = Unit
Shorter n (some (b, r)) = length (skip_if b',' r) < n

cons_cut-Shorter :
    (c n : ℕ) (o : Option (Bytes × Bytes)) → Shorter n o → Shorter (suc n) (cons_cut c o)
cons_cut-Shorter c n none h = tt
cons_cut-Shorter c n (some (b, r)) h = omega arith

cut_comma-Shorter : (s : Bytes) → Shorter (length s) (cut_comma s)
unfolding cut_comma skip_if
cut_comma-Shorter [] = tt
cut_comma-Shorter (c ∷ s) = elim (Bool-cases (c == b',')) [
  | inl comma ↦ rw (comma, skip_if) (rw comma (omega arith))
  | inr plain ↦ rw plain (cons_cut-Shorter c (length s) (cut_comma s) (cut_comma-Shorter s))
]

length-hstore_simple :
    (c : ℕ) (s : Bytes) → length (skip_if b',' (hstore_simple (c ∷ s)).1) < suc (length s)
unfolding hstore_simple
length-hstore_simple c s = go (cut_comma (c ∷ s)) (cut_comma-Shorter (c ∷ s))
  where
    go :
        (o : Option (Bytes × Bytes))
        → Shorter (suc (length s)) o
        → length (skip_if b',' (cut_or_all (c ∷ s) o).1) < suc (length s)
    go none h = unfold skip_if in omega arith
    go (some (b, r)) h = h

length-next_value :
    (u : Bytes) (f : Option Error) (v : Bytes) (q : HstoreParser)
    → next_value (record { unread = u; failure = f }) ≡ ok (v, q)
    → (length q.unread < length u) × (q.failure ≡ none)
unfolding next_value value_in hstore_substring
length-next_value u (some x) v q e = cc
length-next_value [] none v q e = cc
length-next_value (c ∷ s) none v q e = elim (Bool-cases (c == b'"')) [
  | inl quote ↦
      let ((w, r), outer, e1) = bind-eq-ok (value_in (c ∷ s)) _ e in
      let ((b, rest), read, e2) =
        bind-eq-ok (substring_loop false none [] s) _ (rw quote at outer) in
      ground (
        arith,
        length-substring_loop false none [] s b rest read,
        length-skip_if b',' rest,
        length-skip_if b' ' (skip_if b',' rest),
      )
  | inr simple ↦ ground (arith, length-hstore_simple c s)
]

decode_entries-ne-none :
    (fuel : ℕ) (u : Bytes) (f : Option Error) (m : List (Bytes × Bytes))
    → length u < fuel
    → decode_entries fuel (record { unread = u; failure = f }) m ≢ none
unfolding decode_entries
decode_entries-ne-none zero u f m h = absurd (omega arith)
decode_entries-ne-none (suc fuel) u f m h =
    elim (Result-cases (next_key (record { unread = u; failure = f }))) [
      | inl (e, stop) ↦ rw (stop, decode_entries) (ground arith)
      | inr ((k, q), key) ↦
          rw (key, decode_entries)
            (elim (Result-cases (next_value q)) [
              | inl (e, stop) ↦ rw (stop, decode_entries) (ground arith)
              | inr ((v, r), val) ↦
                  rw (val, decode_entries)
                    (let (short, ok_q) = length-next_key u f k q key in
                      let (shorter, ok_r) = length-next_value q.unread q.failure v r val in
                      decode_entries-ne-none fuel r.unread r.failure (put k v m) (omega arith))
            ])
    ]

-- `decodeMapStringString` is done within its fuel, one round more than the text has bytes, for
-- every text, well-formed or not.
pub decode_map-ne-none : (b : Bytes) → decode_map_string_string b ≢ none
unfolding decode_map_string_string
decode_map-ne-none b =
    decode_entries-ne-none (suc (length b)) b (new_hstore_parser b).failure [] (omega arith)
