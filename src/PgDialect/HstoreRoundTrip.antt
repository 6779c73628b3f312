-- ===== src/PgDialect/HstoreRoundTrip.antt =====
-- Hstore values that are written are read back.
use shilohcommunityenterpris.Common.{
  ℕ, zero, suc, ◌+◌, ◌≤◌, Bool, true, false, List, [], ◌∷◌, ◌++◌, append-nil, append_assoc, none,
  some, ◌≡◌, refl, sym, ap, ◌∙◌, arith, ltb, if◌then◌else◌, Bytes, bytes_eq, All, All-append,
  length, length-append,
}
use shilohcommunityenterpris.Common.Utf8.{runes}
use shilohcommunityenterpris.Common.Result.{ok, err}
use shilohcommunityenterpris.Literal.{
  IsClean, keep, double, read_literal, read_literal-double, Follows,
}
use shilohcommunityenterpris.PgDialect.Append.{append_map_string_string}
use shilohcommunityenterpris.PgDialect.ArrayText.{quoted, escape_runes}
use shilohcommunityenterpris.PgDialect.Escape.{loop-escape_runes}
use shilohcommunityenterpris.PgDialect.HstoreText.{
  pair_text, hstore_tail, hstore_text, append_map-literal,
}
use shilohcommunityenterpris.PgDialect.Hstore.{
  first_is, new_hstore_parser, hstore_substring, next_key, value_in, next_value, put,
  decode_entries, decode_map_string_string,
}
use shilohcommunityenterpris.PgDialect.Parser.{malformed, skip_byte, skip_if}

key_quoted :
    (k t : Bytes)
    → IsClean k
    → next_key (record { unread = quoted k ++ (b'=' ∷ b'>' ∷ t); failure = none })
      ≡ ok (k, record { unread = t; failure = none })
unfolding next_key quoted skip_byte hstore_substring
key_quoted k t h = rw (
  append_assoc (escape_runes (keep (runes k))) (b'"' ∷ []) (b'=' ∷ b'>' ∷ t),
  h.no_nul,
  loop-escape_runes false (runes k) [] (b'=' ∷ b'>' ∷ t) refl,
  h.utf8,
)

value_quoted :
    (v t : Bytes)
    → IsClean v
    → next_value (record { unread = quoted v ++ t; failure = none })
      ≡ ok (v, record { unread = skip_if b' ' (skip_if b',' t); failure = none })
unfolding next_value quoted value_in hstore_substring
value_quoted v t h = rw (
  append_assoc (escape_runes (keep (runes v))) (b'"' ∷ []) t,
  h.no_nul,
  loop-escape_runes false (runes v) [] t refl,
  h.utf8,
)

-- An entry that goes to the database and back.
abbrev pub IsCleanPair : Bytes × Bytes → Type 0
IsCleanPair (k, v) = IsClean k × IsClean v

-- One round of the loop.
decode_step :
    (fuel : ℕ) (k v t : Bytes) (m : List (Bytes × Bytes))
    → IsCleanPair (k, v)
    → decode_entries (suc fuel) (record { unread = pair_text (k, v) ++ t; failure = none }) m
      ≡ decode_entries fuel
          (record { unread = skip_if b' ' (skip_if b',' t); failure = none })
          (put k v m)
unfolding decode_entries pair_text
decode_step fuel k v t m (hk, hv) =
    rw
      (
        append_assoc (quoted k) (b'=' ∷ b'>' ∷ quoted v) t,
        key_quoted k (quoted v ++ t) hk,
        decode_entries,
      )
      (rw (value_quoted v t hv, decode_entries))

put_all : List (Bytes × Bytes) → List (Bytes × Bytes) → List (Bytes × Bytes)
put_all acc [] = acc
put_all acc ((k, v) ∷ m) = put_all (put k v acc) m

skip_to_key :
    (e : Bytes × Bytes) (m : List (Bytes × Bytes))
    → skip_if b' ' (skip_if b',' (b',' ∷ hstore_tail e m)) ≡ hstore_tail e m
unfolding skip_if hstore_tail pair_text quoted
skip_to_key (k, v) [] = refl
skip_to_key (k, v) (d ∷ m) = refl

decode_end :
    (fuel : ℕ) (acc : List (Bytes × Bytes))
    → decode_entries
        (suc fuel)
        (record { unread = skip_if b' ' (skip_if b',' []); failure = none })
        acc
      ≡ some (ok acc)
unfolding decode_entries next_key skip_byte skip_if
decode_end fuel acc = refl

decode-hstore_tail :
    (m : List (Bytes × Bytes)) (k v : Bytes) (fuel : ℕ) (acc : List (Bytes × Bytes))
    → All IsCleanPair ((k, v) ∷ m)
    → length m + 2 ≤ fuel
    → decode_entries fuel (record { unread = hstore_tail (k, v) m; failure = none }) acc
      ≡ some (ok (put_all acc ((k, v) ∷ m)))
unfolding hstore_tail put_all
decode-hstore_tail m k v zero acc h l = absurd (omega arith)
decode-hstore_tail m k v (suc zero) acc h l = absurd (omega arith)
decode-hstore_tail [] k v (suc (suc fuel)) acc (hp, _) l =
    rw (← append-nil (pair_text (k, v)))
      (decode_step (suc fuel) k v [] acc hp ∙ decode_end fuel (put k v acc))
decode-hstore_tail ((j, w) ∷ m) k v (suc (suc fuel)) acc (hp, hs) l =
    decode_step (suc fuel) k v (b',' ∷ hstore_tail (j, w) m) acc hp
    ∙ rw skip_to_key (decode-hstore_tail m j w (suc fuel) (put k v acc) hs (omega arith))

-- No two entries have one key, as in a Go map.
abbrev pub Fresh : Bytes → List (Bytes × Bytes) → Type 0
Fresh k m = All (λ e. bytes_eq e.0 k ≡ false) m

abbrev pub IsMap : List (Bytes × Bytes) → Type 0
IsMap [] = Unit
IsMap ((k, v) ∷ m) = All (λ e. bytes_eq k e.0 ≡ false) m × IsMap m

put-Fresh : (k v : Bytes) (m : List (Bytes × Bytes)) → Fresh k m → put k v m ≡ m ++ (k, v) ∷ []
unfolding put
put-Fresh k v [] h = refl
put-Fresh k v ((j, w) ∷ m) h = rw h.0 (ap (◌∷◌ (j, w)) (put-Fresh k v m h.1))

-- The entries so far have none of the keys to come.
abbrev Apart : List (Bytes × Bytes) → List (Bytes × Bytes) → Type 0
Apart acc [] = Unit
Apart acc ((k, v) ∷ m) = Fresh k acc × Apart acc m

Apart-concat :
    (acc m : List (Bytes × Bytes)) (k v : Bytes)
    → Apart acc m
    → All (λ e. bytes_eq k e.0 ≡ false) m
    → Apart (acc ++ (k, v) ∷ []) m
Apart-concat acc [] k v h n = tt
Apart-concat acc ((j, w) ∷ m) k v h n = (
  All-append (λ e. bytes_eq e.0 j ≡ false) acc ((k, v) ∷ []) h.0 (n.0, tt),
  Apart-concat acc m k v h.1 n.1,
)

put_all-append : (acc m : List (Bytes × Bytes)) → IsMap m → Apart acc m → put_all acc m ≡ acc ++ m
unfolding put_all
put_all-append acc [] d h = sym (append-nil acc)
put_all-append acc ((k, v) ∷ m) (new, d) (fresh, h) = rw (put-Fresh k v acc fresh) (
    put_all-append (acc ++ (k, v) ∷ []) m d (Apart-concat acc m k v h new)
    ∙ append_assoc acc ((k, v) ∷ []) m)

Apart-nil : (m : List (Bytes × Bytes)) → Apart [] m
Apart-nil [] = tt
Apart-nil (e ∷ m) = (tt, Apart-nil m)

length-quoted : (s : Bytes) → 2 ≤ length (quoted s)
unfolding quoted
length-quoted s = omega (arith, length-append (escape_runes (keep (runes s))) (b'"' ∷ []))

length-pair_text : (k v : Bytes) → 6 ≤ length (pair_text (k, v))
unfolding pair_text
length-pair_text k v =
    omega
      (arith, length-append (quoted k) (b'=' ∷ b'>' ∷ quoted v), length-quoted k, length-quoted v)

length-hstore_tail :
    (m : List (Bytes × Bytes)) (k v : Bytes) → length m + 6 ≤ length (hstore_tail (k, v) m)
unfolding hstore_tail
length-hstore_tail [] k v = omega (arith, length-pair_text k v)
length-hstore_tail ((j, w) ∷ m) k v = omega (
  arith,
  length-append (pair_text (k, v)) (b',' ∷ hstore_tail (j, w) m),
  length-pair_text k v,
  length-hstore_tail m j w,
)

new_parser :
    (m : List (Bytes × Bytes)) (k v : Bytes)
    → new_hstore_parser (hstore_tail (k, v) m)
      ≡ record { unread = hstore_tail (k, v) m; failure = none }
unfolding new_hstore_parser
new_parser m k v = rw (long_enough, starts_quoted m)
  where
    long_enough : ltb (length (hstore_tail (k, v) m)) 6 ≡ false
    long_enough = ground (arith, length-hstore_tail m k v)

    starts_quoted : (n : List (Bytes × Bytes)) → first_is b'"' (hstore_tail (k, v) n) ≡ true
    starts_quoted [] = unfold hstore_tail pair_text quoted first_is in refl
    starts_quoted (d ∷ n) = unfold hstore_tail pair_text quoted first_is in refl

abbrev pub is_nil : List (Bytes × Bytes) → Bool
is_nil [] = true
is_nil (e ∷ m) = false

decode_map-hstore_text :
    (m : List (Bytes × Bytes))
    → All IsCleanPair m
    → IsMap m
    → decode_map_string_string (hstore_text m)
      ≡ some (if is_nil m then err (malformed []) else ok m)
unfolding decode_map_string_string hstore_text
decode_map-hstore_text [] c d = refl
decode_map-hstore_text ((k, v) ∷ m) c d = rw (new_parser m k v) (
    decode-hstore_tail m k v (suc (length (hstore_tail (k, v) m))) [] c
      (omega (arith, length-hstore_tail m k v))
    ∙ ap (λ x. some (ok x)) (put_all-append [] ((k, v) ∷ m) d (Apart-nil ((k, v) ∷ m))))

-- A map with an entry goes to the database as one string literal, which a reader of SQL takes
-- whole, and whose text `decodeMapStringString` reads back as the same entries, where the keys
-- differ and keys and values are valid UTF-8 without NUL. The empty map is written as the empty
-- text, which is refused as malformed.
pub map_round_trip :
    (b rest : Bytes) (m : List (Bytes × Bytes))
    → Follows rest
    → All IsCleanPair m
    → IsMap m
    → (w t : Bytes) × (append_map_string_string b (some m) ≡ b ++ w)
      × (read_literal (w ++ rest) ≡ some (t, rest))
      × (decode_map_string_string t ≡ some (if is_nil m then err (malformed []) else ok m))
map_round_trip b rest m h clean distinct = (
  b'\'' ∷ (double (hstore_text m) ++ b'\'' ∷ []),
  hstore_text m,
  append_map-literal b m,
  rw append_assoc (read_literal-double (hstore_text m) rest h),
  decode_map-hstore_text m clean distinct,
)
