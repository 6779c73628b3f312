-- ===== src/PgDialect/Escape.antt =====
-- A quoted element read back by the loop of the two `readSubstring`s.
use shilohcommunityenterpris.Common.{
  ℕ, ◌≤◌, ◌<◌, Bool, true, false, ◌&&◌, ◌||◌, List, [], ◌∷◌, ◌++◌, append-nil, append_assoc, none,
  ◌≡◌, ◌≢◌, refl, ap, ◌∙◌, arith, ◌==◌, ltb, Bytes, All, Bool-cases, inl, inr,
}
use shilohcommunityenterpris.Common.Utf8.{
  encode_rune, encode_runes, encode_rune-All, encode_rune_ascii,
}
use shilohcommunityenterpris.Common.Result.{ok}
use shilohcommunityenterpris.PgDialect.ArrayText.{escape_rune, escape_runes}
use shilohcommunityenterpris.PgDialect.Parser.{substring_loop}

-- Two apostrophes in a row.
unfoldable pub has_pair : List ℕ → Bool
has_pair [] = false
has_pair (a ∷ []) = false
has_pair (a ∷ b ∷ rs) = (a == b'\'' && b == b'\'') || has_pair (b ∷ rs)

-- A byte that the loop takes as it is.
abbrev Plain : ℕ → Type 0
Plain c = (c ≢ b'"') × (c ≢ b'\\') × (c ≢ b'\'')

All-Plain : (bs : Bytes) → All (λ c. 0x80 ≤ c) bs → All Plain bs
All-Plain [] h = tt
All-Plain (c ∷ bs) (high, hs) = ((omega arith, omega arith, omega arith), All-Plain bs hs)

escape_rune_high : (r : ℕ) → 0x80 ≤ r → escape_rune r ≡ encode_rune r
unfolding escape_rune
escape_rune_high r h = ground arith

module _ (pairs : Bool) where
  loop-Plain :
      (c n : ℕ) (buf t : Bytes)
      → Plain c
      → substring_loop pairs none buf (c ∷ n ∷ t)
        ≡ substring_loop pairs none (buf ++ c ∷ []) (n ∷ t)
  unfolding substring_loop
  loop-Plain c n buf t h = ground arith

  loop-All :
      (bs : Bytes) (n : ℕ) (buf t : Bytes)
      → All Plain bs
      → substring_loop pairs none buf (bs ++ n ∷ t) ≡ substring_loop pairs none (buf ++ bs) (n ∷ t)
  loop-All [] n buf t h = rw append-nil
  loop-All (c ∷ []) n buf t h = loop-Plain c n buf t h.0
  loop-All (c ∷ d ∷ bs) n buf t h =
      loop-Plain c d buf (bs ++ n ∷ t) h.0
      ∙ loop-All (d ∷ bs) n (buf ++ c ∷ []) t h.1
      ∙ rw append_assoc

  loop_escaped :
      (c n : ℕ) (buf t : Bytes)
      → (c == b'\\' || c == b'"') ≡ true
      → substring_loop pairs none buf (b'\\' ∷ c ∷ n ∷ t)
        ≡ substring_loop pairs none (buf ++ c ∷ []) (n ∷ t)
  unfolding substring_loop
  loop_escaped c n buf t h = ground arith

  loop_apostrophe :
      (n : ℕ) (buf t : Bytes)
      → (pairs && n == b'\'') ≡ false
      → substring_loop pairs none buf (b'\'' ∷ n ∷ t)
        ≡ substring_loop pairs none (buf ++ b'\'' ∷ []) (n ∷ t)
  unfolding substring_loop
  loop_apostrophe n buf t h = ground arith

  escape_rune_low :
      (r n : ℕ) (buf t : Bytes)
      → (pairs && r == b'\'' && n == b'\'') ≡ false
      → r < 0x80
      → substring_loop pairs none buf (escape_rune r ++ n ∷ t)
        ≡ substring_loop pairs none (buf ++ r ∷ []) (n ∷ t)
  unfolding escape_rune
  escape_rune_low r n buf t h l = ground (
    arith,
    loop_escaped r n buf t,
    loop_apostrophe n buf t,
    loop-Plain r n buf t,
    encode_rune_ascii r l,
  )

  -- An escaped rune, with any byte behind it but an apostrophe behind an apostrophe.
  loop-escape_rune :
      (r n : ℕ) (buf t : Bytes)
      → (pairs && r == b'\'' && n == b'\'') ≡ false
      → substring_loop pairs none buf (escape_rune r ++ n ∷ t)
        ≡ substring_loop pairs none (buf ++ encode_rune r) (n ∷ t)
  loop-escape_rune r n buf t h = elim (Bool-cases (ltb r 0x80)) [
    | inl low ↦ rw (encode_rune_ascii r (ground arith)) (escape_rune_low r n buf t h (ground arith))
    | inr high ↦ rw (escape_rune_high r (ground arith)) (
        loop-All (encode_rune r) n buf t
          (All-Plain (encode_rune r) (encode_rune-All r (ground arith))))
  ]

loop_end :
    (pairs : Bool) (buf t : Bytes) → substring_loop pairs none buf (b'"' ∷ t) ≡ ok (buf ++ [], t)
unfolding substring_loop
loop_end pairs buf [] = rw append-nil
loop_end pairs buf (c ∷ t) = rw append-nil

-- What stands behind an escaped text begins with an apostrophe only if its first rune is one.
abbrev starts : ℕ → List ℕ → Bool
starts c [] = false
starts c (r ∷ rs) = r == c

abbrev first : Bytes → ℕ
first [] = 0
first (c ∷ s) = c

abbrev rest : Bytes → Bytes
rest [] = []
rest (c ∷ s) = s

escape_rune_head :
    (r : ℕ) → (n : ℕ) × (u : Bytes) × (escape_rune r ≡ n ∷ u) × ((n == b'\'') ≡ (r == b'\''))
unfolding escape_rune encode_rune
escape_rune_head r = (first (escape_rune r), rest (escape_rune r), ground arith, ground arith)

escape_runes_head :
    (rs : List ℕ) (t : Bytes)
    → (n : ℕ) × (u : Bytes) × (escape_runes rs ++ b'"' ∷ t ≡ n ∷ u)
      × ((n == b'\'') ≡ starts b'\'' rs)
unfolding escape_runes
escape_runes_head [] t = (b'"', t, refl, refl)
escape_runes_head (r ∷ rs) t =
    let (n, u, e, same) = escape_rune_head r in
    (
      n,
      u ++ (escape_runes rs ++ b'"' ∷ t),
      rw e (ap (◌∷◌ n) (append_assoc u (escape_runes rs) (b'"' ∷ t))),
      same,
    )

has_pair_step :
    (pairs : Bool) (r n : ℕ) (rs : List ℕ)
    → (pairs && has_pair (r ∷ rs)) ≡ false
    → (n == b'\'') ≡ starts b'\'' rs
    → ((pairs && r == b'\'' && n == b'\'') ≡ false) × ((pairs && has_pair rs) ≡ false)
unfolding has_pair
has_pair_step pairs r n [] h e = ground arith
has_pair_step pairs r n (x ∷ rs) h e = ground arith

-- An escaped text is read up to its closing quote. Where two apostrophes are read as one, the text
-- holds no two in a row.
pub loop-escape_runes :
    (pairs : Bool) (rs : List ℕ) (buf t : Bytes)
    → (pairs && has_pair rs) ≡ false
    → substring_loop pairs none buf (escape_runes rs ++ b'"' ∷ t) ≡ ok (buf ++ encode_runes rs, t)
unfolding escape_runes encode_runes
loop-escape_runes pairs [] buf t h = loop_end pairs buf t
loop-escape_runes pairs (r ∷ rs) buf t h =
    let (n, u, e, same) = escape_runes_head rs t in
    let (free, later) = has_pair_step pairs r n rs h same in
    rw
      (
        append_assoc (escape_rune r) (escape_runes rs) (b'"' ∷ t),
        e,
        loop-escape_rune pairs r n buf u free,
        ← e,
        loop-escape_runes pairs rs (buf ++ encode_rune r) t later,
      )
      (rw append_assoc)
