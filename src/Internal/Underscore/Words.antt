-- ===== src/Internal/Underscore/Words.antt =====
-- `Underscore` and `CamelCased` on names that are put together from words.
use shilohcommunityenterpris.Common.{
  ℕ, ◌-◌, ◌≤◌, true, false, append-nil, List, [], ◌∷◌, ◌++◌, none, some, Bytes, All, ◌≡◌, refl, sym,
  ap, ◌∙◌, arith,
}
use shilohcommunityenterpris.Internal.Underscore.{
  underscore_loop, underscore, camel_loop, camel_cased, starts_word, underscore_byte,
}

-- A word has two letters at least, all in lower case.
pub record Word : Type 0 where
  pub first : ℕ
  pub second : ℕ
  pub rest : Bytes

abbrev pub IsLower : ℕ → Type 0
IsLower c = (b'a' ≤ c) × (c ≤ b'z')

abbrev pub IsWord : Word → Type 0
IsWord w = IsLower w.first × IsLower w.second × All IsLower w.rest

-- The words with underscores between them.
unfoldable pub snake : List Word → Bytes
snake [] = []
snake (w ∷ []) = w.first ∷ w.second ∷ w.rest
snake (w ∷ v ∷ ws) = w.first ∷ w.second ∷ (w.rest ++ b'_' ∷ snake (v ∷ ws))

-- The words behind one another, each with a capital.
unfoldable pub camel : List Word → Bytes
camel [] = []
camel (w ∷ ws) = (w.first - 32) ∷ w.second ∷ (w.rest ++ camel ws)

camel_loop-lower :
    (n s : Bytes) → All IsLower n → camel_loop false (n ++ s) ≡ n ++ camel_loop false s
unfolding camel_loop
camel_loop-lower [] s h = refl
camel_loop-lower (c ∷ n) s (hc, h) = let ih = camel_loop-lower n s h in ground (arith, ih)

camel_loop_first :
    (c d : ℕ) (s : Bytes)
    → IsLower c
    → IsLower d
    → camel_loop true (c ∷ d ∷ s) ≡ (c - 32) ∷ d ∷ camel_loop false s
unfolding camel_loop
camel_loop_first c d s hc hd = ground arith

all_lower : (n : Bytes) → All IsLower n → camel_loop false n ≡ n ++ []
unfolding camel_loop
all_lower [] h = refl
all_lower (c ∷ n) (hc, h) = let ih = all_lower n h in ground (arith, ih)

underline : (s : Bytes) → camel_loop false (b'_' ∷ s) ≡ camel_loop true s
unfolding camel_loop
underline s = refl

camel_loop-snake : (ws : List Word) → All IsWord ws → camel_loop true (snake ws) ≡ camel ws
unfolding snake camel
camel_loop-snake [] h = unfold camel_loop in refl
camel_loop-snake (w ∷ []) ((hf, hs, hr), h) =
    camel_loop_first w.first w.second w.rest hf hs
    ∙ ap (λ x. (w.first - 32) ∷ w.second ∷ x) (all_lower w.rest hr)
camel_loop-snake (w ∷ v ∷ ws) ((hf, hs, hr), h) =
    camel_loop_first w.first w.second (w.rest ++ b'_' ∷ snake (v ∷ ws)) hf hs
    ∙ ap (λ x. (w.first - 32) ∷ w.second ∷ x)
        (camel_loop-lower w.rest (b'_' ∷ snake (v ∷ ws)) hr
          ∙ ap (λ x. w.rest ++ x) (underline (snake (v ∷ ws)) ∙ camel_loop-snake (v ∷ ws) h))

-- Behind a letter in lower case, the letters of a word stay; what follows goes on behind one.
underscore_loop-lower :
    (c : ℕ) (n s t : Bytes)
    → IsLower c
    → All IsLower n
    → ((d : ℕ) → IsLower d → underscore_loop (some d) s ≡ t)
    → underscore_loop (some c) (n ++ s) ≡ n ++ t
unfolding underscore_loop underscore_byte
underscore_loop-lower c [] s t hc h hs = hs c hc
underscore_loop-lower c (d ∷ n) s t hc (hd, h) hs =
    let ih = underscore_loop-lower d n s t hd h hs in ground (arith, ih)

-- A capital with a letter in lower case behind it.
capital_start :
    (c d : ℕ) (s : Bytes)
    → IsLower c
    → IsLower d
    → underscore_loop none ((c - 32) ∷ d ∷ s) ≡ c ∷ d ∷ underscore_loop (some d) s
unfolding underscore_loop underscore_byte starts_word
capital_start c d s hc hd = ground arith

capital_inside :
    (b c d : ℕ) (s : Bytes)
    → IsLower c
    → IsLower d
    → underscore_loop (some b) ((c - 32) ∷ d ∷ s) ≡ b'_' ∷ c ∷ d ∷ underscore_loop (some d) s
unfolding underscore_loop underscore_byte starts_word
capital_inside b c d s hc hd = ground arith

-- What follows the first word.
unfoldable pub behind : List Word → Bytes
unfolding snake
behind [] = []
behind (w ∷ ws) = b'_' ∷ snake (w ∷ ws)

snake-behind :
    (w : Word) (ws : List Word) → snake (w ∷ ws) ≡ w.first ∷ w.second ∷ (w.rest ++ behind ws)
unfolding snake behind
snake-behind w [] = ap (λ x. w.first ∷ w.second ∷ x) (sym (append-nil w.rest))
snake-behind w (v ∷ ws) = refl

underscore_loop-camel :
    (b : ℕ) (ws : List Word) → All IsWord ws → underscore_loop (some b) (camel ws) ≡ behind ws
unfolding camel behind
underscore_loop-camel b [] h = unfold underscore_loop in refl
underscore_loop-camel b (w ∷ ws) ((hf, hs, hr), h) =
    capital_inside b w.first w.second (w.rest ++ camel ws) hf hs
    ∙ ap (λ x. b'_' ∷ w.first ∷ w.second ∷ x)
        (underscore_loop-lower w.second w.rest (camel ws) (behind ws) hs hr
          (λ d hd. underscore_loop-camel d ws h))
    ∙ ap (λ x. b'_' ∷ x) (sym (snake-behind w ws))

underscore_back : (ws : List Word) → All IsWord ws → underscore_loop none (camel ws) ≡ snake ws
unfolding camel
underscore_back [] h = unfold underscore_loop snake in refl
underscore_back (w ∷ ws) ((hf, hs, hr), h) =
    capital_start w.first w.second (w.rest ++ camel ws) hf hs
    ∙ ap (λ x. w.first ∷ w.second ∷ x)
        (underscore_loop-lower w.second w.rest (camel ws) (behind ws) hs hr
          (λ d hd. underscore_loop-camel d ws h))
    ∙ sym (snake-behind w ws)

-- On words of at least two letters in lower case, CamelCased makes of the name with underscores
-- between the words the name in which each begins with a capital, and Underscore makes the first
-- of the second again.
pub camel_cased-underscore :
    (ws : List Word)
    → All IsWord ws
    → (camel_cased (snake ws) ≡ camel ws) × (underscore (camel ws) ≡ snake ws)
unfolding camel_cased underscore
camel_cased-underscore ws h = (camel_loop-snake ws h, underscore_back ws h)
