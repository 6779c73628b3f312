-- ===== src/Internal/TagParser/RoundTrip.antt =====
-- A tag that is printed and parsed: its name and its options, each with a key and a value.
use shilohcommunityenterpris.Common.{
  ℕ, zero, suc, ◌+◌, ◌-◌, ◌≤◌, ◌<◌, true, List, [], ◌∷◌, ◌++◌, append-nil, some, ◌≡◌, ◌≢◌, refl, ap,
  ◌∙◌, arith, Bytes, length, length-append, take, All, List, ◌++◌, none, Bool-cases, inl, inr, true,
  bytes_eq, if◌then◌else◌,
}
use shilohcommunityenterpris.Internal.TagParser.{
  Tag, find_option, State, start, value_from, parse_value, with_value, set_name, add_option, before,
  key_from, skip_comma, go_on, parse_loop, parse,
}
use shilohcommunityenterpris.Internal.TagParser.Options.{
  with_values, with_values-cons, find-add_value,
}

abbrev pub Pairs : Type 0
Pairs = List (Bytes × Bytes)

unfoldable pub print_options : Pairs → Bytes
print_options [] = []
print_options ((k, v) ∷ os) = b',' ∷ (k ++ b':' ∷ (v ++ print_options os))

unfoldable pub print_tag : Bytes → Pairs → Bytes
unfolding print_options
print_tag n os = n ++ print_options os

-- The options one after the other: a key that is given again gets one more value.
abbrev pub add_all : State → Pairs → State
add_all st [] = st
add_all st ((k, v) ∷ os) = add_all (add_option k v st) os

-- No byte that ends or quotes a name, a key or a value.
abbrev pub IsPlain : Bytes → Type 0
IsPlain = All (λ c. (c ≢ b',') × (c ≢ b':') × (c ≢ b'"') × (c ≢ b'('))

-- Keys are not empty.
abbrev pub IsPairs : Pairs → Type 0
IsPairs [] = Unit
IsPairs ((k, v) ∷ os) = (0 < length k) × IsPlain k × IsPlain v × IsPairs os

take_all : (n t : Bytes) → take (length n) (n ++ t) ≡ n
take_all [] t = refl
take_all (c ∷ n) t = ap (λ x. c ∷ x) (take_all n t)

before-append : (n t : Bytes) → before (n ++ t) t ≡ n
unfolding before
before-append n t =
    let e : length (n ++ t) - length t ≡ length n = omega (arith, length-append n t) in
    ap (λ k. take k (n ++ t)) e ∙ take_all n t

key_from_comma :
    (st : State) (whole n r : Bytes)
    → IsPlain n
    → key_from st whole (n ++ b',' ∷ r) ≡ some (set_name (before whole (b',' ∷ r)) st, r)
unfolding key_from
key_from_comma st whole [] r h = refl
key_from_comma st whole (c ∷ n) r (hc, h) =
    let ih = key_from_comma st whole n r h in ground (arith, ih)

key_from_end :
    (st : State) (whole n : Bytes) → IsPlain n → key_from st whole n ≡ some (set_name whole st, [])
unfolding key_from
key_from_end st whole [] h = refl
key_from_end st whole (c ∷ n) (hc, h) = let ih = key_from_end st whole n h in ground (arith, ih)

key_from_colon :
    (st : State) (whole k s : Bytes)
    → IsPlain k
    → key_from st whole (k ++ b':' ∷ s) ≡ with_value st (before whole (b':' ∷ s)) (parse_value s)
unfolding key_from
key_from_colon st whole [] s h = refl
key_from_colon st whole (c ∷ k) s (hc, h) =
    let ih = key_from_colon st whole k s h in ground (arith, ih)

value_from_comma :
    (fuel : ℕ) (whole v r : Bytes)
    → IsPlain v
    → length v < fuel
    → value_from fuel whole (v ++ b',' ∷ r) ≡ some (before whole (b',' ∷ r), r)
unfolding value_from
value_from_comma zero whole v r h le = absurd (omega (arith, le))
value_from_comma (suc fuel) whole [] r h le = refl
value_from_comma (suc fuel) whole (c ∷ v) r (hc, h) le =
    let ih = value_from_comma fuel whole v r h (omega (arith, le)) in ground (arith, ih)

value_from_end :
    (fuel : ℕ) (whole v : Bytes)
    → IsPlain v
    → length v ≤ fuel
    → value_from fuel whole v ≡ some (whole, [])
unfolding value_from
value_from_end fuel whole [] h le = refl
value_from_end zero whole (c ∷ v) h le = absurd (omega (arith, le))
value_from_end (suc fuel) whole (c ∷ v) (hc, h) le =
    let ih = value_from_end fuel whole v h (omega (arith, le)) in ground (arith, ih)

parse_value_comma : (v r : Bytes) → IsPlain v → parse_value (v ++ b',' ∷ r) ≡ some (v, r)
unfolding parse_value
parse_value_comma v r h =
    value_from_comma (length (v ++ b',' ∷ r)) (v ++ b',' ∷ r) v r h
      (omega (arith, length-append v (b',' ∷ r)))
    ∙ ap (λ x. some (x, r)) (before-append v (b',' ∷ r))

parse_value_end : (v : Bytes) → IsPlain v → parse_value v ≡ some (v, [])
unfolding parse_value
parse_value_end v h = value_from_end (length v) v v h (omega arith)

parse_loop-suc :
    (fuel : ℕ) (st : State) (s : Bytes)
    → 0 < length s
    → parse_loop (suc fuel) st s ≡ go_on (parse_loop fuel) (key_from st s s)
unfolding parse_loop
parse_loop-suc fuel st [] h = absurd (omega (arith, h))
parse_loop-suc fuel st (c ∷ s) h = refl

-- The text of options without the comma before it.
abbrev first_option : Bytes → Bytes → Pairs → Bytes
first_option k v os = k ++ b':' ∷ (v ++ print_options os)

skip_comma_key : (k s : Bytes) → 0 < length k → IsPlain k → skip_comma (k ++ s) ≡ k ++ s
unfolding skip_comma
skip_comma_key [] s h p = absurd (omega (arith, h))
skip_comma_key (c ∷ k) s h (p, ps) = ground arith

key_step :
    (st : State) (k s : Bytes)
    → IsPlain k
    → key_from st (k ++ b':' ∷ s) (k ++ b':' ∷ s) ≡ with_value st k (parse_value s)
key_step st k s h =
    key_from_colon st (k ++ b':' ∷ s) k s h
    ∙ ap (λ x. with_value st x (parse_value s)) (before-append k (b':' ∷ s))

-- One round of the loop of `parse`, whose text begins with a key.
option_step :
    (fuel : ℕ) (st : State) (k s : Bytes) {v r : Bytes}
    → 0 < length k
    → IsPlain k
    → parse_value s ≡ some (v, r)
    → parse_loop (suc fuel) st (k ++ b':' ∷ s) ≡ parse_loop fuel (add_option k v st) (skip_comma r)
option_step fuel st k s hk pk e =
    parse_loop-suc fuel st (k ++ b':' ∷ s) (omega (arith, hk, length-append k (b':' ∷ s)))
    ∙ ap (go_on (parse_loop fuel)) (key_step st k s pk ∙ ap (with_value st k) e)

parse_loop-add_all :
    (k v : Bytes) (os : Pairs) (fuel : ℕ) (st : State)
    → IsPairs ((k, v) ∷ os)
    → length (first_option k v os) ≤ fuel
    → parse_loop fuel st (first_option k v os) ≡ some (add_all st ((k, v) ∷ os)).0
unfolding print_options parse_loop skip_comma
parse_loop-add_all k v os zero st (hk, _, _, h) le =
    absurd (omega (arith, hk, le, length-append k (b':' ∷ (v ++ print_options os))))
parse_loop-add_all k v [] (suc fuel) st (hk, pk, pv, h) le =
    option_step fuel st k (v ++ []) hk pk (ap parse_value (append-nil v) ∙ parse_value_end v pv)
parse_loop-add_all k v ((l, w) ∷ os) (suc fuel) st (hk, pk, pv, (hl, pl, pw, h)) le =
    option_step fuel st k (v ++ b',' ∷ first_option l w os) hk pk
      (parse_value_comma v (first_option l w os) pv)
    ∙ ap (parse_loop fuel (add_option k v st))
        (skip_comma_key l (b':' ∷ (w ++ print_options os)) hl pl)
    ∙ parse_loop-add_all l w os fuel (add_option k v st) (hl, pl, pw, h)
        (omega (
          arith,
          le,
          length-append k (b':' ∷ (v ++ b',' ∷ first_option l w os)),
          length-append v (b',' ∷ first_option l w os),
        ))

parse-add_all :
    (n : Bytes) (os : Pairs)
    → IsPlain n
    → IsPairs os
    → parse (print_tag n os) ≡ some (add_all (record { name = n; options = [] }, true) os).0
unfolding parse parse_loop print_tag print_options skip_comma set_name
parse-add_all [] [] hn h = refl
parse-add_all (c ∷ n) [] hn h =
    ap parse (append-nil (c ∷ n))
    ∙ ap (go_on (parse_loop (length n))) (key_from_end start (c ∷ n) (c ∷ n) hn)
parse-add_all n ((k, v) ∷ os) hn (hk, pk, pv, h) =
    let t = first_option k v os in
    let enough : length (n ++ b',' ∷ t) ≡ suc (length n + length t) =
      omega (arith, length-append n (b',' ∷ t)) in
    ap (λ f. parse_loop f start (n ++ b',' ∷ t)) enough
    ∙ parse_loop-suc (length n + length t) start (n ++ b',' ∷ t)
        (omega (arith, length-append n (b',' ∷ t)))
    ∙ ap (go_on (parse_loop (length n + length t))) (
        key_from_comma start (n ++ b',' ∷ t) n t hn
        ∙ ap (λ x. some (set_name x start, t)) (before-append n (b',' ∷ t)))
    ∙ ap (parse_loop (length n + length t) (record { name = n; options = [] }, true))
        (skip_comma_key k (b':' ∷ (v ++ print_options os)) hk pk)
    ∙ parse_loop-add_all k v os (length n + length t) (record { name = n; options = [] }, true)
        (hk, pk, pv, h) (omega arith)

-- The values that come with a key, in order.
unfoldable pub values_of : Bytes → Pairs → List Bytes
values_of k [] = []
values_of k ((l, v) ∷ os) = if bytes_eq l k then v ∷ values_of k os else values_of k os

find-add_all :
    (k : Bytes) (st : State) (os : Pairs)
    → IsPairs os
    → find_option k (add_all st os).0.options
      ≡ with_values (find_option k st.0.options) (values_of k os)
unfolding values_of add_option
find-add_all k st [] h = refl
find-add_all k st (([], v) ∷ os) (hl, _, _, h) = absurd (omega (arith, hl))
find-add_all k st ((c ∷ l, v) ∷ os) (hl, _, _, h) =
    find-add_all k (add_option (c ∷ l) v st) os h
    ∙ ap (λ o. with_values o (values_of k os)) (find-add_value k (c ∷ l) v st.0.options)
    ∙ (elim (Bool-cases (bytes_eq (c ∷ l) k)) [
      | inl e ↦ rw (e) (with_values-cons (find_option k st.0.options) v (values_of k os))
      | inr e ↦ rw (e) refl
    ])

name-add_all : (st : State) (os : Pairs) → (add_all st os).0.name ≡ st.0.name
unfolding add_option
name-add_all st [] = refl
name-add_all st (([], v) ∷ os) = name-add_all (add_option [] v st) os
name-add_all st ((c ∷ k, v) ∷ os) = name-add_all (add_option (c ∷ k) v st) os

-- Parse, on the text of a tag with its name and its options, each with a key and a value, gives a
-- tag with the name in which every key has all its values in order, and a key that was not given
-- has no option; no name, key or value holds a comma, a colon, a double quote or an opening
-- parenthesis, and no key is empty.
pub parse-print_tag :
    (n : Bytes) (os : Pairs) (k : Bytes)
    → IsPlain n
    → IsPairs os
    → (t : Tag) × (parse (print_tag n os) ≡ some t)
      × (t.name ≡ n)
      × (find_option k t.options ≡ with_values none (values_of k os))
unfolding find_option
parse-print_tag n os k hn h =
    let st : State = (record { name = n; options = [] }, true) in
    ((add_all st os).0, parse-add_all n os hn h, name-add_all st os, find-add_all k st os h)
