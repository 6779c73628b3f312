-- ===== src/Internal/TagParser/Options.antt =====
-- What is found of a key when a value has been added to the options of a tag.
use shilohcommunityenterpris.Common.{
  true, List, [], ◌∷◌, ◌++◌, some, ◌≡◌, refl, ap, ◌∙◌, Bytes, List, ◌++◌, append_assoc, Option,
  none, Bool-cases, inl, inr, sym, true, false, bytes_eq, bytes_eq_iff, if◌then◌else◌,
}
use shilohcommunityenterpris.Internal.TagParser.{Options, find_option, add_value}

-- The values that a key has so far, with more behind them; a key without values has no list.
abbrev pub with_values : Option (List Bytes) → List Bytes → Option (List Bytes)
with_values o [] = o
with_values none (v ∷ vs) = some (v ∷ vs)
with_values (some ws) (v ∷ vs) = some (ws ++ v ∷ vs)

pub with_values-cons :
    (o : Option (List Bytes)) (v : Bytes) (vs : List Bytes)
    → with_values (with_values o (v ∷ [])) vs ≡ with_values o (v ∷ vs)
with_values-cons none v [] = refl
with_values-cons none v (w ∷ vs) = refl
with_values-cons (some ws) v [] = refl
with_values-cons (some ws) v (w ∷ vs) = ap some (append_assoc ws (v ∷ []) (w ∷ vs))

pub find-add_value :
    (k l v : Bytes) (os : Options)
    → find_option k (add_value l v os)
      ≡ (if bytes_eq l k then with_values (find_option k os) (v ∷ []) else find_option k os)
unfolding find_option add_value
find-add_value k l v [] = refl
find-add_value k l v ((n, vs) ∷ os) = elim (Bool-cases (bytes_eq n l)) [
  | inl e ↦
      rw (e, (bytes_eq_iff n l).0 e)
        (elim (Bool-cases (bytes_eq l k)) [ inl f ↦ rw (f) refl | inr f ↦ rw (f) refl ])
  | inr e ↦ rw (e) (elim (Bool-cases (bytes_eq n k)) [
    | inl f ↦ rw (f) (elim (Bool-cases (bytes_eq l k)) [
      | inl g ↦ absurd (other n l k e f g)
      | inr g ↦ rw (g) refl
    ])
    | inr f ↦ rw (f) (find-add_value k l v os)
  ])
]
  where
    other : (n l k : Bytes) → bytes_eq n l ≡ false → bytes_eq n k ≡ true → bytes_eq l k ≡ true → ⊥
    other n l k e f g =
        let same : n ≡ l = (bytes_eq_iff n k).0 f ∙ sym ((bytes_eq_iff l k).0 g) in
        let yes : bytes_eq n l ≡ true = (bytes_eq_iff n l).1 same in cc
