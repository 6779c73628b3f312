-- ===== src/Query/Join.antt =====
-- Pieces of text with a comma between them.
use shilohcommunityenterpris.Common.{
  Bool, true, false, List, [], ◌∷◌, ◌++◌, append-nil, append_assoc, map, if◌then◌else◌, Bytes, ◌≡◌,
  refl, sym, ap, ◌∙◌,
}
use shilohcommunityenterpris.Query.Fragment.{is_empty_list, comma}

-- Each piece behind a comma.
unfoldable pub behind_commas : List Bytes → Bytes
behind_commas [] = []
behind_commas (w ∷ ws) = comma ++ (w ++ behind_commas ws)

-- The pieces, with a comma between two.
unfoldable pub joined : List Bytes → Bytes
unfolding behind_commas
joined [] = []
joined (w ∷ ws) = w ++ behind_commas ws

abbrev pub piece_list : Bool → List Bytes → Bytes
piece_list first ws = if first then joined ws else behind_commas ws

behind-append :
    (us vs : List Bytes) → behind_commas (us ++ vs) ≡ behind_commas us ++ behind_commas vs
unfolding behind_commas
behind-append [] vs = refl
behind-append (u ∷ us) vs =
    rw
      (
        behind-append us vs,
        append_assoc comma (u ++ behind_commas us) (behind_commas vs),
        append_assoc u (behind_commas us) (behind_commas vs),
      )
      refl

pub joined-cons :
    (u : Bytes) (us vs : List Bytes) → joined (u ∷ us) ++ behind_commas vs ≡ joined ((u ∷ us) ++ vs)
unfolding joined
joined-cons u us vs =
    append_assoc u (behind_commas us) (behind_commas vs)
    ∙ ap (λ x. u ++ x) (sym (behind-append us vs))

-- One more piece behind a text, with the comma if it is not the first.
pub piece-step :
    (first : Bool) (b w : Bytes) (ws : List Bytes)
    → ((if first then b else b ++ comma) ++ w) ++ behind_commas ws ≡ b ++ piece_list first (w ∷ ws)
unfolding behind_commas joined
piece-step true b w ws = append_assoc b w (behind_commas ws)
piece-step false b w ws =
    append_assoc (b ++ comma) w (behind_commas ws) ∙ append_assoc b comma (w ++ behind_commas ws)

-- The pieces of two lists, the second of which begins with a comma if the first is not empty.
pub joined-pieces :
    {A : Type 0} (f : A → Bytes) (xs : List A) (ws : List Bytes) (b : Bytes)
    → (b ++ joined (map f xs)) ++ piece_list (is_empty_list xs) ws ≡ b ++ joined (map f xs ++ ws)
unfolding joined
joined-pieces f [] ws b = ap (λ x. x ++ joined ws) (append-nil b)
joined-pieces f (x ∷ xs) ws b =
    append_assoc b (joined (map f (x ∷ xs))) (behind_commas ws)
    ∙ ap (λ w. b ++ w) (joined-cons (f x) (map f xs) ws)
