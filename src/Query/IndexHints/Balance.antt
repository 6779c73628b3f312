-- ===== src/Query/IndexHints/Balance.antt =====
-- Index hints keep the depth in parentheses.
use shilohcommunityenterpris.Common.{
  ℕ, suc, true, List, [], ◌∷◌, ◌++◌, Option, none, some, Bytes, codes, All, ◌≡◌, refl, ◌∙◌, ap,
}
use shilohcommunityenterpris.Query.Fragment.{
  Fmter, QueryWithArgs, append_query_with_args, each, comma,
}
use shilohcommunityenterpris.Query.Base.Balance.{IsKept, comma-IsBalanced}
use shilohcommunityenterpris.Query.IndexHints.{
  IndexHints, Hints, append_index_hint, append_verb, append_index_hints,
}
use shilohcommunityenterpris.Query.Balance.{
  nest, nest-append, and_then, IsBalanced, At-text, Keeps, Ends-bind, each-Keeps,
}

module _ (fm : Fmter) where
  abbrev pub KeptPieces : List QueryWithArgs → Type 0
  KeptPieces qs = All (IsKept fm) qs

  abbrev KeptHints : Option IndexHints → Type 0
  KeptHints none = Unit
  KeptHints (some h) =
      KeptPieces h.names
      × KeptPieces h.for_join
      × KeptPieces h.for_order_by
      × KeptPieces h.for_group_by

  pub record IsPlainHints (h : Hints) : Type 0 where
    pub use_kept : KeptHints h.use_hints
    pub ignore_kept : KeptHints h.ignore_hints
    pub force_kept : KeptHints h.force_hints

  opened :
      (name : Bytes)
      → IsBalanced name
      → (k : ℕ) → nest (b' ' ∷ (name ++ codes " (")) k ≡ some (suc k)
  unfolding nest
  opened name h k = nest-append name (codes " (") k ∙ ap (and_then (nest (codes " ("))) (h k)

  hint-Keeps :
      (name : Bytes) (qs : List QueryWithArgs)
      → IsBalanced name
      → KeptPieces qs
      → Keeps (append_index_hint fm name qs)
  unfolding append_index_hint nest
  hint-Keeps name [] hn h k b hb = hb
  hint-Keeps name (q ∷ qs) hn h k b hb =
      Ends-bind (suc k) k
        (each comma (append_query_with_args fm) true (q ∷ qs) (b ++ b' ' ∷ (name ++ codes " ("))) _
        (each-Keeps comma (append_query_with_args fm) comma-IsBalanced true (q ∷ qs) h (suc k) _
          (At-text b (b' ' ∷ (name ++ codes " (")) hb (opened name hn k)))
        (λ b' h'. At-text b' (codes ")") h' refl)

  joined : (verb word : Bytes) → IsBalanced verb → IsBalanced word → IsBalanced (verb ++ word)
  joined verb word h g k = nest-append verb word k ∙ ap (and_then (nest word)) (h k) ∙ g k

  verb-Keeps :
      (verb : Bytes) (o : Option IndexHints)
      → IsBalanced verb
      → KeptHints o
      → Keeps (append_verb fm verb o)
  unfolding append_verb nest
  verb-Keeps verb none hv h k b hb = hb
  verb-Keeps verb (some o) hv (h0, h1, h2, h3) k b hb =
      Ends-bind k k (append_index_hint fm verb o.names b) _ (hint-Keeps verb o.names hv h0 k b hb)
        (λ b1 g1.
          Ends-bind k k (append_index_hint fm (verb ++ codes " FOR JOIN") o.for_join b1) _
            (hint-Keeps _ o.for_join (joined verb (codes " FOR JOIN") hv (λ j. refl)) h1 k b1 g1)
            (λ b2 g2.
              Ends-bind k k (append_index_hint fm (verb ++ codes " FOR ORDER BY") o.for_order_by b2)
                _
                (hint-Keeps _ o.for_order_by (joined verb (codes " FOR ORDER BY") hv (λ j. refl)) h2
                  k b2 g2)
                (λ b3 g3.
                  hint-Keeps _ o.for_group_by (joined verb (codes " FOR GROUP BY") hv (λ j. refl))
                    h3 k b3 g3)))

  pub append_index_hints-Keeps : (h : Hints) → IsPlainHints h → Keeps (append_index_hints fm h)
  unfolding append_index_hints nest
  append_index_hints-Keeps o h k b hb =
      Ends-bind k k (append_verb fm (codes "USE INDEX") o.use_hints b) _
        (verb-Keeps (codes "USE INDEX") o.use_hints (λ j. refl) h.use_kept k b hb)
        (λ b1 g1.
          Ends-bind k k (append_verb fm (codes "IGNORE INDEX") o.ignore_hints b1) _
            (verb-Keeps (codes "IGNORE INDEX") o.ignore_hints (λ j. refl) h.ignore_kept k b1 g1)
            (λ b2 g2.
              verb-Keeps (codes "FORCE INDEX") o.force_hints (λ j. refl) h.force_kept k b2 g2))
