-- ===== src/Query/Where/Conditions.antt =====
-- The conditions of a `WHERE` clause keep the depth in parentheses, with their groups.
use shilohcommunityenterpris.Common.{
  ℕ, suc, Bool, true, false, List, [], ◌∷◌, ◌++◌, Option, none, some, if◌then◌else◌, Bytes, All,
  ◌≡◌, refl, sym, ap, ◌∙◌, subst, Option-cases, inl, inr,
}
use shilohcommunityenterpris.Common.Result.{ok}
use shilohcommunityenterpris.Query.Fragment.{Fmter, QueryWithSep, append_query_with_args, is_empty}
use mathlib.Core.Option.{some-injective}
use shilohcommunityenterpris.Query.Base.Balance.{IsKept}
use shilohcommunityenterpris.Query.Where.{append_condition, append_conditions}
use shilohcommunityenterpris.Query.Balance.{
  nest, nest-append, and_then, At, At-text, Ends, Ends-bind, Ends-if,
}

module _ (fm : Fmter) where
  -- The separators that stand before the conditions, which hold the parentheses of groups.
  unfoldable pub separators : Bool → List QueryWithSep → Bytes
  separators first [] = []
  separators first (w ∷ ws) = (if first then [] else w.sep) ++ separators false ws

  none-apart : (s : Bytes) (k : ℕ) (o : Option ℕ) → o ≡ none → and_then (nest s) o ≡ some k → ⊥
  none-apart s k none e h = cc
  none-apart s k (some j) e h = cc

  started :
      (first : Bool) (sep : Bytes) (j i : ℕ) (b : Bytes)
      → nest (if first then [] else sep) j ≡ some i
      → At j b
      → At i (if first then b else b ++ sep)
  unfolding nest
  started true sep j i b e hb = subst (λ n. At n b) (some-injective _ _ e) hb
  started false sep j i b e hb = At-text b sep hb e

  -- A condition in its parentheses.
  condition-Ends :
      (w : QueryWithSep) (k : ℕ) (b : Bytes)
      → IsKept fm w.query
      → At k b
      → Ends k (append_condition fm w b)
  unfolding append_condition nest
  condition-Ends w k b hw hb = Ends-if k (is_empty w.query.query) (ok b) _ hb (
      Ends-bind (suc k) k (append_query_with_args fm w.query (b ++ b'(' ∷ [])) _
        (hw (suc k) (b ++ b'(' ∷ []) (At-text b (b'(' ∷ []) hb refl))
        (λ b' h'. At-text b' (b')' ∷ []) h' refl))

  pub conditions-Ends :
      (first : Bool) (ws : List QueryWithSep) (j k : ℕ) (b : Bytes)
      → All (λ w. IsKept fm w.query) ws
      → nest (separators first ws) j ≡ some k
      → At j b
      → Ends k (append_conditions fm first ws b)
  unfolding separators append_conditions append_condition nest
  conditions-Ends first [] j k b h hs hb = subst (λ n. At n b) (some-injective _ _ hs) hb
  conditions-Ends first (w ∷ ws) j k b (hw, h) hs hb =
      elim (Option-cases (nest (if first then [] else w.sep) j)) [
        | inl e ↦ absurd (
            none-apart (separators false ws) k _ e
              (sym (nest-append (if first then [] else w.sep) (separators false ws) j) ∙ hs))
        | inr (i, e) ↦
            Ends-bind i k (append_condition fm w (if first then b else b ++ w.sep)) _
              (condition-Ends w i _ hw (started first w.sep j i b e hb))
              (λ b' h'.
                conditions-Ends false ws i k b' h
                  (ap (and_then (nest (separators false ws))) (sym e)
                    ∙ sym (nest-append (if first then [] else w.sep) (separators false ws) j)
                    ∙ hs)
                  h')
      ]
