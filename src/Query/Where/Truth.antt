-- ===== src/Query/Where/Truth.antt =====
-- What a condition means to a reader of SQL, and what becomes of it under a soft delete.
use shilohcommunityenterpris.Common.{
  Bool, true, false, ◌&&◌, ◌||◌, List, [], ◌∷◌, Bytes, ◌≡◌, refl, ap, ◌∙◌, arith,
}
use shilohcommunityenterpris.Query.Fragment.{QueryWithArgs}
use shilohcommunityenterpris.Query.Where.Tree.{
  and_, or_, Cond, test, group, Conds, end, more, Token, close_paren, and_word, atom, Frame, read,
  meets, holds, holds_from, tokens, tokens_from,
}

-- A conjunct behind the whole: a bare test of the text `w`.
abbrev pub and_test : Bytes → List Token
and_test w = and_word ∷ atom w ∷ []

-- Whether a tree has no `OR` outside its groups.
abbrev pub no_or : Conds → Bool
no_or end = true
no_or (more and_ c cs) = no_or cs
no_or (more or_ c cs) = false

module _ (text : QueryWithArgs → Bytes) (env : Bytes → Bool) where
  -- The frame behind the conditions that follow the first.
  abbrev after : Frame → Conds → Frame
  after f end = f
  after (o, a) (more and_ c cs) = after (o, a && holds text env c) cs
  after (o, a) (more or_ c cs) = after (o || a, holds text env c) cs

  after_lem :
      (o a : Bool) (cs : Conds)
      → ((after (o, a) cs).0 || (after (o, a) cs).1) ≡ (o || holds_from text env a cs)
  unfolding holds_from
  after_lem o a end = refl
  after_lem o a (more and_ c cs) = after_lem o (a && holds text env c) cs
  after_lem o a (more or_ c cs) =
      let ih = after_lem (o || a) (holds text env c) cs in ground (arith, ih)

  mutual
    unfolding read tokens tokens_from holds holds_from

    read-tokens :
        (c : Cond) (o a : Bool) (fs : List Frame) (ts : List Token)
        → read env (o, a) fs (tokens text c ts) ≡ read env (o, a && holds text env c) fs ts
    read-tokens (test q) o a fs ts = refl
    read-tokens (group s c cs) o a fs ts =
        read-tokens c false true ((o, a) ∷ fs) (tokens_from text cs (close_paren ∷ ts))
        ∙ read-tokens_from cs false (holds text env c) ((o, a) ∷ fs) (close_paren ∷ ts)
        ∙ ap (λ b. read env (o, a && b) fs ts) (after_lem false (holds text env c) cs)

    read-tokens_from :
        (cs : Conds) (o a : Bool) (fs : List Frame) (ts : List Token)
        → read env (o, a) fs (tokens_from text cs ts) ≡ read env (after (o, a) cs) fs ts
    read-tokens_from end o a fs ts = refl
    read-tokens_from (more and_ c cs) o a fs ts =
        read-tokens c o a fs (tokens_from text cs ts)
        ∙ read-tokens_from cs o (a && holds text env c) fs ts
    read-tokens_from (more or_ c cs) o a fs ts =
        read-tokens c (o || a) true fs (tokens_from text cs ts)
        ∙ read-tokens_from cs (o || a) (holds text env c) fs ts

  read-Frame : (f : Frame) → read env f [] [] ≡ (f.0 || f.1)
  unfolding read
  read-Frame (o, a) = refl

  -- The frame in which a tree leaves its reader.
  pub meets-tokens :
      (c : Cond) (cs : Conds)
      → meets env (tokens text c (tokens_from text cs []))
        ≡ holds_from text env (holds text env c) cs
  unfolding meets
  meets-tokens c cs =
      read-tokens c false true [] (tokens_from text cs [])
      ∙ read-tokens_from cs false (holds text env c) [] []
      ∙ read-Frame (after (false, holds text env c) cs)
      ∙ after_lem false (holds text env c) cs

  read-Frame-and_test :
      (f : Frame) (w : Bytes) → read env f [] (and_test w) ≡ (f.0 || (f.1 && env w))
  unfolding read
  read-Frame-and_test (o, a) w = refl

  after-no_or : (o a : Bool) (cs : Conds) → no_or cs ≡ true → (after (o, a) cs).0 ≡ o
  after-no_or o a end h = refl
  after-no_or o a (more and_ c cs) h = after-no_or o (a && holds text env c) cs h
  after-no_or o a (more or_ c cs) h = cc

  after-true : (a : Bool) (cs : Conds) → (after (true, a) cs).0 ≡ true
  after-true a end = refl
  after-true a (more and_ c cs) = after-true (a && holds text env c) cs
  after-true a (more or_ c cs) = after-true (holds text env c) cs

  meets-and_test :
      (c : Cond) (cs : Conds) (w : Bytes)
      → meets env (tokens text c (tokens_from text cs (and_test w))) ≡ (
          (after (false, holds text env c) cs).0
          || ((after (false, holds text env c) cs).1 && env w))
  unfolding meets
  meets-and_test c cs w =
      read-tokens c false true [] (tokens_from text cs (and_test w))
      ∙ read-tokens_from cs false (holds text env c) [] (and_test w)
      ∙ read-Frame-and_test (after (false, holds text env c) cs) w

  -- Where every condition is joined by AND, a row meets the clause with a soft delete behind it just
  -- when it meets the conditions and is not deleted.
  pub meets-soft_delete :
      (c : Cond) (cs : Conds) (w : Bytes)
      → no_or cs ≡ true
      → meets env (tokens text c (tokens_from text cs (and_test w)))
        ≡ (holds_from text env (holds text env c) cs && env w)
  meets-soft_delete c cs w h =
      let e = after-no_or false (holds text env c) cs h in
      let f = after_lem false (holds text env c) cs in meets-and_test c cs w ∙ ground (arith, e, f)

  -- Behind an OR a deleted row still meets the clause, if it meets the first condition.
  pub meets-deleted :
      (c d : Cond) (cs : Conds) (w : Bytes)
      → holds text env c ≡ true
      → env w ≡ false
      → meets env (tokens text c (tokens_from text (more or_ d cs) (and_test w))) ≡ true
  meets-deleted c d cs w hc hw =
      let e = after-true (holds text env d) cs in
      meets-and_test c (more or_ d cs) w ∙ rw (hc) (rw (e))
