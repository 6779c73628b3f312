-- ===== src/Query/Where/Tree.antt =====
-- Conditions as a tree of groups, the calls that build them, and the text of a `WHERE` clause as a
-- reader of SQL sees it: `AND` binds tighter than `OR`.
use shilohcommunityenterpris.Common.{
  Bool, true, false, ◌&&◌, ◌||◌, List, [], ◌∷◌, ◌++◌, append_assoc, Bytes, codes, ◌≡◌, refl, sym,
  ap, ◌∙◌,
}
use shilohcommunityenterpris.Query.Fragment.{QueryWithArgs, QueryWithSep}
use shilohcommunityenterpris.Query.Where.{add_where, add_where_group}

pub data Sep : Type 0 where
  and_ or_ : Sep

abbrev pub sep_text : Sep → Bytes
sep_text and_ = codes " AND "
sep_text or_ = codes " OR "

-- A test, or a group of at least one condition; the first separator of a group is dropped.
mutual
  pub data Cond : Type 0 where
    test : QueryWithArgs → Cond
    group : Sep → Cond → Conds → Cond

  pub data Conds : Type 0 where
    end : Conds
    more : Sep → Cond → Conds → Conds

-- The calls of `Where`, `WhereOr` and `WhereGroup`, in order.
unfoldable mutual
  pub build_one : Sep → Cond → List QueryWithSep → List QueryWithSep
  build_one s (test q) ws = add_where (record { query = q; sep = sep_text s }) ws
  build_one s (group s' c cs) ws = add_where_group (sep_text s) (build cs (build_one s' c [])) ws

  pub build : Conds → List QueryWithSep → List QueryWithSep
  build end ws = ws
  build (more s c cs) ws = build cs (build_one s c ws)

-- What a reader of a condition sees.
pub data Token : Type 0 where
  open_paren close_paren and_word or_word : Token
  atom : Bytes → Token

unfoldable pub print : List Token → Bytes
print [] = []
print (open_paren ∷ ts) = b'(' ∷ print ts
print (close_paren ∷ ts) = b')' ∷ print ts
print (and_word ∷ ts) = codes " AND " ++ print ts
print (or_word ∷ ts) = codes " OR " ++ print ts
print (atom w ∷ ts) = w ++ print ts

pub print-append : (xs ys : List Token) → print (xs ++ ys) ≡ print xs ++ print ys
unfolding print
print-append [] ys = refl
print-append (open_paren ∷ xs) ys = ap (λ w. b'(' ∷ w) (print-append xs ys)
print-append (close_paren ∷ xs) ys = ap (λ w. b')' ∷ w) (print-append xs ys)
print-append (and_word ∷ xs) ys = ap (λ w. codes " AND " ++ w) (print-append xs ys)
print-append (or_word ∷ xs) ys = ap (λ w. codes " OR " ++ w) (print-append xs ys)
print-append (atom v ∷ xs) ys =
    ap (λ w. v ++ w) (print-append xs ys) ∙ sym (append_assoc v (print xs) (print ys))

-- A reader with a stack: of each open group the disjuncts read so far, and the conjunction that it
-- is in.
abbrev pub Frame : Type 0
Frame = Bool × Bool

unfoldable pub read : (Bytes → Bool) → Frame → List Frame → List Token → Bool
read env (o, a) fs [] = o || a
read env (o, a) fs (open_paren ∷ ts) = read env (false, true) ((o, a) ∷ fs) ts
read env (o, a) [] (close_paren ∷ ts) = read env (o, a) [] ts
read env (o, a) ((p, c) ∷ fs) (close_paren ∷ ts) = read env (p, c && (o || a)) fs ts
read env (o, a) fs (and_word ∷ ts) = read env (o, a) fs ts
read env (o, a) fs (or_word ∷ ts) = read env (o || a, true) fs ts
read env (o, a) fs (atom w ∷ ts) = read env (o, a && env w) fs ts

-- Whether a row meets a condition, whose tests have the texts `text`.
unfoldable pub meets : (Bytes → Bool) → List Token → Bool
unfolding read
meets env = read env (false, true) []

module _ (text : QueryWithArgs → Bytes) (env : Bytes → Bool) where
  -- The meaning of a tree: a disjunction of conjunctions.
  unfoldable mutual
    pub holds : Cond → Bool
    holds (test q) = env (text q)
    holds (group s c cs) = holds_from (holds c) cs

    pub holds_from : Bool → Conds → Bool
    holds_from b end = b
    holds_from b (more and_ c cs) = holds_from (b && holds c) cs
    holds_from b (more or_ c cs) = b || holds_from (holds c) cs

module _ (text : QueryWithArgs → Bytes) where
  abbrev pub sep_token : Sep → Token
  sep_token and_ = and_word
  sep_token or_ = or_word

  unfoldable mutual
    pub tokens : Cond → List Token → List Token
    tokens (test q) ts = open_paren ∷ atom (text q) ∷ close_paren ∷ ts
    tokens (group s c cs) ts = open_paren ∷ tokens c (tokens_from cs (close_paren ∷ ts))

    pub tokens_from : Conds → List Token → List Token
    tokens_from end ts = ts
    tokens_from (more s c cs) ts = sep_token s ∷ tokens c (tokens_from cs ts)
