-- ===== src/Migrate/Status.antt =====
-- The status of migrations in a table that grows: what has a row is applied.
use shilohcommunityenterpris.Common.{
  ℕ, ◌<◌, Bool, true, false, not, Bool-cases, inl, inr, List, [], ◌∷◌, ◌++◌, map, Option, none,
  some, Option-cases, ◌≡◌, ◌⊎◌, refl, sym, ap, ◌∙◌, arith, if◌then◌else◌, Bytes, bytes_eq,
  bytes_eq_iff, All, All-mono, subst,
}
use shilohcommunityenterpris.Migrate.Migration.{
  Migration, is_applied, keep_if, insert_by, sort_by, sort_asc, unapplied,
}
use shilohcommunityenterpris.Migrate.Migrator.{find_row, with_row, with_rows}
use shilohcommunityenterpris.Migrate.Store.{Row}
use shilohcommunityenterpris.Migrate.Runs.{Key, row_key}

abbrev pub HasKey : List Row → Key → Type 0
HasKey rows k = (r : Row) × (find_row k.0 rows ≡ some r)

find_row-append-some :
    (n : Bytes) (xs ys : List Row) {r : Row}
    → find_row n ys ≡ some r
    → find_row n (xs ++ ys) ≡ some r
unfolding find_row
find_row-append-some n [] ys h = h
find_row-append-some n (x ∷ xs) ys h = rw (find_row-append-some n xs ys h)

find_row-head : (x : Row) (xs : List Row) → (r : Row) × (find_row x.name (x ∷ xs) ≡ some r)
unfolding find_row
find_row-head x xs = elim (Option-cases (find_row x.name xs)) [
  | inl e ↦ (x, rw (e, (bytes_eq_iff x.name x.name).1 refl))
  | inr e ↦ (e.0, rw (e.1))
]

find_row-tail :
    (n : Bytes) (x : Row) (xs : List Row) {r : Row}
    → find_row n xs ≡ some r
    → find_row n (x ∷ xs) ≡ some r
unfolding find_row
find_row-tail n x xs h = rw (h)

-- Each key of a table has a row.
pub keys-HasKey : (ls : List Row) → All (HasKey ls) (map row_key ls)
keys-HasKey [] = tt
keys-HasKey (x ∷ xs) = (
  find_row-head x xs,
  All-mono (HasKey xs) (HasKey (x ∷ xs)) (map row_key xs) (λ k h. (h.0, find_row-tail k.0 x xs h.1))
      (keys-HasKey xs),
)

find_row-positive :
    (n : Bytes) (ls : List Row) {r : Row}
    → All (λ q. 0 < q.id) ls
    → find_row n ls ≡ some r
    → 0 < r.id
unfolding find_row
find_row-positive n [] h e = cc
find_row-positive n (x ∷ xs) {r} (px, h) e = elim (Option-cases (find_row n xs)) [
  | inl f ↦ ground (arith)
  | inr f ↦ ground (arith, find_row-positive n xs h f.1)
]

module _ {F : Type 0} where
  module _ (P : Migration F → Type 0) where
    split-insert :
        (b : Bool) (m x : Migration F) (xs ys : List (Migration F))
        → (All P ys → P m × All P xs)
        → All P (if b then x ∷ ys else m ∷ x ∷ xs)
        → P m × (P x × All P xs)
    split-insert true m x xs ys f (px, h) = ((f h).0, (px, (f h).1))
    split-insert false m x xs ys f h = h

    All-insert_by :
        (before : Migration F → Migration F → Bool) (m : Migration F) (xs : List (Migration F))
        → All P (insert_by before m xs)
        → P m × All P xs
    unfolding insert_by
    All-insert_by before m [] h = h
    All-insert_by before m (x ∷ xs) h =
        split-insert (before x m) m x xs (insert_by before m xs) (All-insert_by before m xs) h

    All-sort_by :
        (before : Migration F → Migration F → Bool) (ms : List (Migration F))
        → All P (sort_by before ms)
        → All P ms
    unfolding sort_by
    All-sort_by before [] h = h
    All-sort_by before (m ∷ ms) h =
        let (pm, hs) = All-insert_by before m (sort_by before ms) h in
        (pm, All-sort_by before ms hs)

  keep_if-nil :
      (p : Migration F → Bool) (ms : List (Migration F))
      → All (λ m. p m ≡ false) ms
      → keep_if p ms ≡ []
  unfolding keep_if
  keep_if-nil p [] h = refl
  keep_if-nil p (m ∷ ms) (e, h) = rw (e) (keep_if-nil p ms h)

  -- What is left of a list of `P` when a test drops some, and the test holds of what is dropped.
  keep-All :
      (P : Migration F → Type 0) (b : Bool) (m : Migration F) (ms : List (Migration F))
      → All P (if b then m ∷ ms else ms)
      → All P ms × ((b ≡ false) ⊎ P m)
  keep-All P true m ms (p, h) = (h, inr p)
  keep-All P false m ms h = (h, inl refl)

-- A name that has a row keeps one in a table with at least the same keys.
find_row-grows :
    (n : Bytes) (ls rows : List Row) {r : Row}
    → All (HasKey rows) (map row_key ls)
    → find_row n ls ≡ some r
    → HasKey rows (n, 0)
unfolding find_row
find_row-grows n [] rows h e = cc
find_row-grows n (x ∷ xs) rows {r} (k, h) e = elim (Option-cases (find_row n xs)) [
  | inr f ↦ find_row-grows n xs rows h f.1
  | inl f ↦ elim (Bool-cases (bytes_eq x.name n)) [
    | inl g ↦ subst (λ a. HasKey rows (a, 0)) ((bytes_eq_iff x.name n).0 g) k
    | inr g ↦ ground (arith)
  ]
]

module _ {F : Type 0} (old rows : List Row) (positive : All (λ r. 0 < r.id) rows)
    (grows : All (HasKey rows) (map row_key old)) where
  -- A migration with its status is applied if it was, or if its name has a row by now.
  now_applied :
      (m : Migration F)
      → ((not (is_applied (with_row m (find_row m.name old))) ≡ false) ⊎ HasKey rows (m.name, 0))
      → (o' : Option Row) → find_row m.name rows ≡ o'
      → (o : Option Row) → find_row m.name old ≡ o
      → not (is_applied (with_row m (find_row m.name rows))) ≡ false
  unfolding is_applied
  now_applied m h (some r) e o f =
      let pos = find_row-positive m.name rows positive e in rw (e) (ground (arith, pos))
  now_applied m h none e (some q) f = let (r, g) = find_row-grows m.name old rows grows f in cc
  now_applied m (inr (r, g)) none e none f = cc
  now_applied m (inl g) none e none f =
      rw (e) (sym (ap (λ o. not (is_applied (with_row m o))) f) ∙ g)

  in_place :
      {A : Type 0} (m : Migration F) (o : Option Row)
      → A ⊎ HasKey rows ((with_row m o).name, 0)
      → A ⊎ HasKey rows (m.name, 0)
  in_place m none h = h
  in_place m (some r) h = h

  with_rows-applied :
      (ms : List (Migration F))
      → All (λ m. HasKey rows (m.name, 0)) (keep_if (λ m. not (is_applied m)) (with_rows old ms))
      → All (λ m. not (is_applied m) ≡ false) (with_rows rows ms)
  unfolding keep_if with_rows
  with_rows-applied [] h = tt
  with_rows-applied (m ∷ ms) h =
      let m' = with_row m (find_row m.name old) in
      let (rest, head) =
        keep-All (λ x. HasKey rows (x.name, 0)) (not (is_applied m')) m'
          (keep_if (λ x. not (is_applied x)) (with_rows old ms)) h in
      (
        now_applied m (in_place m (find_row m.name old) head) (find_row m.name rows) refl
            (find_row m.name old) refl,
        with_rows-applied ms rest,
      )

pub All-planned :
    {F : Type 0} (g : ℕ) (rows : List Row) (ms : List (Migration F))
    → All (HasKey rows) (map (λ m. (m.name, g)) ms)
    → All (λ m. HasKey rows (m.name, 0)) ms
All-planned g rows [] h = tt
All-planned g rows (m ∷ ms) (k, h) = (k, All-planned g rows ms h)

-- With a row for all that is not applied in a table, nothing is left to apply in one that grows it.
pub unapplied-nil :
    {F : Type 0} (old rows : List Row) (ms : List (Migration F))
    → All (λ r. 0 < r.id) rows
    → All (HasKey rows) (map row_key old)
    → All (λ m. HasKey rows (m.name, 0)) (unapplied (with_rows old ms))
    → unapplied (with_rows rows ms) ≡ []
unfolding unapplied sort_asc
unapplied-nil {F} old rows ms hp hg h =
    let kept =
      All-sort_by (λ m. HasKey rows (m.name, 0)) _
        (keep_if (λ m. not (is_applied m)) (with_rows old ms)) h in
    ap (sort_by _) (
      keep_if-nil (λ m. not (is_applied m)) (with_rows rows ms)
        (with_rows-applied old rows hp hg ms kept))
