-- ===== src/Migrate/Migration.antt =====
-- migrate/migration.go: migrations and lists of them. `F` is the type of a `MigrationFunc`; an id
-- that the database has not given yet is 0, and ids and group ids are not negative.
use shilohcommunityenterpris.Common.{
  ℕ, Bool, true, false, not, ◌&&◌, List, [], ◌∷◌, Option, ltb, ◌==◌, if◌then◌else◌, Bytes,
}

pub record Migration (F : Type 0) : Type 0 where
  pub id : ℕ
  pub name : Bytes
  pub group_id : ℕ
  pub migrated_at : ℕ
  pub up : Option F
  pub down : Option F

pub record MigrationGroup (F : Type 0) : Type 0 where
  pub id : ℕ
  pub migrations : List (Migration F)

-- `<` on strings
unfoldable pub bytes_lt : Bytes → Bytes → Bool
bytes_lt [] [] = false
bytes_lt [] (y ∷ ys) = true
bytes_lt (x ∷ xs) [] = false
bytes_lt (x ∷ xs) (y ∷ ys) = if ltb x y then true else x == y && bytes_lt xs ys

module _ {F : Type 0} where
  unfoldable pub is_applied : Migration F → Bool
  is_applied m = ltb 0 m.id

  unfoldable pub keep_if : (Migration F → Bool) → List (Migration F) → List (Migration F)
  keep_if p [] = []
  keep_if p (m ∷ ms) = if p m then m ∷ keep_if p ms else keep_if p ms

  -- Insertion into a sorted list, by a test that says which of two stands first.
  unfoldable pub insert_by :
      (Migration F → Migration F → Bool) → Migration F → List (Migration F) → List (Migration F)
  insert_by before m [] = m ∷ []
  insert_by before m (x ∷ xs) = if before x m then x ∷ insert_by before m xs else m ∷ x ∷ xs

  unfoldable pub sort_by :
      (Migration F → Migration F → Bool) → List (Migration F) → List (Migration F)
  unfolding insert_by
  sort_by before [] = []
  sort_by before (m ∷ ms) = insert_by before m (sort_by before ms)

  abbrev pub name_lt : Migration F → Migration F → Bool
  name_lt a b = bytes_lt a.name b.name

  abbrev pub name_gt : Migration F → Migration F → Bool
  name_gt a b = bytes_lt b.name a.name

  -- `sort.Slice`, which leaves the order of equal names open
  unfoldable pub sort_asc : List (Migration F) → List (Migration F)
  unfolding sort_by bytes_lt
  sort_asc = sort_by name_lt

  unfoldable pub sort_desc : List (Migration F) → List (Migration F)
  unfolding sort_by bytes_lt
  sort_desc = sort_by name_gt

  unfoldable pub applied : List (Migration F) → List (Migration F)
  unfolding sort_desc keep_if is_applied
  applied ms = sort_desc (keep_if is_applied ms)

  unfoldable pub unapplied : List (Migration F) → List (Migration F)
  unfolding sort_asc keep_if is_applied
  unapplied ms = sort_asc (keep_if (λ m. not (is_applied m)) ms)

  -- The loop of `LastGroupID`.
  unfoldable pub last_group_from : ℕ → List (Migration F) → ℕ
  last_group_from last [] = last
  last_group_from last (m ∷ ms) =
      last_group_from (if ltb last m.group_id then m.group_id else last) ms

  unfoldable pub last_group_id : List (Migration F) → ℕ
  unfolding last_group_from
  last_group_id = last_group_from 0

  unfoldable pub last_group : List (Migration F) → MigrationGroup F
  unfolding last_group_id keep_if
  last_group ms =
      let last = last_group_id ms in
      record {
        id = last;
        migrations = if last == 0 then [] else keep_if (λ m. m.group_id == last) ms;
      }

  abbrev pub is_nil : List (Migration F) → Bool
  is_nil [] = true
  is_nil (m ∷ ms) = false

  unfoldable pub group_is_zero : MigrationGroup F → Bool
  group_is_zero g = g.id == 0 && is_nil g.migrations
