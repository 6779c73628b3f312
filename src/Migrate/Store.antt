-- ===== src/Migrate/Store.antt =====
-- What the migrator asks of the database, which is no part of this repository: the table of
-- applied migrations, the table of locks, and a call of a migration's function.
use shilohcommunityenterpris.Common.{
  ℕ, ◌<◌, Bool, true, false, List, [], ◌∷◌, ◌++◌, Option, none, some, ◌≡◌, ◌==◌, if◌then◌else◌,
  Bytes, bytes_eq, All,
}

-- A row of the migrations table.
pub record Row : Type 0 where
  pub id : ℕ
  pub name : Bytes
  pub group_id : ℕ
  pub migrated_at : ℕ

abbrev pub row_list : Option Row → List Row
row_list none = []
row_list (some r) = r ∷ []

-- `DELETE … WHERE id = ?`
unfoldable pub without_id : ℕ → List Row → List Row
without_id i [] = []
without_id i (r ∷ rs) = if r.id == i then without_id i rs else r ∷ without_id i rs

unfoldable pub without_lock : Bytes → List Bytes → List Bytes
without_lock n [] = []
without_lock n (l ∷ ls) = if bytes_eq l n then without_lock n ls else l ∷ without_lock n ls

unfoldable pub has_lock : Bytes → List Bytes → Bool
has_lock n [] = false
has_lock n (l ∷ ls) = if bytes_eq l n then true else has_lock n ls

-- A statement answers whether it succeeded, and leaves a state. `S` is the database, `F` the
-- type of a migration's function.
pub record Store (S F : Type 0) : Type 0 where
  pub rows : S → List Row
  pub locks : S → List Bytes
  pub insert_row : Bytes → ℕ → S → Option Row × S
  pub delete_row : ℕ → S → Bool × S
  pub select_rows : S → Option (List Row)
  pub insert_lock : Bytes → S → Bool × S
  pub delete_lock : Bytes → S → Bool × S
  pub run : F → S → Bool × S

-- A statement that fails changes nothing; an insertion adds a row; the ids that the database gives
-- are positive; the name of
-- a lock is unique; a migration's function leaves the two tables alone.
pub record IsStore {S F : Type 0} (db : Store S F) : Type 0 where
  pub rows_positive : (s : S) → All (λ r. 0 < r.id) (db.rows s)
  pub insert_row_rows :
      (n : Bytes) (g : ℕ) (s : S)
      → db.rows (db.insert_row n g s).1 ≡ db.rows s ++ row_list (db.insert_row n g s).0
  pub insert_row_values :
      (n : Bytes) (g : ℕ) (s : S) (r : Row)
      → (db.insert_row n g s).0 ≡ some r
      → (r.name ≡ n) × (r.group_id ≡ g)
  pub insert_row_locks : (n : Bytes) (g : ℕ) (s : S) → db.locks (db.insert_row n g s).1 ≡ db.locks s
  pub delete_row_rows :
      (i : ℕ) (s : S)
      → db.rows (db.delete_row i s).1
        ≡ (if (db.delete_row i s).0 then without_id i (db.rows s) else db.rows s)
  pub delete_row_locks : (i : ℕ) (s : S) → db.locks (db.delete_row i s).1 ≡ db.locks s
  pub select_rows_rows : (s : S) (l : List Row) → db.select_rows s ≡ some l → l ≡ db.rows s
  pub insert_lock_unique :
      (n : Bytes) (s : S) → (db.insert_lock n s).0 ≡ true → has_lock n (db.locks s) ≡ false
  pub insert_lock_locks :
      (n : Bytes) (s : S)
      → db.locks (db.insert_lock n s).1
        ≡ (if (db.insert_lock n s).0 then n ∷ db.locks s else db.locks s)
  pub insert_lock_rows : (n : Bytes) (s : S) → db.rows (db.insert_lock n s).1 ≡ db.rows s
  pub delete_lock_locks :
      (n : Bytes) (s : S)
      → db.locks (db.delete_lock n s).1
        ≡ (if (db.delete_lock n s).0 then without_lock n (db.locks s) else db.locks s)
  pub delete_lock_rows : (n : Bytes) (s : S) → db.rows (db.delete_lock n s).1 ≡ db.rows s
  pub run_rows : (f : F) (s : S) → db.rows (db.run f s).1 ≡ db.rows s
  pub run_locks : (f : F) (s : S) → db.locks (db.run f s).1 ≡ db.locks s
