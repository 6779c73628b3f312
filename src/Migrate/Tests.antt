-- ===== src/Migrate/Tests.antt =====
-- Runs of `Migrate` and `Rollback` over a database in memory, and the theorems at them. A
-- migration's function is a Boolean here: whether it succeeds.
use shilohcommunityenterpris.Common.{
  ℕ, suc, ◌<◌, Bool, true, false, Bool-cases, inl, inr, List, [], ◌∷◌, ◌++◌, map, Option, none,
  some, ◌≡◌, refl, sym, ap, arith, ◌==◌, if◌then◌else◌, Bytes, All, codes,
}
use mathlib.Core.List.{map-append}
use mathlib.Core.Option.{some-injective}
use shilohcommunityenterpris.Migrate.Migration.{Migration}
use shilohcommunityenterpris.Migrate.Migrator.{Migrator, migrate, rollback, migrations_with_status}
use shilohcommunityenterpris.Migrate.Store.{Row, Store, IsStore, has_lock, without_lock, without_id}
use shilohcommunityenterpris.Migrate.Runs.{keys}
use shilohcommunityenterpris.Migrate.Locks.{Guarded, migrate-rollback-locks}
use shilohcommunityenterpris.Migrate.Again.{migrate_again}

-- A row with an id above 0.
record Entry : Type 0 where
  below : ℕ
  name : Bytes
  group_id : ℕ

record Memory : Type 0 where
  entries : List Entry
  held : List Bytes
  next : ℕ

abbrev entry_row : Entry → Row
entry_row e = record { id = suc e.below; name = e.name; group_id = e.group_id; migrated_at = 0 }

abbrev memory_rows : Memory → List Row
memory_rows s = map entry_row s.entries

abbrev memory_insert : Bytes → ℕ → Memory → Option Row × Memory
memory_insert n g s =
    let e : Entry = record { below = s.next; name = n; group_id = g } in
    (some (entry_row e), record s { entries = s.entries ++ e ∷ []; next = suc s.next })

abbrev without_entry : ℕ → List Entry → List Entry
without_entry i [] = []
without_entry i (e ∷ es) = if suc e.below == i then without_entry i es else e ∷ without_entry i es

abbrev take_lock : Bool → Bytes → Memory → Bool × Memory
take_lock true n s = (false, s)
take_lock false n s = (true, record s { held = n ∷ s.held })

abbrev memory : Store Memory Bool
unfolding has_lock without_lock
memory = record {
  rows = memory_rows;
  locks = λ s. s.held;
  insert_row = memory_insert;
  delete_row = λ i s. (true, record s { entries = without_entry i s.entries });
  select_rows = λ s. some (memory_rows s);
  insert_lock = λ n s. take_lock (has_lock n s.held) n s;
  delete_lock = λ n s. (true, record s { held = without_lock n s.held });
  run = λ f s. (f, s);
}

rows-positive : (es : List Entry) → All (λ r. 0 < r.id) (map entry_row es)
rows-positive [] = tt
rows-positive (e ∷ es) = (omega arith, rows-positive es)

rows-without :
    (i : ℕ) (es : List Entry) → map entry_row (without_entry i es) ≡ without_id i (map entry_row es)
unfolding without_id
rows-without i [] = refl
rows-without i (e ∷ es) = elim (Bool-cases (suc e.below == i)) [
  | inl h ↦ rw (h) (rows-without i es)
  | inr h ↦ rw (h) (ap (λ l. entry_row e ∷ l) (rows-without i es))
]

take_lock-free : (b : Bool) (n : Bytes) (s : Memory) → (take_lock b n s).0 ≡ true → b ≡ false
take_lock-free true n s h = cc
take_lock-free false n s h = refl

take_lock-held :
    (b : Bool) (n : Bytes) (s : Memory)
    → (take_lock b n s).1.held ≡ (if (take_lock b n s).0 then n ∷ s.held else s.held)
take_lock-held true n s = refl
take_lock-held false n s = refl

take_lock-rows : (b : Bool) (n : Bytes) (s : Memory) → (take_lock b n s).1.entries ≡ s.entries
take_lock-rows true n s = refl
take_lock-rows false n s = refl

memory-IsStore : IsStore memory
unfolding has_lock without_lock
memory-IsStore = record {
  rows_positive = λ s. rows-positive s.entries;
  insert_row_rows = λ n g s.
      map-append entry_row s.entries (record { below = s.next; name = n; group_id = g } ∷ []);
  insert_row_values = λ n g s r h. (
    ap (λ x. x.name) (sym (some-injective _ _ h)),
    ap (λ x. x.group_id) (sym (some-injective _ _ h)),
  );
  insert_row_locks = λ n g s. refl;
  delete_row_rows = λ i s. rows-without i s.entries;
  delete_row_locks = λ i s. refl;
  select_rows_rows = λ s l h. sym (some-injective _ _ h);
  insert_lock_unique = λ n s. take_lock-free (has_lock n s.held) n s;
  insert_lock_locks = λ n s. take_lock-held (has_lock n s.held) n s;
  insert_lock_rows = λ n s. ap (map entry_row) (take_lock-rows (has_lock n s.held) n s);
  delete_lock_locks = λ n s. refl;
  delete_lock_rows = λ n s. refl;
  run_rows = λ f s. refl;
  run_locks = λ f s. refl;
}

abbrev registered : Bytes → Bool → Migration Bool
registered n works = record {
  id = 0;
  name = n;
  group_id = 0;
  migrated_at = 0;
  up = some works;
  down = some true;
}

abbrev files : Bool → List (Migration Bool)
files works =
    registered (codes "3_c") works
    ∷ registered (codes "1_a") true
    ∷ registered (codes "2_b") true
    ∷ []

abbrev runner : Bool → Migrator Bool
runner works = record {
  migrations = files works;
  ms = files works;
  table = codes "m";
  mark_applied_on_success = true;
}

-- The first migration has its row.
abbrev started : Memory
started = record {
  entries = record { below = 6; name = codes "1_a"; group_id = 1 } ∷ [];
  held = [];
  next = 7;
}

abbrev todo : Bool → List (Migration Bool)
todo works =
    record (registered (codes "1_a") true) { id = 7; group_id = 1 }
    ∷ registered (codes "2_b") true
    ∷ registered (codes "3_c") works
    ∷ []

migrate_all :
    keys memory (migrate memory (runner true) false started).2
    ≡ (codes "1_a", 1) ∷ (codes "2_b", 2) ∷ (codes "3_c", 2) ∷ []
unfolding migrate migrations_with_status memory
migrate_all = refl

migrate_fails :
    keys memory (migrate memory (runner false) false started).2
    ≡ (codes "1_a", 1) ∷ (codes "2_b", 2) ∷ []
unfolding migrate migrations_with_status memory
migrate_fails = refl

migrate-rollback :
    keys memory
      (rollback memory (runner true) false (migrate memory (runner true) false started).2).2
    ≡ (codes "1_a", 1) ∷ []
unfolding migrate rollback migrations_with_status memory
migrate-rollback = refl

migrate-rollback-locks_example :
    (((migrate memory (runner false) false started).2.held ≡ [])
      × Guarded memory memory-IsStore
          (runner false)
          started
          (migrate memory (runner false) false started))
    × (((rollback memory (runner false) false started).2.held ≡ [])
        × Guarded memory memory-IsStore
            (runner false)
            started
            (rollback memory (runner false) false started))
unfolding memory
migrate-rollback-locks_example =
    migrate-rollback-locks memory memory-IsStore (runner false) false started (λ t. refl)

abbrev all_applied : List (Migration Bool)
all_applied =
    record (registered (codes "1_a") true) { id = 7; group_id = 1 }
    ∷ record (registered (codes "2_b") true) { id = 8; group_id = 2 }
    ∷ record (registered (codes "3_c") true) { id = 9; group_id = 2 }
    ∷ []

migrate_again_example :
    ((migrate memory (runner true) false (migrate memory (runner true) false started).2).0
      ≡ some (record { id = 0; migrations = [] }))
    × ((migrate memory (runner true) false (migrate memory (runner true) false started).2).1 ≡ none)
    × (memory_rows
          (migrate memory (runner true) false (migrate memory (runner true) false started).2).2
        ≡ memory_rows (migrate memory (runner true) false started).2)
unfolding memory migrations_with_status migrate
migrate_again_example =
    migrate_again memory memory-IsStore (runner true) false false started {ms = todo true}
      {ms' = all_applied} {last = 1} {last' = 2} refl refl refl refl refl refl
