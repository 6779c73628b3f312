-- ===== src/Migrate/Migrator.antt =====
-- migrate/migrator.go: `Migrate` and `Rollback` over a database.
use shilohcommunityenterpris.Common.{
  ℕ, ◌+◌, Bool, true, false, not, List, [], ◌∷◌, ◌++◌, Option, none, some, ltb, if◌then◌else◌,
  Bytes, bytes_eq,
}
use mathlib.Core.List.{reverse}
use shilohcommunityenterpris.Migrate.Migration.{
  Migration, MigrationGroup, sort_asc, unapplied, last_group, is_nil,
}
use shilohcommunityenterpris.Migrate.Store.{Row, Store}

-- The fields of a `Migrator` that its runs read: `ms` is what `NewMigrator` found in `migrations`;
-- `table` is `formattedTableName`, the name of the lock.
pub record Migrator (F : Type 0) : Type 0 where
  pub migrations : List (Migration F)
  pub ms : List (Migration F)
  pub table : Bytes
  pub mark_applied_on_success : Bool

-- The errors that the runs return: there is no migration, the table is locked, a statement or a
-- migration's function failed.
pub data MigrateError : Type 0 where
  no_migrations locked statement_failed function_failed : MigrateError

-- The row of that name that `migrationMap` keeps: the last one.
unfoldable pub find_row : Bytes → List Row → Option Row
find_row n [] = none
find_row n (r ∷ rs) = elim (find_row n rs) [
  | some q ↦ some q
  | none ↦ if bytes_eq r.name n then some r else none
]

unfoldable pub group_ids_from : ℕ → List Row → ℕ
group_ids_from last [] = last
group_ids_from last (r ∷ rs) = group_ids_from (if ltb last r.group_id then r.group_id else last) rs

module _ {F : Type 0} where
  abbrev pub with_row : Migration F → Option Row → Migration F
  with_row m none = m
  with_row m (some r) = record m { id = r.id; group_id = r.group_id; migrated_at = r.migrated_at }

  -- The loop of `migrationsWithStatus`.
  unfoldable pub with_rows : List Row → List (Migration F) → List (Migration F)
  unfolding find_row
  with_rows rows [] = []
  with_rows rows (m ∷ ms) = with_row m (find_row m.name rows) ∷ with_rows rows ms

module _ {S F : Type 0} (db : Store S F) where
  abbrev pub status_of : Migrator F → Option (List Row) → Option (List (Migration F) × ℕ)
  status_of mg none = none
  status_of mg (some rows) = some (with_rows rows (sort_asc mg.migrations), group_ids_from 0 rows)

  -- `migrationsWithStatus`: the migrations in order, and the last group's id
  unfoldable pub migrations_with_status : Migrator F → S → Option (List (Migration F) × ℕ)
  unfolding with_rows sort_asc group_ids_from
  migrations_with_status mg s = status_of mg (db.select_rows s)

  -- `MarkApplied`; the id that the database gives goes into the migration
  abbrev pub marked : Migration F → Option Row × S → Option (Migration F) × S
  marked m (none, s) = (none, s)
  marked m (some r, s) = (some (record m { id = r.id }), s)

  unfoldable pub mark_applied : Migration F → S → Option (Migration F) × S
  mark_applied m s = marked m (db.insert_row m.name m.group_id s)

  -- The call of a migration's function, where there is one and it is wanted.
  abbrev pub run_if : Bool → Option F → S → Bool × S
  run_if wanted none s = (true, s)
  run_if true (some f) s = db.run f s
  run_if false (some f) s = (true, s)

  -- What a run of the loop leaves: `group.Migrations`, the error, and the database.
  abbrev pub Outcome : Type 0
  Outcome = List (Migration F) × Option MigrateError × S

  -- `MarkApplied` where the flag says so.
  unfoldable pub mark_if : Bool → Migration F → S → Option (Migration F) × S
  unfolding mark_applied
  mark_if true m s = mark_applied m s
  mark_if false m s = (some m, s)

  -- One round of the loop of `Migrate`, in its three parts, each on the answer of the one before;
  -- `rec` goes on with the group so far.
  unfoldable pub after_last :
      (List (Migration F) → S → Outcome)
      → List (Migration F)
      → Migration F
      → Option (Migration F) × S
      → Outcome
  after_last rec done m (none, s) = (done ++ m ∷ [], some statement_failed, s)
  after_last rec done m (some m', s) = rec (done ++ m' ∷ []) s

  unfoldable pub after_up :
      Bool
      → (List (Migration F) → S → Outcome)
      → List (Migration F)
      → Migration F
      → Bool × S
      → Outcome
  unfolding after_last mark_if
  after_up on_success rec done m (false, s) = (done ++ m ∷ [], some function_failed, s)
  after_up on_success rec done m (true, s) = after_last rec done m (mark_if on_success m s)

  unfoldable pub after_first :
      Bool
      → Bool
      → (List (Migration F) → S → Outcome)
      → List (Migration F)
      → Option (Migration F) × S
      → Outcome
  unfolding after_up
  after_first on_success nop rec done (none, s) = (done, some statement_failed, s)
  after_first on_success nop rec done (some m, s) =
      after_up on_success rec done m (run_if (not nop) m.up s)

  unfoldable pub migrate_loop :
      Bool → Bool → ℕ → List (Migration F) → List (Migration F) → S → Outcome
  unfolding after_first mark_if
  migrate_loop on_success nop g [] done s = (done, none, s)
  migrate_loop on_success nop g (m ∷ ms) done s =
      after_first on_success nop (migrate_loop on_success nop g ms) done
        (mark_if (not on_success) (record m { group_id = g }) s)

  -- A group or no group, the error, and the database.
  abbrev pub Answer : Type 0
  Answer = Option (MigrationGroup F) × Option MigrateError × S

  abbrev pub grouped : ℕ → Outcome → Answer
  grouped g (done, e, s) = (some (record { id = g; migrations = done }), e, s)

  -- The group that `Migrate` starts, if there is something to do.
  unfoldable pub start_group : Bool → Bool → ℕ → S → List (Migration F) → Answer
  unfolding migrate_loop
  start_group on_success nop g s [] = (some (record { id = 0; migrations = [] }), none, s)
  start_group on_success nop g s (m ∷ todo) =
      grouped g (migrate_loop on_success nop g (m ∷ todo) [] s)

  -- `Migrate` behind its lock.
  unfoldable pub migrate_locked : Migrator F → Bool → S → Option (List (Migration F) × ℕ) → Answer
  unfolding start_group unapplied
  migrate_locked mg nop s none = (none, some statement_failed, s)
  migrate_locked mg nop s (some (ms, last)) =
      start_group mg.mark_applied_on_success nop (last + 1) s (unapplied ms)

  -- The deferred `Unlock`, whose error is dropped.
  abbrev pub unlocked : Bytes → Answer → Answer
  unlocked table (g, e, s) = (g, e, (db.delete_lock table s).1)

  abbrev pub under_lock : Bytes → (S → Answer) → Bool × S → Answer
  under_lock table body (false, s) = (none, some locked, s)
  under_lock table body (true, s) = unlocked table (body s)

  -- `Migrate`; the flag is `cfg.nop`
  unfoldable pub migrate : Migrator F → Bool → S → Answer
  unfolding migrate_locked migrations_with_status
  migrate mg nop s =
      if is_nil mg.ms
      then (none, some no_migrations, s)
      else under_lock mg.table (λ t. migrate_locked mg nop t (migrations_with_status mg t))
          (db.insert_lock mg.table s)

  -- `MarkUnapplied` where the flag says so.
  unfoldable pub unmark_if : Bool → Migration F → S → Bool × S
  unmark_if true m s = db.delete_row m.id s
  unmark_if false m s = (true, s)

  -- One round of the loop of `Rollback`; what is left of it is `rec`.
  unfoldable pub down_last : (S → Option MigrateError × S) → Bool × S → Option MigrateError × S
  down_last rec (false, s) = (some statement_failed, s)
  down_last rec (true, s) = rec s

  unfoldable pub after_down :
      Bool → (S → Option MigrateError × S) → Migration F → Bool × S → Option MigrateError × S
  unfolding down_last unmark_if
  after_down on_success rec m (false, s) = (some function_failed, s)
  after_down on_success rec m (true, s) = down_last rec (unmark_if on_success m s)

  unfoldable pub down_first :
      Bool → Bool → (S → Option MigrateError × S) → Migration F → Bool × S → Option MigrateError × S
  unfolding after_down
  down_first on_success nop rec m (false, s) = (some statement_failed, s)
  down_first on_success nop rec m (true, s) =
      after_down on_success rec m (run_if (not nop) m.down s)

  -- The migrations of the group, the last one first.
  unfoldable pub rollback_loop : Bool → Bool → List (Migration F) → S → Option MigrateError × S
  unfolding down_first unmark_if
  rollback_loop on_success nop [] s = (none, s)
  rollback_loop on_success nop (m ∷ ms) s =
      down_first on_success nop (rollback_loop on_success nop ms) m (unmark_if (not on_success) m s)

  abbrev pub with_group : MigrationGroup F → Option MigrateError × S → Answer
  with_group g (e, s) = (some g, e, s)

  unfoldable pub rollback_locked : Migrator F → Bool → S → Option (List (Migration F) × ℕ) → Answer
  unfolding rollback_loop last_group
  rollback_locked mg nop s none = (none, some statement_failed, s)
  rollback_locked mg nop s (some (ms, last)) =
      with_group (last_group ms)
        (rollback_loop mg.mark_applied_on_success nop (reverse (last_group ms).migrations) s)

  -- `Rollback`
  unfoldable pub rollback : Migrator F → Bool → S → Answer
  unfolding rollback_locked migrations_with_status
  rollback mg nop s =
      if is_nil mg.ms
      then (none, some no_migrations, s)
      else under_lock mg.table (λ t. rollback_locked mg nop t (migrations_with_status mg t))
          (db.insert_lock mg.table s)
