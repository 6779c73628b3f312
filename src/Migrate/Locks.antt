-- ===== src/Migrate/Locks.antt =====
-- The lock of `Migrate` and `Rollback`.
use shilohcommunityenterpris.Common.{
  ℕ, ◌+◌, Bool, true, false, not, Bool-cases, inl, inr, ◌⊎◌, sym, List, [], ◌∷◌, Option, none, some,
  ◌≡◌, refl, ap, ◌∙◌, arith, if◌then◌else◌, Bytes, bytes_eq_iff,
}
use mathlib.Core.List.{reverse}
use shilohcommunityenterpris.Migrate.Migration.{Migration, unapplied, last_group, is_nil}
use shilohcommunityenterpris.Migrate.Migrator.{
  Migrator, MigrateError, no_migrations, locked, Answer, run_if, under_lock, start_group,
  migrate_locked, migrate, migrations_with_status, unmark_if, down_last, after_down, down_first,
  rollback_loop, rollback_locked, rollback,
}
use shilohcommunityenterpris.Migrate.Store.{Store, IsStore, has_lock, without_lock}
use shilohcommunityenterpris.Migrate.Runs.{run_if_lem}
use shilohcommunityenterpris.Migrate.Loop.{migrate_loop-Ran}

without_lock-none : (n : Bytes) (ls : List Bytes) → has_lock n ls ≡ false → without_lock n ls ≡ ls
unfolding has_lock without_lock
without_lock-none n [] h = refl
without_lock-none n (l ∷ ls) h = ground (arith, without_lock-none n ls)

without_lock-cons : (n : Bytes) (ls : List Bytes) → without_lock n (n ∷ ls) ≡ without_lock n ls
unfolding without_lock
without_lock-cons n ls = rw ((bytes_eq_iff n n).1 refl)

module _ {S F : Type 0} (db : Store S F) (laws : IsStore db) where
  start_group-locks :
      (b nop : Bool) (g : ℕ) (s : S) (ms : List (Migration F))
      → db.locks (start_group db b nop g s ms).2 ≡ db.locks s
  unfolding start_group
  start_group-locks b nop g s [] = refl
  start_group-locks b nop g s (m ∷ ms) = (migrate_loop-Ran db laws b nop g (m ∷ ms) [] s).same_locks

  migrate_locked-locks :
      (mg : Migrator F) (nop : Bool) (s : S) (st : Option (List (Migration F) × ℕ))
      → db.locks (migrate_locked db mg nop s st).2 ≡ db.locks s
  unfolding migrate_locked
  migrate_locked-locks mg nop s none = refl
  migrate_locked-locks mg nop s (some (ms, last)) =
      start_group-locks mg.mark_applied_on_success nop (last + 1) s (unapplied ms)

  unmark_if-locks :
      (b : Bool) (m : Migration F) (s : S) → db.locks (unmark_if db b m s).1 ≡ db.locks s
  unfolding unmark_if
  unmark_if-locks true m s = laws.delete_row_locks m.id s
  unmark_if-locks false m s = refl

  module _ (rec : S → Option MigrateError × S)
      (hrec : (t : S) → db.locks (rec t).1 ≡ db.locks t) where
    down_last-locks : (p : Bool × S) → db.locks (down_last db rec p).1 ≡ db.locks p.1
    unfolding down_last
    down_last-locks (false, s) = refl
    down_last-locks (true, s) = hrec s

    after_down-locks :
        (b : Bool) (m : Migration F) (p : Bool × S)
        → db.locks (after_down db b rec m p).1 ≡ db.locks p.1
    unfolding after_down
    after_down-locks b m (false, s) = refl
    after_down-locks b m (true, s) = down_last-locks (unmark_if db b m s) ∙ unmark_if-locks b m s

    down_first-locks :
        (b nop : Bool) (m : Migration F) (p : Bool × S)
        → db.locks (down_first db b nop rec m p).1 ≡ db.locks p.1
    unfolding down_first
    down_first-locks b nop m (false, s) = refl
    down_first-locks b nop m (true, s) =
        after_down-locks b m (run_if db (not nop) m.down s)
        ∙ (run_if_lem db laws (not nop) m.down s).0

  rollback_loop-locks :
      (b nop : Bool) (ms : List (Migration F)) (s : S)
      → db.locks (rollback_loop db b nop ms s).1 ≡ db.locks s
  unfolding rollback_loop
  rollback_loop-locks b nop [] s = refl
  rollback_loop-locks b nop (m ∷ ms) s =
      down_first-locks (rollback_loop db b nop ms) (rollback_loop-locks b nop ms) b nop m
        (unmark_if db (not b) m s)
      ∙ unmark_if-locks (not b) m s

  rollback_locked-locks :
      (mg : Migrator F) (nop : Bool) (s : S) (st : Option (List (Migration F) × ℕ))
      → db.locks (rollback_locked db mg nop s st).2 ≡ db.locks s
  unfolding rollback_locked
  rollback_locked-locks mg nop s none = refl
  rollback_locked-locks mg nop s (some (ms, last)) =
      rollback_loop-locks mg.mark_applied_on_success nop (reverse (last_group ms).migrations) s

  module _ (n : Bytes) (freed : (t : S) → (db.delete_lock n t).0 ≡ true) where
    -- The lock that is taken is given back.
    under_lock-locks :
        (s : S) (body : S → Answer db)
        → ((t : S) → db.locks (body t).2 ≡ db.locks t)
        → (p : Bool × S) → (p.0 ≡ true → has_lock n (db.locks s) ≡ false)
        → db.locks p.1 ≡ (if p.0 then n ∷ db.locks s else db.locks s)
        → db.locks (under_lock db n body p).2 ≡ db.locks s
    under_lock-locks s body hb (false, t) hu hl = hl
    under_lock-locks s body hb (true, t) hu hl =
        laws.delete_lock_locks n (body t).2
        ∙ ap (λ b. if b then without_lock n (db.locks (body t).2) else db.locks (body t).2)
            (freed (body t).2)
        ∙ ap (without_lock n) (hb t ∙ hl)
        ∙ without_lock-cons n (db.locks s)
        ∙ without_lock-none n (db.locks s) (hu refl)

  -- How a run went: there is no migration; the lock is taken, so that the answer is an error
  -- and the rows stay; or the lock was free.
  abbrev pub Guarded : Migrator F → S → Answer db → Type 0
  Guarded mg s a =
      (is_nil mg.ms ≡ true) × (a ≡ (none, some no_migrations, s))
      ⊎ ((db.insert_lock mg.table s).0 ≡ false)
        × (a.0 ≡ none)
        × (a.1 ≡ some locked)
        × (db.rows a.2 ≡ db.rows s)
      ⊎ (is_nil mg.ms ≡ false) × (has_lock mg.table (db.locks s) ≡ false)

  under_lock-Guarded :
      (mg : Migrator F) (s : S) (body : S → Answer db) (p : Bool × S)
      → p ≡ db.insert_lock mg.table s
      → is_nil mg.ms ≡ false
      → Guarded mg s (under_lock db mg.table body p)
  under_lock-Guarded mg s body (false, t) h e = inr (
      inl (
        ap (λ p. p.0) (sym h),
        refl,
        refl,
        ap (λ p. db.rows p.1) h ∙ laws.insert_lock_rows mg.table s,
      ))
  under_lock-Guarded mg s body (true, t) h e =
      inr (inr (e, laws.insert_lock_unique mg.table s (ap (λ p. p.0) (sym h))))

  -- Migrate and Rollback, however they end, leave the table of locks as they found it, where the
  -- statement that gives a lock back succeeds. Without migrations they answer an error and do
  -- nothing; where the lock is not given they answer no group and the error that it is taken, and
  -- the rows stay; and otherwise the lock was free.
  pub migrate-rollback-locks :
      (mg : Migrator F) (nop : Bool) (s : S)
      → ((t : S) → (db.delete_lock mg.table t).0 ≡ true)
      → ((db.locks (migrate db mg nop s).2 ≡ db.locks s) × Guarded mg s (migrate db mg nop s))
        × ((db.locks (rollback db mg nop s).2 ≡ db.locks s) × Guarded mg s (rollback db mg nop s))
  unfolding migrate rollback
  migrate-rollback-locks mg nop s freed = elim (Bool-cases (is_nil mg.ms)) [
    | inl e ↦ rw (e) ((refl, inl (refl, refl)), (refl, inl (refl, refl)))
    | inr e ↦
        let p = db.insert_lock mg.table s in
        let kept = under_lock-locks mg.table freed s in
        let up : S → Answer db = λ t. migrate_locked db mg nop t (migrations_with_status db mg t) in
        let down : S → Answer db =
          λ t. rollback_locked db mg nop t (migrations_with_status db mg t) in
        let guarded_up = under_lock-Guarded mg s up p refl e in
        let guarded_down = under_lock-Guarded mg s down p refl e in
        rw (e) (
          (
            kept up (λ t. migrate_locked-locks mg nop t (migrations_with_status db mg t)) p
                (laws.insert_lock_unique mg.table s) (laws.insert_lock_locks mg.table s),
            rw (e) at guarded_up,
          ),
          (
            kept down (λ t. rollback_locked-locks mg nop t (migrations_with_status db mg t)) p
                (laws.insert_lock_unique mg.table s) (laws.insert_lock_locks mg.table s),
            rw (e) at guarded_down,
          ),
        )
  ]
