-- ===== src/Migrate/Rows.antt =====
-- The rows that `Migrate` adds to the table of migrations.
use shilohcommunityenterpris.Common.{
  ℕ, ◌+◌, Bool, true, false, Bool-cases, inl, inr, List, [], ◌∷◌, ◌++◌, append-nil, map, some,
  Option-cases, ◌≡◌, ◌⊎◌, refl, sym, ap, ◌∙◌, subst, Bytes,
}
use shilohcommunityenterpris.Migrate.Migration.{Migration, MigrationGroup, unapplied, is_nil}
use shilohcommunityenterpris.Migrate.Migrator.{
  Migrator, MigrateError, Answer, Outcome, unlocked, under_lock, start_group, migrate_locked,
  migrate, migrations_with_status, migrate_loop,
}
use shilohcommunityenterpris.Migrate.Store.{Store, IsStore}
use shilohcommunityenterpris.Migrate.Runs.{Key, migration_key, row_key, keys, Ran, Tried, Ended}
use shilohcommunityenterpris.Migrate.Loop.{migrate_loop-Ran}

module _ {S F : Type 0} (db : Store S F) where
  -- What `Migrate` leaves when `plan` is to be done, under the group `g`: the group of the answer
  -- and new rows for the first of the plan, the one that failed without a row, and the rest. The
  -- functions of those with a row have succeeded, each called when the rows before its own were
  -- there (without `markAppliedOnSuccess` its own too), but without `markAppliedOnSuccess` perhaps that of
  -- the last one. It is all done, or the function of the next one (without `markAppliedOnSuccess`
  -- of the last one with a row) has failed, or a statement.
  pub record Grew (nop on_success : Bool) (g : ℕ) (plan : List (Migration F)) (s : S)
      (a : Answer db) : Type 0 where
    pub new : List Key
    pub failed : List Key
    pub rest : List Key
    pub group : MigrationGroup F
    pub answered : a.0 ≡ some group
    pub members : map migration_key group.migrations ≡ new ++ failed
    pub grown : keys db a.2 ≡ keys db s ++ new
    pub planned : map (λ m. (m.name, g)) plan ≡ new ++ failed ++ rest
    pub done : ((failed ≡ []) × (rest ≡ [])) ⊎ ((e : MigrateError) × (a.1 ≡ some e))
    pub marked_first : (on_success ≡ true) ⊎ (failed ≡ [])
    pub worked : Tried db nop on_success on_success (keys db s) plan new
    pub ended : Ended db nop on_success (keys db s) plan new a.1

module _ {S F : Type 0} (db : Store S F) (laws : IsStore db) where
  Ran-done :
      {nop b : Bool} {g : ℕ} {ms done : List (Migration F)} {s : S} {o : Outcome db}
      (r : Ran db nop b g ms done s o)
      → ((r.failed ≡ []) × (r.rest ≡ [])) ⊎ ((e : MigrateError) × (o.1 ≡ some e))
  Ran-done {o = o} r = elim (Option-cases o.1) [ inl h ↦ inl (r.all_done h) | inr h ↦ inr h ]

  Ran-first :
      {nop b : Bool} {g : ℕ} {ms done : List (Migration F)} {s : S} {o : Outcome db}
      (r : Ran db nop b g ms done s o)
      → (b ≡ true) ⊎ (r.failed ≡ [])
  Ran-first {b = b} r = elim (Bool-cases b) [ inl h ↦ inl h | inr h ↦ inr (r.no_failed h) ]

  start_group-Grew :
      (b nop : Bool) (g : ℕ) (s : S) (ms : List (Migration F))
      → Grew db nop b g ms s (start_group db b nop g s ms)
  unfolding start_group
  start_group-Grew b nop g s [] = record {
    new = [];
    failed = [];
    rest = [];
    group = record { id = 0; migrations = [] };
    answered = refl;
    members = refl;
    grown = sym (append-nil (keys db s));
    planned = refl;
    done = inl (refl, refl);
    marked_first = inr refl;
    worked = tt;
    ended = inl (refl, tt);
  }
  start_group-Grew b nop g s (m ∷ ms) =
      let r = migrate_loop-Ran db laws b nop g (m ∷ ms) [] s in
      record {
        new = r.new;
        failed = r.failed;
        rest = r.rest;
        group = record { id = g; migrations = (migrate_loop db b nop g (m ∷ ms) [] s).0 };
        answered = refl;
        members = r.grouped;
        grown = r.grown;
        planned = r.planned;
        done = Ran-done r;
        marked_first = Ran-first r;
        worked = r.worked;
        ended = r.ended;
      }

  unlocked-Grew :
      (nop b : Bool) (g : ℕ) (plan : List (Migration F)) (s t : S) (n : Bytes) (a : Answer db)
      → db.rows t ≡ db.rows s
      → Grew db nop b g plan t a
      → Grew db nop b g plan s (unlocked db n a)
  unlocked-Grew nop b g plan s t n a h r = record {
    new = r.new;
    failed = r.failed;
    rest = r.rest;
    group = r.group;
    answered = r.answered;
    members = r.members;
    grown =
        ap (map row_key) (laws.delete_lock_rows n a.2)
        ∙ r.grown
        ∙ ap (λ l. map row_key l ++ r.new) h;
    planned = r.planned;
    done = r.done;
    marked_first = r.marked_first;
    worked = subst (λ p. Tried db nop b b p plan r.new) (ap (map row_key) h) r.worked;
    ended = subst (λ p. Ended db nop b p plan r.new a.1) (ap (map row_key) h) r.ended;
  }

  under_lock-true :
      (n : Bytes) (body : S → Answer db) (p : Bool × S)
      → p.0 ≡ true
      → under_lock db n body p ≡ unlocked db n (body p.1)
  under_lock-true n body (true, t) h = refl
  under_lock-true n body (false, t) h = cc

  -- A run that has something to do, gets the lock and reads the status.
  pub migrate-unlocked :
      (mg : Migrator F) (nop : Bool) (s : S) {ms : List (Migration F)} {last : ℕ}
      → is_nil mg.ms ≡ false
      → (db.insert_lock mg.table s).0 ≡ true
      → migrations_with_status db mg (db.insert_lock mg.table s).1 ≡ some (ms, last)
      → migrate db mg nop s
        ≡ unlocked db mg.table (
            start_group db mg.mark_applied_on_success nop
              (last + 1)
              (db.insert_lock mg.table s).1
              (unapplied ms))
  unfolding migrate migrate_locked
  migrate-unlocked mg nop s hm hl hs =
      let t = (db.insert_lock mg.table s).1 in
      rw (hm) (
        under_lock-true mg.table (λ u. migrate_locked db mg nop u (migrations_with_status db mg u))
          (db.insert_lock mg.table s) hl)
      ∙ ap (λ st. unlocked db mg.table (migrate_locked db mg nop t st)) hs

  pub migrate-Grew :
      (mg : Migrator F) (nop : Bool) (s : S) {ms : List (Migration F)} {last : ℕ}
      → is_nil mg.ms ≡ false
      → (db.insert_lock mg.table s).0 ≡ true
      → migrations_with_status db mg (db.insert_lock mg.table s).1 ≡ some (ms, last)
      → Grew db nop mg.mark_applied_on_success (last + 1) (unapplied ms) s (migrate db mg nop s)
  migrate-Grew mg nop s {ms} {last} hm hl hs = rw (migrate-unlocked mg nop s hm hl hs) (
      unlocked-Grew nop mg.mark_applied_on_success (last + 1) (unapplied ms) s
        (db.insert_lock mg.table s).1 mg.table
        (start_group db mg.mark_applied_on_success nop (last + 1) (db.insert_lock mg.table s).1
          (unapplied ms))
        (laws.insert_lock_rows mg.table s)
        (start_group-Grew mg.mark_applied_on_success nop (last + 1) (db.insert_lock mg.table s).1
          (unapplied ms)))
