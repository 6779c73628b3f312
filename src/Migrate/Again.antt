-- ===== src/Migrate/Again.antt =====
-- A second run of `Migrate`: what has a row is not done again.
use shilohcommunityenterpris.Common.{
  map, ℕ, ◌+◌, Bool, true, false, inl, inr, List, [], ◌++◌, append-nil, Option, none, some, ◌≡◌,
  ◌⊎◌, refl, sym, ap, ◌∙◌, Bytes, All, All-split, subst,
}
use mathlib.Core.Option.{some-injective}
use shilohcommunityenterpris.Migrate.Migration.{Migration, sort_asc, unapplied, is_nil}
use shilohcommunityenterpris.Migrate.Migrator.{
  with_rows, Migrator, MigrateError, Answer, migrate, migrations_with_status, status_of, unlocked,
  start_group,
}
use shilohcommunityenterpris.Migrate.Store.{Row, Store, IsStore}
use shilohcommunityenterpris.Migrate.Runs.{Key, keys}
use shilohcommunityenterpris.Migrate.Rows.{Grew, migrate-Grew, migrate-unlocked}
use shilohcommunityenterpris.Migrate.Status.{HasKey, keys-HasKey, All-planned, unapplied-nil}

all_new :
    (plan new failed rest : List Key) (e : Option MigrateError)
    → plan ≡ new ++ failed ++ rest
    → ((failed ≡ []) × (rest ≡ [])) ⊎ ((x : MigrateError) × (e ≡ some x))
    → e ≡ none
    → new ≡ plan
all_new plan new failed rest e h (inl (hf, hr)) he = sym (
    h
    ∙ ap (λ l. new ++ l ++ rest) hf
    ∙ ap (λ l. new ++ [] ++ l) hr
    ∙ append-nil (new ++ [])
    ∙ append-nil new)
all_new plan new failed rest e h (inr (x, hx)) he = cc

module _ {S F : Type 0} (db : Store S F) (laws : IsStore db) where
  status_of-rows :
      (mg : Migrator F) (ls : List Row) (o : Option (List Row)) {ms : List (Migration F)} {last : ℕ}
      → ((l : List Row) → o ≡ some l → l ≡ ls)
      → status_of db mg o ≡ some (ms, last)
      → ms ≡ with_rows ls (sort_asc mg.migrations)
  status_of-rows mg ls none hl h = cc
  status_of-rows mg ls (some l) hl h =
      sym (ap (λ p. p.0) (some-injective _ _ h))
      ∙ ap (λ k. with_rows k (sort_asc mg.migrations)) (hl l refl)

  status-rows :
      (mg : Migrator F) (t : S) {ms : List (Migration F)} {last : ℕ}
      → migrations_with_status db mg t ≡ some (ms, last)
      → ms ≡ with_rows (db.rows t) (sort_asc mg.migrations)
  unfolding migrations_with_status
  status-rows mg t h = status_of-rows mg (db.rows t) (db.select_rows t) (laws.select_rows_rows t) h

  -- What `Migrate` has done without an error has its rows.
  Grew-HasKey :
      {nop b : Bool} {g : ℕ} {ms : List (Migration F)} {s : S} {a : Answer db}
      → Grew db nop b g ms s a
      → a.1 ≡ none
      → All (HasKey (db.rows a.2)) (keys db s)
        × All (HasKey (db.rows a.2)) (map (λ m. (m.name, g)) ms)
  Grew-HasKey {g = g} {ms = ms} {s = s} {a = a} r h =
      let plan = map (λ m. (m.name, g)) ms in
      let all = subst (All (HasKey (db.rows a.2))) r.grown (keys-HasKey (db.rows a.2)) in
      let (before, added) = All-split (HasKey (db.rows a.2)) (keys db s) r.new all in
      let same : r.new ≡ plan = all_new plan r.new r.failed r.rest a.1 r.planned r.done h in
      (before, subst (All (HasKey (db.rows a.2))) same added)

  -- A run with nothing to do.
  idle :
      (b nop : Bool) (g : ℕ) (s t : S) (n : Bytes) (ms : List (Migration F))
      → ms ≡ []
      → (a : Answer db) → a ≡ unlocked db n (start_group db b nop g t ms)
      → db.rows t ≡ db.rows s
      → (a.0 ≡ some (record { id = 0; migrations = [] })) × (a.1 ≡ none) × (db.rows a.2 ≡ db.rows s)
  unfolding start_group
  idle b nop g s t n ms h a e hr =
      let done = e ∙ ap (λ l. unlocked db n (start_group db b nop g t l)) h in
      (
        ap (λ x. x.0) done,
        ap (λ x. x.1) done,
        ap (λ x. db.rows x.2) done ∙ laws.delete_lock_rows n t ∙ hr,
      )

  -- Migrate, when it has ended without an error and is run again, with the lock and the status at
  -- hand in both runs, has nothing to do: it answers the empty group and no error and leaves the
  -- rows as they are.
  pub migrate_again :
      (mg : Migrator F) (nop nop' : Bool) (s : S) {ms ms' : List (Migration F)} {last last' : ℕ}
      → is_nil mg.ms ≡ false
      → (db.insert_lock mg.table s).0 ≡ true
      → migrations_with_status db mg (db.insert_lock mg.table s).1 ≡ some (ms, last)
      → (migrate db mg nop s).1 ≡ none
      → (db.insert_lock mg.table (migrate db mg nop s).2).0 ≡ true
      → migrations_with_status db mg (db.insert_lock mg.table (migrate db mg nop s).2).1
        ≡ some (ms', last')
      → ((migrate db mg nop' (migrate db mg nop s).2).0 ≡ some (record { id = 0; migrations = [] }))
        × ((migrate db mg nop' (migrate db mg nop s).2).1 ≡ none)
        × (db.rows (migrate db mg nop' (migrate db mg nop s).2).2 ≡ db.rows (migrate db mg nop s).2)
  migrate_again mg nop nop' s {ms} {ms'} {last} {last'} hm hl hs hn hl' hs' =
      let s' = (migrate db mg nop s).2 in
      let t = (db.insert_lock mg.table s).1 in
      let t' = (db.insert_lock mg.table s').1 in
      let sorted = sort_asc mg.migrations in
      let grew = migrate-Grew db laws mg nop s hm hl hs in
      let (before, added) = Grew-HasKey grew hn in
      let old : ms ≡ with_rows (db.rows s) sorted =
        status-rows mg t hs ∙ ap (λ l. with_rows l sorted) (laws.insert_lock_rows mg.table s) in
      let now : ms' ≡ with_rows (db.rows s') sorted =
        status-rows mg t' hs' ∙ ap (λ l. with_rows l sorted) (laws.insert_lock_rows mg.table s') in
      let todo =
        subst (λ l. All (λ m. HasKey (db.rows s') (m.name, 0)) (unapplied l)) old
          (All-planned (last + 1) (db.rows s') (unapplied ms) added) in
      let nothing : unapplied ms' ≡ [] =
        ap unapplied now
        ∙ unapplied-nil (db.rows s) (db.rows s') sorted (laws.rows_positive s') before todo in
      idle mg.mark_applied_on_success nop' (last' + 1) s' t' mg.table (unapplied ms') nothing
        (migrate db mg nop' s') (migrate-unlocked db laws mg nop' s' hm hl' hs')
        (laws.insert_lock_rows mg.table s')
