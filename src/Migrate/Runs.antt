-- ===== src/Migrate/Runs.antt =====
-- What a run of the loop of `Migrate` leaves in the table.
use shilohcommunityenterpris.Common.{
  ℕ, not, Bool, true, false, List, [], ◌∷◌, ◌++◌, append-nil, map, Option, none, some, ◌≡◌, ◌⊎◌,
  inl, inr, refl, ap, ◌∙◌, Bytes,
}
use mathlib.Core.List.{map-append}
use shilohcommunityenterpris.Migrate.Migration.{Migration}
use shilohcommunityenterpris.Migrate.Migrator.{
  MigrateError, function_failed, statement_failed, mark_applied, marked, run_if, Outcome,
}
use shilohcommunityenterpris.Migrate.Store.{Row, row_list, Store, IsStore}

-- A name and a group: what a migration and its row have in common.
abbrev pub Key : Type 0
Key = Bytes × ℕ

abbrev pub row_key : Row → Key
row_key r = (r.name, r.group_id)

abbrev pub migration_key : {F : Type 0} → Migration F → Key
migration_key m = (m.name, m.group_id)

module _ {S F : Type 0} (db : Store S F) where
  abbrev pub keys : S → List Key
  keys s = map row_key (db.rows s)

  -- What marking a migration leaves: a row for it and its new id, or nothing.
  abbrev pub Marked : Migration F → S → Option (Migration F) × S → Type 0
  Marked m s q =
      (db.locks q.1 ≡ db.locks s)
      × ((q.0 ≡ none) × (keys q.1 ≡ keys s)
          ⊎ ((m' : Migration F) × (q.0 ≡ some m')
              × (migration_key m' ≡ migration_key m)
              × (m'.up ≡ m.up)
              × (keys q.1 ≡ keys s ++ migration_key m ∷ [])))

  -- A call of a migration's function succeeds or fails; without a function, and where calls are not
  -- wanted, there is nothing that could fail.
  abbrev pub Succeeds : Bool → Option F → S → Type 0
  Succeeds true f t = Unit
  Succeeds false none t = Unit
  Succeeds false (some f) t = (db.run f t).0 ≡ true

  abbrev pub Fails : Bool → Option F → S → Type 0
  Fails true f t = ⊥
  Fails false none t = ⊥
  Fails false (some f) t = (db.run f t).0 ≡ false

  -- There is a call at a time when the table has the given rows.
  abbrev pub Worked : Bool → List Key → Migration F → Type 0
  Worked nop before m = (t : S) × (keys t ≡ before) × Succeeds nop m.up t

  abbrev pub Failed : Bool → List Key → Migration F → Type 0
  Failed nop before m = (t : S) × (keys t ≡ before) × Fails nop m.up t

  -- The rows at the time of a call: with `markAppliedOnSuccess` those before the migration's own,
  -- and without it that one too.
  abbrev pub called_at : Bool → List Key → Key → List Key
  called_at true before k = before
  called_at false before k = before ++ k ∷ []

  -- The migrations that the new rows stand for have worked, one after the other: all of them, or all
  -- but the last.
  abbrev pub Tried : Bool → Bool → Bool → List Key → List (Migration F) → List Key → Type 0
  Tried nop b all before ms [] = Unit
  Tried nop b all before [] (k ∷ ks) = ⊥
  Tried nop b true before (m ∷ ms) (k ∷ ks) =
      Worked nop (called_at b before k) m × Tried nop b true (before ++ k ∷ []) ms ks
  Tried nop b false before (m ∷ ms) (k ∷ []) = Unit
  Tried nop b false before (m ∷ ms) (k ∷ l ∷ ks) =
      Worked nop (called_at b before k) m × Tried nop b false (before ++ k ∷ []) ms (l ∷ ks)

  -- The first migration without a row has failed, or, where rows are written first, the last one
  -- with a row.
  abbrev pub StoppedAt : Bool → Bool → List Key → List (Migration F) → List Key → Type 0
  StoppedAt nop true before [] ks = ⊥
  StoppedAt nop true before (m ∷ ms) [] = Failed nop before m
  StoppedAt nop true before (m ∷ ms) (k ∷ ks) = StoppedAt nop true (before ++ k ∷ []) ms ks
  StoppedAt nop false before ms [] = ⊥
  StoppedAt nop false before [] (k ∷ ks) = ⊥
  StoppedAt nop false before (m ∷ ms) (k ∷ []) = Failed nop (before ++ k ∷ []) m
  StoppedAt nop false before (m ∷ ms) (k ∷ l ∷ ks) =
      StoppedAt nop false (before ++ k ∷ []) ms (l ∷ ks)

  -- How a run ends: all have worked, a function has failed, or a statement.
  abbrev pub Ended :
      Bool → Bool → List Key → List (Migration F) → List Key → Option MigrateError → Type 0
  Ended nop b before ms ks e =
      (e ≡ none) × Tried nop b true before ms ks
      ⊎ (e ≡ some function_failed) × StoppedAt nop b before ms ks
      ⊎ (e ≡ some statement_failed)

  -- What a run of the loop over `ms` from `s` leaves: rows for the first of them, the one that
  -- failed without a row, and the rest, of which nothing is left to see.
  pub record Ran (nop on_success : Bool) (g : ℕ) (ms done : List (Migration F)) (s : S)
      (o : Outcome db) : Type 0 where
    pub new : List Key
    pub failed : List Key
    pub rest : List Key
    pub same_locks : db.locks o.2 ≡ db.locks s
    pub grown : keys o.2 ≡ keys s ++ new
    pub grouped : map migration_key o.0 ≡ map migration_key done ++ new ++ failed
    pub planned : map (λ m. (m.name, g)) ms ≡ new ++ failed ++ rest
    pub all_done : o.1 ≡ none → (failed ≡ []) × (rest ≡ [])
    pub no_failed : on_success ≡ false → failed ≡ []
    pub worked : Tried nop on_success on_success (keys s) ms new
    pub ended : Ended nop on_success (keys s) ms new o.1

module _ {S F : Type 0} (db : Store S F) (laws : IsStore db) where
  pub marked_lem :
      (m : Migration F) (s : S) (p : Option Row × S)
      → db.locks p.1 ≡ db.locks s
      → db.rows p.1 ≡ db.rows s ++ row_list p.0
      → ((r : Row) → p.0 ≡ some r → (r.name ≡ m.name) × (r.group_id ≡ m.group_id))
      → Marked db m s (marked db m p)
  marked_lem m s (none, t) hl hr hv =
      (hl, inl (refl, ap (map row_key) (hr ∙ append-nil (db.rows s))))
  marked_lem m s (some r, t) hl hr hv =
      let (hn, hg) = hv r refl in
      let key : row_key r ≡ migration_key m = (λ i. (hn i, hg i)) in
      (
        hl,
        inr (
          record m { id = r.id },
          refl,
          refl,
          refl,
          ap (map row_key) hr
              ∙ map-append row_key (db.rows s) (r ∷ [])
              ∙ ap (λ k. map row_key (db.rows s) ++ k ∷ []) key,
        ),
      )

  pub mark_applied_lem : (m : Migration F) (s : S) → Marked db m s (mark_applied db m s)
  unfolding mark_applied
  mark_applied_lem m s =
      marked_lem m s (db.insert_row m.name m.group_id s) (laws.insert_row_locks m.name m.group_id s)
        (laws.insert_row_rows m.name m.group_id s) (laws.insert_row_values m.name m.group_id s)

  pub run_if_lem :
      (b : Bool) (f : Option F) (s : S)
      → (db.locks (run_if db b f s).1 ≡ db.locks s) × (db.rows (run_if db b f s).1 ≡ db.rows s)
  run_if_lem b none s = (refl, refl)
  run_if_lem true (some f) s = (laws.run_locks f s, laws.run_rows f s)
  run_if_lem false (some f) s = (refl, refl)

  pub run_if-Succeeds :
      (nop : Bool) (f : Option F) (s : S)
      → ((run_if db (not nop) f s).0 ≡ true → Succeeds db nop f s)
        × ((run_if db (not nop) f s).0 ≡ false → Fails db nop f s)
  run_if-Succeeds true none s = (λ h. tt, λ h. cc)
  run_if-Succeeds true (some f) s = (λ h. tt, λ h. cc)
  run_if-Succeeds false none s = (λ h. tt, λ h. cc)
  run_if-Succeeds false (some f) s = (λ h. h, λ h. h)
