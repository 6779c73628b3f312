-- ===== src/Migrate/Rounds.antt =====
-- The rounds that a run of the loop of `Migrate` is put together from.
use shilohcommunityenterpris.Common.{
  ℕ, Bool, true, false, List, [], ◌∷◌, ◌++◌, append-nil, append_assoc, map, Option, some, ◌≡◌, inl,
  inr, refl, sym, ap, ◌∙◌, subst,
}
use mathlib.Core.List.{map-append}
use mathlib.Core.Option.{some-injective}
use shilohcommunityenterpris.Migrate.Migration.{Migration}
use shilohcommunityenterpris.Migrate.Migrator.{MigrateError, statement_failed, Outcome}
use shilohcommunityenterpris.Migrate.Store.{Store, IsStore}
use shilohcommunityenterpris.Migrate.Runs.{
  Key, migration_key, keys, Worked, called_at, Tried, StoppedAt, Ended, Ran,
}

module _ {S F : Type 0} (db : Store S F) (laws : IsStore db) where
  cons-Tried :
      (nop b all : Bool) (before : List Key) (m : Migration F) (ms : List (Migration F)) (k : Key)
      (ks : List Key)
      → Worked db nop (called_at db b before k) m
      → Tried db nop b all (before ++ k ∷ []) ms ks
      → Tried db nop b all before (m ∷ ms) (k ∷ ks)
  cons-Tried nop b true before m ms k ks w h = (w, h)
  cons-Tried nop b false before m ms k [] w h = tt
  cons-Tried nop b false before m ms k (l ∷ ks) w h = (w, h)

  cons-StoppedAt :
      (nop b : Bool) (before : List Key) (m : Migration F) (ms : List (Migration F)) (k : Key)
      (ks : List Key)
      → StoppedAt db nop b (before ++ k ∷ []) ms ks
      → StoppedAt db nop b before (m ∷ ms) (k ∷ ks)
  cons-StoppedAt nop true before m ms k ks h = h
  cons-StoppedAt nop false before m ms k [] h = absurd h
  cons-StoppedAt nop false before m ms k (l ∷ ks) h = h

  cons-Ended :
      (nop b : Bool) (before : List Key) (m : Migration F) (ms : List (Migration F)) (k : Key)
      (ks : List Key) (e : Option MigrateError)
      → Worked db nop (called_at db b before k) m
      → Ended db nop b (before ++ k ∷ []) ms ks e
      → Ended db nop b before (m ∷ ms) (k ∷ ks) e
  cons-Ended nop b before m ms k ks e w (inl (h, t)) = inl (h, (w, t))
  cons-Ended nop b before m ms k ks e w (inr (inl (h, t))) =
      inr (inl (h, cons-StoppedAt nop b before m ms k ks t))
  cons-Ended nop b before m ms k ks e w (inr (inr h)) = inr (inr h)

  key-append :
      (done : List (Migration F)) (m : Migration F) (k : Key)
      → migration_key m ≡ k
      → map migration_key (done ++ m ∷ []) ≡ map migration_key done ++ k ∷ []
  key-append done m k h =
      map-append migration_key done (m ∷ []) ∙ ap (λ l. map migration_key done ++ l ∷ []) h

  pub by_some :
      {x y : Migration F} {k : Key} → some x ≡ some y → migration_key y ≡ k → migration_key x ≡ k
  by_some h hk = ap migration_key (some-injective _ _ h) ∙ hk

  -- The loop goes on behind a migration that has its row.
  pub cons-Ran :
      (nop b : Bool) (g : ℕ) (m m' : Migration F) (ms done : List (Migration F)) (s t : S)
      (o : Outcome db)
      → Worked db nop (called_at db b (keys db s) (m.name, g)) m
      → migration_key m' ≡ (m.name, g)
      → db.locks t ≡ db.locks s
      → keys db t ≡ keys db s ++ (m.name, g) ∷ []
      → Ran db nop b g ms (done ++ m' ∷ []) t o
      → Ran db nop b g (m ∷ ms) done s o
  cons-Ran nop b g m m' ms done s t o w hk hl hr r = record {
    new = (m.name, g) ∷ r.new;
    failed = r.failed;
    rest = r.rest;
    same_locks = r.same_locks ∙ hl;
    grown = r.grown ∙ ap (λ k. k ++ r.new) hr ∙ append_assoc (keys db s) ((m.name, g) ∷ []) r.new;
    grouped =
        r.grouped
        ∙ ap (λ k. k ++ r.new ++ r.failed) (key-append done m' (m.name, g) hk)
        ∙ ap (λ k. k ++ r.failed) (append_assoc (map migration_key done) ((m.name, g) ∷ []) r.new);
    planned = ap (λ k. (m.name, g) ∷ k) r.planned;
    all_done = r.all_done;
    no_failed = r.no_failed;
    worked =
        cons-Tried nop b b (keys db s) m ms (m.name, g) r.new w
          (subst (λ p. Tried db nop b b p ms r.new) hr r.worked);
    ended =
        cons-Ended nop b (keys db s) m ms (m.name, g) r.new o.1 w
          (subst (λ p. Ended db nop b p ms r.new o.1) hr r.ended);
  }

  -- The loop ends with an error at a migration that has its row.
  pub kept-Ran :
      (nop : Bool) (g : ℕ) (m m' : Migration F) (ms done : List (Migration F)) (s t : S)
      (e : MigrateError)
      → Ended db nop false (keys db s) (m ∷ ms) ((m.name, g) ∷ []) (some e)
      → migration_key m' ≡ (m.name, g)
      → db.locks t ≡ db.locks s
      → keys db t ≡ keys db s ++ (m.name, g) ∷ []
      → Ran db nop false g (m ∷ ms) done s (done ++ m' ∷ [], some e, t)
  kept-Ran nop g m m' ms done s t e he hk hl hr = record {
    new = (m.name, g) ∷ [];
    failed = [];
    rest = map (λ x. (x.name, g)) ms;
    same_locks = hl;
    grown = hr;
    grouped =
        key-append done m' (m.name, g) hk
        ∙ sym (append-nil (map migration_key done ++ (m.name, g) ∷ []));
    planned = refl;
    all_done = λ h. cc;
    no_failed = λ _. refl;
    worked = tt;
    ended = he;
  }

  -- The loop ends with an error at a migration that has none.
  pub lost-Ran :
      (nop : Bool) (g : ℕ) (m : Migration F) (ms done : List (Migration F)) (s t : S)
      (e : MigrateError)
      → Ended db nop true (keys db s) (m ∷ ms) [] (some e)
      → db.locks t ≡ db.locks s
      → keys db t ≡ keys db s
      → Ran db nop true g (m ∷ ms) done s (done ++ record m { group_id = g } ∷ [], some e, t)
  lost-Ran nop g m ms done s t e he hl hr = record {
    new = [];
    failed = (m.name, g) ∷ [];
    rest = map (λ x. (x.name, g)) ms;
    same_locks = hl;
    grown = hr ∙ sym (append-nil (keys db s));
    grouped =
        map-append migration_key done (record m { group_id = g } ∷ [])
        ∙ ap (λ k. k ++ (m.name, g) ∷ []) (sym (append-nil (map migration_key done)));
    planned = refl;
    all_done = λ h. cc;
    no_failed = λ h. cc;
    worked = tt;
    ended = he;
  }

  -- The loop ends with an error before anything is written for the migration.
  pub none-Ran :
      (nop : Bool) (g : ℕ) (m : Migration F) (ms done : List (Migration F)) (s t : S)
      → db.locks t ≡ db.locks s
      → keys db t ≡ keys db s
      → Ran db nop false g (m ∷ ms) done s (done, some statement_failed, t)
  none-Ran nop g m ms done s t hl hr = record {
    new = [];
    failed = [];
    rest = map (λ x. (x.name, g)) (m ∷ ms);
    same_locks = hl;
    grown = hr ∙ sym (append-nil (keys db s));
    grouped = sym (append-nil (map migration_key done ++ []) ∙ append-nil (map migration_key done));
    planned = refl;
    all_done = λ h. cc;
    no_failed = λ _. refl;
    worked = tt;
    ended = inr (inr refl);
  }
