-- ===== src/Migrate/Loop.antt =====
-- What the loop of `Migrate` leaves in the table, however it ends.
use shilohcommunityenterpris.Common.{
  ℕ, Bool, true, false, not, List, [], ◌∷◌, ◌++◌, append-nil, map, Option, none, some, ◌≡◌, inl,
  inr, refl, sym, ap, ◌∙◌, subst,
}
use mathlib.Core.Option.{some-injective}
use shilohcommunityenterpris.Migrate.Migration.{Migration}
use shilohcommunityenterpris.Migrate.Migrator.{
  statement_failed, function_failed, mark_applied, mark_if, run_if, after_last, after_up,
  after_first, migrate_loop, Outcome,
}
use shilohcommunityenterpris.Migrate.Store.{Store, IsStore}
use shilohcommunityenterpris.Migrate.Runs.{
  Key, row_key, migration_key, keys, Marked, Ran, mark_applied_lem, run_if_lem, Worked, Failed,
  Succeeds, Fails, run_if-Succeeds,
}
use shilohcommunityenterpris.Migrate.Rounds.{by_some, cons-Ran, kept-Ran, lost-Ran, none-Ran}

module _ {S F : Type 0} (db : Store S F) (laws : IsStore db) where
  module _ (nop : Bool) (g : ℕ) (m : Migration F) (ms done : List (Migration F)) (s : S)
      (rec : List (Migration F) → S → Outcome db) where
    -- What a call of its function says of a migration, under whatever name.
    tried_up :
        (m x : Migration F) (u : S) (before : List Key)
        → keys db u ≡ before
        → x.up ≡ m.up
        → ((run_if db (not nop) x.up u).0 ≡ true → Worked db nop before m)
          × ((run_if db (not nop) x.up u).0 ≡ false → Failed db nop before m)
    tried_up m x u before hu e =
        let (ran, failed) = run_if-Succeeds db laws nop x.up u in
        (
          λ h. (u, hu, subst (λ f. Succeeds db nop f u) e (ran h)),
          λ h. (u, hu, subst (λ f. Fails db nop f u) e (failed h)),
        )

    -- The row of a migration whose function has succeeded.
    after_last-Ran :
        (hrec : (d : List (Migration F)) (t : S) → Ran db nop true g ms d t (rec d t))
        → Worked db nop (keys db s) m
        → (t : S) → db.locks t ≡ db.locks s
        → keys db t ≡ keys db s
        → (q : Option (Migration F) × S) → Marked db (record m { group_id = g }) t q
        → Ran db nop true g (m ∷ ms) done s (after_last db rec done (record m { group_id = g }) q)
    unfolding after_last
    after_last-Ran hrec w t hl hr (none, u) (kl, inl (_, kr)) =
        lost-Ran db laws nop g m ms done s u statement_failed (inr (inr refl)) (kl ∙ hl) (kr ∙ hr)
    after_last-Ran hrec w t hl hr (none, u) (kl, inr (_, h, _, _, _)) = cc
    after_last-Ran hrec w t hl hr (some x, u) (kl, inl (h, _)) = cc
    after_last-Ran hrec w t hl hr (some x, u) (kl, inr (m', h, hk, _, kr)) =
        cons-Ran db laws nop true g m x ms done s u (rec (done ++ x ∷ []) u) w
          (by_some db laws h hk) (kl ∙ hl) (kr ∙ ap (λ k. k ++ (m.name, g) ∷ []) hr)
          (hrec (done ++ x ∷ []) u)

    -- A migration's function, before its row.
    late-Ran :
        (hrec : (d : List (Migration F)) (t : S) → Ran db nop true g ms d t (rec d t))
        → (p : Bool × S)
        → (p.0 ≡ true → Worked db nop (keys db s) m) × (p.0 ≡ false → Failed db nop (keys db s) m)
        → (db.locks p.1 ≡ db.locks s) × (db.rows p.1 ≡ db.rows s)
        → Ran db nop true g
            (m ∷ ms)
            done
            s
            (after_up db true rec done (record m { group_id = g }) p)
    unfolding after_up mark_if
    late-Ran hrec (false, t) (_, failed) (hl, hr) =
        lost-Ran db laws nop g m ms done s t function_failed (inr (inl (refl, failed refl))) hl
          (ap (map row_key) hr)
    late-Ran hrec (true, t) (ran, _) (hl, hr) =
        after_last-Ran hrec (ran refl) t hl (ap (map row_key) hr)
          (mark_applied db (record m { group_id = g }) t)
          (mark_applied_lem db laws (record m { group_id = g }) t)

    -- A migration's function, behind its row.
    early-Ran :
        (hrec : (d : List (Migration F)) (t : S) → Ran db nop false g ms d t (rec d t))
        → (x : Migration F) → migration_key x ≡ (m.name, g)
        → (u : S) → db.locks u ≡ db.locks s
        → keys db u ≡ keys db s ++ (m.name, g) ∷ []
        → (p : Bool × S)
        → (p.0 ≡ true → Worked db nop (keys db s ++ (m.name, g) ∷ []) m)
          × (p.0 ≡ false → Failed db nop (keys db s ++ (m.name, g) ∷ []) m)
        → (db.locks p.1 ≡ db.locks u) × (db.rows p.1 ≡ db.rows u)
        → Ran db nop false g (m ∷ ms) done s (after_up db false rec done x p)
    unfolding after_up mark_if after_last
    early-Ran hrec x hk u ul ur (false, t) (_, failed) (hl, hr) =
        kept-Ran db laws nop g m x ms done s t function_failed (inr (inl (refl, failed refl))) hk
          (hl ∙ ul) (ap (map row_key) hr ∙ ur)
    early-Ran hrec x hk u ul ur (true, t) (ran, _) (hl, hr) =
        cons-Ran db laws nop false g m x ms done s t (rec (done ++ x ∷ []) t) (ran refl) hk
          (hl ∙ ul) (ap (map row_key) hr ∙ ur) (hrec (done ++ x ∷ []) t)

    -- A round that marks first.
    first-Ran :
        (hrec : (d : List (Migration F)) (t : S) → Ran db nop false g ms d t (rec d t))
        → (q : Option (Migration F) × S) → Marked db (record m { group_id = g }) s q
        → Ran db nop false g (m ∷ ms) done s (after_first db false nop rec done q)
    unfolding after_first
    first-Ran hrec (none, u) (kl, inl (_, kr)) = none-Ran db laws nop g m ms done s u kl kr
    first-Ran hrec (none, u) (kl, inr (_, h, _, _, _)) = cc
    first-Ran hrec (some x, u) (kl, inl (h, _)) = cc
    first-Ran hrec (some x, u) (kl, inr (m', h, hk, hu, kr)) =
        early-Ran hrec x (by_some db laws h hk) u kl kr (run_if db (not nop) x.up u)
          (tried_up m x u (keys db s ++ (m.name, g) ∷ []) kr
            (ap (λ y. y.up) (some-injective _ _ h) ∙ hu))
          (run_if_lem db laws (not nop) x.up u)

  pub migrate_loop-Ran :
      (b nop : Bool) (g : ℕ) (ms done : List (Migration F)) (s : S)
      → Ran db nop b g ms done s (migrate_loop db b nop g ms done s)
  unfolding migrate_loop after_first mark_if
  migrate_loop-Ran b nop g [] done s = record {
    new = [];
    failed = [];
    rest = [];
    same_locks = refl;
    grown = sym (append-nil (keys db s));
    grouped = sym (append-nil (map migration_key done ++ []) ∙ append-nil (map migration_key done));
    planned = refl;
    all_done = λ _. (refl, refl);
    no_failed = λ _. refl;
    worked = tt;
    ended = inl (refl, tt);
  }
  migrate_loop-Ran true nop g (m ∷ ms) done s =
      late-Ran nop g m ms done s (migrate_loop db true nop g ms) (migrate_loop-Ran true nop g ms)
        (run_if db (not nop) m.up s)
        (tried_up nop g m ms done s (migrate_loop db true nop g ms) m m s (keys db s) refl refl)
        (run_if_lem db laws (not nop) m.up s)
  migrate_loop-Ran false nop g (m ∷ ms) done s =
      first-Ran nop g m ms done s (migrate_loop db false nop g ms) (migrate_loop-Ran false nop g ms)
        (mark_applied db (record m { group_id = g }) s)
        (mark_applied_lem db laws (record m { group_id = g }) s)
