-- ===== src/Resolver/Once.antt =====
-- Which loads `Resolver` starts (modal/_resolver.py): the futures agree with the two tables.
use modal_client.Prelude.{
  ℕ, ◌+◌, ◌≤◌, ◌≡◌, refl, sym, ◌∙◌, ap, subst, ◌⊎◌, inl, inr, true, false, Result, ok, err, Option,
  none, some, List, [], ◌∷◌, if◌then◌else◌, arith,
}
use modal_client.Prelude.Dict.{Dict, lookup}
use modal_client.FilePatterns.Text.{Text}
use modal_client.Resolver.{
  Objects, LoadError, no_loader, load_failed, changed_id, LoadPhase, created, gathering, loading,
  finished, failed, LoadFuture, Resolver, new_resolver, hydrate, set_load_phase, new_call,
}
use modal_client.Resolver.Load.{
  load_deps, Gathered, unfinished, all_loaded, gather_raised, gather, after_gather, resume_loader,
  is_changed, after_load, end_object_load, loaded, Event, load, resumed_call, resumed_loader,
  loaded_object, step, run,
}
use modal_client.Resolver.Tables.{calls_bound, update-AreEntries}
use modal_client.Resolver.CallTables.{
  AreTables, set_load_phase-AreTables, resume_call-AreTables, on_found-AreTables,
}

module _ (objects : Objects) where
  -- `gather` changes calls only
  load_deps-tables :
      (deps : List ℕ) (s : Resolver)
      → AreTables objects s
      → AreTables objects (load_deps deps s).0 × ((load_deps deps s).0.futures ≡ s.futures)
  load_deps-tables [] s h = (h, refl)
  load_deps-tables (dep ∷ deps) s h = load_deps-tables deps (new_call dep none s) h

  load_calls-le :
      (s : Resolver) (f : ℕ) (future : LoadFuture) (p : LoadPhase)
      → AreTables objects s
      → lookup f s.futures ≡ some future
      → future.phase ≡ p
      → future.load_calls ≤ calls_bound p
  load_calls-le s f future p h found at =
      let (_, _, bounded) = h.1 f future found in
      subst (λ q. future.load_calls ≤ calls_bound q) at bounded

  after_gather-AreTables :
      (f : ℕ) (future : LoadFuture) (g : Gathered) (s : Resolver)
      → AreTables objects s
      → lookup f s.futures ≡ some future
      → future.load_calls ≤ 0
      → AreTables objects (after_gather objects f future g s)
  after_gather-AreTables f future unfinished s h found uncalled = h
  after_gather-AreTables f future (gather_raised e) s h found uncalled =
      set_load_phase-AreTables objects s f future (failed e) h found (omega (arith, uncalled))
  after_gather-AreTables f future all_loaded s h found uncalled =
      elim (objects.has_load future.obj)
        as (λ b. AreTables objects (
          if b
          then set_load_phase f (record future { load_calls = future.load_calls + 1 }) loading s
          else set_load_phase f future (failed no_loader) s)) [
            | true ↦
                update-AreEntries objects _ _ _ _ h f future _ found refl refl
                  (omega (arith, uncalled))
            | false ↦
                set_load_phase-AreTables objects s f future (failed no_loader) h found
                  (omega (arith, uncalled))
          ]

  resume_loader-AreTables :
      (f : ℕ) (future : LoadFuture) (p : LoadPhase) (s : Resolver)
      → AreTables objects s
      → lookup f s.futures ≡ some future
      → future.phase ≡ p
      → AreTables objects (resume_loader objects f future p s)
  resume_loader-AreTables f future created s h found at =
      let (same, unchanged) = load_deps-tables (objects.deps future.obj) s h in
      set_load_phase-AreTables objects (load_deps (objects.deps future.obj) s).0 f future _ same
        (ap (lookup f) unchanged ∙ found) (load_calls-le s f future created h found at)
  resume_loader-AreTables f future (gathering cs) s h found at =
      after_gather-AreTables f future (gather cs s.calls) s h found
        (load_calls-le s f future (gathering cs) h found at)
  resume_loader-AreTables f future loading s h found at = h
  resume_loader-AreTables f future finished s h found at = h
  resume_loader-AreTables f future (failed e) s h found at = h

  after_load-AreTables :
      (f : ℕ) (future : LoadFuture) (id : Text) (s : Resolver) (r : Result LoadError (Dict Text))
      → AreTables objects s
      → lookup f s.futures ≡ some future
      → future.load_calls ≤ 1
      → AreTables objects (after_load objects f future id s r)
  after_load-AreTables f future id s (err e) h found once =
      set_load_phase-AreTables objects s f future (failed e) h found once
  after_load-AreTables f future id s (ok ids) h found once =
      elim (is_changed objects future id)
        as (λ b. AreTables objects (
          set_load_phase f future (if b then failed changed_id else finished)
            (record s { object_ids = ids }))) [
              | true ↦ set_load_phase-AreTables objects s f future (failed changed_id) h found once
              | false ↦ set_load_phase-AreTables objects s f future finished h found once
            ]

  end_object_load-AreTables :
      (f : ℕ) (future : LoadFuture) (outcome : Option Text) (s : Resolver)
      → AreTables objects s
      → lookup f s.futures ≡ some future
      → future.load_calls ≤ 1
      → AreTables objects (end_object_load objects f future outcome s)
  end_object_load-AreTables f future none s h found once =
      set_load_phase-AreTables objects s f future (failed load_failed) h found once
  end_object_load-AreTables f future (some id) s h found once =
      after_load-AreTables f future id s (hydrate objects future.obj id s.object_ids) h found once

  loaded-AreTables :
      (f : ℕ) (future : LoadFuture) (outcome : Option Text) (p : LoadPhase) (s : Resolver)
      → AreTables objects s
      → lookup f s.futures ≡ some future
      → future.phase ≡ p
      → AreTables objects (loaded objects f future outcome p s)
  loaded-AreTables f future outcome created s h found at = h
  loaded-AreTables f future outcome (gathering cs) s h found at = h
  loaded-AreTables f future outcome loading s h found at =
      end_object_load-AreTables f future outcome s h found
        (load_calls-le s f future loading h found at)
  loaded-AreTables f future outcome finished s h found at = h
  loaded-AreTables f future outcome (failed e) s h found at = h

  step-AreTables :
      (e : Event) (s : Resolver) → AreTables objects s → AreTables objects (step objects e s)
  unfolding step
  step-AreTables (load u existing) s h = h
  step-AreTables (resumed_call c) s h =
      on_found-AreTables objects _ (lookup c s.calls) s h
        (λ call is. resume_call-AreTables objects c call call.awaiting s h)
  step-AreTables (resumed_loader f) s h =
      on_found-AreTables objects _ (lookup f s.futures) s h
        (λ future is. resume_loader-AreTables f future future.phase s h is refl)
  step-AreTables (loaded_object f outcome) s h =
      on_found-AreTables objects _ (lookup f s.futures) s h
        (λ future is. loaded-AreTables f future outcome future.phase s h is refl)

  pub run-AreTables :
      (events : List Event) (s : Resolver)
      → AreTables objects s
      → AreTables objects (run objects events s)
  unfolding run
  run-AreTables [] s h = h
  run-AreTables (e ∷ es) s h = run-AreTables es (step objects e s) (step-AreTables e s h)

same_future : {f g : ℕ} → some f ≡ some g → f ≡ g
same_future e = grind (arith, e)

calls_bound-le : (p : LoadPhase) → calls_bound p ≤ 1
calls_bound-le created = omega arith
calls_bound-le (gathering cs) = omega arith
calls_bound-le loading = omega arith
calls_bound-le finished = omega arith
calls_bound-le (failed e) = omega arith

pub new_resolver-AreTables :
    (objects : Objects) (hydrated : Dict Text) → AreTables objects (new_resolver hydrated)
new_resolver-AreTables objects hydrated =
    ((λ i le. refl), (λ i c e. absurd (ground (arith, e))), tt)

-- Whatever calls of `load` are made and however they are interleaved, a loader calls `_load` once at most, and two loaders
-- whose objects are the same, or have the same deduplication key, are the same loader.
pub loads-once :
    (objects : Objects) (hydrated : Dict Text) (events : List Event) (f g : ℕ) (a b : LoadFuture)
    → lookup f (run objects events (new_resolver hydrated)).futures ≡ some a
    → lookup g (run objects events (new_resolver hydrated)).futures ≡ some b
    → a.is_loader ≡ true
    → b.is_loader ≡ true
    → (a.obj ≡ b.obj)
      ⊎ ((key : ℕ) × (objects.deduplication_key a.obj ≡ some key)
          × (objects.deduplication_key b.obj ≡ some key))
    → (f ≡ g) × (a.load_calls ≤ 1)
loads-once objects hydrated events f g a b is_a is_b kind_a kind_b alike =
    let tables =
      run-AreTables objects events (new_resolver hydrated)
        (new_resolver-AreTables objects hydrated) in
    let (here_a, key_a, bound_a) = tables.1 f a is_a in
    let (here_b, key_b, bound_b) = tables.1 g b is_b in
    (
      elim alike [
        | inl same ↦ same_future (
            sym here_a
            ∙ ap (λ u. lookup u (run objects events (new_resolver hydrated)).local_uuid_to_future)
                same
            ∙ here_b)
        | inr (key, has_a, has_b) ↦
            same_future (sym (key_a kind_a key has_a) ∙ key_b kind_b key has_b)
      ],
      omega (arith, bound_a, calls_bound-le a.phase),
    )
