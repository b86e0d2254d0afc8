-- ===== src/Resolver/Dependencies.antt =====
-- The order of the loads of `Resolver` (modal/_resolver.py): dependencies first.
use modal_client.Prelude.{
  ℕ, ◌≤◌, ◌≡◌, ◌≢◌, refl, sym, ◌∙◌, ap, subst, inl, inr, true, false, Option-cases, Option, none,
  some, List, [], ◌∷◌, All, ok, err, if◌then◌else◌, arith,
}
use modal_client.Prelude.Dict.{Dict, lookup, insert, lookup-insert}
use modal_client.FilePatterns.Text.{Text, startswith}
use modal_client.Resolver.{
  Objects, changed_id, wrong_prefix, LoadPhase, created, gathering, loading, finished, failed,
  LoadFuture, LoadCall, Awaiting, begun, keying, cached_future, duplicate, returned, raised,
  Resolver, new_resolver, is_hydrated, set_load_phase, new_call,
}
use modal_client.Resolver.Load.{
  load_deps, Gathered, unfinished, all_loaded, gather_raised, pending, gather_one, gather,
  after_gather, resume_loader, is_changed, after_load, end_object_load, loaded, Event, load,
  resumed_call, resumed_loader, loaded_object, step, run,
}
use modal_client.Resolver.Kept.{call_obj, IsHydrated, IsPhase, IsAwaiting, IsResolver, AreLoading}
use modal_client.Resolver.Updates.{
  call-Grows, new_call-IsResolver, update-IsResolver, ids-IsResolver,
}
use modal_client.Resolver.Calls.{on_test, on_found-IsResolver, resume_call-IsResolver}

not_pending : (g : Gathered) → pending g ≢ all_loaded
not_pending unfinished e = ground (arith, e)
not_pending all_loaded e = ground (arith, e)
not_pending (gather_raised x) e = ground (arith, e)

gathered_one :
    (a : Awaiting) (g : Gathered) → gather_one a g ≡ all_loaded → (a ≡ returned) × (g ≡ all_loaded)
gathered_one returned g e = (refl, e)
gathered_one (raised x) g e = absurd (ground (arith, e))
gathered_one begun g e = absurd (not_pending g e)
gathered_one keying g e = absurd (not_pending g e)
gathered_one (cached_future f) g e = absurd (not_pending g e)
gathered_one (duplicate f) g e = absurd (not_pending g e)

module _ (objects : Objects) where
  load_deps-loading :
      (deps : List ℕ) (s : Resolver)
      → IsResolver objects s
      → IsResolver objects (load_deps deps s).0
        × ((c u : ℕ) → call_obj c s ≡ some u → call_obj c (load_deps deps s).0 ≡ some u)
        × AreLoading (load_deps deps s).0 (load_deps deps s).1 deps
        × ((load_deps deps s).0.futures ≡ s.futures)
  load_deps-loading [] s h = (h, (λ c u e. e), refl, refl)
  load_deps-loading (dep ∷ deps) s h =
      let (made, here) = new_call-IsResolver objects s h dep none in
      let (after, later, loads, same) = load_deps-loading deps (new_call dep none s) made in
      let (_, _, grows) =
        call-Grows s s.next_call (record { obj = dep; existing_object_id = none; awaiting = begun })
          (inl (h.fresh_calls s.next_call (omega arith))) in
      (
        after,
        (λ c u e. later c u (grows c u e)),
        (dep, deps, refl, later s.next_call dep here, loads),
        same,
      )

  gather-loaded :
      (s : Resolver)
      → IsResolver objects s
      → (cs deps : List ℕ) → AreLoading s cs deps
      → gather cs s.calls ≡ all_loaded
      → All (IsHydrated s) deps
  gather-loaded s h [] deps is e = subst (All (IsHydrated s)) (sym is) tt
  gather-loaded s h (c ∷ cs) deps (dep, rest, split, is, loads) e =
      elim (Option-cases (lookup c s.calls)) [
        | inl missing ↦ absurd (ground (arith, e, missing))
        | inr (call, found) ↦
            let (at, others) =
              gathered_one call.awaiting (gather cs s.calls) (ground (arith, e, found)) in
            let same : call.obj ≡ dep = grind (arith, found, is) in
            subst (All (IsHydrated s)) (sym split) (
              subst (IsHydrated s) same (subst (IsAwaiting s call.obj) at (h.calls c call found)),
              gather-loaded s h cs rest loads others,
            )
      ]

  after_gather-IsResolver :
      (f : ℕ) (future : LoadFuture) (g : Gathered) (s : Resolver)
      → IsResolver objects s
      → lookup f s.futures ≡ some future
      → (g ≡ all_loaded → All (IsHydrated s) (objects.deps future.obj))
      → IsResolver objects (after_gather objects f future g s)
  after_gather-IsResolver f future unfinished s h found ready = h
  after_gather-IsResolver f future (gather_raised e) s h found ready =
      update-IsResolver objects s h f future _ found refl (tt, (h.futures f future found).1)
  after_gather-IsResolver f future all_loaded s h found ready =
      on_test (IsResolver objects) (objects.has_load future.obj) _ _
        (λ _. update-IsResolver objects s h f future _ found refl (tt, λ called. ready refl))
        (λ _.
          update-IsResolver objects s h f future _ found refl (tt, (h.futures f future found).1))

  resume_loader-IsResolver :
      (f : ℕ) (future : LoadFuture) (p : LoadPhase) (s : Resolver)
      → IsResolver objects s
      → lookup f s.futures ≡ some future
      → future.phase ≡ p
      → IsResolver objects (resume_loader objects f future p s)
  resume_loader-IsResolver f future created s h found at =
      let (after, _, loads, same) = load_deps-loading (objects.deps future.obj) s h in
      let there = ap (lookup f) same ∙ found in
      update-IsResolver objects (load_deps (objects.deps future.obj) s).0 after f future _ there
        refl (loads, (after.futures f future there).1)
  resume_loader-IsResolver f future (gathering cs) s h found at =
      after_gather-IsResolver f future (gather cs s.calls) s h found (
        gather-loaded s h cs (objects.deps future.obj)
          (subst (IsPhase objects s future.obj) at (h.futures f future found).0))
  resume_loader-IsResolver f future loading s h found at = h
  resume_loader-IsResolver f future finished s h found at = h
  resume_loader-IsResolver f future (failed e) s h found at = h

  end_object_load-IsResolver :
      (f : ℕ) (future : LoadFuture) (outcome : Option Text) (s : Resolver)
      → IsResolver objects s
      → lookup f s.futures ≡ some future
      → IsResolver objects (end_object_load objects f future outcome s)
  end_object_load-IsResolver f future none s h found =
      update-IsResolver objects s h f future _ found refl (tt, (h.futures f future found).1)
  end_object_load-IsResolver f future (some id) s h found =
      let t = record s { object_ids = insert future.obj id s.object_ids } in
      let made = ids-IsResolver objects s h future.obj id in
      let deps = (made.futures f future found).1 in
      elim (startswith id (objects.type_prefix future.obj))
        as (λ b. IsResolver objects (
          after_load objects f future id s
            (if b then ok (insert future.obj id s.object_ids) else err wrong_prefix))) [
              | true ↦
                  elim (is_changed objects future id)
                    as (λ b.
                      IsResolver objects
                        (set_load_phase f future (if b then failed changed_id else finished) t)) [
                          | true ↦ update-IsResolver objects t made f future _ found refl (tt, deps)
                          | false ↦ update-IsResolver objects t made f future _ found refl (
                            ground (arith, lookup-insert future.obj future.obj id s.object_ids),
                            deps,
                          )
                        ]
              | false ↦
                  update-IsResolver objects s h f future _ found refl
                    (tt, (h.futures f future found).1)
            ]

  loaded-IsResolver :
      (f : ℕ) (future : LoadFuture) (outcome : Option Text) (p : LoadPhase) (s : Resolver)
      → IsResolver objects s
      → lookup f s.futures ≡ some future
      → IsResolver objects (loaded objects f future outcome p s)
  loaded-IsResolver f future outcome created s h found = h
  loaded-IsResolver f future outcome (gathering cs) s h found = h
  loaded-IsResolver f future outcome loading s h found =
      end_object_load-IsResolver f future outcome s h found
  loaded-IsResolver f future outcome finished s h found = h
  loaded-IsResolver f future outcome (failed e) s h found = h

  step-IsResolver :
      (e : Event) (s : Resolver) → IsResolver objects s → IsResolver objects (step objects e s)
  unfolding step
  step-IsResolver (load u existing) s h = (new_call-IsResolver objects s h u existing).0
  step-IsResolver (resumed_call c) s h =
      on_found-IsResolver objects _ (lookup c s.calls) s h
        (λ call is. resume_call-IsResolver objects c call call.awaiting s h is refl)
  step-IsResolver (resumed_loader f) s h =
      on_found-IsResolver objects _ (lookup f s.futures) s h
        (λ future is. resume_loader-IsResolver f future future.phase s h is refl)
  step-IsResolver (loaded_object f outcome) s h =
      on_found-IsResolver objects _ (lookup f s.futures) s h
        (λ future is. loaded-IsResolver f future outcome future.phase s h is)

  pub run-IsResolver :
      (events : List Event) (s : Resolver)
      → IsResolver objects s
      → IsResolver objects (run objects events s)
  unfolding run
  run-IsResolver [] s h = h
  run-IsResolver (e ∷ es) s h = run-IsResolver es (step objects e s) (step-IsResolver e s h)

  pub new_resolver-IsResolver : (hydrated : Dict Text) → IsResolver objects (new_resolver hydrated)
  new_resolver-IsResolver hydrated = record {
    tables = λ u f e. absurd (ground (arith, e));
    futures = λ f a e. absurd (ground (arith, e));
    calls = λ c call e. absurd (ground (arith, e));
    fresh_futures = λ f le. refl;
    fresh_calls = λ c le. refl;
  }

-- Whatever calls of `load` are made and however they are interleaved, `_load` is called on an object only once all of its
-- dependencies are hydrated, and a call of `load` that has returned has hydrated its object.
pub loads-after_deps :
    (objects : Objects) (hydrated : Dict Text) (events : List Event)
    → ((f : ℕ) (a : LoadFuture)
        → lookup f (run objects events (new_resolver hydrated)).futures ≡ some a
        → 1 ≤ a.load_calls
        → All
            (λ dep. is_hydrated dep (run objects events (new_resolver hydrated)) ≡ true)
            (objects.deps a.obj))
      × ((c : ℕ) (call : LoadCall)
          → lookup c (run objects events (new_resolver hydrated)).calls ≡ some call
          → call.awaiting ≡ returned
          → is_hydrated call.obj (run objects events (new_resolver hydrated)) ≡ true)
loads-after_deps objects hydrated events =
    let s = run objects events (new_resolver hydrated) in
    let kept =
      run-IsResolver objects events (new_resolver hydrated)
        (new_resolver-IsResolver objects hydrated) in
    (
      (λ f a found called. (kept.futures f a found).1 called),
      (λ c call found at. subst (IsAwaiting s call.obj) at (kept.calls c call found)),
    )
