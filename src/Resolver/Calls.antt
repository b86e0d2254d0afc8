-- ===== src/Resolver/Calls.antt =====
-- A call of `load` that goes on (modal/_resolver.py) keeps what holds between the steps.
use modal_client.Prelude.{
  ℕ, ◌≡◌, refl, subst, Bool, true, false, ◌&&◌, Option, none, some, ok, err, if◌then◌else◌, arith,
}
use modal_client.Prelude.Dict.{lookup, insert, lookup-insert}
use modal_client.FilePatterns.Text.{Text, startswith}
use modal_client.Resolver.{
  Objects, wrong_prefix, LoadPhase, created, gathering, loading, finished, failed, LoadFuture,
  LoadCall, Awaiting, begun, keying, cached_future, duplicate, returned, raised, Resolver,
  is_hydrated, await_on,
}
use modal_client.Resolver.Load.{
  new_future, cache_key, await_future, keep_hydrated, await_key, begin_load, end_load,
  hydrated_or_raised, copy_hydrated, end_duplicate, on_found, resume_call,
}
use modal_client.Resolver.Kept.{future_obj, IsHydrated, IsPhase, IsAwaiting, IsResolver}
use modal_client.Resolver.Updates.{
  await_on-IsResolver, new_future-IsResolver, ids-IsResolver, cache_key-IsResolver,
}

-- a test of the code
pub on_test :
    (P : Resolver → Type 0) (b : Bool) (s t : Resolver)
    → (b ≡ true → P s)
    → (b ≡ false → P t)
    → P (if b then s else t)
on_test P true s t yes_case no_case = yes_case refl
on_test P false s t yes_case no_case = no_case refl

module _ (objects : Objects) where
  await_future-IsResolver :
      (c : ℕ) (call : LoadCall) (key own other : Option ℕ) (s : Resolver)
      → IsResolver objects s
      → lookup c s.calls ≡ some call
      → lookup call.obj s.local_uuid_to_future ≡ own
      → IsResolver objects (await_future c call key own other s)
  await_future-IsResolver c call key (some f) other s h found own_is =
      await_on-IsResolver objects s h c call (cached_future f) found (h.tables call.obj f own_is)
  await_future-IsResolver c call key none (some f) s h found own_is =
      await_on-IsResolver objects s h c call (duplicate f) found tt
  await_future-IsResolver c call none none none s h found own_is =
      let (made, here) =
        new_future-IsResolver objects s h call.obj call.existing_object_id true created tt in
      await_on-IsResolver objects (new_future call.obj call.existing_object_id true created s) made
        c call (cached_future s.next_future) found here
  await_future-IsResolver c call (some key) none none s h found own_is =
      let (made, here) =
        new_future-IsResolver objects s h call.obj call.existing_object_id true created tt in
      let t = new_future call.obj call.existing_object_id true created s in
      await_on-IsResolver objects (cache_key (some key) s.next_future t)
        (cache_key-IsResolver objects t made (some key) s.next_future) c call
        (cached_future s.next_future) found here

  keep_hydrated-IsResolver :
      (c : ℕ) (call : LoadCall) (own : Option ℕ) (s : Resolver)
      → IsResolver objects s
      → lookup c s.calls ≡ some call
      → IsHydrated s call.obj
      → IsResolver objects (await_on c call returned (keep_hydrated call.obj own s))
  keep_hydrated-IsResolver c call (some f) s h found is =
      await_on-IsResolver objects s h c call returned found is
  keep_hydrated-IsResolver c call none s h found is =
      await_on-IsResolver objects (new_future call.obj none false finished s)
        (new_future-IsResolver objects s h call.obj none false finished is).0 c call returned found
        is

  await_key-IsResolver :
      (c : ℕ) (call : LoadCall) (key : Option ℕ) (s : Resolver)
      → IsResolver objects s
      → lookup c s.calls ≡ some call
      → IsResolver objects (await_key c call key s)
  await_key-IsResolver c call none s h found =
      await_future-IsResolver c call none _ none s h found refl
  await_key-IsResolver c call (some key) s h found =
      await_on-IsResolver objects s h c call keying found tt

  begin_load-IsResolver :
      (c : ℕ) (call : LoadCall) (s : Resolver)
      → IsResolver objects s
      → lookup c s.calls ≡ some call
      → IsResolver objects (begin_load objects c call s)
  begin_load-IsResolver c call s h found =
      on_test (IsResolver objects) (is_hydrated call.obj s && objects.is_another_app call.obj) _ _
        (λ both.
          keep_hydrated-IsResolver c call (lookup call.obj s.local_uuid_to_future) s h found
            (ground (arith, both)))
        (λ other. await_key-IsResolver c call (objects.deduplication_key call.obj) s h found)

  end_load-IsResolver :
      (c : ℕ) (call : LoadCall) (p : LoadPhase) (s : Resolver)
      → IsResolver objects s
      → lookup c s.calls ≡ some call
      → IsPhase objects s call.obj p
      → IsResolver objects (end_load c call p s)
  end_load-IsResolver c call created s h found is = h
  end_load-IsResolver c call (gathering cs) s h found is = h
  end_load-IsResolver c call loading s h found is = h
  end_load-IsResolver c call finished s h found is =
      await_on-IsResolver objects s h c call returned found is
  end_load-IsResolver c call (failed e) s h found is =
      await_on-IsResolver objects s h c call (raised e) found tt

  copy_hydrated-IsResolver :
      (c : ℕ) (call : LoadCall) (id : Option Text) (s : Resolver)
      → IsResolver objects s
      → lookup c s.calls ≡ some call
      → IsResolver objects (copy_hydrated objects c call id s)
  copy_hydrated-IsResolver c call none s h found = h
  copy_hydrated-IsResolver c call (some id) s h found =
      elim (startswith id (objects.type_prefix call.obj))
        as (λ b. IsResolver objects (
          hydrated_or_raised c call s
            (if b then ok (insert call.obj id s.object_ids) else err wrong_prefix))) [
              | true ↦
                  await_on-IsResolver objects
                    (record s { object_ids = insert call.obj id s.object_ids })
                    (ids-IsResolver objects s h call.obj id) c call returned found
                    (ground (arith, lookup-insert call.obj call.obj id s.object_ids))
              | false ↦ await_on-IsResolver objects s h c call (raised wrong_prefix) found tt
            ]

  end_duplicate-IsResolver :
      (c : ℕ) (call : LoadCall) (u : ℕ) (p : LoadPhase) (s : Resolver)
      → IsResolver objects s
      → lookup c s.calls ≡ some call
      → IsResolver objects (end_duplicate objects c call u p s)
  end_duplicate-IsResolver c call u created s h found = h
  end_duplicate-IsResolver c call u (gathering cs) s h found = h
  end_duplicate-IsResolver c call u loading s h found = h
  end_duplicate-IsResolver c call u finished s h found =
      copy_hydrated-IsResolver c call (lookup u s.object_ids) s h found
  end_duplicate-IsResolver c call u (failed e) s h found =
      await_on-IsResolver objects s h c call (raised e) found tt

  pub on_found-IsResolver :
      {A : Type 0} (k : A → Resolver) (o : Option A) (s : Resolver)
      → IsResolver objects s
      → ((a : A) → o ≡ some a → IsResolver objects (k a))
      → IsResolver objects (on_found k o s)
  on_found-IsResolver k none s h after = h
  on_found-IsResolver k (some a) s h after = after a refl

  -- what the future of a call waits for
  phase_of :
      (s : Resolver)
      → IsResolver objects s
      → (f u : ℕ) (future : LoadFuture) → lookup f s.futures ≡ some future
      → future_obj f s ≡ some u
      → IsPhase objects s u future.phase
  phase_of s h f u future found is =
      let same : future.obj ≡ u = grind (arith, found, is) in
      subst (λ v. IsPhase objects s v future.phase) same (h.futures f future found).0

  pub resume_call-IsResolver :
      (c : ℕ) (call : LoadCall) (a : Awaiting) (s : Resolver)
      → IsResolver objects s
      → lookup c s.calls ≡ some call
      → call.awaiting ≡ a
      → IsResolver objects (resume_call objects c call a s)
  resume_call-IsResolver c call begun s h found at = begin_load-IsResolver c call s h found
  resume_call-IsResolver c call keying s h found at =
      await_future-IsResolver c call _ _ _ s h found refl
  resume_call-IsResolver c call (cached_future f) s h found at =
      on_found-IsResolver _ (lookup f s.futures) s h (λ future is.
        end_load-IsResolver c call future.phase s h found (
          phase_of s h f call.obj future is
            (subst (IsAwaiting s call.obj) at (h.calls c call found))))
  resume_call-IsResolver c call (duplicate f) s h found at =
      on_found-IsResolver _ (lookup f s.futures) s h
        (λ future is. end_duplicate-IsResolver c call future.obj future.phase s h found)
  resume_call-IsResolver c call returned s h found at = h
  resume_call-IsResolver c call (raised e) s h found at = h
