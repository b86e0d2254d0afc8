-- ===== src/Resolver/CallTables.antt =====
-- A call of `load` that goes on (modal/_resolver.py) keeps the futures in the tables.
use modal_client.Prelude.{
  ℕ, ◌≤◌, ◌≡◌, refl, true, false, ◌&&◌, Result, ok, err, Option, none, some, if◌then◌else◌, arith,
}
use modal_client.Prelude.Dict.{Dict, lookup, lookup-insert}
use modal_client.FilePatterns.Text.{Text}
use modal_client.Resolver.{
  Objects, LoadError, LoadPhase, created, gathering, loading, finished, failed, LoadFuture,
  LoadCall, Awaiting, begun, keying, cached_future, duplicate, returned, raised, Resolver,
  is_hydrated, hydrate, await_on, set_load_phase,
}
use modal_client.Resolver.Load.{
  cached_duplicate, await_future, find_future, keep_hydrated, await_key, begin_load, end_load,
  hydrated_or_raised, copy_hydrated, end_duplicate, on_found, resume_call,
}
use modal_client.Resolver.Tables.{calls_bound, AreEntries, update-AreEntries, new-AreEntries}

-- every future is an entry of the tables
abbrev pub AreTables : Objects → Resolver → Type 0
AreTables objects s =
    AreEntries objects s.local_uuid_to_future s.deduplication_cache s.futures s.next_future

module _ (objects : Objects) where
  pub set_load_phase-AreTables :
      (s : Resolver) (f : ℕ) (a : LoadFuture) (p : LoadPhase)
      → AreTables objects s
      → lookup f s.futures ≡ some a
      → a.load_calls ≤ calls_bound p
      → AreTables objects (set_load_phase f a p s)
  set_load_phase-AreTables s f a p h found bounded =
      update-AreEntries objects _ _ _ _ h f a (record a { phase = p }) found refl refl bounded

  await_future-AreTables :
      (c : ℕ) (call : LoadCall) (key other own : Option ℕ) (s : Resolver)
      → AreTables objects s
      → key ≡ objects.deduplication_key call.obj
      → lookup call.obj s.local_uuid_to_future ≡ own
      → cached_duplicate key s ≡ other
      → AreTables objects (await_future c call key own other s)
  await_future-AreTables c call key other (some f) s h same own_is other_is = h
  await_future-AreTables c call key (some f) none s h same own_is other_is = h
  await_future-AreTables c call none none none s h same own_is other_is =
      new-AreEntries objects _ _ _ _ h _ _ own_is refl (λ key f e. e)
        (λ kind key e. absurd (ground (arith, e, same)))
  await_future-AreTables c call (some k) none none s h same own_is other_is =
      new-AreEntries objects _ _ _ _ h _ _ own_is refl
        (λ key f e.
          ground (arith, lookup-insert key k s.next_future s.deduplication_cache, e, other_is))
        (λ kind key e.
          ground (arith, lookup-insert key k s.next_future s.deduplication_cache, e, same))

  keep_hydrated-AreTables :
      (u : ℕ) (own : Option ℕ) (s : Resolver)
      → AreTables objects s
      → lookup u s.local_uuid_to_future ≡ own
      → AreTables objects (keep_hydrated u own s)
  keep_hydrated-AreTables u (some f) s h own_is = h
  keep_hydrated-AreTables u none s h own_is =
      new-AreEntries objects _ _ _ _ h _ _ own_is refl (λ key f e. e)
        (λ kind key e. absurd (ground (arith, kind)))

  find_future-AreTables :
      (c : ℕ) (call : LoadCall) (key : Option ℕ) (s : Resolver)
      → AreTables objects s
      → key ≡ objects.deduplication_key call.obj
      → AreTables objects (find_future c call key s)
  find_future-AreTables c call key s h same =
      await_future-AreTables c call key _ _ s h same refl refl

  await_key-AreTables :
      (c : ℕ) (call : LoadCall) (key : Option ℕ) (s : Resolver)
      → AreTables objects s
      → key ≡ objects.deduplication_key call.obj
      → AreTables objects (await_key c call key s)
  await_key-AreTables c call none s h same = find_future-AreTables c call none s h same
  await_key-AreTables c call (some key) s h same = h

  begin_load-AreTables :
      (c : ℕ) (call : LoadCall) (s : Resolver)
      → AreTables objects s
      → AreTables objects (begin_load objects c call s)
  begin_load-AreTables c call s h =
      elim (is_hydrated call.obj s && objects.is_another_app call.obj)
        as (λ b. AreTables objects (
          if b
          then await_on c call returned
              (keep_hydrated call.obj (lookup call.obj s.local_uuid_to_future) s)
          else await_key c call (objects.deduplication_key call.obj) s)) [
            | true ↦ keep_hydrated-AreTables call.obj _ s h refl
            | false ↦ await_key-AreTables c call _ s h refl
          ]

  end_load-AreTables :
      (c : ℕ) (call : LoadCall) (p : LoadPhase) (s : Resolver)
      → AreTables objects s
      → AreTables objects (end_load c call p s)
  end_load-AreTables c call created s h = h
  end_load-AreTables c call (gathering cs) s h = h
  end_load-AreTables c call loading s h = h
  end_load-AreTables c call finished s h = h
  end_load-AreTables c call (failed e) s h = h

  hydrated_or_raised-AreTables :
      (c : ℕ) (call : LoadCall) (s : Resolver) (r : Result LoadError (Dict Text))
      → AreTables objects s
      → AreTables objects (hydrated_or_raised c call s r)
  hydrated_or_raised-AreTables c call s (ok ids) h = h
  hydrated_or_raised-AreTables c call s (err e) h = h

  copy_hydrated-AreTables :
      (c : ℕ) (call : LoadCall) (id : Option Text) (s : Resolver)
      → AreTables objects s
      → AreTables objects (copy_hydrated objects c call id s)
  copy_hydrated-AreTables c call none s h = h
  copy_hydrated-AreTables c call (some id) s h =
      hydrated_or_raised-AreTables c call s (hydrate objects call.obj id s.object_ids) h

  end_duplicate-AreTables :
      (c : ℕ) (call : LoadCall) (u : ℕ) (p : LoadPhase) (s : Resolver)
      → AreTables objects s
      → AreTables objects (end_duplicate objects c call u p s)
  end_duplicate-AreTables c call u created s h = h
  end_duplicate-AreTables c call u (gathering cs) s h = h
  end_duplicate-AreTables c call u loading s h = h
  end_duplicate-AreTables c call u finished s h =
      copy_hydrated-AreTables c call (lookup u s.object_ids) s h
  end_duplicate-AreTables c call u (failed e) s h = h

  pub on_found-AreTables :
      {A : Type 0} (k : A → Resolver) (o : Option A) (s : Resolver)
      → AreTables objects s
      → ((a : A) → o ≡ some a → AreTables objects (k a))
      → AreTables objects (on_found k o s)
  on_found-AreTables k none s h after = h
  on_found-AreTables k (some a) s h after = after a refl

  pub resume_call-AreTables :
      (c : ℕ) (call : LoadCall) (a : Awaiting) (s : Resolver)
      → AreTables objects s
      → AreTables objects (resume_call objects c call a s)
  resume_call-AreTables c call begun s h = begin_load-AreTables c call s h
  resume_call-AreTables c call keying s h = find_future-AreTables c call _ s h refl
  resume_call-AreTables c call (cached_future f) s h =
      on_found-AreTables _ (lookup f s.futures) s h
        (λ future e. end_load-AreTables c call future.phase s h)
  resume_call-AreTables c call (duplicate f) s h =
      on_found-AreTables _ (lookup f s.futures) s h
        (λ future e. end_duplicate-AreTables c call future.obj future.phase s h)
  resume_call-AreTables c call returned s h = h
  resume_call-AreTables c call (raised e) s h = h
