-- ===== src/Resolver/Load.antt =====
-- `load` and its `loader` (modal/_resolver.py), from one point where they wait to the next.
use modal_client.Prelude.{
  ℕ, ◌+◌, Bool, true, false, not, ◌&&◌, Option, none, some, List, [], ◌∷◌, Result, ok, err,
  if◌then◌else◌,
}
use modal_client.Prelude.Dict.{Dict, lookup, insert}
use modal_client.FilePatterns.Text.{Text, text_eq, startswith}
use modal_client.Resolver.{
  Objects, LoadError, no_loader, load_failed, changed_id, LoadPhase, created, gathering, loading,
  finished, failed, LoadFuture, Awaiting, begun, keying, cached_future, duplicate, returned, raised,
  LoadCall, Resolver, is_hydrated, hydrate, await_on, set_load_phase, new_call,
}

-- the calls that `gather` makes
abbrev pub load_deps : List ℕ → Resolver → Resolver × List ℕ
load_deps [] s = (s, [])
load_deps (dep ∷ deps) s =
    let (after, cs) = load_deps deps (new_call dep none s) in (after, s.next_call ∷ cs)

abbrev pub new_future : ℕ → Option Text → Bool → LoadPhase → Resolver → Resolver
new_future u existing is_loader p s = record s {
  local_uuid_to_future = insert u s.next_future s.local_uuid_to_future;
  futures =
      insert s.next_future
        (record {
          obj = u;
          existing_object_id = existing;
          is_loader = is_loader;
          phase = p;
          load_calls = 0;
        })
        s.futures;
  next_future = s.next_future + 1;
}

-- `_deduplication_cache[key] = cached_future`
abbrev pub cache_key : Option ℕ → ℕ → Resolver → Resolver
cache_key none f s = s
cache_key (some key) f s = record s { deduplication_cache = insert key f s.deduplication_cache }

abbrev pub cached_duplicate : Option ℕ → Resolver → Option ℕ
cached_duplicate none s = none
cached_duplicate (some key) s = lookup key s.deduplication_cache

-- the future of the object, that of one like it, or a new task
abbrev pub await_future : ℕ → LoadCall → Option ℕ → Option ℕ → Option ℕ → Resolver → Resolver
await_future c call key (some f) _ s = await_on c call (cached_future f) s
await_future c call key none (some f) s = await_on c call (duplicate f) s
await_future c call key none none s =
    await_on c call (cached_future s.next_future)
      (cache_key key s.next_future (new_future call.obj call.existing_object_id true created s))

-- `load`, once it has the key
abbrev pub find_future : ℕ → LoadCall → Option ℕ → Resolver → Resolver
find_future c call key s =
    await_future c call key (lookup call.obj s.local_uuid_to_future) (cached_duplicate key s) s

-- An object of another app that is hydrated is not loaded again.
abbrev pub keep_hydrated : ℕ → Option ℕ → Resolver → Resolver
keep_hydrated u (some f) s = s
keep_hydrated u none s = new_future u none false finished s

abbrev pub await_key : ℕ → LoadCall → Option ℕ → Resolver → Resolver
await_key c call none s = find_future c call none s
await_key c call (some key) s = await_on c call keying s

abbrev pub begin_load : Objects → ℕ → LoadCall → Resolver → Resolver
begin_load objects c call s =
    if is_hydrated call.obj s && objects.is_another_app call.obj
    then await_on c call returned
        (keep_hydrated call.obj (lookup call.obj s.local_uuid_to_future) s)
    else await_key c call (objects.deduplication_key call.obj) s

-- `await cached_future`
abbrev pub end_load : ℕ → LoadCall → LoadPhase → Resolver → Resolver
end_load c call finished s = await_on c call returned s
end_load c call (failed e) s = await_on c call (raised e) s
end_load c call _ s = s

abbrev pub hydrated_or_raised : ℕ → LoadCall → Resolver → Result LoadError (Dict Text) → Resolver
hydrated_or_raised c call s (ok ids) = await_on c call returned (record s { object_ids = ids })
hydrated_or_raised c call s (err e) = await_on c call (raised e) s

-- `hydrated_object = await cached_future` and `obj._hydrate(hydrated_object.object_id, ...)`
abbrev pub copy_hydrated : Objects → ℕ → LoadCall → Option Text → Resolver → Resolver
copy_hydrated objects c call none s = s
copy_hydrated objects c call (some id) s =
    hydrated_or_raised c call s (hydrate objects call.obj id s.object_ids)

abbrev pub end_duplicate : Objects → ℕ → LoadCall → ℕ → LoadPhase → Resolver → Resolver
end_duplicate objects c call u finished s = copy_hydrated objects c call (lookup u s.object_ids) s
end_duplicate objects c call u (failed e) s = await_on c call (raised e) s
end_duplicate objects c call u _ s = s

-- an event of a call or a future that there is; any other changes nothing
abbrev pub on_found : {A : Type 0} → (A → Resolver) → Option A → Resolver → Resolver
on_found f none s = s
on_found f (some a) s = f a

-- `load` goes on until it waits again
abbrev pub resume_call : Objects → ℕ → LoadCall → Awaiting → Resolver → Resolver
resume_call objects c call begun s = begin_load objects c call s
resume_call objects c call keying s = find_future c call (objects.deduplication_key call.obj) s
resume_call objects c call (cached_future f) s =
    on_found (λ future. end_load c call future.phase s) (lookup f s.futures) s
resume_call objects c call (duplicate f) s =
    on_found (λ future. end_duplicate objects c call future.obj future.phase s) (lookup f s.futures)
      s
resume_call objects c call _ s = s

pub data Gathered : Type 0 where
  unfinished all_loaded : Gathered
  gather_raised : LoadError → Gathered

-- a call still waits
abbrev pub pending : Gathered → Gathered
pending (gather_raised e) = gather_raised e
pending _ = unfinished

abbrev pub gather_one : Awaiting → Gathered → Gathered
gather_one returned g = g
gather_one (raised e) g = gather_raised e
gather_one _ g = pending g

abbrev pub gather_call : Option LoadCall → Gathered → Gathered
gather_call none g = unfinished
gather_call (some call) g = gather_one call.awaiting g

-- `TaskContext.gather`: all end well, or the first that raises
abbrev pub gather : List ℕ → Dict LoadCall → Gathered
gather [] calls = all_loaded
gather (c ∷ cs) calls = gather_call (lookup c calls) (gather cs calls)

abbrev pub after_gather : Objects → ℕ → LoadFuture → Gathered → Resolver → Resolver
after_gather objects f future unfinished s = s
after_gather objects f future (gather_raised e) s = set_load_phase f future (failed e) s
after_gather objects f future all_loaded s =
    if objects.has_load future.obj
    then set_load_phase f (record future { load_calls = future.load_calls + 1 }) loading s
    else set_load_phase f future (failed no_loader) s

abbrev pub start_loader : Objects → ℕ → LoadFuture → Resolver → Resolver
start_loader objects f future s =
    let (after, cs) = load_deps (objects.deps future.obj) s in
    set_load_phase f future (gathering cs) after

-- `loader` goes on until it waits again
abbrev pub resume_loader : Objects → ℕ → LoadFuture → LoadPhase → Resolver → Resolver
resume_loader objects f future created s = start_loader objects f future s
resume_loader objects f future (gathering cs) s =
    after_gather objects f future (gather cs s.calls) s
resume_loader objects f future _ s = s

-- `existing_object_id.startswith("fu-")` and another id
abbrev pub is_changed : Objects → LoadFuture → Text → Bool
is_changed objects future id = elim future.existing_object_id [
  | none ↦ false
  | some existing ↦
      not (objects.is_another_app future.obj)
      && startswith existing (102 ∷ 117 ∷ 45 ∷ [])
      && not (text_eq id existing)
]

abbrev pub after_load :
    Objects → ℕ → LoadFuture → Text → Resolver → Result LoadError (Dict Text) → Resolver
after_load objects f future id s (err e) = set_load_phase f future (failed e) s
after_load objects f future id s (ok ids) =
    set_load_phase f future (if is_changed objects future id then failed changed_id else finished)
      (record s { object_ids = ids })

-- `_load` ended: it hydrated the object with an id, or raised
abbrev pub end_object_load : Objects → ℕ → LoadFuture → Option Text → Resolver → Resolver
end_object_load objects f future none s = set_load_phase f future (failed load_failed) s
end_object_load objects f future (some id) s =
    after_load objects f future id s (hydrate objects future.obj id s.object_ids)

abbrev pub loaded : Objects → ℕ → LoadFuture → Option Text → LoadPhase → Resolver → Resolver
loaded objects f future outcome loading s = end_object_load objects f future outcome s
loaded objects f future outcome _ s = s

-- `load` is called, the event loop resumes a call or a task, or `_load` ends
pub data Event : Type 0 where
  load : ℕ → Option Text → Event
  resumed_call resumed_loader : ℕ → Event
  loaded_object : ℕ → Option Text → Event

unfoldable pub step : Objects → Event → Resolver → Resolver
step objects (load u existing) s = new_call u existing s
step objects (resumed_call c) s =
    on_found (λ call. resume_call objects c call call.awaiting s) (lookup c s.calls) s
step objects (resumed_loader f) s =
    on_found (λ future. resume_loader objects f future future.phase s) (lookup f s.futures) s
step objects (loaded_object f outcome) s =
    on_found (λ future. loaded objects f future outcome future.phase s) (lookup f s.futures) s

unfoldable pub run : Objects → List Event → Resolver → Resolver
unfolding step
run objects [] s = s
run objects (e ∷ es) s = run objects es (step objects e s)
