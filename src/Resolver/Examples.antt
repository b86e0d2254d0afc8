-- ===== src/Resolver/Examples.antt =====
-- Tests and concrete runs of `Resolver` (modal/_resolver.py): a function (0) that uses two mounts with the same content (1 and
-- 2). Ids start with their type's prefix.
use modal_client.Prelude.{
  ok, map, Bool-cases, subst, ℕ, ◌≤◌, ◌≡◌, refl, inl, inr, arith, ◌==◌, true, false, Option, none,
  some, List, [], ◌∷◌, All, if◌then◌else◌,
}
use modal_client.Prelude.Dict.{lookup}
use modal_client.Resolver.{
  Objects, LoadFuture, LoadCall, finished, returned, raised, changed_id, Awaiting, new_resolver,
  is_hydrated,
}
use modal_client.Resolver.Load.{Event, load, resumed_call, resumed_loader, loaded_object, run}
use modal_client.Resolver.Listing.{ById, objects}
use modal_client.Resolver.Listed.{AreUnique, AreIds, IsListed, objects-IsListed}
use modal_client.Resolver.Once.{loads-once}
use modal_client.Resolver.Dependencies.{loads-after_deps}

abbrev function_and_mounts : Objects
function_and_mounts = record {
  is_another_app = λ u. false;
  has_load = λ u. true;
  deduplication_key = λ u. if u == 0 then none else some 7;
  deps = λ u. if u == 0 then 1 ∷ 2 ∷ [] else [];
  type_prefix = λ u. if u == 0 then 102 ∷ 117 ∷ [] else 109 ∷ [];
}

-- the function's loader waits for the two mounts, and the second one takes the id of the first
abbrev loads : List Event
loads =
    load 0 none
    ∷ resumed_call 0
    ∷ resumed_loader 0
    ∷ resumed_call 1
    ∷ resumed_call 2
    ∷ resumed_call 1
    ∷ resumed_call 2
    ∷ resumed_loader 1
    ∷ resumed_loader 1
    ∷ loaded_object 1 (some (109 ∷ 1 ∷ []))
    ∷ resumed_call 2
    ∷ resumed_call 1
    ∷ resumed_loader 0
    ∷ loaded_object 0 (some (102 ∷ 117 ∷ 45 ∷ []))
    ∷ resumed_call 0
    ∷ []

abbrev function_future : LoadFuture
function_future = record {
  obj = 0;
  existing_object_id = none;
  is_loader = true;
  phase = finished;
  load_calls = 1;
}

abbrev mount_future : LoadFuture
mount_future = record {
  obj = 1;
  existing_object_id = none;
  is_loader = true;
  phase = finished;
  load_calls = 1;
}

-- two loads in all
futures_of_run :
    (run function_and_mounts loads (new_resolver [])).futures
    ≡ (0, record function_future { phase = finished }) ∷ (1, mount_future) ∷ []
unfolding run
futures_of_run = refl

all_hydrated :
    (run function_and_mounts loads (new_resolver [])).object_ids
    ≡ (1, 109 ∷ 1 ∷ []) ∷ (2, 109 ∷ 1 ∷ []) ∷ (0, 102 ∷ 117 ∷ 45 ∷ []) ∷ []
unfolding run
all_hydrated = refl

abbrev awaiting_of : Option LoadCall → Option Awaiting
awaiting_of none = none
awaiting_of (some call) = some call.awaiting

-- another id than the function had
changed :
    awaiting_of (
      lookup 0
        (run
          (record function_and_mounts { deps = λ u. [] })
          (load 0 (some (102 ∷ 117 ∷ 45 ∷ 1 ∷ []))
            ∷ resumed_call 0
            ∷ resumed_loader 0
            ∷ resumed_loader 0
            ∷ loaded_object 0 (some (102 ∷ 117 ∷ 45 ∷ 2 ∷ []))
            ∷ resumed_call 0
            ∷ [])
          (new_resolver [])).calls)
    ≡ some (raised changed_id)
unfolding run
changed = refl

loads-once_example : (◌≡◌ {A = ℕ} 1 1) × (mount_future.load_calls ≤ 1)
unfolding run
loads-once_example =
    loads-once function_and_mounts [] loads 1 1 mount_future mount_future refl refl refl refl
      (inr (7, refl, refl))

loads-after_deps_example :
    ((f : ℕ) (a : LoadFuture)
      → lookup f (run function_and_mounts loads (new_resolver [])).futures ≡ some a
      → 1 ≤ a.load_calls
      → All
          (λ dep. is_hydrated dep (run function_and_mounts loads (new_resolver [])) ≡ true)
          (function_and_mounts.deps a.obj))
    × ((c : ℕ) (call : LoadCall)
        → lookup c (run function_and_mounts loads (new_resolver [])).calls ≡ some call
        → call.awaiting ≡ returned
        → is_hydrated call.obj (run function_and_mounts loads (new_resolver [])) ≡ true)
loads-after_deps_example = loads-after_deps function_and_mounts [] loads

-- the second mount is known by the first one's id
both_listed : objects (run function_and_mounts loads (new_resolver [])) ≡ ok (0 ∷ 1 ∷ [])
unfolding run objects
both_listed = refl

abbrev mount_alone : List Event
mount_alone =
    load 1 none
    ∷ resumed_call 0
    ∷ resumed_call 0
    ∷ resumed_loader 0
    ∷ resumed_loader 0
    ∷ loaded_object 0 (some (109 ∷ 1 ∷ []))
    ∷ []

only_finished :
    (future a : LoadFuture) (f : ℕ)
    → future.phase ≡ finished
    → lookup f ((0, future) ∷ []) ≡ some a
    → a.phase ≡ finished
only_finished future a f at e = elim (Bool-cases (f == 0)) [
  | inl here ↦
      let same : future ≡ a = grind (arith, e, here) in subst (λ b. b.phase ≡ finished) same at
  | inr other ↦ absurd (ground (arith, e, other))
]

mount_finished :
    (f : ℕ) (a : LoadFuture)
    → lookup f (run function_and_mounts mount_alone (new_resolver [])).futures ≡ some a
    → a.phase ≡ finished
unfolding run
mount_finished f a e = only_finished mount_future a f refl e

objects-IsListed_example :
    (unique : ById) × (objects (run function_and_mounts mount_alone (new_resolver []))
      ≡ ok (map (λ o. o.1) unique))
    × AreUnique unique
    × AreIds (run function_and_mounts mount_alone (new_resolver [])) unique
    × All
        (IsListed (run function_and_mounts mount_alone (new_resolver [])) unique)
        (run function_and_mounts mount_alone (new_resolver [])).local_uuid_to_future
objects-IsListed_example = objects-IsListed function_and_mounts [] mount_alone mount_finished
