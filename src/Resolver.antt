-- ===== src/Resolver.antt =====
-- `Resolver` (modal/_resolver.py): concurrent loads of objects, each after its dependencies and once, with a cache for
-- objects that have the same content. A run is a sequence of events in which the event loop resumes a coroutine or a call
-- to the server ends. Uuids, deduplication keys, futures and calls are numbers, since only their equality is used.
use modal_client.Prelude.{
  ℕ, ◌+◌, ◌≡◌, Bool, true, false, not, ◌&&◌, Option, none, some, List, [], ◌∷◌, ◌++◌, map, Result,
  ok, err, ◌>>=◌, if◌then◌else◌,
}
use modal_client.Prelude.Dict.{Dict, lookup, insert}
use modal_client.FilePatterns.Text.{Text, text_eq, startswith}
pub mod Load
pub mod Tables
pub mod CallTables
pub mod Once
pub mod Kept
pub mod Updates
pub mod Calls
pub mod Listing
pub mod Listed
pub mod Dependencies
mod Examples

-- what the resolver reads of each object
pub record Objects : Type 0 where
  pub is_another_app : ℕ → Bool
  pub has_load : ℕ → Bool
  pub deduplication_key : ℕ → Option ℕ
  pub deps : ℕ → List ℕ
  pub type_prefix : ℕ → Text

pub data LoadError : Type 0 where
  no_loader load_failed changed_id wrong_prefix : LoadError
  not_resolved : LoadError

-- where `loader` of a future stands: it waits for the calls that load the dependencies, then for `_load`
pub data LoadPhase : Type 0 where
  created : LoadPhase
  gathering : List ℕ → LoadPhase
  loading : LoadPhase
  finished : LoadPhase
  failed : LoadError → LoadPhase

-- A future, which `loader` resolves unless its object was hydrated before. `load_calls` counts the calls of `_load`.
pub record LoadFuture : Type 0 where
  pub obj : ℕ
  pub existing_object_id : Option Text
  pub is_loader : Bool
  pub phase : LoadPhase
  pub load_calls : ℕ

-- where a call of `load` stands
pub data Awaiting : Type 0 where
  begun keying : Awaiting
  cached_future : ℕ → Awaiting
  duplicate : ℕ → Awaiting
  returned : Awaiting
  raised : LoadError → Awaiting

pub record LoadCall : Type 0 where
  pub obj : ℕ
  pub existing_object_id : Option Text
  pub awaiting : Awaiting

-- `object_ids` holds the ids of the objects that are hydrated.
pub record Resolver : Type 0 where
  pub local_uuid_to_future : Dict ℕ
  pub deduplication_cache : Dict ℕ
  pub futures : Dict LoadFuture
  pub calls : Dict LoadCall
  pub object_ids : Dict Text
  pub next_future : ℕ
  pub next_call : ℕ

abbrev pub new_resolver : Dict Text → Resolver
new_resolver object_ids = record {
  local_uuid_to_future = [];
  deduplication_cache = [];
  futures = [];
  calls = [];
  object_ids = object_ids;
  next_future = 0;
  next_call = 0;
}

abbrev pub has_id : Option Text → Bool
has_id none = false
has_id (some id) = true

abbrev pub is_hydrated : ℕ → Resolver → Bool
is_hydrated u s = has_id (lookup u s.object_ids)

-- `_hydrate`
abbrev pub hydrate : Objects → ℕ → Text → Dict Text → Result LoadError (Dict Text)
hydrate objects u id object_ids =
    if startswith id (objects.type_prefix u) then ok (insert u id object_ids) else err wrong_prefix

abbrev pub await_on : ℕ → LoadCall → Awaiting → Resolver → Resolver
await_on c call a s = record s { calls = insert c (record call { awaiting = a }) s.calls }

abbrev pub set_load_phase : ℕ → LoadFuture → LoadPhase → Resolver → Resolver
set_load_phase f future p s = record s {
  futures = insert f (record future { phase = p }) s.futures;
}

-- a call of `load`
abbrev pub new_call : ℕ → Option Text → Resolver → Resolver
new_call u existing s = record s {
  calls =
      insert s.next_call (record { obj = u; existing_object_id = existing; awaiting = begun })
        s.calls;
  next_call = s.next_call + 1;
}
