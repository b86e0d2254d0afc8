-- ===== src/Resolver/Kept.antt =====
-- What holds between the steps of `Resolver` (modal/_resolver.py) of its futures and its calls, and what each step keeps of
-- the state.
use modal_client.Prelude.{ℕ, ◌≤◌, ◌≡◌, true, Option, none, some, List, [], ◌∷◌, All}
use modal_client.Prelude.Dict.{lookup}
use modal_client.Resolver.{
  Objects, LoadPhase, created, gathering, loading, finished, failed, LoadFuture, LoadCall, Awaiting,
  begun, keying, cached_future, duplicate, returned, raised, Resolver, is_hydrated,
}

abbrev obj_of_future : Option LoadFuture → Option ℕ
obj_of_future none = none
obj_of_future (some a) = some a.obj

abbrev obj_of_call : Option LoadCall → Option ℕ
obj_of_call none = none
obj_of_call (some call) = some call.obj

abbrev pub future_obj : ℕ → Resolver → Option ℕ
future_obj f s = obj_of_future (lookup f s.futures)

abbrev pub call_obj : ℕ → Resolver → Option ℕ
call_obj c s = obj_of_call (lookup c s.calls)

abbrev pub IsHydrated : Resolver → ℕ → Type 0
IsHydrated s u = is_hydrated u s ≡ true

-- the calls load the dependencies, in order
abbrev pub AreLoading : Resolver → List ℕ → List ℕ → Type 0
AreLoading s [] deps = deps ≡ []
AreLoading s (c ∷ cs) deps =
    (dep : ℕ) × (rest : List ℕ) × (deps ≡ dep ∷ rest)
    × (call_obj c s ≡ some dep)
    × AreLoading s cs rest

abbrev pub IsPhase : Objects → Resolver → ℕ → LoadPhase → Type 0
IsPhase objects s u (gathering cs) = AreLoading s cs (objects.deps u)
IsPhase objects s u finished = IsHydrated s u
IsPhase objects s u _ = Unit

abbrev pub IsFuture : Objects → Resolver → LoadFuture → Type 0
IsFuture objects s a =
    IsPhase objects s a.obj a.phase × (1 ≤ a.load_calls → All (IsHydrated s) (objects.deps a.obj))

abbrev pub IsAwaiting : Resolver → ℕ → Awaiting → Type 0
IsAwaiting s u (cached_future f) = future_obj f s ≡ some u
IsAwaiting s u returned = IsHydrated s u
IsAwaiting s u _ = Unit

-- the state of a resolver between its steps
pub record IsResolver (objects : Objects) (s : Resolver) : Type 0 where
  pub tables : (u f : ℕ) → lookup u s.local_uuid_to_future ≡ some f → future_obj f s ≡ some u
  pub futures : (f : ℕ) (a : LoadFuture) → lookup f s.futures ≡ some a → IsFuture objects s a
  pub calls :
      (c : ℕ) (call : LoadCall) → lookup c s.calls ≡ some call → IsAwaiting s call.obj call.awaiting
  pub fresh_futures : (f : ℕ) → s.next_future ≤ f → lookup f s.futures ≡ none
  pub fresh_calls : (c : ℕ) → s.next_call ≤ c → lookup c s.calls ≡ none

-- objects stay hydrated, futures and calls stay with their objects
abbrev pub Grows : Resolver → Resolver → Type 0
Grows s t =
    ((u : ℕ) → IsHydrated s u → IsHydrated t u)
    × ((f u : ℕ) → future_obj f s ≡ some u → future_obj f t ≡ some u)
    × ((c u : ℕ) → call_obj c s ≡ some u → call_obj c t ≡ some u)

module _ (s t : Resolver) (grows : Grows s t) where
  pub AreHydrated-grows : (us : List ℕ) → All (IsHydrated s) us → All (IsHydrated t) us
  AreHydrated-grows [] h = tt
  AreHydrated-grows (u ∷ us) (is, h) = (grows.0 u is, AreHydrated-grows us h)

  AreLoading-grows : (cs deps : List ℕ) → AreLoading s cs deps → AreLoading t cs deps
  AreLoading-grows [] deps h = h
  AreLoading-grows (c ∷ cs) deps (dep, rest, e, is, h) =
      let (_, _, call) = grows in (dep, rest, e, call c dep is, AreLoading-grows cs rest h)

  IsPhase-grows :
      (objects : Objects) (u : ℕ) (p : LoadPhase) → IsPhase objects s u p → IsPhase objects t u p
  IsPhase-grows objects u created h = tt
  IsPhase-grows objects u (gathering cs) h = AreLoading-grows cs (objects.deps u) h
  IsPhase-grows objects u loading h = tt
  IsPhase-grows objects u finished h = grows.0 u h
  IsPhase-grows objects u (failed e) h = tt

  pub IsFuture-grows :
      (objects : Objects) (a : LoadFuture) → IsFuture objects s a → IsFuture objects t a
  IsFuture-grows objects a (h, deps) = (
    IsPhase-grows objects a.obj a.phase h,
    λ called. AreHydrated-grows (objects.deps a.obj) (deps called),
  )

  pub IsAwaiting-grows : (u : ℕ) (a : Awaiting) → IsAwaiting s u a → IsAwaiting t u a
  IsAwaiting-grows u begun h = tt
  IsAwaiting-grows u keying h = tt
  IsAwaiting-grows u (cached_future f) h = let (_, future, _) = grows in future f u h
  IsAwaiting-grows u (duplicate f) h = tt
  IsAwaiting-grows u returned h = grows.0 u h
  IsAwaiting-grows u (raised e) h = tt
