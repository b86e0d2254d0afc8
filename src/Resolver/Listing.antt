-- ===== src/Resolver/Listing.antt =====
-- `Resolver.objects` (modal/_resolver.py): the objects that were loaded, each id once.
use modal_client.Prelude.{
  ℕ, Option, none, some, List, [], ◌∷◌, map, Result, ok, err, ◌>>=◌, if◌then◌else◌,
}
use modal_client.Prelude.Dict.{Dict, lookup}
use modal_client.FilePatterns.Text.{Text, text_eq}
use modal_client.Resolver.{
  LoadError, not_resolved, LoadPhase, finished, failed, LoadFuture, Resolver,
}

-- `unique_objects`, by the ids of the objects
abbrev pub ById : Type 0
ById = List (Text × ℕ)

-- `unique_objects.setdefault(obj.object_id, obj)`
abbrev pub setdefault : Text → ℕ → ById → ById
setdefault id u [] = (id, u) ∷ []
setdefault id u ((other, v) ∷ unique) =
    if text_eq id other then (other, v) ∷ unique else (other, v) ∷ setdefault id u unique

-- `obj.object_id` of an object that is not hydrated raises, as a future that is not done does
abbrev pub with_id : ℕ → Option Text → Result LoadError (Text × ℕ)
with_id u none = err not_resolved
with_id u (some id) = ok (id, u)

-- `fut.result()`, if `fut.done()`
abbrev pub result_of : Resolver → LoadPhase → ℕ → Result LoadError (Text × ℕ)
result_of s finished u = with_id u (lookup u s.object_ids)
result_of s (failed e) u = err e
result_of s _ u = err not_resolved

abbrev pub done_object : Resolver → Option LoadFuture → Result LoadError (Text × ℕ)
done_object s none = err not_resolved
done_object s (some future) = result_of s future.phase future.obj

unfoldable pub unique_objects : Resolver → Dict ℕ → ById → Result LoadError ById
unique_objects s [] unique = ok unique
unique_objects s ((u, f) ∷ entries) unique =
    done_object s (lookup f s.futures) >>= λ o. unique_objects s entries (setdefault o.0 o.1 unique)

unfoldable pub objects : Resolver → Result LoadError (List ℕ)
unfolding unique_objects
objects s = unique_objects s s.local_uuid_to_future [] >>= λ unique. ok (map (λ o. o.1) unique)
