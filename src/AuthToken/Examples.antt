-- ===== src/AuthToken/Examples.antt =====
-- Concrete runs of `_AuthTokenManager` (modal/_utils/auth_token_manager.py).
use modal_client.Prelude.{◌≤◌, ◌≡◌, refl, false, String, Option, some, [], ◌∷◌, All, if◌then◌else◌}
use modal_client.Float.{Extended, finite, extended}
use modal_client.AuthToken.{
  AuthTokenManager, Phase, idle, waiting, fetching, returned, new_manager, get_token, has_token,
  is_expired, needs_refresh,
}
use modal_client.AuthToken.Tasks.{
  System, Reach, here, next, start, lock, in_flight, starts, gets_lock,
}
use modal_client.AuthToken.Exclusion.{one_request_at_a_time}
use modal_client.AuthToken.Freshness.{IsServed, fresh_token_serves_all}

-- a token that ends at second 1000
abbrev decode_token : String → Option (Option Extended)
decode_token _ = some (some (finite 1000))

abbrev two_calls : System extended decode_token
two_calls = record { manager = new_manager extended decode_token; tasks = idle ∷ idle ∷ [] }

abbrev first_waits : System extended decode_token
first_waits = starts extended decode_token (finite 10) 0 two_calls

abbrev both_wait : System extended decode_token
both_wait = starts extended decode_token (finite 11) 1 first_waits

abbrev first_fetches : System extended decode_token
first_fetches = gets_lock extended decode_token (finite 11) 0 both_wait

first_alone : first_fetches.tasks ≡ fetching ∷ waiting ∷ []
unfolding starts gets_lock modal_client.AuthToken.get_token modal_client.AuthToken.enter
first_alone = refl

run_to_fetch : Reach extended decode_token two_calls first_fetches
unfolding starts gets_lock modal_client.AuthToken.get_token modal_client.AuthToken.enter
run_to_fetch =
    next
      (next (next here (start two_calls (finite 10) 0 refl)) (start first_waits (finite 11) 1 refl))
      (lock both_wait (finite 11) 0 refl refl)

one_request_at_a_time_example :
    (in_flight extended decode_token first_fetches.tasks
      ≡ (if first_fetches.manager.locked then 1 else 0))
    × (in_flight extended decode_token first_fetches.tasks ≤ 1)
one_request_at_a_time_example =
    one_request_at_a_time extended decode_token (new_manager extended decode_token)
      (idle ∷ idle ∷ []) first_fetches refl refl run_to_fetch

abbrev cached : AuthTokenManager extended decode_token
cached = record { token = "secret"; expiry = finite 1000; locked = false }

abbrev one_waits : System extended decode_token
one_waits = record { manager = cached; tasks = waiting ∷ idle ∷ [] }

abbrev served : System extended decode_token
served = gets_lock extended decode_token (finite 20) 0 one_waits

fresh_token_serves_all_example :
    (served.manager ≡ cached) × All (IsServed extended decode_token "secret") served.tasks
fresh_token_serves_all_example =
    fresh_token_serves_all extended decode_token cached (waiting ∷ idle ∷ []) served
      (next here (lock one_waits (finite 20) 0 refl refl)) refl (tt, (tt, tt)) (tt, refl)
