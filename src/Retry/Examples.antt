-- ===== src/Retry/Examples.antt =====
-- Retry policies of modal/retries.py over the naturals.
use modal_client.Prelude.{arith, false, ◌≡◌, ◌≤◌, ◌<◌, ◌⊎◌, refl, ok, err, none, some}
use modal_client.Prelude.Int.{pos}
use modal_client.Float.{extended, finite, Extended}
use modal_client.Retry.Policy.{FunctionRetryPolicy, Retries, retries, to_proto}
use modal_client.Retry.PolicyBounds.{to_proto_bounds}
use modal_client.Retry.Manager.{retry_delay_ms, overflow, get_delay_ms, new_manager}
use modal_client.Retry.Delays.{
  after, get_delay_ms_budget, InDelayRange, HasDelays, allowed-HasDelays,
}

abbrev four : Retries extended
four = record {
  max_retries = 4;
  backoff_coefficient = finite 2;
  initial_delay = 3_000_000;
  max_delay = 60_000_000;
}

to_proto_bounds_example :
    let p = to_proto extended four in
    (pos p.retries ≡ pos 4)
    × (p.retries ≤ 10)
    × (p.backoff_coefficient ≡ finite 2)
    × (extended.lt p.backoff_coefficient (finite 1) ≡ false)
    × (extended.lt (finite 10) p.backoff_coefficient ≡ false)
    × (p.initial_delay_ms ≤ 60_000)
    × (1000 ≤ p.max_delay_ms)
    × (p.max_delay_ms ≤ 60_000)
    × HasDelays extended p
unfolding retries
to_proto_bounds_example =
    to_proto_bounds extended (pos 4) (finite 2) (finite 3) (finite 60) four refl

abbrev policy : FunctionRetryPolicy Extended
policy = record {
  retries = 2;
  backoff_coefficient = finite 2;
  initial_delay_ms = 2000;
  max_delay_ms = 60_000;
}

policy-HasDelays : HasDelays extended policy
policy-HasDelays = allowed-HasDelays extended policy (omega arith) refl refl

get_delay_ms_budget_example :
    let (r, m) = get_delay_ms extended (after extended 1 (new_manager extended policy)) in
    (m ≡ record { retry_policy = policy; retry_count = 2 })
    × (((1 < 2) × ((d : Extended) × (r ≡ ok (some d)) × InDelayRange extended d))
        ⊎ ((2 ≤ 1) × (r ≡ ok none)))
get_delay_ms_budget_example = get_delay_ms_budget extended 1 policy policy-HasDelays

-- ten times as long after each of 400 retries: the 310th delay is past the largest double
too_often :
    retry_delay_ms extended 310 (record policy { retries = 400; backoff_coefficient = finite 10 })
    ≡ err overflow
unfolding retry_delay_ms
too_often = refl
