-- ===== src/Retry/Manager.antt =====
-- `RetryManager` of modal/retries.py: counts the attempts of one input and gives the delay before
-- each.
use modal_client.Prelude.{ℕ, ◌+◌, ◌-◌, ◌*◌, Option, none, some, Result, ok, err, ltb, if◌then◌else◌}
use modal_client.Float.{Floats}
use modal_client.Retry.Policy.{FunctionRetryPolicy}

-- `ValueError("Cannot compute retry delay…")`, and the OverflowError of a power that is too large
pub data DelayError : Type 0 where
  bad_attempt_count overflow : DelayError

abbrev pub min_input_retry_delay_ms : ℕ
min_input_retry_delay_ms = 1000

abbrev pub max_input_retry_delay_ms : ℕ
max_input_retry_delay_ms = 24 * 60 * 60 * 1000

pub record RetryManager (R : Type 0) : Type 0 where
  pub retry_policy : FunctionRetryPolicy R
  pub retry_count : ℕ

module _ (f : Floats) where
  open f use {R, of_nat, mul, pow, lt}

  abbrev pub new_manager : FunctionRetryPolicy R → RetryManager R
  new_manager policy = record { retry_policy = policy; retry_count = 0 }

  -- `delay_ms` between its limits, from the power in it
  abbrev pub delay_within : ℕ → Option R → Result DelayError R
  delay_within initial_delay_ms none = err overflow
  delay_within initial_delay_ms (some power) =
      let delay_ms = mul (of_nat initial_delay_ms) power in
      if lt delay_ms (of_nat min_input_retry_delay_ms)
      then ok (of_nat min_input_retry_delay_ms)
      else if lt (of_nat max_input_retry_delay_ms) delay_ms
      then ok (of_nat max_input_retry_delay_ms)
      else ok delay_ms

  unfoldable pub retry_delay_ms : ℕ → FunctionRetryPolicy R → Result DelayError R
  retry_delay_ms attempt_count p =
      if ltb attempt_count 1
      then err bad_attempt_count
      else delay_within p.initial_delay_ms (pow p.backoff_coefficient (attempt_count - 1))

  abbrev as_some : Result DelayError R → Result DelayError (Option R)
  as_some (ok d) = ok (some d)
  as_some (err e) = err e

  -- the count is raised before the test, also when no retry is left
  unfoldable pub get_delay_ms : RetryManager R → Result DelayError (Option R) × RetryManager R
  get_delay_ms m =
      let m' : RetryManager R = record m { retry_count = m.retry_count + 1 } in
      if ltb m'.retry_policy.retries m'.retry_count
      then (ok none, m')
      else (as_some (retry_delay_ms m'.retry_count m'.retry_policy), m')
