-- ===== src/Retry/Delays.antt =====
-- The delays that a `RetryManager` of modal/retries.py gives, over all its calls.
use modal_client.Prelude.{
  ◌-◌, ◌∙◌, Bool-cases, ◌⊎◌, inl, inr, ltb, ℕ, zero, suc, ◌+◌, ◌≤◌, ◌<◌, ◌≡◌, false, refl, none,
  some, Result, ok, err, arith,
}
use modal_client.Float.{Floats}
use modal_client.Retry.Policy.{FunctionRetryPolicy}
use modal_client.Retry.Manager.{
  DelayError, RetryManager, new_manager, delay_within, retry_delay_ms, get_delay_ms,
  min_input_retry_delay_ms, max_input_retry_delay_ms,
}

module _ (f : Floats) where
  open f use {R, of_nat, pow, lt, lt_irrefl, lt-of_nat, pow_fits}

  -- the manager after k calls
  pub after : ℕ → RetryManager R → RetryManager R
  after zero m = m
  after (suc k) m = (get_delay_ms f (after k m)).1

  abbrev pub InDelayRange : R → Type 0
  InDelayRange d =
      (lt d (of_nat min_input_retry_delay_ms) ≡ false)
      × (lt (of_nat max_input_retry_delay_ms) d ≡ false)

  -- the two limits are exact floats, the lower below the upper
  limits_ordered : lt (of_nat max_input_retry_delay_ms) (of_nat min_input_retry_delay_ms) ≡ false
  limits_ordered =
      lt-of_nat max_input_retry_delay_ms min_input_retry_delay_ms (omega arith) (omega arith)

  -- no delay that the policy asks for overflows
  abbrev pub HasDelays : FunctionRetryPolicy R → Type 0
  HasDelays p = (k : ℕ) → k < p.retries → (power : R) × (pow p.backoff_coefficient k ≡ some power)

  -- the policies that `Retries` allows
  pub allowed-HasDelays :
      (p : FunctionRetryPolicy R)
      → p.retries ≤ 10
      → lt p.backoff_coefficient (of_nat 1) ≡ false
      → lt (of_nat 10) p.backoff_coefficient ≡ false
      → HasDelays p
  allowed-HasDelays p few low high k below =
      pow_fits p.backoff_coefficient k low high (omega (arith, few, below))

  within_limits :
      (initial_delay_ms : ℕ) (power : R) (r : Result DelayError R)
      → delay_within f initial_delay_ms (some power) ≡ r
      → (d : R) × (r ≡ ok d) × InDelayRange d
  within_limits initial_delay_ms power (ok d) h = (
    d,
    refl,
    (
      ground (arith, limits_ordered, lt_irrefl (of_nat min_input_retry_delay_ms)),
      ground (arith, limits_ordered, lt_irrefl (of_nat max_input_retry_delay_ms)),
    ),
  )
  within_limits initial_delay_ms power (err e) h = absurd (ground arith)

  delay_of :
      (k : ℕ) (p : FunctionRetryPolicy R) (power : R)
      → pow p.backoff_coefficient k ≡ some power
      → (d : R) × (retry_delay_ms f (k + 1) p ≡ ok d) × InDelayRange d
  unfolding retry_delay_ms
  delay_of k p power fits =
      let (d, made, range) =
        within_limits p.initial_delay_ms power (delay_within f p.initial_delay_ms (some power))
          refl in
      let same : retry_delay_ms f (k + 1) p ≡ delay_within f p.initial_delay_ms (some power) =
        (let no_error : ltb (k + 1) 1 ≡ false = ground arith in
          let exponent : k + 1 - 1 ≡ k = omega arith in rw (no_error, exponent, fits) refl) in
      (d, same ∙ made, range)

  pub manager-get_delay_ms :
      (m : RetryManager R) → (get_delay_ms f m).1 ≡ record m { retry_count = m.retry_count + 1 }
  unfolding get_delay_ms
  manager-get_delay_ms m = ground arith

  -- the delay of a call, by whether a retry is left
  pub get_delay_ms_cases :
      (m : RetryManager R)
      → HasDelays m.retry_policy
      → ((m.retry_count < m.retry_policy.retries)
          × ((d : R) × ((get_delay_ms f m).0 ≡ ok (some d)) × InDelayRange d))
        ⊎ ((m.retry_policy.retries ≤ m.retry_count) × ((get_delay_ms f m).0 ≡ ok none))
  unfolding get_delay_ms
  get_delay_ms_cases m delays = elim (Bool-cases (ltb m.retry_policy.retries (m.retry_count + 1))) [
    | inl spent ↦ inr (ground arith, ground arith)
    | inr left ↦
        let below : m.retry_count < m.retry_policy.retries = ground (arith, left) in
        let (power, fits) = delays m.retry_count below in
        let (d, e, range) = delay_of m.retry_count m.retry_policy power fits in
        inl (below, (d, ground (arith, left, e), range))
  ]

  after_count :
      (k : ℕ) (p : FunctionRetryPolicy R)
      → after k (new_manager f p) ≡ record { retry_policy = p; retry_count = k }
  unfolding after
  after_count zero p = refl
  after_count (suc k) p = rw (manager-get_delay_ms, after_count k p) (ground arith)

  -- If no delay of the policy overflows, then after k calls on a new manager the next call does not
  -- raise and counts itself; it gives a delay between 1,000 ms and 24 hours if k is below the policy's
  -- retry count, and None otherwise.
  pub get_delay_ms_budget :
      (k : ℕ) (p : FunctionRetryPolicy R)
      → HasDelays p
      → let (r, m) = get_delay_ms f (after k (new_manager f p)) in
        (m ≡ record { retry_policy = p; retry_count = k + 1 })
        × (((k < p.retries) × ((d : R) × (r ≡ ok (some d)) × InDelayRange d))
            ⊎ ((p.retries ≤ k) × (r ≡ ok none)))
  get_delay_ms_budget k p delays = rw (after_count k p) (
    manager-get_delay_ms (record { retry_policy = p; retry_count = k }),
    get_delay_ms_cases (record { retry_policy = p; retry_count = k }) delays,
  )
