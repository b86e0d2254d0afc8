-- ===== src/Invocations/RunEnds.antt =====
-- Where `_Invocation.run_function` of modal/_functions.py ends, and with what.
use modal_client.Prelude.{
  one_if, ℕ, zero, suc, ◌+◌, ◌-◌, ◌≤◌, ◌<◌, ◌≡◌, ap, inl, inr, ltb, false, Bool-cases, Option, some,
  length, arith, subst,
}
use modal_client.Float.{Floats}
use modal_client.FilePatterns.Text.{Text}
use modal_client.MapItems.Data.{is_internal_failure}
use modal_client.Retry.Delays.{HasDelays}
use modal_client.Invocations.Result.{Unpickler, process_result}
use modal_client.Invocations.Create.{RetryContext, Invocation}
use modal_client.Invocations.Poll.{Output}
use modal_client.Invocations.Run.{Ended, is_final, in_run, retries_off, run_function}
use modal_client.Invocations.RunLaws.{
  is_user_failure, count_of, RunsOn, EndsAt, IsServed, EndsWith, nor_second, run_from-RunEnds,
}

module _ (retries : ℕ) where
  -- where the first items hold an end, when so many failures were counted
  End : (ℕ → Output) → ℕ → ℕ → Type 0
  End items total c =
      (k : ℕ) × (k < total)
      × RunsOn k items
      × (c + count_of is_user_failure k items ≤ retries)
      × EndsAt retries (c + count_of is_user_failure k items) (items k)

  End-now :
      (items : ℕ → Output) (total c : ℕ)
      → c ≤ retries
      → EndsAt retries c (items 0)
      → End items (suc total) c
  unfolding End
  End-now items total c small ends = (
    0,
    omega arith,
    tt,
    omega (arith, small),
    subst (λ m. EndsAt retries m (items 0)) (omega arith) ends,
  )

  -- the first item counts for some failures, and the end is later
  End-later :
      (items : ℕ → Output) (total c more : ℕ)
      → is_final (items 0).result.status ≡ false
      → one_if (is_user_failure (items 0)) ≡ more
      → End (λ j. items (suc j)) total (c + more)
      → End items (suc total) c
  unfolding End
  End-later items total c more goes counts (k, below, runs, left, ends) = (
    suc k,
    omega (arith, below),
    (goes, runs),
    omega (arith, left, counts),
    subst (λ m. EndsAt retries m (items (suc k))) (omega (arith, counts)) ends,
  )

  -- there is one, if few of the items are failures of the server
  first-End :
      (items : ℕ → Output) (total c internal : ℕ)
      → c ≤ retries
      → count_of (λ item. is_internal_failure item.result.status) total items ≤ internal
      → retries + 1 + internal ≤ total + c
      → End items total c
  first-End items zero c internal small few enough = absurd (omega (arith, small, enough))
  first-End items (suc total) c internal small few enough =
      elim (Bool-cases (is_final (items 0).result.status)) [
        | inl final ↦ End-now items total c small (inl final)
        | inr goes ↦ elim (Bool-cases (is_user_failure (items 0))) [
          | inl failed ↦ elim (Bool-cases (ltb c retries)) [
            | inr spent ↦ End-now items total c small (inr (failed, ground (arith, spent, small)))
            | inl left ↦ End-later items total c 1 goes (ap one_if failed) (
                first-End (λ j. items (suc j)) total (c + 1) internal (ground (arith, left))
                  (omega (arith, few)) (omega (arith, enough)))
          ]
          | inr inner ↦
              let lost : one_if (is_internal_failure (items 0).result.status) ≡ 1 = ap one_if (
                nor_second (is_final (items 0).result.status)
                  (is_internal_failure (items 0).result.status) goes inner) in
              End-later items total c 0 goes (ap one_if inner) (
                first-End (λ j. items (suc j)) total (c + 0) (internal - 1) (omega (arith, small))
                  (omega (arith, few, lost)) (omega (arith, enough, few, lost)))
        ]
      ]

-- If the policy allows retries and none of its delays overflows, the server keeps to it, and the first k items are not final and no more of
-- them are failures of the function than the policy has retries, then the item after them is the result when it is final, or
-- when it is a failure of the function and no retry is left. Then k retries of the same input were sent, with a delay in the
-- range of the policy before each that follows a failure of the function.
pub run_function-result :
    (f : Floats) {V X : Type 0} (u : Unpickler V X)
    (next_item : Option Text → ℕ → Option (Output × ℕ)) (invocation : Invocation f.R)
    (ctx : RetryContext f.R) (items : ℕ → Output) (at_request : ℕ → ℕ) (k fuel : ℕ)
    → invocation.retry_context ≡ some ctx
    → retries_off f u next_item ctx ≡ false
    → HasDelays f ctx.retry_policy
    → IsServed f u next_item ctx items at_request
    → k < fuel
    → RunsOn k items
    → count_of is_user_failure k items ≤ ctx.retry_policy.retries
    → EndsAt ctx.retry_policy.retries (count_of is_user_failure k items) (items k)
    → (e : Ended V X f.R) × (run_function f u next_item fuel invocation (at_request 0) ≡ some e)
      × EndsWith f u next_item ctx (items k) k (count_of is_user_failure k items) e
unfolding run_function
run_function-result f u next_item invocation ctx items at_request k fuel has on delays served enough
      runs left ends =
    rw (has, on)
      (run_from-RunEnds f u next_item ctx items at_request k 0 fuel delays served enough runs
        (omega (arith, left))
        (subst (λ n. EndsAt ctx.retry_policy.retries n (items k)) (omega arith) ends))

-- If the policy allows retries and none of its delays overflows, the server keeps to it, and of the first items as many are failures of the server
-- as the bound says at most, then the run ends, with a result: after no more items than the policy has retries, one, and
-- that bound.
pub run_function-ends :
    (f : Floats) {V X : Type 0} (u : Unpickler V X)
    (next_item : Option Text → ℕ → Option (Output × ℕ)) (invocation : Invocation f.R)
    (ctx : RetryContext f.R) (items : ℕ → Output) (at_request : ℕ → ℕ) (internal fuel : ℕ)
    → invocation.retry_context ≡ some ctx
    → retries_off f u next_item ctx ≡ false
    → HasDelays f ctx.retry_policy
    → IsServed f u next_item ctx items at_request
    → count_of (λ item. is_internal_failure item.result.status) fuel items ≤ internal
    → fuel ≡ ctx.retry_policy.retries + 1 + internal
    → (k : ℕ) × (e : Ended V X f.R) × (run_function f u next_item fuel invocation (at_request 0)
        ≡ some e)
      × (e.outcome ≡ in_run (process_result u (items k).result (items k).data_format))
      × (length e.retried ≡ k)
      × (k < fuel)
unfolding End
run_function-ends f u next_item invocation ctx items at_request internal fuel has on delays served
      few enough =
    let (k, below, runs, left, ends) =
      first-End ctx.retry_policy.retries items fuel 0 internal (omega arith) few
        (omega (arith, enough)) in
    let (e, run, h) =
      run_function-result f u next_item invocation ctx items at_request k fuel has on delays served
        below runs (omega (arith, left))
        (subst (λ m. EndsAt ctx.retry_policy.retries m (items k)) (omega arith) ends) in
    (k, e, run, h.result_of, h.retries_sent, below)
