-- ===== src/Invocations/RunLaws.antt =====
-- How `_Invocation.run_function` of modal/_functions.py ends, by the results that the server gives in turn.
use modal_client.Prelude.{
  one_if, ℕ, zero, suc, ◌+◌, ◌≤◌, ◌<◌, ◌≡◌, refl, ◌∙◌, ap, ◌⊎◌, inl, inr, Bool, true, false, not,
  ◌&&◌, Bool-cases, Option, some, length, All, ok, arith, subst,
}
use modal_client.Float.{Floats}
use modal_client.FilePatterns.Text.{Text}
use modal_client.MapItems.Data.{is_internal_failure}
use modal_client.Retry.Manager.{RetryManager}
use modal_client.Retry.Delays.{InDelayRange, HasDelays, get_delay_ms_cases, manager-get_delay_ms}
use modal_client.Invocations.Result.{Unpickler, process_result}
use modal_client.Invocations.Create.{RetryContext}
use modal_client.Invocations.Poll.{Output}
use modal_client.Invocations.Run.{
  RetryInputsRequest, Ended, is_final, and_retried, and_slept, in_run, retry_then, sleep_then,
  finish_run, handle_item, run_from,
}

-- a failure that counts towards the policy
abbrev pub is_user_failure : Output → Bool
is_user_failure item =
    not (is_final item.result.status) && not (is_internal_failure item.result.status)

-- how many of the first items have a property
abbrev pub count_of : (Output → Bool) → ℕ → (ℕ → Output) → ℕ
count_of test zero items = 0
count_of test (suc k) items = one_if (test (items 0)) + count_of test k (λ j. items (suc j))

-- none of the first items is final
abbrev pub RunsOn : ℕ → (ℕ → Output) → Type 0
RunsOn zero items = Unit
RunsOn (suc k) items = (is_final (items 0).result.status ≡ false) × RunsOn k (λ j. items (suc j))

-- an item ends the run when so many failures were counted: it is final, or no retry is left for it
abbrev pub EndsAt : ℕ → ℕ → Output → Type 0
EndsAt retries failures item =
    (is_final item.result.status ≡ true) ⊎ ((is_user_failure item ≡ true) × (failures ≡ retries))

nor_parts : (a b : Bool) → (not a && not b) ≡ true → (a ≡ false) × (b ≡ false)
nor_parts a b e = (ground (arith, e), ground (arith, e))

pub nor_second : (a b : Bool) → a ≡ false → (not a && not b) ≡ false → b ≡ true
nor_second a b e h = ground (arith, e, h)

module _ (f : Floats) {V X : Type 0} (u : Unpickler V X)
    (next_item : Option Text → ℕ → Option (Output × ℕ)) (ctx : RetryContext f.R) where
  open f use {R}

  -- the requests of one call give these items in turn
  abbrev pub IsServed : (ℕ → Output) → (ℕ → ℕ) → Type 0
  IsServed items at_request =
      (i : ℕ) → next_item (some ctx.input_jwt) (at_request i) ≡ some (items i, at_request (suc i))

  abbrev pub the_request : RetryInputsRequest
  the_request = record {
    function_call_jwt = ctx.function_call_jwt;
    input_jwt = ctx.input_jwt;
    input = ctx.item.input;
  }

  -- how a run ends with an item, after so many retries and so many delays
  pub record EndsWith (item : Output) (retries delays : ℕ) (e : Ended V X R) : Type 0 where
    pub result_of : e.outcome ≡ in_run (process_result u item.result item.data_format)
    pub retries_sent : length e.retried ≡ retries
    pub same_requests : All (λ r. r ≡ the_request) e.retried
    pub delays_slept : length e.slept ≡ delays
    pub in_range : All (InDelayRange f) e.slept

  abbrev counted : ℕ → RetryManager R
  counted c = record { retry_policy = ctx.retry_policy; retry_count = c }

  handle_item-final :
      (manager : RetryManager R) (item : Output) (rest : RetryManager R → Option (Ended V X R))
      → is_final item.result.status ≡ true
      → handle_item f u next_item ctx manager item rest ≡ finish_run f u next_item item
  unfolding handle_item
  handle_item-final manager item rest final = rw final refl

  handle_item-spent :
      (c : ℕ) (item : Output) (rest : RetryManager R → Option (Ended V X R))
      → HasDelays f ctx.retry_policy
      → is_user_failure item ≡ true
      → ctx.retry_policy.retries ≤ c
      → handle_item f u next_item ctx (counted c) item rest ≡ finish_run f u next_item item
  unfolding handle_item
  handle_item-spent c item rest delays failed spent =
      let (goes, user) =
        nor_parts (is_final item.result.status) (is_internal_failure item.result.status) failed in
      elim (get_delay_ms_cases f (counted c) delays) [
        | inl (left, _) ↦ absurd (omega (arith, left, spent))
        | inr (_, over) ↦ rw (goes, user, over) refl
      ]

  handle_item-user :
      (c : ℕ) (item : Output) (rest : RetryManager R → Option (Ended V X R))
      → HasDelays f ctx.retry_policy
      → is_user_failure item ≡ true
      → c < ctx.retry_policy.retries
      → (d : R) × InDelayRange f d
        × (handle_item f u next_item ctx (counted c) item rest
            ≡ sleep_then d (retry_then (ok the_request) (rest (counted (c + 1)))))
  unfolding handle_item
  handle_item-user c item rest delays failed left =
      let (goes, user) =
        nor_parts (is_final item.result.status) (is_internal_failure item.result.status) failed in
      elim (get_delay_ms_cases f (counted c) delays) [
        | inl (_, (d, given, range)) ↦
            (d, range, rw (goes, user, given, manager-get_delay_ms f (counted c)) refl)
        | inr (over, _) ↦ absurd (omega (arith, left, over))
      ]

  handle_item-internal :
      (manager : RetryManager R) (item : Output) (rest : RetryManager R → Option (Ended V X R))
      → is_final item.result.status ≡ false
      → is_user_failure item ≡ false
      → handle_item f u next_item ctx manager item rest ≡ retry_then (ok the_request) (rest manager)
  unfolding handle_item
  handle_item-internal manager item rest goes internal =
      let inner =
        nor_second (is_final item.result.status) (is_internal_failure item.result.status) goes
          internal in
      rw (goes, inner) refl

  -- an end after one more retry, with a delay or without
  retried-EndsWith :
      (item : Output) (k n : ℕ) (e : Ended V X R)
      → EndsWith item k n e
      → EndsWith item (suc k) n (and_retried the_request e)
  retried-EndsWith item k n e h = record {
    result_of = h.result_of;
    retries_sent = ap suc h.retries_sent;
    same_requests = (refl, h.same_requests);
    delays_slept = h.delays_slept;
    in_range = h.in_range;
  }

  slept-EndsWith :
      (item : Output) (k n : ℕ) (d : R) (e : Ended V X R)
      → InDelayRange f d
      → EndsWith item k n e
      → EndsWith item k (1 + n) (and_slept d e)
  slept-EndsWith item k n d e range h = record {
    result_of = h.result_of;
    retries_sent = h.retries_sent;
    same_requests = h.same_requests;
    delays_slept = omega (arith, h.delays_slept);
    in_range = (range, h.in_range);
  }

  -- a run that ends with an item
  abbrev pub RunEnds : Option (Ended V X R) → Output → ℕ → ℕ → Type 0
  RunEnds run item retries delays =
      (e : Ended V X R) × (run ≡ some e) × EndsWith item retries delays e

  finish_run-RunEnds :
      (item : Output) (run : Option (Ended V X R))
      → run ≡ finish_run f u next_item item
      → RunEnds run item 0 0
  finish_run-RunEnds item run e = (
    _,
    e,
    record {
      result_of = refl;
      retries_sent = refl;
      same_requests = tt;
      delays_slept = refl;
      in_range = tt;
    },
  )

  end-RunEnds :
      (c : ℕ) (item : Output) (rest : RetryManager R → Option (Ended V X R))
      → HasDelays f ctx.retry_policy
      → EndsAt ctx.retry_policy.retries c item
      → RunEnds (handle_item f u next_item ctx (counted c) item rest) item 0 0
  end-RunEnds c item rest delays (inl final) =
      finish_run-RunEnds item _ (handle_item-final (counted c) item rest final)
  end-RunEnds c item rest delays (inr (failed, spent)) =
      finish_run-RunEnds item _ (handle_item-spent c item rest delays failed (omega (arith, spent)))

  user-RunEnds :
      (c : ℕ) (item last : Output) (rest : RetryManager R → Option (Ended V X R)) (k n : ℕ)
      → HasDelays f ctx.retry_policy
      → is_user_failure item ≡ true
      → c < ctx.retry_policy.retries
      → RunEnds (rest (counted (c + 1))) last k n
      → RunEnds (handle_item f u next_item ctx (counted c) item rest) last (suc k) (1 + n)
  user-RunEnds c item last rest k n delays failed left (e, later, h) =
      let (d, range, now) = handle_item-user c item rest delays failed left in
      (
        and_slept d (and_retried the_request e),
        now ∙ ap (λ r. sleep_then d (retry_then (ok the_request) r)) later,
        slept-EndsWith last (suc k) n d (and_retried the_request e) range
            (retried-EndsWith last k n e h),
      )

  internal-RunEnds :
      (c : ℕ) (item last : Output) (rest : RetryManager R → Option (Ended V X R)) (k n : ℕ)
      → is_final item.result.status ≡ false
      → is_user_failure item ≡ false
      → RunEnds (rest (counted c)) last k n
      → RunEnds (handle_item f u next_item ctx (counted c) item rest) last (suc k) (0 + n)
  internal-RunEnds c item last rest k n goes internal (e, later, h) = (
    and_retried the_request e,
    handle_item-internal (counted c) item rest goes internal
        ∙ ap (λ r. retry_then (ok the_request) r) later,
    subst (λ m. EndsWith last (suc k) m (and_retried the_request e)) (omega arith)
        (retried-EndsWith last k n e h),
  )

  pub run_from-RunEnds :
      (items : ℕ → Output) (at_request : ℕ → ℕ) (k c fuel : ℕ)
      → HasDelays f ctx.retry_policy
      → IsServed items at_request
      → k < fuel
      → RunsOn k items
      → c + count_of is_user_failure k items ≤ ctx.retry_policy.retries
      → EndsAt ctx.retry_policy.retries (c + count_of is_user_failure k items) (items k)
      → RunEnds
          (run_from f u next_item fuel ctx (counted c) (at_request 0))
          (items k)
          k
          (count_of is_user_failure k items)
  unfolding run_from
  run_from-RunEnds items at_request k c zero delays served enough runs left ends =
      absurd (omega (arith, enough))
  run_from-RunEnds items at_request zero c (suc fuel) delays served enough runs left ends =
      rw (served 0) (
        end-RunEnds c (items 0) (λ m. run_from f u next_item fuel ctx m (at_request 1)) delays
          (subst (λ n. EndsAt ctx.retry_policy.retries n (items 0)) (omega arith) ends))
  run_from-RunEnds items at_request (suc k) c (suc fuel) delays served enough (goes, runs) left
        ends =
      let n : ℕ = count_of is_user_failure k (λ j. items (suc j)) in
      let rest : RetryManager R → Option (Ended V X R) =
        λ m. run_from f u next_item fuel ctx m (at_request 1) in
      elim (Bool-cases (is_user_failure (items 0))) [
        | inl failed ↦
            let one : one_if (is_user_failure (items 0)) ≡ 1 = ap one_if failed in
            rw (served 0, failed)
              (user-RunEnds c (items 0) (items (suc k)) rest k n delays failed
                (omega (arith, left, one))
                (run_from-RunEnds (λ j. items (suc j)) (λ j. at_request (suc j)) k (c + 1) fuel
                  delays (λ i. served (suc i)) (omega (arith, enough)) runs
                  (omega (arith, left, one))
                  (subst (λ m. EndsAt ctx.retry_policy.retries m (items (suc k)))
                    (omega (arith, one)) ends)))
        | inr internal ↦
            let zero_ : one_if (is_user_failure (items 0)) ≡ 0 = ap one_if internal in
            rw (served 0, internal)
              (internal-RunEnds c (items 0) (items (suc k)) rest k n goes internal (
                run_from-RunEnds (λ j. items (suc j)) (λ j. at_request (suc j)) k c fuel delays
                  (λ i. served (suc i)) (omega (arith, enough)) runs (omega (arith, left, zero_))
                  (subst (λ m. EndsAt ctx.retry_policy.retries m (items (suc k)))
                    (omega (arith, zero_)) ends)))
      ]
