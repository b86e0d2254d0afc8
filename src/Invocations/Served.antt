-- ===== src/Invocations/Served.antt =====
-- A run over the polls of a server (modal/_functions.py): the items that the polls bring are those of the run.
use modal_client.Prelude.{
  ℕ, zero, suc, ◌+◌, ◌≤◌, ◌<◌, ◌≡◌, refl, sym, ◌∙◌, ap, subst, Bool, true, false, Option, none,
  some, List, [], ◌∷◌, arith,
}
use modal_client.Float.{Floats}
use modal_client.FilePatterns.Text.{Text}
use modal_client.Retry.Delays.{HasDelays}
use modal_client.Invocations.Result.{Unpickler}
use modal_client.Invocations.Create.{RetryContext, Invocation}
use modal_client.Invocations.Poll.{
  Output, GetOutputsResponse, GetOutputsRequest, Server, after_response, poll_from, first_timeout,
  first_output, only_jwt, pop_function_call_outputs, get_single_output,
}
use modal_client.Invocations.Run.{Ended, retries_off, run_function}
use modal_client.Invocations.RunLaws.{is_user_failure, count_of, RunsOn, EndsAt, IsServed, EndsWith}
use modal_client.Invocations.RunEnds.{run_function-result}

module _ (f : Floats) (s : Server f) where
  open f use {R}

  -- so many answers from a request on are empty
  abbrev pub IsSilent : ℕ → ℕ → Type 0
  IsSilent zero n = Unit
  IsSilent (suc waits) n =
      ((request : GetOutputsRequest f) → (s.answers n request).outputs ≡ [])
      × IsSilent waits (n + 1)

  -- an answer brings an output
  abbrev pub Brings : ℕ → Output → Type 0
  Brings n item =
      (request : GetOutputsRequest f)
      → (later : List Output) × ((s.answers n request).outputs ≡ item ∷ later)

  -- the server has item after item; before each it answers some polls without one
  abbrev pub IsTimeline : (ℕ → Output) → (ℕ → ℕ) → (ℕ → ℕ) → Type 0
  IsTimeline items waits at_request =
      (i : ℕ)
      → IsSilent (waits i) (at_request i)
        × Brings (at_request i + waits i) (items i)
        × (at_request (suc i) ≡ at_request i + waits i + 1)

  first_output-Brings :
      (again : R → Option (GetOutputsResponse × ℕ)) (t0 backend : R) (n : ℕ)
      (response : GetOutputsResponse) (item : Output) (later : List Output)
      → response.outputs ≡ item ∷ later
      → first_output f s (after_response f s again t0 none n backend response response.outputs)
        ≡ some (item, n + 1)
  first_output-Brings again t0 backend n response item later eq =
      rw (eq, first_output) (rw (eq, first_output) refl)

  after_response-silent :
      (again : R → Option (GetOutputsResponse × ℕ)) (t0 backend : R) (n : ℕ)
      (response : GetOutputsResponse)
      → response.outputs ≡ []
      → after_response f s again t0 none n backend response response.outputs ≡ again backend
  after_response-silent again t0 backend n response eq = rw eq refl

  poll_from-Brings :
      (id : Text) (clear : Bool) (jwts : Option (List Text)) (t0 backend : R) (waits fuel n : ℕ)
      (item : Output)
      → waits < fuel
      → IsSilent waits n
      → Brings (n + waits) item
      → first_output f s (poll_from f s fuel id clear jwts t0 none n backend)
        ≡ some (item, n + waits + 1)
  unfolding poll_from
  poll_from-Brings id clear jwts t0 backend waits zero n item enough silent brings =
      absurd (omega (arith, enough))
  poll_from-Brings id clear jwts t0 backend zero (suc fuel) n item enough silent brings =
      let request : GetOutputsRequest f = record {
        function_call_id = id;
        timeout = backend;
        clear_on_success = clear;
        input_jwts = jwts;
      } in
      let here_ : n + 0 ≡ n = omega arith in
      let (later, eq) = subst (λ m. Brings m item) here_ brings request in
      first_output-Brings (λ left. poll_from f s fuel id clear jwts t0 none (n + 1) left) t0 backend
        n (s.answers n request) item later eq
      ∙ ap (λ m. some (item, m)) (omega arith)
  poll_from-Brings id clear jwts t0 backend (suc waits) (suc fuel) n item enough (nothing, silent)
        brings =
      ap (λ r. first_output f s r)
        (after_response-silent (λ left. poll_from f s fuel id clear jwts t0 none (n + 1) left) t0
          backend n _ (nothing _))
      ∙ poll_from-Brings id clear jwts t0 backend waits fuel (n + 1) item (omega (arith, enough))
          silent (subst (λ m. Brings m item) (omega arith) brings)
      ∙ ap (λ m. some (item, m)) (omega arith)

  timeline-IsServed :
      {V X : Type 0} (u : Unpickler V X) (ctx : RetryContext R) (id : Text) (t0 : R) (fuel : ℕ)
      (items : ℕ → Output) (waits at_request : ℕ → ℕ)
      → IsTimeline items waits at_request
      → ((i : ℕ) → waits i < fuel)
      → IsServed f u (λ jwt n. get_single_output f s fuel id t0 jwt n) ctx items at_request
  unfolding get_single_output pop_function_call_outputs
  timeline-IsServed u ctx id t0 fuel items waits at_request timeline enough i =
      let (silent, brings, next) = timeline i in
      poll_from-Brings id true (only_jwt f s (some ctx.input_jwt)) t0 (first_timeout f s none)
        (waits i) fuel (at_request i) (items i) (enough i) silent brings
      ∙ ap (λ m. some (items i, m)) (sym next)

-- The loop of a run and the loop of its polls together: if the server has item after item and makes each wait for
-- no more empty answers than the polls have fuel, no delay of the policy overflows, and the first k items do not end the run and the one after them does, then the
-- run gives the result of that one after k retries, whatever the waits are.
pub run_function-polled :
    (f : Floats) (s : Server f) {V X : Type 0} (u : Unpickler V X) (invocation : Invocation f.R)
    (ctx : RetryContext f.R) (t0 : f.R) (items : ℕ → Output) (waits at_request : ℕ → ℕ)
    (k polls fuel : ℕ)
    → invocation.retry_context ≡ some ctx
    → retries_off f u
        (λ jwt n. get_single_output f s polls invocation.function_call_id t0 jwt n)
        ctx
      ≡ false
    → HasDelays f ctx.retry_policy
    → IsTimeline f s items waits at_request
    → ((i : ℕ) → waits i < polls)
    → k < fuel
    → RunsOn k items
    → count_of is_user_failure k items ≤ ctx.retry_policy.retries
    → EndsAt ctx.retry_policy.retries (count_of is_user_failure k items) (items k)
    → (e : Ended V X f.R) × (run_function f u
          (λ jwt n. get_single_output f s polls invocation.function_call_id t0 jwt n)
          fuel
          invocation
          (at_request 0)
        ≡ some e)
      × EndsWith f u
          (λ jwt n. get_single_output f s polls invocation.function_call_id t0 jwt n)
          ctx
          (items k)
          k
          (count_of is_user_failure k items)
          e
run_function-polled f s u invocation ctx t0 items waits at_request k polls fuel has on delays
      timeline waited enough runs left ends =
    run_function-result f u
      (λ jwt n. get_single_output f s polls invocation.function_call_id t0 jwt n) invocation ctx
      items at_request k fuel has on delays
      (timeline-IsServed f s u ctx invocation.function_call_id t0 polls items waits at_request
        timeline waited)
      enough runs left ends
