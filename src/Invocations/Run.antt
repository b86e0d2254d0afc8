-- ===== src/Invocations/Run.antt =====
-- `_Invocation.run_function` of modal/_functions.py: the retries of the caller. `next_item` is
-- `_get_single_output` on one call's server: what the n-th request on gives.
use modal_client.Prelude.{
  ℕ, zero, suc, ◌==◌, Bool, not, ◌||◌, Option, none, some, List, [], ◌∷◌, Result, ok, err,
  if◌then◌else◌,
}
use modal_client.Float.{Floats}
use modal_client.FilePatterns.Text.{Text}
use modal_client.MapItems.Data.{
  GenericStatus, is_success, is_terminated, is_internal_failure, is_sync,
}
use modal_client.Retry.Manager.{RetryManager, DelayError, new_manager, get_delay_ms}
use modal_client.Invocations.Result.{CallError, Unpickler, process_result}
use modal_client.Invocations.Create.{Args, RetryContext, Invocation}
use modal_client.Invocations.Poll.{Output}

-- api_pb2.FunctionRetryInputsRequest, with its one item
pub record RetryInputsRequest : Type 0 where
  pub function_call_jwt : Text
  pub input_jwt : Text
  pub input : Args

-- `ValueError` of `_retry_input`, what the delay raises, or what the result raises
pub data RunError (X : Type 0) : Type 0 where
  no_context bad_delay : RunError X
  in_call : CallError X → RunError X

-- How a run ends: its result, the requests for a retry that it sent, and the delays in milliseconds that it slept.
pub record Ended (V X R : Type 0) : Type 0 where
  pub outcome : Result (RunError X) V
  pub retried : List RetryInputsRequest
  pub slept : List R

unfoldable pub retry_input :
    {X R : Type 0} → Option (RetryContext R) → Result (RunError X) RetryInputsRequest
retry_input none = err no_context
retry_input (some ctx) = ok (record {
  function_call_jwt = ctx.function_call_jwt;
  input_jwt = ctx.input_jwt;
  input = ctx.item.input;
})

abbrev pub is_final : GenericStatus → Bool
is_final status = is_success status || is_terminated status

abbrev pub ended_with : {V X R : Type 0} → Result (RunError X) V → Ended V X R
ended_with outcome = record { outcome = outcome; retried = []; slept = [] }

-- what was done before the rest of the run
abbrev pub and_retried : {V X R : Type 0} → RetryInputsRequest → Ended V X R → Ended V X R
and_retried request e = record e { retried = request ∷ e.retried }

abbrev pub and_slept : {V X R : Type 0} → R → Ended V X R → Ended V X R
and_slept d e = record e { slept = d ∷ e.slept }

abbrev pub in_run : {V X : Type 0} → Result (CallError X) V → Result (RunError X) V
in_run (ok v) = ok v
in_run (err e) = err (in_call e)

-- `await self._retry_input()` and the rounds after it
abbrev pub retry_then :
    {V X R : Type 0}
    → Result (RunError X) RetryInputsRequest
    → Option (Ended V X R)
    → Option (Ended V X R)
retry_then (err e) rest = some (ended_with (err e))
retry_then (ok request) none = none
retry_then (ok request) (some e) = some (and_retried request e)

abbrev pub sleep_then : {V X R : Type 0} → R → Option (Ended V X R) → Option (Ended V X R)
sleep_then d none = none
sleep_then d (some e) = some (and_slept d e)

module _ (f : Floats) {V X : Type 0} (u : Unpickler V X)
    (next_item : Option Text → ℕ → Option (Output × ℕ)) where
  open f use {R}

  abbrev pub finish_run : Output → Option (Ended V X R)
  finish_run item = some (ended_with (in_run (process_result u item.result item.data_format)))

  -- a delay, or the end: the result of the item is converted, which raises for a failure
  abbrev pub retry_or_finish :
      RetryContext R
      → Output
      → Option (Ended V X R)
      → Result DelayError (Option R)
      → Option (Ended V X R)
  retry_or_finish ctx item rest (err e) = some (ended_with (err bad_delay))
  retry_or_finish ctx item rest (ok none) = finish_run item
  retry_or_finish ctx item rest (ok (some delay_ms)) =
      sleep_then delay_ms (retry_then (retry_input (some ctx)) rest)

  -- one item, by its status; `rest` is the loop after it, for a manager
  unfoldable pub handle_item :
      RetryContext R
      → RetryManager R
      → Output
      → (RetryManager R → Option (Ended V X R))
      → Option (Ended V X R)
  unfolding retry_input
  handle_item ctx manager item rest =
      if is_final item.result.status
      then finish_run item
      else if not (is_internal_failure item.result.status)
      then (let (delay, manager') = get_delay_ms f manager in
          retry_or_finish ctx item (rest manager') delay)
      else retry_then (retry_input (some ctx)) (rest manager)

  -- The loop, with fuel.
  abbrev pub on_item :
      (Output → ℕ → Option (Ended V X R)) → Option (Output × ℕ) → Option (Ended V X R)
  on_item handle none = none
  on_item handle (some (item, n)) = handle item n

  unfoldable pub run_from : ℕ → RetryContext R → RetryManager R → ℕ → Option (Ended V X R)
  unfolding handle_item
  run_from zero ctx manager n = none
  run_from (suc fuel) ctx manager n =
      on_item (λ item n'. handle_item ctx manager item (λ manager'. run_from fuel ctx manager' n'))
        (next_item (some ctx.input_jwt) n)

  -- a message is never false by itself, so `not ctx.retry_policy` is left out
  abbrev pub retries_off : RetryContext R → Bool
  retries_off ctx =
      ctx.retry_policy.retries == 0
      || (not (is_sync ctx.function_call_invocation_type) || not ctx.sync_client_retries_enabled)

  abbrev pub run_once : ℕ → Option (Ended V X R)
  run_once n = on_item (λ item n'. finish_run item) (next_item none n)

  unfoldable pub run_function : ℕ → Invocation R → ℕ → Option (Ended V X R)
  unfolding run_from
  run_function fuel invocation n = elim (invocation.retry_context) [
    | none ↦ run_once n
    | some ctx ↦
        if retries_off ctx then run_once n else run_from fuel ctx (new_manager f ctx.retry_policy) n
  ]
