-- ===== src/MapItems/Context.antt =====
-- The methods of `_MapItemContext` in modal/parallel_map.py.
use modal_client.Prelude.{
  ℕ, String, Bool, true, false, not, ◌||◌, Option, none, some, Result, ok, err, ◌==◌, if◌then◌else◌,
}
use modal_client.Float.{Floats}
use modal_client.Retry.Manager.{DelayError, get_delay_ms}
use modal_client.RetryQueue.{Queue, put}
use modal_client.MapItems.Data.{
  MapItemState, sending, waiting_for_output, waiting_to_retry, retrying, complete, OutputType,
  successful_completion, failed_completion, retried, already_complete_duplicate,
  stale_retry_duplicate, is_success, is_terminated, is_internal_failure, InvocationType, is_sync,
  is_complete, invalid_state, bad_delay, Outcome, done, raised, suspended, OutputItem,
  PutInputsResponseItem, StartOrContinueItem, RetryInputsItem, RetryItem, index, start_or_continue,
  MapItemContext,
}

-- "only if current state is SENDING"
abbrev pub sent : MapItemState → MapItemState
sent sending = waiting_for_output
sent s = s

module _ (f : Floats) (I : Type 0) where
  open f use {R, of_nat, add, div}

  abbrev pub Context : Type 0
  Context = MapItemContext f I

  abbrev pub Retries : Type 0
  Retries = Queue f (RetryItem I)

  -- A future that is done is replaced by a new one, so the token is stored either way.
  unfoldable pub handle_map_start_or_continue_response : String → Context → Context
  handle_map_start_or_continue_response attempt_token c = record c {
    input_jwt = some attempt_token;
    state = sent c.state;
  }

  -- `set_result` on the JWT, then on the input id, then the state
  unfoldable pub handle_put_inputs_response :
      PutInputsResponseItem → Context → Outcome Unit × Context
  handle_put_inputs_response item c = elim c.input_jwt [
    | some _ ↦ (raised invalid_state, c)
    | none ↦ elim c.input_id [
      | some _ ↦ (raised invalid_state, record c { input_jwt = some item.input_jwt })
      | none ↦ (
        done tt,
        record c {
          input_id = some item.input_id;
          input_jwt = some item.input_jwt;
          state = sent c.state;
        },
      )
    ]
  ]

  -- `create_map_start_or_continue_item`, once the token is there
  abbrev pub start_or_continue_item : ℕ → String → Context → StartOrContinueItem I
  start_or_continue_item idx attempt_token c = record {
    put_item = record { idx = idx; input = c.input };
    attempt_token = attempt_token;
  }

  -- The rest of `handle_get_outputs_response` on the input plane, from where it awaits the token:
  -- it runs at once if the token is there, and otherwise when `input_jwt` is resolved.
  unfoldable pub finish_retry : R → ℕ → String → Context → Retries → Retries
  finish_retry timestamp idx attempt_token c q =
      put f (RetryItem I) timestamp
        (some (start_or_continue (start_or_continue_item idx attempt_token c))) q

  -- what goes on the queue: the index, or on the input plane the item, once its token is there
  abbrev pub enqueue_retry :
      Bool → Option String → R → ℕ → Context → Retries → Outcome OutputType × Context × Retries
  enqueue_retry false token timestamp idx c q =
      (done retried, c, put f (RetryItem I) timestamp (some (index idx)) q)
  enqueue_retry true none timestamp idx c q = (suspended, c, q)
  enqueue_retry true (some token) timestamp idx c q =
      (done retried, c, finish_retry timestamp idx token c q)

  -- from the test on `delay_ms`, which is None where no retry is left
  abbrev pub retry_or_fail :
      Option R → OutputItem → ℕ → Context → Retries → Outcome OutputType × Context × Retries
  retry_or_fail none item now_seconds c q =
      (done failed_completion, record c { state = complete }, q)
  retry_or_fail (some d) item now_seconds c q =
      if is_terminated item.status
      then (done failed_completion, record c { state = complete }, q)
      else enqueue_retry c.is_input_plane_instance c.input_jwt
          (add (of_nat now_seconds) (div d (of_nat 1000))) item.idx
          (record c { state = waiting_to_retry }) q

  -- `get_delay_ms` has counted the attempt; `c` holds the new count
  abbrev pub after_delay :
      OutputItem
      → ℕ
      → Result DelayError (Option R)
      → Context
      → Retries
      → Outcome OutputType × Context × Retries
  after_delay item now_seconds (err e) c q = (raised bad_delay, c, q)
  after_delay item now_seconds (ok delay) c q =
      retry_or_fail (if is_internal_failure item.status then some (of_nat 0) else delay) item
        now_seconds c q

  unfoldable pub handle_get_outputs_response :
      OutputItem → ℕ → InvocationType → Context → Retries → Outcome OutputType × Context × Retries
  handle_get_outputs_response item now_seconds invocation_type c q =
      if is_complete c.state
      then (done already_complete_duplicate, c, q)
      else if not (item.retry_count == c.retry_manager.retry_count)
      then (done stale_retry_duplicate, c, q)
      else if is_success item.status
          || (not (is_sync invocation_type) || not c.sync_client_retries_enabled)
      then (
        done (if is_success item.status then successful_completion else failed_completion),
        record c { state = complete },
        q,
      )
      else let (delay, manager) = get_delay_ms f c.retry_manager in
        after_delay item now_seconds delay (record c { retry_manager = manager }) q

  -- `prepare_item_for_retry`: the state changes before the JWT is awaited
  unfoldable pub begin_retry : Context → Context
  begin_retry c = record c { state = retrying }

  -- from where the awaited JWT is there: a new future takes its place
  unfoldable pub finish_prepare : String → Context → RetryInputsItem I × Context
  finish_prepare input_jwt c = (
    record { input_jwt = input_jwt; input = c.input; retry_count = c.retry_manager.retry_count },
    record c { input_jwt = none },
  )

  unfoldable pub prepare_item_for_retry : Context → Outcome (RetryInputsItem I) × Context
  unfolding begin_retry finish_prepare
  prepare_item_for_retry c = elim c.input_jwt [
    | none ↦ (suspended, begin_retry c)
    | some jwt ↦ let (item, c') = finish_prepare jwt (begin_retry c) in (done item, c')
  ]

  unfoldable pub handle_retry_response : String → Context → Outcome Unit × Context
  handle_retry_response input_jwt c = elim c.input_jwt [
    | some _ ↦ (raised invalid_state, c)
    | none ↦ (done tt, record c { input_jwt = some input_jwt; state = waiting_for_output })
  ]
