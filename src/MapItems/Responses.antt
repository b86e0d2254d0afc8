-- ===== src/MapItems/Responses.antt =====
-- The methods of `_MapItemsManager` in modal/parallel_map.py that take in what the server answers.
use modal_client.Prelude.{
  ℕ, String, Bool, true, false, Option, none, some, List, [], ◌∷◌, Result, ok, err, if◌then◌else◌,
}
use modal_client.Prelude.Dict.{lookup}
use modal_client.Float.{Floats}
use modal_client.Retry.Manager.{DelayError, get_delay_ms}
use modal_client.RetryQueue.{put}
use modal_client.MapItems.Data.{
  waiting_to_retry, OutputType, successful_completion, failed_completion, no_context_duplicate,
  MapError, bad_delay, bad_jwt, Outcome, done, raised, suspended, OutputItem, PutInputsResponseItem,
  RetryItem, start_or_continue,
}
use modal_client.MapItems.Context
use modal_client.MapItems.Context.{Context, start_or_continue_item}
use modal_client.MapItems.Manager.{MapItemsManager, set_context, remove_item}

-- One entry of `response` in `handle_check_inputs_response`, with the clock as read for it.
pub record CheckedInput (R : Type 0) : Type 0 where
  pub idx : ℕ
  pub lost : Bool
  pub now : R

abbrev pub is_completion : Outcome OutputType → Bool
is_completion (done successful_completion) = true
is_completion (done failed_completion) = true
is_completion _ = false

module _ (f : Floats) (I : Type 0) where
  open f use {R}

  abbrev pub Manager : Type 0
  Manager = MapItemsManager f I

  unfoldable pub handle_put_continue_response : List (ℕ × String) → Manager → Manager
  handle_put_continue_response [] m = m
  handle_put_continue_response ((idx, token) ∷ items) m =
      let change = λ (c : Context f I).
        set_context f I idx (Context.handle_map_start_or_continue_response f I token c) m in
      handle_put_continue_response items
        (elim (lookup idx m.item_context) [ none ↦ m | some c ↦ change c ])

  -- an exception ends the loop over the items
  abbrev pub and_then :
      Outcome Unit × Manager → (Manager → Outcome Unit × Manager) → Outcome Unit × Manager
  and_then (done _, m) k = k m
  and_then (raised e, m) k = (raised e, m)
  and_then (suspended, m) k = (suspended, m)

  -- a context is changed if it is still there
  abbrev pub at_context :
      ℕ → (Context f I → Outcome Unit × Context f I) → Manager → Outcome Unit × Manager
  at_context idx change m = elim (lookup idx m.item_context) [
    | none ↦ (done tt, m)
    | some c ↦ let (r, c') = change c in (r, set_context f I idx c' m)
  ]

  unfoldable pub handle_put_inputs_response :
      List PutInputsResponseItem → Manager → Outcome Unit × Manager
  handle_put_inputs_response [] m = (done tt, m)
  handle_put_inputs_response (item ∷ items) m =
      and_then (at_context item.idx (Context.handle_put_inputs_response f I item) m)
        (handle_put_inputs_response items)

  -- `decode` is the `idx` of the payload that `DecodedJwt.decode_without_verification` finds
  unfoldable pub handle_retry_response :
      (String → Option ℕ) → List String → Manager → Outcome Unit × Manager
  handle_retry_response decode [] m = (done tt, m)
  handle_retry_response decode (jwt ∷ jwts) m = elim (decode jwt) [
    | none ↦ (raised bad_jwt, m)
    | some idx ↦
        and_then (at_context idx (Context.handle_retry_response f I jwt) m)
          (handle_retry_response decode jwts)
  ]

  abbrev pub requeue :
      Result DelayError (Option R)
      → CheckedInput R
      → String
      → Context f I
      → Manager
      → Outcome Unit × Manager
  requeue (err e) checked token c m = (raised bad_delay, m)
  requeue (ok _) checked token c m = (
    done tt,
    record m {
      retry_queue =
          put f (RetryItem I) checked.now
            (some (start_or_continue (start_or_continue_item f I checked.idx token c)))
            m.retry_queue;
    },
  )

  -- The rest of `handle_check_inputs_response` for one lost input, from where its token is there:
  -- the retry is counted, and put on the queue without a delay.
  unfoldable pub retry_lost :
      CheckedInput R → String → Context f I → Manager → Outcome Unit × Manager
  retry_lost checked token c m =
      let (delay, manager) = get_delay_ms f c.retry_manager in
      requeue delay checked token c
        (set_context f I checked.idx (record c { retry_manager = manager }) m)

  abbrev pub lose : Option String → CheckedInput R → Context f I → Manager → Outcome Unit × Manager
  lose none checked c m = (suspended, set_context f I checked.idx c m)
  lose (some token) checked c m = retry_lost checked token c m

  -- an input that is not lost is left alone
  abbrev pub check_input : Bool → CheckedInput R → Context f I → Manager → Outcome Unit × Manager
  check_input true checked c m = lose c.input_jwt checked (record c { state = waiting_to_retry }) m
  check_input false checked c m = (done tt, m)

  unfoldable pub handle_check_inputs_response :
      List (CheckedInput R) → Manager → Outcome Unit × Manager
  handle_check_inputs_response [] m = (done tt, m)
  handle_check_inputs_response (checked ∷ rest) m =
      let turn : Outcome Unit × Manager = elim (lookup checked.idx m.item_context) [
        | none ↦ (done tt, m)
        | some c ↦ check_input checked.lost checked c m
      ] in
      and_then turn (handle_check_inputs_response rest)

  abbrev pub after_removal :
      Outcome OutputType → Option MapError × Manager → Outcome OutputType × Manager
  after_removal r (none, m) = (r, m)
  after_removal r (some e, m) = (raised e, m)

  -- a completed item is removed
  abbrev pub settle : ℕ → Outcome OutputType → Manager → Outcome OutputType × Manager
  settle idx r m = if is_completion r then after_removal r (remove_item f I idx m) else (r, m)

  unfoldable pub handle_get_outputs_response :
      OutputItem → ℕ → Manager → Outcome OutputType × Manager
  handle_get_outputs_response item now_seconds m = elim (lookup item.idx m.item_context) [
    | none ↦ (done no_context_duplicate, m)
    | some c ↦
        let (r, c', q) =
          Context.handle_get_outputs_response f I item now_seconds m.function_call_invocation_type c
            m.retry_queue in
        settle item.idx r (record (set_context f I item.idx c' m) { retry_queue = q })
  ]
