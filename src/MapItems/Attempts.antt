-- ===== src/MapItems/Attempts.antt =====
-- What `_MapItemContext.handle_get_outputs_response` (modal/parallel_map.py) does with an output, on
-- every branch.
use modal_client.Prelude.{
  ℕ, ◌+◌, ◌≤◌, ◌<◌, ◌≡◌, ◌≢◌, ◌⊎◌, inl, inr, refl, true, false, Bool, Bool-cases, not, ◌||◌, String,
  Option, none, some, Result, ok, arith, ◌==◌, if◌then◌else◌,
}
use modal_client.Float.{Floats}
use modal_client.Retry.Manager.{DelayError, get_delay_ms}
use modal_client.Retry.Delays.{get_delay_ms_cases, manager-get_delay_ms, InDelayRange, HasDelays}
use modal_client.RetryQueue.{put}
use modal_client.MapItems.Data.{
  waiting_to_retry, complete, OutputType, successful_completion, failed_completion, retried,
  already_complete_duplicate, stale_retry_duplicate, is_success, is_terminated, is_internal_failure,
  InvocationType, is_sync, is_complete, Outcome, done, suspended, OutputItem, RetryItem, index,
  start_or_continue,
}
use modal_client.MapItems.Context.{
  Context, Retries, handle_get_outputs_response, after_delay, retry_or_fail, enqueue_retry,
  finish_retry, start_or_continue_item,
}
use modal_client.MapItems.Admits.{Admits, handle_get_outputs_response-Admits}

module _ (f : Floats) (I : Type 0) where
  open f use {R, of_nat, add, div}

  -- the attempt is counted, and the input is to be tried again
  abbrev pub CountedRetry : OutputItem → InvocationType → Context f I → Context f I → Type 0
  CountedRetry item kind c c' =
      (is_success item.status ≡ false)
      × (is_terminated item.status ≡ false)
      × (is_sync kind ≡ true)
      × (c.sync_client_retries_enabled ≡ true)
      × ((is_internal_failure item.status ≡ true)
          ⊎ (c.retry_manager.retry_count < c.retry_manager.retry_policy.retries))
      × (c' ≡ record c {
        state = waiting_to_retry;
        retry_manager = record c.retry_manager { retry_count = c.retry_manager.retry_count + 1 };
      })

  -- the time of the retry: at once after a failure of the system, and otherwise after a delay of
  -- the policy
  abbrev pub RetryTime : OutputItem → ℕ → R → Type 0
  RetryTime item now_seconds t =
      (d : R) × (t ≡ add (of_nat now_seconds) (div d (of_nat 1000)))
      × (((is_internal_failure item.status ≡ true) × (d ≡ of_nat 0)) ⊎ InDelayRange f d)

  -- What the result says of the call: the state before, and what has changed.
  abbrev pub Explains :
      OutputItem
      → ℕ
      → InvocationType
      → Context f I
      → Retries f I
      → Outcome OutputType × Context f I × Retries f I
      → Type 0
  Explains item now_seconds kind c q (done already_complete_duplicate, c', q') =
      (c.state ≡ complete) × (c' ≡ c) × (q' ≡ q)
  Explains item now_seconds kind c q (done stale_retry_duplicate, c', q') =
      (item.retry_count ≢ c.retry_manager.retry_count) × (c' ≡ c) × (q' ≡ q)
  Explains item now_seconds kind c q (done successful_completion, c', q') =
      (is_success item.status ≡ true) × (c' ≡ record c { state = complete }) × (q' ≡ q)
  Explains item now_seconds kind c q (done failed_completion, c', q') =
      (is_success item.status ≡ false)
      × (c'.state ≡ complete)
      × (q' ≡ q)
      × ((is_sync kind ≡ false)
          ⊎ (c.sync_client_retries_enabled ≡ false)
          ⊎ (is_terminated item.status ≡ true)
          ⊎ ((is_internal_failure item.status ≡ false)
              × (c.retry_manager.retry_policy.retries ≤ c.retry_manager.retry_count)))
  Explains item now_seconds kind c q (done retried, c', q') =
      CountedRetry item kind c c'
      × ((t : R) × RetryTime item now_seconds t
          × (x : RetryItem I) × (q' ≡ put f (RetryItem I) t (some x) q)
          × (((c.is_input_plane_instance ≡ false) × (x ≡ index item.idx))
              ⊎ ((c.is_input_plane_instance ≡ true)
                  × ((token : _) × (c.input_jwt ≡ some token)
                      × (x ≡ start_or_continue (start_or_continue_item f I item.idx token c))))))
  Explains item now_seconds kind c q (suspended, c', q') =
      CountedRetry item kind c c'
      × (c.is_input_plane_instance ≡ true)
      × (c.input_jwt ≡ none)
      × (q' ≡ q)
  Explains item now_seconds kind c q _ = ⊥

  abbrev counted : Context f I → Context f I
  counted c = record c {
    retry_manager = record c.retry_manager { retry_count = c.retry_manager.retry_count + 1 };
  }

  enqueue-Explains :
      (item : OutputItem) (now_seconds : ℕ) (kind : InvocationType) (c : Context f I)
      (q : Retries f I) (t : R) (input_plane : Bool) (token : Option String)
      → c.is_input_plane_instance ≡ input_plane
      → c.input_jwt ≡ token
      → CountedRetry item kind c (record (counted c) { state = waiting_to_retry })
      → RetryTime item now_seconds t
      → Explains item now_seconds kind c q (
          enqueue_retry f I input_plane token t item.idx
            (record (counted c) { state = waiting_to_retry })
            q)
  unfolding finish_retry
  enqueue-Explains item now_seconds kind c q t false token plane jwt retry time =
      (retry, (t, time, _, refl, inl (plane, refl)))
  enqueue-Explains item now_seconds kind c q t true none plane jwt retry time =
      (retry, plane, jwt, refl)
  enqueue-Explains item now_seconds kind c q t true (some token) plane jwt retry time =
      (retry, (t, time, _, refl, inr (plane, (token, jwt, refl))))

  -- what `get_delay_ms` may have returned
  abbrev IsDelay : Context f I → Option R → Type 0
  IsDelay c none = c.retry_manager.retry_policy.retries ≤ c.retry_manager.retry_count
  IsDelay c (some d) =
      (c.retry_manager.retry_count < c.retry_manager.retry_policy.retries) × InDelayRange f d

  -- the delay after the test for a failure of the system
  abbrev IsFinal : OutputItem → Context f I → Option R → Type 0
  IsFinal item c none = (is_internal_failure item.status ≡ false) × IsDelay c none
  IsFinal item c (some d) =
      ((is_internal_failure item.status ≡ true) × (d ≡ of_nat 0))
      ⊎ ((c.retry_manager.retry_count < c.retry_manager.retry_policy.retries) × InDelayRange f d)

  IsFinal-delay :
      (item : OutputItem) (c : Context f I) (delay : Option R)
      → IsDelay c delay
      → IsFinal item c (if is_internal_failure item.status then some (of_nat 0) else delay)
  IsFinal-delay item c delay h = elim (Bool-cases (is_internal_failure item.status)) [
    | inl system ↦ rw system (inl (system, refl))
    | inr user ↦ rw user (keep delay h user)
  ]
    where
      keep :
          (delay : Option R)
          → IsDelay c delay
          → is_internal_failure item.status ≡ false
          → IsFinal item c delay
      keep none h user = (user, h)
      keep (some d) h user = inr h

  module _ (item : OutputItem) (now_seconds : ℕ) (kind : InvocationType) (c : Context f I)
      (q : Retries f I) (failure : is_success item.status ≡ false) (sync : is_sync kind ≡ true)
      (enabled : c.sync_client_retries_enabled ≡ true) where
    retry_or_fail-Explains :
        (delay : Option R)
        → IsFinal item c delay
        → Explains item now_seconds kind c q
            (retry_or_fail f I delay item now_seconds (counted c) q)
    retry_or_fail-Explains none spent = (failure, refl, refl, inr (inr (inr spent)))
    retry_or_fail-Explains (some d) final = elim (Bool-cases (is_terminated item.status)) [
      | inl ended ↦ rw (ended, retry_or_fail) (failure, refl, refl, inr (inr (inl ended)))
      | inr going ↦
          rw (going, retry_or_fail)
            (enqueue-Explains item now_seconds kind c q _ c.is_input_plane_instance c.input_jwt refl
              refl (failure, going, sync, enabled, budget final, refl) (d, refl, range final))
    ]
      where
        budget :
            IsFinal item c (some d)
            → (is_internal_failure item.status ≡ true)
              ⊎ (c.retry_manager.retry_count < c.retry_manager.retry_policy.retries)
        budget (inl system) = inl system.0
        budget (inr left) = inr left.0

        range :
            IsFinal item c (some d)
            → ((is_internal_failure item.status ≡ true) × (d ≡ of_nat 0)) ⊎ InDelayRange f d
        range (inl system) = inl system
        range (inr left) = inr left.1

    after_delay-Explains :
        (r : Result DelayError (Option R))
        → ((c.retry_manager.retry_count < c.retry_manager.retry_policy.retries)
            × ((d : R) × (r ≡ ok (some d)) × InDelayRange f d))
          ⊎ ((c.retry_manager.retry_policy.retries ≤ c.retry_manager.retry_count) × (r ≡ ok none))
        → Explains item now_seconds kind c q (after_delay f I item now_seconds r (counted c) q)
    after_delay-Explains r (inl (left, (d, e, range))) =
        rw e (retry_or_fail-Explains _ (IsFinal-delay item c (some d) (left, range)))
    after_delay-Explains r (inr (spent, e)) =
        rw e (retry_or_fail-Explains _ (IsFinal-delay item c none spent))

  -- the output of the attempt that is under way
  current_output :
      (item : OutputItem) (now_seconds : ℕ) (kind : InvocationType) (c : Context f I)
      (q : Retries f I)
      → HasDelays f c.retry_manager.retry_policy
      → Explains item now_seconds kind c q (
          if is_success item.status || (not (is_sync kind) || not c.sync_client_retries_enabled)
          then (
            done (if is_success item.status then successful_completion else failed_completion),
            record c { state = complete },
            q,
          )
          else (let (delay, manager) = get_delay_ms f c.retry_manager in
              after_delay f I item now_seconds delay (record c { retry_manager = manager }) q))
  current_output item now_seconds kind c q delays = elim (Bool-cases (is_success item.status)) [
    | inl good ↦ rw good (good, refl, refl)
    | inr failure ↦ elim (Bool-cases (not (is_sync kind) || not c.sync_client_retries_enabled)) [
      | inl gives_up ↦ rw (failure, gives_up) (failure, refl, refl, ground (arith, gives_up))
      | inr retries ↦
          rw (failure, retries, manager-get_delay_ms f c.retry_manager)
            (after_delay-Explains item now_seconds kind c q failure (ground (arith, retries))
              (ground (arith, retries)) _ (get_delay_ms_cases f c.retry_manager delays))
    ]
  ]

  handle_get_outputs_response-Explains :
      (item : OutputItem) (now_seconds : ℕ) (kind : InvocationType) (c : Context f I)
      (q : Retries f I)
      → HasDelays f c.retry_manager.retry_policy
      → Explains item now_seconds kind c q
          (handle_get_outputs_response f I item now_seconds kind c q)
  unfolding handle_get_outputs_response
  handle_get_outputs_response-Explains item now_seconds kind c q delays =
      elim (Bool-cases (is_complete c.state)) [
        | inl over ↦ rw (over, handle_get_outputs_response) (ground (arith, over), refl, refl)
        | inr going ↦ elim (Bool-cases (item.retry_count == c.retry_manager.retry_count)) [
          | inr stale ↦
              rw (going, stale, handle_get_outputs_response) (ground (arith, stale), refl, refl)
          | inl current ↦
              rw (going, current, handle_get_outputs_response)
                (current_output item now_seconds kind c q delays)
        ]
      ]

  -- For every context whose policy has no delay that overflows, and every output: the call never
  -- raises and never sees an untracked input; the output is a duplicate exactly if the input is complete or the output is of another attempt than
  -- the one under way, and then nothing changes; a success completes the input; a failure completes
  -- it only if the call is not SYNC, retries are off, the input was terminated or the policy is used
  -- up; otherwise the attempt is counted, and a retry is put on the queue or awaits the input's token.
  pub handle_get_outputs_response_explained :
      (item : OutputItem) (now_seconds : ℕ) (kind : InvocationType) (c : Context f I)
      (q : Retries f I)
      → HasDelays f c.retry_manager.retry_policy
      → Admits f I item c (handle_get_outputs_response f I item now_seconds kind c q).0
        × Explains item now_seconds kind c q
            (handle_get_outputs_response f I item now_seconds kind c q)
  handle_get_outputs_response_explained item now_seconds kind c q delays = (
    handle_get_outputs_response-Admits f I item now_seconds kind c q,
    handle_get_outputs_response-Explains item now_seconds kind c q delays,
  )
