-- ===== src/MapItems/Admits.antt =====
-- Which outputs `_MapItemContext.handle_get_outputs_response` (modal/parallel_map.py) takes for duplicates.
use modal_client.Prelude.{
  ℕ, ◌≡◌, ◌≢◌, inl, inr, true, false, Bool, Bool-cases, not, ◌||◌, String, Option, none, some,
  Result, ok, err, arith, ◌==◌,
}
use modal_client.Float.{Floats}
use modal_client.Retry.Manager.{DelayError, get_delay_ms}
use modal_client.MapItems.Data.{
  OutputType, successful_completion, failed_completion, retried, already_complete_duplicate,
  stale_retry_duplicate, no_context_duplicate, is_success, is_terminated, InvocationType, is_sync,
  is_complete, Outcome, done, raised, suspended, OutputItem,
}
use modal_client.MapItems.Context.{
  Context, Retries, handle_get_outputs_response, after_delay, retry_or_fail, enqueue_retry,
}

module _ (f : Floats) (I : Type 0) where
  open f use {R}

  -- the output of the attempt that is under way
  abbrev pub IsCurrent : OutputItem → Context f I → Type 0
  IsCurrent item c =
      (is_complete c.state ≡ false) × (item.retry_count ≡ c.retry_manager.retry_count)

  -- Only the output of the attempt that is under way has another result than a duplicate, and an
  -- output is stale only while its input is not complete.
  abbrev pub Admits : OutputItem → Context f I → Outcome OutputType → Type 0
  Admits item c (done already_complete_duplicate) = is_complete c.state ≡ true
  Admits item c (done stale_retry_duplicate) =
      (is_complete c.state ≡ false) × (item.retry_count ≢ c.retry_manager.retry_count)
  Admits item c _ = IsCurrent item c

  -- a result that is not a duplicate
  abbrev IsFresh : Outcome OutputType → Type 0
  IsFresh (done already_complete_duplicate) = ⊥
  IsFresh (done stale_retry_duplicate) = ⊥
  IsFresh _ = Unit

  fresh-Admits :
      (item : OutputItem) (c : Context f I) (r : Outcome OutputType)
      → IsFresh r
      → IsCurrent item c
      → Admits item c r
  fresh-Admits item c (done already_complete_duplicate) fresh current = absurd fresh
  fresh-Admits item c (done stale_retry_duplicate) fresh current = absurd fresh
  fresh-Admits item c (done successful_completion) fresh current = current
  fresh-Admits item c (done failed_completion) fresh current = current
  fresh-Admits item c (done retried) fresh current = current
  fresh-Admits item c (done no_context_duplicate) fresh current = current
  fresh-Admits item c suspended fresh current = current
  fresh-Admits item c (raised e) fresh current = current

  enqueue_retry-IsFresh :
      (input_plane : Bool) (token : Option String) (t : R) (idx : ℕ) (c : Context f I)
      (q : Retries f I)
      → IsFresh (enqueue_retry f I input_plane token t idx c q).0
  enqueue_retry-IsFresh false token t idx c q = tt
  enqueue_retry-IsFresh true none t idx c q = tt
  enqueue_retry-IsFresh true (some token) t idx c q = tt

  retry_or_fail-IsFresh :
      (delay : Option R) (item : OutputItem) (now_seconds : ℕ) (c : Context f I) (q : Retries f I)
      → IsFresh (retry_or_fail f I delay item now_seconds c q).0
  retry_or_fail-IsFresh none item now_seconds c q = tt
  retry_or_fail-IsFresh (some d) item now_seconds c q =
      elim (Bool-cases (is_terminated item.status)) [
        | inl ended ↦ rw ended tt
        | inr going ↦
            rw going (enqueue_retry-IsFresh c.is_input_plane_instance c.input_jwt _ item.idx _ q)
      ]

  after_delay-IsFresh :
      (item : OutputItem) (now_seconds : ℕ) (r : Result DelayError (Option R)) (c : Context f I)
      (q : Retries f I)
      → IsFresh (after_delay f I item now_seconds r c q).0
  after_delay-IsFresh item now_seconds (err e) c q = tt
  after_delay-IsFresh item now_seconds (ok delay) c q = retry_or_fail-IsFresh _ item now_seconds c q

  pub handle_get_outputs_response-Admits :
      (item : OutputItem) (now_seconds : ℕ) (kind : InvocationType) (c : Context f I)
      (q : Retries f I)
      → Admits item c (handle_get_outputs_response f I item now_seconds kind c q).0
  unfolding handle_get_outputs_response
  handle_get_outputs_response-Admits item now_seconds kind c q =
      elim (Bool-cases (is_complete c.state)) [
        | inl over ↦ rw (over, handle_get_outputs_response) over
        | inr going ↦ elim (Bool-cases (item.retry_count == c.retry_manager.retry_count)) [
          | inr stale ↦
              rw (going, stale, handle_get_outputs_response) (going, ground (arith, stale))
          | inl same ↦
              let current : IsCurrent item c = (going, ground (arith, same)) in
              elim (Bool-cases (
                is_success item.status
                || (not (is_sync kind) || not c.sync_client_retries_enabled))) [
                  | inl ends ↦ elim (Bool-cases (is_success item.status)) [
                    | inl good ↦ rw (going, same, good, handle_get_outputs_response) current
                    | inr bad ↦ rw (going, same, ends, bad, handle_get_outputs_response) current
                  ]
                  | inr goes_on ↦
                      rw (going, same, goes_on, handle_get_outputs_response)
                        (fresh-Admits item c _
                          (after_delay-IsFresh item now_seconds (get_delay_ms f c.retry_manager).0 _
                            q)
                          current)
                ]
        ]
      ]
