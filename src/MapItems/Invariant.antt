-- ===== src/MapItems/Invariant.antt =====
-- A rule for invariants of `_MapItemsManager` (modal/parallel_map.py): what holds after a change of a
-- context that is there, a change of the retry queue and a removal, holds after every call that adds
-- no input.
use modal_client.Prelude.{
  ℕ, ◌≡◌, String, true, false, Bool, Bool-cases, Option-cases, inl, inr, Option, none, some, List,
  [], ◌∷◌, Result, ok, err,
}
use modal_client.Prelude.Dict.{lookup}
use modal_client.Float.{Floats}
use modal_client.Retry.Manager.{DelayError}
use modal_client.MapItems.Data.{
  MapError, Outcome, done, raised, suspended, OutputType, OutputItem, PutInputsResponseItem,
}
use modal_client.MapItems.Context
use modal_client.MapItems.Context.{Context, Retries}
use modal_client.MapItems.Manager.{set_context, prepare_items_for_retry, remove_item}
use modal_client.MapItems.Responses.{
  CheckedInput, Manager, is_completion, after_removal, requeue, handle_put_continue_response,
  handle_put_inputs_response, handle_retry_response, handle_check_inputs_response,
  handle_get_outputs_response, at_context, and_then, settle, retry_lost, lose, check_input,
}

module _ (f : Floats) (I : Type 0) where
  pub record Stable (P : Manager f I → Type 0) : Type 0 where
    pub at_present :
        (idx : ℕ) (c c' : Context f I) (m : Manager f I)
        → lookup idx m.item_context ≡ some c
        → P m
        → P (set_context f I idx c' m)
    pub queued : (q : Retries f I) (m : Manager f I) → P m → P (record m { retry_queue = q })
    pub removed : (idx : ℕ) (m : Manager f I) → P m → P (remove_item f I idx m).1

module _ (f : Floats) (I : Type 0) {P : Manager f I → Type 0} (stable : Stable f I P) where
  open f use {R}

  pub put_continue_keeps :
      (items : List (ℕ × String)) (m : Manager f I)
      → P m
      → P (handle_put_continue_response f I items m)
  unfolding handle_put_continue_response
  put_continue_keeps [] m v = v
  put_continue_keeps ((idx, token) ∷ items) m v = elim (Option-cases (lookup idx m.item_context)) [
    | inl gone ↦ rw (gone, handle_put_continue_response) (put_continue_keeps items m v)
    | inr (c, here) ↦
        rw (here, handle_put_continue_response)
          (put_continue_keeps items _ (stable.at_present idx c _ m here v))
  ]

  pub at_context_keeps :
      (idx : ℕ) (change : Context f I → Outcome Unit × Context f I) (m : Manager f I)
      → P m
      → P (at_context f I idx change m).1
  at_context_keeps idx change m v = elim (Option-cases (lookup idx m.item_context)) [
    | inl gone ↦ rw (gone, at_context) v
    | inr (c, here) ↦ rw (here, at_context) (stable.at_present idx c (change c).1 m here v)
  ]

  and_then_keeps :
      (r : Outcome Unit × Manager f I) (k : Manager f I → Outcome Unit × Manager f I)
      → P r.1
      → ((m : Manager f I) → P m → P (k m).1)
      → P (and_then f I r k).1
  and_then_keeps (done x, m) k v h = h m v
  and_then_keeps (raised e, m) k v h = v
  and_then_keeps (suspended, m) k v h = v

  pub put_inputs_keeps :
      (items : List PutInputsResponseItem) (m : Manager f I)
      → P m
      → P (handle_put_inputs_response f I items m).1
  unfolding handle_put_inputs_response
  put_inputs_keeps [] m v = v
  put_inputs_keeps (item ∷ items) m v =
      and_then_keeps _ _ (at_context_keeps item.idx _ m v) (put_inputs_keeps items)

  pub retry_keeps :
      (decode : String → Option ℕ) (jwts : List String) (m : Manager f I)
      → P m
      → P (handle_retry_response f I decode jwts m).1
  unfolding handle_retry_response
  retry_keeps decode [] m v = v
  retry_keeps decode (jwt ∷ jwts) m v = elim (Option-cases (decode jwt)) [
    | inl bad ↦ rw (bad, handle_retry_response) v
    | inr (idx, good) ↦
        rw (good, handle_retry_response)
          (and_then_keeps _ _ (at_context_keeps idx _ m v) (retry_keeps decode jwts))
  ]

  requeue_keeps :
      (r : Result DelayError (Option R)) (checked : CheckedInput R) (token : String)
      (c : Context f I) (m : Manager f I)
      → P m
      → P (requeue f I r checked token c m).1
  requeue_keeps (err e) checked token c m v = v
  requeue_keeps (ok d) checked token c m v = stable.queued _ m v

  pub lose_keeps :
      (token : Option String) (checked : CheckedInput R) (c c' : Context f I) (m : Manager f I)
      → lookup checked.idx m.item_context ≡ some c
      → P m
      → P (lose f I token checked c' m).1
  unfolding retry_lost
  lose_keeps none checked c c' m here v = stable.at_present checked.idx c c' m here v
  lose_keeps (some token) checked c c' m here v =
      requeue_keeps _ checked token c' _ (stable.at_present checked.idx c _ m here v)

  check_input_keeps :
      (lost : Bool) (checked : CheckedInput R) (c : Context f I) (m : Manager f I)
      → lookup checked.idx m.item_context ≡ some c
      → P m
      → P (check_input f I lost checked c m).1
  check_input_keeps true checked c m here v = lose_keeps c.input_jwt checked c _ m here v
  check_input_keeps false checked c m here v = v

  pub check_inputs_keeps :
      (response : List (CheckedInput R)) (m : Manager f I)
      → P m
      → P (handle_check_inputs_response f I response m).1
  unfolding handle_check_inputs_response
  check_inputs_keeps [] m v = v
  check_inputs_keeps (checked ∷ rest) m v =
      elim (Option-cases (lookup checked.idx m.item_context)) [
        | inl gone ↦ rw (gone, handle_check_inputs_response) (check_inputs_keeps rest m v)
        | inr (c, here) ↦
            rw (here, handle_check_inputs_response)
              (and_then_keeps _ _ (check_input_keeps checked.lost checked c m here v)
                (check_inputs_keeps rest))
      ]

  settle_keeps :
      (idx : ℕ) (r : Outcome OutputType) (m : Manager f I) → P m → P (settle f I idx r m).1
  settle_keeps idx r m v = elim (Bool-cases (is_completion r)) [
    | inr going ↦ rw (going, settle) v
    | inl over ↦ rw (over, settle) (after _ (stable.removed idx m v))
  ]
    where
      after :
          (removed : Option MapError × Manager f I)
          → P removed.1
          → P (after_removal f I r removed).1
      after (none, m) v = v
      after (some e, m) v = v

  pub get_outputs_keeps :
      (item : OutputItem) (now_seconds : ℕ) (m : Manager f I)
      → P m
      → P (handle_get_outputs_response f I item now_seconds m).1
  unfolding handle_get_outputs_response
  get_outputs_keeps item now_seconds m v = elim (Option-cases (lookup item.idx m.item_context)) [
    | inl gone ↦ rw (gone, handle_get_outputs_response) v
    | inr (c, here) ↦
        rw (here, handle_get_outputs_response)
          (after
            (Context.handle_get_outputs_response f I item now_seconds
              m.function_call_invocation_type c m.retry_queue)
            c here)
  ]
    where
      after :
          (result : Outcome OutputType × Context f I × Retries f I) (c : Context f I)
          → lookup item.idx m.item_context ≡ some c
          → P
              (settle f I item.idx result.0
                (record (set_context f I item.idx result.1 m) { retry_queue = result.2 })).1
      after (r, c', q) c here =
          settle_keeps item.idx r (record (set_context f I item.idx c' m) { retry_queue = q })
            (stable.queued q _ (stable.at_present item.idx c c' m here v))

  pub prepare_keeps :
      (idxs : List ℕ) (m : Manager f I) → P m → P (prepare_items_for_retry f I idxs m).1
  unfolding prepare_items_for_retry Context.prepare_item_for_retry
  prepare_keeps [] m v = v
  prepare_keeps (idx ∷ idxs) m v = elim (Option-cases (lookup idx m.item_context)) [
    | inl gone ↦ rw (gone, prepare_items_for_retry) v
    | inr (c, here) ↦ elim (Option-cases c.input_jwt) [
      | inl pending ↦
          rw (here, pending, prepare_items_for_retry) (stable.at_present idx c _ m here v)
      | inr (jwt, set) ↦
          rw (here, set, prepare_items_for_retry)
            (prepare_keeps idxs _ (stable.at_present idx c _ m here v))
    ]
  ]
