-- ===== src/MapItems/Manager.antt =====
-- The methods of `_MapItemsManager` in modal/parallel_map.py. The bounded semaphore is its value and
-- its bound; contexts are changed in place, which is an insert at their key.
use modal_client.Prelude.{
  ℕ, ◌+◌, ◌-◌, String, Bool, true, false, Option, none, some, List, [], ◌∷◌, map, Result, ok, err,
  ltb, if◌then◌else◌,
}
use modal_client.Prelude.Dict.{Dict, lookup, insert, erase}
use text.Mathlib.Text.{◌==◌}
use modal_client.Float.{Floats}
use modal_client.Retry.Policy.{FunctionRetryPolicy}
use modal_client.Retry.Manager.{new_manager}
use modal_client.MapItems.Data.{
  sending, waiting_for_output, InvocationType, MapError, key_error, too_many_releases, Outcome,
  done, raised, suspended, PutInputsItem, StartOrContinueItem, RetryInputsItem, new_context,
}
use modal_client.MapItems.Context
use modal_client.MapItems.Context.{Context, Retries, start_or_continue_item}

-- The value and the bound of `asyncio.BoundedSemaphore`.
pub record Semaphore : Type 0 where
  pub value : ℕ
  pub bound : ℕ

module _ (f : Floats) (I : Type 0) where
  open f use {R}

  pub record MapItemsManager : Type 0 where
    pub retry_policy : FunctionRetryPolicy R
    pub function_call_invocation_type : InvocationType
    pub retry_queue : Retries f I
    pub inputs_outstanding : Semaphore
    pub item_context : Dict (Context f I)
    pub sync_client_retries_enabled : Bool
    pub is_input_plane_instance : Bool

  abbrev pub set_context : ℕ → Context f I → MapItemsManager → MapItemsManager
  set_context idx c m = record m { item_context = insert idx c m.item_context }

  abbrev pub add_context : ℕ → I → Bool → MapItemsManager → MapItemsManager
  add_context idx input input_plane m = record m {
    inputs_outstanding = record m.inputs_outstanding { value = m.inputs_outstanding.value - 1 };
    item_context =
        insert idx
          (new_context f I input (new_manager f m.retry_policy) m.sync_client_retries_enabled
            input_plane)
          m.item_context;
  }

  -- Where no slot is free, `acquire` suspends the call: the items that it has yet to add are
  -- returned, and it goes on with those when a slot is released.
  unfoldable pub add_items :
      List (PutInputsItem I) → MapItemsManager → List (PutInputsItem I) × MapItemsManager
  add_items [] m = ([], m)
  add_items (item ∷ items) m = elim (ltb 0 m.inputs_outstanding.value) [
    | true ↦ add_items items (add_context item.idx item.input false m)
    | false ↦ (item ∷ items, m)
  ]

  -- A token marks a retry, whose context goes back to SENDING and whose slot is still held.
  unfoldable pub add_items_inputplane :
      List (StartOrContinueItem I)
      → MapItemsManager
      → Result MapError (List (StartOrContinueItem I)) × MapItemsManager
  add_items_inputplane [] m = (ok [], m)
  add_items_inputplane (item ∷ items) m =
      let idx : ℕ = item.put_item.idx in
      elim (item.attempt_token == "") [
        | false ↦ elim (lookup idx m.item_context) [
          | none ↦ (err key_error, m)
          | some c ↦ add_items_inputplane items (set_context idx (record c { state = sending }) m)
        ]
        | true ↦ elim (ltb 0 m.inputs_outstanding.value) [
          | true ↦
              add_items_inputplane items
                (add_context idx item.put_item.input m.is_input_plane_instance m)
          | false ↦ (ok (item ∷ items), m)
        ]
      ]

  -- What is prepared, and where the call is suspended or raises.
  unfoldable pub prepare_items_for_retry :
      List ℕ → MapItemsManager → Outcome (List (RetryInputsItem I)) × MapItemsManager
  prepare_items_for_retry [] m = (done [], m)
  prepare_items_for_retry (idx ∷ idxs) m = elim (lookup idx m.item_context) [
    | none ↦ (raised key_error, m)
    | some c ↦
        let (r, c') = Context.prepare_item_for_retry f I c in
        elim r [
          | done item ↦
              let (rest, m') = prepare_items_for_retry idxs (set_context idx c' m) in
              (
                elim rest [
                  | done items ↦ done (item ∷ items)
                  | raised e ↦ raised e
                  | suspended ↦ suspended
                ],
                m',
              )
          | raised e ↦ (raised e, set_context idx c' m)
          | suspended ↦ (suspended, set_context idx c' m)
        ]
  ]

  -- the JWT of a context that waits for its output, if the response that brings it has come
  unfoldable pub waiting_jwt : Context f I → Option String
  waiting_jwt c = elim c.state [ waiting_for_output ↦ c.input_jwt | _ ↦ none ]

  unfoldable pub idxs_waiting : Dict (Context f I) → List (ℕ × String)
  idxs_waiting [] = []
  idxs_waiting ((idx, c) ∷ d) = elim (waiting_jwt c) [
    | none ↦ idxs_waiting d
    | some jwt ↦ (idx, jwt) ∷ idxs_waiting d
  ]

  unfoldable pub get_input_idxs_waiting_for_output : MapItemsManager → List (ℕ × String)
  unfolding idxs_waiting waiting_jwt
  get_input_idxs_waiting_for_output m = idxs_waiting m.item_context

  unfoldable pub get_input_jwts_waiting_for_output : MapItemsManager → List String
  unfolding get_input_idxs_waiting_for_output
  get_input_jwts_waiting_for_output m = map (λ w. w.1) (get_input_idxs_waiting_for_output m)

  -- `_remove_item`: `del`, then `release`
  unfoldable pub remove_item : ℕ → MapItemsManager → Option MapError × MapItemsManager
  remove_item idx m = elim (lookup idx m.item_context) [
    | none ↦ (some key_error, m)
    | some _ ↦
        let s = m.inputs_outstanding in
        let m' : MapItemsManager = record m { item_context = erase idx m.item_context } in
        if ltb s.value s.bound
        then (none, record m' { inputs_outstanding = record s { value = s.value + 1 } })
        else (some too_many_releases, m')
  ]
