-- ===== src/MapItems/Steps.antt =====
-- A map call as a sequence of steps on its `_MapItemsManager` (modal/parallel_map.py): the calls that
-- the pump, the retry loop, the check for lost inputs and the output loop make, in any order, and
-- the rests of the calls that were suspended at an `await`.
use modal_client.Prelude.{ℕ, String, Option-cases, inl, inr, Option, none, some, List}
use modal_client.Prelude.Dict.{lookup}
use modal_client.Float.{Floats}
use modal_client.MapItems.Data.{
  done, OutputItem, PutInputsResponseItem, PutInputsItem, StartOrContinueItem,
}
use modal_client.MapItems.Context.{Context, finish_retry, finish_prepare}
use modal_client.MapItems.Manager.{add_items, add_items_inputplane, prepare_items_for_retry}
use modal_client.MapItems.Responses.{
  CheckedInput, Manager, handle_put_continue_response, handle_put_inputs_response,
  handle_retry_response, handle_check_inputs_response, handle_get_outputs_response, at_context,
  retry_lost,
}
use modal_client.MapItems.Capacity.{
  IsValid, AreNew, input_idxs, fresh_idxs, set_context-IsValid, remove_item-IsValid,
  add_items-IsValid, add_items_inputplane-IsValid,
}
use modal_client.MapItems.Invariant.{
  Stable, put_continue_keeps, at_context_keeps, put_inputs_keeps, retry_keeps, lose_keeps,
  check_inputs_keeps, get_outputs_keeps, prepare_keeps,
}

module _ (f : Floats) (I : Type 0) where
  open f use {R}

  pub data Event : Type 0 where
    add : List (PutInputsItem I) → Event
    add_inputplane : List (StartOrContinueItem I) → Event
    put_continue : List (ℕ × String) → Event
    put_inputs : List PutInputsResponseItem → Event
    prepare : List ℕ → Event
    retried_inputs : List String → Event
    check_inputs : List (CheckedInput R) → Event
    get_output : OutputItem → ℕ → Event
    resume_prepare : ℕ → String → Event
    resume_output : R → ℕ → String → Context f I → Event
    resume_lost : CheckedInput R → String → Event

  -- the manager after a step, `decode` finding the index in a JWT
  unfoldable pub step : (String → Option ℕ) → Event → Manager f I → Manager f I
  step decode (add items) m = (add_items f I items m).1
  step decode (add_inputplane items) m = (add_items_inputplane f I items m).1
  step decode (put_continue items) m = handle_put_continue_response f I items m
  step decode (put_inputs items) m = (handle_put_inputs_response f I items m).1
  step decode (prepare idxs) m = (prepare_items_for_retry f I idxs m).1
  step decode (retried_inputs jwts) m = (handle_retry_response f I decode jwts m).1
  step decode (check_inputs response) m = (handle_check_inputs_response f I response m).1
  step decode (get_output item now_seconds) m =
      (handle_get_outputs_response f I item now_seconds m).1
  step decode (resume_prepare idx jwt) m =
      (at_context f I idx (λ c. (done tt, (finish_prepare f I jwt c).1)) m).1
  step decode (resume_output timestamp idx token c) m = record m {
    retry_queue = finish_retry f I timestamp idx token c m.retry_queue;
  }
  step decode (resume_lost checked token) m = elim (lookup checked.idx m.item_context) [
    | none ↦ m
    | some c ↦ (retry_lost f I checked token c m).1
  ]

  -- New inputs come with indices that are not in use: the client counts them up.
  abbrev pub Fits : Event → Manager f I → Type 0
  Fits (add items) m = AreNew (input_idxs f I items) m.item_context
  Fits (add_inputplane items) m = AreNew (fresh_idxs f I items) m.item_context
  Fits _ m = Unit

  -- the steps that add no input
  abbrev pub AddsNone : Event → Type 0
  AddsNone (add items) = ⊥
  AddsNone (add_inputplane items) = ⊥
  AddsNone _ = Unit

  module _ {P : Manager f I → Type 0} (stable : Stable f I P) where
    resume_lost_keeps :
        (checked : CheckedInput R) (token : String) (decode : String → Option ℕ) (m : Manager f I)
        → P m
        → P (step decode (resume_lost checked token) m)
    unfolding step
    resume_lost_keeps checked token decode m v =
        elim (Option-cases (lookup checked.idx m.item_context)) [
          | inl gone ↦ rw (gone, step) v
          | inr (c, here) ↦
              rw (here, step) (lose_keeps f I stable (some token) checked c c m here v)
        ]

    -- Every step that adds no input keeps what the rule keeps.
    pub step_keeps :
        (decode : String → Option ℕ) (e : Event) (m : Manager f I)
        → AddsNone e
        → P m
        → P (step decode e m)
    unfolding step
    step_keeps decode (add items) m none_added v = absurd none_added
    step_keeps decode (add_inputplane items) m none_added v = absurd none_added
    step_keeps decode (put_continue items) m _ v = put_continue_keeps f I stable items m v
    step_keeps decode (put_inputs items) m _ v = put_inputs_keeps f I stable items m v
    step_keeps decode (prepare idxs) m _ v = prepare_keeps f I stable idxs m v
    step_keeps decode (retried_inputs jwts) m _ v = retry_keeps f I stable decode jwts m v
    step_keeps decode (check_inputs response) m _ v = check_inputs_keeps f I stable response m v
    step_keeps decode (get_output item now_seconds) m _ v =
        get_outputs_keeps f I stable item now_seconds m v
    step_keeps decode (resume_prepare idx jwt) m _ v = at_context_keeps f I stable idx _ m v
    step_keeps decode (resume_output timestamp idx token c) m _ v = stable.queued _ m v
    step_keeps decode (resume_lost checked token) m _ v = resume_lost_keeps checked token decode m v

  IsValid-Stable : Stable f I (IsValid f I)
  IsValid-Stable = record {
    at_present = set_context-IsValid f I;
    queued = λ q m v. record { keys = v.keys; slots = v.slots };
    removed = remove_item-IsValid f I;
  }

  -- If new inputs come with unused indices, every step keeps each slot of the semaphore either free
  -- or held by exactly one input in progress, with no index listed twice.
  pub step-IsValid :
      (decode : String → Option ℕ) (e : Event) (m : Manager f I)
      → Fits e m
      → IsValid f I m
      → IsValid f I (step decode e m)
  unfolding step
  step-IsValid decode (add items) m fits v = add_items-IsValid f I items m fits v
  step-IsValid decode (add_inputplane items) m fits v =
      add_items_inputplane-IsValid f I items m fits v
  step-IsValid decode e m fits v = step_keeps IsValid-Stable decode e m tt v
