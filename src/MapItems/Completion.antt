-- ===== src/MapItems/Completion.antt =====
-- An input of a map call completes once: modal/parallel_map.py drops its context, and what comes
-- later for its index is a duplicate.
use modal_client.Prelude.{
  ℕ, suc, ◌≡◌, ◌≢◌, String, refl, true, false, Bool, Bool-cases, Option-cases, inl, inr, Option,
  none, some, List, [], ◌∷◌, All, arith, ltb, ◌==◌, ==→eq, ◌&&◌, if◌then◌else◌, ap, ◌∙◌,
}
use modal_client.Prelude.Dict.{
  lookup, insert, erase, lookup-insert, lookup-erase_ne, lookup-erase_self,
}
use text.Mathlib.Text.{◌==◌ as str_eq}
use modal_client.Float.{Floats}
use modal_client.MapItems.Data.{Outcome, OutputType, MapError, PutInputsItem, StartOrContinueItem}
use modal_client.MapItems.Context.{Context}
use modal_client.MapItems.Manager.{set_context, add_items, add_items_inputplane, remove_item}
use modal_client.MapItems.Responses.{
  Manager, is_completion, handle_get_outputs_response, settle, after_removal,
}
use modal_client.MapItems.Capacity.{IsValid, input_idxs, fresh_idxs}
use modal_client.MapItems.Invariant.{Stable}
use modal_client.MapItems.Steps.{Event, step, step_keeps, Fits, add, add_inputplane, get_output}

module _ (f : Floats) (I : Type 0) where
  abbrev pub Absent : ℕ → Manager f I → Type 0
  Absent i m = lookup i m.item_context ≡ none

  -- whether a step completes the input with index i
  abbrev pub completed : ℕ → Event f I → Manager f I → Bool
  completed i (get_output item now_seconds) m =
      (item.idx == i) && is_completion (handle_get_outputs_response f I item now_seconds m).0
  completed i _ m = false

  -- how often a run completes it
  unfoldable pub completions : (String → Option ℕ) → ℕ → List (Event f I) → Manager f I → ℕ
  completions decode i [] m = 0
  completions decode i (e ∷ es) m =
      let rest = completions decode i es (step f I decode e m) in
      if completed i e m then suc rest else rest

  abbrev pub AddsNot : ℕ → Event f I → Type 0
  AddsNot i (add items) = All (λ j. j ≢ i) (input_idxs f I items)
  AddsNot i (add_inputplane items) = All (λ j. j ≢ i) (fresh_idxs f I items)
  AddsNot i _ = Unit

  -- each step of a run fits the state that it meets, and none adds the index i
  abbrev pub FitsWithout : (String → Option ℕ) → ℕ → List (Event f I) → Manager f I → Type 0
  FitsWithout decode i [] m = Unit
  FitsWithout decode i (e ∷ es) m =
      Fits f I e m × AddsNot i e × FitsWithout decode i es (step f I decode e m)

  Absent-set_context :
      (i idx : ℕ) (c c' : Context f I) (m : Manager f I)
      → lookup idx m.item_context ≡ some c
      → Absent i m
      → Absent i (set_context f I idx c' m)
  Absent-set_context i idx c c' m here gone = elim (Bool-cases (i == idx)) [
    | inl same ↦ cc (ap (λ j. lookup j m.item_context) (==→eq i idx same))
    | inr other ↦ rw lookup-insert (rw other gone)
  ]

  Absent-remove_item :
      (i idx : ℕ) (m : Manager f I) → Absent i m → Absent i (remove_item f I idx m).1
  unfolding remove_item
  Absent-remove_item i idx m gone = elim (Option-cases (lookup idx m.item_context)) [
    | inl missing ↦ rw (missing, remove_item) gone
    | inr (c, here) ↦
        let kept : lookup i (erase idx m.item_context) ≡ none =
          lookup-erase_ne i idx m.item_context (λ same. cc (ap (λ j. lookup j m.item_context) same))
          ∙ gone in
        elim (Bool-cases (ltb m.inputs_outstanding.value m.inputs_outstanding.bound)) [
          | inl room ↦ rw (here, room, remove_item) kept
          | inr full ↦ rw (here, full, remove_item) kept
        ]
  ]

  Absent-Stable : (i : ℕ) → Stable f I (Absent i)
  Absent-Stable i = record {
    at_present = Absent-set_context i;
    queued = λ q m gone. gone;
    removed = Absent-remove_item i;
  }

  Absent-insert_new :
      (i idx : ℕ) (c : Context f I) (m : Manager f I)
      → idx ≢ i
      → Absent i m
      → lookup i (insert idx c m.item_context) ≡ none
  Absent-insert_new i idx c m other gone = ground (arith, lookup-insert i idx c m.item_context)

  Absent-add_items :
      (i : ℕ) (items : List (PutInputsItem I)) (m : Manager f I)
      → All (λ j. j ≢ i) (input_idxs f I items)
      → Absent i m
      → Absent i (add_items f I items m).1
  unfolding add_items
  Absent-add_items i [] m others gone = gone
  Absent-add_items i (item ∷ items) m others gone =
      elim (Bool-cases (ltb 0 m.inputs_outstanding.value)) [
        | inr full ↦ rw (full, add_items) gone
        | inl free ↦
            rw (free, add_items)
              (Absent-add_items i items _ others.1 (Absent-insert_new i item.idx _ m others.0 gone))
      ]

  Absent-add_items_inputplane :
      (i : ℕ) (items : List (StartOrContinueItem I)) (m : Manager f I)
      → All (λ j. j ≢ i) (fresh_idxs f I items)
      → Absent i m
      → Absent i (add_items_inputplane f I items m).1
  unfolding add_items_inputplane
  Absent-add_items_inputplane i [] m others gone = gone
  Absent-add_items_inputplane i (item ∷ items) m others gone =
      elim (Bool-cases (str_eq item.attempt_token "")) [
        | inr again ↦ elim (Option-cases (lookup item.put_item.idx m.item_context)) [
          | inl missing ↦ rw (again, missing, add_items_inputplane) gone
          | inr (c, here) ↦
              rw (again, here, add_items_inputplane)
                (Absent-add_items_inputplane i items _ (rw again at others)
                  (Absent-set_context i item.put_item.idx c _ m here gone))
        ]
        | inl first ↦
            let others' : All (λ j. j ≢ i) (item.put_item.idx ∷ fresh_idxs f I items) =
              rw first at others in
            elim (Bool-cases (ltb 0 m.inputs_outstanding.value)) [
              | inr full ↦ rw (first, full, add_items_inputplane) gone
              | inl free ↦
                  rw (first, free, add_items_inputplane)
                    (Absent-add_items_inputplane i items _ others'.1
                      (Absent-insert_new i item.put_item.idx _ m others'.0 gone))
            ]
      ]

  pub Absent-step :
      (decode : String → Option ℕ) (i : ℕ) (e : Event f I) (m : Manager f I)
      → AddsNot i e
      → Absent i m
      → Absent i (step f I decode e m)
  unfolding step
  Absent-step decode i (add items) m others gone = Absent-add_items i items m others gone
  Absent-step decode i (add_inputplane items) m others gone =
      Absent-add_items_inputplane i items m others gone
  Absent-step decode i e m others gone = step_keeps f I (Absent-Stable i) decode e m tt gone

  Absent-removed :
      (idx : ℕ) (m : Manager f I) → IsValid f I m → Absent idx (remove_item f I idx m).1
  unfolding remove_item
  Absent-removed idx m v = elim (Option-cases (lookup idx m.item_context)) [
    | inl missing ↦ rw (missing, remove_item) missing
    | inr (c, here) ↦
        elim (Bool-cases (ltb m.inputs_outstanding.value m.inputs_outstanding.bound)) [
          | inl room ↦ rw (here, room, remove_item) (lookup-erase_self idx m.item_context v.keys)
          | inr full ↦ rw (here, full, remove_item) (lookup-erase_self idx m.item_context v.keys)
        ]
  ]

  after_removal_context :
      (r : Outcome OutputType) (p : Option MapError × Manager f I) → (after_removal f I r p).1 ≡ p.1
  after_removal_context r (none, m) = refl
  after_removal_context r (some e, m) = refl

  pub settle-Absent :
      (idx : ℕ) (r : Outcome OutputType) (m : Manager f I)
      → IsValid f I m
      → is_completion (settle f I idx r m).0 ≡ true
      → Absent idx (settle f I idx r m).1
  settle-Absent idx r m v h = elim (Bool-cases (is_completion r)) [
    | inr going ↦ cc going
    | inl over ↦ rw (over, after_removal_context) (Absent-removed idx m v)
  ]
