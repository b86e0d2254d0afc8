-- ===== src/MapItems/Once.antt =====
-- The outputs of a map call over a whole run of modal/parallel_map.py: how often an input completes.
use modal_client.Prelude.{
  ℕ, ◌≤◌, ◌≡◌, String, refl, true, false, Bool-cases, Option-cases, inl, inr, Option, none, some,
  List, [], ◌∷◌, arith, ==→eq, ◌==◌, subst, sym,
}
use modal_client.Prelude.Dict.{lookup}
use modal_client.Float.{Floats}
use modal_client.MapItems.Data.{Outcome, done, OutputType, OutputItem, no_context_duplicate}
use modal_client.MapItems.Context
use modal_client.MapItems.Context.{Context, Retries}
use modal_client.MapItems.Manager.{set_context}
use modal_client.MapItems.Responses.{Manager, is_completion, handle_get_outputs_response, settle}
use modal_client.MapItems.Capacity.{IsValid, set_context-IsValid}
use modal_client.MapItems.Steps.{Event, step, step-IsValid, get_output}
use modal_client.MapItems.Completion.{
  Absent, Absent-step, settle-Absent, completed, completions, FitsWithout,
}

module _ (f : Floats) (I : Type 0) where
  -- an output for an index that is not there changes nothing
  Absent-output :
      (item : OutputItem) (now_seconds : ℕ) (m : Manager f I)
      → Absent f I item.idx m
      → handle_get_outputs_response f I item now_seconds m ≡ (done no_context_duplicate, m)
  unfolding handle_get_outputs_response
  Absent-output item now_seconds m gone = rw (gone, handle_get_outputs_response)

  completion-Absent :
      (item : OutputItem) (now_seconds : ℕ) (m : Manager f I)
      → IsValid f I m
      → is_completion (handle_get_outputs_response f I item now_seconds m).0 ≡ true
      → Absent f I item.idx (handle_get_outputs_response f I item now_seconds m).1
  unfolding handle_get_outputs_response
  completion-Absent item now_seconds m v = elim (Option-cases (lookup item.idx m.item_context)) [
    | inl gone ↦ rw (gone, handle_get_outputs_response) (λ h. gone)
    | inr (c, here) ↦
        rw (here, handle_get_outputs_response)
          (after
            (Context.handle_get_outputs_response f I item now_seconds
              m.function_call_invocation_type c m.retry_queue)
            c here)
  ]
    where
      after :
          (result : Outcome OutputType × Context f I × Retries f I) (c : Context f I)
          → lookup item.idx m.item_context ≡ some c
          → let s =
              settle f I item.idx result.0
                (record (set_context f I item.idx result.1 m) { retry_queue = result.2 }) in
            is_completion s.0 ≡ true → Absent f I item.idx s.1
      after (r, c', q) c here =
          settle-Absent f I item.idx r (record (set_context f I item.idx c' m) { retry_queue = q })
            (let w = set_context-IsValid f I item.idx c c' m here v in
              record { keys = w.keys; slots = w.slots })

  completed-Absent :
      (decode : String → Option ℕ) (i : ℕ) (e : Event f I) (m : Manager f I)
      → IsValid f I m
      → completed f I i e m ≡ true
      → Absent f I i (step f I decode e m)
  unfolding step
  completed-Absent decode i (get_output item now_seconds) m v h =
      let same : item.idx ≡ i = ==→eq item.idx i (ground (arith, h)) in
      subst (λ j. Absent f I j (handle_get_outputs_response f I item now_seconds m).1) same
        (completion-Absent item now_seconds m v (ground (arith, h)))
  completed-Absent decode i _ m v h = cc

  Absent-completed :
      (i : ℕ) (e : Event f I) (m : Manager f I) → Absent f I i m → completed f I i e m ≡ false
  Absent-completed i (get_output item now_seconds) m gone = elim (Bool-cases (item.idx == i)) [
    | inr other ↦ rw other
    | inl same ↦
        let here : Absent f I item.idx m =
          subst (λ j. Absent f I j m) (sym (==→eq item.idx i same)) gone in
        rw (same, Absent-output item now_seconds m here)
  ]
  Absent-completed i _ m gone = refl

  Absent-completions :
      (decode : String → Option ℕ) (i : ℕ) (es : List (Event f I)) (m : Manager f I)
      → FitsWithout f I decode i es m
      → Absent f I i m
      → completions f I decode i es m ≡ 0
  unfolding completions
  Absent-completions decode i [] m fits gone = refl
  Absent-completions decode i (e ∷ es) m fits gone =
      rw (Absent-completed i e m gone)
        (Absent-completions decode i es _ fits.2 (Absent-step f I decode i e m fits.1 gone))

  -- how often an input may still complete
  abbrev pub in_progress : ℕ → Manager f I → ℕ
  in_progress i m = elim (lookup i m.item_context) [ none ↦ 0 | some _ ↦ 1 ]

  at_most_one :
      (decode : String → Option ℕ) (i : ℕ) (es : List (Event f I)) (m : Manager f I)
      → IsValid f I m
      → FitsWithout f I decode i es m
      → completions f I decode i es m ≤ 1
  unfolding completions
  at_most_one decode i [] m v fits = omega arith
  at_most_one decode i (e ∷ es) m v fits = elim (Bool-cases (completed f I i e m)) [
    | inr going ↦ rw going (at_most_one decode i es _ (step-IsValid f I decode e m fits.0 v) fits.2)
    | inl over ↦ rw over (
        rw (Absent-completions decode i es _ fits.2 (completed-Absent decode i e m v over))
          (omega arith))
  ]

  -- From a valid state, over any run of calls that adds inputs only with unused indices and does
  -- not add the index i, the input with index i completes at most once, and not at all if it is
  -- not in progress at the start.
  pub completes_at_most_once :
      (decode : String → Option ℕ) (i : ℕ) (es : List (Event f I)) (m : Manager f I)
      → IsValid f I m
      → FitsWithout f I decode i es m
      → completions f I decode i es m ≤ in_progress i m
  completes_at_most_once decode i es m v fits = elim (Option-cases (lookup i m.item_context)) [
    | inl gone ↦ rw (gone, in_progress, Absent-completions decode i es m fits gone) (omega arith)
    | inr (c, here) ↦ rw (here, in_progress) (at_most_one decode i es m v fits)
  ]
