-- ===== src/MapItems/Yields.antt =====
-- What `get_all_outputs` of modal/parallel_map.py yields for a response of the server.
use modal_client.Prelude.{
  ℕ, suc, ◌+◌, ◌≤◌, ◌≡◌, ◌==◌, ◌&&◌, Bool-cases, inl, inr, String, Option, none, List, [], ◌∷◌,
  length, arith, if◌then◌else◌,
}
use modal_client.Float.{Floats}
use modal_client.MapItems.Data.{
  Outcome, done, raised, suspended, OutputType, OutputItem, successful_completion,
  failed_completion, retried, already_complete_duplicate, stale_retry_duplicate,
  no_context_duplicate,
}
use modal_client.MapItems.Responses.{Manager, is_completion, handle_get_outputs_response}
use modal_client.MapItems.Outputs.{Counts, counted, Received, after_output, receive_outputs}
use modal_client.MapItems.Capacity.{IsValid}
use modal_client.MapItems.Steps.{Event, step, get_output}
use modal_client.MapItems.Completion.{completions, FitsWithout}
use modal_client.MapItems.Once.{completes_at_most_once, in_progress}

-- how many of the outputs are of the input with index i
abbrev pub occurrences : ℕ → List OutputItem → ℕ
occurrences i [] = 0
occurrences i (item ∷ items) =
    let rest = occurrences i items in if item.idx == i then suc rest else rest

module _ (f : Floats) (I : Type 0) where
  abbrev got : ℕ → List OutputItem → List (Event f I)
  got now_seconds [] = []
  got now_seconds (item ∷ items) = get_output item now_seconds ∷ got now_seconds items

  got_fits :
      (decode : String → Option ℕ) (i now_seconds : ℕ) (items : List OutputItem) (m : Manager f I)
      → FitsWithout f I decode i (got now_seconds items) m
  got_fits decode i now_seconds [] m = tt
  got_fits decode i now_seconds (item ∷ items) m = (tt, tt, got_fits decode i now_seconds items _)

  occurs_if_completed :
      (i : ℕ) (item : OutputItem) (r : Outcome OutputType) (n : Counts) (m : Manager f I)
      (rest : Received f I) (k : ℕ)
      → occurrences i rest.yields ≤ k
      → occurrences i (after_output f I item r n m rest).yields
        ≤ (if (item.idx == i) && is_completion r then suc k else k)
  occurs_if_completed i item (done t) n m rest k h = elim (Bool-cases (is_completion (done t))) [
    | inr open_ ↦ rw open_ (ground (arith, h))
    | inl over ↦ elim (Bool-cases (item.idx == i)) [
      | inl same ↦ rw (over, same) (omega (arith, h))
      | inr other ↦ rw (over, other) h
    ]
  ]
  occurs_if_completed i item (raised e) n m rest k h = omega arith
  occurs_if_completed i item suspended n m rest k h = omega arith

  occurrences-completions :
      (decode : String → Option ℕ) (i now_seconds : ℕ) (items : List OutputItem) (m : Manager f I)
      (n : Counts)
      → occurrences i (receive_outputs f I items now_seconds m n).yields
        ≤ completions f I decode i (got now_seconds items) m
  unfolding receive_outputs completions step
  occurrences-completions decode i now_seconds [] m n = omega arith
  occurrences-completions decode i now_seconds (item ∷ items) m n =
      let (r, m') = handle_get_outputs_response f I item now_seconds m in
      occurs_if_completed i item r (counted r n) m'
        (receive_outputs f I items now_seconds m' (counted r n)) _
        (occurrences-completions decode i now_seconds items m' (counted r n))

  -- From a valid state, whatever outputs a response holds, duplicates and outputs of unknown inputs
  -- included, an input's output is yielded at most once, and only if the input was in progress.
  pub yields_at_most_once :
      (i now_seconds : ℕ) (items : List OutputItem) (m : Manager f I) (n : Counts)
      → IsValid f I m
      → occurrences i (receive_outputs f I items now_seconds m n).yields ≤ in_progress f I i m
  yields_at_most_once i now_seconds items m n v = omega (
    arith,
    occurrences-completions (λ _. none) i now_seconds items m n,
    completes_at_most_once f I (λ _. none) i (got now_seconds items) m v
        (got_fits (λ _. none) i now_seconds items m),
  )

  abbrev IsSummed : Counts → Type 0
  IsSummed n = n.outputs_completed ≡ n.successful_completions + n.failed_completions

  counted-IsSummed : (r : Outcome OutputType) (n : Counts) → IsSummed n → IsSummed (counted r n)
  counted-IsSummed (done successful_completion) n h = omega (arith, h)
  counted-IsSummed (done failed_completion) n h = omega (arith, h)
  counted-IsSummed (done retried) n h = h
  counted-IsSummed (done already_complete_duplicate) n h = h
  counted-IsSummed (done stale_retry_duplicate) n h = h
  counted-IsSummed (done no_context_duplicate) n h = h
  counted-IsSummed (raised e) n h = h
  counted-IsSummed suspended n h = h

  -- the counters agree with what is yielded, from the counters n on
  abbrev Agrees : Counts → Received f I → Type 0
  Agrees n r =
      (r.counts.outputs_completed ≡ n.outputs_completed + length r.yields) × IsSummed r.counts

  after_output-Agrees :
      (item : OutputItem) (r : Outcome OutputType) (n : Counts) (m : Manager f I)
      (rest : Received f I)
      → IsSummed n
      → Agrees (counted r n) rest
      → Agrees n (after_output f I item r (counted r n) m rest)
  after_output-Agrees item (done successful_completion) n m rest s (grown, summed) =
      (omega (arith, grown), summed)
  after_output-Agrees item (done failed_completion) n m rest s (grown, summed) =
      (omega (arith, grown), summed)
  after_output-Agrees item (done retried) n m rest s h = h
  after_output-Agrees item (done already_complete_duplicate) n m rest s h = h
  after_output-Agrees item (done stale_retry_duplicate) n m rest s h = h
  after_output-Agrees item (done no_context_duplicate) n m rest s h = h
  after_output-Agrees item (raised e) n m rest s h = (omega arith, s)
  after_output-Agrees item suspended n m rest s h = (omega arith, s)

  -- The counter of completed outputs grows by the outputs that are yielded, and stays the sum of the
  -- counters of successes and failures.
  yields_counted :
      (now_seconds : ℕ) (items : List OutputItem) (m : Manager f I) (n : Counts)
      → n.outputs_completed ≡ n.successful_completions + n.failed_completions
      → let r = receive_outputs f I items now_seconds m n in
        (r.counts.outputs_completed ≡ n.outputs_completed + length r.yields)
        × (r.counts.outputs_completed
            ≡ r.counts.successful_completions + r.counts.failed_completions)
  unfolding receive_outputs
  yields_counted now_seconds [] m n h = (omega arith, h)
  yields_counted now_seconds (item ∷ items) m n h =
      let (r, m') = handle_get_outputs_response f I item now_seconds m in
      after_output-Agrees item r n m' (receive_outputs f I items now_seconds m' (counted r n)) h
        (yields_counted now_seconds items m' (counted r n) (counted-IsSummed r n h))
