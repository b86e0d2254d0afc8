-- ===== src/Batches.antt =====
-- `queue_batch_iterator` of modal/_utils/async_utils.py: a queue read in batches.
pub mod Laws
mod Examples
use modal_client.Prelude.{
  ℕ, Bool, true, false, ◌&&◌, ltb, leb, length, Option, none, some, List, [], ◌∷◌, ◌++◌,
  if◌then◌else◌,
}

-- One round of the loop: what `q.empty()` says and what `q.get()` returns.
pub record Read (A : Type 0) : Type 0 where
  pub empty : Bool
  pub result : Option A

module _ {A : Type 0} where
  abbrev pub yield_if : Bool → List A → List (List A) → List (List A)
  yield_if true item_list batches = item_list ∷ batches
  yield_if false item_list batches = batches

  abbrev pub kept : Bool → List A → List A
  kept true item_list = []
  kept false item_list = item_list

  -- the end of a round: None ends the loop, an item goes on with it
  abbrev pub on_result : Option A → List A → (A → List (List A)) → List (List A)
  on_result none item_list again = yield_if (ltb 0 (length item_list)) item_list []
  on_result (some x) item_list again = again x

  -- The batches that the loop yields, from `item_list` on; None ends the queue. Where the reads run
  -- out the loop still waits, and what it holds has not been yielded.
  unfoldable pub batches_from : ℕ → List A → List (Read A) → List (List A)
  batches_from max_batch_size item_list [] = []
  batches_from max_batch_size item_list (r ∷ reads) =
      let idle = r.empty && ltb 0 (length item_list) in
      let after_idle = kept idle item_list in
      let full = leb max_batch_size (length after_idle) in
      let now = kept full after_idle in
      yield_if idle item_list (
        yield_if full after_idle
          (on_result r.result now (λ x. batches_from max_batch_size (now ++ x ∷ []) reads)))

  unfoldable pub queue_batch_iterator : ℕ → List (Read A) → List (List A)
  unfolding batches_from
  queue_batch_iterator max_batch_size reads = batches_from max_batch_size [] reads
