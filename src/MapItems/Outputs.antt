-- ===== src/MapItems/Outputs.antt =====
-- The loop of `get_all_outputs` of modal/parallel_map.py over one response of the server: its counters,
-- and the outputs that it yields. A handler that raises or must wait ends it.
use modal_client.Prelude.{ℕ, ◌+◌, List, [], ◌∷◌, if◌then◌else◌}
use modal_client.Float.{Floats}
use modal_client.MapItems.Data.{
  Outcome, done, OutputType, successful_completion, failed_completion, retried,
  already_complete_duplicate, stale_retry_duplicate, no_context_duplicate, OutputItem,
}
use modal_client.MapItems.Responses.{Manager, is_completion, handle_get_outputs_response}

pub record Counts : Type 0 where
  pub outputs_received : ℕ
  pub outputs_completed : ℕ
  pub successful_completions : ℕ
  pub failed_completions : ℕ
  pub no_context_duplicates : ℕ
  pub stale_retry_duplicates : ℕ
  pub already_complete_duplicates : ℕ
  pub retried_outputs : ℕ

abbrev pub count : OutputType → Counts → Counts
count successful_completion n = record n {
  successful_completions = n.successful_completions + 1;
  outputs_completed = n.outputs_completed + 1;
}
count failed_completion n = record n {
  failed_completions = n.failed_completions + 1;
  outputs_completed = n.outputs_completed + 1;
}
count no_context_duplicate n = record n { no_context_duplicates = n.no_context_duplicates + 1 }
count stale_retry_duplicate n = record n { stale_retry_duplicates = n.stale_retry_duplicates + 1 }
count already_complete_duplicate n = record n {
  already_complete_duplicates = n.already_complete_duplicates + 1;
}
count retried n = record n { retried_outputs = n.retried_outputs + 1 }

abbrev pub counted : Outcome OutputType → Counts → Counts
counted (done t) n = count t (record n { outputs_received = n.outputs_received + 1 })
counted _ n = record n { outputs_received = n.outputs_received + 1 }

module _ (f : Floats) (I : Type 0) where
  pub record Received : Type 0 where
    pub yields : List OutputItem
    pub counts : Counts
    pub manager : Manager f I

  abbrev pub after_output :
      OutputItem → Outcome OutputType → Counts → Manager f I → Received → Received
  after_output item (done t) n m rest = record rest {
    yields = if is_completion (done t) then item ∷ rest.yields else rest.yields;
  }
  after_output item _ n m rest = record { yields = []; counts = n; manager = m }

  unfoldable pub receive_outputs : List OutputItem → ℕ → Manager f I → Counts → Received
  receive_outputs [] now_seconds m n = record { yields = []; counts = n; manager = m }
  receive_outputs (item ∷ items) now_seconds m n =
      let (r, m') = handle_get_outputs_response f I item now_seconds m in
      let rest = receive_outputs items now_seconds m' (counted r n) in
      after_output item r (counted r n) m' rest
