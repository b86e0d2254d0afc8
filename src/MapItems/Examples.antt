-- ===== src/MapItems/Examples.antt =====
-- Runs of the map items of modal/parallel_map.py, with texts for inputs and the naturals for floats.
use modal_client.Prelude.{
  ℕ, String, ◌≡◌, ◌≤◌, refl, true, false, Option, none, List, [], ◌∷◌, arith,
}
use modal_client.Float.{extended, finite}
use modal_client.Retry.Policy.{FunctionRetryPolicy}
use modal_client.Retry.Delays.{allowed-HasDelays}
use modal_client.Retry.Manager.{new_manager, get_delay_ms, retry_delay_ms}
use modal_client.RetryQueue.{empty_queue, put, enqueue, precedes}
use modal_client.MapItems.Data.{
  GenericStatus, sync_call, success, failure, OutputItem, PutInputsItem, new_context, done, retried,
}
use modal_client.MapItems.Context
use modal_client.MapItems.Context.{Context, Retries}
use modal_client.MapItems.Manager.{MapItemsManager, remove_item}
use modal_client.MapItems.Responses.{handle_get_outputs_response}
use modal_client.MapItems.Capacity.{IsValid}
use modal_client.MapItems.Steps.{Event, step, step-IsValid, add, get_output}
use modal_client.MapItems.Completion.{completions}
use modal_client.MapItems.Admits.{Admits}
use modal_client.MapItems.Attempts.{Explains, handle_get_outputs_response_explained}
use modal_client.MapItems.Outputs.{Counts, receive_outputs}
use modal_client.MapItems.Yields.{occurrences, yields_at_most_once}
use modal_client.MapItems.Once.{in_progress, completes_at_most_once}

abbrev policy : FunctionRetryPolicy extended.R
policy = record {
  retries = 2;
  backoff_coefficient = finite 2;
  initial_delay_ms = 2000;
  max_delay_ms = 60_000;
}

abbrev start : MapItemsManager extended String
start = record {
  retry_policy = policy;
  function_call_invocation_type = sync_call;
  retry_queue = empty_queue extended _;
  inputs_outstanding = record { value = 2; bound = 2 };
  item_context = [];
  sync_client_retries_enabled = true;
  is_input_plane_instance = false;
}

abbrev decode_none : String → Option ℕ
decode_none _ = none

abbrev output : ℕ → ℕ → GenericStatus → OutputItem
output idx count status = record {
  idx = idx;
  input_id = "in";
  status = status;
  retry_count = count;
}

abbrev item : ℕ → PutInputsItem String
item idx = record { idx = idx; input = "x" }

abbrev calls : List (Event extended String)
calls =
    get_output (output 1 0 failure) 5
    ∷ get_output (output 1 0 failure) 5
    ∷ get_output (output 1 1 success) 9
    ∷ get_output (output 1 1 success) 9
    ∷ []

abbrev begun : MapItemsManager extended String
begun = record start {
  inputs_outstanding = record { value = 0; bound = 2 };
  item_context =
      (1, new_context extended String "x" (new_manager extended policy) true false)
      ∷ (2, new_context extended String "y" (new_manager extended policy) true false)
      ∷ [];
}

begun-IsValid : IsValid extended String begun
begun-IsValid = record { keys = (refl, (refl, tt)); slots = refl }

start-IsValid : IsValid extended String start
start-IsValid = record { keys = tt; slots = refl }

-- a failure, its duplicate, the success of the retry and its duplicate: one completion
completions-calls : completions extended String decode_none 1 calls begun ≡ 1
unfolding completions step handle_get_outputs_response Context.handle_get_outputs_response
    get_delay_ms retry_delay_ms put enqueue precedes remove_item
completions-calls = refl

completes_at_most_once_example : completions extended String decode_none 1 calls begun ≤ 1
completes_at_most_once_example =
    completes_at_most_once extended String decode_none 1 calls begun begun-IsValid
      (tt, tt, (tt, tt, (tt, tt, (tt, tt, tt))))

step-IsValid_example :
    IsValid extended String
      (step extended String decode_none (add (item 3 ∷ item 4 ∷ item 5 ∷ [])) start)
step-IsValid_example =
    step-IsValid extended String decode_none (add (item 3 ∷ item 4 ∷ item 5 ∷ [])) start
      (refl, (omega arith, (omega arith, tt)), (refl, (omega arith, tt), (refl, tt, tt)))
      start-IsValid

abbrev context : Context extended String
context = new_context extended String "x" (new_manager extended policy) true false

abbrev queue : Retries extended String
queue = empty_queue extended _

handle_get_outputs_response_explained_example :
    let r =
      Context.handle_get_outputs_response extended String
        (output 1 0 failure)
        5
        sync_call
        context
        queue in
    Admits extended String (output 1 0 failure) context r.0
    × Explains extended String (output 1 0 failure) 5 sync_call context queue r
handle_get_outputs_response_explained_example =
    handle_get_outputs_response_explained extended String (output 1 0 failure) 5 sync_call context
      queue (allowed-HasDelays extended policy (omega arith) refl refl)

retry_of_failure :
    (Context.handle_get_outputs_response extended String
      (output 1 0 failure)
      5
      sync_call
      context
      queue).0
    ≡ done retried
unfolding Context.handle_get_outputs_response get_delay_ms retry_delay_ms
retry_of_failure = refl

abbrev response : List OutputItem
response = output 1 0 success ∷ output 2 0 failure ∷ output 1 0 success ∷ output 7 0 success ∷ []

abbrev no_counts : Counts
no_counts = record {
  outputs_received = 0;
  outputs_completed = 0;
  successful_completions = 0;
  failed_completions = 0;
  no_context_duplicates = 0;
  stale_retry_duplicates = 0;
  already_complete_duplicates = 0;
  retried_outputs = 0;
}

yields_at_most_once_example :
    occurrences 1 (receive_outputs extended String response 5 begun no_counts).yields
    ≤ in_progress extended String 1 begun
yields_at_most_once_example =
    yields_at_most_once extended String 1 5 response begun no_counts begun-IsValid
