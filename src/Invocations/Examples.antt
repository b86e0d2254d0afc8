-- ===== src/Invocations/Examples.antt =====
-- Tests and concrete runs of invocations (modal/_functions.py), on whole numbers for the times.
use modal_client.Prelude.{
  ℕ, zero, suc, ◌+◌, ◌<◌, ◌≡◌, refl, ap, subst, inl, true, false, Option, none, some, ok, err, [],
  ◌∷◌, length, arith,
}
use modal_client.Float.{extended, Extended, finite}
use modal_client.FilePatterns.Text.{Text}
use modal_client.Blobs.Upload.{codes}
use modal_client.MapItems.Data.{GenericStatus, success, failure, internal_failure, sync_call}
use modal_client.Retry.Policy.{FunctionRetryPolicy}
use modal_client.Invocations.Result.{inline, remote_error, Unpickler, process_result}
use modal_client.Invocations.Create.{
  args, FunctionPutInputsItem, RetryContext, Invocation, not_one_input, create,
}
use modal_client.Invocations.Poll.{
  Output, GetOutputsResponse, Server, get_single_output, pop_function_call_outputs, poll_from,
  poll_function, in_call,
}
use modal_client.Invocations.PollLaws.{Ends, pop_function_call_outputs-Ends}
use modal_client.Retry.Delays.{HasDelays, allowed-HasDelays}
use modal_client.Invocations.Run.{Ended, in_run, run_function}
use modal_client.Invocations.RunLaws.{EndsWith}
use modal_client.Invocations.RunEnds.{run_function-ends}
use modal_client.Invocations.Served.{Brings, IsTimeline, run_function-polled}
use modal_client.Invocations.InputPlane.{
  Attempts, LastOutput, IsLast, Reaches, run_attempts, run_attempts-ends,
}

-- a value is the size of its data
abbrev sizes : Unpickler ℕ Text
sizes = record {
  blob_download = λ _. [];
  deserialize = λ bytes. ok (length bytes);
  as_exception = λ _. none;
  deserialize_data_format = λ bytes _. ok (length bytes);
}

abbrev output_of : GenericStatus → Output
output_of status = record {
  result = record { status = status; exception = []; payload = inline [] };
  data_format = 0;
}

-- a failure, then an output that the server lost, then a value
abbrev outputs_in_turn : ℕ → Output
outputs_in_turn zero = output_of failure
outputs_in_turn (suc zero) = output_of internal_failure
outputs_in_turn (suc (suc n)) = output_of success

-- each output comes with the second request for it
abbrev answer_in_turn : ℕ → GetOutputsResponse
answer_in_turn zero = record { outputs = []; num_unfinished_inputs = 1 }
answer_in_turn (suc zero) = record { outputs = outputs_in_turn 0 ∷ []; num_unfinished_inputs = 1 }
answer_in_turn (suc (suc n)) = record {
  outputs = outputs_in_turn (suc n) ∷ [];
  num_unfinished_inputs = 1;
}

abbrev server : Server extended
server = record { answers = λ n _. answer_in_turn n; now = λ n. finite n }

abbrev policy : FunctionRetryPolicy Extended
policy = record {
  retries = 1;
  backoff_coefficient = finite 1;
  initial_delay_ms = 2000;
  max_delay_ms = 60_000;
}

abbrev sent_item : FunctionPutInputsItem
sent_item = record {
  input = args [];
  method_name = [];
  idx = 0;
  r2_failed = false;
  r2_throughput_bytes_s = 0;
}

abbrev context : RetryContext Extended
context = record {
  function_call_invocation_type = sync_call;
  retry_policy = policy;
  function_call_jwt = codes "call";
  input_jwt = codes "input";
  input_id = codes "in-1";
  item = sent_item;
  sync_client_retries_enabled = true;
}

abbrev invocation : Invocation Extended
invocation = record { function_call_id = codes "fc-1"; retry_context = some context }

abbrev next_item : Option Text → ℕ → Option (Output × ℕ)
next_item jwt n = get_single_output extended server 3 (codes "fc-1") (finite 0) jwt n

abbrev request_of : ℕ → ℕ
request_of zero = 0
request_of (suc i) = suc (suc i)

served :
    (i : ℕ)
    → next_item (some context.input_jwt) (request_of i)
      ≡ some (outputs_in_turn i, request_of (suc i))
unfolding get_single_output pop_function_call_outputs poll_from
served zero = refl
served (suc i) =
    let next : suc (suc i) + 1 ≡ suc (suc (suc i)) = omega arith in
    ap (λ n. some (outputs_in_turn (suc i), n)) next

pop_function_call_outputs-Ends_example :
    Ends extended server
      (finite 0)
      none
      0
      1
      (pop_function_call_outputs extended server 2 (codes "fc-1") (finite 0) none true none 0)
pop_function_call_outputs-Ends_example =
    pop_function_call_outputs-Ends extended server (codes "fc-1") (finite 0) none true none 1 2 0
      (omega arith) (inl (λ _. refl))

failed_call :
    poll_function extended server sizes 2 (codes "fc-1") (finite 0) (some (finite 9)) 0
    ≡ some (err (in_call (remote_error [])))
unfolding poll_function pop_function_call_outputs poll_from process_result
failed_call = refl

-- one empty answer before the first output
abbrev waits : ℕ → ℕ
waits zero = 1
waits (suc i) = 0

timeline : IsTimeline extended server outputs_in_turn waits request_of
timeline zero = (((λ _. refl), tt), (λ _. ([], refl)), refl)
timeline (suc i) =
    let at_once : suc (suc i) ≡ suc (suc i) + 0 = omega arith in
    (
      tt,
      subst (λ n. Brings extended server n (outputs_in_turn (suc i))) at_once (λ _. ([], refl)),
      omega arith,
    )

waits_less : (i : ℕ) → waits i < 3
waits_less zero = omega arith
waits_less (suc i) = omega arith

policy-HasDelays : HasDelays extended policy
policy-HasDelays = allowed-HasDelays extended policy (omega arith) refl refl

run_function-polled_example :
    (e : Ended ℕ Text Extended) × (run_function extended sizes next_item 3 invocation 0 ≡ some e)
    × EndsWith extended sizes next_item context (output_of success) 2 1 e
run_function-polled_example =
    run_function-polled extended server sizes invocation context (finite 0) outputs_in_turn waits
      request_of 2 3 3 refl refl policy-HasDelays timeline waits_less (omega arith)
      (refl, (refl, tt)) (omega arith) (inl refl)

run_function-ends_example :
    (k : ℕ) × (e : Ended ℕ Text Extended) × (run_function extended sizes next_item 3 invocation 0
      ≡ some e)
    × (e.outcome
        ≡ in_run (process_result sizes (outputs_in_turn k).result (outputs_in_turn k).data_format))
    × (length e.retried ≡ k)
    × (k < 3)
run_function-ends_example =
    run_function-ends extended sizes next_item invocation context outputs_in_turn request_of 1 3
      refl refl policy-HasDelays served (omega arith) refl

-- every input is lost
abbrev losing : Attempts
losing = record {
  attempt_await = λ n token. some (output_of internal_failure);
  attempt_retry = λ n token. b'+' ∷ token;
}

run_attempts-ends_example :
    (last : LastOutput) × (run_attempts losing sizes 8 []
      ≡ some (process_result sizes last.output.result last.output.data_format))
    × IsLast losing last
    × (k : ℕ) × Reaches losing k [] 0 0 last
run_attempts-ends_example =
    run_attempts-ends losing sizes (λ _. true) 8 []
      (λ i token _. (output_of internal_failure, refl)) (omega arith)

two_inputs :
    create {E = Text}
      (λ item. record {
        function_call_id = [];
        pipelined_inputs =
            record { input_jwt = []; input_id = [] }
            ∷ record { input_jwt = []; input_id = [] }
            ∷ [];
        retry_policy = policy;
        function_call_jwt = [];
        sync_client_retries_enabled = true;
      })
      (λ _ _. [])
      (ok sent_item)
      sync_call
    ≡ err not_one_input
unfolding create
two_inputs = refl
