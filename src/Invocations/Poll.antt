-- ===== src/Invocations/Poll.antt =====
-- `pop_function_call_outputs` and `poll_function` of modal/_functions.py. The n-th request of a call gets the n-th
-- answer, and `now n` is the time that is read after it.
use modal_client.Prelude.{
  ℕ, zero, suc, ◌+◌, Bool, true, false, Option, none, some, List, [], ◌∷◌, Result, ok, err,
  if◌then◌else◌,
}
use modal_client.Float.{Floats}
use modal_client.FilePatterns.Text.{Text}
use modal_client.Invocations.Result.{GenericResult, CallError, Unpickler, process_result}

-- api_pb2.FunctionGetOutputsItem, the fields that are read
pub record Output : Type 0 where
  pub result : GenericResult
  pub data_format : ℕ

-- api_pb2.FunctionGetOutputsResponse
pub record GetOutputsResponse : Type 0 where
  pub outputs : List Output
  pub num_unfinished_inputs : ℕ

-- `OutputExpiredError`, `TimeoutError`, or what the result raises
pub data PollError (X : Type 0) : Type 0 where
  output_expired timed_out : PollError X
  in_call : CallError X → PollError X

module _ (f : Floats) where
  open f use {R, of_nat, add, sub, lt}

  -- api_pb2.FunctionGetOutputsRequest, without the times that are only reported
  pub record GetOutputsRequest : Type 0 where
    pub function_call_id : Text
    pub timeout : R
    pub clear_on_success : Bool
    pub input_jwts : Option (List Text)

  abbrev pub outputs_timeout : R
  outputs_timeout = of_nat 55

  -- `min(a, b)`
  abbrev pub min_R : R → R → R
  min_R a b = if lt b a then b else a

  -- the server, and the clock
  pub record Server : Type 0 where
    pub answers : ℕ → GetOutputsRequest → GetOutputsResponse
    pub now : ℕ → R

  module _ (s : Server) where
    -- what follows a response without outputs: the time that is left, or the last response
    abbrev pub next_timeout : R → Option R → ℕ → R → Option R
    next_timeout t0 none n backend_timeout = some backend_timeout
    next_timeout t0 (some timeout) n backend_timeout =
        let left = min_R outputs_timeout (sub (add t0 timeout) (s.now n)) in
        if lt left (of_nat 0) then none else some left

    abbrev pub poll_again :
        (R → Option (GetOutputsResponse × ℕ))
        → GetOutputsResponse × ℕ
        → Option R
        → Option (GetOutputsResponse × ℕ)
    poll_again again last none = some last
    poll_again again last (some left) = again left

    abbrev pub after_response :
        (R → Option (GetOutputsResponse × ℕ))
        → R
        → Option R
        → ℕ
        → R
        → GetOutputsResponse
        → List Output
        → Option (GetOutputsResponse × ℕ)
    after_response again t0 timeout n backend_timeout response (o ∷ os) = some (response, n + 1)
    after_response again t0 timeout n backend_timeout response [] =
        poll_again again (response, n + 1) (next_timeout t0 timeout n backend_timeout)

    -- The loop from the n-th request on, with fuel; the number of the next request comes back too.
    unfoldable pub poll_from :
        ℕ
        → Text
        → Bool
        → Option (List Text)
        → R
        → Option R
        → ℕ
        → R
        → Option (GetOutputsResponse × ℕ)
    poll_from zero id clear jwts t0 timeout n backend_timeout = none
    poll_from (suc fuel) id clear jwts t0 timeout n backend_timeout =
        let request : GetOutputsRequest = record {
          function_call_id = id;
          timeout = backend_timeout;
          clear_on_success = clear;
          input_jwts = jwts;
        } in
        let response = s.answers n request in
        after_response (λ left. poll_from fuel id clear jwts t0 timeout (n + 1) left) t0 timeout n
          backend_timeout response response.outputs

    abbrev pub first_timeout : Option R → R
    first_timeout none = outputs_timeout
    first_timeout (some timeout) = min_R outputs_timeout timeout

    unfoldable pub pop_function_call_outputs :
        ℕ → Text → R → Option R → Bool → Option (List Text) → ℕ → Option (GetOutputsResponse × ℕ)
    unfolding poll_from
    pop_function_call_outputs fuel id t0 timeout clear_on_success input_jwts n =
        poll_from fuel id clear_on_success input_jwts t0 timeout n (first_timeout timeout)

    -- `[expected_jwt] if expected_jwt else None`: an empty text is no token
    abbrev pub only_jwt : Option Text → Option (List Text)
    only_jwt none = none
    only_jwt (some []) = none
    only_jwt (some (c ∷ jwt)) = some ((c ∷ jwt) ∷ [])

    -- `outputs[0]`; the loop without a timeout ends with an output
    abbrev pub first_output : Option (GetOutputsResponse × ℕ) → Option (Output × ℕ)
    first_output none = none
    first_output (some (response, n)) = elim (response.outputs) [
      | [] ↦ none
      | output ∷ _ ↦ some (output, n)
    ]

    unfoldable pub get_single_output : ℕ → Text → R → Option Text → ℕ → Option (Output × ℕ)
    unfolding pop_function_call_outputs
    get_single_output fuel id t0 expected_jwt n =
        first_output (pop_function_call_outputs fuel id t0 none true (only_jwt expected_jwt) n)

    module _ {V X : Type 0} (u : Unpickler V X) where
      abbrev pub in_poll : Result (CallError X) V → Result (PollError X) V
      in_poll (ok v) = ok v
      in_poll (err e) = err (in_call e)

      abbrev pub poll_result : List Output → ℕ → Result (PollError X) V
      poll_result [] zero = err output_expired
      poll_result [] (suc unfinished) = err timed_out
      poll_result (output ∷ _) unfinished =
          in_poll (process_result u output.result output.data_format)

      unfoldable pub poll_function : ℕ → Text → R → Option R → ℕ → Option (Result (PollError X) V)
      unfolding pop_function_call_outputs
      poll_function fuel id t0 timeout n =
          elim (pop_function_call_outputs fuel id t0 timeout false none n) [
            | none ↦ none
            | some (response, _) ↦
                some (poll_result response.outputs response.num_unfinished_inputs)
          ]
