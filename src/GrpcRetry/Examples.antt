-- ===== src/GrpcRetry/Examples.antt =====
-- Concrete runs of `retry_transient_errors` (modal/_utils/grpc_utils.py).
use modal_client.Prelude.{
  ℕ, ◌+◌, ◌≤◌, ◌≡◌, ◌≢◌, refl, arith, length, none, some, ok, err, List, [], ◌∷◌,
}
use modal_client.Float.{finite, extended}
use modal_client.GrpcRetry.{Options, Answer, grpc_error, os_error, retry_transient_errors}
use modal_client.GrpcRetry.Bounds.{retry_transient_errors_ends}

-- in tenths of a second
abbrev defaults : Options extended
defaults = record {
  base_delay = finite 1;
  max_delay = finite 10;
  delay_factor = finite 2;
  max_retries = some 3;
  additional_status_codes = [];
  attempt_timeout = none;
  total_timeout = none;
  attempt_timeout_floor = finite 20;
}

abbrev unavailable : Answer extended ℕ
unavailable = record { asked_at = finite 5; outcome = err (grpc_error 14); ended_at = finite 6 }

abbrev broken : Answer extended ℕ
broken = record { asked_at = finite 7; outcome = err os_error; ended_at = finite 8 }

abbrev answered : Answer extended ℕ
answered = record { asked_at = finite 9; outcome = ok 42; ended_at = finite 9 }

third_try :
    let run =
      retry_transient_errors extended ℕ defaults "key"
        (finite 5)
        (unavailable ∷ broken ∷ answered ∷ []) in
    (run.result ≡ some (ok 42)) × (run.slept ≡ finite 1 ∷ finite 2 ∷ [])
unfolding retry_transient_errors modal_client.GrpcRetry.attempts modal_client.GrpcRetry.verdict
third_try = (refl, refl)

abbrev four : List (Answer extended ℕ)
four = unavailable ∷ broken ∷ broken ∷ unavailable ∷ []

retry_transient_errors_ends_example :
    let run = retry_transient_errors extended ℕ defaults "key" (finite 5) four in
    (run.result ≢ none) × (length run.sent ≤ 3 + 1)
retry_transient_errors_ends_example =
    retry_transient_errors_ends extended ℕ defaults "key" (finite 5) 3 four refl (omega arith)
