-- ===== src/GrpcRetry.antt =====
-- `retry_transient_errors` of modal/_utils/grpc_utils.py. The remote call is a parameter: how each
-- attempt ends, with what the clock shows before and after it.
pub mod Laws
pub mod Bounds
mod Examples
use modal_client.Prelude.{
  ℕ, suc, ◌+◌, ◌==◌, leb, Bool, true, false, not, ◌&&◌, ◌||◌, String, Option, none, some, Result,
  ok, err, List, [], ◌∷◌, if◌then◌else◌,
}
use modal_client.Float.{Floats}

-- the numbers of the gRPC statuses
abbrev retryable_grpc_status_codes : List ℕ
retryable_grpc_status_codes = 4 ∷ 14 ∷ 1 ∷ 13 ∷ 2 ∷ []

abbrev unauthenticated : ℕ
unauthenticated = 16

-- the exceptions that the loop catches; an AttributeError, with whether it names `_write_appdata`
pub data Failure : Type 0 where
  stream_terminated os_error timeout_error : Failure
  grpc_error : ℕ → Failure
  attribute_error : Bool → Failure

pub data Raised : Type 0 where
  auth_error connection_error : Raised
  same : Failure → Raised

abbrev pub has_code : ℕ → List ℕ → Bool
has_code c [] = false
has_code c (d ∷ ds) = (c == d) || has_code c ds

-- what is raised at once: a status that is not in the list
abbrev pub refused : List ℕ → Failure → Option Raised
refused codes (grpc_error c) =
    if has_code c retryable_grpc_status_codes || has_code c codes
    then none
    else some (if c == unauthenticated then auth_error else same (grpc_error c))
refused codes _ = none

abbrev pub on_final : Failure → Raised
on_final os_error = connection_error
on_final timeout_error = connection_error
on_final e = same e

abbrev pub on_retry : Failure → Option Raised
on_retry (attribute_error false) = some (same (attribute_error false))
on_retry _ = none

module _ (f : Floats) where
  open f use {R, add, sub, mul, lt}

  pub record Options : Type 0 where
    pub base_delay : R
    pub max_delay : R
    pub delay_factor : R
    pub max_retries : Option ℕ
    pub additional_status_codes : List ℕ
    pub attempt_timeout : Option R
    pub total_timeout : Option R
    pub attempt_timeout_floor : R

  -- `min(a, b)` and `max(a, b)` of Python, which keep the first of equal arguments
  abbrev pub least : R → R → R
  least a b = if lt b a then b else a

  abbrev pub greatest : R → R → R
  greatest a b = if lt a b then b else a

  -- the time that an attempt gets
  abbrev pub timeout : Options → R → R → Option R
  timeout o t0 now = elim o.total_timeout [
    | none ↦ o.attempt_timeout
    | some total ↦
        let left = greatest (sub (add t0 total) now) o.attempt_timeout_floor in
        some (elim o.attempt_timeout [ none ↦ left | some t ↦ least t left ])
  ]

  abbrev pub out_of_tries : Option ℕ → ℕ → Bool
  out_of_tries none n = false
  out_of_tries (some k) n = leb k n

  abbrev pub out_of_time : Options → R → R → R → Bool
  out_of_time o t0 now delay = elim o.total_timeout [
    | none ↦ false
    | some total ↦ not (lt (add (add now delay) o.attempt_timeout_floor) (add t0 total))
  ]

  abbrev pub decide : Option Raised → Bool → Failure → Option Raised
  decide (some x) final_attempt e = some x
  decide none final_attempt e = if final_attempt then some (on_final e) else on_retry e

  -- What is raised after a failure with `n` retries behind it; `none` is another try.
  unfoldable pub verdict : Options → R → ℕ → R → R → Failure → Option Raised
  verdict o t0 n delay now e =
      decide (refused o.additional_status_codes e)
        (out_of_tries o.max_retries n || out_of_time o t0 now delay) e

  module _ (A : Type 0) where
    pub record Answer : Type 0 where
      pub asked_at : R
      pub outcome : Result Failure A
      pub ended_at : R

    -- the metadata and the timeout of one attempt
    pub record Attempt : Type 0 where
      pub idempotency_key : String
      pub retry_attempt : ℕ
      pub retry_delay : Option R
      pub timeout_after : Option R

    -- what the loop sends and how long it sleeps; the result is `none` while it waits for an answer
    pub record Run : Type 0 where
      pub sent : List Attempt
      pub slept : List R
      pub result : Option (Result Raised A)

    abbrev pub attempt : Options → String → R → ℕ → R → Attempt
    attempt o key t0 n now = record {
      idempotency_key = key;
      retry_attempt = n;
      retry_delay = if n == 0 then none else some (sub now t0);
      timeout_after = timeout o t0 now;
    }

    abbrev pub ends : Attempt → Result Raised A → Run
    ends a r = record { sent = a ∷ []; slept = []; result = some r }

    abbrev pub goes_on : Attempt → R → Run → Run
    goes_on a delay r = record { sent = a ∷ r.sent; slept = delay ∷ r.slept; result = r.result }

    abbrev pub after_failure : Attempt → R → Option Raised → Run → Run
    after_failure a delay (some x) rest = ends a (err x)
    after_failure a delay none rest = goes_on a delay rest

    abbrev pub after_answer : Attempt → R → Result Failure A → (Failure → Option Raised) → Run → Run
    after_answer a delay (ok x) raised rest = ends a (ok x)
    after_answer a delay (err e) raised rest = after_failure a delay (raised e) rest

    unfoldable pub attempts : Options → String → R → ℕ → R → List Answer → Run
    attempts o key t0 n delay [] = record { sent = []; slept = []; result = none }
    attempts o key t0 n delay (r ∷ rs) =
        let rest = attempts o key t0 (n + 1) (least (mul delay o.delay_factor) o.max_delay) rs in
        after_answer (attempt o key t0 n r.asked_at) delay r.outcome
          (verdict o t0 n delay r.ended_at) rest

    unfoldable pub retry_transient_errors : Options → String → R → List Answer → Run
    unfolding attempts
    retry_transient_errors o key t0 rs = attempts o key t0 0 o.base_delay rs
