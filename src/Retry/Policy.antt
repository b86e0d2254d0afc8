-- ===== src/Retry/Policy.antt =====
-- `Retries` of modal/retries.py: the checks of a retry policy and its conversion to the message
-- that the server receives. Delays and the coefficient are floats.
use modal_client.Prelude.{ℕ, ◌/◌, ◌||◌, Result, ok, err, if◌then◌else◌}
use modal_client.Prelude.Int.{ℤ, pos, pos_part, ltb_ℤ}
use modal_client.Float.{Floats}

-- `InvalidError`, by the argument that its message names
pub data Invalid : Type 0 where
  bad_max_retries bad_max_delay bad_initial_delay bad_backoff_coefficient : Invalid

-- api_pb2.FunctionRetryPolicy
pub record FunctionRetryPolicy (R : Type 0) : Type 0 where
  pub retries : ℕ
  pub backoff_coefficient : R
  pub initial_delay_ms : ℕ
  pub max_delay_ms : ℕ

module _ (f : Floats) where
  open f use {R, of_nat, lt, to_float32, micros}

  -- the attributes that `__init__` sets; a `timedelta` is its microseconds
  pub record Retries : Type 0 where
    pub max_retries : ℕ
    pub backoff_coefficient : R
    pub initial_delay : ℕ
    pub max_delay : ℕ

  -- `__init__`: the guards in the order of the source
  unfoldable pub retries : ℤ → R → R → R → Result Invalid Retries
  retries max_retries backoff_coefficient initial_delay max_delay =
      if ltb_ℤ max_retries (pos 0)
      then err bad_max_retries
      else if ltb_ℤ (pos 10) max_retries
      then err bad_max_retries
      else if lt max_delay (of_nat 1)
      then err bad_max_delay
      else if lt (of_nat 60) max_delay
      then err bad_max_delay
      else if lt initial_delay (of_nat 0)
      then err bad_initial_delay
      else if lt (of_nat 60) initial_delay
      then err bad_initial_delay
      else if lt backoff_coefficient (of_nat 1) || lt (of_nat 10) backoff_coefficient
      then err bad_backoff_coefficient
      else ok (record {
        max_retries = pos_part max_retries;
        backoff_coefficient = backoff_coefficient;
        initial_delay = micros initial_delay;
        max_delay = micros max_delay;
      })

  -- `_to_proto`: `// timedelta(milliseconds=1)` on microseconds, and the coefficient in a field of 32 bits
  unfoldable pub to_proto : Retries → FunctionRetryPolicy R
  to_proto r = record {
    retries = r.max_retries;
    backoff_coefficient = to_float32 r.backoff_coefficient;
    initial_delay_ms = r.initial_delay / 1000;
    max_delay_ms = r.max_delay / 1000;
  }
