-- ===== src/MapItems/Data.antt =====
-- The messages and the state of modal/parallel_map.py's map items. An input's payload is a parameter.
use modal_client.Prelude.{ℕ, String, Bool, true, false, Option, none}
use modal_client.Float.{Floats}
use modal_client.Retry.Manager.{RetryManager}

-- `_MapItemState`
pub data MapItemState : Type 0 where
  sending waiting_for_output waiting_to_retry retrying complete : MapItemState

-- `_OutputType`
pub data OutputType : Type 0 where
  successful_completion failed_completion retried : OutputType
  already_complete_duplicate stale_retry_duplicate no_context_duplicate : OutputType

-- api_pb2.GenericResult.GenericStatus
pub data GenericStatus : Type 0 where
  unspecified success failure terminated timeout init_failure internal_failure : GenericStatus

abbrev pub is_success : GenericStatus → Bool
is_success success = true
is_success _ = false

abbrev pub is_terminated : GenericStatus → Bool
is_terminated terminated = true
is_terminated _ = false

abbrev pub is_internal_failure : GenericStatus → Bool
is_internal_failure internal_failure = true
is_internal_failure _ = false

-- api_pb2.FunctionCallInvocationType
pub data InvocationType : Type 0 where
  unspecified sync_legacy async_legacy async_call sync_call : InvocationType

abbrev pub is_sync : InvocationType → Bool
is_sync sync_call = true
is_sync _ = false

abbrev pub is_complete : MapItemState → Bool
is_complete complete = true
is_complete _ = false

-- What a call may raise: `InvalidStateError` of a future that is set twice, `KeyError`, the
-- `ValueError` of a semaphore that is released too often, and what the retry delay raises.
pub data MapError : Type 0 where
  invalid_state key_error too_many_releases bad_delay bad_jwt : MapError

-- How a call of a coroutine goes: it returns, it raises, or it is suspended at an `await`, with the
-- state as it left it.
pub data Outcome (A : Type 0) : Type 0 where
  done : A → Outcome A
  raised : MapError → Outcome A
  suspended : Outcome A

-- api_pb2.FunctionGetOutputsItem, the fields that are read
pub record OutputItem : Type 0 where
  pub idx : ℕ
  pub input_id : String
  pub status : GenericStatus
  pub retry_count : ℕ

-- api_pb2.FunctionPutInputsResponseItem
pub record PutInputsResponseItem : Type 0 where
  pub idx : ℕ
  pub input_id : String
  pub input_jwt : String

-- api_pb2.FunctionPutInputsItem
pub record PutInputsItem (I : Type 0) : Type 0 where
  pub idx : ℕ
  pub input : I

-- api_pb2.MapStartOrContinueItem; an empty token stands on a fresh input
pub record StartOrContinueItem (I : Type 0) : Type 0 where
  pub put_item : PutInputsItem I
  pub attempt_token : String

-- api_pb2.FunctionRetryInputsItem
pub record RetryInputsItem (I : Type 0) : Type 0 where
  pub input_jwt : String
  pub input : I
  pub retry_count : ℕ

-- What stands on the retry queue: an index, or the whole item on the input plane.
pub data RetryItem (I : Type 0) : Type 0 where
  index : ℕ → RetryItem I
  start_or_continue : StartOrContinueItem I → RetryItem I

-- `_MapItemContext`; a future is the value that it has been resolved to
pub record MapItemContext (f : Floats) (I : Type 0) : Type 0 where
  pub state : MapItemState
  pub input : I
  pub retry_manager : RetryManager f.R
  pub sync_client_retries_enabled : Bool
  pub input_id : Option String
  pub input_jwt : Option String
  pub is_input_plane_instance : Bool

module _ (f : Floats) (I : Type 0) where
  -- `__init__`
  abbrev pub new_context : I → RetryManager f.R → Bool → Bool → MapItemContext f I
  new_context input manager retries_enabled input_plane = record {
    state = sending;
    input = input;
    retry_manager = manager;
    sync_client_retries_enabled = retries_enabled;
    input_id = none;
    input_jwt = none;
    is_input_plane_instance = input_plane;
  }
