-- ===== src/Invocations/Result.antt =====
-- `_process_result` of modal/_utils/function_utils.py: the value of a result, or the exception. Unpickling and the
-- download of a blob are parameters; the traceback that goes with an exception is left out.
use modal_client.Prelude.{ℕ, Option, none, some, [], ◌∷◌, Result, ok, err}
use modal_client.FilePatterns.Text.{Text}
use modal_client.Blobs.Segment.{Bytes}
use modal_client.MapItems.Data.{GenericStatus, success, timeout, internal_failure}

-- `data_oneof`
pub data ResultData : Type 0 where
  inline : Bytes → ResultData
  blob_id : Text → ResultData

-- api_pb2.GenericResult
pub record GenericResult : Type 0 where
  pub status : GenericStatus
  pub exception : Text
  pub payload : ResultData

-- what unpickling raises, apart from the errors of the data itself
pub data Unpickling : Type 0 where
  deserialization_error module_not_found other_error : Unpickling

-- The exceptions of a call; `remote` is one that the function raised.
pub data CallError (X : Type 0) : Type 0 where
  function_timeout remote_error : Text → CallError X
  failed_internally : Text → CallError X
  execution_error : CallError X
  remote : X → CallError X
  local : Unpickling → CallError X

-- Unpickling gives a value; `as_exception` is `isinstance(exc, BaseException)`.
pub record Unpickler (V X : Type 0) : Type 0 where
  pub blob_download : Text → Bytes
  pub deserialize : Bytes → Result Unpickling V
  pub as_exception : V → Option X
  pub deserialize_data_format : Bytes → ℕ → Result Unpickling V

module _ {V X : Type 0} (u : Unpickler V X) where
  abbrev pub data_of : ResultData → Bytes
  data_of (inline bytes) = bytes
  data_of (blob_id id) = u.blob_download id

  abbrev pub raise_value : Option X → CallError X
  raise_value none = execution_error
  raise_value (some exc) = remote exc

  abbrev pub raise_pickled : Result Unpickling V → CallError X
  raise_pickled (ok exc) = raise_value (u.as_exception exc)
  raise_pickled (err e) = execution_error

  -- a failure with data holds the exception
  abbrev pub raise_remote : Text → Bytes → CallError X
  raise_remote exception [] = remote_error exception
  raise_remote exception (b ∷ bytes) = raise_pickled (u.deserialize (b ∷ bytes))

  abbrev pub deserialized : Result Unpickling V → Result (CallError X) V
  deserialized (ok v) = ok v
  deserialized (err module_not_found) = err execution_error
  deserialized (err e) = err (local e)

  abbrev pub by_status : GenericStatus → Text → Bytes → ℕ → Result (CallError X) V
  by_status timeout exception bytes data_format = err (function_timeout exception)
  by_status internal_failure exception bytes data_format = err (failed_internally exception)
  by_status success exception bytes data_format =
      deserialized (u.deserialize_data_format bytes data_format)
  by_status _ exception bytes data_format = err (raise_remote exception bytes)

  unfoldable pub process_result : GenericResult → ℕ → Result (CallError X) V
  process_result result data_format =
      by_status result.status result.exception (data_of result.payload) data_format
