-- ===== src/Invocations/Create.antt =====
-- How a call of a function is made: `_create_input` of modal/_utils/function_utils.py, and `_RetryContext` and
-- `_Invocation.create` of modal/_functions.py. The pickled arguments and the answers of the server are parameters.
use modal_client.Prelude.{
  ℕ, ◌*◌, ltb, Bool, true, false, ◌&&◌, ◌||◌, Option, none, some, List, [], ◌∷◌, length, Result, ok,
  err, ◌>>=◌, if◌then◌else◌,
}
use modal_client.FilePatterns.Text.{Text}
use modal_client.Blobs.Segment.{Bytes}
use modal_client.Blobs.Fallback.{Uploaded}
use modal_client.MapItems.Data.{InvocationType, async_call}
use modal_client.Retry.Policy.{FunctionRetryPolicy}

abbrev pub max_async_object_size_bytes : ℕ
max_async_object_size_bytes = 8 * 1024

abbrev is_async : InvocationType → Bool
is_async async_call = true
is_async _ = false

abbrev is_async_call : Option InvocationType → Bool
is_async_call none = false
is_async_call (some t) = is_async t

unfoldable pub should_upload : ℕ → ℕ → Option InvocationType → Bool
should_upload num_bytes max_object_size_bytes invocation_type =
    ltb max_object_size_bytes num_bytes
    || (is_async_call invocation_type && ltb max_async_object_size_bytes num_bytes)

-- the arguments of an input, or where they are
pub data Args : Type 0 where
  args : Bytes → Args
  args_blob_id : Text → Args

-- api_pb2.FunctionPutInputsItem
pub record FunctionPutInputsItem : Type 0 where
  pub input : Args
  pub method_name : Text
  pub idx : ℕ
  pub r2_failed : Bool
  pub r2_throughput_bytes_s : ℕ

abbrev pub or_zero : Option ℕ → ℕ
or_zero none = 0
or_zero (some n) = n

abbrev pub or_empty : Option Text → Text
or_empty none = []
or_empty (some text) = text

abbrev pub uploaded_item : Uploaded → Text → ℕ → FunctionPutInputsItem
uploaded_item (blob_id, r2_failed, throughput) method_name idx = record {
  input = args_blob_id blob_id;
  method_name = method_name;
  idx = idx;
  r2_failed = r2_failed;
  r2_throughput_bytes_s = throughput;
}

-- an error of the upload ends it
unfoldable pub create_input :
    {E : Type 0}
    → (Bytes → Result E Uploaded)
    → Bytes
    → ℕ
    → Option ℕ
    → Option Text
    → Option InvocationType
    → Result E FunctionPutInputsItem
unfolding should_upload
create_input upload args_serialized max_object_size_bytes idx method_name invocation_type =
    if should_upload (length args_serialized) max_object_size_bytes invocation_type
    then (upload args_serialized >>= λ uploaded.
        ok (uploaded_item uploaded (or_empty method_name) (or_zero idx)))
    else ok (record {
      input = args args_serialized;
      method_name = or_empty method_name;
      idx = or_zero idx;
      r2_failed = false;
      r2_throughput_bytes_s = 0;
    })

pub record RetryContext (R : Type 0) : Type 0 where
  pub function_call_invocation_type : InvocationType
  pub retry_policy : FunctionRetryPolicy R
  pub function_call_jwt : Text
  pub input_jwt : Text
  pub input_id : Text
  pub item : FunctionPutInputsItem
  pub sync_client_retries_enabled : Bool

-- `_Invocation`, without the connection
pub record Invocation (R : Type 0) : Type 0 where
  pub function_call_id : Text
  pub retry_context : Option (RetryContext R)

-- an input as the server knows it
pub record ServerInput : Type 0 where
  pub input_jwt : Text
  pub input_id : Text

-- api_pb2.FunctionMapResponse
pub record MapResponse (R : Type 0) : Type 0 where
  pub function_call_id : Text
  pub pipelined_inputs : List ServerInput
  pub retry_policy : FunctionRetryPolicy R
  pub function_call_jwt : Text
  pub sync_client_retries_enabled : Bool

pub data CreateError (E : Type 0) : Type 0 where
  not_one_input queue_full : CreateError E
  in_upload : E → CreateError E

-- the input went with the call, or a second request sends it; that may find the queue full
abbrev pub first_input : {E : Type 0} → List ServerInput → Result (CreateError E) ServerInput
first_input [] = err queue_full
first_input (input ∷ inputs) = ok input

abbrev pub put_inputs_first :
    {E : Type 0}
    → (Text → FunctionPutInputsItem → List ServerInput)
    → FunctionPutInputsItem
    → Text
    → List ServerInput
    → Result (CreateError E) ServerInput
put_inputs_first put_inputs item function_call_id [] =
    first_input (put_inputs function_call_id item)
put_inputs_first put_inputs item function_call_id (input ∷ []) = ok input
put_inputs_first put_inputs item function_call_id (input ∷ _ ∷ _) = err not_one_input

abbrev pub uploaded_or : {E A : Type 0} → Result E A → Result (CreateError E) A
uploaded_or (ok a) = ok a
uploaded_or (err e) = err (in_upload e)

module _ {R : Type 0} where
  abbrev pub with_input :
      InvocationType → FunctionPutInputsItem → MapResponse R → ServerInput → Invocation R
  with_input invocation_type item response input = record {
    function_call_id = response.function_call_id;
    retry_context = some (record {
      function_call_invocation_type = invocation_type;
      retry_policy = response.retry_policy;
      function_call_jwt = response.function_call_jwt;
      input_jwt = input.input_jwt;
      input_id = input.input_id;
      item = item;
      sync_client_retries_enabled = response.sync_client_retries_enabled;
    });
  }

  -- `create`, from the item that `_create_input` made
  unfoldable pub create :
      {E : Type 0}
      → (FunctionPutInputsItem → MapResponse R)
      → (Text → FunctionPutInputsItem → List ServerInput)
      → Result E FunctionPutInputsItem
      → InvocationType
      → Result (CreateError E) (Invocation R)
  create function_map put_inputs created invocation_type = uploaded_or created >>= λ item.
      put_inputs_first put_inputs item ((function_map item).function_call_id)
        ((function_map item).pipelined_inputs)
      >>= λ input. ok (with_input invocation_type item (function_map item) input)
