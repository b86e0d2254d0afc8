-- ===== src/IoContext.antt =====
-- `IOContext` of modal/_runtime/container_io_manager.py: one input of a function in its container, or a batch of them. The
-- download of a blob, unpickling and the user's function are parameters.
use Prim.Native.String.{String}
use text.Mathlib.Text.{◌==◌ as str_eq}
use modal_client.Prelude.{
  ℕ, ◌+◌, ◌==◌, leb, Bool, true, false, not, ◌&&◌, Option, none, some, List, [], ◌∷◌, ◌++◌, map,
  length, Result, ok, err, ◌>>=◌, if◌then◌else◌,
}
use modal_client.Prelude.Names.{Names, get_name, set_name, has_name}
use modal_client.FilePatterns.Text.{Text}
use modal_client.Blobs.Segment.{Bytes}
use modal_client.Invocations.Create.{Args, args, args_blob_id}
pub mod Binding
pub mod Rows
pub mod Columns
mod Examples

-- api_pb2.FunctionInput
pub record FunctionInput : Type 0 where
  pub input_args : Args
  pub method_name : String

-- an input as it is fetched
pub record FetchedInput : Type 0 where
  pub input_id : String
  pub retry_count : ℕ
  pub function_call_id : String
  pub function_input : FunctionInput

-- what the user's function is called with: the arguments of one input, or a list for each parameter
pub data CallArgs (V : Type 0) : Type 0 where
  single : List V → Names V → CallArgs V
  batch : Names (List V) → CallArgs V

-- the user's function, with the names of its parameters
pub record FinalizedFunction (V : Type 0) : Type 0 where
  pub param_names : List String
  pub call : CallArgs V → V

-- A context. `cancel_callback` says whether there is one, and `cancelled` counts its calls.
pub record IoContext (V : Type 0) : Type 0 where
  pub input_ids : List String
  pub retry_counts : List ℕ
  pub function_call_ids : List String
  pub finalized_function : FinalizedFunction V
  pub function_inputs : List FunctionInput
  pub is_batched : Bool
  pub cancel_issued : Bool
  pub cancel_callback : Bool
  pub cancelled : ℕ

-- `AssertionError`, `KeyError`, an exception of unpickling, and `InvalidError` by its message
pub data ContextError : Type 0 where
  assertion_error key_error unpickling_error : ContextError
  wrong_count unexpected_argument multiple_values : ContextError
  not_a_list wrong_length : ContextError

abbrev pub downloaded : (Text → Bytes) → Args → Args
downloaded blob_download (args bytes) = args bytes
downloaded blob_download (args_blob_id id) = args (blob_download id)

-- `_populate_input_blobs`
abbrev pub populate_input_blobs : (Text → Bytes) → FunctionInput → FunctionInput
populate_input_blobs blob_download input = record input {
  input_args = downloaded blob_download input.input_args;
}

abbrev pub all_methods : String → List FunctionInput → Bool
all_methods method_name [] = true
all_methods method_name (input ∷ inputs) =
    str_eq method_name input.method_name && all_methods method_name inputs

abbrev pub is_one : List FetchedInput → Bool
is_one (_ ∷ []) = true
is_one _ = false

abbrev pub is_some : List FetchedInput → Bool
is_some [] = false
is_some (_ ∷ _) = true

module _ {V : Type 0} where
  abbrev pub io_context :
      List FetchedInput → List FunctionInput → Bool → FinalizedFunction V → IoContext V
  io_context inputs function_inputs is_batched f = record {
    input_ids = map (λ i. i.input_id) inputs;
    retry_counts = map (λ i. i.retry_count) inputs;
    function_call_ids = map (λ i. i.function_call_id) inputs;
    finalized_function = f;
    function_inputs = function_inputs;
    is_batched = is_batched;
    cancel_issued = false;
    cancel_callback = false;
    cancelled = 0;
  }

  abbrev pub found_function :
      Option (FinalizedFunction V) → Result ContextError (FinalizedFunction V)
  found_function none = err key_error
  found_function (some f) = ok f

  -- all inputs are for one function, which the container has
  abbrev pub chosen_function :
      Names (FinalizedFunction V) → List FunctionInput → Result ContextError (FinalizedFunction V)
  chosen_function finalized_functions [] = err assertion_error
  chosen_function finalized_functions (input ∷ inputs) =
      if all_methods input.method_name (input ∷ inputs)
      then found_function (get_name input.method_name finalized_functions)
      else err assertion_error

  unfoldable pub create :
      (Text → Bytes)
      → Names (FinalizedFunction V)
      → List FetchedInput
      → Bool
      → Result ContextError (IoContext V)
  create blob_download finalized_functions inputs is_batched =
      let function_inputs = map (λ i. populate_input_blobs blob_download i.function_input) inputs in
      if (if is_batched then is_some inputs else is_one inputs)
      then (chosen_function finalized_functions function_inputs >>= λ f.
          ok (io_context inputs function_inputs is_batched f))
      else err assertion_error

  unfoldable pub set_cancel_callback : IoContext V → IoContext V
  set_cancel_callback c = record c { cancel_callback = true }

  -- the callback is called once at most
  unfoldable pub cancel : IoContext V → IoContext V
  cancel c =
      if c.cancel_issued
      then c
      else if c.cancel_callback
      then record c { cancel_issued = true; cancelled = c.cancelled + 1 }
      else c

  -- what the user's function returns, if it is a list
  unfoldable pub validate_output_data :
      IoContext V → (V → Option (List V)) → V → Result ContextError (List V)
  validate_output_data c as_list value =
      if not c.is_batched then ok (value ∷ []) else elim (as_list value) [
        | none ↦ err not_a_list
        | some values ↦ if length values == length c.input_ids then ok values else err wrong_length
      ]
