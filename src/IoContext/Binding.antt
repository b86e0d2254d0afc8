-- ===== src/IoContext/Binding.antt =====
-- `_args_and_kwargs` of `IOContext` (modal/_runtime/container_io_manager.py): the arguments of a batch, as one list for each
-- parameter.
use Prim.Native.String.{String}
use text.Mathlib.Text.{◌==◌ as str_eq}
use modal_client.Prelude.{
  ◌+◌, ◌==◌, Bool, false, not, ◌||◌, Option, none, some, List, [], ◌∷◌, length, Result, ok, err,
  ◌>>=◌, if◌then◌else◌,
}
use modal_client.Prelude.Names.{Names, get_name, set_name, has_name}
use modal_client.Blobs.Segment.{Bytes}
use modal_client.Invocations.Create.{Args, args, args_blob_id}
use modal_client.IoContext.{
  CallArgs, single, batch, FunctionInput, IoContext, ContextError, assertion_error, key_error,
  wrong_count, unexpected_argument, multiple_values,
}

abbrev pub is_param : String → List String → Bool
is_param k [] = false
is_param k (name ∷ names) = str_eq k name || is_param k names

-- the positional arguments and the keyword arguments of an input
abbrev pub BatchCall : Type 0 → Type 0
BatchCall V = List V × Names V

module _ {V : Type 0} where
  -- `kwargs_by_inputs[i][param_names[j]] = arg`
  unfoldable pub bind_args : List String → List V → Names V → Names V
  bind_args (name ∷ names) (arg ∷ rest) kwargs = bind_args names rest (set_name name arg kwargs)
  bind_args _ _ kwargs = kwargs

  unfoldable pub bind_kwargs : List String → Names V → Names V → Result ContextError (Names V)
  bind_kwargs param_names [] kwargs = ok kwargs
  bind_kwargs param_names ((k, v) ∷ given) kwargs =
      let rest = bind_kwargs param_names given (set_name k v kwargs) in
      if not (is_param k param_names)
      then err unexpected_argument
      else if has_name k kwargs
      then err multiple_values
      else rest

  -- one input
  unfoldable pub bind_call : List String → BatchCall V → Result ContextError (Names V)
  unfolding bind_args bind_kwargs
  bind_call param_names (positional, given) =
      if length positional + length given == length param_names
      then bind_kwargs param_names given (bind_args param_names positional [])
      else err wrong_count

  unfoldable pub bind_calls :
      List String → List (BatchCall V) → Result ContextError (List (Names V))
  unfolding bind_call
  bind_calls param_names [] = ok []
  bind_calls param_names (c ∷ cs) =
      let rest = bind_calls param_names cs in
      bind_call param_names c >>= λ kwargs. rest >>= λ others. ok (kwargs ∷ others)

  abbrev pub value_or_key_error : Option V → Result ContextError V
  value_or_key_error none = err key_error
  value_or_key_error (some v) = ok v

  -- `[kwargs[param_name] for kwargs in kwargs_by_inputs]`
  unfoldable pub column : String → List (Names V) → Result ContextError (List V)
  column name [] = ok []
  column name (kwargs ∷ rows) =
      let rest = column name rows in
      value_or_key_error (get_name name kwargs) >>= λ v. rest >>= λ vs. ok (v ∷ vs)

  -- the names of a signature differ
  unfoldable pub columns : List String → List (Names V) → Result ContextError (Names (List V))
  unfolding column
  columns [] rows = ok []
  columns (name ∷ names) rows =
      let rest = columns names rows in
      column name rows >>= λ vs. rest >>= λ others. ok ((name, vs) ∷ others)

  unfoldable pub batched_kwargs :
      List String → List (BatchCall V) → Result ContextError (Names (List V))
  unfolding bind_calls columns
  batched_kwargs param_names calls =
      bind_calls param_names calls >>= λ rows. columns param_names rows

  -- no bytes are no arguments
  abbrev pub deserialize_args :
      (Bytes → Result ContextError (BatchCall V)) → Args → Result ContextError (BatchCall V)
  deserialize_args deserialize (args []) = ok ([], [])
  deserialize_args deserialize (args (b ∷ bytes)) = deserialize (b ∷ bytes)
  deserialize_args deserialize (args_blob_id id) = ok ([], [])

  unfoldable pub deserialize_all :
      (Bytes → Result ContextError (BatchCall V))
      → List FunctionInput
      → Result ContextError (List (BatchCall V))
  deserialize_all deserialize [] = ok []
  deserialize_all deserialize (input ∷ inputs) =
      let rest = deserialize_all deserialize inputs in
      deserialize_args deserialize input.input_args >>= λ c. rest >>= λ cs. ok (c ∷ cs)

  abbrev pub first_call : List (BatchCall V) → Result ContextError (CallArgs V)
  first_call [] = err assertion_error
  first_call ((positional, given) ∷ _) = ok (single positional given)

  unfoldable pub args_and_kwargs :
      (Bytes → Result ContextError (BatchCall V)) → IoContext V → Result ContextError (CallArgs V)
  unfolding deserialize_all batched_kwargs
  args_and_kwargs deserialize c = deserialize_all deserialize c.function_inputs >>= λ calls.
      if c.is_batched
      then (batched_kwargs c.finalized_function.param_names calls >>= λ kwargs. ok (batch kwargs))
      else first_call calls

  unfoldable pub call_finalized_function :
      (Bytes → Result ContextError (BatchCall V)) → IoContext V → Result ContextError V
  unfolding args_and_kwargs
  call_finalized_function deserialize c =
      args_and_kwargs deserialize c >>= λ a. ok (c.finalized_function.call a)
