-- ===== src/IoContext/Examples.antt =====
-- Tests and concrete runs of `IOContext` (modal/_runtime/container_io_manager.py).
use Prim.Native.String.{String}
use modal_client.Prelude.{
  ℕ, ◌≡◌, refl, true, false, some, List, [], ◌∷◌, ◌++◌, map, All, ok, err, ◌>>=◌,
}
use modal_client.Prelude.Names.{Names, get_name}
use modal_client.Invocations.Create.{args}
use modal_client.IoContext.{
  FetchedInput, CallArgs, batch, single, FinalizedFunction, assertion_error, multiple_values,
  create,
}
use modal_client.IoContext.Binding.{
  BatchCall, bind_calls, bind_call, batched_kwargs, call_finalized_function,
}
use modal_client.IoContext.Rows.{zip}
use modal_client.IoContext.Columns.{batched_kwargs-columns}

abbrev two_calls : List (BatchCall ℕ)
two_calls = (1 ∷ 2 ∷ [], []) ∷ (3 ∷ [], ("y", 4) ∷ []) ∷ []

abbrev x_and_y : List String
x_and_y = "x" ∷ "y" ∷ []

batched_kwargs-columns_example :
    (cols : Names (List ℕ)) × (batched_kwargs x_and_y two_calls ≡ ok cols)
    × (map (λ p. p.0) cols ≡ x_and_y)
    × All
        (λ col. map some col.1 ≡ map (get_name col.0) (map (λ c. zip x_and_y c.0 ++ c.1) two_calls))
        cols
unfolding bind_calls
batched_kwargs-columns_example =
    batched_kwargs-columns x_and_y two_calls
      ((("x", 1) ∷ ("y", 2) ∷ []) ∷ (("x", 3) ∷ ("y", 4) ∷ []) ∷ []) (refl, (refl, tt)) refl

given_twice : bind_call {V = ℕ} x_and_y (1 ∷ [], ("x", 4) ∷ []) ≡ err multiple_values
unfolding bind_call
given_twice = refl

abbrev total : CallArgs ℕ → ℕ
total (single _ _) = 0
total (batch []) = 1
total (batch ((_, []) ∷ _)) = 2
total (batch ((_, v ∷ _) ∷ _)) = v

abbrev summing : FinalizedFunction ℕ
summing = record { param_names = x_and_y; call = total }

abbrev fetched : String → FetchedInput
fetched id = record {
  input_id = id;
  retry_count = 0;
  function_call_id = "fc";
  function_input = record { input_args = args (7 ∷ []); method_name = "f" };
}

called :
    (create (λ id. []) (("f", summing) ∷ []) (fetched "a" ∷ fetched "b" ∷ []) true >>= λ c.
    call_finalized_function (λ bytes. ok (5 ∷ 6 ∷ [], [])) c)
    ≡ ok 5
unfolding create call_finalized_function
called = refl

not_one :
    create (λ id. []) (("f", summing) ∷ []) (fetched "a" ∷ fetched "b" ∷ []) false
    ≡ err assertion_error
unfolding create
not_one = refl
