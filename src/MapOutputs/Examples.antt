-- ===== src/MapOutputs/Examples.antt =====
-- The counters and the outputs of small map calls (modal/parallel_map.py).
use modal_client.Prelude.{ℕ, ◌+◌, ◌≡◌, refl, true, List, [], ◌∷◌, map, arith}
use modal_client.MapOutputs.Progress.{Call, create_input, all_inputs, complete_output}
use modal_client.MapOutputs.Order.{begin, poll_outputs}
use modal_client.MapOutputs.Complete.{arrival, poll_outputs_in_order}

abbrev calls : List Call
calls = create_input ∷ create_input ∷ complete_output ∷ all_inputs ∷ complete_output ∷ []

abbrev ten_times : ℕ → ℕ
ten_times i = i + 10

-- the outputs of the inputs 1 to 3, the second first
poll_outputs_in_order_example :
    poll_outputs ℕ true (map (arrival ℕ ten_times) (2 ∷ 1 ∷ 3 ∷ [])) (begin ℕ 1)
    ≡ (11 ∷ 12 ∷ 13 ∷ [], record { received_outputs = []; output_idx = 4 })
poll_outputs_in_order_example =
    poll_outputs_in_order ℕ ten_times 1 3 (2 ∷ 1 ∷ 3 ∷ []) (refl, (refl, (refl, tt)))
      (λ k. ground arith)
