-- ===== src/MapOutputs/Order.antt =====
-- `poll_outputs` of modal/parallel_map.py: `received_outputs` holds what has come too early.
use modal_client.Prelude.{
  ℕ, zero, suc, ◌+◌, Bool, length, none, some, List, [], ◌∷◌, ◌++◌, if◌then◌else◌,
}
use modal_client.Prelude.Dict.{Dict, lookup, insert, erase}

module _ (A : Type 0) where
  -- the local variables of `poll_outputs`
  pub record Poll : Type 0 where
    pub received_outputs : Dict A
    pub output_idx : ℕ

  -- `output_idx = 0`, or 1 on the input plane
  abbrev pub begin : ℕ → Poll
  begin start = record { received_outputs = []; output_idx = start }

  -- The inner `while True`, with fuel: each round takes an output out.
  unfoldable pub drain : ℕ → Poll → List A × Poll
  drain zero p = ([], p)
  drain (suc fuel) p = elim (lookup p.output_idx p.received_outputs) [
    | none ↦ ([], p)
    | some output ↦
        let (ys, q) = drain fuel (record {
          received_outputs = erase p.output_idx p.received_outputs;
          output_idx = p.output_idx + 1;
        }) in
        (output ∷ ys, q)
  ]

  -- what is yielded for one output that arrives
  unfoldable pub receive : Bool → ℕ → A → Poll → List A × Poll
  receive order_outputs idx output p =
      let received = insert idx output p.received_outputs in
      if order_outputs
      then drain (length received) (record p { received_outputs = received })
      else (output ∷ [], p)

  unfoldable pub poll_outputs : Bool → List (ℕ × A) → Poll → List A × Poll
  poll_outputs order_outputs [] p = ([], p)
  poll_outputs order_outputs ((idx, output) ∷ rest) p =
      let (ys, p') = receive order_outputs idx output p in
      let (zs, p'') = poll_outputs order_outputs rest p' in (ys ++ zs, p'')
