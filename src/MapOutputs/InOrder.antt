-- ===== src/MapOutputs/InOrder.antt =====
-- `poll_outputs` (modal/parallel_map.py) yields in the order of the inputs.
use Prim.Native.Nat.add
use modal_client.Prelude.{
  ℕ, zero, suc, ◌+◌, ◌≤◌, ◌<◌, ◌≡◌, refl, Bool, true, false, ◌&&◌, ◌||◌, leb, ◌==◌, length, map,
  Option-cases, inl, inr, none, some, List, [], ◌∷◌, ◌++◌, arith, ap, if◌then◌else◌,
}
use modal_client.Prelude.Dict.{
  Dict, lookup, insert, erase, IsDict, lookup-insert, lookup-erase_ne, lookup-erase_self,
  insert-IsDict, erase-IsDict, length-erase,
}
use modal_client.MapOutputs.Order.{Poll, drain}

abbrev pub elem : ℕ → List ℕ → Bool
elem k [] = false
elem k (x ∷ xs) = (k == x) || elem k xs

abbrev pub IsNodup : List ℕ → Type 0
IsNodup [] = Unit
IsNodup (x ∷ xs) = (elem x xs ≡ false) × IsNodup xs

-- n, n + 1, …, n + m - 1
abbrev pub range : ℕ → ℕ → List ℕ
range n zero = []
range n (suc m) = n ∷ range (n + 1) m

pub range-append : (n m k : ℕ) → range n (m + k) ≡ range n m ++ range (n + m) k
range-append n zero k = ground arith
range-append n (suc m) k =
    rw (add.suc, range-append (n + 1) m k)
      (ap (λ j. n ∷ (range (n + 1) m ++ range j k)) (omega arith))

module _ (A : Type 0) (value : ℕ → A) (start : ℕ) where
  -- Of the outputs that have come, those before `output_idx` are yielded, and the others are held.
  pub record IsHeld (seen : List ℕ) (p : Poll A) : Type 0 where
    pub reached : start ≤ p.output_idx
    pub held :
        (k : ℕ)
        → lookup k p.received_outputs
          ≡ (if leb p.output_idx k && elem k seen then some (value k) else none)
    pub yielded : (k : ℕ) → start ≤ k → k < p.output_idx → elem k seen ≡ true
    pub keys : IsDict p.received_outputs

  take_out :
      (seen : List ℕ) (p : Poll A) (v : A)
      → IsHeld seen p
      → lookup p.output_idx p.received_outputs ≡ some v
      → IsHeld seen (record {
        received_outputs = erase p.output_idx p.received_outputs;
        output_idx = p.output_idx + 1;
      })
  take_out seen p v h found = record {
    reached = omega (arith, h.reached);
    held = λ k. ground (
      arith,
      h.held k,
      lookup-erase_self p.output_idx p.received_outputs h.keys,
      lookup-erase_ne k p.output_idx p.received_outputs,
    );
    yielded = λ k low high. ground (arith, h.yielded k low, h.held p.output_idx, found);
    keys = erase-IsDict p.output_idx p.received_outputs h.keys;
  }

  -- the loop stops at the first output that has not come, having yielded the values before it
  abbrev pub Drained : List ℕ → Poll A → List A × Poll A → Type 0
  Drained seen p (ys, q) =
      (m : ℕ) × (q.output_idx ≡ p.output_idx + m)
      × (ys ≡ map value (range p.output_idx m))
      × IsHeld seen q
      × (lookup q.output_idx q.received_outputs ≡ none)

  value_found :
      (seen : List ℕ) (p : Poll A) (v : A)
      → IsHeld seen p
      → lookup p.output_idx p.received_outputs ≡ some v
      → v ≡ value p.output_idx
  value_found seen p v h found = ground (arith, h.held p.output_idx, found)

  empty_lookup : (d : Dict A) (k : ℕ) → length d ≤ 0 → lookup k d ≡ none
  empty_lookup [] k h = refl
  empty_lookup (e ∷ d) k h = absurd (omega arith)

  pub drain-Drained :
      (fuel : ℕ) (seen : List ℕ) (p : Poll A)
      → length p.received_outputs ≤ fuel
      → IsHeld seen p
      → Drained seen p (drain A fuel p)
  unfolding drain
  drain-Drained zero seen p enough h =
      (0, omega arith, refl, h, empty_lookup p.received_outputs p.output_idx enough)
  drain-Drained (suc fuel) seen p enough h =
      elim (Option-cases (lookup p.output_idx p.received_outputs)) [
        | inl missing ↦ rw (missing, drain) (0, omega arith, refl, h, missing)
        | inr (v, found) ↦
            let (m, ahead, values, held', stops) =
              drain-Drained fuel seen
                (record {
                  received_outputs = erase p.output_idx p.received_outputs;
                  output_idx = p.output_idx + 1;
                })
                (omega (arith, length-erase p.output_idx p.received_outputs (λ gone. cc)))
                (take_out seen p v h found) in
            rw (found, drain)
              (
                suc m,
                omega (arith, ahead),
                ground (arith, value_found seen p v h found, values),
                held',
                stops,
              )
      ]

  -- one more output, whose index is new
  pub put_in :
      (seen : List ℕ) (idx : ℕ) (p : Poll A)
      → start ≤ idx
      → elem idx seen ≡ false
      → IsHeld seen p
      → IsHeld
          (idx ∷ seen)
          (record p { received_outputs = insert idx (value idx) p.received_outputs })
  put_in seen idx p low new h = record {
    reached = h.reached;
    held = λ k.
        ground
          (arith, h.held k, h.yielded idx low, lookup-insert k idx (value idx) p.received_outputs);
    yielded = λ k above below. ground (arith, h.yielded k above below);
    keys = insert-IsDict idx (value idx) p.received_outputs h.keys;
  }
