-- ===== src/MapOutputs/Complete.antt =====
-- A whole run of `poll_outputs` (modal/parallel_map.py): when every output has come, in any order,
-- the caller has got them all in the order of the inputs.
use mathlib.Core.List.{map-append}
use modal_client.Prelude.{
  ℕ, ◌+◌, ◌≤◌, ◌≡◌, refl, true, false, ◌&&◌, ◌||◌, ltb, leb, map, none, List, [], ◌∷◌, All, arith,
  length,
}
use modal_client.Prelude.Dict.{Dict, lookup, insert}
use modal_client.MapOutputs.Order.{Poll, begin, drain, receive, poll_outputs}
use modal_client.MapOutputs.InOrder.{
  elem, range, range-append, IsHeld, Drained, drain-Drained, put_in,
}

-- None of the indices has been seen, and none comes twice.
abbrev pub AreDistinct : List ℕ → List ℕ → Type 0
AreDistinct seen [] = Unit
AreDistinct seen (i ∷ is) = (elem i seen ≡ false) × AreDistinct (i ∷ seen) is

all_seen : List ℕ → List ℕ → List ℕ
all_seen seen [] = seen
all_seen seen (i ∷ is) = all_seen (i ∷ seen) is

elem-all_seen : (k : ℕ) (seen is : List ℕ) → elem k (all_seen seen is) ≡ (elem k is || elem k seen)
unfolding all_seen
elem-all_seen k seen [] = refl
elem-all_seen k seen (i ∷ is) = ground (arith, elem-all_seen k (i ∷ seen) is)

all_from : (P : ℕ → Type 0) (is : List ℕ) → ((k : ℕ) → elem k is ≡ true → P k) → All P is
all_from P [] h = tt
all_from P (i ∷ is) h = (h i (ground arith), all_from P is (λ k e. h k (ground (arith, e))))

module _ (A : Type 0) (value : ℕ → A) where
  abbrev pub arrival : ℕ → ℕ × A
  arrival i = (i, value i)

  run-Drained :
      (start : ℕ) (seen is : List ℕ) (p : Poll A)
      → All (λ i. start ≤ i) is
      → AreDistinct seen is
      → IsHeld A value start seen p
      → lookup p.output_idx p.received_outputs ≡ none
      → Drained A value start (all_seen seen is) p (poll_outputs A true (map arrival is) p)
  unfolding poll_outputs receive all_seen
  run-Drained start seen [] p low new h stops = (0, omega arith, refl, h, stops)
  run-Drained start seen (i ∷ is) p low new h stops =
      let p₁ : Poll A = record p { received_outputs = insert i (value i) p.received_outputs } in
      let (m, ahead, values, h₂, stops₂) =
        drain-Drained A value start (length p₁.received_outputs) (i ∷ seen) p₁ (omega arith)
          (put_in A value start seen i p low.0 new.0 h) in
      let p₂ = (drain A (length p₁.received_outputs) p₁).1 in
      let (n, further, rest, h₃, stops₃) =
        run-Drained start (i ∷ seen) is p₂ low.1 new.1 h₂ stops₂ in
      (
        m + n,
        omega (arith, ahead, further),
        rw
            (
              range-append p.output_idx m n,
              map-append value (range p.output_idx m) (range (p.output_idx + m) n),
            )
            (cc (values, rest, ahead)),
        h₃,
        stops₃,
      )

  no_entries : (d : Dict A) → ((k : ℕ) → lookup k d ≡ none) → d ≡ []
  no_entries [] h = refl
  no_entries ((k, v) ∷ d) h = absurd (ground (arith, h k))

  nothing_yet : (start : ℕ) → IsHeld A value start [] (begin A start)
  nothing_yet start = record {
    reached = omega arith;
    held = λ k. ground arith;
    yielded = λ k low high. absurd (omega arith);
    keys = tt;
  }

  module _ (start n : ℕ) (is : List ℕ)
      (exact : (k : ℕ) → elem k is ≡ (leb start k && ltb k (start + n))) where
    seen_exactly : (k : ℕ) → elem k (all_seen [] is) ≡ (leb start k && ltb k (start + n))
    seen_exactly k = ground (arith, elem-all_seen k [] is, exact k)

    all_yielded :
        (m : ℕ) (q : Poll A)
        → q.output_idx ≡ start + m
        → IsHeld A value start (all_seen [] is) q
        → lookup q.output_idx q.received_outputs ≡ none
        → m ≡ n
    all_yielded m q ahead h stops = ground (
      arith,
      h.yielded (start + n) (omega arith),
      seen_exactly (start + n),
      seen_exactly q.output_idx,
      h.held q.output_idx,
    )

    none_held :
        (q : Poll A)
        → q.output_idx ≡ start + n
        → IsHeld A value start (all_seen [] is) q
        → (k : ℕ) → lookup k q.received_outputs ≡ none
    none_held q ahead h k = ground (arith, h.held k, seen_exactly k)

    conclude :
        (r : List A × Poll A)
        → Drained A value start (all_seen [] is) (begin A start) r
        → r ≡ (map value (range start n), record { received_outputs = []; output_idx = start + n })
    conclude (ys, q) (m, ahead, values, h, stops) =
        let all : m ≡ n = all_yielded m q ahead h stops in
        let last : q.output_idx ≡ start + n = omega (arith, ahead, all) in
        let left : q.received_outputs ≡ [] = no_entries q.received_outputs (none_held q last h) in
        cc (all, values, last, left)

  -- If the indices of the outputs that come are exactly start, …, start + n - 1, each once, in any
  -- order, then with order_outputs the caller gets the values in the order of the indices, nothing
  -- is held back, and all are counted.
  pub poll_outputs_in_order :
      (start n : ℕ) (is : List ℕ)
      → AreDistinct [] is
      → ((k : ℕ) → elem k is ≡ (leb start k && ltb k (start + n)))
      → poll_outputs A true (map arrival is) (begin A start)
        ≡ (map value (range start n), record { received_outputs = []; output_idx = start + n })
  poll_outputs_in_order start n is new exact =
      let low : All (λ i. start ≤ i) is =
        all_from (λ i. start ≤ i) is (λ k e. ground (arith, e, exact k)) in
      conclude start n is exact (poll_outputs A true (map arrival is) (begin A start))
        (run-Drained start [] is (begin A start) low new (nothing_yet start) refl)
