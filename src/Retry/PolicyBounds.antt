-- ===== src/Retry/PolicyBounds.antt =====
-- What the server may rely on in a policy that passed the checks of modal/retries.py.
use modal_client.Prelude.{subst, sym, ap, ◌≤◌, ◌≡◌, false, ok, arith}
use modal_client.Prelude.Int.{ℤ, pos, ◌≤ℤ◌, pos_part}
use modal_client.Float.{Floats}
use modal_client.Retry.Delays.{HasDelays, allowed-HasDelays}
use modal_client.Retry.Policy.{Retries, retries, to_proto}

module _ (f : Floats) where
  open f use {
    R, of_nat, lt, to_float32, to_float32_mono, to_float32-of_nat, micros, micros_mono,
    micros-of_nat,
  }

  -- the facts of the guards that a constructed policy has passed
  record Passed (n : ℤ) (coefficient initial longest : R) (r : Retries f) : Type 0 where
    count_low : pos 0 ≤ℤ n
    count_high : n ≤ℤ pos 10
    longest_low : lt longest (of_nat 1) ≡ false
    longest_high : lt (of_nat 60) longest ≡ false
    initial_low : lt initial (of_nat 0) ≡ false
    initial_high : lt (of_nat 60) initial ≡ false
    coefficient_low : lt coefficient (of_nat 1) ≡ false
    coefficient_high : lt (of_nat 10) coefficient ≡ false
    stored_count : r.max_retries ≡ pos_part n
    stored_coefficient : r.backoff_coefficient ≡ coefficient
    stored_initial : r.initial_delay ≡ micros initial
    stored_longest : r.max_delay ≡ micros longest

  retries-Passed :
      (n : ℤ) (coefficient initial longest : R) (r : Retries f)
      → retries f n coefficient initial longest ≡ ok r
      → Passed n coefficient initial longest r
  unfolding retries
  retries-Passed n coefficient initial longest r h = ground arith

  rounded_low : (a : R) → lt a (of_nat 1) ≡ false → lt (to_float32 a) (of_nat 1) ≡ false
  rounded_low a h =
      subst (λ one. lt (to_float32 a) one ≡ false) (to_float32-of_nat 1 (omega arith))
        (to_float32_mono (of_nat 1) a h)

  rounded_high : (a : R) → lt (of_nat 10) a ≡ false → lt (of_nat 10) (to_float32 a) ≡ false
  rounded_high a h =
      subst (λ ten. lt ten (to_float32 a) ≡ false) (to_float32-of_nat 10 (omega arith))
        (to_float32_mono a (of_nat 10) h)

  -- If the constructor accepts its arguments, then the message has the given retry count, which
  -- is at most 10, the given coefficient rounded to 32 bits, which is from 1 to 10, an initial delay
  -- of at most 60,000 ms and a longest delay from 1,000 to 60,000 ms; and no delay that a manager
  -- computes for it overflows.
  pub to_proto_bounds :
      (n : ℤ) (coefficient initial longest : R) (r : Retries f)
      → retries f n coefficient initial longest ≡ ok r
      → let p = to_proto f r in
        (pos p.retries ≡ n)
        × (p.retries ≤ 10)
        × (p.backoff_coefficient ≡ to_float32 coefficient)
        × (lt p.backoff_coefficient (of_nat 1) ≡ false)
        × (lt (of_nat 10) p.backoff_coefficient ≡ false)
        × (p.initial_delay_ms ≤ 60_000)
        × (1000 ≤ p.max_delay_ms)
        × (p.max_delay_ms ≤ 60_000)
        × HasDelays f p
  unfolding to_proto
  to_proto_bounds n coefficient initial longest r h =
      let q = retries-Passed n coefficient initial longest r h in
      let top = micros-of_nat 60 (omega arith) in
      let one = micros-of_nat 1 (omega arith) in
      let initial_top = micros_mono initial (of_nat 60) q.initial_high in
      let longest_top = micros_mono longest (of_nat 60) q.longest_high in
      let longest_one = micros_mono (of_nat 1) longest q.longest_low in
      let si = q.stored_initial in
      let sl = q.stored_longest in
      let stored = q.stored_coefficient in
      let few : r.max_retries ≤ 10 = ground (arith, q.count_high, q.stored_count) in
      let low : lt (to_float32 r.backoff_coefficient) (of_nat 1) ≡ false =
        rounded_low r.backoff_coefficient
          (subst (λ c. lt c (of_nat 1) ≡ false) (sym stored) q.coefficient_low) in
      let high : lt (of_nat 10) (to_float32 r.backoff_coefficient) ≡ false =
        rounded_high r.backoff_coefficient
          (subst (λ c. lt (of_nat 10) c ≡ false) (sym stored) q.coefficient_high) in
      (
        ground (arith, q.count_low, q.stored_count),
        few,
        ap to_float32 stored,
        low,
        high,
        omega arith,
        omega arith,
        omega arith,
        allowed-HasDelays f (to_proto f r) few low high,
      )
