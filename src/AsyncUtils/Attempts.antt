-- ===== src/AsyncUtils/Attempts.antt =====
-- The decorator `retry` (modal/_utils/async_utils.py): a function is called again when it raises, after growing delays. The
-- numbers of the delays, with their product, are a parameter.
use modal_client.Prelude.{
  ℕ, zero, suc, ◌+◌, ◌≤◌, ◌<◌, ◌≡◌, refl, sym, ◌∙◌, subst, ap, leb, ◌⊎◌, inl, inr, Bool, true,
  false, List, [], ◌∷◌, if◌then◌else◌, arith,
}

-- one call: a timeout is an exception, and a cancellation is not tried again
pub data Attempt (V E : Type 0) : Type 0 where
  value : V → Attempt V E
  cancelled : Attempt V E
  exception : E → Attempt V E

-- how the loop ends: as a call did, or without a call
pub data LoopEnd (V E : Type 0) : Type 0 where
  as_call : Attempt V E → LoopEnd V E
  no_attempts : LoopEnd V E

pub record Attempted (V E D : Type 0) : Type 0 where
  pub ended : LoopEnd V E
  pub calls : ℕ
  pub sleeps : List D

-- the first delays
abbrev pub delays : {D : Type 0} → (D → D → D) → D → ℕ → D → List D
delays mul delay_factor zero delay = []
delays mul delay_factor (suc n) delay = delay ∷ delays mul delay_factor n (mul delay delay_factor)

abbrev pub raises : {V E : Type 0} → Attempt V E → Bool
raises (exception e) = true
raises _ = false

module _ {V E D : Type 0} where
  abbrev pub at_once : Attempt V E → Attempted V E D
  at_once a = record { ended = as_call a; calls = 1; sleeps = [] }

  -- `await asyncio.sleep(delay)` and the rest of the loop
  abbrev pub after_sleep : D → Attempted V E D → Attempted V E D
  after_sleep delay rest = record {
    ended = rest.ended;
    calls = suc rest.calls;
    sleeps = delay ∷ rest.sleeps;
  }

  abbrev pub after_attempt : ℕ → ℕ → D → Attempt V E → Attempted V E D → Attempted V E D
  after_attempt n_attempts i delay (value v) rest = at_once (value v)
  after_attempt n_attempts i delay cancelled rest = at_once cancelled
  after_attempt n_attempts i delay (exception e) rest =
      if leb n_attempts (suc i) then at_once (exception e) else after_sleep delay rest

  -- `for i in range(n_attempts)`: the calls from the i-th on, of which so many are left
  unfoldable pub attempts_from :
      (D → D → D) → D → (ℕ → Attempt V E) → ℕ → ℕ → ℕ → D → Attempted V E D
  attempts_from mul delay_factor fn n_attempts zero i delay = record {
    ended = no_attempts;
    calls = 0;
    sleeps = [];
  }
  attempts_from mul delay_factor fn n_attempts (suc left) i delay =
      let rest =
        attempts_from mul delay_factor fn n_attempts left (suc i) (mul delay delay_factor) in
      after_attempt n_attempts i delay (fn i) rest

  unfoldable pub retry : (D → D → D) → ℕ → D → D → (ℕ → Attempt V E) → Attempted V E D
  unfolding attempts_from
  retry mul n_attempts base_delay delay_factor fn =
      attempts_from mul delay_factor fn n_attempts n_attempts 0 base_delay

  ends_here :
      (n i : ℕ) (delay : D) (a : Attempt V E) (rest : Attempted V E D)
      → (raises a ≡ false) ⊎ (suc i ≡ n)
      → after_attempt n i delay a rest ≡ at_once a
  ends_here n i delay (value v) rest last = refl
  ends_here n i delay cancelled rest last = refl
  ends_here n i delay (exception e) rest (inl calm) = absurd (ground (arith, calm))
  ends_here n i delay (exception e) rest (inr last) = ground (arith, last)

  goes_on :
      (n i : ℕ) (delay : D) (a : Attempt V E) (rest : Attempted V E D)
      → raises a ≡ true
      → suc i < n
      → after_attempt n i delay a rest ≡ after_sleep delay rest
  goes_on n i delay (value v) rest bad more = absurd (ground (arith, bad))
  goes_on n i delay cancelled rest bad more = absurd (ground (arith, bad))
  goes_on n i delay (exception e) rest bad more = ground (arith, more)

  attempts_from-ended :
      (mul : D → D → D) (factor : D) (fn : ℕ → Attempt V E) (n m k left i : ℕ) (delay : D)
      → left + i ≡ n
      → k < left
      → m ≡ i + k
      → ((j : ℕ) → i ≤ j → j < m → raises (fn j) ≡ true)
      → (raises (fn m) ≡ false) ⊎ (suc m ≡ n)
      → attempts_from mul factor fn n left i delay
        ≡ record { ended = as_call (fn m); calls = suc k; sleeps = delays mul factor k delay }
  unfolding attempts_from
  attempts_from-ended mul factor fn n m k zero i delay total lt at bad last =
      absurd (omega (arith, lt))
  attempts_from-ended mul factor fn n m zero (suc left) i delay total lt at bad last =
      let same : m ≡ i = omega (arith, at) in
      ends_here n i delay (fn i) _ (subst (λ x. (raises (fn x) ≡ false) ⊎ (suc x ≡ n)) same last)
      ∙ ap (λ x. at_once (fn x)) (sym same)
  attempts_from-ended mul factor fn n m (suc k) (suc left) i delay total lt at bad last =
      goes_on n i delay (fn i) _ (bad i (omega arith) (omega (arith, at)))
        (omega (arith, total, lt))
      ∙ ap (after_sleep delay) (
          attempts_from-ended mul factor fn n m k left (suc i) (mul delay factor)
            (omega (arith, total)) (omega (arith, lt)) (omega (arith, at))
            (λ j le below. bad j (omega (arith, le)) below) last)

-- `retry` makes calls up to the first one that does not raise, or else all of them, and ends as the last of these calls does.
-- It sleeps once before each call but the first, and each of these delays is the one before times the factor.
pub retry-ended :
    {V E D : Type 0} (mul : D → D → D) (n_attempts : ℕ) (base_delay delay_factor : D)
    (fn : ℕ → Attempt V E) (k : ℕ)
    → k < n_attempts
    → ((j : ℕ) → j < k → raises (fn j) ≡ true)
    → (raises (fn k) ≡ false) ⊎ (suc k ≡ n_attempts)
    → retry mul n_attempts base_delay delay_factor fn ≡ record {
      ended = as_call (fn k);
      calls = suc k;
      sleeps = delays mul delay_factor k base_delay;
    }
unfolding retry
retry-ended mul n base factor fn k lt bad last =
    attempts_from-ended mul factor fn n k k n 0 base (omega arith) lt (omega arith) (λ j le. bad j)
      last
