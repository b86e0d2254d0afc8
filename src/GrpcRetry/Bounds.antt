-- ===== src/GrpcRetry/Bounds.antt =====
-- How often and for how long `retry_transient_errors` (modal/_utils/grpc_utils.py) tries.
use modal_client.Prelude.{
  ℕ, zero, suc, ◌+◌, ◌≤◌, ◌<◌, ◌≡◌, ◌≢◌, inl, inr, refl, leb, length, arith, Bool, false, String,
  Option, none, some, Result, ok, err, List, [], ◌∷◌, All, Bool-cases,
}
use modal_client.Float.{Floats}
use modal_client.GrpcRetry.{
  Failure, Raised, Options, least, out_of_tries, verdict, Answer, Attempt, Run, attempt, ends,
  goes_on, after_failure, after_answer, attempts, retry_transient_errors,
}
use modal_client.GrpcRetry.Laws.{verdict-none}

module _ (f : Floats) (A : Type 0) where
  open f use {R, lt, lt_irrefl, mul}

  -- What holds of a run that ends here, and of one that goes on after another try, holds of the run.
  after_answer_cases :
      (P : Run f A → Type 0) (a : Attempt f A) (delay : R) (outcome : Result Failure A)
      (raised : Failure → Option Raised) (rest : Run f A)
      → ((r : Result Raised A) → P (ends f A a r))
      → ((e : Failure) → raised e ≡ none → P (goes_on f A a delay rest))
      → P (after_answer f A a delay outcome raised rest)
  after_answer_cases P a delay (ok x) raised rest ended again = ended (ok x)
  after_answer_cases P a delay (err e) raised rest ended again = go (raised e) refl
    where
      go : (v : Option Raised) → raised e ≡ v → P (after_failure f A a delay v rest)
      go none v = again e v
      go (some x) v = ended (err x)

  -- the loop has ended after at most k retries
  abbrev pub EndsWithin : ℕ → Run f A → Type 0
  EndsWithin k r = (r.result ≢ none) × (length r.sent ≤ k + 1)

  attempts_end :
      (o : Options f) (key : String) (t0 : R) (m n k : ℕ) (delay : R) (rs : List (Answer f A))
      → o.max_retries ≡ some m
      → m ≡ n + k
      → k < length rs
      → EndsWithin k (attempts f A o key t0 n delay rs)
  unfolding attempts
  attempts_end o key t0 m n k delay [] max sum h = absurd (omega (arith, h))
  attempts_end o key t0 m n zero delay (r ∷ rs) max sum h =
      after_answer_cases (EndsWithin 0) (attempt f A o key t0 n r.asked_at) delay r.outcome
        (verdict f o t0 n delay r.ended_at)
        (attempts f A o key t0 (n + 1) (least f (mul delay o.delay_factor) o.max_delay) rs)
        (λ x. (ground arith, omega arith))
        (λ e again. absurd (
          no_try n sum (out_of_tries f o.max_retries n) (rw max refl)
            (verdict-none f A o t0 n delay r.ended_at e again).1))
    where
      no_try : (n : ℕ) → m ≡ n + 0 → (b : Bool) → b ≡ leb m n → b ≡ false → ⊥
      no_try n sum b is open_ = ground (arith, sum, is, open_)
  attempts_end o key t0 m n (suc k) delay (r ∷ rs) max sum h =
      let next = least f (mul delay o.delay_factor) o.max_delay in
      let (over, few) =
        attempts_end o key t0 m (n + 1) k next rs max (omega (arith, sum)) (omega (arith, h)) in
      after_answer_cases (EndsWithin (suc k)) (attempt f A o key t0 n r.asked_at) delay r.outcome
        (verdict f o t0 n delay r.ended_at) (attempts f A o key t0 (n + 1) next rs)
        (λ x. (ground arith, omega arith)) (λ e again. (over, omega (arith, few)))

  -- A server that gives one answer more than the retries allowed ends the loop, with at most one call
  -- more than the retries allowed.
  pub retry_transient_errors_ends :
      (o : Options f) (key : String) (t0 : R) (k : ℕ) (rs : List (Answer f A))
      → o.max_retries ≡ some k
      → k < length rs
      → let run = retry_transient_errors f A o key t0 rs in
        (run.result ≢ none) × (length run.sent ≤ k + 1)
  unfolding retry_transient_errors
  retry_transient_errors_ends o key t0 k rs max h =
      attempts_end o key t0 k 0 k o.base_delay rs max (omega arith) h

  least_below : (a b : R) → lt b (least f a b) ≡ false
  least_below a b = elim (Bool-cases (lt b a)) [ inl q ↦ rw q (lt_irrefl b) | inr q ↦ rw q q ]

  -- attempts numbered from n, all with this key
  abbrev pub AreNumbered : String → ℕ → List (Attempt f A) → Type 0
  AreNumbered key n [] = Unit
  AreNumbered key n (a ∷ rest) =
      ((a.idempotency_key ≡ key) × (a.retry_attempt ≡ n)) × AreNumbered key (n + 1) rest

  abbrev pub IsWithin : R → R → Type 0
  IsWithin limit delay = lt limit delay ≡ false

  attempts_regular :
      (o : Options f) (key : String) (t0 : R) (n : ℕ) (delay : R) (rs : List (Answer f A))
      → IsWithin o.max_delay delay
      → let run = attempts f A o key t0 n delay rs in
        AreNumbered key n run.sent × All (IsWithin o.max_delay) run.slept
  unfolding attempts
  attempts_regular o key t0 n delay [] h = (tt, tt)
  attempts_regular o key t0 n delay (r ∷ rs) h =
      let next = least f (mul delay o.delay_factor) o.max_delay in
      let (numbered, short) =
        attempts_regular o key t0 (n + 1) next rs
          (least_below (mul delay o.delay_factor) o.max_delay) in
      after_answer_cases (λ run. AreNumbered key n run.sent × All (IsWithin o.max_delay) run.slept)
        (attempt f A o key t0 n r.asked_at) delay r.outcome (verdict f o t0 n delay r.ended_at)
        (attempts f A o key t0 (n + 1) next rs) (λ x. (((refl, refl), tt), tt))
        (λ e again. (((refl, refl), numbered), (h, short)))

  -- If the first delay is at most the greatest, then every sleep is; and the attempts carry the numbers
  -- 0, 1, ... and the same idempotency key, so the server can tell a repeated call from a new one.
  retry_transient_errors_regular :
      (o : Options f) (key : String) (t0 : R) (rs : List (Answer f A))
      → lt o.max_delay o.base_delay ≡ false
      → let run = retry_transient_errors f A o key t0 rs in
        AreNumbered key 0 run.sent × All (IsWithin o.max_delay) run.slept
  unfolding retry_transient_errors
  retry_transient_errors_regular o key t0 rs h = attempts_regular o key t0 0 o.base_delay rs h
