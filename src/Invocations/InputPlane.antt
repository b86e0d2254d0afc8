-- ===== src/Invocations/InputPlane.antt =====
-- `_InputPlaneInvocation` of modal/_functions.py: a call through the input plane, whose lost inputs are sent again.
use modal_client.Prelude.{
  ◌⊎◌, one_if, ℕ, zero, suc, ◌+◌, ◌≤◌, ◌<◌, ◌≡◌, refl, ap, ltb, Bool, true, false, Bool-cases, inl,
  inr, Option, none, some, Result, if◌then◌else◌, arith,
}
use modal_client.FilePatterns.Text.{Text}
use modal_client.MapItems.Data.{is_internal_failure}
use modal_client.Invocations.Result.{CallError, Unpickler, process_result}
use modal_client.Invocations.Poll.{Output}

abbrev pub max_internal_failure_count : ℕ
max_internal_failure_count = 8

-- what the n-th `AttemptAwait` gives for a token, and the token of an `AttemptRetry` after it
pub record Attempts : Type 0 where
  pub attempt_await : ℕ → Text → Option Output
  pub attempt_retry : ℕ → Text → Text

-- the output that ends the loop, with the token and the count by then
pub record LastOutput : Type 0 where
  pub output : Output
  pub attempt_token : Text
  pub internal_failure_count : ℕ

at_most_one : (b : Bool) → one_if b ≤ 1
at_most_one true = omega arith
at_most_one false = omega arith

module _ (s : Attempts) where
  -- a lost input is sent again, unless it was lost too often
  abbrev pub on_output : (Text → ℕ → Option LastOutput) → Text → ℕ → ℕ → Output → Option LastOutput
  on_output again token count n output =
      let last : ℕ → Option LastOutput = λ count.
        some (record { output = output; attempt_token = token; internal_failure_count = count }) in
      if is_internal_failure output.result.status
      then (if ltb (count + 1) max_internal_failure_count
          then again (s.attempt_retry n token) (count + 1)
          else last (count + 1))
      else last count

  abbrev pub after_await :
      (Text → ℕ → Option LastOutput) → Text → ℕ → ℕ → Option Output → Option LastOutput
  after_await again token count n none = again token count
  after_await again token count n (some output) = on_output again token count n output

  -- the loop from the n-th request on, with fuel
  unfoldable pub await_from : ℕ → Text → ℕ → ℕ → Option LastOutput
  await_from zero token count n = none
  await_from (suc fuel) token count n =
      after_await (λ token count. await_from fuel token count (n + 1)) token count n
        (s.attempt_await n token)

  abbrev pub processed :
      {V X : Type 0} → Unpickler V X → Option LastOutput → Option (Result (CallError X) V)
  processed u none = none
  processed u (some last) = some (process_result u last.output.result last.output.data_format)

  unfoldable pub run_attempts :
      {V X : Type 0} → Unpickler V X → ℕ → Text → Option (Result (CallError X) V)
  unfolding await_from
  run_attempts u fuel token = processed u (await_from fuel token 0 0)

  -- a request in time gets an output, whatever the token
  abbrev pub IsAnswered : (ℕ → Bool) → Type 0
  IsAnswered answered =
      (i : ℕ) (token : Text)
      → answered i ≡ true
      → (output : Output) × (s.attempt_await i token ≡ some output)

  -- how many of the requests from the n-th on are answered
  abbrev pub answers_in : (ℕ → Bool) → ℕ → ℕ → ℕ
  answers_in answered zero n = 0
  answers_in answered (suc k) n = one_if (answered n) + answers_in answered k (n + 1)

  -- the end of a run that has lost so many inputs: the eighth, or an output that is no failure of the server
  abbrev pub IsLast : LastOutput → Type 0
  IsLast last =
      if is_internal_failure last.output.result.status
      then (last.internal_failure_count ≡ max_internal_failure_count)
      else (last.internal_failure_count < max_internal_failure_count)

  -- From the n-th request on, the last output is reached in this many requests more: each of them was not
  -- answered in time, or gave a lost input, which is sent again and goes on with the token of that and one
  -- loss more; and the last one gave the output, which counts as a loss if it is one.
  abbrev pub Reaches : ℕ → Text → ℕ → ℕ → LastOutput → Type 0
  Reaches zero token count n last =
      (s.attempt_await n token ≡ some last.output)
      × (last.attempt_token ≡ token)
      × (last.internal_failure_count
          ≡ count + one_if (is_internal_failure last.output.result.status))
  Reaches (suc k) token count n last =
      ((s.attempt_await n token ≡ none) × Reaches k token count (n + 1) last)
      ⊎ ((lost : Output) × (s.attempt_await n token ≡ some lost)
          × (is_internal_failure lost.result.status ≡ true)
          × Reaches k (s.attempt_retry n token) (count + 1) (n + 1) last)

  Ends : Text → ℕ → ℕ → Option LastOutput → Type 0
  Ends token count n run =
      (last : LastOutput) × (run ≡ some last) × IsLast last × (k : ℕ) × Reaches k token count n last

  on_output-Ends :
      (again : Text → ℕ → Option LastOutput) (token : Text) (count n : ℕ) (output : Output)
      → s.attempt_await n token ≡ some output
      → count < max_internal_failure_count
      → ((token : Text)
          → count + 1 < max_internal_failure_count
          → Ends token (count + 1) (n + 1) (again token (count + 1)))
      → Ends token count n (on_output again token count n output)
  unfolding Ends
  on_output-Ends again token count n output got few later =
      elim (Bool-cases (is_internal_failure output.result.status)) [
        | inr fine ↦ rw fine (_, refl, rw fine few, zero, (got, refl, rw fine (omega arith)))
        | inl lost ↦ elim (Bool-cases (ltb (count + 1) max_internal_failure_count)) [
          | inl more ↦
              let (last, run, ends, k, reached) =
                later (s.attempt_retry n token) (ground (arith, more)) in
              rw (lost, more) (last, run, ends, suc k, inr (output, got, lost, reached))
          | inr over ↦
              rw (lost, over)
                (_, refl, rw lost (ground (arith, over, few)), zero, (got, refl, rw lost refl))
        ]
      ]

  after_await-Ends :
      (answered : ℕ → Bool) (token : Text) (count n : ℕ) (again : Text → ℕ → Option LastOutput)
      (o : Option Output)
      → IsAnswered answered
      → count < max_internal_failure_count
      → s.attempt_await n token ≡ o
      → (answered n ≡ false → Ends token count (n + 1) (again token count))
      → ((token : Text)
          → count + 1 < max_internal_failure_count
          → Ends token (count + 1) (n + 1) (again token (count + 1)))
      → Ends token count n (after_await again token count n o)
  unfolding Ends
  after_await-Ends answered token count n again none given few eq silently later =
      elim (Bool-cases (answered n)) [
        | inl heard ↦ let (output, got) = given n token heard in absurd (ground (arith, eq, got))
        | inr silent ↦
            let (last, run, ends, k, reached) = silently silent in
            (last, run, ends, suc k, inl (eq, reached))
      ]
  after_await-Ends answered token count n again (some output) given few eq silently later =
      on_output-Ends again token count n output eq few later

  await_from-Ends :
      (answered : ℕ → Bool) (fuel : ℕ) (token : Text) (count n : ℕ)
      → IsAnswered answered
      → count < max_internal_failure_count
      → max_internal_failure_count ≤ count + answers_in answered fuel n
      → Ends token count n (await_from fuel token count n)
  unfolding await_from
  await_from-Ends answered zero token count n given few enough = absurd (omega (arith, few, enough))
  await_from-Ends answered (suc fuel) token count n given few enough =
      after_await-Ends answered token count n (λ token count. await_from fuel token count (n + 1))
        (s.attempt_await n token) given few refl
        (λ silent.
          await_from-Ends answered fuel token count (n + 1) given few
            (omega (arith, enough, ap one_if silent)))
        (λ token more.
          await_from-Ends answered fuel token (count + 1) (n + 1) given more
            (omega (arith, enough, at_most_one (answered n))))

  -- If eight of the requests that the fuel allows are answered, then the run ends: each request before the last was
  -- not answered in time or gave a lost input, which was sent again and counted; the last output is what the server
  -- gave for the token of the last one sent; it is no failure of the server after seven lost inputs at most, or it is
  -- the eighth lost input; and the result of the run is the result of that output.
  pub run_attempts-ends :
      {V X : Type 0} (u : Unpickler V X) (answered : ℕ → Bool) (fuel : ℕ) (token : Text)
      → IsAnswered answered
      → max_internal_failure_count ≤ answers_in answered fuel 0
      → (last : LastOutput) × (run_attempts u fuel token
          ≡ some (process_result u last.output.result last.output.data_format))
        × IsLast last
        × (k : ℕ) × Reaches k token 0 0 last
  unfolding run_attempts Ends
  run_attempts-ends u answered fuel token given enough =
      let (last, run, ends, k, reached) =
        await_from-Ends answered fuel token 0 0 given (omega arith) (omega (arith, enough)) in
      (last, ap (λ r. processed u r) run, ends, k, reached)
