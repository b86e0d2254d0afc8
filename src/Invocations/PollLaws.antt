-- ===== src/Invocations/PollLaws.antt =====
-- `pop_function_call_outputs` of modal/_functions.py ends, by the outputs or by the clock.
use modal_client.Prelude.{
  ℕ, zero, suc, ◌+◌, ◌≤◌, ◌<◌, ◌≡◌, refl, ap, ◌⊎◌, inl, inr, Bool, true, false, Option, none, some,
  List, [], ◌∷◌, is_empty, arith, subst,
}
use modal_client.Float.{Floats}
use modal_client.FilePatterns.Text.{Text}
use modal_client.Invocations.Poll.{
  Output, GetOutputsResponse, GetOutputsRequest, Server, outputs_timeout, min_R, next_timeout,
  poll_again, after_response, poll_from, first_timeout, pop_function_call_outputs,
}

module _ (f : Floats) (s : Server f) where
  open f use {R, of_nat, add, sub, lt}

  -- the time is over after the n-th answer
  abbrev pub IsOver : R → Option R → ℕ → Type 0
  IsOver t0 none n = ⊥
  IsOver t0 (some timeout) n =
      lt (min_R f (outputs_timeout f) (sub (add t0 timeout) (s.now n))) (of_nat 0) ≡ true

  -- the n-th answer has outputs, whatever the time that the request leaves
  abbrev pub HasOutputs : ℕ → Type 0
  HasOutputs n = (request : GetOutputsRequest f) → is_empty (s.answers n request).outputs ≡ false

  -- a response with outputs, or the last one before the time was over
  abbrev pub IsSettled : R → Option R → GetOutputsResponse → ℕ → Type 0
  IsSettled t0 timeout response n = (is_empty response.outputs ≡ false) ⊎ IsOver t0 timeout n

  -- a poll from the n-th request on that ends before a bound
  abbrev pub Ends : R → Option R → ℕ → ℕ → Option (GetOutputsResponse × ℕ) → Type 0
  Ends t0 timeout n bound poll =
      (response : GetOutputsResponse) × (m : ℕ) × (poll ≡ some (response, m + 1))
      × (n ≤ m)
      × (m ≤ bound)
      × IsSettled t0 timeout response m

  -- the next request, or the last response
  poll_again-Ends :
      (again : R → Option (GetOutputsResponse × ℕ)) (t0 : R) (timeout : Option R) (n bound : ℕ)
      (response : GetOutputsResponse) (o : Option R)
      → n ≤ bound
      → ((o ≡ none) → IsOver t0 timeout n)
      → ((left : R) → o ≡ some left → Ends t0 timeout n bound (again left))
      → Ends t0 timeout n bound (poll_again f s again (response, n + 1) o)
  poll_again-Ends again t0 timeout n bound response none le over later =
      (response, n, refl, omega arith, le, inr (over refl))
  poll_again-Ends again t0 timeout n bound response (some left) le over later = later left refl

  none-IsOver :
      (t0 : R) (timeout : Option R) (n : ℕ) (backend : R)
      → next_timeout f s t0 timeout n backend ≡ none
      → IsOver t0 timeout n
  none-IsOver t0 none n backend e = absurd (ground (arith, e))
  none-IsOver t0 (some timeout) n backend e = ground (arith, e)

  some-not-IsOver :
      (t0 : R) (timeout : Option R) (n : ℕ) (backend left : R)
      → next_timeout f s t0 timeout n backend ≡ some left
      → IsOver t0 timeout n
      → ⊥
  some-not-IsOver t0 none n backend left e over = over
  some-not-IsOver t0 (some timeout) n backend left e over = ground (arith, e, over)

  -- one round, when the time is over or the rounds after it end
  round-Ends :
      (id : Text) (clear : Bool) (jwts : Option (List Text)) (t0 : R) (timeout : Option R)
      (bound fuel n : ℕ) (backend : R)
      → n ≤ bound
      → (HasOutputs n
          ⊎ (IsOver t0 timeout n
              ⊎ ((left : R)
                  → Ends t0 timeout n bound
                      (poll_from f s fuel id clear jwts t0 timeout (n + 1) left))))
      → Ends t0 timeout n bound (poll_from f s (suc fuel) id clear jwts t0 timeout n backend)
  unfolding poll_from
  round-Ends id clear jwts t0 timeout bound fuel n backend le next =
      by_outputs response.outputs refl
        (elim next [ inl has ↦ inl (has request) | inr over ↦ inr over ])
    where
      request : GetOutputsRequest f
      request = record {
        function_call_id = id;
        timeout = backend;
        clear_on_success = clear;
        input_jwts = jwts;
      }

      response : GetOutputsResponse
      response = s.answers n request

      again : R → Option (GetOutputsResponse × ℕ)
      again left = poll_from f s fuel id clear jwts t0 timeout (n + 1) left

      by_outputs :
          (outputs : List Output)
          → response.outputs ≡ outputs
          → ((is_empty response.outputs ≡ false)
              ⊎ (IsOver t0 timeout n ⊎ ((left : R) → Ends t0 timeout n bound (again left))))
          → Ends t0 timeout n bound (after_response f s again t0 timeout n backend response outputs)
      by_outputs (o ∷ os) eq next = (response, n, refl, omega arith, le, inl (ap is_empty eq))
      by_outputs [] eq (inl has) = absurd (ground (arith, has, eq))
      by_outputs [] eq (inr next) =
          poll_again-Ends again t0 timeout n bound response (next_timeout f s t0 timeout n backend)
            le (none-IsOver t0 timeout n backend)
            (λ left e. elim next [
              | inl over ↦ absurd (some-not-IsOver t0 timeout n backend left e over)
              | inr later ↦ later left
            ])

  -- an end that is found one request later
  later-Ends :
      (t0 : R) (timeout : Option R) (n bound bound' : ℕ) (poll : Option (GetOutputsResponse × ℕ))
      → bound ≡ bound'
      → Ends t0 timeout (n + 1) bound poll
      → Ends t0 timeout n bound' poll
  later-Ends t0 timeout n bound bound' poll eq (response, m, e, low, high, settled) =
      (response, m, e, omega (arith, low), omega (arith, high, eq), settled)

  poll_from-Ends :
      (id : Text) (clear : Bool) (jwts : Option (List Text)) (t0 : R) (timeout : Option R)
      (k fuel n : ℕ) (backend : R)
      → k < fuel
      → (HasOutputs (n + k) ⊎ IsOver t0 timeout (n + k))
      → Ends t0 timeout n (n + k) (poll_from f s fuel id clear jwts t0 timeout n backend)
  poll_from-Ends id clear jwts t0 timeout k zero n backend enough stops =
      absurd (omega (arith, enough))
  poll_from-Ends id clear jwts t0 timeout zero (suc fuel) n backend enough stops =
      round-Ends id clear jwts t0 timeout (n + 0) fuel n backend (omega arith)
        (elim (subst (λ m. HasOutputs m ⊎ IsOver t0 timeout m) (omega arith) stops) [
          | inl has ↦ inl has
          | inr over ↦ inr (inl over)
        ])
  poll_from-Ends id clear jwts t0 timeout (suc k) (suc fuel) n backend enough stops =
      round-Ends id clear jwts t0 timeout (n + suc k) fuel n backend (omega arith) (
        inr (
          inr (λ left. later-Ends t0 timeout n (n + 1 + k) (n + suc k) _ (omega arith) (
            poll_from-Ends id clear jwts t0 timeout k fuel (n + 1) left (omega (arith, enough))
              (subst (λ m. HasOutputs m ⊎ IsOver t0 timeout m) (omega arith) stops)))))

  -- If, k requests after the first, the answer has outputs or the time of the caller is over, then the poll ends
  -- with a response, after no more requests than that. The response has outputs, or the time was over when it came.
  pub pop_function_call_outputs-Ends :
      (id : Text) (t0 : R) (timeout : Option R) (clear_on_success : Bool)
      (input_jwts : Option (List Text)) (k fuel n : ℕ)
      → k < fuel
      → (HasOutputs (n + k) ⊎ IsOver t0 timeout (n + k))
      → Ends t0 timeout n
          (n + k)
          (pop_function_call_outputs f s fuel id t0 timeout clear_on_success input_jwts n)
  unfolding pop_function_call_outputs
  pop_function_call_outputs-Ends id t0 timeout clear jwts k fuel n enough stops =
      poll_from-Ends id clear jwts t0 timeout k fuel n (first_timeout f s timeout) enough stops
