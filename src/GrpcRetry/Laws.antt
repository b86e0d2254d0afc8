-- ===== src/GrpcRetry/Laws.antt =====
-- What `retry_transient_errors` (modal/_utils/grpc_utils.py) does, however the attempts end.
use modal_client.Prelude.{
  ℕ, ◌+◌, ◌≡◌, ◌≤◌, ◌<◌, ◌⊎◌, inl, inr, refl, arith, Bool, true, false, ◌||◌, String, Option, none,
  some, Result, ok, err, List, [], ◌∷◌, Bool-cases, Option-cases,
}
use modal_client.Float.{Floats}
use modal_client.GrpcRetry.{
  Failure, Raised, refused, on_final, on_retry, Options, least, out_of_tries, out_of_time, decide,
  verdict, Answer, Attempt, Run, attempt, after_failure, after_answer, attempts,
}

module _ (f : Floats) (A : Type 0) where
  open f use {R, add, lt, mul}

  -- a failure that may be tried again
  abbrev pub IsTransient : Options f → Failure → Type 0
  IsTransient o e = (refused o.additional_status_codes e ≡ none) × (on_retry e ≡ none)

  -- an attempt that starts after this delay would have less time than the floor
  abbrev pub IsLate : Options f → R → R → R → R → Type 0
  IsLate o t0 delay now total =
      lt (add (add now delay) o.attempt_timeout_floor) (add t0 total) ≡ false

  -- there is time for another attempt, if there is a limit at all
  abbrev pub HasTime : Options f → R → R → R → Type 0
  HasTime o t0 delay now =
      (total : R) → o.total_timeout ≡ some total → ¬ (IsLate o t0 delay now total)

  abbrev pub HasTries : Options f → ℕ → Type 0
  HasTries o n = (k : ℕ) → o.max_retries ≡ some k → n < k

  HasTime-early :
      (o : Options f) (t0 delay now : R)
      → out_of_time f o t0 now delay ≡ false
      → HasTime o t0 delay now
  HasTime-early o t0 delay now early total limited late = grind (arith, early, limited, late)

  HasTries-left : (o : Options f) (n : ℕ) → out_of_tries f o.max_retries n ≡ false → HasTries o n
  HasTries-left o n left k max = grind (arith, left, max)

  pub verdict-none :
      (o : Options f) (t0 : R) (n : ℕ) (delay now : R) (e : Failure)
      → verdict f o t0 n delay now e ≡ none
      → IsTransient o e
        × (out_of_tries f o.max_retries n ≡ false)
        × (out_of_time f o t0 now delay ≡ false)
  unfolding verdict
  verdict-none o t0 n delay now e h =
      go (refused o.additional_status_codes e) (out_of_tries f o.max_retries n)
        (out_of_time f o t0 now delay) h
    where
      go :
          (r : Option Raised) (tries time : Bool)
          → decide f r (tries || time) e ≡ none
          → ((r ≡ none) × (on_retry e ≡ none)) × (tries ≡ false) × (time ≡ false)
      go none false false g = ((refl, g), refl, refl)
      go none false true g = absurd (ground (arith, g))
      go none true time g = absurd (ground (arith, g))
      go (some x) tries time g = absurd (ground (arith, g))

  -- why a failure ends the loop, with `n` retries behind it, when the clock shows `now` and the next
  -- sleep would be `delay`
  abbrev pub IsReason : Options f → R → ℕ → R → R → Failure → Raised → Type 0
  IsReason o t0 n delay now e x =
      (refused o.additional_status_codes e ≡ some x)
      ⊎ ((x ≡ on_final e)
          × (((k : ℕ) × (o.max_retries ≡ some k) × (k ≤ n))
              ⊎ ((total : R) × (o.total_timeout ≡ some total) × IsLate o t0 delay now total)))
      ⊎ (on_retry e ≡ some x)

  tries_spent :
      (o : Options f) (n : ℕ)
      → out_of_tries f o.max_retries n ≡ true
      → (k : ℕ) × (o.max_retries ≡ some k) × (k ≤ n)
  tries_spent o n used = elim (Option-cases o.max_retries) [
    | inl unlimited ↦ absurd (grind (arith, used, unlimited))
    | inr (k, max) ↦ (k, max, grind (arith, used, max))
  ]

  verdict-some :
      (o : Options f) (t0 : R) (n : ℕ) (delay now : R) (e : Failure) (x : Raised)
      → verdict f o t0 n delay now e ≡ some x
      → IsReason o t0 n delay now e x
  unfolding verdict
  verdict-some o t0 n delay now e x h = elim (Option-cases (refused o.additional_status_codes e)) [
    | inr (y, now_refused) ↦ inl (ground (arith, h, now_refused))
    | inl open_case ↦ elim (Bool-cases (out_of_tries f o.max_retries n)) [
      | inl used ↦ inr (inl (ground (arith, h, open_case, used), inl (tries_spent o n used)))
      | inr left ↦ elim (Option-cases o.total_timeout) [
        | inl unlimited ↦ inr (inr (ground (arith, h, open_case, left, unlimited)))
        | inr (t, limited) ↦ elim (Bool-cases (out_of_time f o t0 now delay)) [
          | inl late ↦ inr (
              inl (
                ground (arith, h, open_case, left, late),
                inr (t, limited, grind (arith, limited, late)),
              ))
          | inr early ↦ inr (inr (ground (arith, h, open_case, left, early)))
        ]
      ]
    ]
  ]

  -- what an answer that is not tried again gives to the caller
  abbrev pub Concludes :
      Options f → R → ℕ → R → R → Result Failure A → Option (Result Raised A) → Type 0
  Concludes o t0 n delay now (ok x) result = result ≡ some (ok x)
  Concludes o t0 n delay now (err e) result =
      (x : Raised) × (result ≡ some (err x)) × IsReason o t0 n delay now e x

  abbrev pub Retries : Options f → R → ℕ → R → R → Result Failure A → Type 0
  Retries o t0 n delay now (ok x) = ⊥
  Retries o t0 n delay now (err e) = IsTransient o e × HasTries o n × HasTime o t0 delay now

  abbrev pub next_delay : Options f → R → R
  next_delay o delay = least f (mul delay o.delay_factor) o.max_delay

  -- each sleep is the delay by then and follows a failure that may be tried again, and the answer
  -- after the last sleep concludes
  abbrev pub Explains :
      Options f → R → ℕ → R → List (Answer f A) → List R → Option (Result Raised A) → Type 0
  Explains o t0 n delay [] [] result = result ≡ none
  Explains o t0 n delay [] (d ∷ ds) result = ⊥
  Explains o t0 n delay (r ∷ rs) [] result = Concludes o t0 n delay r.ended_at r.outcome result
  Explains o t0 n delay (r ∷ rs) (d ∷ ds) result =
      (d ≡ delay)
      × Retries o t0 n delay r.ended_at r.outcome
      × Explains o t0 (n + 1) (next_delay o delay) rs ds result

  explain :
      (o : Options f) (t0 : R) (n : ℕ) (delay : R) (a : Attempt f A) (r : Answer f A)
      (rs : List (Answer f A)) (outcome : Result Failure A) (rest : Run f A)
      → r.outcome ≡ outcome
      → Explains o t0 (n + 1) (next_delay o delay) rs rest.slept rest.result
      → let run = after_answer f A a delay outcome (verdict f o t0 n delay r.ended_at) rest in
        Explains o t0 n delay (r ∷ rs) run.slept run.result
  explain o t0 n delay a r rs (ok x) rest is h = rw is refl
  explain o t0 n delay a r rs (err e) rest is h = go (verdict f o t0 n delay r.ended_at e) refl
    where
      go :
          (v : Option Raised)
          → verdict f o t0 n delay r.ended_at e ≡ v
          → let run = after_failure f A a delay v rest in
            Explains o t0 n delay (r ∷ rs) run.slept run.result
      go none v =
          let (transient, left, early) = verdict-none o t0 n delay r.ended_at e v in
          (
            refl,
            rw is (transient, HasTries-left o n left, HasTime-early o t0 delay r.ended_at early),
            h,
          )
      go (some x) v = rw is (x, refl, verdict-some o t0 n delay r.ended_at e x v)

  pub attempts-Explains :
      (o : Options f) (key : String) (t0 : R) (n : ℕ) (delay : R) (rs : List (Answer f A))
      → let run = attempts f A o key t0 n delay rs in Explains o t0 n delay rs run.slept run.result
  unfolding attempts
  attempts-Explains o key t0 n delay [] = refl
  attempts-Explains o key t0 n delay (r ∷ rs) =
      let next = least f (mul delay o.delay_factor) o.max_delay in
      explain o t0 n delay (attempt f A o key t0 n r.asked_at) r rs r.outcome
        (attempts f A o key t0 (n + 1) next rs) refl (attempts-Explains o key t0 (n + 1) next rs)
