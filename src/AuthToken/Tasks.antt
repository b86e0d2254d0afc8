-- ===== src/AuthToken/Tasks.antt =====
-- The tasks that share one `_AuthTokenManager` (modal/_utils/auth_token_manager.py), by number. The lock
-- is asyncio's: a task that waits gets it only while no task holds it.
use modal_client.Prelude.{
  ℕ, zero, suc, ◌+◌, ◌≡◌, false, arith, String, Option, none, some, Result, List, [], ◌∷◌,
}
use modal_client.Float.{Floats}
use modal_client.AuthToken.{
  TokenError, AuthTokenManager, Phase, idle, waiting, fetching, get_token, enter, receive,
}

module _ (f : Floats) (decode_jwt : String → Option (Option f.R)) where
  open f use {R}

  abbrev Phases : Type 0
  Phases = List (Phase f decode_jwt)

  abbrev pub phase_of : ℕ → Phases → Option (Phase f decode_jwt)
  phase_of i [] = none
  phase_of zero (p ∷ ps) = some p
  phase_of (suc i) (p ∷ ps) = phase_of i ps

  abbrev pub set_phase : ℕ → Phase f decode_jwt → Phases → Phases
  set_phase i q [] = []
  set_phase zero q (p ∷ ps) = q ∷ ps
  set_phase (suc i) q (p ∷ ps) = p ∷ set_phase i q ps

  abbrev pub is_fetching : Phase f decode_jwt → ℕ
  is_fetching fetching = 1
  is_fetching _ = 0

  -- how many requests are on their way to the server
  abbrev pub in_flight : Phases → ℕ
  in_flight [] = 0
  in_flight (p ∷ ps) = is_fetching p + in_flight ps

  pub in_flight-set_phase :
      (i : ℕ) (p q : Phase f decode_jwt) (ps : Phases)
      → phase_of i ps ≡ some p
      → in_flight (set_phase i q ps) + is_fetching p ≡ in_flight ps + is_fetching q
  in_flight-set_phase zero p q (x ∷ ps) h = ground (arith, h)
  in_flight-set_phase (suc i) p q (x ∷ ps) h = omega (arith, in_flight-set_phase i p q ps h)
  in_flight-set_phase i p q [] h = absurd (ground (arith, h))

  pub record System : Type 0 where
    pub manager : AuthTokenManager f decode_jwt
    pub tasks : Phases

  abbrev moved : ℕ → Phase f decode_jwt × AuthTokenManager f decode_jwt → System → System
  moved i (p, m) s = record { manager = m; tasks = set_phase i p s.tasks }

  unfoldable pub starts : R → ℕ → System → System
  starts now i s = moved i (get_token f decode_jwt now s.manager, s.manager) s

  unfoldable pub gets_lock : R → ℕ → System → System
  gets_lock now i s = moved i (enter f decode_jwt now s.manager) s

  unfoldable pub gets_answer : R → Result TokenError String → ℕ → System → System
  gets_answer now answer i s = moved i (receive f decode_jwt now answer s.manager) s

  -- One task goes on. Each stands for one call of `get_token`.
  pub data Step : System → System → Type 0 where
    start :
        (s : System) (now : R) (i : ℕ) → phase_of i s.tasks ≡ some idle → Step s (starts now i s)
    lock :
        (s : System) (now : R) (i : ℕ)
        → phase_of i s.tasks ≡ some waiting
        → s.manager.locked ≡ false
        → Step s (gets_lock now i s)
    answer :
        (s : System) (now : R) (r : Result TokenError String) (i : ℕ)
        → phase_of i s.tasks ≡ some fetching
        → Step s (gets_answer now r i s)

  pub data Reach (s : System) : System → Type 0 where
    here : Reach s s
    next : {t u : System} → Reach s t → Step t u → Reach s u
