-- ===== src/AuthToken/Exclusion.antt =====
-- The lock of `_AuthTokenManager` (modal/_utils/auth_token_manager.py) over any run of its tasks.
use modal_client.Prelude.{
  ◌≤◌, ◌≡◌, refl, false, arith, String, Option, Result, ok, err, List, inl, inr, Option-cases,
  if◌then◌else◌,
}
use modal_client.Float.{Floats}
use modal_client.AuthToken.{
  TokenError, AuthTokenManager, Phase, idle, waiting, fetching, get_token, enter, receive,
}
use modal_client.AuthToken.Tasks.{
  is_fetching, in_flight, in_flight-set_phase, System, starts, gets_lock, gets_answer, Step, start,
  lock, answer, Reach, here, next,
}

module _ (f : Floats) (decode_jwt : String → Option (Option f.R)) where
  open f use {R}

  -- the lock is held by the one task that waits for the server, or is free
  abbrev pub IsExclusive : System f decode_jwt → Type 0
  IsExclusive s = in_flight f decode_jwt s.tasks ≡ (if s.manager.locked then 1 else 0)

  is_fetching-get_token :
      (now : R) (m : AuthTokenManager f decode_jwt)
      → is_fetching f decode_jwt (get_token f decode_jwt now m) ≡ 0
  unfolding get_token
  is_fetching-get_token now m = ground arith

  enter_takes_lock :
      (now : R) (m : AuthTokenManager f decode_jwt)
      → m.locked ≡ false
      → let (p, m') = enter f decode_jwt now m in
        is_fetching f decode_jwt p ≡ (if m'.locked then 1 else 0)
  unfolding enter
  enter_takes_lock now m h = ground (arith, h)

  receive_gives_lock :
      (now : R) (r : Result TokenError String) (m : AuthTokenManager f decode_jwt)
      → let (p, m') = receive f decode_jwt now r m in
        (is_fetching f decode_jwt p ≡ 0) × (m'.locked ≡ false)
  unfolding receive
  receive_gives_lock now (err e) m = (refl, refl)
  receive_gives_lock now (ok t) m = elim (Option-cases (decode_jwt t)) [
    | inl bad ↦ rw bad (ground arith)
    | inr (exp, good) ↦ rw good (ground arith)
  ]

  Step-IsExclusive :
      {s t : System f decode_jwt} → Step f decode_jwt s t → IsExclusive s → IsExclusive t
  unfolding starts gets_lock gets_answer
  Step-IsExclusive (start s now i h) e = omega (
    arith,
    in_flight-set_phase f decode_jwt i idle (get_token f decode_jwt now s.manager) s.tasks h,
    is_fetching-get_token now s.manager,
    e,
  )
  Step-IsExclusive (lock s now i h free) e = ground (
    arith,
    in_flight-set_phase f decode_jwt i waiting (enter f decode_jwt now s.manager).0 s.tasks h,
    enter_takes_lock now s.manager free,
    e,
    free,
  )
  Step-IsExclusive (answer s now r i h) e =
      let (p, m) = receive f decode_jwt now r s.manager in
      let (over, free) = receive_gives_lock now r s.manager in
      ground (arith, in_flight-set_phase f decode_jwt i fetching p s.tasks h, over, free, e)

  Reach-IsExclusive :
      {s t : System f decode_jwt} → Reach f decode_jwt s t → IsExclusive s → IsExclusive t
  Reach-IsExclusive here e = e
  Reach-IsExclusive (next r x) e = Step-IsExclusive x (Reach-IsExclusive r e)

  -- However the calls of `get_token` interleave, and whatever the server answers, a task waits for the
  -- server exactly while the lock is held, and never two at once.
  pub one_request_at_a_time :
      (m : AuthTokenManager f decode_jwt) (tasks : List (Phase f decode_jwt))
      (s : System f decode_jwt)
      → m.locked ≡ false
      → in_flight f decode_jwt tasks ≡ 0
      → Reach f decode_jwt (record { manager = m; tasks = tasks }) s
      → (in_flight f decode_jwt s.tasks ≡ (if s.manager.locked then 1 else 0))
        × (in_flight f decode_jwt s.tasks ≤ 1)
  one_request_at_a_time m tasks s free none_there r =
      let e : IsExclusive s = Reach-IsExclusive r (ground (arith, free, none_there)) in
      (e, ground (arith, e))
