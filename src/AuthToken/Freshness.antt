-- ===== src/AuthToken/Freshness.antt =====
-- Which tokens `get_token` of modal/_utils/auth_token_manager.py gives out.
use modal_client.Prelude.{
  ℕ, zero, suc, ◌≡◌, refl, true, false, arith, String, Option, some, List, [], ◌∷◌, ◌⊎◌, inl, inr,
  All, subst,
}
use modal_client.Float.{Floats}
use modal_client.AuthToken.{
  AuthTokenManager, Phase, idle, waiting, fetching, returned, failed, get_token, enter, has_token,
  needs_refresh, is_expired, refresh_window,
}
use modal_client.AuthToken.Tasks.{
  phase_of, set_phase, System, starts, gets_lock, gets_answer, start, lock, answer, Reach, here,
  next,
}

module _ (f : Floats) (decode_jwt : String → Option (Option f.R)) where
  open f use {R, lt, sub}

  -- A call returns the cached token at once only if there is one and it has not expired; and it is
  -- about to expire only if another task holds the lock. Otherwise the call waits for the lock.
  get_token_unexpired :
      (now : R) (m : AuthTokenManager f decode_jwt)
      → (get_token f decode_jwt now m ≡ waiting)
        ⊎ ((get_token f decode_jwt now m ≡ returned m.token)
            × (has_token f decode_jwt m ≡ true)
            × (is_expired f decode_jwt now m ≡ false)
            × ((needs_refresh f decode_jwt now m ≡ false) ⊎ (m.locked ≡ true)))
  unfolding get_token
  get_token_unexpired now m = ground arith

  -- a task that neither fetches nor fails, and returns this token or has not ended
  abbrev pub IsServed : String → Phase f decode_jwt → Type 0
  IsServed token idle = Unit
  IsServed token waiting = Unit
  IsServed token fetching = ⊥
  IsServed token (returned t) = t ≡ token
  IsServed token (failed e) = ⊥

  -- no step of the run happens later than just before the limit
  abbrev pub IsBefore : {s t : System f decode_jwt} → R → Reach f decode_jwt s t → Type 0
  IsBefore limit here = Unit
  IsBefore limit (next r (start _ now _ _)) = IsBefore limit r × (lt now limit ≡ true)
  IsBefore limit (next r (lock _ now _ _ _)) = IsBefore limit r × (lt now limit ≡ true)
  IsBefore limit (next r (answer _ now _ _ _)) = IsBefore limit r × (lt now limit ≡ true)

  IsServed-phase_of :
      (token : String) (i : ℕ) (p : Phase f decode_jwt) (ps : List (Phase f decode_jwt))
      → All (IsServed token) ps
      → phase_of f decode_jwt i ps ≡ some p
      → IsServed token p
  IsServed-phase_of token zero p (x ∷ ps) all h =
      let same : x ≡ p = ground (arith, h) in subst (IsServed token) same all.0
  IsServed-phase_of token (suc i) p (x ∷ ps) all h = IsServed-phase_of token i p ps all.1 h
  IsServed-phase_of token i p [] all h = absurd (ground (arith, h))

  IsServed-set_phase :
      (token : String) (i : ℕ) (q : Phase f decode_jwt) (ps : List (Phase f decode_jwt))
      → All (IsServed token) ps
      → IsServed token q
      → All (IsServed token) (set_phase f decode_jwt i q ps)
  IsServed-set_phase token zero q (x ∷ ps) all h = (h, all.1)
  IsServed-set_phase token (suc i) q (x ∷ ps) all h =
      (all.0, IsServed-set_phase token i q ps all.1 h)
  IsServed-set_phase token i q [] all h = tt

  IsServed-get_token :
      (now : R) (m : AuthTokenManager f decode_jwt)
      → IsServed m.token (get_token f decode_jwt now m)
  IsServed-get_token now m = elim (get_token_unexpired now m) [
    | inl waits ↦ rw waits tt
    | inr (same, _, _, _) ↦ rw same refl
  ]

  enter_fresh :
      (now : R) (m : AuthTokenManager f decode_jwt)
      → has_token f decode_jwt m ≡ true
      → lt now (sub m.expiry (refresh_window f decode_jwt)) ≡ true
      → enter f decode_jwt now m ≡ (returned m.token, m)
  unfolding enter
  enter_fresh now m has early = ground (arith, has, early)

  -- While the cached token is outside of its refresh window, no call makes a request, whatever calls
  -- came before: a call that waits for the lock, too, ends with the cached token once it has the lock.
  pub fresh_token_serves_all :
      (m : AuthTokenManager f decode_jwt) (tasks : List (Phase f decode_jwt))
      (s : System f decode_jwt) (r : Reach f decode_jwt (record { manager = m; tasks = tasks }) s)
      → has_token f decode_jwt m ≡ true
      → All (IsServed m.token) tasks
      → IsBefore (sub m.expiry (refresh_window f decode_jwt)) r
      → (s.manager ≡ m) × All (IsServed m.token) s.tasks
  unfolding starts gets_lock gets_answer
  fresh_token_serves_all m tasks s here has all before = (refl, all)
  fresh_token_serves_all m tasks s (next r (start t now i h)) has all before =
      let (same, served) = fresh_token_serves_all m tasks t r has all before.0 in
      (
        same,
        rw same (
            IsServed-set_phase m.token i (get_token f decode_jwt now m) t.tasks served
              (IsServed-get_token now m)),
      )
  fresh_token_serves_all m tasks s (next r (lock t now i h free)) has all before =
      let (same, served) = fresh_token_serves_all m tasks t r has all before.0 in
      rw (same, enter_fresh now m has before.1)
        (refl, IsServed-set_phase m.token i (returned m.token) t.tasks served refl)
  fresh_token_serves_all m tasks s (next r (answer t now x i h)) has all before =
      let (same, served) = fresh_token_serves_all m tasks t r has all before.0 in
      absurd (IsServed-phase_of m.token i fetching t.tasks served h)
