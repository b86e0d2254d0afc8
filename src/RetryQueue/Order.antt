-- ===== src/RetryQueue/Order.antt =====
-- The order of the entries of a `TimestampPriorityQueue` (modal/_utils/async_utils.py).
use modal_client.Prelude.{
  ℕ, ◌+◌, ◌<◌, ◌≡◌, true, false, refl, Option, List, [], ◌∷◌, All, arith, Bool-cases, inl, inr,
}
use modal_client.Float.{Floats}
use modal_client.RetryQueue.{
  Entry, Queue, Round, returned, empty, sleeping, Wake, precedes, enqueue, put, poll, poll_entries,
  put_all, after_round, get,
}

module _ (f : Floats) (A : Type 0) where
  open f use {R, infinity, lt, eq, lt_trans, le_trans, eq_lem}

  -- in strictly increasing order
  abbrev pub IsSorted : List (Entry f A) → Type 0
  IsSorted [] = Unit
  IsSorted (e ∷ es) = All (λ x. precedes f A e x ≡ true) es × IsSorted es

  -- sorted, and no counter used that `itertools.count` has yet to give
  pub record IsValid (q : Queue f A) : Type 0 where
    pub sorted : IsSorted q.entries
    pub counted : All (λ (x : Entry f A). x.counter < q.counter) q.entries

  precedes_trans :
      (a b c : Entry f A)
      → precedes f A a b ≡ true
      → precedes f A b c ≡ true
      → precedes f A a c ≡ true
  unfolding precedes
  precedes_trans a b c p q = ground (
    arith,
    eq_lem a.timestamp b.timestamp,
    eq_lem b.timestamp c.timestamp,
    eq_lem a.timestamp c.timestamp,
    lt_trans a.timestamp b.timestamp c.timestamp,
    le_trans a.timestamp b.timestamp c.timestamp,
    le_trans c.timestamp b.timestamp a.timestamp,
    le_trans b.timestamp c.timestamp a.timestamp,
    le_trans c.timestamp a.timestamp b.timestamp,
    le_trans a.timestamp c.timestamp b.timestamp,
    le_trans b.timestamp a.timestamp c.timestamp,
  )

  precedes_total :
      (a b : Entry f A) → b.counter < a.counter → precedes f A a b ≡ false → precedes f A b a ≡ true
  unfolding precedes
  precedes_total a b lower p =
      ground (arith, eq_lem a.timestamp b.timestamp, eq_lem b.timestamp a.timestamp)

  pub enqueue-All :
      (P : Entry f A → Type 0) (e : Entry f A) (es : List (Entry f A))
      → P e
      → All P es
      → All P (enqueue f A e es)
  unfolding enqueue
  enqueue-All P e [] p h = (p, tt)
  enqueue-All P e (x ∷ xs) p h = elim (Bool-cases (precedes f A e x)) [
    | inl q ↦ rw q (p, h)
    | inr q ↦ rw q (h.0, enqueue-All P e xs p h.1)
  ]

  All-precedes :
      (e x : Entry f A) (xs : List (Entry f A))
      → precedes f A e x ≡ true
      → All (λ y. precedes f A x y ≡ true) xs
      → All (λ y. precedes f A e y ≡ true) xs
  All-precedes e x [] p h = tt
  All-precedes e x (y ∷ ys) p h = (precedes_trans e x y p h.0, All-precedes e x ys p h.1)

  enqueue-IsSorted :
      (e : Entry f A) (es : List (Entry f A))
      → All (λ (x : Entry f A). x.counter < e.counter) es
      → IsSorted es
      → IsSorted (enqueue f A e es)
  unfolding enqueue
  enqueue-IsSorted e [] c s = (tt, tt)
  enqueue-IsSorted e (x ∷ xs) c s = elim (Bool-cases (precedes f A e x)) [
    | inl q ↦ rw q ((q, All-precedes e x xs q s.0), s)
    | inr q ↦ rw q (
      enqueue-All (λ y. precedes f A x y ≡ true) e xs (precedes_total e x c.0 q) s.0,
      enqueue-IsSorted e xs c.1 s.1,
    )
  ]

  All-lt-suc :
      (n : ℕ) (es : List (Entry f A))
      → All (λ (x : Entry f A). x.counter < n) es
      → All (λ (x : Entry f A). x.counter < n + 1) es
  All-lt-suc n [] h = tt
  All-lt-suc n (x ∷ xs) h = (omega arith, All-lt-suc n xs h.1)

  -- Putting an item keeps the entries strictly ordered and the counters fresh.
  pub put-IsValid : (t : R) (x : Option A) (q : Queue f A) → IsValid q → IsValid (put f A t x q)
  unfolding put
  put-IsValid t x q v = record {
    sorted = enqueue-IsSorted _ q.entries v.counted v.sorted;
    counted =
        enqueue-All (λ (y : Entry f A). y.counter < q.counter + 1) _ q.entries (omega arith)
          (All-lt-suc q.counter q.entries v.counted);
  }

  -- putting the head back where it was
  pub enqueue_head :
      (e : Entry f A) (es : List (Entry f A))
      → All (λ x. precedes f A e x ≡ true) es
      → enqueue f A e es ≡ e ∷ es
  unfolding enqueue
  enqueue_head e [] h = refl
  enqueue_head e (x ∷ xs) h = rw h.0

  pub poll-IsValid : (now : R) (q : Queue f A) → IsValid q → IsValid (poll f A now q).1
  unfolding poll
  poll-IsValid now q v = go q.entries v.sorted v.counted
    where
      go :
          (es : List (Entry f A))
          → IsSorted es
          → All (λ (x : Entry f A). x.counter < q.counter) es
          → IsValid (poll_entries f A now q.counter es).1
      go [] s c = record { sorted = tt; counted = tt }
      go (e ∷ es) s c = elim (Bool-cases (lt e.timestamp now)) [
        | inl due ↦ rw due (record { sorted = s.1; counted = c.1 })
        | inr later ↦ elim (Bool-cases (eq e.timestamp infinity)) [
          | inl last ↦ rw (later, last) (record { sorted = s.1; counted = c.1 })
          | inr wait ↦ rw (later, wait, enqueue_head e es s.0) (record { sorted = s; counted = c })
        ]
      ]

  pub put_all-IsValid :
      (arrivals : List (R × Option A)) (q : Queue f A)
      → IsValid q
      → IsValid (put_all f A arrivals q)
  unfolding put_all
  put_all-IsValid [] q v = v
  put_all-IsValid ((t, x) ∷ r) q v = put_all-IsValid r (put f A t x q) (put-IsValid t x q v)

  after_round-IsValid :
      (again : Queue f A → Option (Option A) × Queue f A) (r : Round f A) (q : Queue f A)
      → ((p : Queue f A) → IsValid p → IsValid (again p).1)
      → IsValid q
      → IsValid (after_round f A again r q).1
  unfolding after_round
  after_round-IsValid again (returned x) q h v = v
  after_round-IsValid again empty q h v = h q v
  after_round-IsValid again (sleeping t) q h v = h q v

  pub get-IsValid : (ws : List (Wake f A)) (q : Queue f A) → IsValid q → IsValid (get f A ws q).1
  unfolding get
  get-IsValid [] q v = v
  get-IsValid (w ∷ ws) q v =
      let (r, q') = poll f A w.now (put_all f A w.arrivals q) in
      after_round-IsValid (get f A ws) r q' (get-IsValid ws)
        (poll-IsValid w.now _ (put_all-IsValid w.arrivals q v))
