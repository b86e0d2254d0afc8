-- ===== src/RetryQueue/Delivery.antt =====
-- What `TimestampPriorityQueue.get` (modal/_utils/async_utils.py) may return, and when.
use modal_client.Prelude.{
  ℕ, ◌≡◌, ◌⊎◌, true, false, refl, Option, none, some, List, [], ◌∷◌, All, arith, Bool-cases, inl,
  inr,
}
use modal_client.Float.{Floats}
use modal_client.RetryQueue.{
  Entry, Queue, Round, returned, empty, sleeping, precedes, poll, poll_entries,
}
use modal_client.RetryQueue.Order.{IsSorted, IsValid, enqueue_head}

module _ (f : Floats) (A : Type 0) where
  open f use {R, infinity, sub, lt, eq, lt-infinity, eq_lem, lt_trans, le_trans}

  -- What one round does to the queue, by how it ended: the entry that it took was due (or was the
  -- mark of a closed queue) and precedes all that is left; otherwise nothing is taken.
  abbrev pub Delivers : R → Queue f A → Round f A × Queue f A → Type 0
  Delivers now q (returned x, q') =
      (e : Entry f A) × (q.entries ≡ e ∷ q'.entries)
      × All (λ y. precedes f A e y ≡ true) q'.entries
      × (((lt e.timestamp now ≡ true) × (x ≡ e.item))
          ⊎ ((lt e.timestamp now ≡ false) × (eq e.timestamp infinity ≡ true) × (x ≡ none)))
  Delivers now q (empty, q') = (q.entries ≡ []) × (q' ≡ q)
  Delivers now q (sleeping d, q') =
      (e : Entry f A) × (es : List (Entry f A)) × (q.entries ≡ e ∷ es)
      × (lt e.timestamp now ≡ false)
      × (eq e.timestamp infinity ≡ false)
      × (d ≡ sub e.timestamp now)
      × (q' ≡ q)

  poll_entries-Delivers :
      (now : R) (n : ℕ) (es : List (Entry f A))
      → IsSorted f A es
      → Delivers now (record { entries = es; counter = n }) (poll_entries f A now n es)
  unfolding poll_entries
  poll_entries-Delivers now n [] s = (refl, refl)
  poll_entries-Delivers now n (e ∷ es) s = elim (Bool-cases (lt e.timestamp now)) [
    | inl due ↦ rw due (e, refl, s.0, inl (due, refl))
    | inr later ↦ elim (Bool-cases (eq e.timestamp infinity)) [
      | inl last ↦ rw (later, last) (e, refl, s.0, inr (later, last, refl))
      | inr wait ↦
          rw (later, wait, enqueue_head f A e es s.0) (e, es, refl, later, wait, refl, refl)
    ]
  ]

  -- In a valid queue one round of `get` returns the entry that precedes all others and only if its
  -- time has passed or it is the mark of a closed queue, waits on an empty queue, and otherwise
  -- sleeps until the time of the first entry, which is no mark, and puts it back where it was.
  pub poll-Delivers : (now : R) (q : Queue f A) → IsValid f A q → Delivers now q (poll f A now q)
  unfolding poll
  poll-Delivers now q v = poll_entries-Delivers now q.counter q.entries v.sorted

  -- only `close` puts None, and it puts it at infinity
  abbrev pub IsMarkAt : R → Option A → Type 0
  IsMarkAt t none = eq t infinity ≡ true
  IsMarkAt t (some x) = Unit

  abbrev pub NoneIsLast : List (Entry f A) → Type 0
  NoneIsLast = All (λ (e : Entry f A). IsMarkAt e.timestamp e.item)

  mark_last : (t : R) (x : Option A) → x ≡ none → IsMarkAt t x → eq t infinity ≡ true
  mark_last t none h m = m
  mark_last t (some x) h m = cc

  abbrev pub AtInfinity : List (Entry f A) → Type 0
  AtInfinity = All (λ (e : Entry f A). eq e.timestamp infinity ≡ true)

  infinity_last :
      (e x : Entry f A)
      → eq e.timestamp infinity ≡ true
      → precedes f A e x ≡ true
      → eq x.timestamp infinity ≡ true
  unfolding precedes
  infinity_last e x h p = ground (
    arith,
    eq_lem e.timestamp infinity,
    eq_lem x.timestamp infinity,
    eq_lem e.timestamp x.timestamp,
    lt-infinity x.timestamp,
    lt-infinity e.timestamp,
    le_trans x.timestamp e.timestamp infinity,
    lt_trans e.timestamp x.timestamp infinity,
  )

  infinity_rest :
      (e : Entry f A) (es : List (Entry f A))
      → eq e.timestamp infinity ≡ true
      → All (λ x. precedes f A e x ≡ true) es
      → AtInfinity es
  infinity_rest e [] h p = tt
  infinity_rest e (x ∷ xs) h p = (infinity_last e x h p.0, infinity_rest e xs h p.1)

  closed_entries :
      (now : R) (n : ℕ) (es : List (Entry f A))
      → IsSorted f A es
      → NoneIsLast es
      → (poll_entries f A now n es).0 ≡ returned none
      → AtInfinity (poll_entries f A now n es).1.entries
  unfolding poll_entries
  closed_entries now n [] s marks h = tt
  closed_entries now n (e ∷ es) s marks h = elim (Bool-cases (lt e.timestamp now)) [
    | inl due ↦
        rw due
          (infinity_rest e es (mark_last e.timestamp e.item (ground (arith, due, h)) marks.0) s.0)
    | inr later ↦ elim (Bool-cases (eq e.timestamp infinity)) [
      | inl last ↦ rw (later, last) (infinity_rest e es last s.0)
      | inr wait ↦ absurd (ground (arith, later, wait, h))
    ]
  ]

  -- If the queue is valid and only `close` has put None, then a round that returns None leaves
  -- nothing but entries at infinity: closing the queue loses no item that has a finite time.
  pub closed_after_all :
      (now : R) (q : Queue f A)
      → IsValid f A q
      → NoneIsLast q.entries
      → (poll f A now q).0 ≡ returned none
      → AtInfinity (poll f A now q).1.entries
  unfolding poll
  closed_after_all now q v marks h = closed_entries now q.counter q.entries v.sorted marks h
