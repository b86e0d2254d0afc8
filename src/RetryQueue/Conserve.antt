-- ===== src/RetryQueue/Conserve.antt =====
-- No item is lost in a `TimestampPriorityQueue` (modal/_utils/async_utils.py), and items of one
-- timestamp keep their order.
use mathlib.Core.List.{Perm, perm_middle, map-append}
use mathlib.Core.List.Perm
use modal_client.Prelude.{
  ◌<◌, ◌≡◌, ◌⊎◌, true, false, refl, Option, none, some, List, [], ◌∷◌, ◌++◌, map, All, arith,
  Bool-cases, inl, inr, append-nil, append_assoc, ◌∙◌, sym,
}
use modal_client.Float.{Floats}
use modal_client.RetryQueue.{
  Entry, Queue, Round, returned, empty, sleeping, Wake, empty_queue, precedes, enqueue, put, poll,
  put_all,
}
use modal_client.RetryQueue.Order.{IsValid, enqueue-All, put-IsValid, put_all-IsValid}
use modal_client.RetryQueue.Delivery.{Delivers, poll-Delivers}

module _ (f : Floats) (A : Type 0) where
  open f use {R, infinity, lt, eq, lt_irrefl, eq_lem}

  -- the entries' items, in the order in which they are handed out
  abbrev pub items : List (Entry f A) → List (Option A)
  items = map (λ (e : Entry f A). e.item)

  abbrev pub at_time : R → A → R × Option A
  at_time t x = (t, some x)

  -- the entries share one timestamp
  abbrev SameTime : R → List (Entry f A) → Type 0
  SameTime t = All (λ (e : Entry f A). eq e.timestamp t ≡ true)

  enqueue_last :
      (e : Entry f A) (es : List (Entry f A))
      → SameTime e.timestamp es
      → All (λ (x : Entry f A). x.counter < e.counter) es
      → enqueue f A e es ≡ es ++ e ∷ []
  unfolding enqueue precedes
  enqueue_last e [] h c = refl
  enqueue_last e (x ∷ xs) h c = ground (
    arith,
    enqueue_last e xs h.1 c.1,
    eq_lem x.timestamp e.timestamp,
    eq_lem e.timestamp x.timestamp,
  )

  put_last :
      (t : R) (x : A) (q : Queue f A)
      → SameTime t q.entries
      → IsValid f A q
      → items (put f A t (some x) q).entries ≡ items q.entries ++ some x ∷ []
  unfolding put
  put_last t x q h v =
      let e : Entry f A = record { timestamp = t; counter = q.counter; item = some x } in
      rw (enqueue_last e q.entries h v.counted) (map-append _ q.entries (e ∷ []))

  put-SameTime :
      (t : R) (x : A) (q : Queue f A)
      → SameTime t q.entries
      → SameTime t (put f A t (some x) q).entries
  unfolding put
  put-SameTime t x q h =
      enqueue-All f A (λ (e : Entry f A). eq e.timestamp t ≡ true) _ q.entries
        (ground (arith, eq_lem t t, lt_irrefl t)) h

  put_all_order :
      (t : R) (xs : List A) (q : Queue f A)
      → SameTime t q.entries
      → IsValid f A q
      → items (put_all f A (map (at_time t) xs) q).entries ≡ items q.entries ++ map some xs
  unfolding put_all
  put_all_order t [] q h v = sym (append-nil (items q.entries))
  put_all_order t (x ∷ xs) q h v =
      put_all_order t xs (put f A t (some x) q) (put-SameTime t x q h)
        (put-IsValid f A t (some x) q v)
      ∙ rw (put_last t x q h v) (append_assoc (items q.entries) (some x ∷ []) (map some xs))

  -- Items that are put with one timestamp on a new queue stand in it in the order of the puts.
  pub put_all_fifo :
      (t : R) (xs : List A)
      → items (put_all f A (map (at_time t) xs) (empty_queue f A)).entries ≡ map some xs
  put_all_fifo t xs = put_all_order t xs (empty_queue f A) tt (record { sorted = tt; counted = tt })

  enqueue-Perm :
      (e : Entry f A) (es : List (Entry f A)) → Perm (items (enqueue f A e es)) (e.item ∷ items es)
  unfolding enqueue
  enqueue-Perm e [] = Perm.refl _
  enqueue-Perm e (x ∷ xs) = elim (Bool-cases (precedes f A e x)) [
    | inl q ↦ rw q (Perm.refl _)
    | inr q ↦
        rw q
          (Perm.trans (Perm.cons x.item (enqueue-Perm e xs)) (Perm.swap e.item x.item (items xs)))
  ]

  put-Perm :
      (t : R) (x : Option A) (q : Queue f A)
      → Perm (items (put f A t x q).entries) (x ∷ items q.entries)
  unfolding put
  put-Perm t x q = enqueue-Perm _ q.entries

  put_all-Perm :
      (arrivals : List (R × Option A)) (q : Queue f A)
      → Perm (items (put_all f A arrivals q).entries) (items q.entries ++ map (λ a. a.1) arrivals)
  unfolding put_all
  put_all-Perm [] q = rw append-nil (Perm.refl _)
  put_all-Perm ((t, x) ∷ r) q = Perm.trans (put_all-Perm r (put f A t x q)) (
      Perm.trans (Perm.append_right (map (λ (a : R × Option A). a.1) r) (put-Perm t x q))
        (Perm.symm (perm_middle (items q.entries) (map (λ (a : R × Option A). a.1) r))))

  -- the item that a round took out
  abbrev pub taken : Round f A → List (Option A)
  taken (returned x) = x ∷ []
  taken empty = []
  taken (sleeping _) = []

  -- at infinity stand only the marks that `close` puts
  abbrev pub OnlyMarks : List (Entry f A) → Type 0
  OnlyMarks = All (λ (e : Entry f A). (eq e.timestamp infinity ≡ false) ⊎ (e.item ≡ none))

  poll-Perm :
      (q : Queue f A) (now : R) (r : Round f A) (q' : Queue f A)
      → OnlyMarks q.entries
      → Delivers f A now q (r, q')
      → Perm (taken r ++ items q'.entries) (items q.entries)
  poll-Perm q now (returned x) q' marks (e, split, order, how) =
      rw split (Perm.cons' (item_taken e x how (rw split at marks)) (Perm.refl _))
    where
      item_taken :
          (e : Entry f A) (x : Option A)
          → ((lt e.timestamp now ≡ true) × (x ≡ e.item))
            ⊎ ((lt e.timestamp now ≡ false) × (eq e.timestamp infinity ≡ true) × (x ≡ none))
          → OnlyMarks (e ∷ q'.entries)
          → x ≡ e.item
      item_taken e x (inl (due, same)) marks = same
      item_taken e x (inr (later, last, mark)) marks = mark ∙ sym (marked marks.0)
        where
          marked : (eq e.timestamp infinity ≡ false) ⊎ (e.item ≡ none) → e.item ≡ none
          marked (inl finite) = cc
          marked (inr none_put) = none_put
  poll-Perm q now empty q' marks (none_left, same) = rw same (Perm.refl _)
  poll-Perm q now (sleeping d) q' marks (e, es, split, later, waits, time, same) =
      rw same (Perm.refl _)

  -- If the queue is valid and, after the arrivals, nothing but None stands at infinity, then what
  -- one round of `get` takes and what it leaves are together exactly the items that were there and
  -- those that arrived.
  pub wake_conserves :
      (w : Wake f A) (q : Queue f A)
      → IsValid f A q
      → OnlyMarks (put_all f A w.arrivals q).entries
      → let (r, q') = poll f A w.now (put_all f A w.arrivals q) in
        Perm (taken r ++ items q'.entries) (items q.entries ++ map (λ a. a.1) w.arrivals)
  wake_conserves w q v marks =
      let p = put_all f A w.arrivals q in
      let (r, q') = poll f A w.now p in
      Perm.trans
        (poll-Perm p w.now r q' marks
          (poll-Delivers f A w.now p (put_all-IsValid f A w.arrivals q v)))
        (put_all-Perm w.arrivals q)
