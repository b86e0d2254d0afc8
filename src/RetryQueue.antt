-- ===== src/RetryQueue.antt =====
-- `TimestampPriorityQueue` of modal/_utils/async_utils.py, without a bound on its size (the client
-- constructs it so). `asyncio.PriorityQueue` hands out the least tuple; it is a list in that order.
-- The condition variable is the list of wake-ups of a waiting `get`.
pub mod Order
pub mod Delivery
pub mod Conserve
mod Examples
use modal_client.Prelude.{ℕ, ◌+◌, Bool, Option, none, some, List, [], ◌∷◌, ltb, if◌then◌else◌}
use modal_client.Float.{Floats}

module _ (f : Floats) (A : Type 0) where
  open f use {R, infinity, sub, lt, eq}

  -- the tuple `(timestamp, counter, item)`
  pub record Entry : Type 0 where
    pub timestamp : R
    pub counter : ℕ
    pub item : Option A

  pub record Queue : Type 0 where
    pub entries : List Entry
    pub counter : ℕ

  abbrev pub empty_queue : Queue
  empty_queue = record { entries = []; counter = 0 }

  -- `<` on the tuples; the counters differ, so the items are never compared
  unfoldable pub precedes : Entry → Entry → Bool
  precedes a b =
      if eq a.timestamp b.timestamp then ltb a.counter b.counter else lt a.timestamp b.timestamp

  unfoldable pub enqueue : Entry → List Entry → List Entry
  enqueue e [] = e ∷ []
  enqueue e (x ∷ xs) = if precedes e x then e ∷ x ∷ xs else x ∷ enqueue e xs

  unfoldable pub put : R → Option A → Queue → Queue
  put timestamp item q =
      let e : Entry = record { timestamp = timestamp; counter = q.counter; item = item } in
      record { entries = enqueue e q.entries; counter = q.counter + 1 }

  unfoldable pub close : Queue → Queue
  unfolding put
  close q = put infinity none q

  -- How one round of the loop in `get` ends: it returns, it waits for an item, or it waits with a
  -- timeout.
  pub data Round : Type 0 where
    returned : Option A → Round
    empty : Round
    sleeping : R → Round

  -- one round, with `now` read from the clock
  unfoldable pub poll_entries : R → ℕ → List Entry → Round × Queue
  poll_entries now n [] = (empty, record { entries = []; counter = n })
  poll_entries now n (e ∷ rest) =
      if lt e.timestamp now
      then (returned e.item, record { entries = rest; counter = n })
      else if eq e.timestamp infinity
      then (returned none, record { entries = rest; counter = n })
      else (sleeping (sub e.timestamp now), record { entries = enqueue e rest; counter = n })

  unfoldable pub poll : R → Queue → Round × Queue
  unfolding poll_entries
  poll now q = poll_entries now q.counter q.entries

  -- What happens until the loop goes round again: other tasks put items, and the clock moves.
  pub record Wake : Type 0 where
    pub arrivals : List (R × Option A)
    pub now : R

  unfoldable pub put_all : List (R × Option A) → Queue → Queue
  put_all [] q = q
  put_all ((t, x) ∷ r) q = put_all r (put t x q)

  -- the loop of `get` after one round: it returns, or goes on
  unfoldable pub after_round :
      (Queue → Option (Option A) × Queue) → Round → Queue → Option (Option A) × Queue
  after_round again (returned x) q = (some x, q)
  after_round again empty q = again q
  after_round again (sleeping _) q = again q

  -- `get`: the value returned, or none while it still waits after the wake-ups given
  unfoldable pub get : List Wake → Queue → Option (Option A) × Queue
  unfolding after_round
  get [] q = (none, q)
  get (w ∷ ws) q = let (r, q') = poll w.now (put_all w.arrivals q) in after_round (get ws) r q'
