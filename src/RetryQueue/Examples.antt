-- ===== src/RetryQueue/Examples.antt =====
-- Runs of `TimestampPriorityQueue` (modal/_utils/async_utils.py) over the naturals.
use modal_client.Prelude.{String, ◌≡◌, refl, none, some, [], ◌∷◌, ◌++◌, inl, inr, arith}
use mathlib.Core.List.{Perm}
use modal_client.Float.{extended, finite, top}
use modal_client.RetryQueue.{Queue, Entry, Wake, put, enqueue, precedes, poll, put_all, get}
use modal_client.RetryQueue.Order.{IsValid}
use modal_client.RetryQueue.Delivery.{Delivers, poll-Delivers, closed_after_all, AtInfinity}
use modal_client.RetryQueue.Conserve.{wake_conserves, items, taken}

abbrev mark : Entry extended String
mark = record { timestamp = top; counter = 0; item = none }

abbrev later : Entry extended String
later = record { timestamp = finite 7; counter = 1; item = some "b" }

abbrev closed : Queue extended String
closed = record { entries = mark ∷ []; counter = 2 }

abbrev waiting : Queue extended String
waiting = record { entries = later ∷ mark ∷ []; counter = 2 }

closed-IsValid : IsValid extended String closed
closed-IsValid = record { sorted = (tt, tt); counted = (omega arith, tt) }

waiting-IsValid : IsValid extended String waiting
unfolding precedes
waiting-IsValid = record {
  sorted = ((refl, tt), (tt, tt));
  counted = (omega arith, (omega arith, tt));
}

poll-Delivers_example :
    Delivers extended String (finite 5) waiting (poll extended String (finite 5) waiting)
poll-Delivers_example = poll-Delivers extended String (finite 5) waiting waiting-IsValid

closed_after_all_example :
    AtInfinity extended String (poll extended String (finite 5) closed).1.entries
unfolding poll
closed_after_all_example =
    closed_after_all extended String (finite 5) closed closed-IsValid (refl, tt) refl

abbrev wake : Wake extended String
wake = record { arrivals = (finite 4, some "a") ∷ []; now = finite 5 }

wake_conserves_example :
    let (r, q') = poll extended String (finite 5) (put_all extended String wake.arrivals waiting) in
    Perm
      (taken extended String r ++ items extended String q'.entries)
      (some "b" ∷ none ∷ some "a" ∷ [])
unfolding put_all put enqueue precedes
wake_conserves_example =
    wake_conserves extended String wake waiting waiting-IsValid
      (inl refl, (inl refl, (inr refl, tt)))

-- the item that came while `get` slept, then the one that became due, then the end
get-order : (get extended String (wake ∷ []) waiting).0 ≡ some (some "a")
unfolding get poll put_all put enqueue precedes
get-order = refl
