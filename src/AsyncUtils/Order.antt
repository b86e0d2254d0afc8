-- ===== src/AsyncUtils/Order.antt =====
-- The order and the number of the results of `async_map_ordered` (modal/_utils/async_utils.py).
use modal_client.Prelude.{
  length-drop, ℕ, ◌+◌, ◌≤◌, ◌≡◌, refl, ap, Option, none, some, List, [], ◌∷◌, map, length, take,
  arith,
}
use modal_client.AsyncUtils.Ordered.{
  Ordered, OrderedEvent, permits, new_ordered, ordered_step, async_map_ordered,
}
use modal_client.AsyncUtils.OrderedSteps.{upcoming, IsOrdered, step-IsOrdered}

module _ {A B : Type 0} (f : A → Option B) (xs : List A) (size : ℕ) where
  run-IsOrdered :
      (es : List OrderedEvent) (s : Ordered A B)
      → IsOrdered f xs size s
      → IsOrdered f xs size (async_map_ordered f es s)
  unfolding async_map_ordered
  run-IsOrdered [] s h = h
  run-IsOrdered (e ∷ es) s h =
      run-IsOrdered es (ordered_step f e s) (step-IsOrdered f xs size e s h)

new_ordered-IsOrdered :
    {A B : Type 0} (f : A → Option B) (xs : List A) (concurrency : ℕ) (buffer_size : Option ℕ)
    → IsOrdered f xs (permits concurrency buffer_size) (new_ordered concurrency buffer_size xs)
new_ordered-IsOrdered f xs concurrency buffer_size = record {
  input_generator = refl;
  yielded = refl;
  mapping = λ i x e. absurd (ground (arith, e));
  buffer = λ i y e. absurd (ground (arith, e));
  conserved = omega arith;
  bounds = (omega arith, omega arith);
  mapping_dict = tt;
  buffer_dict = tt;
}

length-upcoming :
    {A : Type 0} (item : Option A) (items : List A)
    → length (upcoming item items) ≤ length items + 1
length-upcoming none items = omega arith
length-upcoming (some item) items = omega arith

-- In whatever order the mappers end, and if they raise or the input raises, what is yielded are the results of the first
-- items, in the order of the items; the items that are with the mapper or wait for their turn are no more than the buffer
-- size (the concurrency, if there is none), and at most one item more has been taken from the input.
pub async_map_ordered-prefix :
    {A B : Type 0} (f : A → Option B) (items : List A) (concurrency : ℕ) (buffer_size : Option ℕ)
    (events : List OrderedEvent)
    → let s = async_map_ordered f events (new_ordered concurrency buffer_size items) in
      (map (λ y. some y) s.yielded ≡ map f (take s.next_idx items))
      × (s.counter ≤ s.next_idx + permits concurrency buffer_size)
      × (length items ≤ length s.input_generator + (s.counter + 1))
async_map_ordered-prefix f items concurrency buffer_size events =
    let s = async_map_ordered f events (new_ordered concurrency buffer_size items) in
    let h =
      run-IsOrdered f items (permits concurrency buffer_size) events _
        (new_ordered-IsOrdered f items concurrency buffer_size) in
    (
      h.yielded,
      omega (arith, h.conserved),
      omega (
        arith,
        length-drop s.counter items,
        length-upcoming s.fetched s.input_generator,
        ap length h.input_generator,
      ),
    )
