-- ===== src/AsyncUtils/Examples.antt =====
-- Tests and concrete runs of modal/_utils/async_utils.py.
use modal_client.Prelude.{
  length, ltb, ℕ, ◌+◌, ◌*◌, ◌≤◌, ◌≡◌, refl, inl, ◌==◌, if◌then◌else◌, Option, none, some, List, [],
  ◌∷◌, map, take, arith,
}
use modal_client.AsyncUtils.Ordered.{
  OrderedEvent, acquired, pulled, zipped, yields, mapped, permits, new_ordered, async_map_ordered,
}
use modal_client.AsyncUtils.Order.{async_map_ordered-prefix}
use modal_client.AsyncUtils.Attempts.{Attempt, value, exception, as_call, retry, retry-ended}

-- the second result arrives first, and the third mapper raises
abbrev out_of_order : List OrderedEvent
out_of_order =
    pulled
    ∷ acquired
    ∷ zipped
    ∷ acquired
    ∷ pulled
    ∷ zipped
    ∷ pulled
    ∷ mapped 1
    ∷ yields
    ∷ mapped 0
    ∷ yields
    ∷ yields
    ∷ acquired
    ∷ zipped
    ∷ mapped 2
    ∷ yields
    ∷ []

abbrev double : ℕ → Option ℕ
double n = if ltb n 7 then some (n * 2) else none

in_order :
    (async_map_ordered double out_of_order (new_ordered 2 none (5 ∷ 6 ∷ 7 ∷ []))).yielded
    ≡ 10 ∷ 12 ∷ []
unfolding async_map_ordered
in_order = refl

async_map_ordered-prefix_example :
    let s = async_map_ordered double out_of_order (new_ordered 2 none (5 ∷ 6 ∷ 7 ∷ [])) in
    (map (λ y. some y) s.yielded ≡ map double (take s.next_idx (5 ∷ 6 ∷ 7 ∷ [])))
    × (s.counter ≤ s.next_idx + permits 2 none)
    × (3 ≤ length s.input_generator + (s.counter + 1))
async_map_ordered-prefix_example =
    async_map_ordered-prefix double (5 ∷ 6 ∷ 7 ∷ []) 2 none out_of_order

-- two calls fail
abbrev third_time : ℕ → Attempt ℕ ℕ
third_time i = if i == 0 then exception 4 else if i == 1 then exception 5 else value 6

retry-ended_example :
    retry ◌*◌ 3 1 2 third_time
    ≡ record { ended = as_call (value 6); calls = 3; sleeps = 1 ∷ 2 ∷ [] }
retry-ended_example =
    retry-ended ◌*◌ 3 1 2 third_time 2 (omega arith) (λ j lt. ground (arith, lt)) (inl refl)
