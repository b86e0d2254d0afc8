-- ===== src/AsyncUtils/Ordered.antt =====
-- `async_map_ordered` (modal/_utils/async_utils.py): maps the items of a generator concurrently and yields the results in the
-- order of the items. A run is a sequence of events: `async_zip`, which starts both of its generators, has a number from the
-- counter, which takes a permit for it, or an item from the input; both are there and go on together; the mapper of an item
-- ends, with a result or an exception; the input raises; and the loop yields one item of its buffer and is asked for more. How
-- many mappers run at a time is left open, so a run of the code is one of these whatever the concurrency.
use modal_client.Prelude.{
  ℕ, suc, Bool, true, false, Option, none, some, List, [], ◌∷◌, ◌++◌, ◌==◌, if◌then◌else◌,
}
use modal_client.Prelude.Dict.{Dict, lookup, insert, erase}

-- The state. `counting` says whether the counter has taken a permit for a number that is not yet zipped, `fetched` holds the
-- item that is not yet zipped, `mapping` the items on their way through the mapper, and `stopped` says that an exception has
-- ended the loop.
pub record Ordered (A B : Type 0) : Type 0 where
  pub input_generator : List A
  pub fetched : Option A
  pub semaphore : ℕ
  pub counting : Bool
  pub counter : ℕ
  pub mapping : Dict A
  pub next_idx : ℕ
  pub buffer : Dict B
  pub yielded : List B
  pub stopped : Bool

pub data OrderedEvent : Type 0 where
  acquired pulled zipped yields input_raises : OrderedEvent
  mapped : ℕ → OrderedEvent

-- `buffer_size or concurrency`
abbrev pub permits : ℕ → Option ℕ → ℕ
permits concurrency none = concurrency
permits concurrency (some buffer_size) = if buffer_size == 0 then concurrency else buffer_size

module _ {A B : Type 0} where
  abbrev pub new_ordered : ℕ → Option ℕ → List A → Ordered A B
  new_ordered concurrency buffer_size items = record {
    input_generator = items;
    fetched = none;
    semaphore = permits concurrency buffer_size;
    counting = false;
    counter = 0;
    mapping = [];
    next_idx = 0;
    buffer = [];
    yielded = [];
    stopped = false;
  }

  -- `await semaphore.acquire_permit()`
  abbrev pub acquire_permit : Bool → ℕ → Ordered A B → Ordered A B
  acquire_permit false (suc n) s = record s { semaphore = n; counting = true }
  acquire_permit _ _ s = s

  -- the task of `async_zip` for the input, which does not wait for a permit
  abbrev pub next_item : Option A → List A → Ordered A B → Ordered A B
  next_item none (item ∷ items) s = record s { input_generator = items; fetched = some item }
  next_item _ _ s = s

  -- `async_zip` pairs the number with the item once it has both
  abbrev pub zip_next : Bool → Option A → Ordered A B → Ordered A B
  zip_next true (some item) s = record s {
    fetched = none;
    counting = false;
    counter = suc s.counter;
    mapping = insert s.counter item s.mapping;
  }
  zip_next _ _ s = s

  -- what the stream gives for the item: a result goes into the buffer, an exception ends the loop
  abbrev pub mapped_to : ℕ → Option B → Ordered A B → Ordered A B
  mapped_to idx (some output) s = record s {
    mapping = erase idx s.mapping;
    buffer = insert idx output s.buffer;
  }
  mapped_to idx none s = record s { stopped = true }

  -- the loop asks the stream for more once it has run dry
  abbrev pub receive_output : (A → Option B) → ℕ → Option A → Option B → Ordered A B → Ordered A B
  receive_output f idx (some item) none s = mapped_to idx (f item) s
  receive_output f idx _ _ s = s

  -- one round of `while next_idx in buffer`
  abbrev pub yield_next : Option B → Ordered A B → Ordered A B
  yield_next none s = s
  yield_next (some output) s = record s {
    yielded = s.yielded ++ output ∷ [];
    semaphore = suc s.semaphore;
    buffer = erase s.next_idx s.buffer;
    next_idx = suc s.next_idx;
  }

  -- the exception of the input comes through the stream too
  abbrev pub source_raises : Option B → Ordered A B → Ordered A B
  source_raises none s = record s { stopped = true }
  source_raises (some output) s = s

  abbrev pub running_step : (A → Option B) → OrderedEvent → Ordered A B → Ordered A B
  running_step f acquired s = acquire_permit s.counting s.semaphore s
  running_step f pulled s = next_item s.fetched s.input_generator s
  running_step f zipped s = zip_next s.counting s.fetched s
  running_step f (mapped idx) s =
      receive_output f idx (lookup idx s.mapping) (lookup s.next_idx s.buffer) s
  running_step f yields s = yield_next (lookup s.next_idx s.buffer) s
  running_step f input_raises s = source_raises (lookup s.next_idx s.buffer) s

  -- An event that cannot happen changes nothing, and none can after an exception. The function gives what the mapper of an
  -- item returns; `none` is a mapper that raises.
  unfoldable pub ordered_step : (A → Option B) → OrderedEvent → Ordered A B → Ordered A B
  ordered_step f e s = if s.stopped then s else running_step f e s

  unfoldable pub async_map_ordered : (A → Option B) → List OrderedEvent → Ordered A B → Ordered A B
  unfolding ordered_step
  async_map_ordered f [] s = s
  async_map_ordered f (e ∷ es) s = async_map_ordered f es (ordered_step f e s)
