-- ===== src/InputSlots/Fetch.antt =====
-- `_ContainerIOManager._generate_inputs` (modal/_runtime/container_io_manager.py): one round of its
-- loop, from the slot that it acquires to the inputs that it yields.
use modal_client.Prelude.{
  ◌∙◌, ◌&&◌, ℕ, ◌≡◌, refl, Bool, true, false, not, ◌||◌, leb, ◌==◌, max, length, Bool-cases, inl,
  inr, Option, none, some, List, [], ◌∷◌, String, arith, ap, if◌then◌else◌,
}
use modal_client.Prelude.Int.{suc_ℤ, pred-suc}
use modal_client.InputSlots.{InputSlots, acquire, granted, release}

-- api_pb2.FunctionGetInputsItem, with what the loop reads of it
pub record InputItem : Type 0 where
  pub input_id : String
  pub retry_count : ℕ
  pub function_call_id : String
  pub kill_switch : Bool
  pub final_input : Bool

-- The answer of the server, or the exception that the call raises.
pub data Response : Type 0 where
  rate_limited : Response
  inputs : List InputItem → Response
  raises : Response

-- How a round ends: what it yields, if it yields, and whether the loop goes on.
pub data Round : Type 0 where
  yields : List InputItem → Bool → Round
  goes_on : Round
  returns : Round
  throws : Round

abbrev cons_item : InputItem → Option (List InputItem × Bool) → Option (List InputItem × Bool)
cons_item item none = none
cons_item item (some (items, final)) = some (item ∷ items, final)

abbrev collect_item :
    Bool → Bool → InputItem → Option (List InputItem × Bool) → Option (List InputItem × Bool)
collect_item true final item rest = none
collect_item false true item rest = some (item ∷ [], true)
collect_item false false item rest = cons_item item rest

-- The loop over `response.inputs`: none at a kill switch, else the inputs and whether the final one
-- is among them, after which the rest is not read.
unfoldable pub collect : List InputItem → Option (List InputItem × Bool)
collect [] = some ([], false)
collect (item ∷ items) = collect_item item.kill_switch item.final_input item (collect items)

abbrev yielded : ℕ → Option (List InputItem × Bool) → Round
yielded max_inputs none = returns
yielded max_inputs (some (items, final)) = yields items (not (final || (max_inputs == 1)))

-- from the answer to the end of the round; an empty list of inputs is no answer
unfoldable pub respond : ℕ → ℕ → Response → Round
respond batch_max_size max_inputs rate_limited = goes_on
respond batch_max_size max_inputs (inputs []) = goes_on
respond batch_max_size max_inputs (inputs (item ∷ items)) =
    if leb (length (item ∷ items)) (max 1 batch_max_size)
    then yielded max_inputs (collect (item ∷ items))
    else throws
respond batch_max_size max_inputs raises = throws

-- What becomes of a generator at its `yield`: it is asked for more, or it is closed, or an exception is
-- raised there.
pub data AtYield : Type 0 where
  resumed closed_there : AtYield

-- the flag `yielded`, which is set after the yield
abbrev pub yielded_flag : Round → AtYield → Bool
yielded_flag (yields items more) resumed = true
yielded_flag _ _ = false

-- `finally`: a round whose flag is not set gives its slot back
abbrev pub settle : Round → AtYield → InputSlots → InputSlots
settle round at_yield s = if yielded_flag round at_yield then s else (release s).1

-- a round whose slot is there at once
unfoldable pub fetch_round : ℕ → ℕ → Response → AtYield → InputSlots → Round × InputSlots
unfolding respond
fetch_round batch_max_size max_inputs response at_yield s =
    let round = respond batch_max_size max_inputs response in
    (round, settle round at_yield (acquire s).1)

release-acquire :
    (s : InputSlots) → (acquire s).0 ≡ granted → s.waiter ≡ none → (release (acquire s).1).1 ≡ s
unfolding acquire release
release-acquire s free alone = ground (arith, free, alone, pred-suc s.active)

acquired :
    (s : InputSlots)
    → (acquire s).0 ≡ granted
    → (acquire s).1 ≡ record s { active = suc_ℤ s.active }
unfolding acquire
acquired s free = ground (arith, free)

-- the inputs up to the first final one, and with it
abbrev pub until_final : List InputItem → List InputItem
until_final [] = []
until_final (item ∷ items) = if item.final_input then item ∷ [] else item ∷ until_final items

abbrev pub is_any : (InputItem → Bool) → List InputItem → Bool
is_any test [] = false
is_any test (item ∷ items) = test item || is_any test items

abbrev pub has_kill : List InputItem → Bool
has_kill items = is_any (λ item. item.kill_switch) items

-- The batch in an answer: at least one input and no more than the batch size, and no kill switch up to
-- the first final input.
abbrev pub batch_of : ℕ → Response → Option (List InputItem)
batch_of batch_max_size (inputs items) =
    if not (length items == 0)
      && (leb (length items) (max 1 batch_max_size) && not (has_kill (until_final items)))
    then some (until_final items)
    else none
batch_of batch_max_size _ = none

abbrev pub yielded_inputs : Round → Option (List InputItem)
yielded_inputs (yields items more) = some items
yielded_inputs _ = none

-- the slots after a round with a batch or without one
abbrev pub slots_after : Option (List InputItem) → AtYield → InputSlots → InputSlots
slots_after (some items) resumed s = record s { active = suc_ℤ s.active }
slots_after _ _ s = s

collect-until_final :
    (items : List InputItem)
    → collect items ≡ (
        if has_kill (until_final items)
        then none
        else some (until_final items, is_any (λ item. item.final_input) items))
unfolding collect
collect-until_final [] = refl
collect-until_final (item ∷ items) = ground (arith, collect-until_final items)

yielded-collected :
    (n : ℕ) (killed final : Bool) (xs : List InputItem)
    → yielded_inputs (yielded n (if killed then none else some (xs, final)))
      ≡ (if not killed then some xs else none)
yielded-collected n true final xs = refl
yielded-collected n false final xs = refl

respond-batch_of :
    (n m : ℕ) (response : Response) → yielded_inputs (respond n m response) ≡ batch_of n response
unfolding respond
respond-batch_of n m rate_limited = refl
respond-batch_of n m raises = refl
respond-batch_of n m (inputs []) = refl
respond-batch_of n m (inputs (item ∷ items)) =
    let some_input : (length (item ∷ items) == 0) ≡ false = ground arith in
    elim (Bool-cases (leb (length (item ∷ items)) (max 1 n))) [
      | inr large ↦ rw (some_input, large) refl
      | inl fits ↦
          rw (some_input, fits)
            (ap (λ r. yielded_inputs (yielded m r)) (collect-until_final (item ∷ items))
              ∙ yielded-collected m (has_kill (until_final (item ∷ items))) _
                  (until_final (item ∷ items)))
    ]

settle-slots_after :
    (s : InputSlots) (round : Round) (at_yield : AtYield)
    → (acquire s).0 ≡ granted
    → s.waiter ≡ none
    → settle round at_yield (acquire s).1 ≡ slots_after (yielded_inputs round) at_yield s
settle-slots_after s (yields items more) resumed free alone = acquired s free
settle-slots_after s (yields items more) closed_there free alone = release-acquire s free alone
settle-slots_after s goes_on at_yield free alone = release-acquire s free alone
settle-slots_after s returns at_yield free alone = release-acquire s free alone
settle-slots_after s throws at_yield free alone = release-acquire s free alone

-- If a slot is free and no task waits for one, then a round yields the batch in the server's answer, the
-- inputs up to the first final one, if there is a batch in it, and otherwise nothing; and it keeps
-- exactly one slot if it has yielded and is asked for more, while a round without a batch, or one that
-- is ended at its yield, leaves the slots as they were.
pub fetch_round_slots :
    (batch_max_size max_inputs : ℕ) (response : Response) (at_yield : AtYield) (s : InputSlots)
    → (acquire s).0 ≡ granted
    → s.waiter ≡ none
    → let (round, s') = fetch_round batch_max_size max_inputs response at_yield s in
      (yielded_inputs round ≡ batch_of batch_max_size response)
      × (s' ≡ slots_after (batch_of batch_max_size response) at_yield s)
unfolding fetch_round
fetch_round_slots n m response at_yield s free alone = (
  respond-batch_of n m response,
  settle-slots_after s (respond n m response) at_yield free alone
      ∙ ap (λ b. slots_after b at_yield s) (respond-batch_of n m response),
)
