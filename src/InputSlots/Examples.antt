-- ===== src/InputSlots/Examples.antt =====
-- Slots and fetched inputs of a container (modal/_runtime/container_io_manager.py).
use modal_client.Prelude.{◌≡◌, refl, false, some, [], ◌∷◌, inr, arith}
use modal_client.Prelude.Int.{pos}
use modal_client.InputSlots.{InputSlots, new_slots, acquire, release, pending}
use modal_client.InputSlots.Laws.{Account, IsValid, releases, step, slots_accounted}
use modal_client.InputSlots.Fetch.{
  InputItem, inputs, respond, collect, fetch_round, fetch_round_slots, resumed, closed_there,
  yielded_inputs, batch_of, slots_after,
}

abbrev busy : Account
busy = record {
  slots = record { active = pos 1; value = pos 1; waiter = some pending; closed = false };
  handed_over = 1;
  given_back = 0;
}

slots_accounted_example : IsValid (step releases busy)
slots_accounted_example =
    slots_accounted releases busy (record { balanced = refl; no_lost_wakeup = inr (omega arith) })

abbrev input : InputItem
input = record {
  input_id = "in-1";
  retry_count = 0;
  function_call_id = "fc-1";
  kill_switch = false;
  final_input = false;
}

abbrev free : InputSlots
free = new_slots (pos 2)

fetch_round_slots_example :
    let (round, s') = fetch_round 0 0 (inputs (input ∷ [])) resumed free in
    (yielded_inputs round ≡ batch_of 0 (inputs (input ∷ [])))
    × (s' ≡ slots_after (batch_of 0 (inputs (input ∷ []))) resumed free)
unfolding acquire
fetch_round_slots_example = fetch_round_slots 0 0 (inputs (input ∷ [])) resumed free refl refl

-- a round that is closed at its yield gives the slot back
closed_at_yield : (fetch_round 0 0 (inputs (input ∷ [])) closed_there free).1 ≡ free
unfolding fetch_round acquire respond collect release modal_client.InputSlots.wake_waiter
closed_at_yield = refl
