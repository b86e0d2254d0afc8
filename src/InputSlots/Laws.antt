-- ===== src/InputSlots/Laws.antt =====
-- The slots of `InputSlots` (modal/_runtime/container_io_manager.py) over any sequence of calls.
use modal_client.Prelude.{ℕ, ◌+◌, ◌≡◌, ◌⊎◌, Bool, true, false, none, some, arith, if◌then◌else◌}
use modal_client.Prelude.Int.{ℤ, pos_part, neg_part, ◌≤ℤ◌}
use modal_client.InputSlots.{cancelled, InputSlots, Acquire, granted, acquire, release, set_value}

-- The calls of the tasks, and the cancellation of the future of a task that waits.
pub data Call : Type 0 where
  acquires releases cancels closes : Call
  sets : ℤ → Call

abbrev is_granted : Acquire → Bool
is_granted granted = true
is_granted _ = false

-- whether the call hands over a slot, to its own task or to the one that waits
unfoldable pub call : Call → InputSlots → Bool × InputSlots
unfolding acquire release set_value
call acquires s = let (r, s') = acquire s in (is_granted r, s')
call releases s = release s
call cancels s =
    (false, record s { waiter = elim s.waiter [ none ↦ none | some _ ↦ some cancelled ] })
call closes s = (false, record s { closed = true })
call (sets v) s = set_value v s

-- Slots handed over and given back so far.
pub record Account : Type 0 where
  pub slots : InputSlots
  pub handed_over : ℕ
  pub given_back : ℕ

abbrev gives_back : Call → ℕ
gives_back releases = 1
gives_back _ = 0

unfoldable pub step : Call → Account → Account
unfolding call
step c a =
    let (handed, s) = call c a.slots in
    record {
      slots = s;
      handed_over = if handed then a.handed_over + 1 else a.handed_over;
      given_back = a.given_back + gives_back c;
    }

-- `active` is the difference, and a task waits only while no slot is free.
pub record IsValid (a : Account) : Type 0 where
  pub balanced : pos_part a.slots.active + a.given_back ≡ a.handed_over + neg_part a.slots.active
  pub no_lost_wakeup : (a.slots.waiter ≡ none) ⊎ (a.slots.value ≤ℤ a.slots.active)

-- Every call keeps `active` at the number of slots handed over less those given back, and leaves a
-- task waiting only while no slot is free.
pub slots_accounted : (c : Call) (a : Account) → IsValid a → IsValid (step c a)
unfolding step
slots_accounted acquires a v = ground arith
slots_accounted releases a v = ground arith
slots_accounted cancels a v = ground arith
slots_accounted closes a v = ground arith
slots_accounted (sets v') a v = ground arith

-- A slot is handed over only below the limit in force, and no call but a hand-over raises `active`.
pub within_limit :
    (c : Call) (s : InputSlots)
    → (((call c s).0 ≡ true) × ((call c s).1.active ≤ℤ (call c s).1.value))
      ⊎ (((call c s).0 ≡ false) × ((call c s).1.active ≤ℤ s.active))
unfolding call
within_limit acquires s = ground arith
within_limit releases s = ground arith
within_limit cancels s = ground arith
within_limit closes s = ground arith
within_limit (sets v) s = ground arith
