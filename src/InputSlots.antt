-- ===== src/InputSlots.antt =====
-- `InputSlots` of modal/_runtime/container_io_manager.py: the semaphore, of adjustable size, that
-- bounds the inputs in progress in a container.
pub mod Laws
pub mod Fetch
mod Examples
use modal_client.Prelude.{
  ℕ, zero, suc, ◌+◌, Bool, true, false, Option, none, some, List, [], ◌∷◌, if◌then◌else◌,
}
use modal_client.Prelude.Int.{ℤ, pos, suc_ℤ, pred_ℤ, ltb_ℤ, pos_part}

-- the future of the waiting task
pub data Waiter : Type 0 where
  pending cancelled : Waiter

pub record InputSlots : Type 0 where
  pub active : ℤ
  pub value : ℤ
  pub waiter : Option Waiter
  pub closed : Bool

abbrev pub new_slots : ℤ → InputSlots
new_slots value = record { active = pos 0; value = value; waiter = none; closed = false }

-- How `acquire` goes; the last is its `RuntimeError`.
pub data Acquire : Type 0 where
  granted waits concurrent_waiters : Acquire

unfoldable pub acquire : InputSlots → Acquire × InputSlots
acquire s =
    if ltb_ℤ s.active s.value
    then (granted, record s { active = suc_ℤ s.active })
    else elim s.waiter [
      | none ↦ (waits, record s { waiter = some pending })
      | some _ ↦ (concurrent_waiters, s)
    ]

-- `_wake_waiter`: whether a slot is handed over. A cancelled future is not set, and the slot is
-- counted all the same.
unfoldable pub wake_waiter : InputSlots → Bool × InputSlots
wake_waiter s = elim s.waiter [
  | none ↦ (false, s)
  | some _ ↦
      if ltb_ℤ s.active s.value
      then (true, record s { waiter = none; active = suc_ℤ s.active })
      else (false, s)
]

unfoldable pub release : InputSlots → Bool × InputSlots
unfolding wake_waiter
release s = wake_waiter (record s { active = pred_ℤ s.active })

unfoldable pub set_value : ℤ → InputSlots → Bool × InputSlots
unfolding wake_waiter
set_value value s = if s.closed then (false, s) else wake_waiter (record s { value = value })

-- The rounds of the loop in `close`, from one where n slots are still to be acquired: how many are
-- left when it ends or waits. Where it waits, the round ends when the waiter is woken.
unfoldable pub acquire_all : ℕ → InputSlots → ℕ × InputSlots
acquire_all zero s = (zero, s)
acquire_all (suc n) s =
    let (r, s') = acquire s in
    elim r [ granted ↦ acquire_all n s' | waits ↦ (suc n, s') | concurrent_waiters ↦ (suc n, s') ]

-- `close`
unfoldable pub close : InputSlots → ℕ × InputSlots
unfolding acquire_all
close s = acquire_all (pos_part s.value) (record s { closed = true })
