-- ===== src/MapOutputs/Progress.antt =====
-- `update_state` of `_map_invocation` and `update_counters` of `_map_invocation_inputplane`
-- (modal/parallel_map.py): when a map call is done.
use modal_client.Prelude.{
  ℕ, ◌+◌, ◌≡◌, refl, Bool, true, false, ◌&&◌, ◌||◌, ltb, leb, Option, none, some, List, [], ◌∷◌,
  Result, ok, err, ◌>>=◌, arith, if◌then◌else◌,
}

-- the nonlocal variables, and whether `map_done_event` is set
pub record Progress : Type 0 where
  pub have_all_inputs : Bool
  pub inputs_created : ℕ
  pub outputs_completed : ℕ
  pub map_done : Bool

abbrev pub begin : Progress
begin = record {
  have_all_inputs = false;
  inputs_created = 0;
  outputs_completed = 0;
  map_done = false;
}

pub data AssertionError : Type 0 where
  failed : AssertionError

abbrev pub or_old {ℓ} : {A : Type ℓ} → Option A → A → A
or_old none a = a
or_old (some b) a = b

abbrev not_false : Option Bool → Bool
not_false (some false) = false
not_false _ = true

abbrev above : Option ℕ → ℕ → Bool
above none n = true
above (some m) n = ltb n m

-- the end of both functions: the event is set once all outputs of all inputs are there
abbrev pub signal : Progress → Progress
signal p = record p {
  map_done = p.map_done || (p.have_all_inputs && leb p.inputs_created p.outputs_completed);
}

unfoldable pub update_state :
    Option Bool → Option ℕ → Option ℕ → Progress → Result AssertionError Progress
update_state set_have_all set_created set_completed p =
    if not_false set_have_all
      && (above set_created p.inputs_created && above set_completed p.outputs_completed)
    then ok (
        signal (record p {
          have_all_inputs = or_old set_have_all p.have_all_inputs;
          inputs_created = or_old set_created p.inputs_created;
          outputs_completed = or_old set_completed p.outputs_completed;
        }))
    else err failed

-- a delta of 0 adds nothing
unfoldable pub update_counters : ℕ → ℕ → Option Bool → Progress → Progress
update_counters created_delta completed_delta set_have_all p = signal (record p {
  have_all_inputs = or_old set_have_all p.have_all_inputs;
  inputs_created = p.inputs_created + created_delta;
  outputs_completed = p.outputs_completed + completed_delta;
})

-- The places that call them: `create_input`, the end of `drain_input_generator`, and a completed
-- output in `get_all_outputs`.
pub data Call : Type 0 where
  create_input all_inputs complete_output : Call

unfoldable pub call_state : Call → Progress → Result AssertionError Progress
unfolding update_state
call_state create_input p = update_state none (some (p.inputs_created + 1)) none p
call_state all_inputs p = update_state (some true) none none p
call_state complete_output p = update_state none none (some (p.outputs_completed + 1)) p

unfoldable pub call_counters : Call → Progress → Progress
unfolding update_counters
call_counters create_input p = update_counters 1 0 none p
call_counters all_inputs p = update_counters 0 0 (some true) p
call_counters complete_output p = update_counters 0 1 none p

unfoldable pub run_state : List Call → Progress → Result AssertionError Progress
run_state [] p = ok p
run_state (c ∷ cs) p = call_state c p >>= run_state cs

unfoldable pub run_counters : List Call → Progress → Progress
run_counters [] p = p
run_counters (c ∷ cs) p = run_counters cs (call_counters c p)

same_call : (c : Call) (p : Progress) → call_state c p ≡ ok (call_counters c p)
unfolding call_state call_counters
same_call create_input p = ground arith
same_call all_inputs p = ground arith
same_call complete_output p = ground arith

-- The two protocols keep the same account: no assertion of `update_state` fails, and it reaches the
-- state that `update_counters` reaches.
pub run_state-eq-run_counters :
    (cs : List Call) (p : Progress) → run_state cs p ≡ ok (run_counters cs p)
unfolding run_state run_counters
run_state-eq-run_counters [] p = refl
run_state-eq-run_counters (c ∷ cs) p =
    rw (same_call c p) (run_state-eq-run_counters cs (call_counters c p))

abbrev is_create : Call → ℕ
is_create create_input = 1
is_create _ = 0

abbrev is_complete_output : Call → ℕ
is_complete_output complete_output = 1
is_complete_output _ = 0

abbrev ends_inputs : Call → Bool
ends_inputs all_inputs = true
ends_inputs _ = false

abbrev pub created : List Call → ℕ
created [] = 0
created (c ∷ cs) = is_create c + created cs

abbrev pub completed : List Call → ℕ
completed [] = 0
completed (c ∷ cs) = is_complete_output c + completed cs

abbrev pub inputs_ended : List Call → Bool
inputs_ended [] = false
inputs_ended (c ∷ cs) = ends_inputs c || inputs_ended cs

-- No input is created once all of them are there.
abbrev pub IsOrderly : Bool → List Call → Type 0
IsOrderly ended [] = Unit
IsOrderly ended (create_input ∷ cs) = (ended ≡ false) × IsOrderly ended cs
IsOrderly ended (all_inputs ∷ cs) = IsOrderly true cs
IsOrderly ended (complete_output ∷ cs) = IsOrderly ended cs

abbrev Accounts : List Call → Progress → Progress → Type 0
Accounts cs p q =
    (q.inputs_created ≡ p.inputs_created + created cs)
    × (q.outputs_completed ≡ p.outputs_completed + completed cs)
    × (q.have_all_inputs ≡ (p.have_all_inputs || inputs_ended cs))
    × (q.map_done ≡ (q.have_all_inputs && leb q.inputs_created q.outputs_completed))

accounts :
    (cs : List Call) (p : Progress)
    → p.map_done ≡ (p.have_all_inputs && leb p.inputs_created p.outputs_completed)
    → IsOrderly p.have_all_inputs cs
    → Accounts cs p (run_counters cs p)
unfolding run_counters call_counters
accounts [] p h o = ground arith
accounts (create_input ∷ cs) p h o = ground (arith, accounts cs (call_counters create_input p))
accounts (all_inputs ∷ cs) p h o = ground (arith, accounts cs (call_counters all_inputs p))
accounts (complete_output ∷ cs) p h o =
    ground (arith, accounts cs (call_counters complete_output p))

-- If no input is created after the end of the inputs, then a map call has counted every created
-- input and every completed output, and is done exactly when the inputs have ended and at least as
-- many outputs have completed as inputs were created.
map_done_exactly :
    (cs : List Call)
    → IsOrderly false cs
    → let p = run_counters cs begin in
      (p.inputs_created ≡ created cs)
      × (p.outputs_completed ≡ completed cs)
      × (p.map_done ≡ (inputs_ended cs && leb (created cs) (completed cs)))
map_done_exactly cs o = ground (arith, accounts cs begin refl o)
