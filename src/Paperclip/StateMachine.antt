-- ===== src/Paperclip/StateMachine.antt =====
-- paperclip/state_machine.py: the life of a task, as the table of transitions that the service
-- asserts before it changes a state. The states are the keys of the table.
pub mod Laws
use agentopia.Prelude.{
  String, ◌≡◌, Bool, true, false, List, [], ◌∷◌, Option, none, some, ◌<>◌, if◌then◌else◌,
}
use agentopia.Python.{Except, ok, raise, value_error}

pub data State : Type 0 where
  received validating pending_approval approved queued running : State
  succeeded failed rejected cancelled : State

abbrev pub state_name : State → String
state_name State.received = "received"
state_name State.validating = "validating"
state_name State.pending_approval = "pending_approval"
state_name State.approved = "approved"
state_name State.queued = "queued"
state_name State.running = "running"
state_name State.succeeded = "succeeded"
state_name State.failed = "failed"
state_name State.rejected = "rejected"
state_name State.cancelled = "cancelled"

abbrev pub same_state : State → State → Bool
same_state State.received State.received = true
same_state State.validating State.validating = true
same_state State.pending_approval State.pending_approval = true
same_state State.approved State.approved = true
same_state State.queued State.queued = true
same_state State.running State.running = true
same_state State.succeeded State.succeeded = true
same_state State.failed State.failed = true
same_state State.rejected State.rejected = true
same_state State.cancelled State.cancelled = true
same_state _ _ = false

unfoldable pub allowed_transitions : State → List State
allowed_transitions State.received = State.validating ∷ State.cancelled ∷ []
allowed_transitions State.validating =
    State.pending_approval ∷ State.approved ∷ State.cancelled ∷ []
allowed_transitions State.pending_approval = State.approved ∷ State.rejected ∷ State.cancelled ∷ []
allowed_transitions State.approved = State.queued ∷ State.cancelled ∷ []
allowed_transitions State.queued = State.running ∷ State.cancelled ∷ []
allowed_transitions State.running = State.succeeded ∷ State.failed ∷ State.cancelled ∷ []
allowed_transitions _ = []

abbrev pub member : State → List State → Bool
member s [] = false
member s (t ∷ ts) = if same_state s t then true else member s ts

unfoldable pub can_transition : State → State → Bool
unfolding allowed_transitions
can_transition current target = member target (allowed_transitions current)

unfoldable pub assert_transition : State → State → Except (Unit {0})
unfolding can_transition
assert_transition current target =
    if can_transition current target
    then ok tt
    else raise (
        value_error
          ("invalid state transition: " <> state_name current <> " -> " <> state_name target))
