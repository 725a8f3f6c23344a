-- ===== src/Paperclip/StateMachine/Laws.antt =====
-- The life of a task under state_machine.py, as paths of allowed transitions.
use agentopia.Prelude.{ℕ, ◌+◌, ◌≤◌, ◌<◌, ◌≡◌, ◌↔◌, true, false, ◌⊎◌, inl, inr, arith}
use mathlib.Core.Path.{subst}
use agentopia.Paperclip.StateMachine.{State, can_transition}

-- Where a state stands in the life of a task.
abbrev pub stage : State → ℕ
stage State.received = 0
stage State.validating = 1
stage State.pending_approval = 2
stage State.approved = 3
stage State.queued = 4
stage State.running = 5
stage _ = 6

abbrev pub IsTerminal : State → Type 0
IsTerminal s =
    (s ≡ State.succeeded) ⊎ (s ≡ State.failed) ⊎ (s ≡ State.rejected) ⊎ (s ≡ State.cancelled)

-- A history of allowed transitions, with its number of steps.
pub data History (s : State) : ℕ → State → Type 0 where
  here : History s 0 s
  next :
      {n m : ℕ} {t u : State}
      → History s n t
      → can_transition t u ≡ true
      → m ≡ n + 1
      → History s m u

pub can_transition-stage : (s t : State) → can_transition s t ≡ true → stage s < stage t
unfolding can_transition
can_transition-stage s t h = ground arith

stage-History : {s t : State} {n : ℕ} → History s n t → stage s + n ≤ stage t
stage-History here = omega arith
stage-History (next {n} {t} {u} p h e) = omega (arith, stage-History p, can_transition-stage t u h)

stage_le : (s : State) → stage s ≤ 6
stage_le s = ground arith

-- A path of transitions that the table allows, from any state, has at most six steps. (Of the writes
-- of the service that pass the table by, nothing is said.)
pub life_bounded : {s t : State} {n : ℕ} → History s n t → n ≤ 6
life_bounded {s} {t} p = omega (arith, stage-History p, stage_le t)

-- A state has no transition out of it exactly when it is succeeded, failed, rejected or cancelled.
pub IsTerminal-iff : (s : State) → ((t : State) → can_transition s t ≡ false) ↔ IsTerminal s
unfolding can_transition
IsTerminal-iff s = (λ h. stuck s (h State.cancelled), λ h t. ground arith)
  where
    stuck : (s : State) → can_transition s State.cancelled ≡ false → IsTerminal s
    stuck s e = ground arith

-- The states of a task that has been handed to the queue or beyond it.
abbrev pub PastGate : State → Type 0
PastGate s = (s ≡ State.queued) ⊎ (s ≡ State.running) ⊎ (s ≡ State.succeeded) ⊎ (s ≡ State.failed)

gate_step :
    (t u : State) → can_transition t u ≡ true → PastGate u → (t ≡ State.approved) ⊎ PastGate t
unfolding can_transition
gate_step t u h g = ground arith

-- The state just before the gate is `approved`, and the history up to it is a history too.
pub approval_gate :
    {t : State} {n : ℕ}
    → History State.received n t
    → PastGate t
    → (k : ℕ) × History State.received k State.approved × (k < n)
approval_gate here g = absurd (ground arith)
approval_gate (next {n} {m} {t} {u} p h e) g = elim (gate_step t u h g) [
  | inl at ↦ (n, subst (λ s. History State.received n s) at p, omega arith)
  | inr past ↦ let (k, q, lt) = approval_gate p past in (k, q, omega arith)
]
