-- ===== src/Paperclip/Service/Transitions.antt =====
-- What `transition_task` guarantees.
use agentopia.Prelude.{
  ℕ, suc, ◌≡◌, refl, ◌≢◌, ◌⊎◌, inl, inr, String, Option, none, some, true, false, arith,
  Option-cases, Bool-cases, ◌<>◌,
}
use agentopia.Prelude.Table.{update, lookup-update_self, lookup-update_ne}
use agentopia.Prelude.Json.{Json}
use agentopia.Python.{ok, raise, key_error, value_error, Exception}
use agentopia.Paperclip.StateMachine.{State, state_name, can_transition, assert_transition}
use agentopia.Paperclip.Db.{
  Tables, TaskRow, get_task, update_task_state, add_audit_event, set_state,
}
use agentopia.Paperclip.Service.World.{World, Surroundings, whole_seconds, actions}
use agentopia.Paperclip.Service.Views.{TaskView, view_task}
use agentopia.Paperclip.Service.Queue.{
  transition_task, transition_writes, require_task, get_view, approval_for,
}

-- What a transition writes: the row of the task, and events; nothing else of the tables.
module _ (id : String) (from to : State) (actor : String) (details : Json) (at : ℕ)
    (t : Tables) where
  pub transition_writes-tasks :
      (transition_writes id from to actor details at t).tasks
      ≡ update id (set_state to at (approval_for to)) t.tasks
  unfolding transition_writes update_task_state add_audit_event
  transition_writes-tasks = ground arith

  pub transition_writes-queue : (transition_writes id from to actor details at t).queue ≡ t.queue
  unfolding transition_writes update_task_state add_audit_event
  transition_writes-queue = ground arith

  pub transition_writes-results :
      (transition_writes id from to actor details at t).results ≡ t.results
  unfolding transition_writes update_task_state add_audit_event
  transition_writes-results = ground arith

  pub transition_writes-idempotency :
      (transition_writes id from to actor details at t).idempotency ≡ t.idempotency
  unfolding transition_writes update_task_state add_audit_event
  transition_writes-idempotency = ground arith

abbrev pub moved : Surroundings → String → State → State → String → Json → World → World
moved env id from to actor details w =
    let t = transition_writes id from to actor details (whole_seconds (env.clock w.ticks)) w.live in
    record w { live = t; disk = t; ticks = suc w.ticks }

module _ (env : Surroundings) (id : String) (to : State) (actor : String) (details : Json)
    (w : World) where
  pub transition_task_allowed :
      {r : TaskRow}
      → get_task id w.live ≡ some r
      → can_transition r.state to ≡ true
      → transition_task env id to actor details w ≡ (
        ok (view_task (moved env id r.state to actor details w).live id),
        moved env id r.state to actor details w,
      )
  unfolding transition_task require_task assert_transition get_view actions
  transition_task_allowed h ok_ = ground arith

  pub transition_task_refused :
      {r : TaskRow}
      → get_task id w.live ≡ some r
      → can_transition r.state to ≡ false
      → transition_task env id to actor details w ≡ (
        raise (
            value_error
              ("invalid state transition: " <> state_name r.state <> " -> " <> state_name to)),
        w,
      )
  unfolding transition_task require_task assert_transition get_view actions
  transition_task_refused h no_ = ground arith

  pub transition_task_unknown :
      get_task id w.live ≡ none
      → transition_task env id to actor details w ≡ (raise (key_error id), w)
  unfolding transition_task require_task assert_transition get_view actions
  transition_task_unknown h = ground arith

-- The outcome of a transition that went through.
pub record Applied (env : Surroundings) (id : String) (to : State) (w w' : World) : Type 0 where
  pub from : TaskRow
  pub found : get_task id w.live ≡ some from
  pub allowed : can_transition from.state to ≡ true
  pub row :
      get_task id w'.live
      ≡ some (set_state to (whole_seconds (env.clock w.ticks)) (approval_for to) from)
  pub others : (j : String) → j ≢ id → get_task j w'.live ≡ get_task j w.live
  pub queue : w'.live.queue ≡ w.live.queue
  pub results : w'.live.results ≡ w.live.results
  pub committed : w'.disk ≡ w'.live

moved-Applied :
    (env : Surroundings) (id : String) (to : State) (actor : String) (details : Json) (w : World)
    (r : TaskRow)
    → get_task id w.live ≡ some r
    → can_transition r.state to ≡ true
    → Applied env id to w (moved env id r.state to actor details w)
unfolding get_task
moved-Applied env id to actor details w r h allowed = record {
  from = r;
  found = h;
  allowed = allowed;
  row =
      rw (transition_writes-tasks id r.state to actor details _ w.live)
        (lookup-update_self id _ w.live.tasks h);
  others = λ j ne.
      rw (transition_writes-tasks id r.state to actor details _ w.live)
        (lookup-update_ne id j _ w.live.tasks ne);
  queue = transition_writes-queue id r.state to actor details _ w.live;
  results = transition_writes-results id r.state to actor details _ w.live;
  committed = refl;
}

-- A transition either is one that the table allows, and then it rewrites the row of its task alone
-- and is committed; or it raises, and then nothing has changed and the table does not allow it.
pub transition_task_lem :
    (env : Surroundings) (id : String) (to : State) (actor : String) (details : Json) (w : World)
    → ((v : Option TaskView) × ((transition_task env id to actor details w).0 ≡ ok v)
        × Applied env id to w (transition_task env id to actor details w).1)
      ⊎ ((e : Exception) × (transition_task env id to actor details w ≡ (raise e, w))
          × ((r : TaskRow) → get_task id w.live ≡ some r → can_transition r.state to ≡ false))
transition_task_lem env id to actor details w = elim (Option-cases (get_task id w.live)) [
  | inl missing ↦ inr (_, transition_task_unknown env id to actor details w missing, λ r h. cc)
  | inr (r, h) ↦ elim (Bool-cases (can_transition r.state to)) [
    | inl yes_ ↦
        rw (transition_task_allowed env id to actor details w h yes_)
          (inl (_, refl, moved-Applied env id to actor details w r h yes_))
    | inr no_ ↦
        inr (_, transition_task_refused env id to actor details w h no_, λ s e. ground arith)
  ]
]
