-- ===== src/Paperclip/Service/Durability.antt =====
-- What is committed. A write outside `run_in_transaction` stays in the open transaction of the
-- connection until some later method commits it.
use agentopia.Prelude.{◌≡◌, refl, inl, inr, String, none, some, true, false, arith, Bool-cases}
use agentopia.Prelude.Table.{update, lookup-update_self}
use agentopia.Paperclip.StateMachine.{State, same_state, can_transition}
use agentopia.Paperclip.StateMachine.Laws.{IsTerminal, IsTerminal-iff}
use agentopia.Paperclip.Db
use agentopia.Paperclip.Db.{
  Tables, TaskRow, QueueItem, get_task, get_queue_item, get_result, set_state,
}
use agentopia.Paperclip.Service.World.{World, Surroundings, whole_seconds, actions}
use agentopia.Paperclip.Service.Queue.{get_view}
use agentopia.Paperclip.Service.Results.{cancel_task, cancel_open, is_closed}
use agentopia.Paperclip.Service.Upkeep.{recover_stuck_approval, reset_approval}

module _ (env : Surroundings) (id actor reason : String) (w : World) {r : TaskRow}
    (h : get_task id w.live ≡ some r) where
  cancel_open_tasks :
      ((cancel_open env r id actor reason w).1.live.tasks
        ≡ update id
            (set_state State.cancelled (whole_seconds (env.clock w.ticks)) none)
            w.live.tasks)
      × ((cancel_open env r id actor reason w).1.disk ≡ w.disk)
  unfolding cancel_open get_queue_item get_view actions Db.update_task_state Db.mark_queue_cancelled
      Db.add_audit_event
  cancel_open_tasks = ground arith

  cancel_task_open :
      is_closed r.state ≡ false
      → same_state r.state State.cancelled ≡ false
      → (cancel_task env id actor reason w) ≡ cancel_open env r id actor reason w
  unfolding cancel_task get_view actions
  cancel_task_open open_ other = ground arith

  cancel_task_again :
      same_state r.state State.cancelled ≡ true → (cancel_task env id actor reason w).1 ≡ w
  unfolding cancel_task get_view actions
  cancel_task_again same = ground arith

  state_of_same : same_state r.state State.cancelled ≡ true → r.state ≡ State.cancelled
  state_of_same same = ground arith

  -- A task that is not succeeded, failed or rejected is cancelled by `cancel_task` for every later
  -- read of the service, and nothing of that has been committed when the method returns.
  pub cancel_task_uncommitted :
      is_closed r.state ≡ false
      → let w' = (cancel_task env id actor reason w).1 in
        ((r' : TaskRow) × (get_task id w'.live ≡ some r') × (r'.state ≡ State.cancelled))
        × (w'.disk ≡ w.disk)
  unfolding get_task
  cancel_task_uncommitted open_ = elim (Bool-cases (same_state r.state State.cancelled)) [
    | inl same ↦ rw (cancel_task_again same) ((r, h, state_of_same same), refl)
    | inr other ↦ rw (cancel_task_open open_ other) (
      (
        set_state State.cancelled (whole_seconds (env.clock w.ticks)) none r,
        rw (cancel_open_tasks.0) (lookup-update_self id _ w.live.tasks h),
        refl,
      ),
      cancel_open_tasks.1,
    )
  ]

  reset_approval_tasks :
      (recover_stuck_approval env id actor w).1.live.tasks
      ≡ update id
          (set_state State.pending_approval (whole_seconds (env.clock w.ticks)) (some "pending"))
          w.live.tasks
  unfolding recover_stuck_approval reset_approval get_view actions Db.update_task_state
      Db.add_audit_event
  reset_approval_tasks = ground arith

  -- `recover_stuck_approval` puts a finished task, which no transition of the table leaves, back to
  -- waiting for approval.
  pub recovery_reopens :
      IsTerminal r.state
      → let w' = (recover_stuck_approval env id actor w).1 in
        ((t : State) → can_transition r.state t ≡ false)
        × ((r' : TaskRow) × (get_task id w'.live ≡ some r')
            × (r'.state ≡ State.pending_approval)
            × (r'.approval_status ≡ "pending"))
  unfolding get_task
  recovery_reopens finished = (
    (IsTerminal-iff r.state).1 finished,
    (
      set_state State.pending_approval (whole_seconds (env.clock w.ticks)) (some "pending") r,
      rw reset_approval_tasks (lookup-update_self id _ w.live.tasks h),
      refl,
      refl,
    ),
  )
