-- ===== src/Paperclip/Service/Attempts.antt =====
-- An attempt to run a queued task: what the first part of `dispatch_task` leaves in the tables,
-- whether or not Hermes takes the task.
use agentopia.Prelude.{ℕ, suc, ◌≡◌, refl, String, Option, none, some, true, [], ◌∷◌, arith, ◌∙◌, ap}
use agentopia.Prelude.Table.{Table, lookup, update, lookup-update_self}
use agentopia.Prelude.Json.{Json, dict, str}
use agentopia.Python.{Except, ok}
use agentopia.Paperclip.StateMachine.{State, can_transition}
use agentopia.Paperclip.Db
use agentopia.Paperclip.Db.{
  Tables, TaskRow, QueueItem, QueueStatus, get_task, get_queue_item, set_state, same_status,
}
use agentopia.Paperclip.Service.World.{
  World, Surroundings, actions, trace, submit, ◌>>◌, whole_seconds, add_seconds,
}
use agentopia.Paperclip.Service.Views.{TaskView}
use agentopia.Paperclip.Service.Queue.{
  run_task, start_run, dispatch_task, transition_task, trace_dispatch, dispatch_trace, require_task,
  get_view,
}
use agentopia.Paperclip.Service.Establishes.{bind_step}
use agentopia.Paperclip.Service.Transitions.{
  moved, transition_task_allowed, transition_writes-tasks, transition_writes-queue,
}

can_run : (s : State) → s ≡ State.queued → can_transition s State.running ≡ true
unfolding can_transition
can_run s e = ground arith

module _ (env : Surroundings) (id : String) where
  trace_dispatch_live :
      (c : Option String) (w : World)
      → ((trace_dispatch env c id w).0 ≡ ok tt) × ((trace_dispatch env c id w).1.live ≡ w.live)
  unfolding actions trace
  trace_dispatch_live c w = ground arith

  -- `run_task` after the two writes to the queue keeps the tables.
  tail_live :
      (c : Option String) (payload : Json) (w : World)
      → ((trace_dispatch env c id >> (submit env payload c >> get_view id)) w).1.live ≡ w.live
  unfolding actions submit get_view
  tail_live c payload w = ground (arith, trace_dispatch_live c w)

  abbrev pub started : TaskRow → World → Tables
  started task w =
      let details = dict (("dispatch", str "hermes") ∷ []) in
      let w' = moved env id task.state State.running "paperclip" details w in
      let at = whole_seconds (env.clock w'.ticks) in
      Db.mark_queue_dispatched id (whole_seconds (env.clock (suc w'.ticks))) (
        Db.mark_queue_running id at
          (whole_seconds (add_seconds at env.settings.queue_timeout_seconds)) at w'.live)

  start_run_live :
      (task : TaskRow) (c : Option String) (w : World)
      → (start_run env task id c w).1.live ≡ (
          let at = whole_seconds (env.clock w.ticks) in
          Db.mark_queue_dispatched id (whole_seconds (env.clock (suc w.ticks))) (
            Db.mark_queue_running id at
              (whole_seconds (add_seconds at env.settings.queue_timeout_seconds))
              at
              w.live))
  unfolding start_run actions
  start_run_live task c w = tail_live (dispatch_trace c task.request_payload) task.request_payload _

  pub run_task_live :
      (task : TaskRow) (c : Option String) (w : World)
      → get_task id w.live ≡ some task
      → task.state ≡ State.queued
      → (run_task env task id c w).1.live ≡ started task w
  unfolding run_task
  run_task_live task c w h queued =
      ap (λ (p : Except (Option TaskView) × World). p.1.live)
        (bind_step (transition_task env id State.running "paperclip" details)
          (λ _. start_run env task id c) w
          (transition_task_allowed env id State.running "paperclip" details w h
            (can_run task.state queued)))
      ∙ start_run_live task c (moved env id task.state State.running "paperclip" details w)
    where
      details : Json
      details = dict (("dispatch", str "hermes") ∷ [])

  pub dispatch_task_queued :
      (task : TaskRow) (c : Option String) (w : World)
      → get_task id w.live ≡ some task
      → task.state ≡ State.queued
      → dispatch_task env id c none w ≡ run_task env task id c w
  unfolding dispatch_task require_task actions
  dispatch_task_queued task c w h queued = ground arith

  abbrev to_running : ℕ → QueueItem → QueueItem
  to_running at q = record q {
    status = QueueStatus.running;
    started_at = some at;
    timeout_at = some (whole_seconds (add_seconds at env.settings.queue_timeout_seconds));
    updated_at = at;
  }

  abbrev to_dispatched : ℕ → QueueItem → QueueItem
  to_dispatched at q = record q { status = QueueStatus.dispatched; updated_at = at }

  started-queue :
      (task : TaskRow) (w : World)
      → (started task w).queue
        ≡ update id
            (to_dispatched (whole_seconds (env.clock (suc (suc w.ticks)))))
            (update id (to_running (whole_seconds (env.clock (suc w.ticks)))) w.live.queue)
  unfolding Db.mark_queue_dispatched Db.mark_queue_running
  started-queue task w =
      ap
        (λ (t : Table QueueItem).
          update id (to_dispatched (whole_seconds (env.clock (suc (suc w.ticks)))))
            (update id (to_running (whole_seconds (env.clock (suc w.ticks)))) t))
        (transition_writes-queue id task.state State.running "paperclip"
          (dict (("dispatch", str "hermes") ∷ [])) (whole_seconds (env.clock w.ticks)) w.live)

  pub started_item :
      (task : TaskRow) (w : World) {q : QueueItem}
      → get_queue_item id w.live ≡ some q
      → (q' : QueueItem) × (get_queue_item id (started task w) ≡ some q')
  unfolding get_queue_item
  started_item task w {q} h = (
    _,
    ap (lookup id) (started-queue task w)
        ∙ lookup-update_self id (to_dispatched (whole_seconds (env.clock (suc (suc w.ticks)))))
            (update id (to_running (whole_seconds (env.clock (suc w.ticks)))) w.live.queue)
            (lookup-update_self id (to_running (whole_seconds (env.clock (suc w.ticks))))
              w.live.queue h),
  )

  pub started_task :
      (task : TaskRow) (w : World)
      → get_task id w.live ≡ some task
      → (r : TaskRow) × (get_task id (started task w) ≡ some r) × (r.state ≡ State.running)
  unfolding get_task Db.mark_queue_dispatched Db.mark_queue_running
  started_task task w h = (
    set_state State.running (whole_seconds (env.clock w.ticks)) none task,
    ap (lookup id) (transition_writes-tasks id task.state State.running _ _ _ w.live)
        ∙ lookup-update_self id _ w.live.tasks h,
    refl,
  )
