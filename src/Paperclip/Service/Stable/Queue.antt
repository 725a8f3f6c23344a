-- ===== src/Paperclip/Service/Stable/Queue.antt =====
-- Transitions, the queue and the dispatch keep what the writes of db.py keep: one lemma for each
-- method of the service.
use agentopia.Prelude.{ℕ, String, Option, none, some, ◌==◌}
use agentopia.Prelude.Json.{Json}
use agentopia.Python.{Exception}
use agentopia.Paperclip.StateMachine.{State}
use agentopia.Paperclip.Db
use agentopia.Paperclip.Db.{Tables, TaskRow, TaskRecord, QueueItem}
use agentopia.Paperclip.Service.World.{Surroundings, Action, actions, ◌>>=◌, ◌>>◌, execute, utcnow}
use agentopia.Paperclip.Service.Keeps.{
  Keeps, Keeps-pure, Keeps-lift, Keeps-query, Keeps-execute, Keeps-run_in_transaction, Keeps-bind,
  Keeps-then, Keeps-catch, Keeps-if, Keeps-get_view, Keeps-require_task, Keeps-require_item,
  Keeps-utcnow, Keeps-now_or, Keeps-trace, Keeps-submit,
}
use agentopia.Paperclip.Service.Queue
use agentopia.Paperclip.Service.Queue.{transition_writes, record_decision, approval_for}
use agentopia.Paperclip.Service.Stable.{Lasting, audit}

module _ {Q : Tables → Type 0} (s : Lasting Q) (env : Surroundings) where
  decision :
      (id : String) (to : State) (actor : String) (details : Json) (at : ℕ) (t : Tables)
      → Q t
      → Q (record_decision id to actor details at t)
  decision id State.approved actor details at t h = s.add_audit_event id _ actor details at t h
  decision id State.rejected actor details at t h = s.add_audit_event id _ actor details at t h
  decision id _ actor details at t h = h

  writes :
      (id : String) (from to : State) (actor : String) (details : Json) (at : ℕ) (t : Tables)
      → Q t
      → Q (transition_writes id from to actor details at t)
  unfolding transition_writes
  writes id from to actor details at t h =
      decision id to actor details at _
        (s.add_audit_event id _ actor details at _ (s.update_task_state id to at _ t h))

  pub transition_task-Keeps :
      (id : String) (to : State) (actor : String) (details : Json)
      → Keeps Q (Queue.transition_task env id to actor details)
  unfolding Queue.transition_task
  transition_task-Keeps id to actor details = Keeps-bind (Keeps-require_task id) λ task.
      Keeps-then (Keeps-lift _) (
        Keeps-bind (Keeps-utcnow env) λ at.
          Keeps-then (Keeps-run_in_transaction _ (writes id task.state to actor details at))
            (Keeps-get_view id))

  pub enqueue_task-Keeps : (id : String) (c : Option String) → Keeps Q (Queue.enqueue_task env id c)
  unfolding Queue.enqueue_task
  enqueue_task-Keeps id c = Keeps-bind (Keeps-require_task id) λ task. Keeps-then (Keeps-lift _) (
      Keeps-bind (transition_task-Keeps id State.queued _ _) λ queued.
        Keeps-bind (Keeps-utcnow env) λ at.
          Keeps-then (Keeps-execute _ (s.enqueue_task id c at _))
            (Keeps-then (audit s env id _ _ _ at) (Keeps-pure queued)))

  pub claim_queue_item-Keeps :
      (id worker : String) (now : Option ℕ) → Keeps Q (Queue.claim_queue_item env id worker now)
  unfolding Queue.claim_queue_item
  claim_queue_item-Keeps id worker now_arg = Keeps-bind (Keeps-require_item id) λ q.
      Keeps-bind (Keeps-now_or env now_arg) λ now. Keeps-then (Keeps-lift _) (
        Keeps-then (Keeps-execute _ (s.claim_queue_item id worker _ _))
          (Keeps-then (audit s env id _ _ _ _) (Keeps-get_view id)))

  running_then_dispatched :
      (id : String) (started timeout : ℕ) {A : Type 0} {k : Action A}
      → Keeps Q k
      → Keeps Q (
          execute (Db.mark_queue_running id started timeout started)
          >> (utcnow env >>= λ at. execute (Db.mark_queue_dispatched id at) >> k))
  unfolding actions
  running_then_dispatched id started timeout kk = record {
    at = λ w h. kk.at _ (s.running_dispatched id started timeout started _ w.live h);
  }

  trace_dispatch-Keeps : (c : Option String) (id : String) → Keeps Q (Queue.trace_dispatch env c id)
  trace_dispatch-Keeps none id = Keeps-pure tt
  trace_dispatch-Keeps (some c) id = Keeps-if (c == "") (Keeps-pure tt) (Keeps-trace env c _ _ _)

  run_task-Keeps :
      (task : TaskRow) (id : String) (c : Option String) → Keeps Q (Queue.run_task env task id c)
  unfolding Queue.run_task Queue.start_run
  run_task-Keeps task id c = Keeps-then (transition_task-Keeps id State.running _ _) (
      Keeps-bind (Keeps-utcnow env) λ started. running_then_dispatched id started _ (
        Keeps-then (trace_dispatch-Keeps (Queue.dispatch_trace c task.request_payload) id)
          (Keeps-then (Keeps-submit env _ _) (Keeps-get_view id))))

  enqueue_if_approved-Keeps :
      (task : TaskRow) (id : String) (c : Option String)
      → Keeps Q (Queue.enqueue_if_approved env task id c)
  enqueue_if_approved-Keeps task id c =
      Keeps-if _ (Keeps-then (enqueue_task-Keeps id c) (Keeps-query _)) (Keeps-pure _)

  pub dispatch_task-Keeps :
      (id : String) (c worker : Option String) → Keeps Q (Queue.dispatch_task env id c worker)
  unfolding Queue.dispatch_task
  dispatch_task-Keeps id c worker = Keeps-bind (Keeps-require_task id) λ first.
      Keeps-bind (enqueue_if_approved-Keeps first id c) λ found.
        Keeps-bind (Keeps-lift _) λ task.
          Keeps-bind (Keeps-query _) λ q. Keeps-then (Keeps-lift _) (run_task-Keeps task id c)

  handle_failure-Keeps :
      (id : String) (q : QueueItem) (now : ℕ) (e : Exception)
      → Keeps Q (Queue.handle_failure env id q now e)
  unfolding Queue.handle_failure Queue.dead_letter Queue.bury Queue.schedule_retry
  handle_failure-Keeps id q now e =
      Keeps-if _
        (Keeps-then (Keeps-execute _ (s.mark_queue_dead_letter id _ _ _)) (
          Keeps-then (transition_task-Keeps id State.failed _ _)
            (Keeps-then (audit s env id _ _ _ _) (Keeps-get_view id))))
        (Keeps-bind (Keeps-utcnow env) λ at.
          Keeps-then (Keeps-execute _ (s.update_task_state id _ at _)) (
            Keeps-then (Keeps-execute _ (s.mark_queue_retry id _ _ _ _))
              (Keeps-then (audit s env id _ _ _ _) (Keeps-get_view id))))

  claim_for-Keeps :
      (id : String) (worker : Option String) (now : ℕ) (q : QueueItem)
      → Keeps Q (Queue.claim_for env id worker now q)
  unfolding Queue.claim_for
  claim_for-Keeps id none now q = Keeps-pure q
  claim_for-Keeps id (some worker) now q =
      Keeps-then (claim_queue_item-Keeps id worker (some now))
        (Keeps-bind (Keeps-query _) λ found. Keeps-lift _)

  attempt-Keeps :
      (id : String) (worker : Option String) (now : ℕ) (q : QueueItem)
      → Keeps Q (Queue.attempt env id worker now q)
  unfolding Queue.attempt
  attempt-Keeps id worker now q =
      Keeps-bind (claim_for-Keeps id worker now q) λ claimed.
        Keeps-catch (dispatch_task-Keeps id _ worker) (handle_failure-Keeps id claimed now)

  pub process_queue-Keeps :
      (id : String) (now : Option ℕ) (worker : Option String)
      → Keeps Q (Queue.process_queue env id now worker)
  unfolding Queue.process_queue Queue.start_attempt
  process_queue-Keeps id now_arg worker = Keeps-bind (Keeps-require_item id) λ q.
      Keeps-if _
        (Keeps-bind (Keeps-now_or env now_arg)
          λ now. Keeps-if _ (Keeps-get_view id) (attempt-Keeps id worker now q))
        (Keeps-get_view id)
