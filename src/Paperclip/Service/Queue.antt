-- ===== src/Paperclip/Service/Queue.antt =====
-- paperclip/service.py: the methods that move a task to, through and out of the queue.
use agentopia.Prelude.{
  ℕ, ◌+◌, ◌-◌, ◌*◌, ◌^◌, String, Option, none, some, Bool, true, false, not, ◌&&◌, [], ◌∷◌, ◌==◌,
  ◌<>◌, leb, ltb, if◌then◌else◌,
}
use agentopia.Prelude.Json.{Json, str, num, dict, opt_str}
use agentopia.Python.{
  Except, ok, raise, Exception, value_error, key_error, attribute_error, or_raise,
}
use agentopia.Paperclip.StateMachine.{State, state_name, same_state, assert_transition}
use agentopia.Paperclip.Db
use agentopia.Paperclip.Db.{
  Tables, TaskRow, QueueItem, QueueStatus, same_status, get_task, get_queue_item,
}
use agentopia.Paperclip.Service.World.{
  Surroundings, Action, pure, lift, query, catch, ◌>>=◌, ◌>>◌, execute, run_in_transaction,
  whole_seconds, add_seconds, utcnow, now_or, trace, submit,
}
use agentopia.Paperclip.Service.Views.{TaskView, view_task}
use agentopia.Paperclip.Service.Payload.{payload_trace}

-- The answer of most methods: `return self.get_task(task_id)`.
unfoldable pub get_view : String → Action (Option TaskView)
get_view id = query (λ t. view_task t id)

-- `task = self.db.get_task(task_id)`, with `raise KeyError(task_id)` on `None`
unfoldable pub require_task : String → Action TaskRow
require_task id = do lift (or_raise (← query (get_task id)) (key_error id))

unfoldable pub require_item : String → Action QueueItem
require_item id = do lift (or_raise (← query (get_queue_item id)) (key_error id))

abbrev pub approval_for : State → Option String
approval_for State.pending_approval = some "pending"
approval_for State.approved = some "approved"
approval_for State.rejected = some "rejected"
approval_for _ = none

abbrev pub record_decision : String → State → String → Json → ℕ → Tables → Tables
record_decision id State.approved actor details at t =
    Db.add_audit_event id "approval_granted" actor details at t
record_decision id State.rejected actor details at t =
    Db.add_audit_event id "approval_rejected" actor details at t
record_decision id _ actor details at t = t

-- The writes that `transition_task` makes in one transaction.
unfoldable pub transition_writes : String → State → State → String → Json → ℕ → Tables → Tables
transition_writes id from to actor details at t = record_decision id to actor details at (
    Db.add_audit_event id ("state_changed:" <> state_name from <> "->" <> state_name to) actor
      details at (Db.update_task_state id to at (approval_for to) t))

-- A lease that has not run out, in the name of another worker.
abbrev pub held_by_other : QueueItem → String → ℕ → Bool
held_by_other q worker now = elim q.worker_id [
  | none ↦ false
  | some current ↦ elim q.lease_expires_at [
    | none ↦ false
    | some deadline ↦ not (current == "") && (ltb now deadline && not (current == worker))
  ]
]

abbrev pub holder : QueueItem → String
holder q = elim q.worker_id [ none ↦ "" | some current ↦ current ]

-- `worker_id is not None and (queue_item is None or queue_item["worker_id"] != worker_id)`
abbrev pub not_leased_by : Option String → Option QueueItem → Bool
not_leased_by none q = false
not_leased_by (some worker) none = true
not_leased_by (some worker) (some q) = elim q.worker_id [
  | none ↦ true
  | some current ↦ not (current == worker)
]

abbrev pub is_queued : Option TaskRow → Bool
is_queued none = false
is_queued (some task) = same_state task.state State.queued

-- `correlation_id or payload.get("trace", {}).get("trace_id")`
abbrev pub dispatch_trace : Option String → Json → Option String
dispatch_trace none payload = payload_trace payload
dispatch_trace (some c) payload = if c == "" then payload_trace payload else some c

abbrev pub checked_task : Option TaskRow → String → Except TaskRow
checked_task task id =
    if is_queued task
    then or_raise task (key_error id)
    else raise (value_error ("task must be queued before dispatch: " <> id))

abbrev pub is_scheduled_later : QueueItem → ℕ → Bool
is_scheduled_later q now = elim q.next_attempt_at [ none ↦ false | some next ↦ ltb now next ]

module _ (env : Surroundings) where
  unfoldable pub transition_task : String → State → String → Json → Action (Option TaskView)
  transition_task id target actor details = do
    task ← require_task id
    lift (assert_transition task.state target)
    at ← utcnow env
    run_in_transaction (transition_writes id task.state target actor details at)
    get_view id

  unfoldable pub enqueue_task : String → Option String → Action (Option TaskView)
  enqueue_task id correlation = do
    task ← require_task id
    lift (
        if same_state task.state State.approved
        then ok tt
        else raise (value_error ("task must be approved before queueing: " <> id)))
    queued ← transition_task id State.queued "paperclip" (dict (("queue", str "sqlite") ∷ []))
    at ← utcnow env
    execute (Db.enqueue_task id correlation at env.settings.queue_max_attempts)
    execute (
        Db.add_audit_event id "task_enqueued" "paperclip"
          (dict (("correlation_id", opt_str correlation) ∷ [])) at)
    pure queued

  -- `_queue_backoff_seconds`
  unfoldable pub backoff_seconds : ℕ → ℕ
  backoff_seconds attempts = env.settings.queue_backoff_seconds * 2 ^ (attempts - 1)

  unfoldable pub claim_queue_item : String → String → Option ℕ → Action (Option TaskView)
  claim_queue_item id worker now_arg = do
    q ← require_item id
    now ← now_or env now_arg
    lift (
        if held_by_other q worker now
        then raise (value_error ("queue item already leased by " <> holder q))
        else ok tt)
    let at = whole_seconds now
    let expires = whole_seconds (add_seconds now env.settings.queue_lease_seconds)
    execute (Db.claim_queue_item id worker expires at)
    execute (
        Db.add_audit_event id "task_claimed" worker (dict (("lease_expires_at", num expires) ∷ []))
          at)
    get_view id

  abbrev pub trace_dispatch : Option String → String → Action (Unit {0})
  trace_dispatch none id = pure tt
  trace_dispatch (some c) id =
      if c == ""
      then pure tt
      else trace env c "paperclip" "task_dispatched" (("task_id", str id) ∷ [])

  -- `dispatch_task` after the transition to `running`.
  unfoldable pub start_run : TaskRow → String → Option String → Action (Option TaskView)
  start_run task id correlation = do
    started ← utcnow env
    let timeout = whole_seconds (add_seconds started env.settings.queue_timeout_seconds)
    execute (Db.mark_queue_running id started timeout started)
    at ← utcnow env
    execute (Db.mark_queue_dispatched id at)
    let trace_id = dispatch_trace correlation task.request_payload
    trace_dispatch trace_id id
    submit env task.request_payload trace_id
    get_view id

  unfoldable pub run_task : TaskRow → String → Option String → Action (Option TaskView)
  run_task task id correlation = do
    transition_task id State.running "paperclip" (dict (("dispatch", str "hermes") ∷ []))
    start_run task id correlation

  -- `if task["state"] == "approved": self.enqueue_task(…)`, and the read that follows it
  abbrev pub enqueue_if_approved : TaskRow → String → Option String → Action (Option TaskRow)
  enqueue_if_approved task id correlation =
      if same_state task.state State.approved
      then (enqueue_task id correlation >> query (get_task id))
      else pure (some task)

  unfoldable pub dispatch_task : String → Option String → Option String → Action (Option TaskView)
  dispatch_task id correlation worker = do
    first ← require_task id
    found ← enqueue_if_approved first id correlation
    task ← lift (checked_task found id)
    q ← query (get_queue_item id)
    lift (
        if not_leased_by worker q
        then raise (value_error ("task must be leased by worker before dispatch: " <> id))
        else ok tt)
    run_task task id correlation

  -- `dead_letter`, below, after the write to the queue.
  unfoldable pub bury : String → ℕ → String → ℕ → Action (Option TaskView)
  bury id attempts error at = do
    transition_task id State.failed "paperclip"
        (dict (("reason", str "dead_letter") ∷ ("error", str error) ∷ []))
    execute (
        Db.add_audit_event id "task_dead_lettered" "paperclip"
          (dict (("attempt_count", num attempts) ∷ ("error", str error) ∷ [])) at)
    get_view id

  -- The branch of the `except` that gives the task up.
  unfoldable pub dead_letter : String → ℕ → String → ℕ → Action (Option TaskView)
  dead_letter id attempts error at = do
    execute (Db.mark_queue_dead_letter id attempts error at)
    bury id attempts error at

  -- The branch of the `except` that tries again later.
  unfoldable pub schedule_retry : String → ℕ → String → ℕ → Action (Option TaskView)
  schedule_retry id attempts error now = do
    at ← utcnow env
    execute (Db.update_task_state id State.queued at none)
    let next = whole_seconds (add_seconds now (backoff_seconds attempts))
    execute (Db.mark_queue_retry id attempts next error (whole_seconds now))
    execute (
        Db.add_audit_event id "task_retry_scheduled" "paperclip"
          (dict (
            ("attempt_count", num attempts)
            ∷ ("next_attempt_at", num next)
            ∷ ("error", str error)
            ∷ []))
          (whole_seconds now))
    get_view id

  unfoldable pub handle_failure : String → QueueItem → ℕ → Exception → Action (Option TaskView)
  handle_failure id q now e =
      let attempts = q.attempt_count + 1 in
      if leb q.max_attempts attempts
      then dead_letter id attempts e.message (whole_seconds now)
      else schedule_retry id attempts e.message now

  -- The claim in the name of a worker, if one is given, and the queue item after it.
  unfoldable pub claim_for : String → Option String → ℕ → QueueItem → Action QueueItem
  claim_for id none now q = pure q
  claim_for id (some worker) now q = do
    claim_queue_item id worker (some now)
    lift (
        or_raise (← query (get_queue_item id))
          (attribute_error "'NoneType' object has no attribute 'get'"))

  unfoldable pub attempt : String → Option String → ℕ → QueueItem → Action (Option TaskView)
  attempt id worker now q = do
    claimed ← claim_for id worker now q
    catch (dispatch_task id claimed.correlation_id worker) (handle_failure id claimed now)

  -- `process_queue` of an item that is queued.
  unfoldable pub start_attempt :
      String → Option String → Option ℕ → QueueItem → Action (Option TaskView)
  start_attempt id worker now_arg q = do
    now ← now_or env now_arg
    if is_scheduled_later q now then get_view id else attempt id worker now q

  unfoldable pub process_queue : String → Option ℕ → Option String → Action (Option TaskView)
  process_queue id now_arg worker = do
    q ← require_item id
    if same_status q.status QueueStatus.queued
        then start_attempt id worker now_arg q
        else get_view id
