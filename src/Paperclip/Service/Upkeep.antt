-- ===== src/Paperclip/Service/Upkeep.antt =====
-- paperclip/service.py: the operator's methods, which look for tasks that are stuck and move them.
use agentopia.Prelude.{
  ℕ, String, Option, none, some, Bool, false, List, [], ◌∷◌, ◌==◌, leb, ltb, if◌then◌else◌,
}
use agentopia.Prelude.Table.{Table}
use agentopia.Prelude.Json.{str, num, dict}
use agentopia.Paperclip.StateMachine.{State, state_name, same_state}
use agentopia.Paperclip.Db
use agentopia.Paperclip.Db.{Tables, TaskRow, QueueItem, QueueStatus}
use agentopia.Paperclip.Service.World.{
  Surroundings, Action, pure, query, ◌>>=◌, ◌>>◌, execute, utcnow, now_or, whole_seconds,
  add_seconds,
}
use agentopia.Paperclip.Service.Views.{
  TaskView, Mismatch, reconcile_approval_status, status_or_unknown,
}
use agentopia.Paperclip.Service.Queue.{transition_task, get_view}

pub record TimedOut : Type 0 where
  pub task_id : String
  pub timeout_at : ℕ

pub record Expired : Type 0 where
  pub task_id : String
  pub state : State
  pub approval_status : String
  pub updated_at : ℕ

pub record StuckApproval : Type 0 where
  pub task_id : String
  pub state : State
  pub approval_status : String
  pub updated_at : Option ℕ
  pub reason : String

-- The worker and the deadline of a lease that is named and has run out.
abbrev pub expired_lease : QueueItem → ℕ → Option String
expired_lease q now = elim q.worker_id [
  | none ↦ none
  | some worker ↦ elim q.lease_expires_at [
    | none ↦ none
    | some deadline ↦ if worker == "" then none else if ltb now deadline then none else some worker
  ]
]

abbrev pub due : QueueItem → ℕ → Option ℕ
due q now = elim q.timeout_at [
  | none ↦ none
  | some deadline ↦ if leb deadline now then some deadline else none
]

abbrev pub expired_of : TaskRow → Expired
expired_of task = record {
  task_id = task.id;
  state = task.state;
  approval_status = status_or_unknown task.approval_status;
  updated_at = task.updated_at;
}

abbrev pub of_mismatch : Mismatch → StuckApproval
of_mismatch m = record {
  task_id = m.task_id;
  state = m.state;
  approval_status = m.approval_status;
  updated_at = none;
  reason = "state_mismatch";
}

abbrev pub of_expired : Expired → StuckApproval
of_expired e = record {
  task_id = e.task_id;
  state = e.state;
  approval_status = e.approval_status;
  updated_at = some e.updated_at;
  reason = "expired_pending_approval";
}

-- `d[k] = v`: a key that is there keeps its place.
abbrev pub put : String → StuckApproval → Table StuckApproval → Table StuckApproval
put k v [] = (k, v) ∷ []
put k v ((j, w) ∷ t) = if j == k then (k, v) ∷ t else (j, w) ∷ put k v t

abbrev pub put_mismatches : List Mismatch → Table StuckApproval → Table StuckApproval
put_mismatches [] t = t
put_mismatches (m ∷ ms) t = put_mismatches ms (put m.task_id (of_mismatch m) t)

abbrev pub put_expired : List Expired → Table StuckApproval → Table StuckApproval
put_expired [] t = t
put_expired (e ∷ es) t = put_expired es (put e.task_id (of_expired e) t)

abbrev pub values : Table StuckApproval → List StuckApproval
values [] = []
values ((k, v) ∷ t) = v ∷ values t

module _ (env : Surroundings) where
  unfoldable pub release : String → String → String → ℕ → Action (Option TaskView)
  release id worker actor now = do
    let at = whole_seconds now
    execute (Db.reset_queue_to_queued id at)
    execute (Db.update_task_state id State.queued at none)
    execute (
        Db.add_audit_event id "task_recovered_from_stuck" actor
          (dict (("previous_worker_id", str worker) ∷ [])) at)
    get_view id

  abbrev pub recover_item : String → String → Option ℕ → QueueItem → Action (Option TaskView)
  recover_item id actor now_arg q = do
    now ← now_or env now_arg
    elim (expired_lease q now) [ none ↦ pure none | some worker ↦ release id worker actor now ]

  abbrev pub recover_found :
      String → String → Option ℕ → Option TaskRow → Option QueueItem → Action (Option TaskView)
  recover_found id actor now_arg none q = pure none
  recover_found id actor now_arg (some task) none = pure none
  recover_found id actor now_arg (some task) (some q) = recover_item id actor now_arg q

  unfoldable pub recover_stuck_job : String → String → Option ℕ → Action (Option TaskView)
  recover_stuck_job id actor now_arg = do
    task ← query (Db.get_task id)
    q ← query (Db.get_queue_item id)
    recover_found id actor now_arg task q

  unfoldable pub time_out : QueueItem → ℕ → ℕ → Action TimedOut
  time_out q deadline now = do
    let at = whole_seconds now
    execute (Db.mark_queue_timed_out q.task_id "queue timeout exceeded" at)
    transition_task env q.task_id State.failed "paperclip" (dict (("reason", str "timeout") ∷ []))
    execute (
        Db.add_audit_event q.task_id "task_timed_out" "paperclip"
          (dict (("timeout_at", num deadline) ∷ [])) at)
    pure (record { task_id = q.task_id; timeout_at = deadline })

  unfoldable pub time_out_all : ℕ → List QueueItem → Action (List TimedOut)
  time_out_all now [] = pure []
  time_out_all now (q ∷ qs) =
      let rest = time_out_all now qs in
      elim (due q now) [
        | none ↦ rest
        | some deadline ↦ (time_out q deadline now >>= λ t. (rest >>= λ ts. pure (t ∷ ts)))
      ]

  unfoldable pub enforce_timeouts : Option ℕ → Action (List TimedOut)
  enforce_timeouts now_arg = do
    now ← now_or env now_arg
    items ← query (Db.list_queue_items (some QueueStatus.running))
    time_out_all now items

  abbrev pub approval_expired : TaskRow → ℕ → Bool
  approval_expired task now =
      if same_state task.state State.pending_approval
      then leb (add_seconds task.updated_at env.settings.approval_ttl_seconds) now
      else false

  unfoldable pub note_expired : ℕ → List TaskRow → Action (List Expired)
  note_expired now [] = pure []
  note_expired now (task ∷ tasks) =
      let rest = note_expired now tasks in
      if approval_expired task now
      then (execute (
            Db.add_audit_event task.id "approval_expired" "paperclip"
              (dict (("updated_at", num task.updated_at) ∷ [])) now)
          >> (rest >>= λ es. pure (expired_of task ∷ es)))
      else rest

  unfoldable pub find_expired_approvals : Option ℕ → Action (List Expired)
  find_expired_approvals now_arg = do
    now ← now_or env now_arg
    tasks ← query Db.list_tasks
    note_expired now tasks

  unfoldable pub list_stuck_approval_tasks : Option ℕ → Action (List StuckApproval)
  list_stuck_approval_tasks now_arg = do
    mismatches ← query reconcile_approval_status
    expired ← find_expired_approvals now_arg
    pure (values (put_expired expired (put_mismatches mismatches [])))

  unfoldable pub reset_approval : TaskRow → String → String → Action (Option TaskView)
  reset_approval task id actor = do
    at ← utcnow env
    execute (Db.update_task_state id State.pending_approval at (some "pending"))
    execute (
        Db.add_audit_event id "approval_recovery_reset_pending" actor
          (dict (
            ("from_state", str (state_name task.state))
            ∷ ("from_approval_status", str task.approval_status)
            ∷ []))
          at)
    get_view id

  unfoldable pub recover_stuck_approval : String → String → Action (Option TaskView)
  recover_stuck_approval id actor = do
    found ← query (Db.get_task id)
    elim found [ none ↦ pure none | some task ↦ reset_approval task id actor ]
