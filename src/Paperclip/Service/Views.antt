-- ===== src/Paperclip/Service/Views.antt =====
-- The reads of paperclip/service.py that only look at the database: a task as a client sees it,
-- the review of its approval, and the lists.
use agentopia.Prelude.{
  ℕ, String, Option, none, some, Bool, true, false, not, ◌&&◌, List, [], ◌∷◌, ◌==◌, contains,
  select, leb, if◌then◌else◌,
}
use agentopia.Prelude.Json.{Json}
use agentopia.Paperclip.StateMachine.{State}
use agentopia.Paperclip.Db.{
  Tables, TaskRow, AuditEvent, QueueItem, QueueStatus, get_task, get_audit_events, get_result,
  list_tasks, list_queue_items, ResultRow,
}

pub record ReviewEvent : Type 0 where
  pub event_type : String
  pub actor : String
  pub created_at : ℕ
  pub payload : Json

pub record ReviewSummary : Type 0 where
  pub approval_status : String
  pub current_state : State
  pub review_required : Bool
  pub latest_review_event : Option ReviewEvent

abbrev review_events : List String
review_events =
    "approval_requested" ∷ "approval_granted" ∷ "approval_rejected" ∷ "approval_expired"
    ∷ "approval_recovery_reset_pending" ∷ []

-- `relevant[-1] if relevant else None`
abbrev last_event : List AuditEvent → Option ReviewEvent
last_event [] = none
last_event (e ∷ []) = some (record {
  event_type = e.event_type;
  actor = e.actor;
  created_at = e.created_at;
  payload = e.payload;
})
last_event (e ∷ f ∷ es) = last_event (f ∷ es)

abbrev is_pending : State → Bool
is_pending State.pending_approval = true
is_pending _ = false

abbrev review_of : TaskRow → List AuditEvent → ReviewSummary
review_of task events = record {
  approval_status = task.approval_status;
  current_state = task.state;
  review_required = is_pending task.state;
  latest_review_event = last_event (select (λ e. contains review_events e.event_type) events);
}

-- `none` where the method raises `KeyError(task_id)`.
unfoldable pub approval_review_summary : Tables → String → Option ReviewSummary
approval_review_summary t id = elim (get_task id t) [
  | none ↦ none
  | some task ↦ some (review_of task (get_audit_events id t))
]

pub record TaskView : Type 0 where
  pub id : String
  pub schema_version : String
  pub type : String
  pub title : String
  pub description : String
  pub priority : String
  pub risk_level : String
  pub requester_id : String
  pub requester_display_name : String
  pub tenant_id : String
  pub org_id : String
  pub client_id : String
  pub state : State
  pub approval_status : String
  pub created_at : ℕ
  pub updated_at : ℕ
  pub result : Option Json
  pub approval_review : ReviewSummary

abbrev payload_of : Option ResultRow → Option Json
payload_of none = none
payload_of (some r) = some r.payload

abbrev pub view_of : Tables → String → TaskRow → TaskView
view_of t id task = record {
  id = task.id;
  schema_version = task.schema_version;
  type = task.type;
  title = task.title;
  description = task.description;
  priority = task.priority;
  risk_level = task.risk_level;
  requester_id = task.requester_id;
  requester_display_name = task.requester_display_name;
  tenant_id = task.tenant_id;
  org_id = task.org_id;
  client_id = task.client_id;
  state = task.state;
  approval_status = task.approval_status;
  created_at = task.created_at;
  updated_at = task.updated_at;
  result = payload_of (get_result id t);
  approval_review = review_of task (get_audit_events id t);
}

-- `PaperclipService.get_task`
unfoldable pub view_task : Tables → String → Option TaskView
view_task t id = elim (get_task id t) [ none ↦ none | some task ↦ some (view_of t id task) ]

abbrev tenant_views : Tables → String → List TaskRow → List TaskView
tenant_views t tenant [] = []
tenant_views t tenant (task ∷ tasks) =
    let rest = tenant_views t tenant tasks in
    if task.tenant_id == tenant
    then (elim (view_task t task.id) [ none ↦ rest | some v ↦ v ∷ rest ])
    else rest

unfoldable pub list_tasks_for_tenant : Tables → String → List TaskView
list_tasks_for_tenant t tenant = tenant_views t tenant (list_tasks t)

unfoldable pub get_audit : Tables → String → List AuditEvent
get_audit t id = get_audit_events id t

unfoldable pub get_queue : Tables → Option QueueStatus → List QueueItem
get_queue t status = list_queue_items status t

unfoldable pub get_approval_audit : Tables → String → List AuditEvent
get_approval_audit t id =
    select
      (λ e.
        contains
          ("approval_requested" ∷ "approval_granted" ∷ "approval_rejected" ∷ "approval_expired"
            ∷ [])
          e.event_type)
      (get_audit_events id t)

pub record StuckJob : Type 0 where
  pub task_id : String
  pub worker_id : String
  pub lease_expires_at : ℕ

abbrev stuck_job : ℕ → QueueItem → Option StuckJob
stuck_job now q = elim q.worker_id [
  | none ↦ none
  | some worker ↦ elim q.lease_expires_at [
    | none ↦ none
    | some expires ↦
        if not (worker == "") && leb expires now
        then some (record { task_id = q.task_id; worker_id = worker; lease_expires_at = expires })
        else none
  ]
]

abbrev collect {ℓ κ} : {A : Type ℓ} {B : Type κ} → (A → Option B) → List A → List B
collect f [] = []
collect f (a ∷ as') = elim (f a) [ none ↦ collect f as' | some b ↦ b ∷ collect f as' ]

unfoldable pub list_recoverable_stuck_jobs : Tables → ℕ → List StuckJob
list_recoverable_stuck_jobs t now =
    collect (stuck_job now) (list_queue_items (some QueueStatus.running) t)

pub record Candidate : Type 0 where
  pub task_id : String
  pub state : State
  pub created_at : ℕ

abbrev is_final : State → Bool
is_final State.succeeded = true
is_final State.failed = true
is_final State.rejected = true
is_final _ = false

abbrev candidate : ℕ → TaskRow → Option Candidate
candidate older_than task =
    if leb task.created_at older_than && is_final task.state
    then some (record { task_id = task.id; state = task.state; created_at = task.created_at })
    else none

unfoldable pub list_retention_candidates : Tables → ℕ → List Candidate
list_retention_candidates t older_than = collect (candidate older_than) (list_tasks t)

pub record Mismatch : Type 0 where
  pub task_id : String
  pub state : State
  pub approval_status : String

-- `task.get("approval_status") or "unknown"`
abbrev pub status_or_unknown : String → String
status_or_unknown s = if s == "" then "unknown" else s

unfoldable pub approval_consistent : State → String → Bool
approval_consistent State.pending_approval s = s == "pending"
approval_consistent State.approved s = contains ("approved" ∷ "not_required" ∷ []) s
approval_consistent State.rejected s = s == "rejected"
approval_consistent _ s = true

abbrev mismatch : TaskRow → Option Mismatch
mismatch task =
    let status = status_or_unknown task.approval_status in
    if approval_consistent task.state status
    then none
    else some (record { task_id = task.id; state = task.state; approval_status = status })

unfoldable pub reconcile_approval_status : Tables → List Mismatch
reconcile_approval_status t = collect mismatch (list_tasks t)
