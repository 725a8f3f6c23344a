-- ===== src/Paperclip/Db/Rows.antt =====
-- The rows of migrations/001_initial_schema.sql. `tasks.id`, `task_queue.task_id`,
-- `task_results.task_id` and `task_idempotency.idempotency_key` are primary keys.
use agentopia.Prelude.{ℕ, String, Option, none, some, Bool, true, false, List}
use agentopia.Prelude.Table.{Table}
use agentopia.Prelude.Json.{Json}
use agentopia.Paperclip.StateMachine.{State}

pub record TaskRow : Type 0 where
  pub id : String
  pub schema_version : String
  pub type : String
  pub title : String
  pub description : String
  pub priority : String
  pub risk_level : String
  pub requester_id : String
  pub requester_display_name : String
  pub tenant_id : String
  pub org_id : String
  pub client_id : String
  pub state : State
  pub approval_status : String
  pub request_payload : Json
  pub created_at : ℕ
  pub updated_at : ℕ

-- The dictionary that `create_task` is given; a tenant column may be `None` there.
pub record TaskRecord : Type 0 where
  pub id : String
  pub schema_version : String
  pub type : String
  pub title : String
  pub description : String
  pub priority : String
  pub risk_level : String
  pub requester_id : String
  pub requester_display_name : String
  pub tenant_id : Option String
  pub org_id : Option String
  pub client_id : Option String
  pub state : State
  pub approval_status : String
  pub request_payload : Json
  pub created_at : ℕ
  pub updated_at : ℕ

abbrev pub row_of : TaskRecord → String → String → String → TaskRow
row_of r tenant org client = record {
  id = r.id;
  schema_version = r.schema_version;
  type = r.type;
  title = r.title;
  description = r.description;
  priority = r.priority;
  risk_level = r.risk_level;
  requester_id = r.requester_id;
  requester_display_name = r.requester_display_name;
  tenant_id = tenant;
  org_id = org;
  client_id = client;
  state = r.state;
  approval_status = r.approval_status;
  request_payload = r.request_payload;
  created_at = r.created_at;
  updated_at = r.updated_at;
}

pub record AuditEvent : Type 0 where
  pub id : ℕ
  pub task_id : String
  pub event_type : String
  pub actor : String
  pub payload : Json
  pub created_at : ℕ

pub data QueueStatus : Type 0 where
  queued running dispatched timed_out dead_letter cancelled : QueueStatus

abbrev pub same_status : QueueStatus → QueueStatus → Bool
same_status QueueStatus.queued QueueStatus.queued = true
same_status QueueStatus.running QueueStatus.running = true
same_status QueueStatus.dispatched QueueStatus.dispatched = true
same_status QueueStatus.timed_out QueueStatus.timed_out = true
same_status QueueStatus.dead_letter QueueStatus.dead_letter = true
same_status QueueStatus.cancelled QueueStatus.cancelled = true
same_status _ _ = false

pub record QueueItem : Type 0 where
  pub task_id : String
  pub status : QueueStatus
  pub correlation_id : Option String
  pub attempt_count : ℕ
  pub max_attempts : ℕ
  pub next_attempt_at : Option ℕ
  pub started_at : Option ℕ
  pub timeout_at : Option ℕ
  pub worker_id : Option String
  pub lease_expires_at : Option ℕ
  pub last_error : Option String
  pub created_at : ℕ
  pub updated_at : ℕ

abbrev pub fresh_item : String → Option String → ℕ → ℕ → QueueItem
fresh_item id correlation at max_attempts = record {
  task_id = id;
  status = QueueStatus.queued;
  correlation_id = correlation;
  attempt_count = 0;
  max_attempts = max_attempts;
  next_attempt_at = some at;
  started_at = none;
  timeout_at = none;
  worker_id = none;
  lease_expires_at = none;
  last_error = none;
  created_at = at;
  updated_at = at;
}

pub record IdempotencyRow : Type 0 where
  pub task_id : String
  pub created_at : ℕ

pub record ResultRow : Type 0 where
  pub payload : Json
  pub created_at : ℕ

-- The tables. `next_audit_id` is the AUTOINCREMENT counter of `audit_events`.
pub record Tables : Type 0 where
  pub tasks : Table TaskRow
  pub audit_events : List AuditEvent
  pub next_audit_id : ℕ
  pub results : Table ResultRow
  pub queue : Table QueueItem
  pub idempotency : Table IdempotencyRow
