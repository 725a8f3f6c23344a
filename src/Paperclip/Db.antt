-- ===== src/Paperclip/Db.antt =====
-- paperclip/db.py over the schema of migrations/001_initial_schema.sql: the five tables as one
-- record, and each method as a function on it. A timestamp is a number of microseconds; the texts
-- that the database holds are its ISO 8601 form, which orders and parses back as the number does.
mod Rows
pub mod Order
pub use Rows.*
use agentopia.Prelude.{
  ℕ, suc, ◌+◌, String, Option, none, some, Bool, true, false, List, [], ◌∷◌, ◌++◌, ◌==◌, select,
  if◌then◌else◌,
}
use agentopia.Prelude.Table.{Table, lookup, update, remove, append_row, replace}
use agentopia.Prelude.Json.{Json}
use agentopia.Python.{Except, ok, raise, exception, Kind}
use agentopia.Paperclip.StateMachine.{State}
use agentopia.Paperclip.Db.Order.{sort_by}

abbrev pub unique_violation : String → Except Tables
unique_violation column = raise (exception Kind.integrity column)

-- `create_task`: the key must be new, and the three tenant columns are NOT NULL.
unfoldable pub create_task : TaskRecord → Tables → Except Tables
create_task r t = elim (lookup r.id t.tasks) [
  | some _ ↦ unique_violation "UNIQUE constraint failed: tasks.id"
  | none ↦ elim r.tenant_id [
    | none ↦ unique_violation "NOT NULL constraint failed: tasks.tenant_id"
    | some tenant ↦ elim r.org_id [
      | none ↦ unique_violation "NOT NULL constraint failed: tasks.org_id"
      | some org ↦ elim r.client_id [
        | none ↦ unique_violation "NOT NULL constraint failed: tasks.client_id"
        | some client ↦
            ok (record t { tasks = append_row r.id (row_of r tenant org client) t.tasks })
      ]
    ]
  ]
]

unfoldable pub get_task : String → Tables → Option TaskRow
get_task id t = lookup id t.tasks

abbrev pub set_state : State → ℕ → Option String → TaskRow → TaskRow
set_state s at none r = record r { state = s; updated_at = at }
set_state s at (some a) r = record r { state = s; approval_status = a; updated_at = at }

unfoldable pub update_task_state : String → State → ℕ → Option String → Tables → Tables
update_task_state id s at approval t = record t {
  tasks = update id (set_state s at approval) t.tasks;
}

unfoldable pub add_audit_event : String → String → String → Json → ℕ → Tables → Tables
add_audit_event id event actor payload at t = record t {
  audit_events =
      t.audit_events
      ++ record {
        id = t.next_audit_id;
        task_id = id;
        event_type = event;
        actor = actor;
        payload = payload;
        created_at = at;
      }
        ∷ [];
  next_audit_id = suc t.next_audit_id;
}

unfoldable pub get_audit_events : String → Tables → List AuditEvent
get_audit_events id t = select (λ e. e.task_id == id) t.audit_events

abbrev pub rows {ℓ} : {V : Type ℓ} → Table V → List V
rows [] = []
rows ((k, v) ∷ t) = v ∷ rows t

unfoldable pub list_tasks : Tables → List TaskRow
unfolding sort_by
list_tasks t = sort_by (λ r. r.created_at) (rows t.tasks)

unfoldable pub enqueue_task : String → Option String → ℕ → ℕ → Tables → Tables
enqueue_task id correlation at max_attempts t = record t {
  queue = replace id (fresh_item id correlation at max_attempts) t.queue;
}

abbrev pub set_item : String → (QueueItem → QueueItem) → Tables → Tables
set_item id f t = record t { queue = update id f t.queue }

unfoldable pub claim_queue_item : String → String → ℕ → ℕ → Tables → Tables
claim_queue_item id worker expires at =
    set_item id
      (λ q. record q { worker_id = some worker; lease_expires_at = some expires; updated_at = at })

unfoldable pub mark_queue_running : String → ℕ → ℕ → ℕ → Tables → Tables
mark_queue_running id started timeout at = set_item id (λ q. record q {
  status = QueueStatus.running;
  started_at = some started;
  timeout_at = some timeout;
  updated_at = at;
})

unfoldable pub mark_queue_timed_out : String → String → ℕ → Tables → Tables
mark_queue_timed_out id error at =
    set_item id
      (λ q. record q { status = QueueStatus.timed_out; last_error = some error; updated_at = at })

unfoldable pub reset_queue_to_queued : String → ℕ → Tables → Tables
reset_queue_to_queued id at = set_item id (λ q. record q {
  status = QueueStatus.queued;
  worker_id = none;
  lease_expires_at = none;
  started_at = none;
  timeout_at = none;
  updated_at = at;
})

unfoldable pub mark_queue_retry : String → ℕ → ℕ → String → ℕ → Tables → Tables
mark_queue_retry id attempts next error at = set_item id (λ q. record q {
  status = QueueStatus.queued;
  attempt_count = attempts;
  next_attempt_at = some next;
  last_error = some error;
  updated_at = at;
})

unfoldable pub mark_queue_dead_letter : String → ℕ → String → ℕ → Tables → Tables
mark_queue_dead_letter id attempts error at = set_item id (λ q. record q {
  status = QueueStatus.dead_letter;
  attempt_count = attempts;
  last_error = some error;
  updated_at = at;
})

unfoldable pub mark_queue_cancelled : String → ℕ → String → Tables → Tables
mark_queue_cancelled id at error =
    set_item id
      (λ q. record q { status = QueueStatus.cancelled; last_error = some error; updated_at = at })

unfoldable pub mark_queue_dispatched : String → ℕ → Tables → Tables
mark_queue_dispatched id at =
    set_item id (λ q. record q { status = QueueStatus.dispatched; updated_at = at })

unfoldable pub get_queue_item : String → Tables → Option QueueItem
get_queue_item id t = lookup id t.queue

unfoldable pub list_queue_items : Option QueueStatus → Tables → List QueueItem
unfolding sort_by
list_queue_items none t = sort_by (λ q. q.created_at) (rows t.queue)
list_queue_items (some s) t =
    sort_by (λ q. q.created_at) (select (λ q. same_status q.status s) (rows t.queue))

unfoldable pub create_idempotency_record : String → String → ℕ → Tables → Except Tables
create_idempotency_record key id at t = elim (lookup key t.idempotency) [
  | some _ ↦ unique_violation "UNIQUE constraint failed: task_idempotency.idempotency_key"
  | none ↦ ok (record t {
    idempotency = append_row key (record { task_id = id; created_at = at }) t.idempotency;
  })
]

unfoldable pub get_idempotent_task_id : String → Tables → Option String
get_idempotent_task_id key t = elim (lookup key t.idempotency) [
  | none ↦ none
  | some r ↦ some r.task_id
]

unfoldable pub store_result : String → Json → ℕ → Tables → Tables
store_result id payload at t = record t {
  results = replace id (record { payload = payload; created_at = at }) t.results;
}

unfoldable pub get_result : String → Tables → Option ResultRow
get_result id t = lookup id t.results

abbrev pub drop_keys_of : String → Table IdempotencyRow → Table IdempotencyRow
drop_keys_of id [] = []
drop_keys_of id ((k, r) ∷ t) =
    let rest = drop_keys_of id t in if r.task_id == id then rest else (k, r) ∷ rest

abbrev pub drop_events_of : String → List AuditEvent → List AuditEvent
drop_events_of id [] = []
drop_events_of id (e ∷ es) =
    let rest = drop_events_of id es in if e.task_id == id then rest else e ∷ rest

-- `delete_task_data`, in the order of its five statements.
unfoldable pub delete_task_data : String → Tables → Tables
delete_task_data id t = record t {
  idempotency = drop_keys_of id t.idempotency;
  results = remove id t.results;
  queue = remove id t.queue;
  audit_events = drop_events_of id t.audit_events;
  tasks = remove id t.tasks;
}
