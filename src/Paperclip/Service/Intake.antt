-- ===== src/Paperclip/Service/Intake.antt =====
-- paperclip/service.py: `submit_task`.
use agentopia.Prelude.{
  ℕ, String, Option, none, some, Bool, not, ◌&&◌, List, [], ◌∷◌, ◌==◌, if◌then◌else◌,
}
use agentopia.Prelude.Json.{Json, str, dict}
use agentopia.Python.{Except, ok, raise, value_error, key_error, or_raise, join}
use agentopia.Paperclip.StateMachine.{State}
use agentopia.Paperclip.Db
use agentopia.Paperclip.Db.{TaskRecord}
use agentopia.Paperclip.Service.World.{
  Surroundings, Action, pure, lift, query, ◌>>=◌, ◌>>◌, execute, execute_checked, utcnow, trace,
}
use agentopia.Paperclip.Service.Views.{TaskView}
use agentopia.Paperclip.Service.Payload.{TaskFields, read_task}
use agentopia.Paperclip.Service.Queue.{transition_task, enqueue_task, process_queue, get_view}

-- The dictionary `tenant_context`; an absent key and `None` for the whole are the empty text.
pub record TenantContext : Type 0 where
  pub tenant_id : Option String
  pub org_id : Option String
  pub client_id : Option String

abbrev pub new_record : TaskFields → Json → TenantContext → ℕ → TaskRecord
new_record f payload ctx at = record {
  id = f.id;
  schema_version = f.schema_version;
  type = f.type;
  title = f.title;
  description = f.description;
  priority = f.priority;
  risk_level = f.risk_level;
  requester_id = f.requester_id;
  requester_display_name = f.requester_display_name;
  tenant_id = ctx.tenant_id;
  org_id = ctx.org_id;
  client_id = ctx.client_id;
  state = State.received;
  approval_status = f.approval_status;
  request_payload = payload;
  created_at = at;
  updated_at = at;
}

-- `if webhook_url:` and the event that it records
unfoldable pub note_webhook : String → Option String → ℕ → Action (Unit {0})
note_webhook id none at = pure tt
note_webhook id (some url) at =
    if url == ""
    then pure tt
    else execute (
        Db.add_audit_event id "webhook_registered" "paperclip"
          (dict (("webhook_url", str url) ∷ [])) at)

-- `if idempotency_key:` after the task row is made
unfoldable pub note_key : String → Option String → ℕ → Action (Unit {0})
note_key id none at = pure tt
note_key id (some key) at = if key == "" then pure tt else (do
  execute_checked (Db.create_idempotency_record key id at)
  execute (
      Db.add_audit_event id "idempotency_key_recorded" "paperclip"
        (dict (("idempotency_key", str key) ∷ [])) at))

unfoldable pub note_approval : TaskFields → ℕ → Action (Unit {0})
note_approval f at =
    if f.approval_required
    then execute (
        Db.add_audit_event f.id "approval_requested" "paperclip"
          (dict (("approval_status", str f.approval_status) ∷ [])) at)
    else pure tt

-- A task waits for approval when one is required and has not been given.
abbrev pub must_wait : TaskFields → Bool
must_wait f = f.approval_required && not (f.approval_status == "approved")

module _ (env : Surroundings) where
  -- The task row and the events that come with it.
  unfoldable pub register :
      TaskFields → Json → TenantContext → Option String → Option String → Action (Unit {0})
  register f payload ctx key webhook = do
    at ← utcnow env
    execute_checked (Db.create_task (new_record f payload ctx at))
    execute (
        Db.add_audit_event f.id "task_received" "paperclip" (dict (("state", str "received") ∷ []))
          at)
    note_webhook f.id webhook at
    note_key f.id key at
    note_approval f at
    trace env f.trace_id "paperclip" "task_submitted"
        (("task_id", str f.id) ∷ ("state", str "received") ∷ [])

  unfoldable pub hold_for_approval : TaskFields → Action (Unit {0})
  hold_for_approval f = do
    transition_task env f.id State.pending_approval "paperclip"
        (dict (("approval_status", str f.approval_status) ∷ []))
    pure tt

  unfoldable pub start_at_once : TaskFields → Action (Unit {0})
  start_at_once f = do
    transition_task env f.id State.approved "paperclip"
        (dict (("approval_status", str f.approval_status) ∷ []))
    enqueue_task env f.id (some f.trace_id)
    process_queue env f.id none none
    pure tt

  -- The two transitions, and the first attempt of a task that needs no further approval.
  unfoldable pub route : TaskFields → Action (Unit {0})
  route f = do
    transition_task env f.id State.validating "paperclip"
        (dict (("schema_version", str f.schema_version) ∷ []))
    if must_wait f then hold_for_approval f else start_at_once f

  abbrev pub no_errors : List String → Except (Unit {0})
  no_errors [] = ok tt
  no_errors (e ∷ es) = raise (value_error (join "; " (e ∷ es)))

  unfoldable pub submit_new :
      Json → TenantContext → Option String → Option String → Action (Option TaskView)
  submit_new payload ctx key webhook = do
    lift (no_errors (env.validate payload))
    f ← lift (or_raise (read_task payload) (key_error "task"))
    register f payload ctx key webhook
    route f
    get_view f.id

  abbrev pub known_task : Option String → Action (Option TaskView)
  known_task none = pure none
  known_task (some id) = if id == "" then pure none else get_view id

  -- The task that an idempotency key stands for, if there is one.
  unfoldable pub find_by_key : Option String → Action (Option TaskView)
  find_by_key none = pure none
  find_by_key (some key) =
      if key == "" then pure none else (do known_task (← query (Db.get_idempotent_task_id key)))

  unfoldable pub submit_task :
      Json → TenantContext → Option String → Option String → Action (Option TaskView)
  submit_task payload ctx key webhook = do
    known ← find_by_key key
    elim known [ some v ↦ pure (some v) | none ↦ submit_new payload ctx key webhook ]
