-- ===== src/Paperclip/Service/Payload.antt =====
-- What `submit_task` and `dispatch_task` read in the payload of a request.
use agentopia.Prelude.{String, Option, none, some, Bool}
use agentopia.Prelude.Json.{Json, str, obj, find_field, truthy}

infixl 5 ◌>>=◌
abbrev ◌>>=◌ {ℓ κ} : {A : Type ℓ} {B : Type κ} → Option A → (A → Option B) → Option B
none >>= f = none
some a >>= f = f a

abbrev field_of : Json → String → Option Json
field_of (obj fs) k = find_field k fs
field_of _ k = none

abbrev as_text : Json → Option String
as_text (str s) = some s
as_text _ = none

abbrev text_of : Json → String → Option String
text_of j k = do as_text (← field_of j k)

pub record TaskFields : Type 0 where
  pub schema_version : String
  pub id : String
  pub type : String
  pub title : String
  pub description : String
  pub priority : String
  pub risk_level : String
  pub requester_id : String
  pub requester_display_name : String
  pub approval_required : Bool
  pub approval_status : String
  pub trace_id : String

-- The subscripts of `submit_task`, each a required text in schemas/task_request_v1.json; `none`
-- where one of them is missing.
unfoldable pub read_task : Json → Option TaskFields
read_task payload = do
  task ← field_of payload "task"
  policy ← field_of payload "execution_policy"
  approval ← field_of policy "approval"
  requester ← field_of task "requester"
  trace ← field_of payload "trace"
  version ← text_of payload "schema_version"
  id ← text_of task "id"
  type ← text_of task "type"
  title ← text_of task "title"
  description ← text_of task "description"
  priority ← text_of task "priority"
  risk ← text_of task "risk_level"
  requester_id ← text_of requester "id"
  requester_name ← text_of requester "display_name"
  required ← field_of approval "required"
  status ← text_of approval "status"
  trace_id ← text_of trace "trace_id"
  some (record {
    schema_version = version;
    id = id;
    type = type;
    title = title;
    description = description;
    priority = priority;
    risk_level = risk;
    requester_id = requester_id;
    requester_display_name = requester_name;
    approval_required = truthy required;
    approval_status = status;
    trace_id = trace_id;
  })

-- `payload.get("trace", {}).get("trace_id")`
unfoldable pub payload_trace : Json → Option String
payload_trace payload = do text_of (← field_of payload "trace") "trace_id"
