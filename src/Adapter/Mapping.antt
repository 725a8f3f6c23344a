-- ===== src/Adapter/Mapping.antt =====
-- paperclip_adapter/mapping.py and client.py: a task request as an issue, an approval and a wake-up.
use agentopia.Prelude.{
  ℕ, String, Option, none, some, Bool, List, [], ◌∷◌, ◌<>◌, contains, map, if◌then◌else◌,
}
use agentopia.Prelude.Json.{
  Json, null, bool, num, str, arr, obj, Items, Fields, field, end, of_pairs, dict, of_list, truthy,
}
use agentopia.Python.{Except, ok, raise, ◌>>=◌, exception, Kind, index}
use agentopia.Hermes.Station.{Deployment}
use agentopia.Adapter.HttpClient.{
  PaperclipIssueCreate, PaperclipApprovalCreate, PaperclipExecutionTrigger,
}

pub record AgentopiaTaskEnvelope : Type 0 where
  pub schema_version : Json
  pub task_id : Json
  pub task_type : Json
  pub title : Json
  pub description : Json
  pub priority : Json
  pub risk_level : Json
  pub requester_id : Json
  pub requester_display_name : Json
  pub company_id : String
  pub project_id : Option String
  pub goal_id : Option String
  pub approval_required : Json
  pub approval_status : Json
  pub max_cost_usd : Json
  pub max_runtime_minutes : Json
  pub allow_network : Bool
  pub allow_memory : Bool
  pub allow_tools : Bool
  pub allowed_tool_classes : List Json
  pub output_format : Json
  pub output_length : Json
  pub callback_url : Json
  pub trace_id : Json
  pub raw_payload : Json

abbrev keys : Fields → List Json
keys end = []
keys (field k v fs) = str k ∷ keys fs

abbrev chars : String → List Json
chars String.[] = []
chars (String.◌∷◌ c s) = str (String.◌∷◌ c String.[]) ∷ chars s

-- `list(v)`
abbrev list_of : Json → Except (List Json)
list_of (arr js) = ok (agentopia.Prelude.Json.items js)
list_of (str s) = ok (chars s)
list_of (obj fs) = ok (keys fs)
list_of _ = raise (exception Kind.type_mismatch "object is not iterable")

unfoldable pub parse_agentopia_task :
    Deployment → Json → String → Option String → Option String → Except AgentopiaTaskEnvelope
parse_agentopia_task d payload company_id project_id goal_id = do
  task ← index payload "task"
  policy ← index payload "execution_policy"
  permissions ← index policy "permissions"
  output_requirements ← index policy "output_requirements"
  routing ← index payload "routing"
  trace ← index payload "trace"
  requester ← index task "requester"
  approval ← index policy "approval"
  budget ← index policy "budget"
  schema_version ← index payload "schema_version"
  task_id ← index task "id"
  task_type ← index task "type"
  title ← index task "title"
  description ← index task "description"
  priority ← index task "priority"
  risk_level ← index task "risk_level"
  requester_id ← index requester "id"
  display_name ← index requester "display_name"
  required ← index approval "required"
  approval_status ← index approval "status"
  cost ← index budget "max_cost_usd"
  max_cost_usd ← d.as_float cost
  minutes ← index budget "max_runtime_minutes"
  max_runtime_minutes ← d.as_int minutes
  allow_network ← index permissions "allow_network"
  allow_memory ← index permissions "allow_memory"
  allow_tools ← index permissions "allow_tools"
  classes ← index permissions "allowed_tool_classes"
  allowed_tool_classes ← list_of classes
  output_format ← index output_requirements "format"
  output_length ← index output_requirements "length"
  callback ← index routing "callback"
  callback_url ← index callback "result_url"
  trace_id ← index trace "trace_id"
  ok (record {
    schema_version = schema_version;
    task_id = task_id;
    task_type = task_type;
    title = title;
    description = description;
    priority = priority;
    risk_level = risk_level;
    requester_id = requester_id;
    requester_display_name = display_name;
    company_id = company_id;
    project_id = project_id;
    goal_id = goal_id;
    approval_required = required;
    approval_status = approval_status;
    max_cost_usd = max_cost_usd;
    max_runtime_minutes = max_runtime_minutes;
    allow_network = truthy allow_network;
    allow_memory = truthy allow_memory;
    allow_tools = truthy allow_tools;
    allowed_tool_classes = allowed_tool_classes;
    output_format = output_format;
    output_length = output_length;
    callback_url = callback_url;
    trace_id = trace_id;
    raw_payload = payload;
  })

-- `PRIORITY_MAP.get(task.priority, "medium")`: a list or a dictionary has no hash.
unfoldable pub mapped_priority : Json → Except String
mapped_priority (str s) =
    ok (if contains ("low" ∷ "medium" ∷ "high" ∷ "urgent" ∷ []) s then s else "medium")
mapped_priority (arr js) = raise (exception Kind.type_mismatch "unhashable type: 'list'")
mapped_priority (obj fs) = raise (exception Kind.type_mismatch "unhashable type: 'dict'")
mapped_priority _ = ok "medium"

abbrev issue_metadata : AgentopiaTaskEnvelope → Json
issue_metadata task = dict (
    (
      "agentopia",
      dict (
          ("schema_version", task.schema_version)
          ∷ ("task_id", task.task_id)
          ∷ ("task_type", task.task_type)
          ∷ ("risk_level", task.risk_level)
          ∷ ("requester_id", task.requester_id)
          ∷ ("requester_display_name", task.requester_display_name)
          ∷ ("approval_required", task.approval_required)
          ∷ ("approval_status", task.approval_status)
          ∷ (
            "execution_constraints",
            dict (
                ("max_cost_usd", task.max_cost_usd)
                ∷ ("max_runtime_minutes", task.max_runtime_minutes)
                ∷ ("allow_network", bool task.allow_network)
                ∷ ("allow_memory", bool task.allow_memory)
                ∷ ("allow_tools", bool task.allow_tools)
                ∷ ("allowed_tool_classes", arr (of_list task.allowed_tool_classes))
                ∷ ("output_format", task.output_format)
                ∷ ("output_length", task.output_length)
                ∷ []),
          )
          ∷ ("callback_url", task.callback_url)
          ∷ ("trace_id", task.trace_id)
          ∷ []),
    )
    ∷ [])

unfoldable pub map_task_to_issue : AgentopiaTaskEnvelope → Except PaperclipIssueCreate
map_task_to_issue task = do
  priority ← mapped_priority task.priority
  ok (record {
    company_id = task.company_id;
    title = task.title;
    description = task.description;
    priority = priority;
    project_id = task.project_id;
    goal_id = task.goal_id;
    status = "backlog";
    metadata = issue_metadata task;
  })

abbrev approval_of : AgentopiaTaskEnvelope → Json → PaperclipApprovalCreate
approval_of task issue_id = record {
  company_id = task.company_id;
  approval_type = "agentopia_task_execution";
  payload = of_pairs (
      ("issueId", issue_id)
      ∷ ("taskId", task.task_id)
      ∷ ("title", task.title)
      ∷ ("riskLevel", task.risk_level)
      ∷ ("maxCostUsd", task.max_cost_usd)
      ∷ ("maxRuntimeMinutes", task.max_runtime_minutes)
      ∷ ("traceId", task.trace_id)
      ∷ []);
  linked_issue_ids = issue_id ∷ [];
}

unfoldable pub map_task_to_approval : AgentopiaTaskEnvelope → Json → Option PaperclipApprovalCreate
map_task_to_approval task issue_id =
    if truthy task.approval_required then some (approval_of task issue_id) else none

unfoldable pub map_issue_to_execution_trigger :
    AgentopiaTaskEnvelope → Json → String → PaperclipExecutionTrigger
map_issue_to_execution_trigger task issue_id agent_id = record {
  agent_id = agent_id;
  source = "agentopia";
  trigger_detail = "paperclip_issue_execution";
  payload = of_pairs (
      ("issueId", issue_id)
      ∷ ("taskId", task.task_id)
      ∷ ("traceId", task.trace_id)
      ∷ ("callbackUrl", task.callback_url)
      ∷ ("taskType", task.task_type)
      ∷ []);
}

-- What `build_plan` of client.py makes of a task; its placeholder stands for the issue.
pub record Plan : Type 0 where
  pub task : AgentopiaTaskEnvelope
  pub issue_create : PaperclipIssueCreate
  pub approval_create : Option PaperclipApprovalCreate
  pub execution_trigger : PaperclipExecutionTrigger

abbrev placeholder : Json
placeholder = str "PAPERCLIP_ISSUE_ID_PLACEHOLDER"

unfoldable pub build_plan :
    Deployment → Json → String → Option String → Option String → String → Except Plan
build_plan d payload company_id project_id goal_id agent_id = do
  task ← parse_agentopia_task d payload company_id project_id goal_id
  issue ← map_task_to_issue task
  ok (record {
    task = task;
    issue_create = issue;
    approval_create = map_task_to_approval task placeholder;
    execution_trigger = map_issue_to_execution_trigger task placeholder agent_id;
  })
