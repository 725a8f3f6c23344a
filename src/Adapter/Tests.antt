-- ===== src/Adapter/Tests.antt =====
-- A submission to Paperclip at a concrete plan.
use agentopia.Prelude.{none, some, false, [], ◌∷◌}
use agentopia.Prelude.Json.{Json, null, str, dict, of_pairs}
use agentopia.Python.{ok}
use agentopia.Hermes.Station.{Deployment, received}
use agentopia.Hermes.Tests.Service.{deployment}
use agentopia.Adapter.HttpClient.{PaperclipClientConfig}
use agentopia.Adapter.Mapping.{AgentopiaTaskEnvelope, Plan}

abbrev issue : Json
issue = dict (
    ("id", str "i1")
    ∷ ("companyId", str "c1")
    ∷ ("title", str "t")
    ∷ ("status", str "backlog")
    ∷ ("priority", str "low")
    ∷ ("createdAt", str "now")
    ∷ ("updatedAt", str "now")
    ∷ [])

-- A Paperclip that answers every request with the issue.
abbrev connected : Deployment
connected = record deployment { loads = λ text. ok issue; urlopen = λ n r. received "issue" }

abbrev config : PaperclipClientConfig
config = record { base_url = "http://paperclip/"; bearer_token = none }

abbrev task : AgentopiaTaskEnvelope
task = record {
  schema_version = null;
  task_id = str "t1";
  task_type = null;
  title = str "t";
  description = null;
  priority = null;
  risk_level = null;
  requester_id = null;
  requester_display_name = null;
  company_id = "c1";
  project_id = none;
  goal_id = none;
  approval_required = null;
  approval_status = null;
  max_cost_usd = null;
  max_runtime_minutes = null;
  allow_network = false;
  allow_memory = false;
  allow_tools = false;
  allowed_tool_classes = [];
  output_format = null;
  output_length = null;
  callback_url = null;
  trace_id = null;
  raw_payload = null;
}

abbrev plan : Plan
plan = record {
  task = task;
  issue_create = record {
    company_id = "c1";
    title = str "t";
    description = null;
    priority = "low";
    project_id = none;
    goal_id = none;
    status = "backlog";
    metadata = null;
  };
  approval_create = some (record {
    company_id = "c1";
    approval_type = "agentopia_task_execution";
    payload = of_pairs (("issueId", str "PAPERCLIP_ISSUE_ID_PLACEHOLDER") ∷ []);
    linked_issue_ids = [];
  });
  execution_trigger = record {
    agent_id = "a1";
    source = "agentopia";
    trigger_detail = "paperclip_issue_execution";
    payload = of_pairs (("issueId", str "PAPERCLIP_ISSUE_ID_PLACEHOLDER") ∷ []);
  };
}
