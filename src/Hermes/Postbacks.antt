-- ===== src/Hermes/Postbacks.antt =====
-- hermes/paperclip_comments.py, paperclip_dashboard.py, paperclip_mapping.py and paperclip_bridge.py:
-- what is sent back to Paperclip about an execution, and the requests that come from it.
use agentopia.Prelude.{String, Option, none, some, List, [], ◌∷◌, ◌++◌, ◌<>◌, if◌then◌else◌}
use agentopia.Prelude.Json.{Json, str, obj, Fields, of_pairs, dict, truthy, merge}
use agentopia.Python.{Except, ok, ◌>>=◌, join}
use agentopia.Hermes.Platform.{Platform}
use agentopia.Hermes.Runs.{part}
use agentopia.Adapter.Comments.{bullet}

-- `build_issue_dashboard_document`; its key and its title are fixed.
abbrev pub dashboard_key : String
dashboard_key = "agentopia-review-dashboard"

abbrev pub dashboard_title : String
dashboard_title = "Agentopia Review Dashboard"

module _ (env : Platform) where
  abbrev approval_bullet : String → Json → String → Except String
  approval_bullet label decision_trace key = do
    approval ← part decision_trace "approval"
    bullet env label approval key

  abbrev error_section : Json → Except (List String)
  error_section error =
      if truthy error
      then (do
        code ← bullet env "Code" error "code"
        message ← bullet env "Message" error "message"
        ok ("" ∷ "## Error" ∷ code ∷ message ∷ []))
      else ok []

  unfoldable pub build_issue_dashboard_document : Json → Except String
  build_issue_dashboard_document result = do
    payload ← part result "result"
    metadata ← part payload "metadata"
    policy ← part metadata "policy"
    decision_trace ← part metadata "decision_trace"
    error ← part payload "error"
    run ← part result "run"
    label ← bullet env "Action label" metadata "action_label"
    category ← bullet env "Category" metadata "action_category"
    summary ← bullet env "Operator summary" metadata "operator_summary"
    action_reason ← bullet env "Action reason" metadata "action_reason"
    mode ← bullet env "Mode" policy "mode"
    reason ← bullet env "Reason" policy "reason"
    status ← bullet env "Run status" run "status"
    intent ← bullet env "Requested intent" decision_trace "requested_intent"
    task_type ← bullet env "Mapped task type" decision_trace "mapped_task_type"
    decision ← bullet env "Decision summary" decision_trace "decision_summary"
    paths ← bullet env "Target paths" decision_trace "target_paths"
    required ← approval_bullet "Required" decision_trace "required"
    approval_id ← approval_bullet "Approval id" decision_trace "paperclip_approval_id"
    approval_status ← approval_bullet "Approval status" decision_trace "paperclip_approval_status"
    errors ← error_section error
    ok (
        join "\n" (
          ("# Agentopia Review Dashboard Snapshot" ∷ "" ∷ "## Action" ∷ label ∷ category ∷ summary
            ∷ action_reason ∷ "" ∷ "## Policy" ∷ mode ∷ reason ∷ status ∷ "" ∷ "## Decision trace"
            ∷ intent ∷ task_type ∷ decision ∷ paths ∷ "" ∷ "## Approval" ∷ required ∷ approval_id
            ∷ approval_status ∷ [])
          ++ errors))

-- `PaperclipTaskContext`
pub record PaperclipTaskContext : Type 0 where
  pub issue_id : Option String
  pub paperclip_run_id : Option String
  pub agent_id : Option String
  pub paperclip_approval_id : Option String
  pub paperclip_approval_status : Option String
  pub extras : Fields

abbrev entry_if : String → Option String → List (String × Json)
entry_if key none = []
entry_if key (some s) = (key, str s) ∷ []

-- `to_dict`; no extras and empty extras are the same.
unfoldable pub to_dict : PaperclipTaskContext → Fields
to_dict c =
    merge
      (of_pairs (
        entry_if "issue_id" c.issue_id
        ++ (entry_if "paperclip_run_id" c.paperclip_run_id
            ++ (entry_if "agent_id" c.agent_id
                ++ (entry_if "paperclip_approval_id" c.paperclip_approval_id
                    ++ entry_if "paperclip_approval_status" c.paperclip_approval_status)))))
      c.extras

-- The texts of `build_task_request`.
pub record TaskTexts : Type 0 where
  pub task_id : String
  pub task_type : String
  pub title : String
  pub description : String
  pub requester_id : String
  pub requester_name : String
  pub priority : String
  pub risk_level : String
  pub callback_url : String

unfoldable pub build_task_request : String → TaskTexts → PaperclipTaskContext → Json → Json
build_task_request submitted_at t context execution_policy = dict (
    ("schema_version", str "v1")
    ∷ (
      "task",
      dict (
          ("id", str t.task_id)
          ∷ ("type", str t.task_type)
          ∷ ("title", str t.title)
          ∷ ("description", str t.description)
          ∷ ("priority", str t.priority)
          ∷ ("risk_level", str t.risk_level)
          ∷ (
            "requester",
            dict (("id", str t.requester_id) ∷ ("display_name", str t.requester_name) ∷ []),
          )
          ∷ ("context", obj (to_dict context))
          ∷ ("created_at", str submitted_at)
          ∷ []),
    )
    ∷ ("execution_policy", execution_policy)
    ∷ (
      "routing",
      dict (
          ("source", str "paperclip")
          ∷ ("destination", str "hermes")
          ∷ (
            "callback",
            dict (("result_url", str t.callback_url) ∷ ("auth_mode", str "shared_token") ∷ []),
          )
          ∷ []),
    )
    ∷ (
      "trace",
      dict
          (("trace_id", str ("paperclip-" <> t.task_id)) ∷ ("submitted_at", str submitted_at) ∷ []),
    )
    ∷ [])
