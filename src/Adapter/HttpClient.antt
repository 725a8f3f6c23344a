-- ===== src/Adapter/HttpClient.antt =====
-- paperclip_adapter/http_client.py and the data of models.py that it sends and reads.
use agentopia.Prelude.{
  String, Option, none, some, Bool, List, [], ◌∷◌, ◌++◌, ◌<>◌, ◌==◌, if◌then◌else◌,
}
use agentopia.Prelude.Json.{Json, null, bool, num, str, arr, obj, Fields, dict, of_list, opt_str}
use agentopia.Prelude.Texts.{strip_end}
use agentopia.Python.{Except, ok, raise, exception, Kind}
use agentopia.Hermes.Executor.Memory.{text_for}
use agentopia.Hermes.Station.{
  Deployment, Reply, received, http_error, url_error, failed, Work, lift, open_url, ◌>>=◌,
}

-- paperclip_adapter/models.py; what comes from a payload is any value.
pub record PaperclipIssueCreate : Type 0 where
  pub company_id : String
  pub title : Json
  pub description : Json
  pub priority : String
  pub project_id : Option String
  pub goal_id : Option String
  pub status : String
  pub metadata : Json

pub record PaperclipApprovalCreate : Type 0 where
  pub company_id : String
  pub approval_type : String
  pub payload : Fields
  pub linked_issue_ids : List Json

pub record PaperclipExecutionTrigger : Type 0 where
  pub agent_id : String
  pub source : String
  pub trigger_detail : String
  pub payload : Fields

-- `PaperclipClientConfig`
pub record PaperclipClientConfig : Type 0 where
  pub base_url : String
  pub bearer_token : Option String

module _ (d : Deployment) (config : PaperclipClientConfig) where
  abbrev authorization : Option String → List (String × String)
  authorization none = []
  authorization (some token) =
      if token == "" then [] else ("Authorization", "Bearer " <> token) ∷ []

  -- `_headers`
  unfoldable pub headers : List (String × String)
  headers =
      (("Content-Type", "application/json") ∷ ("Accept", "application/json") ∷ [])
      ++ authorization config.bearer_token

  abbrev runtime_error : String → Except Json
  runtime_error message = raise (exception Kind.runtime message)

  unfoldable pub read_reply : String → String → Reply → Except Json
  read_reply method path (received raw) = if raw == "" then ok (dict []) else d.loads raw
  read_reply method path (http_error code raw) = runtime_error (
      "paperclip_http_error status="
      <> d.platform.show (num code)
      <> " method="
      <> method
      <> " path="
      <> path
      <> " body="
      <> raw)
  read_reply method path (url_error reason) =
      runtime_error
        ("paperclip_connection_error method=" <> method <> " path=" <> path <> " reason=" <> reason)
  read_reply method path (failed e) = raise e

  -- `_request`
  unfoldable pub send : String → String → Option Json → Work Json
  send method path payload = do
    reply ← open_url d (record {
      method = method;
      url = strip_end 47 config.base_url <> path;
      headers = headers;
      payload = payload;
    })
    lift (read_reply method path reply)

  unfoldable pub create_issue : PaperclipIssueCreate → Work Json
  create_issue issue = send "POST" ("/api/companies/" <> issue.company_id <> "/issues") (
      some (
        dict (
          ("title", issue.title)
          ∷ ("description", issue.description)
          ∷ ("priority", str issue.priority)
          ∷ ("projectId", opt_str issue.project_id)
          ∷ ("goalId", opt_str issue.goal_id)
          ∷ ("status", str issue.status)
          ∷ [])))

  unfoldable pub create_approval : PaperclipApprovalCreate → Work Json
  create_approval approval =
      send "POST" ("/api/companies/" <> approval.company_id <> "/approvals") (
        some (
          dict (
            ("type", str approval.approval_type)
            ∷ ("payload", obj approval.payload)
            ∷ ("issueIds", arr (of_list approval.linked_issue_ids))
            ∷ [])))

  unfoldable pub get_approval : String → String → Work Json
  get_approval company_id approval_id =
      send "GET" ("/api/companies/" <> company_id <> "/approvals/" <> approval_id) none

  abbrev opt_bool : String → Option Bool → List (String × Json)
  opt_bool key none = []
  opt_bool key (some b) = (key, bool b) ∷ []

  unfoldable pub create_issue_comment : Json → String → Option Bool → Option Bool → Work Json
  create_issue_comment issue_id body reopen interrupt =
      send "POST" ("/api/issues/" <> text_for d.platform issue_id <> "/comments") (
        some (
          dict (
            (("body", str body) ∷ [])
            ++ (opt_bool "reopen" reopen ++ opt_bool "interrupt" interrupt))))

  unfoldable pub upsert_issue_document : Json → String → String → String → Work Json
  upsert_issue_document issue_id key title body =
      send "PUT" ("/api/issues/" <> text_for d.platform issue_id <> "/documents/" <> key) (
        some (
          dict (
            ("title", str title)
            ∷ ("format", str "markdown")
            ∷ ("body", str body)
            ∷ ("baseRevisionId", null)
            ∷ [])))

  unfoldable pub wake_agent : PaperclipExecutionTrigger → Work Json
  wake_agent trigger = send "POST" ("/api/agents/" <> trigger.agent_id <> "/wakeup") (
      some (
        dict (
          ("source", str trigger.source)
          ∷ ("triggerDetail", str trigger.trigger_detail)
          ∷ ("payload", obj trigger.payload)
          ∷ [])))
