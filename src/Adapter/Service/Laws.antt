-- ===== src/Adapter/Service/Laws.antt =====
-- What a submission sends.
use agentopia.Prelude.{◌≡◌, ap, ◌∙◌, String, Option, none, some, List, [], ◌∷◌, ◌++◌, ◌<>◌}
use mathlib.Core.List.{append_assoc}
use agentopia.Prelude.Json.{Json, str, arr, obj, dict, of_list, opt_str}
use agentopia.Prelude.Texts.{strip_end}
use agentopia.Python.{Except, ok, raise}
use agentopia.Hermes.Station.{Station, Deployment, HttpRequest}
use agentopia.Adapter.Issues.{PaperclipIssueRecord}
use agentopia.Adapter.HttpClient.{
  PaperclipClientConfig, PaperclipIssueCreate, PaperclipApprovalCreate, PaperclipExecutionTrigger,
  headers,
}
use agentopia.Adapter.Service.{for_issue}

abbrev id_of : Except PaperclipIssueRecord → Except Json
id_of (ok issue) = ok issue.id
id_of (raise e) = raise e

abbrev identifier_of : Except PaperclipIssueRecord → Except Json
identifier_of (ok issue) = ok issue.identifier
identifier_of (raise e) = raise e

module _ (d : Deployment) (config : PaperclipClientConfig) where
  abbrev pub request_to : String → String → Option Json → HttpRequest
  request_to method path payload = record {
    method = method;
    url = strip_end 47 config.base_url <> path;
    headers = headers d config;
    payload = payload;
  }

  abbrev pub issue_request : PaperclipIssueCreate → HttpRequest
  issue_request issue = request_to "POST" ("/api/companies/" <> issue.company_id <> "/issues") (
      some (
        dict (
          ("title", issue.title)
          ∷ ("description", issue.description)
          ∷ ("priority", str issue.priority)
          ∷ ("projectId", opt_str issue.project_id)
          ∷ ("goalId", opt_str issue.goal_id)
          ∷ ("status", str issue.status)
          ∷ [])))

  abbrev pub approval_requests : Option PaperclipApprovalCreate → Json → List HttpRequest
  approval_requests none id = []
  approval_requests (some approval) id =
      request_to "POST" ("/api/companies/" <> approval.company_id <> "/approvals") (
        some (
          dict (
            ("type", str approval.approval_type)
            ∷ ("payload", obj approval.payload)
            ∷ ("issueIds", arr (of_list (id ∷ [])))
            ∷ [])))
      ∷ []

  abbrev pub wake_request : PaperclipExecutionTrigger → Json → Json → HttpRequest
  wake_request trigger id identifier =
      request_to "POST" ("/api/agents/" <> trigger.agent_id <> "/wakeup") (
        some (
          dict (
            ("source", str trigger.source)
            ∷ ("triggerDetail", str trigger.trigger_detail)
            ∷ ("payload", obj (for_issue d config id identifier trigger.payload))
            ∷ [])))

  abbrev pub with_requests : Station → List HttpRequest → Station
  with_requests s more = record s { requests = s.requests ++ more }

  joined :
      (s s1 s2 : Station) (first : HttpRequest) (more : List HttpRequest) (last : HttpRequest)
      → s1 ≡ with_requests s (first ∷ [])
      → s2 ≡ with_requests s1 more
      → with_requests s2 (last ∷ []) ≡ with_requests s (first ∷ (more ++ last ∷ []))
  joined s s1 s2 first more last e1 e2 =
      ap (λ z. with_requests z (last ∷ [])) (e2 ∙ ap (λ z. with_requests z more) e1)
      ∙ ap (λ rs. record s { requests = rs })
          (append_assoc (s.requests ++ first ∷ []) more (last ∷ [])
            ∙ append_assoc s.requests (first ∷ []) (more ++ last ∷ []))
