-- ===== src/Adapter/Service.antt =====
-- paperclip_adapter/service.py: a task is submitted as an issue, with an approval where one is
-- required, and the agent is woken.
pub mod Laws
use agentopia.Prelude.{String, Option, none, some, List, [], ◌∷◌}
use agentopia.Prelude.Json.{Json, null, str, Fields, of_pairs, dict, set_field}
use agentopia.Hermes.Station.{Deployment, Work, pure, lift, ◌>>=◌}
use agentopia.Adapter.Comments.{build_execution_summary_comment}
use agentopia.Adapter.Mapping.{Plan, build_plan}
use agentopia.Adapter.Issues.{PaperclipIssueRecord, normalize_issue}
use agentopia.Adapter.HttpClient.{
  PaperclipClientConfig, PaperclipApprovalCreate, create_issue, create_approval,
  create_issue_comment, wake_agent,
}

module _ (d : Deployment) (config : PaperclipClientConfig) where
  unfoldable pub post_execution_summary_comment : Json → Json → Work Json
  post_execution_summary_comment issue_id result = do
    body ← lift (build_execution_summary_comment d.platform result)
    create_issue_comment d config issue_id body none none

  -- `if plan["approval_create"]`
  unfoldable pub request_approval : Option PaperclipApprovalCreate → Json → Work Json
  request_approval none issue_id = pure null
  request_approval (some approval) issue_id =
      create_approval d config (record approval { linked_issue_ids = issue_id ∷ [] })

  -- `payload | {"issueId": …, "issueIdentifier": …}`
  abbrev pub for_issue : Json → Json → Fields → Fields
  for_issue id identifier payload =
      set_field "issueIdentifier" identifier (set_field "issueId" id payload)

  unfoldable pub wake : Plan → PaperclipIssueRecord → Work Json
  wake plan issue = wake_agent d config (record plan.execution_trigger {
    payload = for_issue issue.id issue.identifier plan.execution_trigger.payload;
  })

  abbrev submitted : Json → PaperclipIssueRecord → Json → Json → Json
  submitted raw_issue issue approval wake = dict (
      (
        "issue",
        dict (
            ("id", issue.id)
            ∷ ("identifier", issue.identifier)
            ∷ ("issue_number", issue.issue_number)
            ∷ ("company_id", issue.company_id)
            ∷ ("project_id", issue.project_id)
            ∷ ("goal_id", issue.goal_id)
            ∷ ("status", issue.status)
            ∷ ("priority", issue.priority)
            ∷ ("created_by_user_id", issue.created_by_user_id)
            ∷ ("created_at", issue.created_at)
            ∷ ("updated_at", issue.updated_at)
            ∷ ("raw", raw_issue)
            ∷ []),
      )
      ∷ ("approval", approval)
      ∷ ("wake", wake)
      ∷ [])

  -- What is sent once the plan is made.
  unfoldable pub carry_out : Plan → Work Json
  carry_out plan = do
    raw_issue ← create_issue d config plan.issue_create
    issue ← lift (normalize_issue raw_issue)
    approval ← request_approval plan.approval_create issue.id
    woken ← wake plan issue
    pure (submitted raw_issue issue approval woken)

  unfoldable pub submit_task : Json → String → Option String → Option String → String → Work Json
  submit_task payload company_id project_id goal_id agent_id =
      lift (build_plan d payload company_id project_id goal_id agent_id) >>= carry_out
