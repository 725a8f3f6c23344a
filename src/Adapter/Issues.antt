-- ===== src/Adapter/Issues.antt =====
-- paperclip_adapter/http_client.py: what is read of an issue.
use agentopia.Prelude.Json.{Json}
use agentopia.Python.{Except, ok, ◌>>=◌, get, index}

-- `PaperclipIssueRecord`, the fields that are read of it
pub record PaperclipIssueRecord : Type 0 where
  pub id : Json
  pub identifier : Json
  pub issue_number : Json
  pub company_id : Json
  pub project_id : Json
  pub goal_id : Json
  pub status : Json
  pub priority : Json
  pub created_by_user_id : Json
  pub created_at : Json
  pub updated_at : Json

unfoldable pub normalize_issue : Json → Except PaperclipIssueRecord
normalize_issue issue = do
  id ← index issue "id"
  identifier ← get issue "identifier"
  issue_number ← get issue "issueNumber"
  company_id ← index issue "companyId"
  project_id ← get issue "projectId"
  goal_id ← get issue "goalId"
  title ← index issue "title"
  status ← index issue "status"
  priority ← index issue "priority"
  created_by_user_id ← get issue "createdByUserId"
  created_at ← index issue "createdAt"
  updated_at ← index issue "updatedAt"
  ok (record {
    id = id;
    identifier = identifier;
    issue_number = issue_number;
    company_id = company_id;
    project_id = project_id;
    goal_id = goal_id;
    status = status;
    priority = priority;
    created_by_user_id = created_by_user_id;
    created_at = created_at;
    updated_at = updated_at;
  })
