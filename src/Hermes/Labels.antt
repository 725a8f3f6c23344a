-- ===== src/Hermes/Labels.antt =====
-- hermes/action_labels.py: how an action is shown to an operator.
use agentopia.Prelude.{[], String, Bool, true, false, ◌||◌, ◌==◌, ◌<>◌, if◌then◌else◌}
use agentopia.Prelude.Json.{Json, bool, dict, or_else}
use agentopia.Python.{Except, ok, ◌>>=◌, get}

pub record ActionLabels : Type 0 where
  pub action_label : String
  pub action_category : String
  pub action_reason : String
  pub operator_summary : String
  pub issue_origin : String

abbrev labels : String → String → String → String → String → ActionLabels
labels label category reason summary origin = record {
  action_label = label;
  action_category = category;
  action_reason = reason;
  operator_summary = summary;
  issue_origin = origin;
}

abbrev file_write_labels : Bool → String → ActionLabels
file_write_labels true reason =
    labels "blocked_file_write" "blocked_write"
      ("file write was blocked because policy reason was " <> reason) "Blocked file write request"
      "approval_linked_write_request"
file_write_labels false reason =
    labels "approved_file_write" "approved_write"
      ("file write was produced because an approval-linked write request satisfied policy reason "
        <> reason)
      "Approved workspace-scoped file write" "approval_linked_write_request"

abbrev repo_write_labels : Bool → Bool → String → ActionLabels
repo_write_labels true deny reason =
    labels "preview_repo_write" "preview_write"
      "repo write was produced in preview mode because apply=false requested a non-applied change preview"
      "Preview constrained repository changes without applying them"
      "approval_linked_repo_write_request"
repo_write_labels false true reason =
    labels "blocked_repo_write" "blocked_write"
      ("repo write was blocked because policy reason was " <> reason)
      "Blocked constrained repository write" "approval_linked_repo_write_request"
repo_write_labels false false reason =
    labels "approved_repo_write" "approved_write"
      ("repo write was produced because an approval-linked repository change request satisfied policy reason "
        <> reason)
      "Apply constrained repository changes" "approval_linked_repo_write_request"

abbrev file_revert_labels : Bool → String → ActionLabels
file_revert_labels true reason =
    labels "blocked_file_revert" "blocked_revert"
      ("file revert was blocked because policy reason was " <> reason)
      "Blocked workspace-scoped file revert" "rollback_request"
file_revert_labels false reason =
    labels "approved_file_revert" "approved_revert"
      ("file revert was performed because an approval-linked rollback request satisfied policy reason "
        <> reason)
      "Restore a workspace-scoped file to prior content" "rollback_request"

-- `v is False`
abbrev is_false : Json → Bool
is_false (bool false) = true
is_false _ = false

abbrev labels_for : String → String → String → Bool → ActionLabels
labels_for task_type mode reason preview_only =
    if task_type == "file_analysis"
    then labels "file_analysis" "analysis"
        "issue requested file-focused analysis based on the mapped Paperclip prompt"
        "Analyze a referenced file and return findings" "mapped_from_issue_prompt"
    else if task_type == "repo_change_plan"
    then labels "repo_change_plan" "planning"
        "issue was interpreted as a repository planning request" "Produce a repository change plan"
        "mapped_from_issue_prompt"
    else if task_type == "implementation_draft"
    then labels "implementation_draft" "drafting"
        "issue was interpreted as an implementation drafting request"
        "Draft implementation details without applying changes" "mapped_from_issue_prompt"
    else if task_type == "file_write"
    then file_write_labels (mode == "deny") reason
    else if task_type == "repo_write"
    then repo_write_labels (preview_only || mode == "preview") (mode == "deny") reason
    else if task_type == "file_revert"
    then file_revert_labels (mode == "deny") reason
    else labels task_type "general"
        "action was produced from the mapped Paperclip issue and task type" task_type
        "mapped_from_issue_prompt"

unfoldable pub derive_action_labels : String → String → String → Json → Except ActionLabels
derive_action_labels task_type policy_mode policy_reason context = do
  apply ← get (or_else context (dict [])) "apply"
  ok (labels_for task_type policy_mode policy_reason (is_false apply))
