-- ===== src/Adapter/Comments.antt =====
-- paperclip_adapter/comments.py: the comment that sums up an execution.
use agentopia.Prelude.{String, false, List, [], ◌∷◌, ◌++◌, ◌<>◌, if◌then◌else◌}
use agentopia.Prelude.Json.{Json, truthy}
use agentopia.Python.{Except, ok, ◌>>=◌, get, is_text, join}
use agentopia.Hermes.Platform.{Platform}
use agentopia.Hermes.Executor.Memory.{text_for}
use agentopia.Hermes.Runs.{part}

module _ (env : Platform) where
  -- `f"- {label}: {v.get(key)}"`
  abbrev pub bullet : String → Json → String → Except String
  bullet label v key = do found ← get v key; ok ("- " <> label <> ": " <> text_for env found)

  unfoldable pub heading_of : Json → Json → Json → Json → Except String
  heading_of metadata run policy error = do
    task_type ← get metadata "task_type"
    status ← get run "status"
    mode ← get policy "mode"
    ok (
        if (if is_text "file_revert" task_type then is_text "succeeded" status else false)
        then "## Hermes Revert Summary"
        else if (if is_text "succeeded" status then is_text "allow" mode else false)
        then "## Hermes Execution Summary"
        else if is_text "preview" mode
        then "## Hermes Preview Summary"
        else if truthy error
        then "## Hermes Blocked Action Summary"
        else "## Hermes Review Summary")

  abbrev line_if : Json → String → List String
  line_if v label = if truthy v then (label <> text_for env v) ∷ [] else []

  abbrev error_lines : Json → Except (List String)
  error_lines error =
      if truthy error
      then (do
        code ← bullet "Error code" error "code"
        message ← bullet "Error message" error "message"
        ok (code ∷ message ∷ []))
      else ok []

  -- `build_execution_summary_comment`, the text of its body
  unfoldable pub build_execution_summary_comment : Json → Except String
  build_execution_summary_comment result = do
    payload ← part result "result"
    metadata ← part payload "metadata"
    policy ← part metadata "policy"
    approval_id ← get metadata "paperclip_approval_id"
    approval_status ← get metadata "paperclip_approval_status"
    error ← part payload "error"
    run ← part result "run"
    heading ← heading_of metadata run policy error
    action ← bullet "Action" metadata "action_label"
    category ← bullet "Category" metadata "action_category"
    why ← bullet "Why" metadata "action_reason"
    summary ← bullet "Operator summary" metadata "operator_summary"
    mode ← bullet "Policy mode" policy "mode"
    reason ← bullet "Policy reason" policy "reason"
    status ← bullet "Run status" run "status"
    errors ← error_lines error
    ok (
        join "\n" (
          (heading ∷ action ∷ category ∷ why ∷ summary ∷ mode ∷ reason ∷ status ∷ [])
          ++ (line_if approval_id "- Approval id: "
              ++ (line_if approval_status "- Approval status: " ++ errors))))
