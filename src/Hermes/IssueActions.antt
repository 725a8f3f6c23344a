-- ===== src/Hermes/IssueActions.antt =====
-- hermes/issue_actions.py: what an operator asks for at an issue.
pub mod Laws
use agentopia.Prelude.{String, Bool, true, false, List, [], ◌∷◌, ◌<>◌, if◌then◌else◌}
use agentopia.Prelude.Json.{
  Json, bool, num, str, arr, obj, Fields, of_pairs, dict, of_list, or_else, truthy, merge,
}
use agentopia.Python.{Except, ok, raise, exception, Kind, get, get_or, is_text}
use agentopia.Hermes.Executor.Memory.{text_for}
use agentopia.Hermes.Executor.{execute}
use agentopia.Hermes.Persistence.{persist_result}
use agentopia.Hermes.Runs.{resolve_issue_apply_candidates, resolve_issue_revert_candidates}
use agentopia.Hermes.Station.{Deployment, Work, pure, lift, work, view, utcnow, ◌>>=◌}

abbrev pub build_issue_action_response : Json → Json → Bool → String → List (String × Json) → Json
build_issue_action_response action issue_id accepted reason details = dict (
    ("ok", bool accepted)
    ∷ ("issue_id", issue_id)
    ∷ ("action", action)
    ∷ ("reason", str reason)
    ∷ ("details", dict details)
    ∷ [])

abbrev execution_policy : String → Json
execution_policy submitted_at = dict (
    ("budget", dict (("max_cost_usd", num 5) ∷ ("max_runtime_minutes", num 15) ∷ []))
    ∷ (
      "approval",
      dict (
          ("required", bool true)
          ∷ ("status", str "approved")
          ∷ ("approved_by", str "paperclip-ui")
          ∷ ("approved_at", str submitted_at)
          ∷ []),
    )
    ∷ (
      "permissions",
      dict (
          ("allow_network", bool false)
          ∷ ("allow_memory", bool true)
          ∷ ("allow_tools", bool true)
          ∷ ("allowed_tool_classes", arr (of_list (str "local_exec" ∷ [])))
          ∷ ("write_scope", str "workspace_scoped")
          ∷ []),
    )
    ∷ (
      "output_requirements",
      dict (
          ("format", str "markdown")
          ∷ ("length", str "short")
          ∷ ("include_artifacts", bool true)
          ∷ []),
    )
    ∷ [])

-- The two requests differ in these texts.
pub record Wording : Type 0 where
  pub prefix : String
  pub type : String
  pub title : String
  pub description : String
  pub action : String
  pub reason : String

abbrev pub revert_wording : String → Wording
revert_wording issue = record {
  prefix = "issue-revert-";
  type = "file_revert";
  title = "Revert issue write for " <> issue;
  description = "Revert a previously applied file write for issue " <> issue;
  action = "file_revert";
  reason = "issue_revert_executed";
}

abbrev pub apply_wording : String → Wording
apply_wording issue = record {
  prefix = "issue-apply-";
  type = "repo_write";
  title = "Apply preview for issue " <> issue;
  description = "Apply a previously previewed repo write for issue " <> issue;
  action = "apply_preview";
  reason = "issue_apply_executed";
}

-- The request that is made, from the text of the run that it goes back to.
unfoldable pub issue_request : Wording → String → String → Json → Fields → Json
issue_request w source submitted_at issue_id context = dict (
    ("schema_version", str "v1")
    ∷ (
      "task",
      dict (
          ("id", str (w.prefix <> source))
          ∷ ("type", str w.type)
          ∷ ("title", str w.title)
          ∷ ("description", str w.description)
          ∷ ("priority", str "medium")
          ∷ ("risk_level", str "medium")
          ∷ (
            "requester",
            dict (("id", str "paperclip-ui") ∷ ("display_name", str "Paperclip UI") ∷ []),
          )
          ∷ ("context", obj (merge (of_pairs (("issue_id", issue_id) ∷ [])) context))
          ∷ ("created_at", str submitted_at)
          ∷ []),
    )
    ∷ ("execution_policy", execution_policy submitted_at)
    ∷ (
      "routing",
      dict (
          ("source", str "paperclip")
          ∷ ("destination", str "hermes")
          ∷ (
            "callback",
            dict (
                (
                  "result_url",
                  str ("http://127.0.0.1:3200/internal/tasks/" <> w.prefix <> source <> "/result"),
                )
                ∷ ("auth_mode", str "shared_token")
                ∷ []),
          )
          ∷ []),
    )
    ∷ (
      "trace",
      dict (
          ("trace_id", str ("trace-" <> w.prefix <> source))
          ∷ ("submitted_at", str submitted_at)
          ∷ []),
    )
    ∷ [])

-- `{"issue_id": issue_id, **context}` of what has a `get`
abbrev fields_of : Json → Except Fields
fields_of (obj fs) = ok fs
fields_of _ = raise (exception Kind.type_mismatch "object is not a mapping")

module _ (d : Deployment) where
  -- The answer, from the result that the executor gave.
  unfoldable pub report_issue : Wording → Json → Json → Work Json
  report_issue w issue_id result = do
    path ← persist_result d result
    run ← lift (get_or result "run" (dict []))
    status ← lift (get run "status")
    pure (
        build_issue_action_response (str w.action) issue_id (is_text "succeeded" status) w.reason
          (("result", result) ∷ ("persisted_path", str path) ∷ []))

  -- `execute_issue_file_revert` and `execute_issue_apply_preview`, from the request
  unfoldable pub run_issue : Wording → Json → Json → Work Json
  run_issue w issue_id request =
      work (execute d.platform d.workspace request false) >>= report_issue w issue_id

  abbrev pub source_of : Json → String
  source_of found = text_for d.platform (or_else found (str "unknown-run"))

  unfoldable pub execute_issue : Wording → Json → Json → Work Json
  execute_issue w issue_id context = do
    submitted_at ← utcnow d
    found ← lift (get context "source_run_id")
    fields ← lift (fields_of context)
    run_issue w issue_id (issue_request w (source_of found) submitted_at issue_id fields)

  abbrev pub candidates_response : Json → Json → String → List Json → Json
  candidates_response action issue_id reason candidates =
      build_issue_action_response action issue_id true reason
        (("candidates", arr (of_list candidates)) ∷ [])

  -- The tests of the action, one after the other.
  unfoldable pub dispatch_action : Json → Json → Json → Work Json
  dispatch_action action issue_id context =
      if is_text "resolve_revert_candidates" action
      then (do
        runs ← view (λ s. s.runs)
        candidates ← lift (resolve_issue_revert_candidates runs issue_id)
        pure (candidates_response action issue_id "revert_candidates_resolved" candidates))
      else if is_text "resolve_apply_candidates" action
      then (do
        runs ← view (λ s. s.runs)
        candidates ← lift (resolve_issue_apply_candidates runs issue_id)
        pure (candidates_response action issue_id "apply_candidates_resolved" candidates))
      else if is_text "apply_preview" action
      then execute_issue (apply_wording (text_for d.platform issue_id)) issue_id context
      else if is_text "file_revert" action
      then execute_issue (revert_wording (text_for d.platform issue_id)) issue_id context
      else pure (build_issue_action_response action issue_id false "unsupported_issue_action" [])

  -- `handle_issue_action`, from the three values of the payload
  unfoldable pub act : Json → Json → Json → Work Json
  act issue_id action context =
      if truthy issue_id
      then dispatch_action action issue_id context
      else pure (
          build_issue_action_response (or_else action (str "unknown")) issue_id false
            "issue_id_required" [])

  unfoldable pub handle_issue_action : Json → Work Json
  handle_issue_action payload = do
    issue_id ← lift (get payload "issue_id")
    action ← lift (get payload "action")
    context ← lift (get payload "context")
    act (or_else issue_id (str "")) (or_else action (str "")) (or_else context (dict []))
