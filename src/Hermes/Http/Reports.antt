-- ===== src/Hermes/Http/Reports.antt =====
-- hermes/app.py: what follows an execution, its postbacks to Paperclip among it.
use agentopia.Prelude.{String, none, true, false, List, [], ◌∷◌, ◌++◌, if◌then◌else◌}
use agentopia.Prelude.Json.{
  Json, null, bool, str, obj, of_pairs, dict, or_else, truthy, set_field, merge,
}
use agentopia.Python.{Exception, get, index, is_text}
use agentopia.Hermes.Executor.Memory.{text_for}
use agentopia.Hermes.Executor.{execute}
use agentopia.Hermes.Persistence.{persist_result, record_postback}
use agentopia.Hermes.MemoryService.Service.{status}
use agentopia.Hermes.Postbacks.{build_issue_dashboard_document, dashboard_key, dashboard_title}
use agentopia.Hermes.Station.{Deployment, Work, pure, lift, work, edit, utcnow, rescue, ◌>>=◌, ◌>>◌}
use agentopia.Adapter.Comments.{build_execution_summary_comment}
use agentopia.Adapter.HttpClient.{create_issue_comment, upsert_issue_document}
use agentopia.Hermes.Http.Answers.{Answer, reply, Config}

module _ (d : Deployment) (cfg : Config) where
  -- `TRACE_LOGGER.record`, of an id that counts as true
  unfoldable pub trace : Json → String → List (String × Json) → Work (Unit {0})
  trace trace_id event fields =
      if truthy trace_id
      then (do
        at ← utcnow d
        edit (λ s. record s {
          traces =
              s.traces
              ++ (
                text_for d.platform trace_id,
                obj (
                    merge
                      (of_pairs (
                        ("timestamp", str at)
                        ∷ ("trace_id", trace_id)
                        ∷ ("service", str "hermes")
                        ∷ ("event", str event)
                        ∷ []))
                      (of_pairs fields)),
              )
                ∷ [];
        }))
      else pure tt

  -- What is noted of a postback, with the path of its record.
  abbrev noted : List (String × Json) → String → Json
  noted entries path = obj (set_field "postback_path" (str path) (of_pairs entries))

  abbrev run_of : Json → Work Json
  run_of result = lift (index result "run") >>= λ run. lift (index run "run_id")

  abbrev comment_success : Json → List (String × Json)
  comment_success id = ("success", bool true) ∷ ("comment_id", id) ∷ []

  abbrev dashboard_success : Json → Json → List (String × Json)
  dashboard_success id key = ("success", bool true) ∷ ("document_id", id) ∷ ("key", key) ∷ []

  abbrev failure : Json → Exception → List (String × Json)
  failure issue_id e =
      ("success", bool false) ∷ ("error", str e.message) ∷ ("issue_id", issue_id) ∷ []

  abbrev document : String → List (String × Json)
  document body =
      ("key", str dashboard_key) ∷ ("title", str dashboard_title) ∷ ("body", str body) ∷ []

  -- The first `try` of the postbacks, and its `except`.
  unfoldable pub post_comment : Json → Json → Work Json
  post_comment issue_id result =
      rescue
        (do
          body ← lift (build_execution_summary_comment d.platform result)
          sent ← create_issue_comment d cfg.paperclip issue_id body none none
          id ← lift (get sent "id")
          run_id ← run_of result
          path ←
              record_postback d issue_id run_id "comment" true null
                (comment_success id ++ ("body", str body) ∷ [])
          pure (noted (comment_success id) path))
        (λ e. do
          run_id ← run_of result
          body ← lift (build_execution_summary_comment d.platform result)
          path ←
              record_postback d issue_id run_id "comment" false (str e.message)
                (("issue_id", issue_id) ∷ ("body", str body) ∷ [])
          pure (noted (failure issue_id e) path))

  -- The second `try` of the postbacks, and its `except`.
  unfoldable pub post_dashboard : Json → Json → Work Json
  post_dashboard issue_id result =
      rescue
        (do
          body ← lift (build_issue_dashboard_document d.platform result)
          sent ← upsert_issue_document d cfg.paperclip issue_id dashboard_key dashboard_title body
          id ← lift (get sent "id")
          key ← lift (get sent "key")
          run_id ← run_of result
          path ←
              record_postback d issue_id run_id "dashboard" true null
                (("success", bool true) ∷ ("document_id", id) ∷ document body)
          pure (noted (dashboard_success id key) path))
        (λ e. do
          body ← lift (build_issue_dashboard_document d.platform result)
          run_id ← run_of result
          path ←
              record_postback d issue_id run_id "dashboard" false (str e.message)
                (("issue_id", issue_id) ∷ document body)
          pure (noted (failure issue_id e) path))

  abbrev add_persistence : Json → List (String × Json) → Json
  add_persistence (obj fs) entries = obj (set_field "persistence" (dict entries) fs)
  add_persistence result entries = result

  -- The two postbacks, where the result names an issue.
  unfoldable pub post_back : Json → String → Json → Work Json
  post_back issue_id path result =
      if truthy issue_id
      then (do
        let first = ("result_path", str path) ∷ []
        comment ← post_comment issue_id (add_persistence result first)
        let second = first ++ ("paperclip_comment", comment) ∷ []
        dashboard ← post_dashboard issue_id (add_persistence result second)
        pure (add_persistence result (second ++ ("paperclip_dashboard", dashboard) ∷ [])))
      else pure (add_persistence result (("result_path", str path) ∷ []))

  -- What follows `EXECUTOR.execute(body)`.
  unfoldable pub report : Json → Work Answer
  report result = do
    path ← persist_result d result
    traced ← lift (get result "trace")
    trace_id ← lift (get (or_else traced (dict [])) "trace_id")
    trace trace_id "result_persisted" (("path", str path) ∷ [])
    payload ← lift (get result "result")
    metadata ← lift (get (or_else payload (dict [])) "metadata")
    issue_id ← lift (get (or_else metadata (dict [])) "paperclip_issue_id")
    answered ← post_back issue_id path result
    run ← lift (index answered "run")
    status ← lift (index run "status")
    pure (reply (if is_text "succeeded" status then 200 else 400) answered)

  unfoldable pub post_execute : Json → Work Answer
  post_execute body = work (execute d.platform d.workspace body false) >>= report
