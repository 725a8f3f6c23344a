-- ===== src/Hermes/Http/Silence/Routes.antt =====
-- hermes/app.py: the routes, after any requests to the process.
use agentopia.Prelude.{◌≡◌, refl, String, Option, none, some, List, [], not, ◌&&◌, ◌==◌}
use agentopia.Prelude.Texts.{split_at}
use agentopia.Prelude.Json.{Json, null, dict, or_else, truthy}
use agentopia.Python.{Except, ok, raise, get, exceeds}
use agentopia.Hermes.Platform.{Platform}
use agentopia.Hermes.Executor.Envelope.{Outcome, succeeded, failed, envelope}
use agentopia.Hermes.Executor.Results.{IsResult}
use agentopia.Hermes.Persistence.{store_callback}
use agentopia.Hermes.Station.{Deployment, Work, pure, ◌>>=◌}
use agentopia.Hermes.Station.Keeps.{
  Keeps, Keeps-pure, Keeps-lift, Keeps-work, Keeps-view, Keeps-edit, Keeps-if, Keeps-given,
  Keeps-bind, Keeps-known,
}
use agentopia.Hermes.Http.Silence.{
  Silent, utcnow-Keeps, execute-Gives, persist_result-Keeps, handle_issue_action-Keeps,
  get_config-Keeps, set_config-Keeps, status-Keeps, run_operation-Keeps, search_memory-Keeps,
  delete-Keeps, wakeup-Keeps,
}
use agentopia.Hermes.Http.Answers.{Request, Answer, Config, require_internal_auth, result_task}
use agentopia.Hermes.Http.Reports.{trace, post_back, report, post_execute}
use agentopia.Hermes.Http.{
  post_issue_action, post_search, post_wakeup, post_result, post_path, post_route, post_parsed,
  is_input_error, read_body, post_read, post_body, post_admitted, do_get,
}

-- The metadata of a result of the executor name no issue.
NamesNoIssue : Json → Type 0
NamesNoIssue result =
    (payload metadata : Json) × (get result "result" ≡ ok payload)
    × (get (or_else payload (dict [])) "metadata" ≡ ok metadata)
    × (get (or_else metadata (dict [])) "paperclip_issue_id" ≡ ok null)

envelope-NamesNoIssue :
    (env : Platform) (id trace : Json) (o : Outcome) → NamesNoIssue (envelope env id trace o)
unfolding envelope NamesNoIssue
envelope-NamesNoIssue env id trace (failed code message) = (_, _, refl, refl, refl)
envelope-NamesNoIssue env id trace (succeeded p none) = (_, _, refl, refl, refl)
envelope-NamesNoIssue env id trace (succeeded p (some m)) = (_, _, refl, refl, refl)

result-NamesNoIssue : (env : Platform) (j : Json) → IsResult env j → NamesNoIssue j
result-NamesNoIssue env j (id, trace, o, e) = rw e (envelope-NamesNoIssue env id trace o)

module _ (d : Deployment) (cfg : Config) where
  trace-Keeps :
      (trace_id : Json) (event : String) (fields : List (String × Json))
      → Keeps Silent (trace d cfg trace_id event fields)
  unfolding trace
  trace-Keeps trace_id event fields =
      Keeps-if (truthy trace_id) (Keeps-bind (utcnow-Keeps d) λ at. Keeps-edit _ (λ s h. h))
        (Keeps-pure _)

  report-Keeps : (j : Json) → IsResult d.platform j → Keeps Silent (report d cfg j)
  unfolding report post_back NamesNoIssue
  report-Keeps j given =
      let (payload, metadata, e1, e2, e3) = result-NamesNoIssue d.platform j given in
      Keeps-bind (persist_result-Keeps d j given) λ path. Keeps-bind (Keeps-lift _) λ traced.
        Keeps-bind (Keeps-lift _) λ trace_id. Keeps-bind (trace-Keeps _ _ _) λ _.
          Keeps-known _ _ e1 (
            Keeps-known _ _ e2 (
              Keeps-known _ _ e3 (
                Keeps-bind (Keeps-pure _) λ answered.
                  Keeps-bind (Keeps-lift _)
                    λ run. Keeps-bind (Keeps-lift _) λ status. Keeps-pure _)))

  post_execute-Keeps : (body : Json) → Keeps Silent (post_execute d cfg body)
  unfolding post_execute
  post_execute-Keeps body =
      Keeps-given _ _ (execute-Gives d body) (Keeps-work _ (λ s h. h))
        λ j given. report-Keeps j given

  post_issue_action-Keeps : (body : Json) → Keeps Silent (post_issue_action d cfg body)
  unfolding post_issue_action
  post_issue_action-Keeps body =
      Keeps-bind (handle_issue_action-Keeps d body)
        λ r. Keeps-bind (Keeps-lift _) λ accepted. Keeps-pure _

  answer-Keeps :
      {m : Work Json} (f : Json → Answer) → Keeps Silent m → Keeps Silent (m >>= λ j. pure (f j))
  answer-Keeps f k = Keeps-bind k λ j. Keeps-pure _

  store_callback-Keeps : (id : String) (body : Json) → Keeps Silent (store_callback d id body)
  unfolding store_callback
  store_callback-Keeps id body =
      Keeps-bind (utcnow-Keeps d) λ at. Keeps-bind (Keeps-edit _ (λ s h. h)) λ _. Keeps-pure _

  post_path-Keeps : (path : String) (body : Json) → Keeps Silent (post_path d cfg path body)
  unfolding post_path post_search post_wakeup
  post_path-Keeps path body =
      Keeps-if (path == "/internal/issue-action") (post_issue_action-Keeps body) (
        Keeps-if (path == "/internal/memory/search")
          (Keeps-bind (Keeps-lift _) λ query. answer-Keeps _ (search_memory-Keeps d _ _))
          (Keeps-if (path == "/internal/memory/wakeup")
            (Keeps-bind (Keeps-lift _) λ title.
              Keeps-bind (Keeps-lift _) λ description. answer-Keeps _ (wakeup-Keeps d _ _ _))
            (Keeps-if (path == "/internal/memory/config") (answer-Keeps _ (set_config-Keeps d _ _))
              (Keeps-if (path == "/internal/memory/status") (answer-Keeps _ (status-Keeps d _)) (
                Keeps-if (path == "/internal/memory/mine")
                  (answer-Keeps _ (run_operation-Keeps d _ _))
                  (Keeps-if (path == "/internal/memory/reindex")
                    (answer-Keeps _ (run_operation-Keeps d _ _))
                    (Keeps-if (path == "/internal/memory/delete")
                      (answer-Keeps _ (delete-Keeps d _))
                      (Keeps-if (path == "/internal/execute") (post_execute-Keeps body)
                        (Keeps-pure _)))))))))

  post_route-Keeps : (path : String) (body : Json) → Keeps Silent (post_route d cfg path body)
  unfolding post_route post_result
  post_route-Keeps path body = go (result_task (split_at 47 path))
    where
      go :
          (o : Option String)
          → Keeps Silent
              (elim o [ some id ↦ post_result d cfg id body | none ↦ post_path d cfg path body ])
      go (some id) = Keeps-bind (store_callback-Keeps id body) λ path. Keeps-pure _
      go none = post_path-Keeps path body

  post_parsed-Keeps : (req : Request) (r : Except Json) → Keeps Silent (post_parsed d cfg req r)
  unfolding post_parsed
  post_parsed-Keeps req (ok body) =
      Keeps-bind (Keeps-lift _)
        λ trace_id. Keeps-bind (trace-Keeps _ _ _) λ _. post_route-Keeps req.path body
  post_parsed-Keeps req (raise e) =
      Keeps-if (is_input_error d cfg e.kind) (Keeps-pure _) (Keeps-lift _)

  pub post_admitted-Keeps : (req : Request) → Keeps Silent (post_admitted d cfg req)
  unfolding post_admitted post_body post_read
  post_admitted-Keeps req =
      Keeps-if (req.path == "/internal/execute" && not (require_internal_auth cfg req))
        (Keeps-pure _)
        (Keeps-bind (Keeps-lift req.content_length) λ length.
          Keeps-if (exceeds cfg.max_request_bytes length) (Keeps-pure _)
            (post_parsed-Keeps req (read_body d cfg req)))

  pub do_get-Keeps : (req : Request) → Keeps Silent (do_get d cfg req)
  unfolding do_get
  do_get-Keeps req = Keeps-if (req.path == "/metrics") (Keeps-pure _) (
      Keeps-if (req.path == "/health") (Keeps-pure _) (
        Keeps-if (req.path == "/internal/dashboard-state")
          (Keeps-bind (Keeps-view _) λ store. Keeps-bind (Keeps-lift _) λ state. Keeps-pure _)
          (Keeps-if (req.path == "/internal/memory/config") (answer-Keeps _ (get_config-Keeps d _))
            (Keeps-if (req.path == "/internal/memory/status") (answer-Keeps _ (status-Keeps d _))
              (Keeps-pure _)))))
