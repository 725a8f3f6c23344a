-- ===== src/Hermes/Http.antt =====
-- hermes/app.py: from a request to an answer. The stores are given the root as a path.
pub mod Answers
pub mod Reports
pub mod Laws
pub mod Silence
use agentopia.Prelude.{
  ℕ, String, Option, none, some, Bool, true, false, not, ◌&&◌, ◌||◌, List, [], ◌∷◌, ◌++◌, ◌==◌,
  ◌<>◌, ltb, map, if◌then◌else◌, length,
}
use agentopia.Prelude.Table.{Table}
use agentopia.Prelude.Texts.{split_at}
use agentopia.Prelude.Json.{
  Json, null, bool, num, str, obj, Fields, of_pairs, dict, or_else, truthy, set_field, merge,
}
use agentopia.Python.{
  Except, ok, raise, Exception, exception, Kind, get, get_or, index, is_text, value_error, ℤ,
  exceeds,
}
use agentopia.Paperclip.Http.RateLimit.{allow}
use agentopia.Paperclip.Http.Inputs.{validate_strings}
use text.Mathlib.Text.{starts_with}
use agentopia.Hermes.Executor.Memory.{text_for}
use agentopia.Hermes.Executor.{execute}
use agentopia.Hermes.Persistence.{persist_result, store_callback, record_postback}
use agentopia.Hermes.Dashboard.{build_operator_queue_state}
use agentopia.Hermes.IssueActions.{handle_issue_action}
use agentopia.Hermes.MemoryService.Service.{
  get_config, set_config, status, run_operation, search_memory, delete, wakeup, merged,
}
use agentopia.Hermes.Postbacks.{build_issue_dashboard_document, dashboard_key, dashboard_title}
use agentopia.Hermes.Station.{
  Store, Station, Deployment, Work, pure, lift, work, view, edit, utcnow, rescue, ◌>>=◌, ◌>>◌,
}
use agentopia.Adapter.Comments.{build_execution_summary_comment}
use agentopia.Adapter.HttpClient.{
  PaperclipClientConfig, create_issue_comment, upsert_issue_document,
}
use agentopia.Hermes.Http.Answers.{
  Request, Answer, page, health, reply, Config, plain_error, require_internal_auth, result_task,
}
use agentopia.Hermes.Http.Reports.{trace, post_execute}

module _ (d : Deployment) (cfg : Config) where
  abbrev answer_200 : Work Json → Work Answer
  answer_200 m = m >>= λ j. pure (reply 200 j)

  abbrev config_json : Json → Json
  config_json j = dict (("config", j) ∷ [])

  unfoldable pub post_issue_action : Json → Work Answer
  post_issue_action body = do
    response ← handle_issue_action d body
    accepted ← lift (get response "ok")
    pure (reply (if truthy accepted then 200 else 400) response)

  unfoldable pub post_search : Json → Work Answer
  post_search body = do
    query ← lift (get_or body "query" (str ""))
    answer_200 (search_memory d body query)

  unfoldable pub post_wakeup : Json → Work Answer
  post_wakeup body = do
    title ← lift (get_or body "issue_title" (str ""))
    description ← lift (get_or body "issue_description" (str ""))
    answer_200 (wakeup d body title description)

  unfoldable pub post_result : String → Json → Work Answer
  post_result task_id body = do
    path ← store_callback d task_id body
    pure (
        reply 200
          (dict (("ok", bool true) ∷ ("task_id", str task_id) ∷ ("stored_path", str path) ∷ [])))

  -- `do_POST` after the body is read, for a path that is no result of a task.
  unfoldable pub post_path : String → Json → Work Answer
  post_path path body =
      if path == "/internal/issue-action"
      then post_issue_action body
      else if path == "/internal/memory/search"
      then post_search body
      else if path == "/internal/memory/wakeup"
      then post_wakeup body
      else if path == "/internal/memory/config"
      then (set_config d body body >>= λ j. pure (reply 200 (config_json j)))
      else if path == "/internal/memory/status"
      then answer_200 (status d body)
      else if path == "/internal/memory/mine"
      then answer_200 (run_operation d body "mine")
      else if path == "/internal/memory/reindex"
      then answer_200 (run_operation d body "reindex")
      else if path == "/internal/memory/delete"
      then answer_200 (delete d body)
      else if path == "/internal/execute"
      then post_execute d cfg body
      else pure (plain_error 404 "not found")

  unfoldable pub post_route : String → Json → Work Answer
  post_route path body = elim (result_task (split_at 47 path)) [
    | some task_id ↦ post_result task_id body
    | none ↦ post_path path body
  ]

  -- `((body.get("trace") or {}).get("trace_id")) if isinstance(body, dict) else None`
  abbrev trace_id_of : Json → Except Json
  trace_id_of (obj fs) = elim (get (obj fs) "trace") [
    | ok traced ↦ get (or_else traced (dict [])) "trace_id"
    | raise e ↦ raise e
  ]
  trace_id_of body = ok null

  -- `_read_json_body`, for a length that is not too large
  unfoldable pub read_body : Request → Except Json
  read_body req = elim req.body [
    | raise e ↦ raise e
    | ok body ↦ elim (validate_strings cfg.show_number body "<root>") [
      | raise e ↦ raise e
      | ok _ ↦ ok body
    ]
  ]

  abbrev pub is_input_error : Kind → Bool
  is_input_error Kind.input_validation = true
  is_input_error _ = false

  -- The `try` of `do_POST`, from the body that is read: an InputValidationError is answered, any other
  -- exception is raised again.
  unfoldable pub post_parsed : Request → Except Json → Work Answer
  post_parsed req (ok body) = do
    trace_id ← lift (trace_id_of body)
    trace d cfg trace_id "execution_received" (("path", str req.path) ∷ [])
    post_route req.path body
  post_parsed req (raise e) =
      if is_input_error e.kind then pure (plain_error 400 e.message) else lift (raise e)

  unfoldable pub post_read : Request → Work Answer
  post_read req = post_parsed req (read_body req)

  abbrev too_large : Answer
  too_large = reply 413 (
      dict
        (("error", str "request body too large") ∷ ("max_bytes", num cfg.max_request_bytes) ∷ []))

  abbrev post_sized : Request → ℤ → Work Answer
  post_sized req length =
      if exceeds cfg.max_request_bytes length then pure too_large else post_read req

  unfoldable pub post_body : Request → Work Answer
  post_body req = lift req.content_length >>= post_sized req

  abbrev unauthorized : Answer
  unauthorized = plain_error 401 "unauthorized"

  -- `do_POST` of a request that the rate limiter admits
  unfoldable pub post_admitted : Request → Work Answer
  post_admitted req =
      if req.path == "/internal/execute" && not (require_internal_auth cfg req)
      then pure unauthorized
      else post_body req

  abbrev rate_limited : Answer
  rate_limited = reply 429 (
      dict (
        ("error", str "rate limit exceeded")
        ∷ ("limit", num cfg.rate_limit_count)
        ∷ ("window_seconds", num cfg.rate_limit_window)
        ∷ []))

  -- `do_POST` at the time now in seconds, with the buckets of the rate limiter.
  unfoldable pub do_post :
      Request → ℕ → Table (List ℕ) → Station → Except Answer × (Station × Table (List ℕ))
  do_post req now buckets s =
      let (free, buckets') =
        allow cfg.rate_limit_count cfg.rate_limit_window now req.client_ip buckets in
      let (r, s') = post_admitted req s in
      if free then (r, (s', buckets')) else (ok rate_limited, (s, buckets'))

  -- The body of a GET; `{}` where it cannot be read. The 413 that is sent before, where it is too
  -- large, is left out.
  abbrev get_body : Request → Json
  get_body req = elim req.content_length [
    | raise e ↦ dict []
    | ok length ↦
        if exceeds cfg.max_request_bytes length
        then dict []
        else elim (read_body req) [ ok body ↦ body | raise e ↦ dict [] ]
  ]

  abbrev is_healthy : Bool
  is_healthy = not (cfg.result_url == "") && not (cfg.internal_auth_token == "")

  -- `do_GET`
  unfoldable pub do_get : Request → Work Answer
  do_get req =
      if req.path == "/metrics"
      then pure page
      else if req.path == "/health"
      then pure (health is_healthy)
      else if req.path == "/internal/dashboard-state"
      then (do
        store ← view (λ s. s)
        state ← lift (build_operator_queue_state store.runs store.approval_status)
        pure (reply 200 state))
      else if req.path == "/internal/memory/config"
      then (get_config d (get_body req) >>= λ j. pure (reply 200 (config_json j)))
      else if req.path == "/internal/memory/status"
      then answer_200 (status d (get_body req))
      else pure (plain_error 404 "not found")
