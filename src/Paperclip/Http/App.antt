-- ===== src/Paperclip/Http/App.antt =====
-- paperclip/app.py: `do_GET` and `do_POST`, from a request to an answer. Headers of the answer,
-- metrics and log lines are left out.
use agentopia.Prelude.{
  ℕ, String, Option, none, some, Bool, false, not, ◌&&◌, ◌||◌, List, [], ◌∷◌, ◌==◌, if◌then◌else◌,
}
use agentopia.Prelude.Table.{Table}
use agentopia.Prelude.Texts.{strip}
use agentopia.Prelude.Json.{Json, str, num, obj, dict, find_field, or_else}
use agentopia.Python.{Except, ok, Exception, Kind, exceeds}
use agentopia.Paperclip.StateMachine.{State}
use agentopia.Paperclip.Service.World.{
  World, Surroundings, Action, pure, throw, lift, query, catch, ◌>>=◌, ◌>>◌,
}
use agentopia.Paperclip.Service.Views.{TaskView, view_task, list_tasks_for_tenant, get_audit}
use agentopia.Paperclip.Service.Queue.{transition_task, dispatch_task}
use agentopia.Paperclip.Service.Intake.{TenantContext, submit_task}
use agentopia.Paperclip.Service.Results.{record_result, cancel_task}
use agentopia.Paperclip.Http.ApiKeys.{or_none}
use agentopia.Paperclip.Http.RateLimit.{allow}
use agentopia.Paperclip.Http.Inputs.{validate_strings}
use agentopia.Paperclip.Http.Answers.{
  Request, Answer, page, health, task, tasks, events, error, Config, ClientIdentity, Access,
  granted, denied, refusal, plain_error, reason_error, unauthorized, require_internal_auth,
  require_client_auth, tenant_can_access_task,
}

abbrev pub not_found : Answer
not_found = plain_error 404 "not_found" "Not found"

abbrev pub task_not_found : Answer
task_not_found = plain_error 404 "task_not_found" "Task not found"

-- `if not self._require_client_auth(): return`, and what is done for whom
abbrev pub admitted : Access → (ClientIdentity → Action Answer) → Action Answer
admitted (denied reason) k = pure (refusal reason)
admitted (granted who) k = k who

abbrev pub for_client : Config → Request → (ClientIdentity → Action Answer) → Action Answer
for_client cfg req k = do access ← lift (require_client_auth cfg req); admitted access k

-- The task of the path, if it exists and is the client's.
abbrev pub own_task : ClientIdentity → Option TaskView → (TaskView → Action Answer) → Action Answer
own_task who none k = pure task_not_found
own_task who (some v) k =
    if tenant_can_access_task who v
    then k v
    else pure (reason_error 403 "forbidden" "Forbidden" "tenant_mismatch")

abbrev pub for_owner : Config → Request → String → (TaskView → Action Answer) → Action Answer
for_owner cfg req id k =
    for_client cfg req λ who. query (λ t. view_task t id) >>= λ found. own_task who found k

abbrev pub tenant_tasks : Option String → Action Answer
tenant_tasks none = pure (tasks [])
tenant_tasks (some tenant) = query (λ t. tasks (list_tasks_for_tenant t tenant))

unfoldable pub get_tasks : Config → Request → Action Answer
get_tasks cfg req = for_client cfg req (λ who. tenant_tasks who.tenant_id)

unfoldable pub get_one_task : Config → Request → String → Action Answer
get_one_task cfg req id = for_owner cfg req id (λ v. pure (task 200 (some v)))

unfoldable pub get_task_audit : Config → Request → String → Action Answer
get_task_audit cfg req id = for_owner cfg req id (λ v. query (λ t. events (get_audit t id)))

abbrev is_healthy : Config → Option Json → Bool
is_healthy cfg none = false
is_healthy cfg (some registry) = cfg.db_path_exists && not (cfg.internal_auth_token == "")

abbrev get_parts : Config → Request → List String → Action Answer
get_parts cfg req (a ∷ id ∷ []) = if a == "tasks" then get_one_task cfg req id else pure not_found
get_parts cfg req (a ∷ id ∷ b ∷ []) =
    if a == "tasks" && b == "audit" then get_task_audit cfg req id else pure not_found
get_parts cfg req _ = pure not_found

unfoldable pub do_get : Config → Request → Action Answer
do_get cfg req =
    if req.path == "/" || req.path == "/metrics"
    then pure (page 200)
    else if req.path == "/health"
    then pure (health (is_healthy cfg cfg.registry))
    else if req.path == "/tasks"
    then get_tasks cfg req
    else get_parts cfg req req.parts

abbrev context_of : ClientIdentity → TenantContext
context_of who = record {
  tenant_id = who.tenant_id;
  org_id = who.org_id;
  client_id = who.client_id;
}

-- `(body.get("reason") if isinstance(body, dict) else None) or "cancelled"`
abbrev pub reason_of : Config → Json → String
reason_of cfg (obj fs) = elim (find_field "reason" fs) [
  | none ↦ "cancelled"
  | some v ↦ elim (or_else v (str "cancelled")) [ str s ↦ s | w ↦ cfg.show w ]
]
reason_of cfg _ = "cancelled"

module _ (env : Surroundings) (cfg : Config) (req : Request) where
  unfoldable pub post_tasks : Json → Action Answer
  post_tasks body = for_client cfg req λ who.
      submit_task env body (context_of who) (or_none (strip req.idempotency_key))
        (or_none (strip req.webhook_url))
      >>= λ v. pure (task 201 v)

  unfoldable pub post_result : String → Json → Action Answer
  post_result id body =
      if require_internal_auth cfg req
      then (record_result env id body >>= λ v. pure (task 200 v))
      else pure unauthorized

  unfoldable pub post_cancel : String → Json → Action Answer
  post_cancel id body =
      for_owner cfg req id
        λ v. cancel_task env id "client" (reason_of cfg body) >>= λ w. pure (task 200 w)

  unfoldable pub post_approve : String → Action Answer
  post_approve id = do
    transition_task env id State.approved "human" (dict (("action", str "approve") ∷ []))
    v ← dispatch_task env id none none
    pure (task 200 v)

  unfoldable pub post_reject : String → Action Answer
  post_reject id = do
    v ← transition_task env id State.rejected "human" (dict (("action", str "reject") ∷ []))
    pure (task 200 v)

  unfoldable pub post_action : String → String → Json → Action Answer
  post_action id action body =
      if action == "cancel"
      then post_cancel id body
      else if action == "approve"
      then post_approve id
      else if action == "reject"
      then post_reject id
      else pure not_found

  abbrev pub post_parts : Json → List String → Action Answer
  post_parts body (a ∷ id ∷ action ∷ []) =
      if a == "tasks" then post_action id action body else pure not_found
  post_parts body (a ∷ b ∷ id ∷ c ∷ []) =
      if a == "internal" && (b == "tasks" && c == "result")
      then post_result id body
      else pure not_found
  post_parts body _ = pure not_found

  -- The `try` of `do_POST` after the body is read.
  unfoldable pub post_route : Json → Action Answer
  post_route body = if req.path == "/tasks" then post_tasks body else post_parts body req.parts

  unfoldable pub post_read : Action Answer
  post_read = do
    body ← lift req.body
    lift (validate_strings cfg.show_number body "<root>")
    post_route body

  abbrev pub too_large : Answer
  too_large =
      error 413 "request_too_large" "Request body too large"
        (dict (("max_bytes", num cfg.max_request_bytes) ∷ []))

  -- `_read_json_body`, and the route
  unfoldable pub post_body : Action Answer
  post_body = do
    length ← lift req.content_length
    if exceeds cfg.max_request_bytes length then pure too_large else post_read

  -- The `except` clauses; any other exception leaves the handler.
  abbrev pub on_error : Exception → Action Answer
  on_error e = elim e.kind [
    | Kind.input_validation ↦ pure (plain_error 400 "invalid_request" e.message)
    | Kind.value ↦ pure (plain_error 400 "invalid_request" e.message)
    | Kind.key ↦ pure task_not_found
    | _ ↦ throw e
  ]

  abbrev rate_limited : Answer
  rate_limited = error 429 "rate_limit_exceeded" "Rate limit exceeded" (
      dict
        (("limit", num cfg.rate_limit_count) ∷ ("window_seconds", num cfg.rate_limit_window) ∷ []))

  -- `do_POST` at the time now in seconds, with the buckets of the rate limiter.
  unfoldable pub do_post : ℕ → Table (List ℕ) → World → Except Answer × (World × Table (List ℕ))
  do_post now buckets w =
      let (free, buckets') =
        allow cfg.rate_limit_count cfg.rate_limit_window now req.client_ip buckets in
      let (r, w') = catch post_body on_error w in
      if free then (r, (w', buckets')) else (ok rate_limited, (w, buckets'))
