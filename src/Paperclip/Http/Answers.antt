-- ===== src/Paperclip/Http/Answers.antt =====
-- paperclip/app.py: what a request holds, what an answer is, and whom a request comes from.
use agentopia.Prelude.{
  ℕ, String, Option, none, some, Bool, false, not, ◌&&◌, ◌||◌, List, [], ◌∷◌, ◌==◌, ◌<>◌,
  if◌then◌else◌,
}
use agentopia.Prelude.Json.{Json, dict, str}
use agentopia.Python.{Except, ok, raise, ℤ}
use agentopia.Paperclip.Db.{AuditEvent}
use agentopia.Paperclip.Service.Views.{TaskView}
use agentopia.Paperclip.Http.ApiKeys.{
  ApiKeyIdentity, resolve_api_key_identity, resolve_api_key_identity_from_file, role_allows_scope,
}

-- A request as the handler reads it: the path and its parts that are not empty, the header fields
-- (the empty text where one is missing), the length that it declares, and the body after
-- `json.loads`, or the ValueError of reading it.
pub record Request : Type 0 where
  pub path : String
  pub parts : List String
  pub authorization : String
  pub idempotency_key : String
  pub webhook_url : String
  pub client_ip : String
  pub content_length : Except ℤ
  pub body : Except Json

pub data Answer : Type 0 where
  page : ℕ → Answer
  health : Bool → Answer
  task : ℕ → Option TaskView → Answer
  tasks : List TaskView → Answer
  events : List AuditEvent → Answer
  error : ℕ → String → String → Json → Answer

-- The constants of the module, read from the environment variables, and the two third-party
-- functions that the keys are read with.
pub record Config : Type 0 where
  pub internal_auth_token : String
  pub client_api_token : String
  pub client_api_keys : String
  pub registry : Option Json
  pub max_request_bytes : ℕ
  pub rate_limit_count : ℕ
  pub rate_limit_window : ℕ
  pub db_path_exists : Bool
  pub fingerprint : String → String
  pub show : Json → String
  pub show_number : ℕ → String

-- `client_api_identity`; its tenant is the empty text where the dictionary has no such key.
pub record ClientIdentity : Type 0 where
  pub key_id : String
  pub tenant_id : Option String
  pub org_id : Option String
  pub client_id : Option String

abbrev pub plain_error : ℕ → String → String → Answer
plain_error status code message = error status code message (dict [])

abbrev pub unauthorized : Answer
unauthorized = plain_error 401 "unauthorized" "Unauthorized"

abbrev pub reason_error : ℕ → String → String → String → Answer
reason_error status code message reason =
    error status code message (dict (("reason", str reason) ∷ []))

-- Whom a request comes from, or the reason that is given for the refusal, if there is one.
pub data Access : Type 0 where
  granted : ClientIdentity → Access
  denied : Option String → Access

abbrev pub refusal : Option String → Answer
refusal none = unauthorized
refusal (some reason) = reason_error 401 "unauthorized" "Unauthorized" reason

-- `expected and provided == f"Bearer {expected}"`
abbrev pub bears : String → String → Bool
bears expected provided = not (expected == "") && provided == ("Bearer " <> expected)

unfoldable pub require_internal_auth : Config → Request → Bool
require_internal_auth cfg req = bears cfg.internal_auth_token req.authorization

abbrev from_file : ApiKeyIdentity → ClientIdentity
from_file i = record {
  key_id = i.key_id;
  tenant_id = i.tenant_id;
  org_id = i.org_id;
  client_id = i.client_id;
}

abbrev without_tenant : String → ClientIdentity
without_tenant key_id = record {
  key_id = key_id;
  tenant_id = some "";
  org_id = some "";
  client_id = some "";
}

abbrev legacy_access : Config → Request → Access
legacy_access cfg req =
    if bears cfg.client_api_token req.authorization
    then granted (without_tenant "legacy-client-key")
    else denied none

-- The keys of the environment variable, and the single key before there were several.
abbrev env_access : Config → Request → Access
env_access cfg req =
    elim (resolve_api_key_identity cfg.fingerprint cfg.show req.authorization cfg.client_api_keys) [
      | none ↦ legacy_access cfg req
      | some i ↦
          if i.scope == "tasks.write"
          then granted (without_tenant i.key_id)
          else legacy_access cfg req
    ]

abbrev file_access : Config → Request → Option ApiKeyIdentity → Access
file_access cfg req none = env_access cfg req
file_access cfg req (some i) =
    if not (i.status == "active")
    then denied (some "api_key_revoked")
    else if i.scope == "tasks.write" || role_allows_scope i.role "tasks.write"
    then granted (from_file i)
    else env_access cfg req

abbrev access_of : Config → Request → Except (Option ApiKeyIdentity) → Except Access
access_of cfg req (ok i) = ok (file_access cfg req i)
access_of cfg req (raise e) = raise e

-- `_require_client_auth`
unfoldable pub require_client_auth : Config → Request → Except Access
require_client_auth cfg req =
    access_of cfg req
      (resolve_api_key_identity_from_file cfg.fingerprint cfg.show req.authorization cfg.registry)

-- `_tenant_can_access_task`
unfoldable pub tenant_can_access_task : ClientIdentity → TaskView → Bool
tenant_can_access_task who v = elim who.tenant_id [
  | none ↦ false
  | some tenant ↦ not (tenant == "") && (not (v.tenant_id == "") && tenant == v.tenant_id)
]
