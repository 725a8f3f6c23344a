-- ===== src/Hermes/Http/Answers.antt =====
-- hermes/app.py: requests, answers and what is read of a path and a header.
use agentopia.Prelude.{
  ℕ, String, Option, none, some, Bool, false, not, ◌&&◌, List, [], ◌∷◌, ◌==◌, ◌<>◌, if◌then◌else◌,
}
use agentopia.Prelude.Json.{Json, str, dict}
use agentopia.Python.{Except, ℤ}
use agentopia.Adapter.HttpClient.{PaperclipClientConfig}

-- A request as the handler reads it; the body is what `json.loads` makes of what `read` of the length
-- gives, which reads to the end where the length is negative, or its ValueError.
pub record Request : Type 0 where
  pub path : String
  pub authorization : String
  pub client_ip : String
  pub content_length : Except ℤ
  pub body : Except Json

pub data Answer : Type 0 where
  page : Answer
  health : Bool → Answer
  reply : ℕ → Json → Answer

-- The constants of the module.
pub record Config : Type 0 where
  pub internal_auth_token : String
  pub result_url : String
  pub max_request_bytes : ℕ
  pub rate_limit_count : ℕ
  pub rate_limit_window : ℕ
  pub paperclip : PaperclipClientConfig
  pub show_number : ℕ → String

abbrev pub plain_error : ℕ → String → Answer
plain_error code message = reply code (dict (("error", str message) ∷ []))

-- `expected and provided == f"Bearer {expected}"`
unfoldable pub require_internal_auth : Config → Request → Bool
require_internal_auth cfg req =
    not (cfg.internal_auth_token == "")
    && req.authorization == ("Bearer " <> cfg.internal_auth_token)

abbrev ends_in_result : List String → Bool
ends_in_result [] = false
ends_in_result (p ∷ []) = false
ends_in_result (p ∷ q ∷ []) = q == "result"
ends_in_result (p ∷ q ∷ r ∷ ps) = ends_in_result (q ∷ r ∷ ps)

-- `path.startswith("/internal/tasks/") and path.endswith("/result")`, with `path.split("/")[3]`
abbrev pub result_task : List String → Option String
result_task (a ∷ b ∷ c ∷ id ∷ more) =
    if a == "" && (b == "internal" && (c == "tasks" && ends_in_result (c ∷ id ∷ more)))
    then some id
    else none
result_task _ = none
