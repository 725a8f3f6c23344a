-- ===== src/Paperclip/Dispatch.antt =====
-- paperclip/dispatch.py: the HTTP client that hands a task to Hermes.
use agentopia.Prelude.{String, Option, none, some, List, [], ◌∷◌, ◌++◌, ◌==◌, ◌<>◌, if◌then◌else◌}
use agentopia.Prelude.Json.{Json}
use agentopia.Python.{Except, raise, Exception}

pub record HttpRequest : Type 0 where
  pub url : String
  pub body : Json
  pub headers : List (String × String)
  pub method : String

-- What `urlopen` and reading the answer come to: a body, an HTTP error status with a body or with
-- none (`HTTPError`), or any other exception. A body is given as the value or the exception that
-- `json.loads` makes of it.
pub data Reply : Type 0 where
  response : Except Json → Reply
  http_error : Except Json → Reply
  http_error_empty : Exception → Reply
  failure : Exception → Reply

pub record HermesDispatchClient : Type 0 where
  pub base_url : String
  pub auth_token : String

abbrev auth_headers : String → List (String × String)
auth_headers token = if token == "" then [] else ("Authorization", "Bearer " <> token) ∷ []

abbrev correlation_headers : Option String → List (String × String)
correlation_headers none = []
correlation_headers (some id) = if id == "" then [] else ("X-Correlation-ID", id) ∷ []

unfoldable pub build_request : HermesDispatchClient → Json → Option String → HttpRequest
build_request c payload correlation = record {
  url = c.base_url <> "/internal/execute";
  body = payload;
  headers =
      (("Content-Type", "application/json") ∷ [])
      ++ (auth_headers c.auth_token ++ correlation_headers correlation);
  method = "POST";
}

-- The `try` of `submit`: an error status with a body is read like a response.
unfoldable pub read_reply : Reply → Except Json
read_reply (response r) = r
read_reply (http_error r) = r
read_reply (http_error_empty e) = raise e
read_reply (failure e) = raise e
