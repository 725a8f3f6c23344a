-- ===== src/Hermes/Redaction.antt =====
-- hermes/redaction.py: values under sensitive keys are not written out.
pub mod Laws
use agentopia.Prelude.{String, Bool, [], ◌∷◌, List, if◌then◌else◌}
use agentopia.Prelude.Json.{
  Json, null, bool, num, str, arr, obj, Items, nil, cons, Fields, end, field,
}
use agentopia.Prelude.Texts.{lower, any_occurs}

abbrev pub sensitive_key_parts : List String
sensitive_key_parts = "api_key" ∷ "token" ∷ "secret" ∷ "password" ∷ "authorization" ∷ []

abbrev pub redacted : String
redacted = "[REDACTED]"

unfoldable pub is_sensitive_key : String → Bool
is_sensitive_key key = any_occurs sensitive_key_parts (lower key)

unfoldable mutual
  pub redact_value : Json → Json
  redact_value null = null
  redact_value (bool b) = bool b
  redact_value (num n) = num n
  redact_value (str s) = str s
  redact_value (arr js) = arr (redact_items js)
  redact_value (obj fs) = obj (redact_fields fs)

  pub redact_items : Items → Items
  redact_items nil = nil
  redact_items (cons j js) = cons (redact_value j) (redact_items js)

  pub redact_fields : Fields → Fields
  redact_fields end = end
  redact_fields (field k v fs) =
      field k (if is_sensitive_key k then str redacted else redact_value v) (redact_fields fs)
