-- ===== src/Paperclip/Http/ApiKeys.antt =====
-- scripts/api_keys.py: whom a key in the header stands for.
use agentopia.Prelude.{
  String, Option, none, some, Bool, false, not, ◌&&◌, List, [], ◌∷◌, ◌==◌, if◌then◌else◌, contains,
}
use agentopia.Prelude.Json.{Json, str, arr, nil, items}
use agentopia.Prelude.Texts.{strip, split_at, bytes, within}
use agentopia.Python.{Except, ok, raise, ◌>>=◌, get_or, exception, Kind}
use text.Mathlib.Text.{starts_with}
use Prim.Native.String.{slice}
use Prim.Native.Char.{Char, code}

pub record ApiKeyIdentity : Type 0 where
  pub key_id : String
  pub scope : String
  pub status : String
  pub role : Option String
  pub tenant_id : Option String
  pub org_id : Option String
  pub client_id : Option String

-- `ROLE_SCOPES.get(role, set())`, each set in sorted order
abbrev pub role_scopes : String → List String
role_scopes role = if role == "submitter" then "tasks.write" ∷ [] else []

-- `text or None`
abbrev pub or_none : String → Option String
or_none s = if s == "" then none else some s

-- `_extract_bearer_token`
unfoldable pub extract_bearer_token : String → Option String
extract_bearer_token header =
    if starts_with header "Bearer " then or_none (strip (slice header 7 (bytes header))) else none

-- `item.split(":", 1)`; `none` where there is no colon
abbrev pub prepend : Char → Option (String × String) → Option (String × String)
prepend c none = none
prepend c (some (a, b)) = some (String.◌∷◌ c a, b)

unfoldable pub split_colon : String → Option (String × String)
split_colon String.[] = none
split_colon (String.◌∷◌ c s) =
    let rest = split_colon s in if within 58 (code c) 58 then some ("", s) else prepend c rest

unfoldable pub role_allows_scope : Option String → String → Bool
role_allows_scope none required = false
role_allows_scope (some role) required =
    if role == "" then false else contains (role_scopes role) required

-- The first twelve digits of SHA-256, and `str` of a value that is no text.
module _ (fingerprint : String → String) (show : Json → String) where
  abbrev pub env_identity : String → String → ApiKeyIdentity
  env_identity scope raw_key = record {
    key_id = fingerprint raw_key;
    scope = scope;
    status = "active";
    role = none;
    tenant_id = none;
    org_id = none;
    client_id = none;
  }

  abbrev pub entry_matches : String → String → String → Bool
  entry_matches provided scope raw_key =
      not (scope == "") && (not (raw_key == "") && provided == raw_key)

  -- The `for` over the entries.
  unfoldable pub find_entry : String → List String → Option ApiKeyIdentity
  find_entry provided [] = none
  find_entry provided (entry ∷ entries) =
      let rest = find_entry provided entries in
      elim (split_colon (strip entry)) [
        | none ↦ rest
        | some (scope, raw_key) ↦
            if entry_matches provided (strip scope) (strip raw_key)
            then some (env_identity (strip scope) (strip raw_key))
            else rest
      ]

  unfoldable pub resolve_api_key_identity : String → String → Option ApiKeyIdentity
  resolve_api_key_identity header configured =
      if configured == "" then none else elim (extract_bearer_token header) [
        | none ↦ none
        | some provided ↦ find_entry provided (split_at 44 configured)
      ]

  abbrev pub shown : Json → String
  shown (str s) = s
  shown v = show v

  -- `str(item.get(key, default)).strip()`
  abbrev pub item_text : Json → String → String → Except String
  item_text item key default = do v ← get_or item key (str default); ok (strip (shown v))

  abbrev pub first_scope : List String → String
  first_scope [] = ""
  first_scope (s ∷ ss) = s

  -- A role stands for its scope where none is written.
  abbrev pub scope_or_role : String → Option String → String
  scope_or_role scope none = scope
  scope_or_role scope (some role) = if scope == "" then first_scope (role_scopes role) else scope

  abbrev pub text_or : String → String → String
  text_or s default = if s == "" then default else s

  -- An item of the registry: its key, and the identity that it gives.
  unfoldable pub read_item : Json → Except (String × ApiKeyIdentity)
  read_item item = do
    key ← item_text item "key" ""
    scope ← item_text item "scope" ""
    role ← item_text item "role" ""
    tenant_id ← item_text item "tenant_id" ""
    org_id ← item_text item "org_id" ""
    client_id ← item_text item "client_id" ""
    id ← item_text item "id" ""
    status ← item_text item "status" "active"
    ok (
      key,
      record {
        key_id = text_or id (fingerprint key);
        scope = scope_or_role scope (or_none role);
        status = text_or status "active";
        role = or_none role;
        tenant_id = or_none tenant_id;
        org_id = or_none org_id;
        client_id = or_none client_id;
      },
    )

  unfoldable pub find_item : String → List Json → Except (Option ApiKeyIdentity)
  find_item provided [] = ok none
  find_item provided (item ∷ list) = do
    found ← read_item item
    if not (found.0 == "") && provided == found.0
        then ok (some found.1)
        else find_item provided list

  -- `json.loads(registry_path.read_text())` is the registry, if the file exists.
  abbrev pub registry_items : Json → Except (List Json)
  registry_items registry = do
    keys ← get_or registry "keys" (arr nil)
    elim keys [
      | arr js ↦ ok (items js)
      | _ ↦ raise (exception Kind.type_mismatch "keys is not a list")
    ]

  abbrev pub find_in : String → Json → Except (Option ApiKeyIdentity)
  find_in provided registry = do list ← registry_items registry; find_item provided list

  unfoldable pub resolve_api_key_identity_from_file :
      String → Option Json → Except (Option ApiKeyIdentity)
  resolve_api_key_identity_from_file header registry = elim (extract_bearer_token header) [
    | none ↦ ok none
    | some provided ↦ elim registry [ none ↦ ok none | some r ↦ find_in provided r ]
  ]
