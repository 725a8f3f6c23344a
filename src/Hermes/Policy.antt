-- ===== src/Hermes/Policy.antt =====
-- hermes/policy.py: which task requests may run.
pub mod Laws
use agentopia.Prelude.{
  String, Option, none, some, Bool, true, false, not, ◌&&◌, ◌||◌, List, [], ◌∷◌, contains, ◌==◌,
  if◌then◌else◌,
}
use agentopia.Prelude.Json.{Json, null, bool, str, arr, nil, obj, dict, items, truthy, or_else}
use agentopia.Python.{
  Except, ok, raise, ◌>>=◌, exception, Kind, attribute_error, index, get, get_or, is_text,
}

pub record PolicyDecision : Type 0 where
  pub allowed : Bool
  pub reason : String
  pub mode : String

abbrev pub safe_task_types : List String
safe_task_types =
    "repo_summary" ∷ "file_analysis" ∷ "text_generation" ∷ "structured_extract" ∷ "repo_change_plan"
    ∷ "implementation_draft" ∷ []

abbrev pub write_capable_task_types : List String
write_capable_task_types = "repo_write" ∷ "file_write" ∷ "file_revert" ∷ "shell_command" ∷ []

abbrev decision : Bool → String → String → PolicyDecision
decision allowed reason mode = record { allowed = allowed; reason = reason; mode = mode }

-- `payload.get("execution_policy", {}).get(part, {})`
abbrev pub policy_part : Json → String → Except Json
policy_part payload part = do get_or (← get_or payload "execution_policy" (dict [])) part (dict [])

-- Approval is required, has been given, and writes are limited to the workspace; the tests stop at
-- the first that fails.
abbrev pub is_scoped : Json → Except Bool
is_scoped permissions = do
  scope ← get permissions "write_scope"
  ok (is_text "workspace_scoped" scope)

abbrev pub is_given : Json → Json → Except Bool
is_given approval permissions = do
  status ← get approval "status"
  if is_text "approved" status then is_scoped permissions else ok false

abbrev pub is_approved : Json → Json → Except Bool
is_approved approval permissions = do
  required ← get approval "required"
  if truthy required then is_given approval permissions else ok false

abbrev pub file_write_decision : Bool → Bool → Bool → PolicyDecision
file_write_decision true true true = decision true "explicit_file_write_overwrite_approval" "allow"
file_write_decision true true false = decision false "overwrite_requires_explicit_approval" "deny"
file_write_decision true false approved = decision true "explicit_file_write_approval" "allow"
file_write_decision false overwrite approved =
    decision false "write_capable_requires_explicit_policy" "deny"

unfoldable pub file_write_policy : Json → Json → Json → Except PolicyDecision
file_write_policy approval permissions context = do
  path ← get_or context "file_path" (str "")
  overwrite ← get_or context "overwrite" (bool false)
  overwrite_approved ← get_or context "overwrite_approved" (bool false)
  approved ← is_approved approval permissions
  ok (file_write_decision (approved && truthy path) (truthy overwrite) (truthy overwrite_approved))

-- `bool(change.get(key, False))`
abbrev pub flag : String → Json → Except Bool
flag key change = do v ← get_or change key (bool false); ok (truthy v)

-- `any(bool(change.get("overwrite", False)) for change in changes)`
unfoldable pub any_overwrite : List Json → Except Bool
any_overwrite [] = ok false
any_overwrite (change ∷ changes) = do
  overwrite ← flag "overwrite" change
  if overwrite then ok true else any_overwrite changes

-- `all(bool(change.get("overwrite_approved", False)) for … if bool(change.get("overwrite", False)))`
unfoldable pub all_approved : List Json → Except Bool
all_approved [] = ok true
all_approved (change ∷ changes) = do
  overwrite ← flag "overwrite" change
  approved ← if overwrite then flag "overwrite_approved" change else ok true
  if approved then all_approved changes else ok false

-- What a `for` loop over dictionaries goes through: the elements of a text and the keys of a
-- dictionary are texts, which have no `get`.
abbrev pub elements : Json → Except (List Json)
elements (arr js) = ok (items js)
elements (str s) =
    if s == "" then ok [] else raise (attribute_error "'str' object has no attribute 'get'")
elements (obj fs) =
    if truthy (obj fs) then raise (attribute_error "'str' object has no attribute 'get'") else ok []
elements _ = raise (exception Kind.type_mismatch "object is not iterable")

unfoldable pub repo_apply_policy : Json → Except PolicyDecision
repo_apply_policy changes = do
  list ← elements changes
  needed ← any_overwrite list
  approved ← all_approved list
  ok (
      if needed && not approved
      then decision false "repo_write_overwrite_requires_explicit_approval" "deny"
      else decision true "explicit_repo_write_approval" "allow")

abbrev pub repo_decision : Bool → Bool → Json → Except PolicyDecision
repo_decision true true changes = repo_apply_policy changes
repo_decision true false changes = ok (decision true "repo_write_preview" "preview")
repo_decision false apply changes =
    ok (decision false "repo_write_requires_explicit_approval" "deny")

unfoldable pub repo_write_policy : Json → Json → Json → Except PolicyDecision
repo_write_policy approval permissions context = do
  found ← get context "changes"
  apply ← get_or context "apply" (bool false)
  approved ← is_approved approval permissions
  repo_decision (approved && truthy (or_else found (arr nil))) (truthy apply)
      (or_else found (arr nil))

abbrev is_null : Json → Bool
is_null null = true
is_null _ = false

abbrev pub revert_decision : Bool → PolicyDecision
revert_decision true = decision true "explicit_file_revert_approval" "allow"
revert_decision false = decision false "file_revert_requires_explicit_approval" "deny"

unfoldable pub file_revert_policy : Json → Json → Json → Except PolicyDecision
file_revert_policy approval permissions context = do
  path ← get_or context "file_path" (str "")
  previous ← get context "previous_content"
  approved ← is_approved approval permissions
  ok (revert_decision (approved && (truthy path && not (is_null previous))))

abbrev pub other_decision : Bool → PolicyDecision
other_decision true = decision false "write_capable_requires_explicit_policy" "deny"
other_decision false = decision false "unsupported_task_type" "deny"

unfoldable pub other_policy : String → PolicyDecision
other_policy task_type = other_decision (contains write_capable_task_types task_type)

-- The request of a task that is not in the safe types.
unfoldable pub write_policy : Json → Json → String → Except PolicyDecision
write_policy payload task task_type = do
  approval ← policy_part payload "approval"
  permissions ← policy_part payload "permissions"
  context ← get_or task "context" (dict [])
  if task_type == "file_write"
      then file_write_policy approval permissions context
      else if task_type == "repo_write"
      then repo_write_policy approval permissions context
      else if task_type == "file_revert"
      then file_revert_policy approval permissions context
      else ok (other_policy task_type)

-- The task type as a member of a set of texts: a list or a dictionary cannot be looked for.
abbrev pub type_text : Json → Except String
type_text (str s) = ok s
type_text (arr _) = raise (exception Kind.type_mismatch "unhashable type: 'list'")
type_text (obj _) = raise (exception Kind.type_mismatch "unhashable type: 'dict'")
type_text _ = ok ""

unfoldable pub evaluate_task_policy : Json → Except PolicyDecision
evaluate_task_policy payload = do
  task ← index payload "task"
  found ← index task "type"
  task_type ← type_text found
  if contains safe_task_types task_type
      then ok (decision true "allowed_read_only" "allow")
      else write_policy payload task task_type
