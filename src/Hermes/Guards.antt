-- ===== src/Hermes/Guards.antt =====
-- hermes/tool_permissions.py, hermes/network_policy.py, hermes/execution_limits.py and
-- hermes/shell_safety.py: the checks that a task passes before, during and after its run.
use agentopia.Prelude.{
  ℕ, ◌*◌, String, Option, none, some, Bool, true, false, not, ◌&&◌, List, [], ◌∷◌, ◌==◌, ◌<>◌,
  contains, if◌then◌else◌,
}
use agentopia.Prelude.Json.{Json, bool, num, str, arr, nil, obj, dict, items, truthy, find_field}
use agentopia.Prelude.Texts.{strip, lower, split_at, last_part, occurs_in, any_occurs}
use agentopia.Python.{
  Except, ok, raise, ◌>>=◌, ◌>>◌, exception, Exception, Kind, get, get_or, guard, is_text,
}
use agentopia.Hermes.Platform.{Platform, CommandRequest, FilePath}

-- `task_request.get("execution_policy", {}).get(part, {}).get(key, default)`
abbrev pub policy_value : Json → String → String → Json → Except Json
policy_value request part key default = do
  policy ← get_or request "execution_policy" (dict [])
  section ← get_or policy part (dict [])
  get_or section key default

-- `task_request.get("task", {}).get(key, default)`
abbrev pub task_value : Json → String → Json → Except Json
task_value request key default = do get_or (← get_or request "task" (dict [])) key default

-- hermes/tool_permissions.py
unfoldable pub required_tool_class : String → String
required_tool_class task_type =
    if task_type == "repo_summary"
    then "repo_read"
    else if contains ("text_generation" ∷ "shell_command" ∷ []) task_type
    then "local_exec"
    else if contains ("file_write" ∷ "file_revert" ∷ []) task_type
    then "file_write"
    else if task_type == "repo_write"
    then "repo_write"
    else "unknown"

abbrev has_text : String → List Json → Bool
has_text s [] = false
has_text s (j ∷ js) = if is_text s j then true else has_text s js

-- `required in allowed`: a member of a list, a key of a dictionary, a part of a text
abbrev pub is_allowed : String → Json → Except Bool
is_allowed required (arr js) = ok (has_text required (items js))
is_allowed required (str s) = ok (occurs_in required s)
is_allowed required (obj fs) = elim (get (obj fs) required) [
  | raise e ↦ raise e
  | ok _ ↦ ok (elim (find_field required fs) [ none ↦ false | some _ ↦ true ])
]
is_allowed required _ = raise (exception Kind.type_mismatch "argument is not iterable")

unfoldable pub enforce_tool_permission : Json → String → Except (Unit {0})
enforce_tool_permission request task_type = do
  allowed ← policy_value request "permissions" "allowed_tool_classes" (arr nil)
  member ← is_allowed (required_tool_class task_type) allowed
  guard member (
      exception Kind.tool_permission (
        "tool class not allowed for task type "
        <> task_type
        <> ": "
        <> required_tool_class task_type))

-- hermes/network_policy.py
abbrev pub network_command_hints : List String
network_command_hints = "curl " ∷ "wget " ∷ "http://" ∷ "https://" ∷ "nc " ∷ "ping " ∷ []

unfoldable pub command_uses_network : String → Bool
command_uses_network command = any_occurs network_command_hints (lower command)

unfoldable pub allow_network_for : Json → Except Bool
allow_network_for request = do
  v ← policy_value request "permissions" "allow_network" (bool false)
  ok (truthy v)

unfoldable pub enforce_network_policy : Json → String → Except (Unit {0})
enforce_network_policy request command = do
  allowed ← allow_network_for request
  guard (not (not allowed && command_uses_network command))
      (exception Kind.network_egress ("network egress denied for command: " <> command))

-- hermes/execution_limits.py; a number of minutes is an integer, so that 60 of its seconds are at
-- least one.
abbrev pub seconds_of : Json → Except (Option ℕ)
seconds_of (num n) = ok (if truthy (num n) then some (n * 60) else none)
seconds_of (bool b) = ok (if b then some 60 else none)
seconds_of minutes =
    if truthy minutes
    then raise (exception Kind.type_mismatch "can't multiply to an integer")
    else ok none

unfoldable pub max_runtime_seconds_for : Json → Except (Option ℕ)
max_runtime_seconds_for request = do
  seconds_of (← policy_value request "budget" "max_runtime_minutes" (num 0))

-- `network_enabled_request`
unfoldable pub network_enabled_request : Json → String → FilePath → Except CommandRequest
network_enabled_request request command cwd = do
  allowed ← allow_network_for request
  guard allowed
      (exception Kind.network_egress ("network-enabled execution denied for command: " <> command))
  seconds ← max_runtime_seconds_for request
  ok (record { command = command; cwd = cwd; max_runtime_seconds = seconds })

-- `DenyByDefaultRunner.run` (hermes/runner.py)
unfoldable pub deny_by_default : CommandRequest → Except String
deny_by_default request =
    raise (exception Kind.sandbox_denied ("sandbox denied command execution: " <> request.command))

abbrev pub int_of : Json → Except ℕ
int_of (num n) = ok n
int_of (bool b) = ok (if b then 1 else 0)
int_of (str s) = raise (exception Kind.value "invalid literal for int() with base 10")
int_of _ = raise (exception Kind.type_mismatch "int() argument must be a string or a number")

unfoldable pub max_output_bytes_for : Json → Except ℕ
max_output_bytes_for request = do
  int_of (← policy_value request "budget" "max_output_bytes" (num 65536))

-- hermes/shell_safety.py; the set of tokens in the order in which they are written.
abbrev pub disallowed_tokens : List String
disallowed_tokens = ";" ∷ "&&" ∷ "||" ∷ "|" ∷ ">" ∷ ">>" ∷ "<" ∷ "2>" ∷ "&" ∷ "`" ∷ "$(" ∷ []

abbrev pub disallowed_commands : List String
disallowed_commands =
    "bash" ∷ "sh" ∷ "zsh" ∷ "fish" ∷ "python" ∷ "python3" ∷ "perl" ∷ "ruby" ∷ "node" ∷ "osascript"
    ∷ "sudo" ∷ "env" ∷ "xargs" ∷ "find" ∷ []

abbrev pub allowed_commands : List String
allowed_commands =
    "pwd" ∷ "ls" ∷ "cat" ∷ "echo" ∷ "git" ∷ "grep" ∷ "sed" ∷ "awk" ∷ "head" ∷ "tail" ∷ "wc" ∷ "stat"
    ∷ "curl" ∷ "wget" ∷ "ping" ∷ "nc" ∷ []

abbrev pub shell_safety_error : String → Exception
shell_safety_error m = exception Kind.shell_safety m

-- The `for` over the tokens.
unfoldable pub check_tokens : List String → String → Except (Unit {0})
check_tokens [] command = ok tt
check_tokens (token ∷ tokens) command =
    if occurs_in token command
    then raise (shell_safety_error ("shell command uses disallowed shell syntax: " <> token))
    else check_tokens tokens command

-- `try: parts = shlex.split(stripped) except ValueError`
abbrev pub parsed : Except (List String) → Except (List String)
parsed (ok parts) = ok parts
parsed (raise e) = elim e.kind [
  | Kind.value ↦
      raise (shell_safety_error ("shell command could not be parsed safely: " <> e.message))
  | _ ↦ raise e
]

-- `parts[0].split("/")[-1]`
abbrev pub executable_of : List String → Except String
executable_of [] = raise (shell_safety_error "shell command must not be empty")
executable_of (part ∷ parts) = ok (last_part (split_at 47 part))

unfoldable pub check_executable : String → Except (Unit {0})
check_executable executable =
    if contains disallowed_commands executable
    then raise (shell_safety_error ("shell command uses disallowed executable: " <> executable))
    else if contains allowed_commands executable
    then ok tt
    else raise
        (shell_safety_error ("shell command executable is not in the allowlist: " <> executable))

-- The executable that the parts of a command name.
unfoldable pub check_parts : List String → Except (Unit {0})
check_parts parts = do executable ← executable_of parts; check_executable executable

-- The checks on a command that is not blank.
unfoldable pub check_stripped : Platform → String → Except (Unit {0})
check_stripped env stripped = do
  check_tokens disallowed_tokens stripped
  parts ← parsed (env.shlex_split stripped)
  check_parts parts

unfoldable pub validate_shell_command : Platform → String → Except (Unit {0})
validate_shell_command env command = do
  guard (not (strip command == "")) (shell_safety_error "shell command must not be empty")
  check_stripped env (strip command)
