-- ===== src/Hermes/Tests.antt =====
-- Runs of hermes/ at concrete requests.
pub mod Service
mod Memory
mod Runner
mod Candidates
use agentopia.Prelude.{◌≡◌, refl, ◌⊎◌, String, none, some, true, false, List, [], ◌∷◌}
use agentopia.Prelude.Json.{Json, null, bool, str, arr, dict, of_list}
use agentopia.Prelude.Texts.{lower, split_at, universal_newlines, strip}
use agentopia.Python.{ok, raise, Exception, exception, Kind}
use agentopia.Hermes.Platform.{FilePath, Files, file, directory, Host, Platform, jobs}
use agentopia.Hermes.Guards.{
  deny_by_default, validate_shell_command, check_stripped, check_parts, check_tokens,
  check_executable, enforce_network_policy, allow_network_for, command_uses_network,
  max_runtime_seconds_for,
}
use agentopia.Hermes.Policy.{PolicyDecision, evaluate_task_policy, write_policy, file_write_policy}
use agentopia.Hermes.Policy.Laws.{HasApproval, allowed_writes_are_approved}
use agentopia.Hermes.Files.Paths.{same_path, is_below, follow_all, candidate}
use agentopia.Hermes.Files.Bounds.{resolve_workspace_path, make_dirs}
use agentopia.Hermes.Files.{
  FileWriteResult, write_workspace_file, write_target, write_text, preview_change,
}
use agentopia.Hermes.Files.Writes.{write_workspace_file_lem}
use agentopia.Hermes.Confined.{text_at}
use agentopia.Hermes.Executor.Envelope.{Outcome, envelope}
use agentopia.Hermes.Executor.Handlers.{handle_shell_command}
use agentopia.Hermes.Executor.{execute, outcome_of, failure_of}
use agentopia.Hermes.Executor.Laws.{execute_confined, preview_changes_nothing}
use agentopia.Hermes.Executor.Answers.{execute_answers, revert_fails}
use agentopia.Hermes.Executor.Shell.{Ran, IsSafeCommand, shell_gate, validate-IsSafeCommand}

-- A platform without a sandbox; a command has no quotes.
abbrev pub platform : Platform
platform = record {
  validate = λ request. [];
  shlex_split = λ command. ok (split_at 32 command);
  encoded_size = λ payload. 100;
  show = λ v. "1";
  short_hash = λ text. text;
  monotonic = λ n. n;
  wakeup = λ scope title description fs. (raise (exception Kind.os "no memory"), fs);
  run = λ n request fs. (deny_by_default request, fs);
}

abbrev pub workspace : FilePath
workspace = "work" ∷ []

abbrev files : Files
files p = elim (same_path p ("work" ∷ "a" ∷ [])) [
  | true ↦ some (file "old")
  | false ↦ elim (same_path p workspace) [ true ↦ some directory | false ↦ none ]
]

abbrev pub host : Host
host = record { files = files; ticks = 0; commands = [] }

abbrev pub request : String → String → List (String × Json) → Json
request type tool context = dict (
    ("task", dict (("id", str "t1") ∷ ("type", str type) ∷ ("context", dict context) ∷ []))
    ∷ (
      "execution_policy",
      dict (
          ("approval", dict (("required", bool true) ∷ ("status", str "approved") ∷ []))
          ∷ (
            "permissions",
            dict (
                ("allowed_tool_classes", arr (of_list (str tool ∷ [])))
                ∷ ("write_scope", str "workspace_scoped")
                ∷ []),
          )
          ∷ []),
    )
    ∷ [])

abbrev write_request : Json
write_request =
    request "file_write" "file_write"
      (("file_path", str "a") ∷ ("content", str "new") ∷ ("overwrite", bool true) ∷ [])

abbrev revert_request : Json
revert_request =
    request "file_revert" "file_write"
      (("file_path", str "a") ∷ ("previous_content", str "older") ∷ [])

abbrev pub shell_request : Json
shell_request = request "shell_command" "local_exec" (("command", str "git status") ∷ [])

execute_confined_example :
    text_at ("etc" ∷ "passwd" ∷ []) (execute platform workspace write_request false host).1.files
    ≡ text_at ("etc" ∷ "passwd" ∷ []) host.files
unfolding is_below
execute_confined_example =
    execute_confined platform workspace write_request (λ q. false)
      (record { at = λ scope title description fs q out. refl })
      (λ shell. record { at = λ n r fs q out. refl }) false host ("etc" ∷ "passwd" ∷ []) refl refl

preview_changes_nothing_example :
    text_at ("work" ∷ "a" ∷ []) (execute platform workspace write_request true host).1.files
    ≡ text_at ("work" ∷ "a" ∷ []) host.files
preview_changes_nothing_example =
    preview_changes_nothing platform workspace write_request (λ q. false)
      (record { at = λ scope title description fs q out. refl }) (λ e. cc) (λ e. cc) host
      ("work" ∷ "a" ∷ []) refl

execute_answers_example :
    (o : Outcome) × ((execute platform workspace write_request false host).0
      ≡ ok (envelope platform (str "t1") (str "trace_t1") o))
execute_answers_example =
    execute_answers platform workspace write_request {trace = dict []} {traced = null} false host
      refl refl refl refl

revert_fails_example :
    (e : Exception) × ((outcome_of platform workspace revert_request
        (str "file_revert")
        false
        host).0
      ≡ ok (failure_of e))
revert_fails_example = revert_fails platform workspace revert_request false host refl

shell_gate_example :
    Ran platform workspace shell_request host
      (handle_shell_command platform workspace shell_request false host).1
shell_gate_example = shell_gate platform workspace shell_request false host

-- A preview of a shell command runs it, with what it does to the files.
previews_run :
    text_at
      ("work" ∷ "a" ∷ [])
      (handle_shell_command
        (record platform { run = λ n r fs. (ok "done", λ q. some (file "by the command")) })
        workspace
        shell_request
        true
        host).1.files
    ≡ some "by the command"
unfolding handle_shell_command jobs validate_shell_command strip check_stripped check_tokens
    check_parts split_at check_executable enforce_network_policy allow_network_for
    command_uses_network lower max_runtime_seconds_for
previews_run = refl

git_status : validate_shell_command platform "git status" ≡ ok tt
unfolding validate_shell_command check_stripped check_parts check_tokens check_executable split_at
    strip
git_status = refl

validate_shell_command_example : IsSafeCommand platform "git status"
validate_shell_command_example = validate-IsSafeCommand platform "git status" git_status

allowed_write : (d : PolicyDecision) × (evaluate_task_policy write_request ≡ ok d)
unfolding evaluate_task_policy write_policy file_write_policy
allowed_write = (_, refl)

allowed_writes_are_approved_example :
    HasApproval
      (request "file_write" "file_write" (("file_path", str "a") ∷ ("content", str "new") ∷ []))
unfolding evaluate_task_policy write_policy file_write_policy
allowed_writes_are_approved_example =
    allowed_writes_are_approved
      (request "file_write" "file_write" (("file_path", str "a") ∷ ("content", str "new") ∷ []))
      refl refl refl refl refl

written_file :
    (r : FileWriteResult) × ((write_workspace_file platform workspace
        (str "a")
        (str "new")
        true
        host).0
      ≡ ok r)
unfolding write_workspace_file write_target write_text jobs resolve_workspace_path make_dirs
    candidate follow_all split_at is_below same_path universal_newlines preview_change
written_file = (_, refl)

write_workspace_file_example :
    let r = written_file.0 in
    let fs = (write_workspace_file platform workspace (str "a") (str "new") true host).1.files in
    (t : String) × (str "new" ≡ str t)
    × (is_below workspace r.path ≡ true)
    × (text_at r.path fs ≡ some t)
    × ((q : FilePath) → same_path r.path q ≡ false → text_at q fs ≡ text_at q host.files)
    × (true ≡ false
        → (text_at r.path host.files ≡ none)
          ⊎ ((before : String) × (text_at r.path host.files ≡ some before)
              × (universal_newlines before ≡ t)))
write_workspace_file_example =
    write_workspace_file_lem platform workspace (str "a") (str "new") true host (written_file.1)
