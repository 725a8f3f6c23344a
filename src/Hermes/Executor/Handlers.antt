-- ===== src/Hermes/Executor/Handlers.antt =====
-- hermes/executor.py: the handlers of the six task types.
use agentopia.Prelude.{
  ℕ, String, Option, none, some, Bool, false, not, List, [], ◌∷◌, ◌==◌, ◌<>◌, map, length, ltb,
  if◌then◌else◌,
}
use agentopia.Prelude.Json.{Json, null, bool, num, str, arr, nil, dict, of_list, or_else, truthy}
use agentopia.Python.{Except, ok, raise, exception, attribute_error, Kind, get_or, guard}
use agentopia.Hermes.Platform.{FilePath, Platform, Job, pure, lift, look, ◌>>=◌, ◌>>◌, run_command}
use agentopia.Hermes.Files.Bounds.{ensure_within_write_boundary, validate_repo_changes}
use agentopia.Hermes.Files.{write_workspace_file, revert_workspace_file, preview_change, read_node}
use agentopia.Hermes.RepoOps.{
  RepoWriteResult, RepoWriteFileResult, apply_repo_write, preview_repo_write,
}
use agentopia.Hermes.Policy.{elements}
use agentopia.Hermes.Guards.{
  task_value, max_runtime_seconds_for, validate_shell_command, enforce_network_policy,
}
use agentopia.Hermes.Labels.{derive_action_labels}

pub record Payload : Type 0 where
  pub summary : String
  pub output : String
  pub notes : List String
  pub artifacts : List Json
  pub tool_calls : ℕ

abbrev pub texts_json : List String → Json
texts_json texts = arr (of_list (map str texts))

-- `payload`, with the metadata that the memory context adds
abbrev pub payload_json : Payload → Option Json → Json
payload_json p memory = dict (
    ("summary", str p.summary)
    ∷ ("output", str p.output)
    ∷ ("notes", texts_json p.notes)
    ∷ ("artifacts", arr (of_list p.artifacts))
    ∷ ("tool_calls", num p.tool_calls)
    ∷ elim memory [ none ↦ [] | some m ↦ ("metadata", dict (("memory", m) ∷ [])) ∷ [] ])

unfoldable pub check_size : Platform → ℕ → Json → Except (Unit {0})
check_size env limit payload = guard (not (ltb limit (env.encoded_size payload))) (
    exception Kind.execution_limit
      ("execution output exceeded limit of " <> env.show (num limit) <> " bytes"))

-- `task_request.get("task", {}).get("context", {}).get(key, default)`
abbrev pub context_value : Json → String → Json → Except Json
context_value request key default = elim (task_value request "context" (dict [])) [
  | ok context ↦ get_or context key default
  | raise e ↦ raise e
]

abbrev pub path_text : Json → String
path_text (str s) = s
path_text _ = ""

abbrev pub artifact : String → Json → List (String × Json) → Json
artifact type path metadata = dict (
    ("type", str type)
    ∷ ("path", path)
    ∷ ("content_type", str "text/plain")
    ∷ ("metadata", dict metadata)
    ∷ [])

abbrev pub one_artifact : String → String → Json → Payload
one_artifact summary note a = record {
  summary = summary;
  output = summary;
  notes = note ∷ [];
  artifacts = a ∷ [];
  tool_calls = 1;
}

abbrev pub scaffold : String → String → String → Payload
scaffold summary output note = record {
  summary = summary;
  output = output;
  notes = note ∷ [];
  artifacts = [];
  tool_calls = 0;
}

-- The slice and the replacements of `preview_change` want a text.
abbrev pub preview_text : Json → Except String
preview_text (str s) = ok s
preview_text _ = raise (exception Kind.type_mismatch "object is not subscriptable")

-- `command.strip()` of what is no text
abbrev pub command_text : Json → Except String
command_text (str s) = ok s
command_text _ = raise (attribute_error "object has no attribute 'strip'")

abbrev pub change_artifact : RepoWriteFileResult → Json
change_artifact item =
    artifact "repo_write" (str item.path)
      (("bytes_written", num item.bytes_written) ∷ ("changed", bool item.changed) ∷ [])

abbrev pub repo_payload : Platform → Bool → RepoWriteResult → Payload
repo_payload env preview_only r =
    let summary =
      (if preview_only then "Previewed" else "Applied")
      <> " repo write with "
      <> env.show (num (length r.files))
      <> " file change(s)" in
    record {
      summary = summary;
      output = summary;
      notes =
          (if preview_only
            then "Preview only, no repo changes applied"
            else "Applied repo write in workspace")
          ∷ [];
      artifacts = map change_artifact r.files;
      tool_calls = 1;
    }

module _ (env : Platform) (workspace : FilePath) (request : Json) where
  unfoldable pub handle_repo_summary : Job Payload
  handle_repo_summary = do
    labels ←
        lift (
          derive_action_labels "repo_summary" "allow" "scaffold"
            (dict (("apply", bool false) ∷ [])))
    pure (
        scaffold "Repository summary scaffold result"
          "# Repository Summary\n\nScaffold response generated." labels.operator_summary)

  unfoldable pub handle_text_generation : Job Payload
  handle_text_generation = do
    labels ← lift (
        derive_action_labels "text_generation" "allow" "scaffold"
          (dict (("apply", bool false) ∷ [])))
    pure (
        scaffold "Text generation scaffold result" "Generated scaffold text output."
          labels.operator_summary)

  unfoldable pub preview_file_write : FilePath → Json → Json → Job Payload
  preview_file_write target path content = do
    node ← look (λ fs. fs target)
    previous ← lift (read_node node)
    text ← lift (preview_text content)
    pure (
        one_artifact ("Previewed file write for " <> path_text path)
          "Preview only, no files changed"
          (artifact "file_preview" path (("preview", str (preview_change previous text)) ∷ [])))

  unfoldable pub apply_file_write : Json → Json → Bool → Job Payload
  apply_file_write path content overwrite = do
    r ← write_workspace_file env workspace path content overwrite
    pure (
        one_artifact ("Wrote file " <> path_text path) "Applied file write in workspace" (
          artifact "file_write" path
            (("bytes_written", num r.bytes_written) ∷ ("changed", bool r.changed) ∷ [])))

  unfoldable pub handle_file_write : Bool → Job Payload
  handle_file_write preview_only = do
    path ← lift (context_value request "file_path" (str "output.txt"))
    target ← lift (ensure_within_write_boundary workspace path)
    description ← lift (task_value request "description" (str ""))
    content ← lift (context_value request "content" description)
    overwrite ← lift (context_value request "overwrite" (bool false))
    if preview_only
        then preview_file_write target path content
        else apply_file_write path content (truthy overwrite)

  unfoldable pub handle_repo_write : Bool → Job Payload
  handle_repo_write preview_only = do
    found ← lift (context_value request "changes" (arr nil))
    changes ← lift (elements found)
    lift (validate_repo_changes workspace changes)
    r ←
        if preview_only
        then preview_repo_write env workspace changes
        else apply_repo_write env workspace changes
    pure (repo_payload env preview_only r)

  -- `result.restored`: a `FileRevertResult` has no such attribute.
  abbrev restored : Except Json
  restored = raise (attribute_error "'FileRevertResult' object has no attribute 'restored'")

  unfoldable pub handle_file_revert : Bool → Job Payload
  handle_file_revert preview_only = do
    path ← lift (context_value request "file_path" (str "output.txt"))
    lift (ensure_within_write_boundary workspace path)
    previous_content ← lift (context_value request "previous_content" (str ""))
    revert_workspace_file env workspace path previous_content
    was_restored ← lift restored
    pure (
        one_artifact ("Reverted file " <> path_text path) "Reverted file change in workspace"
          (artifact "file_revert" path (("restored", was_restored) ∷ [])))

  unfoldable pub handle_shell_command : Bool → Job Payload
  handle_shell_command preview_only = do
    found ← lift (context_value request "command" null)
    description ← lift (task_value request "description" (str ""))
    command ← lift (command_text (or_else found description))
    lift (validate_shell_command env command)
    lift (enforce_network_policy request command)
    limit ← lift (max_runtime_seconds_for request)
    r ← run_command env (record { command = command; cwd = workspace; max_runtime_seconds = limit })
    pure (record {
      summary = "Executed shell command: " <> command;
      output = "Executed shell command: " <> command;
      notes = ("Sandbox adapter returned: " <> r) ∷ [];
      artifacts = [];
      tool_calls = 1;
    })

  -- `self._dispatch[task_type](task_request, preview_only=preview_only)`
  unfoldable pub handle : String → Bool → Job Payload
  handle task_type preview_only =
      if task_type == "repo_summary"
      then handle_repo_summary
      else if task_type == "text_generation"
      then handle_text_generation
      else if task_type == "file_write"
      then handle_file_write preview_only
      else if task_type == "repo_write"
      then handle_repo_write preview_only
      else if task_type == "file_revert"
      then handle_file_revert preview_only
      else handle_shell_command preview_only
