-- ===== src/Hermes/Executor.antt =====
-- hermes/executor.py: a task request is checked, run by the handler of its type, and answered with a
-- result.
pub mod Memory
pub mod Handlers
pub mod Envelope
pub mod Confinement
pub mod Laws
pub mod Results
pub mod Answers
pub mod Shell
use agentopia.Prelude.{
  ℕ, ◌-◌, not, String, Option, none, some, Bool, true, false, List, [], ◌∷◌, ◌++◌, ◌==◌, ◌<>◌,
  contains, ltb, map, if◌then◌else◌,
}
use agentopia.Prelude.Json.{Json, null, bool, num, str, arr, obj, dict, of_list, or_else, truthy}
use agentopia.Python.{Except, ok, raise, exception, Exception, Kind, join}
use agentopia.Python
use agentopia.Hermes.Platform.{
  FilePath, Platform, Host, Job, MemoryScope, Wakeup, pure, lift, ◌>>=◌, ◌>>◌, read_clock, rescue,
  wake_memory,
}
use agentopia.Hermes.Guards.{
  policy_value, task_value, enforce_tool_permission, max_runtime_seconds_for, max_output_bytes_for,
}
use agentopia.Hermes.Executor.Memory.{text_for, memory_json, memory_scope}
use agentopia.Hermes.Executor.Handlers.{Payload, handle, payload_json, check_size}
use agentopia.Hermes.Executor.Envelope.{Outcome, succeeded, failed, envelope}

abbrev pub supported_task_types : List String
supported_task_types =
    "repo_summary" ∷ "text_generation" ∷ "file_write" ∷ "repo_write" ∷ "file_revert"
    ∷ "shell_command" ∷ []

-- The `except` clauses of `execute`.
abbrev pub code_of : Kind → String
code_of Kind.tool_permission = "TOOL_PERMISSION_DENIED"
code_of Kind.network_egress = "NETWORK_EGRESS_DENIED"
code_of Kind.shell_safety = "SHELL_SAFETY_DENIED"
code_of Kind.sandbox_denied = "SANDBOX_DENIED"
code_of Kind.execution_limit = "EXECUTION_LIMIT_EXCEEDED"
code_of Kind.write_boundary = "WRITE_BOUNDARY_DENIED"
code_of _ = "EXECUTION_FAILED"

abbrev pub failure_of : Exception → Outcome
failure_of e = failed (code_of e.kind) e.message

abbrev pub within_runtime : Platform → Option ℕ → ℕ → Job (Unit {0})
within_runtime env none started = pure tt
within_runtime env (some limit) started = do
  now ← read_clock env
  lift (
      Python.guard (not (ltb limit (now - started))) (
        exception Kind.execution_limit
          ("execution exceeded runtime limit of " <> env.show (num limit) <> " seconds")))

-- The notes of a payload with the memory that it was made with.
abbrev pub noted : Platform → Option Wakeup → Payload → Payload
noted env none p = p
noted env (some w) p = record p {
  notes = p.notes ++ ("Memory source: " <> text_for env w.memory_source) ∷ [];
}

abbrev pub memory_of : Option (MemoryScope × Wakeup) → Option Json
memory_of none = none
memory_of (some (scope, w)) = some (memory_json scope w)

abbrev pub wakeup_of : Option (MemoryScope × Wakeup) → Option Wakeup
wakeup_of none = none
wakeup_of (some (scope, w)) = some w

-- The test `task_type not in SUPPORTED_TASK_TYPES`. A list or a dictionary, which the schema does not
-- allow, counts as a type that is not supported; the source raises TypeError there.
abbrev pub supported : Json → Option String
supported (str s) = if contains supported_task_types s then some s else none
supported _ = none

module _ (env : Platform) where
  abbrev pub wake : Json → Option MemoryScope → Job (Option (MemoryScope × Wakeup))
  wake request none = pure none
  wake request (some scope) = do
    title ← lift (task_value request "title" (str ""))
    description ← lift (task_value request "description" (str ""))
    w ← wake_memory env scope title description
    pure (some (scope, w))

  abbrev wake_scope : Json → Job (Option (MemoryScope × Wakeup))
  wake_scope request = do scope ← lift (memory_scope env request); wake request scope

  -- `_build_memory_context`, for a request that allows memory and names a tenant
  unfoldable pub build_memory_context : Json → Job (Option (MemoryScope × Wakeup))
  build_memory_context request = do
    allowed ← lift (policy_value request "permissions" "allow_memory" (bool false))
    if truthy allowed then wake_scope request else pure none

module _ (env : Platform) (workspace : FilePath) where
  -- The body of the `with enforce_execution_runtime(…)`.
  unfoldable pub run_handler : Json → String → Bool → Option (MemoryScope × Wakeup) → Job Outcome
  run_handler request task_type preview_only memory = do
    p ← handle env workspace request task_type preview_only
    limit ← lift (max_output_bytes_for request)
    lift (check_size env limit (payload_json (noted env (wakeup_of memory) p) (memory_of memory)))
    pure (succeeded (noted env (wakeup_of memory) p) (memory_of memory))

  -- The body of the `try`.
  unfoldable pub run_task : Json → String → Bool → Job Outcome
  run_task request task_type preview_only = do
    lift (enforce_tool_permission request task_type)
    memory ← build_memory_context env request
    limit ← lift (max_runtime_seconds_for request)
    started ← read_clock env
    outcome ← run_handler request task_type preview_only memory
    within_runtime env limit started
    pure outcome

  abbrev pub run_supported : Json → Json → Bool → Option String → Job Outcome
  run_supported request task_type preview_only none =
      pure (failed "VALIDATION_FAILED" ("unsupported task type: " <> text_for env task_type))
  run_supported request task_type preview_only (some s) =
      rescue (run_task request s preview_only) failure_of

  abbrev pub run_valid : Json → Json → Bool → List String → Job Outcome
  run_valid request task_type preview_only [] =
      run_supported request task_type preview_only (supported task_type)
  run_valid request task_type preview_only (e ∷ es) =
      pure (failed "VALIDATION_FAILED" (join "; " (e ∷ es)))

  unfoldable pub outcome_of : Json → Json → Bool → Job Outcome
  outcome_of request task_type preview_only =
      run_valid request task_type preview_only (env.validate request)

  unfoldable pub execute : Json → Bool → Job Json
  execute request preview_only = do
    task_type ← lift (task_value request "type" null)
    id ← lift (task_value request "id" null)
    trace ← lift (Python.get_or request "trace" (dict []))
    traced ← lift (Python.get trace "trace_id")
    let task_id = or_else id (str "task_invalid")
    let trace_id = or_else traced (str ("trace_" <> text_for env task_id))
    outcome ← outcome_of request task_type preview_only
    pure (envelope env task_id trace_id outcome)
