-- ===== src/Hermes/Executor/Confinement.antt =====
-- Which files the executor changes.
use agentopia.Prelude.{
  ℕ, ◌≡◌, ◌≢◌, String, Option, none, some, Bool, true, false, ◌==◌, ◌∙◌, contains, arith, eq_iff,
}
use agentopia.Prelude.Json.{Json, truthy}
use agentopia.Hermes.Executor.Memory.{memory_scope}
use agentopia.Hermes.Platform.{FilePath, Platform, MemoryScope, Wakeup}
use agentopia.Hermes.Files.Paths.{is_below}
use agentopia.Hermes.Files.Laws.{write_workspace_file-Confined, revert_workspace_file-Confined}
use agentopia.Hermes.RepoOps.Laws.{preview_repo_write-Confined, apply_repo_write-Confined}
use agentopia.Hermes.Confined.{
  RunsWithin, WakesWithin, Confined-wake_memory, Confined, Confined-pure, Confined-lift,
  Confined-look, Confined-if, Confined-unless, Confined-weaken, Confined-bind, Confined-then,
  Confined-read_clock, Confined-run_command,
}
use agentopia.Hermes.Executor.Handlers.{
  handle, handle_repo_summary, handle_text_generation, handle_file_write, handle_repo_write,
  handle_file_revert, handle_shell_command, preview_file_write, apply_file_write,
}
use agentopia.Hermes.Executor.{
  run_task, run_handler, within_runtime, supported_task_types, build_memory_context, wake,
}

eq_comm : (s t : String) → (s == t) ≡ (t == s)
eq_comm s t = ground (arith, eq_iff s t, eq_iff t s)

last_type :
    (s : String)
    → contains supported_task_types s ≡ true
    → (s == "repo_summary") ≡ false
    → (s == "text_generation") ≡ false
    → (s == "file_write") ≡ false
    → (s == "repo_write") ≡ false
    → (s == "file_revert") ≡ false
    → (s == "shell_command") ≡ true
last_type s known n1 n2 n3 n4 n5 =
    let e1 = eq_comm "repo_summary" s ∙ n1 in
    let e2 = eq_comm "text_generation" s ∙ n2 in
    let e3 = eq_comm "file_write" s ∙ n3 in
    let e4 = eq_comm "repo_write" s ∙ n4 in
    let e5 = eq_comm "file_revert" s ∙ n5 in let e6 = eq_comm "shell_command" s in ground arith

no_other_type :
    (s : String)
    → contains supported_task_types s ≡ true
    → (s == "repo_summary") ≡ false
    → (s == "text_generation") ≡ false
    → (s == "file_write") ≡ false
    → (s == "repo_write") ≡ false
    → (s == "file_revert") ≡ false
    → (s == "shell_command") ≢ false
no_other_type s known n1 n2 n3 n4 n5 n6 =
    let shell : (s == "shell_command") ≡ true = last_type s known n1 n2 n3 n4 n5 in cc

module _ {reach : FilePath → Bool} (env : Platform) (workspace : FilePath) (request : Json) where
  handle_repo_summary-Confined : Confined reach (handle_repo_summary env workspace request)
  unfolding handle_repo_summary
  handle_repo_summary-Confined = Confined-bind (Confined-lift _) λ labels. Confined-pure _

  handle_text_generation-Confined : Confined reach (handle_text_generation env workspace request)
  unfolding handle_text_generation
  handle_text_generation-Confined = Confined-bind (Confined-lift _) λ labels. Confined-pure _

  preview_file_write-Confined :
      (target : FilePath) (path content : Json)
      → Confined reach (preview_file_write env workspace request target path content)
  unfolding preview_file_write
  preview_file_write-Confined target path content = Confined-bind (Confined-look _) λ node.
      Confined-bind (Confined-lift _)
        λ previous. Confined-bind (Confined-lift _) λ text. Confined-pure _

  handle_shell_command-Confined :
      (preview : Bool)
      → RunsWithin reach env
      → Confined reach (handle_shell_command env workspace request preview)
  unfolding handle_shell_command
  handle_shell_command-Confined preview within = Confined-bind (Confined-lift _) λ found.
      Confined-bind (Confined-lift _) λ description. Confined-bind (Confined-lift _) λ command.
        Confined-then (Confined-lift _) (
          Confined-then (Confined-lift _) (
            Confined-bind (Confined-lift _)
              λ limit. Confined-bind (Confined-run_command env _ within) λ r. Confined-pure _))

  handle_file_write-previewed : Confined reach (handle_file_write env workspace request true)
  unfolding handle_file_write
  handle_file_write-previewed = Confined-bind (Confined-lift _) λ path.
      Confined-bind (Confined-lift _) λ target. Confined-bind (Confined-lift _) λ description.
        Confined-bind (Confined-lift _) λ content.
          Confined-bind (Confined-lift _)
            λ overwrite. preview_file_write-Confined target path content

  handle_repo_write-previewed : Confined reach (handle_repo_write env workspace request true)
  unfolding handle_repo_write
  handle_repo_write-previewed = Confined-bind (Confined-lift _) λ found.
      Confined-bind (Confined-lift _) λ changes.
        Confined-then (Confined-lift _)
          (Confined-bind (preview_repo_write-Confined env workspace changes) λ r. Confined-pure _)

  -- A handler that only previews reaches nothing, but for those of `file_revert` and of
  -- `shell_command`.
  pub handle-previewed :
      (task_type : String)
      → (task_type == "file_revert") ≡ false
      → (task_type == "shell_command") ≡ false
      → contains supported_task_types task_type ≡ true
      → Confined reach (handle env workspace request task_type true)
  unfolding handle
  handle-previewed task_type other no_shell known =
      Confined-unless (task_type == "repo_summary") handle_repo_summary-Confined λ n1.
        Confined-unless (task_type == "text_generation") handle_text_generation-Confined λ n2.
          Confined-unless (task_type == "file_write") handle_file_write-previewed λ n3.
            Confined-unless (task_type == "repo_write") handle_repo_write-previewed
              λ n4. absurd (no_other_type task_type known n1 n2 n3 n4 other no_shell)

module _ (env : Platform) (workspace : FilePath) (request : Json) where
  handle_file_write-Confined :
      (preview : Bool)
      → Confined (is_below workspace) (handle_file_write env workspace request preview)
  unfolding handle_file_write apply_file_write
  handle_file_write-Confined preview = Confined-bind (Confined-lift _) λ path.
      Confined-bind (Confined-lift _) λ target. Confined-bind (Confined-lift _) λ description.
        Confined-bind (Confined-lift _) λ content. Confined-bind (Confined-lift _) λ overwrite.
          Confined-if preview
            (preview_file_write-Confined env workspace request target path content)
            (Confined-bind (write_workspace_file-Confined env workspace path content _)
              λ r. Confined-pure _)

  handle_repo_write-Confined :
      (preview : Bool)
      → Confined (is_below workspace) (handle_repo_write env workspace request preview)
  unfolding handle_repo_write
  handle_repo_write-Confined preview = Confined-bind (Confined-lift _) λ found.
      Confined-bind (Confined-lift _) λ changes. Confined-then (Confined-lift _) (
        Confined-bind
          (Confined-if preview (preview_repo_write-Confined env workspace changes)
            (apply_repo_write-Confined env workspace changes))
          λ r. Confined-pure _)

  handle_file_revert-Confined :
      (preview : Bool)
      → Confined (is_below workspace) (handle_file_revert env workspace request preview)
  unfolding handle_file_revert
  handle_file_revert-Confined preview = Confined-bind (Confined-lift _) λ path.
      Confined-then (Confined-lift _) (
        Confined-bind (Confined-lift _) λ previous.
          Confined-then (revert_workspace_file-Confined env workspace path previous)
            (Confined-bind (Confined-lift _) λ restored. Confined-pure _))

  module _ {reach : FilePath → Bool}
      (wider : (q : FilePath) → reach q ≡ false → is_below workspace q ≡ false) where
    pub handle-Confined :
        (task_type : String) (preview : Bool)
        → contains supported_task_types task_type ≡ true
        → ((task_type == "shell_command") ≡ true → RunsWithin reach env)
        → Confined reach (handle env workspace request task_type preview)
    unfolding handle
    handle-Confined task_type preview known within =
        Confined-unless (task_type == "repo_summary")
          (handle_repo_summary-Confined env workspace request)
          λ n1.
            Confined-unless (task_type == "text_generation")
              (handle_text_generation-Confined env workspace request)
              λ n2.
                Confined-unless (task_type == "file_write")
                  (Confined-weaken wider (handle_file_write-Confined preview))
                  λ n3.
                    Confined-unless (task_type == "repo_write")
                      (Confined-weaken wider (handle_repo_write-Confined preview))
                      λ n4.
                        Confined-unless (task_type == "file_revert")
                          (Confined-weaken wider (handle_file_revert-Confined preview))
                          λ n5.
                            handle_shell_command-Confined env workspace request preview
                              (within (last_type task_type known n1 n2 n3 n4 n5))

module _ {reach : FilePath → Bool} (env : Platform) (workspace : FilePath) (request : Json)
    (task_type : String) (preview : Bool)
    (handled : Confined reach (handle env workspace request task_type preview))
    (wakes : WakesWithin reach env) where
  build_memory_context-Confined : Confined reach (build_memory_context env request)
  unfolding build_memory_context
  build_memory_context-Confined = Confined-bind (Confined-lift _) λ allowed.
      Confined-if (truthy allowed)
        (Confined-bind (Confined-lift (memory_scope env request)) λ scope. waken scope)
        (Confined-pure _)
    where
      waken : (scope : Option MemoryScope) → Confined reach (wake env request scope)
      waken none = Confined-pure none
      waken (some scope) = Confined-bind (Confined-lift _) λ title.
          Confined-bind (Confined-lift _) λ description.
            Confined-bind (Confined-wake_memory env scope title description wakes)
              λ w. Confined-pure _

  within_runtime-Confined :
      (limit : Option ℕ) (started : ℕ) → Confined reach (within_runtime env limit started)
  within_runtime-Confined none started = Confined-pure tt
  within_runtime-Confined (some limit) started =
      Confined-bind (Confined-read_clock env) λ now. Confined-lift _

  run_handler-Confined :
      (memory : Option (MemoryScope × Wakeup))
      → Confined reach (run_handler env workspace request task_type preview memory)
  unfolding run_handler
  run_handler-Confined memory = Confined-bind handled λ p.
      Confined-bind (Confined-lift _) λ limit. Confined-then (Confined-lift _) (Confined-pure _)

  -- `run_task` reaches what its handler and the memory service reach.
  pub run_task-Confined : Confined reach (run_task env workspace request task_type preview)
  unfolding run_task
  run_task-Confined = Confined-then (Confined-lift _) (
      Confined-bind build_memory_context-Confined λ memory. Confined-bind (Confined-lift _) λ limit.
        Confined-bind (Confined-read_clock env) λ started.
          Confined-bind (run_handler-Confined memory) λ outcome.
            Confined-then (within_runtime-Confined limit started) (Confined-pure outcome))
