-- ===== src/Hermes/Executor/Laws.antt =====
-- hermes/executor.py: the files that `execute` changes, previewed or not.
use agentopia.Prelude.{
  ap, ◌∙◌, ◌≡◌, refl, ◌≢◌, String, Option, none, some, Bool, true, false, List, [], ◌∷◌, ◌==◌, inl,
  inr, Bool-cases, arith, eq_iff, sym, contains, ◌||◌,
}
use agentopia.Prelude.Json.{Json, null, bool, num, str, arr, obj}
use agentopia.Python.{ok}
use agentopia.Hermes.Platform.{FilePath, Platform, Host}
use agentopia.Hermes.Guards.{task_value}
use agentopia.Hermes.Files.Paths.{is_below}
use agentopia.Hermes.Confined.{
  text_at, RunsWithin, WakesWithin, Confined, Confined-pure, Confined-lift, Confined-bind,
  Confined-check, Confined-rescue,
}
use agentopia.Hermes.Executor.Confinement.{handle-Confined, handle-previewed, run_task-Confined}
use agentopia.Hermes.Executor.{
  execute, outcome_of, run_supported, run_valid, supported, run_task, failure_of,
  supported_task_types,
}

module _ {reach : FilePath → Bool} (env : Platform) (workspace : FilePath)
    (request task_type : Json) (preview : Bool)
    (ran : (s : String)
      → supported task_type ≡ some s
      → Confined reach (run_task env workspace request s preview)) where
  run_supported-Confined :
      (o : Option String)
      → supported task_type ≡ o
      → Confined reach (run_supported env workspace request task_type preview o)
  run_supported-Confined none e = Confined-pure _
  run_supported-Confined (some s) e = Confined-rescue failure_of (ran s e)

  run_valid-Confined :
      (errors : List String)
      → Confined reach (run_valid env workspace request task_type preview errors)
  run_valid-Confined [] = run_supported-Confined (supported task_type) refl
  run_valid-Confined (e ∷ es) = Confined-pure _

  outcome_of-Confined : Confined reach (outcome_of env workspace request task_type preview)
  unfolding outcome_of
  outcome_of-Confined = run_valid-Confined (env.validate request)

supported_str :
    (j : Json) (s : String)
    → supported j ≡ some s
    → (j ≡ str s) × (contains supported_task_types s ≡ true)
supported_str (str t) s e = elim (Bool-cases (contains supported_task_types t)) [
  | inl known ↦
      let same : t ≡ s = ground arith in
      (ap str same, ap (contains supported_task_types) (sym same) ∙ known)
  | inr unknown ↦ absurd (ground arith)
]
supported_str null s e = absurd (cc)
supported_str (bool b) s e = absurd (cc)
supported_str (num n) s e = absurd (cc)
supported_str (arr js) s e = absurd (cc)
supported_str (obj fs) s e = absurd (cc)

-- A task type that is not a name does not come to a handler of that name.
not_named : (j : Json) (s name : String) → j ≢ str name → supported j ≡ some s → (s == name) ≡ false
not_named j s name other e = elim (Bool-cases (s == name)) [
  | inl same ↦ absurd (other ((supported_str j s e).0 ∙ ap str ((eq_iff s name).0 same)))
  | inr ne ↦ ne
]

module _ (env : Platform) (workspace : FilePath) (request : Json) where
  module _ (writes : FilePath → Bool) (wakes : WakesWithin writes env)
      (within : task_value request "type" null ≡ ok (str "shell_command")
        → RunsWithin writes env) where
    -- Below the workspace, or where the memory service and the runner write.
    abbrev reach : FilePath → Bool
    reach q = is_below workspace q || writes q

    in_reach :
        (q : FilePath) → reach q ≡ false → (is_below workspace q ≡ false) × (writes q ≡ false)
    in_reach q out = (ground arith, ground arith)

    runs :
        (task_type : Json) (s : String)
        → task_value request "type" null ≡ ok task_type
        → supported task_type ≡ some s
        → (s == "shell_command") ≡ true
        → RunsWithin reach env
    runs task_type s typed e shell =
        let named : task_type ≡ str "shell_command" =
          (supported_str task_type s e).0 ∙ ap str ((eq_iff s "shell_command").0 shell) in
        let ran = within (typed ∙ ap ok named) in
        record { at = λ n r fs q out. ran.at n r fs q (in_reach q out).1 }

    execute-Confined : (preview : Bool) → Confined reach (execute env workspace request preview)
    unfolding execute
    execute-Confined preview = Confined-check (task_value request "type" null) λ task_type typed.
        Confined-bind (Confined-lift _) λ id. Confined-bind (Confined-lift _) λ trace.
          Confined-bind (Confined-lift _) λ traced.
            Confined-bind
              (outcome_of-Confined env workspace request task_type preview (λ s e.
                run_task-Confined env workspace request s preview
                  (handle-Confined env workspace request (λ q out. (in_reach q out).0) s preview
                    (supported_str task_type s e).1 (runs task_type s typed e))
                  (record {
                    at = λ scope t u fs q out. wakes.at scope t u fs q (in_reach q out).1;
                  })))
              λ outcome. Confined-pure _

    -- Let the memory service, and where the request is a shell command the runner too, write nothing
    -- but a set of paths. Then, whatever the request, previewed or not, and whether it succeeds or
    -- fails, the text of every file that is neither below the workspace nor in that set is as before.
    pub execute_confined :
        (preview : Bool) (h : Host) (q : FilePath)
        → is_below workspace q ≡ false
        → writes q ≡ false
        → text_at q (execute env workspace request preview h).1.files ≡ text_at q h.files
    execute_confined preview h q outside unwritten =
        (execute-Confined preview).at h q (ground arith)

  module _ (writes : FilePath → Bool) (wakes : WakesWithin writes env) where
    preview-Confined :
        (task_type : Json)
        → task_type ≢ str "file_revert"
        → task_type ≢ str "shell_command"
        → Confined writes (outcome_of env workspace request task_type true)
    preview-Confined task_type no_revert no_shell =
        outcome_of-Confined env workspace request task_type true (λ s e.
          run_task-Confined env workspace request s true
            (handle-previewed env workspace request s
              (not_named task_type s "file_revert" no_revert e)
              (not_named task_type s "shell_command" no_shell e) (supported_str task_type s e).1)
            wakes)

    execute-previewed :
        task_value request "type" null ≢ ok (str "file_revert")
        → task_value request "type" null ≢ ok (str "shell_command")
        → Confined writes (execute env workspace request true)
    unfolding execute
    execute-previewed no_revert no_shell =
        Confined-check (task_value request "type" null) λ task_type e.
          Confined-bind (Confined-lift _) λ id. Confined-bind (Confined-lift _) λ trace.
            Confined-bind (Confined-lift _) λ traced.
              Confined-bind
                (preview-Confined task_type (λ same. no_revert (e ∙ ap ok same))
                  (λ same. no_shell (e ∙ ap ok same)))
                λ outcome. Confined-pure _

    -- Let the memory service write nothing but a set of paths. Then a preview of a request whose type
    -- is neither "file_revert" nor "shell_command" leaves the text of every other file as it was.
    pub preview_changes_nothing :
        task_value request "type" null ≢ ok (str "file_revert")
        → task_value request "type" null ≢ ok (str "shell_command")
        → (h : Host) (q : FilePath) → writes q ≡ false
        → text_at q (execute env workspace request true h).1.files ≡ text_at q h.files
    preview_changes_nothing no_revert no_shell h q unwritten =
        (execute-previewed no_revert no_shell).at h q unwritten
