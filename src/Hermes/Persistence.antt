-- ===== src/Hermes/Persistence.antt =====
-- hermes/persistence.py, audit.py, callback_store.py and postback_store.py: what the execution plane
-- writes below var/hermes.
use agentopia.Prelude.{ℕ, String, Option, none, some, Bool, not, List, [], ◌∷◌, ◌++◌, ◌<>◌}
use agentopia.Prelude.Table.{replace}
use agentopia.Prelude.Json.{Json, null, bool, num, str, dict, or_else, opt_str}
use agentopia.Python.{get, get_or}
use agentopia.Hermes.Redaction.{redact_value}
use agentopia.Hermes.Executor.Memory.{text_for}
use agentopia.Hermes.Station.{Deployment, Work, pure, lift, edit, utcnow, ◌>>=◌, ◌>>◌}

abbrev opt_num : Option ℕ → Json
opt_num none = null
opt_num (some n) = num n

abbrev pub run_file : String → String → String
run_file task_id run_id = task_id <> "__" <> run_id <> ".json"

module _ (d : Deployment) where
  abbrev pub absolute : String → String
  absolute path = d.root <> "/" <> path

  -- `HermesAuditLogger.record`
  unfoldable pub audit_record : String → List (String × Json) → Work (Unit {0})
  audit_record event_type payload = do
    at ← utcnow d
    edit (λ s. record s {
      audit_log =
          s.audit_log
          ++ dict (
              ("recorded_at", str at)
              ∷ ("event_type", str event_type)
              ∷ ("payload", redact_value (dict payload))
              ∷ [])
            ∷ [];
    })

  unfoldable pub write_run : String → Json → Work (Unit {0})
  write_run name payload = edit (λ s. record s { runs = replace name (some payload) s.runs })

  -- `HermesPersistence.persist_result`, from the ids of the run
  unfoldable pub persist_run : Json → Json → Json → Work String
  persist_run task_id run_id result = do
    let name = run_file (text_for d.platform task_id) (text_for d.platform run_id)
    at ← utcnow d
    write_run name (dict (("persisted_at", str at) ∷ ("result", redact_value result) ∷ []))
    audit_record "persist_result" (
        ("path", str ("var/hermes/runs/" <> name)) ∷ ("task_id", task_id) ∷ ("run_id", run_id) ∷ [])
    pure (absolute ("var/hermes/runs/" <> name))

  unfoldable pub persist_result : Json → Work String
  persist_result result = do
    task_id ← lift (get_or result "task_id" (str "unknown-task"))
    run ← lift (get result "run")
    run_id ←
        lift (get_or (or_else run (dict [])) "run_id" (str ("run_" <> text_for d.platform task_id)))
    persist_run task_id run_id result

  unfoldable pub record_callback_attempt :
      String → String → String → Bool → Option ℕ → Option String → Work String
  record_callback_attempt task_id run_id result_url success status_code error = do
    let name = run_file task_id run_id
    at ← utcnow d
    edit (λ s. record s {
      callbacks =
          replace name
            (some (
              redact_value (
                dict (
                  ("recorded_at", str at)
                  ∷ ("task_id", str task_id)
                  ∷ ("run_id", str run_id)
                  ∷ ("result_url", str result_url)
                  ∷ ("success", bool success)
                  ∷ ("status_code", opt_num status_code)
                  ∷ ("error", opt_str error)
                  ∷ ("attempt_count", num 1)
                  ∷ ("retryable", bool (not success))
                  ∷ []))))
            s.callbacks;
    })
    audit_record "record_callback_attempt" (
        ("path", str ("var/hermes/callbacks/" <> name))
        ∷ ("task_id", str task_id)
        ∷ ("run_id", str run_id)
        ∷ ("success", bool success)
        ∷ ("status_code", opt_num status_code)
        ∷ ("error", opt_str error)
        ∷ [])
    pure (absolute ("var/hermes/callbacks/" <> name))

  -- `HermesCallbackStore.store`
  unfoldable pub store_callback : String → Json → Work String
  store_callback task_id payload = do
    at ← utcnow d
    edit (λ s. record s {
      callback_results =
          replace (task_id <> ".json")
            (some (dict (("stored_at", str at) ∷ ("payload", payload) ∷ []))) s.callback_results;
    })
    pure (absolute ("var/hermes/callback-results/" <> task_id <> ".json"))

  -- `HermesPostbackStore.record`
  unfoldable pub record_postback :
      Json → Json → String → Bool → Json → List (String × Json) → Work String
  record_postback issue_id run_id postback_type success error payload = do
    let name = text_for d.platform run_id <> "__" <> postback_type <> ".json"
    at ← utcnow d
    edit (λ s. record s {
      postbacks =
          replace name
            (some (
              dict (
                ("recorded_at", str at)
                ∷ ("issue_id", issue_id)
                ∷ ("run_id", run_id)
                ∷ ("postback_type", str postback_type)
                ∷ ("success", bool success)
                ∷ ("error", error)
                ∷ ("retryable", bool (not success))
                ∷ ("payload", dict payload)
                ∷ [])))
            s.postbacks;
    })
    pure (absolute ("var/hermes/postbacks/" <> name))
