-- ===== src/Hermes/Http/Silence.antt =====
-- hermes/app.py: a process whose stored runs are of the executor's making, through the operations
-- that its routes call.
pub mod Routes
pub mod Visits
use agentopia.Prelude.{
  ◌≡◌, refl, ap, ◌∙◌, String, Option, none, some, Bool, true, false, List, [], ◌∷◌, if◌then◌else◌,
  not, ◌&&◌, ◌==◌, ltb, Bool-cases, inl, inr,
}
use agentopia.Prelude.Table.{Table, Every, Every-replace}
use agentopia.Prelude.Json.{Json, null, str, bool, dict, Fields, or_else, truthy}
use agentopia.Python.{Except, ok, raise, Exception, Kind, get, get_or, is_text}
use agentopia.Hermes.Platform
use agentopia.Hermes.Platform.{Host, Job, Platform, MemoryScope}
use agentopia.Hermes.Files.Writes.{job_ok}
use agentopia.Hermes.Executor.{execute}
use agentopia.Hermes.Executor.Envelope.{Outcome, envelope}
use agentopia.Hermes.Executor.Results.{IsResult, execute-IsResult}
use agentopia.Hermes.Runs.{apply_candidate, revert_candidate}
use agentopia.Hermes.Runs.Laws.{GivesNone, stored, envelope-apply, envelope-revert, resolve_none}
use agentopia.Hermes.Dashboard.Laws.{NoEntry, envelope-entry, entries_none}
use agentopia.Hermes.Persistence.{persist_result, persist_run, write_run, audit_record}
use agentopia.Hermes.Persistence
use agentopia.Hermes.IssueActions.{
  Wording, execute_issue, run_issue, report_issue, dispatch_action, act, handle_issue_action,
}
use agentopia.Hermes.MemoryService.Config
use agentopia.Hermes.MemoryService.Service
use agentopia.Hermes.MemoryService.Client
use agentopia.Hermes.Station.{
  Store, Station, Deployment, Spawned, finished, missing, broken, Work, works, work, utcnow, edit,
  pure,
}
use agentopia.Hermes.Station.Keeps.{
  Keeps, Gives, Keeps-pure, Keeps-lift, Keeps-work, Keeps-view, Keeps-edit, Keeps-if, Keeps-given,
  Keeps-bind, Keeps-start, Keeps-utcnow,
}

-- A run file that no part of Hermes finds anything in.
abbrev pub IsMute : Option Json → Type 0
IsMute file =
    ((issue_id : Json) → GivesNone (apply_candidate issue_id) file)
    × ((issue_id : Json) → GivesNone (revert_candidate issue_id) file)
    × NoEntry file

abbrev pub Silent : Station → Type 0
Silent s = Every IsMute s.store.runs × (s.requests ≡ [])

stored-IsMute :
    (env : Platform) (at : String) (j : Json) → IsResult env j → IsMute (some (stored at j))
stored-IsMute env at j (id, trace, o, e) = rw e (
  (λ i. envelope-apply env at i id trace o),
  (λ i. envelope-revert env at i id trace o),
  λ c. envelope-entry env at c id trace o,
)

module _ (d : Deployment) where
  pub utcnow-Keeps : Keeps Silent (utcnow d)
  utcnow-Keeps = Keeps-utcnow d (λ s ticks h. h)

  pub execute-Gives :
      (request : Json)
      → Gives (IsResult d.platform) (work (execute d.platform d.workspace request false))
  unfolding work
  execute-Gives request = record {
    at = λ s j e. execute-IsResult d.platform d.workspace request false s.host j e;
  }

  audit_record-Keeps :
      (event : String) (payload : List (String × Json))
      → Keeps Silent (audit_record d event payload)
  unfolding audit_record
  audit_record-Keeps event payload = Keeps-bind utcnow-Keeps λ at. Keeps-edit _ (λ s h. h)

  pub persist_result-Keeps : (j : Json) → IsResult d.platform j → Keeps Silent (persist_result d j)
  unfolding persist_result persist_run write_run
  persist_result-Keeps j result = Keeps-bind (Keeps-lift _) λ task_id.
      Keeps-bind (Keeps-lift _) λ run. Keeps-bind (Keeps-lift _) λ run_id.
        Keeps-bind utcnow-Keeps λ at.
          Keeps-bind
            (Keeps-edit _ (λ s h. (
              Every-replace IsMute _ _ s.store.runs (stored-IsMute d.platform at j result) h.0,
              h.1,
            )))
            (λ _. Keeps-bind (audit_record-Keeps _ _) λ _. Keeps-pure _)

  execute_issue-Keeps :
      (w : Wording) (issue_id context : Json) → Keeps Silent (execute_issue d w issue_id context)
  unfolding execute_issue run_issue report_issue
  execute_issue-Keeps w issue_id context = Keeps-bind utcnow-Keeps λ at.
      Keeps-bind (Keeps-lift _) λ found. Keeps-bind (Keeps-lift _) λ fields.
        Keeps-given _ _ (execute-Gives _) (Keeps-work _ (λ s h. h)) λ result given.
          Keeps-bind (persist_result-Keeps result given) λ path.
            Keeps-bind (Keeps-lift _) λ run. Keeps-bind (Keeps-lift _) λ status. Keeps-pure _

  dispatch_action-Keeps :
      (action issue_id context : Json) → Keeps Silent (dispatch_action d action issue_id context)
  unfolding dispatch_action
  dispatch_action-Keeps action issue_id context =
      Keeps-if (is_text "resolve_revert_candidates" action)
        (Keeps-bind (Keeps-view _) λ runs. Keeps-bind (Keeps-lift _) λ cs. Keeps-pure _)
        (Keeps-if (is_text "resolve_apply_candidates" action)
          (Keeps-bind (Keeps-view _) λ runs. Keeps-bind (Keeps-lift _) λ cs. Keeps-pure _)
          (Keeps-if (is_text "apply_preview" action) (execute_issue-Keeps _ _ _)
            (Keeps-if (is_text "file_revert" action) (execute_issue-Keeps _ _ _) (Keeps-pure _))))

  pub handle_issue_action-Keeps : (payload : Json) → Keeps Silent (handle_issue_action d payload)
  unfolding handle_issue_action act
  handle_issue_action-Keeps payload = Keeps-bind (Keeps-lift _) λ i. Keeps-bind (Keeps-lift _) λ a.
      Keeps-bind (Keeps-lift _)
        λ c. Keeps-if (truthy (or_else i (str ""))) (dispatch_action-Keeps _ _ _) (Keeps-pure _)

  require_memory_scope-Keeps :
      (payload : Json) → Keeps Silent (Config.require_memory_scope d payload)
  unfolding Config.require_memory_scope
  require_memory_scope-Keeps payload = Keeps-lift _

  load-Keeps : (scope : MemoryScope) → Keeps Silent (Config.load_mempalace_config d scope)
  unfolding Config.load_mempalace_config
  load-Keeps scope = Keeps-bind (Keeps-work _ (λ s h. h)) λ node. Keeps-pure _

  write_json-Keeps : (path : List String) (j : Json) → Keeps Silent (Config.write_json d path j)
  unfolding Config.write_json
  write_json-Keeps path j = Keeps-bind (Keeps-work _ (λ s h. h)) λ _. Keeps-work _ (λ s h. h)

  pub get_config-Keeps : (payload : Json) → Keeps Silent (Service.get_config d payload)
  unfolding Service.get_config
  get_config-Keeps payload =
      Keeps-bind (require_memory_scope-Keeps payload)
        λ scope. Keeps-bind (load-Keeps scope) λ config. Keeps-pure _

  pub set_config-Keeps : (scope payload : Json) → Keeps Silent (Service.set_config d scope payload)
  unfolding Service.set_config Config.save_mempalace_config
  set_config-Keeps scope payload = Keeps-bind (require_memory_scope-Keeps scope) λ scope.
      Keeps-bind
        (Keeps-bind (Keeps-lift _) λ config. Keeps-bind (write_json-Keeps _ _) λ _. Keeps-pure _)
        (λ config. Keeps-pure _)

  pub status-Keeps : (payload : Json) → Keeps Silent (Service.status d payload)
  unfolding Service.status Service.read_status_file
  status-Keeps payload = Keeps-bind (require_memory_scope-Keeps payload) λ scope.
      Keeps-bind (load-Keeps scope) λ config.
        Keeps-bind (Keeps-start d _ (λ s fs ps h. h)) λ outcome. Keeps-bind (Keeps-lift _) λ found.
          Keeps-bind (Keeps-bind (Keeps-work _ (λ s h. h)) λ node. Keeps-pure _) λ persisted.
            Keeps-bind (Keeps-lift _) λ operation.
              Keeps-bind (Keeps-lift _) λ at. Keeps-bind (Keeps-lift _) λ error. Keeps-pure _

  report_operation-Keeps :
      (scope : MemoryScope) (operation now : String) (outcome : Spawned)
      → Keeps Silent (Service.report_operation d scope operation now outcome)
  unfolding Service.report_operation Service.write_status_file
  report_operation-Keeps scope operation now (finished true stdout stderr) =
      Keeps-bind (write_json-Keeps _ _) λ _. Keeps-pure _
  report_operation-Keeps scope operation now (finished false stdout stderr) =
      Keeps-bind (write_json-Keeps _ _) λ _. Keeps-pure _
  report_operation-Keeps scope operation now missing =
      Keeps-bind (write_json-Keeps _ _) λ _. Keeps-pure _
  report_operation-Keeps scope operation now (broken e) = Keeps-lift _

  pub run_operation-Keeps :
      (payload : Json) (operation : String)
      → Keeps Silent (Service.run_operation d payload operation)
  unfolding Service.run_operation Service.operate Service.write_status_file
  run_operation-Keeps payload operation = Keeps-bind (require_memory_scope-Keeps payload) λ scope.
      Keeps-bind (load-Keeps scope) λ config. Keeps-bind utcnow-Keeps λ now.
        Keeps-if config.enabled
          (Keeps-bind (Keeps-start d _ (λ s fs ps h. h))
            λ outcome. report_operation-Keeps scope operation now outcome)
          (Keeps-bind (write_json-Keeps _ _) λ _. Keeps-pure _)

  pub search_memory-Keeps :
      (payload query : Json) → Keeps Silent (Service.search_memory d payload query)
  unfolding Service.search_memory Client.search
  search_memory-Keeps payload query = Keeps-bind (require_memory_scope-Keeps payload) λ scope.
      Keeps-bind (load-Keeps scope) λ config.
        Keeps-bind
          (Keeps-if config.enabled
            (Keeps-bind (Keeps-lift _)
              λ text. Keeps-bind (Keeps-start d _ (λ s fs ps h. h)) λ outcome. Keeps-lift _)
            (Keeps-pure _))
          (λ found. Keeps-pure _)

  pub delete-Keeps : (payload : Json) → Keeps Silent (Service.delete d payload)
  unfolding Service.delete Config.delete_tenant_memory
  delete-Keeps payload = Keeps-bind (require_memory_scope-Keeps payload) λ scope.
      Keeps-bind
        (Keeps-bind (Keeps-work _ (λ s h. h))
          λ node. Keeps-bind (Keeps-work _ (λ s h. h)) λ _. Keeps-pure _)
        (λ existed. Keeps-pure _)

  pub wakeup-Keeps :
      (payload title description : Json) → Keeps Silent (Service.wakeup d payload title description)
  unfolding Service.wakeup
  wakeup-Keeps payload title description = Keeps-bind (require_memory_scope-Keeps payload) λ scope.
      Keeps-bind (Keeps-lift _) λ first. Keeps-bind (Keeps-lift _) λ second.
        Keeps-bind (search_memory-Keeps _ _) λ result. Keeps-bind (Keeps-lift _) λ mode.
          Keeps-bind (Keeps-lift _) λ found. Keeps-bind (Keeps-lift _) λ reason.
            Keeps-bind (Keeps-lift _) λ config. Keeps-bind (Keeps-lift _) λ results. Keeps-pure _
