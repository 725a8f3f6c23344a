-- ===== src/Paperclip/Service/Stable/Results.antt =====
-- Results, cancelling and deleting keep what the writes of db.py keep.
use agentopia.Prelude.{ℕ, String, Option, none, some, true, false}
use agentopia.Prelude.Json.{Json}
use agentopia.Paperclip.Db.{Tables, QueueItem, delete_task_data}
use agentopia.Paperclip.Service.World.{Surroundings}
use agentopia.Paperclip.Service.Keeps.{
  Keeps, Keeps-pure, Keeps-throw, Keeps-lift, Keeps-query, Keeps-execute, Keeps-run_in_transaction,
  Keeps-bind, Keeps-then, Keeps-if, Keeps-option, Keeps-get_view, Keeps-require_task,
  Keeps-persist_result, Keeps-delete_task_storage, Keeps-utcnow, Keeps-trace,
}
use agentopia.Paperclip.Service.Results
use agentopia.Paperclip.Service.Stable.{Lasting, audit}
use agentopia.Paperclip.Service.Stable.Queue.{transition_task-Keeps}

module _ {Q : Tables → Type 0} (s : Lasting Q) (env : Surroundings) where
  note_provenance-Keeps :
      (id : String) (m : Option Json) (at : ℕ) → Keeps Q (Results.note_provenance id m at)
  note_provenance-Keeps id none at = Keeps-pure tt
  note_provenance-Keeps id (some m) at = audit s env id _ _ m at

  trace_result-Keeps :
      (c : Option String) (id : String) (status : Json)
      → Keeps Q (Results.trace_result env c id status)
  trace_result-Keeps none id status = Keeps-pure tt
  trace_result-Keeps (some c) id status = Keeps-trace env c _ _ _

  known_view-Keeps : (id : String) → Keeps Q (Results.known_view id)
  unfolding Results.known_view
  known_view-Keeps id = Keeps-bind (Keeps-get_view id) λ v. Keeps-lift _

  accept_result-Keeps :
      (id : String) (result : Json) → Keeps Q (Results.accept_result env id result)
  unfolding Results.accept_result
  accept_result-Keeps id result = Keeps-bind (Keeps-lift _) λ run.
      Keeps-bind (Keeps-lift _) λ status. Keeps-bind (Keeps-lift _) λ provenance.
        Keeps-then (transition_task-Keeps s env id (Results.outcome_of status) _ _) (
          Keeps-bind (Keeps-utcnow env) λ at.
            Keeps-then
              (Keeps-run_in_transaction _
                (λ t h. s.add_audit_event id _ _ _ at _ (s.store_result id result at t h)))
              (Keeps-then (note_provenance-Keeps id provenance at) (
                Keeps-then (Keeps-persist_result id result) (
                  Keeps-bind (Keeps-lift _) λ traced. Keeps-bind (Keeps-lift _) λ trace_id.
                    Keeps-then (trace_result-Keeps (Results.trace_text trace_id) id status)
                      (Keeps-get_view id)))))

  ignore_result-Keeps :
      (id : String) (result : Json) → Keeps Q (Results.ignore_result env id result)
  unfolding Results.ignore_result
  ignore_result-Keeps id result = Keeps-bind (Keeps-lift _) λ run.
      Keeps-bind (Keeps-lift _) λ status. Keeps-bind (Keeps-utcnow env) λ at.
        Keeps-then (audit s env id _ _ _ at)
          (Keeps-bind (known_view-Keeps id) λ v. Keeps-pure (some v))

  pub record_result-Keeps :
      (id : String) (result : Json) → Keeps Q (Results.record_result env id result)
  unfolding Results.record_result
  record_result-Keeps id result = Keeps-bind (Keeps-query _) λ existing.
      Keeps-option existing
        (Keeps-bind (Keeps-require_task id)
          λ task. Keeps-if _ (ignore_result-Keeps id result) (accept_result-Keeps id result))
        (λ _. Keeps-bind (known_view-Keeps id) λ v. Keeps-pure (some v))

  cancel_item-Keeps :
      (id : String) (at : ℕ) (reason : String) (q : Option QueueItem)
      → Keeps Q (Results.cancel_item env id at reason q)
  cancel_item-Keeps id at reason none = Keeps-pure tt
  cancel_item-Keeps id at reason (some q) = Keeps-execute _ (s.mark_queue_cancelled id at reason)

  pub cancel_task-Keeps :
      (id actor reason : String) → Keeps Q (Results.cancel_task env id actor reason)
  unfolding Results.cancel_task Results.cancel_open
  cancel_task-Keeps id actor reason = Keeps-bind (Keeps-query _) λ found.
      Keeps-option found (Keeps-pure none) λ task. Keeps-if _ (Keeps-get_view id) (
        Keeps-if _ (Keeps-throw _) (
          Keeps-bind (Keeps-utcnow env) λ at. Keeps-bind (Keeps-query _) λ q.
            Keeps-then (Keeps-execute _ (s.update_task_state id _ at _)) (
              Keeps-then (cancel_item-Keeps id at reason q)
                (Keeps-then (audit s env id _ _ _ at) (Keeps-get_view id)))))

module _ {Q : Tables → Type 0}
    (kept : (id : String) (t : Tables) → Q t → Q (delete_task_data id t)) where
  pub delete_task-Keeps : (env : Surroundings) (id : String) → Keeps Q (Results.delete_task env id)
  unfolding Results.delete_task
  delete_task-Keeps env id = Keeps-bind (Keeps-query _) λ found.
      Keeps-option found (Keeps-pure false) λ _.
        Keeps-then (Keeps-run_in_transaction _ (kept id))
          (Keeps-then (Keeps-delete_task_storage id) (Keeps-pure true))
