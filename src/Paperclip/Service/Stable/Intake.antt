-- ===== src/Paperclip/Service/Stable/Intake.antt =====
-- A submission keeps what the writes of db.py keep.
use agentopia.Prelude.{ℕ, String, Option, none, some}
use agentopia.Prelude.Json.{Json}
use agentopia.Paperclip.StateMachine.{State}
use agentopia.Paperclip.Db.{Tables}
use agentopia.Paperclip.Service.World.{Surroundings}
use agentopia.Paperclip.Service.Keeps.{
  Keeps, Keeps-pure, Keeps-lift, Keeps-query, Keeps-execute_checked, Keeps-bind, Keeps-then,
  Keeps-if, Keeps-option, Keeps-get_view, Keeps-utcnow, Keeps-trace,
}
use agentopia.Paperclip.Service.Payload.{TaskFields}
use agentopia.Paperclip.Service.Intake
use agentopia.Paperclip.Service.Stable.{Lasting, audit}
use agentopia.Paperclip.Service.Stable.Queue.{
  transition_task-Keeps, enqueue_task-Keeps, process_queue-Keeps,
}

module _ {Q : Tables → Type 0} (s : Lasting Q) (env : Surroundings) where
  pub note_webhook-Keeps :
      (id : String) (url : Option String) (at : ℕ) → Keeps Q (Intake.note_webhook id url at)
  unfolding Intake.note_webhook
  note_webhook-Keeps id none at = Keeps-pure tt
  note_webhook-Keeps id (some url) at = Keeps-if _ (Keeps-pure tt) (audit s env id _ _ _ at)

  pub note_key-Keeps :
      (id : String) (key : Option String) (at : ℕ) → Keeps Q (Intake.note_key id key at)
  unfolding Intake.note_key
  note_key-Keeps id none at = Keeps-pure tt
  note_key-Keeps id (some key) at = Keeps-if _ (Keeps-pure tt) (
      Keeps-then (Keeps-execute_checked _ (s.create_idempotency_record key id at))
        (audit s env id _ _ _ at))

  register-Keeps :
      (f : TaskFields) (payload : Json) (ctx : Intake.TenantContext) (key webhook : Option String)
      → Keeps Q (Intake.register env f payload ctx key webhook)
  unfolding Intake.register Intake.note_approval
  register-Keeps f payload ctx key webhook = Keeps-bind (Keeps-utcnow env) λ at.
      Keeps-then (Keeps-execute_checked _ (s.create_task (Intake.new_record f payload ctx at))) (
        Keeps-then (audit s env f.id _ _ _ at) (
          Keeps-then (note_webhook-Keeps f.id webhook at) (
            Keeps-then (note_key-Keeps f.id key at) (
              Keeps-then (Keeps-if f.approval_required (audit s env f.id _ _ _ at) (Keeps-pure tt))
                (Keeps-trace env f.trace_id _ _ _)))))

  pub route-Keeps : (f : TaskFields) → Keeps Q (Intake.route env f)
  unfolding Intake.route Intake.hold_for_approval Intake.start_at_once
  route-Keeps f = Keeps-then (transition_task-Keeps s env f.id State.validating _ _) (
      Keeps-if _
        (Keeps-then (transition_task-Keeps s env f.id State.pending_approval _ _) (Keeps-pure tt))
        (Keeps-then (transition_task-Keeps s env f.id State.approved _ _) (
          Keeps-then (enqueue_task-Keeps s env f.id (some f.trace_id))
            (Keeps-then (process_queue-Keeps s env f.id none none) (Keeps-pure tt)))))

  find_by_key-Keeps : (key : Option String) → Keeps Q (Intake.find_by_key env key)
  unfolding Intake.find_by_key
  find_by_key-Keeps none = Keeps-pure none
  find_by_key-Keeps (some key) =
      Keeps-if _ (Keeps-pure none) (Keeps-bind (Keeps-query _) λ known. known_task-Keeps known)
    where
      known_task-Keeps : (known : Option String) → Keeps Q (Intake.known_task env known)
      known_task-Keeps none = Keeps-pure none
      known_task-Keeps (some id) = Keeps-if _ (Keeps-pure none) (Keeps-get_view id)

  pub submit_task-Keeps :
      (payload : Json) (ctx : Intake.TenantContext) (key webhook : Option String)
      → Keeps Q (Intake.submit_task env payload ctx key webhook)
  unfolding Intake.submit_task Intake.submit_new
  submit_task-Keeps payload ctx key webhook = Keeps-bind (find_by_key-Keeps key) λ known.
      Keeps-option known
        (Keeps-then (Keeps-lift _) (
          Keeps-bind (Keeps-lift _) λ f.
            Keeps-then (register-Keeps f payload ctx key webhook)
              (Keeps-then (route-Keeps f) (Keeps-get_view f.id))))
        (λ v. Keeps-pure (some v))
