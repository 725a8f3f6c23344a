-- ===== src/Paperclip/Service/Stable/Upkeep.antt =====
-- Recovery, timeouts and expired approvals keep what the writes of db.py keep.
use agentopia.Prelude.{ℕ, String, Option, none, some, List, [], ◌∷◌}
use agentopia.Paperclip.StateMachine.{State}
use agentopia.Paperclip.Db.{Tables, TaskRow, QueueItem}
use agentopia.Paperclip.Service.World.{Surroundings}
use agentopia.Paperclip.Service.Keeps.{
  Keeps, Keeps-pure, Keeps-query, Keeps-execute, Keeps-bind, Keeps-then, Keeps-if, Keeps-option,
  Keeps-get_view, Keeps-utcnow, Keeps-now_or,
}
use agentopia.Paperclip.Service.Upkeep
use agentopia.Paperclip.Service.Stable.{Lasting, audit}
use agentopia.Paperclip.Service.Stable.Queue.{transition_task-Keeps}

module _ {Q : Tables → Type 0} (s : Lasting Q) (env : Surroundings) where
  release-Keeps :
      (id worker actor : String) (now : ℕ) → Keeps Q (Upkeep.release env id worker actor now)
  unfolding Upkeep.release
  release-Keeps id worker actor now = Keeps-then (Keeps-execute _ (s.reset_queue_to_queued id _)) (
      Keeps-then (Keeps-execute _ (s.update_task_state id _ _ _))
        (Keeps-then (audit s env id _ _ _ _) (Keeps-get_view id)))

  pub recover_stuck_job-Keeps :
      (id actor : String) (now : Option ℕ) → Keeps Q (Upkeep.recover_stuck_job env id actor now)
  unfolding Upkeep.recover_stuck_job
  recover_stuck_job-Keeps id actor now_arg =
      Keeps-bind (Keeps-query _) λ task. Keeps-bind (Keeps-query _) λ q. found task q
    where
      found :
          (task : Option TaskRow) (q : Option QueueItem)
          → Keeps Q (Upkeep.recover_found env id actor now_arg task q)
      found none q = Keeps-pure none
      found (some task) none = Keeps-pure none
      found (some task) (some q) =
          Keeps-bind (Keeps-now_or env now_arg)
            λ now. Keeps-option _ (Keeps-pure none) (λ worker. release-Keeps id worker actor now)

  time_out_all-Keeps : (now : ℕ) (qs : List QueueItem) → Keeps Q (Upkeep.time_out_all env now qs)
  unfolding Upkeep.time_out_all Upkeep.time_out
  time_out_all-Keeps now [] = Keeps-pure []
  time_out_all-Keeps now (q ∷ qs) =
      Keeps-option (Upkeep.due q now) (time_out_all-Keeps now qs) λ deadline.
        Keeps-bind
          (Keeps-then (Keeps-execute _ (s.mark_queue_timed_out q.task_id _ _)) (
            Keeps-then (transition_task-Keeps s env q.task_id State.failed _ _)
              (Keeps-then (audit s env q.task_id _ _ _ _) (Keeps-pure _))))
          (λ t. Keeps-bind (time_out_all-Keeps now qs) λ ts. Keeps-pure (t ∷ ts))

  pub enforce_timeouts-Keeps : (now : Option ℕ) → Keeps Q (Upkeep.enforce_timeouts env now)
  unfolding Upkeep.enforce_timeouts
  enforce_timeouts-Keeps now_arg =
      Keeps-bind (Keeps-now_or env now_arg)
        λ now. Keeps-bind (Keeps-query _) λ qs. time_out_all-Keeps now qs

  note_expired-Keeps :
      (now : ℕ) (tasks : List TaskRow) → Keeps Q (Upkeep.note_expired env now tasks)
  unfolding Upkeep.note_expired
  note_expired-Keeps now [] = Keeps-pure []
  note_expired-Keeps now (task ∷ tasks) =
      Keeps-if (Upkeep.approval_expired env task now)
        (Keeps-then (audit s env task.id _ _ _ now)
          (Keeps-bind (note_expired-Keeps now tasks) λ es. Keeps-pure _))
        (note_expired-Keeps now tasks)

  pub find_expired_approvals-Keeps :
      (now : Option ℕ) → Keeps Q (Upkeep.find_expired_approvals env now)
  unfolding Upkeep.find_expired_approvals
  find_expired_approvals-Keeps now_arg =
      Keeps-bind (Keeps-now_or env now_arg)
        λ now. Keeps-bind (Keeps-query _) λ tasks. note_expired-Keeps now tasks

  pub recover_stuck_approval-Keeps :
      (id actor : String) → Keeps Q (Upkeep.recover_stuck_approval env id actor)
  unfolding Upkeep.recover_stuck_approval Upkeep.reset_approval
  recover_stuck_approval-Keeps id actor = Keeps-bind (Keeps-query _) λ found.
      Keeps-option found (Keeps-pure none) λ task. Keeps-bind (Keeps-utcnow env) λ at.
        Keeps-then (Keeps-execute _ (s.update_task_state id _ _ _))
          (Keeps-then (audit s env id _ _ _ _) (Keeps-get_view id))
