-- ===== src/Paperclip/Service/Stable.antt =====
-- Properties of the tables that last under the writes of db.py; the modules below have one lemma for
-- each method of the service.
pub mod Queue
pub mod Upkeep
pub mod Results
pub mod Intake
use agentopia.Prelude.{ℕ, ◌≡◌, String, Option, none, some, true, false, List, [], ◌∷◌, ◌==◌}
use agentopia.Prelude.Json.{Json}
use agentopia.Python.{ok, Exception}
use agentopia.Paperclip.StateMachine.{State}
use agentopia.Paperclip.Db
use agentopia.Paperclip.Db.{Tables, TaskRow, TaskRecord, QueueItem}
use agentopia.Paperclip.Service.World.{Surroundings, Action, actions, ◌>>=◌, ◌>>◌, execute, utcnow}
use agentopia.Paperclip.Service.Keeps.{
  Keeps, Keeps-pure, Keeps-throw, Keeps-lift, Keeps-query, Keeps-execute, Keeps-run_in_transaction,
  Keeps-execute_checked, Keeps-bind, Keeps-then, Keeps-catch, Keeps-if, Keeps-option,
  Keeps-get_view, Keeps-require_task, Keeps-require_item, Keeps-persist_result,
  Keeps-delete_task_storage, Keeps-utcnow, Keeps-now_or, Keeps-trace, Keeps-submit,
}
use agentopia.Paperclip.Service.Payload.{TaskFields}

-- A property of the tables that every write of db.py but a deletion keeps. A queue item is marked running only on
-- its way to dispatched.
pub record Lasting (Q : Tables → Type 0) : Type 0 where
  pub create_task : (r : TaskRecord) (t t' : Tables) → Q t → Db.create_task r t ≡ ok t' → Q t'
  pub update_task_state :
      (id : String) (s : State) (at : ℕ) (a : Option String) (t : Tables)
      → Q t
      → Q (Db.update_task_state id s at a t)
  pub add_audit_event :
      (id event actor : String) (payload : Json) (at : ℕ) (t : Tables)
      → Q t
      → Q (Db.add_audit_event id event actor payload at t)
  pub enqueue_task :
      (id : String) (c : Option String) (at max : ℕ) (t : Tables)
      → Q t
      → Q (Db.enqueue_task id c at max t)
  pub claim_queue_item :
      (id worker : String) (expires at : ℕ) (t : Tables)
      → Q t
      → Q (Db.claim_queue_item id worker expires at t)
  pub running_dispatched :
      (id : String) (started timeout at at' : ℕ) (t : Tables)
      → Q t
      → Q (Db.mark_queue_dispatched id at' (Db.mark_queue_running id started timeout at t))
  pub mark_queue_timed_out :
      (id error : String) (at : ℕ) (t : Tables) → Q t → Q (Db.mark_queue_timed_out id error at t)
  pub reset_queue_to_queued :
      (id : String) (at : ℕ) (t : Tables) → Q t → Q (Db.reset_queue_to_queued id at t)
  pub mark_queue_retry :
      (id : String) (n next : ℕ) (error : String) (at : ℕ) (t : Tables)
      → Q t
      → Q (Db.mark_queue_retry id n next error at t)
  pub mark_queue_dead_letter :
      (id : String) (n : ℕ) (error : String) (at : ℕ) (t : Tables)
      → Q t
      → Q (Db.mark_queue_dead_letter id n error at t)
  pub mark_queue_cancelled :
      (id : String) (at : ℕ) (error : String) (t : Tables)
      → Q t
      → Q (Db.mark_queue_cancelled id at error t)
  pub create_idempotency_record :
      (key id : String) (at : ℕ) (t t' : Tables)
      → Q t
      → Db.create_idempotency_record key id at t ≡ ok t'
      → Q t'
  pub store_result :
      (id : String) (j : Json) (at : ℕ) (t : Tables) → Q t → Q (Db.store_result id j at t)

-- One that a deletion keeps too.
pub record Stable (Q : Tables → Type 0) : Type 0 where
  pub lasting : Lasting Q
  pub delete_task_data : (id : String) (t : Tables) → Q t → Q (Db.delete_task_data id t)

module _ {Q : Tables → Type 0} (s : Lasting Q) (env : Surroundings) where
  pub audit :
      (id event actor : String) (payload : Json) (at : ℕ)
      → Keeps Q (execute (Db.add_audit_event id event actor payload at))
  audit id event actor payload at = Keeps-execute _ (s.add_audit_event id event actor payload at)
