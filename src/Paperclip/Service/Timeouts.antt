-- ===== src/Paperclip/Service/Timeouts.antt =====
-- paperclip/service.py: the status `running` of a queue item, which `dispatch_task` writes and, before it
-- calls Hermes, replaces by `dispatched`.
use agentopia.Prelude.{
  ℕ, ◌≡◌, refl, ◌≢◌, String, Option, none, some, false, List, [], ◌∷◌, arith, select,
}
use agentopia.Prelude.Table.{
  Table, Every, Every-update, Every-replace, Every-remove, Every-update_twice,
}
use agentopia.Python.{ok}
use agentopia.Paperclip.Db
use agentopia.Paperclip.Db.{
  Tables, QueueItem, QueueStatus, same_status, rows, list_queue_items, TaskRecord, fresh_item,
}
use agentopia.Paperclip.Db.Order.{sort_by}
use agentopia.Paperclip.Service.World.{World, Surroundings, actions}
use agentopia.Paperclip.Service.Views.{list_recoverable_stuck_jobs}
use agentopia.Paperclip.Service.Upkeep.{enforce_timeouts, time_out_all}
use agentopia.Paperclip.Service.Stable.{Lasting, Stable}
use agentopia.Paperclip.Service.Runs.{Call, run, run-Stable, new_world}

abbrev pub IsAtRest : QueueItem → Type 0
IsAtRest q = q.status ≢ QueueStatus.running

abbrev pub NoneRunning : Tables → Type 0
NoneRunning t = Every IsAtRest t.queue

create_task-queue :
    (r : TaskRecord) (t t' : Tables) → Db.create_task r t ≡ ok t' → t'.queue ≡ t.queue
unfolding Db.create_task
create_task-queue r t t' h = ground arith

create_idempotency_record-queue :
    (key id : String) (at : ℕ) (t t' : Tables)
    → Db.create_idempotency_record key id at t ≡ ok t'
    → t'.queue ≡ t.queue
unfolding Db.create_idempotency_record
create_idempotency_record-queue key id at t t' h = ground arith

NoneRunning-Lasting : Lasting NoneRunning
unfolding Db.update_task_state Db.add_audit_event Db.enqueue_task Db.claim_queue_item
    Db.mark_queue_dispatched Db.mark_queue_running Db.mark_queue_timed_out Db.reset_queue_to_queued
    Db.mark_queue_retry Db.mark_queue_dead_letter Db.mark_queue_cancelled Db.store_result
NoneRunning-Lasting = record {
  create_task = λ r t t' h e. rw (create_task-queue r t t' e) h;
  update_task_state = λ id s at a t h. h;
  add_audit_event = λ id event actor payload at t h. h;
  enqueue_task =
      λ id c at max t h. Every-replace IsAtRest id (fresh_item id c at max) t.queue (cc) h;
  claim_queue_item = λ id worker expires at t h. Every-update IsAtRest id _ t.queue (λ v k. k) h;
  running_dispatched =
      λ id started timeout at at' t h. Every-update_twice IsAtRest id _ _ t.queue (λ v k. cc) h;
  mark_queue_timed_out = λ id error at t h. Every-update IsAtRest id _ t.queue (λ v k. cc) h;
  reset_queue_to_queued = λ id at t h. Every-update IsAtRest id _ t.queue (λ v k. cc) h;
  mark_queue_retry = λ id n next error at t h. Every-update IsAtRest id _ t.queue (λ v k. cc) h;
  mark_queue_dead_letter = λ id n error at t h. Every-update IsAtRest id _ t.queue (λ v k. cc) h;
  mark_queue_cancelled = λ id at error t h. Every-update IsAtRest id _ t.queue (λ v k. cc) h;
  create_idempotency_record =
      λ key id at t t' h e. rw (create_idempotency_record-queue key id at t t' e) h;
  store_result = λ id j at t h. h;
}

NoneRunning-Stable : Stable NoneRunning
unfolding Db.delete_task_data
NoneRunning-Stable = record {
  lasting = NoneRunning-Lasting;
  delete_task_data = λ id t h. Every-remove IsAtRest id t.queue h;
}

not-same_running :
    (s : QueueStatus) → s ≢ QueueStatus.running → same_status s QueueStatus.running ≡ false
not-same_running s h = ground arith

select_running :
    (t : Table QueueItem)
    → Every IsAtRest t
    → select (λ q. same_status q.status QueueStatus.running) (rows t) ≡ []
select_running [] h = refl
select_running ((k, q) ∷ t) h = rw (not-same_running q.status h.0, select_running t h.1)

list_queue_items_running :
    (t : Tables) → NoneRunning t → list_queue_items (some QueueStatus.running) t ≡ []
unfolding list_queue_items sort_by
list_queue_items_running t h = rw (select_running t.queue h)

enforce_timeouts_idle :
    (env : Surroundings) (now : Option ℕ) (w : World)
    → NoneRunning w.live
    → ((enforce_timeouts env now w).0 ≡ ok []) × ((enforce_timeouts env now w).1.live ≡ w.live)
unfolding enforce_timeouts time_out_all actions
enforce_timeouts_idle env none w h = rw (list_queue_items_running w.live h) (refl, refl)
enforce_timeouts_idle env (some now) w h = rw (list_queue_items_running w.live h) (refl, refl)

NoneRunning-run : (env : Surroundings) (cs : List Call) → NoneRunning (run env cs new_world).live
NoneRunning-run env cs = run-Stable NoneRunning-Stable env cs new_world tt

-- After any calls of the service, the search for timeouts finds nothing and changes no table, and
-- no job is listed as recoverable, however late it is.
pub timeouts_never_fire :
    (env : Surroundings) (cs : List Call) (now : Option ℕ) (late : ℕ)
    → ((enforce_timeouts env now (run env cs new_world)).0 ≡ ok [])
      × ((enforce_timeouts env now (run env cs new_world)).1.live ≡ (run env cs new_world).live)
      × (list_recoverable_stuck_jobs (run env cs new_world).live late ≡ [])
unfolding list_recoverable_stuck_jobs
timeouts_never_fire env cs now late =
    let rest = NoneRunning-run env cs in
    let (none_found, unchanged) = enforce_timeouts_idle env now (run env cs new_world) rest in
    (none_found, unchanged, rw (list_queue_items_running (run env cs new_world).live rest))
