-- ===== src/Paperclip/Service/Runs.antt =====
-- The calls that clients, workers, Hermes and operators make of one service, in any order.
use agentopia.Prelude.{none, ℕ, String, Option, List, [], ◌∷◌}
use agentopia.Prelude.Json.{Json}
use agentopia.Paperclip.StateMachine.{State}
use agentopia.Paperclip.Db.{Tables, delete_task_data}
use agentopia.Paperclip.Service.World.{World, Surroundings}
use agentopia.Paperclip.Service.Queue.{
  transition_task, enqueue_task, claim_queue_item, process_queue, dispatch_task,
}
use agentopia.Paperclip.Service.Intake.{TenantContext, submit_task}
use agentopia.Paperclip.Service.Results.{record_result, cancel_task, delete_task}
use agentopia.Paperclip.Service.Upkeep.{
  recover_stuck_job, enforce_timeouts, find_expired_approvals, recover_stuck_approval,
}
use agentopia.Paperclip.Service.Stable.{Lasting, Stable}
use agentopia.Paperclip.Service.Stable.Queue.{
  transition_task-Keeps, enqueue_task-Keeps, claim_queue_item-Keeps, process_queue-Keeps,
  dispatch_task-Keeps,
}
use agentopia.Paperclip.Service.Stable.Upkeep.{
  recover_stuck_job-Keeps, enforce_timeouts-Keeps, find_expired_approvals-Keeps,
  recover_stuck_approval-Keeps,
}
use agentopia.Paperclip.Service.Stable.Results.{
  record_result-Keeps, cancel_task-Keeps, delete_task-Keeps,
}
use agentopia.Paperclip.Service.Stable.Intake.{submit_task-Keeps}

pub data Call : Type 0 where
  submit : Json → TenantContext → Option String → Option String → Call
  transition : String → State → String → Json → Call
  enqueue : String → Option String → Call
  claim : String → String → Option ℕ → Call
  process : String → Option ℕ → Option String → Call
  dispatch : String → Option String → Option String → Call
  result : String → Json → Call
  cancel : String → String → String → Call
  delete : String → Call
  recover_job : String → String → Option ℕ → Call
  timeouts : Option ℕ → Call
  expire : Option ℕ → Call
  recover_approval : String → String → Call

abbrev pub call : Surroundings → Call → World → World
call env (Call.submit p ctx key url) w = (submit_task env p ctx key url w).1
call env (Call.transition id s actor details) w = (transition_task env id s actor details w).1
call env (Call.enqueue id c) w = (enqueue_task env id c w).1
call env (Call.claim id worker now) w = (claim_queue_item env id worker now w).1
call env (Call.process id now worker) w = (process_queue env id now worker w).1
call env (Call.dispatch id c worker) w = (dispatch_task env id c worker w).1
call env (Call.result id r) w = (record_result env id r w).1
call env (Call.cancel id actor reason) w = (cancel_task env id actor reason w).1
call env (Call.delete id) w = (delete_task env id w).1
call env (Call.recover_job id actor now) w = (recover_stuck_job env id actor now w).1
call env (Call.timeouts now) w = (enforce_timeouts env now w).1
call env (Call.expire now) w = (find_expired_approvals env now w).1
call env (Call.recover_approval id actor) w = (recover_stuck_approval env id actor w).1

abbrev pub run : Surroundings → List Call → World → World
run env [] w = w
run env (c ∷ cs) w = run env cs (call env c w)

abbrev pub empty_tables : Tables
empty_tables = record {
  tasks = [];
  audit_events = [];
  next_audit_id = 1;
  results = [];
  queue = [];
  idempotency = [];
}

-- A service over a new database.
abbrev pub new_world : World
new_world = record {
  live = empty_tables;
  disk = empty_tables;
  traces = [];
  files = λ q. none;
  ticks = 0;
  calls = [];
}

abbrev pub IsDeletion : Call → Type 0
IsDeletion (Call.delete id) = Unit
IsDeletion _ = ⊥

abbrev pub HasNoDeletion : List Call → Type 0
HasNoDeletion [] = Unit
HasNoDeletion (c ∷ cs) = (¬ IsDeletion c) × HasNoDeletion cs

module _ {Q : Tables → Type 0} (s : Lasting Q) (env : Surroundings) where
  call-Lasting :
      (c : Call) (w : World)
      → (IsDeletion c → (id : String) (t : Tables) → Q t → Q (delete_task_data id t))
      → Q w.live
      → Q (call env c w).live
  call-Lasting (Call.submit p ctx key url) w _ h = (submit_task-Keeps s env p ctx key url).at w h
  call-Lasting (Call.transition id to actor details) w _ h =
      (transition_task-Keeps s env id to actor details).at w h
  call-Lasting (Call.enqueue id c) w _ h = (enqueue_task-Keeps s env id c).at w h
  call-Lasting (Call.claim id worker now) w _ h =
      (claim_queue_item-Keeps s env id worker now).at w h
  call-Lasting (Call.process id now worker) w _ h = (process_queue-Keeps s env id now worker).at w h
  call-Lasting (Call.dispatch id c worker) w _ h = (dispatch_task-Keeps s env id c worker).at w h
  call-Lasting (Call.result id r) w _ h = (record_result-Keeps s env id r).at w h
  call-Lasting (Call.cancel id actor reason) w _ h =
      (cancel_task-Keeps s env id actor reason).at w h
  call-Lasting (Call.delete id) w kept h = (delete_task-Keeps (kept tt) env id).at w h
  call-Lasting (Call.recover_job id actor now) w _ h =
      (recover_stuck_job-Keeps s env id actor now).at w h
  call-Lasting (Call.timeouts now) w _ h = (enforce_timeouts-Keeps s env now).at w h
  call-Lasting (Call.expire now) w _ h = (find_expired_approvals-Keeps s env now).at w h
  call-Lasting (Call.recover_approval id actor) w _ h =
      (recover_stuck_approval-Keeps s env id actor).at w h

  -- A lasting property of the first database holds after any calls but deletions.
  pub run-Lasting :
      (cs : List Call) (w : World) → HasNoDeletion cs → Q w.live → Q (run env cs w).live
  run-Lasting [] w kept h = h
  run-Lasting (c ∷ cs) w kept h =
      run-Lasting cs (call env c w) kept.1 (call-Lasting c w (λ d. absurd (kept.0 d)) h)

-- A stable property of the first database holds after any calls.
pub run-Stable :
    {Q : Tables → Type 0} (s : Stable Q) (env : Surroundings) (cs : List Call) (w : World)
    → Q w.live
    → Q (run env cs w).live
run-Stable s env [] w h = h
run-Stable s env (c ∷ cs) w h =
    run-Stable s env cs (call env c w) (call-Lasting s.lasting env c w (λ _. s.delete_task_data) h)
