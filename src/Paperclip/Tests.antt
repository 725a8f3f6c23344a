-- ===== src/Paperclip/Tests.antt =====
-- Runs of paperclip/ at concrete tasks.
use agentopia.Prelude.{
  ℕ, ◌<◌, ◌≤◌, ◌⊎◌, eq_iff, ◌≡◌, ◌↔◌, refl, ◌≢◌, inl, inr, String, Option, none, some, true, false,
  List, [], ◌∷◌, arith, ◌<>◌,
}
use agentopia.Prelude.Table.{lookup, append_row, update}
use agentopia.Prelude.Json.{null}
use agentopia.Python.{ok, raise, Exception, exception, Kind, value_error}
use agentopia.Paperclip.StateMachine.{State, can_transition, assert_transition}
use agentopia.Hermes.Provenance.{extract_memory_provenance}
use agentopia.Paperclip.StateMachine.Laws.{
  History, here, next, life_bounded, approval_gate, IsTerminal-iff, IsTerminal,
}
use agentopia.Paperclip.Db
use agentopia.Paperclip.Db.{
  Tables, TaskRow, QueueItem, QueueStatus, fresh_item, get_task, get_queue_item, get_result,
}
use agentopia.Paperclip.Dispatch.{read_reply}
use agentopia.Hermes.Platform.{FilePath}
use agentopia.Hermes.Files.Paths.{is_below, candidate, follow_all}
use agentopia.Prelude.Texts.{split_at}
use agentopia.Paperclip.Service.World.{World, actions, submit, trace, task_dir, result_path}
use agentopia.Paperclip.Service.Runs.{Call, run, new_world}
use agentopia.Paperclip.Service.Queue
use agentopia.Paperclip.Service.Queue.{claim_queue_item, process_queue, transition_task}
use agentopia.Paperclip.Service.Results
use agentopia.Paperclip.Service.Results.{record_result, cancel_task, delete_task}
use agentopia.Paperclip.Service.Upkeep.{enforce_timeouts, recover_stuck_approval}
use agentopia.Paperclip.Service.Views.{TaskView, view_task, list_recoverable_stuck_jobs}
use agentopia.Paperclip.Service.Transitions.{Applied, transition_task_lem}
use agentopia.Paperclip.Service.Timeouts.{timeouts_never_fire}
use agentopia.Paperclip.Service.Leases.{claim_excludes}
use agentopia.Paperclip.Service.Payload.{read_task}
use agentopia.Paperclip.Service.Intake
use agentopia.Paperclip.Service.Intake.{submit_task}
use agentopia.Paperclip.Service.Resubmit.{resubmit}
use agentopia.Paperclip.Service.Retries.{Outcome, failed_attempt}
use agentopia.Paperclip.Service.Deletion.{IsGone, IsSame, delete_task_lem}
use agentopia.Paperclip.Service.Callbacks.{
  HasResult, HasOutcome, first_result, later_results_ignored, cancelled_task_keeps,
}
use agentopia.Paperclip.Service.Durability.{cancel_task_uncommitted, recovery_reopens}
use agentopia.Paperclip.Samples.{env, task, world, result, submission, fields, client}

queued-History : History State.received 3 State.queued
unfolding can_transition
queued-History =
    next {t = State.approved}
      (next {t = State.validating} (next {t = State.received} here refl refl) refl refl) refl refl

life_bounded_example : 3 ≤ 6
life_bounded_example = life_bounded queued-History

approval_gate_example : (k : ℕ) × History State.received k State.approved × (k < 3)
approval_gate_example = approval_gate queued-History (inl refl)

transition_task_example :
    ((v : Option TaskView) × ((transition_task env "t2" State.failed "hermes" null world).0 ≡ ok v)
      × Applied env "t2" State.failed world
          (transition_task env "t2" State.failed "hermes" null world).1)
    ⊎ ((e : Exception) × (transition_task env "t2" State.failed "hermes" null world
          ≡ (raise e, world))
        × ((r : TaskRow)
            → get_task "t2" world.live ≡ some r
            → can_transition r.state State.failed ≡ false))
transition_task_example = transition_task_lem env "t2" State.failed "hermes" null world

abbrev calls : List Call
calls = Call.process "t1" none none ∷ Call.result "t1" result ∷ []

timeouts_never_fire_example :
    ((enforce_timeouts env none (run env calls new_world)).0 ≡ ok [])
    × ((enforce_timeouts env none (run env calls new_world)).1.live
        ≡ (run env calls new_world).live)
    × (list_recoverable_stuck_jobs (run env calls new_world).live 9_000_000_000 ≡ [])
timeouts_never_fire_example = timeouts_never_fire env calls none 9_000_000_000

claimed : (v : Option TaskView) × ((claim_queue_item env "t1" "ann" (some 0) world).0 ≡ ok v)
unfolding lookup claim_queue_item Queue.require_item Queue.get_view get_queue_item actions
claimed = (_, refl)

claim_excludes_example :
    let w' = (claim_queue_item env "t1" "ann" (some 0) world).1 in
    claim_queue_item env "t1" "bob" (some 5) w'
    ≡ (raise (value_error ("queue item already leased by " <> "ann")), w')
claim_excludes_example =
    claim_excludes env "t1" "ann" "bob" 0 5 world (claimed.1) (ground (arith, eq_iff "ann" ""))
      (ground (arith, eq_iff "ann" "bob")) (omega arith)

unreachable :
    (Queue.dispatch_task env "t1" (some "trace_1") none world).0
    ≡ raise (exception Kind.os "connection refused")
unfolding lookup Queue.dispatch_task Queue.require_task Queue.run_task Queue.start_run
    transition_task submit read_reply get_task actions can_transition trace assert_transition
    get_queue_item Queue.transition_writes Db.update_task_state Db.add_audit_event Queue.get_view
unreachable = refl

failed_attempt_example :
    Outcome env "t1"
      (fresh_item "t1" (some "trace_1") 0 3)
      9
      (exception Kind.os "connection refused")
      (process_queue env "t1" (some 9) none world).1.live
unfolding lookup get_queue_item get_task
failed_attempt_example =
    failed_attempt env "t1" (fresh_item "t1" (some "trace_1") 0 3) (task "t1" State.queued) 9
      (exception Kind.os "connection refused") world refl refl refl refl refl unreachable

delete_task_example :
    let w' = (delete_task env "t1" world).1 in
    ((delete_task env "t1" world).0 ≡ ok true)
    × IsGone "t1" w'.live
    × (w'.disk ≡ w'.live)
    × (w'.files (result_path "t1") ≡ none)
    × ((j : String) → j ≢ "t1" → IsSame j world.live w'.live)
    × ((q : FilePath) → is_below (task_dir "t1") q ≡ false → w'.files q ≡ world.files q)
unfolding lookup get_task
delete_task_example = delete_task_lem env "t1" world refl

-- The result of a task goes when a task is deleted whose id is the beginning of its own.
abbrev stored_below : World
stored_below = record world { files = λ q. some null }

deletes_below : (delete_task env "t1" stored_below).1.files (result_path "t1/more") ≡ none
unfolding lookup get_task delete_task actions task_dir candidate follow_all split_at is_below
deletes_below = refl

reported : (v : Option TaskView) × ((record_result env "t2" result world).0 ≡ ok v)
unfolding lookup record_result Results.accept_result transition_task Queue.require_task
    Queue.get_view get_task get_result actions trace assert_transition can_transition
    extract_memory_provenance
reported = (_, refl)

first_result_example :
    HasResult "t2" result (record_result env "t2" result world).1.live
    × HasOutcome "t2" result (record_result env "t2" result world).1.live
unfolding lookup get_task get_result
first_result_example = first_result env "t2" result world refl refl refl (reported.1)

later_results_ignored_example :
    let w' = (record_result env "t2" result world).1 in
    record_result env "t2" null w' ≡ (ok (view_task w'.live "t2"), w')
unfolding lookup get_task get_result
later_results_ignored_example =
    later_results_ignored env "t2" result null world refl refl refl (reported.1)

cancelled_task_keeps_example :
    let t = (record_result env "t3" result world).1.live in
    (t.tasks ≡ world.live.tasks) × (t.queue ≡ world.live.queue) × (t.results ≡ world.live.results)
unfolding lookup get_task get_result
cancelled_task_keeps_example = cancelled_task_keeps env "t3" result world refl refl refl

cancel_task_uncommitted_example :
    let w' = (cancel_task env "t2" "ann" "stop" world).1 in
    ((r' : TaskRow) × (get_task "t2" w'.live ≡ some r') × (r'.state ≡ State.cancelled))
    × (w'.disk ≡ world.disk)
unfolding lookup get_task
cancel_task_uncommitted_example = cancel_task_uncommitted env "t2" "ann" "stop" world refl refl

recovery_reopens_example :
    let w' = (recover_stuck_approval env "t3" "ann" world).1 in
    ((t : State) → can_transition State.cancelled t ≡ false)
    × ((r' : TaskRow) × (get_task "t3" w'.live ≡ some r')
        × (r'.state ≡ State.pending_approval)
        × (r'.approval_status ≡ "pending"))
unfolding lookup get_task
recovery_reopens_example = recovery_reopens env "t3" "ann" "" world refl (inr (inr (inr refl)))

IsTerminal-iff_example :
    ((t : State) → can_transition State.rejected t ≡ false) ↔ IsTerminal State.rejected
IsTerminal-iff_example = IsTerminal-iff State.rejected

read_submission : read_task submission ≡ some fields
unfolding read_task
read_submission = refl

submitted :
    (v : Option TaskView) × ((submit_task env submission client (some "k1") none world).0 ≡ ok v)
unfolding lookup submit_task Intake.submit_new Intake.find_by_key Intake.register Intake.route
    Intake.note_webhook Intake.note_key Intake.note_approval Intake.hold_for_approval
    transition_task Queue.require_task Queue.get_view get_task actions trace assert_transition
    can_transition read_task Db.get_idempotent_task_id Db.create_task Db.create_idempotency_record
    Db.add_audit_event Db.update_task_state Queue.transition_writes append_row update
submitted = (_, refl)

resubmit_example :
    let w' = run env calls (submit_task env submission client (some "k1") none world).1 in
    submit_task env null client (some "k1") (some "http://hook") w'
    ≡ (ok (view_task w'.live "t4"), w')
unfolding lookup Db.get_idempotent_task_id
resubmit_example =
    resubmit env fields submission null client client "k1" none (some "http://hook") calls world
      (ground (arith, eq_iff "k1" "")) (ground (arith, eq_iff "t4" "")) read_submission refl
      (submitted.1) (λ n. n, (λ n. n, tt))
