-- ===== src/Paperclip/Service/Results.antt =====
-- paperclip/service.py: `record_result`, `cancel_task` and `delete_task`.
use agentopia.Prelude.{
  ℕ, String, Option, none, some, Bool, true, false, [], ◌∷◌, ◌==◌, ◌<>◌, if◌then◌else◌,
}
use agentopia.Prelude.Json.{Json, str, dict, or_else}
use agentopia.Python.{value_error, key_error, get, get_or, index, is_text, or_raise}
use agentopia.Hermes.Provenance.{extract_memory_provenance}
use agentopia.Paperclip.StateMachine.{State, state_name, same_state}
use agentopia.Paperclip.Db
use agentopia.Paperclip.Db.{Tables, TaskRow, QueueItem, ResultRow}
use agentopia.Paperclip.Service.World.{
  Surroundings, Action, pure, throw, lift, query, ◌>>=◌, ◌>>◌, execute, run_in_transaction, utcnow,
  trace, persist_result, delete_task_storage,
}
use agentopia.Paperclip.Service.Views.{TaskView}
use agentopia.Paperclip.Service.Queue.{transition_task, get_view, require_task}

-- `existing_task = self.get_task(task_id)`, with `KeyError` on `None`
unfoldable pub known_view : String → Action TaskView
known_view id = do lift (or_raise (← get_view id) (key_error id))

abbrev pub provenance_details : Json → Option Json → Json
provenance_details status none = dict (("run_status", status) ∷ [])
provenance_details status (some m) = dict (("run_status", status) ∷ ("memory_provenance", m) ∷ [])

-- `store_result_with_audit`, one transaction
abbrev pub store_result_writes : String → Json → Json → ℕ → Tables → Tables
store_result_writes id result status at t =
    Db.add_audit_event id "result_recorded" "paperclip" (dict (("status", status) ∷ [])) at
      (Db.store_result id result at t)

abbrev pub note_provenance : String → Option Json → ℕ → Action (Unit {0})
note_provenance id none at = pure tt
note_provenance id (some m) at =
    execute (Db.add_audit_event id "memory_provenance_recorded" "paperclip" m at)

-- `"succeeded" if status == "succeeded" else "failed"`
abbrev pub outcome_of : Json → State
outcome_of status = if is_text "succeeded" status then State.succeeded else State.failed

abbrev pub trace_text : Json → Option String
trace_text (str s) = if s == "" then none else some s
trace_text _ = none

-- `task["state"] in {"succeeded", "failed", "rejected"}`
abbrev pub is_closed : State → Bool
is_closed State.succeeded = true
is_closed State.failed = true
is_closed State.rejected = true
is_closed _ = false

module _ (env : Surroundings) where
  abbrev pub trace_result : Option String → String → Json → Action (Unit {0})
  trace_result none id status = pure tt
  trace_result (some c) id status =
      trace env c "paperclip" "result_recorded" (("task_id", str id) ∷ ("status", status) ∷ [])

  -- The result of a task that is not cancelled.
  unfoldable pub accept_result : String → Json → Action (Option TaskView)
  accept_result id result = do
    run ← lift (index result "run")
    status ← lift (index run "status")
    provenance ← lift (extract_memory_provenance result)
    transition_task env id (outcome_of status) "hermes" (provenance_details status provenance)
    at ← utcnow env
    run_in_transaction (store_result_writes id result status at)
    note_provenance id provenance at
    persist_result id result
    traced ← lift (get result "trace")
    trace_id ← lift (get (or_else traced (dict [])) "trace_id")
    trace_result (trace_text trace_id) id status
    get_view id

  -- The result of a cancelled task is noted and dropped.
  unfoldable pub ignore_result : String → Json → Action (Option TaskView)
  ignore_result id result = do
    run ← lift (get_or result "run" (dict []))
    status ← lift (get run "status")
    at ← utcnow env
    execute (
        Db.add_audit_event id "result_ignored_after_cancellation" "paperclip"
          (dict (("run_status", status) ∷ [])) at)
    v ← known_view id
    pure (some v)

  abbrev pub record_new : String → Json → Action (Option TaskView)
  record_new id result = do
    task ← require_task id
    if same_state task.state State.cancelled
        then ignore_result id result
        else accept_result id result

  abbrev pub return_known : String → Action (Option TaskView)
  return_known id = do v ← known_view id; pure (some v)

  unfoldable pub record_result : String → Json → Action (Option TaskView)
  record_result id result = do
    existing ← query (Db.get_result id)
    elim existing [ some _ ↦ return_known id | none ↦ record_new id result ]

  abbrev pub cancel_item : String → ℕ → String → Option QueueItem → Action (Unit {0})
  cancel_item id at reason none = pure tt
  cancel_item id at reason (some q) = execute (Db.mark_queue_cancelled id at reason)

  unfoldable pub cancel_open : TaskRow → String → String → String → Action (Option TaskView)
  cancel_open task id actor reason = do
    at ← utcnow env
    q ← query (Db.get_queue_item id)
    execute (Db.update_task_state id State.cancelled at none)
    cancel_item id at reason q
    execute (
        Db.add_audit_event id "task_cancelled" actor
          (dict (("reason", str reason) ∷ ("previous_state", str (state_name task.state)) ∷ [])) at)
    get_view id

  abbrev pub cancel_known : TaskRow → String → String → String → Action (Option TaskView)
  cancel_known task id actor reason =
      if same_state task.state State.cancelled
      then get_view id
      else if is_closed task.state
      then throw
          (value_error ("task cannot be cancelled from terminal state: " <> state_name task.state))
      else cancel_open task id actor reason

  unfoldable pub cancel_task : String → String → String → Action (Option TaskView)
  cancel_task id actor reason = do
    found ← query (Db.get_task id)
    elim found [ none ↦ pure none | some task ↦ cancel_known task id actor reason ]

  abbrev pub delete_known : String → Action Bool
  delete_known id = do
    run_in_transaction (Db.delete_task_data id)
    delete_task_storage id
    pure true

  unfoldable pub delete_task : String → Action Bool
  delete_task id = do
    found ← query (Db.get_task id)
    elim found [ none ↦ pure false | some _ ↦ delete_known id ]
