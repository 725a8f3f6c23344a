-- ===== src/Paperclip/Service/Callbacks.antt =====
-- Results that Hermes reports: what the first one does, and what any later one does not do.
use agentopia.Prelude.{
  ap, ◌∙◌, ◌==◌, eq_iff, ◌≢◌, Bool-cases, ℕ, [], ◌≡◌, refl, String, Option, none, some, inl, inr,
  true, false, arith,
}
use agentopia.Prelude.Table.{lookup-replace_self}
use agentopia.Prelude.Json.{null, bool, num, str, arr, obj, Json, dict, or_else}
use agentopia.Python.{ok, index, get}
use agentopia.Paperclip.StateMachine.{State, same_state}
use agentopia.Paperclip.Db
use agentopia.Paperclip.Db.{Tables, TaskRow, ResultRow, get_task, get_result, set_state}
use agentopia.Paperclip.Service.World.{
  World, Surroundings, lift, ◌>>=◌, ◌>>◌, actions, persist_result,
}
use agentopia.Paperclip.Service.Views.{TaskView, view_task}
use agentopia.Paperclip.Service.Queue.{transition_task, get_view, require_task, approval_for}
use agentopia.Paperclip.Service.Results.{
  record_result, accept_result, ignore_result, known_view, outcome_of, note_provenance,
  trace_result, trace_text, store_result_writes,
}
use agentopia.Paperclip.Service.Keeps.{
  Keeps, Keeps-pure, Keeps-lift, Keeps-execute, Keeps-bind, Keeps-then, Keeps-get_view,
  Keeps-persist_result, Keeps-utcnow, Keeps-trace, Keeps-run_in_transaction,
}
use agentopia.Paperclip.Service.Establishes.{
  Establishes, Establishes-later, Establishes-first, Establishes-lift,
  Establishes-run_in_transaction,
}
use agentopia.Paperclip.Service.Transitions.{transition_task_lem}

abbrev pub HasResult : String → Json → Tables → Type 0
HasResult id j t = (row : ResultRow) × (get_result id t ≡ some row) × (row.payload ≡ j)

abbrev pub HasState : String → State → Tables → Type 0
HasState id s t = (r : TaskRow) × (get_task id t ≡ some r) × (r.state ≡ s)

-- The task has succeeded if the result's `run.status` is the text "succeeded", and failed if not.
abbrev pub HasOutcome : String → Json → Tables → Type 0
HasOutcome id j t =
    (run : Json) × (status : Json) × (index j "run" ≡ ok run)
    × (index run "status" ≡ ok status)
    × (status ≡ str "succeeded" → HasState id State.succeeded t)
    × (status ≢ str "succeeded" → HasState id State.failed t)

-- The same, with the state as the method computes it.
abbrev IsReported : String → Json → Tables → Type 0
IsReported id j t =
    (run : Json) × (status : Json) × (index j "run" ≡ ok run)
    × (index run "status" ≡ ok status)
    × HasState id (outcome_of status) t

outcome_of-succeeded :
    (status : Json) → status ≡ str "succeeded" → outcome_of status ≡ State.succeeded
outcome_of-succeeded status e = ap outcome_of e ∙ ground arith

outcome_of-failed : (status : Json) → status ≢ str "succeeded" → outcome_of status ≡ State.failed
outcome_of-failed null ne = refl
outcome_of-failed (bool b) ne = refl
outcome_of-failed (num n) ne = refl
outcome_of-failed (str s) ne = elim (Bool-cases (s == "succeeded")) [
  | inl same ↦ absurd (ne (ap str ((eq_iff s "succeeded").0 same)))
  | inr other ↦ ground arith
]
outcome_of-failed (arr js) ne = refl
outcome_of-failed (obj fs) ne = refl

state_as : (id : String) {s s' : State} → s ≡ s' → (t : Tables) → HasState id s t → HasState id s' t
state_as id e t (r, h, k) = (r, h, k ∙ e)

set_state-state : (s : State) (at : ℕ) (r : TaskRow) → (set_state s at (approval_for s) r).state ≡ s
set_state-state s at r = ground arith

module _ {Q : Tables → Type 0} (env : Surroundings) (id : String)
    (audited : (event actor : String) (payload : Json) (at : ℕ) (t : Tables)
      → Q t
      → Q (Db.add_audit_event id event actor payload at t)) where
  note_provenance-Keeps : (m : Option Json) (at : ℕ) → Keeps Q (note_provenance id m at)
  note_provenance-Keeps none at = Keeps-pure tt
  note_provenance-Keeps (some m) at = Keeps-execute _ (audited _ _ m at)

  trace_result-Keeps : (c : Option String) (status : Json) → Keeps Q (trace_result env c id status)
  trace_result-Keeps none status = Keeps-pure tt
  trace_result-Keeps (some c) status = Keeps-trace env c _ _ _

  ignore_result-Keeps : (j : Json) → Keeps Q (ignore_result env id j)
  unfolding ignore_result known_view
  ignore_result-Keeps j = Keeps-bind (Keeps-lift _) λ run. Keeps-bind (Keeps-lift _) λ status.
      Keeps-bind (Keeps-utcnow env) λ at.
        Keeps-then (Keeps-execute _ (audited _ _ _ at))
          (Keeps-bind (Keeps-bind (Keeps-get_view id) λ v. Keeps-lift _) λ v. Keeps-pure (some v))

  -- `accept_result` after the result is stored.
  tail-Keeps :
      (result status : Json) (m : Option Json) (at : ℕ)
      → Keeps Q (
          note_provenance id m at
          >> (persist_result id result
              >> (lift (get result "trace") >>= λ traced.
                  lift (get (or_else traced (dict [])) "trace_id") >>= λ trace_id.
                  trace_result env (trace_text trace_id) id status >> get_view id)))
  tail-Keeps result status m at = Keeps-then (note_provenance-Keeps m at) (
      Keeps-then (Keeps-persist_result id result) (
        Keeps-bind (Keeps-lift _) λ traced. Keeps-bind (Keeps-lift _) λ trace_id.
          Keeps-then (trace_result-Keeps (trace_text trace_id) status) (Keeps-get_view id)))

module _ (env : Surroundings) (id : String) where
  stored :
      (j status : Json) (at : ℕ) (t : Tables)
      → HasResult id j (store_result_writes id j status at t)
  unfolding get_result Db.store_result Db.add_audit_event
  stored j status at t = (_, lookup-replace_self id _ t.results, refl)

  accept_result-HasResult : (j : Json) → Establishes (HasResult id j) (accept_result env id j)
  unfolding accept_result get_result Db.add_audit_event
  accept_result-HasResult j = Establishes-later _ λ run. Establishes-later _ λ status.
      Establishes-later _ λ provenance. Establishes-later _ λ _. Establishes-later _ λ at.
        Establishes-first (Establishes-run_in_transaction _ (stored j status at))
          (λ _. tail-Keeps env id (λ event actor payload at t h. h) j status provenance at)

  transition_task-HasState :
      (to : State) (actor : String) (details : Json)
      → Establishes (HasState id to) (transition_task env id to actor details)
  transition_task-HasState to actor details = record {
    at = λ w a h. elim (transition_task_lem env id to actor details w) [
      | inl (v, e, applied) ↦ (_, applied.row, set_state-state to _ applied.from)
      | inr (x, e, not_allowed) ↦ absurd (cc)
    ];
  }

  store_writes-HasState :
      (s : State) (j status : Json) (at : ℕ) (t : Tables)
      → HasState id s t
      → HasState id s (store_result_writes id j status at t)
  unfolding get_task Db.store_result Db.add_audit_event
  store_writes-HasState s j status at t h = h

  IsReported-HasOutcome : (j : Json) (t : Tables) → IsReported id j t → HasOutcome id j t
  IsReported-HasOutcome j t (run, status, e, f, h) = (
    run,
    status,
    e,
    f,
    λ same. state_as id (outcome_of-succeeded status same) t h,
    λ ne. state_as id (outcome_of-failed status ne) t h,
  )

  accept_result-IsReported : (j : Json) → Establishes (IsReported id j) (accept_result env id j)
  unfolding accept_result Db.add_audit_event Db.store_result get_task
  accept_result-IsReported j = Establishes-lift (index j "run") λ run run_ok.
      Establishes-lift (index run "status") λ status status_ok. Establishes-later _ λ provenance.
        Establishes-first
          (record {
            at = λ w a h. (
              run,
              status,
              run_ok,
              status_ok,
              (transition_task-HasState (outcome_of status) _ _).at w a h,
            );
          })
          (λ _. Keeps-bind (Keeps-utcnow env) λ at.
            Keeps-then (Keeps-run_in_transaction _ (λ t h. h))
              (tail-Keeps env id (λ event actor payload at t h. h) j status provenance at))

  known :
      (j : Json) (w : World) {row : ResultRow} {r : TaskRow}
      → get_result id w.live ≡ some row
      → get_task id w.live ≡ some r
      → record_result env id j w ≡ (ok (view_task w.live id), w)
  unfolding record_result known_view get_view view_task actions
  known j w h k = ground arith

  fresh :
      (j : Json) (w : World) {r : TaskRow}
      → get_result id w.live ≡ none
      → get_task id w.live ≡ some r
      → same_state r.state State.cancelled ≡ false
      → record_result env id j w ≡ accept_result env id j w
  unfolding record_result require_task actions
  fresh j w h k open_ = ground arith

  cancelled_ignored :
      (j : Json) (w : World) {r : TaskRow}
      → get_result id w.live ≡ none
      → get_task id w.live ≡ some r
      → same_state r.state State.cancelled ≡ true
      → record_result env id j w ≡ ignore_result env id j w
  unfolding record_result require_task actions
  cancelled_ignored j w h k same = ground arith

  -- The first result that is accepted for a task that is not cancelled is stored, and the task is
  -- then succeeded if the run's status is the text "succeeded", and failed if not.
  pub first_result :
      (j : Json) (w : World) {r : TaskRow} {v : Option TaskView}
      → get_result id w.live ≡ none
      → get_task id w.live ≡ some r
      → same_state r.state State.cancelled ≡ false
      → (record_result env id j w).0 ≡ ok v
      → HasResult id j (record_result env id j w).1.live
        × HasOutcome id j (record_result env id j w).1.live
  first_result j w {r} {v} h k open_ done =
      let same = fresh j w h k open_ in
      let done_ = rw same at done in
      rw same (
        (accept_result-HasResult j).at w v done_,
        IsReported-HasOutcome j (accept_result env id j w).1.live
            ((accept_result-IsReported j).at w v done_),
      )

  -- Any later result for that task, whatever it says, changes nothing at all and is answered with
  -- the task as it stands.
  pub later_results_ignored :
      (j k : Json) (w : World) {r : TaskRow} {v : Option TaskView}
      → get_result id w.live ≡ none
      → get_task id w.live ≡ some r
      → same_state r.state State.cancelled ≡ false
      → (record_result env id j w).0 ≡ ok v
      → let w' = (record_result env id j w).1 in
        record_result env id k w' ≡ (ok (view_task w'.live id), w')
  later_results_ignored j k w {v = v} h e open_ done =
      let same = fresh j w h e open_ in
      let done_ = rw same at done in
      let (row, stored_row, _) = (accept_result-HasResult j).at w v done_ in
      let (_, _, _, _, (task, found, _)) = (accept_result-IsReported j).at w v done_ in
      rw same (known k _ stored_row found)

  -- A result for a cancelled task, whatever it says, leaves every task, every queue item and every
  -- stored result as they were.
  pub cancelled_task_keeps :
      (j : Json) (w : World) {r : TaskRow}
      → get_result id w.live ≡ none
      → get_task id w.live ≡ some r
      → r.state ≡ State.cancelled
      → let t = (record_result env id j w).1.live in
        (t.tasks ≡ w.live.tasks) × (t.queue ≡ w.live.queue) × (t.results ≡ w.live.results)
  unfolding Db.add_audit_event
  cancelled_task_keeps j w {r} h k is_cancelled = rw (cancelled_ignored j w h k (rw is_cancelled)) (
      (ignore_result-Keeps
          {Q = λ t.
            (t.tasks ≡ w.live.tasks) × (t.queue ≡ w.live.queue) × (t.results ≡ w.live.results)}
          env id (λ event actor payload at t same. same) j).at
        w (refl, refl, refl))
