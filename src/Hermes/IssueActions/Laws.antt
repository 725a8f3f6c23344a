-- ===== src/Hermes/IssueActions/Laws.antt =====
-- hermes/issue_actions.py: the actions that write, and the class of tools that their requests grant.
use mathlib.Core.Path.{subst}
use agentopia.Prelude.{
  Bool, contains, if◌then◌else◌, ◌≡◌, refl, ap, ◌∙◌, ◌⊎◌, inl, inr, String, Option, none, some,
  true, false, List, ◌<>◌, [], ◌∷◌,
}
use agentopia.Prelude.Json.{
  Json, null, bool, str, obj, Fields, end, field, dict, truthy, or_else, find_field,
}
use agentopia.Python.{Except, ok, raise, Exception, get}
use agentopia.Hermes.Platform.{Host, jobs}
use agentopia.Hermes.Guards.{enforce_tool_permission, required_tool_class}
use agentopia.Hermes.Executor.{
  execute, outcome_of, run_task, run_valid, run_supported, supported, supported_task_types,
}
use agentopia.Hermes.Executor.Envelope.{Outcome, failed, envelope}
use agentopia.Hermes.IssueActions.{
  Wording, apply_wording, revert_wording, issue_request, execute_issue, run_issue, report_issue,
  source_of, act, handle_issue_action, dispatch_action,
}
use agentopia.Hermes.Executor.Memory.{text_for}
use agentopia.Hermes.Persistence.{persist_result, persist_run, audit_record, write_run}
use agentopia.Hermes.Station.Laws.{job_step, lift_step}
use agentopia.Hermes.Station.{Deployment, Station, works, utcnow, lift, ◌>>=◌}

abbrev pub IsWriteWording : Wording → Type 0
IsWriteWording w = (w.type ≡ "repo_write") ⊎ (w.type ≡ "file_revert")

denied :
    (w : Wording) (source at : String) (issue_id : Json) (fs : Fields)
    → IsWriteWording w
    → (e : Exception) × (enforce_tool_permission (issue_request w source at issue_id fs) w.type
        ≡ raise e)
unfolding enforce_tool_permission issue_request required_tool_class
denied w source at issue_id fs (inl e) = rw e (_, refl)
denied w source at issue_id fs (inr e) = rw e (_, refl)

some_if : (b : Bool) (t s : String) → (if b then some t else none) ≡ some s → t ≡ s
some_if true t s h = cc
some_if false t s h = absurd (cc)

module _ (d : Deployment) (request : Json) (h : Host) where
  -- A request whose tools are denied fails, and leaves the host as it is.
  run_supported_denied :
      (type : Json) (found : Option String) {e : Exception}
      → ((s : String) → found ≡ some s → enforce_tool_permission request s ≡ raise e)
      → (code : String) × (message : String) × (run_supported d.platform d.workspace request type
            false found h
          ≡ (ok (failed code message), h))
  unfolding run_task jobs
  run_supported_denied type none refused = (_, _, refl)
  run_supported_denied type (some s) refused = rw (refused s refl) (_, _, refl)

  outcome_denied :
      (type : String) {e : Exception}
      → enforce_tool_permission request type ≡ raise e
      → (code : String) × (message : String) × (outcome_of d.platform d.workspace request
            (str type)
            false
            h
          ≡ (ok (failed code message), h))
  unfolding outcome_of jobs
  outcome_denied type {e} refused = go (d.platform.validate request)
    where
      go :
          (errors : List String)
          → (code : String) × (message : String) × (run_valid d.platform d.workspace request
                (str type)
                false
                errors
                h
              ≡ (ok (failed code message), h))
      go (x ∷ xs) = (_, _, refl)
      go [] = run_supported_denied (str type) (supported (str type)) {e = e} (λ s same.
          subst (λ (s : String). enforce_tool_permission request s ≡ raise e)
            (some_if (contains supported_task_types type) type s same) refused)

execute_denied :
    (d : Deployment) (w : Wording) (source at : String) (issue_id : Json) (fs : Fields) (h : Host)
    → IsWriteWording w
    → (id trace : Json) × (code message : String) × (execute d.platform d.workspace
          (issue_request w source at issue_id fs)
          false
          h
        ≡ (ok (envelope d.platform id trace (failed code message)), h))
unfolding execute jobs issue_request
execute_denied d w source at issue_id fs h type =
    let request = issue_request w source at issue_id fs in
    let (e, refused) = denied w source at issue_id fs type in
    let (code, message, same) = outcome_denied d request h w.type refused in
    let id : Json = or_else (str (w.prefix <> source)) (str "task_invalid") in
    let trace = λ (id : Json).
      or_else (str ("trace-" <> w.prefix <> source)) (str ("trace_" <> text_for d.platform id)) in
    (
      id,
      trace id,
      code,
      message,
      ap
          (λ (p : Except Outcome × Host). elim p.0 [
            | ok o ↦ (ok (envelope d.platform id (trace id) o), p.1)
            | raise x ↦ (raise x, p.1)
          ])
          same,
    )

-- A failure is reported as refused.
report_failed :
    (d : Deployment) (w : Wording) (issue_id id trace : Json) (code message : String) (s : Station)
    → let r = report_issue d w issue_id (envelope d.platform id trace (failed code message)) s in
      (j : Json) × (r.0 ≡ ok j) × (get j "ok" ≡ ok (bool false)) × (r.1.host ≡ s.host)
unfolding report_issue persist_result persist_run audit_record write_run envelope works
report_failed d w issue_id id trace code message s = (_, refl, refl, refl)

run_issue_denied :
    (d : Deployment) (w : Wording) (source at : String) (issue_id : Json) (fs : Fields)
    (s : Station)
    → IsWriteWording w
    → let r = run_issue d w issue_id (issue_request w source at issue_id fs) s in
      (j : Json) × (r.0 ≡ ok j) × (get j "ok" ≡ ok (bool false)) × (r.1.host ≡ s.host)
unfolding run_issue
run_issue_denied d w source at issue_id fs s type =
    let (id, trace, code, message, same) = execute_denied d w source at issue_id fs s.host type in
    let step =
      job_step (report_issue d w issue_id)
        (execute d.platform d.workspace (issue_request w source at issue_id fs) false) s same in
    rw step (report_failed d w issue_id id trace code message s)

get_obj : (fs : Fields) (k : String) → (v : Json) × (get (obj fs) k ≡ ok v)
get_obj fs k =
    elim (find_field k fs)
      as (λ o. (v : Json) × (elim o [ none ↦ ok null | some v ↦ ok v ] ≡ ok v)) [
        | none ↦ (null, refl)
        | some v ↦ (v, refl)
      ]

execute_issue_denied :
    (d : Deployment) (w : Wording) (issue_id : Json) (fs : Fields) (s : Station)
    → IsWriteWording w
    → let r = execute_issue d w issue_id (obj fs) s in
      (j : Json) × (r.0 ≡ ok j) × (get j "ok" ≡ ok (bool false)) × (r.1.host ≡ s.host)
unfolding execute_issue works
execute_issue_denied d w issue_id fs s type =
    let (v, found) = get_obj fs "source_run_id" in
    let at = d.clock s.store.ticks in
    let s1 : Station = (utcnow d s).1 in
    let same : execute_issue d w issue_id (obj fs) s
        ≡ run_issue d w issue_id (issue_request w (source_of d v) at issue_id fs) s1 =
      lift_step
        (λ found. run_issue d w issue_id (issue_request w (source_of d found) at issue_id fs))
        (get (obj fs) "source_run_id") s1 found in
    rw same (run_issue_denied d w (source_of d v) at issue_id fs s1 type)

or_else-obj : (fs : Fields) → or_else (obj fs) (dict []) ≡ obj fs
or_else-obj end = refl
or_else-obj (field k v fs) = refl

abbrev pub IsWriteAction : String → Type 0
IsWriteAction a = (a ≡ "apply_preview") ⊎ (a ≡ "file_revert")

or_else-write : (a : String) → IsWriteAction a → or_else (str a) (str "") ≡ str a
or_else-write a (inl e) = rw e
or_else-write a (inr e) = rw e

dispatch_denied :
    (d : Deployment) (a : String) (issue_id : Json) (fs : Fields) (s : Station)
    → IsWriteAction a
    → let r = dispatch_action d (str a) issue_id (obj fs) s in
      (j : Json) × (r.0 ≡ ok j) × (get j "ok" ≡ ok (bool false)) × (r.1.host ≡ s.host)
unfolding dispatch_action
dispatch_denied d a issue_id fs s (inl e) =
    rw e (
      execute_issue_denied d (apply_wording (text_for d.platform issue_id)) issue_id fs s
        (inl refl))
dispatch_denied d a issue_id fs s (inr e) = rw e (
    execute_issue_denied d (revert_wording (text_for d.platform issue_id)) issue_id fs s (inr refl))

-- Whatever an issue is asked to apply or to revert, with a dictionary as its context, the answer is a
-- refusal, and the executor's host is as before: none of its files is changed and no command is run.
-- Of var/hermes, where the failed run and an audit line are recorded, nothing is said.
pub write_actions_refused :
    (d : Deployment) (payload issue_id : Json) (a : String) (fs : Fields) (s : Station)
    → get payload "issue_id" ≡ ok issue_id
    → truthy issue_id ≡ true
    → get payload "action" ≡ ok (str a)
    → IsWriteAction a
    → get payload "context" ≡ ok (obj fs)
    → let r = handle_issue_action d payload s in
      (j : Json) × (r.0 ≡ ok j) × (get j "ok" ≡ ok (bool false)) × (r.1.host ≡ s.host)
unfolding handle_issue_action act
write_actions_refused d payload issue_id a fs s issue named action type context =
    let last =
      λ (i g c : Json). act d (or_else i (str "")) (or_else g (str "")) (or_else c (dict [])) in
    let same : handle_issue_action d payload s ≡ last issue_id (str a) (obj fs) s =
      lift_step
        (λ i. lift (get payload "action") >>= λ g. lift (get payload "context") >>= λ c. last i g c)
        (get payload "issue_id") s issue
      ∙ lift_step (λ g. lift (get payload "context") >>= λ c. last issue_id g c)
          (get payload "action") s action
      ∙ lift_step (λ c. last issue_id (str a) c) (get payload "context") s context in
    rw (same, named, named, or_else-obj fs, or_else-write a type)
      (dispatch_denied d a issue_id fs s type)
