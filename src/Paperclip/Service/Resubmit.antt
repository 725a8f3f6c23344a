-- ===== src/Paperclip/Service/Resubmit.antt =====
-- A submission under an idempotency key that has been used.
use mathlib.Core.Path.{subst}
use agentopia.Prelude.{ℕ, ◌≡◌, String, Option, none, some, false, List, ◌==◌, arith}
use agentopia.Prelude.Json.{Json}
use agentopia.Python.{ok}
use agentopia.Paperclip.Db.{Tables, get_task, get_idempotent_task_id}
use agentopia.Paperclip.Service.World.{World, Surroundings, actions, ◌>>◌}
use agentopia.Paperclip.Service.Views.{TaskView, view_task}
use agentopia.Paperclip.Service.Payload.{TaskFields, read_task}
use agentopia.Paperclip.Service.Queue.{get_view}
use agentopia.Paperclip.Service.Intake.{
  TenantContext, submit_task, submit_new, find_by_key, register, route, new_record, note_key,
  note_approval,
}
use agentopia.Paperclip.Service.Keeps.{
  Keeps-get_view, Keeps-then, Keeps-if, Keeps-pure, Keeps-trace,
}
use agentopia.Paperclip.Service.Establishes.{
  Establishes, Establishes-later, Establishes-first, Establishes-lift, Establishes-execute_checked,
}
use agentopia.Paperclip.Service.Stable.{Lasting, audit}
use agentopia.Paperclip.Service.Stable.Intake.{note_webhook-Keeps, note_key-Keeps, route-Keeps}
use agentopia.Paperclip.Service.Runs.{Call, run, run-Lasting, HasNoDeletion}
use agentopia.Paperclip.Service.Known.{
  HasTask, IsTaken, HasTask-Lasting, IsTaken-Lasting, created-HasTask, keyed-IsTaken,
}

note_key-IsTaken :
    (env : Surroundings) (id key : String) (at : ℕ)
    → key == "" ≡ false
    → Establishes (IsTaken key id) (note_key id (some key) at)
unfolding note_key
note_key-IsTaken env id key at ne = rw ne (
    Establishes-first (Establishes-execute_checked _ (keyed-IsTaken key id at))
      (λ _. audit (IsTaken-Lasting key id) env id _ _ _ at))

module _ (env : Surroundings) (f : TaskFields) (payload : Json) (ctx : TenantContext) (key : String)
    (webhook : Option String) where
  register-HasTask : Establishes (HasTask f.id) (register env f payload ctx (some key) webhook)
  unfolding register note_approval
  register-HasTask =
      let s = HasTask-Lasting f.id in
      Establishes-later _ λ at.
        Establishes-first
          (Establishes-execute_checked _ (created-HasTask (new_record f payload ctx at)))
          (λ _. Keeps-then (audit s env f.id _ _ _ at) (
            Keeps-then (note_webhook-Keeps s env f.id webhook at) (
              Keeps-then (note_key-Keeps s env f.id (some key) at) (
                Keeps-then
                  (Keeps-if f.approval_required (audit s env f.id _ _ _ at) (Keeps-pure tt))
                  (Keeps-trace env f.trace_id _ _ _)))))

  register-IsTaken :
      key == "" ≡ false
      → Establishes (IsTaken key f.id) (register env f payload ctx (some key) webhook)
  unfolding register note_approval
  register-IsTaken ne =
      let s = IsTaken-Lasting key f.id in
      Establishes-later _ λ at. Establishes-later _ λ _. Establishes-later _ λ _.
        Establishes-later _ λ _. Establishes-first (note_key-IsTaken env f.id key at ne) (λ _.
          Keeps-then (Keeps-if f.approval_required (audit s env f.id _ _ _ at) (Keeps-pure tt))
            (Keeps-trace env f.trace_id _ _ _))

  submit_new-Establishes :
      {Q : Tables → Type 0}
      → Lasting Q
      → read_task payload ≡ some f
      → Establishes Q (register env f payload ctx (some key) webhook)
      → Establishes Q (submit_new env payload ctx (some key) webhook)
  unfolding submit_new
  submit_new-Establishes {Q} s read er = Establishes-later _ λ _. rw read (
      Establishes-lift (ok f) λ g same.
        let read_same : f ≡ g = cc in
        subst
          (λ g.
            Establishes Q
              (register env g payload ctx (some key) webhook >> (route env g >> get_view g.id)))
          read_same
          (Establishes-first er (λ _. Keeps-then (route-Keeps s env f) (Keeps-get_view f.id))))

known_key :
    (env : Surroundings) (payload : Json) (ctx : TenantContext) (key : String)
    (webhook : Option String) (id : String) (w : World)
    → key == "" ≡ false
    → id == "" ≡ false
    → HasTask id w.live
    → IsTaken key id w.live
    → submit_task env payload ctx (some key) webhook w ≡ (ok (view_task w.live id), w)
unfolding submit_task find_by_key get_view view_task actions get_idempotent_task_id get_task
known_key env payload ctx key webhook id w ne named (row, h) (k, taken, same) = ground arith

new_key :
    (env : Surroundings) (payload : Json) (ctx : TenantContext) (key : String)
    (webhook : Option String) (w : World)
    → get_idempotent_task_id key w.live ≡ none
    → submit_task env payload ctx (some key) webhook w
      ≡ submit_new env payload ctx (some key) webhook w
unfolding submit_task find_by_key actions
new_key env payload ctx key webhook w h = ground arith

-- What `submit_new` establishes, `submit_task` establishes under a key that is free.
submit_task-Establishes :
    (env : Surroundings) (f : TaskFields) (payload : Json) (ctx : TenantContext) (key : String)
    (webhook : Option String) {Q : Tables → Type 0} (w : World) {v : Option TaskView}
    → Establishes Q (submit_new env payload ctx (some key) webhook)
    → get_idempotent_task_id key w.live ≡ none
    → (submit_task env payload ctx (some key) webhook w).0 ≡ ok v
    → Q (submit_task env payload ctx (some key) webhook w).1.live
submit_task-Establishes env f payload ctx key webhook w {v} en free done =
    let same = new_key env payload ctx key webhook w free in rw same (en.at w v (rw same at done))

-- Once a submission under a new, non-empty idempotency key, of a task whose id is not empty, has
-- returned, and after any calls of the service but deletions, a submission under that key, whatever
-- it holds, is answered with the first task as it stands and changes nothing.
pub resubmit :
    (env : Surroundings) (f : TaskFields) (payload again : Json) (ctx other : TenantContext)
    (key : String) (webhook later : Option String) (cs : List Call) (w : World)
    {v : Option TaskView}
    → key == "" ≡ false
    → f.id == "" ≡ false
    → read_task payload ≡ some f
    → get_idempotent_task_id key w.live ≡ none
    → (submit_task env payload ctx (some key) webhook w).0 ≡ ok v
    → HasNoDeletion cs
    → let w' = run env cs (submit_task env payload ctx (some key) webhook w).1 in
      submit_task env again other (some key) later w' ≡ (ok (view_task w'.live f.id), w')
resubmit env f payload again ctx other key webhook later cs w ne named read free done kept =
    let s = HasTask-Lasting f.id in
    let k = IsTaken-Lasting key f.id in
    let w1 = (submit_task env payload ctx (some key) webhook w).1 in
    known_key env again other key later f.id (run env cs w1) ne named
      (run-Lasting s env cs w1 kept (
        submit_task-Establishes env f payload ctx key webhook w
          (submit_new-Establishes env f payload ctx key webhook s read
            (register-HasTask env f payload ctx key webhook))
          free done))
      (run-Lasting k env cs w1 kept (
        submit_task-Establishes env f payload ctx key webhook w
          (submit_new-Establishes env f payload ctx key webhook k read
            (register-IsTaken env f payload ctx key webhook ne))
          free done))
