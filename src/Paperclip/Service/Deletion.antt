-- ===== src/Paperclip/Service/Deletion.antt =====
-- `delete_task`: what is gone, and what is left alone.
use agentopia.Prelude.{
  ◌≡◌, refl, ap, ◌≢◌, String, Bool, none, some, true, false, if◌then◌else◌, List, [], ◌∷◌, arith,
  ◌==◌, eq_iff, select, Option-cases, inl, inr,
}
use agentopia.Prelude.Table.{Table, lookup, lookup-remove_self, lookup-remove_ne}
use agentopia.Python.{ok}
use agentopia.Hermes.Platform.{FilePath}
use agentopia.Hermes.Files.Paths.{is_below, is_below-append}
use agentopia.Paperclip.Db.{
  Tables, TaskRow, AuditEvent, IdempotencyRow, get_task, get_queue_item, get_result,
  get_audit_events, get_idempotent_task_id, drop_events_of, drop_keys_of, delete_task_data,
}
use agentopia.Paperclip.Service.World.{World, Surroundings, actions, task_dir, result_path}
use agentopia.Paperclip.Service.Results.{delete_task}

select-drop_events_self :
    (id : String) (es : List AuditEvent) → select (λ e. e.task_id == id) (drop_events_of id es) ≡ []
select-drop_events_self id [] = refl
select-drop_events_self id (e ∷ es) = ground (arith, select-drop_events_self id es)

select-drop_events_ne :
    (id j : String) (es : List AuditEvent)
    → j ≢ id
    → select (λ e. e.task_id == j) (drop_events_of id es) ≡ select (λ e. e.task_id == j) es
select-drop_events_ne id j [] ne = refl
select-drop_events_ne id j (e ∷ es) ne =
    ground (arith, select-drop_events_ne id j es ne, eq_iff e.task_id id, eq_iff e.task_id j)

lookup-drop_keys :
    (id key : String) (t : Table IdempotencyRow) {r : IdempotencyRow}
    → lookup key (drop_keys_of id t) ≡ some r
    → r.task_id ≢ id
unfolding lookup
lookup-drop_keys id key [] h e = cc
lookup-drop_keys id key ((k, row) ∷ t) {r} h e =
    ground (arith, lookup-drop_keys id key t {r = r}, eq_iff row.task_id id, eq_iff k key)

-- Nothing of a task is left in the tables.
pub record IsGone (id : String) (t : Tables) : Type 0 where
  pub task : get_task id t ≡ none
  pub item : get_queue_item id t ≡ none
  pub result : get_result id t ≡ none
  pub events : get_audit_events id t ≡ []
  pub keys : (key : String) → get_idempotent_task_id key t ≢ some id

-- Whatever the tables keep of a task is as it was.
pub record IsSame (id : String) (t t' : Tables) : Type 0 where
  pub task : get_task id t' ≡ get_task id t
  pub item : get_queue_item id t' ≡ get_queue_item id t
  pub result : get_result id t' ≡ get_result id t
  pub events : get_audit_events id t' ≡ get_audit_events id t
  pub keys :
      (key : String)
      → get_idempotent_task_id key t ≡ some id
      → get_idempotent_task_id key t' ≡ some id

key-IsGone :
    (id key : String) (t : Table IdempotencyRow)
    → elim (lookup key (drop_keys_of id t)) [ none ↦ none | some r ↦ some r.task_id ] ≢ some id
key-IsGone id key t e = elim (Option-cases (lookup key (drop_keys_of id t))) [
  | inl missing ↦ ground arith
  | inr (r, h) ↦ lookup-drop_keys id key t h (ground arith)
]

key-kept :
    (id j key : String) (t : Table IdempotencyRow)
    → j ≢ id
    → elim (lookup key t) [ none ↦ none | some r ↦ some r.task_id ] ≡ some j
    → elim (lookup key (drop_keys_of id t)) [ none ↦ none | some r ↦ some r.task_id ] ≡ some j
unfolding lookup
key-kept id j key [] ne e = e
key-kept id j key ((k, row) ∷ t) ne e =
    ground (arith, key-kept id j key t ne, eq_iff row.task_id id, eq_iff k key)

delete_task_data-IsGone : (id : String) (t : Tables) → IsGone id (delete_task_data id t)
unfolding delete_task_data get_task get_queue_item get_result get_audit_events
    get_idempotent_task_id
delete_task_data-IsGone id t = record {
  task = lookup-remove_self id t.tasks;
  item = lookup-remove_self id t.queue;
  result = lookup-remove_self id t.results;
  events = select-drop_events_self id t.audit_events;
  keys = λ key e. key-IsGone id key t.idempotency e;
}

delete_task_data-IsSame : (id j : String) (t : Tables) → j ≢ id → IsSame j t (delete_task_data id t)
unfolding delete_task_data get_task get_queue_item get_result get_audit_events
    get_idempotent_task_id
delete_task_data-IsSame id j t ne = record {
  task = lookup-remove_ne id j t.tasks ne;
  item = lookup-remove_ne id j t.queue ne;
  result = lookup-remove_ne id j t.results ne;
  events = select-drop_events_ne id j t.audit_events ne;
  keys = λ key e. key-kept id j key t.idempotency ne e;
}

delete_task_found :
    (env : Surroundings) (id : String) (w : World) {r : TaskRow}
    → get_task id w.live ≡ some r
    → ((delete_task env id w).0 ≡ ok true)
      × ((delete_task env id w).1.live ≡ delete_task_data id w.live)
      × ((delete_task env id w).1.disk ≡ delete_task_data id w.live)
      × ((delete_task env id w).1.files ≡ λ q. if is_below (task_dir id) q then none else w.files q)
unfolding delete_task actions
delete_task_found env id w h = ground arith

removed :
    (id : String) (w : World)
    → (if is_below (task_dir id) (result_path id) then none else w.files (result_path id)) ≡ none
removed id w = rw (is_below-append (task_dir id) ("result.json" ∷ []) (λ e. cc)) refl

-- Deleting a task that exists answers true and leaves no row, item, result, event or idempotency key
-- of it, in what is read and in what is committed, and no result file of it. The row, the item, the
-- result, the events and the idempotency keys of every other task are as before, and so is every
-- result file that is not below the task's directory.
pub delete_task_lem :
    (env : Surroundings) (id : String) (w : World) {r : TaskRow}
    → get_task id w.live ≡ some r
    → let w' = (delete_task env id w).1 in
      ((delete_task env id w).0 ≡ ok true)
      × IsGone id w'.live
      × (w'.disk ≡ w'.live)
      × (w'.files (result_path id) ≡ none)
      × ((j : String) → j ≢ id → IsSame j w.live w'.live)
      × ((q : FilePath) → is_below (task_dir id) q ≡ false → w'.files q ≡ w.files q)
delete_task_lem env id w h =
    let (done, live, disk, files) = delete_task_found env id w h in
    rw (live, disk, files)
      (
        done,
        delete_task_data-IsGone id w.live,
        refl,
        removed id w,
        λ j ne. delete_task_data-IsSame id j w.live ne,
        λ q out. ap (λ (b : Bool). if b then none else w.files q) out,
      )
