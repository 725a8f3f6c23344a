-- ===== src/Paperclip/Service/Known.antt =====
-- The rows of a task and of an idempotency key, under the writes that are no deletion.
use agentopia.Prelude.{
  ℕ, ◌≡◌, refl, String, Option, none, some, [], ◌∷◌, ◌==◌, arith, ap, ◌∙◌, eq_refl, if◌then◌else◌,
}
use agentopia.Prelude.Table.{Table, lookup, update, append_row, lookup-append_row, lookup-update}
use agentopia.Python.{ok}
use agentopia.Paperclip.Db
use agentopia.Paperclip.Db.{
  Tables, TaskRow, TaskRecord, IdempotencyRow, row_of, get_task, get_idempotent_task_id,
  create_idempotency_record,
}
use agentopia.Paperclip.Service.Stable.{Lasting}

-- The task is there.
abbrev pub HasTask : String → Tables → Type 0
HasTask id t = (row : TaskRow) × (lookup id t.tasks ≡ some row)

-- The key stands for the task.
abbrev pub IsTaken : String → String → Tables → Type 0
IsTaken key id t =
    (row : IdempotencyRow) × (lookup key t.idempotency ≡ some row) × (row.task_id ≡ id)

-- A row that is there stays the first under its key.
append_row-kept :
    {V : Type 0} (k j : String) (v u : V) (t : Table V)
    → lookup j t ≡ some u
    → lookup j (append_row k v t) ≡ some u
unfolding lookup append_row
append_row-kept k j v u [] h = absurd (cc)
append_row-kept k j v u ((i, w) ∷ t) h = ground (arith, append_row-kept k j v u t)

update-kept :
    {V : Type 0} (k j : String) (f : V → V) (t : Table V) {v : V}
    → lookup j t ≡ some v
    → (v' : V) × (lookup j (update k f t) ≡ some v')
update-kept k j f t {v} h = ((if k == j then f v else v), ground (arith, lookup-update k j f t))

created :
    (r : TaskRecord) (t t' : Tables)
    → Db.create_task r t ≡ ok t'
    → (row : TaskRow) × (lookup r.id t.tasks ≡ none)
      × (t'.tasks ≡ append_row r.id row t.tasks)
      × (t'.idempotency ≡ t.idempotency)
unfolding Db.create_task
created r t t' e = go (lookup r.id t.tasks) refl r.tenant_id refl r.org_id refl r.client_id refl
  where
    go :
        (found : Option TaskRow)
        → lookup r.id t.tasks ≡ found
        → (a : Option String) → r.tenant_id ≡ a
        → (b : Option String) → r.org_id ≡ b
        → (c : Option String) → r.client_id ≡ c
        → (row : TaskRow) × (lookup r.id t.tasks ≡ none)
          × (t'.tasks ≡ append_row r.id row t.tasks)
          × (t'.idempotency ≡ t.idempotency)
    go none h (some a) ha (some b) hb (some c) hc = (row_of r a b c, h, ground arith, ground arith)
    go (some _) h _ ha _ hb _ hc = absurd (ground arith)
    go none h none ha _ hb _ hc = absurd (ground arith)
    go none h (some _) ha none hb _ hc = absurd (ground arith)
    go none h (some _) ha (some _) hb none hc = absurd (ground arith)

keyed :
    (k i : String) (at : ℕ) (t t' : Tables)
    → create_idempotency_record k i at t ≡ ok t'
    → (lookup k t.idempotency ≡ none)
      × (t'.idempotency ≡ append_row k (record { task_id = i; created_at = at }) t.idempotency)
      × (t'.tasks ≡ t.tasks)
unfolding create_idempotency_record
keyed k i at t t' e = (ground arith, ground arith, ground arith)

pub HasTask-Lasting : (id : String) → Lasting (HasTask id)
unfolding Db.update_task_state Db.add_audit_event Db.enqueue_task Db.claim_queue_item
    Db.mark_queue_dispatched Db.mark_queue_running Db.mark_queue_timed_out Db.reset_queue_to_queued
    Db.mark_queue_retry Db.mark_queue_dead_letter Db.mark_queue_cancelled Db.store_result
HasTask-Lasting id = record {
  create_task = λ r t t' (row, h) e.
      let (new, _, tasks, _) = created r t t' e in
      (row, ap (lookup id) tasks ∙ append_row-kept r.id id new row t.tasks h);
  create_idempotency_record = λ k i at t t' (row, h) e.
      let (_, _, tasks) = keyed k i at t t' e in (row, ap (lookup id) tasks ∙ h);
  update_task_state = λ id' s at a t (row, h). update-kept id' id _ t.tasks h;
  add_audit_event = λ id' event actor payload at t h. h;
  enqueue_task = λ id' c at max t h. h;
  claim_queue_item = λ id' worker expires at t h. h;
  running_dispatched = λ id' started timeout at at' t h. h;
  mark_queue_timed_out = λ id' error at t h. h;
  reset_queue_to_queued = λ id' at t h. h;
  mark_queue_retry = λ id' n next error at t h. h;
  mark_queue_dead_letter = λ id' n error at t h. h;
  mark_queue_cancelled = λ id' at error t h. h;
  store_result = λ id' j at t h. h;
}

pub IsTaken-Lasting : (key id : String) → Lasting (IsTaken key id)
unfolding Db.update_task_state Db.add_audit_event Db.enqueue_task Db.claim_queue_item
    Db.mark_queue_dispatched Db.mark_queue_running Db.mark_queue_timed_out Db.reset_queue_to_queued
    Db.mark_queue_retry Db.mark_queue_dead_letter Db.mark_queue_cancelled Db.store_result
IsTaken-Lasting key id = record {
  create_task = λ r t t' (row, h, same) e.
      let (_, _, _, keys) = created r t t' e in (row, ap (lookup key) keys ∙ h, same);
  create_idempotency_record = λ k i at t t' (row, h, same) e.
      let (_, keys, _) = keyed k i at t t' e in
      (row, ap (lookup key) keys ∙ append_row-kept k key _ row t.idempotency h, same);
  update_task_state = λ id' s at a t h. h;
  add_audit_event = λ id' event actor payload at t h. h;
  enqueue_task = λ id' c at max t h. h;
  claim_queue_item = λ id' worker expires at t h. h;
  running_dispatched = λ id' started timeout at at' t h. h;
  mark_queue_timed_out = λ id' error at t h. h;
  reset_queue_to_queued = λ id' at t h. h;
  mark_queue_retry = λ id' n next error at t h. h;
  mark_queue_dead_letter = λ id' n error at t h. h;
  mark_queue_cancelled = λ id' at error t h. h;
  store_result = λ id' j at t h. h;
}

pub created-HasTask :
    (r : TaskRecord) (t t' : Tables) → Db.create_task r t ≡ ok t' → HasTask r.id t'
created-HasTask r t t' e =
    let (new, fresh, tasks, _) = created r t t' e in
    (
      new,
      ap (lookup r.id) tasks
          ∙ rw (lookup-append_row r.id r.id new t.tasks fresh, eq_refl r.id) refl,
    )

pub keyed-IsTaken :
    (k i : String) (at : ℕ) (t t' : Tables)
    → create_idempotency_record k i at t ≡ ok t'
    → IsTaken k i t'
keyed-IsTaken k i at t t' e =
    let (fresh, keys, _) = keyed k i at t t' e in
    let row : IdempotencyRow = record { task_id = i; created_at = at } in
    (
      row,
      ap (lookup k) keys ∙ rw (lookup-append_row k k row t.idempotency fresh, eq_refl k) refl,
      refl,
    )
