-- ===== src/Paperclip/Postgres.antt =====
-- paperclip/postgres_db.py: the methods of paperclip/db.py on a connection of psycopg. The statements
-- do to the tables what those of db.py do, where the foreign keys of the schema allow it; rows of the
-- same time stand in the order of db.py, which Postgres leaves open.
pub mod Laws
pub mod Does
pub mod Refinement
mod Tests
use agentopia.Prelude.{ℕ, suc, String, Option, none, some, List, [], ◌∷◌}
use agentopia.Prelude.Table.{remove}
use agentopia.Prelude.Json.{Json, str, obj, of_pairs, Fields, merge, dict}
use agentopia.Python.{Except, ok, raise, exception, Exception, Kind}
use agentopia.Paperclip.StateMachine.{State, state_name}
use agentopia.Paperclip.Db
use agentopia.Paperclip.Db.{
  Tables, TaskRecord, TaskRow, AuditEvent, QueueItem, QueueStatus, ResultRow,
}

-- What the program uses of a connection: the tables that its statements see, a statement that writes,
-- `commit`, and the two ends of `with conn.transaction()`, the second with an exception or without.
pub record Connection (Conn : Type 0) : Type 0 where
  pub tables : Conn → Tables
  pub execute : (Tables → Except Tables) → Conn → Except (Unit {0}) × Conn
  pub commit : Conn → Except (Unit {0}) × Conn
  pub begin : Conn → Conn
  pub finish : Conn → Conn
  pub abandon : Conn → Conn

abbrev pub Call : Type 0 → Type 0 → Type 0
Call Conn A = Conn → Except A × Conn

infixl 5 ◌>>◌
unfoldable pub ◌>>◌ : {Conn A : Type 0} → Call Conn (Unit {0}) → Call Conn A → Call Conn A
◌>>◌ m k s = let (r, s') = m s in elim r [ ok _ ↦ k s' | raise e ↦ (raise e, s') ]

-- `FOREIGN KEY(task_id) REFERENCES tasks(id)`, which Postgres checks and db.py's connection does not.
abbrev pub references : String → (Tables → Except Tables) → Tables → Except Tables
references id f t = elim (Db.get_task id t) [
  | none ↦ raise (exception Kind.integrity "insert or update violates foreign key constraint")
  | some row ↦ f t
]

module _ {Conn : Type 0} (conn : Connection Conn) where
  -- `with self.conn.transaction(): operations(self)`
  unfoldable pub run_in_transaction : Call Conn (Unit {0}) → Call Conn (Unit {0})
  run_in_transaction operations s =
      let (r, s') = operations (conn.begin s) in
      elim r [ ok _ ↦ (ok tt, conn.finish s') | raise e ↦ (raise e, conn.abandon s') ]

  -- A statement that no constraint refuses.
  unfoldable pub write : (Tables → Tables) → Call Conn (Unit {0})
  write f = conn.execute (λ t. ok (f t))

  -- A statement that writes a row with a task's id, which the schema declares a foreign key: it is
  -- refused where there is no such task.
  unfoldable pub write_for : String → (Tables → Except Tables) → Call Conn (Unit {0})
  write_for id f = conn.execute (references id f)

  unfoldable pub read : {A : Type 0} → (Tables → A) → Call Conn A
  read f s = (ok (f (conn.tables s)), s)

  unfoldable pub create_task : TaskRecord → Call Conn (Unit {0})
  create_task r = conn.execute (Db.create_task r) >> conn.commit

  unfoldable pub get_task : String → Call Conn (Option TaskRow)
  get_task id = read (Db.get_task id)

  unfoldable pub update_task_state : String → State → ℕ → Option String → Call Conn (Unit {0})
  update_task_state id s at approval = write (Db.update_task_state id s at approval) >> conn.commit

  unfoldable pub add_audit_event : String → String → String → Json → ℕ → Call Conn (Unit {0})
  add_audit_event id event actor payload at =
      write_for id (λ t. ok (Db.add_audit_event id event actor payload at t)) >> conn.commit

  unfoldable pub get_audit_events : String → Call Conn (List AuditEvent)
  get_audit_events id = read (Db.get_audit_events id)

  unfoldable pub list_tasks : Call Conn (List TaskRow)
  list_tasks = read Db.list_tasks

  unfoldable pub enqueue_task : String → Option String → ℕ → ℕ → Call Conn (Unit {0})
  enqueue_task id correlation at max_attempts =
      write_for id (λ t. ok (Db.enqueue_task id correlation at max_attempts t)) >> conn.commit

  unfoldable pub claim_queue_item : String → String → ℕ → ℕ → Call Conn (Unit {0})
  claim_queue_item id worker expires at =
      write (Db.claim_queue_item id worker expires at) >> conn.commit

  unfoldable pub mark_queue_running : String → ℕ → ℕ → ℕ → Call Conn (Unit {0})
  mark_queue_running id started timeout at = write (Db.mark_queue_running id started timeout at)

  unfoldable pub mark_queue_timed_out : String → String → ℕ → Call Conn (Unit {0})
  mark_queue_timed_out id error at = write (Db.mark_queue_timed_out id error at)

  unfoldable pub reset_queue_to_queued : String → ℕ → Call Conn (Unit {0})
  reset_queue_to_queued id at = write (Db.reset_queue_to_queued id at)

  unfoldable pub mark_queue_retry : String → ℕ → ℕ → String → ℕ → Call Conn (Unit {0})
  mark_queue_retry id attempts next error at = write (Db.mark_queue_retry id attempts next error at)

  unfoldable pub mark_queue_dead_letter : String → ℕ → String → ℕ → Call Conn (Unit {0})
  mark_queue_dead_letter id attempts error at =
      write (Db.mark_queue_dead_letter id attempts error at)

  unfoldable pub mark_queue_dispatched : String → ℕ → Call Conn (Unit {0})
  mark_queue_dispatched id at = write (Db.mark_queue_dispatched id at) >> conn.commit

  unfoldable pub get_queue_item : String → Call Conn (Option QueueItem)
  get_queue_item id = read (Db.get_queue_item id)

  unfoldable pub list_queue_items : Option QueueStatus → Call Conn (List QueueItem)
  list_queue_items status = read (Db.list_queue_items status)

  unfoldable pub create_idempotency_record : String → String → ℕ → Call Conn (Unit {0})
  create_idempotency_record key id at = write_for id (Db.create_idempotency_record key id at)

  unfoldable pub get_idempotent_task_id : String → Call Conn (Option String)
  get_idempotent_task_id key = read (Db.get_idempotent_task_id key)

  unfoldable pub store_result : String → Json → ℕ → Call Conn (Unit {0})
  store_result id payload at = write_for id (λ t. ok (Db.store_result id payload at t))

  unfoldable pub get_result : String → Call Conn (Option ResultRow)
  get_result id = read (Db.get_result id)

  -- The five statements in their order: no foreign key names the task any more where its row goes.
  unfoldable pub delete_task_data : String → Call Conn (Unit {0})
  delete_task_data id = run_in_transaction (
      write (λ t. record t { idempotency = Db.drop_keys_of id t.idempotency })
      >> write (λ t. record t { results = remove id t.results })
      >> write (λ t. record t { queue = remove id t.queue })
      >> write (λ t. record t { audit_events = Db.drop_events_of id t.audit_events })
      >> write (λ t. record t { tasks = remove id t.tasks }))

  -- `{"state": state, **details}`
  abbrev pub state_details : State → Fields → Json
  state_details s details = obj (merge (of_pairs (("state", str (state_name s)) ∷ [])) details)

  unfoldable pub transition_task_with_audit :
      String → State → ℕ → String → Fields → Option String → Call Conn (Unit {0})
  transition_task_with_audit id s at actor details approval = run_in_transaction (
      update_task_state id s at approval
      >> add_audit_event id "state_changed" actor (state_details s details) at)

  unfoldable pub store_result_with_audit : String → Json → String → ℕ → Call Conn (Unit {0})
  store_result_with_audit id result status at = run_in_transaction (
      store_result id result at
      >> add_audit_event id "result_recorded" "paperclip" (dict (("status", str status) ∷ [])) at)
