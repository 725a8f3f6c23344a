-- ===== src/Paperclip/Postgres/Refinement.antt =====
-- The writes of paperclip/postgres_db.py that do not fail, against those of paperclip/db.py.
use agentopia.Prelude.{
  ◌≡◌, refl, ap, ◌∙◌, ℕ, String, Option, none, some, Bool, true, false, ◌&&◌, List, [], ◌∷◌,
}
use agentopia.Prelude.Json.{Json}
use agentopia.Python.{Except, ok, raise, exception, Kind}
use agentopia.Paperclip.StateMachine.{State}
use agentopia.Paperclip.Db
use agentopia.Paperclip.Db.{Tables, TaskRecord, TaskRow}
use agentopia.Paperclip.Postgres
use agentopia.Paperclip.Postgres.{Connection, Call, run_in_transaction, write, write_for, ◌>>◌}
use agentopia.Paperclip.Postgres.Laws.{IsDocumented}
use agentopia.Paperclip.Postgres.Does.{
  Does, execute-Does, executed-Does, then, Does-then, Does-transaction, write-Does, committed-Does,
}

-- The writes outside of a transaction of the caller.
pub data Write : Type 0 where
  creates : TaskRecord → Write
  sets_state : String → State → ℕ → Option String → Write
  adds_event : String → String → String → Json → ℕ → Write
  enqueues : String → Option String → ℕ → ℕ → Write
  claims : String → String → ℕ → ℕ → Write
  starts : String → ℕ → ℕ → ℕ → Write
  times_out : String → String → ℕ → Write
  resets : String → ℕ → Write
  retries : String → ℕ → ℕ → String → ℕ → Write
  gives_up : String → ℕ → String → ℕ → Write
  dispatches : String → ℕ → Write
  notes_key : String → String → ℕ → Write
  stores : String → Json → ℕ → Write
  deletes : String → Write

-- What db.py does to the tables.
unfoldable pub on_sqlite : Write → Tables → Except Tables
on_sqlite (creates r) t = Db.create_task r t
on_sqlite (sets_state id s at approval) t = ok (Db.update_task_state id s at approval t)
on_sqlite (adds_event id event actor payload at) t =
    ok (Db.add_audit_event id event actor payload at t)
on_sqlite (enqueues id correlation at max) t = ok (Db.enqueue_task id correlation at max t)
on_sqlite (claims id worker expires at) t = ok (Db.claim_queue_item id worker expires at t)
on_sqlite (starts id started timeout at) t = ok (Db.mark_queue_running id started timeout at t)
on_sqlite (times_out id error at) t = ok (Db.mark_queue_timed_out id error at t)
on_sqlite (resets id at) t = ok (Db.reset_queue_to_queued id at t)
on_sqlite (retries id attempts next error at) t =
    ok (Db.mark_queue_retry id attempts next error at t)
on_sqlite (gives_up id attempts error at) t = ok (Db.mark_queue_dead_letter id attempts error at t)
on_sqlite (dispatches id at) t = ok (Db.mark_queue_dispatched id at t)
on_sqlite (notes_key key id at) t = Db.create_idempotency_record key id at t
on_sqlite (stores id payload at) t = ok (Db.store_result id payload at t)
on_sqlite (deletes id) t = ok (Db.delete_task_data id t)

-- All of the writes, up to one that a constraint refuses.
unfoldable pub all_on_sqlite : List Write → Tables → Except Tables
all_on_sqlite [] t = ok t
all_on_sqlite (w ∷ ws) t = elim (on_sqlite w t) [ ok u ↦ all_on_sqlite ws u | raise e ↦ raise e ]

-- The task that a write's new row names.
abbrev pub referred : Write → Option String
referred (adds_event id event actor payload at) = some id
referred (enqueues id correlation at max) = some id
referred (notes_key key id at) = some id
referred (stores id payload at) = some id
referred w = none

-- A write names no task, or one that is there.
abbrev pub known : Option String → Tables → Bool
known none t = true
known (some id) t = elim (Db.get_task id t) [ none ↦ false | some row ↦ true ]

unfoldable pub all_known : List Write → Tables → Bool
all_known [] t = true
all_known (w ∷ ws) t =
    known (referred w) t && elim (on_sqlite w t) [ ok u ↦ all_known ws u | raise e ↦ true ]

-- What a write does to tables with their foreign keys.
abbrev guarded : Option String → (Tables → Except Tables) → Tables → Except Tables
guarded none f = f
guarded (some id) f = Postgres.references id f

unfoldable on_schema : Write → Tables → Except Tables
on_schema w = guarded (referred w) (on_sqlite w)

unfoldable all_on_schema : List Write → Tables → Except Tables
all_on_schema [] t = ok t
all_on_schema (w ∷ ws) t = elim (on_schema w t) [ ok u ↦ all_on_schema ws u | raise e ↦ raise e ]

guarded-known :
    (o : Option String) (f : Tables → Except Tables) (t : Tables)
    → known o t ≡ true
    → guarded o f t ≡ f t
guarded-known none f t h = refl
guarded-known (some id) f t h = go (Db.get_task id t) h
  where
    go :
        (r : Option TaskRow)
        → elim r [ none ↦ false | some row ↦ true ] ≡ true
        → elim r [
          | none ↦
              raise (exception Kind.integrity "insert or update violates foreign key constraint")
          | some row ↦ f t
        ]
          ≡ f t
    go none h = absurd (cc)
    go (some row) h = refl

-- Where every task is known, the foreign keys refuse nothing.
on_schema-known :
    (ws : List Write) (t u : Tables)
    → all_known ws t ≡ true
    → all_on_sqlite ws t ≡ ok u
    → all_on_schema ws t ≡ ok u
unfolding all_known all_on_sqlite all_on_schema on_schema
on_schema-known [] t u h e = e
on_schema-known (w ∷ ws) t u h e =
    let (here, later) = both (known (referred w) t) _ h in
    ap (λ (r : Except Tables). elim r [ ok v ↦ all_on_schema ws v | raise x ↦ raise x ])
      (guarded-known (referred w) (on_sqlite w) t here)
    ∙ go (λ v. on_schema-known ws v u) (on_sqlite w t) later e
  where
    both : (a b : Bool) → (a && b) ≡ true → (a ≡ true) × (b ≡ true)
    both true b h = (refl, h)
    both false b h = absurd (cc)

    go :
        ((v : Tables)
          → all_known ws v ≡ true
          → all_on_sqlite ws v ≡ ok u
          → all_on_schema ws v ≡ ok u)
        → (r : Except Tables) → elim r [ ok v ↦ all_known ws v | raise x ↦ true ] ≡ true
        → elim r [ ok v ↦ all_on_sqlite ws v | raise x ↦ raise x ] ≡ ok u
        → elim r [ ok v ↦ all_on_schema ws v | raise x ↦ raise x ] ≡ ok u
    go rest (ok v) h e = rest v h e
    go rest (raise x) h e = absurd (cc)

module _ {Conn : Type 0} (conn : Connection Conn) where
  unfoldable pub on_postgres : Write → Call Conn (Unit {0})
  on_postgres (creates r) = Postgres.create_task conn r
  on_postgres (sets_state id s at approval) = Postgres.update_task_state conn id s at approval
  on_postgres (adds_event id event actor payload at) =
      Postgres.add_audit_event conn id event actor payload at
  on_postgres (enqueues id correlation at max) = Postgres.enqueue_task conn id correlation at max
  on_postgres (claims id worker expires at) = Postgres.claim_queue_item conn id worker expires at
  on_postgres (starts id started timeout at) =
      Postgres.mark_queue_running conn id started timeout at
  on_postgres (times_out id error at) = Postgres.mark_queue_timed_out conn id error at
  on_postgres (resets id at) = Postgres.reset_queue_to_queued conn id at
  on_postgres (retries id attempts next error at) =
      Postgres.mark_queue_retry conn id attempts next error at
  on_postgres (gives_up id attempts error at) =
      Postgres.mark_queue_dead_letter conn id attempts error at
  on_postgres (dispatches id at) = Postgres.mark_queue_dispatched conn id at
  on_postgres (notes_key key id at) = Postgres.create_idempotency_record conn key id at
  on_postgres (stores id payload at) = Postgres.store_result conn id payload at
  on_postgres (deletes id) = Postgres.delete_task_data conn id

  unfoldable pub all_on_postgres : List Write → Call Conn (Unit {0})
  all_on_postgres [] s = (ok tt, s)
  all_on_postgres (w ∷ ws) s = (on_postgres w >> all_on_postgres ws) s

  module _ (doc : IsDocumented conn) where
    on_postgres-Does : (w : Write) → Does conn doc 0 (on_postgres w) (on_schema w)
    unfolding on_postgres on_sqlite on_schema then write_for Postgres.create_task
        Postgres.update_task_state Postgres.add_audit_event Postgres.enqueue_task
        Postgres.claim_queue_item Postgres.mark_queue_running Postgres.mark_queue_timed_out
        Postgres.reset_queue_to_queued Postgres.mark_queue_retry Postgres.mark_queue_dead_letter
        Postgres.mark_queue_dispatched Postgres.create_idempotency_record Postgres.store_result
        Postgres.delete_task_data Db.delete_task_data
    on_postgres-Does (creates r) = executed-Does conn doc _
    on_postgres-Does (sets_state id s at approval) = committed-Does conn doc _
    on_postgres-Does (adds_event id event actor payload at) = executed-Does conn doc _
    on_postgres-Does (enqueues id correlation at max) = executed-Does conn doc _
    on_postgres-Does (claims id worker expires at) = committed-Does conn doc _
    on_postgres-Does (starts id started timeout at) = write-Does conn doc 0 _
    on_postgres-Does (times_out id error at) = write-Does conn doc 0 _
    on_postgres-Does (resets id at) = write-Does conn doc 0 _
    on_postgres-Does (retries id attempts next error at) = write-Does conn doc 0 _
    on_postgres-Does (gives_up id attempts error at) = write-Does conn doc 0 _
    on_postgres-Does (dispatches id at) = committed-Does conn doc _
    on_postgres-Does (notes_key key id at) = execute-Does conn doc 0 _
    on_postgres-Does (stores id payload at) = execute-Does conn doc 0 _
    on_postgres-Does (deletes id) = Does-transaction conn doc (
        Does-then conn doc
          (Does-then conn doc
            (Does-then conn doc
              (Does-then conn doc (write-Does conn doc 1 _) (write-Does conn doc 1 _))
              (write-Does conn doc 1 _))
            (write-Does conn doc 1 _))
          (write-Does conn doc 1 _))

    all-Does : (ws : List Write) → Does conn doc 0 (all_on_postgres ws) (all_on_schema ws)
    unfolding all_on_postgres all_on_schema then
    all-Does [] = record {
      at = λ s t u h e. record {
        returns = refl;
        sees = record { tables = h.tables ∙ ok_inj t u e; usable = h.usable; depth = h.depth };
      };
    }
      where
        ok_inj : (t u : Tables) → ok t ≡ ok u → t ≡ u
        ok_inj t u e = cc
    all-Does (w ∷ ws) = Does-then conn doc (on_postgres-Does w) (all-Does ws)

    -- On a connection that behaves as documented, outside of a transaction, any writes that no
    -- constraint refuses on sqlite, and of which each that names a task for a new row names one that is
    -- there by then, return on Postgres, and leave the tables as sqlite does.
    pub postgres_refines_sqlite :
        (ws : List Write) (s : Conn) (u : Tables)
        → doc.IsUsable s
        → doc.depth s ≡ 0
        → all_on_sqlite ws (conn.tables s) ≡ ok u
        → all_known ws (conn.tables s) ≡ true
        → ((all_on_postgres ws s).0 ≡ ok tt) × (conn.tables (all_on_postgres ws s).1 ≡ u)
    postgres_refines_sqlite ws s u usable outside e known =
        let done =
          (all-Does ws).at s (conn.tables s) u
            (record { tables = refl; usable = usable; depth = outside })
            (on_schema-known ws (conn.tables s) u known e) in
        (done.returns, done.sees.tables)
