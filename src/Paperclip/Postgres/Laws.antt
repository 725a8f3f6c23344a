-- ===== src/Paperclip/Postgres/Laws.antt =====
-- What the methods do on a connection that behaves as the documentation of psycopg says.
use agentopia.Prelude.{◌≡◌, refl, ap, ◌∙◌, ℕ, suc, String, Option}
use mathlib.Core.Path.{subst}
use agentopia.Prelude.Json.{Json, Fields}
use agentopia.Python.{Except, ok, raise, Exception}
use agentopia.Paperclip.StateMachine.{State}
use agentopia.Paperclip.Db.{Tables}
use agentopia.Paperclip.Postgres
use agentopia.Paperclip.Postgres.{Connection, Call, run_in_transaction, write, write_for, ◌>>◌}

-- The rows, without the number of the next audit event, which a rollback does not give back.
pub record SameRows (t u : Tables) : Type 0 where
  pub tasks : t.tasks ≡ u.tasks
  pub audit_events : t.audit_events ≡ u.audit_events
  pub queue : t.queue ≡ u.queue
  pub results : t.results ≡ u.results
  pub idempotency : t.idempotency ≡ u.idempotency

-- A connection is usable, and stands in some transaction contexts, the innermost of which began at
-- some tables. A statement that no constraint refuses writes; `commit` is refused within a context;
-- a context that is left without an exception leaves the tables, one that is left with an exception
-- puts the rows back.
pub record IsDocumented {Conn : Type 0} (conn : Connection Conn) : Type 1 where
  pub IsUsable : Conn → Type 0
  pub depth : Conn → ℕ
  pub began : Conn → Tables
  pub execute-ok :
      (f : Tables → Except Tables) (s : Conn) (t : Tables)
      → IsUsable s
      → f (conn.tables s) ≡ ok t
      → ((conn.execute f s).0 ≡ ok tt)
        × (conn.tables (conn.execute f s).1 ≡ t)
        × IsUsable (conn.execute f s).1
  pub execute-depth : (f : Tables → Except Tables) (s : Conn) → depth (conn.execute f s).1 ≡ depth s
  pub execute-began : (f : Tables → Except Tables) (s : Conn) → began (conn.execute f s).1 ≡ began s
  pub commit-ok :
      (s : Conn)
      → depth s ≡ 0
      → IsUsable s
      → ((conn.commit s).0 ≡ ok tt)
        × (conn.tables (conn.commit s).1 ≡ conn.tables s)
        × IsUsable (conn.commit s).1
        × (depth (conn.commit s).1 ≡ 0)
  pub commit-refused :
      (s : Conn) (n : ℕ) → depth s ≡ suc n → (e : Exception) × (conn.commit s ≡ (raise e, s))
  pub begin-depth : (s : Conn) → depth (conn.begin s) ≡ suc (depth s)
  pub begin-began : (s : Conn) → began (conn.begin s) ≡ conn.tables s
  pub begin-tables : (s : Conn) → conn.tables (conn.begin s) ≡ conn.tables s
  pub begin-IsUsable : (s : Conn) → IsUsable s → IsUsable (conn.begin s)
  pub finish-tables : (s : Conn) → conn.tables (conn.finish s) ≡ conn.tables s
  pub finish-depth : (s : Conn) (n : ℕ) → depth s ≡ suc n → depth (conn.finish s) ≡ n
  pub finish-IsUsable : (s : Conn) → IsUsable s → IsUsable (conn.finish s)
  pub abandon-rows : (s : Conn) → SameRows (conn.tables (conn.abandon s)) (began s)

module _ {Conn : Type 0} (conn : Connection Conn) (doc : IsDocumented conn) where
  -- A call that raises within a context, which it does not leave.
  record Fails (m : Call Conn (Unit {0})) : Type 0 where
    at :
        (s : Conn) (n : ℕ)
        → doc.depth s ≡ suc n
        → (e : Exception) × ((m s).0 ≡ raise e) × (doc.began (m s).1 ≡ doc.began s)

  commit-Fails : Fails conn.commit
  commit-Fails = record {
    at = λ s n within.
        let (e, refused) = doc.commit-refused s n within in
        (e, ap (λ r. r.0) refused, ap (λ r. doc.began r.1) refused);
  }

  execute-Fails :
      (f : Tables → Except Tables) (k : Call Conn (Unit {0}))
      → Fails k
      → Fails (conn.execute f >> k)
  unfolding ◌>>◌
  execute-Fails f k fails = record {
    at = λ s n within.
        go s (conn.execute f s).0 (conn.execute f s).1
          (fails.at (conn.execute f s).1 n (doc.execute-depth f s ∙ within))
          (doc.execute-began f s);
  }
    where
      go :
          (s : Conn) (r : Except (Unit {0})) (s' : Conn)
          → ((e : Exception) × ((k s').0 ≡ raise e) × (doc.began (k s').1 ≡ doc.began s'))
          → doc.began s' ≡ doc.began s
          → (e : Exception) × (((λ (z : Conn). (r, s')) >> k) s).0 ≡ raise e
            × (doc.began (((λ (z : Conn). (r, s')) >> k) s).1 ≡ doc.began s)
      go s (ok u) s' (e, raised, kept) same = (e, raised, kept ∙ same)
      go s (raise e) s' known same = (e, refl, same)

  Fails-then : (m k : Call Conn (Unit {0})) → Fails m → Fails (m >> k)
  unfolding ◌>>◌
  Fails-then m k fails = record { at = λ s n within. go s (m s).0 (m s).1 (fails.at s n within) }
    where
      go :
          (s : Conn) (r : Except (Unit {0})) (s' : Conn)
          → ((e : Exception) × (r ≡ raise e) × (doc.began s' ≡ doc.began s))
          → (e : Exception) × (((λ (z : Conn). (r, s')) >> k) s).0 ≡ raise e
            × (doc.began (((λ (z : Conn). (r, s')) >> k) s).1 ≡ doc.began s)
      go s (ok u) s' (e, raised, kept) = absurd (cc)
      go s (raise x) s' (e, raised, kept) = (e, raised, kept)

  -- What a method that failed leaves.
  abbrev pub IsUndone : Call Conn (Unit {0}) → Conn → Type 0
  IsUndone m s =
      (e : Exception) × ((m s).0 ≡ raise e) × SameRows (conn.tables (m s).1) (conn.tables s)

  transaction-IsUndone :
      (m : Call Conn (Unit {0})) → Fails m → (s : Conn) → IsUndone (run_in_transaction conn m) s
  unfolding run_in_transaction
  transaction-IsUndone m fails s =
      let (e, raised, kept) = fails.at (conn.begin s) (doc.depth s) (doc.begin-depth s) in
      go (m (conn.begin s)).0 (m (conn.begin s)).1 e raised (kept ∙ doc.begin-began s)
    where
      go :
          (r : Except (Unit {0})) (s' : Conn) (e : Exception)
          → r ≡ raise e
          → doc.began s' ≡ conn.tables s
          → IsUndone (run_in_transaction conn (λ (z : Conn). (r, s'))) s
      go (ok u) s' e raised kept = absurd (cc)
      go (raise x) s' e raised kept = (x, refl, subst (SameRows _) kept (doc.abandon-rows s'))

  -- On a connection that behaves as documented, every transition of a task with its audit event and
  -- every storing of a result with its audit event fails and leaves the rows as they were:
  -- `update_task_state` and `add_audit_event` commit, which a transaction context refuses.
  pub audited_writes_fail :
      (id : String) (state : State) (at : ℕ) (actor : String) (details : Fields)
      (approval : Option String) (result : Json) (status : String) (s : Conn)
      → IsUndone (Postgres.transition_task_with_audit conn id state at actor details approval) s
        × IsUndone (Postgres.store_result_with_audit conn id result status at) s
  unfolding Postgres.transition_task_with_audit Postgres.store_result_with_audit
      Postgres.update_task_state Postgres.add_audit_event Postgres.store_result write write_for
  audited_writes_fail id state at actor details approval result status s = (
    transaction-IsUndone _ (Fails-then _ _ (execute-Fails _ _ commit-Fails)) s,
    transaction-IsUndone _ (execute-Fails _ _ (execute-Fails _ _ commit-Fails)) s,
  )
