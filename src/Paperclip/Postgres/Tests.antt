-- ===== src/Paperclip/Postgres/Tests.antt =====
-- A connection that behaves as documented, as tables with those that the open contexts began at.
use agentopia.Prelude.{◌≡◌, refl, arith, ℕ, suc, none, true, List, [], ◌∷◌, length}
use agentopia.Prelude.Json.{dict, of_pairs}
use agentopia.Python.{Except, ok, raise, Exception, exception, Kind}
use agentopia.Paperclip.StateMachine.{State}
use agentopia.Prelude.Table.{lookup}
use agentopia.Paperclip.Db
use agentopia.Paperclip.Db.{Tables}
use agentopia.Paperclip.Samples.{tables}
use agentopia.Paperclip.Service.Runs.{empty_tables}
use agentopia.Paperclip.Postgres
use agentopia.Paperclip.Postgres.{Connection}
use agentopia.Paperclip.Postgres.Laws.{IsDocumented, IsUndone, audited_writes_fail}
use agentopia.Paperclip.Postgres.Refinement.{
  Write, claims, enqueues, deletes, all_known, on_sqlite, all_on_sqlite, all_on_postgres,
  postgres_refines_sqlite,
}

abbrev Conn : Type 0
Conn = Tables × List Tables

abbrev innermost : Conn → Tables
innermost (t, []) = empty_tables
innermost (t, b ∷ bs) = b

abbrev outer : Conn → List Tables
outer (t, []) = []
outer (t, b ∷ bs) = bs

abbrev written : Conn → Except Tables → Except (Unit {0}) × Conn
written s (ok t) = (ok tt, (t, s.1))
written s (raise e) = (raise e, s)

abbrev committed : Conn → Except (Unit {0}) × Conn
committed (t, []) = (ok tt, (t, []))
committed (t, b ∷ bs) = (raise (exception Kind.runtime "Explicit commit() forbidden"), (t, b ∷ bs))

abbrev connection : Connection Conn
connection = record {
  tables = λ s. s.0;
  execute = λ f s. written s (f s.0);
  commit = committed;
  begin = λ s. (s.0, s.0 ∷ s.1);
  finish = λ s. (s.0, outer s);
  abandon = λ s. (innermost s, outer s);
}

written-depth : (s : Conn) (r : Except Tables) → length (written s r).1.1 ≡ length s.1
written-depth s (ok t) = refl
written-depth s (raise e) = refl

written-innermost : (s : Conn) (r : Except Tables) → innermost (written s r).1 ≡ innermost s
written-innermost (t, []) (ok u) = refl
written-innermost (t, b ∷ bs) (ok u) = refl
written-innermost s (raise e) = refl

committed_outside :
    (s : Conn)
    → length s.1 ≡ 0
    → ((committed s).0 ≡ ok tt)
      × ((committed s).1.0 ≡ s.0)
      × Unit {0}
      × (length (committed s).1.1 ≡ 0)
committed_outside (t, []) e = (refl, refl, tt, refl)
committed_outside (t, b ∷ bs) e = absurd (omega (arith, e))

committed_within :
    (s : Conn) (n : ℕ) → length s.1 ≡ suc n → (e : Exception) × (committed s ≡ (raise e, s))
committed_within (t, []) n e = absurd (omega (arith, e))
committed_within (t, b ∷ bs) n e = (_, refl)

outer-length : (s : Conn) (n : ℕ) → length s.1 ≡ suc n → length (outer s) ≡ n
outer-length (t, []) n e = absurd (omega (arith, e))
outer-length (t, b ∷ bs) n e = omega (arith, e)

abbrev documented : IsDocumented connection
documented = record {
  IsUsable = λ s. Unit;
  depth = λ s. length s.1;
  began = innermost;
  execute-ok = λ f s t usable e. rw e (refl, refl, tt);
  execute-depth = λ f s. written-depth s (f s.0);
  execute-began = λ f s. written-innermost s (f s.0);
  commit-ok = λ s outside h. committed_outside s outside;
  commit-refused = committed_within;
  begin-depth = λ s. refl;
  begin-began = λ s. refl;
  begin-tables = λ s. refl;
  begin-IsUsable = λ s h. tt;
  finish-tables = λ s. refl;
  finish-depth = outer-length;
  finish-IsUsable = λ s h. tt;
  abandon-rows = λ s. record {
    tasks = refl;
    audit_events = refl;
    queue = refl;
    results = refl;
    idempotency = refl;
  };
}

audited_writes_fail_example :
    IsUndone connection documented
      (Postgres.transition_task_with_audit connection "t1" State.running 5 "paperclip"
        (of_pairs [])
        none)
      (tables, [])
    × IsUndone connection documented
        (Postgres.store_result_with_audit connection "t1" (dict []) "succeeded" 5)
        (tables, [])
audited_writes_fail_example =
    audited_writes_fail connection documented "t1" State.running 5 "paperclip" (of_pairs []) none
      (dict []) "succeeded" (tables, [])

abbrev writes : List Write
writes = claims "t1" "w1" 9 5 ∷ enqueues "t1" none 5 3 ∷ deletes "t2" ∷ []

after_sqlite : (u : Tables) × (all_on_sqlite writes tables ≡ ok u)
unfolding all_on_sqlite on_sqlite
after_sqlite = (_, refl)

all_there : all_known writes tables ≡ true
unfolding all_known on_sqlite Db.get_task lookup Db.claim_queue_item
all_there = refl

postgres_refines_sqlite_example :
    ((all_on_postgres connection writes (tables, [])).0 ≡ ok tt)
    × ((all_on_postgres connection writes (tables, [])).1.0 ≡ after_sqlite.0)
postgres_refines_sqlite_example =
    postgres_refines_sqlite connection documented writes (tables, []) (after_sqlite.0) tt refl
      (after_sqlite.1) all_there
