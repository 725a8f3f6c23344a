-- ===== src/Paperclip/Service/World.antt =====
-- What a method of `PaperclipService` acts on. `live` is what the service's connection reads;
-- `disk` is what was committed last: sqlite3 opens a transaction before a write, and only
-- `with self.conn` in `run_in_transaction` commits it.
use agentopia.Prelude.{
  ℕ, suc, ◌+◌, ◌-◌, ◌*◌, ◌%◌, String, Option, none, some, List, [], ◌∷◌, ◌++◌, length,
  if◌then◌else◌,
}
use agentopia.Prelude.Json.{Json}
use agentopia.Python.{Except, ok, raise, Exception}
use agentopia.Hermes.Platform.{FilePath}
use agentopia.Hermes.Files.Paths.{same_path, is_below, candidate}
use agentopia.Paperclip.Db.{Tables}
use agentopia.Paperclip.Dispatch.{
  HermesDispatchClient, HttpRequest, Reply, build_request, read_reply,
}

pub record TraceEntry : Type 0 where
  pub timestamp : ℕ
  pub trace_id : String
  pub service : String
  pub event : String
  pub fields : List (String × Json)

-- `files` are the files of the results, by their paths below the root; `ticks` counts the readings of
-- the clock; `calls` are the requests sent to Hermes.
pub record World : Type 0 where
  pub live : Tables
  pub disk : Tables
  pub traces : List TraceEntry
  pub files : FilePath → Option Json
  pub ticks : ℕ
  pub calls : List HttpRequest

-- The fields of the service that `__init__` reads from the environment variables, in seconds or
-- attempts.
pub record Settings : Type 0 where
  pub approval_ttl_seconds : ℕ
  pub queue_max_attempts : ℕ
  pub queue_backoff_seconds : ℕ
  pub queue_timeout_seconds : ℕ
  pub queue_lease_seconds : ℕ

-- The surroundings: the n-th reading of the clock in microseconds, the messages of the JSON schema
-- validator (`validate_payload`, a third-party library), and the reply to the n-th request.
pub record Surroundings : Type 0 where
  pub clock : ℕ → ℕ
  pub validate : Json → List String
  pub urlopen : ℕ → HttpRequest → Reply
  pub dispatch_client : HermesDispatchClient
  pub settings : Settings

abbrev pub Action : Type 0 → Type 0
Action A = World → Except A × World

module _ {A : Type 0} where
  unfoldable pub pure : A → Action A
  pure a w = (ok a, w)

  unfoldable pub throw : Exception → Action A
  throw e w = (raise e, w)

  unfoldable pub lift : Except A → Action A
  lift r w = (r, w)

  -- A read of the database.
  unfoldable pub query : (Tables → A) → Action A
  query f w = (ok (f w.live), w)

  -- `try: m except Exception as exc: handler(exc)`
  unfoldable pub catch : Action A → (Exception → Action A) → Action A
  catch m handler w = let (r, w') = m w in elim r [ ok a ↦ (ok a, w') | raise e ↦ handler e w' ]

infixl 5 ◌>>=◌ ◌>>◌
unfoldable pub ◌>>=◌ : {A B : Type 0} → Action A → (A → Action B) → Action B
◌>>=◌ m f w = let (r, w') = m w in elim r [ ok a ↦ f a w' | raise e ↦ (raise e, w') ]

abbrev pub ◌>>◌ : {A B : Type 0} → Action A → Action B → Action B
m >> k = m >>= λ _. k

-- A write outside `run_in_transaction`.
unfoldable pub execute : (Tables → Tables) → Action (Unit {0})
execute f w = (ok tt, record w { live = f w.live })

abbrev pub run_checked : World → Except Tables → Except (Unit {0}) × World
run_checked w (ok t) = (ok tt, record w { live = t })
run_checked w (raise e) = (raise e, w)

-- A write that a constraint may refuse; the statement is undone, and what came before stays.
unfoldable pub execute_checked : (Tables → Except Tables) → Action (Unit {0})
execute_checked f w = run_checked w (f w.live)

unfoldable pub run_in_transaction : (Tables → Tables) → Action (Unit {0})
run_in_transaction f w = (ok tt, record w { live = f w.live; disk = f w.live })

-- `t.replace(microsecond=0)`
abbrev pub whole_seconds : ℕ → ℕ
whole_seconds t = t - t % 1_000_000

-- `t + timedelta(seconds=s)`
abbrev pub add_seconds : ℕ → ℕ → ℕ
add_seconds t s = t + s * 1_000_000

module _ (env : Surroundings) where
  unfoldable pub read_clock : Action ℕ
  read_clock w = (ok (env.clock w.ticks), record w { ticks = suc w.ticks })

  unfoldable pub utcnow : Action ℕ
  utcnow w = (ok (whole_seconds (env.clock w.ticks)), record w { ticks = suc w.ticks })

  -- `now or datetime.now(timezone.utc)`
  unfoldable pub now_or : Option ℕ → Action ℕ
  now_or (some now) = pure now
  now_or none = read_clock

  -- `TraceLogger.record` (scripts/trace_log.py)
  unfoldable pub trace : String → String → String → List (String × Json) → Action (Unit {0})
  trace id service event fields w = (
    ok tt,
    record w {
      traces =
          w.traces
          ++ record {
            timestamp = env.clock w.ticks;
            trace_id = id;
            service = service;
            event = event;
            fields = fields;
          }
            ∷ [];
      ticks = suc w.ticks;
    },
  )

  -- `HermesDispatchClient.submit`
  unfoldable pub submit : Json → Option String → Action Json
  submit payload correlation w =
      let request = build_request env.dispatch_client payload correlation in
      (
        read_reply (env.urlopen (length w.calls) request),
        record w { calls = w.calls ++ request ∷ [] },
      )

-- `PaperclipStorageLayout` (scripts/storage_layout.py). The task's id is joined to the path as
-- pathlib does it, where there are no symbolic links and the folders on the way are there; that the
-- directory of one task is the result.json of another, where both methods raise, is left out.
unfoldable pub task_dir : String → FilePath
task_dir id = candidate ("var" ∷ "paperclip" ∷ "tasks" ∷ []) id

abbrev pub result_path : String → FilePath
result_path id = task_dir id ++ "result.json" ∷ []

unfoldable pub persist_result : String → Json → Action (Unit {0})
persist_result id payload w = (
  ok tt,
  record w { files = λ q. if same_path (result_path id) q then some payload else w.files q },
)

-- `shutil.rmtree`: whatever is below the directory goes.
unfoldable pub delete_task_storage : String → Action (Unit {0})
delete_task_storage id w =
    (ok tt, record w { files = λ q. if is_below (task_dir id) q then none else w.files q })

-- What a test or a proof that runs a method opens.
unfoldable pub actions : Unit {0}
unfolding pure throw lift query catch ◌>>=◌ execute execute_checked run_in_transaction read_clock
    utcnow now_or persist_result delete_task_storage
actions = tt
