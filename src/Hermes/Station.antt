-- ===== src/Hermes/Station.antt =====
-- What a process of the execution plane works on: the host of its executor and the files of
-- var/hermes below its root.
pub mod Laws
pub mod Keeps
use agentopia.Prelude.{ℕ, suc, String, Option, Bool, List, [], ◌∷◌, ◌++◌, length}
use agentopia.Prelude.Table.{Table}
use agentopia.Prelude.Json.{Json}
use agentopia.Python.{Except, ok, raise, Exception}
use agentopia.Hermes.Platform.{FilePath, Files, Platform, Host, Job}

-- var/hermes. A directory is a table of its files by their names, the last written last; a file is
-- what `json.loads` makes of it, `none` where that raises. No name holds a slash. `ticks` counts the
-- readings of `datetime.now`. `traces` holds the lines of var/traces with the ids of their files.
pub record Store : Type 0 where
  pub runs : Table (Option Json)
  pub callbacks : Table (Option Json)
  pub callback_results : Table (Option Json)
  pub postbacks : Table (Option Json)
  pub audit_log : List Json
  pub approval_status : Option (Option Json)
  pub traces : List (String × Json)
  pub ticks : ℕ

-- A request to Paperclip, and what comes back: the body of a reply, an error status with its body, no
-- connection for a reason, or another exception.
pub record HttpRequest : Type 0 where
  pub method : String
  pub url : String
  pub headers : List (String × String)
  pub payload : Option Json

pub data Reply : Type 0 where
  received : String → Reply
  http_error : ℕ → String → Reply
  url_error : String → Reply
  failed : Exception → Reply

-- `processes` are the command lines that the memory service started, `requests` what was sent.
pub record Station : Type 0 where
  pub host : Host
  pub store : Store
  pub processes : List (List String)
  pub requests : List HttpRequest

-- What `subprocess.run` comes to: an end, well or not, with the two outputs; no such command; or
-- another exception.
pub data Spawned : Type 0 where
  finished : Bool → String → String → Spawned
  missing : Spawned
  broken : Exception → Spawned

-- `MemPalaceConfig` (hermes/memory/config.py)
pub record MemPalaceConfig : Type 0 where
  pub enabled : Bool
  pub command : String
  pub palace_path : Json
  pub memory_mode : String

-- The text of the root, the root as a path, the n-th reading of `datetime.now` as a text, `json.loads`
-- and `json.dumps` with an indent, the end of the n-th command that is started with the files that it
-- leaves, the configuration that the environment gives, the answer to the n-th request, and `float` and `int` of a value.
pub record Deployment : Type 0 where
  pub platform : Platform
  pub root : String
  pub workspace : FilePath
  pub clock : ℕ → String
  pub loads : String → Except Json
  pub dumps : Json → String
  pub spawn : ℕ → List String → Files → Spawned × Files
  pub env_config : MemPalaceConfig
  pub urlopen : ℕ → HttpRequest → Reply
  pub as_float : Json → Except Json
  pub as_int : Json → Except Json

abbrev pub Work : Type 0 → Type 0
Work A = Station → Except A × Station

module _ {A : Type 0} where
  unfoldable pub pure : A → Work A
  pure a s = (ok a, s)

  unfoldable pub lift : Except A → Work A
  lift r s = (r, s)

  unfoldable pub work : Job A → Work A
  work m s = let (r, h) = m s.host in (r, record s { host = h })

  -- A look at the store.
  unfoldable pub view : (Store → A) → Work A
  view f s = (ok (f s.store), s)

  -- `try: m except Exception as exc: handler(exc)`
  unfoldable pub rescue : Work A → (Exception → Work A) → Work A
  rescue m handler s = let (r, s') = m s in elim r [ ok a ↦ (ok a, s') | raise e ↦ handler e s' ]

unfoldable pub edit : (Store → Store) → Work (Unit {0})
edit f s = (ok tt, record s { store = f s.store })

-- `datetime.now(timezone.utc).isoformat()`
unfoldable pub utcnow : Deployment → Work String
utcnow d s =
    (ok (d.clock s.store.ticks), record s { store = record s.store { ticks = suc s.store.ticks } })

-- `subprocess.run(arguments, capture_output=True, text=True)`
unfoldable pub start : Deployment → List String → Work Spawned
start d arguments s =
    let (outcome, fs) = d.spawn (length s.processes) arguments s.host.files in
    (
      ok outcome,
      record s { host = record s.host { files = fs }; processes = s.processes ++ arguments ∷ [] },
    )

-- `request.urlopen(req)`
unfoldable pub open_url : Deployment → HttpRequest → Work Reply
open_url d request s =
    (ok (d.urlopen (length s.requests) request), record s { requests = s.requests ++ request ∷ [] })

infixl 5 ◌>>=◌ ◌>>◌
unfoldable pub ◌>>=◌ : {A B : Type 0} → Work A → (A → Work B) → Work B
◌>>=◌ m f s = let (r, s') = m s in elim r [ ok a ↦ f a s' | raise e ↦ (raise e, s') ]

abbrev pub ◌>>◌ : {A B : Type 0} → Work A → Work B → Work B
m >> k = m >>= λ _. k

-- What a test or a proof that runs a piece of work opens.
unfoldable pub works : Unit {0}
unfolding pure lift work view rescue edit utcnow start open_url ◌>>=◌
works = tt
