-- ===== src/Hermes/Platform.antt =====
-- What the executor acts on: the files of its host, its clock and the commands that it ran.
use agentopia.Prelude.{ℕ, suc, length, String, Option, List, [], ◌∷◌, ◌++◌}
use agentopia.Prelude.Json.{Json}
use agentopia.Python.{Except, ok, raise, Exception}

-- An absolute path, as its parts. There are no symbolic links.
abbrev pub FilePath : Type 0
FilePath = List String

pub data Node : Type 0 where
  file : String → Node
  directory : Node

abbrev pub Files : Type 0
Files = FilePath → Option Node

-- `CommandRequest` (hermes/runner.py)
pub record CommandRequest : Type 0 where
  pub command : String
  pub cwd : FilePath
  pub max_runtime_seconds : Option ℕ

-- `ticks` counts the readings of the clock.
pub record Host : Type 0 where
  pub files : Files
  pub ticks : ℕ
  pub commands : List CommandRequest

-- The scope of a tenant's memory, and what the memory service's `wakeup` answers.
pub record MemoryScope : Type 0 where
  pub tenant_id : String
  pub org_id : String
  pub client_id : String

pub record Wakeup : Type 0 where
  pub memory_mode : Json
  pub memory_source : Json
  pub memory_hits : Json
  pub fallback_reason : Json

-- What the executor is given: the validator of the JSON schemas, `shlex.split`, the number of bytes
-- of `json.dumps`, `str` of a value that is no text, the first twelve digits of SHA-256, the n-th
-- reading of `time.monotonic` in seconds, the memory service, and the runner of commands, which
-- answers its n-th command with the text of its result. These two leave the files as they like.
pub record Platform : Type 0 where
  pub validate : Json → List String
  pub shlex_split : String → Except (List String)
  pub encoded_size : Json → ℕ
  pub show : Json → String
  pub short_hash : String → String
  pub monotonic : ℕ → ℕ
  pub wakeup : MemoryScope → Json → Json → Files → Except Wakeup × Files
  pub run : ℕ → CommandRequest → Files → Except String × Files

abbrev pub Job : Type 0 → Type 0
Job A = Host → Except A × Host

module _ {A : Type 0} where
  unfoldable pub pure : A → Job A
  pure a h = (ok a, h)

  unfoldable pub lift : Except A → Job A
  lift r h = (r, h)

  -- `try: m except Exception as exc: return answer(exc)`
  unfoldable pub rescue : Job A → (Exception → A) → Job A
  rescue m answer h =
      let (r, h') = m h in elim r [ ok a ↦ (ok a, h') | raise e ↦ (ok (answer e), h') ]

  -- A look at the files.
  unfoldable pub look : (Files → A) → Job A
  look f h = (ok (f h.files), h)

infixl 5 ◌>>=◌ ◌>>◌
unfoldable pub ◌>>=◌ : {A B : Type 0} → Job A → (A → Job B) → Job B
◌>>=◌ m f h = let (r, h') = m h in elim r [ ok a ↦ f a h' | raise e ↦ (raise e, h') ]

abbrev pub ◌>>◌ : {A B : Type 0} → Job A → Job B → Job B
m >> k = m >>= λ _. k

-- A change of the files that may fail, and then leaves them.
unfoldable pub change : (Files → Except Files) → Job (Unit {0})
change f h = elim (f h.files) [ ok fs ↦ (ok tt, record h { files = fs }) | raise e ↦ (raise e, h) ]

unfoldable pub read_clock : Platform → Job ℕ
read_clock env h = (ok (env.monotonic h.ticks), record h { ticks = suc h.ticks })

-- `self.memory_service.wakeup(scope, title, description)`
unfoldable pub wake_memory : Platform → MemoryScope → Json → Json → Job Wakeup
wake_memory env scope title description h =
    let (r, fs) = env.wakeup scope title description h.files in (r, record h { files = fs })

-- `self.runner.run(request)`
unfoldable pub run_command : Platform → CommandRequest → Job String
run_command env request h =
    let (r, fs) = env.run (length h.commands) request h.files in
    (r, record h { files = fs; commands = h.commands ++ request ∷ [] })

-- What a test or a proof that runs a job opens.
unfoldable pub jobs : Unit {0}
unfolding pure lift rescue look ◌>>=◌ change read_clock wake_memory run_command
jobs = tt
