-- ===== src/Hermes/Runner.antt =====
-- hermes/runner.py and sandbox_adapter.py: a command in the sandbox, within its time. (The runner that
-- denies every command stands in Guards.)
pub mod Laws
use agentopia.Prelude.{
  ℕ, ◌+◌, ◌-◌, ◌*◌, String, Option, none, some, Bool, true, false, List, [], ◌∷◌, ◌==◌, ◌<>◌, ltb,
  if◌then◌else◌,
}
use agentopia.Prelude.Texts.{strip}
use agentopia.Prelude.Json.{Json, num, str, dict}
use agentopia.Python.{Except, ok, raise, exception, Exception, Kind, join}
use agentopia.Hermes.Platform.{FilePath, CommandRequest}

-- What `subprocess.run` comes to: an end with the code 0, or another, with the two outputs; the time
-- ran out (`TimeoutExpired`, which is no `TimeoutError`); or another exception.
pub data Ended : Type 0 where
  well : String → String → Ended
  badly : String → String → Ended
  expired : Ended
  broken : Exception → Ended

-- `MacOSSandboxAdapter`, with the directory that `TemporaryDirectory` makes, and the end of a process
-- that is started with this profile in its file, these arguments, in this directory and with this time.
-- What the process does to the files is left to the runner that a Platform has.
pub record Sandbox : Type 0 where
  pub allow_network : Bool
  pub tmpdir : String
  pub run : String → List String → FilePath → Option ℕ → Ended

abbrev subpaths : String → String → String
subpaths workspace tmpdir =
    "\n    (subpath \"" <> workspace <> "\")\n    (subpath \"" <> tmpdir <> "\")\n)"

unfoldable pub sandbox_profile : Bool → String → String → String
sandbox_profile allow_network workspace tmpdir =
    "\n(version 1)\n(deny default)\n(allow process*)\n(allow file-read*)\n(allow file-write*"
    <> subpaths workspace tmpdir
    <> "\n(allow file-write-data"
    <> subpaths workspace tmpdir
    <> "\n(allow file-write-mode"
    <> subpaths workspace tmpdir
    <> "\n(allow file-write-create"
    <> subpaths workspace tmpdir
    <> "\n"
    <> (if allow_network then "(allow network*)" else "(deny network*)")
    <> "\n"

abbrev pub sandbox_exec : String → String → List String
sandbox_exec tmpdir command =
    "/usr/bin/sandbox-exec" ∷ "-f" ∷ (tmpdir <> "/sandbox.sb") ∷ "/bin/sh" ∷ "-lc" ∷ command ∷ []

abbrev first_text : String → String → String
first_text stderr stdout =
    if stderr == "" then (if stdout == "" then "sandboxed command failed" else stdout) else stderr

abbrev pub ended : Ended → Except Json
ended (well stdout stderr) =
    ok (dict (("stdout", str stdout) ∷ ("stderr", str stderr) ∷ ("returncode", num 0) ∷ []))
ended (badly stdout stderr) = raise (exception Kind.runtime (strip (first_text stderr stdout)))
ended expired = raise (exception Kind.timeout_expired "timed out")
ended (broken e) = raise e

-- The process that `MacOSSandboxAdapter.run` starts.
abbrev pub sandboxed : Sandbox → CommandRequest → Ended
sandboxed sandbox request =
    sandbox.run (sandbox_profile sandbox.allow_network ("/" <> join "/" request.cwd) sandbox.tmpdir)
      (sandbox_exec sandbox.tmpdir request.command) request.cwd request.max_runtime_seconds

-- `MacOSSandboxAdapter.run`
unfoldable pub run_sandboxed : Sandbox → CommandRequest → Except Json
run_sandboxed sandbox request = ended (sandboxed sandbox request)

module _ (show_number : ℕ → String) where
  -- An f-string of the limit, which may be None.
  abbrev shown_limit : Option ℕ → String
  shown_limit none = "None"
  shown_limit (some n) = show_number n

  abbrev over_limit : Option ℕ → Exception
  over_limit limit =
      exception Kind.execution_limit
        ("command exceeded runtime limit of " <> shown_limit limit <> " seconds")

  -- Between two readings of the clock, in microseconds.
  abbrev pub is_over : Option ℕ → ℕ → ℕ → Bool
  is_over none start end = false
  is_over (some n) start end = ltb (n * 1_000_000) (end - start)

  abbrev is_timeout : Kind → Bool
  is_timeout Kind.timeout = true
  is_timeout _ = false

  -- `SandboxAdapterRunner.run`, from what its adapter returns or raises
  unfoldable pub run_limited : CommandRequest → ℕ → ℕ → Except Json → Except Json
  run_limited request start end (ok result) =
      if is_over request.max_runtime_seconds start end
      then raise (over_limit request.max_runtime_seconds)
      else ok result
  run_limited request start end (raise e) =
      if is_timeout e.kind then raise (over_limit request.max_runtime_seconds) else raise e
