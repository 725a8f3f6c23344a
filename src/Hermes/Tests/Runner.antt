-- ===== src/Hermes/Tests/Runner.antt =====
-- A command in the sandbox that ends in time.
use agentopia.Prelude.{◌≡◌, refl, String, some, false, [], ◌∷◌}
use agentopia.Prelude.Json.{Json, num, str, dict}
use agentopia.Python.{ok}
use agentopia.Hermes.Platform.{CommandRequest}
use agentopia.Hermes.Runner.{Sandbox, well, run_sandboxed, run_limited}
use agentopia.Hermes.Runner.Laws.{IsWithin, Guards, sandbox_runner_lem}
use agentopia.Hermes.Tests.{workspace}

abbrev sandbox : Sandbox
sandbox = record {
  allow_network = false;
  tmpdir = "/tmp/box";
  run = λ profile arguments cwd limit. well "clean" "";
}

abbrev command : CommandRequest
command = record { command = "git status"; cwd = workspace; max_runtime_seconds = some 5 }

returned :
    (result : Json) × (run_limited (λ n. "5") command 0 2_000_000 (run_sandboxed sandbox command)
      ≡ ok result)
unfolding run_limited run_sandboxed
returned = (_, refl)

sandbox_runner_example :
    (profile stdout stderr : String) × (sandbox.run profile
        ("/usr/bin/sandbox-exec" ∷ "-f" ∷ "/tmp/box/sandbox.sb" ∷ "/bin/sh" ∷ "-lc" ∷ "git status"
          ∷ [])
        workspace
        (some 5)
      ≡ well stdout stderr)
    × Guards false "/work" profile
    × (returned.0
        ≡ dict (("stdout", str stdout) ∷ ("stderr", str stderr) ∷ ("returncode", num 0) ∷ []))
    × IsWithin (some 5) 0 2_000_000
sandbox_runner_example =
    sandbox_runner_lem (λ n. "5") command 0 2_000_000 sandbox (returned.0) (returned.1)
