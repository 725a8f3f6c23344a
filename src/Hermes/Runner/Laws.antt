-- ===== src/Hermes/Runner/Laws.antt =====
-- hermes/runner.py and sandbox_adapter.py: a command that returns from the sandbox, and its profile.
use agentopia.Prelude.{
  ℕ, ◌-◌, ◌*◌, ◌≤◌, ◌≡◌, refl, sym, ap, ◌∙◌, List, String, Option, none, some, Bool, true, false,
  arith, if◌then◌else◌, [], ◌∷◌, ◌<>◌,
}
use agentopia.Prelude.Json.{Json, num, str, dict}
use agentopia.Python.{Except, ok, raise, Exception, join}
use agentopia.Hermes.Platform.{CommandRequest}
use text.Mathlib.TextLemmas.{append_assoc, nil-append}
use agentopia.Hermes.Runner.{
  Sandbox, Ended, well, badly, expired, broken, ended, run_sandboxed, run_limited, is_over,
  is_timeout, sandboxed, sandbox_profile, subpaths,
}

ok_inj : {A : Type 0} {a b : A} → ok a ≡ ok b → a ≡ b
ok_inj e = cc

ended-well :
    (x : Ended) (result : Json)
    → ended x ≡ ok result
    → (stdout stderr : String) × (x ≡ well stdout stderr)
      × (result
          ≡ dict (("stdout", str stdout) ∷ ("stderr", str stderr) ∷ ("returncode", num 0) ∷ []))
ended-well (well stdout stderr) result e = (stdout, stderr, refl, sym (ok_inj e))
ended-well (badly stdout stderr) result e = absurd (cc)
ended-well expired result e = absurd (cc)
ended-well (broken x) result e = absurd (cc)

-- The time between two readings of the clock, in microseconds, is within a limit in seconds.
abbrev pub IsWithin : Option ℕ → ℕ → ℕ → Type 0
IsWithin none start end = Unit
IsWithin (some n) start end = end - start ≤ n * 1_000_000

is_over-IsWithin :
    (show_number : ℕ → String) (limit : Option ℕ) (start end : ℕ)
    → is_over show_number limit start end ≡ false
    → IsWithin limit start end
is_over-IsWithin show_number none start end e = tt
is_over-IsWithin show_number (some n) start end e = ground arith

-- How a profile begins and ends: everything is denied, but for processes, for reading, and for writing
-- below the workspace; the network is allowed or denied.
pub record Guards (allow_network : Bool) (workspace profile : String) : Type 0 where
  pub rest : String
  pub begins :
      profile
      ≡ "\n(version 1)\n(deny default)\n(allow process*)\n(allow file-read*)\n(allow file-write*"
        <> "\n    (subpath \"" <> workspace <> "\")\n    (subpath \"" <> rest
  pub front : String
  pub ends :
      profile ≡ front <> (if allow_network then "(allow network*)\n" else "(deny network*)\n")

-- Texts one after the other, before a last one.
joined : List String → String → String
joined [] last = last
joined (t ∷ ts) last = t <> joined ts last

joined_last : (ts : List String) (last : String) → joined ts last ≡ joined ts "" <> last
unfolding joined
joined_last [] last = sym (nil-append last)
joined_last (t ∷ ts) last =
    ap (λ r. t <> r) (joined_last ts last) ∙ sym (append_assoc t (joined ts "") last)

network_rule : Bool → String
network_rule allow_network = if allow_network then "(allow network*)" else "(deny network*)"

rule_line :
    (allow_network : Bool)
    → network_rule allow_network <> "\n"
      ≡ (if allow_network then "(allow network*)\n" else "(deny network*)\n")
unfolding network_rule
rule_line true = refl
rule_line false = refl

sandbox_profile-Guards :
    (allow_network : Bool) (workspace tmpdir : String)
    → Guards allow_network workspace (sandbox_profile allow_network workspace tmpdir)
unfolding sandbox_profile joined network_rule
sandbox_profile-Guards allow_network workspace tmpdir =
    let paths = subpaths workspace tmpdir in
    let middle : String = "\")\n    (subpath \"" in
    let box = tmpdir <> "\")\n)" in
    let last : String = network_rule allow_network <> "\n" in
    let after : List String =
      "\n(allow file-write-data" ∷ paths ∷ "\n(allow file-write-mode" ∷ paths
      ∷ "\n(allow file-write-create" ∷ paths ∷ "\n" ∷ [] in
    let head : String =
      "\n(version 1)\n(deny default)\n(allow process*)\n(allow file-read*)\n(allow file-write*" in
    record {
      rest = (tmpdir <> "\")\n)") <> joined after last;
      begins =
          ap (λ r. head <> r)
            (append_assoc "\n    (subpath \"" (workspace <> middle <> box) (joined after last)
              ∙ ap (λ r. "\n    (subpath \"" <> r)
                  (append_assoc workspace (middle <> box) (joined after last)
                    ∙ ap (λ r. workspace <> r) (append_assoc middle box (joined after last))));
      front = joined (head ∷ paths ∷ after) "";
      ends =
          joined_last (head ∷ paths ∷ after) last
          ∙ ap (λ r. joined (head ∷ paths ∷ after) "" <> r) (rule_line allow_network);
    }

-- A test that does not raise.
passed :
    {result : Json} (x : Exception) (b : Bool) (r : Except Json)
    → (if b then raise x else r) ≡ ok result
    → (b ≡ false) × (r ≡ ok result)
passed x true r e = absurd (cc)
passed x false r e = (refl, e)

module _ (show_number : ℕ → String) (request : CommandRequest) (start end : ℕ) where
  limited-ok :
      (r : Except Json) (result : Json)
      → run_limited show_number request start end r ≡ ok result
      → (r ≡ ok result) × (is_over show_number request.max_runtime_seconds start end ≡ false)
  unfolding run_limited
  limited-ok (ok j) result e =
      let (within, kept) =
        passed _ (is_over show_number request.max_runtime_seconds start end) _ e in
      (kept, within)
  limited-ok (raise x) result e =
      let (other, kept) = passed _ (is_timeout show_number x.kind) _ e in absurd (cc)

  -- A command in the sandbox that returns was given to /bin/sh by /usr/bin/sandbox-exec, in its
  -- directory and with its limit, under a profile that denies what it does not allow, allows writing
  -- below that directory, and denies the network unless the adapter allows it. It ended with the code
  -- 0, and its outputs are the result; between the two readings of the clock its limit, where it has
  -- one, was not exceeded.
  pub sandbox_runner_lem :
      (sandbox : Sandbox) (result : Json)
      → run_limited show_number request start end (run_sandboxed sandbox request) ≡ ok result
      → (profile stdout stderr : String) × (sandbox.run profile
            ("/usr/bin/sandbox-exec"
              ∷ "-f"
              ∷ (sandbox.tmpdir <> "/sandbox.sb")
              ∷ "/bin/sh"
              ∷ "-lc"
              ∷ request.command
              ∷ [])
            request.cwd
            request.max_runtime_seconds
          ≡ well stdout stderr)
        × Guards sandbox.allow_network ("/" <> join "/" request.cwd) profile
        × (result
            ≡ dict (("stdout", str stdout) ∷ ("stderr", str stderr) ∷ ("returncode", num 0) ∷ []))
        × IsWithin request.max_runtime_seconds start end
  unfolding run_sandboxed
  sandbox_runner_lem sandbox result e =
      let (returned, within) = limited-ok (run_sandboxed sandbox request) result e in
      let (stdout, stderr, ran, same) = ended-well (sandboxed sandbox request) result returned in
      (
        sandbox_profile sandbox.allow_network ("/" <> join "/" request.cwd) sandbox.tmpdir,
        stdout,
        stderr,
        ran,
        sandbox_profile-Guards sandbox.allow_network ("/" <> join "/" request.cwd) sandbox.tmpdir,
        same,
        is_over-IsWithin show_number request.max_runtime_seconds start end within,
      )
