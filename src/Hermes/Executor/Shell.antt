-- ===== src/Hermes/Executor/Shell.antt =====
-- The gate before the runner: hermes/shell_safety.py and hermes/network_policy.py, as the shell
-- handler goes through them.
use agentopia.Prelude.{
  ap, ◌∙◌, sym, ◌≡◌, refl, ◌⊎◌, inl, inr, String, length, Bool, true, false, not, ◌&&◌, List, [],
  ◌∷◌, ◌++◌, ◌==◌, ◌<>◌, contains, All, arith, Bool-cases, if◌then◌else◌,
}
use agentopia.Prelude.Json.{Json}
use agentopia.Prelude.Texts.{strip, occurs_in, split_at, last_part}
use agentopia.Python.{Except, ok, raise, Exception, bind-ok, guard, guard-ok, exception, Kind}
use agentopia.Python.{◌>>=◌ as bind}
use agentopia.Hermes.Platform.{
  FilePath, Files, Platform, Host, Job, CommandRequest, pure, lift, ◌>>=◌, run_command,
}
use agentopia.Hermes.Guards.{
  disallowed_tokens, disallowed_commands, allowed_commands, check_tokens, check_executable, parsed,
  executable_of, shell_safety_error, check_stripped, check_parts, validate_shell_command,
  enforce_network_policy, allow_network_for, command_uses_network,
}
use agentopia.Hermes.Executor.Handlers.{handle_shell_command}

check_tokens-absent :
    (tokens : List String) (command : String)
    → check_tokens tokens command ≡ ok tt
    → All (λ token. occurs_in token command ≡ false) tokens
unfolding check_tokens
check_tokens-absent [] command h = tt
check_tokens-absent (token ∷ tokens) command h = elim (Bool-cases (occurs_in token command)) [
  | inl there ↦ absurd (ground arith)
  | inr absent ↦ (absent, check_tokens-absent tokens command (ground arith))
]

parsed-ok : (r : Except (List String)) (parts : List String) → parsed r ≡ ok parts → r ≡ ok parts
parsed-ok (ok ps) parts h = h
parsed-ok (raise e) parts h = absurd (ground arith)

executable_of-ok :
    (parts : List String) (executable : String)
    → executable_of parts ≡ ok executable
    → (part : String) × (rest : List String) × (parts ≡ part ∷ rest)
      × (executable ≡ last_part (split_at 47 part))
executable_of-ok [] executable h = absurd (cc)
executable_of-ok (part ∷ parts) executable h =
    let same : last_part (split_at 47 part) ≡ executable = cc in (part, parts, refl, sym same)

verdict :
    (bad good : Bool) (x y : Exception) (r : Except (Unit {0}))
    → (if bad then raise x else if good then ok tt else raise y) ≡ r
    → r ≡ ok tt
    → (good ≡ true) × (bad ≡ false)
verdict true good x y r e h = absurd (cc)
verdict false true x y r e h = (refl, refl)
verdict false false x y r e h = absurd (cc)

check_executable-allowed :
    (executable : String)
    → check_executable executable ≡ ok tt
    → (contains allowed_commands executable ≡ true)
      × (contains disallowed_commands executable ≡ false)
unfolding check_executable
check_executable-allowed executable h =
    verdict (contains disallowed_commands executable) (contains allowed_commands executable) _ _
      (check_executable executable) refl h

-- What a command that passes the checks is like: none of the shell's syntax, and a program of the
-- allowlist as its first word.
pub record IsSafeCommand (env : Platform) (command : String) : Type 0 where
  pub tokens : All (λ token. occurs_in token (strip command) ≡ false) disallowed_tokens
  pub first : String
  pub rest : List String
  pub parts : env.shlex_split (strip command) ≡ ok (first ∷ rest)
  pub allowed : contains allowed_commands (last_part (split_at 47 first)) ≡ true

abbrev parts_of : Platform → String → Except (Unit {0})
parts_of env stripped = bind (parsed (env.shlex_split stripped)) check_parts

-- A command that the validation lets through has none of the disallowed tokens, and its first word
-- names a program of the allowlist.
pub validate-IsSafeCommand :
    (env : Platform) (command : String)
    → validate_shell_command env command ≡ ok tt
    → IsSafeCommand env command
unfolding validate_shell_command check_stripped check_parts
validate-IsSafeCommand env command h =
    let (_, _, h1) =
      bind-ok
        (guard (not (strip command == "")) (shell_safety_error "shell command must not be empty"))
        (λ _. check_stripped env (strip command)) h in
    let (_, clean, h2) =
      bind-ok (check_tokens disallowed_tokens (strip command)) (λ _. parts_of env (strip command))
        h1 in
    let (parts, split, h3) = bind-ok (parsed (env.shlex_split (strip command))) check_parts h2 in
    let (executable, named, h4) = bind-ok (executable_of parts) check_executable h3 in
    let (first, rest, shape, name) = executable_of-ok parts executable named in
    record {
      tokens = check_tokens-absent disallowed_tokens (strip command) clean;
      first = first;
      rest = rest;
      parts = parsed-ok (env.shlex_split (strip command)) parts split ∙ ap ok shape;
      allowed =
          ap (contains allowed_commands) (sym name) ∙ (check_executable-allowed executable h4).0;
    }

network-allowed :
    (request : Json) (command : String)
    → enforce_network_policy request command ≡ ok tt
    → command_uses_network command ≡ true
    → allow_network_for request ≡ ok true
unfolding enforce_network_policy
network-allowed request command h uses =
    let error = exception Kind.network_egress ("network egress denied for command: " <> command) in
    let (allowed, found, h1) =
      bind-ok (allow_network_for request)
        (λ a. guard (not (not a && command_uses_network command)) error) h in
    found
    ∙ ap ok (
        lifted allowed (command_uses_network command)
          (guard-ok (not (not allowed && command_uses_network command)) error h1) uses)
  where
    lifted : (a u : Bool) → not (not a && u) ≡ true → u ≡ true → a ≡ true
    lifted true u e f = refl
    lifted false true e f = absurd (cc)
    lifted false false e f = absurd (cc)

-- The step from h to h' has run no command, or one that passed the checks, in the workspace.
pub record Ran (env : Platform) (workspace : FilePath) (request : Json) (h h' : Host) : Type 0 where
  pub outcome :
      (h'.commands ≡ h.commands)
      ⊎ ((r : CommandRequest) × (h'.commands ≡ h.commands ++ r ∷ [])
          × (r.cwd ≡ workspace)
          × IsSafeCommand env r.command
          × (command_uses_network r.command ≡ true → allow_network_for request ≡ ok true))

module _ (env : Platform) (workspace : FilePath) (request : Json) where
  record Gated {A : Type 0} (m : Job A) : Type 0 where
    at : (h : Host) → Ran env workspace request h (m h).1

  Gated-check :
      {A B : Type 0} (r : Except A) {f : A → Job B}
      → ((a : A) → r ≡ ok a → Gated (f a))
      → Gated (lift r >>= f)
  unfolding lift ◌>>=◌
  Gated-check (ok a) g = record { at = λ h. (g a refl).at h }
  Gated-check (raise e) g = record { at = λ h. record { outcome = inl refl } }

  Gated-run :
      {B : Type 0} (r : CommandRequest) (k : String → B)
      → r.cwd ≡ workspace
      → IsSafeCommand env r.command
      → (command_uses_network r.command ≡ true → allow_network_for request ≡ ok true)
      → Gated (run_command env r >>= λ x. pure (k x))
  unfolding run_command ◌>>=◌ pure
  Gated-run {B} r k cwd safe network = record {
    at = λ h. record {
      outcome = inr (r, go (env.run (length h.commands) r h.files) h, cwd, safe, network);
    };
  }
    where
      go :
          (x : Except String × Files) (h : Host)
          → (((λ (g : Host). (x.0, record g { files = x.1; commands = g.commands ++ r ∷ [] }))
                >>= λ y. pure (k y))
              h).1.commands
            ≡ h.commands ++ r ∷ []
      go (ok y, fs) h = refl
      go (raise e, fs) h = refl

  handle_shell_command-Gated :
      (preview : Bool) → Gated (handle_shell_command env workspace request preview)
  unfolding handle_shell_command
  handle_shell_command-Gated preview = Gated-check _ λ found _. Gated-check _ λ description _.
      Gated-check _ λ command _. Gated-check (validate_shell_command env command) λ _ valid.
        Gated-check (enforce_network_policy request command) λ _ network. Gated-check _ λ limit _.
          Gated-run _ _ refl (validate-IsSafeCommand env command valid)
            (network-allowed request command network)

  -- Whatever the shell handler is asked, it gives the runner nothing, or one command: in the
  -- workspace, with none of the disallowed tokens and a program of the allowlist as its first word.
  -- Where `command_uses_network` holds of the command, that is, where one of the marks of
  -- network_policy.py occurs in it, the request's policy allows the network; of a command that uses
  -- the network without such a mark nothing is said.
  pub shell_gate :
      (preview : Bool) (h : Host)
      → Ran env workspace request h (handle_shell_command env workspace request preview h).1
  shell_gate preview h = (handle_shell_command-Gated preview).at h
