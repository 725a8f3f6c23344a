-- ===== src/Hermes/Runs/Laws.antt =====
-- The stored results of the executor, under the tests that offer a run to be applied or reverted.
use agentopia.Prelude.{◌≡◌, refl, String, Option, none, some, List, [], ◌∷◌}
use agentopia.Prelude.Table.{Table, Every}
use agentopia.Prelude.Json.{Json, str, dict}
use agentopia.Prelude.Texts.{lower}
use agentopia.Python.{Except, ok}
use agentopia.Hermes.Platform.{Platform}
use agentopia.Hermes.Executor.Envelope.{Outcome, succeeded, failed, envelope}
use agentopia.Hermes.Redaction.{is_sensitive_key, redact_value}
use agentopia.Hermes.Runs.{
  read_run, apply_candidate, revert_candidate, is_apply_run, is_revert_run, resolve,
}

-- What `persist_result` writes of a result.
abbrev pub stored : String → Json → Json
stored at result = dict (("persisted_at", str at) ∷ ("result", redact_value result) ∷ [])

module _ (env : Platform) (at : String) (issue_id id trace : Json) where
  pub envelope-apply :
      (o : Outcome) → apply_candidate issue_id (stored at (envelope env id trace o)) ≡ ok []
  unfolding apply_candidate read_run is_apply_run envelope redact_value is_sensitive_key lower
  envelope-apply (failed code message) = refl
  envelope-apply (succeeded p none) = refl
  envelope-apply (succeeded p (some m)) = refl

  pub envelope-revert :
      (o : Outcome) → revert_candidate issue_id (stored at (envelope env id trace o)) ≡ ok []
  unfolding revert_candidate read_run is_revert_run envelope redact_value is_sensitive_key lower
  envelope-revert (failed code message) = refl
  envelope-revert (succeeded p none) = refl
  envelope-revert (succeeded p (some m)) = refl

-- A file that gives no candidate.
abbrev pub GivesNone : (Json → Except (List Json)) → Option Json → Type 0
GivesNone candidate none = Unit
GivesNone candidate (some data') = candidate data' ≡ ok []

pub resolve_none :
    (candidate : Json → Except (List Json)) (runs : Table (Option Json))
    → Every (GivesNone candidate) runs
    → resolve candidate runs ≡ ok []
unfolding resolve
resolve_none candidate [] h = refl
resolve_none candidate ((name, none) ∷ files) h = resolve_none candidate files h.1
resolve_none candidate ((name, some data') ∷ files) h =
    rw (resolve_none candidate files h.1, h.0) refl
