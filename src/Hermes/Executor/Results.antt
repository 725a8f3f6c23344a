-- ===== src/Hermes/Executor/Results.antt =====
-- Whatever the executor returns is the result dictionary of some outcome.
use agentopia.Prelude.{◌≡◌, ap, sym, ◌∙◌, Bool}
use agentopia.Prelude.Json.{Json}
use agentopia.Python.{ok}
use agentopia.Hermes.Platform.{FilePath, Platform, Host, Job, pure, ◌>>=◌}
use agentopia.Hermes.Files.Writes.{job_ok}
use agentopia.Hermes.Executor.{execute}
use agentopia.Hermes.Executor.Envelope.{Outcome, envelope}

abbrev pub IsResult : Platform → Json → Type 0
IsResult env j = (id trace : Json) × (o : Outcome) × (j ≡ envelope env id trace o)

record Returns {A : Type 0} (P : A → Type 0) (m : Job A) : Type 0 where
  at : (h : Host) (a : A) → (m h).0 ≡ ok a → P a

module _ {A B : Type 0} {P : B → Type 0} where
  Returns-later : (m : Job A) (f : A → Job B) → ((a : A) → Returns P (f a)) → Returns P (m >>= f)
  Returns-later m f rf = record {
    at = λ h b e.
        let (a, _, same) = job_ok m f h e in (rf a).at (m h).1 b (ap (λ p. p.0) (sym same) ∙ e);
  }

Returns-IsResult :
    (env : Platform) (id trace : Json) (o : Outcome)
    → Returns (IsResult env) (pure (envelope env id trace o))
unfolding pure
Returns-IsResult env id trace o = record {
  at = λ h j e. let same : j ≡ envelope env id trace o = cc in (id, trace, o, same);
}

pub execute-IsResult :
    (env : Platform) (workspace : FilePath) (request : Json) (preview : Bool) (h : Host) (j : Json)
    → (execute env workspace request preview h).0 ≡ ok j
    → IsResult env j
unfolding execute
execute-IsResult env workspace request preview h j =
    (Returns-later _ _ λ type. Returns-later _ _ λ id.
        Returns-later _ _
          λ trace. Returns-later _ _ λ traced. Returns-later _ _ λ o. Returns-IsResult env _ _ o).at
      h j
