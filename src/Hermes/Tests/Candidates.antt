-- ===== src/Hermes/Tests/Candidates.antt =====
-- A stored preview that is offered at its issue.
use agentopia.Prelude.{◌≡◌, refl, Option, none, some, true, [], ◌∷◌, All}
use agentopia.Prelude.Table.{Table}
use agentopia.Prelude.Json.{Json, bool, str, dict}
use agentopia.Prelude.Equality.{same}
use agentopia.Python.{ok}
use agentopia.Hermes.Runs.{
  read_run, is_apply_run, apply_item, changes_of, apply_candidate, resolve,
  resolve_issue_apply_candidates,
}
use agentopia.Hermes.Runs.Candidates.{Somewhere, IsPreviewOf, candidates_are_previews}

abbrev result : Json
result = dict (
    ("task_id", str "t1")
    ∷ ("run", dict (("run_id", str "r1") ∷ ("status", str "succeeded") ∷ []))
    ∷ (
      "result",
      dict (
          (
            "metadata",
            dict (
                ("task_type", str "repo_write")
                ∷ ("paperclip_issue_id", str "i1")
                ∷ ("repo_write", dict (("preview_only", bool true) ∷ []))
                ∷ []),
          )
          ∷ []),
    )
    ∷ [])

abbrev runs : Table (Option Json)
runs = ("bad.json", none) ∷ ("t1__r1.json", some (dict (("result", result) ∷ []))) ∷ []

offered : (item : Json) × (resolve_issue_apply_candidates runs (str "i1") ≡ ok (item ∷ []))
unfolding resolve_issue_apply_candidates resolve apply_candidate read_run is_apply_run apply_item
    changes_of same
offered = (_, refl)

candidates_are_previews_example :
    All (λ item. Somewhere (λ found. IsPreviewOf (str "i1") found item) runs) (offered.0 ∷ [])
candidates_are_previews_example =
    candidates_are_previews runs (str "i1") (offered.0 ∷ []) (offered.1)
