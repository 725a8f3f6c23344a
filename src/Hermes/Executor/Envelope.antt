-- ===== src/Hermes/Executor/Envelope.antt =====
-- hermes/executor.py: the dictionaries that `_success` and `_failure` make.
use agentopia.Prelude.{ℕ, String, Option, none, some, false, [], ◌∷◌, ◌<>◌}
use agentopia.Prelude.Json.{Json, null, bool, num, str, arr, dict, of_list}
use agentopia.Hermes.Platform.{Platform}
use agentopia.Hermes.Executor.Memory.{text_for}
use agentopia.Hermes.Executor.Handlers.{Payload, texts_json}

-- What a task came to: the payload of its handler, or an error code with a message.
pub data Outcome : Type 0 where
  succeeded : Payload → Option Json → Outcome
  failed : String → String → Outcome

abbrev pub run_json : String → String → Json
run_json name status = dict (
    ("run_id", str ("run_" <> name))
    ∷ ("status", str status)
    ∷ ("started_at", str "2026-04-04T18:00:00Z")
    ∷ ("finished_at", str "2026-04-04T18:00:00Z")
    ∷ ("runtime_seconds", num 0)
    ∷ [])

abbrev pub usage_json : ℕ → Json
usage_json tool_calls = dict (
    ("actual_cost_usd", num 0)
    ∷ ("model_provider", str "local")
    ∷ ("model_name", str "scaffold")
    ∷ ("tool_calls", num tool_calls)
    ∷ [])

abbrev pub metadata_json : Option Json → Json
metadata_json none = dict []
metadata_json (some m) = dict (("memory", m) ∷ [])

-- `_success` and `_failure`
unfoldable pub envelope : Platform → Json → Json → Outcome → Json
envelope env task_id trace_id (succeeded p memory) = dict (
    ("schema_version", str "v1")
    ∷ ("task_id", task_id)
    ∷ ("run", run_json (text_for env task_id) "succeeded")
    ∷ (
      "result",
      dict (
          ("summary", str p.summary)
          ∷ ("output_format", str "markdown")
          ∷ ("output", str p.output)
          ∷ ("notes", texts_json p.notes)
          ∷ ("metadata", metadata_json memory)
          ∷ ("error", null)
          ∷ []),
    )
    ∷ ("artifacts", arr (of_list p.artifacts))
    ∷ ("usage", usage_json p.tool_calls)
    ∷ ("trace", dict (("trace_id", trace_id) ∷ ("reported_at", str "2026-04-04T18:00:00Z") ∷ []))
    ∷ [])
envelope env task_id trace_id (failed code message) = dict (
    ("schema_version", str "v1")
    ∷ ("task_id", task_id)
    ∷ ("run", run_json (text_for env task_id) "failed")
    ∷ (
      "result",
      dict (
          ("summary", str "Task execution failed")
          ∷ ("output_format", str "markdown")
          ∷ ("output", str "")
          ∷ ("notes", texts_json [])
          ∷ (
            "error",
            dict (("code", str code) ∷ ("message", str message) ∷ ("retryable", bool false) ∷ []),
          )
          ∷ []),
    )
    ∷ ("artifacts", arr (of_list []))
    ∷ ("usage", usage_json 0)
    ∷ ("trace", dict (("trace_id", trace_id) ∷ ("reported_at", str "2026-04-04T18:00:00Z") ∷ []))
    ∷ [])
