-- ===== src/Hermes/MemoryService/Client.antt =====
-- hermes/memory/mempalace_client.py: a search by the external command.
use agentopia.Prelude.{String, none, some, true, false, List, [], ◌∷◌, ◌==◌, if◌then◌else◌}
use agentopia.Prelude.Json.{Json, null, bool, str, arr, nil, obj, dict, find_field}
use agentopia.Prelude.Texts.{strip}
use agentopia.Python.{Except, ok, raise, exception, Kind}
use agentopia.Hermes.Station.{
  Deployment, MemPalaceConfig, Spawned, finished, missing, broken, Work, pure, lift, start, ◌>>=◌,
}

-- What a search answers, without a success.
abbrev pub no_hits : String → Json → List (String × Json) → List (String × Json)
no_hits reason query more =
    ("ok", bool false) ∷ ("reason", str reason) ∷ ("query", query) ∷ ("results", arr nil) ∷ more

-- `parsed.get("results") if isinstance(parsed, dict) else parsed`
abbrev pub results_of : Json → Json
results_of (obj fs) = elim (find_field "results" fs) [ none ↦ null | some v ↦ v ]
results_of parsed = parsed

abbrev pub hits : Json → Json → List (String × Json)
hits query parsed =
    ("ok", bool true)
    ∷ ("reason", str "mempalace_search_ok")
    ∷ ("query", query)
    ∷ ("results", results_of parsed)
    ∷ ("raw", parsed)
    ∷ []

module _ (d : Deployment) where
  abbrev parse : String → Except Json
  parse raw = if raw == "" then ok (dict []) else d.loads raw

  -- An argument of a command line is a text.
  abbrev argument : Json → Except String
  argument (str s) = ok s
  argument _ = raise (exception Kind.type_mismatch "expected str, bytes or os.PathLike object")

  unfoldable pub read_search : Json → Spawned → Except (List (String × Json))
  read_search query (finished true stdout stderr) = elim (parse (strip stdout)) [
    | ok parsed ↦ ok (hits query parsed)
    | raise e ↦ ok (no_hits "mempalace_invalid_json" query (("stdout", str stdout) ∷ []))
  ]
  read_search query (finished false stdout stderr) =
      ok (no_hits "mempalace_search_failed" query (("stderr", str stderr) ∷ []))
  read_search query missing = ok (no_hits "mempalace_command_not_found" query [])
  read_search query (broken e) = raise e

  -- `MemPalaceClient.search`, as the entries of the dictionary
  unfoldable pub search : MemPalaceConfig → Json → Work (List (String × Json))
  search config query =
      if config.enabled
      then (do
        text ← lift (argument query)
        outcome ← start d (config.command ∷ "search" ∷ text ∷ "--json" ∷ [])
        lift (read_search query outcome))
      else pure (no_hits "mempalace_disabled" query [])
