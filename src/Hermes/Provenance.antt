-- ===== src/Hermes/Provenance.antt =====
-- hermes/memory/provenance.py
use agentopia.Prelude.{ℕ, Option, none, some, [], ◌∷◌, length}
use agentopia.Prelude.Json.{Json, str, num, arr, obj, nil, dict, items, or_else}
use agentopia.Python.{Except, ok, ◌>>=◌, get, get_or}

abbrev hit_count : Json → ℕ
hit_count (arr hits) = length (items hits)
hit_count _ = 0

abbrev provenance_of : Json → Except (Option Json)
provenance_of (obj fs) = do
  found ← get (obj fs) "memory_hits"
  let hits = or_else found (arr nil)
  tenant ← get_or (obj fs) "tenant_id" (str "")
  org ← get_or (obj fs) "org_id" (str "")
  client ← get_or (obj fs) "client_id" (str "")
  mode ← get (obj fs) "memory_mode"
  source ← get (obj fs) "memory_source"
  ok (
      some (
        dict (
          ("tenant_id", tenant)
          ∷ ("org_id", org)
          ∷ ("client_id", client)
          ∷ ("memory_mode", mode)
          ∷ ("memory_source", source)
          ∷ ("memory_hit_count", num (hit_count hits))
          ∷ [])))
provenance_of _ = ok none

unfoldable pub extract_memory_provenance : Json → Except (Option Json)
extract_memory_provenance result = do
  inner ← get (or_else result (dict [])) "result"
  metadata ← get (or_else inner (dict [])) "metadata"
  memory ← get (or_else metadata (dict [])) "memory"
  provenance_of memory
