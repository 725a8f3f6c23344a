-- ===== src/Hermes/MemoryService/Service.antt =====
-- hermes/memory/service.py: the operations of the memory service.
use agentopia.Prelude.{
  String, none, some, Bool, true, false, List, [], ◌∷◌, ◌++◌, ◌<>◌, ◌==◌, contains, if◌then◌else◌,
}
use agentopia.Prelude.Json.{
  Json, null, bool, str, arr, nil, obj, of_pairs, dict, or_else, truthy, merge,
}
use agentopia.Prelude.Texts.{strip}
use agentopia.Python.{Except, ok, raise, exception, Kind, get, get_or, join}
use agentopia.Hermes.Platform.{MemoryScope, look}
use agentopia.Hermes.MemoryService.Config.{
  require_memory_scope, load_mempalace_config, save_mempalace_config, delete_tenant_memory,
  config_fields, scope_json, tenant_status_path, tenant_memory_dir, parsed, write_json,
}
use agentopia.Hermes.MemoryService.Client.{search}
use agentopia.Hermes.Station.{
  Deployment, MemPalaceConfig, Spawned, finished, missing, broken, Work, pure, lift, work, start,
  utcnow, ◌>>=◌, ◌>>◌,
}

-- `{**first, **second}` of two literals
abbrev pub merged : List (String × Json) → List (String × Json) → Json
merged first second = obj (merge (of_pairs first) (of_pairs second))

abbrev pub scoped : MemoryScope → List (String × Json) → Json
scoped scope entries = merged (("scope", scope_json scope) ∷ []) entries

-- `/` as a text of the path
abbrev path_text : List String → String
path_text path = "/" <> join "/" path

module _ (d : Deployment) where
  unfoldable pub get_config : Json → Work Json
  get_config scope_payload = do
    scope ← require_memory_scope d scope_payload
    config ← load_mempalace_config d scope
    pure (scoped scope (config_fields config))

  unfoldable pub set_config : Json → Json → Work Json
  set_config scope_payload payload = do
    scope ← require_memory_scope d scope_payload
    config ← save_mempalace_config d scope payload
    pure (scoped scope (config_fields config))

  -- `_read_status_file`
  unfoldable pub read_status_file : MemoryScope → Work Json
  read_status_file scope = work (look (λ fs. fs (tenant_status_path d scope))) >>= λ node.
      pure (elim (parsed d node) [ none ↦ dict [] | some j ↦ j ])

  -- `_write_status_file`
  unfoldable pub write_status_file : MemoryScope → String → Json → Json → Work (Unit {0})
  write_status_file scope operation synced_at error = write_json d (tenant_status_path d scope) (
      dict (
        ("last_operation", str operation)
        ∷ ("last_synced_at", synced_at)
        ∷ ("last_error", error)
        ∷ []))

  abbrev command_found : Spawned → Except Bool
  command_found missing = ok false
  command_found (broken e) = raise e
  command_found (finished well stdout stderr) = ok true

  unfoldable pub status : Json → Work Json
  status scope_payload = do
    scope ← require_memory_scope d scope_payload
    config ← load_mempalace_config d scope
    outcome ← start d (config.command ∷ "--help" ∷ [])
    found ← lift (command_found outcome)
    persisted ← read_status_file scope
    operation ← lift (get persisted "last_operation")
    synced_at ← lift (get persisted "last_synced_at")
    error ← lift (get persisted "last_error")
    pure (
        dict (
          ("scope", scope_json scope)
          ∷ ("config", dict (config_fields config))
          ∷ ("command_found", bool found)
          ∷ ("error", if found then null else str "mempalace_command_not_found")
          ∷ ("memory_mode", str config.memory_mode)
          ∷ ("last_operation", operation)
          ∷ ("last_synced_at", synced_at)
          ∷ ("last_error", error)
          ∷ []))

  abbrev failed_operation : MemoryScope → String → String → List (String × Json) → Json
  failed_operation scope operation reason more = dict (
      (("ok", bool false) ∷ ("reason", str reason) ∷ ("operation", str operation) ∷ more)
      ++ ("scope", scope_json scope) ∷ [])

  unfoldable pub report_operation : MemoryScope → String → String → Spawned → Work Json
  report_operation scope operation now (finished true stdout stderr) = do
    write_status_file scope operation (str now) null
    pure (
        dict (
          ("ok", bool true)
          ∷ ("reason", str ("mempalace_" <> operation <> "_ok"))
          ∷ ("operation", str operation)
          ∷ ("completed_at", str now)
          ∷ ("scope", scope_json scope)
          ∷ []))
  report_operation scope operation now missing = do
    write_status_file scope operation null (str "mempalace_command_not_found")
    pure (failed_operation scope operation "mempalace_command_not_found" [])
  report_operation scope operation now (finished false stdout stderr) = do
    write_status_file scope operation null (str stderr)
    pure (
        failed_operation scope operation ("mempalace_" <> operation <> "_failed")
          (("stderr", str stderr) ∷ []))
  report_operation scope operation now (broken e) = lift (raise e)

  unfoldable pub operate : MemoryScope → MemPalaceConfig → String → String → Work Json
  operate scope config operation now =
      if config.enabled
      then (start d (config.command ∷ operation ∷ []) >>= report_operation scope operation now)
      else (do
        write_status_file scope operation null (str "mempalace_disabled")
        pure (failed_operation scope operation "mempalace_disabled" []))

  unfoldable pub run_operation : Json → String → Work Json
  run_operation scope_payload operation = do
    scope ← require_memory_scope d scope_payload
    config ← load_mempalace_config d scope
    now ← utcnow d
    operate scope config operation now

  -- `search`
  unfoldable pub search_memory : Json → Json → Work Json
  search_memory scope_payload query = do
    scope ← require_memory_scope d scope_payload
    config ← load_mempalace_config d scope
    found ← search d config query
    pure (
        merged
          (("scope", scope_json scope)
            ∷ ("config", dict (config_fields config))
            ∷ ("memory_mode", str config.memory_mode)
            ∷ [])
          found)

  unfoldable pub delete : Json → Work Json
  delete scope_payload = do
    scope ← require_memory_scope d scope_payload
    existed ← delete_tenant_memory d scope
    pure (
        dict (
          ("ok", bool true)
          ∷ (
            "reason",
            str (if existed then "tenant_memory_deleted" else "tenant_memory_already_absent"),
          )
          ∷ ("scope", scope_json scope)
          ∷ ("deleted", bool existed)
          ∷ ("path", str (path_text (tenant_memory_dir d scope)))
          ∷ []))

  -- `"\n\n".join(part for part in […] if part).strip()`
  abbrev part_text : Json → Except String
  part_text (str s) = ok s
  part_text v =
      if truthy v
      then raise (exception Kind.type_mismatch "sequence item 0: expected str instance")
      else ok ""

  abbrev query_of : String → String → String
  query_of title description = strip (
      if title == ""
      then description
      else if description == ""
      then title
      else title <> "\n\n" <> description)

  abbrev source_of : Bool → Json → String
  source_of true (str mode) =
      if contains ("augment" ∷ "prefer_mempalace" ∷ []) mode then "mempalace" else "native_only"
  source_of _ mode = "native_only"

  abbrev wakeup_answer :
      MemoryScope → Json → Json → String → Json → Json → Json → Json → Json → Json
  wakeup_answer scope title description query found reason config results mode = dict (
      ("scope", scope_json scope)
      ∷ ("config", config)
      ∷ ("ok", found)
      ∷ ("reason", reason)
      ∷ ("query", str query)
      ∷ ("memory_mode", mode)
      ∷ (
        "fallback_reason",
        if truthy found then null else or_else reason (str "mempalace_unavailable"),
      )
      ∷ (
        "wakeup_context",
        dict (
            ("issue_title", title)
            ∷ ("issue_description", description)
            ∷ ("memory_hits", or_else results (arr nil))
            ∷ ("memory_source", str (source_of (truthy found) mode))
            ∷ []),
      )
      ∷ [])

  unfoldable pub wakeup : Json → Json → Json → Work Json
  wakeup scope_payload title description = do
    scope ← require_memory_scope d scope_payload
    first ← lift (part_text title)
    second ← lift (part_text description)
    let query = query_of first second
    result ← search_memory (scope_json scope) (str query)
    mode ← lift (get result "memory_mode")
    found ← lift (get_or result "ok" (bool false))
    reason ← lift (get result "reason")
    config ← lift (get_or result "config" (dict []))
    results ← lift (get result "results")
    pure (
        wakeup_answer scope title description query found reason config results
          (or_else mode (str "augment")))
