-- ===== src/Hermes/Executor/Memory.antt =====
-- hermes/executor.py: whose memory a request is about, and the memory context as a dictionary.
use agentopia.Prelude.{String, Option, none, some, [], ◌∷◌, ◌==◌, if◌then◌else◌}
use agentopia.Prelude.Json.{Json, null, str, arr, nil, dict, or_else}
use agentopia.Prelude.Texts.{strip}
use agentopia.Python.{Except, ok, ◌>>=◌, get}
use agentopia.Hermes.Platform.{Platform, MemoryScope, Wakeup}
use agentopia.Hermes.Guards.{task_value}

-- `f"{v}"`
abbrev pub text_for : Platform → Json → String
text_for env (str s) = s
text_for env v = env.show v

-- The dictionary that `_build_memory_context` makes.
abbrev pub memory_json : MemoryScope → Wakeup → Json
memory_json scope w = dict (
    ("tenant_id", str scope.tenant_id)
    ∷ ("org_id", str scope.org_id)
    ∷ ("client_id", str scope.client_id)
    ∷ ("memory_mode", w.memory_mode)
    ∷ ("memory_source", w.memory_source)
    ∷ ("memory_hits", or_else w.memory_hits (arr nil))
    ∷ ("fallback_reason", w.fallback_reason)
    ∷ [])

module _ (env : Platform) where
  -- `str(tenant.get(key) or "").strip()`
  abbrev scope_part : Json → String → Except String
  scope_part tenant key = do v ← get tenant key; ok (strip (text_for env (or_else v (str ""))))

  abbrev scope_of : Json → String → Except (Option MemoryScope)
  scope_of tenant tenant_id = do
    org_id ← scope_part tenant "org_id"
    client_id ← scope_part tenant "client_id"
    ok (some (record { tenant_id = tenant_id; org_id = org_id; client_id = client_id }))

  -- `_memory_scope`
  unfoldable pub memory_scope : Json → Except (Option MemoryScope)
  memory_scope request = do
    found ← task_value request "tenant" null
    let tenant = or_else found (dict [])
    tenant_id ← scope_part tenant "tenant_id"
    if tenant_id == "" then ok none else scope_of tenant tenant_id
