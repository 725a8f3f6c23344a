-- ===== src/Hermes/MemoryService/Scope.antt =====
-- hermes/memory/config.py: what is read of a payload, whose memory it is about and a configuration.
use agentopia.Prelude.{◌≡◌, ap, String, false, [], ◌==◌, if◌then◌else◌}
use agentopia.Prelude.Json.{Json, bool, str, dict, or_else, truthy}
use agentopia.Prelude.Texts.{strip}
use agentopia.Python.{Except, ok, raise, ◌>>=◌, value_error, get, get_or}
use agentopia.Hermes.Platform.{MemoryScope}
use agentopia.Hermes.Executor.Memory.{text_for}
use agentopia.Hermes.Station.{Deployment, MemPalaceConfig}

module _ (d : Deployment) where
  -- `str(payload.get(key) or "").strip()`
  unfoldable pub scope_text : Json → String → Except String
  scope_text payload key = do
    v ← get payload key
    ok (strip (text_for d.platform (or_else v (str ""))))

  abbrev pub need_tenant : String → Except String
  need_tenant tenant_id =
      if tenant_id == ""
      then raise (value_error "tenant_id is required for memory operations")
      else ok tenant_id

  -- `require_memory_scope`: what it returns or raises
  unfoldable pub read_scope : Json → Except MemoryScope
  read_scope payload = do
    found ← scope_text (or_else payload (dict [])) "tenant_id"
    tenant_id ← need_tenant found
    org_id ← scope_text (or_else payload (dict [])) "org_id"
    client_id ← scope_text (or_else payload (dict [])) "client_id"
    ok (record { tenant_id = tenant_id; org_id = org_id; client_id = client_id })

  -- The configuration that a dictionary states.
  abbrev pub config_of : Json → Except MemPalaceConfig
  config_of j = do
    enabled ← get_or j "enabled" (bool false)
    command ← get j "command"
    palace_path ← get j "palace_path"
    memory_mode ← get j "memory_mode"
    ok (record {
      enabled = truthy enabled;
      command = text_for d.platform (or_else command (str "mempalace"));
      palace_path = palace_path;
      memory_mode = text_for d.platform (or_else memory_mode (str "augment"));
    })

-- The scope is of the tenant that the payload names.
pub read_scope-tenant :
    (d : Deployment) (payload : Json) (tenant_id : String) (scope : MemoryScope)
    → scope_text d (or_else payload (dict [])) "tenant_id" ≡ ok tenant_id
    → (tenant_id == "") ≡ false
    → read_scope d payload ≡ ok scope
    → scope.tenant_id ≡ tenant_id
unfolding read_scope
read_scope-tenant d payload tenant_id scope names named = rw (names, named) (go _ _)
  where
    go :
        (org client : Except String)
        → (org >>= λ o.
            client >>= λ c. ok (record { tenant_id = tenant_id; org_id = o; client_id = c }))
          ≡ ok scope
        → scope.tenant_id ≡ tenant_id
    go (raise x) client e = absurd (cc)
    go (ok o) (raise x) e = absurd (cc)
    go (ok o) (ok c) e =
        let same : scope ≡ record { tenant_id = tenant_id; org_id = o; client_id = c } = cc in
        ap (λ s. s.tenant_id) same
