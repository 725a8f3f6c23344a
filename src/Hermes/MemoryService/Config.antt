-- ===== src/Hermes/MemoryService/Config.antt =====
-- hermes/memory/config.py: whose memory a request is about, and the configuration of a tenant.
use agentopia.Prelude.{
  String, Option, none, some, Bool, true, false, ◌||◌, List, [], ◌∷◌, ◌++◌, ◌<>◌, if◌then◌else◌,
}
use agentopia.Prelude.Json.{Json, bool, str, dict}
use agentopia.Prelude.Texts.{universal_newlines}
use agentopia.Python.{Except, ok, raise}
use agentopia.Hermes.Platform.{FilePath, Node, file, directory, Files, MemoryScope, look, change}
use agentopia.Hermes.Files.Paths.{candidate, parent, same_path, is_below}
use agentopia.Hermes.Files.Bounds.{put, make_dirs, os_error}
use agentopia.Hermes.MemoryService.Scope.{read_scope, config_of}
use agentopia.Hermes.Station.{Deployment, MemPalaceConfig, Work, pure, lift, work, ◌>>=◌, ◌>>◌}

-- `asdict(config)` and `asdict(scope)`
abbrev pub config_fields : MemPalaceConfig → List (String × Json)
config_fields config =
    ("enabled", bool config.enabled)
    ∷ ("command", str config.command)
    ∷ ("palace_path", config.palace_path)
    ∷ ("memory_mode", str config.memory_mode)
    ∷ []

abbrev pub scope_json : MemoryScope → Json
scope_json scope = dict (
    ("tenant_id", str scope.tenant_id)
    ∷ ("org_id", str scope.org_id)
    ∷ ("client_id", str scope.client_id)
    ∷ [])

module _ (d : Deployment) where
  unfoldable pub require_memory_scope : Json → Work MemoryScope
  require_memory_scope payload = lift (read_scope d payload)

  abbrev pub memory_root : FilePath
  memory_root = d.workspace ++ "var" ∷ "hermes" ∷ "memory" ∷ []

  -- `MEMORY_ROOT / scope.tenant_id`, as the file system reads it where the folders on the way are there
  unfoldable pub tenant_memory_dir : MemoryScope → FilePath
  tenant_memory_dir scope = candidate memory_root scope.tenant_id

  abbrev pub tenant_config_path : MemoryScope → FilePath
  tenant_config_path scope = tenant_memory_dir scope ++ "mempalace-config.json" ∷ []

  abbrev pub tenant_status_path : MemoryScope → FilePath
  tenant_status_path scope = tenant_memory_dir scope ++ "mempalace-status.json" ∷ []

  -- `json.loads(path.read_text())` where the file exists; `none` where it does not or it raises
  abbrev pub parsed : Option Node → Option Json
  parsed none = none
  parsed (some directory) = none
  parsed (some (file text)) = elim (d.loads (universal_newlines text)) [
    | ok j ↦ some j
    | raise e ↦ none
  ]

  -- The configuration of a file, or that of the environment.
  unfoldable pub config_from : Option Json → MemPalaceConfig
  config_from none = d.env_config
  config_from (some j) = elim (config_of d j) [ ok config ↦ config | raise e ↦ d.env_config ]

  unfoldable pub load_mempalace_config : MemoryScope → Work MemPalaceConfig
  load_mempalace_config scope =
      work (look (λ fs. fs (tenant_config_path scope))) >>= λ node. pure (config_from (parsed node))

  -- `path.write_text(text)`: a directory cannot be written.
  abbrev pub write_file : FilePath → String → Files → Option Node → Except Files
  write_file path text fs (some directory) = raise (os_error "[Errno 21] Is a directory")
  write_file path text fs _ = ok (put path (file text) fs)

  -- `path.parent.mkdir(parents=True, exist_ok=True)` and `path.write_text(…)`
  unfoldable pub write_json : FilePath → Json → Work (Unit {0})
  write_json path j = do
    work (change (make_dirs [] (parent path)))
    work (change (λ fs. write_file path (d.dumps j <> "\n") fs (fs path)))

  unfoldable pub save_mempalace_config : MemoryScope → Json → Work MemPalaceConfig
  save_mempalace_config scope payload = do
    config ← lift (config_of d payload)
    write_json (tenant_config_path scope) (dict (config_fields config))
    pure config

  abbrev exists : Option Node → Bool
  exists none = false
  exists (some n) = true

  -- `shutil.rmtree(memory_dir)`; what is no directory is refused. That the removal of the directory
  -- itself fails after its contents are gone, for a tenant named `..`, is left out.
  abbrev pub remove_tree : FilePath → Files → Option Node → Except Files
  remove_tree dir fs none = ok fs
  remove_tree dir fs (some (file text)) = raise (os_error "[Errno 20] Not a directory")
  remove_tree dir fs (some directory) =
      ok (λ q. if same_path dir q || is_below dir q then none else fs q)

  unfoldable pub delete_tenant_memory : MemoryScope → Work Bool
  delete_tenant_memory scope = do
    node ← work (look (λ fs. fs (tenant_memory_dir scope)))
    work (change (λ fs. remove_tree (tenant_memory_dir scope) fs (fs (tenant_memory_dir scope))))
    pure (exists node)
