-- ===== src/Hermes/Tests/Memory.antt =====
-- Runs of the memory service at concrete tenants.
use agentopia.Prelude.{◌≡◌, refl, ◌⊎◌, String, none, some, true, List, [], ◌∷◌, if◌then◌else◌}
use agentopia.Prelude.Texts.{split_at, strip}
use agentopia.Prelude.Json.{Json, bool, str, dict}
use agentopia.Python.{ok}
use agentopia.Hermes.Platform.{file, directory, jobs}
use agentopia.Hermes.Confined.{text_at}
use agentopia.Hermes.Files.Paths.{is_below, same_path, candidate, follow_all}
use agentopia.Hermes.Files.Bounds.{make_dirs}
use agentopia.Hermes.MemoryService.Scope.{scope_text, read_scope}
use agentopia.Hermes.MemoryService.Config.{
  require_memory_scope, save_mempalace_config, write_json, tenant_memory_dir, delete_tenant_memory,
}
use agentopia.Hermes.MemoryService.Service.{get_config, set_config, run_operation, delete}
use agentopia.Hermes.MemoryService.Isolation.{IsPlainName, LeftBy, memory_is_isolated}
use agentopia.Hermes.MemoryService.RoundTrip.{config_set_is_read}
use agentopia.Hermes.Station.{Station, works}
use agentopia.Hermes.Tests.{host}
use agentopia.Hermes.Tests.Service.{deployment, station, memory_config}

abbrev tenant : Json
tenant = dict (("tenant_id", str "t1") ∷ [])

t1_plain : IsPlainName "t1"
unfolding split_at
t1_plain = record {
  has_one_part = refl;
  is_relative = refl;
  is_named = refl;
  is_not_here = refl;
  is_not_up = refl;
}

t1_named : scope_text deployment tenant "tenant_id" ≡ ok "t1"
unfolding scope_text strip
t1_named = refl

abbrev other_file : List String
other_file = "work" ∷ "var" ∷ "hermes" ∷ "memory" ∷ "t2" ∷ "notes" ∷ []

memory_is_isolated_example :
    (text_at other_file (set_config deployment tenant tenant station).1.host.files
      ≡ text_at other_file station.host.files)
    × ((text_at other_file (run_operation deployment tenant "mine" station).1.host.files
          ≡ text_at other_file station.host.files)
        ⊎ LeftBy deployment "mine" other_file station.host.files
            (run_operation deployment tenant "mine" station).1.host.files)
    × (text_at other_file (delete deployment tenant station).1.host.files
        ≡ text_at other_file station.host.files)
unfolding is_below
memory_is_isolated_example =
    memory_is_isolated deployment "t1" t1_plain tenant t1_named tenant "mine" station other_file
      refl

-- A tenant that names the folder of all tenants takes the memory of all away.
abbrev unnamed : Json
unnamed = dict (("tenant_id", str ".") ∷ [])

abbrev crowded : Station
crowded = record station {
  host = record host {
    files = λ p.
        if same_path p other_file
        then some (file "notes")
        else if same_path p ("work" ∷ "var" ∷ "hermes" ∷ "memory" ∷ [])
        then some directory
        else none;
  };
}

unnamed_deletes_others :
    (text_at other_file crowded.host.files ≡ some "notes")
    × (text_at other_file (delete deployment unnamed crowded).1.host.files ≡ none)
unfolding delete require_memory_scope read_scope scope_text strip delete_tenant_memory
    tenant_memory_dir candidate follow_all split_at same_path is_below works jobs
unnamed_deletes_others = (refl, refl)

abbrev stated : Json
stated = dict (("enabled", bool true) ∷ [])

config_is_set : (j : Json) × ((set_config deployment tenant stated station).0 ≡ ok j)
unfolding set_config require_memory_scope read_scope scope_text strip save_mempalace_config
    write_json make_dirs same_path tenant_memory_dir candidate follow_all split_at works jobs
config_is_set = (_, refl)

config_set_is_read_example :
    get_config deployment tenant (set_config deployment tenant stated station).1
    ≡ (ok (config_is_set.0), (set_config deployment tenant stated station).1)
config_set_is_read_example =
    config_set_is_read deployment (λ v. refl) tenant stated memory_config station (config_is_set.0)
      refl refl (config_is_set.1)
