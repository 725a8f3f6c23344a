-- ===== src/Hermes/MemoryService/RoundTrip.antt =====
-- hermes/memory/: a configuration that is set is the one that is read.
use agentopia.Prelude.{
  ◌≡◌, refl, ap, sym, ◌∙◌, String, Option, none, some, true, false, [], ◌==◌, ◌<>◌, if◌then◌else◌,
  arith, Bool-cases, inl, inr,
}
use agentopia.Prelude.Json.{Json, null, bool, num, str, arr, obj, dict, or_else, truthy}
use agentopia.Prelude.Texts.{universal_newlines}
use agentopia.Python.{Except, ok, raise, bind-ok, get, get_or}
use agentopia.Hermes.Platform.{FilePath, Node, file, directory, Files, MemoryScope, look, change}
use agentopia.Hermes.Files.Paths.{same_path_refl, parent}
use agentopia.Hermes.Files.Bounds.{put, make_dirs}
use agentopia.Hermes.Executor.Memory.{text_for}
use agentopia.Hermes.Station.{Station, Deployment, MemPalaceConfig, work, pure, lift, works}
use agentopia.Hermes.Station.Laws.{work_ok, work_step, lift_step}
use agentopia.Hermes.MemoryService.Scope.{read_scope, config_of}
use agentopia.Hermes.MemoryService.Config.{
  config_fields, config_from, parsed, write_file, write_json, tenant_config_path,
  require_memory_scope, load_mempalace_config, save_mempalace_config,
}
use agentopia.Hermes.MemoryService.Service.{scoped, get_config, set_config}

put_same : (p : FilePath) (n : Node) (fs : Files) → put p n fs p ≡ some n
put_same p n fs = ap (λ b. if b then some n else fs p) (same_path_refl p)

ok_inj : {A : Type 0} (a b : A) → ok a ≡ ok b → a ≡ b
ok_inj a b e = cc

module _ (d : Deployment) where
  -- A file that is changed without an exception holds the text.
  write_file-ok :
      (p : FilePath) (t : String) (fs fs' : Files) (o : Option Node)
      → write_file d p t fs o ≡ ok fs'
      → fs' p ≡ some (file t)
  write_file-ok p t fs fs' none e =
      let same : put p (file t) fs ≡ fs' = cc in ap (λ g. g p) (sym same) ∙ put_same p (file t) fs
  write_file-ok p t fs fs' (some (file u)) e =
      let same : put p (file t) fs ≡ fs' = cc in ap (λ g. g p) (sym same) ∙ put_same p (file t) fs
  write_file-ok p t fs fs' (some directory) e = absurd (cc)

  change_file-ok :
      (p : FilePath) (t : String) (s : Station)
      → (work (change (λ fs. write_file d p t fs (fs p))) s).0 ≡ ok tt
      → (work (change (λ fs. write_file d p t fs (fs p))) s).1.host.files p ≡ some (file t)
  unfolding work change
  change_file-ok p t s e =
      go (write_file d p t s.host.files (s.host.files p)) e
        (λ fs'. write_file-ok p t s.host.files fs' (s.host.files p))
    where
      go :
          (r : Except Files)
          → (work (change (λ fs. r)) s).0 ≡ ok tt
          → ((fs' : Files) → r ≡ ok fs' → fs' p ≡ some (file t))
          → (work (change (λ fs. r)) s).1.host.files p ≡ some (file t)
      go (ok fs') e k = k fs' refl
      go (raise x) e k = absurd (cc)

  write_json-ok :
      (p : FilePath) (j : Json) (s : Station)
      → (write_json d p j s).0 ≡ ok tt
      → (write_json d p j s).1.host.files p ≡ some (file (d.dumps j <> "\n"))
  unfolding write_json
  write_json-ok p j s e =
      let (u, made, rest) = work_ok (work (change (make_dirs [] (parent p)))) _ s e in
      let written =
        change_file-ok p (d.dumps j <> "\n") (work (change (make_dirs [] (parent p))) s).1
          (ap (λ r. r.0) (sym rest) ∙ e) in
      ap (λ r. r.1.host.files p) rest ∙ written

  module _ (shows : (v : Json) → (d.platform.show v == "") ≡ false) where
    text_for-named : (v : Json) → truthy v ≡ true → (text_for d.platform v == "") ≡ false
    text_for-named (str s) h = ground arith
    text_for-named null h = shows null
    text_for-named (bool b) h = shows (bool b)
    text_for-named (num n) h = shows (num n)
    text_for-named (arr js) h = shows (arr js)
    text_for-named (obj fs) h = shows (obj fs)

    or_else-named :
        (v : Json) (default : String)
        → (default == "") ≡ false
        → (text_for d.platform (or_else v (str default)) == "") ≡ false
    or_else-named v default named = elim (Bool-cases (truthy v)) [
      | inl full ↦ rw full (text_for-named v full)
      | inr otherwise ↦ rw otherwise named
    ]

    -- A configuration that is read has a command and a mode.
    config_of-named :
        (payload : Json) (config : MemPalaceConfig)
        → config_of d payload ≡ ok config
        → ((config.command == "") ≡ false) × ((config.memory_mode == "") ≡ false)
    config_of-named payload config e =
        let (enabled, e1, r1) = bind-ok (get_or payload "enabled" (bool false)) _ e in
        let (command, e2, r2) = bind-ok (get payload "command") _ r1 in
        let (palace, e3, r3) = bind-ok (get payload "palace_path") _ r2 in
        let (mode, e4, r4) = bind-ok (get payload "memory_mode") _ r3 in
        let same_command : text_for d.platform (or_else command (str "mempalace"))
            ≡ config.command =
          cc in
        let same_mode : text_for d.platform (or_else mode (str "augment")) ≡ config.memory_mode =
          cc in
        (
          ap (λ c. c == "") (sym same_command) ∙ or_else-named command "mempalace" refl,
          ap (λ c. c == "") (sym same_mode) ∙ or_else-named mode "augment" refl,
        )

  named_or_else :
      (text default : String)
      → (text == "") ≡ false
      → text_for d.platform (or_else (str text) (str default)) ≡ text
  named_or_else text default named = rw named refl

  config_of-fields :
      (config : MemPalaceConfig)
      → (config.command == "") ≡ false
      → (config.memory_mode == "") ≡ false
      → config_of d (dict (config_fields config)) ≡ ok config
  config_of-fields config command mode =
      rw
        (
          named_or_else config.command "mempalace" command,
          named_or_else config.memory_mode "augment" mode,
        )
        refl

  from_file :
      (config : MemPalaceConfig) (text : String)
      → d.loads (universal_newlines text) ≡ ok (dict (config_fields config))
      → config_of d (dict (config_fields config)) ≡ ok config
      → config_from d (parsed d (some (file text))) ≡ config
  unfolding config_from
  from_file config text reads same =
      ap (λ r. config_from d (elim r [ ok j ↦ some j | raise e ↦ none ])) reads
      ∙ ap (λ r. elim r [ ok c ↦ c | raise e ↦ d.env_config ]) same

  -- A configuration that is saved without an exception is the one that is stated, and is in the file.
  saved :
      (scope : MemoryScope) (payload : Json) (config c : MemPalaceConfig) (s : Station)
      → config_of d payload ≡ ok config
      → (save_mempalace_config d scope payload s).0 ≡ ok c
      → (config ≡ c)
        × ((save_mempalace_config d scope payload s).1.host.files (tenant_config_path d scope)
            ≡ some (file (d.dumps (dict (config_fields config)) <> "\n")))
  unfolding save_mempalace_config pure
  saved scope payload config c s states e =
      let writes = write_json d (tenant_config_path d scope) (dict (config_fields config)) in
      let save = lift_step _ (config_of d payload) s states in
      let (u, written, rest) = work_ok writes (λ _. pure config) s (ap (λ r. r.0) (sym save) ∙ e) in
      let all : save_mempalace_config d scope payload s ≡ (ok config, (writes s).1) = save ∙ rest in
      let same : config ≡ c = ok_inj config c (ap (λ r. r.0) (sym all) ∙ e) in
      (
        same,
        ap (λ r. r.1.host.files (tenant_config_path d scope)) all
            ∙ write_json-ok (tenant_config_path d scope) (dict (config_fields config)) s written,
      )

  -- What is read where the file holds the configuration.
  load-ok :
      (scope : MemoryScope) (config : MemPalaceConfig) (s : Station) (text : String)
      → s.host.files (tenant_config_path d scope) ≡ some (file text)
      → d.loads (universal_newlines text) ≡ ok (dict (config_fields config))
      → config_of d (dict (config_fields config)) ≡ ok config
      → load_mempalace_config d scope s ≡ (ok config, s)
  unfolding load_mempalace_config works look
  load-ok scope config s text found reads same =
      ap (λ node. (ok (config_from d (parsed d node)), s)) found
      ∙ ap (λ c. (ok c, s)) (from_file config text reads same)

  module _ (shows : (v : Json) → (d.platform.show v == "") ≡ false) where
    -- Where `str` of no value is empty, and `json.loads` of the file gives back the dictionary that
    -- `json.dumps` wrote, a configuration that is set without an exception is what is then read at
    -- the same scope, and the reading changes nothing.
    pub config_set_is_read :
        (scope_payload payload : Json) (config : MemPalaceConfig) (s : Station) (j : Json)
        → config_of d payload ≡ ok config
        → d.loads (universal_newlines (d.dumps (dict (config_fields config)) <> "\n"))
          ≡ ok (dict (config_fields config))
        → (set_config d scope_payload payload s).0 ≡ ok j
        → get_config d scope_payload (set_config d scope_payload payload s).1
          ≡ (ok j, (set_config d scope_payload payload s).1)
    unfolding set_config get_config require_memory_scope pure lift
    config_set_is_read scope_payload payload config s j states reads e =
        let (scope, named, first) = work_ok (lift (read_scope d scope_payload)) _ s e in
        let (c, kept, second) =
          work_ok (save_mempalace_config d scope payload)
            (λ c. pure (scoped scope (config_fields c))) s (ap (λ r. r.0) (sym first) ∙ e) in
        let (same, holds) = saved scope payload config c s states kept in
        let (command, mode) = config_of-named shows payload config states in
        let set : set_config d scope_payload payload s
            ≡ (ok (scoped scope (config_fields c)), (save_mempalace_config d scope payload s).1) =
          first ∙ second in
        let loads =
          load-ok scope config (save_mempalace_config d scope payload s).1 _ holds reads
            (config_of-fields config command mode) in
        ap (λ z. get_config d scope_payload z.1) set
        ∙ lift_step _ (read_scope d scope_payload) _ named
        ∙ work_step _ (load_mempalace_config d scope) _ loads
        ∙ ap
            (λ k.
              (ok (scoped scope (config_fields k)), (save_mempalace_config d scope payload s).1))
            same
        ∙ ap (λ r. (r, (save_mempalace_config d scope payload s).1)) (ap (λ r. r.0) (sym set) ∙ e)
        ∙ ap (λ z. (ok j, z.1)) (sym set)
