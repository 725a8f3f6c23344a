-- ===== src/Hermes/MemoryService/Isolation.antt =====
-- hermes/memory/: what the operations at one tenant do to the files of the others.
use agentopia.Prelude.{
  ◌≡◌, refl, String, Bool, true, false, [], ◌∷◌, ◌++◌, ◌==◌, ℕ, length, ◌⊎◌, inl, inr,
  if◌then◌else◌,
}
use agentopia.Prelude.Json.{Json, dict, or_else}
use agentopia.Prelude.Texts.{split_at}
use text.Mathlib.Text.{starts_with}
use agentopia.Python.{Except, ok, raise}
use agentopia.Hermes.Platform.{FilePath, Files, MemoryScope}
use agentopia.Hermes.Confined.{text_at}
use agentopia.Hermes.Files.Paths.{is_below, candidate, follow_all}
use agentopia.Hermes.Station.{Station, Deployment, MemPalaceConfig, Work, start, ◌>>=◌}
use agentopia.Hermes.Station.Keeps.{
  Invariant, Keeps, Keeps-pure, Keeps-lift, Keeps-utcnow, Keeps-bind, Keeps-given, Gives,
  Gives-lift,
}
use agentopia.Hermes.MemoryService.Scope.{scope_text, read_scope, read_scope-tenant}
use agentopia.Hermes.MemoryService.Outside.{
  Outside, Outside-load, Outside-save, Outside-status, Outside-report, Outside-delete,
}
use agentopia.Hermes.MemoryService.Config.{memory_root, tenant_memory_dir, require_memory_scope}
use agentopia.Hermes.MemoryService.Service.{
  set_config, operate, report_operation, run_operation, delete,
}

-- The name of a directory, and of one only.
pub record IsPlainName (name : String) : Type 0 where
  pub has_one_part : split_at 47 name ≡ name ∷ []
  pub is_relative : starts_with name "/" ≡ false
  pub is_named : (name == "") ≡ false
  pub is_not_here : (name == ".") ≡ false
  pub is_not_up : (name == "..") ≡ false

candidate_plain :
    (root : FilePath) (name : String) → IsPlainName name → candidate root name ≡ root ++ name ∷ []
unfolding candidate follow_all
candidate_plain root name plain =
    rw (plain.is_relative, plain.has_one_part, plain.is_named, plain.is_not_here, plain.is_not_up)
      refl

-- At a path, the files are as a command of the operation left them, which found them as they were.
pub record LeftBy (d : Deployment) (operation : String) (q : FilePath) (before after : Files)
    : Type 0 where
  pub number : ℕ
  pub command : String
  pub found : Files
  pub began : text_at q found ≡ text_at q before
  pub left : text_at q after ≡ text_at q (d.spawn number (command ∷ operation ∷ []) found).1

module _ (d : Deployment) (dir : FilePath) (before : Files) (operation : String) where
  -- Outside of the directory, the files are as before, or as the command left them.
  abbrev Owned : Invariant
  Owned s =
      (q : FilePath)
      → is_below dir q ≡ false
      → (text_at q s.host.files ≡ text_at q before) ⊎ LeftBy d operation q before s.host.files

  -- What starts with the files outside as before, and ends with them owned.
  record Leads {A : Type 0} (m : Work A) : Type 0 where
    at : (s : Station) → Outside dir before s → Owned (m s).1

  Leads-Keeps : {A : Type 0} {m : Work A} → Keeps (Outside dir before) m → Leads m
  Leads-Keeps km = record { at = λ s h q out. inl (km.at s h q out) }

  Leads-if : {A : Type 0} (b : Bool) {m n : Work A} → Leads m → Leads n → Leads (if b then m else n)
  Leads-if true lm ln = lm
  Leads-if false lm ln = ln

  Leads-given :
      {A B : Type 0} {P : A → Type 0} (m : Work A) (f : A → Work B)
      → Gives P m
      → Keeps (Outside dir before) m
      → ((a : A) → P a → Leads (f a))
      → Leads (m >>= f)
  unfolding ◌>>=◌
  Leads-given {A} {P = P} m f gm km lf = record { at = λ s h. go s (m s).0 (gm.at s) (km.at s h) }
    where
      go :
          (s : Station) (r : Except A)
          → ((a : A) → r ≡ ok a → P a)
          → Outside dir before (m s).1
          → Owned (((λ (z : Station). (r, (m s).1)) >>= f) s).1
      go s (ok a) known h = (lf a (known a refl)).at (m s).1 h
      go s (raise e) known h = λ q out. inl (h q out)

  Leads-bind :
      {A B : Type 0} (m : Work A) (f : A → Work B)
      → Keeps (Outside dir before) m
      → ((a : A) → Leads (f a))
      → Leads (m >>= f)
  Leads-bind m f km lf =
      Leads-given {P = λ a. Unit} m f (record { at = λ s a e. tt }) km (λ a known. lf a)

  module _ (scope : MemoryScope) (own : tenant_memory_dir d scope ≡ dir) (now : String) where
    Leads-start :
        (command : String)
        → Leads (start d (command ∷ operation ∷ []) >>= report_operation d scope operation now)
    unfolding start ◌>>=◌
    Leads-start command = record {
      at = λ s h q out. inr (record {
        number = length s.processes;
        command = command;
        found = s.host.files;
        began = h q out;
        left =
            (Outside-report d dir
                (d.spawn (length s.processes) (command ∷ operation ∷ []) s.host.files).1 scope own
                operation now _).at
              _ (λ q out. refl) q out;
      });
    }

    Leads-operate : (config : MemPalaceConfig) → Leads (operate d scope config operation now)
    unfolding operate
    Leads-operate config =
        Leads-if config.enabled (Leads-start config.command)
          (Leads-Keeps (Keeps-bind (Outside-status d dir before scope own _ _ _) λ _. Keeps-pure _))

module _ (d : Deployment) (tenant_id : String) (plain : IsPlainName tenant_id) where
  abbrev own_dir : FilePath
  own_dir = memory_root d ++ tenant_id ∷ []

  module _ (payload : Json)
      (names : scope_text d (or_else payload (dict [])) "tenant_id" ≡ ok tenant_id) where
    scope-Gives :
        Gives (λ scope. tenant_memory_dir d scope ≡ own_dir) (require_memory_scope d payload)
    unfolding require_memory_scope tenant_memory_dir
    scope-Gives = Gives-lift (read_scope d payload) λ scope e.
        rw (read_scope-tenant d payload tenant_id scope names plain.is_named e)
          (candidate_plain (memory_root d) tenant_id plain)

    after_scope :
        {A : Type 0} (before : Files) (f : MemoryScope → Work A)
        → ((scope : MemoryScope)
            → tenant_memory_dir d scope ≡ own_dir
            → Keeps (Outside own_dir before) (f scope))
        → Keeps (Outside own_dir before) (require_memory_scope d payload >>= f)
    unfolding require_memory_scope
    after_scope before f kf = Keeps-given _ f scope-Gives (Keeps-lift _) kf

    operated :
        (operation : String) (before : Files)
        → Leads d own_dir before operation (run_operation d payload operation)
    unfolding run_operation require_memory_scope
    operated operation before =
        Leads-given d own_dir before operation _ _ scope-Gives (Keeps-lift _) λ scope own.
          Leads-bind d own_dir before operation _ _ (Outside-load d own_dir _ scope own) λ c.
            Leads-bind d own_dir before operation _ _ (Keeps-utcnow d (λ s ticks h. h))
              λ now. Leads-operate d own_dir before operation scope own now c

    -- Where the tenant's name is the name of one directory, setting the configuration and deleting
    -- the memory of the tenant change no text of a file outside of the directory of that name below
    -- var/hermes/memory, whether they return or raise. Nor do mining and reindexing by themselves:
    -- outside of that directory a text is as before, or as a command left it that was started with the
    -- operation as its one argument and found the text as before.
    pub memory_is_isolated :
        (config : Json) (operation : String) (s : Station) (q : FilePath)
        → is_below own_dir q ≡ false
        → (text_at q (set_config d payload config s).1.host.files ≡ text_at q s.host.files)
          × ((text_at q (run_operation d payload operation s).1.host.files ≡ text_at q s.host.files)
              ⊎ LeftBy d operation q s.host.files
                  (run_operation d payload operation s).1.host.files)
          × (text_at q (delete d payload s).1.host.files ≡ text_at q s.host.files)
    unfolding set_config delete
    memory_is_isolated config operation s q out = (
      (after_scope _ _ (λ scope own.
            Keeps-bind (Outside-save d own_dir _ scope own config) λ c. Keeps-pure _)).at
          s (λ q out. refl) q out,
      (operated operation s.host.files).at s (λ q out. refl) q out,
      (after_scope _ _ (λ scope own.
            Keeps-bind (Outside-delete d own_dir _ scope own) λ existed. Keeps-pure _)).at
          s (λ q out. refl) q out,
    )
