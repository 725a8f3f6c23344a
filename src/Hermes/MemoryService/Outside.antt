-- ===== src/Hermes/MemoryService/Outside.antt =====
-- hermes/memory/: the files outside of a tenant's directory, under the steps of an operation.
use agentopia.Prelude.{
  ◌≡◌, refl, ap, sym, ◌∙◌, String, Option, none, some, true, false, ◌||◌, [], ◌∷◌, ◌++◌, Bool-cases,
  inl, inr, if◌then◌else◌,
}
use agentopia.Prelude.Json.{Json}
use agentopia.Python.{ok}
use agentopia.Hermes.Platform.{FilePath, Node, file, directory, Files, MemoryScope, Job, look}
use agentopia.Hermes.Confined.{text_of_node, text_at, Confined, Confined-look, Confined-change}
use agentopia.Hermes.Files.Paths.{same_path, same_path_eq, is_below, is_below-append}
use agentopia.Hermes.Files.Bounds.{put}
use agentopia.Hermes.Files.Laws.{make_dirs-Confined, put-text_other, outside-other}
use agentopia.Hermes.Station.{Deployment, Spawned, finished, missing, broken, work}
use agentopia.Hermes.Station.Keeps.{
  Invariant, Keeps, Keeps-pure, Keeps-lift, Keeps-work, Keeps-bind,
}
use agentopia.Hermes.MemoryService.Config.{
  tenant_memory_dir, load_mempalace_config, write_json, save_mempalace_config, delete_tenant_memory,
  write_file, remove_tree,
}
use agentopia.Hermes.MemoryService.Service.{report_operation, write_status_file}

-- The texts of the files that are not below a directory.
abbrev pub Outside : FilePath → Files → Invariant
Outside dir before s =
    (q : FilePath) → is_below dir q ≡ false → text_at q s.host.files ≡ text_at q before

module _ (d : Deployment) (dir : FilePath) where
  Outside-put :
      (p q : FilePath) (t : String) (fs fs' : Files)
      → is_below dir p ≡ true
      → is_below dir q ≡ false
      → put p (file t) fs ≡ fs'
      → text_at q fs' ≡ text_at q fs
  Outside-put p q t fs fs' below out e =
      ap (text_at q) (sym e) ∙ put-text_other p q t fs (outside-other dir p q below out)

  write_file-Outside :
      (p : FilePath) (t : String) (fs fs' : Files) (o : Option Node) (q : FilePath)
      → is_below dir p ≡ true
      → is_below dir q ≡ false
      → write_file d p t fs o ≡ ok fs'
      → text_at q fs' ≡ text_at q fs
  write_file-Outside p t fs fs' none q below out e = Outside-put p q t fs fs' below out (cc)
  write_file-Outside p t fs fs' (some (file u)) q below out e =
      Outside-put p q t fs fs' below out (cc)
  write_file-Outside p t fs fs' (some directory) q below out e = absurd (cc)

  removed-Outside :
      (fs : Files) (q : FilePath)
      → fs dir ≡ some directory
      → is_below dir q ≡ false
      → text_of_node (if same_path dir q || is_below dir q then none else fs q) ≡ text_at q fs
  removed-Outside fs q at out = elim (Bool-cases (same_path dir q)) [
    | inl same ↦ rw (same, sym (same_path_eq dir q same), at) refl
    | inr other ↦ rw (other, out) refl
  ]

  remove_tree-Outside :
      (fs fs' : Files) (o : Option Node) (q : FilePath)
      → fs dir ≡ o
      → is_below dir q ≡ false
      → remove_tree d dir fs o ≡ ok fs'
      → text_at q fs' ≡ text_at q fs
  remove_tree-Outside fs fs' none q at out e = let same : fs ≡ fs' = cc in ap (text_at q) (sym same)
  remove_tree-Outside fs fs' (some (file t)) q at out e = absurd (cc)
  remove_tree-Outside fs fs' (some directory) q at out e =
      let same : (λ q. if same_path dir q || is_below dir q then none else fs q) ≡ fs' = cc in
      ap (text_at q) (sym same) ∙ removed-Outside fs q at out

module _ (d : Deployment) (dir : FilePath) (before : Files) where
  Outside-work :
      {A : Type 0} (m : Job A) → Confined (is_below dir) m → Keeps (Outside dir before) (work m)
  Outside-work m c = Keeps-work m (λ s h q out. c.at s.host q out ∙ h q out)

  Outside-write_json :
      (p : FilePath) (j : Json)
      → is_below dir p ≡ true
      → Keeps (Outside dir before) (write_json d p j)
  unfolding write_json
  Outside-write_json p j below = Keeps-bind (Outside-work _ (make_dirs-Confined dir _)) λ _.
      Outside-work _ (
        Confined-change _
          λ fs fs' q out e. write_file-Outside d dir p _ fs fs' (fs p) q below out e)

  Outside-look : {A : Type 0} (f : Files → A) → Keeps (Outside dir before) (work (look f))
  Outside-look f = Outside-work _ (Confined-look f)

  -- What follows once the scope is known, of a tenant whose directory this is.
  module _ (scope : MemoryScope) (own : tenant_memory_dir d scope ≡ dir) where
    below : (name : String) → is_below dir (tenant_memory_dir d scope ++ name ∷ []) ≡ true
    below name = rw own (is_below-append dir (name ∷ []) (λ e. cc))

    pub Outside-load : Keeps (Outside dir before) (load_mempalace_config d scope)
    unfolding load_mempalace_config
    Outside-load = Keeps-bind (Outside-look _) λ node. Keeps-pure _

    pub Outside-save :
        (payload : Json) → Keeps (Outside dir before) (save_mempalace_config d scope payload)
    unfolding save_mempalace_config
    Outside-save payload =
        Keeps-bind (Keeps-lift _)
          λ config. Keeps-bind (Outside-write_json _ _ (below _)) λ _. Keeps-pure _

    pub Outside-status :
        (operation : String) (at error : Json)
        → Keeps (Outside dir before) (write_status_file d scope operation at error)
    unfolding write_status_file
    Outside-status operation at error = Outside-write_json _ _ (below _)

    pub Outside-report :
        (operation now : String) (outcome : Spawned)
        → Keeps (Outside dir before) (report_operation d scope operation now outcome)
    unfolding report_operation
    Outside-report operation now (finished true stdout stderr) =
        Keeps-bind (Outside-status _ _ _) λ _. Keeps-pure _
    Outside-report operation now (finished false stdout stderr) =
        Keeps-bind (Outside-status _ _ _) λ _. Keeps-pure _
    Outside-report operation now missing = Keeps-bind (Outside-status _ _ _) λ _. Keeps-pure _
    Outside-report operation now (broken e) = Keeps-lift _

    pub Outside-delete : Keeps (Outside dir before) (delete_tenant_memory d scope)
    unfolding delete_tenant_memory
    Outside-delete = Keeps-bind (Outside-look _) λ node.
        Keeps-bind (Outside-work _ (Confined-change _ λ fs fs' q out e. removal fs fs' q out e))
          λ _. Keeps-pure _
      where
        removal :
            (fs fs' : Files) (q : FilePath)
            → is_below dir q ≡ false
            → remove_tree d (tenant_memory_dir d scope) fs (fs (tenant_memory_dir d scope)) ≡ ok fs'
            → text_at q fs' ≡ text_at q fs
        removal = rw own (λ fs fs' q out e. remove_tree-Outside d dir fs fs' (fs dir) q refl out e)
