-- ===== src/Hermes/Files/Writes.antt =====
-- What a write that returns has done.
use agentopia.Prelude.{
  ◌≡◌, refl, ◌⊎◌, inl, inr, ap, sym, ◌∙◌, String, Option, none, some, Bool, true, false, arith,
  Bool-cases, [], ◌==◌, eq_iff,
}
use agentopia.Prelude.Json.{Json, null, bool, num, str, arr, obj, or_else}
use agentopia.Prelude.Texts.{universal_newlines}
use agentopia.Python.{Except, ok, raise}
use agentopia.Hermes.Platform.{
  FilePath, Node, file, directory, Files, Host, Platform, Job, lift, change, ◌>>=◌, ◌>>◌, jobs,
}
use agentopia.Hermes.Files.Paths.{is_below, same_path, parent}
use agentopia.Hermes.Files.Bounds.{put, make_dirs, resolve_workspace_path}
use agentopia.Hermes.Files.{FileWriteResult, write_text, write_target, write_workspace_file}
use agentopia.Hermes.Confined.{text_of_node, text_at}
use agentopia.Hermes.Files.Laws.{make_dirs-text, resolved-is_below, put-text_self, put-text_other}

-- Inversion of a bind that returns.
pub job_ok :
    {A B : Type 0} (m : Job A) (f : A → Job B) (h : Host) {b : B}
    → ((m >>= f) h).0 ≡ ok b
    → (a : A) × ((m h).0 ≡ ok a) × ((m >>= f) h ≡ f a (m h).1)
unfolding ◌>>=◌
job_ok {A} {B} m f h {b} e = go (m h).0 (m h).1 e
  where
    go :
        (r : Except A) (h' : Host)
        → (((λ (g : Host). (r, h')) >>= f) h).0 ≡ ok b
        → (a : A) × (r ≡ ok a) × (((λ (g : Host). (r, h')) >>= f) h ≡ f a h')
    go (ok a) h' e = (a, refl, refl)
    go (raise x) h' p = cc

-- What is asked of a file that is there, and of the text that is written to it.
abbrev Unless : Option Node → Bool → String → Type 0
Unless node overwrite text =
    overwrite ≡ false
    → (text_of_node node ≡ none)
      ⊎ ((before : String) × (text_of_node node ≡ some before) × (universal_newlines before ≡ text))

module _ (env : Platform) (target : FilePath) (overwrite : Bool) (h : Host)
    {r : FileWriteResult} where
  write_new :
      (d : Json)
      → h.files target ≡ none
      → (write_target env target d overwrite h).0 ≡ ok r
      → (t : String) × (d ≡ str t)
        × (r.path ≡ target)
        × ((write_target env target d overwrite h).1.files ≡ put target (file t) h.files)
  unfolding write_target write_text jobs
  write_new (str t) absent e = (t, refl, ground arith, ground arith)
  write_new null absent e = absurd (ground arith)
  write_new (bool b) absent e = absurd (ground arith)
  write_new (num n) absent e = absurd (ground arith)
  write_new (arr js) absent e = absurd (ground arith)
  write_new (obj fs) absent e = absurd (ground arith)

  write_over :
      (d : Json) (before : String)
      → h.files target ≡ some (file before)
      → (write_target env target d overwrite h).0 ≡ ok r
      → (t : String) × (d ≡ str t)
        × (r.path ≡ target)
        × ((write_target env target d overwrite h).1.files ≡ put target (file t) h.files)
        × (overwrite ≡ false → universal_newlines before ≡ t)
  unfolding write_target write_text jobs
  write_over (str t) before found e = (
    t,
    refl,
    ground arith,
    ground arith,
    λ keep. elim (Bool-cases (t == universal_newlines before)) [
      | inl same ↦ sym ((eq_iff t (universal_newlines before)).0 same)
      | inr other ↦ absurd (ground arith)
    ],
  )
  write_over null before found e = absurd (ground arith)
  write_over (bool b) before found e = absurd (ground arith)
  write_over (num n) before found e = absurd (ground arith)
  write_over (arr js) before found e = absurd (ground arith)
  write_over (obj fs) before found e = absurd (ground arith)

  write_directory :
      (d : Json)
      → h.files target ≡ some directory
      → (write_target env target d overwrite h).0 ≡ ok r
      → ⊥
  unfolding write_target write_text jobs
  write_directory d found e = ground arith

  -- What `write_target` has done when it returns.
  written :
      (d : Json) (node : Option Node)
      → h.files target ≡ node
      → (write_target env target d overwrite h).0 ≡ ok r
      → (t : String) × (d ≡ str t)
        × (r.path ≡ target)
        × ((write_target env target d overwrite h).1.files ≡ put target (file t) h.files)
        × Unless (h.files target) overwrite t
  written d none absent e =
      let (t, text, path, files) = write_new d absent e in
      (t, text, path, files, λ keep. inl (ap text_of_node absent))
  written d (some (file before)) found e =
      let (t, text, path, files, kept) = write_over d before found e in
      (t, text, path, files, λ keep. inr (before, ap text_of_node found, kept keep))
  written d (some directory) found e = absurd (write_directory d found e)

pub change_ok :
    (f : Files → Except Files) (h : Host)
    → (change f h).0 ≡ ok tt
    → (fs : Files) × (f h.files ≡ ok fs) × ((change f h).1.files ≡ fs)
unfolding change
change_ok f h e = go (f h.files) e
  where
    go :
        (r : Except Files)
        → (change (λ fs. r) h).0 ≡ ok tt
        → (fs : Files) × (r ≡ ok fs) × ((change (λ fs. r) h).1.files ≡ fs)
    go (ok fs) e = (fs, refl, refl)
    go (raise x) e = absurd (cc)

unless_at :
    {x y : Option String} {t : String}
    → x ≡ y
    → (y ≡ none) ⊎ ((b : String) × (y ≡ some b) × (universal_newlines b ≡ t))
    → (x ≡ none) ⊎ ((b : String) × (x ≡ some b) × (universal_newlines b ≡ t))
unless_at e (inl absent) = inl (e ∙ absent)
unless_at e (inr (b, found, same)) = inr (b, e ∙ found, same)

module _ (env : Platform) (root : FilePath) (relative content : Json) (overwrite : Bool) (h : Host)
    {r : FileWriteResult} where
  -- A write that returns has written the text of the content, or "", to a path below the workspace,
  -- and changed no other text; without `overwrite` there was no file at that path, or one with the
  -- same text up to its line ends.
  pub write_workspace_file_lem :
      (write_workspace_file env root relative content overwrite h).0 ≡ ok r
      → let fs = (write_workspace_file env root relative content overwrite h).1.files in
        (t : String) × (or_else content (str "") ≡ str t)
        × (is_below root r.path ≡ true)
        × (text_at r.path fs ≡ some t)
        × ((q : FilePath) → same_path r.path q ≡ false → text_at q fs ≡ text_at q h.files)
        × (overwrite ≡ false
            → (text_at r.path h.files ≡ none)
              ⊎ ((before : String) × (text_at r.path h.files ≡ some before)
                  × (universal_newlines before ≡ t)))
  unfolding write_workspace_file lift
  write_workspace_file_lem done =
      let d = or_else content (str "") in
      let (target, e, same) =
        job_ok (lift (resolve_workspace_path root relative))
          (λ p. change (make_dirs [] (parent p)) >> write_target env p d overwrite) h done in
      let dirs = change (make_dirs [] (parent target)) in
      let (_, e2, same2) =
        job_ok dirs (λ _. write_target env target d overwrite) h
          (ap (λ p. p.0) (sym same) ∙ done) in
      let (fs1, made, files1) = change_ok (make_dirs [] (parent target)) h e2 in
      let h1 : Host = (dirs h).1 in
      let (t, text, path, files, keep) =
        written env target overwrite h1 d (h1.files target) refl
          (ap (λ p. p.0) (sym same2) ∙ ap (λ p. p.0) (sym same) ∙ done) in
      let total = ap (λ p. p.1.files) same ∙ ap (λ p. p.1.files) same2 ∙ files in
      let before : (q : FilePath) → text_at q h1.files ≡ text_at q h.files =
        λ q. ap (text_at q) files1 ∙ make_dirs-text [] (parent target) h.files fs1 q made in
      (
        t,
        text,
        ap (is_below root) path ∙ resolved-is_below root relative target e,
        ap (λ p. text_at p (write_workspace_file env root relative content overwrite h).1.files)
              path
            ∙ ap (text_at target) total
            ∙ put-text_self target t h1.files,
        λ q ne.
            ap (text_at q) total
            ∙ put-text_other target q t h1.files (ap (λ p. same_path p q) (sym path) ∙ ne)
            ∙ before q,
        λ off. unless_at (ap (λ p. text_at p h.files) path ∙ sym (before target)) (keep off),
      )
