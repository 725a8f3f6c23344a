-- ===== src/Hermes/Files/Laws.antt =====
-- What writing and reverting a file of the workspace do to the texts of all files.
use agentopia.Prelude.{
  ◌≡◌, refl, ap, sym, ◌∙◌, String, Option, none, some, Bool, true, false, [], ◌∷◌, ◌++◌, arith,
  Bool-cases, inl, inr, if◌then◌else◌,
}
use agentopia.Prelude.Json.{Json, null, bool, num, arr, obj, str}
use agentopia.Python.{Except, ok, raise, ◌>>=◌}
use agentopia.Hermes.Platform.{FilePath, Node, file, directory, Files, Platform, change}
use agentopia.Hermes.Files.Paths.{is_below, same_path, same_path_eq, same_path_refl, parent}
use agentopia.Hermes.Files.Bounds.{put, make_dir, make_dirs, resolve_workspace_path}
use agentopia.Hermes.Files.{
  write_text, write_target, write_workspace_file, revert_target, revert_workspace_file,
}
use agentopia.Hermes.Confined.{
  text_of_node, text_at, Confined, Confined-pure, Confined-lift, Confined-look, Confined-change,
  Confined-bind, Confined-then, Confined-check,
}

-- A node that is put at a path, as the texts see it.
text_of_node-if :
    (b : Bool) (n : Node) (o : Option Node)
    → text_of_node (if b then some n else o) ≡ (if b then text_of_node (some n) else text_of_node o)
text_of_node-if true n o = refl
text_of_node-if false n o = refl

if_same : (b : Bool) (x : Option String) → (b ≡ true → x ≡ none) → (if b then none else x) ≡ x
if_same true x h = sym (h refl)
if_same false x h = refl

put_directory :
    (p q : FilePath) (fs : Files) → fs p ≡ none → text_at q (put p directory fs) ≡ text_at q fs
put_directory p q fs absent =
    text_of_node-if (same_path p q) directory (fs q)
    ∙ if_same (same_path p q) (text_of_node (fs q))
        (λ same. ap (λ r. text_at r fs) (sym (same_path_eq p q same)) ∙ ap text_of_node absent)

make_dir-text :
    (p q : FilePath) (fs fs' : Files) (o : Option Node)
    → fs p ≡ o
    → make_dir p fs o ≡ ok fs'
    → text_at q fs' ≡ text_at q fs
make_dir-text p q fs fs' none absent e =
    let same : put p directory fs ≡ fs' = cc in
    ap (text_at q) (sym same) ∙ put_directory p q fs absent
make_dir-text p q fs fs' (some directory) found e =
    let same : fs ≡ fs' = cc in ap (text_at q) (sym same)
make_dir-text p q fs fs' (some (file t)) found e = absurd (cc)

-- Making directories changes no text.
pub make_dirs-text :
    (at parts : FilePath) (fs fs' : Files) (q : FilePath)
    → make_dirs at parts fs ≡ ok fs'
    → text_at q fs' ≡ text_at q fs
unfolding make_dirs
make_dirs-text at [] fs fs' q e = let same : fs ≡ fs' = cc in ap (text_at q) (sym same)
make_dirs-text at (part ∷ parts) fs fs' q e =
    go (make_dir (at ++ part ∷ []) fs (fs (at ++ part ∷ []))) refl e
      (λ gs. make_dirs-text (at ++ part ∷ []) parts gs fs' q)
  where
    go :
        (r : Except Files)
        → make_dir (at ++ part ∷ []) fs (fs (at ++ part ∷ [])) ≡ r
        → (r >>= make_dirs (at ++ part ∷ []) parts) ≡ ok fs'
        → ((gs : Files)
            → make_dirs (at ++ part ∷ []) parts gs ≡ ok fs'
            → text_at q fs' ≡ text_at q gs)
        → text_at q fs' ≡ text_at q fs
    go (ok gs) made rest later =
        later gs rest ∙ make_dir-text (at ++ part ∷ []) q fs gs (fs (at ++ part ∷ [])) refl made
    go (raise x) made rest later = absurd (cc)

candidate-is_below :
    (root p : FilePath) (s : String)
    → resolve_workspace_path root (str s) ≡ ok p
    → is_below root p ≡ true
unfolding resolve_workspace_path
candidate-is_below root p s e = ground arith

pub resolved-is_below :
    (root : FilePath) (relative : Json) (p : FilePath)
    → resolve_workspace_path root relative ≡ ok p
    → is_below root p ≡ true
unfolding resolve_workspace_path
resolved-is_below root (str s) p e = candidate-is_below root p s e
resolved-is_below root null p e = absurd (cc)
resolved-is_below root (bool b) p e = absurd (ground arith)
resolved-is_below root (num n) p e = absurd (ground arith)
resolved-is_below root (arr js) p e = absurd (ground arith)
resolved-is_below root (obj fs) p e = absurd (ground arith)

-- The texts after a file is put.
pub put-text_self :
    (p : FilePath) (t : String) (fs : Files) → text_at p (put p (file t) fs) ≡ some t
put-text_self p t fs = ap (λ b. text_of_node (if b then some (file t) else fs p)) (same_path_refl p)

pub put-text_other :
    (p q : FilePath) (t : String) (fs : Files)
    → same_path p q ≡ false
    → text_at q (put p (file t) fs) ≡ text_at q fs
put-text_other p q t fs other = ap (λ b. text_of_node (if b then some (file t) else fs q)) other

pub outside-other :
    (root p q : FilePath) → is_below root p ≡ true → is_below root q ≡ false → same_path p q ≡ false
outside-other root p q below out = elim (Bool-cases (same_path p q)) [
  | inl same ↦
      let eq : is_below root p ≡ is_below root q = ap (is_below root) (same_path_eq p q same) in
      absurd (cc)
  | inr other ↦ other
]

write_text-Confined :
    (root target : FilePath) (d : Json)
    → is_below root target ≡ true
    → Confined (is_below root) (change (write_text target d))
unfolding write_text
write_text-Confined root target d below = Confined-change (write_text target d) (kept d)
  where
    kept :
        (d : Json) (fs fs' : Files) (q : FilePath)
        → is_below root q ≡ false
        → write_text target d fs ≡ ok fs'
        → text_at q fs' ≡ text_at q fs
    kept (str t) fs fs' q out e =
        let same : put target (file t) fs ≡ fs' = cc in
        ap (text_at q) (sym same)
        ∙ put-text_other target q t fs (outside-other root target q below out)
    kept null fs fs' q out e = absurd (cc)
    kept (bool b) fs fs' q out e = absurd (cc)
    kept (num n) fs fs' q out e = absurd (cc)
    kept (arr js) fs fs' q out e = absurd (cc)
    kept (obj f) fs fs' q out e = absurd (cc)

pub make_dirs-Confined : (root p : FilePath) → Confined (is_below root) (change (make_dirs [] p))
make_dirs-Confined root p =
    Confined-change (make_dirs [] p) (λ fs fs' q out e. make_dirs-text [] p fs fs' q e)

module _ (env : Platform) (root : FilePath) where
  -- Writing a file changes no text outside the workspace, on every path through the code.
  pub write_workspace_file-Confined :
      (relative content : Json) (overwrite : Bool)
      → Confined (is_below root) (write_workspace_file env root relative content overwrite)
  unfolding write_workspace_file write_target
  write_workspace_file-Confined relative content overwrite =
      Confined-check (resolve_workspace_path root relative) λ target e.
        Confined-then (make_dirs-Confined root (parent target)) (
          Confined-bind (Confined-look _) λ node. Confined-bind (Confined-lift _) λ previous.
            Confined-then (Confined-lift _) (
              Confined-then
                (write_text-Confined root target _ (resolved-is_below root relative target e))
                (Confined-pure _)))

  -- Neither does reverting one.
  pub revert_workspace_file-Confined :
      (relative content : Json)
      → Confined (is_below root) (revert_workspace_file env root relative content)
  unfolding revert_workspace_file revert_target
  revert_workspace_file-Confined relative content =
      Confined-check (resolve_workspace_path root relative) λ target e.
        Confined-then (make_dirs-Confined root (parent target)) (
          Confined-bind (Confined-look _) λ node. Confined-bind (Confined-lift _) λ current.
            Confined-then
              (write_text-Confined root target _ (resolved-is_below root relative target e))
              (Confined-pure _))
