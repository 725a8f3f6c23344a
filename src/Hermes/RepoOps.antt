-- ===== src/Hermes/RepoOps.antt =====
-- hermes/repo_ops.py: the changes of a repository write, one after the other.
pub mod Laws
use agentopia.Prelude.{
  ℕ, zero, suc, String, Option, none, some, Bool, true, false, List, [], ◌∷◌, ◌==◌, not,
}
use agentopia.Prelude.Json.{Json, str, or_else, truthy}
use agentopia.Prelude.Texts.{bytes}
use agentopia.Python.{Except, ok, raise, attribute_error, exception, Kind, get, get_or, join}
use agentopia.Hermes.Platform.{FilePath, Platform, Job, pure, lift, look, ◌>>=◌, ◌>>◌}
use agentopia.Hermes.Files.Bounds.{resolve_workspace_path, file_write_error}
use agentopia.Hermes.Files.{
  FileWriteResult, write_workspace_file, read_node, exists, preview_change, hash_before,
}
use agentopia.Hermes.Policy.{flag}

pub record RepoWriteFileResult : Type 0 where
  pub path : String
  pub content : String
  pub bytes_written : ℕ
  pub existed_before : Bool
  pub changed : Bool
  pub previous_bytes : ℕ
  pub previous_sha256 : Option String
  pub new_sha256 : String
  pub change_preview : String
  pub overwrite : Bool
  pub overwrite_approved : Bool

pub record RepoWriteResult : Type 0 where
  pub files : List RepoWriteFileResult
  pub applied : Bool

abbrev drop : FilePath → FilePath → FilePath
drop [] p = p
drop (r ∷ root) [] = []
drop (r ∷ root) (q ∷ p) = drop root p

-- `str(target.relative_to(root))` of a path below the root
abbrev pub relative_to : FilePath → FilePath → String
relative_to root target = join "/" (drop root target)

-- `change.get(key) or ""`
abbrev pub value_of : Json → String → Except Json
value_of change key = elim (get change key) [ ok v ↦ ok (or_else v (str "")) | raise e ↦ raise e ]

abbrev pub need_text : Json → Except String
need_text (str s) = ok s
need_text _ = raise (attribute_error "object has no attribute 'encode'")

module _ (env : Platform) where
  abbrev pub inspected :
      String → String → String → Bool → Option String → String → Bool → Bool → RepoWriteFileResult
  inspected path previous content existed hash preview overwrite approved = record {
    path = path;
    content = content;
    bytes_written = bytes content;
    existed_before = existed;
    changed = not (previous == content);
    previous_bytes = bytes previous;
    previous_sha256 = hash;
    new_sha256 = env.short_hash content;
    change_preview = preview;
    overwrite = overwrite;
    overwrite_approved = approved;
  }

  unfoldable pub inspect_repo_change : FilePath → Json → Job RepoWriteFileResult
  inspect_repo_change root change = do
    file_path ← lift (value_of change "file_path")
    content ← lift (value_of change "content")
    overwrite ← lift (flag "overwrite" change)
    approved ← lift (flag "overwrite_approved" change)
    target ← lift (resolve_workspace_path root file_path)
    node ← look (λ fs. fs target)
    previous ← lift (read_node node)
    text ← lift (need_text content)
    pure (
        inspected (relative_to root target) previous text (exists node)
          (hash_before env node previous) (preview_change previous text) overwrite approved)

  abbrev pub applied :
      FilePath → String → FileWriteResult → RepoWriteFileResult → RepoWriteFileResult
  applied root content w i = record {
    path = relative_to root w.path;
    content = content;
    bytes_written = w.bytes_written;
    existed_before = w.existed_before;
    changed = w.changed;
    previous_bytes = w.previous_bytes;
    previous_sha256 = w.previous_sha256;
    new_sha256 = w.new_sha256;
    change_preview = w.change_preview;
    overwrite = i.overwrite;
    overwrite_approved = i.overwrite_approved;
  }

  -- One round of the loop of `apply_repo_write`.
  unfoldable pub apply_change : FilePath → Json → Job RepoWriteFileResult
  apply_change root change = do
    i ← inspect_repo_change root change
    file_path ← lift (value_of change "file_path")
    content ← lift (value_of change "content")
    w ← write_workspace_file env root file_path content i.overwrite
    pure (applied root i.content w i)

  unfoldable pub apply_all : FilePath → List Json → Job (List RepoWriteFileResult)
  apply_all root [] = pure []
  apply_all root (change ∷ changes) = do
    r ← apply_change root change
    rs ← apply_all root changes
    pure (r ∷ rs)

  unfoldable pub preview_all : FilePath → List Json → Job (List RepoWriteFileResult)
  preview_all root [] = pure []
  preview_all root (change ∷ changes) = do
    r ← inspect_repo_change root change
    rs ← preview_all root changes
    pure (r ∷ rs)

  unfoldable pub apply_repo_write : FilePath → List Json → Job RepoWriteResult
  apply_repo_write root [] =
      lift (raise (file_write_error "repo_write requires at least one change"))
  apply_repo_write root (change ∷ changes) = do
    rs ← apply_all root (change ∷ changes)
    pure (record { files = rs; applied = true })

  unfoldable pub preview_repo_write : FilePath → List Json → Job RepoWriteResult
  preview_repo_write root [] =
      lift (raise (file_write_error "repo_write requires at least one change"))
  preview_repo_write root (change ∷ changes) = do
    rs ← preview_all root (change ∷ changes)
    pure (record { files = rs; applied = false })
