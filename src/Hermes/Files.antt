-- ===== src/Hermes/Files.antt =====
-- hermes/file_ops.py: files are read and written below the workspace only. A file holds a text.
pub mod Paths
pub mod Bounds
pub mod Laws
pub mod Writes
use agentopia.Prelude.{
  ℕ, zero, suc, String, Option, none, some, Bool, true, false, not, ◌&&◌, List, [], ◌∷◌, ◌++◌, ◌==◌,
  ◌<>◌, if◌then◌else◌,
}
use agentopia.Prelude.Json.{Json, null, str, truthy, or_else}
use agentopia.Prelude.Texts.{take_chars, replace_char, bytes, universal_newlines}
use agentopia.Python.{Except, ok, raise, exception, Kind, Exception, guard, is_text}
use agentopia.Hermes.Platform.{
  FilePath, Node, file, directory, Files, Job, Platform, pure, lift, look, change, ◌>>=◌,
}
use agentopia.Hermes.Files.Paths.{parent}
use agentopia.Hermes.Files.Bounds.{
  file_write_error, os_error, put, make_dirs, resolve_workspace_path,
}

pub record FileWriteResult : Type 0 where
  pub path : FilePath
  pub bytes_written : ℕ
  pub existed_before : Bool
  pub changed : Bool
  pub previous_bytes : ℕ
  pub previous_content : String
  pub previous_sha256 : Option String
  pub new_sha256 : String
  pub change_preview : String

pub record FileRevertResult : Type 0 where
  pub path : FilePath
  pub reverted : Bool
  pub target_existed_before : Bool
  pub restored_bytes : ℕ
  pub restored_sha256 : String
  pub previous_sha256 : Option String
  pub change_preview : String

-- `target.read_text() if target.exists() else ""`
abbrev pub read_node : Option Node → Except String
read_node none = ok ""
read_node (some (file text)) = ok (universal_newlines text)
read_node (some directory) = raise (os_error "[Errno 21] Is a directory")

abbrev pub exists : Option Node → Bool
exists none = false
exists (some n) = true

-- `target.write_text(new_text)`: it refuses what is no text.
unfoldable pub write_text : FilePath → Json → Files → Except Files
write_text target (str text) fs = ok (put target (file text) fs)
write_text target new_text fs = raise (exception Kind.type_mismatch "new_text must be str")

-- The preview of a text: its first 80 characters, each line end written as a backslash and an n.
abbrev pub preview_of : String → String
preview_of text = replace_char 10 "\\n" (take_chars 80 text)

unfoldable pub preview_change : String → String → String
preview_change previous new =
    if previous == new
    then "no content change"
    else "prev='" <> preview_of previous <> "' -> new='" <> preview_of new <> "'"

abbrev pub text_of : Json → String
text_of (str text) = text
text_of _ = ""

-- `if existed_before and not overwrite and previous != new_text`
abbrev pub may_write : Option Node → Bool → String → Json → Except (Unit {0})
may_write node overwrite previous new_text =
    guard (not (exists node && (not overwrite && not (is_text previous new_text))))
      (file_write_error "target file exists and overwrite is false")

module _ (env : Platform) where
  abbrev pub hash_before : Option Node → String → Option String
  hash_before none previous = none
  hash_before (some _) previous = some (env.short_hash previous)

  abbrev pub write_result : FilePath → Option Node → String → String → FileWriteResult
  write_result target node previous new_text = record {
    path = target;
    bytes_written = bytes new_text;
    existed_before = exists node;
    changed = not (previous == new_text);
    previous_bytes = bytes previous;
    previous_content = previous;
    previous_sha256 = hash_before node previous;
    new_sha256 = env.short_hash new_text;
    change_preview = preview_change previous new_text;
  }

  -- `write_workspace_file` after the directories are made.
  unfoldable pub write_target : FilePath → Json → Bool → Job FileWriteResult
  write_target target new_text overwrite = look (λ fs. fs target) >>= λ node.
      lift (read_node node) >>= λ previous.
      lift (may_write node overwrite previous new_text) >>= λ _.
      change (write_text target new_text) >>= λ _.
      pure (write_result target node previous (text_of new_text))

  unfoldable pub write_workspace_file : FilePath → Json → Json → Bool → Job FileWriteResult
  write_workspace_file root relative content overwrite =
      lift (resolve_workspace_path root relative) >>= λ target.
      change (make_dirs [] (parent target)) >>= λ _.
      write_target target (or_else content (str "")) overwrite

  abbrev pub revert_result : FilePath → Option Node → String → String → FileRevertResult
  revert_result target node current restored = record {
    path = target;
    reverted = not (current == restored);
    target_existed_before = exists node;
    restored_bytes = bytes restored;
    restored_sha256 = env.short_hash restored;
    previous_sha256 = hash_before node current;
    change_preview = preview_change current restored;
  }

  unfoldable pub revert_target : FilePath → Json → Job FileRevertResult
  revert_target target restored = look (λ fs. fs target) >>= λ node.
      lift (read_node node) >>= λ current. change (write_text target restored) >>= λ _.
      pure (revert_result target node current (text_of restored))

  unfoldable pub revert_workspace_file : FilePath → Json → Json → Job FileRevertResult
  revert_workspace_file root relative previous_content =
      lift (resolve_workspace_path root relative) >>= λ target.
      change (make_dirs [] (parent target)) >>= λ _.
      revert_target target (or_else previous_content (str ""))
