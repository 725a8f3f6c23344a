-- ===== src/Hermes/Files/Bounds.antt =====
-- hermes/file_ops.py and hermes/write_boundaries.py: which paths may be written, and the directories
-- on the way to them.
use agentopia.Prelude.{
  String, Option, none, some, not, ◌&&◌, List, [], ◌∷◌, ◌++◌, ◌==◌, if◌then◌else◌,
}
use agentopia.Prelude.Json.{Json, str, truthy, or_else}
use agentopia.Python.{Except, ok, raise, ◌>>=◌, ◌>>◌, exception, Kind, Exception, get}
use agentopia.Hermes.Platform.{FilePath, Node, file, directory, Files}
use agentopia.Hermes.Files.Paths.{candidate, is_below, same_path, has_other_root}

abbrev pub file_write_error : String → Exception
file_write_error m = exception Kind.file_write m

abbrev pub os_error : String → Exception
os_error m = exception Kind.os m

unfoldable pub resolve_workspace_path : FilePath → Json → Except FilePath
resolve_workspace_path root (str relative) =
    if relative == ""
    then raise (file_write_error "file_path is required")
    else if not (has_other_root relative) && is_below root (candidate root relative)
    then ok (candidate root relative)
    else raise (file_write_error "target path is outside workspace scope")
resolve_workspace_path root relative =
    if truthy relative
    then raise (exception Kind.type_mismatch "unsupported operand type(s) for /")
    else raise (file_write_error "file_path is required")

abbrev pub put : FilePath → Node → Files → Files
put p n fs q = if same_path p q then some n else fs q

-- `p.mkdir(exist_ok=True)` where the parent is a directory, by what is at p
abbrev pub make_dir : FilePath → Files → Option Node → Except Files
make_dir p fs none = ok (put p directory fs)
make_dir p fs (some directory) = ok fs
make_dir p fs (some (file _)) = raise (os_error "[Errno 17] File exists")

-- `p.mkdir(parents=True, exist_ok=True)`, from the root down
unfoldable pub make_dirs : FilePath → FilePath → Files → Except Files
make_dirs at [] fs = ok fs
make_dirs at (part ∷ parts) fs = do
  fs' ← make_dir (at ++ part ∷ []) fs (fs (at ++ part ∷ []))
  make_dirs (at ++ part ∷ []) parts fs'

-- hermes/write_boundaries.py
abbrev as_boundary_error : Except FilePath → Except FilePath
as_boundary_error (ok p) = ok p
as_boundary_error (raise e) = elim e.kind [
  | Kind.value ↦ raise (exception Kind.write_boundary e.message)
  | Kind.file_write ↦ raise (exception Kind.write_boundary e.message)
  | _ ↦ raise e
]

unfoldable pub ensure_within_write_boundary : FilePath → Json → Except FilePath
ensure_within_write_boundary root relative =
    as_boundary_error (resolve_workspace_path root relative)

-- `change.get("file_path") or change.get("path") or change.get("relative_path")`
abbrev pub change_path : Json → Except Json
change_path change = do
  a ← get change "file_path"
  b ← get change "path"
  c ← get change "relative_path"
  ok (or_else a (or_else b c))

abbrev need_path : Json → Except Json
need_path path =
    if truthy path
    then ok path
    else raise (exception Kind.write_boundary "repo change is missing path")

unfoldable pub validate_repo_changes : FilePath → List Json → Except (Unit {0})
validate_repo_changes root [] = ok tt
validate_repo_changes root (change ∷ changes) = do
  found ← change_path change
  path ← need_path found
  ensure_within_write_boundary root path
  validate_repo_changes root changes
