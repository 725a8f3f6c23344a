-- ===== src/Hermes/Runs.antt =====
-- hermes/apply_resolution.py and revert_resolution.py: what an issue may apply or revert, from the
-- runs that were stored.
pub mod Laws
pub mod Candidates
use agentopia.Prelude.{
  String, Option, none, some, Bool, true, false, List, [], ◌∷◌, ◌++◌, if◌then◌else◌,
}
use agentopia.Prelude.Table.{Table}
use agentopia.Prelude.Json.{Json, bool, str, arr, nil, dict, of_list, or_else, truthy}
use agentopia.Prelude.Equality.{same}
use agentopia.Python.{Except, ok, ◌>>=◌, get, get_or, is_text}
use agentopia.Hermes.Policy.{elements}

-- The parts of a stored run that are read.
pub record Run : Type 0 where
  pub envelope : Json
  pub run : Json
  pub metadata : Json

-- `v.get(k) or {}`
abbrev pub part : Json → String → Except Json
part v k = do found ← get v k; ok (or_else found (dict []))

unfoldable pub read_run : Json → Except Run
read_run data' = do
  envelope ← part data' "result"
  run ← part envelope "run"
  result ← part envelope "result"
  metadata ← part result "metadata"
  ok (record { envelope = envelope; run = run; metadata = metadata })

-- `[… for item in files if item.get("path")]`
unfoldable pub changes_of : List Json → Except (List Json)
changes_of [] = ok []
changes_of (item ∷ files) = do
  path ← get item "path"
  content ← get item "content"
  overwrite ← get_or item "overwrite" (bool false)
  approved ← get_or item "overwrite_approved" (bool false)
  changes ← changes_of files
  ok (
      if truthy path
      then dict (
          ("file_path", path)
          ∷ ("content", or_else content (str ""))
          ∷ ("overwrite", overwrite)
          ∷ ("overwrite_approved", approved)
          ∷ [])
        ∷ changes
      else changes)

unfoldable pub apply_item : Run → Json → Except Json
apply_item r repo_write = do
  found ← get repo_write "files"
  let files = or_else found (arr nil)
  list ← elements files
  changes ← changes_of list
  task_id ← get r.envelope "task_id"
  run_id ← get r.run "run_id"
  file_count ← get repo_write "file_count"
  ok (
      dict (
        ("task_id", task_id)
        ∷ ("run_id", run_id)
        ∷ ("file_count", file_count)
        ∷ ("files", files)
        ∷ (
          "apply_payload",
          dict (
              ("source_run_id", run_id)
              ∷ ("changes", arr (of_list changes))
              ∷ ("apply", bool true)
              ∷ []),
        )
        ∷ []))

abbrev pub has_text : Json → String → String → Except Bool
has_text v key text = do found ← get v key; ok (is_text text found)

abbrev pub is_of_issue : Json → Run → Except Bool
is_of_issue issue_id r = do issue ← get r.metadata "paperclip_issue_id"; ok (same issue issue_id)

-- `a and b`, where b is computed only if a holds
abbrev pub and_then : Except Bool → Except Bool → Except Bool
and_then a b = a >>= λ holds. if holds then b else ok false

-- The tests of the loop of `resolve_issue_apply_candidates`.
unfoldable pub is_apply_run : Json → Json → Run → Except Bool
is_apply_run issue_id repo_write r = and_then (has_text r.metadata "task_type" "repo_write") (
    and_then (is_of_issue issue_id r) (
      and_then (has_text r.run "status" "succeeded")
        (do preview ← get repo_write "preview_only"; ok (truthy preview))))

-- The tests of the loop of `resolve_issue_revert_candidates`.
unfoldable pub is_revert_run : Json → Run → Except Bool
is_revert_run issue_id r =
    and_then (has_text r.metadata "task_type" "file_write")
      (and_then (has_text r.run "status" "succeeded") (is_of_issue issue_id r))

abbrev pub one_item : Bool → Except Json → Except (List Json)
one_item true item = do i ← item; ok (i ∷ [])
one_item false item = ok []

-- One round of the loop of `resolve_issue_apply_candidates`, for a file that is read.
unfoldable pub apply_candidate : Json → Json → Except (List Json)
apply_candidate issue_id data' = do
  r ← read_run data'
  repo_write ← part r.metadata "repo_write"
  wanted ← is_apply_run issue_id repo_write r
  one_item wanted (apply_item r repo_write)

unfoldable pub revert_item : Run → Json → Json → Except Json
revert_item r write path = do
  task_id ← get r.envelope "task_id"
  run_id ← get r.run "run_id"
  previous_bytes ← get write "previous_bytes"
  previous_sha256 ← get write "previous_sha256"
  new_sha256 ← get write "new_sha256"
  change_preview ← get write "change_preview"
  previous_content ← get write "previous_content"
  ok (
      dict (
        ("task_id", task_id)
        ∷ ("run_id", run_id)
        ∷ ("file_path", path)
        ∷ ("previous_bytes", previous_bytes)
        ∷ ("previous_sha256", previous_sha256)
        ∷ ("new_sha256", new_sha256)
        ∷ ("change_preview", change_preview)
        ∷ (
          "revert_payload",
          dict (
              ("source_run_id", run_id)
              ∷ ("file_path", path)
              ∷ ("previous_content", or_else previous_content (str ""))
              ∷ []),
        )
        ∷ []))

abbrev pub revert_of : Bool → Run → Except (List Json)
revert_of false r = ok []
revert_of true r = do
  write ← part r.metadata "file_write"
  path ← get write "path"
  one_item (truthy path) (revert_item r write path)

-- One round of the loop of `resolve_issue_revert_candidates`, for a file that is read.
unfoldable pub revert_candidate : Json → Json → Except (List Json)
revert_candidate issue_id data' = do
  r ← read_run data'
  wanted ← is_revert_run issue_id r
  revert_of wanted r

-- The loop, over the files from the last written to the first: one that is no JSON is passed over.
unfoldable pub resolve : (Json → Except (List Json)) → Table (Option Json) → Except (List Json)
resolve candidate [] = ok []
resolve candidate ((name, none) ∷ files) = resolve candidate files
resolve candidate ((name, some data') ∷ files) = do
  newer ← resolve candidate files
  items ← candidate data'
  ok (newer ++ items)

unfoldable pub resolve_issue_apply_candidates : Table (Option Json) → Json → Except (List Json)
resolve_issue_apply_candidates runs issue_id =
    if truthy issue_id then resolve (apply_candidate issue_id) runs else ok []

unfoldable pub resolve_issue_revert_candidates : Table (Option Json) → Json → Except (List Json)
resolve_issue_revert_candidates runs issue_id =
    if truthy issue_id then resolve (revert_candidate issue_id) runs else ok []
