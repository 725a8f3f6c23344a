-- ===== src/Hermes/Dashboard.antt =====
-- hermes/dashboard_state.py and decision_trace.py: what an operator is shown of the stored runs.
pub mod Laws
use agentopia.Prelude.{
  ℕ, zero, suc, String, Option, none, some, Bool, true, false, ◌||◌, List, [], ◌∷◌, ◌++◌, ◌<>◌,
  contains, select, map, if◌then◌else◌,
}
use agentopia.Prelude.Table.{Table}
use agentopia.Prelude.Json.{
  Json, null, bool, num, str, arr, nil, obj, dict, of_list, or_else, truthy,
}
use agentopia.Prelude.Equality.{same}
use agentopia.Python.{Except, ok, raise, ◌>>=◌, ◌>>◌, exception, Kind, get, get_or, is_text}
use agentopia.Hermes.Platform.{Platform}
use agentopia.Hermes.Policy.{elements}
use agentopia.Hermes.Executor.Memory.{text_for}
use agentopia.Hermes.Runs.{Run, read_run, part}

-- `v in {…}` for a set of texts: a list or a dictionary has no hash.
abbrev pub is_one_of : List String → Json → Except Bool
is_one_of texts (str s) = ok (contains texts s)
is_one_of texts (arr js) = raise (exception Kind.type_mismatch "unhashable type: 'list'")
is_one_of texts (obj fs) = raise (exception Kind.type_mismatch "unhashable type: 'dict'")
is_one_of texts _ = ok false

unfoldable pub operator_status : Json → Json → Json → Except Json
operator_status status policy_mode error =
    if is_text "preview" policy_mode
    then ok (str "preview")
    else if truthy error
    then (do
      code ← get error "code"
      ok (
          str (
            if is_text "POLICY_BLOCKED" code
            then "blocked_policy"
            else if is_text "WRITE_SCOPE_VIOLATION" code
            then "blocked_scope"
            else "failed")))
    else ok (
        if is_text "succeeded" status
        then (if is_text "allow" policy_mode
            then str "approved_write"
            else or_else status (str "unknown"))
        else or_else status (str "unknown"))

-- An entry of `items`, with the parts of it that the queues are chosen by.
pub record Entry : Type 0 where
  pub json : Json
  pub task_type : Json
  pub status : Json
  pub approval_status_match : Option Bool

-- `current_state.get(approval_id)`
abbrev status_of : Json → Json → Except Json
status_of current (str id) = get current id
status_of current (arr js) = raise (exception Kind.type_mismatch "unhashable type: 'list'")
status_of current (obj fs) = raise (exception Kind.type_mismatch "unhashable type: 'dict'")
status_of current id = do get current ""; ok null

abbrev match_of : Json → Json → Json → Option Bool
match_of approval_id stored null = none
match_of approval_id stored current =
    if truthy approval_id then some (same stored current) else none

abbrev match_json : Option Bool → Json
match_json none = null
match_json (some b) = bool b

abbrev write_task_types : List String
write_task_types = "file_write" ∷ "repo_write" ∷ "file_revert" ∷ []

unfoldable pub entry : Json → Run → Json → Json → Except Entry
entry current r result task_type = do
  policy ← part r.metadata "policy"
  error ← get result "error"
  approval_id ← get r.metadata "paperclip_approval_id"
  stored_status ← get r.metadata "paperclip_approval_status"
  current_status ← if truthy approval_id then status_of current approval_id else ok null
  issue_id ← get r.metadata "paperclip_issue_id"
  task_id ← get r.envelope "task_id"
  run_id ← get r.run "run_id"
  run_status ← get r.run "status"
  mode ← get policy "mode"
  status ← operator_status run_status mode error
  summary ← get r.metadata "operator_summary"
  reason ← get policy "reason"
  let approved = match_of approval_id stored_status current_status
  ok (record {
    json = dict (
        ("issue_id", issue_id)
        ∷ ("task_id", task_id)
        ∷ ("run_id", run_id)
        ∷ ("task_type", task_type)
        ∷ ("operator_status", status)
        ∷ ("operator_summary", summary)
        ∷ ("policy_mode", mode)
        ∷ ("policy_reason", reason)
        ∷ ("approval_status_match", match_json approved)
        ∷ []);
    task_type = task_type;
    status = status;
    approval_status_match = approved;
  })

-- One round of the loop, for a file that is read.
unfoldable pub entry_of : Json → Json → Except (List Entry)
entry_of current data' = do
  r ← read_run data'
  result ← part r.envelope "result"
  task_type ← get r.metadata "task_type"
  shown ← is_one_of write_task_types task_type
  if shown then (do e ← entry current r result task_type; ok (e ∷ [])) else ok []

-- The entries, from the last run written to the first.
unfoldable pub entries : Json → Table (Option Json) → Except (List Entry)
entries current [] = ok []
entries current ((name, none) ∷ files) = entries current files
entries current ((name, some data') ∷ files) = do
  newer ← entries current files
  es ← entry_of current data'
  ok (newer ++ es)

-- `xs[:n]`
abbrev pub take {ℓ} : {A : Type ℓ} → ℕ → List A → List A
take zero xs = []
take (suc n) [] = []
take (suc n) (x ∷ xs) = x ∷ take n xs

abbrev pub queue : (Entry → Bool) → List Entry → Json
queue wanted es = arr (of_list (map (λ e. e.json) (take 10 (select wanted es))))

abbrev pub is_preview : Entry → Bool
is_preview e = is_text "preview" e.status

abbrev pub is_blocked : Entry → Bool
is_blocked e = is_text "blocked_policy" e.status || is_text "blocked_scope" e.status

abbrev pub is_completed_revert : Entry → Bool
is_completed_revert e =
    if is_text "file_revert" e.task_type then is_text "approved_write" e.status else false

abbrev pub is_mismatch : Entry → Bool
is_mismatch e = elim e.approval_status_match [ none ↦ false | some b ↦ if b then false else true ]

-- `x["operator_status"] in {…}` of every entry: it raises where a status has no hash.
unfoldable pub hashable : List Entry → Except (Unit {0})
hashable [] = ok tt
hashable (e ∷ es) = do is_one_of [] e.status; hashable es

-- The approval states that are read: none where there is no such file or it is no JSON.
abbrev pub current_state : Option (Option Json) → Json
current_state none = dict []
current_state (some none) = dict []
current_state (some (some j)) = j

abbrev pub state_of : List Entry → Json
state_of es = dict (
    ("pending_previews", queue is_preview es)
    ∷ ("blocked_actions", queue is_blocked es)
    ∷ ("completed_reverts", queue is_completed_revert es)
    ∷ ("approval_mismatches", queue is_mismatch es)
    ∷ [])

unfoldable pub build_operator_queue_state : Table (Option Json) → Option (Option Json) → Except Json
build_operator_queue_state runs approvals = do
  es ← entries (current_state approvals) runs
  hashable es
  ok (state_of es)

-- hermes/decision_trace.py
abbrev paths_of : List Json → Except (List Json)
paths_of [] = ok []
paths_of (change ∷ changes) = do
  path ← get change "file_path"
  paths ← paths_of changes
  ok (if truthy path then path ∷ paths else paths)

abbrev is_none : Json → Bool
is_none null = true
is_none _ = false

unfoldable pub build_decision_trace : Platform → Json → String → String → Json → Except Json
build_decision_trace env task policy_mode policy_reason context = do
  task_type ← get task "type"
  approval_id ← get (or_else context (dict [])) "paperclip_approval_id"
  required ← if is_none approval_id then is_one_of write_task_types task_type else ok true
  file_path ← get context "file_path"
  found ← get context "changes"
  changes ← elements (or_else found (arr nil))
  paths ← paths_of changes
  description ← get task "description"
  status ← get context "paperclip_approval_status"
  issue_id ← get context "issue_id"
  run_id ← get context "paperclip_run_id"
  agent_id ← get context "agent_id"
  ok (
      dict (
        ("requested_intent", description)
        ∷ ("mapped_task_type", task_type)
        ∷ (
          "policy_evaluation",
          dict (("mode", str policy_mode) ∷ ("reason", str policy_reason) ∷ []),
        )
        ∷ (
          "approval",
          dict (
              ("required", bool required)
              ∷ ("paperclip_approval_id", approval_id)
              ∷ ("paperclip_approval_status", status)
              ∷ []),
        )
        ∷ ("target_paths", arr (of_list (if truthy file_path then file_path ∷ paths else paths)))
        ∷ ("issue_id", issue_id)
        ∷ ("paperclip_run_id", run_id)
        ∷ ("agent_id", agent_id)
        ∷ (
          "decision_summary",
          str (
              text_for env task_type
              <> " resolved with policy mode "
              <> policy_mode
              <> " because "
              <> policy_reason),
        )
        ∷ []))
