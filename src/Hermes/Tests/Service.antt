-- ===== src/Hermes/Tests/Service.antt =====
-- Runs of hermes/app.py and of what it calls, at concrete requests.
use agentopia.Prelude.{
  ◌≡◌, refl, ap, sym, ◌∙◌, arith, ◌≢◌, ◌↔◌, ◌≤◌, String, Option, none, some, true, false, [], ◌∷◌,
  length, inr,
}
use agentopia.Prelude.Table.{lookup}
use agentopia.Prelude.Texts.{split_at}
use agentopia.Prelude.Json.{Json, Items, null, bool, str, arr, of_pairs, dict, items}
use agentopia.Python.{ok, get, pos}
use agentopia.Paperclip.Http.RateLimit.{allow, allow_bucket, expire}
use agentopia.Paperclip.Http.Inputs.{validate_strings}
use agentopia.Hermes.Redaction.{redact_value}
use agentopia.Hermes.Redaction.Laws.{Agree, redact_value_iff}
use agentopia.Hermes.Runs.{
  read_run, resolve_issue_apply_candidates, resolve_issue_revert_candidates,
}
use agentopia.Hermes.Dashboard.{
  operator_status, entry, entry_of, entries, hashable, build_operator_queue_state,
}
use agentopia.Hermes.Dashboard.Laws.{dashboard_queues_are_short}
use agentopia.Hermes.IssueActions.{handle_issue_action}
use agentopia.Hermes.IssueActions.Laws.{write_actions_refused}
use agentopia.Hermes.MemoryService.Config.{config_fields}
use agentopia.Hermes.Station.{Store, Station, Deployment, MemPalaceConfig, received, missing, works}
use agentopia.Hermes.Http.Answers.{Request, Config, require_internal_auth}
use agentopia.Hermes.Http.Reports.{trace}
use agentopia.Hermes.Http.{
  do_post, post_admitted, post_body, post_read, post_parsed, post_route, post_result, read_body,
}
use agentopia.Hermes.Http.Laws.{IsAdmitted, changes_are-IsAdmitted, only_execute_needs_token}
use agentopia.Hermes.Http.Silence.Visits.{posted, after, silence, empty_queues}
use agentopia.Hermes.Persistence.{store_callback}
use agentopia.Hermes.Tests.{platform, workspace, host, shell_request}

abbrev store : Store
store = record {
  runs = [];
  callbacks = [];
  callback_results = [];
  postbacks = [];
  audit_log = [];
  approval_status = none;
  traces = [];
  ticks = 0;
}

abbrev pub station : Station
station = record { host = host; store = store; processes = []; requests = [] }

abbrev pub memory_config : MemPalaceConfig
memory_config = record {
  enabled = true;
  command = "mempalace";
  palace_path = null;
  memory_mode = "augment";
}

-- No memory service is installed; every file holds the configuration.
abbrev pub deployment : Deployment
deployment = record {
  platform = platform;
  root = "/work";
  workspace = workspace;
  clock = λ n. "now";
  loads = λ text. ok (dict (config_fields memory_config));
  dumps = λ j. "config";
  spawn = λ n arguments fs. (missing, fs);
  env_config = memory_config;
  urlopen = λ n r. received "";
  as_float = λ j. ok j;
  as_int = λ j. ok j;
}

abbrev config : Config
config = record {
  internal_auth_token = "secret";
  result_url = "";
  max_request_bytes = 1000;
  rate_limit_count = 60;
  rate_limit_window = 60;
  paperclip = record { base_url = "http://paperclip"; bearer_token = none };
  show_number = λ n. "1";
}

abbrev post : String → Json → Request
post path body = record {
  path = path;
  authorization = "Bearer secret";
  client_ip = "127.0.0.1";
  content_length = ok (pos 100);
  body = ok body;
}

redact_value_iff_example :
    Agree (dict (("api_key", str "a") ∷ [])) (dict (("api_key", str "b") ∷ [])) ↔ (
      redact_value (dict (("api_key", str "a") ∷ []))
      ≡ redact_value (dict (("api_key", str "b") ∷ [])))
redact_value_iff_example =
    redact_value_iff (dict (("api_key", str "a") ∷ [])) (dict (("api_key", str "b") ∷ []))

abbrev revert_action : Json
revert_action = dict (
    ("issue_id", str "i1")
    ∷ ("action", str "file_revert")
    ∷ ("context", dict (("file_path", str "a") ∷ []))
    ∷ [])

write_actions_refused_example :
    let r = handle_issue_action deployment revert_action station in
    (j : Json) × (r.0 ≡ ok j) × (get j "ok" ≡ ok (bool false)) × (r.1.host ≡ station.host)
write_actions_refused_example =
    write_actions_refused deployment revert_action (str "i1") "file_revert"
      (of_pairs (("file_path", str "a") ∷ [])) station refl refl refl (inr refl) refl

silence_example :
    let s =
      (after deployment config
        (posted (post "/internal/execute" shell_request) 0 ∷ [])
        (station, [])).0 in
    (s.requests ≡ [])
    × ((issue_id : Json)
        → (resolve_issue_apply_candidates s.store.runs issue_id ≡ ok [])
          × (resolve_issue_revert_candidates s.store.runs issue_id ≡ ok []))
    × ((approvals : Option (Option Json))
        → build_operator_queue_state s.store.runs approvals ≡ ok empty_queues)
silence_example =
    silence deployment config (posted (post "/internal/execute" shell_request) 0 ∷ []) station []
      refl refl

abbrev result_post : Request
result_post = post "/internal/tasks/t1/result" (dict [])

result_takes_time : (do_post deployment config result_post 0 [] station).1.0.store.ticks ≡ 1
unfolding do_post post_admitted post_body post_read post_parsed post_route post_result read_body
    trace store_callback validate_strings allow split_at works require_internal_auth allow_bucket
    expire lookup
result_takes_time = refl

result_is_stored : (do_post deployment config result_post 0 [] station).1.0 ≢ station
result_is_stored e =
    let ticks : 1 ≡ 0 = sym result_takes_time ∙ ap (λ s. s.store.ticks) e in
    absurd (omega (arith, ticks))

changes_are-IsAdmitted_example : IsAdmitted deployment config result_post 0 []
changes_are-IsAdmitted_example =
    changes_are-IsAdmitted deployment config result_post 0 [] station result_is_stored

only_execute_needs_token_example :
    do_post deployment config (record result_post { authorization = "" }) 0 [] station
    ≡ do_post deployment config result_post 0 [] station
only_execute_needs_token_example =
    only_execute_needs_token deployment config result_post "" 0 [] station (λ e. cc)

abbrev preview_run : Json
preview_run = dict (
    (
      "result",
      dict (
          ("task_id", str "t1")
          ∷ ("run", dict (("run_id", str "r1") ∷ ("status", str "succeeded") ∷ []))
          ∷ (
            "result",
            dict (
                (
                  "metadata",
                  dict (
                      ("task_type", str "file_write")
                      ∷ ("policy", dict (("mode", str "preview") ∷ []))
                      ∷ []),
                )
                ∷ []),
          )
          ∷ []),
    )
    ∷ [])

dashboard_is_built :
    (j : Json) × (js : Items) × (build_operator_queue_state
        (("t1__r1.json", some preview_run) ∷ [])
        none
      ≡ ok j)
    × (get j "pending_previews" ≡ ok (arr js))
unfolding build_operator_queue_state hashable entries entry_of entry read_run operator_status
dashboard_is_built = (_, _, refl, refl)

dashboard_queues_are_short_example : length (items (dashboard_is_built.1)) ≤ 10
dashboard_queues_are_short_example =
    dashboard_queues_are_short (("t1__r1.json", some preview_run) ∷ []) none (dashboard_is_built.0)
      "pending_previews" (dashboard_is_built.1) (dashboard_is_built.2) (dashboard_is_built.3)
