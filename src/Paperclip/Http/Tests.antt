-- ===== src/Paperclip/Http/Tests.antt =====
-- Runs of the HTTP surface at concrete requests.
use agentopia.Prelude.{◌≡◌, ◌⊎◌, refl, String, some, true, List, [], ◌∷◌, arith}
use agentopia.Prelude.Table.{lookup}
use agentopia.Prelude.Texts.{strip}
use agentopia.Prelude.Json.{Json, null, str, arr, dict, of_list}
use agentopia.Python.{ok, pos}
use agentopia.Paperclip.Db.{get_task, get_result, get_audit_events}
use agentopia.Paperclip.Service.World.{actions}
use agentopia.Paperclip.Service.Views.{TaskView, view_task, approval_review_summary}
use agentopia.Paperclip.Http.ApiKeys.{
  extract_bearer_token, resolve_api_key_identity_from_file, find_item, read_item, role_allows_scope,
}
use agentopia.Paperclip.Http.Answers.{
  Request, task, Config, require_client_auth, tenant_can_access_task,
}
use agentopia.Paperclip.Http.App.{get_one_task, post_cancel, post_body}
use agentopia.Paperclip.Http.Laws.{
  IsOwner, get_one_task-IsOwner, post_cancel-IsOwner, with_authorization, approval_needs_no_key,
}
use agentopia.Paperclip.Http.RateLimit.Window.{run_bucket, run_log, run_bucket-run_log}
use agentopia.Paperclip.Samples.{env, world}

abbrev registry : Json
registry = dict (
    (
      "keys",
      arr (
          of_list (
            dict
              (("key", str "k1") ∷ ("scope", str "tasks.write") ∷ ("tenant_id", str "tenant") ∷ [])
            ∷ [])),
    )
    ∷ [])

abbrev config : Config
config = record {
  internal_auth_token = "secret";
  client_api_token = "";
  client_api_keys = "";
  registry = some registry;
  max_request_bytes = 1024;
  rate_limit_count = 2;
  rate_limit_window = 60;
  db_path_exists = true;
  fingerprint = λ key. key;
  show = λ v. "None";
  show_number = λ n. "0";
}

abbrev request : List String → Request
request parts = record {
  path = "/tasks/t1";
  parts = parts;
  authorization = "Bearer k1";
  idempotency_key = "";
  webhook_url = "";
  client_ip = "127.0.0.1";
  content_length = ok (pos 0);
  body = ok (dict []);
}

seen : (v : TaskView) × ((get_one_task config (request []) "t1" world).0 ≡ ok (task 200 (some v)))
unfolding get_one_task require_client_auth resolve_api_key_identity_from_file extract_bearer_token
    find_item read_item role_allows_scope tenant_can_access_task view_task approval_review_summary
    get_task get_result get_audit_events lookup strip actions
seen = (_, refl)

get_one_task_example : IsOwner config (request []) "t1" world seen.0
get_one_task_example = get_one_task-IsOwner config (request []) "t1" world seen.0 seen.1

post_cancel_example :
    ((post_cancel env config (request []) "t1" null world).1 ≡ world)
    ⊎ ((v : TaskView) × IsOwner config (request []) "t1" world v)
post_cancel_example = post_cancel-IsOwner env config (request []) "t1" null world

approval_needs_no_key_example :
    post_body env config (with_authorization (request ("tasks" ∷ "t1" ∷ "approve" ∷ [])) "") world
    ≡ post_body env config (request ("tasks" ∷ "t1" ∷ "approve" ∷ [])) world
approval_needs_no_key_example =
    approval_needs_no_key env config (request ("tasks" ∷ "t1" ∷ "approve" ∷ [])) "t1" "" world refl
      refl

run_bucket_example :
    run_bucket 2 60 (0 ∷ 10 ∷ 20 ∷ 70 ∷ []) [] ≡ run_log 2 60 (0 ∷ 10 ∷ 20 ∷ 70 ∷ []) []
run_bucket_example =
    run_bucket-run_log 2 60 (0 ∷ 10 ∷ 20 ∷ 70 ∷ [])
      (omega arith, (omega arith, (omega arith, (omega arith, tt))))
