-- ===== src/Paperclip/Samples.antt =====
-- The data of the runs: surroundings in which Hermes is not reachable, and three tasks.
use agentopia.Prelude.{◌+◌, ◌*◌, String, some, true, [], ◌∷◌}
use agentopia.Prelude.Json.{Json, str, bool, dict}
use agentopia.Python.{exception, Kind}
use agentopia.Paperclip.StateMachine.{State}
use agentopia.Paperclip.Db.{Tables, TaskRow, fresh_item}
use agentopia.Paperclip.Dispatch.{Reply}
use agentopia.Paperclip.Service.Payload.{TaskFields}
use agentopia.Paperclip.Service.Intake.{TenantContext}
use agentopia.Paperclip.Service.World.{World, Surroundings}
use agentopia.Paperclip.Service.Runs.{new_world, empty_tables}

-- Hermes is not reachable; a second passes at each reading of the clock.
abbrev pub env : Surroundings
env = record {
  clock = λ n. n * 1_000_000 + 7;
  validate = λ payload. [];
  urlopen = λ n request. Reply.failure (exception Kind.os "connection refused");
  dispatch_client = record { base_url = "http://hermes"; auth_token = "secret" };
  settings = record {
    approval_ttl_seconds = 3600;
    queue_max_attempts = 3;
    queue_backoff_seconds = 5;
    queue_timeout_seconds = 60;
    queue_lease_seconds = 30;
  };
}

abbrev pub task : String → State → TaskRow
task id state = record {
  id = id;
  schema_version = "v1";
  type = "file_write";
  title = "Write";
  description = "Write a file";
  priority = "low";
  risk_level = "low";
  requester_id = "u1";
  requester_display_name = "User";
  tenant_id = "tenant";
  org_id = "org";
  client_id = "client";
  state = state;
  approval_status = "approved";
  request_payload = dict (("trace", dict (("trace_id", str "trace_1") ∷ [])) ∷ []);
  created_at = 0;
  updated_at = 0;
}

abbrev pub tables : Tables
tables = record empty_tables {
  tasks =
      ("t1", task "t1" State.queued)
      ∷ ("t2", task "t2" State.running)
      ∷ ("t3", task "t3" State.cancelled)
      ∷ [];
  queue = ("t1", fresh_item "t1" (some "trace_1") 0 3) ∷ [];
}

abbrev pub world : World
world = record new_world { live = tables; disk = tables }

abbrev pub result : Json
result = dict (
    ("run", dict (("status", str "succeeded") ∷ []))
    ∷ ("result", dict (("metadata", dict []) ∷ []))
    ∷ ("trace", dict (("trace_id", str "trace_2") ∷ []))
    ∷ [])

-- A request that waits for approval.
abbrev pub submission : Json
submission = dict (
    ("schema_version", str "v1")
    ∷ (
      "task",
      dict (
          ("id", str "t4")
          ∷ ("type", str "file_write")
          ∷ ("title", str "Write")
          ∷ ("description", str "Write a file")
          ∷ ("priority", str "low")
          ∷ ("risk_level", str "low")
          ∷ ("requester", dict (("id", str "u1") ∷ ("display_name", str "User") ∷ []))
          ∷ []),
    )
    ∷ (
      "execution_policy",
      dict (("approval", dict (("required", bool true) ∷ ("status", str "pending") ∷ [])) ∷ []),
    )
    ∷ ("trace", dict (("trace_id", str "trace_3") ∷ []))
    ∷ [])

abbrev pub fields : TaskFields
fields = record {
  schema_version = "v1";
  id = "t4";
  type = "file_write";
  title = "Write";
  description = "Write a file";
  priority = "low";
  risk_level = "low";
  requester_id = "u1";
  requester_display_name = "User";
  approval_required = true;
  approval_status = "pending";
  trace_id = "trace_3";
}

abbrev pub client : TenantContext
client = record { tenant_id = some "tenant"; org_id = some "org"; client_id = some "client" }
