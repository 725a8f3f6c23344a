-- ===== src/Lib.antt =====
-- Agentopia: a control plane (paperclip/) that takes task requests from clients, has them approved,
-- queues them and hands them to an executor (hermes/), which reports a result back.
--
-- - Paperclip/StateMachine: paperclip/state_machine.py, the table of transitions.
-- - Paperclip/Db: paperclip/db.py over migrations/001_initial_schema.sql. The five tables are one
--   record; a primary key is the key of an association list; each method is a function on the
--   record, one that a constraint may refuse returns an exception.
-- - Paperclip/Postgres: paperclip/postgres_db.py, the same methods on a connection of psycopg, which is
--   a parameter; what psycopg documents of it are the hypotheses of IsDocumented. The foreign keys
--   of the schema, which sqlite does not check unless it is told to, are checked there. Refinement
--   compares the writes with those of db.py.
-- - Paperclip/Dispatch: paperclip/dispatch.py, the HTTP request and the reading of the reply.
-- - Paperclip/Service: paperclip/service.py, every method of PaperclipService. World holds what the
--   connection reads, what is committed, the trace and result files (scripts/trace_log.py,
--   scripts/storage_layout.py), the count of clock readings and the requests sent. A method is an
--   Action: it takes a world and returns a value or an exception with the world that it leaves, so
--   that what was written before an exception stays. Queue, Intake, Results, Upkeep and Views hold
--   the methods; the other children hold the theorems about them.
-- - Paperclip/Http: paperclip/app.py over scripts/api_keys.py, rate_limit.py and
--   input_validation.py. A request is the path, its parts, the header fields that are read and the
--   body after json.loads; an answer is its status with what it is made of.
-- - Hermes/Platform: what the executor acts on and is given. Files map a path to a text or a
--   directory; there are no symbolic links, and no file name holds a NUL. A Job takes a host and
--   returns a value or an exception with the host that it leaves.
-- - Hermes/Policy, Guards, Labels: hermes/policy.py; hermes/tool_permissions.py, network_policy.py,
--   execution_limits.py and shell_safety.py; hermes/action_labels.py.
-- - Hermes/Files, RepoOps: hermes/file_ops.py, write_boundaries.py and repo_ops.py.
-- - Hermes/Runner: hermes/runner.py and sandbox_adapter.py. A process is a parameter.
-- - Hermes/Executor: hermes/executor.py. The JSON schemas, `shlex.split`, `json.dumps`, SHA-256, the
--   clock, the memory service and the runner are parameters (Platform).
-- - Hermes/Provenance: hermes/memory/provenance.py.
-- - Hermes/Station: what a process of the execution plane works on, besides the host of its executor:
--   the files of var/hermes (Store), the command lines of the memory service and the requests to
--   the external Paperclip. A Work takes a station and returns a value or an exception with the
--   station that it leaves; Keeps has the rules for invariants of it. The clock, json.loads and
--   json.dumps, the environment, the external command and the network are parameters (Deployment).
-- - Hermes/Redaction, Persistence: hermes/redaction.py; hermes/persistence.py, audit.py,
--   callback_store.py and postback_store.py. The Store holds what json.loads makes of each file, by
--   the names of the files, the last written last; no name holds a slash.
-- - Hermes/Runs, IssueActions, Dashboard: hermes/apply_resolution.py and revert_resolution.py;
--   hermes/issue_actions.py; hermes/dashboard_state.py and decision_trace.py.
-- - Hermes/MemoryService: hermes/memory/config.py, mempalace_client.py and service.py. The memory of
--   the tenants is among the files of the executor's host, below var/hermes/memory.
-- - Hermes/Postbacks: hermes/paperclip_comments.py, paperclip_dashboard.py, paperclip_mapping.py and
--   paperclip_bridge.py.
-- - Hermes/Http: hermes/app.py, do_GET and do_POST from a request to an answer. The stores are given
--   the root as a path.
-- - Adapter: paperclip_adapter/, the tasks as issues, approvals and wake-ups of the external
--   Paperclip, and what is read of an issue.
-- - Prelude and Python: JSON values, tables, exceptions and dictionary access.
--
-- What a command, the memory service or the external command of the memory service does to the files
-- is a function that the model is given: a command runs with all its effects, and a theorem about files
-- says what it takes of them.
--
-- The two halves meet in the requests that Dispatch builds and the results that record_result takes.
-- The Store and the files of the executor's host are kept apart: that a task, a command or a
-- process writes below var/hermes is not modelled. Numbers of JSON are natural numbers (a budget of
-- 5.0 is written 5).
-- Not modelled: the runtime checks, which fill the answer of /health; metrics and logging; the
-- validators of contracts; the migrations of the schema; and the operator scripts.
--
-- The clock, the validator of the JSON schemas and the network are parameters (Surroundings). A time
-- is a number of microseconds; the service writes ISO 8601 texts of whole seconds, which are read
-- back to the same time. The methods that run a loop recurse on the list they go through; there is
-- no fuel.
pub mod Prelude
pub mod Python
pub mod Paperclip
pub mod Hermes
pub mod Adapter
