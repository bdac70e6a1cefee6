-- ===== src/Lib.antt =====
-- Verification of dispatcher-for-codex-agents, a dispatcher of external agents for Codex: it runs
-- an agent's turn and interprets the captured stream, delivers a batch's end to the main agent's
-- thread, and notifies people.
--
-- The parts, in src/dispatcher_for_codex_agents/:
-- * notifications/core.py. Notifications/Event is `NotificationEvent`; Notifications/Ledger has the
--   critical sections of `notify`, each under the lock of the ledger's file; Notifications/Notify
--   composes them in the code's order, over the sinks of a configuration. Notifications/AtMostOnce
--   is the system of all processes, which may stop or die between two sections, and
--   Notifications/Refinement takes a run of `notify` to its steps. A ledger is a list of rows.
-- * main_agent_bridge/contracts.py, store.py, controller.py. Bridge/Contracts has the binding and
--   the event of a bridge with their validation, and Bridge/Specs the jobs and the authorization
--   of a user; Bridge/Store is `EventStore`, a record of the directory of events, the directory of
--   artifacts, the key and the consumption ledger; Bridge/Dispatcher is `Dispatcher.deliver`.
--   Bridge/Controller has `guard` and `_tool`, Bridge/Controller/Create `create_thread`,
--   Bridge/Controller/Turn `_turn` over the list of the messages that arrive, each with what the
--   machine answers meanwhile, and Bridge/Controller/Continue `_continue`. The reply of the app
--   server is an argument. A row that was cut off by a death is a flag of the store, on which
--   `records` raises.
-- * agent_harness/runtime_contract.py. Runtime/Lifecycle is `_lifecycle_issues`, a pass over the
--   events of a turn; Runtime/Lifecycle/Grammar describes the same streams without a state.
--   Runtime/Output is `normalize_output`, and Runtime/Coverage is `validate_coverage`.
--   Runtime/Activity is `classify_activity`: the judgement of one tool event there, the pass in
--   Runtime/Activity/Events and the classification in Runtime/Activity/Classify.
-- * agent_harness/adapter.py. Adapter is `_policy_violations`, with `event_violation` of
--   capabilities.py; Adapter/Events is `_parse_event_stream`, whose valid
--   streams Adapter/Stream describes; Adapter/Capture has the failure code
--   and the result of `evaluate_capture`, with the invariants of contracts.py, and Adapter/Evaluate
--   the whole, which puts parsing, activity, policy, output and coverage together. Functions of Python's
--   library on texts are fields of a record. Among them is `json.loads` of a line, which gives a
--   value, a JSONDecodeError, or another exception, as for an integer with too many digits.
-- * agent_harness/batch.py. Batch has the plan and the attempts, Batch/Attempts `_base_attempt_specs`
--   and `_all_attempt_specs` with the loading of a retry plan, Batch/Retry `create_retry_plan` with
--   `assert_attempt_not_active` of process_guard.py, Batch/Run `run_batch`, and Batch/Collect and
--   Batch/Audit `collect_batch`. Batch/History has every sequence of runs, retry plans and changes
--   by others. A plan, a retry plan and a result stand for the decoded contents of their files. How the
--   rows of retry_shards.tsv read, after Python's csv module has written them, is an argument. The
--   directory of an attempt is a row of the batch, with what its verification and its reading give.
--   An adapter is a function to the row that it leaves; the reservation of its directory, by
--   shard.py, is the new row, and a list of the reserved directories is kept beside it. The two
--   workers of a run execute different directories, so the model runs them one after the other;
--   the lock of the batch makes a run or a retry plan one step.
-- * agent_harness/schema.py. Schema is `validate_schema_definition`, and Schema/Values and
--   Schema/Check are `validate_json_schema`. Both go into the schemas inside a schema on fuel, and
--   take the depth of the schema for it.
-- * Host has the files, and the code that is not the repository's: SHA-256, HMAC, the encoder and
--   the decoder of JSON, and the user id are fields of a record that the definitions which use
--   them take. Json has the decoded values with Python's comparisons; Prelude has what all parts share.
--
-- An exception is the text that it carries, in `Result`. Times of notifications are whole
-- microseconds. The time of a row in the consumption ledger is not modelled, since nothing reads it.
-- Loops are structural recursion, but for the two passes of Schema over a schema.
--
-- Not modelled: the planning of a batch and the reading of its plan file, its status, revalidation
-- and monitoring; warnings and the digests of audits; processes, pipes, HTTP and the file system
-- beyond files with an owner, a mode and contents; a RecursionError, but of `json.loads` of a line of a
-- stream; the command lines; the installation of hooks; the
-- probes of the host.
pub mod Adapter
pub mod Batch
pub mod Bridge
pub mod Host
pub mod Json
pub mod Notifications
pub mod Prelude
pub mod Runtime
pub mod Schema
