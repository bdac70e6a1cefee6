-- ===== src/Batch/Retry.antt =====
-- agent_harness/batch.py: the retry plan that a person asks for, `create_retry_plan`, with the guard
-- of process_guard.py on a parent attempt.
pub mod Entry
pub mod Last
pub mod Requested
pub mod Listed
pub mod Guards
use dispatcher_for_codex_age.Prelude.{
  ℕ, String, Bool, true, false, not, ◌&&◌, ◌||◌, Option, none, some, List, [], ◌∷◌, ◌++◌, contains,
  length, filter, map, any, is_unique, is_some, ◌==◌, nat_eq, string_eq, list_eq, if◌then◌else◌,
}
use dispatcher_for_codex_age.Prelude.Result.{Result, ok, err, refuse, or_raise, ◌>>=◌, ◌>>◌}
use dispatcher_for_codex_age.Adapter.Capture.{FailureCode, InvocationResult}
use dispatcher_for_codex_age.Batch.{
  Status, planned, incomplete, success, failed, policy, schema_invalid, skipped, LoadedPlan,
  AttemptSpec, RetryPlanEntry, RetryPlanSnapshot, RetryDirectory, Artifact, sealed, Key, Workers,
  find_attempt, key_of, attempt_path, classify_attempt, local_identifier,
}
use dispatcher_for_codex_age.Batch.Attempts.{all_attempt_specs, entry_row, retry_contract}

-- What `process_identity` reads of a process.
pub record Identity : Type 0 where
  pub pid : ℕ
  pub start_ticks : String
  pub boot_id : String

abbrev pub same_identity : Identity → Identity → Bool
same_identity a b = a.pid == b.pid && a.start_ticks == b.start_ticks && a.boot_id == b.boot_id

-- The directory of a batch beside its plan: workers, retry_plans, the children that .processes
-- names, and the names in batch_runs and collections. `calls` has the attempts whose directory an adapter reserved,
-- in order: only these may start an agent.
pub record Batch : Type 0 where
  pub workers : Workers
  pub retry_plans : List (String × RetryDirectory)
  pub processes : List (Key × Option Identity)
  pub runs : List String
  pub collections : List String
  pub calls : List Key

abbrev pub find_process : Key → List (Key × Option Identity) → Option (Option Identity)
find_process path [] = none
find_process path ((p, child) ∷ ps) = if path == p then some child else find_process path ps

-- `child and process_identity(child["pid"]) == child`
abbrev pub is_alive : (ℕ → Option Identity) → Option Identity → Bool
is_alive running none = false
is_alive running (some child) = elim (running child.pid) [
  | none ↦ false
  | some now ↦ same_identity now child
]

-- process_guard.py, `assert_attempt_not_active`, where `running` is `process_identity`.
unfoldable pub assert_not_active :
    (ℕ → Option Identity) → List (Key × Option Identity) → Key → Bool → Result (Unit {0})
assert_not_active running processes path is_incomplete = elim (find_process path processes) [
  | none ↦ ok tt
  | some child ↦ do
    refuse (is_alive running child) "RETRY_BLOCKED_CHILD_STILL_ALIVE"
    refuse (is_incomplete && not (is_some child)) "RETRY_BLOCKED_LAUNCH_STATE_UNKNOWN"
]

pub record RetryRequestEntry : Type 0 where
  pub profile_id : String
  pub shard_id : String
  pub parent_attempt_id : String
  pub new_attempt_id : String
  pub human_approval_reason : String

pub record RetryRequest : Type 0 where
  pub retry_plan_id : String
  pub entries : List RetryRequestEntry

-- `RetryRequestEntry`, validated; `strip` is `str.strip`.
unfoldable pub check_entry : (String → String) → RetryRequestEntry → Result RetryRequestEntry
check_entry strip e = do
  profile ← local_identifier "profile_id" e.profile_id
  shard ← local_identifier "shard_id" e.shard_id
  parent ← local_identifier "parent_attempt_id" e.parent_attempt_id
  attempt ← local_identifier "new_attempt_id" e.new_attempt_id
  refuse (strip e.human_approval_reason == "") "human_approval_reason must not be empty"
  ok (record e { human_approval_reason = strip e.human_approval_reason })

unfoldable pub check_entries :
    (String → String) → List RetryRequestEntry → Result (List RetryRequestEntry)
check_entries strip [] = ok []
check_entries strip (e ∷ es) = do
  checked ← check_entry strip e
  rest ← check_entries strip es
  ok (checked ∷ rest)

abbrev pub request_key : RetryRequestEntry → Key
request_key e = e.profile_id ∷ e.shard_id ∷ []

-- `RetryRequest`, validated.
unfoldable pub check_request : (String → String) → RetryRequest → Result RetryRequest
check_request strip r = do
  id ← local_identifier "retry_plan_id" r.retry_plan_id
  entries ← check_entries strip r.entries
  refuse (length entries == 0) "retry request must contain at least one entry"
  refuse (not (is_unique (map request_key entries))) "retry request repeats a profile/shard"
  ok (record { retry_plan_id = id; entries = entries })

-- `by_key.get(key)`: the last of equal keys counts.
abbrev pub find_spec : Key → List AttemptSpec → Option AttemptSpec
find_spec key [] = none
find_spec key (s ∷ ss) = elim (find_spec key ss) [
  | none ↦ if key == key_of s then some s else none
  | some t ↦ some t
]

abbrev pub is_sibling : String → String → AttemptSpec → Bool
is_sibling profile_id shard_id s =
    s.profile.profile_id == profile_id && s.shard.shard_id == shard_id

abbrev pub last_spec : List AttemptSpec → Option AttemptSpec
last_spec [] = none
last_spec (s ∷ ss) = elim (last_spec ss) [ none ↦ some s | some t ↦ some t ]

abbrev pub is_success : Status → Bool
is_success success = true
is_success _ = false

abbrev pub is_incomplete : Status → Bool
is_incomplete incomplete = true
is_incomplete _ = false

-- FAILED, POLICY_VIOLATION, SCHEMA_INVALID or RUNNING_OR_INCOMPLETE.
abbrev pub is_retryable : Status → Bool
is_retryable failed = true
is_retryable policy = true
is_retryable schema_invalid = true
is_retryable incomplete = true
is_retryable _ = false

abbrev pub status_name : Status → String
status_name planned = "PLANNED"
status_name incomplete = "RUNNING_OR_INCOMPLETE"
status_name success = "SUCCESS"
status_name failed = "FAILED"
status_name policy = "POLICY_VIOLATION"
status_name schema_invalid = "SCHEMA_INVALID"
status_name skipped = "SKIPPED_EXISTING_SUCCESS"

abbrev pub code_name : FailureCode → String
code_name FailureCode.cancelled = "CANCELLED"
code_name FailureCode.timed_out = "TIMEOUT"
code_name FailureCode.rate_limited = "PROVIDER_RATE_LIMIT_429"
code_name FailureCode.prefill_error = "PROVIDER_PREFILL_PARAMETER_ERROR"
code_name FailureCode.partial_error = "PROVIDER_PARTIAL_PARAMETER_ERROR"
code_name FailureCode.cli_nonzero_exit = "CLI_NONZERO_EXIT"
code_name FailureCode.event_stream_invalid = "EVENT_STREAM_INVALID"
code_name FailureCode.policy_violation = "POLICY_VIOLATION"
code_name FailureCode.turn_completed_missing = "TURN_COMPLETED_MISSING"
code_name FailureCode.silent_fallback = "SILENT_FALLBACK_DETECTED"
code_name FailureCode.profile_invalid = "PROFILE_CONFIGURATION_INVALID"
code_name FailureCode.final_output_missing = "FINAL_OUTPUT_MISSING"
code_name FailureCode.output_schema_invalid = "OUTPUT_SCHEMA_INVALID"
code_name FailureCode.model_not_reported = "SERVED_MODEL_NOT_REPORTED"
code_name FailureCode.call_limit_exceeded = "CALL_LIMIT_EXCEEDED"
code_name FailureCode.payload_invalid = "PAYLOAD_INVALID"

-- `_invocation_result`, which reads no file where the attempt was not sealed.
abbrev pub invocation_result : Workers → AttemptSpec → Option InvocationResult
invocation_result workers s = elim (find_attempt (attempt_path s) workers) [
  | none ↦ none
  | some a ↦ elim a [ sealed r ↦ some r | _ ↦ none ]
]

-- `parent_failure`
abbrev pub failure_of_parent : Workers → AttemptSpec → String
failure_of_parent workers parent = elim (invocation_result workers parent) [
  | none ↦ "INCOMPLETE_ATTEMPT"
  | some r ↦ elim r.failure_code [
    | none ↦ status_name (classify_attempt workers parent)
    | some code ↦ code_name code
  ]
]

-- The guards of `create_retry_plan` on an entry, its parent and the attempts of its shard.
unfoldable pub check_retry :
    (ℕ → Option Identity)
    → Batch
    → RetryRequestEntry
    → AttemptSpec
    → List AttemptSpec
    → Result (Unit {0})
check_retry running b e parent siblings = do
  refuse (any (λ s. is_success (classify_attempt b.workers s)) siblings)
      "Successful profile/shard attempts cannot be retried"
  refuse
      (elim (last_spec siblings) [
        | none ↦ true
        | some latest ↦ not (latest.attempt_id == e.parent_attempt_id)
      ])
      "Retry parent must be the latest planned attempt"
  assert_not_active running b.processes (attempt_path parent)
      (is_incomplete (classify_attempt b.workers parent))
  refuse (not (is_retryable (classify_attempt b.workers parent)))
      "Retry parent is not failed or incomplete"
  refuse (e.new_attempt_id == e.parent_attempt_id)
      "Retry attempt_id must differ from parent attempt_id"
  refuse (any (λ s. s.attempt_id == e.new_attempt_id) siblings)
      "Retry attempt_id already exists for profile/shard"

-- One entry of the request.
unfoldable pub plan_entry :
    (ℕ → Option Identity) → Batch → List AttemptSpec → RetryRequestEntry → Result RetryPlanEntry
plan_entry running b all_specs e = do
  parent ← elim (find_spec (e.profile_id ∷ e.shard_id ∷ e.parent_attempt_id ∷ []) all_specs) [
    | none ↦ err "Retry parent attempt is not present in existing plans"
    | some s ↦ ok s
  ]
  check_retry running b e parent (filter (is_sibling e.profile_id e.shard_id) all_specs)
  ok (record {
    profile_id = e.profile_id;
    shard_id = e.shard_id;
    task_id = parent.task_id;
    parent_attempt_id = e.parent_attempt_id;
    parent_failure_code = failure_of_parent b.workers parent;
    attempt_id = e.new_attempt_id;
    human_approval_reason = e.human_approval_reason;
  })

unfoldable pub plan_entries :
    (ℕ → Option Identity)
    → Batch
    → List AttemptSpec
    → List RetryRequestEntry
    → Result (List RetryPlanEntry)
plan_entries running b all_specs [] = ok []
plan_entries running b all_specs (e ∷ es) = do
  entry ← plan_entry running b all_specs e
  entries ← plan_entries running b all_specs es
  ok (entry ∷ entries)

abbrev pub retry_names : Batch → List String
retry_names b = map (λ d. d.0) b.retry_plans

-- The rows of retry_shards.tsv as they are written and then read: `tsv` is `_write_tsv`, and
-- `_read_tsv` of its file. It gives none where the writer raises. Python's csv reader need not return
-- what the writer was given: a carriage return inside a cell is written without quotes, and ends a
-- row when it is read. Where the reader raises, as for a cell beyond its limit, any rows but those
-- that were written stand for that: `_load_retry_plan_directory` raises in both cases.
abbrev pub Tsv : Type 0
Tsv = List (List String) → Option (List (List String))

-- What is written and sealed below retry_plans, with the ledger as it reads.
abbrev pub retry_directory :
    LoadedPlan → String → List RetryPlanEntry → List (List String) → RetryDirectory
retry_directory plan id entries ledger = record {
  verified = true;
  snapshot = record {
    contract = retry_contract;
    retry_plan_id = id;
    batch_id = plan.snapshot.batch_id;
    entries = entries;
  };
  ledger = ledger;
}

-- `create_retry_plan`, of a loaded plan and the document of the request.
unfoldable pub create_retry_plan :
    (String → String)
    → Tsv
    → (ℕ → Option Identity)
    → LoadedPlan
    → RetryRequest
    → Batch
    → Result Batch
create_retry_plan strip tsv running plan document b = do
  request ← check_request strip document
  refuse (contains request.retry_plan_id (retry_names b))
      "Retry plan already exists; overwrite is forbidden"
  all_specs ← all_attempt_specs plan b.retry_plans
  entries ← plan_entries running b all_specs request.entries
  ledger ← or_raise (tsv (map entry_row entries)) "UnicodeEncodeError"
  ok (record b {
    retry_plans =
        b.retry_plans
        ++ (request.retry_plan_id, retry_directory plan request.retry_plan_id entries ledger) ∷ [];
  })
