-- ===== src/Batch.antt =====
-- agent_harness/batch.py: the plan of a batch, its attempts and the directory that keeps them.
pub mod Attempts
pub mod Retry
pub mod Run
pub mod History
pub mod Collect
pub mod Audit
pub mod Samples
pub mod Tests
use dispatcher_for_codex_age.Prelude.{
  ℕ, String, Bool, true, false, not, ◌&&◌, ◌||◌, Option, none, some, List, [], ◌∷◌, ◌++◌, leb,
  length, all, contains, map, filter, any, ◌==◌, nat_eq, string_eq, list_eq, if◌then◌else◌,
}
use dispatcher_for_codex_age.Prelude.Result.{Result, ok, err, refuse, ◌>>=◌, ◌>>◌}
use dispatcher_for_codex_age.Prelude.Sort.{sort}
use dispatcher_for_codex_age.Prelude.Text.{codes, concat, is_alnum, text_leb}
use dispatcher_for_codex_age.Json.{Json}
use dispatcher_for_codex_age.Adapter.Capture.{
  FailureCode, policy_violation, silent_fallback, call_limit_exceeded, output_schema_invalid,
  InvocationResult, is_passed,
}

pub data AuthorityClass : Type 0 where
  authoritative shadow diagnostic : AuthorityClass

-- `BatchArtifactStatus`
pub data Status : Type 0 where
  planned incomplete success failed policy schema_invalid skipped : Status

-- `validate_local_identifier` of contracts.py; `field_name` stands in its message.
abbrev is_identifier_char : ℕ → Bool
is_identifier_char c = is_alnum c || contains c (b'.' ∷ b'_' ∷ b'-' ∷ [])

abbrev is_local : List ℕ → Bool
is_local [] = false
is_local (c ∷ cs) = is_alnum c && leb (length cs) 127 && all is_identifier_char cs

unfoldable pub local_identifier : String → String → Result String
local_identifier field_name value =
    if is_local (codes value) then ok value else err (concat field_name " must match")

pub record ProfileRole : Type 0 where
  pub profile_id : String
  pub role : String
  pub authority_class : AuthorityClass
  pub adapter_id : String
  pub execution_order : ℕ

pub record PlannedShard : Type 0 where
  pub shard_id : String
  pub shard_index : ℕ
  pub record_ids : List String

-- `BatchPlanSnapshot`, of the fields that a loaded plan is asked for.
pub record BatchPlanSnapshot : Type 0 where
  pub batch_id : String
  pub task_id_prefix : String
  pub base_attempt_id : String
  pub profiles : List ProfileRole

pub record LoadedPlan : Type 0 where
  pub snapshot : BatchPlanSnapshot
  pub shards : List PlannedShard

pub record AttemptSpec : Type 0 where
  pub profile : ProfileRole
  pub shard : PlannedShard
  pub task_id : String
  pub attempt_id : String
  pub parent_attempt_id : Option String
  pub parent_failure_code : Option String
  pub human_approval_reason : Option String
  pub retry_plan_id : Option String

pub record RetryPlanEntry : Type 0 where
  pub profile_id : String
  pub shard_id : String
  pub task_id : String
  pub parent_attempt_id : String
  pub parent_failure_code : String
  pub attempt_id : String
  pub human_approval_reason : String

pub record RetryPlanSnapshot : Type 0 where
  pub contract : String
  pub retry_plan_id : String
  pub batch_id : String
  pub entries : List RetryPlanEntry

-- A directory of retry_plans: whether its hashes verify, its snapshot, and the rows of its ledger.
pub record RetryDirectory : Type 0 where
  pub verified : Bool
  pub snapshot : RetryPlanSnapshot
  pub ledger : List (List String)

-- A directory of workers, by what `_verify_invocation_shard` and `_invocation_result` make of it.
pub data Artifact : Type 0 where
  irregular unsealed : Artifact
  sealed : InvocationResult → Artifact

-- Keys and paths are lists of names.
abbrev pub Key : Type 0
Key = List String

abbrev pub Workers : Type 0
Workers = List (Key × Artifact)

-- `path.exists()`, and what is there.
abbrev pub find_attempt : Key → Workers → Option Artifact
find_attempt path [] = none
find_attempt path ((p, a) ∷ ws) = if path == p then some a else find_attempt path ws

-- `_task_id`
unfoldable pub make_task_id : String → String → Result String
unfolding local_identifier
make_task_id prefix shard_id = local_identifier "task_id" (concat (concat prefix "-") shard_id)

-- `(profile_id, shard_id, attempt_id)`
abbrev pub key_of : AttemptSpec → Key
key_of s = s.profile.profile_id ∷ s.shard.shard_id ∷ s.attempt_id ∷ []

-- `_attempt_path`, below `plan.root / "workers"`.
abbrev pub attempt_path : AttemptSpec → Key
attempt_path s = s.task_id ∷ s.profile.profile_id ∷ s.attempt_id ∷ []

abbrev is_violation : Option FailureCode → Bool
is_violation (some policy_violation) = true
is_violation (some silent_fallback) = true
is_violation (some call_limit_exceeded) = true
is_violation _ = false

abbrev is_schema_failure : Option FailureCode → Bool
is_schema_failure (some output_schema_invalid) = true
is_schema_failure _ = false

unfoldable pub status_of_result : InvocationResult → Status
status_of_result r =
    if r.success && is_passed r.schema_status
    then success
    else if is_violation r.failure_code
    then policy
    else if is_schema_failure r.failure_code
    then schema_invalid
    else failed

unfoldable pub status_of : Option Artifact → Status
unfolding status_of_result
status_of none = planned
status_of (some irregular) = incomplete
status_of (some unsealed) = incomplete
status_of (some (sealed r)) = status_of_result r

-- `_classify_attempt`
unfoldable pub classify_attempt : Workers → AttemptSpec → Status
unfolding status_of
classify_attempt workers spec = status_of (find_attempt (attempt_path spec) workers)
