-- ===== src/Batch/Attempts.antt =====
-- agent_harness/batch.py: the attempts that the plan and the retry plans of a batch name.
pub mod Placed
pub mod Entries
pub mod Loading
use dispatcher_for_codex_age.Prelude.{
  ℕ, String, Bool, true, false, not, ◌&&◌, ◌||◌, Option, none, some, List, [], ◌∷◌, ◌++◌, contains,
  map, any, ◌==◌, string_eq, list_eq, if◌then◌else◌,
}
use dispatcher_for_codex_age.Prelude.Result.{Result, ok, err, refuse, ◌>>=◌, ◌>>◌}
use dispatcher_for_codex_age.Prelude.Sort.{sort}
use dispatcher_for_codex_age.Prelude.Text.{text_leb}
use dispatcher_for_codex_age.Batch.{
  ProfileRole, PlannedShard, LoadedPlan, AttemptSpec, RetryPlanEntry, RetryPlanSnapshot,
  RetryDirectory, Key, make_task_id, key_of,
}

-- One shard of `_base_attempt_specs`.
unfoldable pub base_spec : LoadedPlan → ProfileRole → PlannedShard → Result AttemptSpec
base_spec plan profile shard = do
  task_id ← make_task_id plan.snapshot.task_id_prefix shard.shard_id
  ok (record {
    profile = profile;
    shard = shard;
    task_id = task_id;
    attempt_id = plan.snapshot.base_attempt_id;
    parent_attempt_id = none;
    parent_failure_code = none;
    human_approval_reason = none;
    retry_plan_id = none;
  })

unfoldable pub profile_specs :
    LoadedPlan → ProfileRole → List PlannedShard → Result (List AttemptSpec)
profile_specs plan profile [] = ok []
profile_specs plan profile (shard ∷ shards) = do
  spec ← base_spec plan profile shard
  specs ← profile_specs plan profile shards
  ok (spec ∷ specs)

unfoldable pub specs_of : LoadedPlan → List ProfileRole → Result (List AttemptSpec)
specs_of plan [] = ok []
specs_of plan (profile ∷ profiles) = do
  specs ← profile_specs plan profile plan.shards
  more ← specs_of plan profiles
  ok (specs ++ more)

-- `_base_attempt_specs`
unfoldable pub base_attempt_specs : LoadedPlan → Result (List AttemptSpec)
base_attempt_specs plan = specs_of plan plan.snapshot.profiles

-- `profile_by_id[profile_id]`: the last of equal keys counts.
abbrev pub find_profile : String → List ProfileRole → Option ProfileRole
find_profile id [] = none
find_profile id (p ∷ ps) = elim (find_profile id ps) [
  | none ↦ if id == p.profile_id then some p else none
  | some q ↦ some q
]

abbrev pub find_shard : String → List PlannedShard → Option PlannedShard
find_shard id [] = none
find_shard id (s ∷ ss) = elim (find_shard id ss) [
  | none ↦ if id == s.shard_id then some s else none
  | some t ↦ some t
]

-- A row of retry_shards.tsv, `entry.model_dump`.
abbrev pub entry_row : RetryPlanEntry → List String
entry_row e =
    e.profile_id ∷ e.shard_id ∷ e.task_id ∷ e.parent_attempt_id ∷ e.parent_failure_code
    ∷ e.attempt_id ∷ e.human_approval_reason ∷ []

abbrev pub retry_contract : String
retry_contract = "BATCH_LOCAL_RETRY_PLAN_V1"

-- `_load_retry_plan_directory`
unfoldable pub load_retry_plan : String → RetryDirectory → Result RetryPlanSnapshot
load_retry_plan name d = do
  refuse (not d.verified) "Artifact manifest coverage mismatch"
  refuse (not (d.snapshot.contract == retry_contract) || not (d.snapshot.retry_plan_id == name))
      "Retry plan identity or contract mismatch"
  refuse (not (map entry_row d.snapshot.entries == d.ledger))
      "Retry shard ledger differs from retry plan snapshot"
  ok d.snapshot

unfoldable pub load_each : List (String × RetryDirectory) → Result (List RetryPlanSnapshot)
load_each [] = ok []
load_each ((name, d) ∷ ds) = do
  snapshot ← load_retry_plan name d
  snapshots ← load_each ds
  ok (snapshot ∷ snapshots)

abbrev pub by_name : String × RetryDirectory → String × RetryDirectory → Bool
by_name a b = text_leb a.0 b.0

-- `_retry_snapshots`
unfoldable pub retry_snapshots : List (String × RetryDirectory) → Result (List RetryPlanSnapshot)
retry_snapshots directories = load_each (sort by_name directories)

abbrev pub entry_key : RetryPlanEntry → Key
entry_key e = e.profile_id ∷ e.shard_id ∷ e.attempt_id ∷ []

-- The body of the loop of `_all_attempt_specs` over the entries of a retry plan.
unfoldable pub retry_spec : LoadedPlan → String → List Key → RetryPlanEntry → Result AttemptSpec
retry_spec plan retry_plan_id seen e = do
  profile ← elim (find_profile e.profile_id plan.snapshot.profiles) [
    | none ↦ err "Retry plan references an unknown profile or shard"
    | some p ↦ ok p
  ]
  shard ← elim (find_shard e.shard_id plan.shards) [
    | none ↦ err "Retry plan references an unknown profile or shard"
    | some s ↦ ok s
  ]
  expected_task ← make_task_id plan.snapshot.task_id_prefix e.shard_id
  refuse (not (e.task_id == expected_task)) "Retry plan task_id mismatch"
  refuse (contains (entry_key e) seen) "Retry attempt id is not unique for profile/shard"
  ok (record {
    profile = profile;
    shard = shard;
    task_id = e.task_id;
    attempt_id = e.attempt_id;
    parent_attempt_id = some e.parent_attempt_id;
    parent_failure_code = some e.parent_failure_code;
    human_approval_reason = some e.human_approval_reason;
    retry_plan_id = some retry_plan_id;
  })

unfoldable pub add_entries :
    LoadedPlan → String → List Key → List RetryPlanEntry → Result (List AttemptSpec)
add_entries plan id seen [] = ok []
add_entries plan id seen (e ∷ es) = do
  spec ← retry_spec plan id seen e
  specs ← add_entries plan id (entry_key e ∷ seen) es
  ok (spec ∷ specs)

unfoldable pub add_retries :
    LoadedPlan → List Key → List RetryPlanSnapshot → Result (List AttemptSpec)
add_retries plan seen [] = ok []
add_retries plan seen (r ∷ rs) = do
  refuse (not (r.batch_id == plan.snapshot.batch_id)) "Retry plan references a different batch"
  specs ← add_entries plan r.retry_plan_id seen r.entries
  more ← add_retries plan (map entry_key r.entries ++ seen) rs
  ok (specs ++ more)

-- `_all_attempt_specs`, of the retry plans as they stand in their directory.
unfoldable pub all_attempt_specs :
    LoadedPlan → List (String × RetryDirectory) → Result (List AttemptSpec)
all_attempt_specs plan directories = do
  base ← base_attempt_specs plan
  retries ← retry_snapshots directories
  more ← add_retries plan (map key_of base) retries
  ok (base ++ more)
