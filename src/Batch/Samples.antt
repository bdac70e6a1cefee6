-- ===== src/Batch/Samples.antt =====
-- A plan of one profile and two shards, and a batch in which the second shard failed.
use dispatcher_for_codex_age.Prelude.{ℕ, String, true, false, none, some, List, [], ◌∷◌}
use dispatcher_for_codex_age.Prelude.Text.{concat}
use dispatcher_for_codex_age.Adapter.Capture.{InvocationResult, passed, not_run, cli_nonzero_exit}
use dispatcher_for_codex_age.Batch.{
  ProfileRole, PlannedShard, LoadedPlan, AttemptSpec, sealed, authoritative,
}
use dispatcher_for_codex_age.Batch.Retry.{Batch}

abbrev pub reader : ProfileRole
reader = record {
  profile_id = "reader";
  role = "analyst";
  authority_class = authoritative;
  adapter_id = "codex_cli";
  execution_order = 1;
}

abbrev pub shard : String → ℕ → PlannedShard
shard id n = record { shard_id = id; shard_index = n; record_ids = id ∷ [] }

abbrev pub plan : LoadedPlan
plan = record {
  snapshot = record {
    batch_id = "b1";
    task_id_prefix = "batch-1";
    base_attempt_id = "attempt-001";
    profiles = reader ∷ [];
  };
  shards = shard "shard-0001" 1 ∷ shard "shard-0002" 2 ∷ [];
}

abbrev pub base : String → ℕ → AttemptSpec
base id n = record {
  profile = reader;
  shard = shard id n;
  task_id = concat "batch-1-" id;
  attempt_id = "attempt-001";
  parent_attempt_id = none;
  parent_failure_code = none;
  human_approval_reason = none;
  retry_plan_id = none;
}

abbrev pub both : List AttemptSpec
both = base "shard-0001" 1 ∷ base "shard-0002" 2 ∷ []

abbrev pub good : InvocationResult
good = record {
  success = true;
  exit_code = none;
  turn_completed = true;
  schema_status = passed;
  failure_code = none;
}

abbrev pub bad : InvocationResult
bad = record {
  success = false;
  exit_code = none;
  turn_completed = false;
  schema_status = not_run;
  failure_code = some cli_nonzero_exit;
}

-- The second shard was run before, and failed.
abbrev pub batch : Batch
batch = record {
  workers = ("batch-1-shard-0002" ∷ "reader" ∷ "attempt-001" ∷ [], sealed bad) ∷ [];
  retry_plans = [];
  processes = [];
  runs = "run-1" ∷ [];
  collections = [];
  calls = [];
}
