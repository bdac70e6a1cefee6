-- ===== src/Batch/Tests.antt =====
-- The theorems about the attempts of a batch, its runs and its retry plans.
use dispatcher_for_codex_age.Prelude.{
  ℕ, String, ◌≤◌, ◌≡◌, ◌↔◌, refl, true, false, Option, none, some, List, [], ◌∷◌, map, all, count,
  All, string_eq, list_eq,
}
use dispatcher_for_codex_age.Prelude.Result.{Result, ok, err, is_ok}
use dispatcher_for_codex_age.Batch.{
  sealed, Key, key_of, classify_attempt, make_task_id, local_identifier, status_of_result,
  status_of,
}
use dispatcher_for_codex_age.Batch.Attempts.{
  base_attempt_specs, all_attempt_specs, specs_of, profile_specs, base_spec, retry_snapshots,
  load_each, add_retries,
}
use dispatcher_for_codex_age.Batch.Attempts.Entries.{AreNew}
use dispatcher_for_codex_age.Batch.Attempts.Loading.{loads, retried, all_attempt_specs_iff}
use dispatcher_for_codex_age.Batch.Retry.{
  Identity, Batch, Tsv, RetryRequest, RetryRequestEntry, create_retry_plan, check_request,
  check_entries, check_entry, plan_entries, plan_entry, check_retry, assert_not_active, is_success,
}
use dispatcher_for_codex_age.Batch.Retry.Listed.{IsExtended, create_retry_plan-IsExtended}
use dispatcher_for_codex_age.Batch.Retry.Guards.{IsRetried, create_retry_plan-IsRetried}
use dispatcher_for_codex_age.Batch.Run.{
  World, RunRequest, RunResult, Row, ran, returned, run_batch, select_attempts, chosen_attempts,
  validate_each, validate_run_spec, execute_all, run_in_order, execute_profile, invoke,
  profile_groups, order_of, summarize, ledger_row, unexecuted_row,
}
use dispatcher_for_codex_age.Prelude.Sort.{sort, insert_sorted}
use dispatcher_for_codex_age.Batch.Run.Passing.{run_batch_pass}
use dispatcher_for_codex_age.Batch.History.{HasAttempt, here, next, run_once, called_at_most_once}
use dispatcher_for_codex_age.Batch.Samples.{plan, both, good, batch}

abbrev world : World
world = record {
  running = λ pid. none;
  preflight = λ s. ok tt;
  load_task = λ s. ok tt;
  is_cancelled = λ s. false;
  reply = λ s. returned (sealed good) good;
}

abbrev run : RunRequest
run = record { run_id = "run-2"; max_workers = 1; retry_plan = none; dry_run = false }

abbrev first_path : Key
first_path = "batch-1-shard-0001" ∷ "reader" ∷ "attempt-001" ∷ []

plan_listed : base_attempt_specs plan ≡ ok both
unfolding base_attempt_specs specs_of profile_specs base_spec make_task_id local_identifier
plan_listed = refl

called_at_most_once_example :
    (count first_path (run_batch world plan run batch).0.calls ≤ 1)
    × (HasAttempt first_path batch.workers
        → count first_path (run_batch world plan run batch).0.calls ≡ 0)
called_at_most_once_example =
    called_at_most_once {b = batch} (next here (run_once world plan run batch)) refl first_path

selected : select_attempts world plan run batch ≡ ok both
unfolding select_attempts chosen_attempts base_attempt_specs specs_of profile_specs base_spec
    make_task_id local_identifier classify_attempt status_of status_of_result validate_each
    validate_run_spec
selected = refl

abbrev ran_rows : Result RunResult → List Row
ran_rows (ok (ran pass n m k rows)) = rows
ran_rows _ = []

abbrev ledger : List Row
ledger = ran_rows (run_batch world plan run batch).1

returned_summary : (run_batch world plan run batch).1 ≡ ok (ran false 2 1 0 ledger)
unfolding run_batch select_attempts chosen_attempts base_attempt_specs specs_of profile_specs
    base_spec make_task_id local_identifier classify_attempt status_of status_of_result
    validate_each validate_run_spec execute_all run_in_order execute_profile invoke profile_groups
    order_of summarize ledger_row unexecuted_row sort insert_sorted
returned_summary = refl

-- The failed shard was not run again, so the run does not pass.
run_batch_pass_example :
    false
    ≡ all (λ s. is_success (classify_attempt (run_batch world plan run batch).0.workers s)) both
run_batch_pass_example = run_batch_pass world plan run batch both selected returned_summary

abbrev entry : RetryRequestEntry
entry = record {
  profile_id = "reader";
  shard_id = "shard-0002";
  parent_attempt_id = "attempt-001";
  new_attempt_id = "attempt-002";
  human_approval_reason = "the machine was off";
}

abbrev request : RetryRequest
request = record { retry_plan_id = "again"; entries = entry ∷ [] }

abbrev strip : String → String
strip s = s

-- A csv file that reads as it was written.
abbrev tsv : Tsv
tsv rows = some rows

abbrev running : ℕ → Option Identity
running pid = none

abbrev made : Result Batch → Batch
made (ok b) = b
made (err e) = batch

abbrev retried_batch : Batch
retried_batch = made (create_retry_plan strip tsv running plan request batch)

all_listed : all_attempt_specs plan [] ≡ ok both
unfolding all_attempt_specs base_attempt_specs specs_of profile_specs base_spec make_task_id
    local_identifier retry_snapshots load_each add_retries sort
all_listed = refl

retry_made : create_retry_plan strip tsv running plan request batch ≡ ok retried_batch
unfolding create_retry_plan check_request check_entries check_entry all_attempt_specs
    base_attempt_specs specs_of profile_specs base_spec make_task_id local_identifier
    retry_snapshots load_each add_retries sort plan_entries plan_entry check_retry assert_not_active
    classify_attempt status_of status_of_result
retry_made = refl

create_retry_plan-IsExtended_example : IsExtended tsv plan request both batch retried_batch
create_retry_plan-IsExtended_example =
    create_retry_plan-IsExtended strip tsv running plan request batch retried_batch both all_listed
      retry_made

request_checked : check_request strip request ≡ ok request
unfolding check_request check_entries check_entry local_identifier
request_checked = refl

create_retry_plan-IsRetried_example : All (IsRetried running batch both) request.entries
create_retry_plan-IsRetried_example =
    create_retry_plan-IsRetried strip tsv running plan request request batch retried_batch both
      request_checked all_listed retry_made

all_attempt_specs_iff_example :
    (is_ok (all_attempt_specs plan retried_batch.retry_plans) ≡ true) ↔ (
      (all (loads plan) retried_batch.retry_plans ≡ true)
      × AreNew (map key_of both) (retried retried_batch.retry_plans))
all_attempt_specs_iff_example =
    all_attempt_specs_iff plan retried_batch.retry_plans both plan_listed
