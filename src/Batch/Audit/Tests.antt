-- ===== src/Batch/Audit/Tests.antt =====
-- A collection of a plan of one profile and two shards, where both attempts succeeded.
use dispatcher_for_codex_age.Prelude.{
  String, ◌≡◌, ◌↔◌, refl, true, false, none, [], ◌∷◌, All, count, contains, string_eq,
  if◌then◌else◌,
}
use dispatcher_for_codex_age.Prelude.Result.{Result, ok, err}
use dispatcher_for_codex_age.Prelude.Sort.{sort, insert_sorted}
use dispatcher_for_codex_age.Json.{Fields, str, bool, arr, obj, nil, cons, end, field}
use dispatcher_for_codex_age.Schema.{
  each_property, check_properties, check_required, check_items, check_range, schema_types, types_of,
  check_children, check_limits, check_definition, validate_schema_definition,
}
use dispatcher_for_codex_age.Schema.Values.{
  matches_type, matches_any, check_type, check_fields, check_object, check_elements, check_each,
  check_bound, check_array, check_text, check_number, check_parts, check_value, validate_part,
}
use dispatcher_for_codex_age.Schema.Depth.{max}
use dispatcher_for_codex_age.Schema.Check.{validate_json_schema}
use dispatcher_for_codex_age.Runtime.Coverage.{observed_ids, validate_coverage}
use dispatcher_for_codex_age.Batch.{
  AttemptSpec, sealed, classify_attempt, make_task_id, local_identifier, status_of_result,
  status_of,
}
use dispatcher_for_codex_age.Batch.Attempts.{
  base_attempt_specs, all_attempt_specs, specs_of, profile_specs, base_spec, retry_snapshots,
  load_each, add_retries,
}
use dispatcher_for_codex_age.Batch.Retry.{Batch}
use dispatcher_for_codex_age.Batch.Run.{order_of}
use dispatcher_for_codex_age.Batch.Collect.{
  Archive, Collected, select_choices, candidates, record_of, result_rows, chosen_output,
  check_output, collect_shard, collect_shards,
}
use dispatcher_for_codex_age.Batch.Audit.{
  Collection, coverage_row, failed_row, failed_rows, collect_profiles, collection_of, collect_batch,
  planned_ids, is_empty, observed_of, ids_in,
}
use dispatcher_for_codex_age.Batch.Audit.Own.{HasRows}
use dispatcher_for_codex_age.Batch.Audit.Coverage.{coverage_row_iff}
use dispatcher_for_codex_age.Batch.Audit.ExactOnce.{HasEachOnce}
use dispatcher_for_codex_age.Batch.Audit.Passed.{collect_batch_exact, collect_batch_sources}
use dispatcher_for_codex_age.Batch.Samples.{plan, reader, both, good, batch}

abbrev record_schema : Fields
record_schema = field "type" (str "object") (
    field "properties" (obj (field "record_id" (obj (field "type" (str "string") end)) end)) (
      field "required" (arr (cons (str "record_id") nil))
        (field "additionalProperties" (bool false) end)))

abbrev schema : Fields
schema = field "type" (str "object") (
    field "properties"
      (obj (
        field "results" (obj (field "type" (str "array") (field "items" (obj record_schema) end)))
          end))
      end)

abbrev output : AttemptSpec → Fields
output s = field "results" (arr (cons (obj (field "record_id" (str s.shard.shard_id) end)) nil)) end

abbrev archive : Archive
archive = record {
  output = λ s. ok (obj (output s));
  task_schema = λ p s. ok (obj schema);
  revalidation = λ directory s. err "Required JSON artifact is unavailable";
}

abbrev done : Batch
done = record batch {
  workers =
      ("batch-1-shard-0001" ∷ "reader" ∷ "attempt-001" ∷ [], sealed good)
      ∷ ("batch-1-shard-0002" ∷ "reader" ∷ "attempt-001" ∷ [], sealed good)
      ∷ [];
}

abbrev collected_batch : Batch
collected_batch = record done { collections = "all" ∷ [] }

abbrev files : Result (Batch × Collection) → Collection
files (ok (b, c)) = c
files (err e) = record {
  long = [];
  by_profile = [];
  authoritative_results = [];
  shadow_results = [];
  diagnostic_results = [];
  coverage = [];
  failed = [];
  passed = false;
}

abbrev collection : Collection
collection = files (collect_batch archive plan "all" none done)

collected :
    (collect_batch archive plan "all" none done ≡ ok (collected_batch, collection))
    × (collection.passed ≡ true)
unfolding collect_batch collect_profiles collection_of coverage_row failed_rows failed_row
    collect_shards collect_shard check_output chosen_output result_rows record_of candidates
    select_choices order_of all_attempt_specs base_attempt_specs specs_of profile_specs base_spec
    make_task_id local_identifier retry_snapshots load_each add_retries sort insert_sorted
    classify_attempt status_of status_of_result observed_ids validate_coverage each_property
    check_properties check_required check_items check_range schema_types types_of check_children
    check_limits check_definition validate_schema_definition matches_type matches_any check_type
    check_fields check_object check_elements check_each check_bound check_array check_text
    check_number check_parts check_value validate_part max validate_json_schema
collected = (refl, refl)

collect_batch_exact_example : All (HasEachOnce plan collection.by_profile) (reader ∷ [])
collect_batch_exact_example =
    collect_batch_exact archive plan "all" none done collected_batch collection collected.0
      collected.1 refl

all_done : all_attempt_specs plan done.retry_plans ≡ ok both
unfolding all_attempt_specs base_attempt_specs specs_of profile_specs base_spec make_task_id
    local_identifier retry_snapshots load_each add_retries sort
all_done = refl

no_choices : select_choices plan done.workers both none ≡ ok none
unfolding select_choices
no_choices = refl

collect_batch_sources_example :
    All (λ p. All (HasRows p archive done.workers both none) plan.shards) (reader ∷ [])
collect_batch_sources_example =
    collect_batch_sources archive plan "all" none done collected_batch collection collected.0
      collected.1 both none all_done no_choices

abbrev nothing : Collected
nothing = record { found = []; errors = []; successful_shards = 0 }

-- A profile that collected nothing.
coverage_row_iff_example : ((coverage_row (planned_ids plan) reader nothing).passed ≡ true) ↔ (
    (is_empty nothing.errors ≡ true)
    × ((k : String)
        → count k (observed_of nothing) ≡ (if contains k (ids_in plan.shards) then 1 else 0)))
coverage_row_iff_example = coverage_row_iff plan reader nothing
