-- ===== src/Batch/Audit.antt =====
-- agent_harness/batch.py: the end of `collect_batch`, the coverage of each profile, the attempts that
-- failed, and the files of a collection.
pub mod Coverage
pub mod Own
pub mod ExactOnce
pub mod Passed
pub mod Tests
use dispatcher_for_codex_age.Prelude.{
  ℕ, String, Bool, true, false, not, ◌&&◌, Option, none, some, List, [], ◌∷◌, ◌++◌, contains,
  length, filter, map, all, count, ltb, ◌==◌, nat_eq, string_eq, if◌then◌else◌,
}
use dispatcher_for_codex_age.Prelude.Result.{Result, ok, err, refuse, ◌>>=◌, ◌>>◌}
use dispatcher_for_codex_age.Prelude.Sort.{sort}
use dispatcher_for_codex_age.Prelude.Text.{text_leb}
use dispatcher_for_codex_age.Json.{Json, Fields, keys, get}
use dispatcher_for_codex_age.Batch.{
  AuthorityClass, authoritative, shadow, diagnostic, ProfileRole, PlannedShard, LoadedPlan,
  AttemptSpec, Status, Workers, classify_attempt, local_identifier,
}
use dispatcher_for_codex_age.Batch.Attempts.{all_attempt_specs}
use dispatcher_for_codex_age.Batch.Retry.{
  Batch, is_success, is_incomplete, invocation_result, code_name, status_name,
}
use dispatcher_for_codex_age.Batch.Run.{is_planned, order_of}
use dispatcher_for_codex_age.Batch.Collect.{
  Archive, SelectionEntry, Choice, ResultRow, Collected, select_choices, collect_shards,
}

-- `set(ids)`
abbrev pub distinct : List String → List String
distinct [] = []
distinct (x ∷ xs) = let rest = distinct xs in if contains x rest then rest else x ∷ rest

abbrev ids_in : List PlannedShard → List String
ids_in [] = []
ids_in (s ∷ ss) = s.record_ids ++ ids_in ss

-- `global_planned_ids`
abbrev pub planned_ids : LoadedPlan → List String
planned_ids plan = distinct (ids_in plan.shards)

abbrev pub observed_of : Collected → List String
observed_of c = map (λ row. row.record_id) c.found

-- A row of coverage_audit.tsv.
pub record CoverageRow : Type 0 where
  pub profile : ProfileRole
  pub planned_count : ℕ
  pub observed_count : ℕ
  pub unique_count : ℕ
  pub missing : List String
  pub extra : List String
  pub duplicate : List String
  pub errors : List String
  pub successful_shards : ℕ
  pub passed : Bool

abbrev pub is_empty : List String → Bool
is_empty [] = true
is_empty _ = false

abbrev pub missing_ids : List String → List String → List String
missing_ids planned observed = filter (λ k. not (contains k observed)) planned

abbrev pub extra_ids : List String → List String → List String
extra_ids planned observed = filter (λ k. not (contains k planned)) (distinct observed)

abbrev pub duplicate_ids : List String → List String
duplicate_ids observed = filter (λ k. not (count k observed == 1)) (distinct observed)

-- The audit of a profile.
unfoldable pub coverage_row : List String → ProfileRole → Collected → CoverageRow
coverage_row planned p c =
    let observed = observed_of c in
    let missing = sort text_leb (missing_ids planned observed) in
    let extra = sort text_leb (extra_ids planned observed) in
    let duplicate = sort text_leb (duplicate_ids observed) in
    record {
      profile = p;
      planned_count = length planned;
      observed_count = length observed;
      unique_count = length (distinct observed);
      missing = missing;
      extra = extra;
      duplicate = duplicate;
      errors = c.errors;
      successful_shards = c.successful_shards;
      passed =
          length observed == length planned
          && is_empty missing
          && is_empty extra
          && is_empty duplicate
          && is_empty c.errors;
    }

-- A row of failed_shards.tsv.
pub record FailedRow : Type 0 where
  pub spec : AttemptSpec
  pub status : Status
  pub failure_code : String

unfoldable pub failed_row : Workers → AttemptSpec → FailedRow
failed_row workers spec =
    let status = classify_attempt workers spec in
    record {
      spec = spec;
      status = status;
      failure_code =
          if is_planned status then "NOT_STARTED" else elim (invocation_result workers spec) [
            | none ↦ "INCOMPLETE_ATTEMPT"
            | some r ↦ elim r.failure_code [ none ↦ status_name status | some c ↦ code_name c ]
          ];
    }

unfoldable pub failed_rows : Workers → List AttemptSpec → List FailedRow
failed_rows workers specs =
    map (failed_row workers) (filter (λ s. not (is_success (classify_attempt workers s))) specs)

-- A row of agent_results_long.tsv.
pub record LongRow : Type 0 where
  pub row : ResultRow
  pub field_name : String
  pub value : Json

abbrev long_rows_of : ResultRow → List LongRow
long_rows_of r =
    map (λ name. record { row = r; field_name = name; value = get name r.result })
      (sort text_leb (filter (λ name. not (name == "record_id")) (distinct (keys r.result))))

abbrev long_rows : List ResultRow → List LongRow
long_rows [] = []
long_rows (r ∷ rs) = long_rows_of r ++ long_rows rs

abbrev same_authority : AuthorityClass → AuthorityClass → Bool
same_authority authoritative authoritative = true
same_authority shadow shadow = true
same_authority diagnostic diagnostic = true
same_authority _ _ = false

-- `then_leb` is the order of the second key.
abbrev by_order : ℕ → ℕ → Bool → Bool
by_order i j then_leb = if ltb i j then true else if ltb j i then false else then_leb

abbrev pub result_leb : LoadedPlan → ResultRow → ResultRow → Bool
result_leb plan a b =
    by_order (order_of plan a.profile.profile_id) (order_of plan b.profile.profile_id)
      (text_leb a.record_id b.record_id)

-- The order by (execution_order, record_id, field_name).
abbrev long_leb : LoadedPlan → LongRow → LongRow → Bool
long_leb plan a b =
    by_order (order_of plan a.row.profile.profile_id) (order_of plan b.row.profile.profile_id) (
      if a.row.record_id == b.row.record_id
      then text_leb a.field_name b.field_name
      else text_leb a.row.record_id b.row.record_id)

abbrev failed_leb : LoadedPlan → FailedRow → FailedRow → Bool
failed_leb plan a b =
    by_order (order_of plan a.spec.profile.profile_id) (order_of plan b.spec.profile.profile_id) (
      if a.spec.shard.shard_id == b.spec.shard.shard_id
      then text_leb a.spec.attempt_id b.spec.attempt_id
      else text_leb a.spec.shard.shard_id b.spec.shard.shard_id)

-- The files of a collection, and the status of its summary.
pub record Collection : Type 0 where
  pub long : List LongRow
  pub by_profile : List ResultRow
  pub authoritative_results : List ResultRow
  pub shadow_results : List ResultRow
  pub diagnostic_results : List ResultRow
  pub coverage : List CoverageRow
  pub failed : List FailedRow
  pub passed : Bool

-- The loop over the profiles, whose ids are different.
unfoldable pub collect_profiles :
    Archive
    → LoadedPlan
    → Workers
    → List AttemptSpec
    → Option (List Choice)
    → List ProfileRole
    → Result (List (ProfileRole × Collected))
collect_profiles a plan workers specs selected [] = ok []
collect_profiles a plan workers specs selected (p ∷ ps) = do
  collected ← collect_shards a workers specs selected p plan.shards
  more ← collect_profiles a plan workers specs selected ps
  ok ((p, collected) ∷ more)

abbrev pub all_found : List (ProfileRole × Collected) → List ResultRow
all_found [] = []
all_found ((p, c) ∷ cs) = c.found ++ all_found cs

unfoldable pub collection_of :
    LoadedPlan → Workers → List AttemptSpec → List (ProfileRole × Collected) → Collection
unfolding coverage_row failed_rows
collection_of plan workers specs profiles =
    let found = all_found profiles in
    let by_profile = sort (result_leb plan) found in
    let of_class = λ (c : AuthorityClass).
      filter (λ (row : ResultRow). same_authority row.profile.authority_class c) by_profile in
    let coverage = map (λ pc. coverage_row (planned_ids plan) pc.0 pc.1) profiles in
    record {
      long = sort (long_leb plan) (long_rows found);
      by_profile = by_profile;
      authoritative_results = of_class authoritative;
      shadow_results = of_class shadow;
      diagnostic_results = of_class diagnostic;
      coverage = coverage;
      failed = sort (failed_leb plan) (failed_rows workers specs);
      passed = all (λ (row : CoverageRow). row.passed) coverage;
    }

-- `collect_batch`, of a loaded plan.
unfoldable pub collect_batch :
    Archive
    → LoadedPlan
    → String
    → Option (List SelectionEntry)
    → Batch
    → Result (Batch × Collection)
collect_batch a plan collection_id selection b = do
  id ← local_identifier "collection_id" collection_id
  refuse (contains collection_id b.collections)
      "Collection id already exists; overwrite is forbidden"
  specs ← all_attempt_specs plan b.retry_plans
  selected ← select_choices plan b.workers specs selection
  profiles ← collect_profiles a plan b.workers specs selected plan.snapshot.profiles
  ok (
    record b { collections = b.collections ++ collection_id ∷ [] },
    collection_of plan b.workers specs profiles,
  )
