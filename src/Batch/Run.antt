-- ===== src/Batch/Run.antt =====
-- agent_harness/batch.py: `run_batch`, which lets the adapters run the attempts that never started.
pub mod Calls
pub mod Rows
pub mod Recorded
pub mod Passing
use dispatcher_for_codex_age.Prelude.{
  ℕ, String, Bool, true, false, not, ◌&&◌, ◌||◌, Option, none, some, List, [], ◌∷◌, ◌++◌, contains,
  length, filter, map, any, all, count_if, is_some, leb, ltb, ◌==◌, nat_eq, string_eq, list_eq,
  if◌then◌else◌,
}
use dispatcher_for_codex_age.Prelude.Int.{ℤ}
use dispatcher_for_codex_age.Prelude.Result.{Result, ok, err, refuse, or_raise, ◌>>=◌, ◌>>◌}
use dispatcher_for_codex_age.Prelude.Sort.{sort}
use dispatcher_for_codex_age.Prelude.Text.{text_leb}
use dispatcher_for_codex_age.Adapter.Capture.{InvocationResult, SchemaStatus, not_run}
use dispatcher_for_codex_age.Batch.{
  Status, planned, incomplete, success, failed, policy, schema_invalid, skipped, LoadedPlan,
  AttemptSpec, RetryDirectory, Artifact, Key, Workers, find_attempt, key_of, attempt_path,
  classify_attempt, local_identifier,
}
use dispatcher_for_codex_age.Batch.Attempts.{
  base_attempt_specs, all_attempt_specs, load_retry_plan, find_profile,
}
use dispatcher_for_codex_age.Batch.Retry.{
  Identity, Batch, assert_not_active, is_sibling, is_success, is_incomplete, is_retryable,
  invocation_result, code_name,
}

-- What `invoke` leaves in the directory that it reserved, and whether it returns.
pub data Reply : Type 0 where
  returned : Artifact → InvocationResult → Reply
  raised : Artifact → String → Reply

-- The surroundings of a run: the processes of the machine, what the task file, its payload and the
-- adapter's preflight say of an attempt, the task file when the attempt's turn comes, whether the
-- run is cancelled by then, and what the adapter does.
pub record World : Type 0 where
  pub running : ℕ → Option Identity
  pub preflight : AttemptSpec → Result (Unit {0})
  pub load_task : AttemptSpec → Result (Unit {0})
  pub is_cancelled : AttemptSpec → Bool
  pub reply : AttemptSpec → Reply

pub record RunRequest : Type 0 where
  pub run_id : String
  pub max_workers : ℕ
  pub retry_plan : Option String
  pub dry_run : Bool

pub data Action : Type 0 where
  executed skipped_success incomplete_attempt cancelled_before_start blocked_failure : Action

-- A row of batch_run_ledger.tsv; the columns that repeat the attempt's are its `spec`. `none` is
-- NOT_REPORTED for a code of exit, and NOT_APPLICABLE for a failure.
pub record Row : Type 0 where
  pub spec : AttemptSpec
  pub prior_status : Status
  pub action : Action
  pub terminal_status : Status
  pub exit_code : Option ℤ
  pub failure_code : Option String
  pub schema_status : SchemaStatus

abbrev pub find_directory : String → List (String × RetryDirectory) → Option RetryDirectory
find_directory name [] = none
find_directory name ((n, d) ∷ ds) = if name == n then some d else find_directory name ds

abbrev pub is_of_retry : String → AttemptSpec → Bool
is_of_retry id s = elim s.retry_plan_id [ none ↦ false | some i ↦ i == id ]

-- `_specs_for_retry`, of a retry plan that is given by its name.
unfoldable pub specs_for_retry : LoadedPlan → Batch → String → Result (List AttemptSpec)
specs_for_retry plan b name = do
  directory ← or_raise (find_directory name b.retry_plans) "FileNotFoundError"
  retry ← load_retry_plan name directory
  specs ← all_attempt_specs plan b.retry_plans
  ok (filter (is_of_retry retry.retry_plan_id) specs)

unfoldable pub chosen_attempts : LoadedPlan → Option String → Batch → Result (List AttemptSpec)
chosen_attempts plan none b = base_attempt_specs plan
chosen_attempts plan (some name) b = specs_for_retry plan b name

abbrev find_attempt_id : String → List AttemptSpec → Option AttemptSpec
find_attempt_id id [] = none
find_attempt_id id (s ∷ ss) = if s.attempt_id == id then some s else find_attempt_id id ss

-- `_validate_run_spec`, of an attempt with a parent.
unfoldable pub check_parent : World → LoadedPlan → Batch → AttemptSpec → String → Result (Unit {0})
check_parent w plan b spec parent_id = do
  specs ← all_attempt_specs plan b.retry_plans
  let siblings = filter (is_sibling spec.profile.profile_id spec.shard.shard_id) specs
  parent ← elim (find_attempt_id parent_id siblings) [
    | none ↦ err "Retry parent no longer has a retry-eligible status"
    | some p ↦ ok p
  ]
  refuse (not (is_retryable (classify_attempt b.workers parent)))
      "Retry parent no longer has a retry-eligible status"
  assert_not_active w.running b.processes (attempt_path parent)
      (is_incomplete (classify_attempt b.workers parent))
  refuse (any (λ s. is_success (classify_attempt b.workers s)) siblings)
      "Retry is blocked because the profile/shard already succeeded"

-- `_validate_run_spec`, and the preflight of the adapter.
unfoldable pub validate_run_spec : World → LoadedPlan → Batch → AttemptSpec → Result (Unit {0})
validate_run_spec w plan b spec = do
  elim spec.parent_attempt_id [ none ↦ ok tt | some id ↦ check_parent w plan b spec id ]
  w.preflight spec

unfoldable pub validate_each : World → LoadedPlan → Batch → List AttemptSpec → Result (Unit {0})
validate_each w plan b [] = ok tt
validate_each w plan b (s ∷ ss) = do validate_run_spec w plan b s; validate_each w plan b ss

abbrev pub is_planned : Status → Bool
is_planned planned = true
is_planned _ = false

abbrev pub runnable_of : Batch → List AttemptSpec → List AttemptSpec
runnable_of b specs = filter (λ s. is_planned (classify_attempt b.workers s)) specs

-- The checks of `run_batch` before anything starts: the attempts that it was asked for.
unfoldable pub select_attempts : World → LoadedPlan → RunRequest → Batch → Result (List AttemptSpec)
select_attempts w plan q b = do
  id ← local_identifier "run_id" q.run_id
  refuse (not (contains q.max_workers (1 ∷ 2 ∷ []))) "max_workers must be 1 or 2"
  specs ← chosen_attempts plan q.retry_plan b
  refuse (length specs == 0) "Selected execution plan contains no attempts"
  refuse (contains q.run_id b.runs) "Batch run id already exists; overwrite is forbidden"
  validate_each w plan b (runnable_of b specs)
  ok specs

abbrev pub reserve : Key → Artifact → Batch → Batch
reserve path a b = record b { workers = b.workers ++ (path, a) ∷ []; calls = b.calls ++ path ∷ [] }

-- `adapter.invoke`: ImmutableShardWriter of shard.py makes the attempt's directory first, or raises.
unfoldable pub invoke : World → AttemptSpec → Batch → Batch × Result InvocationResult
invoke w spec b =
    if is_some (find_attempt (attempt_path spec) b.workers)
    then (b, err "Attempt shard already exists")
    else elim (w.reply spec) [
      | returned a r ↦ (reserve (attempt_path spec) a b, ok r)
      | raised a e ↦ (reserve (attempt_path spec) a b, err e)
    ]

abbrev pub executed_row : AttemptSpec → Batch → InvocationResult → Row
executed_row spec b result = record {
  spec = spec;
  prior_status = planned;
  action = executed;
  terminal_status = classify_attempt b.workers spec;
  exit_code = result.exit_code;
  failure_code = elim result.failure_code [ none ↦ none | some c ↦ some (code_name c) ];
  schema_status = result.schema_status;
}

abbrev pub add_rows : List Row → Result (List Row) → Result (List Row)
add_rows rows (ok more) = ok (rows ++ more)
add_rows rows (err e) = err e

-- `execute_profile`, of the attempts of one profile.
unfoldable pub execute_profile : World → List AttemptSpec → Batch → Batch × Result (List Row)
execute_profile w [] b = (b, ok [])
execute_profile w (spec ∷ specs) b = elim (w.is_cancelled spec) [
  | true ↦ (b, ok [])
  | false ↦ elim (w.load_task spec) [
    | err e ↦ (b, err e)
    | ok _ ↦
        let (after, reply) = invoke w spec b in
        let (final, rest) = execute_profile w specs after in
        elim reply [
          | err e ↦ (after, err e)
          | ok r ↦ (final, add_rows (executed_row spec after r ∷ []) rest)
        ]
  ]
]

-- One worker: the profiles one after another, until one raises.
unfoldable pub run_in_order : World → List (List AttemptSpec) → Batch → Batch × Result (List Row)
run_in_order w [] b = (b, ok [])
run_in_order w (group ∷ groups) b =
    let (after, reply) = execute_profile w group b in
    let (final, rest) = run_in_order w groups after in
    elim reply [ err e ↦ (after, err e) | ok rows ↦ (final, add_rows rows rest) ]

-- Two workers: each profile runs whatever the others do, in directories of its own; the first that
-- raised, in the order of the profiles, is raised at the end.
unfoldable pub run_in_pool : World → List (List AttemptSpec) → Batch → Batch × Result (List Row)
run_in_pool w [] b = (b, ok [])
run_in_pool w (group ∷ groups) b =
    let (after, reply) = execute_profile w group b in
    let (final, rest) = run_in_pool w groups after in (final, reply >>= λ rows. add_rows rows rest)

unfoldable pub order_of : LoadedPlan → String → ℕ
order_of plan id = elim (find_profile id plan.snapshot.profiles) [
  | none ↦ 0
  | some p ↦ p.execution_order
]

-- The profiles of the attempts, each once, in the order in which they first stand.
abbrev pub profile_ids : List String → List AttemptSpec → List String
profile_ids seen [] = []
profile_ids seen (s ∷ ss) =
    let more = profile_ids (s.profile.profile_id ∷ seen) ss in
    let same = profile_ids seen ss in
    if contains s.profile.profile_id seen then same else s.profile.profile_id ∷ more

abbrev pub by_shard : AttemptSpec → AttemptSpec → Bool
by_shard a b = text_leb a.shard.shard_id b.shard.shard_id

-- `profile_groups`, in the order of `ordered_profiles`.
unfoldable pub profile_groups : LoadedPlan → List AttemptSpec → List (List AttemptSpec)
profile_groups plan specs =
    map (λ id. sort by_shard (filter (λ s. s.profile.profile_id == id) specs))
      (sort (λ a b. leb (order_of plan a) (order_of plan b)) (profile_ids [] specs))

unfoldable pub execute_all : World → ℕ → List (List AttemptSpec) → Batch → Batch × Result (List Row)
execute_all w workers groups b =
    if workers == 1 then run_in_order w groups b else run_in_pool w groups b

-- `rows_by_key[key]`: the last of equal keys counts.
abbrev pub find_row : Key → List Row → Option Row
find_row key [] = none
find_row key (r ∷ rs) = elim (find_row key rs) [
  | none ↦ if key == key_of r.spec then some r else none
  | some s ↦ some s
]

abbrev pub action_of : Status → Action
action_of success = skipped_success
action_of incomplete = incomplete_attempt
action_of planned = cancelled_before_start
action_of _ = blocked_failure

-- The row of an attempt that this run did not execute, from its state before the run.
unfoldable pub unexecuted_row : Workers → AttemptSpec → Row
unexecuted_row workers spec =
    let prior = classify_attempt workers spec in
    let result = invocation_result workers spec in
    record {
      spec = spec;
      prior_status = prior;
      action = action_of prior;
      terminal_status = prior;
      exit_code = elim result [ none ↦ none | some r ↦ r.exit_code ];
      failure_code = elim result [
        | none ↦ if is_incomplete prior then some "INCOMPLETE_ATTEMPT" else none
        | some r ↦ elim r.failure_code [ none ↦ none | some c ↦ some (code_name c) ]
      ];
      schema_status = elim result [ none ↦ not_run | some r ↦ r.schema_status ];
    }

unfoldable pub ledger_row : Workers → List Row → AttemptSpec → Row
ledger_row workers rows spec = elim (find_row (key_of spec) rows) [
  | none ↦ unexecuted_row workers spec
  | some row ↦ row
]

-- The order by (execution_order, shard_id, attempt_id).
abbrev pub row_leb : LoadedPlan → Row → Row → Bool
row_leb plan a b =
    let i = order_of plan a.spec.profile.profile_id in
    let j = order_of plan b.spec.profile.profile_id in
    if ltb i j
    then true
    else if ltb j i
    then false
    else if not (a.spec.shard.shard_id == b.spec.shard.shard_id)
    then text_leb a.spec.shard.shard_id b.spec.shard.shard_id
    else text_leb a.spec.attempt_id b.spec.attempt_id

abbrev pub is_settled : Status → Bool
is_settled success = true
is_settled skipped = true
is_settled _ = false

abbrev pub is_blocked : Action → Bool
is_blocked incomplete_attempt = true
is_blocked cancelled_before_start = true
is_blocked blocked_failure = true
is_blocked _ = false

abbrev is_skip : Action → Bool
is_skip skipped_success = true
is_skip _ = false

abbrev pub passes : Row → Bool
passes row = is_settled row.terminal_status && not (is_blocked row.action)

-- What `run_batch` returns; the summary stands with the rows of its ledger.
pub data RunResult : Type 0 where
  dry : ℕ → ℕ → ℕ → ℕ → RunResult
  ran : Bool → ℕ → ℕ → ℕ → List Row → RunResult

abbrev dry_result : Batch → List AttemptSpec → RunResult
dry_result b specs =
    dry
      (count_if
        (λ s.
          not (is_planned (classify_attempt b.workers s))
          && not (is_success (classify_attempt b.workers s)))
        specs)
      (length specs) (length (runnable_of b specs))
      (count_if (λ s. is_success (classify_attempt b.workers s)) specs)

-- The rest of `run_batch`, of the rows of the attempts that it executed.
unfoldable pub summarize : LoadedPlan → Workers → List AttemptSpec → List Row → RunResult
unfolding ledger_row
summarize plan workers specs rows =
    let ledger = sort (row_leb plan) (map (ledger_row workers rows) specs) in
    ran (all passes ledger) (length specs) (length rows) (count_if (λ r. is_skip r.action) ledger)
      ledger

-- `run_batch`, of a loaded plan.
unfoldable pub run_batch : World → LoadedPlan → RunRequest → Batch → Batch × Result RunResult
run_batch w plan q b = elim (select_attempts w plan q b) [
  | err e ↦ (b, err e)
  | ok specs ↦
      let (after, reply) =
        execute_all w q.max_workers (profile_groups plan (runnable_of b specs)) b in
      elim q.dry_run [
        | true ↦ (b, ok (dry_result b specs))
        | false ↦ elim reply [
          | err e ↦ (after, err e)
          | ok rows ↦ (
            record after { runs = after.runs ++ q.run_id ∷ [] },
            ok (summarize plan b.workers specs rows),
          )
        ]
      ]
]
