-- ===== src/Bridge/Specs.antt =====
-- main_agent_bridge/contracts.py: the jobs and the authorization that a user writes. The tests of
-- pydantic on single fields come first.
use dispatcher_for_codex_age.Prelude.{
  ℕ, String, Bool, true, false, not, ◌&&◌, ◌||◌, Option, none, some, List, [], ◌∷◌, contains, all,
  length, map, is_unique, leb, ◌==◌, nat_eq, string_eq, list_eq, if◌then◌else◌, is_some,
}
use dispatcher_for_codex_age.Prelude.Int.{ℤ, pos}
use dispatcher_for_codex_age.Prelude.Result.{Result, ok, ◌>>◌, refuse}
use dispatcher_for_codex_age.Prelude.Text.{is_absolute, path_parts}
use dispatcher_for_codex_age.Json.{
  Float, finite, Number, rational, float_number, number_lt, number_eq,
}
use dispatcher_for_codex_age.Host.{Host}
use dispatcher_for_codex_age.Notifications.Identifier.{is_identifier}

pub data JobKind : Type 0 where
  fixture batch : JobKind

pub record JobSpec : Type 0 where
  pub job_id : String
  pub attempt_id : String
  pub kind : JobKind
  pub plan_root : Option String
  pub delay_seconds : Float
  pub fixture_value : ℤ
  pub max_workers : ℕ
  pub agent_executable : String
  pub agent_home : Option String

abbrev is_batch : JobKind → Bool
is_batch batch = true
is_batch fixture = false

abbrev is_finite : Float → Bool
is_finite (finite n k) = true
is_finite _ = false

abbrev seconds : ℕ → Number
seconds n = rational (pos n) 0

-- `low <= x <= high`
abbrev within : Number → Number → Float → Bool
within low high x =
    is_finite x && not (number_lt (float_number x) low) && not (number_lt high (float_number x))

-- `JobSpec.check`
unfoldable pub check_job : JobSpec → Result (Unit {0})
check_job j = do
  refuse (not (contains j.max_workers (1 ∷ 2 ∷ []))) "max_workers"
  refuse (not (is_identifier j.job_id) || not (is_identifier j.attempt_id)) "INVALID_IDENTIFIER"
  refuse (not (within (seconds 0) (seconds 7200) j.delay_seconds)) "INVALID_FIXTURE_DELAY"
  refuse (elim j.kind [ batch ↦ not (is_some j.plan_root) | fixture ↦ is_some j.plan_root ])
      "PLAN_REQUIRED_ONLY_FOR_BATCH"
  refuse (is_batch j.kind && not (number_eq (float_number j.delay_seconds) (seconds 0)))
      "BATCH_DELAY_FORBIDDEN"

pub record SupervisorSpec : Type 0 where
  pub task_id : String
  pub executable : String
  pub codex_home : String
  pub model : String
  pub provider : String
  pub working_directory : String
  pub allowed_actions : List String
  pub expires_at : Float
  pub wake_budget : ℕ
  pub main_turn_budget : ℕ
  pub main_turn_timeout : Float
  pub jobs : List JobSpec
  pub notification_config : String
  pub minimum_idle_seconds : Float

abbrev actions : List String
actions = "start_approved_jobs" ∷ "read_verified_results" ∷ "summarize_results" ∷ []

abbrev check_jobs : List JobSpec → Result (Unit {0})
check_jobs [] = ok tt
check_jobs (j ∷ js) = check_job j >> check_jobs js

-- `[j.plan_root for j in self.jobs if j.plan_root]`
abbrev pub plan_roots : List JobSpec → List String
plan_roots [] = []
plan_roots (j ∷ js) =
    let rest = plan_roots js in
    elim j.plan_root [ none ↦ rest | some root ↦ if root == "" then rest else root ∷ rest ]

abbrev job_id_of : JobSpec → String
job_id_of j = j.job_id

-- An absolute path other than the root, without a symbolic link on its way.
abbrev is_canonical : Host → String → Bool
is_canonical h path = is_absolute path && h.resolves path && not (path_parts path == [])

-- The tests of pydantic on the fields, and `finite`.
unfoldable pub check_fields : SupervisorSpec → Result (Unit {0})
unfolding check_job
check_fields s = do
  refuse (not (all (λ a. contains a actions) s.allowed_actions)) "allowed_actions"
  refuse (not (leb 1 s.wake_budget && leb s.wake_budget 3)) "wake_budget"
  refuse (not (leb 2 s.main_turn_budget && leb s.main_turn_budget 4)) "main_turn_budget"
  refuse
      (not (within (seconds 0) (seconds 1800) s.main_turn_timeout)
        || number_eq (float_number s.main_turn_timeout) (seconds 0))
      "main_turn_timeout"
  refuse (not (leb 1 (length s.jobs) && leb (length s.jobs) 2)) "jobs"
  refuse (not (within (seconds 0) (seconds 120) s.minimum_idle_seconds)) "minimum_idle_seconds"
  refuse (not (is_finite s.expires_at)) "NONFINITE_TIME"
  check_jobs s.jobs

-- `SupervisorSpec.check`
unfoldable pub check_spec : Host → SupervisorSpec → Result SupervisorSpec
unfolding check_fields
check_spec h s = do
  check_fields s
  refuse (not (all is_identifier (s.task_id ∷ s.model ∷ s.provider ∷ []))) "INVALID_IDENTIFIER"
  refuse
      (not (all (λ a. contains a s.allowed_actions) actions) || not (length s.allowed_actions == 3))
      "ACTION_ALLOWLIST_INVALID"
  refuse (not (is_unique (map job_id_of s.jobs))) "DUPLICATE_JOB"
  refuse (not (is_unique (plan_roots s.jobs))) "MULTIPLE_WRITERS_FOR_PLAN_FORBIDDEN"
  refuse
      (not (
        all (is_canonical h) (
          s.executable
          ∷ s.codex_home
          ∷ s.working_directory
          ∷ s.notification_config
          ∷ plan_roots s.jobs)))
      "ABSOLUTE_CANONICAL_PATH_REQUIRED"
  ok s
