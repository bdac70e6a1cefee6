-- ===== src/Batch/Collect.antt =====
-- agent_harness/batch.py: `collect_batch`, which gathers the outputs of the successful attempts and
-- audits that they cover the records of the plan.
use dispatcher_for_codex_age.Prelude.{
  ℕ, suc, String, Bool, false, not, ◌&&◌, ◌||◌, Option, none, some, List, [], ◌∷◌, ◌++◌, contains,
  filter, map, all, ◌==◌, nat_eq, string_eq, list_eq, if◌then◌else◌,
}
use dispatcher_for_codex_age.Prelude.Result.{Result, ok, err, refuse, or_raise, ◌>>=◌, ◌>>◌}
use dispatcher_for_codex_age.Prelude.Sort.{sort}
use dispatcher_for_codex_age.Prelude.Text.{text_leb, concat}
use dispatcher_for_codex_age.Json.{Json, Fields, str, arr, obj, elements, get, find}
use dispatcher_for_codex_age.Schema.Check.{validate_json_schema}
use dispatcher_for_codex_age.Runtime.Coverage.{validate_coverage}
use dispatcher_for_codex_age.Batch.{
  ProfileRole, PlannedShard, LoadedPlan, AttemptSpec, Key, Workers, classify_attempt,
}
use dispatcher_for_codex_age.Batch.Retry.{find_spec, is_sibling, is_success, invocation_result}

-- What `verify_revalidation` returns, and whether the source's task and input are the plan's.
pub record Derived : Type 0 where
  pub success : Bool
  pub covered : Bool
  pub same_task : Bool
  pub same_input : Bool
  pub final_output : Json

-- The files that a collection reads: final_output.json of an attempt, the schema of a task, and a
-- revalidation of an attempt by its directory.
pub record Archive : Type 0 where
  pub output : AttemptSpec → Result Json
  pub task_schema : ProfileRole → PlannedShard → Result Json
  pub revalidation : String → AttemptSpec → Result Derived

pub record SelectionEntry : Type 0 where
  pub profile_id : String
  pub shard_id : String
  pub attempt_id : String
  pub revalidation_directory : Option String

-- A selected attempt.
pub record Choice : Type 0 where
  pub entry : SelectionEntry
  pub spec : AttemptSpec

abbrev chosen_key : Choice → Key
chosen_key c = c.entry.profile_id ∷ c.entry.shard_id ∷ []

-- The loop of `collect_batch` over a selection.
unfoldable pub select_each :
    Workers → List AttemptSpec → List Key → List SelectionEntry → Result (List Choice)
select_each workers specs seen [] = ok []
select_each workers specs seen (e ∷ es) = do
  let key = e.profile_id ∷ e.shard_id ∷ []
  refuse (contains key seen) "Duplicate or unknown original/derived shard selection"
  spec ←
      or_raise (find_spec (e.profile_id ∷ e.shard_id ∷ e.attempt_id ∷ []) specs)
        "Duplicate or unknown original/derived shard selection"
  refuse
      (elim e.revalidation_directory [
        | some directory ↦ false
        | none ↦ not (is_success (classify_attempt workers spec))
      ])
      "Explicit original selection is not SUCCESS"
  choices ← select_each workers specs (key ∷ seen) es
  ok (record { entry = e; spec = spec } ∷ choices)

abbrev shard_keys : ProfileRole → List PlannedShard → List Key
shard_keys p [] = []
shard_keys p (s ∷ ss) = (p.profile_id ∷ s.shard_id ∷ []) ∷ shard_keys p ss

abbrev pair_keys : List ProfileRole → List PlannedShard → List Key
pair_keys [] shards = []
pair_keys (p ∷ ps) shards = shard_keys p shards ++ pair_keys ps shards

-- `selected`, or `none` where the caller gives no selection.
unfoldable pub select_choices :
    LoadedPlan
    → Workers
    → List AttemptSpec
    → Option (List SelectionEntry)
    → Result (Option (List Choice))
select_choices plan workers specs none = ok none
select_choices plan workers specs (some entries) = do
  choices ← select_each workers specs [] entries
  let expected = pair_keys plan.snapshot.profiles plan.shards
  refuse
      (not (
        all (λ k. contains k expected) (map chosen_key choices)
        && all (λ k. contains k (map chosen_key choices)) expected))
      "Explicit selection must cover every planned profile/shard exactly once"
  ok (some choices)

abbrev find_choice : Key → List Choice → Option Choice
find_choice key [] = none
find_choice key (c ∷ cs) = if chosen_key c == key then some c else find_choice key cs

abbrev pub choice_of : ProfileRole → PlannedShard → Option (List Choice) → Option Choice
choice_of p s none = none
choice_of p s (some choices) = find_choice (p.profile_id ∷ s.shard_id ∷ []) choices

-- `successful.get(key, [])`
unfoldable pub candidates :
    Workers
    → List AttemptSpec
    → Option (List Choice)
    → ProfileRole
    → PlannedShard
    → List AttemptSpec
candidates workers specs selected p s = elim (choice_of p s selected) [
  | some c ↦ c.spec ∷ []
  | none ↦
      filter (λ t. is_success (classify_attempt workers t))
        (filter (is_sibling p.profile_id s.shard_id) specs)
]

-- A row of agent_results_by_profile.tsv.
pub record ResultRow : Type 0 where
  pub profile : ProfileRole
  pub shard_id : String
  pub attempt_id : String
  pub record_id : String
  pub result : Fields

-- A result with its `record["record_id"]`; a result that has none raises KeyError.
unfoldable pub record_of : Json → Result (String × Fields)
record_of (obj fields) = elim (find "record_id" fields) [
  | none ↦ err "KeyError"
  | some v ↦ elim v [ str id ↦ ok (id, fields) | _ ↦ err "TypeError" ]
]
record_of _ = err "TypeError"

abbrev pub result_row : ProfileRole → PlannedShard → AttemptSpec → String × Fields → ResultRow
result_row p s spec found = record {
  profile = p;
  shard_id = s.shard_id;
  attempt_id = spec.attempt_id;
  record_id = found.0;
  result = found.1;
}

unfoldable pub result_rows :
    ProfileRole → PlannedShard → AttemptSpec → List Json → Result (List ResultRow)
result_rows p s spec [] = ok []
result_rows p s spec (result ∷ results) = do
  rows ← result_rows p s spec results
  found ← record_of result
  ok (result_row p s spec found ∷ rows)

-- What a shard of a profile comes to: its rows, or an error of the profile.
pub data Outcome : Type 0 where
  rows : List ResultRow → Outcome
  problem : String → Outcome

abbrev pub by_record : ResultRow → ResultRow → Bool
by_record a b = text_leb a.record_id b.record_id

-- `results` of an output.
abbrev pub results_of : Json → List Json
results_of (obj fs) = elim (get "results" fs) [ arr xs ↦ elements xs | _ ↦ [] ]
results_of _ = []

-- The output of a shard that is checked: the attempt's, or that of the selected revalidation.
unfoldable pub chosen_output : Archive → AttemptSpec → Option Choice → Result Json
chosen_output a spec choice = do
  output ← a.output spec
  elim choice [
    | none ↦ ok output
    | some c ↦ elim c.entry.revalidation_directory [
      | none ↦ ok output
      | some directory ↦ do
        derived ← a.revalidation directory spec
        refuse (not derived.success || not derived.covered)
            "Selected revalidation is not successful with exact-once coverage"
        refuse (not derived.same_task) "Source task authority/schema differs from frozen plan"
        refuse (not derived.same_input) "Source input fingerprint differs from frozen plan"
        ok derived.final_output
    ]
  ]

-- The checks of an output, whose errors do not stop the collection, but for a TypeError of the schema;
-- the ids of a plan are texts, so `validate_coverage` raises ValueError only.
unfoldable pub check_output :
    ProfileRole → PlannedShard → AttemptSpec → Json → Json → Result Outcome
check_output p s spec output schema = elim (validate_json_schema output schema) [
  | err e ↦ if e == "TypeError" then err e else ok (problem (concat s.shard_id (concat ": " e)))
  | ok _ ↦ elim (validate_coverage (map str s.record_ids) output) [
    | err e ↦ ok (problem (concat s.shard_id (concat ": " e)))
    | ok _ ↦ do found ← result_rows p s spec (results_of output); ok (rows (sort by_record found))
  ]
]

-- A shard of a profile.
unfoldable pub collect_shard :
    Archive
    → Workers
    → List AttemptSpec
    → Option (List Choice)
    → ProfileRole
    → PlannedShard
    → Result Outcome
collect_shard a workers specs selected p s = elim (candidates workers specs selected p s) [
  | [] ↦ ok (problem (concat s.shard_id ": expected one successful attempt"))
  | spec ∷ others ↦ elim others [
    | other ∷ more ↦ ok (problem (concat s.shard_id ": expected one successful attempt"))
    | [] ↦ do
      result ← or_raise (invocation_result workers spec) "Invalid or unsafe invocation shard"
      schema ← a.task_schema p s
      output ← chosen_output a spec (choice_of p s selected)
      check_output p s spec output schema
  ]
]

-- What the loop over the shards gathers for a profile.
pub record Collected : Type 0 where
  pub found : List ResultRow
  pub errors : List String
  pub successful_shards : ℕ

abbrev pub add_outcome : Outcome → Collected → Collected
add_outcome (rows found) c = record c {
  found = found ++ c.found;
  successful_shards = suc c.successful_shards;
}
add_outcome (problem e) c = record c { errors = e ∷ c.errors }

unfoldable pub collect_shards :
    Archive
    → Workers
    → List AttemptSpec
    → Option (List Choice)
    → ProfileRole
    → List PlannedShard
    → Result Collected
collect_shards a workers specs selected p [] =
    ok (record { found = []; errors = []; successful_shards = 0 })
collect_shards a workers specs selected p (s ∷ ss) = do
  outcome ← collect_shard a workers specs selected p s
  rest ← collect_shards a workers specs selected p ss
  ok (add_outcome outcome rest)
