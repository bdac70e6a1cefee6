-- ===== src/Batch/Audit/Own.antt =====
-- The rows that are collected for a profile name that profile, so that the file by profiles has
-- every profile's rows apart.
use dispatcher_for_codex_age.Prelude.{
  ◌==◌, Bool-cases, inl, inr, String, ◌≡◌, refl, true, Option, List, [], ◌∷◌, map, string_eq, arith,
  All, All-append,
}
use dispatcher_for_codex_age.Prelude.Result.{
  Result, ok, err, is_ok, or_raise, OnOk, OnOk->>=, of_ok,
}
use dispatcher_for_codex_age.Prelude.Sort.{All-sort}
use dispatcher_for_codex_age.Json.{Json, str}
use dispatcher_for_codex_age.Schema.Check.{validate_json_schema}
use dispatcher_for_codex_age.Runtime.Coverage.{validate_coverage}
use dispatcher_for_codex_age.Batch.{ProfileRole, PlannedShard, AttemptSpec, Workers}
use dispatcher_for_codex_age.Batch.Retry.{invocation_result}
use dispatcher_for_codex_age.Batch.Audit.{is_empty}
use dispatcher_for_codex_age.Batch.Collect.{
  Archive, Choice, ResultRow, Outcome, rows, problem, Collected, candidates, choice_of,
  collect_shard, collect_shards, record_of, result_rows, check_output, chosen_output, results_of,
  by_record, add_outcome,
}

module _ (p : ProfileRole) where
  abbrev pub IsOwn : ResultRow → Type 0
  IsOwn row = row.profile ≡ p

  result_rows-IsOwn :
      (s : PlannedShard) (spec : AttemptSpec) (records : List Json)
      → OnOk (All IsOwn) (result_rows p s spec records)
  unfolding result_rows
  result_rows-IsOwn s spec [] = tt
  result_rows-IsOwn s spec (r ∷ rs) =
      let rest = result_rows-IsOwn s spec rs in
      OnOk->>= (All IsOwn) (result_rows p s spec rs) _ λ more q.
        OnOk->>= (All IsOwn) (record_of r) _ λ found f. (refl, of_ok (All IsOwn) _ more rest q)

  -- Where the rows of a shard come from: its one candidate, whose output the task's schema accepts
  -- and which covers the shard's records.
  pub record IsCollected (a : Archive) (workers : Workers) (specs : List AttemptSpec)
      (selected : Option (List Choice)) (s : PlannedShard) (found : List ResultRow) : Type 0 where
    pub spec : AttemptSpec
    pub alone : candidates workers specs selected p s ≡ spec ∷ []
    pub output : Json
    pub schema : Json
    pub chosen : chosen_output a spec (choice_of p s selected) ≡ ok output
    pub frozen : a.task_schema p s ≡ ok schema
    pub valid : validate_json_schema output schema ≡ ok tt
    pub covering : is_ok (validate_coverage (map str s.record_ids) output) ≡ true
    pub own : All IsOwn found

  module _ (a : Archive) (workers : Workers) (specs : List AttemptSpec)
      (selected : Option (List Choice)) (s : PlannedShard) where
    abbrev pub OnRows : Outcome → Type 0
    OnRows (rows found) = IsCollected a workers specs selected s found
    OnRows (problem e) = Unit

    checked-OnRows :
        (spec : AttemptSpec) (output schema : Json) (v : Result (Unit {0})) (c : Result String)
        → candidates workers specs selected p s ≡ spec ∷ []
        → chosen_output a spec (choice_of p s selected) ≡ ok output
        → a.task_schema p s ≡ ok schema
        → validate_json_schema output schema ≡ v
        → validate_coverage (map str s.record_ids) output ≡ c
        → OnOk OnRows (check_output p s spec output schema)
    unfolding check_output
    checked-OnRows spec output schema (err e) c alone chosen frozen v w =
        elim (Bool-cases (e == "TypeError")) [
          | inl raised ↦ rw (v, raised, check_output) tt
          | inr other ↦ rw (v, other, check_output) tt
        ]
    checked-OnRows spec output schema (ok u) (err e) alone chosen frozen v w =
        rw (v, w, check_output) tt
    checked-OnRows spec output schema (ok tt) (ok u) alone chosen frozen v w =
        let made = result_rows-IsOwn s spec (results_of output) in
        rw (v, w, check_output)
          (OnOk->>= OnRows (result_rows p s spec (results_of output)) _ λ found f. record {
            spec = spec;
            alone = alone;
            output = output;
            schema = schema;
            chosen = chosen;
            frozen = frozen;
            valid = v;
            covering = rw w refl;
            own = All-sort IsOwn by_record found (of_ok (All IsOwn) _ found made f);
          })

    candidates-OnRows :
        (cs : List AttemptSpec)
        → candidates workers specs selected p s ≡ cs
        → OnOk OnRows (collect_shard a workers specs selected p s)
    unfolding collect_shard
    candidates-OnRows [] alone = rw (alone, collect_shard) tt
    candidates-OnRows (spec ∷ other ∷ more) alone = rw (alone, collect_shard) tt
    candidates-OnRows (spec ∷ []) alone =
        rw (alone, collect_shard)
          (OnOk->>= OnRows (or_raise (invocation_result workers spec) _) _ λ result r.
            OnOk->>= OnRows (a.task_schema p s) _ λ schema f.
              OnOk->>= OnRows (chosen_output a spec (choice_of p s selected)) _
                λ output o. checked-OnRows spec output schema _ _ alone o f refl refl)

  module _ (a : Archive) (workers : Workers) (specs : List AttemptSpec)
      (selected : Option (List Choice)) where
    -- A shard has rows.
    abbrev pub HasRows : PlannedShard → Type 0
    HasRows s = (found : List ResultRow) × IsCollected a workers specs selected s found

    -- What is gathered of shards: rows of the profile, and, where it has no error, of every shard.
    pub record Gathers (shards : List PlannedShard) (c : Collected) : Type 0 where
      pub own : All IsOwn c.found
      pub each : is_empty c.errors ≡ true → All HasRows shards

    add-Gathers :
        (s : PlannedShard) (ss : List PlannedShard) (outcome : Outcome) (c : Collected)
        → OnRows a workers specs selected s outcome
        → Gathers ss c
        → Gathers (s ∷ ss) (add_outcome outcome c)
    add-Gathers s ss (rows found) c v g = record {
      own = All-append IsOwn found c.found v.own g.own;
      each = λ h. ((found, v), g.each h);
    }
    add-Gathers s ss (problem e) c v g = record { own = g.own; each = λ h. absurd (ground arith) }

    pub collect_shards-Gathers :
        (shards : List PlannedShard)
        → OnOk (Gathers shards) (collect_shards a workers specs selected p shards)
    unfolding collect_shards
    collect_shards-Gathers [] = record { own = tt; each = λ h. tt }
    collect_shards-Gathers (s ∷ ss) =
        let rest = collect_shards-Gathers ss in
        let G = Gathers (s ∷ ss) in
        OnOk->>= G (collect_shard a workers specs selected p s) _ λ outcome q.
          OnOk->>= G (collect_shards a workers specs selected p ss) _ λ c r.
            add-Gathers s ss outcome c
              (of_ok (OnRows a workers specs selected s) _ outcome
                (candidates-OnRows a workers specs selected s _ refl) q)
              (of_ok (Gathers ss) _ c rest r)
