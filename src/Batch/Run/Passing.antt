-- ===== src/Batch/Run/Passing.antt =====
-- When a run passes.
use mathlib.Core.Path.{subst}
use dispatcher_for_codex_age.Prelude.{
  ℕ, String, ◌≡◌, ◌≢◌, refl, ap, sym, ◌∙◌, inl, inr, Bool, false, not, ◌&&◌, Option, none, some,
  List, [], ◌∷◌, map, all, any, filter, ◌==◌, ==_iff, string_eq, list_eq, leb, arith, All,
  All-filter, Option-cases,
}
use dispatcher_for_codex_age.Prelude.Result.{Result, ok, err, or_raise, OnOk, OnOk->>=, of_ok}
use dispatcher_for_codex_age.Prelude.Sort.{sort, all-sort, All-sort}
use dispatcher_for_codex_age.Batch.{
  Status, planned, incomplete, success, failed, policy, schema_invalid, skipped, Artifact, sealed,
  AttemptSpec, LoadedPlan, find_attempt, key_of, attempt_path, classify_attempt, status_of,
  status_of_result,
}
use dispatcher_for_codex_age.Batch.Attempts.{all_attempt_specs, load_retry_plan}
use dispatcher_for_codex_age.Batch.Attempts.Placed.{
  IsPlaced, path_of_key, key_of_path, base_attempt_specs-IsPlaced,
}
use dispatcher_for_codex_age.Batch.Attempts.Loading.{IsListed, all_attempt_specs-IsListed}
use dispatcher_for_codex_age.Batch.Retry.{Batch, is_success}
use dispatcher_for_codex_age.Batch.Run.{
  World, RunRequest, Row, action_of, is_blocked, is_settled, passes, find_row, unexecuted_row,
  ledger_row, profile_groups, runnable_of, is_planned, order_of, by_shard, profile_ids,
  find_directory, select_attempts, specs_for_retry, chosen_attempts, is_of_retry, execute_all,
  summarize, ran, run_batch, row_leb,
}
use dispatcher_for_codex_age.Batch.Run.Rows.{IsTrue, IsRecorded}
use dispatcher_for_codex_age.Batch.Run.Recorded.{execute_all-Recorded}

-- An attempt is never classified as skipped.
settled_success : (s : Status) → s ≢ skipped → is_settled s ≡ is_success s
settled_success success h = refl
settled_success skipped h = absurd (h refl)
settled_success planned h = refl
settled_success incomplete h = refl
settled_success failed h = refl
settled_success policy h = refl
settled_success schema_invalid h = refl

not-skipped : (a : Option Artifact) → status_of a ≢ skipped
unfolding status_of status_of_result
not-skipped none = λ h. cc
not-skipped (some Artifact.irregular) = λ h. cc
not-skipped (some Artifact.unsealed) = λ h. cc
not-skipped (some (sealed r)) = λ h. ground arith

prior-passes :
    (s : Status) → s ≢ skipped → (is_settled s && not (is_blocked (action_of s))) ≡ is_success s
prior-passes success h = refl
prior-passes skipped h = absurd (h refl)
prior-passes planned h = refl
prior-passes incomplete h = refl
prior-passes failed h = refl
prior-passes policy h = refl
prior-passes schema_invalid h = refl

unexecuted-passes :
    (b : Batch) (s : AttemptSpec)
    → passes (unexecuted_row b.workers s) ≡ is_success (classify_attempt b.workers s)
unfolding unexecuted_row classify_attempt
unexecuted-passes b s =
    let found = find_attempt (attempt_path s) b.workers in
    prior-passes (status_of found) (not-skipped found)

module _ (plan : LoadedPlan) (s : AttemptSpec) (placed : IsPlaced plan s) where
  found-IsTrue :
      (c : Batch) (rows : List Row) (row : Row)
      → All (IsTrue plan c) rows
      → find_row (key_of s) rows ≡ some row
      → IsTrue plan c row × (key_of s ≡ key_of row.spec)
  found-IsTrue c [] row v h = cc
  found-IsTrue c (r ∷ rows) row v h =
      elim (find_row (key_of s) rows)
          as (λ o.
            (find_row (key_of s) rows ≡ o) → IsTrue plan c row × (key_of s ≡ key_of row.spec)) [
              | none ↦ λ p.
                  let same : r ≡ row = ground arith in
                  let keys : key_of s ≡ key_of r.spec =
                    ground (arith, ==_iff (key_of s) (key_of r.spec)) in
                  (subst (IsTrue plan c) same v.0, keys ∙ ap (λ x. key_of x.spec) same)
              | some u ↦ λ p. found-IsTrue c rows row v.1 (ground arith)
            ]
        refl

  not_called :
      (c : Batch) (rows : List Row)
      → All (IsTrue plan c) rows
      → find_row (key_of s) rows ≡ none
      → any (λ r. attempt_path s == attempt_path r.spec) rows ≡ false
  not_called c [] v h = refl
  not_called c (r ∷ rows) v h = ground (
    arith,
    not_called c rows v.1,
    ==_iff (attempt_path s) (attempt_path r.spec),
    ==_iff (key_of s) (key_of r.spec),
    key_of_path plan s r.spec placed v.0.placed,
  )

  found-passes :
      (c : Batch) (row : Row)
      → IsTrue plan c row
      → key_of s ≡ key_of row.spec
      → passes row ≡ is_success (classify_attempt c.workers s)
  unfolding classify_attempt
  found-passes c row v e =
      let paths = path_of_key plan s row.spec placed v.placed e in
      let there = find_attempt (attempt_path s) c.workers in
      let same : row.terminal_status ≡ status_of there =
        v.status ∙ ap (λ p. status_of (find_attempt p c.workers)) (sym paths) in
      rw (v.is_executed, same)
        (ground (arith, settled_success (status_of there) (not-skipped there)))

  -- The row of an attempt passes exactly if the attempt is a success after the run.
  ledger_row-passes :
      (b c : Batch) (rows : List Row)
      → IsRecorded plan b c rows
      → passes (ledger_row b.workers rows s) ≡ is_success (classify_attempt c.workers s)
  unfolding ledger_row classify_attempt
  ledger_row-passes b c rows v = elim (Option-cases (find_row (key_of s) rows)) [
    | inl p ↦
        let same = v.called (attempt_path s) (not_called c rows v.each p) in
        rw (p, ledger_row) (unexecuted-passes b s ∙ ap (λ a. is_success (status_of a)) (sym same))
    | inr (row, p) ↦
        let (v1, e) = found-IsTrue c rows row v.each p in
        rw (p, ledger_row) (found-passes c row v1 e)
  ]

module _ (plan : LoadedPlan) where
  groups-Placed :
      (b : Batch) (specs : List AttemptSpec)
      → All (IsPlaced plan) specs
      → All (All (IsPlaced plan)) (profile_groups plan (runnable_of b specs))
  unfolding profile_groups
  groups-Placed b specs v =
      let chosen = runnable_of b specs in
      let w = All-filter (IsPlaced plan) (λ s. is_planned (classify_attempt b.workers s)) specs v in
      each (sort (λ x y. leb (order_of plan x) (order_of plan y)) (profile_ids [] chosen)) chosen w
    where
      each :
          (ids : List String) (chosen : List AttemptSpec)
          → All (IsPlaced plan) chosen
          → All
              (All (IsPlaced plan))
              (map (λ id. sort by_shard (filter (λ s. s.profile.profile_id == id) chosen)) ids)
      each [] chosen w = tt
      each (id ∷ ids) chosen w = (
        All-sort (IsPlaced plan) by_shard (filter (λ s. s.profile.profile_id == id) chosen)
            (All-filter (IsPlaced plan) (λ s. s.profile.profile_id == id) chosen w),
        each ids chosen w,
      )

  ledger-passes :
      (b c : Batch) (rows : List Row) (specs : List AttemptSpec)
      → All (IsPlaced plan) specs
      → IsRecorded plan b c rows
      → all passes (map (ledger_row b.workers rows) specs)
        ≡ all (λ s. is_success (classify_attempt c.workers s)) specs
  ledger-passes b c rows [] v r = refl
  ledger-passes b c rows (s ∷ ss) v r =
      ground (arith, ledger_row-passes plan s v.0 b c rows r, ledger-passes b c rows ss v.1 r)

  chosen-Placed :
      (retry : Option String) (b : Batch)
      → OnOk (All (IsPlaced plan)) (chosen_attempts plan retry b)
  unfolding chosen_attempts specs_for_retry
  chosen-Placed none b = base_attempt_specs-IsPlaced plan
  chosen-Placed (some name) b =
      let P = All (IsPlaced plan) in
      OnOk->>= P (or_raise (find_directory name b.retry_plans) "FileNotFoundError") _ λ d p.
        OnOk->>= P (load_retry_plan name d) _ λ retry q.
          OnOk->>= P (all_attempt_specs plan b.retry_plans) _ λ specs r.
            All-filter (IsPlaced plan) (is_of_retry retry.retry_plan_id) specs
              (of_ok (IsListed plan b.retry_plans) _ specs
                (all_attempt_specs-IsListed plan b.retry_plans) r).placed

  select_attempts-chosen :
      (w : World) (q : RunRequest) (b : Batch) (specs : List AttemptSpec)
      → select_attempts w plan q b ≡ ok specs
      → chosen_attempts plan q.retry_plan b ≡ ok specs
  unfolding select_attempts
  select_attempts-chosen w q b specs h = ground arith

  pub select_attempts-Placed :
      (w : World) (q : RunRequest) (b : Batch) (specs : List AttemptSpec)
      → select_attempts w plan q b ≡ ok specs
      → All (IsPlaced plan) specs
  select_attempts-Placed w q b specs h =
      of_ok (All (IsPlaced plan)) _ specs (chosen-Placed q.retry_plan b)
        (select_attempts-chosen w q b specs h)

  summary_passes :
      (b c : Batch) (rows : List Row) (specs : List AttemptSpec) {pass : Bool} {n m k : ℕ}
      {ledger : List Row}
      → All (IsPlaced plan) specs
      → IsRecorded plan b c rows
      → summarize plan b.workers specs rows ≡ ran pass n m k ledger
      → pass ≡ all (λ s. is_success (classify_attempt c.workers s)) specs
  unfolding summarize
  summary_passes b c rows specs v r e =
      let made = map (ledger_row b.workers rows) specs in
      let same = all-sort (row_leb plan) passes made in
      cc (e, same, ledger-passes b c rows specs v r)

  -- A run that is not dry returns the summary of what it executed.
  ran_parts :
      (w : World) (q : RunRequest) (b : Batch) (specs : List AttemptSpec)
      (reply : Result (List Row)) {pass : Bool} {n m k : ℕ} {ledger : List Row}
      → select_attempts w plan q b ≡ ok specs
      → (execute_all w q.max_workers (profile_groups plan (runnable_of b specs)) b).1 ≡ reply
      → (run_batch w plan q b).1 ≡ ok (ran pass n m k ledger)
      → let after = (execute_all w q.max_workers (profile_groups plan (runnable_of b specs)) b).0 in
        (rows : List Row) × (reply ≡ ok rows)
        × (summarize plan b.workers specs rows ≡ ran pass n m k ledger)
        × ((run_batch w plan q b).0.workers ≡ after.workers)
  unfolding run_batch
  ran_parts w q b specs (err e) p r h = absurd (ground arith)
  ran_parts w q b specs (ok rows) p r h = (rows, refl, ground arith, ground arith)

-- Where a run returns a summary, its status is PASS exactly if every attempt that it was asked for,
-- executed by this run or before, is a success in the batch that it leaves.
pub run_batch_pass :
    (w : World) (plan : LoadedPlan) (q : RunRequest) (b : Batch) (specs : List AttemptSpec)
    {pass : Bool} {n m k : ℕ} {ledger : List Row}
    → select_attempts w plan q b ≡ ok specs
    → (run_batch w plan q b).1 ≡ ok (ran pass n m k ledger)
    → pass ≡ all (λ s. is_success (classify_attempt (run_batch w plan q b).0.workers s)) specs
run_batch_pass w plan q b specs p h =
    let groups = profile_groups plan (runnable_of b specs) in
    let after = (execute_all w q.max_workers groups b).0 in
    let placed = select_attempts-Placed plan w q b specs p in
    let (rows, r, made, kept) = ran_parts plan w q b specs _ p refl h in
    let recorded =
      of_ok (IsRecorded plan b after) _ rows
        (execute_all-Recorded plan w q.max_workers groups b (groups-Placed plan b specs placed))
        r in
    rw kept (summary_passes plan b after rows specs placed recorded made)
