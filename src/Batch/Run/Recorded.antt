-- ===== src/Batch/Run/Recorded.antt =====
-- What a run returns is true of the batch that it leaves.
use dispatcher_for_codex_age.Prelude.{
  ℕ, ◌≡◌, refl, false, inl, inr, List, [], ◌∷◌, ◌==◌, string_eq, nat_eq, list_eq, All, Bool-cases,
}
use dispatcher_for_codex_age.Prelude.Result.{Result, ok, err, OnOk}
use dispatcher_for_codex_age.Adapter.Capture.{InvocationResult}
use dispatcher_for_codex_age.Batch.{AttemptSpec, LoadedPlan}
use dispatcher_for_codex_age.Batch.Retry.{Batch}
use dispatcher_for_codex_age.Batch.Attempts.Placed.{IsPlaced}
use dispatcher_for_codex_age.Batch.Run.{
  World, Row, invoke, executed_row, execute_profile, run_in_order, run_in_pool, execute_all,
}
use dispatcher_for_codex_age.Batch.Run.Calls.{
  execute_profile-Advances, run_in_order-Advances, run_in_pool-Advances,
}
use dispatcher_for_codex_age.Batch.Run.Rows.{
  IsRecorded, executed-IsRecorded, add_rows-IsRecorded, nothing-IsRecorded,
}

module _ (plan : LoadedPlan) (w : World) where
  abbrev pub Recorded : Batch → Batch × Result (List Row) → Type 0
  Recorded b run = OnOk (IsRecorded plan b run.0) run.1

  after_invoke :
      (spec : AttemptSpec) (specs : List AttemptSpec) (b : Batch) (reply : Result InvocationResult)
      → IsPlaced plan spec
      → Recorded (invoke w spec b).0 (execute_profile w specs (invoke w spec b).0)
      → w.is_cancelled spec ≡ false
      → (loaded : Unit {0}) → w.load_task spec ≡ ok loaded
      → (invoke w spec b).1 ≡ reply
      → Recorded b (execute_profile w (spec ∷ specs) b)
  unfolding execute_profile
  after_invoke spec specs b (err e) placed rest go loaded l p = rw (go, l, p, execute_profile) tt
  after_invoke spec specs b (ok r) placed rest go loaded l p =
      let after = (invoke w spec b).0 in
      rw (go, l, p, execute_profile)
        (add_rows-IsRecorded plan b after (execute_profile w specs after).0
          (executed_row spec after r ∷ []) (execute_profile w specs after).1
          (executed-IsRecorded plan w spec b r placed) rest
          (λ k. execute_profile-Advances k w specs after))

  go_on :
      (spec : AttemptSpec) (specs : List AttemptSpec) (b : Batch) (loaded : Result (Unit {0}))
      → IsPlaced plan spec
      → Recorded (invoke w spec b).0 (execute_profile w specs (invoke w spec b).0)
      → w.is_cancelled spec ≡ false
      → w.load_task spec ≡ loaded
      → Recorded b (execute_profile w (spec ∷ specs) b)
  unfolding execute_profile
  go_on spec specs b (err e) placed rest go l = rw (go, l, execute_profile) tt
  go_on spec specs b (ok u) placed rest go l =
      after_invoke spec specs b (invoke w spec b).1 placed rest go u l refl

  execute_profile-Recorded :
      (specs : List AttemptSpec) (b : Batch)
      → All (IsPlaced plan) specs
      → Recorded b (execute_profile w specs b)
  unfolding execute_profile
  execute_profile-Recorded [] b placed = nothing-IsRecorded plan b
  execute_profile-Recorded (spec ∷ specs) b placed =
      let rest = execute_profile-Recorded specs (invoke w spec b).0 placed.1 in
      elim (Bool-cases (w.is_cancelled spec)) [
        | inl stop ↦ rw (stop, execute_profile) (nothing-IsRecorded plan b)
        | inr go ↦ go_on spec specs b (w.load_task spec) placed.0 rest go refl
      ]

  abbrev pub AllPlaced : List (List AttemptSpec) → Type 0
  AllPlaced = All (All (IsPlaced plan))

  in_order_after :
      (group : List AttemptSpec) (groups : List (List AttemptSpec)) (b : Batch)
      (reply : Result (List Row))
      → (execute_profile w group b).1 ≡ reply
      → OnOk (IsRecorded plan b (execute_profile w group b).0) reply
      → Recorded (execute_profile w group b).0 (run_in_order w groups (execute_profile w group b).0)
      → Recorded b (run_in_order w (group ∷ groups) b)
  unfolding run_in_order
  in_order_after group groups b (err e) p v rest = rw (p, run_in_order) tt
  in_order_after group groups b (ok rows) p v rest =
      let after = (execute_profile w group b).0 in
      rw (p, run_in_order)
        (add_rows-IsRecorded plan b after (run_in_order w groups after).0 rows
          (run_in_order w groups after).1 v rest (λ k. run_in_order-Advances k w groups after))

  run_in_order-Recorded :
      (groups : List (List AttemptSpec)) (b : Batch)
      → AllPlaced groups
      → Recorded b (run_in_order w groups b)
  unfolding run_in_order
  run_in_order-Recorded [] b placed = nothing-IsRecorded plan b
  run_in_order-Recorded (group ∷ groups) b placed =
      in_order_after group groups b (execute_profile w group b).1 refl
        (execute_profile-Recorded group b placed.0)
        (run_in_order-Recorded groups (execute_profile w group b).0 placed.1)

  in_pool_after :
      (group : List AttemptSpec) (groups : List (List AttemptSpec)) (b : Batch)
      (reply : Result (List Row))
      → (execute_profile w group b).1 ≡ reply
      → OnOk (IsRecorded plan b (execute_profile w group b).0) reply
      → Recorded (execute_profile w group b).0 (run_in_pool w groups (execute_profile w group b).0)
      → Recorded b (run_in_pool w (group ∷ groups) b)
  unfolding run_in_pool
  in_pool_after group groups b (err e) p v rest = rw (p, run_in_pool) tt
  in_pool_after group groups b (ok rows) p v rest =
      let after = (execute_profile w group b).0 in
      rw (p, run_in_pool)
        (add_rows-IsRecorded plan b after (run_in_pool w groups after).0 rows
          (run_in_pool w groups after).1 v rest (λ k. run_in_pool-Advances k w groups after))

  run_in_pool-Recorded :
      (groups : List (List AttemptSpec)) (b : Batch)
      → AllPlaced groups
      → Recorded b (run_in_pool w groups b)
  unfolding run_in_pool
  run_in_pool-Recorded [] b placed = nothing-IsRecorded plan b
  run_in_pool-Recorded (group ∷ groups) b placed =
      in_pool_after group groups b (execute_profile w group b).1 refl
        (execute_profile-Recorded group b placed.0)
        (run_in_pool-Recorded groups (execute_profile w group b).0 placed.1)

  -- What a run returns is true of the batch that it leaves, and has every attempt that it changed.
  pub execute_all-Recorded :
      (workers : ℕ) (groups : List (List AttemptSpec)) (b : Batch)
      → AllPlaced groups
      → Recorded b (execute_all w workers groups b)
  unfolding execute_all
  execute_all-Recorded workers groups b placed = elim (Bool-cases (workers == 1)) [
    | inl one ↦ rw (one, execute_all) (run_in_order-Recorded groups b placed)
    | inr two ↦ rw (two, execute_all) (run_in_pool-Recorded groups b placed)
  ]
