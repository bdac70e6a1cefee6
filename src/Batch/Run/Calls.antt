-- ===== src/Batch/Run/Calls.antt =====
-- What a run does to the directory of one attempt: nothing, or it makes it and lets an agent run.
use dispatcher_for_codex_age.Prelude.{
  ℕ, suc, ◌≡◌, refl, true, ◌⊎◌, inl, inr, none, some, List, [], ◌∷◌, ◌++◌, count, is_some, ◌==◌,
  string_eq, list_eq, if◌then◌else◌, arith, Bool-cases, Option-cases, count-append, ==_iff, sym,
  ◌∙◌,
}
use dispatcher_for_codex_age.Prelude.Result.{ok, err}
use dispatcher_for_codex_age.Batch.{
  AttemptSpec, LoadedPlan, Artifact, Key, Workers, find_attempt, attempt_path,
}
use dispatcher_for_codex_age.Batch.Retry.{Batch}
use dispatcher_for_codex_age.Batch.Run.{
  World, RunRequest, Reply, reserve, returned, raised, invoke, execute_profile, run_in_order,
  run_in_pool, execute_all, run_batch, select_attempts, profile_groups, runnable_of,
}

pub find_attempt-append :
    (k p : Key) (a : Artifact) (ws : Workers)
    → find_attempt k (ws ++ (p, a) ∷ [])
      ≡ (if is_some (find_attempt k ws) then find_attempt k ws else if k == p then some a else none)
find_attempt-append k p a [] = refl
find_attempt-append k p a ((j, x) ∷ ws) = ground (arith, find_attempt-append k p a ws)

module _ (k : Key) where
  -- The attempt is as it was.
  abbrev IsKept : Batch → Batch → Type 0
  IsKept b c =
      (find_attempt k c.workers ≡ find_attempt k b.workers) × (count k c.calls ≡ count k b.calls)

  -- The attempt had no directory, has one now, and was called once more.
  abbrev IsCalled : Batch → Batch → Type 0
  IsCalled b c =
      (find_attempt k b.workers ≡ none)
      × (is_some (find_attempt k c.workers) ≡ true)
      × (count k c.calls ≡ suc (count k b.calls))

  abbrev pub Advances : Batch → Batch → Type 0
  Advances b c = IsKept b c ⊎ IsCalled b c

  Advances-trans : (b c d : Batch) → Advances b c → Advances c d → Advances b d
  Advances-trans b c d (inl p) (inl q) = inl (q.0 ∙ p.0, q.1 ∙ p.1)
  Advances-trans b c d (inl p) (inr q) = inr (sym p.0 ∙ q.0, q.1, ground arith)
  Advances-trans b c d (inr p) (inl q) = inr (p.0, ground arith, ground arith)
  Advances-trans b c d (inr p) (inr q) = absurd (ground arith)

  reserve-Advances :
      (p : Key) (a : Artifact) (b : Batch)
      → find_attempt p b.workers ≡ none
      → Advances b (reserve p a b)
  reserve-Advances p a b free = elim (Bool-cases (k == p)) [
    | inl same ↦
        let e : k ≡ p = (==_iff k p).0 same in
        let gone : find_attempt k b.workers ≡ none = rw e free in
        inr (
          gone,
          rw (find_attempt-append k p a b.workers, gone, same) refl,
          rw (count-append k b.calls (p ∷ [])) (rw same (omega arith)),
        )
    | inr other ↦ inl (
      rw (find_attempt-append k p a b.workers, other) (ground arith),
      rw (count-append k b.calls (p ∷ [])) (rw other (omega arith)),
    )
  ]

  reply-Advances :
      (w : World) (spec : AttemptSpec) (b : Batch) (reply : Reply)
      → w.reply spec ≡ reply
      → find_attempt (attempt_path spec) b.workers ≡ none
      → Advances b (invoke w spec b).0
  unfolding invoke
  reply-Advances w spec b (returned a r) e free =
      rw (free, e, invoke) (reserve-Advances (attempt_path spec) a b free)
  reply-Advances w spec b (raised a x) e free =
      rw (free, e, invoke) (reserve-Advances (attempt_path spec) a b free)

  pub invoke-Advances :
      (w : World) (spec : AttemptSpec) (b : Batch) → Advances b (invoke w spec b).0
  unfolding invoke
  invoke-Advances w spec b = elim (Option-cases (find_attempt (attempt_path spec) b.workers)) [
    | inl free ↦ reply-Advances w spec b (w.reply spec) refl free
    | inr (a, there) ↦ rw (there, invoke) (inl (refl, refl))
  ]

  pub execute_profile-Advances :
      (w : World) (specs : List AttemptSpec) (b : Batch) → Advances b (execute_profile w specs b).0
  unfolding execute_profile
  execute_profile-Advances w [] b = inl (refl, refl)
  execute_profile-Advances w (spec ∷ specs) b =
      let after = (invoke w spec b).0 in
      let started = invoke-Advances w spec b in
      let rest = execute_profile-Advances w specs after in
      let both = Advances-trans b after (execute_profile w specs after).0 started rest in
      ground arith

  pub run_in_order-Advances :
      (w : World) (groups : List (List AttemptSpec)) (b : Batch)
      → Advances b (run_in_order w groups b).0
  unfolding run_in_order
  run_in_order-Advances w [] b = inl (refl, refl)
  run_in_order-Advances w (group ∷ groups) b =
      let after = (execute_profile w group b).0 in
      let first = execute_profile-Advances w group b in
      let both =
        Advances-trans b after (run_in_order w groups after).0 first
          (run_in_order-Advances w groups after) in
      ground arith

  pub run_in_pool-Advances :
      (w : World) (groups : List (List AttemptSpec)) (b : Batch)
      → Advances b (run_in_pool w groups b).0
  unfolding run_in_pool
  run_in_pool-Advances w [] b = inl (refl, refl)
  run_in_pool-Advances w (group ∷ groups) b =
      let after = (execute_profile w group b).0 in
      Advances-trans b after (run_in_pool w groups after).0 (execute_profile-Advances w group b)
        (run_in_pool-Advances w groups after)

  pub execute_all-Advances :
      (w : World) (workers : ℕ) (groups : List (List AttemptSpec)) (b : Batch)
      → Advances b (execute_all w workers groups b).0
  unfolding execute_all
  execute_all-Advances w workers groups b =
      let one = run_in_order-Advances w groups b in
      let two = run_in_pool-Advances w groups b in ground arith

  pub run_batch-Advances :
      (w : World) (plan : LoadedPlan) (q : RunRequest) (b : Batch)
      → Advances b (run_batch w plan q b).0
  unfolding run_batch
  run_batch-Advances w plan q b =
      elim (select_attempts w plan q b)
          as (λ chosen. select_attempts w plan q b ≡ chosen → Advances b (run_batch w plan q b).0) [
            | err e ↦ λ p. rw (p, run_batch) (inl (refl, refl))
            | ok specs ↦ λ p.
                let all =
                  execute_all-Advances w q.max_workers (profile_groups plan (runnable_of b specs))
                    b in
                rw (p, run_batch) (ground arith)
          ]
        refl
