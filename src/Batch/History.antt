-- ===== src/Batch/History.antt =====
-- A batch over all runs, retry plans and changes by others: no attempt is run twice.
use dispatcher_for_codex_age.Prelude.{
  ℕ, String, ◌≤◌, ◌≡◌, refl, true, false, inl, inr, Option, List, [], count, is_some, string_eq,
  list_eq, arith,
}
use dispatcher_for_codex_age.Prelude.Result.{ok}
use dispatcher_for_codex_age.Batch.{LoadedPlan, RetryDirectory, Key, Workers, find_attempt}
use dispatcher_for_codex_age.Batch.Retry.{Identity, Batch, RetryRequest, Tsv, create_retry_plan}
use dispatcher_for_codex_age.Batch.Run.{World, RunRequest, run_batch}
use dispatcher_for_codex_age.Batch.Run.Calls.{Advances, run_batch-Advances}

abbrev pub HasAttempt : Key → Workers → Type 0
HasAttempt k ws = is_some (find_attempt k ws) ≡ true

-- One thing that happens to a batch: a run, whatever its adapters do; a retry plan; or a change by
-- others of anything, which removes no attempt and calls no adapter.
pub data Step : Batch → Batch → Type 0 where
  run_once :
      (w : World) (plan : LoadedPlan) (q : RunRequest) (b : Batch) → Step b (run_batch w plan q b).0
  retry_once :
      (strip : String → String) (tsv : Tsv) (running : ℕ → Option Identity) (plan : LoadedPlan)
      (document : RetryRequest) (b c : Batch)
      → create_retry_plan strip tsv running plan document b ≡ ok c
      → Step b c
  change :
      (b : Batch) (workers : Workers) (retry_plans : List (String × RetryDirectory))
      (processes : List (Key × Option Identity)) (runs collections : List String)
      → ((k : Key) → HasAttempt k b.workers → HasAttempt k workers)
      → Step b (record b {
        workers = workers;
        retry_plans = retry_plans;
        processes = processes;
        runs = runs;
        collections = collections;
      })

pub data Reach (b : Batch) : Batch → Type 0 where
  here : Reach b b
  next : {c d : Batch} → Reach b c → Step c d → Reach b d

-- An attempt was called at most once, and not at all while it has no directory.
abbrev IsOnce : Key → Batch → Type 0
IsOnce k b =
    (count k b.calls ≤ 1) × (is_some (find_attempt k b.workers) ≡ false → count k b.calls ≡ 0)

Advances-IsOnce : (k : Key) (b c : Batch) → Advances k b c → IsOnce k b → IsOnce k c
Advances-IsOnce k b c (inl p) v = ground arith
Advances-IsOnce k b c (inr p) v = ground arith

-- A retry plan adds a directory of retry_plans and changes nothing else.
pub workers-create_retry_plan :
    (strip : String → String) (tsv : Tsv) (running : ℕ → Option Identity) (plan : LoadedPlan)
    (document : RetryRequest) (b c : Batch)
    → create_retry_plan strip tsv running plan document b ≡ ok c
    → (c.workers ≡ b.workers) × (c.calls ≡ b.calls)
unfolding create_retry_plan
workers-create_retry_plan strip tsv running plan document b c p = ground arith

Step-IsOnce : (k : Key) {b c : Batch} → Step b c → IsOnce k b → IsOnce k c
Step-IsOnce k (run_once w plan q b) v =
    Advances-IsOnce k b (run_batch w plan q b).0 (run_batch-Advances k w plan q b) v
Step-IsOnce k (retry_once strip tsv running plan document b c p) v =
    let same = workers-create_retry_plan strip tsv running plan document b c p in
    rw (same.0, same.1) v
Step-IsOnce k (change b workers retry_plans processes runs collections kept) v =
    ground (arith, kept k)

Reach-IsOnce : (k : Key) {b c : Batch} → Reach b c → IsOnce k b → IsOnce k c
Reach-IsOnce k here v = v
Reach-IsOnce k (next r s) v = Step-IsOnce k s (Reach-IsOnce k r v)

-- An attempt that has a directory is not called any more.
abbrev IsPast : Key → Batch → Type 0
IsPast k b = HasAttempt k b.workers × (count k b.calls ≡ 0)

Step-IsPast : (k : Key) {b c : Batch} → Step b c → IsPast k b → IsPast k c
Step-IsPast k (run_once w plan q b) v = ground (arith, run_batch-Advances k w plan q b)
Step-IsPast k (retry_once strip tsv running plan document b c p) v =
    let same = workers-create_retry_plan strip tsv running plan document b c p in
    rw (same.0, same.1) v
Step-IsPast k (change b workers retry_plans processes runs collections kept) v =
    ground (arith, kept k)

Reach-IsPast : (k : Key) {b c : Batch} → Reach b c → IsPast k b → IsPast k c
Reach-IsPast k here v = v
Reach-IsPast k (next r s) v = Step-IsPast k s (Reach-IsPast k r v)

-- From a batch where no adapter was called yet, after any runs, retry plans and changes by others
-- that remove no attempt, whatever the adapters do, an attempt's directory was reserved for an
-- adapter at most once, and never if it was there from the start.
pub called_at_most_once :
    {b c : Batch}
    → Reach b c
    → b.calls ≡ []
    → (k : Key) → (count k c.calls ≤ 1) × (HasAttempt k b.workers → count k c.calls ≡ 0)
called_at_most_once r e k =
    ((Reach-IsOnce k r (rw e (ground arith))).0, λ there. (Reach-IsPast k r (there, rw e refl)).1)
