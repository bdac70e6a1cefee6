-- ===== src/Batch/Run/Rows.antt =====
-- The rows of the attempts that a run executed: what they say, and that every call has one.
use dispatcher_for_codex_age.Prelude.{
  ◌≡◌, refl, true, false, ◌⊎◌, inl, inr, none, List, [], ◌∷◌, ◌++◌, any, is_some, ◌==◌, ==_refl,
  string_eq, nat_eq, list_eq, arith, All, All-append, All-imp, any-append, Option-cases,
}
use dispatcher_for_codex_age.Prelude.Result.{Result, ok, err, OnOk}
use dispatcher_for_codex_age.Adapter.Capture.{InvocationResult}
use dispatcher_for_codex_age.Batch.{
  AttemptSpec, LoadedPlan, Artifact, Key, find_attempt, attempt_path, classify_attempt,
}
use dispatcher_for_codex_age.Batch.Retry.{Batch}
use dispatcher_for_codex_age.Batch.Attempts.Placed.{IsPlaced}
use dispatcher_for_codex_age.Batch.Run.{
  World, Row, add_rows, Reply, executed, returned, raised, invoke, executed_row,
}
use dispatcher_for_codex_age.Batch.Run.Calls.{Advances, find_attempt-append}

-- The row is of an executed attempt, and tells its status in the batch.
pub record IsTrue (plan : LoadedPlan) (b : Batch) (row : Row) : Type 0 where
  pub placed : IsPlaced plan row.spec
  pub is_executed : row.action ≡ executed
  pub present : is_some (find_attempt (attempt_path row.spec) b.workers) ≡ true
  pub status : row.terminal_status ≡ classify_attempt b.workers row.spec

stable :
    (k : Key) (b c : Batch)
    → Advances k b c
    → is_some (find_attempt k b.workers) ≡ true
    → find_attempt k c.workers ≡ find_attempt k b.workers
stable k b c (inl p) h = p.0
stable k b c (inr p) h = ground arith

later-IsTrue :
    (plan : LoadedPlan) (b c : Batch) (row : Row)
    → ((k : Key) → Advances k b c)
    → IsTrue plan b row
    → IsTrue plan c row
unfolding classify_attempt
later-IsTrue plan b c row adv v =
    let same = stable (attempt_path row.spec) b c (adv (attempt_path row.spec)) v.present in
    record {
      placed = v.placed;
      is_executed = v.is_executed;
      present = rw same v.present;
      status = rw same v.status;
    }

-- `invoke` finds the directory, or makes it.
abbrev Makes : World → AttemptSpec → Batch → Type 0
Makes w spec b =
    (a : Artifact) × ((invoke w spec b).0.workers ≡ b.workers ++ (attempt_path spec, a) ∷ [])
    × (find_attempt (attempt_path spec) b.workers ≡ none)

reply-Makes :
    (w : World) (spec : AttemptSpec) (b : Batch) (reply : Reply)
    → w.reply spec ≡ reply
    → find_attempt (attempt_path spec) b.workers ≡ none
    → Makes w spec b
unfolding invoke
reply-Makes w spec b (returned a r) e free = (a, rw (free, e, invoke) refl, free)
reply-Makes w spec b (raised a x) e free = (a, rw (free, e, invoke) refl, free)

invoke_cases :
    (w : World) (spec : AttemptSpec) (b : Batch)
    → ((invoke w spec b).0.workers ≡ b.workers)
        × (is_some (find_attempt (attempt_path spec) b.workers) ≡ true)
      ⊎ Makes w spec b
unfolding invoke
invoke_cases w spec b = elim (Option-cases (find_attempt (attempt_path spec) b.workers)) [
  | inl free ↦ inr (reply-Makes w spec b (w.reply spec) refl free)
  | inr (a, there) ↦ inl (rw (there, invoke) refl, rw there refl)
]

-- The attempt's directory is there after `invoke`, whether it returns or raises.
invoke-present :
    (w : World) (spec : AttemptSpec) (b : Batch)
    → is_some (find_attempt (attempt_path spec) (invoke w spec b).0.workers) ≡ true
invoke-present w spec b = elim (invoke_cases w spec b) [
  | inl (same, there) ↦ rw same there
  | inr (a, made, free) ↦
      let p = attempt_path spec in
      rw (made, find_attempt-append p p a b.workers, free, ==_refl p) refl
]

-- Any other attempt is as it was.
invoke-other :
    (k : Key) (w : World) (spec : AttemptSpec) (b : Batch)
    → (k == attempt_path spec) ≡ false
    → find_attempt k (invoke w spec b).0.workers ≡ find_attempt k b.workers
invoke-other k w spec b other = elim (invoke_cases w spec b) [
  | inl (same, there) ↦ rw same refl
  | inr (a, made, free) ↦
      rw (made, find_attempt-append k (attempt_path spec) a b.workers, other) (ground arith)
]

-- The rows are true of the batch after the run, and have every attempt that it changed.
pub record IsRecorded (plan : LoadedPlan) (b c : Batch) (rows : List Row) : Type 0 where
  pub each : All (IsTrue plan c) rows
  pub called :
      (k : Key)
      → any (λ r. k == attempt_path r.spec) rows ≡ false
      → find_attempt k c.workers ≡ find_attempt k b.workers

pub append-IsRecorded :
    (plan : LoadedPlan) (b c d : Batch) (rows more : List Row)
    → IsRecorded plan b c rows
    → IsRecorded plan c d more
    → ((k : Key) → Advances k c d)
    → IsRecorded plan b d (rows ++ more)
append-IsRecorded plan b c d rows more v w adv = record {
  each =
      All-append (IsTrue plan d) rows more
        (All-imp (IsTrue plan c) rows (λ r. later-IsTrue plan c d r adv) v.each) w.each;
  called = λ k h.
      ground (arith, any-append (λ r. k == attempt_path r.spec) rows more, v.called k, w.called k);
}

pub executed-IsRecorded :
    (plan : LoadedPlan) (w : World) (spec : AttemptSpec) (b : Batch) (r : InvocationResult)
    → IsPlaced plan spec
    → IsRecorded plan b (invoke w spec b).0 (executed_row spec (invoke w spec b).0 r ∷ [])
executed-IsRecorded plan w spec b r placed = record {
  each = (
    record {
      placed = placed;
      is_executed = refl;
      present = invoke-present w spec b;
      status = refl;
    },
    tt,
  );
  called = λ k h. invoke-other k w spec b (ground arith);
}

pub add_rows-IsRecorded :
    (plan : LoadedPlan) (b c d : Batch) (rows : List Row) (rest : Result (List Row))
    → IsRecorded plan b c rows
    → OnOk (IsRecorded plan c d) rest
    → ((k : Key) → Advances k c d)
    → OnOk (IsRecorded plan b d) (add_rows rows rest)
add_rows-IsRecorded plan b c d rows (ok more) v w adv =
    append-IsRecorded plan b c d rows more v w adv
add_rows-IsRecorded plan b c d rows (err e) v w adv = tt

pub nothing-IsRecorded : (plan : LoadedPlan) (b : Batch) → IsRecorded plan b b []
nothing-IsRecorded plan b = record { each = tt; called = λ k h. refl }
