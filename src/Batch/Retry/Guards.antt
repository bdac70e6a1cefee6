-- ===== src/Batch/Retry/Guards.antt =====
-- What a retry plan that was made says of the attempts that it retries.
use mathlib.Core.Path.{subst}
use dispatcher_for_codex_age.Prelude.{
  nat_eq, ℕ, String, ◌≡◌, ◌≢◌, refl, ap, ◌∙◌, Bool, true, false, Option, none, some, List, [], ◌∷◌,
  ◌++◌, All, any, map, filter, contains, arith, ==_refl, string_eq, list_eq,
}
use dispatcher_for_codex_age.Prelude.Result.{ok, refuse, OnOk, OnOk->>=, of_ok, >>=-eq-ok}
use dispatcher_for_codex_age.Batch.{
  LoadedPlan, AttemptSpec, RetryPlanEntry, Key, key_of, attempt_path, classify_attempt, planned,
  success, incomplete,
}
use dispatcher_for_codex_age.Batch.Attempts.{all_attempt_specs}
use dispatcher_for_codex_age.Batch.Retry.{
  Identity, Batch, Tsv, RetryRequest, RetryRequestEntry, check_request, find_spec, is_sibling,
  find_process, assert_not_active, is_incomplete, is_alive, plan_entry, plan_entries, retry_names,
  create_retry_plan,
}
use dispatcher_for_codex_age.Batch.Retry.Entry.{
  IsGuarded, new_key, sibling-new, parent_key, check_retry-IsGuarded, plan_entry-Planned,
}
use dispatcher_for_codex_age.Batch.Retry.Last.{
  last_spec-IsLast, found_last, none_successful, retryable_begun, latest_spec, sibling_key,
}

-- The parent of an entry: an attempt of the list, after which none of its profile and shard comes,
-- as the list has the attempts of the plan and then those of the retry plans by their names. It has a
-- directory, and none of its profile and shard succeeded or has the new id. What its process record
-- says, where there is one: no running process is the child that it names; and it names one, if the
-- attempt never finished.
pub record IsRetried (running : ℕ → Option Identity) (b : Batch) (specs : List AttemptSpec)
    (e : RetryRequestEntry) : Type 0 where
  pub parent : AttemptSpec
  pub front : List AttemptSpec
  pub rest : List AttemptSpec
  pub listed : specs ≡ front ++ parent ∷ rest
  pub named : key_of parent ≡ parent_key e
  pub last : any (is_sibling e.profile_id e.shard_id) rest ≡ false
  pub begun : classify_attempt b.workers parent ≢ planned
  pub unsuccessful :
      All
        (λ s. is_sibling e.profile_id e.shard_id s ≡ true → classify_attempt b.workers s ≢ success)
        specs
  pub unused : contains (new_key e) (map key_of specs) ≡ false
  pub not_running :
      (child : Identity)
      → find_process (attempt_path parent) b.processes ≡ some (some child)
      → running child.pid ≢ some child
  pub launched :
      find_process (attempt_path parent) b.processes ≡ some none
      → classify_attempt b.workers parent ≢ incomplete

module _ (running : ℕ → Option Identity) (processes : List (Key × Option Identity)) (path : Key)
    (unfinished : Bool) (h : assert_not_active running processes path unfinished ≡ ok tt) where
  child_gone :
      (child : Identity)
      → find_process path processes ≡ some (some child)
      → running child.pid ≢ some child
  unfolding assert_not_active
  child_gone child found alive =
      let same : is_alive running (some child) ≡ true =
        rw (is_alive, alive)
          (ground (arith, ==_refl child.pid, ==_refl child.start_ticks, ==_refl child.boot_id)) in
      ground (arith, h, found, same)

  child_named : find_process path processes ≡ some none → unfinished ≡ false
  unfolding assert_not_active
  child_named found = ground (arith, h, found)

retried :
    (running : ℕ → Option Identity) (b : Batch) (specs : List AttemptSpec) (e : RetryRequestEntry)
    (parent : AttemptSpec)
    → find_spec (parent_key e) specs ≡ some parent
    → IsGuarded running b specs e parent
    → IsRetried running b specs e
retried running b specs e parent found guarded =
    let (l, q, id) =
      latest_spec e.parent_attempt_id (filter (is_sibling e.profile_id e.shard_id) specs)
        guarded.latest in
    let at = last_spec-IsLast e.profile_id e.shard_id specs l q in
    let key = sibling_key e.profile_id e.shard_id e.parent_attempt_id l at.own id in
    let here =
      ap (find_spec (parent_key e)) at.split
      ∙ found_last e.profile_id e.shard_id e.parent_attempt_id at.front at.rest l at.after key in
    let same : parent ≡ l = ground (arith, found, here) in
    let g = subst (IsGuarded running b specs e) same guarded in
    record {
      parent = l;
      front = at.front;
      rest = at.rest;
      listed = at.split;
      named = key;
      last = at.after;
      begun = retryable_begun (classify_attempt b.workers l) g.retryable;
      unsuccessful = none_successful b e.profile_id e.shard_id specs g.unsuccessful;
      unused = sibling-new e.profile_id e.shard_id e.new_attempt_id specs g.new_id;
      not_running = child_gone running b.processes (attempt_path l) _ g.inactive;
      launched = λ found win.
          let never = child_named running b.processes (attempt_path l) _ g.inactive found in
          ground (arith, ap is_incomplete win, never);
    }

plan_entries-IsRetried :
    (running : ℕ → Option Identity) (b : Batch) (specs : List AttemptSpec)
    (es : List RetryRequestEntry)
    → OnOk (λ entries. All (IsRetried running b specs) es) (plan_entries running b specs es)
unfolding plan_entries
plan_entries-IsRetried running b specs [] = tt
plan_entries-IsRetried running b specs (e ∷ es) =
    let rest = plan_entries-IsRetried running b specs es in
    let P : List RetryPlanEntry → Type 0 = λ entries. All (IsRetried running b specs) (e ∷ es) in
    OnOk->>= P (plan_entry running b specs e) _ λ entry p.
      let f = plan_entry-Planned running b specs e entry _ refl p in
      OnOk->>= P (plan_entries running b specs es) _ λ entries q. (
        retried running b specs e f.parent f.found
            (check_retry-IsGuarded running b e f.parent specs f.checked),
        of_ok (λ entries. All (IsRetried running b specs) es) _ entries rest q,
      )

-- If a retry plan is made, then each entry of the request, as it was validated, has its parent in the
-- list of the batch's attempts, which has the plan's and then those of the retry plans by their
-- names: no attempt of the same profile and shard follows the parent there; none of them succeeded;
-- the parent was begun; and no attempt has the key that the entry asks for. Where the parent has a
-- process record, no running process is the child that the record names, and if it names none, the
-- parent ended; where it has no record, nothing is said of processes.
pub create_retry_plan-IsRetried :
    (strip : String → String) (tsv : Tsv) (running : ℕ → Option Identity) (plan : LoadedPlan)
    (document request : RetryRequest) (b c : Batch) (specs : List AttemptSpec)
    → check_request strip document ≡ ok request
    → all_attempt_specs plan b.retry_plans ≡ ok specs
    → create_retry_plan strip tsv running plan document b ≡ ok c
    → All (IsRetried running b specs) request.entries
unfolding create_retry_plan
create_retry_plan-IsRetried strip tsv running plan document request b c specs p l h =
    let (r, p1, h1) = >>=-eq-ok (check_request strip document) _ h in
    let (_, q, h2) = >>=-eq-ok (refuse (contains r.retry_plan_id (retry_names b)) _) _ h1 in
    let (all_specs, l1, h3) = >>=-eq-ok (all_attempt_specs plan b.retry_plans) _ h2 in
    let (entries, e, h4) = >>=-eq-ok (plan_entries running b all_specs r.entries) _ h3 in
    let same : r ≡ request = ground (arith, p, p1) in
    let same_specs : all_specs ≡ specs = ground (arith, l, l1) in
    rw (← same, ← same_specs)
      (of_ok (λ entries. All (IsRetried running b all_specs) r.entries) _ entries
        (plan_entries-IsRetried running b all_specs r.entries) e)
