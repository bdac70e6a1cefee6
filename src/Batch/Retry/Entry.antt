-- ===== src/Batch/Retry/Entry.antt =====
-- What an entry of a new retry plan is like.
use mathlib.Core.Path.{subst}
use dispatcher_for_codex_age.Prelude.{
  ℕ, String, ◌≡◌, refl, ap, ◌∙◌, Bool, true, false, Option, none, some, List, [], ◌∷◌, map, any,
  filter, contains, All, is_some, ◌==◌, ==_iff, ==_refl, string_eq, list_eq, arith,
}
use dispatcher_for_codex_age.Prelude.Result.{ok, OnOk, OnOk->>=, of_ok}
use dispatcher_for_codex_age.Batch.{
  LoadedPlan, AttemptSpec, RetryPlanEntry, Key, key_of, attempt_path, make_task_id,
  classify_attempt,
}
use dispatcher_for_codex_age.Batch.Attempts.{retry_spec, entry_key, find_profile, find_shard}
use dispatcher_for_codex_age.Batch.Attempts.Placed.{IsPlaced}
use dispatcher_for_codex_age.Batch.Attempts.Entries.{fits}
use dispatcher_for_codex_age.Batch.Retry.{
  Identity, Batch, RetryRequestEntry, find_spec, is_sibling, last_spec, assert_not_active,
  is_incomplete, is_success, is_retryable, check_retry, plan_entry, plan_entries,
}

find_spec-Placed :
    (plan : LoadedPlan) (key : Key) (specs : List AttemptSpec) (s : AttemptSpec)
    → All (IsPlaced plan) specs
    → find_spec key specs ≡ some s
    → IsPlaced plan s × (key ≡ key_of s)
find_spec-Placed plan key [] s v h = cc
find_spec-Placed plan key (t ∷ ts) s v h =
    elim (find_spec key ts) as (λ o. (find_spec key ts ≡ o) → IsPlaced plan s × (key ≡ key_of s)) [
      | none ↦ λ p.
          let same : t ≡ s = ground arith in
          let keys : key ≡ key_of t = ground (arith, ==_iff key (key_of t)) in
          (subst (IsPlaced plan) same v.0, keys ∙ ap key_of same)
      | some u ↦ λ p. find_spec-Placed plan key ts s v.1 (ground arith)
    ]
      refl

-- The key of the attempt that an entry asks for.
abbrev pub new_key : RetryRequestEntry → Key
new_key e = e.profile_id ∷ e.shard_id ∷ e.new_attempt_id ∷ []

pub sibling-new :
    (p s a : String) (specs : List AttemptSpec)
    → any (λ t. t.attempt_id == a) (filter (is_sibling p s) specs) ≡ false
    → contains (p ∷ s ∷ a ∷ []) (map key_of specs) ≡ false
sibling-new p s a [] h = refl
sibling-new p s a (t ∷ ts) h = ground (
  arith,
  ==_iff p t.profile.profile_id,
  ==_iff t.profile.profile_id p,
  ==_iff s t.shard.shard_id,
  ==_iff t.shard.shard_id s,
  ==_iff a t.attempt_id,
  ==_iff t.attempt_id a,
  sibling-new p s a ts,
)

-- An entry of the new retry plan: a key that no attempt has, which fits the plan.
pub record IsNew (plan : LoadedPlan) (specs : List AttemptSpec) (e : RetryRequestEntry)
    (entry : RetryPlanEntry) : Type 0 where
  pub same_key : entry_key entry ≡ new_key e
  pub unused : contains (entry_key entry) (map key_of specs) ≡ false
  pub fitting : fits plan entry ≡ true

-- The last planned attempt of a shard has this id.
abbrev pub is_latest : String → List AttemptSpec → Bool
is_latest id siblings = elim (last_spec siblings) [
  | none ↦ false
  | some latest ↦ latest.attempt_id == id
]

-- The guards that a planned entry has passed.
pub record IsGuarded (running : ℕ → Option Identity) (b : Batch) (specs : List AttemptSpec)
    (e : RetryRequestEntry) (parent : AttemptSpec) : Type 0 where
  pub unsuccessful :
      any
        (λ s. is_success (classify_attempt b.workers s))
        (filter (is_sibling e.profile_id e.shard_id) specs)
      ≡ false
  pub retryable : is_retryable (classify_attempt b.workers parent) ≡ true
  pub latest :
      is_latest e.parent_attempt_id (filter (is_sibling e.profile_id e.shard_id) specs) ≡ true
  pub inactive :
      assert_not_active running b.processes
        (attempt_path parent)
        (is_incomplete (classify_attempt b.workers parent))
      ≡ ok tt
  pub new_id :
      any
        (λ s. s.attempt_id == e.new_attempt_id)
        (filter (is_sibling e.profile_id e.shard_id) specs)
      ≡ false

pub check_retry-IsGuarded :
    (running : ℕ → Option Identity) (b : Batch) (e : RetryRequestEntry) (parent : AttemptSpec)
    (specs : List AttemptSpec)
    → check_retry running b e parent (filter (is_sibling e.profile_id e.shard_id) specs) ≡ ok tt
    → IsGuarded running b specs e parent
unfolding check_retry
check_retry-IsGuarded running b e parent specs h = ground arith

abbrev pub parent_key : RetryRequestEntry → Key
parent_key e = e.profile_id ∷ e.shard_id ∷ e.parent_attempt_id ∷ []

-- What `plan_entry` returns, and of which parent.
pub record Planned (running : ℕ → Option Identity) (b : Batch) (specs : List AttemptSpec)
    (e : RetryRequestEntry) (entry : RetryPlanEntry) : Type 0 where
  pub parent : AttemptSpec
  pub found : find_spec (parent_key e) specs ≡ some parent
  pub checked :
      check_retry running b e parent (filter (is_sibling e.profile_id e.shard_id) specs) ≡ ok tt
  pub profile : entry.profile_id ≡ e.profile_id
  pub shard : entry.shard_id ≡ e.shard_id
  pub task : entry.task_id ≡ parent.task_id
  pub attempt : entry.attempt_id ≡ e.new_attempt_id

module _ (running : ℕ → Option Identity) (b : Batch) (specs : List AttemptSpec) where
  pub plan_entry-Planned :
      (e : RetryRequestEntry) (entry : RetryPlanEntry) (parent : Option AttemptSpec)
      → find_spec (parent_key e) specs ≡ parent
      → plan_entry running b specs e ≡ ok entry
      → Planned running b specs e entry
  unfolding plan_entry
  plan_entry-Planned e entry none p h = absurd (ground arith)
  plan_entry-Planned e entry (some s) p h = record {
    parent = s;
    found = p;
    checked = ground arith;
    profile = ground arith;
    shard = ground arith;
    task = ground arith;
    attempt = ground arith;
  }

known-fits :
    (plan : LoadedPlan) (entry : RetryPlanEntry)
    → is_some (find_profile entry.profile_id plan.snapshot.profiles) ≡ true
    → is_some (find_shard entry.shard_id plan.shards) ≡ true
    → make_task_id plan.snapshot.task_id_prefix entry.shard_id ≡ ok entry.task_id
    → fits plan entry ≡ true
unfolding fits retry_spec
known-fits plan entry p s t = ground (arith, ==_refl entry.task_id)

Planned-IsNew :
    (plan : LoadedPlan) (running : ℕ → Option Identity) (b : Batch) (specs : List AttemptSpec)
    (e : RetryRequestEntry) (entry : RetryPlanEntry)
    → All (IsPlaced plan) specs
    → Planned running b specs e entry
    → IsNew plan specs e entry
Planned-IsNew plan running b specs e entry placed f =
    let parent = find_spec-Placed plan (parent_key e) specs f.parent placed f.found in
    let guarded = check_retry-IsGuarded running b e f.parent specs f.checked in
    let profile : entry.profile_id ≡ f.parent.profile.profile_id = cc (f.profile, parent.1) in
    let shard : entry.shard_id ≡ f.parent.shard.shard_id = cc (f.shard, parent.1) in
    let key : entry_key entry ≡ new_key e = cc (f.profile, f.shard, f.attempt) in
    record {
      same_key = key;
      unused = rw key (sibling-new e.profile_id e.shard_id e.new_attempt_id specs guarded.new_id);
      fitting =
          known-fits plan entry (rw profile parent.0.known_profile) (rw shard parent.0.known_shard)
            (rw (shard, f.task) parent.0.task);
    }

-- The planned entries, one by one.
abbrev pub AllNew :
    LoadedPlan → List AttemptSpec → List RetryRequestEntry → List RetryPlanEntry → Type 0
AllNew plan specs [] [] = Unit
AllNew plan specs (e ∷ es) (entry ∷ entries) =
    IsNew plan specs e entry × AllNew plan specs es entries
AllNew plan specs _ _ = ⊥

pub plan_entries-AllNew :
    (plan : LoadedPlan) (running : ℕ → Option Identity) (b : Batch) (specs : List AttemptSpec)
    (es : List RetryRequestEntry)
    → All (IsPlaced plan) specs
    → OnOk (AllNew plan specs es) (plan_entries running b specs es)
unfolding plan_entries
plan_entries-AllNew plan running b specs [] placed = tt
plan_entries-AllNew plan running b specs (e ∷ es) placed =
    let rest = plan_entries-AllNew plan running b specs es placed in
    let A = AllNew plan specs (e ∷ es) in
    OnOk->>= A (plan_entry running b specs e) _ λ entry p.
      OnOk->>= A (plan_entries running b specs es) _ λ entries q. (
        Planned-IsNew plan running b specs e entry placed
            (plan_entry-Planned running b specs e entry _ refl p),
        of_ok (AllNew plan specs es) _ entries rest q,
      )
