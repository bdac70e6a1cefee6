-- ===== src/Batch/Attempts/Placed.antt =====
-- Every attempt's task id is the one that the plan makes for its shard, so that the key of an
-- attempt and the path of its directory tell the same attempts apart.
use text.Mathlib.TextLemmas.{append_cancel_left}
use dispatcher_for_codex_age.Prelude.{
  String, ◌≡◌, refl, ap, sym, ◌∙◌, some, List, [], ◌∷◌, All, All-append, arith, contains, not, ◌&&◌,
  string_eq, list_eq, true, is_some, ==_refl, ==_iff,
}
use dispatcher_for_codex_age.Prelude.Result.{Result, ok, err, is_ok, OnOk, OnOk->>=, of_ok}
use dispatcher_for_codex_age.Prelude.Text.{concat}
use dispatcher_for_codex_age.Batch.{
  ProfileRole, PlannedShard, LoadedPlan, AttemptSpec, RetryPlanEntry, Key, make_task_id,
  local_identifier, key_of, attempt_path,
}
use dispatcher_for_codex_age.Batch.Attempts.{
  base_spec, profile_specs, specs_of, base_attempt_specs, retry_spec, entry_key, find_shard,
  find_profile,
}

-- The attempt is of a profile and a shard of the plan, and its task id is the shard's.
pub record IsPlaced (plan : LoadedPlan) (s : AttemptSpec) : Type 0 where
  pub known_profile : is_some (find_profile s.profile.profile_id plan.snapshot.profiles) ≡ true
  pub known_shard : is_some (find_shard s.shard.shard_id plan.shards) ≡ true
  pub task : make_task_id plan.snapshot.task_id_prefix s.shard.shard_id ≡ ok s.task_id

task_id-eq :
    (prefix shard_id : String) {task_id : String}
    → make_task_id prefix shard_id ≡ ok task_id
    → task_id ≡ concat (concat prefix "-") shard_id
unfolding make_task_id local_identifier
task_id-eq prefix shard_id p = ground arith

module _ (plan : LoadedPlan) (s t : AttemptSpec) (p : IsPlaced plan s) (q : IsPlaced plan t) where
  pub path_of_key : key_of s ≡ key_of t → attempt_path s ≡ attempt_path t
  path_of_key e =
      let shards : s.shard.shard_id ≡ t.shard.shard_id = cc in
      let same = ap (make_task_id plan.snapshot.task_id_prefix) shards in
      let tasks : s.task_id ≡ t.task_id = cc (p.task, q.task, same) in cc

  pub key_of_path : attempt_path s ≡ attempt_path t → key_of s ≡ key_of t
  key_of_path e =
      let prefix = plan.snapshot.task_id_prefix in
      let a = task_id-eq prefix s.shard.shard_id p.task in
      let b = task_id-eq prefix t.shard.shard_id q.task in
      let tasks : s.task_id ≡ t.task_id = cc in
      let shards =
        append_cancel_left (concat prefix "-") s.shard.shard_id t.shard.shard_id
          (sym a ∙ tasks ∙ b) in
      cc

find_profile-known :
    (ps qs : List ProfileRole)
    → ((id : String) → is_some (find_profile id qs) ≡ true → is_some (find_profile id ps) ≡ true)
    → All (λ p. is_some (find_profile p.profile_id ps) ≡ true) qs
find_profile-known ps [] h = tt
find_profile-known ps (q ∷ qs) h = (
  h q.profile_id (ground (arith, ==_refl q.profile_id)),
  find_profile-known ps qs (λ id k. h id (ground (arith, k))),
)

find_shard-known :
    (ss ts : List PlannedShard)
    → ((id : String) → is_some (find_shard id ts) ≡ true → is_some (find_shard id ss) ≡ true)
    → All (λ s. is_some (find_shard s.shard_id ss) ≡ true) ts
find_shard-known ss [] h = tt
find_shard-known ss (t ∷ ts) h = (
  h t.shard_id (ground (arith, ==_refl t.shard_id)),
  find_shard-known ss ts (λ id k. h id (ground (arith, k))),
)

module _ (plan : LoadedPlan) where
  abbrev KnownProfile : ProfileRole → Type 0
  KnownProfile p = is_some (find_profile p.profile_id plan.snapshot.profiles) ≡ true

  abbrev KnownShard : PlannedShard → Type 0
  KnownShard s = is_some (find_shard s.shard_id plan.shards) ≡ true

  abbrev AllPlaced : List AttemptSpec → Type 0
  AllPlaced = All (IsPlaced plan)

  base_spec-IsPlaced :
      (profile : ProfileRole) (shard : PlannedShard)
      → KnownProfile profile
      → KnownShard shard
      → OnOk (IsPlaced plan) (base_spec plan profile shard)
  unfolding base_spec
  base_spec-IsPlaced profile shard p s =
      OnOk->>= (IsPlaced plan) (make_task_id plan.snapshot.task_id_prefix shard.shard_id) _
        λ id made. record { known_profile = p; known_shard = s; task = made }

  profile_specs-IsPlaced :
      (profile : ProfileRole) (shards : List PlannedShard)
      → KnownProfile profile
      → All KnownShard shards
      → OnOk AllPlaced (profile_specs plan profile shards)
  unfolding profile_specs
  profile_specs-IsPlaced profile [] p s = tt
  profile_specs-IsPlaced profile (shard ∷ shards) p s =
      let first = base_spec-IsPlaced profile shard p s.0 in
      let more = profile_specs-IsPlaced profile shards p s.1 in
      OnOk->>= AllPlaced (base_spec plan profile shard) _ λ spec a.
        OnOk->>= AllPlaced (profile_specs plan profile shards) _
          λ specs b. (of_ok (IsPlaced plan) _ spec first a, of_ok AllPlaced _ specs more b)

  specs_of-IsPlaced :
      (profiles : List ProfileRole)
      → All KnownProfile profiles
      → OnOk AllPlaced (specs_of plan profiles)
  unfolding specs_of
  specs_of-IsPlaced [] p = tt
  specs_of-IsPlaced (profile ∷ profiles) p =
      let shards = find_shard-known plan.shards plan.shards (λ id k. k) in
      let first = profile_specs-IsPlaced profile plan.shards p.0 shards in
      let more = specs_of-IsPlaced profiles p.1 in
      OnOk->>= AllPlaced (profile_specs plan profile plan.shards) _ λ specs a.
        OnOk->>= AllPlaced (specs_of plan profiles) _ λ others b.
          All-append (IsPlaced plan) specs others (of_ok AllPlaced _ specs first a)
            (of_ok AllPlaced _ others more b)

  pub base_attempt_specs-IsPlaced : OnOk AllPlaced (base_attempt_specs plan)
  unfolding base_attempt_specs
  base_attempt_specs-IsPlaced =
      specs_of-IsPlaced plan.snapshot.profiles
        (find_profile-known plan.snapshot.profiles plan.snapshot.profiles (λ id k. k))

  find_profile-id :
      (id : String) (ps : List ProfileRole) (p : ProfileRole)
      → find_profile id ps ≡ some p
      → p.profile_id ≡ id
  find_profile-id id [] p h = cc
  find_profile-id id (q ∷ qs) p h = ground (arith, ==_iff id q.profile_id, find_profile-id id qs p)

  find_shard-id :
      (id : String) (ss : List PlannedShard) (s : PlannedShard)
      → find_shard id ss ≡ some s
      → s.shard_id ≡ id
  find_shard-id id [] s h = cc
  find_shard-id id (t ∷ ts) s h = ground (arith, ==_iff id t.shard_id, find_shard-id id ts s)

  -- What a retried attempt has from its entry.
  pub record Fits (e : RetryPlanEntry) (s : AttemptSpec) : Type 0 where
    pub profile : find_profile e.profile_id plan.snapshot.profiles ≡ some s.profile
    pub shard : find_shard e.shard_id plan.shards ≡ some s.shard
    pub task : make_task_id plan.snapshot.task_id_prefix e.shard_id ≡ ok s.task_id
    pub attempt : s.attempt_id ≡ e.attempt_id

  made-Fits :
      (id : String) (seen : List Key) (e : RetryPlanEntry) (s : AttemptSpec) (made : Result String)
      → make_task_id plan.snapshot.task_id_prefix e.shard_id ≡ made
      → retry_spec plan id seen e ≡ ok s
      → Fits e s
  unfolding retry_spec
  made-Fits id seen e s (ok task) m h = ground (arith, ==_iff e.task_id task)
  made-Fits id seen e s (err x) m h = ground arith

  pub retry_spec-Fits :
      (id : String) (seen : List Key) (e : RetryPlanEntry) (s : AttemptSpec)
      → retry_spec plan id seen e ≡ ok s
      → Fits e s
  retry_spec-Fits id seen e s h = made-Fits id seen e s _ refl h

  pub Fits-key : (e : RetryPlanEntry) (s : AttemptSpec) → Fits e s → key_of s ≡ entry_key e
  Fits-key e s f =
      let p = find_profile-id e.profile_id plan.snapshot.profiles s.profile f.profile in
      let q = find_shard-id e.shard_id plan.shards s.shard f.shard in cc (p, q, f.attempt)

  pub Fits-IsPlaced : (e : RetryPlanEntry) (s : AttemptSpec) → Fits e s → IsPlaced plan s
  Fits-IsPlaced e s f =
      let p = find_profile-id e.profile_id plan.snapshot.profiles s.profile f.profile in
      let q = find_shard-id e.shard_id plan.shards s.shard f.shard in
      record {
        known_profile = rw (p, f.profile) refl;
        known_shard = rw (q, f.shard) refl;
        task = rw q f.task;
      }

  -- Whether an entry is taken depends on the plan, and on its key being new.
  pub retry_spec-fresh :
      (id other : String) (seen : List Key) (e : RetryPlanEntry)
      → is_ok (retry_spec plan id seen e)
        ≡ (is_ok (retry_spec plan other [] e) && not (contains (entry_key e) seen))
  unfolding retry_spec
  retry_spec-fresh id other seen e = ground arith
