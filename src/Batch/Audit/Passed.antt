-- ===== src/Batch/Audit/Passed.antt =====
-- What a collection says that passes.
use mathlib.Core.Path.{subst}
use dispatcher_for_codex_age.Prelude.{
  String, ◌≡◌, refl, ap, sym, ◌∙◌, true, Option, List, [], ◌∷◌, map, contains, is_unique, string_eq,
  arith, All, All-imp, count_if,
}
use dispatcher_for_codex_age.Prelude.Result.{ok, refuse, of_ok, >>=-eq-ok}
use dispatcher_for_codex_age.Prelude.Sort.{count_if-sort}
use dispatcher_for_codex_age.Batch.{ProfileRole, LoadedPlan, AttemptSpec, local_identifier}
use dispatcher_for_codex_age.Batch.Attempts.{all_attempt_specs}
use dispatcher_for_codex_age.Batch.Retry.{Batch}
use dispatcher_for_codex_age.Batch.Collect.{
  Archive, SelectionEntry, Choice, Collected, select_choices,
}
use dispatcher_for_codex_age.Batch.Audit.{
  is_empty, result_leb, all_found, Collection, collect_profiles, collection_of, collect_batch,
}
use dispatcher_for_codex_age.Batch.Audit.Coverage.{coverage_row_iff}
use dispatcher_for_codex_age.Batch.Audit.Own.{HasRows}
use dispatcher_for_codex_age.Batch.Audit.ExactOnce.{
  is_row_of, HasEachOnce, profile_ids, OwnRows, Passes, found-AllOnce, passing, IsGathered,
  GathersAll, collect_profiles-IsGathered,
}

profile_ids-eq :
    (cs : List (ProfileRole × Collected))
    → profile_ids cs ≡ map (λ (p : ProfileRole). p.profile_id) (map (λ pc. pc.0) cs)
profile_ids-eq [] = refl
profile_ids-eq ((p, c) ∷ cs) = ap (λ ids. p.profile_id ∷ ids) (profile_ids-eq cs)

to_profiles :
    (P : ProfileRole → Type 0) (cs : List (ProfileRole × Collected))
    → All (λ (pc : ProfileRole × Collected). P pc.0) cs
    → All P (map (λ pc. pc.0) cs)
to_profiles P [] v = tt
to_profiles P ((p, c) ∷ cs) v = (v.0, to_profiles P cs v.1)

module _ (a : Archive) (plan : LoadedPlan) (id : String) (selection : Option (List SelectionEntry))
    (b c : Batch) (coll : Collection)
    (collected : collect_batch a plan id selection b ≡ ok (c, coll))
    (passed : coll.passed ≡ true) where
  -- What `collect_batch` has made on the way to a collection.
  record Made : Type 0 where
    specs : List AttemptSpec
    listed : all_attempt_specs plan b.retry_plans ≡ ok specs
    selected : Option (List Choice)
    chosen : select_choices plan b.workers specs selection ≡ ok selected
    pairs : List (ProfileRole × Collected)
    gathered : IsGathered a plan b.workers specs selected plan.snapshot.profiles pairs
    files : coll ≡ collection_of plan b.workers specs pairs

  made : Made
  unfolding collect_batch
  made =
      let (i, p, h1) = >>=-eq-ok (local_identifier "collection_id" id) _ collected in
      let (_, q, h2) = >>=-eq-ok (refuse (contains id b.collections) _) _ h1 in
      let (specs, l, h3) = >>=-eq-ok (all_attempt_specs plan b.retry_plans) _ h2 in
      let (selected, s, h4) = >>=-eq-ok (select_choices plan b.workers specs selection) _ h3 in
      let (pairs, r, h5) =
        >>=-eq-ok (collect_profiles a plan b.workers specs selected plan.snapshot.profiles) _ h4 in
      record {
        specs = specs;
        listed = l;
        selected = selected;
        chosen = s;
        pairs = pairs;
        gathered =
            of_ok (IsGathered a plan b.workers specs selected plan.snapshot.profiles) _ pairs
              (collect_profiles-IsGathered a plan b.workers specs selected plan.snapshot.profiles)
              r;
        files = ground (arith, h5);
      }

  each_audit : All (Passes plan) made.pairs
  unfolding collection_of
  each_audit = passing plan made.pairs (ap (λ (x : Collection). x.passed) (sym made.files) ∙ passed)

  by_profile-eq :
      (profile_id k : String)
      → count_if (is_row_of profile_id k) coll.by_profile
        ≡ count_if (is_row_of profile_id k) (all_found made.pairs)
  unfolding collection_of
  by_profile-eq profile_id k =
      ap (λ (x : Collection). count_if (is_row_of profile_id k) x.by_profile) made.files
      ∙ count_if-sort (result_leb plan) (is_row_of profile_id k) (all_found made.pairs)

  -- If a collection passes, and the profiles of the plan have different ids, the file by profiles has
  -- for each profile one row of every planned record, and no row of any other.
  pub collect_batch_exact :
      is_unique (map (λ (p : ProfileRole). p.profile_id) plan.snapshot.profiles) ≡ true
      → All (HasEachOnce plan coll.by_profile) plan.snapshot.profiles
  collect_batch_exact distinct =
      let pairs = made.pairs in
      let g = made.gathered in
      let ids = profile_ids-eq pairs ∙ ap (map (λ (p : ProfileRole). p.profile_id)) g.same in
      let own =
        All-imp (GathersAll a plan b.workers made.specs made.selected) {Q = OwnRows} pairs
          (λ pc v. v.own) g.each in
      let once = found-AllOnce plan pairs (rw ids distinct) own each_audit in
      subst (All (HasEachOnce plan coll.by_profile)) g.same (
        to_profiles (HasEachOnce plan coll.by_profile) pairs (
          All-imp (λ (pc : ProfileRole × Collected). HasEachOnce plan (all_found pairs) pc.0) pairs
            (λ pc v k. by_profile-eq pc.0.profile_id k ∙ v k) once))

  no_errors :
      (cs : List (ProfileRole × Collected))
      → All (Passes plan) cs
      → All (λ (pc : ProfileRole × Collected). is_empty pc.1.errors ≡ true) cs
  no_errors [] v = tt
  no_errors ((p, c) ∷ cs) v = (((coverage_row_iff plan p c).0 v.0).0, no_errors cs v.1)

  gathered_rows :
      (specs : List AttemptSpec) (selected : Option (List Choice))
      (cs : List (ProfileRole × Collected))
      → All (GathersAll a plan b.workers specs selected) cs
      → All (λ (pc : ProfileRole × Collected). is_empty pc.1.errors ≡ true) cs
      → All
          (λ (pc : ProfileRole × Collected).
            All (HasRows pc.0 a b.workers specs selected) plan.shards)
          cs
  gathered_rows specs selected [] v w = tt
  gathered_rows specs selected ((p, c) ∷ cs) v w =
      (v.0.each w.0, gathered_rows specs selected cs v.1 w.1)

  -- If a collection passes, every shard of every profile has one candidate, its only successful
  -- attempt or the one that was selected; the output that was read of it is accepted by the schema
  -- of the task, and covers the records of the shard.
  pub collect_batch_sources :
      (specs : List AttemptSpec) (selected : Option (List Choice))
      → all_attempt_specs plan b.retry_plans ≡ ok specs
      → select_choices plan b.workers specs selection ≡ ok selected
      → All (λ p. All (HasRows p a b.workers specs selected) plan.shards) plan.snapshot.profiles
  collect_batch_sources specs selected l s =
      let same : made.specs ≡ specs = ground (arith, l, made.listed) in
      let chosen = made.chosen in
      let same_choices : made.selected ≡ selected = ground (arith, s, rw same at chosen) in
      rw (← same, ← same_choices)
        (subst (All (λ p. All (HasRows p a b.workers made.specs made.selected) plan.shards))
          made.gathered.same
          (to_profiles (λ p. All (HasRows p a b.workers made.specs made.selected) plan.shards)
            made.pairs
            (gathered_rows made.specs made.selected made.pairs made.gathered.each
              (no_errors made.pairs each_audit))))
