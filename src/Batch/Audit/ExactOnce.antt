-- ===== src/Batch/Audit/ExactOnce.antt =====
-- A collection that passes has every planned record once for every profile.
use dispatcher_for_codex_age.Prelude.{
  String, ◌≡◌, refl, ap, Bool, true, false, ◌&&◌, Option, List, [], ◌∷◌, ◌++◌, contains, map, all,
  count, count_if, is_unique, ◌==◌, ==_iff, ==_refl, string_eq, arith, All, if◌then◌else◌,
  count_if-append,
}
use dispatcher_for_codex_age.Prelude.Result.{OnOk, OnOk->>=, of_ok}
use dispatcher_for_codex_age.Batch.{ProfileRole, LoadedPlan, AttemptSpec, Workers}
use dispatcher_for_codex_age.Batch.Collect.{Archive, Choice, ResultRow, Collected, collect_shards}
use dispatcher_for_codex_age.Batch.Audit.{
  ids_in, planned_ids, coverage_row, CoverageRow, all_found, collect_profiles,
}
use dispatcher_for_codex_age.Batch.Audit.Coverage.{coverage_row_iff}
use dispatcher_for_codex_age.Batch.Audit.Own.{IsOwn, Gathers, collect_shards-Gathers}

-- A row of a profile and a record.
abbrev pub is_row_of : String → String → ResultRow → Bool
is_row_of profile_id k row = row.profile.profile_id == profile_id && row.record_id == k

rows_own :
    (p : ProfileRole) (k : String) (found : List ResultRow)
    → All (IsOwn p) found
    → count_if (is_row_of p.profile_id k) found ≡ count k (map (λ row. row.record_id) found)
rows_own p k [] v = refl
rows_own p k (row ∷ found) v = ground (
  arith,
  rows_own p k found v.1,
  v.0,
  ==_refl p.profile_id,
  ==_iff row.record_id k,
  ==_iff k row.record_id,
)

rows_other :
    (p : ProfileRole) (id k : String) (found : List ResultRow)
    → (p.profile_id == id) ≡ false
    → All (IsOwn p) found
    → count_if (is_row_of id k) found ≡ 0
rows_other p id k [] h v = refl
rows_other p id k (row ∷ found) h v = ground (arith, rows_other p id k found h v.1, v.0)

abbrev pub profile_ids : List (ProfileRole × Collected) → List String
profile_ids [] = []
profile_ids ((p, c) ∷ cs) = p.profile_id ∷ profile_ids cs

-- Every profile has its own rows.
abbrev pub OwnRows : ProfileRole × Collected → Type 0
OwnRows pc = All (IsOwn pc.0) pc.1.found

absent_rows :
    (cs : List (ProfileRole × Collected)) (id k : String)
    → contains id (profile_ids cs) ≡ false
    → All OwnRows cs
    → count_if (is_row_of id k) (all_found cs) ≡ 0
absent_rows [] id k h v = refl
absent_rows ((p, c) ∷ cs) id k h v = ground (
  arith,
  count_if-append (is_row_of id k) c.found (all_found cs),
  rows_other p id k c.found (ground (arith, ==_iff p.profile_id id, ==_iff id p.profile_id)) v.0,
  absent_rows cs id k (ground arith) v.1,
)

-- What the file by profiles has of each profile, if every audit passes.
abbrev pub HasEachOnce : LoadedPlan → List ResultRow → ProfileRole → Type 0
HasEachOnce plan found p =
    (k : String)
    → count_if (is_row_of p.profile_id k) found ≡ (if contains k (ids_in plan.shards) then 1 else 0)

module _ (plan : LoadedPlan) where
  abbrev pub Passes : ProfileRole × Collected → Type 0
  Passes pc = (coverage_row (planned_ids plan) pc.0 pc.1).passed ≡ true

  abbrev pub AllOnce : List ResultRow → List (ProfileRole × Collected) → Type 0
  AllOnce found = All (λ (pc : ProfileRole × Collected). HasEachOnce plan found pc.0)

  -- Rows of another profile change nothing.
  other-AllOnce :
      (p : ProfileRole) (c : Collected) (found : List ResultRow)
      (cs : List (ProfileRole × Collected))
      → All (IsOwn p) c.found
      → contains p.profile_id (profile_ids cs) ≡ false
      → AllOnce found cs
      → AllOnce (c.found ++ found) cs
  other-AllOnce p c found [] own h v = tt
  other-AllOnce p c found ((q, d) ∷ cs) own h v = (
    λ k. ground (
      arith,
      v.0 k,
      count_if-append (is_row_of q.profile_id k) c.found found,
      rows_other p q.profile_id k c.found (ground arith) own,
    ),
    other-AllOnce p c found cs own (ground arith) v.1,
  )

  pub found-AllOnce :
      (cs : List (ProfileRole × Collected))
      → is_unique (profile_ids cs) ≡ true
      → All OwnRows cs
      → All Passes cs
      → AllOnce (all_found cs) cs
  found-AllOnce [] u own v = tt
  found-AllOnce ((p, c) ∷ cs) u own v =
      let rest = found-AllOnce cs (ground arith) own.1 v.1 in
      let each = ((coverage_row_iff plan p c).0 v.0).1 in
      let apart : contains p.profile_id (profile_ids cs) ≡ false = ground arith in
      (
        λ k. omega (
          arith,
          each k,
          count_if-append (is_row_of p.profile_id k) c.found (all_found cs),
          rows_own p k c.found own.0,
          absent_rows cs p.profile_id k apart own.1,
        ),
        other-AllOnce p c (all_found cs) cs own.0 apart rest,
      )

  pub passing :
      (cs : List (ProfileRole × Collected))
      → all
          (λ (row : CoverageRow). row.passed)
          (map (λ pc. coverage_row (planned_ids plan) pc.0 pc.1) cs)
        ≡ true
      → All Passes cs
  passing [] h = tt
  passing ((p, c) ∷ cs) h = (ground arith, passing cs (ground arith))

-- What the loop over the profiles gathers.
module _ (a : Archive) (plan : LoadedPlan) (workers : Workers) (specs : List AttemptSpec)
    (selected : Option (List Choice)) where
  abbrev pub GathersAll : ProfileRole × Collected → Type 0
  GathersAll pc = Gathers pc.0 a workers specs selected plan.shards pc.1

  pub record IsGathered (profiles : List ProfileRole) (cs : List (ProfileRole × Collected))
      : Type 0 where
    pub same : map (λ pc. pc.0) cs ≡ profiles
    pub each : All GathersAll cs

  pub collect_profiles-IsGathered :
      (profiles : List ProfileRole)
      → OnOk (IsGathered profiles) (collect_profiles a plan workers specs selected profiles)
  unfolding collect_profiles
  collect_profiles-IsGathered [] = record { same = refl; each = tt }
  collect_profiles-IsGathered (p ∷ ps) =
      let rest = collect_profiles-IsGathered ps in
      let G = IsGathered (p ∷ ps) in
      OnOk->>= G (collect_shards a workers specs selected p plan.shards) _ λ c q.
        OnOk->>= G (collect_profiles a plan workers specs selected ps) _ λ cs r.
          let g = of_ok (IsGathered ps) _ cs rest r in
          record {
            same = ap (λ xs. p ∷ xs) g.same;
            each = (
              of_ok (Gathers p a workers specs selected plan.shards) _ c
                  (collect_shards-Gathers p a workers specs selected plan.shards) q,
              g.each,
            );
          }
