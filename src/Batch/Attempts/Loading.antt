-- ===== src/Batch/Attempts/Loading.antt =====
-- When the attempts of a batch can be listed, and what the list has.
use mathlib.Core.Path.{subst}
use dispatcher_for_codex_age.Prelude.{
  ◌+◌, String, ◌≡◌, refl, ap, ◌∙◌, ◌↔◌, Bool, true, ◌&&◌, List, [], ◌∷◌, ◌++◌, map, all, count, All,
  string_eq, list_eq, arith, count-append,
}
use dispatcher_for_codex_age.Prelude.Result.{Result, ok, err, is_ok, OnOk, OnOk->>=, of_ok}
use dispatcher_for_codex_age.Prelude.Sort.{sort, insert_sorted, all-sort}
use dispatcher_for_codex_age.Batch.{
  LoadedPlan, AttemptSpec, RetryPlanSnapshot, RetryDirectory, Key, key_of,
}
use dispatcher_for_codex_age.Batch.Attempts.{
  base_attempt_specs, load_retry_plan, load_each, by_name, retry_snapshots, add_retries,
  all_attempt_specs, entry_key,
}
use dispatcher_for_codex_age.Batch.Attempts.Placed.{IsPlaced, base_attempt_specs-IsPlaced}
use dispatcher_for_codex_age.Batch.Attempts.Entries.{
  are_new, AreNew, are_new_iff, fits_plan, keys_of, Gives, add_retries-ok, add_retries-Gives,
  append-Gives,
}

abbrev Named : Type 0
Named = String × RetryDirectory

abbrev verifies : Named → Bool
verifies d = is_ok (load_retry_plan d.0 d.1)

-- Whether a retry plan loads by itself.
abbrev pub loads : LoadedPlan → Named → Bool
loads plan d = verifies d && fits_plan plan d.1.snapshot

-- The keys of the retried attempts, in the order of the directories.
abbrev pub retried : List Named → List Key
retried [] = []
retried (d ∷ ds) = map entry_key d.1.snapshot.entries ++ retried ds

abbrev snapshots : List Named → List RetryPlanSnapshot
snapshots [] = []
snapshots (d ∷ ds) = d.1.snapshot ∷ snapshots ds

keys_of-snapshots : (ds : List Named) → keys_of (snapshots ds) ≡ retried ds
keys_of-snapshots [] = refl
keys_of-snapshots (d ∷ ds) =
    ap (λ ks. map entry_key d.1.snapshot.entries ++ ks) (keys_of-snapshots ds)

load_retry_plan-eq :
    (d : Named) (s : RetryPlanSnapshot) → load_retry_plan d.0 d.1 ≡ ok s → s ≡ d.1.snapshot
unfolding load_retry_plan
load_retry_plan-eq d s p = ground arith

load_each-eq : (ds : List Named) → OnOk (λ s. s ≡ snapshots ds) (load_each ds)
unfolding load_each
load_each-eq [] = refl
load_each-eq (d ∷ ds) =
    let rest = load_each-eq ds in
    OnOk->>= (λ s. s ≡ snapshots (d ∷ ds)) (load_retry_plan d.0 d.1) _
      λ s p.
        OnOk->>= (λ s. s ≡ snapshots (d ∷ ds)) (load_each ds) _
          λ more q. cc (load_retry_plan-eq d s p, of_ok (λ s. s ≡ snapshots ds) _ more rest q)

load_each-ok : (ds : List Named) → is_ok (load_each ds) ≡ all verifies ds
unfolding load_each
load_each-ok [] = refl
load_each-ok (d ∷ ds) = ground (arith, load_each-ok ds)

all_fits :
    (plan : LoadedPlan) (ds : List Named)
    → all (fits_plan plan) (snapshots ds) ≡ all (λ d. fits_plan plan d.1.snapshot) ds
all_fits plan [] = refl
all_fits plan (d ∷ ds) = ground (arith, all_fits plan ds)

all-and : (p q : Named → Bool) (ds : List Named) → all (λ d. p d && q d) ds ≡ (all p ds && all q ds)
all-and p q [] = refl
all-and p q (d ∷ ds) = ground (arith, all-and p q ds)

count-retried-insert_sorted :
    (k : Key) (d : Named) (ds : List Named)
    → count k (retried (insert_sorted by_name d ds)) ≡ count k (retried (d ∷ ds))
unfolding insert_sorted
count-retried-insert_sorted k d [] = refl
count-retried-insert_sorted k d (x ∷ xs) =
    let one = map entry_key d.1.snapshot.entries in
    let two = map entry_key x.1.snapshot.entries in
    ground (
      arith,
      count-retried-insert_sorted k d xs,
      count-append k two (retried (insert_sorted by_name d xs)),
      count-append k two (retried xs),
      count-append k one (retried xs),
      count-append k one (two ++ retried xs),
    )

count-retried-sort :
    (k : Key) (ds : List Named) → count k (retried (sort by_name ds)) ≡ count k (retried ds)
unfolding sort
count-retried-sort k [] = refl
count-retried-sort k (d ∷ ds) =
    let one = map entry_key d.1.snapshot.entries in
    omega (
      arith,
      count-retried-insert_sorted k d (sort by_name ds),
      count-retried-sort k ds,
      count-append k one (retried (sort by_name ds)),
      count-append k one (retried ds),
    )

module _ (plan : LoadedPlan) (ds : List Named) (base : List AttemptSpec) where
  loaded :
      (read : Result (List RetryPlanSnapshot))
      → base_attempt_specs plan ≡ ok base
      → retry_snapshots ds ≡ read
      → OnOk (λ s. s ≡ snapshots (sort by_name ds)) read
      → is_ok (all_attempt_specs plan ds)
        ≡ (is_ok read && is_ok (add_retries plan (map key_of base) (snapshots (sort by_name ds))))
  unfolding all_attempt_specs
  loaded (err e) p q same = rw (p, q, all_attempt_specs) refl
  loaded (ok read) p q same = rw (p, q, all_attempt_specs) (rw same (ground arith))

  all_attempt_specs-ok :
      base_attempt_specs plan ≡ ok base
      → is_ok (all_attempt_specs plan ds)
        ≡ (all (loads plan) ds && are_new (map key_of base) (retried (sort by_name ds)))
  unfolding retry_snapshots
  all_attempt_specs-ok p =
      let sorted = sort by_name ds in
      let one = loaded (load_each sorted) p refl (load_each-eq sorted) in
      let two = load_each-ok sorted in
      let three = add_retries-ok plan (map key_of base) (snapshots sorted) in
      let four = all_fits plan sorted in
      let five = ap (are_new (map key_of base)) (keys_of-snapshots sorted) in
      let six = all-and verifies (λ d. fits_plan plan d.1.snapshot) sorted in
      let seven = all-sort by_name (loads plan) ds in ground arith

  -- All attempts of a batch can be listed exactly if every retry plan verifies and fits the plan, and
  -- no attempt is planned twice, in whatever order the retry plans were made.
  pub all_attempt_specs_iff :
      base_attempt_specs plan ≡ ok base
      → (is_ok (all_attempt_specs plan ds) ≡ true)
        ↔ ((all (loads plan) ds ≡ true) × AreNew (map key_of base) (retried ds))
  all_attempt_specs_iff p =
      let tests = all_attempt_specs-ok p in
      let keys = are_new_iff (map key_of base) (retried (sort by_name ds)) in
      (
        λ h. (ground arith, λ k. rw (← count-retried-sort k ds) (keys.0 (ground arith) k)),
        λ h. ground (arith, keys.1 (λ k. rw (count-retried-sort k ds) (h.1 k))),
      )

-- The listed attempts are those of the plan and those of the retry plans.
pub record IsListed (plan : LoadedPlan) (ds : List Named) (specs : List AttemptSpec) : Type 0 where
  pub placed : All (IsPlaced plan) specs
  pub base : List AttemptSpec
  pub planned : base_attempt_specs plan ≡ ok base
  pub each :
      (k : Key) → count k (map key_of specs) ≡ count k (map key_of base) + count k (retried ds)

Gives-IsListed :
    (plan : LoadedPlan) (ds : List Named) (base specs : List AttemptSpec)
    → base_attempt_specs plan ≡ ok base
    → Gives plan (map key_of base ++ retried (sort by_name ds)) specs
    → IsListed plan ds specs
Gives-IsListed plan ds base specs p g = record {
  placed = g.placed;
  base = base;
  planned = p;
  each = λ k. rw g.same_keys (
      omega (
        arith,
        count-append k (map key_of base) (retried (sort by_name ds)),
        count-retried-sort k ds,
      ));
}

pub all_attempt_specs-IsListed :
    (plan : LoadedPlan) (ds : List Named) → OnOk (IsListed plan ds) (all_attempt_specs plan ds)
unfolding all_attempt_specs retry_snapshots
all_attempt_specs-IsListed plan ds =
    let sorted = sort by_name ds in
    let L = IsListed plan ds in
    OnOk->>= L (base_attempt_specs plan) _ λ base p. OnOk->>= L (load_each sorted) _ λ read q.
      OnOk->>= L (add_retries plan (map key_of base) read) _ λ more r.
        let given = of_ok (λ s. s ≡ snapshots sorted) _ read (load_each-eq sorted) q in
        let keys : keys_of read ≡ retried sorted = ap keys_of given ∙ keys_of-snapshots sorted in
        let extra =
          of_ok (Gives plan (keys_of read)) _ more (add_retries-Gives plan (map key_of base) read)
            r in
        let first = of_ok (All (IsPlaced plan)) _ base (base_attempt_specs-IsPlaced plan) p in
        Gives-IsListed plan ds base (base ++ more) p (
          append-Gives plan (map key_of base) (retried sorted) base more
            (record { placed = first; same_keys = refl })
            (subst (λ ks. Gives plan ks more) keys extra))
