-- ===== src/Batch/Attempts/Entries.antt =====
-- When the entries of retry plans are taken, and what attempts they give.
use dispatcher_for_codex_age.Prelude.{
  ◌≤◌, String, ◌≡◌, refl, ap, ◌↔◌, Bool, true, not, ◌&&◌, ◌||◌, List, [], ◌∷◌, ◌++◌, map, all,
  contains, count, All, All-append, ◌==◌, ==_iff, ==_refl, string_eq, list_eq, arith,
}
use dispatcher_for_codex_age.Prelude.Result.{is_ok, refuse, OnOk, OnOk->>=, of_ok}
use dispatcher_for_codex_age.Batch.{
  LoadedPlan, AttemptSpec, RetryPlanEntry, RetryPlanSnapshot, Key, key_of,
}
use dispatcher_for_codex_age.Batch.Attempts.{retry_spec, add_entries, add_retries, entry_key}
use dispatcher_for_codex_age.Batch.Attempts.Placed.{
  IsPlaced, retry_spec-Fits, retry_spec-fresh, Fits-key, Fits-IsPlaced,
}

-- Keys that are new when they come, after those that were seen.
abbrev pub are_new : List Key → List Key → Bool
are_new seen [] = true
are_new seen (k ∷ ks) = not (contains k seen) && are_new (k ∷ seen) ks

are_new-same :
    (seen other ks : List Key)
    → ((k : Key) → contains k seen ≡ contains k other)
    → are_new seen ks ≡ are_new other ks
are_new-same seen other [] h = refl
are_new-same seen other (k ∷ ks) h =
    ground (arith, h k, are_new-same (k ∷ seen) (k ∷ other) ks (λ j. ground (arith, h j)))

contains-append :
    (k : Key) (xs ys : List Key) → contains k (xs ++ ys) ≡ (contains k xs || contains k ys)
contains-append k [] ys = refl
contains-append k (x ∷ xs) ys = ground (arith, contains-append k xs ys)

are_new-append :
    (seen xs ys : List Key) → are_new seen (xs ++ ys) ≡ (are_new seen xs && are_new (xs ++ seen) ys)
are_new-append seen [] ys = refl
are_new-append seen (x ∷ xs) ys =
    let swap =
      are_new-same (xs ++ x ∷ seen) (x ∷ xs ++ seen) ys
        (λ k. ground (arith, contains-append k xs (x ∷ seen), contains-append k xs seen)) in
    ground (arith, are_new-append (x ∷ seen) xs ys, swap)

-- No key twice, and none that was seen.
abbrev pub AreNew : List Key → List Key → Type 0
AreNew seen ks = (k : Key) → (count k ks ≤ 1) × (contains k seen ≡ true → count k ks ≡ 0)

pub are_new_iff : (seen ks : List Key) → (are_new seen ks ≡ true) ↔ AreNew seen ks
are_new_iff seen [] = (λ h k. (omega arith, λ _. refl), λ h. refl)
are_new_iff seen (k ∷ ks) =
    let rest = are_new_iff (k ∷ seen) ks in
    (
      λ h j.
          ground
            (arith, rest.0 (ground arith) j, ==_iff j k, ap (λ i. contains i seen) {x = j} {y = k}),
      λ h.
          let later =
            rest.1 λ j. ground (arith, h j, ==_iff j k, ap (λ i. count i ks) {x = j} {y = k}) in
          ground (arith, h k, ==_refl k, later),
    )

-- Whether the plan knows what an entry names.
unfoldable pub fits : LoadedPlan → RetryPlanEntry → Bool
fits plan e = is_ok (retry_spec plan "" [] e)

add_entries-ok :
    (plan : LoadedPlan) (id : String) (seen : List Key) (es : List RetryPlanEntry)
    → is_ok (add_entries plan id seen es) ≡ (all (fits plan) es && are_new seen (map entry_key es))
unfolding add_entries fits
add_entries-ok plan id seen [] = refl
add_entries-ok plan id seen (e ∷ es) =
    ground
      (arith, retry_spec-fresh plan id "" seen e, add_entries-ok plan id (entry_key e ∷ seen) es)

-- What the entries give: their keys, in order, with task ids of the plan.
pub record Gives (plan : LoadedPlan) (keys : List Key) (specs : List AttemptSpec) : Type 0 where
  pub placed : All (IsPlaced plan) specs
  pub same_keys : map key_of specs ≡ keys

add_entries-Gives :
    (plan : LoadedPlan) (id : String) (seen : List Key) (es : List RetryPlanEntry)
    → OnOk (Gives plan (map entry_key es)) (add_entries plan id seen es)
unfolding add_entries
add_entries-Gives plan id seen [] = record { placed = tt; same_keys = refl }
add_entries-Gives plan id seen (e ∷ es) =
    let rest = add_entries-Gives plan id (entry_key e ∷ seen) es in
    let G = Gives plan (map entry_key (e ∷ es)) in
    OnOk->>= G (retry_spec plan id seen e) _ λ s p.
      OnOk->>= G (add_entries plan id (entry_key e ∷ seen) es) _ λ specs q.
        let f = retry_spec-Fits plan id seen e s p in
        let g = of_ok (Gives plan (map entry_key es)) _ specs rest q in
        record {
          placed = (Fits-IsPlaced plan e s f, g.placed);
          same_keys = cc (Fits-key plan e s f, g.same_keys);
        }

-- Whether the plan takes a retry plan, but for keys that are not new.
unfoldable pub fits_plan : LoadedPlan → RetryPlanSnapshot → Bool
unfolding fits
fits_plan plan r = r.batch_id == plan.snapshot.batch_id && all (fits plan) r.entries

abbrev pub keys_of : List RetryPlanSnapshot → List Key
keys_of [] = []
keys_of (r ∷ rs) = map entry_key r.entries ++ keys_of rs

pub add_retries-ok :
    (plan : LoadedPlan) (seen : List Key) (rs : List RetryPlanSnapshot)
    → is_ok (add_retries plan seen rs) ≡ (all (fits_plan plan) rs && are_new seen (keys_of rs))
unfolding add_retries fits_plan
add_retries-ok plan seen [] = refl
add_retries-ok plan seen (r ∷ rs) = ground (
  arith,
  add_entries-ok plan r.retry_plan_id seen r.entries,
  add_retries-ok plan (map entry_key r.entries ++ seen) rs,
  are_new-append seen (map entry_key r.entries) (keys_of rs),
)

map-append_keys :
    (xs ys : List AttemptSpec) → map key_of (xs ++ ys) ≡ map key_of xs ++ map key_of ys
map-append_keys [] ys = refl
map-append_keys (x ∷ xs) ys = ap (λ ks. key_of x ∷ ks) (map-append_keys xs ys)

pub append-Gives :
    (plan : LoadedPlan) (ks js : List Key) (xs ys : List AttemptSpec)
    → Gives plan ks xs
    → Gives plan js ys
    → Gives plan (ks ++ js) (xs ++ ys)
append-Gives plan ks js xs ys g h = record {
  placed = All-append (IsPlaced plan) xs ys g.placed h.placed;
  same_keys = rw (map-append_keys xs ys, g.same_keys, h.same_keys) refl;
}

pub add_retries-Gives :
    (plan : LoadedPlan) (seen : List Key) (rs : List RetryPlanSnapshot)
    → OnOk (Gives plan (keys_of rs)) (add_retries plan seen rs)
unfolding add_retries
add_retries-Gives plan seen [] = record { placed = tt; same_keys = refl }
add_retries-Gives plan seen (r ∷ rs) =
    let next = map entry_key r.entries ++ seen in
    let first = add_entries-Gives plan r.retry_plan_id seen r.entries in
    let rest = add_retries-Gives plan next rs in
    let G = Gives plan (keys_of (r ∷ rs)) in
    OnOk->>= G (refuse (not (r.batch_id == plan.snapshot.batch_id)) _) _ λ _ _.
      OnOk->>= G (add_entries plan r.retry_plan_id seen r.entries) _ λ specs p.
        OnOk->>= G (add_retries plan next rs) _ λ more q.
          append-Gives plan (map entry_key r.entries) (keys_of rs) specs more
            (of_ok (Gives plan (map entry_key r.entries)) _ specs first p)
            (of_ok (Gives plan (keys_of rs)) _ more rest q)
