-- ===== src/Batch/Retry/Listed.antt =====
-- A new retry plan leaves a batch whose attempts can be listed: the old ones and those it asks for.
use mathlib.Core.Path.{subst}
use dispatcher_for_codex_age.Prelude.{
  ℕ, ◌+◌, ◌≤◌, String, ◌≡◌, refl, ap, ◌↔◌, sym, ◌∙◌, true, ◌&&◌, ◌==◌, Option, none, some, List, [],
  ◌∷◌, ◌++◌, map, all, contains, count, count-append, count-pos, count-zero, ==_iff, ==_refl,
  string_eq, list_eq, arith,
}
use dispatcher_for_codex_age.Prelude.Result.{ok, is_ok, refuse, or_raise, of_ok, >>=-eq-ok}
use dispatcher_for_codex_age.Batch.{
  LoadedPlan, AttemptSpec, RetryPlanEntry, RetryDirectory, Key, key_of,
}
use dispatcher_for_codex_age.Batch.Attempts.{
  all_attempt_specs, load_retry_plan, entry_key, entry_row,
}
use dispatcher_for_codex_age.Batch.Attempts.Entries.{fits, fits_plan, AreNew}
use dispatcher_for_codex_age.Batch.Attempts.Loading.{
  loads, retried, all_attempt_specs_iff, IsListed, all_attempt_specs-IsListed,
}
use dispatcher_for_codex_age.Batch.Retry.{
  Identity, Batch, Tsv, RetryRequest, RetryRequestEntry, check_request, plan_entries,
  retry_directory, retry_names, create_retry_plan,
}
use dispatcher_for_codex_age.Batch.Retry.Requested.{
  IsRequest, check_request-id, check_request-IsRequest, AllNew-keys,
}
use dispatcher_for_codex_age.Batch.Retry.Entry.{new_key, AllNew, plan_entries-AllNew}

-- The new directory loads if its ledger reads as it was written.
directory_loads :
    (plan : LoadedPlan) (id : String) (entries : List RetryPlanEntry) (ledger : List (List String))
    → all (fits plan) entries ≡ true
    → loads plan (id, retry_directory plan id entries ledger) ≡ (map entry_row entries == ledger)
unfolding load_retry_plan fits_plan
directory_loads plan id entries ledger h =
    ground (arith, ==_refl id, ==_refl plan.snapshot.batch_id)

retried-append :
    (k : Key) (ds : List (String × RetryDirectory)) (d : String × RetryDirectory)
    → count k (retried (ds ++ d ∷ []))
      ≡ count k (retried ds) + count k (map entry_key d.1.snapshot.entries)
retried-append k [] d = omega (arith, count-append k (map entry_key d.1.snapshot.entries) [])
retried-append k (x ∷ xs) d =
    let keys = map entry_key x.1.snapshot.entries in
    omega (
      arith,
      retried-append k xs d,
      count-append k keys (retried xs),
      count-append k keys (retried (xs ++ d ∷ [])),
    )

loads-append :
    (plan : LoadedPlan) (ds : List (String × RetryDirectory)) (d : String × RetryDirectory)
    → all (loads plan) (ds ++ d ∷ []) ≡ (all (loads plan) ds && loads plan d)
loads-append plan [] d = ground arith
loads-append plan (x ∷ xs) d = ground (arith, loads-append plan xs d)

-- The attempts of a batch with one more retry plan, whose entries are new.
module _ (plan : LoadedPlan) (ds : List (String × RetryDirectory)) (id : String)
    (before : List AttemptSpec) (es : List RetryRequestEntry) (entries : List RetryPlanEntry)
    (ledger : List (List String)) (listed : all_attempt_specs plan ds ≡ ok before)
    (once : (k : Key) → count k (map new_key es) ≤ 1) (new : AllNew plan before es entries) where
  more : List (String × RetryDirectory)
  more = ds ++ (id, retry_directory plan id entries ledger) ∷ []

  more_listed :
      (is_ok (all_attempt_specs plan more) ≡ true) ↔ ((map entry_row entries == ledger) ≡ true)
  unfolding more
  more_listed =
      let known = of_ok (IsListed plan ds) _ before (all_attempt_specs-IsListed plan ds) listed in
      let old = (all_attempt_specs_iff plan ds known.base known.planned).0 (rw listed refl) in
      let d : String × RetryDirectory = (id, retry_directory plan id entries ledger) in
      let keys = AllNew-keys plan before es entries new in
      let now = all_attempt_specs_iff plan (ds ++ d ∷ []) known.base known.planned in
      let loaded = directory_loads plan id entries ledger keys.1 in
      let both = loads-append plan ds d in
      (
        λ h. let parts = now.0 h in ground (arith, both, loaded, parts.0),
        λ h. now.1 (
          ground (arith, both, old.0, loaded, h),
          λ k. ground (
            arith,
            old.1 k,
            known.each k,
            retried-append k ds d,
            once k,
            ap (count k) keys.0,
            keys.2 k,
            count-zero k (map key_of before),
            count-pos k (map key_of known.base),
          ),
        ),
      )

  more-each :
      (after : List AttemptSpec)
      → all_attempt_specs plan more ≡ ok after
      → (k : Key)
      → count k (map key_of after) ≡ count k (map key_of before) + count k (map new_key es)
  unfolding more
  more-each after p k =
      let d : String × RetryDirectory = (id, retry_directory plan id entries ledger) in
      let old = of_ok (IsListed plan ds) _ before (all_attempt_specs-IsListed plan ds) listed in
      let now = of_ok (IsListed plan more) _ after (all_attempt_specs-IsListed plan more) p in
      let same : now.base ≡ old.base = ground (arith, now.planned, old.planned) in
      let keys = AllNew-keys plan before es entries new in
      omega (
        arith,
        old.each k,
        now.each k,
        retried-append k ds d,
        ap (λ b. count k (map key_of b)) same,
        ap (count k) keys.0,
      )

  keys-AreNew : AreNew (map key_of before) (map new_key es)
  keys-AreNew k =
      let keys = AllNew-keys plan before es entries new in
      ground (arith, once k, keys.2 k, ap (count k) keys.0)

-- The keys that a request asks for.
abbrev pub requested : RetryRequest → List Key
requested document = map new_key document.entries

-- What a batch has after a retry plan was made, of these entries.
pub record IsExtended (tsv : Tsv) (plan : LoadedPlan) (document : RetryRequest)
    (before : List AttemptSpec) (b c : Batch) : Type 0 where
  pub entries : List RetryPlanEntry
  pub added :
      (ledger : List (List String)) × (tsv (map entry_row entries) ≡ some ledger)
      × (c.retry_plans
          ≡ b.retry_plans
            ++ (document.retry_plan_id, retry_directory plan document.retry_plan_id entries ledger)
              ∷ [])
  pub listable :
      (is_ok (all_attempt_specs plan c.retry_plans) ≡ true)
      ↔ (tsv (map entry_row entries) ≡ some (map entry_row entries))
  pub each :
      (after : List AttemptSpec)
      → all_attempt_specs plan c.retry_plans ≡ ok after
      → (k : Key)
      → count k (map key_of after) ≡ count k (map key_of before) + count k (requested document)
  pub new : AreNew (map key_of before) (requested document)

same_ledger :
    (found : Option (List (List String))) (rows ledger : List (List String))
    → found ≡ some ledger
    → ((rows == ledger) ≡ true) ↔ (found ≡ some rows)
same_ledger found rows ledger h =
    (λ e. h ∙ ap some (sym ((==_iff rows ledger).0 e)), λ e. (==_iff rows ledger).1 (cc (h, e)))

iff_trans {ℓ} : {A B C : Type ℓ} → (A ↔ B) → (B ↔ C) → (A ↔ C)
iff_trans f g = (λ a. g.0 (f.0 a), λ c. f.1 (g.1 c))

entries_listed :
    (tsv : Tsv) (plan : LoadedPlan) (document request : RetryRequest) (b : Batch)
    (before : List AttemptSpec) (entries : List RetryPlanEntry) (ledger : List (List String))
    → all_attempt_specs plan b.retry_plans ≡ ok before
    → request.retry_plan_id ≡ document.retry_plan_id
    → IsRequest document.entries request.entries
    → AllNew plan before request.entries entries
    → tsv (map entry_row entries) ≡ some ledger
    → IsExtended tsv plan document before b (record b {
      retry_plans =
          b.retry_plans
          ++ (request.retry_plan_id, retry_directory plan request.retry_plan_id entries ledger)
            ∷ [];
    })
unfolding more
entries_listed tsv plan document request b before entries ledger listed id r new wrote =
    let es = request.entries in
    let now =
      more_listed plan b.retry_plans request.retry_plan_id before es entries ledger listed r.once
        new in
    record {
      entries = entries;
      added = (ledger, wrote, rw id refl);
      listable = iff_trans now (same_ledger (tsv (map entry_row entries)) _ ledger wrote);
      each = λ after p k. rw (← r.same_keys) (
          more-each plan b.retry_plans request.retry_plan_id before es entries ledger listed r.once
            new after p k);
      new = λ k. rw (← r.same_keys) (
          keys-AreNew plan b.retry_plans request.retry_plan_id before es entries ledger listed
            r.once new k);
    }

or_raise-some {ℓ} :
    {A : Type ℓ} (o : Option A) (e : String) (a : A) → or_raise o e ≡ ok a → o ≡ some a
or_raise-some none e a h = cc
or_raise-some (some x) e a h = cc

-- If a retry plan is made, its directory is added; the attempts of the batch can be listed again
-- exactly if Python's csv reader gives back the rows of its ledger as they were written; and, whatever
-- the names of the retry plans, the list then has the attempts from before and one for each entry of
-- the request, none of which was there before or stands in the request twice.
pub create_retry_plan-IsExtended :
    (strip : String → String) (tsv : Tsv) (running : ℕ → Option Identity) (plan : LoadedPlan)
    (document : RetryRequest) (b c : Batch) (before : List AttemptSpec)
    → all_attempt_specs plan b.retry_plans ≡ ok before
    → create_retry_plan strip tsv running plan document b ≡ ok c
    → IsExtended tsv plan document before b c
unfolding create_retry_plan
create_retry_plan-IsExtended strip tsv running plan document b c before listed h =
    let (request, p, h1) = >>=-eq-ok (check_request strip document) _ h in
    let (_, q, h2) = >>=-eq-ok (refuse (contains request.retry_plan_id (retry_names b)) _) _ h1 in
    let (all_specs, l, h3) = >>=-eq-ok (all_attempt_specs plan b.retry_plans) _ h2 in
    let (entries, e, h4) = >>=-eq-ok (plan_entries running b all_specs request.entries) _ h3 in
    let (ledger, w, h5) = >>=-eq-ok (or_raise (tsv (map entry_row entries)) _) _ h4 in
    let same : all_specs ≡ before = ground (arith, l, listed) in
    let placed =
      (of_ok (IsListed plan b.retry_plans) _ all_specs
        (all_attempt_specs-IsListed plan b.retry_plans) l).placed in
    let new =
      of_ok (AllNew plan all_specs request.entries) _ entries
        (plan_entries-AllNew plan running b all_specs request.entries placed) e in
    subst (IsExtended tsv plan document before b) (ground (arith, h5)) (
      entries_listed tsv plan document request b before entries ledger listed
        (check_request-id strip document request p)
        (check_request-IsRequest strip document request p)
        (subst (λ s. AllNew plan s request.entries entries) same new) (or_raise-some _ _ ledger w))
