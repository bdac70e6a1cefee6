-- ===== src/Batch/Audit/Coverage.antt =====
-- The audit of a profile passes exactly if its rows have every planned record once.
use dispatcher_for_codex_age.Prelude.{
  ◌≤◌, String, ◌≡◌, refl, ◌↔◌, ap, sym, ◌∙◌, Bool, true, not, ◌&&◌, List, [], ◌∷◌, contains, length,
  filter, all, count, is_unique, ◌==◌, ==_iff, nat_eq, string_eq, arith, count-zero, count-pos,
  count_unique, if◌then◌else◌,
}
use dispatcher_for_codex_age.Prelude.Sort.{sort, length-sort}
use dispatcher_for_codex_age.Prelude.Text.{text_leb}
use dispatcher_for_codex_age.Runtime.Coverage.ExactOnce.{is_covered, covered-counts, counts-covered}
use dispatcher_for_codex_age.Batch.{ProfileRole, LoadedPlan}
use dispatcher_for_codex_age.Batch.Collect.{Collected}
use dispatcher_for_codex_age.Batch.Audit.{
  distinct, ids_in, planned_ids, observed_of, coverage_row, is_empty, missing_ids, extra_ids,
  duplicate_ids,
}

is_empty-sort : (xs : List String) → is_empty (sort text_leb xs) ≡ is_empty xs
is_empty-sort xs = same (sort text_leb xs) xs (length-sort text_leb xs)
  where
    same : (ys zs : List String) → length ys ≡ length zs → is_empty ys ≡ is_empty zs
    same [] [] h = refl
    same [] (z ∷ zs) h = absurd (omega (arith, h))
    same (y ∷ ys) [] h = absurd (omega (arith, h))
    same (y ∷ ys) (z ∷ zs) h = refl

none_left :
    (p : String → Bool) (xs : List String) → is_empty (filter (λ k. not (p k)) xs) ≡ all p xs
none_left p [] = refl
none_left p (x ∷ xs) = ground (arith, none_left p xs)

contains-distinct : (k : String) (xs : List String) → contains k (distinct xs) ≡ contains k xs
contains-distinct k [] = refl
contains-distinct k (x ∷ xs) =
    ground (
      arith,
      contains-distinct k xs,
      ==_iff k x,
      ap (λ j. contains j (distinct xs)) {x = k} {y = x},
    )

pub distinct_unique : (xs : List String) → is_unique (distinct xs) ≡ true
distinct_unique [] = refl
distinct_unique (x ∷ xs) = ground (arith, distinct_unique xs)

all_at :
    (p : String → Bool) (xs : List String) (k : String)
    → all p xs ≡ true
    → contains k xs ≡ true
    → p k ≡ true
all_at p [] k h q = cc
all_at p (x ∷ xs) k h q = ground (arith, ==_iff k x, ap p {x = k} {y = x}, all_at p xs k)

all-distinct : (p : String → Bool) (xs : List String) → all p (distinct xs) ≡ all p xs
all-distinct p [] = refl
all-distinct p (x ∷ xs) = ground (arith, all-distinct p xs, all_at p (distinct xs) x)

-- The audit's tests are those of `is_covered`.
row_tests :
    (planned : List String) (p : ProfileRole) (c : Collected)
    → (coverage_row planned p c).passed ≡ (is_covered planned (observed_of c) && is_empty c.errors)
unfolding coverage_row
row_tests planned p c =
    let observed = observed_of c in
    ground (
      arith,
      is_empty-sort (missing_ids planned observed),
      is_empty-sort (extra_ids planned observed),
      is_empty-sort (duplicate_ids observed),
      none_left (λ k. contains k observed) planned,
      none_left (λ k. contains k planned) (distinct observed),
      none_left (λ k. count k observed == 1) (distinct observed),
      all-distinct (λ k. contains k planned) observed,
      all-distinct (λ k. count k observed == 1) observed,
    )

pub count-planned :
    (plan : LoadedPlan) (k : String)
    → count k (planned_ids plan) ≡ (if contains k (ids_in plan.shards) then 1 else 0)
count-planned plan k =
    let planned = planned_ids plan in
    ground (
      arith,
      contains-distinct k (ids_in plan.shards),
      count_unique k planned (distinct_unique (ids_in plan.shards)),
      count-zero k planned,
      count-pos k planned,
    )

-- The audit of a profile passes exactly if it has no error, and every planned record is collected
-- once and no other.
pub coverage_row_iff :
    (plan : LoadedPlan) (p : ProfileRole) (c : Collected)
    → ((coverage_row (planned_ids plan) p c).passed ≡ true) ↔ (
        (is_empty c.errors ≡ true)
        × ((k : String)
            → count k (observed_of c) ≡ (if contains k (ids_in plan.shards) then 1 else 0)))
coverage_row_iff plan p c =
    let planned = planned_ids plan in
    let observed = observed_of c in
    let tests = row_tests planned p c in
    (
      λ h. (
        ground arith,
        λ k. (covered-counts planned observed (ground arith) k).0 ∙ count-planned plan k,
      ),
      λ h.
          let same : (k : String) → count k observed ≡ count k planned =
            λ k. h.1 k ∙ sym (count-planned plan k) in
          let once : (k : String) → count k observed ≤ 1 = λ k.
            omega (arith, same k, count_unique k planned (distinct_unique (ids_in plan.shards))) in
          ground (arith, counts-covered planned observed (λ k. (same k, once k))),
    )
