-- ===== src/Runtime/Coverage/ExactOnce.antt =====
-- The coverage test passes exactly for outputs with every record once.
use dispatcher_for_codex_age.Prelude.{
  ◌≤◌, String, ◌≡◌, refl, ap, ◌↔◌, Bool, true, false, not, ◌&&◌, List, [], ◌∷◌, length, any, all,
  filter, map, contains, count, count-zero, count-pos, ◌==◌, ==_iff, ==_refl, nat_eq, string_eq,
  arith,
}
use dispatcher_for_codex_age.Prelude.Counts.{counts_within, counts-length, counts_unique}
use dispatcher_for_codex_age.Prelude.Result.{ok}
use dispatcher_for_codex_age.Json.{Items, Fields, str, arr, obj, elements, get}
use dispatcher_for_codex_age.Runtime.Coverage.{
  observed_ids, is_missing, is_unhashable, is_text, is_none, is_expected, validate_coverage,
}

-- Each of the names is observed.
covered :
    (names observed : List String)
    → any (is_missing observed) (map str names) ≡ not (all (λ n. contains n observed) names)
covered [] observed = refl
covered (n ∷ names) observed = ground (arith, covered names observed)

expected : (names : List String) (k : String) → is_expected (map str names) k ≡ contains k names
expected [] k = refl
expected (n ∷ names) k = ground (arith, expected names k)

all_expected :
    (names observed : List String)
    → all (is_expected (map str names)) observed ≡ all (λ k. contains k names) observed
all_expected names [] = refl
all_expected names (k ∷ ks) = ground (arith, expected names k, all_expected names ks)

length_texts : (names : List String) → length (map str names) ≡ length names
length_texts [] = refl
length_texts (n ∷ names) = ground (arith, length_texts names)

all_at :
    (p : String → Bool) (xs : List String) (k : String)
    → all p xs ≡ true
    → contains k xs ≡ true
    → p k ≡ true
all_at p [] k h q = cc
all_at p (x ∷ xs) k h q = ground (arith, ==_iff k x, ap p {x = k} {y = x}, all_at p xs k)

all_each :
    (p : String → Bool) (xs : List String)
    → ((k : String) → contains k xs ≡ true → p k ≡ true)
    → all p xs ≡ true
all_each p [] h = refl
all_each p (x ∷ xs) h =
    ground (arith, h x (ground (arith, ==_refl x)), all_each p xs (λ k q. h k (ground (arith, q))))

-- No observed id is a duplicate.
once_each :
    (xs : List String) → all (λ k. count k xs == 1) xs ≡ true → (k : String) → count k xs ≤ 1
once_each xs h k = ground (arith, count-zero k xs, all_at (λ a. count a xs == 1) xs k h)

-- Texts can be hashed and sorted.
no_unhashable : (names : List String) → any is_unhashable (map str names) ≡ false
no_unhashable [] = refl
no_unhashable (n ∷ names) = ground (arith, no_unhashable names)

no_mixture :
    (observed names : List String)
    → let missing = filter (is_missing observed) (map str names) in
      (any (λ m. not (is_text m)) missing ≡ false) × (any is_none missing ≡ false)
no_mixture observed [] = (refl, refl)
no_mixture observed (n ∷ names) = ground (arith, no_mixture observed names)

-- The four tests, for text ids.
abbrev pub is_covered : List String → List String → Bool
is_covered names observed =
    length observed == length names
    && all (λ n. contains n observed) names
    && all (λ k. contains k names) observed
    && all (λ k. count k observed == 1) observed

by_tests :
    (names : List String) (fields : Fields) (results : Items)
    → get "results" fields ≡ arr results
    → (validate_coverage (map str names) (obj fields) ≡ ok "PASS")
      ↔ (is_covered names (observed_ids (elements results)) ≡ true)
unfolding validate_coverage
by_tests names fields results p =
    let observed = observed_ids (elements results) in
    rw (p, validate_coverage)
      (
        λ h. ground (
          arith,
          no_unhashable names,
          no_mixture observed names,
          covered names observed,
          all_expected names observed,
          length_texts names,
        ),
        λ h. ground (
          arith,
          no_unhashable names,
          no_mixture observed names,
          covered names observed,
          all_expected names observed,
          length_texts names,
        ),
      )

module _ (names observed : List String) where
  pub covered-counts :
      is_covered names observed ≡ true
      → (k : String) → (count k observed ≡ count k names) × (count k observed ≤ 1)
  covered-counts h k =
      let once = once_each observed (ground arith) in
      (
        counts_within observed names (counts_unique observed once) (ground arith)
            (ground (arith, ==_iff (length observed) (length names))) k,
        once k,
      )

  pub counts-covered :
      ((k : String) → (count k observed ≡ count k names) × (count k observed ≤ 1))
      → is_covered names observed ≡ true
  counts-covered h =
      let len = counts-length observed names (λ k. (h k).0) in
      let here =
        all_each (λ n. contains n observed) names
          (λ k q. ground (arith, h k, count-pos k names q, count-zero k observed)) in
      let known =
        all_each (λ k. contains k names) observed
          (λ k q. ground (arith, h k, count-pos k observed q, count-zero k names)) in
      let once =
        all_each (λ k. count k observed == 1) observed
          (λ k q. ground (arith, h k, count-pos k observed q)) in
      ground (arith, len, here, known, once)

-- For text ids, the test on an array of results passes exactly if every id is observed as often as
-- it is asked for, and at most once.
pub validate_coverage_iff :
    (names : List String) (fields : Fields) (results : Items)
    → get "results" fields ≡ arr results
    → let observed = observed_ids (elements results) in
      (validate_coverage (map str names) (obj fields) ≡ ok "PASS")
      ↔ ((k : String) → (count k observed ≡ count k names) × (count k observed ≤ 1))
validate_coverage_iff names fields results p =
    let tests = by_tests names fields results p in
    let observed = observed_ids (elements results) in
    (λ h. covered-counts names observed (tests.0 h), λ h. tests.1 (counts-covered names observed h))
