-- ===== src/Prelude/Sort.antt =====
-- `sorted(xs, key=…)`: a stable insertion sort, and what it keeps.
use mathlib.Core.Path.{◌≡◌, refl}
use mathlib.Core.Bool.{Bool, true, false, ◌&&◌}
use mathlib.Core.List.{List, [], ◌∷◌, map}
use native.Mathlib.Omega.{arith}
use dispatcher_for_codex_age.Prelude.Tests.{Eq, ◌==◌, if◌then◌else◌}
use dispatcher_for_codex_age.Prelude.Lists.{All, all, count, count_if, length}

module _ {ℓ} {A : Type ℓ} (le : A → A → Bool) where
  unfoldable pub insert_sorted : A → List A → List A
  insert_sorted x [] = x ∷ []
  insert_sorted x (y ∷ ys) =
      let rest = insert_sorted x ys in if le x y then x ∷ y ∷ ys else y ∷ rest

  unfoldable pub sort : List A → List A
  unfolding insert_sorted
  sort [] = []
  sort (x ∷ xs) = insert_sorted x (sort xs)

  count_if-insert_sorted :
      (p : A → Bool) (x : A) (ys : List A) → count_if p (insert_sorted x ys) ≡ count_if p (x ∷ ys)
  unfolding insert_sorted
  count_if-insert_sorted p x [] = refl
  count_if-insert_sorted p x (y ∷ ys) = ground (arith, count_if-insert_sorted p x ys)

  pub count_if-sort : (p : A → Bool) (xs : List A) → count_if p (sort xs) ≡ count_if p xs
  unfolding sort
  count_if-sort p [] = refl
  count_if-sort p (x ∷ xs) =
      ground (arith, count_if-sort p xs, count_if-insert_sorted p x (sort xs))

  length-insert_sorted : (x : A) (ys : List A) → length (insert_sorted x ys) ≡ length (x ∷ ys)
  unfolding insert_sorted
  length-insert_sorted x [] = refl
  length-insert_sorted x (y ∷ ys) = ground (arith, length-insert_sorted x ys)

  pub length-sort : (xs : List A) → length (sort xs) ≡ length xs
  unfolding sort
  length-sort [] = refl
  length-sort (x ∷ xs) = ground (arith, length-sort xs, length-insert_sorted x (sort xs))

  all-insert_sorted :
      (p : A → Bool) (x : A) (ys : List A) → all p (insert_sorted x ys) ≡ (p x && all p ys)
  unfolding insert_sorted
  all-insert_sorted p x [] = refl
  all-insert_sorted p x (y ∷ ys) = ground (arith, all-insert_sorted p x ys)

  pub all-sort : (p : A → Bool) (xs : List A) → all p (sort xs) ≡ all p xs
  unfolding sort
  all-sort p [] = refl
  all-sort p (x ∷ xs) = ground (arith, all-sort p xs, all-insert_sorted p x (sort xs))

module _ {ℓ κ} {A : Type ℓ} (P : A → Type κ) (le : A → A → Bool) where
  All-insert_sorted : (x : A) (ys : List A) → P x → All P ys → All P (insert_sorted le x ys)
  unfolding insert_sorted
  All-insert_sorted x [] h k = (h, tt)
  All-insert_sorted x (y ∷ ys) h k =
      let rest = All-insert_sorted x ys h k.1 in
      elim (le x y) as (λ b. All P (if b then x ∷ y ∷ ys else y ∷ insert_sorted le x ys)) [
        | true ↦ (h, k)
        | false ↦ (k.0, rest)
      ]

  pub All-sort : (xs : List A) → All P xs → All P (sort le xs)
  unfolding sort
  All-sort [] h = tt
  All-sort (x ∷ xs) h = All-insert_sorted x (sort le xs) h.0 (All-sort xs h.1)

-- Counting a key in the list of keys is counting the entries that have it.
pub count-map {ℓ κ} :
    {A : Type ℓ} {B : Type κ} ⦃e : Eq B⦄ (f : A → B) (k : B) (xs : List A)
    → count k (map f xs) ≡ count_if (λ x. k == f x) xs
count-map f k [] = refl
count-map f k (x ∷ xs) = ground (arith, count-map f k xs)

count-eq-count_if {ℓ} :
    {A : Type ℓ} ⦃e : Eq A⦄ (k : A) (xs : List A) → count k xs ≡ count_if (λ x. k == x) xs
count-eq-count_if k [] = refl
count-eq-count_if k (x ∷ xs) = ground (arith, count-eq-count_if k xs)

-- A sorted list holds the same values, as often.
pub count-sort {ℓ} :
    {A : Type ℓ} ⦃e : Eq A⦄ (le : A → A → Bool) (k : A) (xs : List A)
    → count k (sort le xs) ≡ count k xs
count-sort le k xs =
    rw (count-eq-count_if k (sort le xs))
      (rw (count-eq-count_if k xs) (count_if-sort le (λ x. k == x) xs))
