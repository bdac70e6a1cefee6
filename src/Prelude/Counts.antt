-- ===== src/Prelude/Counts.antt =====
-- Lists by how often they have each value.
use Prim.Native.Nat.{suc, ◌≤◌}
use mathlib.Core.Path.{◌≡◌, refl, ap}
use mathlib.Core.Bool.{true, false}
use mathlib.Core.List.{List, [], ◌∷◌}
use native.Mathlib.Omega.{arith}
use dispatcher_for_codex_age.Prelude.Tests.{Eq, ◌==◌, ==_refl, if◌then◌else◌, nat_eq}
use dispatcher_for_codex_age.Prelude.Lists.{
  length, all, contains, count, is_unique, count-zero, count-pos,
}

module _ {ℓ} {A : Type ℓ} ⦃e : Eq A⦄ where
  -- The list without the first `k`.
  unfoldable pub remove : A → List A → List A
  remove k [] = []
  remove k (x ∷ xs) = let rest = remove k xs in if k == x then xs else x ∷ rest

  length-remove :
      (k : A) (xs : List A) → contains k xs ≡ true → length xs ≡ suc (length (remove k xs))
  unfolding remove
  length-remove k [] h = cc
  length-remove k (x ∷ xs) h = ground (arith, length-remove k xs)

  count-remove_self :
      (k : A) (xs : List A) → contains k xs ≡ true → count k xs ≡ suc (count k (remove k xs))
  unfolding remove
  count-remove_self k [] h = cc
  count-remove_self k (x ∷ xs) h = ground (arith, count-remove_self k xs)

  count-remove_other :
      (j k : A) (xs : List A) → (j == k) ≡ false → count j (remove k xs) ≡ count j xs
  unfolding remove
  count-remove_other j k [] h = refl
  count-remove_other j k (x ∷ xs) h =
      ground (arith, e.beq_iff j x, e.beq_iff k x, e.beq_iff j k, count-remove_other j k xs h)

  contains-remove :
      (j k : A) (xs : List A) → (j == k) ≡ false → contains j (remove k xs) ≡ contains j xs
  unfolding remove
  contains-remove j k [] h = refl
  contains-remove j k (x ∷ xs) h =
      ground (arith, e.beq_iff j x, e.beq_iff k x, e.beq_iff j k, contains-remove j k xs h)

  within-remove :
      (k : A) (xs ys : List A)
      → contains k xs ≡ false
      → all (λ x. contains x ys) xs ≡ true
      → all (λ x. contains x (remove k ys)) xs ≡ true
  within-remove k [] ys h p = refl
  within-remove k (x ∷ xs) ys h p =
      ground (arith, e.beq_iff k x, e.beq_iff x k, contains-remove x k ys, within-remove k xs ys)

  count_cons :
      (j k : A) (xs : List A) → contains k xs ≡ true → count j xs ≡ count j (k ∷ remove k xs)
  count_cons j k xs h = ground (
    arith,
    e.beq_iff j k,
    ap (λ a. count a xs) {x = j} {y = k},
    ap (λ a. count a (remove k xs)) {x = j} {y = k},
    count-remove_self k xs h,
    count-remove_other j k xs,
  )

  -- A list without duplicates within a list of its length has the same values.
  pub counts_within :
      (xs ys : List A)
      → is_unique xs ≡ true
      → all (λ x. contains x ys) xs ≡ true
      → length xs ≡ length ys
      → (k : A) → count k xs ≡ count k ys
  counts_within [] [] u p q k = refl
  counts_within [] (y ∷ ys) u p q k = absurd (omega (arith, q))
  counts_within (x ∷ xs) ys u p q k =
      let rest =
        counts_within xs (remove x ys) (ground arith)
          (within-remove x xs ys (ground arith) (ground arith)) (ground (arith, length-remove x ys))
          k in
      ground (arith, rest, count_cons k x ys (ground arith))

  pub counts-length : (xs ys : List A) → ((k : A) → count k xs ≡ count k ys) → length xs ≡ length ys
  counts-length [] [] h = refl
  counts-length [] (y ∷ ys) h = absurd (ground (arith, h y, ==_refl y))
  counts-length (x ∷ xs) ys h =
      let found : contains x ys ≡ true = ground (arith, h x, ==_refl x, count-zero x ys) in
      let rest =
        counts-length xs (remove x ys) (λ k. ground (arith, h k, count_cons k x ys found)) in
      omega (arith, rest, length-remove x ys found)

  pub counts_unique : (xs : List A) → ((k : A) → count k xs ≤ 1) → is_unique xs ≡ true
  counts_unique [] h = refl
  counts_unique (x ∷ xs) h =
      ground (arith, h x, ==_refl x, count-pos x xs, counts_unique xs (λ k. ground (arith, h k)))
