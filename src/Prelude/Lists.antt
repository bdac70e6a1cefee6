-- ===== src/Prelude/Lists.antt =====
-- Lists measured by native numbers, and Python's tests over them.
use Prim.Native.Nat.{ℕ, suc, ◌+◌, ◌≤◌, ◌<◌}
use mathlib.Core.Path.{◌≡◌, refl, ap}
use mathlib.Core.Bool.{Bool, true, false, ◌&&◌, ◌||◌, not}
use mathlib.Core.List.{List, [], ◌∷◌, ◌++◌}
use native.Mathlib.Omega.{arith}
use dispatcher_for_codex_age.Prelude.Tests.{Eq, ◌==◌, if◌then◌else◌}

module _ {ℓ} {A : Type ℓ} where
  -- `len(xs)`
  abbrev pub length : List A → ℕ
  length [] = 0
  length (x ∷ xs) = suc (length xs)

  -- `any(p(x) for x in xs)`
  abbrev pub any : (A → Bool) → List A → Bool
  any p [] = false
  any p (x ∷ xs) = p x || any p xs

  -- `all(p(x) for x in xs)`
  abbrev pub all : (A → Bool) → List A → Bool
  all p [] = true
  all p (x ∷ xs) = p x && all p xs

  -- `[x for x in xs if p(x)]`
  abbrev pub filter : (A → Bool) → List A → List A
  filter p [] = []
  filter p (x ∷ xs) = let rest = filter p xs in if p x then x ∷ rest else rest

  -- `sum(p(x) for x in xs)`
  abbrev pub count_if : (A → Bool) → List A → ℕ
  count_if p [] = 0
  count_if p (x ∷ xs) = let rest = count_if p xs in if p x then suc rest else rest

  pub length-append : (xs ys : List A) → length (xs ++ ys) ≡ length xs + length ys
  length-append [] ys = omega arith
  length-append (x ∷ xs) ys = omega (arith, length-append xs ys)

  pub count_if-append :
      (p : A → Bool) (xs ys : List A) → count_if p (xs ++ ys) ≡ count_if p xs + count_if p ys
  count_if-append p [] ys = omega arith
  count_if-append p (x ∷ xs) ys = ground (arith, count_if-append p xs ys)

  pub any-append : (p : A → Bool) (xs ys : List A) → any p (xs ++ ys) ≡ (any p xs || any p ys)
  any-append p [] ys = refl
  any-append p (x ∷ xs) ys = ground (arith, any-append p xs ys)

  pub any-last : (p : A → Bool) (xs : List A) (y : A) → p y ≡ true → any p (xs ++ y ∷ []) ≡ true
  any-last p [] y h = ground arith
  any-last p (x ∷ xs) y h = ground (arith, any-last p xs y h)

-- A predicate that holds of every member.
abbrev pub All {ℓ κ} : {A : Type ℓ} → (A → Type κ) → List A → Type κ
All P [] = Unit
All P (x ∷ xs) = P x × All P xs

module _ {ℓ κ} {A : Type ℓ} (P : A → Type κ) where
  pub All-append : (xs ys : List A) → All P xs → All P ys → All P (xs ++ ys)
  All-append [] ys h k = k
  All-append (x ∷ xs) ys h k = (h.0, All-append xs ys h.1 k)

  pub All-filter : (p : A → Bool) (xs : List A) → All P xs → All P (filter p xs)
  All-filter p [] h = tt
  All-filter p (x ∷ xs) h =
      let rest = All-filter p xs h.1 in
      elim (p x) as (λ b. All P (if b then x ∷ filter p xs else filter p xs)) [
        | true ↦ (h.0, rest)
        | false ↦ rest
      ]

  pub All-imp : {Q : A → Type κ} (xs : List A) → ((x : A) → P x → Q x) → All P xs → All Q xs
  All-imp [] f h = tt
  All-imp (x ∷ xs) f h = (f x h.0, All-imp xs f h.1)

module _ {ℓ} {A : Type ℓ} ⦃e : Eq A⦄ where
  -- `k in xs`
  abbrev pub contains : A → List A → Bool
  contains k [] = false
  contains k (x ∷ xs) = k == x || contains k xs

  -- `xs.count(k)`
  abbrev pub count : A → List A → ℕ
  count k [] = 0
  count k (x ∷ xs) = let rest = count k xs in if k == x then suc rest else rest

  -- `len(xs) == len(set(xs))`
  abbrev pub is_unique : List A → Bool
  is_unique [] = true
  is_unique (x ∷ xs) = not (contains x xs) && is_unique xs

  pub count-append : (k : A) (xs ys : List A) → count k (xs ++ ys) ≡ count k xs + count k ys
  count-append k [] ys = omega arith
  count-append k (x ∷ xs) ys = ground (arith, count-append k xs ys)

  pub count-zero : (k : A) (xs : List A) → contains k xs ≡ false → count k xs ≡ 0
  count-zero k [] h = refl
  count-zero k (x ∷ xs) h = ground (arith, count-zero k xs)

  pub count-pos : (k : A) (xs : List A) → contains k xs ≡ true → 0 < count k xs
  count-pos k [] h = cc
  count-pos k (x ∷ xs) h = ground (arith, count-pos k xs)

  -- Without duplicates every value occurs at most once.
  pub count_unique : (k : A) (xs : List A) → is_unique xs ≡ true → count k xs ≤ 1
  count_unique k [] h = omega arith
  count_unique k (x ∷ xs) h = ground (
    arith,
    count_unique k xs,
    count-zero k xs,
    e.beq_iff k x,
    ap (λ a. contains a xs) {x = k} {y = x},
  )

pub length_zero {ℓ} : {A : Type ℓ} (xs : List A) → length xs ≡ 0 → xs ≡ []
length_zero [] h = refl
length_zero (x ∷ xs) h = ground arith
