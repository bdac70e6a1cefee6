-- ===== src/Prelude/Result.antt =====
-- A Python call that returns a value or raises. An error carries the text of its exception.
use Prim.Native.String.{String}
use mathlib.Core.Path.{◌≡◌, refl, subst}
use mathlib.Core.Bool.{Bool, true, false}
use mathlib.Core.Option.{Option, none, some}

pub data Result {ℓ} (A : Type ℓ) : Type ℓ where
  ok : A → Result A
  err : String → Result A

-- `if refused: raise ValueError(e)`
abbrev pub refuse : Bool → String → Result (Unit {0})
refuse true e = err e
refuse false e = ok tt

abbrev pub or_raise {ℓ} : {A : Type ℓ} → Option A → String → Result A
or_raise none e = err e
or_raise (some a) e = ok a

infixl 5 ◌>>=◌ ◌>>◌
abbrev pub ◌>>=◌ {ℓ κ} : {V : Type ℓ} {W : Type κ} → Result V → (V → Result W) → Result W
(ok value) >>= next = next value
(err raised) >>= next = err raised

abbrev pub ◌>>◌ {ℓ} : {W : Type ℓ} → Result (Unit {0}) → Result W → Result W
check >> next = check >>= λ passed. next

abbrev pub is_ok {ℓ} : {A : Type ℓ} → Result A → Bool
is_ok (ok a) = true
is_ok (err e) = false

pub >>=-eq-ok {ℓ κ} :
    {V : Type ℓ} {W : Type κ} (call : Result V) (next : V → Result W) {result : W}
    → (call >>= next) ≡ ok result
    → (value : V) × (call ≡ ok value) × (next value ≡ ok result)
>>=-eq-ok (ok value) next returned = (value, refl, returned)
>>=-eq-ok (err raised) next returned = cc

-- Two continuations that agree on what the call returns.
pub bind_same {ℓ κ} :
    {V : Type ℓ} {W : Type κ} (call : Result V) (next other : V → Result W)
    → ((value : V) → call ≡ ok value → next value ≡ other value)
    → (call >>= next) ≡ (call >>= other)
bind_same (ok value) next other same = same value refl
bind_same (err raised) next other same = refl

-- A predicate of the value, where the call returns one.
abbrev pub OnOk {ℓ κ} : {V : Type ℓ} → (V → Type κ) → Result V → Type κ
OnOk P (ok value) = P value
OnOk P (err raised) = Unit

pub OnOk->>= {ℓ κ μ} :
    {V : Type ℓ} {W : Type κ} (P : W → Type μ) (call : Result V) (next : V → Result W)
    → ((value : V) → call ≡ ok value → OnOk P (next value))
    → OnOk P (call >>= next)
OnOk->>= P (ok value) next h = h value refl
OnOk->>= P (err raised) next h = tt

pub of_ok {ℓ κ} :
    {V : Type ℓ} (P : V → Type κ) (call : Result V) (value : V)
    → OnOk P call
    → call ≡ ok value
    → P value
of_ok P call value h p = subst (OnOk P) p h

pub is_ok-eq {ℓ} : {A : Type ℓ} (r : Result A) → is_ok r ≡ true → (a : A) × (r ≡ ok a)
is_ok-eq (ok a) h = (a, refl)
is_ok-eq (err e) h = cc
