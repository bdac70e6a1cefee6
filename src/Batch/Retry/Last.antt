-- ===== src/Batch/Retry/Last.antt =====
-- The last attempt of a shard in the list of a batch, and what a status says of it.
use mathlib.Core.Path.{subst}
use dispatcher_for_codex_age.Prelude.{
  String, ◌≡◌, ◌≢◌, refl, sym, ap, ◌∙◌, Bool, true, false, Option, none, some, List, [], ◌∷◌, ◌++◌,
  All, any, filter, arith, ◌==◌, ==_iff, ==_refl, string_eq, list_eq, Bool-cases, Option-cases, inl,
  inr,
}
use dispatcher_for_codex_age.Batch.{AttemptSpec, key_of, classify_attempt, Status, planned, success}
use dispatcher_for_codex_age.Batch.Retry.{
  Batch, find_spec, last_spec, is_sibling, is_success, is_retryable,
}
use dispatcher_for_codex_age.Batch.Retry.Entry.{is_latest}

-- No attempt of the shard follows this one in a list.
pub record IsLast (p s : String) (specs : List AttemptSpec) (l : AttemptSpec) : Type 0 where
  pub front : List AttemptSpec
  pub rest : List AttemptSpec
  pub split : specs ≡ front ++ l ∷ rest
  pub after : any (is_sibling p s) rest ≡ false
  pub own : is_sibling p s l ≡ true

ends_some :
    (x : AttemptSpec) (o : Option AttemptSpec)
    → ◌≡◌ {A = Option AttemptSpec} (elim o [ none ↦ some x | some t ↦ some t ]) none
    → ⊥
ends_some x none h = cc
ends_some x (some t) h = cc

none_last :
    (f : AttemptSpec → Bool) (specs : List AttemptSpec)
    → last_spec (filter f specs) ≡ none
    → any f specs ≡ false
none_last f [] h = refl
none_last f (x ∷ xs) h = elim (Bool-cases (f x)) [
  | inl own ↦ absurd (ends_some x (last_spec (filter f xs)) (rw own at h))
  | inr other ↦ rw other (none_last f xs (rw other at h))
]

later_split :
    (p s : String) (x : AttemptSpec) (xs : List AttemptSpec) (l : AttemptSpec)
    → IsLast p s xs l
    → IsLast p s (x ∷ xs) l
later_split p s x xs l v = record {
  front = x ∷ v.front;
  rest = v.rest;
  split = ap (λ r. x ∷ r) v.split;
  after = v.after;
  own = v.own;
}

pub last_spec-IsLast :
    (p s : String) (specs : List AttemptSpec) (l : AttemptSpec)
    → last_spec (filter (is_sibling p s) specs) ≡ some l
    → IsLast p s specs l
last_spec-IsLast p s [] l h = cc
last_spec-IsLast p s (x ∷ xs) l h = elim (Bool-cases (is_sibling p s x)) [
  | inr other ↦ later_split p s x xs l (last_spec-IsLast p s xs l (rw other at h))
  | inl own ↦ elim (Option-cases (last_spec (filter (is_sibling p s) xs))) [
    | inr (t, q) ↦ later_split p s x xs l (last_spec-IsLast p s xs l (q ∙ (rw (own, q) at h)))
    | inl q ↦ subst (IsLast p s (x ∷ xs)) {x = x} (ground arith) (record {
      front = [];
      rest = xs;
      split = refl;
      after = none_last (is_sibling p s) xs q;
      own = own;
    })
  ]
]

-- A key of the shard is not found where no attempt of the shard is.
absent :
    (p s a : String) (specs : List AttemptSpec)
    → any (is_sibling p s) specs ≡ false
    → find_spec (p ∷ s ∷ a ∷ []) specs ≡ none
absent p s a [] h = refl
absent p s a (x ∷ xs) h =
    ground (arith, absent p s a xs, ==_iff (p ∷ s ∷ a ∷ []) (key_of x), ==_refl p, ==_refl s)

pub found_last :
    (p s a : String) (front rest : List AttemptSpec) (l : AttemptSpec)
    → any (is_sibling p s) rest ≡ false
    → key_of l ≡ p ∷ s ∷ a ∷ []
    → find_spec (p ∷ s ∷ a ∷ []) (front ++ l ∷ rest) ≡ some l
found_last p s a [] rest l h k =
    let same : ((p ∷ s ∷ a ∷ []) == key_of l) ≡ true =
      (==_iff (p ∷ s ∷ a ∷ []) (key_of l)).1 (sym k) in
    ground (arith, absent p s a rest h, same)
found_last p s a (x ∷ xs) rest l h k = rw (found_last p s a xs rest l h k) refl

pub none_successful :
    (b : Batch) (p s : String) (specs : List AttemptSpec)
    → any (λ t. is_success (classify_attempt b.workers t)) (filter (is_sibling p s) specs) ≡ false
    → All (λ t. is_sibling p s t ≡ true → classify_attempt b.workers t ≢ success) specs
none_successful b p s [] h = tt
none_successful b p s (x ∷ xs) h =
    (λ own win. ground (arith, ap is_success win), none_successful b p s xs (ground arith))

pub retryable_begun : (s : Status) → is_retryable s ≡ true → s ≢ planned
retryable_begun planned h = cc
retryable_begun s h = λ p. ground arith

pub latest_spec :
    (id : String) (siblings : List AttemptSpec)
    → is_latest id siblings ≡ true
    → (l : AttemptSpec) × (last_spec siblings ≡ some l) × (l.attempt_id ≡ id)
latest_spec id siblings h = elim (Option-cases (last_spec siblings)) [
  | inl q ↦ absurd (ground arith)
  | inr (l, q) ↦ (l, q, ground (arith, ==_iff l.attempt_id id))
]

pub sibling_key :
    (p s a : String) (l : AttemptSpec)
    → is_sibling p s l ≡ true
    → l.attempt_id ≡ a
    → key_of l ≡ p ∷ s ∷ a ∷ []
sibling_key p s a l own id =
    let profile : l.profile.profile_id ≡ p = ground (arith, ==_iff l.profile.profile_id p) in
    let shard : l.shard.shard_id ≡ s = ground (arith, ==_iff l.shard.shard_id s) in cc
