-- ===== src/Runtime/Output/Fence.antt =====
-- What a fence is, and what is validated in its place.
use dispatcher_for_codex_age.Prelude.{
  ℕ, zero, suc, ◌+◌, ◌-◌, ◌≤◌, String, ◌≡◌, refl, sym, ap, ◌∙◌, ◌⊎◌, inl, inr, Bool, true, ◌&&◌,
  Option, none, some, [], ◌∷◌, ◌++◌, length, all, ◌==◌, ==_iff, nat_eq, list_eq, string_eq,
  Bool-cases, Option-cases, arith,
}
use dispatcher_for_codex_age.Prelude.Result.{ok}
use dispatcher_for_codex_age.Json.{Json}
use dispatcher_for_codex_age.Host.{Bytes}
use dispatcher_for_codex_age.Schema.Check.{validate_json_schema}
use dispatcher_for_codex_age.Runtime.Output.{
  is_space, lstrip, rstrip, take, drop, slice, opening, closing, start_of, end_of, is_fenced,
  unfenced, selected, NormalizedOutput, normalize_output,
}

take-drop : (n : ℕ) (raw : Bytes) → take n raw ++ drop n raw ≡ raw
unfolding take drop
take-drop zero raw = refl
take-drop (suc n) [] = refl
take-drop (suc n) (c ∷ raw) = ap (λ r. c ∷ r) (take-drop n raw)

drop_nil : (n : ℕ) → drop n [] ≡ []
unfolding drop
drop_nil zero = refl
drop_nil (suc n) = refl

drop-drop : (a b : ℕ) (raw : Bytes) → drop a (drop b raw) ≡ drop (b + a) raw
unfolding drop
drop-drop a zero raw = ap (λ n. drop n raw) (omega arith)
drop-drop a (suc b) [] = drop_nil a ∙ sym (drop_nil (suc b + a))
drop-drop a (suc b) (c ∷ raw) =
    drop-drop a b raw ∙ ap (λ n. drop n (c ∷ raw)) {x = suc (b + a)} {y = suc b + a} (omega arith)

-- A suffix, cut at a later place.
drop-slice : (a b : ℕ) (raw : Bytes) → a ≤ b → drop a raw ≡ slice a b raw ++ drop b raw
drop-slice a b raw less =
    let same : a + (b - a) ≡ b = omega (arith, less) in
    sym (take-drop (b - a) (drop a raw))
    ∙ ap (λ r. slice a b raw ++ r) (drop-drop (b - a) a raw ∙ ap (λ n. drop n raw) same)

length-lstrip : (raw : Bytes) → length (lstrip raw) ≤ length raw
unfolding lstrip
length-lstrip [] = omega arith
length-lstrip (c ∷ raw) = ground (arith, length-lstrip raw)

-- Only white space stands in front of the text.
before_spaces : (raw : Bytes) → all is_space (take (start_of raw) raw) ≡ true
unfolding lstrip take
before_spaces [] = refl
before_spaces (c ∷ raw) = elim (Bool-cases (is_space c)) [
  | inl space ↦
      let longer : suc (length raw) - length (lstrip raw) ≡ suc (length raw - length (lstrip raw)) =
        omega (arith, length-lstrip raw) in
      rw (space, longer, space) (before_spaces raw)
  | inr other ↦
      let same : suc (length raw) - suc (length raw) ≡ 0 = omega arith in rw (other, same) refl
]

after_spaces : (raw : Bytes) → all is_space (drop (end_of raw) raw) ≡ true
unfolding rstrip drop
after_spaces [] = refl
after_spaces (c ∷ raw) = elim (Bool-cases (length (rstrip raw) == 0 && is_space c)) [
  | inl spaces ↦
      let none_left : length (rstrip raw) ≡ 0 = ground arith in
      let rest : all is_space raw ≡ true = rw none_left at (after_spaces raw) in
      rw spaces (ground (arith, rest))
  | inr other ↦ rw other (after_spaces raw)
]

-- A text with a fence and white space around it, and the text without the fence.
abbrev pub IsUnfenced : Bytes → Bytes → Type 0
IsUnfenced raw chosen =
    (before : Bytes) × (body : Bytes) × (after : Bytes) × (raw
      ≡ before ++ (opening ++ (body ++ (closing ++ after))))
    × (chosen ≡ before ++ body ++ after)
    × (all is_space before ≡ true)
    × (all is_space after ≡ true)

is_fenced-IsUnfenced : (raw : Bytes) → is_fenced raw ≡ true → IsUnfenced raw (unfenced raw)
unfolding is_fenced unfenced
is_fenced-IsUnfenced raw h =
    let start = start_of raw in
    let close = end_of raw - 3 in
    let opened : slice start (start + 8) raw ≡ opening =
      ground (arith, ==_iff (slice start (start + 8) raw) opening) in
    let closed : slice close (end_of raw) raw ≡ closing =
      ground (arith, ==_iff (slice close (end_of raw) raw) closing) in
    let less : start + 8 ≤ close = ground arith in
    (
      take start raw,
      slice (start + 8) close raw,
      drop (end_of raw) raw,
      sym (take-drop start raw)
          ∙ ap (λ r. take start raw ++ r)
              (drop-slice start (start + 8) raw (omega arith)
                ∙ ap (λ r. slice start (start + 8) raw ++ r)
                    (drop-slice (start + 8) close raw less
                      ∙ ap (λ r. slice (start + 8) close raw ++ r)
                          (drop-slice close (end_of raw) raw (omega arith)
                            ∙ ap (λ r. r ++ drop (end_of raw) raw) closed))
                ∙ ap (λ r. r ++ (slice (start + 8) close raw ++ (closing ++ drop (end_of raw) raw)))
                    opened),
      refl,
      before_spaces raw,
      after_spaces raw,
    )

-- `selected` is the text, or the text without its fence where it does not decode with it.
selected_cases :
    (decode : Bytes → Option Json) (fence_allowed : Bool) (raw : Bytes)
    → (selected decode fence_allowed raw ≡ raw)
      ⊎ ((fence_allowed ≡ true)
          × (decode raw ≡ none)
          × IsUnfenced raw (selected decode fence_allowed raw))
unfolding selected
selected_cases decode fence_allowed raw = elim (Option-cases (decode raw)) [
  | inr (value, p) ↦ inl (rw (p, selected) refl)
  | inl p ↦ elim (Bool-cases (fence_allowed && is_fenced raw)) [
    | inr f ↦ inl (rw (p, f, selected) refl)
    | inl f ↦ elim (Option-cases (decode (unfenced raw))) [
      | inl q ↦ inl (rw (p, f, q, selected) refl)
      | inr (value, q) ↦
          inr (ground arith, p, rw (p, f, q, selected) (is_fenced-IsUnfenced raw (ground arith)))
    ]
  ]
]

pub passed_parts :
    (decode : Bytes → Option Json) (encodable : Json → Bool) (replaced : Bytes → String)
    (raw : Bytes) (schema : Json) (fence_allowed : Bool) {output : NormalizedOutput}
    → normalize_output decode encodable replaced raw schema fence_allowed ≡ ok output
    → output.error ≡ none
    → (decode output.validator_bytes ≡ some output.value)
      × (validate_json_schema output.value schema ≡ ok tt)
      × (encodable output.value ≡ true)
      × (output.validator_bytes ≡ selected decode fence_allowed raw)
unfolding normalize_output
passed_parts decode encodable replaced raw schema fence_allowed {output} p q = ground arith

-- An output that passes decodes to its value, which the schema accepts and which can be encoded; and
-- what was validated is the captured text, or, where the contract allows a fence and the text does
-- not decode, the text without one fence that only white space surrounds.
pub normalize_output_pass :
    (decode : Bytes → Option Json) (encodable : Json → Bool) (replaced : Bytes → String)
    (raw : Bytes) (schema : Json) (fence_allowed : Bool) {output : NormalizedOutput}
    → normalize_output decode encodable replaced raw schema fence_allowed ≡ ok output
    → output.error ≡ none
    → (decode output.validator_bytes ≡ some output.value)
      × (validate_json_schema output.value schema ≡ ok tt)
      × (encodable output.value ≡ true)
      × ((output.validator_bytes ≡ raw)
          ⊎ ((fence_allowed ≡ true) × (decode raw ≡ none) × IsUnfenced raw output.validator_bytes))
normalize_output_pass decode encodable replaced raw schema fence_allowed {output} p q =
    let (decoded, valid, encoded, chosen) =
      passed_parts decode encodable replaced raw schema fence_allowed p q in
    (decoded, valid, encoded, rw chosen (selected_cases decode fence_allowed raw))
