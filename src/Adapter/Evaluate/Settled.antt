-- ===== src/Adapter/Evaluate/Settled.antt =====
-- `evaluate_capture`: what its checks leave of the stream, and its steps up to the result.
use dispatcher_for_codex_age.Prelude.{
  ◌≡◌, refl, sym, ◌∙◌, Option, nat_eq, string_eq, arith, Bool-cases, inl, inr,
}
use dispatcher_for_codex_age.Prelude.Result.{ok, >>=-eq-ok}
use dispatcher_for_codex_age.Adapter.{Python}
use dispatcher_for_codex_age.Adapter.Events.{ParsedEvents, IsParsed}
use dispatcher_for_codex_age.Adapter.Capture.{
  SchemaStatus, InvocationResult, validate_result, result_of,
}
use dispatcher_for_codex_age.Adapter.Evaluate.{
  Codec, Capture, settle, exempts, normalized_of, schema_status_of, process_of, check_encoding,
  check_lifecycle, check_rejections, check_activity, is_broken, is_doubted, Evaluation, conclude,
}
use dispatcher_for_codex_age.Runtime.Output.{NormalizedOutput}
use dispatcher_for_codex_age.Runtime.Activity.Classify.{Activity}

encoding-IsParsed : (c : Capture) (p : ParsedEvents) → IsParsed p → IsParsed (check_encoding c p)
encoding-IsParsed c p parsed = elim (Bool-cases c.utf8_valid) [
  | inl fine ↦ rw fine parsed
  | inr bad ↦ rw bad λ valid. cc
]

lifecycle-IsParsed : (a : Activity) (p : ParsedEvents) → IsParsed p → IsParsed (check_lifecycle a p)
lifecycle-IsParsed a p parsed = elim (Bool-cases (is_broken a p)) [
  | inl bad ↦ rw bad λ valid. cc
  | inr fine ↦ rw fine parsed
]

-- A check of the violations leaves the rest of the stream as it is.
abbrev IsSame : ParsedEvents → ParsedEvents → Type 0
IsSame p q =
    (p.events ≡ q.events)
    × (p.valid_jsonl ≡ q.valid_jsonl)
    × (p.turn_completed_count ≡ q.turn_completed_count)
    × (p.terminal_is_last ≡ q.terminal_is_last)
    × (p.final_text ≡ q.final_text)

rejections-IsSame :
    (py : Python) (c : Capture) (a : Activity) (p : ParsedEvents)
    → IsSame (check_rejections py c a p) p
rejections-IsSame py c a p = elim (Bool-cases (exempts c a)) [
  | inl warned ↦ rw warned (refl, refl, refl, refl, refl)
  | inr other ↦ rw other (refl, refl, refl, refl, refl)
]

activity-IsSame : (c : Capture) (a : Activity) (p : ParsedEvents) → IsSame (check_activity c a p) p
activity-IsSame c a p = elim (Bool-cases (is_doubted c a)) [
  | inl doubted ↦ rw doubted (refl, refl, refl, refl, refl)
  | inr other ↦ rw other (refl, refl, refl, refl, refl)
]

validated : (r result : InvocationResult) → validate_result r ≡ ok result → r ≡ result
unfolding validate_result
validated r result valid = ground arith

module _ (py : Python) (codec : Codec) (c : Capture) where
  pub settle-IsSame :
      (a : Activity) (p : ParsedEvents) → IsSame (settle py c a p) (check_lifecycle a p)
  unfolding settle
  settle-IsSame a p =
      let q = check_lifecycle a p in
      let (e, v, n, t, f) = rejections-IsSame py c a q in
      let (e', v', n', t', f') = activity-IsSame c a (check_rejections py c a q) in
      (e' ∙ e, v' ∙ v, n' ∙ n, t' ∙ t, f' ∙ f)

  pub settle-IsParsed :
      (a : Activity) (stream : ParsedEvents)
      → IsParsed stream
      → IsParsed (settle py c a (check_encoding c stream))
  settle-IsParsed a stream h valid =
      let p = check_encoding c stream in
      let (e, v, n, t, f) = settle-IsSame a p in
      let parsed = lifecycle-IsParsed a p (encoding-IsParsed c stream h) in
      let facts = parsed (sym v ∙ valid) in rw (n, t) facts

  -- A run that returned, step by step.
  pub concluded :
      (a : Activity) (p : ParsedEvents) (e : Evaluation)
      → conclude py codec c a p ≡ ok e
      → (normalized : Option NormalizedOutput) × (status : SchemaStatus) × (normalized_of py codec c
            p.final_text
          ≡ ok normalized)
        × (schema_status_of c normalized ≡ ok status)
        × (record {
          result = result_of py (process_of codec c p) p status;
          normalized = normalized;
          activity = a;
        }
            ≡ e)
  unfolding conclude
  concluded a p e returned =
      let (normalized, made, then_status) =
        >>=-eq-ok (normalized_of py codec c p.final_text) _ returned in
      let (status, judged, then_valid) = >>=-eq-ok (schema_status_of c normalized) _ then_status in
      let (result, valid, last) =
        >>=-eq-ok (validate_result (result_of py (process_of codec c p) p status)) _ then_valid in
      let same = validated _ result valid in (normalized, status, made, judged, cc)
