-- ===== src/Adapter/Evaluate/Success.antt =====
-- What a result of `evaluate_capture` that is a success says of the stream.
use dispatcher_for_codex_age.Prelude.{
  ℕ, String, ◌≡◌, refl, sym, ap, ◌∙◌, Bool, true, false, not, ◌&&◌, none, List, [], ◌∷◌, length,
  ◌==◌, nat_eq, string_eq, length_zero, arith, Bool-cases, inl, inr,
}
use mathlib.Core.Path.{subst}
use dispatcher_for_codex_age.Prelude.Result.{ok, >>=-eq-ok}
use dispatcher_for_codex_age.Json.{Fields}
use dispatcher_for_codex_age.Adapter.{Python}
use dispatcher_for_codex_age.Adapter.Events.{
  ParsedEvents, parse_event_stream, parse_event_stream-IsParsed,
}
use dispatcher_for_codex_age.Adapter.Capture.{
  SchemaStatus, Process, is_passed, result_of, failure_of,
}
use dispatcher_for_codex_age.Adapter.Verdict.{is_success, failure_of_iff}
use dispatcher_for_codex_age.Adapter.Evaluate.{
  Codec, Capture, activity_of, settle, normalized_of, schema_status_of, process_of, check_encoding,
  check_lifecycle, is_broken, Evaluation, check_encoding, evaluate_capture, interpret,
}
use dispatcher_for_codex_age.Adapter.Evaluate.Settled.{settle-IsSame, settle-IsParsed, concluded}
use dispatcher_for_codex_age.Runtime.Lifecycle.{Issue, lifecycle_issues}
use dispatcher_for_codex_age.Runtime.Lifecycle.Grammar.{is_turn, history, is_history}
use dispatcher_for_codex_age.Runtime.Lifecycle.Pass.{lifecycle_issues_iff}
use dispatcher_for_codex_age.Runtime.Activity.{protocol_for_version, is_supported}
use dispatcher_for_codex_age.Runtime.Activity.Classify.{Activity, classify_activity}

-- The steps of a run whose result is a success.
abbrev pub IsSuccess : Python → Codec → Capture → ParsedEvents → Activity → Evaluation → Type 0
IsSuccess py codec c stream a e =
    let p = settle py c a (check_encoding c stream) in
    (status : SchemaStatus) × (is_success py (process_of codec c p) p status ≡ true)
    × (normalized_of py codec c p.final_text ≡ ok e.normalized)
    × (schema_status_of c e.normalized ≡ ok status)
    × (a ≡ e.activity)

result_success :
    (py : Python) (c : Process) (p : ParsedEvents) (status : SchemaStatus)
    → (result_of py c p status).success ≡ true
    → failure_of py c p status ≡ none
unfolding result_of
result_success py c p status s = ground arith

-- One thread, then diagnostics, one turn of items and unknown events, and a terminal event last,
-- where the events of every item id are a completion alone, or a start, updates and a completion
-- of one type.
abbrev pub IsTurn : List Fields → Type 0
IsTurn events =
    (is_turn true events ≡ true) × ((id : String) → is_history (history id events) ≡ true)

-- What the rest needs of a success.
pub success_parts :
    (py : Python) (c : Process) (p : ParsedEvents) (status : SchemaStatus)
    → is_success py c p status ≡ true
    → (p.valid_jsonl ≡ true)
      × (p.turn_completed_count ≡ 1)
      × (p.policy_violations ≡ [])
      × (is_passed status ≡ true)
success_parts py c p status wins =
    (ground arith, ground arith, length_zero p.policy_violations (ground arith), ground arith)

pub lifecycle_kept :
    (a : Activity) (p : ParsedEvents)
    → (check_lifecycle a p).valid_jsonl ≡ true
    → (is_broken a p ≡ false) × (check_lifecycle a p ≡ p)
lifecycle_kept a p valid = elim (Bool-cases (is_broken a p)) [
  | inl bad ↦ cc
  | inr fine ↦ (fine, rw fine refl)
]

encoding_kept :
    (c : Capture) (p : ParsedEvents)
    → (check_encoding c p).valid_jsonl ≡ true
    → check_encoding c p ≡ p
encoding_kept c p valid = elim (Bool-cases c.utf8_valid) [ inl fine ↦ rw fine refl | inr bad ↦ cc ]

no_issues :
    (supported : Bool) (lifecycle : List Issue) (count : ℕ)
    → (supported && not (length lifecycle == 0) && count == 1) ≡ false
    → supported ≡ true
    → count ≡ 1
    → lifecycle ≡ []
no_issues supported [] count broken s one = refl
no_issues supported (x ∷ lifecycle) count broken s one = ground arith

module _ (py : Python) (codec : Codec) (c : Capture) (e : Evaluation) (stream : ParsedEvents)
    (parsed : parse_event_stream py c.tools c.lines ≡ ok stream)
    (returned : interpret py codec c stream ≡ ok e) (success : e.result.success ≡ true) where
  pub evaluated : IsSuccess py codec c stream (activity_of py c (check_encoding c stream)) e
  unfolding interpret
  evaluated =
      let p = check_encoding c stream in
      let a = activity_of py c p in
      let q = settle py c a p in
      let (normalized, status, made, judged, same) = concluded py codec c a q e returned in
      let wins : (result_of py (process_of codec c q) q status).success ≡ true =
        ap (λ x. x.result.success) same ∙ success in
      (
        status,
        (failure_of_iff py (process_of codec c q) q status (
              settle-IsParsed py codec c a stream
                (parse_event_stream-IsParsed py c.tools c.lines stream parsed))).0
            (result_success py _ q status wins),
        made ∙ ap (λ x. ok x.normalized) same,
        ap (λ x. schema_status_of c x.normalized) (sym same) ∙ judged,
        ap (λ x. x.activity) same,
      )

  -- The stream that was read, and its activity.
  pub read :
      (is_broken (activity_of py c (check_encoding c stream)) (check_encoding c stream) ≡ false)
      × ((check_encoding c stream).turn_completed_count ≡ 1)
      × (check_encoding c stream ≡ stream)
  read =
      let p = check_encoding c stream in
      let a = activity_of py c p in
      let (status, wins, made, judged, same) = evaluated in
      let (valid, one, clean, pass) = success_parts py _ (settle py c a p) status wins in
      let (events, v, n, t, f) = settle-IsSame py codec c a p in
      let (fine, kept) = lifecycle_kept a p (sym v ∙ valid) in
      (
        fine,
        ap (λ x. x.turn_completed_count) (sym kept) ∙ sym n ∙ one,
        encoding_kept c _ (ap (λ x. x.valid_jsonl) (sym kept) ∙ sym v ∙ valid),
      )

  interpret-IsTurn : is_supported (protocol_for_version c.cli_version) ≡ true → IsTurn stream.events
  unfolding classify_activity
  interpret-IsTurn supported =
      let (fine, one, same) = read in
      let events = (check_encoding c stream).events in
      let clean = no_issues _ _ _ fine supported one in
      subst IsTurn (ap (λ p. p.events) same) (
        (lifecycle_issues_iff true events).0
          (ap (λ b. (lifecycle_issues b events).0) (sym supported) ∙ clean))

module _ (py : Python) (codec : Codec) (c : Capture) (e : Evaluation)
    (returned : evaluate_capture py codec c ≡ ok e) where
  -- The stream of a capture that was evaluated.
  pub evaluate_capture-stream :
      (stream : ParsedEvents) × (parse_event_stream py c.tools c.lines ≡ ok stream)
      × (interpret py codec c stream ≡ ok e)
  unfolding evaluate_capture
  evaluate_capture-stream = >>=-eq-ok (parse_event_stream py c.tools c.lines) _ returned

  -- If a capture of a known protocol is a success, its stream is one thread, then diagnostics, one
  -- turn of items and unknown events, and a terminal event last, and the events of every item id
  -- are a completion alone, or a start, updates and a completion of one type.
  pub evaluate_capture-IsTurn :
      e.result.success ≡ true
      → is_supported (protocol_for_version c.cli_version) ≡ true
      → (stream : ParsedEvents) × (parse_event_stream py c.tools c.lines ≡ ok stream)
        × IsTurn stream.events
  evaluate_capture-IsTurn success supported =
      let (stream, parsed, done) = evaluate_capture-stream in
      (stream, parsed, interpret-IsTurn py codec c e stream parsed done success supported)
