-- ===== src/Adapter/Evaluate/Output.antt =====
-- What a result of `evaluate_capture` that is a success says of the output.
use dispatcher_for_codex_age.Prelude.{
  List, String, ◌≡◌, refl, sym, ap, ◌∙◌, true, Option, none, some, arith,
}
use dispatcher_for_codex_age.Prelude.Result.{ok, is_ok, >>=-eq-ok}
use dispatcher_for_codex_age.Json.{Fields}
use dispatcher_for_codex_age.Adapter.{Python}
use dispatcher_for_codex_age.Adapter.Events.{
  ParsedEvents, parse_event_stream, parse_event_stream-final_text_of, final_text_of,
}
use dispatcher_for_codex_age.Adapter.Capture.{SchemaStatus, is_passed}
use dispatcher_for_codex_age.Adapter.Evaluate.{
  Codec, Capture, is_custom, activity_of, settle, normalized_of, schema_status_of, Evaluation,
  check_encoding, interpret, evaluate_capture,
}
use dispatcher_for_codex_age.Adapter.Evaluate.Settled.{settle-IsSame}
use dispatcher_for_codex_age.Adapter.Evaluate.Success.{
  evaluate_capture-stream, evaluated, read, success_parts, lifecycle_kept,
}
use dispatcher_for_codex_age.Runtime.Output.{NormalizedOutput, normalize_output, selected}
use dispatcher_for_codex_age.Runtime.Output.Fence.{passed_parts}
use dispatcher_for_codex_age.Runtime.Coverage.{schema_coverage}
use dispatcher_for_codex_age.Schema.Check.{validate_json_schema}

module _ (py : Python) (codec : Codec) (c : Capture) where
  -- A status that is PASS.
  passing :
      (o : Option NormalizedOutput) (status : SchemaStatus)
      → schema_status_of c o ≡ ok status
      → is_passed status ≡ true
      → (output : NormalizedOutput) × (o ≡ some output)
        × (output.error ≡ none)
        × (is_custom c.contract ≡ true → is_ok (schema_coverage c.schema output.value) ≡ true)
  unfolding schema_status_of
  passing none status judged pass = ground arith
  passing (some output) status judged pass =
      (output, refl, ground arith, λ custom. ground (arith, custom))

  normalized_text :
      (final : Option String) (output : NormalizedOutput)
      → normalized_of py codec c final ≡ ok (some output)
      → (text : String) × (final ≡ some text)
        × (normalize_output codec.decode py.encodable codec.replaced
              (codec.encode text)
              c.schema
              c.contract.fence_allowed
            ≡ ok output)
  normalized_text none output made = cc
  normalized_text (some text) output made =
      let (value, call, last) = >>=-eq-ok (normalize_output _ _ _ _ _ _) _ made in (text, refl, cc)

-- The output is the last message of the stream, it decodes to a value that the schema accepts, and
-- under a contract that is not the default one its records are covered.
abbrev pub HasOutput : Codec → Capture → List Fields → Evaluation → Type 0
HasOutput codec c events e =
    (text : String) × (output : NormalizedOutput) × (final_text_of events ≡ some text)
    × (e.normalized ≡ some output)
    × (output.validator_bytes ≡ selected codec.decode c.contract.fence_allowed (codec.encode text))
    × (codec.decode output.validator_bytes ≡ some output.value)
    × (validate_json_schema output.value c.schema ≡ ok tt)
    × (is_custom c.contract ≡ true → is_ok (schema_coverage c.schema output.value) ≡ true)

module _ (py : Python) (codec : Codec) (c : Capture) (e : Evaluation) (stream : ParsedEvents)
    (parsed : parse_event_stream py c.tools c.lines ≡ ok stream)
    (returned : interpret py codec c stream ≡ ok e) (success : e.result.success ≡ true) where
  interpret-HasOutput : HasOutput codec c stream.events e
  interpret-HasOutput =
      let p = check_encoding c stream in
      let a = activity_of py c p in
      let (status, wins, made, judged, same) =
        evaluated py codec c e stream parsed returned success in
      let (valid, one, clean, pass) = success_parts py _ (settle py c a p) status wins in
      let (events, v, n, t, f) = settle-IsSame py codec c a p in
      let (fine, count, kept) = read py codec c e stream parsed returned success in
      let whole = (lifecycle_kept a p (sym v ∙ valid)).1 ∙ kept in
      let (output, found, passed, covers) = passing py codec c e.normalized status judged pass in
      let (text, final, call) =
        normalized_text py codec c (settle py c a p).final_text output (rw (sym found) made) in
      let (decoded, accepted, encoded, chosen) =
        passed_parts codec.decode py.encodable codec.replaced (codec.encode text) c.schema
          c.contract.fence_allowed call passed in
      (
        text,
        output,
        sym (parse_event_stream-final_text_of py c.tools c.lines stream parsed)
            ∙ sym (f ∙ ap (λ q. q.final_text) whole)
            ∙ final,
        found,
        chosen,
        decoded,
        accepted,
        covers,
      )

-- If a capture is a success, its output is the last message of the stream, perhaps without a
-- fence, and decodes to a value that the schema accepts; and where the contract is not the
-- default one, the value covers the records that the schema lists, if it lists any.
pub evaluate_capture-HasOutput :
    (py : Python) (codec : Codec) (c : Capture) (e : Evaluation)
    → evaluate_capture py codec c ≡ ok e
    → e.result.success ≡ true
    → (stream : ParsedEvents) × (parse_event_stream py c.tools c.lines ≡ ok stream)
      × HasOutput codec c stream.events e
evaluate_capture-HasOutput py codec c e returned success =
    let (stream, parsed, done) = evaluate_capture-stream py codec c e returned in
    (stream, parsed, interpret-HasOutput py codec c e stream parsed done success)
