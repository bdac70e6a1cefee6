-- ===== src/Adapter/Evaluate/Tests.antt =====
-- A concrete capture of the synthetic protocol: a rejected question, a message and the end.
use dispatcher_for_codex_age.Prelude.{
  String, ◌≡◌, refl, true, false, Option, none, some, List, [], ◌∷◌, ◌++◌, ◌==◌, string_eq, nat_eq,
  contains, any, ◌↔◌, if◌then◌else◌,
}
use dispatcher_for_codex_age.Prelude.Int.{pos}
use dispatcher_for_codex_age.Prelude.Result.{Result, ok}
use dispatcher_for_codex_age.Prelude.Sort.{sort}
use dispatcher_for_codex_age.Json.{Json, Fields, str, bool, obj, arr, nil, end, field}
use dispatcher_for_codex_age.Adapter.{Python, policy_violations}
use dispatcher_for_codex_age.Adapter.Events.{ParsedEvents, parsed_of, parse_event_stream}
use dispatcher_for_codex_age.Adapter.Capture.{passed, validate_result, result_of}
use dispatcher_for_codex_age.Adapter.Evaluate.{
  activity_of, Codec, Capture, Evaluation, evaluate_capture,
}
use dispatcher_for_codex_age.Adapter.Evaluate.Success.{IsTurn, evaluate_capture-IsTurn}
use dispatcher_for_codex_age.Adapter.Evaluate.Authorized.{
  IsAuthorized, evaluate_capture-IsAuthorized,
}
use dispatcher_for_codex_age.Adapter.Evaluate.Output.{HasOutput, evaluate_capture-HasOutput}
use dispatcher_for_codex_age.Schema.{validate_schema_definition}
use dispatcher_for_codex_age.Schema.Values.{validate_part}
use dispatcher_for_codex_age.Schema.Check.{validate_json_schema}
use dispatcher_for_codex_age.Runtime.Output.{normalize_output}
use dispatcher_for_codex_age.Adapter.Events.{final_text_of}
use dispatcher_for_codex_age.Adapter.Evaluate.Locator.{locator, IsLocated, locator-IsLocated}
use dispatcher_for_codex_age.Runtime.Activity.Conclusive.{is_certain, classify_activity_iff}
use dispatcher_for_codex_age.Runtime.Activity.{is_unclear, protocol_for_version}
use dispatcher_for_codex_age.Runtime.Lifecycle.{identity_of}
use dispatcher_for_codex_age.Runtime.Activity.Classify.{classify_activity}
use dispatcher_for_codex_age.Runtime.Activity.Exempt.{IsExempted, classify_activity_exempts}

abbrev typed : String → Fields → Json
typed type rest = obj (field "type" (str type) rest)

abbrev rejection : Json
rejection = obj (
    field "type" (str "request_user_input_rejection") (
      field "id" (str "q") (
        field "tool" (str "request_user_input") (
          field "phase" (str "before_execution") (
            field "reason" (str "noninteractive") (
              field "execution_started" (bool false) (
                field "required_input" (bool false)
                  (field "required_work_satisfied" (bool true) end))))))))

abbrev message : Json
message =
    obj (field "type" (str "agent_message") (field "id" (str "m") (field "text" (str "hi") end)))

abbrev loads : String → Result (Option Json)
loads line =
    if line == "thread"
    then ok (some (typed "thread.started" (field "thread_id" (str "t") end)))
    else if line == "turn"
    then ok (some (typed "turn.started" end))
    else if line == "question"
    then ok (some (typed "item.completed" (field "item" rejection end)))
    else if line == "message"
    then ok (some (typed "item.completed" (field "item" message end)))
    else if line == "end"
    then ok (some (typed "turn.completed" end))
    else ok none

abbrev python : Python
python = record {
  loads = loads;
  encodable = λ v. true;
  strip = λ s. s;
  casefold = λ s. s;
  search = λ pattern text. false;
  format = λ v. "";
}

abbrev codec : Codec
codec = record {
  decode = λ raw. some (str "hi");
  replaced = λ raw. "";
  encode = λ s. [];
  dumps = λ v. "";
}

abbrev capture : Capture
capture = record {
  lines = "thread" ∷ "turn" ∷ "question" ∷ "message" ∷ "end" ∷ [];
  utf8_valid = true;
  stderr = "";
  cli_version = "dca.synthetic-runtime/1";
  was_cancelled = false;
  was_timed_out = false;
  process_started = true;
  exit_code = some (pos 0);
  allowlist = arr nil;
  tools = [];
  contract = record { fence_allowed = false; rejection_warns = true };
  schema = obj (field "type" (str "string") end);
}

abbrev event_of : Result (Option Json) → List Fields
event_of (ok (some (obj event))) = event ∷ []
event_of _ = []

abbrev events_of : List String → List Fields
events_of [] = []
events_of (line ∷ lines) = event_of (loads line) ++ events_of lines

abbrev events : List Fields
events = events_of capture.lines

abbrev evaluation : Evaluation
evaluation = record {
  result = record {
    success = true;
    exit_code = some (pos 0);
    turn_completed = true;
    schema_status = passed;
    failure_code = none;
  };
  normalized = some (record { value = str "hi"; validator_bytes = []; error = none });
  activity = activity_of python capture (parsed_of python [] events none);
}

capture_evaluates : evaluate_capture python codec capture ≡ ok evaluation
unfolding evaluate_capture classify_activity parse_event_stream identity_of normalize_output
    validate_json_schema validate_schema_definition validate_result result_of policy_violations sort
    validate_part
capture_evaluates = refl

evaluate_capture-IsTurn_example :
    (stream : ParsedEvents) × (parse_event_stream python [] capture.lines ≡ ok stream)
    × IsTurn stream.events
unfolding protocol_for_version
evaluate_capture-IsTurn_example =
    evaluate_capture-IsTurn python codec capture evaluation capture_evaluates refl refl

evaluate_capture-IsAuthorized_example :
    (stream : ParsedEvents) × (parse_event_stream python [] capture.lines ≡ ok stream)
    × IsAuthorized python capture stream.events evaluation.activity
evaluate_capture-IsAuthorized_example =
    evaluate_capture-IsAuthorized python codec capture evaluation capture_evaluates refl

evaluate_capture-HasOutput_example :
    (stream : ParsedEvents) × (parse_event_stream python [] capture.lines ≡ ok stream)
    × HasOutput codec capture stream.events evaluation
evaluate_capture-HasOutput_example =
    evaluate_capture-HasOutput python codec capture evaluation capture_evaluates refl

question_exempted :
    contains 2 (classify_activity python events "dca.synthetic-runtime/1" true "").exempt ≡ true
unfolding classify_activity identity_of
question_exempted = refl

classify_activity_exempts_example :
    IsExempted events 2 (classify_activity python events "dca.synthetic-runtime/1" true "")
classify_activity_exempts_example =
    classify_activity_exempts python events "dca.synthetic-runtime/1" true "" 2 question_exempted

classify_activity_iff_example :
    (any is_unclear
        (classify_activity python events "dca.synthetic-runtime/1" true "").classifications
      ≡ false)
    ↔ (is_certain true (classify_activity python events "dca.synthetic-runtime/1" true "") ≡ true)
classify_activity_iff_example =
    classify_activity_iff python events "dca.synthetic-runtime/1" true ""

locator_found : locator events ≡ some 3
unfolding locator
locator_found = refl

locator-IsLocated_example : IsLocated events (final_text_of events) (locator events)
locator-IsLocated_example = locator-IsLocated events
