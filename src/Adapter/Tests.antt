-- ===== src/Adapter/Tests.antt =====
-- A concrete capture: a message, and the end of the turn.
use dispatcher_for_codex_age.Prelude.{
  String, List, ◌≡◌, refl, ◌↔◌, true, false, none, some, [], ◌∷◌, ◌==◌, string_eq, nat_eq,
  if◌then◌else◌,
}
use dispatcher_for_codex_age.Prelude.Int.{pos}
use dispatcher_for_codex_age.Prelude.Result.{ok}
use dispatcher_for_codex_age.Prelude.Sort.{sort}
use dispatcher_for_codex_age.Json.{Fields, str, int, obj, arr, nil, cons, end, field}
use dispatcher_for_codex_age.Adapter.{
  Python, event_violation, type_violations, item_violations, policy_violations,
}
use dispatcher_for_codex_age.Adapter.Events.{
  ParsedEvents, parsed_of, parse_event_stream, extract_served_models, final_text_of, IsParsed,
  parse_event_stream-IsParsed,
}
use dispatcher_for_codex_age.Adapter.Stream.{IsStream, parse_event_stream-IsStream}
use dispatcher_for_codex_age.Adapter.Capture.{
  passed, Process, failure_of, model_failure, succeeded, is_allowlist, in_allowlist,
  validate_result, result_of,
}
use dispatcher_for_codex_age.Adapter.Verdict.{is_success, failure_of_iff, result_of_valid}

abbrev lines : List String
lines = "message" ∷ "" ∷ "end" ∷ []

abbrev message_event : Fields
message_event =
    field "type" (str "item.completed")
      (field "item" (obj (field "type" (str "agent_message") (field "text" (str "hi") end))) end)

abbrev completion_event : Fields
completion_event =
    field "type" (str "turn.completed")
      (field "usage" (obj (field "tokens" (int (pos 5)) end)) (field "served_model" (str "m") end))

abbrev python : Python
python = record {
  loads = λ line.
      if line == "message"
      then ok (some (obj message_event))
      else if line == "end"
      then ok (some (obj completion_event))
      else ok none;
  encodable = λ v. true;
  strip = λ s. s;
  casefold = λ s. s;
  search = λ pattern text. false;
  format = λ v. "";
}

abbrev parsed : ParsedEvents
parsed = parsed_of python [] (message_event ∷ completion_event ∷ []) none

stream_parsed : parse_event_stream python [] lines ≡ ok parsed
unfolding parse_event_stream
stream_parsed = refl

abbrev process : Process
process = record {
  was_cancelled = false;
  was_timed_out = false;
  combined_errors = "";
  process_started = true;
  exit_code = some (pos 0);
  allowlist = arr (cons (str "m") nil);
}

usage_read : parsed.usage ≡ ("tokens", pos 5) ∷ []
unfolding parsed_of
usage_read = refl

capture_succeeds : failure_of python process parsed passed ≡ none
unfolding failure_of model_failure succeeded is_allowlist in_allowlist parsed_of
    extract_served_models final_text_of policy_violations type_violations item_violations
    event_violation sort
capture_succeeds = refl

stream_valid : parsed.valid_jsonl ≡ true
unfolding parsed_of
stream_valid = refl

parse_event_stream-IsStream_example : IsStream python lines parsed
parse_event_stream-IsStream_example =
    parse_event_stream-IsStream python [] lines parsed stream_parsed stream_valid

parsed_well : IsParsed parsed
parsed_well = parse_event_stream-IsParsed python [] lines parsed stream_parsed

failure_of_iff_example :
    (failure_of python process parsed passed ≡ none)
    ↔ (is_success python process parsed passed ≡ true)
failure_of_iff_example = failure_of_iff python process parsed passed parsed_well

result_of_valid_example :
    validate_result (result_of python process parsed passed)
    ≡ ok (result_of python process parsed passed)
result_of_valid_example = result_of_valid python process parsed passed parsed_well
