-- ===== src/Adapter/Evaluate.antt =====
-- agent_harness/adapter.py, `evaluate_capture`: the interpretation of a capture. The capture is given
-- by its lines and by whether its bytes were valid UTF-8. Warnings and the digests of
-- the audit are left out: nothing else is computed from them. The locator of the final text has a
-- file of its own.
pub mod Settled
pub mod Success
pub mod Authorized
pub mod Output
pub mod Locator
mod Tests
use dispatcher_for_codex_age.Prelude.{
  ℕ, String, Bool, true, false, not, ◌&&◌, ◌||◌, Option, none, some, List, [], ◌∷◌, ◌++◌, any,
  filter, map, suc, contains, length, ◌==◌, nat_eq, string_eq, if◌then◌else◌,
}
use dispatcher_for_codex_age.Prelude.Int.{ℤ}
use dispatcher_for_codex_age.Prelude.Result.{Result, ok, err, ◌>>=◌}
use dispatcher_for_codex_age.Prelude.Text.{concat}
use dispatcher_for_codex_age.Json.{Json, Fields, obj, get, str_is}
use dispatcher_for_codex_age.Host.{Bytes}
use dispatcher_for_codex_age.Adapter.{Python, policy_violations}
use dispatcher_for_codex_age.Adapter.Events.{
  ParsedEvents, invalid_encoding, invalid_lifecycle, parse_event_stream,
}
use dispatcher_for_codex_age.Adapter.Capture.{
  SchemaStatus, passed, failed, not_run, is_passed, Process, InvocationResult, validate_result,
  result_of,
}
use dispatcher_for_codex_age.Runtime.Output.{NormalizedOutput, normalize_output}
use dispatcher_for_codex_age.Runtime.Coverage.{schema_coverage}
use dispatcher_for_codex_age.Runtime.Activity.{is_supported, is_unclear}
use dispatcher_for_codex_age.Runtime.Activity.Classify.{Activity, classify_activity}

-- `RuntimeContract`: whether a fence is allowed, and whether a rejected question is only a warning.
pub record RuntimeContract : Type 0 where
  pub fence_allowed : Bool
  pub rejection_warns : Bool

-- `contract != RuntimeContract()`
abbrev pub is_custom : RuntimeContract → Bool
is_custom contract = contract.fence_allowed || contract.rejection_warns

-- The encoders of Python's library that the interpretation of the final text uses: `json.loads` of
-- UTF-8, the replacing decoder, the encoder of a text, and `json.dumps` of an event.
pub record Codec : Type 0 where
  pub decode : Bytes → Option Json
  pub replaced : Bytes → String
  pub encode : String → Bytes
  pub dumps : Json → String

-- The arguments of the call, of the task and of the profile that the code reads.
pub record Capture : Type 0 where
  pub lines : List String
  pub utf8_valid : Bool
  pub stderr : String
  pub cli_version : String
  pub was_cancelled : Bool
  pub was_timed_out : Bool
  pub process_started : Bool
  pub exit_code : Option ℤ
  pub allowlist : Json
  pub tools : List String
  pub contract : RuntimeContract
  pub schema : Json

abbrev pub check_encoding : Capture → ParsedEvents → ParsedEvents
check_encoding c p =
    if c.utf8_valid
    then p
    else record p { valid_jsonl = false; parse_error = some invalid_encoding }

abbrev pub activity_of : Python → Capture → ParsedEvents → Activity
activity_of py c p =
    classify_activity py p.events c.cli_version
      (p.valid_jsonl && p.turn_completed_count == 1 && p.terminal_is_last) c.stderr

abbrev pub is_broken : Activity → ParsedEvents → Bool
is_broken a p =
    is_supported a.protocol && not (length a.lifecycle == 0) && p.turn_completed_count == 1

abbrev pub check_lifecycle : Activity → ParsedEvents → ParsedEvents
check_lifecycle a p =
    if is_broken a p
    then record p { valid_jsonl = false; parse_error = some invalid_lifecycle }
    else p

-- The violations of the events that are not exempted.
unfoldable pub remaining_violations : Python → List String → List ℕ → ℕ → List Fields → List String
remaining_violations py tools exempt index [] = []
remaining_violations py tools exempt index (event ∷ events) =
    (if contains index exempt then [] else policy_violations py tools event)
    ++ remaining_violations py tools exempt (suc index) events

abbrev pub exempts : Capture → Activity → Bool
exempts c a = c.contract.rejection_warns && not (length a.exempt == 0)

abbrev pub check_rejections : Python → Capture → Activity → ParsedEvents → ParsedEvents
check_rejections py c a p =
    if exempts c a
    then record p { policy_violations = remaining_violations py c.tools a.exempt 0 p.events }
    else p

abbrev pub is_doubted : Capture → Activity → Bool
is_doubted c a = any is_unclear a.classifications && is_custom c.contract

abbrev pub check_activity : Capture → Activity → ParsedEvents → ParsedEvents
check_activity c a p =
    if is_doubted c a
    then record p {
      policy_violations = p.policy_violations ++ "tool activity not conclusively classified" ∷ [];
    }
    else p

-- `parsed` after all its replacements.
unfoldable pub settle : Python → Capture → Activity → ParsedEvents → ParsedEvents
unfolding remaining_violations
settle py c a p = check_activity c a (check_rejections py c a (check_lifecycle a p))

-- `normalized`
abbrev pub normalized_of :
    Python → Codec → Capture → Option String → Result (Option NormalizedOutput)
normalized_of py codec c none = ok none
normalized_of py codec c (some text) = do
  output ←
      normalize_output codec.decode py.encodable codec.replaced (codec.encode text) c.schema
        c.contract.fence_allowed
  ok (some output)

-- `except ValueError`: a TypeError passes.
abbrev covered : Result String → Result SchemaStatus
covered (ok t) = ok passed
covered (err e) = if e == "TypeError" then err e else ok failed

-- `schema_status`, with the exact-once test of a task with a contract of its own.
unfoldable pub schema_status_of : Capture → Option NormalizedOutput → Result SchemaStatus
unfolding schema_coverage
schema_status_of c none = ok not_run
schema_status_of c (some output) = elim output.error [
  | some e ↦ ok failed
  | none ↦
      if is_custom c.contract then covered (schema_coverage c.schema output.value) else ok passed
]

abbrev joined : List String → String
joined [] = ""
joined (x ∷ []) = x
joined (x ∷ xs) = concat x (concat "\n" (joined xs))

abbrev is_error : Fields → Bool
is_error event = str_is "error" (get "type" event) || str_is "turn.failed" (get "type" event)

abbrev pub combined_errors : Codec → Capture → ParsedEvents → String
combined_errors codec c p =
    concat c.stderr
      (concat "\n" (joined (map (λ e. codec.dumps (obj e)) (filter is_error p.events))))

abbrev pub process_of : Codec → Capture → ParsedEvents → Process
process_of codec c p = record {
  was_cancelled = c.was_cancelled;
  was_timed_out = c.was_timed_out;
  combined_errors = combined_errors codec c p;
  process_started = c.process_started;
  exit_code = c.exit_code;
  allowlist = c.allowlist;
}

-- The result, the final output and the activity that the audit records.
pub record Evaluation : Type 0 where
  pub result : InvocationResult
  pub normalized : Option NormalizedOutput
  pub activity : Activity

-- What follows from the stream as it was parsed and settled.
unfoldable pub conclude : Python → Codec → Capture → Activity → ParsedEvents → Result Evaluation
unfolding schema_status_of
conclude py codec c a p = do
  normalized ← normalized_of py codec c p.final_text
  status ← schema_status_of c normalized
  result ← validate_result (result_of py (process_of codec c p) p status)
  ok (record { result = result; normalized = normalized; activity = a })

-- The interpretation of a stream that was parsed.
unfoldable pub interpret : Python → Codec → Capture → ParsedEvents → Result Evaluation
unfolding settle conclude
interpret py codec c stream =
    let p = check_encoding c stream in
    let a = activity_of py c p in conclude py codec c a (settle py c a p)

-- `evaluate_capture`
unfoldable pub evaluate_capture : Python → Codec → Capture → Result Evaluation
unfolding interpret
evaluate_capture py codec c = do
  stream ← parse_event_stream py c.tools c.lines
  interpret py codec c stream
