-- ===== src/Adapter/Capture.antt =====
-- agent_harness/adapter.py, `evaluate_capture`: the failure code of a capture, and the result with
-- the invariants of contracts.py.
use dispatcher_for_codex_age.Prelude.{
  String, Bool, true, false, not, ◌&&◌, ◌||◌, Option, none, some, List, [], ◌∷◌, any, all, length,
  ltb, ◌==◌, nat_eq, string_eq, if◌then◌else◌, is_some,
}
use dispatcher_for_codex_age.Prelude.Int.{ℤ, pos}
use dispatcher_for_codex_age.Prelude.Result.{Result, ok, ◌>>◌, refuse}
use dispatcher_for_codex_age.Json.{Json, arr, elements, is_str, str_is}
use dispatcher_for_codex_age.Adapter.{Python}
use dispatcher_for_codex_age.Adapter.Events.{ParsedEvents}

-- `FailureCode`
pub data FailureCode : Type 0 where
  cancelled timed_out rate_limited prefill_error partial_error cli_nonzero_exit : FailureCode
  event_stream_invalid policy_violation turn_completed_missing silent_fallback : FailureCode
  profile_invalid final_output_missing output_schema_invalid : FailureCode
  model_not_reported call_limit_exceeded payload_invalid : FailureCode

-- `SchemaValidationStatus`
pub data SchemaStatus : Type 0 where
  passed failed not_run : SchemaStatus

abbrev pub is_passed : SchemaStatus → Bool
is_passed passed = true
is_passed _ = false

-- The rest of what the code looks at: the flags of the process, its errors as one text, and the
-- value of the profile's allowlist.
pub record Process : Type 0 where
  pub was_cancelled : Bool
  pub was_timed_out : Bool
  pub combined_errors : String
  pub process_started : Bool
  pub exit_code : Option ℤ
  pub allowlist : Json

unfoldable pub succeeded : Option ℤ → Bool
succeeded (some (pos n)) = n == 0
succeeded _ = false

-- `served_model`, or `none` for NOT_REPORTED.
abbrev pub served_model : List String → Option String
served_model (m ∷ []) = some m
served_model _ = none

unfoldable pub is_allowlist : Json → Bool
is_allowlist (arr xs) = all is_str (elements xs)
is_allowlist _ = false

unfoldable pub in_allowlist : Option String → Json → Bool
in_allowlist none v = true
in_allowlist (some m) (arr xs) = m == "NOT_REPORTED" || any (str_is m) (elements xs)
in_allowlist (some m) _ = m == "NOT_REPORTED"

abbrev pub rate_pattern : String
rate_pattern = "(?:\\b429\\b|rate[ _-]?limit)"

abbrev pub prefill_pattern : String
prefill_pattern =
    "prefill.{0,120}(?:parameter|unsupported|invalid)|(?:parameter|unsupported|invalid).{0,120}prefill"

abbrev pub partial_pattern : String
partial_pattern =
    "partial.{0,120}(?:parameter|unsupported|invalid)|(?:parameter|unsupported|invalid).{0,120}partial"

-- The branch where the process and its stream are in order.
unfoldable pub model_failure : Json → ParsedEvents → SchemaStatus → Option FailureCode
unfolding is_allowlist in_allowlist
model_failure allowlist p status =
    if not (is_allowlist allowlist)
    then some profile_invalid
    else if not (in_allowlist (served_model p.served_models) allowlist)
    then some silent_fallback
    else if not (is_some p.final_text)
    then some final_output_missing
    else if not (is_passed status)
    then some output_schema_invalid
    else none

-- `failure_code`
unfoldable pub failure_of : Python → Process → ParsedEvents → SchemaStatus → Option FailureCode
unfolding succeeded model_failure
failure_of py c p status =
    if c.was_cancelled
    then some cancelled
    else if c.was_timed_out
    then some timed_out
    else if py.search rate_pattern c.combined_errors
    then some rate_limited
    else if py.search prefill_pattern c.combined_errors
    then some prefill_error
    else if py.search partial_pattern c.combined_errors
    then some partial_error
    else if not c.process_started
    then some cli_nonzero_exit
    else if not p.valid_jsonl
    then some event_stream_invalid
    else if not (length p.policy_violations == 0)
    then some policy_violation
    else if not (succeeded c.exit_code)
    then some cli_nonzero_exit
    else if p.turn_completed_count == 0
    then some turn_completed_missing
    else if ltb 1 (length p.served_models)
    then some silent_fallback
    else model_failure c.allowlist p status

-- `InvocationResult`, of the fields that its invariants and a batch look at.
pub record InvocationResult : Type 0 where
  pub success : Bool
  pub exit_code : Option ℤ
  pub turn_completed : Bool
  pub schema_status : SchemaStatus
  pub failure_code : Option FailureCode

-- `_validate_terminal_invariants`
unfoldable pub validate_result : InvocationResult → Result InvocationResult
validate_result r = do
  refuse (r.success && is_some r.failure_code) "Successful results must not have a failure_code."
  refuse (not r.success && not (is_some r.failure_code)) "Failed results require a failure_code."
  refuse (r.success && not r.turn_completed) "Successful results require turn_completed=true."
  refuse (r.success && not (is_passed r.schema_status))
      "Successful results require schema validation PASS."
  ok r

-- The result that `evaluate_capture` makes.
unfoldable pub result_of : Python → Process → ParsedEvents → SchemaStatus → InvocationResult
unfolding failure_of
result_of py c p status =
    let code = failure_of py c p status in
    record {
      success = not (is_some code);
      exit_code = c.exit_code;
      turn_completed = p.turn_completed_count == 1;
      schema_status = status;
      failure_code = code;
    }
