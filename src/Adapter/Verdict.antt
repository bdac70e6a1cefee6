-- ===== src/Adapter/Verdict.antt =====
-- When a capture is a success, and that its result is one that the contract admits.
use dispatcher_for_codex_age.Prelude.{
  ◌≡◌, ◌↔◌, Bool, true, not, ◌&&◌, none, length, leb, ◌==◌, nat_eq, string_eq, is_some, arith,
}
use dispatcher_for_codex_age.Prelude.Result.{ok}
use dispatcher_for_codex_age.Adapter.{Python}
use dispatcher_for_codex_age.Adapter.Events.{ParsedEvents, IsParsed}
use dispatcher_for_codex_age.Adapter.Capture.{
  SchemaStatus, is_passed, Process, succeeded, served_model, is_allowlist, in_allowlist,
  rate_pattern, prefill_pattern, partial_pattern, model_failure, failure_of, validate_result,
  result_of,
}

-- What a success asks for, in no order.
abbrev pub is_success : Python → Process → ParsedEvents → SchemaStatus → Bool
is_success py c p status =
    not c.was_cancelled
    && not c.was_timed_out
    && not (py.search rate_pattern c.combined_errors)
    && not (py.search prefill_pattern c.combined_errors)
    && not (py.search partial_pattern c.combined_errors)
    && c.process_started
    && p.valid_jsonl
    && length p.policy_violations == 0
    && succeeded c.exit_code
    && p.turn_completed_count == 1
    && leb (length p.served_models) 1
    && is_allowlist c.allowlist
    && in_allowlist (served_model p.served_models) c.allowlist
    && is_some p.final_text
    && is_passed status

-- A capture whose stream was parsed has no failure code exactly if it was not stopped, its errors
-- match no pattern of the provider, the process started and ended with 0, the stream is valid
-- without a violation and has one completed turn, at most one served model was reported and the
-- allowlist admits it, and there is a final text whose value the schema accepts.
pub failure_of_iff :
    (py : Python) (c : Process) (p : ParsedEvents) (status : SchemaStatus)
    → IsParsed p
    → (failure_of py c p status ≡ none) ↔ (is_success py c p status ≡ true)
unfolding failure_of model_failure
failure_of_iff py c p status parsed = (λ h. ground (arith, parsed), λ h. ground arith)

-- The result of a capture whose stream was parsed meets the invariants of its contract, so to make
-- it does not raise.
pub result_of_valid :
    (py : Python) (c : Process) (p : ParsedEvents) (status : SchemaStatus)
    → IsParsed p
    → validate_result (result_of py c p status) ≡ ok (result_of py c p status)
unfolding validate_result result_of
result_of_valid py c p status parsed = ground (arith, failure_of_iff py c p status parsed)
