-- ===== src/Notifications/Event.antt =====
-- notifications/core.py, `NotificationEvent`.
use dispatcher_for_codex_age.Prelude.{
  String, Bool, true, false, not, ◌&&◌, ◌||◌, Option, none, some, List, [], ◌∷◌, all, any, contains,
  leb, length, ◌==◌, nat_eq, string_eq, is_some,
}
use dispatcher_for_codex_age.Prelude.Int.{pos}
use dispatcher_for_codex_age.Prelude.Result.{Result, ok, ◌>>◌, refuse}
use dispatcher_for_codex_age.Prelude.Text.{codes, is_upper, is_digit}
use dispatcher_for_codex_age.Json.{Json, Float, Items, finite, null, str, arr, nil, cons}
use dispatcher_for_codex_age.Host.{Host}
use dispatcher_for_codex_age.Bridge.Contracts.{is_time}
use dispatcher_for_codex_age.Notifications.Identifier.{is_identifier}

pub record NotificationEvent : Type 0 where
  pub source : String
  pub kind : String
  pub status : String
  pub session_id : Option String
  pub turn_id : Option String
  pub run_id : Option String
  pub task_id : Option String
  pub shard_id : Option String
  pub attempt_id : Option String
  pub failure_code : Option String
  pub metrics : List (String × Json)
  pub occurred_at : Float
  pub event_id : String

-- `KINDS`
abbrev pub kinds : List String
kinds =
    "turn_started" ∷ "turn_completed" ∷ "session_ended" ∷ "interrupted" ∷ "subagent_stopped"
    ∷ "batch_completed" ∷ "batch_failed" ∷ "shard_failed" ∷ "explicit_retry_required"
    ∷ "human_action_required" ∷ "delivery_test" ∷ "event_acceptance_completed"
    ∷ "permission_request_observed" ∷ []

-- `STATUSES`
abbrev pub statuses : List String
statuses =
    "STARTED" ∷ "COMPLETED" ∷ "FAILED" ∷ "INTERRUPTED" ∷ "REQUIRED" ∷ "TEST" ∷ "OBSERVED" ∷ []

-- `METRICS`
abbrev pub metric_names : List String
metric_names =
    "elapsed_seconds" ∷ "planned" ∷ "success" ∷ "failed" ∷ "incomplete" ∷ "same_thread_verified"
    ∷ "wait_model_requests" ∷ "duplicate_suppression_verified" ∷ []

-- The fields that `CORRELATIONS` names, in its order.
abbrev pub correlations : NotificationEvent → List (Option String)
correlations e = e.session_id ∷ e.turn_id ∷ e.run_id ∷ e.task_id ∷ e.shard_id ∷ e.attempt_id ∷ []

-- `identifier(value)` does not raise.
abbrev pub identifies : Option String → Bool
identifies none = true
identifies (some value) = is_identifier value

-- `re.fullmatch("[A-Z0-9_]{1,100}", code)`
abbrev pub is_failure_code : String → Bool
is_failure_code code =
    let cs = codes code in
    leb 1 (length cs) && leb (length cs) 100 && all (λ c. is_upper c || is_digit c || c == b'_') cs

-- `type(value) in {int, float}`, finite and not negative.
abbrev pub is_measure : Json → Bool
is_measure (Json.int (pos n)) = true
is_measure (Json.float (finite (pos m) k)) = true
is_measure _ = false

abbrev pub text_or_null : Option String → Json
text_or_null none = null
text_or_null (some s) = str s

abbrev pub texts_or_null : List (Option String) → Items
texts_or_null [] = nil
texts_or_null (x ∷ xs) = cons (text_or_null x) (texts_or_null xs)

-- `identity`, and the hash that is the event's id.
unfoldable pub expected_id : Host → NotificationEvent → String
expected_id h e = h.digest (
    h.dumps (
      arr (
        cons (str e.source) (
          cons (str e.kind) (
            cons (str e.status)
              (cons (text_or_null e.failure_code) (texts_or_null (correlations e))))))))

-- `NotificationEvent.__post_init__`
unfoldable pub make_event : Host → NotificationEvent → Result NotificationEvent
make_event h e = do
  refuse (not (contains e.source ("codex" ∷ "harness" ∷ "test" ∷ []))) "INVALID_SOURCE"
  refuse (not (contains e.kind kinds) || not (contains e.status statuses)) "INVALID_EVENT_TYPE"
  refuse (e.kind == "permission_request_observed" && not (e.status == "OBSERVED"))
      "PERMISSION_OBSERVATION_ONLY"
  refuse (not (all identifies (correlations e))) "INVALID_IDENTIFIER"
  refuse (not (any is_some (correlations e))) "CORRELATION_REQUIRED"
  refuse (elim e.failure_code [ none ↦ false | some code ↦ not (is_failure_code code) ])
      "INVALID_FAILURE_CODE"
  refuse (not (is_time e.occurred_at)) "INVALID_TIME"
  refuse (not (all (λ m. contains m.0 metric_names && is_measure m.1) e.metrics)) "INVALID_METRIC"
  refuse (not (e.event_id == "") && not (e.event_id == expected_id h e)) "EVENT_ID_MISMATCH"
  ok (record e { event_id = expected_id h e })
