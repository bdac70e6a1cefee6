-- ===== src/Bridge/Tests.antt =====
-- Runs of the event store and the dispatcher on one event, and the theorems at them.
use dispatcher_for_codex_age.Prelude.Sort.{sort}
use dispatcher_for_codex_age.Prelude.{
  ◌≤◌, String, ◌≡◌, ◌≢◌, refl, true, false, none, some, [], ◌∷◌, ◌==◌, nat_eq, string_eq, list_eq,
  arith, if◌then◌else◌, count, count_if, ap,
}
use dispatcher_for_codex_age.Prelude.Int.{pos}
use dispatcher_for_codex_age.Prelude.Result.{ok, is_ok}
use dispatcher_for_codex_age.Json.{Json, finite, str, int, float, arr, obj, cons, nil, field, end}
use dispatcher_for_codex_age.Prelude.Text.{path_parts}
use dispatcher_for_codex_age.Notifications.Identifier.{is_identifier}
use dispatcher_for_codex_age.Host.{Host, Bytes, File, safe_path, private_read, exclusive}
use dispatcher_for_codex_age.Bridge.Contracts.{
  BridgeEvent, BridgeBinding, batch_completed, check_event, event_dump, validate_event,
}
use dispatcher_for_codex_age.Bridge.Store.{
  Store, Row, put, read_event, json_name, signed, validate_manifest, event_id_of, pending, read_all,
  records,
}
use dispatcher_for_codex_age.Bridge.Store.Redelivery.{redelivery_suppressed}
use dispatcher_for_codex_age.Bridge.Dispatcher.{
  Request, turn, failure, deliver, is_reserved, is_turn_start,
}
use dispatcher_for_codex_age.Bridge.Dispatcher.AtMostOnce.{
  here, next, deliver_once, all_reserved, reserved_at_most_once,
}
use dispatcher_for_codex_age.Bridge.Dispatcher.Budgets.{
  deliver_within_budgets, failure_blocks_delivery,
}

abbrev pub hash : String
hash = "aaaaaaaaaaaaaaaaaaaaaaaaaaaaaaaaaaaaaaaaaaaaaaaaaaaaaaaaaaaaaaaa"

abbrev pub manifest : Json
manifest = obj (
    field "files"
      (arr (cons (obj (field "path" (str "job.json") (field "sha256" (str hash) end))) nil))
      (field "status" (str "SUCCESS") (field "task_id" (str "task") end)))

abbrev event : BridgeEvent
event = record {
  kind = batch_completed;
  task_id = "task";
  job_id = "aggregate";
  attempt_id = "aggregate-001";
  target_thread = "thread";
  manifest = "completion-manifest.json";
  manifest_sha256 = hash;
  sequence = 0;
  occurred_at = finite (pos 5) 0;
}

abbrev pub document : Json
document = obj (
    field "event"
      (obj (
        field "attempt_id" (str "aggregate-001") (
          field "job_id" (str "aggregate") (
            field "kind" (str "batch_completed") (
              field "manifest" (str "completion-manifest.json") (
                field "manifest_sha256" (str hash) (
                  field "occurred_at" (float (finite (pos 5) 0)) (
                    field "sequence" (int (pos 0)) (
                      field "source" (str "trusted_parent") (
                        field "target_thread" (str "thread") (
                          field "task_id" (str "task")
                            (field "version" (int (pos 1)) end))))))))))))
      (field "event_id" (str hash) (field "signature" (str "seal") end)))

-- A host whose hash is constant and whose decoder knows three contents.
abbrev pub host : Host
host = record {
  uid = 1000;
  digest = λ content. hash;
  hmac_sha256 = λ key message. "seal";
  canonical = λ value. 1 ∷ [];
  dumps = λ value. 1 ∷ [];
  loads = λ content.
      if content == 1 ∷ []
      then some document
      else if content == 2 ∷ []
      then some manifest
      else if content == 3 ∷ []
      then some (obj end)
      else none;
  resolves = λ path. true;
}

abbrev pub private_file : Bytes → File
private_file content = record { content = content; owner = 1000; mode = 0o600; regular = true }

abbrev pub store : Store
store = record {
  key = [];
  events = [];
  artifacts =
      ("completion-manifest.json", private_file (2 ∷ []))
      ∷ ("job.json", private_file (3 ∷ []))
      ∷ [];
  ledger = [];
  torn = false;
  cancelled = false;
  changed = false;
}

abbrev pub filled : Store
filled = record store { events = (json_name hash, private_file (1 ∷ [])) ∷ []; changed = true }

put_run : put host event store ≡ (ok (hash, true), filled)
unfolding put validate_manifest safe_path path_parts private_read exclusive event_id_of signed
put_run = refl

redelivery_suppressed_example :
    (read_event host filled (json_name hash) ≡ ok (hash, event))
    × (put host (record event { sequence = 7; occurred_at = finite (pos 9) 0 }) filled
        ≡ (ok (hash, false), filled))
unfolding check_event is_identifier path_parts signed event_dump
redelivery_suppressed_example =
    redelivery_suppressed host store event 7 (finite (pos 9) 0) put_run refl (omega arith) refl

abbrev pub binding : BridgeBinding
binding = record {
  thread_id = "thread";
  task_id = "task";
  model = "model";
  provider = "provider";
  working_directory = "/work";
  expires_at = finite (pos 100) 0;
  wake_budget = 1;
  main_turn_budget = 2;
  config_sha256 = hash;
  executable_sha256 = hash;
}

abbrev pub request : Request
request = record {
  now = finite (pos 10) 0;
  active = false;
  permission_pending = false;
  was_cancelled = false;
}

abbrev after_turn : Store
after_turn = (deliver host binding request 4 (turn "turn-2") filled).1

abbrev after_failure : Store
after_failure = (deliver host binding request 4 (failure "APP_SERVER_DISCONNECTED") filled).1

turn_rows :
    after_turn.ledger
    ≡ Row.reserved hash (hash ∷ [])
      ∷ Row.rpc_send "turn/start" 4 (some "thread")
      ∷ Row.acknowledged hash "turn-2" (hash ∷ [])
      ∷ []
unfolding deliver records pending read_all sort read_event private_read validate_event check_event
    is_identifier path_parts event_id_of validate_manifest safe_path
turn_rows = refl

reserved_at_most_once_example :
    count hash (all_reserved (deliver host binding request 5 (turn "turn-3") after_turn).1.ledger)
    ≤ 1
reserved_at_most_once_example =
    reserved_at_most_once
      (next (next here (deliver_once binding request 4 (turn "turn-2") filled))
        (deliver_once binding request 5 (turn "turn-3") after_turn))
      refl refl hash

deliver_within_budgets_example :
    (count_if is_reserved after_turn.ledger ≤ 1) × (count_if is_turn_start after_turn.ledger ≤ 2)
deliver_within_budgets_example =
    deliver_within_budgets host binding request 4 (turn "turn-2") filled (omega arith) (omega arith)

failure_rows :
    after_failure.ledger
    ≡ Row.reserved hash (hash ∷ [])
      ∷ Row.rpc_send "turn/start" 4 (some "thread")
      ∷ Row.ambiguous hash (hash ∷ [])
      ∷ []
unfolding deliver records pending read_all sort read_event private_read validate_event check_event
    is_identifier path_parts event_id_of validate_manifest safe_path
failure_rows = refl

failure_changes : after_failure ≢ filled
failure_changes e = cc (failure_rows, ap (λ (s : Store). s.ledger) e)

failure_blocks_delivery_example :
    ((deliver host binding request 5 (turn "turn-3") after_failure).1 ≡ after_failure)
    × (is_ok (deliver host binding request 5 (turn "turn-3") after_failure).0 ≡ false)
failure_blocks_delivery_example =
    failure_blocks_delivery host binding request 4 "APP_SERVER_DISCONNECTED" filled failure_changes
      binding request 5 (turn "turn-3")
