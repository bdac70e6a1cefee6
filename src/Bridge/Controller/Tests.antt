-- ===== src/Bridge/Controller/Tests.antt =====
-- Concrete turns: the first starts the jobs, and a continuation reads the results and confirms them.
use dispatcher_for_codex_age.Prelude.{
  ◌||◌, ◌≤◌, String, ◌≡◌, refl, true, false, Option, none, some, [], ◌∷◌, list_eq, string_eq,
}
use dispatcher_for_codex_age.Prelude.Int.{pos}
use dispatcher_for_codex_age.Prelude.Result.{ok, is_ok}
use dispatcher_for_codex_age.Prelude.Sort.{sort}
use dispatcher_for_codex_age.Json.{
  Json, Fields, str, int, bool, obj, arr, nil, cons, end, field, finite,
}
use dispatcher_for_codex_age.Prelude.Text.{path_parts}
use dispatcher_for_codex_age.Host.{Directory, private_read, safe_path, exclusive}
use dispatcher_for_codex_age.Notifications.Identifier.{is_identifier}
use dispatcher_for_codex_age.Schema.{
  each_property, check_properties, check_required, check_items, check_range, schema_types, types_of,
  check_children, check_limits, check_definition, validate_schema_definition,
}
use dispatcher_for_codex_age.Schema.Values.{
  matches_type, matches_any, check_type, check_fields, check_object, check_elements, check_each,
  check_bound, check_array, check_text, check_number, check_parts, check_value, validate_part,
}
use dispatcher_for_codex_age.Schema.Depth.{max}
use dispatcher_for_codex_age.Schema.Check.{validate_json_schema}
use dispatcher_for_codex_age.Bridge.Contracts.{check_event, validate_event, check_binding}
use dispatcher_for_codex_age.Bridge.Store.{
  records, pending, read_all, read_event, event_id_of, validate_manifest,
}
use dispatcher_for_codex_age.Bridge.Dispatcher.{turn, deliver, time_geb}
use dispatcher_for_codex_age.Bridge.Tests.{hash, host, filled, binding, request}
use dispatcher_for_codex_age.Bridge.Controller.{
  Spec, Controller, Moment, guard, check_tool, read_result, read_rows, read_results, answer,
  run_tool, after_checks, tool,
}
use dispatcher_for_codex_age.Bridge.Controller.Turn.{
  Arrival, complete, on_item, on_turn, on_event, on_method, check_message, after_message,
  on_message, messages, run_turn,
}
use dispatcher_for_codex_age.Bridge.Specs.{
  SupervisorSpec, fixture, check_job, check_fields as check_spec_fields, check_spec,
}
use dispatcher_for_codex_age.Bridge.Controller.Create.{
  Creation, bind_thread, create_thread, IsBound, create_thread-IsBound,
}
use dispatcher_for_codex_age.Bridge.Controller.Limits.{Run, run_turns, turn_limits}
use dispatcher_for_codex_age.Bridge.Controller.Continue.{
  Surroundings, confirmed, confirm, is_confirmation, request_of, continue_delivery,
}
use dispatcher_for_codex_age.Bridge.Controller.Settled.{
  IsSettled, continue_delivery-IsSettled, continuation_error_blocks,
}

abbrev spec : Spec
spec = record { task_id = "task"; expires_at = finite (pos 100) 0; job_ids = "job" ∷ [] }

abbrev moment : Moment
moment = record {
  now = finite (pos 10) 0;
  cancel_file = false;
  cancel_set = false;
  config_sha256 = hash;
}

abbrev controller : Controller
controller = record {
  store = filled;
  root = [];
  binding = binding;
  launches = 0;
  active_turn = none;
  permission_pending = false;
  result_reads = 0;
}

abbrev arrival : Fields → Arrival
arrival message = record { message = message; received = moment; called = moment; responded = none }

abbrev start_call : Fields
start_call = field "method" (str "item/tool/call") (
    field "id" (int (pos 1)) (
      field "params"
        (obj (
          field "threadId" (str "thread") (
            field "turnId" (str "turn-1")
              (field "arguments" (obj end) (field "tool" (str "dca_start_approved_jobs") end)))))
        end))

abbrev first_turn : Run
first_turn = record {
  continuation = false;
  turn_id = "turn-1";
  last = "TimeoutError";
  arrivals = arrival start_call ∷ arrival start_call ∷ [];
}

started_once : (run_turns host spec (first_turn ∷ first_turn ∷ []) controller).launches ≡ 1
unfolding run_turn messages on_message after_message check_message on_method tool guard check_tool
    after_checks run_tool answer
started_once = refl

turn_limits_example :
    let c' = run_turns host spec (first_turn ∷ first_turn ∷ []) controller in
    (c'.launches ≤ 1)
    × (c'.result_reads ≤ 1)
    × ((r : Run)
        → let c'' = (run_turn host spec r.continuation r.turn_id r.last r.arrivals c').1 in
          (r.continuation ≡ true → c''.launches ≡ c'.launches)
          × (r.continuation ≡ false → c''.result_reads ≡ c'.result_reads))
turn_limits_example = turn_limits host spec (first_turn ∷ first_turn ∷ []) controller refl refl

abbrev supervisor : SupervisorSpec
supervisor = record {
  task_id = "task";
  executable = "/bin/codex";
  codex_home = "/home/codex";
  model = "model";
  provider = "provider";
  working_directory = "/work";
  allowed_actions = "start_approved_jobs" ∷ "read_verified_results" ∷ "summarize_results" ∷ [];
  expires_at = finite (pos 100) 0;
  wake_budget = 1;
  main_turn_budget = 2;
  main_turn_timeout = finite (pos 600) 0;
  jobs =
      record {
        job_id = "job";
        attempt_id = "attempt";
        kind = fixture;
        plan_root = none;
        delay_seconds = finite (pos 0) 0;
        fixture_value = pos 1;
        max_workers = 1;
        agent_executable = "codex";
        agent_home = none;
      }
      ∷ [];
  notification_config = "/home/notify.json";
  minimum_idle_seconds = finite (pos 0) 0;
}

supervisor_passes : check_spec host supervisor ≡ ok supervisor
unfolding check_spec check_spec_fields check_job is_identifier path_parts
supervisor_passes = refl

abbrev thread_result : Fields
thread_result = field "model" (str "model") (
    field "modelProvider" (str "provider")
      (field "cwd" (str "/work") (field "thread" (obj (field "id" (str "thread") end)) end)))

abbrev creation : Creation
creation = record {
  now = finite (pos 10) 0;
  cancel_file = false;
  config_sha256 = hash;
  executable_sha256 = hash;
  current_thread = some "other";
  serial = 1;
  reply = ok thread_result;
}

abbrev bound_files : Directory
bound_files =
    ("binding.json", record { content = []; owner = 1000; mode = 0o600; regular = true }) ∷ []

created : (create_thread host (λ b. []) supervisor creation [] filled).0 ≡ ok (binding, bound_files)
unfolding create_thread bind_thread check_binding is_identifier exclusive
created = refl

create_thread-IsBound_example :
    (result : Fields) × (creation.reply ≡ ok result)
    × IsBound supervisor creation result binding
    × (exclusive host "binding.json" [] [] ≡ ok bound_files)
    × ((filled.cancelled || creation.cancel_file) ≡ false)
    × (time_geb creation.now supervisor.expires_at ≡ false)
create_thread-IsBound_example =
    create_thread-IsBound host (λ b. []) supervisor creation [] bound_files filled binding created

-- The host's messages end before the turn does.
abbrev lost : Surroundings
lost = record {
  at_guard = moment;
  at_delivery = moment;
  serial = 4;
  reply = turn "turn-2";
  arrivals = [];
  last = "TimeoutError";
}

abbrev decode : String → Option Json
decode text = none

passes : guard spec lost.at_guard controller ≡ ok tt
unfolding guard
passes = refl

delivered : deliver host binding (request_of lost controller) 4 (turn "turn-2") filled ≡ (
  ok (some (hash, "turn-2", hash ∷ [])),
  (deliver host binding (request_of lost controller) 4 (turn "turn-2") filled).1,
)
unfolding deliver records pending read_all sort read_event private_read validate_event check_event
    is_identifier path_parts event_id_of validate_manifest safe_path
delivered = refl

continue_delivery-IsSettled_example :
    IsSettled spec hash
      (continue_delivery host decode spec lost controller).0
      (continue_delivery host decode spec lost controller).1
continue_delivery-IsSettled_example =
    continue_delivery-IsSettled host decode spec lost controller passes delivered

raised : is_ok (continue_delivery host decode spec lost controller).0 ≡ false
unfolding deliver records pending read_all sort read_event private_read validate_event check_event
    is_identifier path_parts event_id_of validate_manifest safe_path continue_delivery guard
    run_turn messages confirm
raised = refl

continuation_error_blocks_example :
    let later = (continue_delivery host decode spec lost controller).1.store in
    ((deliver host binding request 5 (turn "turn-3") later).1 ≡ later)
    × (is_ok (deliver host binding request 5 (turn "turn-3") later).0 ≡ false)
continuation_error_blocks_example =
    continuation_error_blocks host decode spec lost controller passes delivered raised binding
      request 5 (turn "turn-3")

-- A continuation that reads the results, says something and ends.
abbrev read_call : Fields
read_call = field "method" (str "item/tool/call") (
    field "id" (int (pos 1)) (
      field "params"
        (obj (
          field "threadId" (str "thread") (
            field "turnId" (str "turn-2")
              (field "arguments" (obj end) (field "tool" (str "dca_read_verified_results") end)))))
        end))

abbrev spoken : Fields
spoken = field "method" (str "item/completed") (
    field "params"
      (obj (
        field "item" (obj (field "type" (str "agentMessage") (field "text" (str "done") end))) end))
      end)

abbrev turn_end : Fields
turn_end = field "method" (str "turn/completed") (
    field "params"
      (obj
        (field "turn" (obj (field "id" (str "turn-2") (field "status" (str "completed") end))) end))
      end)

abbrev finished : Surroundings
finished = record lost { arrivals = arrival read_call ∷ arrival spoken ∷ arrival turn_end ∷ [] }

abbrev confirmation : Json
confirmation = obj (
    field "task_id" (str "task") (
      field "confirmed" (bool true)
        (field "result_files" (arr (cons (str "job.json") nil)) (field "summary" (str "ok") end))))

confirms :
    (continue_delivery host (λ text. some confirmation) spec finished controller).0
    ≡ ok (confirmed confirmation)
unfolding deliver records pending read_all sort read_event private_read validate_event check_event
    is_identifier path_parts event_id_of validate_manifest safe_path continue_delivery guard
    run_turn messages confirm on_message after_message check_message on_method tool check_tool
    after_checks run_tool read_results read_rows read_result answer on_event on_item on_turn
    complete exclusive is_confirmation validate_json_schema validate_schema_definition validate_part
    types_of schema_types check_children check_limits each_property check_properties check_required
    check_items check_range check_value check_parts check_object check_fields check_type
    matches_type matches_any check_array check_each check_elements check_bound check_text
    check_number check_definition max
confirms = refl
