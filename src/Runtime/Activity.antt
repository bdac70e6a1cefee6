-- ===== src/Runtime/Activity.antt =====
-- agent_harness/runtime_contract.py, `classify_activity`: which tools a stream shows to have run, and
-- the judgement of one item event of a tool.
pub mod Events
pub mod Classify
pub mod Judged
pub mod Cases
pub mod Lone
pub mod Doubt
pub mod Exempt
pub mod Conclusive
use dispatcher_for_codex_age.Prelude.{
  ℕ, String, Bool, true, false, not, ◌&&◌, ◌||◌, Option, none, some, List, [], ◌∷◌, ◌++◌, any, all,
  contains, length, ◌==◌, nat_eq, string_eq, if◌then◌else◌,
}
use dispatcher_for_codex_age.Prelude.Int.{pos}
use dispatcher_for_codex_age.Json.{
  Json, Fields, null, int, bool, keys, get, is_str, is_obj, is_null, str_is,
}
use dispatcher_for_codex_age.Runtime.Lifecycle.{Kind, is_completed, is_started, is_updated}

pub data Protocol : Type 0 where
  unsupported synthetic : Protocol
  codex_exec : String → Protocol

-- `protocol_for_version`; the pattern matches these four texts.
unfoldable pub protocol_for_version : String → Protocol
protocol_for_version version =
    if version == "dca.synthetic-runtime/1"
    then synthetic
    else if version == "codex-cli 0.153.4" || version == "fake-codex 0.153.4"
    then codex_exec "0.153.4"
    else if version == "codex-cli 0.155.1" || version == "fake-codex 0.155.1"
    then codex_exec "0.155.1"
    else unsupported

abbrev pub is_supported : Protocol → Bool
is_supported unsupported = false
is_supported _ = true

abbrev pub is_synthetic : Protocol → Bool
is_synthetic synthetic = true
is_synthetic _ = false

-- NO_TOOL_ACTIVITY, TOOL_ATTEMPT_REJECTED, TOOL_EXECUTED, UNKNOWN_OR_INCOMPLETE, and "STARTED".
pub data Class : Type 0 where
  no_activity rejected executed unclear started : Class

abbrev pub is_rejected : Class → Bool
is_rejected rejected = true
is_rejected _ = false

abbrev pub is_executed : Class → Bool
is_executed executed = true
is_executed _ = false

abbrev pub is_unclear : Class → Bool
is_unclear unclear = true
is_unclear _ = false

abbrev pub is_in_progress : Class → Bool
is_in_progress started = true
is_in_progress _ = false

-- An entry of `calls`; `evidence` has the indexes of the events.
pub record Call : Type 0 where
  pub call_id : String
  pub tool : String
  pub evidence : List ℕ
  pub states : List Class
  pub outcome : Option String
  pub closed : Bool

abbrev pub is_bool : Bool → Json → Bool
is_bool true (bool b) = b
is_bool false (bool b) = not b
is_bool _ _ = false

abbrev pub rejection_keys : List String
rejection_keys =
    "type" ∷ "id" ∷ "tool" ∷ "phase" ∷ "reason" ∷ "execution_started" ∷ "required_input"
    ∷ "required_work_satisfied" ∷ []

-- `set(item) == allowed`
abbrev pub has_rejection_keys : Fields → Bool
has_rejection_keys item =
    all (λ k. contains k rejection_keys) (keys item)
    && all (λ k. contains k (keys item)) rejection_keys

-- The shape of a rejection before execution.
unfoldable pub is_rejection : Kind → Fields → Bool
is_rejection event_type item =
    has_rejection_keys item
    && str_is "request_user_input" (get "tool" item)
    && is_completed event_type
    && str_is "before_execution" (get "phase" item)
    && str_is "noninteractive" (get "reason" item)
    && is_bool false (get "execution_started" item)
    && is_bool false (get "required_input" item)
    && is_bool true (get "required_work_satisfied" item)

-- What an event adds to its call: a state, the outcome where it sets one, and whether the event is
-- exempted.
pub record Judgement : Type 0 where
  pub state : Class
  pub sets : Option String
  pub exempts : Bool

abbrev pub shows : Class → Judgement
shows c = record { state = c; sets = none; exempts = false }

abbrev pub ends_as : Class → String → Judgement
ends_as c outcome = record { state = c; sets = some outcome; exempts = false }

abbrev pub is_nil : List Class → Bool
is_nil [] = true
is_nil (_ ∷ _) = false

abbrev pub judge_rejection : Kind → Fields → List Class → Judgement
judge_rejection event_type item states =
    if is_rejection event_type item && is_nil states
    then record {
      state = rejected;
      sets = some "noninteractive_preexecution_rejection";
      exempts = true;
    }
    else shows unclear

abbrev is_finished : Json → Bool
is_finished status = str_is "completed" status || str_is "failed" status

-- `type(code) is int`, and the outcome by whether it is 0.
abbrev exit_outcome : Json → Option String
exit_outcome (int (pos n)) = some (if n == 0 then "success" else "execution_failed")
exit_outcome (int _) = some "execution_failed"
exit_outcome _ = none

unfoldable pub judge_command : Kind → Fields → List Class → Judgement
judge_command event_type item states =
    let status = get "status" item in
    let code = get "exit_code" item in
    if str_is "declined" status && is_null code && is_completed event_type && is_nil states
    then ends_as rejected "declined"
    else if is_completed event_type && is_finished status
    then elim (exit_outcome code) [ some o ↦ ends_as executed o | none ↦ shows unclear ]
    else if str_is "in_progress" status && (is_started event_type || is_updated event_type)
    then shows started
    else shows unclear

unfoldable pub judge_dispatch : Kind → Fields → Judgement
judge_dispatch event_type item =
    let status = get "status" item in
    if is_started event_type && str_is "in_progress" status
    then shows executed
    else if is_completed event_type && is_finished status
    then ends_as executed (if str_is "completed" status then "completed" else "failed")
    else shows unclear

abbrev pub tool_kinds : List String
tool_kinds =
    "command_execution" ∷ "mcp_tool_call" ∷ "web_search" ∷ "file_change" ∷ "collab_tool_call" ∷ []

-- The chain on the item's type, for a tool.
unfoldable pub judge_tool : Kind → String → Fields → List Class → Judgement
unfolding judge_command judge_dispatch
judge_tool event_type kind item states =
    if kind == "command_execution"
    then judge_command event_type item states
    else if kind == "mcp_tool_call" || kind == "collab_tool_call"
    then judge_dispatch event_type item
    else if kind == "web_search"
    then shows
        (if is_str (get "query" item) && is_obj (get "action" item) then executed else unclear)
    else shows (
        if is_completed event_type && str_is "completed" (get "status" item)
        then executed
        else unclear)

-- The whole chain, for the states that the call of the event has.
unfoldable pub judge : Protocol → Kind → String → Fields → List Class → Judgement
unfolding is_rejection judge_tool
judge protocol event_type kind item states =
    if kind == "request_user_input_rejection" && is_synthetic protocol
    then judge_rejection event_type item states
    else if not (contains kind tool_kinds) || not (is_supported protocol)
    then shows unclear
    else judge_tool event_type kind item states
