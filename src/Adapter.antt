-- ===== src/Adapter.antt =====
-- agent_harness/adapter.py and the audit in capabilities.py: what an event says against the policy
-- of its task.
pub mod Events
pub mod Stream
pub mod Capture
pub mod Evaluate
pub mod Verdict
mod Tests
use dispatcher_for_codex_age.Prelude.{
  String, Bool, true, false, not, ◌&&◌, ◌||◌, Option, none, some, List, [], ◌∷◌, ◌++◌, any,
  contains, ◌==◌, nat_eq, string_eq, if◌then◌else◌,
}
use dispatcher_for_codex_age.Prelude.Result.{Result}
use dispatcher_for_codex_age.Prelude.Text.{concat, codes, ends_in, is_within}
use dispatcher_for_codex_age.Json.{Json, Fields, str, obj, find, get, str_is}

-- What the code takes from Python's library: `json.loads` of a line, whether a value can be encoded,
-- `strip`, `casefold`, `re.search` without regard to case, and the text of a value. `loads` gives no
-- value where it raises JSONDecodeError; its other exceptions, a ValueError for an integer of too
-- many digits and a RecursionError, are raised.
pub record Python : Type 0 where
  pub loads : String → Result (Option Json)
  pub encodable : Json → Bool
  pub strip : String → String
  pub casefold : String → String
  pub search : String → String → Bool
  pub format : Json → String

-- `value or default` where the key is missing.
abbrev get_or : Json → String → Fields → Json
get_or default k fs = elim (find k fs) [ none ↦ default | some v ↦ v ]

-- `not isinstance(command, str) or not command.strip() or …`
abbrev invalid_command : Python → Json → Bool
invalid_command py (str command) =
    py.strip command == "" || py.search "(?:^|[\\s/;|])(?:codex|dca)(?:\\s|$)" command
invalid_command py _ = true

-- capabilities.py, `event_violation`, for the tools of a policy.
unfoldable pub event_violation : Python → List String → Fields → Option String
event_violation py tools item =
    let kind = get_or (str "") "type" item in
    if str_is "command_execution" kind
    then (if not (contains "shell" tools || contains "unified_exec" tools)
        then some "command tool not authorized"
        else if invalid_command py (get_or (str "") "command" item)
        then some "recursive or invalid command"
        else none)
    else if str_is "web_search" kind
    then (if contains "web_search" tools then none else some "web_search not authorized")
    else if str_is "mcp_tool_call" kind
    then (if contains
          (concat "mcp:"
            (concat (py.format (get "server" item)) (concat ":" (py.format (get "tool" item)))))
          tools
        then none
        else some "MCP tool not authorized")
    else some (concat "tool not authorized: " (py.format kind))

abbrev pub listed : Option String → List String
listed none = []
listed (some v) = v ∷ []

-- `_FORBIDDEN_ITEM_TYPES`
abbrev forbidden_types : List String
forbidden_types =
    "command_execution" ∷ "computer_use" ∷ "dynamic_tool_call" ∷ "file_change" ∷ "image_generation"
    ∷ "mcp_tool_call" ∷ "tool_call" ∷ "web_search" ∷ []

abbrev known_events : List String
known_events =
    "thread.started" ∷ "turn.started" ∷ "turn.completed" ∷ "turn.failed" ∷ "error" ∷ "item.started"
    ∷ "item.updated" ∷ "item.completed" ∷ []

abbrev has_token : String → Bool
has_token folded =
    any (λ t. is_within (codes t) (codes folded))
      ("subagent" ∷ "spawn_agent" ∷ "collaboration" ∷ [])

-- The tests on the event's type.
unfoldable pub type_violations : Python → List String → String → Fields → List String
unfolding event_violation
type_violations py tools event_type event =
    (if contains event_type known_events
      then []
      else concat "unrecognized event type: " event_type ∷ [])
    ++ (if has_token (py.casefold event_type)
        then concat "forbidden event type: " event_type ∷ []
        else [])
    ++ (if contains event_type forbidden_types || ends_in (codes "_tool_call") (codes event_type)
        then listed (event_violation py tools event)
        else [])

abbrev is_plain_item : Json → Bool
is_plain_item (str t) = contains t ("agent_message" ∷ "reasoning" ∷ "todo_list" ∷ "error" ∷ [])
is_plain_item _ = false

abbrev runs_codex : Python → Json → Bool
runs_codex py (str command) = py.search "(?:^|[\\s/])codex(?:\\s|$)" command
runs_codex py _ = false

-- The tests on the event's item.
unfoldable pub item_violations : Python → List String → Json → List String
unfolding event_violation
item_violations py tools (obj item) =
    (if is_plain_item (get "type" item) then [] else listed (event_violation py tools item))
    ++ (if runs_codex py (get "command" item) then "recursive Codex command detected" ∷ [] else [])
item_violations py tools _ = []

-- `_policy_violations`
unfoldable pub policy_violations : Python → List String → Fields → List String
unfolding type_violations item_violations
policy_violations py tools event = elim (get "type" event) [
  | str event_type ↦
      type_violations py tools event_type event ++ item_violations py tools (get "item" event)
  | _ ↦ "event type is missing or non-string" ∷ []
]
