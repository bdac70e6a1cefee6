-- ===== src/Bridge/Controller/Turn.antt =====
-- main_agent_bridge/controller.py, `Controller._turn`: the loop over the messages of the host.
use dispatcher_for_codex_age.Prelude.{
  String, Bool, true, false, not, ◌&&◌, ◌||◌, Option, none, some, List, [], ◌∷◌, contains, any,
  ◌==◌, nat_eq, string_eq, if◌then◌else◌, is_some,
}
use dispatcher_for_codex_age.Prelude.Int.{pos}
use dispatcher_for_codex_age.Prelude.Result.{Result, ok, err, ◌>>=◌, ◌>>◌, refuse}
use dispatcher_for_codex_age.Prelude.Text.{concat, utf8, codes, is_within}
use dispatcher_for_codex_age.Json.{
  Json, Fields, str, obj, arr, null, bool, int, float, finite, nil, end, elements, keys, find, get,
  str_is,
}
use dispatcher_for_codex_age.Host.{Host, exclusive}
use dispatcher_for_codex_age.Bridge.Store.{noted, append}
use dispatcher_for_codex_age.Bridge.Controller.{Spec, Controller, Moment, guard, tool}

-- A message, and what the machine answers while it is handled.
pub record Arrival : Type 0 where
  pub message : Fields
  pub received : Moment
  pub called : Moment  -- at the guard of `_tool`
  pub responded : Option String  -- what `respond` raises

-- How the loop goes on after a message.
pub data Progress : Type 0 where
  goes : Controller → Json → Progress
  returns : Controller → String → Progress
  raises : Controller → String → Progress

-- `bool(value)`
abbrev pub truthy : Json → Bool
truthy null = false
truthy (bool b) = b
truthy (int n) = elim n [ pos m ↦ not (m == 0) | _ ↦ true ]
truthy (float x) = elim x [ finite n k ↦ elim n [ pos m ↦ not (m == 0) | _ ↦ true ] | _ ↦ true ]
truthy (str s) = not (s == "")
truthy (arr xs) = elim xs [ nil ↦ false | _ ↦ true ]
truthy (obj fs) = elim fs [ end ↦ false | _ ↦ true ]

-- `d.get(key, {})`, on which the code calls `get`.
abbrev object_at : String → Fields → Result Fields
object_at key fs = elim (find key fs) [
  | none ↦ ok end
  | some v ↦ elim v [ obj gs ↦ ok gs | _ ↦ err "AttributeError" ]
]

-- `value in a_set_of_texts`: lists and dicts have no hash.
abbrev in_texts : Json → List String → Result Bool
in_texts (str s) texts = ok (contains s texts)
in_texts (arr xs) texts = err "TypeError"
in_texts (obj fs) texts = err "TypeError"
in_texts _ texts = ok false

-- `params.get("threadId") not in {None, self.binding.thread_id}`
abbrev check_thread : Controller → Fields → Result (Unit {0})
check_thread c params = elim (get "threadId" params) [
  | null ↦ ok tt
  | v ↦ in_texts v (c.binding.thread_id ∷ []) >>= λ known. refuse (not known) "FOREIGN_THREAD_EVENT"
]

-- `"waitingOnApproval" in flags`
abbrev waits : Json → Result Bool
waits (arr xs) = ok (any (str_is "waitingOnApproval") (elements xs))
waits (obj fs) = ok (contains "waitingOnApproval" (keys fs))
waits (str s) = ok (is_within (codes "waitingOnApproval") (codes s))
waits _ = err "TypeError"

-- `params.get("status", {}).get("activeFlags", [])`
abbrev pub waits_on_approval : Fields → Result Bool
waits_on_approval params = do
  status ← object_at "status" params
  waits (elim (find "activeFlags" status) [ none ↦ arr nil | some v ↦ v ])

abbrev allowed_items : List String
allowed_items =
    "userMessage" ∷ "agentMessage" ∷ "reasoning" ∷ "dynamicToolCall" ∷ "functionCallOutput" ∷ []

-- The item's kind, if it is allowed, and the item.
abbrev host_item : Fields → Result (Json × Fields)
host_item params = do
  item ← object_at "item" params
  known ← in_texts (get "type" item) allowed_items
  refuse (not known) "FORBIDDEN_HOST_ITEM"
  ok (get "type" item, item)

-- `params["turn"]`, with its `id`.
abbrev pub turn_of : Fields → Result (Json × Fields)
turn_of params = elim (find "turn" params) [
  | none ↦ err "KeyError"
  | some v ↦ elim v [
    | obj turn ↦ elim (find "id" turn) [ none ↦ err "KeyError" | some id ↦ ok (id, turn) ]
    | _ ↦ err "TypeError"
  ]
]

-- The end of a turn: the row, and the file of the final text.
unfoldable pub complete : Host → String → Fields → Controller → Json → Progress
complete h turn_id turn c final =
    let noted_turn = record c { store = append (noted "TURN_COMPLETED") c.store } in
    if not (str_is "completed" (get "status" turn)) || not (truthy final)
    then raises c "MAIN_TURN_FAILED"
    else elim final [
      | str text ↦
          elim (exclusive h (concat "main-final-" (concat turn_id ".txt")) (utf8 text) c.root) [
            | err e ↦ raises noted_turn e
            | ok root ↦ returns (record noted_turn { root = root }) text
          ]
      | _ ↦ raises noted_turn "AttributeError"
    ]

abbrev awaits_human : Controller → Progress
awaits_human c = raises (record c { permission_pending = true }) "HUMAN_PERMISSION_REQUIRED"

abbrev pub method_of : Fields → Json
method_of message = elim (find "method" message) [ none ↦ str "" | some v ↦ v ]

-- An event of an item.
unfoldable pub on_item : Json → Fields → Controller → Json → Progress
on_item method params c final = elim (host_item params) [
  | err e ↦ raises c e
  | ok (kind, item) ↦
      if str_is "agentMessage" kind && str_is "item/completed" method
      then goes c (get "text" item)
      else goes c final
]

-- The end of some turn.
unfoldable pub on_turn : Host → String → Controller → Json → Result (Json × Fields) → Progress
unfolding complete
on_turn h turn_id c final (err e) = raises c e
on_turn h turn_id c final (ok (id, turn)) =
    if str_is turn_id id then complete h turn_id turn c final else goes c final

-- The methods after `thread/status/changed`.
unfoldable pub on_event : Host → String → Json → Fields → Controller → Json → Progress
unfolding on_turn on_item
on_event h turn_id method params c final =
    elim (in_texts method ("item/started" ∷ "item/completed" ∷ [])) [
      | err e ↦ raises c e
      | ok is_item ↦
          if is_item
          then on_item method params c final
          else if str_is "turn/completed" method
          then on_turn h turn_id c final (turn_of params)
          else if str_is "thread/tokenUsage/updated" method
          then goes (record c { store = append (noted "USAGE") c.store }) final
          else goes c final
    ]

-- The branches by the method, for parameters of the bound thread.
unfoldable pub on_method :
    Host → Spec → Bool → String → Arrival → Fields → Controller → Json → Progress
unfolding on_event
on_method h spec continuation turn_id a params c final =
    let method = method_of a.message in
    let (outcome, after) = tool h spec continuation a.called a.responded a.message c in
    if str_is "item/tool/call" method
    then elim outcome [ err e ↦ raises after e | ok t ↦ goes after final ]
    else if is_some (find "id" a.message)
    then awaits_human c
    else if str_is "thread/status/changed" method
    then elim (waits_on_approval params) [
      | err e ↦ raises c e
      | ok waiting ↦ if waiting then awaits_human c else goes c final
    ]
    else on_event h turn_id method params c final

-- The tests on every message; they return its parameters.
unfoldable pub check_message : Spec → Arrival → Controller → Result Fields
check_message spec a c = do
  guard spec a.received c
  params ← object_at "params" a.message
  check_thread c params
  ok params

-- By the outcome of those tests.
unfoldable pub after_message :
    Host → Spec → Bool → String → Arrival → Controller → Json → Result Fields → Progress
unfolding on_method
after_message h spec continuation turn_id a c final (err e) = raises c e
after_message h spec continuation turn_id a c final (ok params) =
    on_method h spec continuation turn_id a params c final

-- The body of the loop.
unfoldable pub on_message : Host → Spec → Bool → String → Arrival → Controller → Json → Progress
unfolding check_message after_message
on_message h spec continuation turn_id a c final =
    after_message h spec continuation turn_id a c final (check_message spec a c)

-- The loop. `last` is what ends it where no message comes any more: the timeout or a lost host.
unfoldable pub messages :
    Host
    → Spec
    → Bool
    → String
    → String
    → List Arrival
    → Controller
    → Json
    → Result String × Controller
unfolding on_message
messages h spec continuation turn_id last [] c final = (err last, c)
messages h spec continuation turn_id last (a ∷ arrivals) c final =
    elim (on_message h spec continuation turn_id a c final) [
      | goes c' final' ↦ messages h spec continuation turn_id last arrivals c' final'
      | returns c' text ↦ (ok text, c')
      | raises c' e ↦ (err e, c')
    ]

-- `Controller._turn`
unfoldable pub run_turn :
    Host → Spec → Bool → String → String → List Arrival → Controller → Result String × Controller
unfolding messages
run_turn h spec continuation turn_id last arrivals c =
    let (outcome, c') =
      messages h spec continuation turn_id last arrivals (record c { active_turn = some turn_id })
        null in
    (outcome, record c' { active_turn = none })
