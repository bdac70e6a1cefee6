-- ===== src/Runtime/Lifecycle.antt =====
-- agent_harness/runtime_contract.py, `_lifecycle_issues`: one pass over the events of a turn. An
-- event is the dict that a line of the stream holds.
pub mod Grammar
pub mod Items
pub mod Steps
pub mod Suffix
pub mod Turn
pub mod Preturn
pub mod Pass
use dispatcher_for_codex_age.Prelude.{
  ℕ, suc, ◌+◌, ◌-◌, String, Bool, true, false, not, ◌&&◌, ◌||◌, Option, none, some, List, [], ◌∷◌,
  ◌++◌, any, length, ◌==◌, nat_eq, string_eq, if◌then◌else◌, is_some,
}
use dispatcher_for_codex_age.Json.{Json, Fields, str, obj, get, str_is, is_str}

-- The values of `event.get("type")` that the code names.
pub data Kind : Type 0 where
  thread_started turn_started turn_completed turn_failed : Kind
  item_started item_updated item_completed : Kind
  stream_error unknown : Kind

abbrev pub kind_of_text : String → Kind
kind_of_text t =
    if t == "thread.started"
    then thread_started
    else if t == "turn.started"
    then turn_started
    else if t == "turn.completed"
    then turn_completed
    else if t == "turn.failed"
    then turn_failed
    else if t == "item.started"
    then item_started
    else if t == "item.updated"
    then item_updated
    else if t == "item.completed"
    then item_completed
    else if t == "error"
    then stream_error
    else unknown

unfoldable pub kind_of : Fields → Kind
kind_of event = elim (get "type" event) [ str t ↦ kind_of_text t | _ ↦ unknown ]

pub data Phase : Type 0 where
  before_thread before_turn in_turn terminal stream_failed : Phase

pub data Problem : Type 0 where
  thread_start_out_of_order invalid_thread_identity turn_start_out_of_order : Problem
  terminal_out_of_order item_outside_turn invalid_item_identity : Problem
  conflicting_item_lifecycle item_update_without_start stream_error_seen : Problem
  event_after_terminal unknown_event_outside_turn : Problem

-- The entries of `issues`.
pub data Issue : Type 0 where
  at_event : ℕ → Problem → Issue
  missing_terminal unfinished_item : Issue

-- `items`: the type and the last event of each item, the latest entry first.
abbrev pub Items : Type 0
Items = List (String × String × Kind)

abbrev pub find_item : String → Items → Option (String × Kind)
find_item id [] = none
find_item id ((i, t, k) ∷ items) = if id == i then some (t, k) else find_item id items

-- `items[id] = (type, kind)`
abbrev pub set_item : String → String → Kind → Items → Items
set_item id type kind [] = (id, type, kind) ∷ []
set_item id type kind ((i, t, k) ∷ items) =
    if id == i then (id, type, kind) ∷ items else (i, t, k) ∷ set_item id type kind items

-- `isinstance(v, str) and v`
abbrev pub text_of : Json → Option String
text_of (str s) = if s == "" then none else some s
text_of _ = none

-- `item["id"]` and `item["type"]`, where both are texts and the id is not empty.
unfoldable pub identity_of : Json → Option (String × String)
identity_of (obj item) = elim (text_of (get "id" item)) [
  | none ↦ none
  | some id ↦ elim (get "type" item) [ str type ↦ some (id, type) | _ ↦ none ]
]
identity_of _ = none

-- The shape of a diagnostic that may precede a turn: a completed error item with a message.
unfoldable pub is_error_item : Json → Bool
is_error_item (obj item) = str_is "error" (get "type" item) && is_str (get "message" item)
is_error_item _ = false

abbrev pub is_completed : Kind → Bool
is_completed item_completed = true
is_completed _ = false

abbrev pub is_started : Kind → Bool
is_started item_started = true
is_started _ = false

abbrev pub is_updated : Kind → Bool
is_updated item_updated = true
is_updated _ = false

abbrev pub is_before_turn : Phase → Bool
is_before_turn before_turn = true
is_before_turn _ = false

abbrev pub is_in_turn : Phase → Bool
is_in_turn in_turn = true
is_in_turn _ = false

-- `a or b`
abbrev pub or_else : Option Problem → Option Problem → Option Problem
or_else (some p) q = some p
or_else none q = q

-- The test of an item event against the previous one of its id.
unfoldable pub item_problem : Option (String × Kind) → String → Kind → Option Problem
item_problem none type kind = if is_updated kind then some item_update_without_start else none
item_problem (some (t, k)) type kind =
    if not (t == type) || is_completed k || is_started kind
    then some conflicting_item_lifecycle
    else none

pub record State : Type 0 where
  pub phase : Phase
  pub items : Items
  pub issues : List Issue
  pub diagnostics : List ℕ

-- `if problem: issues.append(…)`
abbrev pub report : ℕ → Option Problem → State → State
report index none s = s
report index (some p) s = record s { issues = s.issues ++ at_event index p ∷ [] }

-- `diagnostic`
abbrev pub is_diagnostic : Bool → Kind → Fields → State → Bool
is_diagnostic allow kind event s =
    allow && is_before_turn s.phase && is_completed kind && is_error_item (get "item" event)

-- The problem of the item's place.
abbrev pub place_problem : Bool → State → Option Problem
place_problem diagnostic s =
    if not (is_in_turn s.phase) && not diagnostic then some item_outside_turn else none

-- The branch of the item events, by whether the event is a diagnostic, and the item's identity.
unfoldable pub item_event : Bool → ℕ → Kind → Option (String × String) → State → State
unfolding item_problem
item_event diagnostic index kind none s =
    report index (or_else (place_problem diagnostic s) (some invalid_item_identity)) s
item_event diagnostic index kind (some (id, type)) s =
    let problem =
      or_else (place_problem diagnostic s) (item_problem (find_item id s.items) type kind) in
    report index problem (record s {
      items = set_item id type kind s.items;
      diagnostics =
          if diagnostic && not (is_some problem)
          then s.diagnostics ++ index ∷ []
          else s.diagnostics;
    })

unfoldable pub item_step : Bool → ℕ → Kind → Fields → State → State
unfolding item_event
item_step allow index kind event s =
    item_event (is_diagnostic allow kind event s) index kind (identity_of (get "item" event)) s

abbrev pub thread_step : ℕ → Fields → State → State
thread_step index event s =
    if not (elim s.phase [ before_thread ↦ true | _ ↦ false ]) || not (index == 0)
    then report index (some thread_start_out_of_order) s
    else if not (is_some (text_of (get "thread_id" event)))
    then report index (some invalid_thread_identity) s
    else record s { phase = before_turn }

abbrev pub turn_step : ℕ → State → State
turn_step index s =
    if not (is_before_turn s.phase)
    then report index (some turn_start_out_of_order) s
    else record s { phase = in_turn }

-- `index != len(events) - 1` is `not last`.
abbrev pub terminal_step : ℕ → Bool → State → State
terminal_step index last s =
    let out = not (is_in_turn s.phase) || not last in
    record (report index (if out then some terminal_out_of_order else none) s) { phase = terminal }

abbrev pub unknown_step : ℕ → State → State
unknown_step index s =
    report index
      (elim s.phase [
        | terminal ↦ some event_after_terminal
        | in_turn ↦ none
        | _ ↦ some unknown_event_outside_turn
      ])
      s

-- The body of the loop, by the kind of the event.
unfoldable pub step : Bool → ℕ → Bool → Kind → Fields → State → State
unfolding item_step
step allow index last thread_started event s = thread_step index event s
step allow index last turn_started event s = turn_step index s
step allow index last turn_completed event s = terminal_step index last s
step allow index last turn_failed event s = terminal_step index last s
step allow index last item_started event s = item_step allow index item_started event s
step allow index last item_updated event s = item_step allow index item_updated event s
step allow index last item_completed event s = item_step allow index item_completed event s
step allow index last stream_error event s = record (report index (some stream_error_seen) s) {
  phase = stream_failed;
}
step allow index last unknown event s = unknown_step index s

abbrev pub is_last : List Fields → Bool
is_last [] = true
is_last (_ ∷ _) = false

unfoldable pub loop : Bool → ℕ → List Fields → State → State
unfolding step kind_of
loop allow index [] s = s
loop allow index (event ∷ events) s =
    loop allow (suc index) events (step allow index (is_last events) (kind_of event) event s)

abbrev pub begin : State
begin = record { phase = before_thread; items = []; issues = []; diagnostics = [] }

abbrev pub is_unfinished : String × String × Kind → Bool
is_unfinished (i, t, k) = not (is_completed k)

-- `_lifecycle_issues`
unfoldable pub lifecycle_issues : Bool → List Fields → List Issue × List ℕ
unfolding loop
lifecycle_issues allow events =
    let s = loop allow 0 events begin in
    (
      s.issues
          ++ elim s.phase [ terminal ↦ [] | _ ↦ missing_terminal ∷ [] ]
          ++ (if any is_unfinished s.items then unfinished_item ∷ [] else []),
      s.diagnostics,
    )
