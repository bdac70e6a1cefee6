-- ===== src/Runtime/Activity/Events.antt =====
-- agent_harness/runtime_contract.py, `classify_activity`: the pass over the events.
use dispatcher_for_codex_age.Prelude.{
  ℕ, suc, String, Bool, false, not, ◌||◌, none, some, List, [], ◌∷◌, ◌++◌, contains, ◌==◌, nat_eq,
  string_eq, if◌then◌else◌, is_some,
}
use dispatcher_for_codex_age.Prelude.Int.{pos}
use dispatcher_for_codex_age.Prelude.Text.{concat}
use dispatcher_for_codex_age.Json.{Json, Fields, int, str, arr, obj, elements, get, is_str}
use dispatcher_for_codex_age.Adapter.{Python}
use dispatcher_for_codex_age.Runtime.Lifecycle.{
  Kind, turn_failed, stream_error, unknown, item_started, item_updated, item_completed,
  kind_of_text, is_completed, text_of,
}
use dispatcher_for_codex_age.Runtime.Activity.{Protocol, Class, unclear, Call, Judgement, judge}

-- The entries of `issues`, but for those of `_lifecycle_issues`.
pub data Problem : Type 0 where
  unsupported_or_incomplete unfinished_work stderr_signal : Problem
  invalid_type unsupported_event invalid_item invalid_text : ℕ → Problem
  invalid_work missing_identity : ℕ → Problem

abbrev pub Work : Type 0
Work = List (String × List Json)

-- `work_state[id] = steps`
abbrev pub set_work : String → List Json → Work → Work
set_work id steps [] = (id, steps) ∷ []
set_work id steps ((i, old) ∷ work) =
    if id == i then (id, steps) ∷ work else (i, old) ∷ set_work id steps work

pub record Pass : Type 0 where
  pub calls : List Call
  pub issues : List Problem
  pub exempt : List ℕ
  pub work : Work

abbrev pub note : Problem → Pass → Pass
note p s = record s { issues = s.issues ++ p ∷ [] }

-- `calls.setdefault(call_id, …)`
abbrev pub call_of : String → String → List Call → Call
call_of id kind [] = record {
  call_id = id;
  tool = kind;
  evidence = [];
  states = [];
  outcome = none;
  closed = false;
}
call_of id kind (c ∷ calls) = if id == c.call_id then c else call_of id kind calls

-- The call is changed in its place, or comes last.
abbrev pub set_call : Call → List Call → List Call
set_call call [] = call ∷ []
set_call call (c ∷ calls) =
    if call.call_id == c.call_id then call ∷ calls else c ∷ set_call call calls

-- The states before the event is judged.
abbrev pub earlier : String → Call → List Class
earlier kind call =
    if not (kind == call.tool) || call.closed then call.states ++ unclear ∷ [] else call.states

abbrev pub updated : ℕ → Kind → List Class → Judgement → Call → Call
updated index event_type before j call = record call {
  evidence = call.evidence ++ index ∷ [];
  states = before ++ j.state ∷ [];
  outcome = if is_some j.sets then j.sets else call.outcome;
  closed = call.closed || is_completed event_type;
}

-- The event of a call whose identity is known.
unfoldable pub call_event : Protocol → ℕ → Kind → String → String → Fields → Pass → Pass
unfolding judge
call_event protocol index event_type id kind item s =
    let call = call_of id kind s.calls in
    let j = judge protocol event_type kind item (earlier kind call) in
    record s {
      calls = set_call (updated index event_type (earlier kind call) j call) s.calls;
      exempt = if j.exempts then s.exempt ++ index ∷ [] else s.exempt;
    }

abbrev pub is_benign : String → Bool
is_benign kind = contains kind ("agent_message" ∷ "reasoning" ∷ "todo_list" ∷ [])

abbrev pub work_event : ℕ → Json → Json → Pass → Pass
work_event index (str id) (arr steps) s = record s { work = set_work id (elements steps) s.work }
work_event index _ _ s = note (invalid_work index) s

abbrev pub benign_event : ℕ → String → Fields → Pass → Pass
benign_event index kind item s =
    if kind == "todo_list"
    then work_event index (get "id" item) (get "items" item) s
    else if is_str (get "text" item)
    then s
    else note (invalid_text index) s

-- An item event of a type that is a text.
unfoldable pub typed_event : Python → Protocol → ℕ → Kind → String → Fields → Pass → Pass
unfolding call_event
typed_event py protocol index event_type kind item s =
    if is_benign kind then benign_event index kind item s else elim (text_of (get "id" item)) [
      | some id ↦ call_event protocol index event_type id kind item s
      | none ↦
          call_event protocol index event_type
            (concat "unidentified-" (py.format (int (pos index)))) kind item
            (note (missing_identity index) s)
    ]

abbrev pub item_event : Python → Protocol → ℕ → Kind → Json → Pass → Pass
item_event py protocol index event_type (obj item) s = elim (get "type" item) [
  | str kind ↦ typed_event py protocol index event_type kind item s
  | _ ↦ note (invalid_item index) s
]
item_event py protocol index event_type _ s = note (invalid_item index) s

-- The body of the loop, by the kind of an event whose type is a text.
abbrev pub kind_event : Python → Protocol → ℕ → Kind → Fields → Pass → Pass
kind_event py protocol index item_started event s =
    item_event py protocol index item_started (get "item" event) s
kind_event py protocol index item_updated event s =
    item_event py protocol index item_updated (get "item" event) s
kind_event py protocol index item_completed event s =
    item_event py protocol index item_completed (get "item" event) s
kind_event py protocol index turn_failed event s = note (unsupported_event index) s
kind_event py protocol index stream_error event s = note (unsupported_event index) s
kind_event py protocol index unknown event s = note (unsupported_event index) s
kind_event py protocol index _ event s = s

unfoldable pub event_step : Python → Protocol → List ℕ → ℕ → Fields → Pass → Pass
unfolding typed_event
event_step py protocol diagnostics index event s =
    if contains index diagnostics then s else elim (get "type" event) [
      | str t ↦ kind_event py protocol index (kind_of_text t) event s
      | _ ↦ note (invalid_type index) s
    ]

unfoldable pub pass_over : Python → Protocol → List ℕ → ℕ → List Fields → Pass → Pass
unfolding event_step
pass_over py protocol diagnostics index [] s = s
pass_over py protocol diagnostics index (event ∷ events) s =
    pass_over py protocol diagnostics (suc index) events
      (event_step py protocol diagnostics index event s)

abbrev pub no_calls : Pass
no_calls = record { calls = []; issues = []; exempt = []; work = [] }
