-- ===== src/Runtime/Lifecycle/Grammar.antt =====
-- The streams that a turn may have, described without a state: the order of its events, and what
-- becomes of each item by its id.
use dispatcher_for_codex_age.Prelude.{
  String, Bool, true, false, ◌&&◌, ◌||◌, Option, none, some, List, [], ◌∷◌, ◌==◌, string_eq,
  if◌then◌else◌, is_some,
}
use dispatcher_for_codex_age.Json.{Fields, get}
use dispatcher_for_codex_age.Runtime.Lifecycle.{
  Kind, thread_started, turn_started, turn_completed, turn_failed, item_started, item_updated,
  item_completed, unknown, kind_of, text_of, identity_of, is_error_item, is_completed, is_updated,
  is_started, is_last,
}

abbrev pub is_item : Kind → Bool
is_item item_started = true
is_item item_updated = true
is_item item_completed = true
is_item _ = false

abbrev pub is_terminal : Kind → Bool
is_terminal turn_completed = true
is_terminal turn_failed = true
is_terminal _ = false

abbrev pub is_unknown : Kind → Bool
is_unknown unknown = true
is_unknown _ = false

abbrev pub is_turn_started : Kind → Bool
is_turn_started turn_started = true
is_turn_started _ = false

abbrev pub is_thread_started : Kind → Bool
is_thread_started thread_started = true
is_thread_started _ = false

-- The event is an item with an id and a type.
abbrev pub names_item : Fields → Bool
names_item event = is_some (identity_of (get "item" event))

-- Inside a turn: items and unknown events, and the terminal event last.
unfoldable pub in_order : List Fields → Bool
in_order [] = false
in_order (event ∷ events) =
    let rest = in_order events in
    let kind = kind_of event in
    is_terminal kind && is_last events
    || is_item kind && names_item event && rest
    || is_unknown kind && rest

-- Before a turn: diagnostics, where the protocol is supported.
unfoldable pub in_preturn : Bool → List Fields → Bool
in_preturn allow [] = false
in_preturn allow (event ∷ events) =
    let rest = in_preturn allow events in
    is_turn_started (kind_of event) && in_order events
    || allow
      && is_completed (kind_of event)
      && is_error_item (get "item" event)
      && names_item event
      && rest

unfoldable pub is_turn : Bool → List Fields → Bool
unfolding in_preturn
is_turn allow [] = false
is_turn allow (event ∷ events) =
    is_thread_started (kind_of event)
    && is_some (text_of (get "thread_id" event))
    && in_preturn allow events

-- What an event says of the item `id`.
abbrev pub mention : String → Fields → List (String × Kind)
mention id event =
    if is_item (kind_of event)
    then elim (identity_of (get "item" event)) [
      | none ↦ []
      | some (i, type) ↦ if id == i then (type, kind_of event) ∷ [] else []
    ]
    else []

abbrev pub with_mention : List (String × Kind) → List (String × Kind) → List (String × Kind)
with_mention [] h = h
with_mention (m ∷ ms) h = m ∷ h

-- The item's events, in order.
unfoldable pub history : String → List Fields → List (String × Kind)
history id [] = []
history id (event ∷ events) = with_mention (mention id event) (history id events)

abbrev pub is_empty : List (String × Kind) → Bool
is_empty [] = true
is_empty (_ ∷ _) = false

-- Updates of an item of one type, then its completion and nothing more.
unfoldable pub closes : String → List (String × Kind) → Bool
closes type [] = false
closes type ((t, k) ∷ h) =
    let rest = closes type h in t == type && (is_updated k && rest || is_completed k && is_empty h)

-- No event, or a completion alone, or a start and what closes it.
unfoldable pub is_history : List (String × Kind) → Bool
is_history [] = true
is_history ((t, k) ∷ h) = is_completed k && is_empty h || is_started k && closes t h

-- What may follow, after the last event of an item.
unfoldable pub continues : Option (String × Kind) → List (String × Kind) → Bool
continues none h = is_history h
continues (some (t, k)) h = if is_completed k then is_empty h else closes t h
