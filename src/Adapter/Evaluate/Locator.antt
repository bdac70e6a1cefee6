-- ===== src/Adapter/Evaluate/Locator.antt =====
-- agent_harness/adapter.py, `evaluate_capture`: the locator that the audit records of the final text.
use dispatcher_for_codex_age.Prelude.{
  ℕ, String, suc, ◌≡◌, refl, sym, ◌∙◌, Bool, false, ◌&&◌, Option, none, some, List, [], ◌∷◌,
  if◌then◌else◌, is_some, Bool-cases, inl, inr, arith,
}
use dispatcher_for_codex_age.Json.{Json, Fields, obj, get, str_is, is_str}
use dispatcher_for_codex_age.Adapter.Events.{message_text, final_text_of}
use dispatcher_for_codex_age.Adapter.Evaluate.Authorized.{event_at}

abbrev is_message_item : Json → Bool
is_message_item (obj item) = str_is "agent_message" (get "type" item) && is_str (get "text" item)
is_message_item _ = false

abbrev is_message : Fields → Bool
is_message event = str_is "item.completed" (get "type" event) && is_message_item (get "item" event)

-- `locator`: the index of the last event of a message.
unfoldable pub locator : List Fields → Option ℕ
locator [] = none
locator (event ∷ events) =
    let rest = locator events in
    elim rest [ some i ↦ some (suc i) | none ↦ if is_message event then some 0 else none ]

-- The text at a locator.
abbrev pub text_at : List Fields → Option ℕ → Option String
text_at events none = none
text_at events (some i) = elim (event_at i events) [ none ↦ none | some e ↦ message_text e ]

is_message-message_text : (e : Fields) → is_message e ≡ is_some (message_text e)
is_message-message_text e = ground arith

abbrev pub IsLocated : List Fields → Option String → Option ℕ → Type 0
IsLocated events text i = (text ≡ text_at events i) × (is_some text ≡ is_some i)

no_text : (o : Option String) → is_some o ≡ false → o ≡ none
no_text none h = refl
no_text (some t) h = cc

message_text-IsLocated :
    (e : Fields) (events : List Fields)
    → IsLocated (e ∷ events) (message_text e) (if is_message e then some 0 else none)
message_text-IsLocated e events =
    let same = is_message-message_text e in
    elim (Bool-cases (is_message e)) [
      | inl message ↦ rw message (refl, sym same ∙ message)
      | inr other ↦ rw other (no_text (message_text e) (sym same ∙ other), sym same ∙ other)
    ]

later-IsLocated :
    (e : Fields) (events : List Fields) (text : Option String) (i : Option ℕ)
    → IsLocated events text i
    → IsLocated
        (e ∷ events)
        (elim text [ none ↦ message_text e | some t ↦ some t ])
        (elim i [ some i ↦ some (suc i) | none ↦ if is_message e then some 0 else none ])
later-IsLocated e events none none h = message_text-IsLocated e events
later-IsLocated e events (some t) (some i) h = h
later-IsLocated e events none (some i) h = cc
later-IsLocated e events (some t) none h = cc

-- The locator of a stream is the index of an event whose message is the final text, and there is a
-- locator exactly if there is a final text.
pub locator-IsLocated :
    (events : List Fields) → IsLocated events (final_text_of events) (locator events)
unfolding final_text_of locator
locator-IsLocated [] = (refl, refl)
locator-IsLocated (e ∷ events) =
    later-IsLocated e events (final_text_of events) (locator events) (locator-IsLocated events)
