-- ===== src/Runtime/Activity/Cases.antt =====
-- What an event does in the pass of `classify_activity`: nothing to the calls, or it is the event of
-- one.
use dispatcher_for_codex_age.Prelude.{
  ℕ, String, ◌≡◌, refl, ◌⊎◌, inl, inr, List, contains, ◌==◌, nat_eq, list_eq, string_eq, Bool-cases,
  Option-cases,
}
use mathlib.Core.Path.{subst}
use dispatcher_for_codex_age.Prelude.Int.{pos}
use dispatcher_for_codex_age.Prelude.Text.{concat}
use dispatcher_for_codex_age.Json.{Json, Fields, int, arr, str, obj, get, is_str}
use dispatcher_for_codex_age.Adapter.{Python}
use dispatcher_for_codex_age.Runtime.Lifecycle.{
  Kind, kind_of_text, text_of, item_started, item_updated, item_completed,
}
use dispatcher_for_codex_age.Runtime.Activity.{Protocol}
use dispatcher_for_codex_age.Runtime.Activity.Events.{
  Pass, call_event, event_step, typed_event, is_benign, benign_event, work_event, item_event,
  kind_event, note, missing_identity, invalid_type, invalid_item,
}

-- A step keeps the calls and the exempted events, or it is the event of a call.
abbrev pub IsQuiet : Pass → Pass → Type 0
IsQuiet s s' = (s'.calls ≡ s.calls) × (s'.exempt ≡ s.exempt)

abbrev pub IsCall : Protocol → ℕ → Fields → Pass → Pass → Type 0
IsCall protocol index event s s' =
    (t : String) × (id : String) × (kind : String) × (item : Fields) × (before : Pass) × IsQuiet s
      before
    × (get "type" event ≡ str t)
    × (get "item" event ≡ obj item)
    × (get "type" item ≡ str kind)
    × (s' ≡ call_event protocol index (kind_of_text t) id kind item before)

module _ (py : Python) (protocol : Protocol) (index : ℕ) (s : Pass) where
  abbrev pub IsStep : Fields → Pass → Type 0
  IsStep event s' = IsQuiet s s' ⊎ IsCall protocol index event s s'

  work_event-IsQuiet : (id steps : Json) → IsQuiet s (work_event index id steps s)
  work_event-IsQuiet (str id) (arr steps) = (refl, refl)
  work_event-IsQuiet id steps = (refl, refl)

  benign_event-IsQuiet :
      (kind : String) (item : Fields) → IsQuiet s (benign_event index kind item s)
  benign_event-IsQuiet kind item = elim (Bool-cases (kind == "todo_list")) [
    | inl todo ↦ rw todo (work_event-IsQuiet (get "id" item) (get "items" item))
    | inr other ↦ elim (Bool-cases (is_str (get "text" item))) [
      | inl text ↦ rw (other, text) (refl, refl)
      | inr bad ↦ rw (other, bad) (refl, refl)
    ]
  ]

  typed_cases :
      (event : Fields) (t kind : String) (item : Fields)
      → get "type" event ≡ str t
      → get "item" event ≡ obj item
      → get "type" item ≡ str kind
      → IsStep event (typed_event py protocol index (kind_of_text t) kind item s)
  unfolding typed_event
  typed_cases event t kind item p q r = elim (Bool-cases (is_benign kind)) [
    | inl benign ↦ inl (rw benign (benign_event-IsQuiet kind item))
    | inr tool ↦ elim (Option-cases (text_of (get "id" item))) [
      | inl unnamed ↦ inr (
        t,
        concat "unidentified-" (py.format (int (pos index))),
        kind,
        item,
        note (missing_identity index) s,
        (refl, refl),
        p,
        q,
        r,
        rw (tool, unnamed) refl,
      )
      | inr (id, named) ↦ inr (t, id, kind, item, s, (refl, refl), p, q, r, rw (tool, named) refl)
    ]
  ]

  typed_json :
      (event : Fields) (t : String) (item : Fields) (type : Json)
      → get "type" event ≡ str t
      → get "item" event ≡ obj item
      → get "type" item ≡ type
      → IsStep event (elim type [
        | str kind ↦ typed_event py protocol index (kind_of_text t) kind item s
        | _ ↦ note (invalid_item index) s
      ])
  typed_json event t item (str kind) p q r = typed_cases event t kind item p q r
  typed_json event t item type p q r = inl (refl, refl)

  item_cases :
      (event : Fields) (t : String) (item : Json)
      → get "type" event ≡ str t
      → get "item" event ≡ item
      → IsStep event (item_event py protocol index (kind_of_text t) item s)
  item_cases event t (obj item) p q = typed_json event t item (get "type" item) p q refl
  item_cases event t item p q = inl (refl, refl)

  kind_cases :
      (event : Fields) (t : String) (kind : Kind)
      → kind_of_text t ≡ kind
      → get "type" event ≡ str t
      → IsStep event (kind_event py protocol index kind event s)
  kind_cases event t item_started k p =
      subst (λ x. IsStep event (item_event py protocol index x (get "item" event) s)) k
        (item_cases event t (get "item" event) p refl)
  kind_cases event t item_updated k p =
      subst (λ x. IsStep event (item_event py protocol index x (get "item" event) s)) k
        (item_cases event t (get "item" event) p refl)
  kind_cases event t item_completed k p =
      subst (λ x. IsStep event (item_event py protocol index x (get "item" event) s)) k
        (item_cases event t (get "item" event) p refl)
  kind_cases event t kind k p = inl (refl, refl)

  type_cases :
      (event : Fields) (type : Json)
      → get "type" event ≡ type
      → IsStep event (elim type [
        | str t ↦ kind_event py protocol index (kind_of_text t) event s
        | _ ↦ note (invalid_type index) s
      ])
  type_cases event (str t) p = kind_cases event t (kind_of_text t) refl p
  type_cases event type p = inl (refl, refl)

  pub event_step-IsStep :
      (diagnostics : List ℕ) (event : Fields)
      → IsStep event (event_step py protocol diagnostics index event s)
  unfolding event_step
  event_step-IsStep diagnostics event = elim (Bool-cases (contains index diagnostics)) [
    | inl skipped ↦ inl (rw skipped (refl, refl))
    | inr seen ↦ rw seen (type_cases event (get "type" event) refl)
  ]
