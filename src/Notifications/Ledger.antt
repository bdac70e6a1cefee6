-- ===== src/Notifications/Ledger.antt =====
-- notifications/core.py, `notify`: the delivery ledger, and the critical sections of one delivery.
-- A row has the fields that a reader looks at. Times are whole microseconds. `ledger` holds the
-- file's lock while a section runs, so a section is one step, and others may run between two.
use dispatcher_for_codex_age.Prelude.{
  ℕ, ◌-◌, String, Bool, true, false, not, ◌&&◌, ◌||◌, Option, none, some, List, [], ◌∷◌, ◌++◌, any,
  leb, ◌==◌, nat_eq, string_eq, if◌then◌else◌,
}
use dispatcher_for_codex_age.Notifications.Event.{NotificationEvent}

-- A row that `notify` appends: the observation of an event, or a row of one sink.
pub data Row : Type 0 where
  observed : NotificationEvent → ℕ → Row
  delivery :
      (sink_id : String) (event : NotificationEvent) (status : String) (recorded_at : ℕ)
      (attempted : Bool)
      → Row
  other : Row

abbrev pub Ledger : Type 0
Ledger = List Row

-- `row.get("sink_id") == sink_id and row.get("event_id") == event.event_id`
abbrev pub matches : String → String → Row → Bool
matches sink_id event_id (delivery sink event status at attempted) =
    sink == sink_id && event.event_id == event_id
matches sink_id event_id _ = false

-- `next((r["delivery_status"] for r in reversed(matches) if …), "DELIVERY_UNKNOWN")`, by the last
-- row that fits.
unfoldable pub original_status : String → String → String → Ledger → String
original_status sink_id event_id found [] = found
original_status sink_id event_id found (delivery sink event status at attempted ∷ rows) =
    let fits =
      matches sink_id event_id (delivery sink event status at attempted)
      && not (status == "DUPLICATE_SUPPRESSED") in
    original_status sink_id event_id (if fits then status else found) rows
original_status sink_id event_id found (_ ∷ rows) = original_status sink_id event_id found rows

-- `getattr(event, k) and r["event"].get(k) == getattr(event, k)`
abbrev pub same_text : Option String → Option String → Bool
same_text none theirs = false
same_text (some mine) none = false
same_text (some mine) (some theirs) = not (mine == "") && theirs == mine

-- A sent terminal event of the same turn, not older than five minutes.
abbrev pub is_candidate : String → NotificationEvent → ℕ → Row → Bool
is_candidate sink_id event now (delivery sink theirs status at attempted) =
    sink == sink_id
    && status == "SENT"
    && (theirs.kind == "batch_completed" || theirs.kind == "batch_failed")
    && same_text event.session_id theirs.session_id
    && same_text event.turn_id theirs.turn_id
    && same_text event.run_id theirs.run_id
    && leb at now
    && leb (now - at) 300_000_000
is_candidate sink_id event now _ = false

-- What the first section decides.
pub data Decision : Type 0 where
  duplicate : String → Decision
  terminal_suppressed : Decision
  send : Decision

unfoldable pub decide : String → NotificationEvent → ℕ → Ledger → Decision
unfolding original_status
decide sink_id event now rows =
    if any (matches sink_id event.event_id) rows
    then duplicate (original_status sink_id event.event_id "DELIVERY_UNKNOWN" rows)
    else if event.kind == "turn_completed" && any (is_candidate sink_id event now) rows
    then terminal_suppressed
    else send

abbrev pub decided_status : Decision → String
decided_status (duplicate original) = "DUPLICATE_SUPPRESSED"
decided_status terminal_suppressed = "HARNESS_TERMINAL_SUPPRESSED"
decided_status send = "NOT_ATTEMPTED"

-- The first section: the row of the decision. A row of `send` reserves the event for the sink.
unfoldable pub reserve : String → NotificationEvent → ℕ → Ledger → Decision × Ledger
unfolding decide
reserve sink_id event now rows =
    let decision = decide sink_id event now rows in
    (decision, rows ++ delivery sink_id event (decided_status decision) now false ∷ [])

-- The section before the transport.
abbrev pub begin_attempt : String → NotificationEvent → ℕ → Ledger → Ledger
begin_attempt sink_id event now rows =
    rows ++ delivery sink_id event "DELIVERY_UNKNOWN" now true ∷ []

-- The section after the transport, or after a configuration error.
abbrev pub finish : String → NotificationEvent → String → ℕ → Bool → Ledger → Ledger
finish sink_id event status now attempted rows =
    rows ++ delivery sink_id event status now attempted ∷ []
