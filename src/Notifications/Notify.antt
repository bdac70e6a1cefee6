-- ===== src/Notifications/Notify.antt =====
-- notifications/core.py, `notify`: the loop over the sinks of a configuration. What the machine
-- and the transport do is given for each sink: whether each lock was free in time, the clock, and
-- how the transport ended.
use dispatcher_for_codex_age.Prelude.{
  ℕ, String, Bool, true, false, not, ◌&&◌, ◌||◌, Option, none, some, List, [], ◌∷◌, ◌++◌, ◌==◌,
  string_eq, if◌then◌else◌,
}
use dispatcher_for_codex_age.Prelude.Result.{Result, ok, err}
use dispatcher_for_codex_age.Notifications.Event.{NotificationEvent}
use dispatcher_for_codex_age.Notifications.Ledger.{
  Ledger, observed, send, decided_status, reserve, begin_attempt, finish,
}

-- A row of `config["sinks"]`, with the two tests that decide a configuration error.
pub record Settings : Type 0 where
  pub sink_id : String
  pub enabled : Bool  -- `settings.get("enabled") is not False`
  pub inline_secret : Bool  -- `settings.get("send_key") or settings.get("url")`
  pub configurable : Bool  -- whether `configured_sink` returns

-- One sink's surroundings.
pub record Surroundings : Type 0 where
  pub first_lock : Bool
  pub second_lock : Bool
  pub last_lock : Bool
  pub reserved_at : ℕ
  pub finished_at : ℕ
  pub transport : Option String  -- the delivery status, or `none` where the sender raises

-- The ledger, and the sinks and events that the transport was called for.
pub record Deliveries : Type 0 where
  pub rows : Ledger
  pub sent : List (String × String)

abbrev pub transport_status : Option String → String
transport_status none = "DELIVERY_UNKNOWN"
transport_status (some status) = status

abbrev blocked : Deliveries → Result String × Deliveries
blocked st = (err "BlockingIOError", st)

-- The part after the reservation: `if should_send`.
unfoldable pub attempt :
    Bool → NotificationEvent → Settings → Surroundings → Deliveries → Result String × Deliveries
attempt in_repository event sink w st =
    if in_repository && sink.inline_secret || not sink.configurable
    then (if w.last_lock
        then (
          ok "NOT_ATTEMPTED",
          record st {
            rows = finish sink.sink_id event "NOT_ATTEMPTED" w.finished_at false st.rows;
          },
        )
        else blocked st)
    else if w.second_lock
    then (let status = transport_status w.transport in
        let calling = record st {
          rows = begin_attempt sink.sink_id event w.reserved_at st.rows;
          sent = (sink.sink_id, event.event_id) ∷ st.sent;
        } in
        if w.last_lock
        then (
          ok status,
          record calling {
            rows = finish sink.sink_id event status w.finished_at true calling.rows;
          },
        )
        else blocked calling)
    else blocked st

-- The body of the loop, for a sink that is enabled.
unfoldable pub deliver_sink :
    Bool → NotificationEvent → Settings → Surroundings → Deliveries → Result String × Deliveries
unfolding attempt
deliver_sink in_repository event sink w st =
    if w.first_lock
    then (let (decision, rows) = reserve sink.sink_id event w.reserved_at st.rows in
        let reserved = record st { rows = rows } in
        elim decision [
          | send ↦ attempt in_repository event sink w reserved
          | other ↦ (ok (decided_status other), reserved)
        ])
    else blocked st

-- The loop over `config["sinks"]`; an exception ends it.
unfoldable pub deliver_all :
    Bool
    → NotificationEvent
    → List (Settings × Surroundings)
    → Deliveries
    → Result (List (String × String)) × Deliveries
deliver_all in_repository event [] st = (ok [], st)
deliver_all in_repository event ((sink, w) ∷ sinks) st =
    let skipped = deliver_all in_repository event sinks st in
    let (outcome, st') = deliver_sink in_repository event sink w st in
    let (rest, st'') = deliver_all in_repository event sinks st' in
    if sink.enabled
    then (elim outcome [
      | err e ↦ (err e, st')
      | ok status ↦
          (elim rest [ err e ↦ err e | ok results ↦ ok ((sink.sink_id, status) ∷ results) ], st'')
    ])
    else skipped

pub data Report : Type 0 where
  processed : List (String × String) → Report
  user_configuration_required : Report
  nonblocking_error : String → Report

abbrev pub report : Result (List (String × String)) → Report
report (ok []) = user_configuration_required
report (ok (r ∷ rs)) = processed (r ∷ rs)
report (err e) =
    if e == "FileNotFoundError" then user_configuration_required else nonblocking_error e

-- `notify`, with the configuration as `load_config` returns it.
unfoldable pub notify :
    Bool
    → NotificationEvent
    → ℕ
    → Bool
    → Result (List (Settings × Surroundings))
    → Deliveries
    → Report × Deliveries
notify in_repository event now lock (err e) st = (report (err e), st)
notify in_repository event now lock (ok sinks) st =
    let (results, st') =
      deliver_all in_repository event sinks
        (record st { rows = st.rows ++ observed event now ∷ [] }) in
    if lock then (report results, st') else (nonblocking_error "BlockingIOError", st)
