-- ===== src/Notifications/Tests.antt =====
-- Concrete deliveries: two calls of `notify` for one event and one sink.
use dispatcher_for_codex_age.Prelude.{
  ◌≤◌, ◌≡◌, refl, true, false, none, some, List, [], ◌∷◌, any, count, string_eq, pair_eq,
}
use dispatcher_for_codex_age.Prelude.Int.{pos}
use dispatcher_for_codex_age.Prelude.Result.{Result, ok}
use dispatcher_for_codex_age.Json.{finite}
use dispatcher_for_codex_age.Notifications.Event.{NotificationEvent}
use dispatcher_for_codex_age.Notifications.Ledger.{matches, original_status, decide, reserve}
use dispatcher_for_codex_age.Notifications.Notify.{
  Settings, Surroundings, Deliveries, processed, attempt, deliver_sink, deliver_all, notify,
}
use dispatcher_for_codex_age.Notifications.AtMostOnce.{System, Reach, sent_at_most_once}
use dispatcher_for_codex_age.Notifications.Refinement.{
  Call, notify_each, notify-Reach, notify_sends_once,
}

abbrev event : NotificationEvent
event = record {
  source = "harness";
  kind = "batch_completed";
  status = "COMPLETED";
  session_id = some "s";
  turn_id = none;
  run_id = some "r";
  task_id = none;
  shard_id = none;
  attempt_id = none;
  failure_code = none;
  metrics = [];
  occurred_at = finite (pos 7) 0;
  event_id = "e";
}

abbrev sink : Settings
sink = record { sink_id = "chat"; enabled = true; inline_secret = false; configurable = true }

abbrev around : Surroundings
around = record {
  first_lock = true;
  second_lock = true;
  last_lock = true;
  reserved_at = 1;
  finished_at = 2;
  transport = some "SENT";
}

abbrev config : Result (List (Settings × Surroundings))
config = ok ((sink, around) ∷ [])

abbrev nothing : Deliveries
nothing = record { rows = []; sent = [] }

abbrev call : Call
call = record { in_repository = false; event = event; now = 0; lock = true; config = config }

abbrev once : Deliveries
once = (notify false event 0 true config nothing).1

first_call : (notify false event 0 true config nothing).0 ≡ processed (("chat", "SENT") ∷ [])
unfolding notify deliver_all deliver_sink attempt reserve decide original_status
first_call = refl

second_call :
    (notify false event 3 true config once).0 ≡ processed (("chat", "DUPLICATE_SUPPRESSED") ∷ [])
unfolding notify deliver_all deliver_sink attempt reserve decide original_status
second_call = refl

sent_once : (notify_each (call ∷ call ∷ []) nothing).sent ≡ ("chat", "e") ∷ []
unfolding notify deliver_all deliver_sink attempt reserve decide original_status
sent_once = refl

abbrev system_of : Deliveries → System
system_of st = record { rows = st.rows; holders = []; sent = st.sent }

notify-Reach_example : Reach (system_of nothing) (system_of once)
notify-Reach_example = notify-Reach false event 0 true config nothing

sent_at_most_once_example :
    (count ("chat", "e") once.sent ≤ 1)
    × (any (matches "chat" "e") [] ≡ true → count ("chat", "e") once.sent ≡ 0)
sent_at_most_once_example =
    sent_at_most_once [] (notify-Reach false event 0 true config nothing) ("chat", "e")

notify_sends_once_example :
    let sent = (notify_each (call ∷ call ∷ []) (record { rows = []; sent = [] })).sent in
    (count ("chat", "e") sent ≤ 1)
    × (any (matches "chat" "e") [] ≡ true → count ("chat", "e") sent ≡ 0)
notify_sends_once_example = notify_sends_once [] (call ∷ call ∷ []) ("chat", "e")
