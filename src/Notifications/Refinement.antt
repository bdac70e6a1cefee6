-- ===== src/Notifications/Refinement.antt =====
-- A run of `notify` is a sequence of the sections of `Step`, so what holds of all interleavings
-- holds of it.
use dispatcher_for_codex_age.Prelude.{
  ℕ, ◌≤◌, String, ◌≡◌, refl, Bool, true, false, not, ◌&&◌, ◌||◌, List, [], ◌∷◌, ◌++◌, any, count,
  string_eq, pair_eq, Bool-cases, inl, inr,
}
use dispatcher_for_codex_age.Prelude.Result.{Result, ok, err}
use dispatcher_for_codex_age.Notifications.Event.{NotificationEvent}
use dispatcher_for_codex_age.Notifications.Ledger.{
  Ledger, matches, Decision, duplicate, terminal_suppressed, send, decide, reserve, delivery,
  observed,
}
use dispatcher_for_codex_age.Notifications.Notify.{
  Settings, Surroundings, Deliveries, attempt, deliver_sink, deliver_all, notify, transport_status,
}
use dispatcher_for_codex_age.Notifications.AtMostOnce.{
  System, Reach, here, next, take_reservation, write_decision, call_transport, write_row, give_up,
  sent_at_most_once,
}

abbrev system : List (String × String) → Deliveries → System
system holders st = record { rows = st.rows; holders = holders; sent = st.sent }

Reach-trans : {s t u : System} → Reach s t → Reach t u → Reach s u
Reach-trans r here = r
Reach-trans r (next q st) = next (Reach-trans r q) st

module _ (in_repository : Bool) (event : NotificationEvent) (sink : Settings)
    (w : Surroundings) where
  abbrev held : List (String × String)
  held = (sink.sink_id, event.event_id) ∷ []

  -- The part after a reservation gives the reservation up.
  attempt-Reach :
      (st : Deliveries)
      → Reach (system held st) (system [] (attempt in_repository event sink w st).1)
  unfolding attempt
  attempt-Reach st =
      elim (Bool-cases (in_repository && sink.inline_secret || not sink.configurable)) [
        | inl bad ↦ elim (Bool-cases w.last_lock) [
          | inl free ↦
              rw (bad, free)
                (next (next here (give_up (system held st) [] [] _ refl)) (
                  write_row (system [] st)
                    (delivery sink.sink_id event "NOT_ATTEMPTED" w.finished_at false)))
          | inr busy ↦ rw (bad, busy) (next here (give_up (system held st) [] [] _ refl))
        ]
        | inr good ↦ elim (Bool-cases w.second_lock) [
          | inl free ↦
              let called : Reach (system held st) _ =
                next here
                  (call_transport (system held st) [] [] sink.sink_id event w.reserved_at refl) in
              elim (Bool-cases w.last_lock) [
                | inl last ↦
                    rw (good, free, last)
                      (next called (
                        write_row _ (
                          delivery sink.sink_id event (transport_status w.transport) w.finished_at
                            true)))
                | inr busy ↦ rw (good, free, busy) called
              ]
          | inr busy ↦ rw (good, busy) (next here (give_up (system held st) [] [] _ refl))
        ]
      ]

  by_decision :
      (st : Deliveries) (d : Decision)
      → w.first_lock ≡ true
      → decide sink.sink_id event w.reserved_at st.rows ≡ d
      → Reach (system [] st) (system [] (deliver_sink in_repository event sink w st).1)
  unfolding deliver_sink reserve
  by_decision st (duplicate original) free p =
      rw (free, p, deliver_sink)
        (next here (write_decision (system [] st) sink.sink_id event w.reserved_at))
  by_decision st terminal_suppressed free p =
      rw (free, p, deliver_sink)
        (next here (write_decision (system [] st) sink.sink_id event w.reserved_at))
  by_decision st send free p =
      rw (free, p, deliver_sink)
        (Reach-trans
          (next here (take_reservation (system [] st) sink.sink_id event w.reserved_at p))
          (attempt-Reach _))

  deliver_sink-Reach :
      (st : Deliveries)
      → Reach (system [] st) (system [] (deliver_sink in_repository event sink w st).1)
  unfolding deliver_sink
  deliver_sink-Reach st = elim (Bool-cases w.first_lock) [
    | inl free ↦ by_decision st (decide sink.sink_id event w.reserved_at st.rows) free refl
    | inr busy ↦ rw busy here
  ]

module _ (in_repository : Bool) (event : NotificationEvent) where
  by_outcome :
      (sink : Settings) (w : Surroundings) (sinks : List (Settings × Surroundings))
      (st : Deliveries) (o : Result String)
      → sink.enabled ≡ true
      → (deliver_sink in_repository event sink w st).0 ≡ o
      → let st' = (deliver_sink in_repository event sink w st).1 in
        Reach (system [] st') (system [] (deliver_all in_repository event sinks st').1)
        → Reach
            (system [] st)
            (system [] (deliver_all in_repository event ((sink, w) ∷ sinks) st).1)
  unfolding deliver_all deliver_sink
  by_outcome sink w sinks st (err e) on p rest =
      rw (on, p) (deliver_sink-Reach in_repository event sink w st)
  by_outcome sink w sinks st (ok status) on p rest =
      rw (on, p) (Reach-trans (deliver_sink-Reach in_repository event sink w st) rest)

  deliver_all-Reach :
      (sinks : List (Settings × Surroundings)) (st : Deliveries)
      → Reach (system [] st) (system [] (deliver_all in_repository event sinks st).1)
  unfolding deliver_all
  deliver_all-Reach [] st = here
  deliver_all-Reach ((sink, w) ∷ sinks) st = elim (Bool-cases sink.enabled) [
    | inl on ↦
        by_outcome sink w sinks st (deliver_sink in_repository event sink w st).0 on refl
          (deliver_all-Reach sinks (deliver_sink in_repository event sink w st).1)
    | inr off ↦ rw off (deliver_all-Reach sinks st)
  ]

  -- A run of `notify` from any ledger, with any configuration or none, any locks that are busy and
  -- any ends of the transport, is a sequence of critical sections that holds no reservation at its
  -- end.
  pub notify-Reach :
      (now : ℕ) (lock : Bool) (config : Result (List (Settings × Surroundings))) (st : Deliveries)
      → Reach (system [] st) (system [] (notify in_repository event now lock config st).1)
  unfolding notify
  notify-Reach now lock (err e) st = here
  notify-Reach now true (ok sinks) st =
      Reach-trans (next here (write_row (system [] st) (observed event now)))
        (deliver_all-Reach sinks (record st { rows = st.rows ++ observed event now ∷ [] }))
  notify-Reach now false (ok sinks) st = here

-- One call of `notify`: its event, its time, whether its first lock was free, its configuration.
pub record Call : Type 0 where
  pub in_repository : Bool
  pub event : NotificationEvent
  pub now : ℕ
  pub lock : Bool
  pub config : Result (List (Settings × Surroundings))

abbrev pub notify_each : List Call → Deliveries → Deliveries
notify_each [] st = st
notify_each (c ∷ cs) st = notify_each cs (notify c.in_repository c.event c.now c.lock c.config st).1

notify_each-Reach :
    (calls : List Call) (st : Deliveries) → Reach (system [] st) (system [] (notify_each calls st))
notify_each-Reach [] st = here
notify_each-Reach (c ∷ cs) st =
    Reach-trans (notify-Reach c.in_repository c.event c.now c.lock c.config st)
      (notify_each-Reach cs (notify c.in_repository c.event c.now c.lock c.config st).1)

-- Over any sequence of calls of `notify`, with any events, configurations and surroundings, the
-- transport is called at most once for a sink and an event, and never for a pair that the ledger
-- had a row of before.
pub notify_sends_once :
    (rows : Ledger) (calls : List Call) (k : String × String)
    → let sent = (notify_each calls (record { rows = rows; sent = [] })).sent in
      (count k sent ≤ 1) × (any (matches k.0 k.1) rows ≡ true → count k sent ≡ 0)
notify_sends_once rows calls k =
    sent_at_most_once rows (notify_each-Reach calls (record { rows = rows; sent = [] })) k
