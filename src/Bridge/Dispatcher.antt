-- ===== src/Bridge/Dispatcher.antt =====
-- main_agent_bridge/controller.py, `Dispatcher`: an event is reserved in the ledger before it is
-- sent, and a request that does not return a turn leaves an AMBIGUOUS row.
pub mod Selection
pub mod AtMostOnce
pub mod Budgets
use dispatcher_for_codex_age.Prelude.{
  ℕ, String, Bool, true, false, not, ◌&&◌, ◌||◌, Option, none, some, List, [], ◌∷◌, ◌++◌, contains,
  any, all, filter, map, count_if, length, leb, ◌==◌, nat_eq, string_eq, if◌then◌else◌,
}
use dispatcher_for_codex_age.Prelude.Result.{Result, ok, err, ◌>>=◌, ◌>>◌, refuse}
use dispatcher_for_codex_age.Json.{Json, Items, str, arr, nil, cons, Float, number_lt, float_number}
use dispatcher_for_codex_age.Host.{Host}
use dispatcher_for_codex_age.Bridge.Contracts.{BridgeBinding, BridgeEvent}
use dispatcher_for_codex_age.Bridge.Store.{
  Row, reserved, acknowledged, completed, ambiguous, rpc_send, Store, append, records, pending,
}

abbrev pub is_reserved : Row → Bool
is_reserved (reserved r ids) = true
is_reserved _ = false

abbrev pub is_ambiguous : Row → Bool
is_ambiguous (ambiguous r ids) = true
is_ambiguous _ = false

-- `r.get("method") == "turn/start"`
abbrev pub is_turn_start : Row → Bool
is_turn_start (rpc_send method n t) = method == "turn/start"
is_turn_start _ = false

abbrev pub reserved_ids : Row → List String
reserved_ids (reserved r ids) = ids
reserved_ids _ = []

-- `completed`: the reservations of the COMPLETED rows.
abbrev pub completed_reservations : List Row → List String
completed_reservations [] = []
completed_reservations (completed r t ids ∷ rows) = r ∷ completed_reservations rows
completed_reservations (_ ∷ rows) = completed_reservations rows

-- `r["reservation"] not in completed`, for a RESERVED row.
abbrev pub is_unacknowledged : List String → Row → Bool
is_unacknowledged done (reserved r ids) = not (contains r done)
is_unacknowledged done _ = false

-- Python's `a >= b` on times, where no operand is a NaN.
abbrev pub time_geb : Float → Float → Bool
time_geb a b = not (number_lt (float_number a) (float_number b))

abbrev pub id_items : List String → Items
id_items [] = nil
id_items (x ∷ xs) = cons (str x) (id_items xs)

-- What a caller knows when it delivers: the clock and the arguments of `deliver`.
pub record Request : Type 0 where
  pub now : Float
  pub active : Bool
  pub permission_pending : Bool
  pub was_cancelled : Bool

-- The tests of `deliver` on the ledger and on the pending events, in the code's order.
unfoldable pub check_delivery :
    BridgeBinding → List Row → List (String × BridgeEvent) → Result (Unit {0})
check_delivery b rows events = do
  refuse
      (any (λ item. not (item.1.target_thread == b.thread_id) || not (item.1.task_id == b.task_id))
        events)
      "THREAD_BINDING_MISMATCH"
  refuse (any (is_unacknowledged (completed_reservations rows)) rows)
      "UNACKNOWLEDGED_DELIVERY_REQUIRES_HUMAN_ACTION"
  refuse (leb b.wake_budget (count_if is_reserved rows)) "WAKE_BUDGET_EXHAUSTED"
  refuse (leb b.main_turn_budget (count_if is_turn_start rows)) "MAIN_TURN_BUDGET_EXHAUSTED"
  ok tt

abbrev pub ids_of : List (String × BridgeEvent) → List String
ids_of = map (λ item. item.0)

-- `deliver` up to the reservation: the events to send, or `[]` where nothing is pending.
unfoldable pub select :
    Host → BridgeBinding → Request → Store → Result (List (String × BridgeEvent))
unfolding check_delivery
select h b q s = do
  refuse (q.was_cancelled || s.cancelled) "AUTHORIZATION_REVOKED"
  refuse (q.active || q.permission_pending) "ACTIVE_THREAD_OR_PERMISSION_CONFLICT"
  refuse (time_geb q.now b.expires_at) "AUTHORIZATION_EXPIRED"
  rows ← records s
  refuse (any is_ambiguous rows) "AMBIGUOUS_DELIVERY_REQUIRES_HUMAN_ACTION"
  events ← pending h s
  elim events [ [] ↦ ok [] | item ∷ more ↦ check_delivery b rows (item ∷ more) >> ok (item ∷ more) ]

unfoldable pub reservation_of : Host → List String → String
reservation_of h ids = h.digest (h.canonical (arr (id_items ids)))

unfoldable pub reserve : Host → List (String × BridgeEvent) → Store → Store
unfolding reservation_of
reserve h events s = append (reserved (reservation_of h (ids_of events)) (ids_of events)) s

-- How `self.bridge.request("turn/start", …)` ends: with the turn's id, or with an exception.
pub data Reply : Type 0 where
  turn : String → Reply
  failure : String → Reply

-- The request that `deliver` sends, and the row that its end leaves.
unfoldable pub send :
    Host
    → BridgeBinding
    → ℕ
    → Reply
    → List String
    → Store
    → Result (String × String × List String) × Store
send h b serial (turn id) ids s =
    let r = reservation_of h ids in
    (
      ok (r, id, ids),
      append (acknowledged r id ids) (append (rpc_send "turn/start" serial (some b.thread_id)) s),
    )
send h b serial (failure e) ids s =
    let r = reservation_of h ids in
    (err e, append (ambiguous r ids) (append (rpc_send "turn/start" serial (some b.thread_id)) s))

abbrev pub Delivery : Type 0
Delivery = Option (String × String × List String)

-- `Dispatcher.deliver`, where the bridge's next request has the given serial number and reply.
unfoldable pub deliver :
    Host → BridgeBinding → Request → ℕ → Reply → Store → Result Delivery × Store
unfolding select reserve send
deliver h b q serial reply s = elim (select h b q s) [
  | err e ↦ (err e, s)
  | ok events ↦ elim events [
    | [] ↦ (ok none, s)
    | item ∷ more ↦
        let (outcome, s') =
          send h b serial reply (ids_of (item ∷ more)) (reserve h (item ∷ more) s) in
        (outcome >>= λ d. ok (some d), s')
  ]
]
