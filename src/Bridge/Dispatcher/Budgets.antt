-- ===== src/Bridge/Dispatcher/Budgets.antt =====
-- When `Dispatcher.deliver` sends, and what its rows do to the budgets and to later deliveries.
use dispatcher_for_codex_age.Prelude.{
  ℕ, ◌+◌, ◌≤◌, ◌<◌, String, ◌≡◌, ◌≢◌, refl, Bool, true, false, List, [], ◌∷◌, ◌++◌, string_eq,
  arith, any, count_if, any-last, count_if-append, inl, inr, ◌⊎◌, none, some,
}
use dispatcher_for_codex_age.Prelude.Result.{Result, ok, err, is_ok}
use dispatcher_for_codex_age.Host.{Host}
use dispatcher_for_codex_age.Bridge.Contracts.{BridgeEvent, BridgeBinding}
use dispatcher_for_codex_age.Bridge.Store.{Row, Store, records, pending}
use dispatcher_for_codex_age.Bridge.Dispatcher.AtMostOnce.{select-pending}
use dispatcher_for_codex_age.Bridge.Dispatcher.{
  ids_of, Request, Reply, turn, failure, select, deliver, is_reserved, is_ambiguous, is_turn_start,
  is_unacknowledged, completed_reservations, reservation_of, Delivery,
}

-- What must hold of the ledger for a delivery to be sent.
pub record MayDeliver (b : BridgeBinding) (s : Store) : Type 0 where
  pub in_time : s.cancelled ≡ false
  pub no_ambiguous : any is_ambiguous s.ledger ≡ false
  pub acknowledged : any (is_unacknowledged (completed_reservations s.ledger)) s.ledger ≡ false
  pub wakes_left : count_if is_reserved s.ledger < b.wake_budget
  pub turns_left : count_if is_turn_start s.ledger < b.main_turn_budget

pub select-MayDeliver :
    (h : Host) (b : BridgeBinding) (q : Request) (s : Store) {item : String × BridgeEvent}
    {more : List (String × BridgeEvent)}
    → select h b q s ≡ ok (item ∷ more)
    → MayDeliver b s
unfolding select records
select-MayDeliver h b q s p = ground arith

-- The row that the reply of the host leaves.
abbrev pub outcome_row : String → List String → Reply → Row
outcome_row r ids (turn id) = Row.acknowledged r id ids
outcome_row r ids (failure e) = Row.ambiguous r ids

-- The store after a delivery of the given ids.
abbrev pub delivered : Host → BridgeBinding → ℕ → Reply → List String → Store → Store
delivered h b serial reply ids s =
    let r = reservation_of h ids in
    record s {
      ledger =
          ((s.ledger ++ Row.reserved r ids ∷ [])
            ++ Row.rpc_send "turn/start" serial (some b.thread_id) ∷ [])
          ++ outcome_row r ids reply ∷ [];
    }

abbrev pub reply_result : String → List String → Reply → Result Delivery
reply_result r ids (turn id) = ok (some (r, id, ids))
reply_result r ids (failure e) = err e

abbrev pub DeliverCases : Host → BridgeBinding → Request → ℕ → Reply → Store → Type 0
DeliverCases h b q serial reply s =
    let (result, s') = deliver h b q serial reply s in
    ((s' ≡ s) × ((result ≡ ok none) ⊎ (is_ok result ≡ false)))
    ⊎ ((item : String × BridgeEvent) × (more : List (String × BridgeEvent)) × (pending h s
          ≡ ok (item ∷ more))
        × MayDeliver b s
        × (s' ≡ delivered h b serial reply (ids_of (item ∷ more)) s)
        × (result
            ≡ reply_result (reservation_of h (ids_of (item ∷ more))) (ids_of (item ∷ more)) reply))

deliver_by_selection :
    (h : Host) (b : BridgeBinding) (q : Request) (serial : ℕ) (reply : Reply) (s : Store)
    (r : Result (List (String × BridgeEvent)))
    → select h b q s ≡ r
    → DeliverCases h b q serial reply s
unfolding deliver
deliver_by_selection h b q serial reply s (err e) p =
    inl (rw (p, deliver), rw (p, deliver) (inr refl))
deliver_by_selection h b q serial reply s (ok []) p =
    inl (rw (p, deliver), rw (p, deliver) (inl refl))
deliver_by_selection h b q serial (turn id) s (ok (item ∷ more)) p = inr (
  item,
  more,
  select-pending h b q s p,
  select-MayDeliver h b q s p,
  rw (p, deliver),
  rw (p, deliver),
)
deliver_by_selection h b q serial (failure e) s (ok (item ∷ more)) p = inr (
  item,
  more,
  select-pending h b q s p,
  select-MayDeliver h b q s p,
  rw (p, deliver),
  rw (p, deliver),
)

pub deliver_cases :
    (h : Host) (b : BridgeBinding) (q : Request) (serial : ℕ) (reply : Reply) (s : Store)
    → DeliverCases h b q serial reply s
deliver_cases h b q serial reply s = deliver_by_selection h b q serial reply s (select h b q s) refl

-- A delivery adds its three rows to any count of rows.
count-delivered :
    (p : Row → Bool) (h : Host) (b : BridgeBinding) (serial : ℕ) (reply : Reply) (ids : List String)
    (s : Store)
    → let r = reservation_of h ids in
      count_if p (delivered h b serial reply ids s).ledger
      ≡ count_if p s.ledger
        + count_if p (Row.reserved r ids ∷ [])
        + count_if p (Row.rpc_send "turn/start" serial (some b.thread_id) ∷ [])
        + count_if p (outcome_row r ids reply ∷ [])
count-delivered p h b serial reply ids s =
    let r = reservation_of h ids in
    let first = s.ledger ++ Row.reserved r ids ∷ [] in
    let second = first ++ Row.rpc_send "turn/start" serial (some b.thread_id) ∷ [] in
    omega (
      arith,
      count_if-append p second (outcome_row r ids reply ∷ []),
      count_if-append p first (Row.rpc_send "turn/start" serial (some b.thread_id) ∷ []),
      count_if-append p s.ledger (Row.reserved r ids ∷ []),
    )

outcome_costs_nothing :
    (r : String) (ids : List String) (reply : Reply)
    → (count_if is_reserved (outcome_row r ids reply ∷ []) ≡ 0)
      × (count_if is_turn_start (outcome_row r ids reply ∷ []) ≡ 0)
outcome_costs_nothing r ids (turn id) = (refl, refl)
outcome_costs_nothing r ids (failure e) = (refl, refl)

-- A delivery costs one wake and one main turn.
delivery_costs_one :
    (h : Host) (b : BridgeBinding) (serial : ℕ) (reply : Reply) (ids : List String) (s : Store)
    → let ledger = (delivered h b serial reply ids s).ledger in
      (count_if is_reserved ledger ≡ count_if is_reserved s.ledger + 1)
      × (count_if is_turn_start ledger ≡ count_if is_turn_start s.ledger + 1)
delivery_costs_one h b serial reply ids s =
    let free = outcome_costs_nothing (reservation_of h ids) ids reply in
    (
      omega (arith, count-delivered is_reserved h b serial reply ids s, free.0),
      omega (arith, count-delivered is_turn_start h b serial reply ids s, free.1),
    )

-- Neither the RESERVED rows nor the starts of main turns pass the budgets of the binding by a
-- delivery, whatever the host replies.
pub deliver_within_budgets :
    (h : Host) (b : BridgeBinding) (q : Request) (serial : ℕ) (reply : Reply) (s : Store)
    → count_if is_reserved s.ledger ≤ b.wake_budget
    → count_if is_turn_start s.ledger ≤ b.main_turn_budget
    → let s' = (deliver h b q serial reply s).1 in
      (count_if is_reserved s'.ledger ≤ b.wake_budget)
      × (count_if is_turn_start s'.ledger ≤ b.main_turn_budget)
deliver_within_budgets h b q serial reply s wakes turns =
    elim (deliver_cases h b q serial reply s) [
      | inl (same, _) ↦ rw same (wakes, turns)
      | inr (item, more, _, may, grown, _) ↦
          let cost = delivery_costs_one h b serial reply (ids_of (item ∷ more)) s in
          rw grown (omega (arith, cost.0, may.wakes_left), omega (arith, cost.1, may.turns_left))
    ]

-- A store with an AMBIGUOUS row refuses every delivery, whatever is asked, and is left alone.
pub ambiguous_refuses :
    (h : Host) (b : BridgeBinding) (q : Request) (serial : ℕ) (reply : Reply) (s : Store)
    → any is_ambiguous s.ledger ≡ true
    → ((deliver h b q serial reply s).1 ≡ s) × (is_ok (deliver h b q serial reply s).0 ≡ false)
unfolding deliver select records
ambiguous_refuses h b q serial reply s p = ground arith

ambiguous-delivered :
    (h : Host) (b : BridgeBinding) (serial : ℕ) (e : String) (ids : List String) (s : Store)
    → any is_ambiguous (delivered h b serial (failure e) ids s).ledger ≡ true
ambiguous-delivered h b serial e ids s =
    let r = reservation_of h ids in
    any-last is_ambiguous
      ((s.ledger ++ Row.reserved r ids ∷ [])
        ++ Row.rpc_send "turn/start" serial (some b.thread_id) ∷ [])
      (Row.ambiguous r ids) refl

-- When the host does not confirm a delivery that was sent, the next `deliver`, with any request
-- and any reply, raises and writes nothing: nothing is sent again without a human.
pub failure_blocks_delivery :
    (h : Host) (b : BridgeBinding) (q : Request) (serial : ℕ) (e : String) (s : Store)
    → (deliver h b q serial (failure e) s).1 ≢ s
    → (b' : BridgeBinding) (q' : Request) (serial' : ℕ) (reply' : Reply)
    → let s' = (deliver h b q serial (failure e) s).1 in
      ((deliver h b' q' serial' reply' s').1 ≡ s')
      × (is_ok (deliver h b' q' serial' reply' s').0 ≡ false)
failure_blocks_delivery h b q serial e s sent b' q' serial' reply' =
    elim (deliver_cases h b q serial (failure e) s) [
      | inl (same, _) ↦ absurd (sent same)
      | inr (item, more, _, _, grown, _) ↦
          ambiguous_refuses h b' q' serial' reply' (deliver h b q serial (failure e) s).1
            (rw grown (ambiguous-delivered h b serial e (ids_of (item ∷ more)) s))
    ]
