-- ===== src/Bridge/Controller/Settled.antt =====
-- A delivery that `_continue` makes is settled: COMPLETED with a confirmation, or AMBIGUOUS.
use dispatcher_for_codex_age.Prelude.{
  ℕ, String, ◌≡◌, refl, ap, ◌⊎◌, inl, inr, true, false, Option, some, List, [], ◌∷◌, ◌++◌, any,
  any-last, contains, ==_refl, nat_eq, string_eq, arith,
}
use dispatcher_for_codex_age.Prelude.Result.{Result, ok, err, ◌>>=◌, is_ok}
use dispatcher_for_codex_age.Json.{Json}
use dispatcher_for_codex_age.Host.{Host}
use dispatcher_for_codex_age.Schema.Check.{validate_json_schema}
use dispatcher_for_codex_age.Bridge.Contracts.{BridgeBinding}
use dispatcher_for_codex_age.Bridge.Store.{Row, Store}
use dispatcher_for_codex_age.Bridge.Dispatcher.{
  Request, Reply, deliver, is_ambiguous, completed_reservations,
}
use dispatcher_for_codex_age.Bridge.Dispatcher.Budgets.{ambiguous_refuses}
use dispatcher_for_codex_age.Bridge.Controller.{Spec, Controller, guard}
use dispatcher_for_codex_age.Bridge.Controller.Turn.{run_turn}
use dispatcher_for_codex_age.Bridge.Controller.Continue.{
  output_schema, is_confirmation, confirm, settled_by, Surroundings, Report, confirmed, request_of,
  settle_delivery, after_delivery, continue_delivery,
}

contains-completed :
    (rows : List Row) (r t : String) (ids : List String)
    → contains r (completed_reservations (rows ++ Row.completed r t ids ∷ [])) ≡ true
contains-completed [] r t ids = ground (arith, ==_refl r)
contains-completed (Row.completed r' t' ids' ∷ rows) r t ids =
    ground (arith, contains-completed rows r t ids)
contains-completed (row ∷ rows) r t ids = contains-completed rows r t ids

-- A reservation after its continuation: confirmed and COMPLETED, or a ledger that is AMBIGUOUS.
abbrev pub IsSettled : Spec → String → Result Report → Controller → Type 0
IsSettled spec reservation outcome c =
    ((output : Json) × (outcome ≡ ok (confirmed output))
      × (validate_json_schema output output_schema ≡ ok tt)
      × (is_confirmation spec c.result_reads output ≡ true)
      × (contains reservation (completed_reservations c.store.ledger) ≡ true))
    ⊎ ((is_ok outcome ≡ false) × (any is_ambiguous c.store.ledger ≡ true))

confirmed_parts :
    (decode : String → Option Json) (spec : Spec) (reads : ℕ) (final : String) (output : Json)
    → confirm decode spec reads final ≡ ok output
    → (validate_json_schema output output_schema ≡ ok tt)
      × (is_confirmation spec reads output ≡ true)
unfolding confirm
confirmed_parts decode spec reads final output h = ground arith

by_outcome :
    (decode : String → Option Json) (spec : Spec) (reservation turn_id : String) (ids : List String)
    (c : Controller) (turn : Result String) (m : Result Json)
    → (turn >>= confirm decode spec c.result_reads) ≡ m
    → let after = settled_by reservation turn_id ids c m in
      IsSettled spec reservation after.0 after.1
unfolding settled_by
by_outcome decode spec reservation turn_id ids c turn (err e) p =
    inr (refl, any-last is_ambiguous c.store.ledger (Row.ambiguous reservation ids) refl)
by_outcome decode spec reservation turn_id ids c (err e) (ok output) p = absurd cc
by_outcome decode spec reservation turn_id ids c (ok final) (ok output) p =
    let (valid, confirms) = confirmed_parts decode spec c.result_reads final output p in
    inl (output, refl, valid, confirms, contains-completed c.store.ledger reservation turn_id ids)

settle_delivery-IsSettled :
    (h : Host) (decode : String → Option Json) (spec : Spec) (w : Surroundings)
    (reservation turn_id : String) (ids : List String) (c : Controller)
    → let after = settle_delivery h decode spec w (reservation, turn_id, ids) c in
      IsSettled spec reservation after.0 after.1
unfolding settle_delivery
settle_delivery-IsSettled h decode spec w reservation turn_id ids c =
    let (turn, c') = run_turn h spec true turn_id w.last w.arrivals c in
    by_outcome decode spec reservation turn_id ids c' turn
      (turn >>= confirm decode spec c'.result_reads) refl

continues_to :
    (h : Host) (decode : String → Option Json) (spec : Spec) (w : Surroundings) (c : Controller)
    {reservation turn_id : String} {ids : List String} {s : Store}
    → guard spec w.at_guard c ≡ ok tt
    → deliver h c.binding (request_of w c) w.serial w.reply c.store
      ≡ (ok (some (reservation, turn_id, ids)), s)
    → continue_delivery h decode spec w c
      ≡ settle_delivery h decode spec w (reservation, turn_id, ids) (record c { store = s })
unfolding continue_delivery after_delivery
continues_to h decode spec w c {reservation} {turn_id} {ids} p q =
    rw (p, q, continue_delivery, after_delivery)
      (ap
        (λ x. settle_delivery h decode spec w (reservation, turn_id, ids) (record c { store = x }))
        (ap (λ x. x.1) q))

-- If the guard lets a continuation pass and the delivery returns a turn, then, whatever the host
-- sends in that turn, the continuation returns an output that the schema accepts and that confirms
-- the task, all result files and the one reading of the results, and its reservation is COMPLETED;
-- or it raises, and the ledger has an AMBIGUOUS row.
pub continue_delivery-IsSettled :
    (h : Host) (decode : String → Option Json) (spec : Spec) (w : Surroundings) (c : Controller)
    {reservation turn_id : String} {ids : List String} {s : Store}
    → guard spec w.at_guard c ≡ ok tt
    → deliver h c.binding (request_of w c) w.serial w.reply c.store
      ≡ (ok (some (reservation, turn_id, ids)), s)
    → let after = continue_delivery h decode spec w c in IsSettled spec reservation after.0 after.1
continue_delivery-IsSettled h decode spec w c {reservation} {turn_id} {ids} {s} p q =
    rw (continues_to h decode spec w c p q)
      (settle_delivery-IsSettled h decode spec w reservation turn_id ids (record c { store = s }))

-- If a continuation raises after its delivery returned a turn, every later delivery raises and
-- leaves the store as it is: the events are not sent again without a human.
pub continuation_error_blocks :
    (h : Host) (decode : String → Option Json) (spec : Spec) (w : Surroundings) (c : Controller)
    {reservation turn_id : String} {ids : List String} {s : Store}
    → guard spec w.at_guard c ≡ ok tt
    → deliver h c.binding (request_of w c) w.serial w.reply c.store
      ≡ (ok (some (reservation, turn_id, ids)), s)
    → is_ok (continue_delivery h decode spec w c).0 ≡ false
    → (b : BridgeBinding) (r : Request) (serial : ℕ) (reply : Reply)
    → let later = (continue_delivery h decode spec w c).1.store in
      ((deliver h b r serial reply later).1 ≡ later)
      × (is_ok (deliver h b r serial reply later).0 ≡ false)
continuation_error_blocks h decode spec w c p q raised b r serial reply =
    elim (continue_delivery-IsSettled h decode spec w c p q) [
      | inl (output, done, _, _, _) ↦ let accepted = ap is_ok done in cc
      | inr (_, stuck) ↦
          ambiguous_refuses h b r serial reply (continue_delivery h decode spec w c).1.store stuck
    ]
