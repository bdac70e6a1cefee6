-- ===== src/Notifications/AtMostOnce.antt =====
-- The transport is called at most once for an event and a sink, whatever processes run between the
-- critical sections, and wherever they die.
use dispatcher_for_codex_age.Prelude.{
  ℕ, ◌+◌, ◌≤◌, String, ◌≡◌, refl, ap, true, false, List, [], ◌∷◌, ◌++◌, any, any-append, count,
  ◌==◌, ==_iff, string_eq, pair_eq, arith, count-append,
}
use dispatcher_for_codex_age.Notifications.Event.{NotificationEvent}
use dispatcher_for_codex_age.Notifications.Ledger.{
  Ledger, Row, matches, send, decide, decided_status, reserve, begin_attempt, delivery,
}

-- All processes together: the ledger, the reservations whose holder may still call the transport,
-- and the calls that were made.
pub record System : Type 0 where
  pub rows : Ledger
  pub holders : List (String × String)
  pub sent : List (String × String)

-- A section of some process, or its death. A process may call the transport only for a
-- reservation that it holds, and gives it up with the call.
pub data Step : System → System → Type 0 where
  take_reservation :
      (s : System) (sink_id : String) (event : NotificationEvent) (now : ℕ)
      → decide sink_id event now s.rows ≡ send
      → Step s (record s {
        rows = (reserve sink_id event now s.rows).1;
        holders = (sink_id, event.event_id) ∷ s.holders;
      })
  write_decision :
      (s : System) (sink_id : String) (event : NotificationEvent) (now : ℕ)
      → Step s (record s { rows = (reserve sink_id event now s.rows).1 })
  call_transport :
      (s : System) (before after : List (String × String)) (sink_id : String)
      (event : NotificationEvent) (now : ℕ)
      → s.holders ≡ before ++ (sink_id, event.event_id) ∷ after
      → Step s (record {
        rows = begin_attempt sink_id event now s.rows;
        holders = before ++ after;
        sent = (sink_id, event.event_id) ∷ s.sent;
      })
  write_row : (s : System) (row : Row) → Step s (record s { rows = s.rows ++ row ∷ [] })
  give_up :
      (s : System) (before after : List (String × String)) (key : String × String)
      → s.holders ≡ before ++ key ∷ after
      → Step s (record s { holders = before ++ after })

pub data Reach (s : System) : System → Type 0 where
  here : Reach s s
  next : {t u : System} → Reach s t → Step t u → Reach s u

-- How often a key is held or was sent.
abbrev pub uses : String × String → System → ℕ
uses k s = count k s.holders + count k s.sent

-- From a ledger `old`: a key is used at most once, only if the ledger now has a row of it, and not
-- at all if `old` has one.
pub record IsSound (old : Ledger) (s : System) : Type 0 where
  pub once : (k : String × String) → uses k s ≤ 1
  pub recorded : (k : String × String) → any (matches k.0 k.1) s.rows ≡ false → uses k s ≡ 0
  pub kept :
      (k : String × String) → any (matches k.0 k.1) old ≡ true → any (matches k.0 k.1) s.rows ≡ true
  pub unused : (k : String × String) → any (matches k.0 k.1) old ≡ true → uses k s ≡ 0

rows_keep :
    (k : String × String) (rows : Ledger) (row : Row)
    → any (matches k.0 k.1) rows ≡ true
    → any (matches k.0 k.1) (rows ++ row ∷ []) ≡ true
rows_keep k rows row p = ground (arith, any-append (matches k.0 k.1) rows (row ∷ []))

rows_grow :
    (k : String × String) (rows : Ledger) (row : Row)
    → any (matches k.0 k.1) (rows ++ row ∷ []) ≡ false
    → any (matches k.0 k.1) rows ≡ false
rows_grow k rows row p = ground (arith, any-append (matches k.0 k.1) rows (row ∷ []))

decide-send :
    (sink_id : String) (event : NotificationEvent) (now : ℕ) (rows : Ledger)
    → decide sink_id event now rows ≡ send
    → any (matches sink_id event.event_id) rows ≡ false
unfolding decide
decide-send sink_id event now rows p = ground arith

remove_one :
    (k key : String × String) (before after : List (String × String))
    → count k (before ++ key ∷ after) ≡ count k (before ++ after) + count k (key ∷ [])
remove_one k key before after =
    omega (arith, count-append k before (key ∷ after), count-append k before after, count_cons)
  where
    count_cons : count k (key ∷ after) ≡ count k after + count k (key ∷ [])
    count_cons = ground arith

-- Appending a row keeps soundness.
grow-IsSound :
    (old : Ledger) (s : System) (row : Row)
    → IsSound old s
    → IsSound old (record s { rows = s.rows ++ row ∷ [] })
grow-IsSound old s row v = record {
  once = v.once;
  recorded = λ k p. v.recorded k (rows_grow k s.rows row p);
  kept = λ k p. rows_keep k s.rows row (v.kept k p);
  unused = v.unused;
}

reserved_row :
    (k : String × String) (sink_id : String) (event : NotificationEvent) (now : ℕ) (rows : Ledger)
    → any (matches k.0 k.1) (reserve sink_id event now rows).1 ≡ false
    → (k == (sink_id, event.event_id)) ≡ false
unfolding reserve
reserved_row k sink_id event now rows p =
    let row = delivery sink_id event (decided_status (decide sink_id event now rows)) now false in
    ground (
      arith,
      any-append (matches k.0 k.1) rows (row ∷ []),
      ==_iff k.0 sink_id,
      ==_iff sink_id k.0,
      ==_iff k.1 event.event_id,
      ==_iff event.event_id k.1,
    )

-- The key of an event has no use where its ledger has no row of it.
pair_found :
    (k key : String × String) (rows : Ledger)
    → (k == key) ≡ true
    → any (matches key.0 key.1) rows ≡ any (matches k.0 k.1) rows
pair_found k key rows p = cc ((==_iff k key).0 p)

module _ (old : Ledger) (s : System) (sink_id : String) (event : NotificationEvent) (now : ℕ) where
  reserving : Row
  reserving = delivery sink_id event (decided_status (decide sink_id event now s.rows)) now false

  reserve-rows : (reserve sink_id event now s.rows).1 ≡ s.rows ++ reserving ∷ []
  unfolding reserve reserving
  reserve-rows = refl

  -- A reservation of a pair that no row has keeps soundness.
  take-IsSound :
      decide sink_id event now s.rows ≡ send
      → IsSound old s
      → IsSound old (record s {
        rows = (reserve sink_id event now s.rows).1;
        holders = (sink_id, event.event_id) ∷ s.holders;
      })
  take-IsSound p v =
      let key : String × String = (sink_id, event.event_id) in
      let free = decide-send sink_id event now s.rows p in
      record {
        once = λ k. ground (arith, v.once k, v.recorded k, pair_found k key s.rows);
        recorded = λ k q. ground (
          arith,
          reserved_row k sink_id event now s.rows q,
          v.recorded k (rows_grow k s.rows reserving (rw reserve-rows at q)),
        );
        kept = λ k q. rw reserve-rows (rows_keep k s.rows reserving (v.kept k q));
        unused = λ k q. ground (arith, v.unused k q, v.kept k q, pair_found k key s.rows);
      }

-- A key that is given up is held once less.
release-IsSound :
    (old : Ledger) (s : System) (before after : List (String × String)) (key : String × String)
    → s.holders ≡ before ++ key ∷ after
    → IsSound old s
    → IsSound old (record s { holders = before ++ after })
release-IsSound old s before after key held v =
    let fewer = λ (k : String × String). remove_one k key before after in
    record {
      once = λ k. omega (arith, v.once k, fewer k, ap (count k) held);
      recorded = λ k p. omega (arith, v.recorded k p, fewer k, ap (count k) held);
      kept = v.kept;
      unused = λ k p. omega (arith, v.unused k p, fewer k, ap (count k) held);
    }

-- A key that is given up for a call is used as often as before.
call-IsSound :
    (old : Ledger) (s : System) (before after : List (String × String)) (key : String × String)
    → s.holders ≡ before ++ key ∷ after
    → IsSound old s
    → IsSound old (record s { holders = before ++ after; sent = key ∷ s.sent })
call-IsSound old s before after key held v =
    let moved = λ (k : String × String). called k in
    record {
      once = λ k. omega (arith, v.once k, moved k);
      recorded = λ k p. omega (arith, v.recorded k p, moved k);
      kept = v.kept;
      unused = λ k p. omega (arith, v.unused k p, moved k);
    }
  where
    called : (k : String × String) → count k (before ++ after) + count k (key ∷ s.sent) ≡ uses k s
    called k = ground (arith, remove_one k key before after, ap (count k) held)

-- Every section keeps the system sound.
Step-IsSound : {old : Ledger} {s t : System} → Step s t → IsSound old s → IsSound old t
Step-IsSound {old} (take_reservation s sink_id event now p) v =
    take-IsSound old s sink_id event now p v
Step-IsSound {old} (write_decision s sink_id event now) v =
    rw (reserve-rows old s sink_id event now)
      (grow-IsSound old s (reserving old s sink_id event now) v)
Step-IsSound {old} (call_transport s before after sink_id event now held) v =
    let key : String × String = (sink_id, event.event_id) in
    grow-IsSound old (record s { holders = before ++ after; sent = key ∷ s.sent })
      (delivery sink_id event "DELIVERY_UNKNOWN" now true)
      (call-IsSound old s before after key held v)
Step-IsSound {old} (write_row s row) v = grow-IsSound old s row v
Step-IsSound {old} (give_up s before after key held) v =
    release-IsSound old s before after key held v

Reach-IsSound : {old : Ledger} {s t : System} → Reach s t → IsSound old s → IsSound old t
Reach-IsSound here v = v
Reach-IsSound (next r st) v = Step-IsSound st (Reach-IsSound r v)

abbrev pub start : Ledger → System
start rows = record { rows = rows; holders = []; sent = [] }

start-IsSound : (rows : Ledger) → IsSound rows (start rows)
start-IsSound rows = record {
  once = λ k. omega arith;
  recorded = λ k p. refl;
  kept = λ k p. p;
  unused = λ k p. refl;
}

-- From any ledger, under every interleaving of the critical sections of any number of processes,
-- and wherever they die, the transport is called at most once for a sink and an event, and never
-- for a pair that the ledger had a row of at the start.
pub sent_at_most_once :
    (rows : Ledger) {t : System}
    → Reach (start rows) t
    → (k : String × String)
    → (count k t.sent ≤ 1) × (any (matches k.0 k.1) rows ≡ true → count k t.sent ≡ 0)
sent_at_most_once rows r k =
    let v = Reach-IsSound r (start-IsSound rows) in
    (omega (arith, v.once k), λ p. omega (arith, v.unused k p))
