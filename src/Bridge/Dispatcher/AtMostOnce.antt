-- ===== src/Bridge/Dispatcher/AtMostOnce.antt =====
-- No event is reserved twice, whatever happens between the deliveries.
use dispatcher_for_codex_age.Prelude.{
  ℕ, ◌+◌, ◌≤◌, String, ◌≡◌, refl, Bool, true, false, not, List, [], ◌∷◌, ◌++◌, contains, count,
  filter, ◌||◌, is_unique, string_eq, arith, count_unique, count-append, count-zero, Bool-cases,
  inl, inr, none, some,
}
use dispatcher_for_codex_age.Prelude.Result.{Result, ok, err, >>=-eq-ok}
use dispatcher_for_codex_age.Prelude.Sort.{sort, count-sort}
use dispatcher_for_codex_age.Prelude.Text.{text_leb, ends_in, codes}
use dispatcher_for_codex_age.Host.{Host, file_names, Directory, find_file, exclusive}
use dispatcher_for_codex_age.Bridge.Contracts.{BridgeEvent, BridgeBinding}
use dispatcher_for_codex_age.Bridge.Store.{
  Row, Store, json_name, read_all, pending, records, all_settled, event_files, delivery_order, put,
  append, settled_ids, event_id_of,
}
use dispatcher_for_codex_age.Bridge.Dispatcher.{
  ids_of, Request, Reply, select, deliver, is_reserved, reserved_ids, reserve, send, reservation_of,
}
use dispatcher_for_codex_age.Bridge.Dispatcher.Selection.{
  read_all-ids, count-sort_items, count-filter_ids, count-filter-le,
}

-- The file names of a directory are distinct.
abbrev pub HasNames : Store → Type 0
HasNames s = is_unique (file_names s.events) ≡ true

-- What a list of selected ids may be: no repeated one, and none that a row settles.
pub record IsFresh (s : Store) (ids : List String) : Type 0 where
  pub once : (k : String) → count k ids ≤ 1
  pub unsettled : (k : String) → contains k (all_settled s.ledger) ≡ true → count k ids ≡ 0

count-event_files-le : (s : Store) (k : String) → HasNames s → count k (event_files s) ≤ 1
unfolding event_files
count-event_files-le s k u =
    let names = file_names s.events in
    omega (
      arith,
      count-sort text_leb k (filter (λ n. ends_in (codes ".json") (codes n)) names),
      count-filter-le (λ n. ends_in (codes ".json") (codes n)) k names,
      count_unique k names u,
    )

records-eq : (s : Store) {rows : List Row} → records s ≡ ok rows → rows ≡ s.ledger
unfolding records
records-eq s p = ground arith

-- The pending events have different ids, and none that the ledger settles.
pub pending-IsFresh :
    (h : Host) (s : Store) {events : List (String × BridgeEvent)}
    → HasNames s
    → pending h s ≡ ok events
    → IsFresh s (ids_of events)
unfolding pending
pending-IsFresh h s {events} u p =
    let (rows, r, p1) = >>=-eq-ok (records s) _ p in
    let (items, a, q) = >>=-eq-ok (read_all h s (event_files s)) _ p1 in
    let left : List (String × BridgeEvent) =
      filter (λ item. not (contains item.0 (all_settled rows))) items in
    let same : events ≡ sort delivery_order left = cc in
    record {
      once = λ k. rw same (
          omega (
            arith,
            count-sort_items delivery_order k left,
            (count-filter_ids (all_settled rows) k items).0,
            read_all-ids h s (event_files s) k a,
            count-event_files-le s (json_name k) u,
          ));
      unsettled = λ k old. rw same (
          omega (
            arith,
            count-sort_items delivery_order k left,
            (count-filter_ids (all_settled rows) k items).1 (rw (records-eq s r) old),
          ));
    }

-- `deliver` sends exactly what is pending.
pub select-pending :
    (h : Host) (b : BridgeBinding) (q : Request) (s : Store) {events : List (String × BridgeEvent)}
    → select h b q s ≡ ok events
    → pending h s ≡ ok events
unfolding select
select-pending h b q s p = ground arith

-- How often an id stands in RESERVED rows.
abbrev pub all_reserved : List Row → List String
all_reserved [] = []
all_reserved (row ∷ rows) = reserved_ids row ++ all_reserved rows

contains-append :
    (k : String) (xs ys : List String) → contains k (xs ++ ys) ≡ (contains k xs || contains k ys)
contains-append k [] ys = refl
contains-append k (x ∷ xs) ys = ground (arith, contains-append k xs ys)

row_settles :
    (k : String) (row : Row) → contains k (settled_ids row) ≡ false → count k (reserved_ids row) ≡ 0
row_settles k (Row.reserved r ids) p = count-zero k ids p
row_settles k _ p = refl

reserved_settled :
    (k : String) (rows : List Row)
    → contains k (all_settled rows) ≡ false
    → count k (all_reserved rows) ≡ 0
reserved_settled k [] p = refl
reserved_settled k (row ∷ rows) p = ground (
  arith,
  contains-append k (settled_ids row) (all_settled rows),
  row_settles k row,
  reserved_settled k rows,
  count-append k (reserved_ids row) (all_reserved rows),
)

all_reserved-append :
    (k : String) (rows : List Row) (row : Row)
    → count k (all_reserved (rows ++ row ∷ []))
      ≡ count k (all_reserved rows) + count k (reserved_ids row)
all_reserved-append k [] row = rw (count-append k (reserved_ids row) []) (omega arith)
all_reserved-append k (r ∷ rows) row = omega (
  arith,
  count-append k (reserved_ids r) (all_reserved (rows ++ row ∷ [])),
  count-append k (reserved_ids r) (all_reserved rows),
  all_reserved-append k rows row,
)

-- One thing that happens to a store: an operation of the program, its death after a reservation
-- was written, a torn write, or any change of the files and the flags by others.
pub data Step (h : Host) : Store → Store → Type 0 where
  deliver_once :
      (b : BridgeBinding) (q : Request) (serial : ℕ) (reply : Reply) (s : Store)
      → Step h s (deliver h b q serial reply s).1
  die_reserved :
      (b : BridgeBinding) (q : Request) (s : Store) (item : String × BridgeEvent)
      (more : List (String × BridgeEvent))
      → select h b q s ≡ ok (item ∷ more)
      → Step h s (reserve h (item ∷ more) s)
  put_event : (e : BridgeEvent) (s : Store) → Step h s (put h e s).1
  write_row : (row : Row) (s : Store) → is_reserved row ≡ false → Step h s (append row s)
  tear : (s : Store) → Step h s (record s { torn = true })
  change_files :
      (s : Store) (events artifacts : Directory) (cancelled changed : Bool)
      → is_unique (file_names events) ≡ true
      → Step h s (record s {
        events = events;
        artifacts = artifacts;
        cancelled = cancelled;
        changed = changed;
      })

pub data Reach (h : Host) (s : Store) : Store → Type 0 where
  here : Reach h s s
  next : {t u : Store} → Reach h s t → Step h t u → Reach h s u

pub record IsSound (s : Store) : Type 0 where
  pub names : HasNames s
  pub at_most_once : (k : String) → count k (all_reserved s.ledger) ≤ 1

-- A reservation of fresh ids keeps every id reserved at most once.
reserve-once :
    (h : Host) (s : Store) (events : List (String × BridgeEvent)) (k : String)
    → IsSound s
    → IsFresh s (ids_of events)
    → count k (all_reserved (reserve h events s).ledger) ≤ 1
unfolding reserve
reserve-once h s events k v f = elim (Bool-cases (contains k (all_settled s.ledger))) [
  | inl old ↦ omega (
    arith,
    all_reserved-append k s.ledger
        (Row.reserved (reservation_of h (ids_of events)) (ids_of events)),
    v.at_most_once k,
    f.unsettled k old,
  )
  | inr new ↦ omega (
    arith,
    all_reserved-append k s.ledger
        (Row.reserved (reservation_of h (ids_of events)) (ids_of events)),
    reserved_settled k s.ledger new,
    f.once k,
  )
]

append-once :
    (s : Store) (row : Row) (k : String)
    → is_reserved row ≡ false
    → count k (all_reserved (append row s).ledger) ≡ count k (all_reserved s.ledger)
append-once s (Row.reserved r ids) k p = cc
append-once s row k p = rw (all_reserved-append k s.ledger row) (omega arith)

-- `send` writes rows that reserve nothing, and leaves the files alone.
send-IsSound :
    (h : Host) (b : BridgeBinding) (serial : ℕ) (reply : Reply) (ids : List String) (s : Store)
    → IsSound s
    → IsSound (send h b serial reply ids s).1
unfolding send
send-IsSound h b serial (Reply.turn id) ids s v =
    let sent = Row.rpc_send "turn/start" serial (some b.thread_id) in
    let seen = Row.acknowledged (reservation_of h ids) id ids in
    record {
      names = v.names;
      at_most_once = λ k. omega (
        arith,
        append-once s sent k refl,
        append-once (append sent s) seen k refl,
        v.at_most_once k,
      );
    }
send-IsSound h b serial (Reply.failure e) ids s v =
    let sent = Row.rpc_send "turn/start" serial (some b.thread_id) in
    let lost = Row.ambiguous (reservation_of h ids) ids in
    record {
      names = v.names;
      at_most_once = λ k. omega (
        arith,
        append-once s sent k refl,
        append-once (append sent s) lost k refl,
        v.at_most_once k,
      );
    }

reserve-IsSound :
    (h : Host) (b : BridgeBinding) (q : Request) (s : Store) (events : List (String × BridgeEvent))
    → IsSound s
    → select h b q s ≡ ok events
    → IsSound (reserve h events s)
unfolding reserve
reserve-IsSound h b q s events v p = record {
  names = v.names;
  at_most_once = λ k.
      unfold reserve in
      reserve-once h s events k v (pending-IsFresh h s v.names (select-pending h b q s p));
}

deliver-IsSound :
    (h : Host) (b : BridgeBinding) (q : Request) (serial : ℕ) (reply : Reply) (s : Store)
    (r : Result (List (String × BridgeEvent)))
    → select h b q s ≡ r
    → IsSound s
    → IsSound (deliver h b q serial reply s).1
unfolding deliver
deliver-IsSound h b q serial reply s (err e) p v = rw (p, deliver) v
deliver-IsSound h b q serial reply s (ok []) p v = rw (p, deliver) v
deliver-IsSound h b q serial reply s (ok (item ∷ more)) p v =
    rw (p, deliver)
      (send-IsSound h b serial reply (ids_of (item ∷ more)) (reserve h (item ∷ more) s)
        (reserve-IsSound h b q s (item ∷ more) v p))

absent_name :
    (name : String) (files : Directory)
    → find_file name files ≡ none
    → contains name (file_names files) ≡ false
absent_name name [] p = refl
absent_name name ((n, file) ∷ files) p = ground (arith, absent_name name files)

pub ledger-put : (h : Host) (e : BridgeEvent) (s : Store) → (put h e s).1.ledger ≡ s.ledger
unfolding put exclusive
ledger-put h e s = ground arith

put-HasNames : (h : Host) (e : BridgeEvent) (s : Store) → HasNames s → HasNames (put h e s).1
unfolding put exclusive
put-HasNames h e s u =
    let name = json_name (event_id_of h e) in ground (arith, absent_name name s.events)

put-IsSound : (h : Host) (e : BridgeEvent) (s : Store) → IsSound s → IsSound (put h e s).1
put-IsSound h e s v = record {
  names = put-HasNames h e s v.names;
  at_most_once = λ k. rw (ledger-put h e s) (v.at_most_once k);
}

-- Every step keeps the names apart and every id reserved at most once.
Step-IsSound : {h : Host} {s t : Store} → Step h s t → IsSound s → IsSound t
Step-IsSound {h} (deliver_once b q serial reply s) v =
    deliver-IsSound h b q serial reply s (select h b q s) refl v
Step-IsSound {h} (die_reserved b q s item more p) v = reserve-IsSound h b q s (item ∷ more) v p
Step-IsSound {h} (put_event e s) v = put-IsSound h e s v
Step-IsSound (write_row row s p) v = record {
  names = v.names;
  at_most_once = λ k. omega (arith, append-once s row k p, v.at_most_once k);
}
Step-IsSound (tear s) v = record { names = v.names; at_most_once = v.at_most_once }
Step-IsSound (change_files s events artifacts c d p) v = record {
  names = p;
  at_most_once = v.at_most_once;
}

Reach-IsSound : {h : Host} {s t : Store} → Reach h s t → IsSound s → IsSound t
Reach-IsSound here v = v
Reach-IsSound (next r st) v = Step-IsSound st (Reach-IsSound r v)

-- From a store with an empty ledger and distinct file names, after any deliveries, with any
-- replies of the host, and any deaths, torn writes, rows and file changes between them, no event
-- id stands in more than one reservation, nor twice in one.
pub reserved_at_most_once :
    {h : Host} {s t : Store}
    → Reach h s t
    → HasNames s
    → s.ledger ≡ []
    → (k : String) → count k (all_reserved t.ledger) ≤ 1
reserved_at_most_once r u e k =
    (Reach-IsSound r (record { names = u; at_most_once = λ j. rw e (omega arith) })).at_most_once k
