-- ===== src/Bridge/Store/Redelivery.antt =====
-- An event that was put is read back as it was, and putting it again makes no new event.
use dispatcher_for_codex_age.Prelude.{
  ℕ, ◌≤◌, String, ◌≡◌, refl, true, false, some, List, ◌∷◌, length, ==_refl, nat_eq, string_eq,
  arith,
}
use dispatcher_for_codex_age.Prelude.Result.{ok}
use dispatcher_for_codex_age.Json.{Float, Json}
use dispatcher_for_codex_age.Host.{Host, Bytes, Directory, File, find_file, private_read, exclusive}
use dispatcher_for_codex_age.Bridge.Contracts.{
  BridgeEvent, batch_completed, blocked_failure, human_action_required, confirmed_anomaly,
  EventKind, check_event, validate_event, event_dump, identity_of,
}
use dispatcher_for_codex_age.Bridge.Store.{
  Store, put, read_event, validate_manifest, event_id_of, json_name, signed, unsigned,
}

kind_round_trip :
    (kind : EventKind) (a b c d f g : String) (n : ℕ) (t : Float)
    → let e : BridgeEvent = record {
      kind = kind;
      task_id = a;
      job_id = b;
      attempt_id = c;
      target_thread = d;
      manifest = f;
      manifest_sha256 = g;
      sequence = n;
      occurred_at = t;
    } in
      validate_event (event_dump e) ≡ check_event e
unfolding validate_event event_dump
kind_round_trip batch_completed a b c d f g n t = refl
kind_round_trip blocked_failure a b c d f g n t = refl
kind_round_trip human_action_required a b c d f g n t = refl
kind_round_trip confirmed_anomaly a b c d f g n t = refl

-- `model_validate` of `model_dump` runs the validators on the same event.
pub validate_event-event_dump : (e : BridgeEvent) → validate_event (event_dump e) ≡ check_event e
validate_event-event_dump e =
    kind_round_trip e.kind e.task_id e.job_id e.attempt_id e.target_thread e.manifest
      e.manifest_sha256 e.sequence e.occurred_at

private_read-own :
    (h : Host) (content : List ℕ)
    → length content ≤ 65536
    → private_read h (record { content = content; owner = h.uid; mode = 0o600; regular = true })
      ≡ ok content
unfolding private_read
private_read-own h content small = ground (arith, ==_refl h.uid)

-- A signed document reads as the event that was signed.
read_event-signed :
    (h : Host) (s : Store) (e : BridgeEvent) {file : File} {content : Bytes} {rows : List Json}
    → find_file (json_name (event_id_of h e)) s.events ≡ some file
    → private_read h file ≡ ok content
    → h.loads content ≡ some (signed h s.key (event_id_of h e) e)
    → check_event e ≡ ok e
    → validate_manifest h s.artifacts e ≡ ok rows
    → read_event h s (json_name (event_id_of h e)) ≡ ok (event_id_of h e, e)
unfolding read_event signed unsigned
read_event-signed h s e {file} {content} there readable parsed valid sealed =
    let id = event_id_of h e in
    ground (
      arith,
      validate_event-event_dump e,
      ==_refl id,
      ==_refl (json_name id),
      ==_refl (h.hmac_sha256 s.key (h.canonical (unsigned id e))),
    )

-- The store with a new event file.
abbrev stored : Host → BridgeEvent → Store → Store
stored h e s =
    let id = event_id_of h e in
    record s {
      events =
          (
            json_name id,
            record {
              content = h.canonical (signed h s.key id e);
              owner = h.uid;
              mode = 0o600;
              regular = true;
            },
          )
          ∷ s.events;
      changed = true;
    }

put_new :
    (h : Host) (s : Store) (e : BridgeEvent) {id : String} {s1 : Store}
    → put h e s ≡ (ok (id, true), s1)
    → (s1 ≡ stored h e s)
      × (id ≡ event_id_of h e)
      × ((rows : List Json) × (validate_manifest h s.artifacts e ≡ ok rows))
unfolding put exclusive
put_new h s e p = ground arith

-- The delivery's time and order are no part of the identity, nor of the manifest's validation.
event_id-redelivered :
    (h : Host) (e : BridgeEvent) (n : ℕ) (t : Float)
    → event_id_of h (record e { sequence = n; occurred_at = t }) ≡ event_id_of h e
unfolding event_id_of identity_of
event_id-redelivered h e n t = refl

validate_manifest-redelivered :
    (h : Host) (s : Store) (e : BridgeEvent) (n : ℕ) (t : Float)
    → validate_manifest h s.artifacts (record e { sequence = n; occurred_at = t })
      ≡ validate_manifest h s.artifacts e
unfolding validate_manifest
validate_manifest-redelivered h s e n t = refl

found_first :
    (name : String) (file : File) (files : Directory)
    → find_file name ((name, file) ∷ files) ≡ some file
found_first name file files = simp ==_refl

read_stored :
    (h : Host) (s : Store) (e : BridgeEvent) {rows : List Json}
    → check_event e ≡ ok e
    → length (h.canonical (signed h s.key (event_id_of h e) e)) ≤ 65536
    → h.loads (h.canonical (signed h s.key (event_id_of h e) e))
      ≡ some (signed h s.key (event_id_of h e) e)
    → validate_manifest h s.artifacts e ≡ ok rows
    → read_event h (stored h e s) (json_name (event_id_of h e)) ≡ ok (event_id_of h e, e)
read_stored h s e valid small decoded sealed =
    read_event-signed h (stored h e s) e (found_first (json_name (event_id_of h e)) _ s.events)
      (private_read-own h (h.canonical (signed h s.key (event_id_of h e) e)) small) decoded valid
      sealed

put_again :
    (h : Host) (s : Store) (e : BridgeEvent) (n : ℕ) (t : Float) {rows : List Json}
    → read_event h (stored h e s) (json_name (event_id_of h e)) ≡ ok (event_id_of h e, e)
    → validate_manifest h s.artifacts e ≡ ok rows
    → put h (record e { sequence = n; occurred_at = t }) (stored h e s)
      ≡ (ok (event_id_of h e, false), stored h e s)
unfolding put
put_again h s e n t back sealed = ground (
  arith,
  event_id-redelivered h e n t,
  validate_manifest-redelivered h s e n t,
  ==_refl (json_name (event_id_of h e)),
)

-- If a put made a new event of valid fields, whose signed document is encoded in at most 65536
-- bytes and decoded as it was, then the event's file reads as the event under its id; and to put
-- the event again, with any time and any sequence number, gives that id, makes no new event and
-- leaves the store as it is.
pub redelivery_suppressed :
    (h : Host) (s : Store) (e : BridgeEvent) {id : String} {s1 : Store} (n : ℕ) (t : Float)
    → put h e s ≡ (ok (id, true), s1)
    → check_event e ≡ ok e
    → length (h.canonical (signed h s.key id e)) ≤ 65536
    → h.loads (h.canonical (signed h s.key id e)) ≡ some (signed h s.key id e)
    → (read_event h s1 (json_name id) ≡ ok (id, e))
      × (put h (record e { sequence = n; occurred_at = t }) s1 ≡ (ok (id, false), s1))
redelivery_suppressed h s e {id} {s1} n t p valid small decoded =
    let (made, named, passed) = put_new h s e p in
    let fits : length (h.canonical (signed h s.key (event_id_of h e) e)) ≤ 65536 =
      rw named at small in
    let parses : h.loads (h.canonical (signed h s.key (event_id_of h e) e))
        ≡ some (signed h s.key (event_id_of h e) e) =
      rw named at decoded in
    let (rows, sealed) = passed in
    let back = read_stored h s e valid fits parses sealed in
    rw (made, named) (back, put_again h s e n t back sealed)
