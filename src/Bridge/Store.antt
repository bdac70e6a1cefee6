-- ===== src/Bridge/Store.antt =====
-- main_agent_bridge/store.py, `EventStore`: signed event files, result artifacts, and the
-- append-only ledger of consumption. The directories are lists of files by name. A ledger row has
-- the fields that a reader looks at; the time of a row is written and never read.
pub mod Redelivery
use dispatcher_for_codex_age.Prelude.{
  ℕ, String, Bool, true, false, not, ◌&&◌, ◌||◌, Option, none, some, List, [], ◌∷◌, ◌++◌, contains,
  all, length, leb, ltb, filter, map, ◌==◌, nat_eq, string_eq, list_eq, if◌then◌else◌, is_unique,
}
use dispatcher_for_codex_age.Prelude.Result.{Result, ok, err, ◌>>=◌, ◌>>◌, refuse, or_raise}
use dispatcher_for_codex_age.Prelude.Sort.{sort}
use dispatcher_for_codex_age.Prelude.Text.{concat, ends_in, codes, text_leb}
use dispatcher_for_codex_age.Json.{
  Json, Fields, Items, str, obj, arr, end, field, keys, find, get, str_is, elements,
}
use dispatcher_for_codex_age.Host.{
  Bytes, Host, Directory, find_file, file_names, read_private, exclusive, safe_path,
}
use dispatcher_for_codex_age.Bridge.Contracts.{
  BridgeEvent, EventKind, batch_completed, identity_of, event_dump, validate_event,
}

-- The rows that carry a `reservation`, the requests to the host, and all others.
pub data Row : Type 0 where
  reserved : String → List String → Row
  acknowledged : String → String → List String → Row
  completed : String → String → List String → Row
  ambiguous : String → List String → Row
  rpc_send : String → ℕ → Option String → Row
  noted : String → Row

pub record Store : Type 0 where
  pub key : Bytes
  pub events : Directory
  pub artifacts : Directory
  pub ledger : List Row
  pub torn : Bool  -- whether the ledger lacks its last line end
  pub cancelled : Bool  -- whether cancel.json exists
  pub changed : Bool  -- the asyncio.Event

-- `EventStore.append` of a row that is written whole.
abbrev pub append : Row → Store → Store
append row s = record s { ledger = s.ledger ++ row ∷ [] }

-- `EventStore.records`
unfoldable pub records : Store → Result (List Row)
records s = if s.torn then err "LEDGER_TORN_WRITE" else ok s.ledger

-- `row.get("event_ids", [])` of the rows that settle an event.
abbrev pub settled_ids : Row → List String
settled_ids (reserved r ids) = ids
settled_ids (completed r t ids) = ids
settled_ids (ambiguous r ids) = ids
settled_ids _ = []

abbrev pub all_settled : List Row → List String
all_settled [] = []
all_settled (row ∷ rows) = settled_ids row ++ all_settled rows

-- A dict with exactly the given keys.
abbrev pub has_keys : List String → Fields → Bool
has_keys expected fs =
    all (λ k. contains k expected) (keys fs) && all (λ k. contains k (keys fs)) expected

abbrev text_at : String → Fields → Result String
text_at k fs = elim (get k fs) [ str s ↦ ok s | _ ↦ err "TypeError" ]

-- The loop over `value["files"]` of `validate_manifest`.
unfoldable pub check_files : Host → Directory → List String → List Json → Result (Unit {0})
check_files h artifacts seen [] = ok tt
check_files h artifacts seen (obj row ∷ rows) = do
  refuse (not (has_keys ("path" ∷ "sha256" ∷ []) row)) "MANIFEST_COVERAGE_INVALID"
  path ← text_at "path" row
  refuse (contains path seen) "MANIFEST_COVERAGE_INVALID"
  name ← safe_path h path
  content ← read_private h name artifacts
  refuse (not (str_is (h.digest content) (get "sha256" row))) "RESULT_HASH_MISMATCH"
  check_files h artifacts (path ∷ seen) rows
check_files h artifacts seen (_ ∷ rows) = err "MANIFEST_COVERAGE_INVALID"

-- `value["status"]`, `value["files"]`, and the tests on them.
unfoldable pub check_manifest : Host → Directory → BridgeEvent → Fields → Result (List Json)
unfolding check_files
check_manifest h artifacts e fs = do
  refuse (not (has_keys ("files" ∷ "status" ∷ "task_id" ∷ []) fs)) "RESULT_MANIFEST_INVALID"
  refuse
      (not (str_is e.task_id (get "task_id" fs))
        || not (str_is "SUCCESS" (get "status" fs) || str_is "BLOCKED" (get "status" fs)))
      "RESULT_MANIFEST_INVALID"
  rows ← elim (get "files" fs) [ arr xs ↦ ok (elements xs) | _ ↦ err "RESULT_MANIFEST_INVALID" ]
  refuse (not (leb 1 (length rows) && leb (length rows) 8)) "RESULT_MANIFEST_INVALID"
  let success = str_is "SUCCESS" (get "status" fs)
  refuse (elim e.kind [ batch_completed ↦ not success | _ ↦ success ]) "EVENT_TERMINAL_MISMATCH"
  check_files h artifacts [] rows
  ok rows

-- `EventStore.validate_manifest`; it returns the rows of `files`.
unfoldable pub validate_manifest : Host → Directory → BridgeEvent → Result (List Json)
unfolding check_manifest
validate_manifest h artifacts e = do
  path ← safe_path h e.manifest
  content ← read_private h path artifacts
  refuse (not (h.digest content == e.manifest_sha256)) "MANIFEST_HASH_MISMATCH"
  value ← or_raise (h.loads content) "JSONDecodeError"
  elim value [ obj fs ↦ check_manifest h artifacts e fs | _ ↦ err "RESULT_MANIFEST_INVALID" ]

unfoldable pub event_id_of : Host → BridgeEvent → String
event_id_of h e = h.digest (h.canonical (identity_of e))

abbrev pub json_name : String → String
json_name event_id = concat event_id ".json"

-- `document`, before and after it is signed.
unfoldable pub unsigned : String → BridgeEvent → Json
unsigned event_id e = obj (field "event" (event_dump e) (field "event_id" (str event_id) end))

unfoldable pub signed : Host → Bytes → String → BridgeEvent → Json
unfolding unsigned
signed h key event_id e = obj (
    field "event" (event_dump e) (
      field "event_id" (str event_id)
        (field "signature" (str (h.hmac_sha256 key (h.canonical (unsigned event_id e)))) end)))

-- `value.pop(k)`
abbrev pub pop : String → Fields → Fields
pop k end = end
pop k (field j v fs) = let rest = pop k fs in if k == j then fs else field j v rest

-- `EventStore.read_event`, on the name and the content of the file.
unfoldable pub read_event : Host → Store → String → Result (String × BridgeEvent)
read_event h s name = do
  content ← read_private h name s.events
  value ← or_raise (h.loads content) "JSONDecodeError"
  fs ← elim value [ obj fs ↦ ok fs | _ ↦ err "EVENT_ENVELOPE_INVALID" ]
  refuse (not (has_keys ("event" ∷ "event_id" ∷ "signature" ∷ []) fs)) "EVENT_ENVELOPE_INVALID"
  let rest = pop "signature" fs
  refuse (not (str_is (h.hmac_sha256 s.key (h.canonical (obj rest))) (get "signature" fs)))
      "EVENT_SOURCE_INVALID"
  e ← validate_event (get "event" rest)
  event_id ← text_at "event_id" rest
  refuse (not (event_id == event_id_of h e) || not (name == json_name event_id)) "EVENT_ID_MISMATCH"
  files ← validate_manifest h s.artifacts e
  ok (event_id, e)

-- `EventStore.put`
unfoldable pub put : Host → BridgeEvent → Store → Result (String × Bool) × Store
put h e s = elim (validate_manifest h s.artifacts e) [
  | err x ↦ (err x, s)
  | ok _ ↦
      let event_id = event_id_of h e in
      elim (find_file (json_name event_id) s.events) [
        | some _ ↦ (read_event h s (json_name event_id) >>= λ _. ok (event_id, false), s)
        | none ↦
            elim (exclusive h (json_name event_id) (h.canonical (signed h s.key event_id e))
              s.events) [
                | err x ↦ (err x, s)
                | ok files ↦ (ok (event_id, true), record s { events = files; changed = true })
              ]
      ]
]

-- `[self.read_event(p) for p in …]`
unfoldable pub read_all : Host → Store → List String → Result (List (String × BridgeEvent))
read_all h s [] = ok []
read_all h s (name ∷ names) = do
  item ← read_event h s name
  rest ← read_all h s names
  ok (item ∷ rest)

-- `key=lambda item: (item[1].sequence, item[0])`
unfoldable pub delivery_order : String × BridgeEvent → String × BridgeEvent → Bool
delivery_order (i, e) (j, f) =
    ltb e.sequence f.sequence || (e.sequence == f.sequence && text_leb i j)

-- `sorted((self.root / "events").glob("*.json"))`
unfoldable pub event_files : Store → List String
event_files s =
    sort text_leb (filter (λ n. ends_in (codes ".json") (codes n)) (file_names s.events))

-- `EventStore.pending`
unfoldable pub pending : Host → Store → Result (List (String × BridgeEvent))
unfolding event_files
pending h s = do
  rows ← records s
  events ← read_all h s (event_files s)
  ok (sort delivery_order (filter (λ item. not (contains item.0 (all_settled rows))) events))
