-- ===== src/Bridge/Controller.antt =====
-- main_agent_bridge/controller.py, `Controller`: a turn of the main agent. A message arrives with
-- what the machine answers when the code looks: the clock, the cancellation and the configuration.
pub mod Turn
pub mod Create
pub mod Limits
pub mod Continue
pub mod Settled
mod Tests
use dispatcher_for_codex_age.Prelude.{
  ℕ, suc, ◌+◌, String, Bool, true, false, not, ◌&&◌, ◌||◌, Option, none, some, List, [], ◌∷◌, ◌++◌,
  contains, any, map, ◌==◌, nat_eq, string_eq, if◌then◌else◌,
}
use dispatcher_for_codex_age.Prelude.Result.{Result, ok, err, ◌>>=◌, ◌>>◌, refuse, or_raise}
use dispatcher_for_codex_age.Json.{
  Json, Fields, str, obj, arr, null, end, field, elements, find, get, str_is, is_null, Float,
}
use dispatcher_for_codex_age.Host.{Host, Directory, read_private, safe_path}
use dispatcher_for_codex_age.Bridge.Contracts.{BridgeBinding, BridgeEvent}
use dispatcher_for_codex_age.Bridge.Store.{
  Row, noted, Store, append, event_files, read_event, validate_manifest,
}
use dispatcher_for_codex_age.Bridge.Dispatcher.{time_geb}

-- The fields of `SupervisorSpec` that the turns read.
pub record Spec : Type 0 where
  pub task_id : String
  pub expires_at : Float
  pub job_ids : List String

-- `launches` counts the calls of `run_jobs`: `self.jobs is None` while it is 0. `root` has the files
-- of the store's root that the controller writes.
pub record Controller : Type 0 where
  pub store : Store
  pub root : Directory
  pub binding : BridgeBinding
  pub launches : ℕ
  pub active_turn : Option String
  pub permission_pending : Bool
  pub result_reads : ℕ

pub record Moment : Type 0 where
  pub now : Float
  pub cancel_file : Bool  -- whether cancel.json was written since the store was read
  pub cancel_set : Bool  -- `self.cancellation.is_set()`
  pub config_sha256 : String  -- `current_config_hash(self.spec)`

-- `check_authorization` and `Controller.guard`; an exception of reading cancel.json stands for the
-- revocation.
unfoldable pub guard : Spec → Moment → Controller → Result (Unit {0})
guard spec m c = do
  refuse (c.store.cancelled || m.cancel_file) "AUTHORIZATION_REVOKED"
  refuse (time_geb m.now spec.expires_at) "AUTHORIZATION_EXPIRED"
  refuse m.cancel_set "CANCELLED"
  refuse (not (m.config_sha256 == c.binding.config_sha256)) "MODEL_CONFIGURATION_CHANGED"

-- `turn_id` of a message against `self.active_turn`.
abbrev same_turn : Option String → Json → Bool
same_turn none v = is_null v
same_turn (some t) v = str_is t v

abbrev is_empty_object : Json → Bool
is_empty_object (obj end) = true
is_empty_object _ = false

-- The tests of `_tool` on a message; it returns the tool's name.
unfoldable pub check_tool : Controller → Fields → Result Json
check_tool c message = do
  params ← elim (find "params" message) [
    | none ↦ err "KeyError"
    | some v ↦ elim v [ obj ps ↦ ok ps | _ ↦ err "AttributeError" ]
  ]
  refuse
      (not (str_is c.binding.thread_id (get "threadId" params))
        || not (same_turn c.active_turn (get "turnId" params)))
      "TOOL_THREAD_MISMATCH"
  refuse (not (is_empty_object (get "arguments" params))) "TOOL_ARGUMENTS_FORBIDDEN"
  ok (get "tool" params)

-- The data of one row of a manifest.
unfoldable pub read_result : Host → Store → Json → Result Json
read_result h s (obj row) = do
  path ← elim (find "path" row) [
    | none ↦ err "KeyError"
    | some v ↦ elim v [ str t ↦ ok t | _ ↦ err "TypeError" ]
  ]
  name ← safe_path h path
  content ← read_private h name s.artifacts
  data_read ← or_raise (h.loads content) "JSONDecodeError"
  ok (
      obj (
        field "file" (str path)
          (field "sha256" (get "sha256" row) (field "untrusted_data" data_read end))))
read_result h s _ = err "TypeError"

unfoldable pub read_rows : Host → Store → List Json → Result (List Json)
unfolding read_result
read_rows h s [] = ok []
read_rows h s (row ∷ rows) = do
  content ← read_result h s row
  contents ← read_rows h s rows
  ok (content ∷ contents)

-- The loop of `dca_read_verified_results` over the event files.
unfoldable pub read_results : Host → Store → List String → Result (List Json)
unfolding read_rows
read_results h s [] = ok []
read_results h s (name ∷ names) = do
  (id, event) ← read_event h s name
  rows ← validate_manifest h s.artifacts event
  contents ← read_rows h s rows
  more ← read_results h s names
  ok (contents ++ more)

abbrev pub note : String → Controller → Controller
note text c = record c { store = append (noted text) c.store }

-- `self.bridge.respond(message["id"], …)`, which raises what `responded` has, and the row after it.
unfoldable pub answer : Option String → Fields → Controller → Result (Unit {0}) × Controller
answer responded message c = elim (find "id" message) [
  | none ↦ (err "KeyError", c)
  | some id ↦ elim responded [ some e ↦ (err e, c) | none ↦ (ok tt, note "TOOL_RESULT_RETURNED" c) ]
]

-- The branches of `_tool` by the tool's name.
unfoldable pub run_tool :
    Host → Bool → Option String → Fields → Json → Controller → Result (Unit {0}) × Controller
unfolding answer read_results
run_tool h continuation responded message name c =
    let started = answer responded message (record c { launches = suc c.launches }) in
    let reading = record c { result_reads = suc c.result_reads } in
    let finished = answer responded message reading in
    if str_is "dca_start_approved_jobs" name && not continuation && c.launches == 0
    then started
    else if str_is "dca_read_verified_results" name && continuation && c.result_reads == 0
    then elim (read_results h c.store (event_files c.store)) [
      | err e ↦ (err e, reading)
      | ok contents ↦ finished
    ]
    else (err "TOOL_OR_RECURSION_POLICY_VIOLATION", c)

-- By the outcome of the tests.
unfoldable pub after_checks :
    Host → Bool → Option String → Fields → Controller → Result Json → Result (Unit {0}) × Controller
unfolding run_tool
after_checks h continuation responded message c (err e) = (err e, c)
after_checks h continuation responded message c (ok name) =
    run_tool h continuation responded message name c

-- `Controller._tool`
unfoldable pub tool :
    Host
    → Spec
    → Bool
    → Moment
    → Option String
    → Fields
    → Controller
    → Result (Unit {0}) × Controller
unfolding guard check_tool after_checks
tool h spec continuation m responded message c =
    after_checks h continuation responded message c (guard spec m c >> check_tool c message)
