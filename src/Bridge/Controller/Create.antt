-- ===== src/Bridge/Controller/Create.antt =====
-- main_agent_bridge/controller.py, `Controller.create_thread`: the thread of the main agent and its
-- binding. The reply to `thread/start` is the object of its result, or what the request raises.
use dispatcher_for_codex_age.Prelude.{
  ℕ, ◌≤◌, String, ◌≡◌, refl, ap, Bool, true, false, not, ◌||◌, Option, none, some, ◌==◌, ==_iff,
  string_eq, arith, if◌then◌else◌,
}
use dispatcher_for_codex_age.Prelude.Result.{Result, ok, err, ◌>>=◌, ◌>>◌, refuse}
use dispatcher_for_codex_age.Json.{Json, Fields, Float, str, obj, find, get, str_is}
use dispatcher_for_codex_age.Host.{Host, Bytes, Directory, exclusive}
use dispatcher_for_codex_age.Bridge.Contracts.{BridgeBinding, check_binding}
use dispatcher_for_codex_age.Bridge.Specs.{SupervisorSpec}
use dispatcher_for_codex_age.Bridge.Store.{Store, append, noted, rpc_send}
use dispatcher_for_codex_age.Bridge.Dispatcher.{time_geb}

-- What the machine answers: the clock, the two hashes, the current thread of the environment, and
-- whether cancel.json exists.
pub record Creation : Type 0 where
  pub now : Float
  pub cancel_file : Bool
  pub config_sha256 : String
  pub executable_sha256 : String
  pub current_thread : Option String
  pub serial : ℕ
  pub reply : Result Fields

abbrev text_at : String → Fields → Result String
text_at key fs = elim (find key fs) [
  | none ↦ err "KeyError"
  | some v ↦ elim v [ str s ↦ ok s | _ ↦ err "ValidationError" ]
]

abbrev object_at : String → Fields → Result Fields
object_at key fs = elim (find key fs) [
  | none ↦ err "KeyError"
  | some v ↦ elim v [ obj gs ↦ ok gs | _ ↦ err "TypeError" ]
]

abbrev is_current : Option String → String → Bool
is_current none thread = false
is_current (some current) thread = thread == current

-- `result[key] != expected`, where a missing key raises.
unfoldable require_text : String → String → String → Fields → Result (Unit {0})
require_text key expected message fs = elim (find key fs) [
  | none ↦ err "KeyError"
  | some v ↦ refuse (not (str_is expected v)) message
]

-- The binding that the result of the request gives.
unfoldable pub bind_thread : SupervisorSpec → Creation → Fields → Result BridgeBinding
unfolding require_text
bind_thread spec w result = do
  require_text "model" spec.model "MODEL_FALLBACK_FORBIDDEN" result
  require_text "modelProvider" spec.provider "MODEL_FALLBACK_FORBIDDEN" result
  require_text "cwd" spec.working_directory "CWD_BINDING_MISMATCH" result
  thread ← object_at "thread" result
  id ← text_at "id" thread
  b ← check_binding (record {
    thread_id = id;
    task_id = spec.task_id;
    model = spec.model;
    provider = spec.provider;
    working_directory = spec.working_directory;
    expires_at = spec.expires_at;
    wake_budget = spec.wake_budget;
    main_turn_budget = spec.main_turn_budget;
    config_sha256 = w.config_sha256;
    executable_sha256 = w.executable_sha256;
  })
  refuse (is_current w.current_thread b.thread_id) "CURRENT_DEVELOPMENT_THREAD_FORBIDDEN"
  ok b

-- `Controller.create_thread`; `dump` is the contents of binding.json.
unfoldable pub create_thread :
    Host
    → (BridgeBinding → Bytes)
    → SupervisorSpec
    → Creation
    → Directory
    → Store
    → Result (BridgeBinding × Directory) × Store
unfolding bind_thread
create_thread h dump spec w root s =
    let asked =
      append (rpc_send "thread/start" w.serial none) (append (noted "THREAD_CREATE_INTENT") s) in
    if s.cancelled || w.cancel_file
    then (err "AUTHORIZATION_REVOKED", s)
    else if time_geb w.now spec.expires_at
    then (err "AUTHORIZATION_EXPIRED", s)
    else (
      (w.reply >>= bind_thread spec w >>= λ b.
          exclusive h "binding.json" (dump b) root >>= λ files. ok (b, files)),
      asked,
    )

str_is-eq : (v : Json) (t : String) → str_is t v ≡ true → v ≡ str t
str_is-eq (str u) t h = ap str ((==_iff u t).0 h)
str_is-eq v t h = cc

-- What a binding promises of the spec, of the reply and of the machine.
abbrev pub IsBound : SupervisorSpec → Creation → Fields → BridgeBinding → Type 0
IsBound spec w result b =
    (b.task_id ≡ spec.task_id)
    × (b.wake_budget ≡ spec.wake_budget)
    × (b.main_turn_budget ≡ spec.main_turn_budget)
    × (b.config_sha256 ≡ w.config_sha256)
    × (is_current w.current_thread b.thread_id ≡ false)
    × (b.wake_budget ≤ 3)
    × (b.main_turn_budget ≤ 4)
    × (get "model" result ≡ str b.model)
    × (get "modelProvider" result ≡ str b.provider)
    × (get "cwd" result ≡ str b.working_directory)

require_text-get :
    (key t message : String) (fs : Fields)
    → require_text key t message fs ≡ ok tt
    → get key fs ≡ str t
unfolding require_text
require_text-get key t message fs h = by_value (find key fs) refl
  where
    by_value : (o : Option Json) → find key fs ≡ o → get key fs ≡ str t
    by_value none p = let no_key = rw (p, require_text) at h in cc
    by_value (some v) p =
        let tested = rw (p, require_text) at h in
        rw (p, get) (str_is-eq v t (ground (arith, tested)))

bind_thread-IsBound :
    (spec : SupervisorSpec) (w : Creation) (result : Fields) (b : BridgeBinding)
    → bind_thread spec w result ≡ ok b
    → IsBound spec w result b
unfolding bind_thread check_binding
bind_thread-IsBound spec w result b p = ground (
  arith,
  require_text-get "model" spec.model "MODEL_FALLBACK_FORBIDDEN" result,
  require_text-get "modelProvider" spec.provider "MODEL_FALLBACK_FORBIDDEN" result,
  require_text-get "cwd" spec.working_directory "CWD_BINDING_MISMATCH" result,
)

created_parts :
    (h : Host) (dump : BridgeBinding → Bytes) (spec : SupervisorSpec) (w : Creation)
    (root files : Directory) (s : Store) (b : BridgeBinding) (r : Result Fields)
    → w.reply ≡ r
    → (create_thread h dump spec w root s).0 ≡ ok (b, files)
    → (result : Fields) × (r ≡ ok result)
      × (bind_thread spec w result ≡ ok b)
      × (exclusive h "binding.json" (dump b) root ≡ ok files)
      × ((s.cancelled || w.cancel_file) ≡ false)
      × (time_geb w.now spec.expires_at ≡ false)
unfolding create_thread
created_parts h dump spec w root files s b (ok result) q p =
    (result, refl, ground arith, ground arith, ground arith, ground arith)
created_parts h dump spec w root files s b (err e) q p = absurd (ground arith)

-- If a thread is created, then no cancellation was seen and the authorization had not expired; the
-- host's result names the model, the provider and the directory of the binding; the binding has the
-- task and the budgets of the spec, which stay within 3 wakes and 4 turns, and the hash of the
-- configuration; its thread is not the current one; and binding.json is a new file.
pub create_thread-IsBound :
    (h : Host) (dump : BridgeBinding → Bytes) (spec : SupervisorSpec) (w : Creation)
    (root files : Directory) (s : Store) (b : BridgeBinding)
    → (create_thread h dump spec w root s).0 ≡ ok (b, files)
    → (result : Fields) × (w.reply ≡ ok result)
      × IsBound spec w result b
      × (exclusive h "binding.json" (dump b) root ≡ ok files)
      × ((s.cancelled || w.cancel_file) ≡ false)
      × (time_geb w.now spec.expires_at ≡ false)
create_thread-IsBound h dump spec w root files s b p =
    let (result, reply, bound, written, live, timely) =
      created_parts h dump spec w root files s b w.reply refl p in
    (result, reply, bind_thread-IsBound spec w result b bound, written, live, timely)
