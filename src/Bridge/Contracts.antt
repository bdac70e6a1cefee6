-- ===== src/Bridge/Contracts.antt =====
-- main_agent_bridge/contracts.py: the binding of a controller thread, and the events that a parent
-- records for it. A pydantic model is a record, its validators a function into `Result`, and
-- `model_dump` a JSON object with its keys in order.
use dispatcher_for_codex_age.Prelude.{
  ℕ, String, Bool, true, false, not, ◌&&◌, ◌||◌, none, some, [], ◌∷◌, contains, all, any, leb, ◌==◌,
  nat_eq, string_eq, list_eq, if◌then◌else◌,
}
use dispatcher_for_codex_age.Prelude.Int.{pos, negsuc}
use dispatcher_for_codex_age.Prelude.Result.{Result, ok, err, ◌>>=◌, ◌>>◌, refuse}
use dispatcher_for_codex_age.Prelude.Text.{is_sha256, is_absolute, path_parts, codes}
use dispatcher_for_codex_age.Json.{
  Json, Float, Fields, int, float, str, obj, end, field, finite, keys, find,
}
use dispatcher_for_codex_age.Notifications.Identifier.{is_identifier}

-- `BridgeBinding`, less the fields that are only compared when a controller is recovered.
pub record BridgeBinding : Type 0 where
  pub thread_id : String
  pub task_id : String
  pub model : String
  pub provider : String
  pub working_directory : String
  pub expires_at : Float
  pub wake_budget : ℕ
  pub main_turn_budget : ℕ
  pub config_sha256 : String
  pub executable_sha256 : String

-- `BridgeBinding.check`
unfoldable pub check_binding : BridgeBinding → Result BridgeBinding
check_binding b = do
  refuse
      (any (λ value. not (is_identifier value) || contains b':' (codes value))
        (b.thread_id ∷ b.task_id ∷ b.model ∷ b.provider ∷ []))
      "BINDING_ID_INVALID"
  refuse
      (not (leb 1 b.wake_budget && leb b.wake_budget 3)
        || not (leb 2 b.main_turn_budget && leb b.main_turn_budget 4))
      "BINDING_BUDGET_INVALID"
  ok b

pub data EventKind : Type 0 where
  batch_completed blocked_failure human_action_required confirmed_anomaly : EventKind

abbrev pub kind_text : EventKind → String
kind_text batch_completed = "batch_completed"
kind_text blocked_failure = "blocked_failure"
kind_text human_action_required = "human_action_required"
kind_text confirmed_anomaly = "confirmed_anomaly"

-- `version` is always 1 and `source` always "trusted_parent".
pub record BridgeEvent : Type 0 where
  pub kind : EventKind
  pub task_id : String
  pub job_id : String
  pub attempt_id : String
  pub target_thread : String
  pub manifest : String
  pub manifest_sha256 : String
  pub sequence : ℕ
  pub occurred_at : Float

-- `math.isfinite(t) and t >= 0`
abbrev pub is_time : Float → Bool
is_time (finite (pos m) k) = true
is_time (finite (negsuc m) k) = false
is_time _ = false

-- The fields' patterns and `BridgeEvent.check`.
unfoldable pub check_event : BridgeEvent → Result BridgeEvent
check_event e = do
  refuse (not (is_sha256 e.manifest_sha256)) "STRING_PATTERN_MISMATCH"
  refuse (not (all is_identifier (e.task_id ∷ e.job_id ∷ e.attempt_id ∷ e.target_thread ∷ [])))
      "EVENT_IDENTITY_REQUIRED"
  let parts = path_parts e.manifest
  refuse (is_absolute e.manifest || contains (b'.' ∷ b'.' ∷ []) parts || parts == [])
      "MANIFEST_MUST_BE_RELATIVE"
  refuse (not (is_time e.occurred_at)) "INVALID_TIME"
  ok e

-- `event.model_dump(exclude={"occurred_at", "sequence"})`
unfoldable pub identity_of : BridgeEvent → Json
identity_of e = obj (
    field "attempt_id" (str e.attempt_id) (
      field "job_id" (str e.job_id) (
        field "kind" (str (kind_text e.kind)) (
          field "manifest" (str e.manifest) (
            field "manifest_sha256" (str e.manifest_sha256) (
              field "source" (str "trusted_parent") (
                field "target_thread" (str e.target_thread)
                  (field "task_id" (str e.task_id) (field "version" (int (pos 1)) end)))))))))

-- `event.model_dump()`
unfoldable pub event_dump : BridgeEvent → Json
event_dump e = obj (
    field "attempt_id" (str e.attempt_id) (
      field "job_id" (str e.job_id) (
        field "kind" (str (kind_text e.kind)) (
          field "manifest" (str e.manifest) (
            field "manifest_sha256" (str e.manifest_sha256) (
              field "occurred_at" (float e.occurred_at) (
                field "sequence" (int (pos e.sequence)) (
                  field "source" (str "trusted_parent") (
                    field "target_thread" (str e.target_thread)
                      (field "task_id" (str e.task_id) (field "version" (int (pos 1)) end)))))))))))

abbrev invalid {ℓ} : {A : Type ℓ} → Result A
invalid = err "VALIDATION_ERROR"

-- A required field of type `str`, in strict mode.
abbrev text_field : String → Fields → Result String
text_field k fs = elim (find k fs) [
  | none ↦ invalid
  | some v ↦ elim v [ str s ↦ ok s | _ ↦ invalid ]
]

-- `Field(ge=0)` on an `int`: a bool is refused in strict mode.
abbrev natural_field : String → Fields → Result ℕ
natural_field k fs = elim (find k fs) [
  | none ↦ invalid
  | some v ↦ elim v [ int n ↦ elim n [ pos m ↦ ok m | negsuc m ↦ invalid ] | _ ↦ invalid ]
]

-- Strict mode takes an `int` for a `float`.
abbrev float_field : String → Fields → Result Float
float_field k fs = elim (find k fs) [
  | none ↦ invalid
  | some v ↦ elim v [ float x ↦ ok x | int n ↦ ok (finite n 0) | _ ↦ invalid ]
]

abbrev kind_of_text : String → Result EventKind
kind_of_text text =
    if text == "batch_completed"
    then ok batch_completed
    else if text == "blocked_failure"
    then ok blocked_failure
    else if text == "human_action_required"
    then ok human_action_required
    else if text == "confirmed_anomaly"
    then ok confirmed_anomaly
    else invalid

abbrev kind_field : Fields → Result EventKind
kind_field fs = text_field "kind" fs >>= kind_of_text

-- `Literal[1] = 1` and `Literal["trusted_parent"] = "trusted_parent"`: absent or that value.
abbrev constants_hold : Fields → Bool
constants_hold fs =
    elim (find "version" fs) [
      | none ↦ true
      | some v ↦ elim v [ int n ↦ elim n [ pos m ↦ m == 1 | negsuc m ↦ false ] | _ ↦ false ]
    ]
    && elim (find "source" fs) [
      | none ↦ true
      | some v ↦ elim v [ str s ↦ s == "trusted_parent" | _ ↦ false ]
    ]

abbrev event_keys : Fields → Bool
event_keys fs =
    all
      (λ k. contains k (
        "attempt_id" ∷ "job_id" ∷ "kind" ∷ "manifest" ∷ "manifest_sha256" ∷ "occurred_at"
        ∷ "sequence" ∷ "source" ∷ "target_thread" ∷ "task_id" ∷ "version" ∷ []))
      (keys fs)

event_fields : Fields → Result BridgeEvent
event_fields fs = do
  refuse (not (event_keys fs) || not (constants_hold fs)) "VALIDATION_ERROR"
  kind ← kind_field fs
  task_id ← text_field "task_id" fs
  job_id ← text_field "job_id" fs
  attempt_id ← text_field "attempt_id" fs
  target_thread ← text_field "target_thread" fs
  manifest ← text_field "manifest" fs
  manifest_sha256 ← text_field "manifest_sha256" fs
  sequence ← natural_field "sequence" fs
  occurred_at ← float_field "occurred_at" fs
  ok (record {
    kind = kind;
    task_id = task_id;
    job_id = job_id;
    attempt_id = attempt_id;
    target_thread = target_thread;
    manifest = manifest;
    manifest_sha256 = manifest_sha256;
    sequence = sequence;
    occurred_at = occurred_at;
  })

-- `BridgeEvent.model_validate(value)`
unfoldable pub validate_event : Json → Result BridgeEvent
unfolding event_fields
validate_event (obj fs) = event_fields fs >>= check_event
validate_event _ = invalid
