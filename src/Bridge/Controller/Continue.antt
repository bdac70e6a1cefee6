-- ===== src/Bridge/Controller/Continue.antt =====
-- main_agent_bridge/controller.py, `Controller._continue`: a delivery, the turn that confirms it, and
-- the row that settles its reservation.
use dispatcher_for_codex_age.Prelude.{
  ℕ, String, Bool, true, false, not, ◌&&◌, ◌||◌, Option, none, some, List, [], map, ◌==◌, nat_eq,
  string_eq, list_eq,
}
use dispatcher_for_codex_age.Prelude.Result.{Result, ok, err, ◌>>=◌, ◌>>◌, refuse, or_raise}
use dispatcher_for_codex_age.Prelude.Sort.{sort}
use dispatcher_for_codex_age.Prelude.Text.{concat, text_leb}
use dispatcher_for_codex_age.Json.{Json, str, obj, arr, bool, nil, cons, end, field, get, str_is}
use dispatcher_for_codex_age.Host.{Host}
use dispatcher_for_codex_age.Schema.{texts}
use dispatcher_for_codex_age.Schema.Check.{validate_json_schema}
use dispatcher_for_codex_age.Bridge.Store.{append, completed, ambiguous}
use dispatcher_for_codex_age.Bridge.Dispatcher.{Request, Reply, deliver}
use dispatcher_for_codex_age.Bridge.Controller.{Spec, Controller, Moment, guard}
use dispatcher_for_codex_age.Bridge.Controller.Turn.{Arrival, truthy, run_turn}

abbrev typed : String → Json
typed t = obj (field "type" (str t) end)

-- `OUTPUT_SCHEMA`
abbrev pub output_schema : Json
output_schema = obj (
    field "type" (str "object") (
      field "additionalProperties" (bool false) (
        field "properties"
          (obj (
            field "task_id" (typed "string") (
              field "confirmed" (typed "boolean") (
                field "result_files"
                  (obj (field "type" (str "array") (field "items" (typed "string") end)))
                  (field "summary" (typed "string") end)))))
          (field "required"
            (arr (
              cons (str "task_id")
                (cons (str "confirmed") (cons (str "result_files") (cons (str "summary") nil)))))
            end))))

abbrev files_of : Json → List String
files_of (arr xs) = elim (texts xs) [ none ↦ [] | some names ↦ names ]
files_of _ = []

-- `sorted(j.job_id + ".json" for j in self.spec.jobs)`
abbrev pub expected_files : Spec → List String
expected_files spec = sort text_leb (map (λ j. concat j ".json") spec.job_ids)

-- `output["task_id"] != self.spec.task_id or …`, of an output that the schema accepts.
unfoldable pub is_confirmation : Spec → ℕ → Json → Bool
is_confirmation spec reads (obj output) =
    str_is spec.task_id (get "task_id" output)
    && truthy (get "confirmed" output)
    && sort text_leb (files_of (get "result_files" output)) == expected_files spec
    && reads == 1
is_confirmation spec reads _ = false

-- The tests on the final text, which `decode` loads.
unfoldable pub confirm : (String → Option Json) → Spec → ℕ → String → Result Json
unfolding is_confirmation
confirm decode spec reads final = do
  output ← or_raise (decode final) "JSONDecodeError"
  validate_json_schema output output_schema
  refuse (not (is_confirmation spec reads output)) "MAIN_CONFIRMATION_INVALID"
  ok output

-- What happens around a continuation: the answers at its guard and at the delivery, the request's
-- number and its reply, and the messages of the turn.
pub record Surroundings : Type 0 where
  pub at_guard : Moment
  pub at_delivery : Moment
  pub serial : ℕ
  pub reply : Reply
  pub arrivals : List Arrival
  pub last : String

pub data Report : Type 0 where
  duplicate_suppressed : Report
  confirmed : Json → Report

abbrev pub request_of : Surroundings → Controller → Request
request_of w c = record {
  now = w.at_delivery.now;
  active = false;
  permission_pending = c.permission_pending;
  was_cancelled = w.at_delivery.cancel_set || w.at_delivery.cancel_file;
}

-- The row that settles a reservation, by the outcome of its turn.
unfoldable pub settled_by :
    String → String → List String → Controller → Result Json → Result Report × Controller
settled_by reservation turn_id ids c (err e) =
    (err e, record c { store = append (ambiguous reservation ids) c.store })
settled_by reservation turn_id ids c (ok output) =
    (ok (confirmed output), record c { store = append (completed reservation turn_id ids) c.store })

-- The part after a delivery.
unfoldable pub settle_delivery :
    Host
    → (String → Option Json)
    → Spec
    → Surroundings
    → String × String × List String
    → Controller
    → Result Report × Controller
unfolding confirm settled_by
settle_delivery h decode spec w (reservation, turn_id, ids) c =
    let (outcome, c') = run_turn h spec true turn_id w.last w.arrivals c in
    settled_by reservation turn_id ids c' (outcome >>= confirm decode spec c'.result_reads)

-- By the outcome of the delivery.
unfoldable pub after_delivery :
    Host
    → (String → Option Json)
    → Spec
    → Surroundings
    → Controller
    → Result (Option (String × String × List String))
    → Result Report × Controller
unfolding settle_delivery
after_delivery h decode spec w c (err e) = (err e, c)
after_delivery h decode spec w c (ok none) = (ok duplicate_suppressed, c)
after_delivery h decode spec w c (ok (some d)) = settle_delivery h decode spec w d c

-- `Controller._continue`
unfoldable pub continue_delivery :
    Host → (String → Option Json) → Spec → Surroundings → Controller → Result Report × Controller
unfolding after_delivery
continue_delivery h decode spec w c =
    let (outcome, s) = deliver h c.binding (request_of w c) w.serial w.reply c.store in
    elim (guard spec w.at_guard c) [
      | err e ↦ (err e, c)
      | ok t ↦ after_delivery h decode spec w (record c { store = s }) outcome
    ]
