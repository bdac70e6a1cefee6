-- ===== src/Runtime/Tests.antt =====
-- Concrete streams of a turn, and concrete outputs.
use dispatcher_for_codex_age.Prelude.{
  ◌≤◌, String, ◌≡◌, refl, ◌↔◌, ◌⊎◌, true, Option, none, some, List, [], ◌∷◌, map, count, ◌==◌,
  list_eq, nat_eq, string_eq, if◌then◌else◌,
}
use dispatcher_for_codex_age.Json.{
  Json, Fields, Items, end, field, str, obj, arr, nil, cons, elements,
}
use dispatcher_for_codex_age.Host.{Bytes}
use dispatcher_for_codex_age.Prelude.Result.{ok}
use dispatcher_for_codex_age.Schema.{
  each_property, check_properties, check_required, check_items, check_range, schema_types, types_of,
  check_children, check_limits, check_definition, validate_schema_definition,
}
use dispatcher_for_codex_age.Schema.Values.{
  matches_type, matches_any, check_type, check_fields, check_object, check_elements, check_each,
  check_bound, check_array, check_text, check_number, check_parts, check_value, validate_part,
}
use dispatcher_for_codex_age.Schema.Depth.{max}
use dispatcher_for_codex_age.Schema.Check.{validate_json_schema}
use dispatcher_for_codex_age.Runtime.Output.{
  is_space, lstrip, rstrip, take, drop, is_fenced, unfenced, selected, NormalizedOutput,
  normalize_output,
}
use dispatcher_for_codex_age.Runtime.Output.Fence.{IsUnfenced, normalize_output_pass}
use dispatcher_for_codex_age.Runtime.Coverage.{observed_ids, validate_coverage}
use dispatcher_for_codex_age.Runtime.Coverage.ExactOnce.{validate_coverage_iff}
use dispatcher_for_codex_age.Runtime.Lifecycle.{
  Problem, at_event, unfinished_item, kind_of, identity_of, is_error_item, item_problem, item_event,
  item_step, step, loop, lifecycle_issues,
}
use dispatcher_for_codex_age.Runtime.Lifecycle.Grammar.{is_turn, history, is_history}
use dispatcher_for_codex_age.Runtime.Lifecycle.Pass.{lifecycle_issues_iff}

abbrev thread : Fields
thread = field "type" (str "thread.started") (field "thread_id" (str "t") end)

abbrev turn : Fields
turn = field "type" (str "turn.started") end

abbrev item : String → Fields
item type =
    field "type" (str type)
      (field "item" (obj (field "id" (str "i") (field "type" (str "reasoning") end))) end)

abbrev completed : Fields
completed = field "type" (str "turn.completed") end

abbrev stream : List Fields
stream = thread ∷ turn ∷ item "item.started" ∷ item "item.completed" ∷ completed ∷ []

stream_passes : lifecycle_issues true stream ≡ ([], [])
unfolding lifecycle_issues loop step kind_of item_step item_event item_problem identity_of
    is_error_item
stream_passes = refl

abbrev open_stream : List Fields
open_stream = thread ∷ turn ∷ item "item.started" ∷ completed ∷ []

open_stream_fails : lifecycle_issues true open_stream ≡ (unfinished_item ∷ [], [])
unfolding lifecycle_issues loop step kind_of item_step item_event item_problem identity_of
    is_error_item
open_stream_fails = refl

abbrev late_stream : List Fields
late_stream = thread ∷ turn ∷ completed ∷ turn ∷ []

late_stream_fails :
    (lifecycle_issues true late_stream).0
    ≡ at_event 2 Problem.terminal_out_of_order ∷ at_event 3 Problem.turn_start_out_of_order ∷ []
unfolding lifecycle_issues loop step kind_of item_step item_event item_problem identity_of
    is_error_item
late_stream_fails = refl

lifecycle_issues_iff_example :
    ((lifecycle_issues true stream).0 ≡ [])
    ↔ ((is_turn true stream ≡ true) × ((id : String) → is_history (history id stream) ≡ true))
lifecycle_issues_iff_example = lifecycle_issues_iff true stream

-- A decoder that knows one text: the bytes 34 34, an empty text.
abbrev decode : Bytes → Option Json
decode raw = if raw == 34 ∷ 34 ∷ 10 ∷ [] then some (str "") else none

abbrev schema : Json
schema = obj (field "type" (str "string") end)

-- The text in a fence.
abbrev fenced : Bytes
fenced = 96 ∷ 96 ∷ 96 ∷ 106 ∷ 115 ∷ 111 ∷ 110 ∷ 10 ∷ 34 ∷ 34 ∷ 10 ∷ 96 ∷ 96 ∷ 96 ∷ []

abbrev passed : NormalizedOutput
passed = record { value = str ""; validator_bytes = 34 ∷ 34 ∷ 10 ∷ []; error = none }

fenced_passes : normalize_output decode (λ v. true) (λ b. "") fenced schema true ≡ ok passed
unfolding normalize_output selected is_fenced unfenced is_space lstrip rstrip take drop
    each_property check_properties check_required check_items check_range schema_types types_of
    check_children check_limits check_definition validate_schema_definition matches_type matches_any
    check_type check_fields check_object check_elements check_each check_bound check_array
    check_text check_number check_parts check_value validate_part max validate_json_schema
fenced_passes = refl

normalize_output_pass_example :
    (decode passed.validator_bytes ≡ some passed.value)
    × (validate_json_schema passed.value schema ≡ ok tt)
    × (true ≡ true)
    × ((passed.validator_bytes ≡ fenced)
        ⊎ ((true ≡ true) × (decode fenced ≡ none) × IsUnfenced fenced passed.validator_bytes))
normalize_output_pass_example =
    normalize_output_pass decode (λ v. true) (λ b. "") fenced schema true fenced_passes refl

abbrev rows : Items
rows =
    cons (obj (field "record_id" (str "b") end)) (cons (obj (field "record_id" (str "a") end)) nil)

validate_coverage_iff_example :
    (validate_coverage (map str ("a" ∷ "b" ∷ [])) (obj (field "results" (arr rows) end))
      ≡ ok "PASS")
    ↔ ((k : String)
        → (count k (observed_ids (elements rows)) ≡ count k ("a" ∷ "b" ∷ []))
          × (count k (observed_ids (elements rows)) ≤ 1))
validate_coverage_iff_example =
    validate_coverage_iff ("a" ∷ "b" ∷ []) (field "results" (arr rows) end) rows refl
