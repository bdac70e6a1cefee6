-- ===== src/Schema/Tests.antt =====
-- A concrete schema, with values that it accepts and refuses.
use dispatcher_for_codex_age.Prelude.{
  String, ◌≡◌, refl, true, false, some, [], ◌∷◌, all, contains, string_eq,
}
use dispatcher_for_codex_age.Prelude.Int.{pos}
use dispatcher_for_codex_age.Prelude.Result.{ok, err}
use dispatcher_for_codex_age.Json.{
  Json, Fields, str, int, bool, arr, obj, nil, cons, end, field, keys, find,
}
use dispatcher_for_codex_age.Schema.{
  each_property, check_properties, check_required, check_items, check_range, schema_types, types_of,
  check_children, check_limits, check_definition, validate_schema_definition,
}
use dispatcher_for_codex_age.Schema.Values.{
  matches_type, matches_any, check_type, check_fields, check_object, check_elements, check_each,
  check_bound, check_array, check_text, check_number, check_parts, check_value, validate_part,
  is_closed,
}
use dispatcher_for_codex_age.Schema.Depth.{max, fields_depth}
use dispatcher_for_codex_age.Schema.Check.{validate_json_schema}
use dispatcher_for_codex_age.Schema.Objects.{accepted_object}

abbrev text_schema : Fields
text_schema = field "type" (str "string") end

abbrev properties : Fields
properties = field "a" (obj text_schema) end

abbrev schema : Fields
schema = field "type" (str "object") (
    field "properties" (obj properties)
      (field "required" (arr (cons (str "a") nil)) (field "additionalProperties" (bool false) end)))

abbrev good : Fields
good = field "a" (str "x") end

good_passes : validate_json_schema (obj good) (obj schema) ≡ ok tt
unfolding each_property check_properties check_required check_items check_range schema_types
    types_of check_children check_limits check_definition validate_schema_definition matches_type
    matches_any check_type check_fields check_object check_elements check_each check_bound
    check_array check_text check_number check_parts check_value validate_part max
    validate_json_schema
good_passes = refl

extra_fails :
    validate_json_schema (obj (field "b" (int (pos 1)) good)) (obj schema)
    ≡ err "additional properties are forbidden"
unfolding each_property check_properties check_required check_items check_range schema_types
    types_of check_children check_limits check_definition validate_schema_definition matches_type
    matches_any check_type check_fields check_object check_elements check_each check_bound
    check_array check_text check_number check_parts check_value validate_part max
    validate_json_schema
extra_fails = refl

accepted_object_example :
    (all (λ n. contains n (keys good)) ("a" ∷ []) ≡ true)
    × (is_closed schema ≡ true → all (λ k. contains k (keys properties)) (keys good) ≡ true)
    × ((k : String) (child v : Json)
        → find k properties ≡ some child
        → find k good ≡ some v
        → validate_part (fields_depth schema) v child ≡ ok tt)
accepted_object_example = accepted_object good schema properties ("a" ∷ []) good_passes refl refl
