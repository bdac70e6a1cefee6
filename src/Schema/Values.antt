-- ===== src/Schema/Values.antt =====
-- agent_harness/schema.py, `validate_json_schema`: a value against a schema.
use dispatcher_for_codex_age.Prelude.{
  ℕ, zero, suc, String, Bool, true, false, not, ◌&&◌, none, some, List, all, any, contains, length,
  ◌==◌, nat_eq, string_eq, if◌then◌else◌,
}
use dispatcher_for_codex_age.Prelude.Int.{pos}
use dispatcher_for_codex_age.Prelude.Result.{Result, ok, err, ◌>>=◌, ◌>>◌, refuse}
use dispatcher_for_codex_age.Prelude.Text.{codes}
use dispatcher_for_codex_age.Json.{
  Json, Items, Fields, null, bool, int, float, str, arr, obj, nil, cons, end, field, elements, keys,
  find, get, is_str, is_obj, is_arr, is_null, Number, rational, number, number_lt,
}
use dispatcher_for_codex_age.Schema.{json_same, json_eq, supported_keywords, texts}

-- `_matches_type`
unfoldable pub matches_type : Json → Json → Result Bool
matches_type value (str t) =
    if t == "object"
    then ok (is_obj value)
    else if t == "array"
    then ok (is_arr value)
    else if t == "string"
    then ok (is_str value)
    else if t == "integer"
    then ok (elim value [ int n ↦ true | _ ↦ false ])
    else if t == "number"
    then ok (elim value [ int n ↦ true | float x ↦ true | _ ↦ false ])
    else if t == "boolean"
    then ok (elim value [ bool b ↦ true | _ ↦ false ])
    else if t == "null"
    then ok (is_null value)
    else err "Unsupported JSON Schema type"
matches_type value t = err "Unsupported JSON Schema type"

-- `any(_matches_type(value, item) for item in expected_type)`
unfoldable pub matches_any : Json → Items → Result Bool
unfolding matches_type
matches_any value nil = ok false
matches_any value (cons t ts) =
    let rest = matches_any value ts in
    matches_type value t >>= λ fits. elim fits [ true ↦ ok true | false ↦ rest ]

unfoldable pub check_type : Json → Json → Result (Unit {0})
unfolding matches_any matches_type
check_type value null = ok tt
check_type value (arr ts) = do
  fits ← matches_any value ts
  refuse (not fits) "value does not match any allowed type."
check_type value t = do fits ← matches_type value t; refuse (not fits) "unexpected type"

-- `schema.get(k, default)`
abbrev pub get_or : Json → String → Fields → Json
get_or default k fs = elim (find k fs) [ none ↦ default | some v ↦ v ]

-- `for name, child_schema in properties.items(): if name in value: …`
unfoldable pub check_fields :
    (Json → Json → Result (Unit {0})) → Fields → Fields → Result (Unit {0})
check_fields check end value = ok tt
check_fields check (field name child fs) value =
    let rest = check_fields check fs value in
    elim (find name value) [
      | none ↦ rest
      | some v ↦
          refuse (not (is_obj child)) "property schema must be an object." >> check v child >> rest
    ]

abbrev pub as_properties : Json → Result Fields
as_properties (obj ps) = ok ps
as_properties _ = err "properties must be an object."

-- `schema.get("properties", {})`, an object.
abbrev pub properties_of : Fields → Result Fields
properties_of schema = as_properties (get_or (obj end) "properties" schema)

-- `schema.get("required", [])`, a list of texts.
abbrev pub required_of : Fields → Result (List String)
required_of schema = elim (get_or (arr nil) "required" schema) [
  | arr xs ↦ elim (texts xs) [ none ↦ err "required must be a string array." | some ns ↦ ok ns ]
  | _ ↦ err "required must be a string array."
]

-- `schema.get("additionalProperties") is False`
abbrev pub is_closed : Fields → Bool
is_closed schema = elim (get "additionalProperties" schema) [ bool b ↦ not b | _ ↦ false ]

unfoldable pub check_object :
    (Json → Json → Result (Unit {0})) → Fields → Fields → Result (Unit {0})
unfolding check_fields
check_object check schema value = do
  properties ← properties_of schema
  required ← required_of schema
  refuse (not (all (λ n. contains n (keys value)) required)) "missing required keys"
  refuse (is_closed schema && not (all (λ k. contains k (keys properties)) (keys value)))
      "additional properties are forbidden"
  check_fields check properties value

unfoldable pub check_elements : (Json → Json → Result (Unit {0})) → Items → Json → Result (Unit {0})
check_elements check nil schema = ok tt
check_elements check (cons x xs) schema = check x schema >> check_elements check xs schema

-- By `item_schema`.
unfoldable pub check_each : (Json → Json → Result (Unit {0})) → Items → Json → Result (Unit {0})
unfolding check_elements
check_each check xs null = ok tt
check_each check xs (obj item) = check_elements check xs (obj item)
check_each check xs _ = err "items must be an object."

abbrev pub size_number : ℕ → Number
size_number n = rational (pos n) 0

-- `bound is not None and …`: a bound of another type has no order with a number.
unfoldable pub check_bound : (Number → Number → Bool) → Number → Json → String → Result (Unit {0})
check_bound worse n null message = ok tt
check_bound worse n bound message = elim (number bound) [
  | none ↦ err "TypeError"
  | some m ↦ refuse (worse n m) message
]

abbrev pub number_gt : Number → Number → Bool
number_gt a b = number_lt b a

unfoldable pub check_array : (Json → Json → Result (Unit {0})) → Fields → Items → Result (Unit {0})
unfolding check_each check_bound
check_array check schema xs = do
  check_bound number_lt (size_number (length (elements xs))) (get "minItems" schema)
      "array is shorter than minItems."
  check_bound number_gt (size_number (length (elements xs))) (get "maxItems" schema)
      "array is longer than maxItems."
  check_each check xs (get "items" schema)

unfoldable pub check_text : Fields → String → Result (Unit {0})
unfolding check_bound
check_text schema s = do
  check_bound number_lt (size_number (length (codes s))) (get "minLength" schema)
      "string is shorter than minLength."
  check_bound number_gt (size_number (length (codes s))) (get "maxLength" schema)
      "string is longer than maxLength."

unfoldable pub check_number : Fields → Json → Result (Unit {0})
unfolding check_bound
check_number schema value = elim (number value) [
  | none ↦ ok tt
  | some x ↦
      check_bound number_lt x (get "minimum" schema) "number is less than minimum."
      >> check_bound number_gt x (get "maximum" schema) "number is greater than maximum."
]

-- `value not in schema["enum"]` and `value != schema["const"]`
abbrev pub check_choice : Json → Fields → Result (Unit {0})
check_choice value schema =
    elim (find "enum" schema) [
      | none ↦ ok tt
      | some choices ↦ elim choices [
        | arr xs ↦ refuse (not (any (json_same value) (elements xs))) "value is not in enum."
        | _ ↦ err "TypeError"
      ]
    ]
    >> elim (find "const" schema) [
      | none ↦ ok tt
      | some c ↦ refuse (not (json_eq value c)) "value does not match const."
    ]

-- The tests by the value's type.
unfoldable pub check_parts : (Json → Json → Result (Unit {0})) → Json → Fields → Result (Unit {0})
unfolding check_object check_array check_text check_number
check_parts check (obj fs) schema = check_object check schema fs
check_parts check (arr xs) schema = check_array check schema xs
check_parts check (str s) schema = check_text schema s
check_parts check (int n) schema = check_number schema (int n)
check_parts check (float x) schema = check_number schema (float x)
check_parts check value schema = ok tt

-- The body of `validate_json_schema` after the definition's check, with the check of a part.
unfoldable pub check_value : (Json → Json → Result (Unit {0})) → Json → Fields → Result (Unit {0})
unfolding check_type check_parts
check_value check value schema = do
  refuse (not (all (λ k. contains k supported_keywords) (keys schema)))
      "unsupported schema keyword(s)"
  check_choice value schema
  check_type value (get "type" schema)
  check_parts check value schema

-- `validate_json_schema` below the root, on fuel for the schemas inside.
unfoldable pub validate_part : ℕ → Json → Json → Result (Unit {0})
unfolding check_value
validate_part zero value schema = err "OutOfFuel"
validate_part (suc n) value schema = elim schema [
  | obj fs ↦ check_value (validate_part n) value fs
  | _ ↦ err "TypeError"
]
