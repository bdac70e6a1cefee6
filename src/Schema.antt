-- ===== src/Schema.antt =====
-- agent_harness/schema.py: the JSON Schema subset that outputs are checked against. An error is its
-- message without the path in front. Python's `in` and the comparison inside containers take one
-- object as equal to itself, and the decoder gives NaN as one object.

pub mod Values
pub mod Depth
pub mod Check
pub mod Objects
mod Tests
use dispatcher_for_codex_age.Prelude.{
  ℕ, zero, suc, ◌+◌, ◌≤◌, String, ◌≡◌, refl, Bool, true, false, not, ◌&&◌, ◌||◌, Option, none, some,
  List, [], ◌∷◌, all, any, contains, is_unique, length, ltb, ◌==◌, nat_eq, string_eq, if◌then◌else◌,
  is_some,
}
use dispatcher_for_codex_age.Prelude.Int.{ℤ, pos, negsuc}
use dispatcher_for_codex_age.Prelude.Result.{Result, ok, err, ◌>>=◌, ◌>>◌, refuse}
use dispatcher_for_codex_age.Prelude.Text.{codes}
use dispatcher_for_codex_age.Json.{
  Json, Items, Fields, null, bool, int, float, str, arr, obj, nil, cons, end, field, elements, keys,
  find, get, is_str, is_obj, is_arr, is_null, Float, nan, Number, number, number_lt, number_eq,
}

abbrev is_nan : Json → Bool
is_nan (float nan) = true
is_nan _ = false

-- `a == b` of two numbers, and the same object for NaN.
abbrev same_number : Json → Json → Bool
same_number a b = elim (number a) [
  | none ↦ false
  | some x ↦ elim (number b) [ none ↦ false | some y ↦ number_eq x y || is_nan a && is_nan b ]
]

-- `a is b or a == b`
abbrev mutual
  pub json_same : Json → Json → Bool
  json_same null b = is_null b
  json_same (bool x) b = same_number (bool x) b
  json_same (int n) b = same_number (int n) b
  json_same (float x) b = same_number (float x) b
  json_same (str s) (str t) = s == t
  json_same (str s) _ = false
  json_same (arr xs) (arr ys) = items_same xs ys
  json_same (arr xs) _ = false
  json_same (obj fs) (obj gs) = length (keys fs) == length (keys gs) && fields_same fs gs
  json_same (obj fs) _ = false

  pub items_same : Items → Items → Bool
  items_same nil nil = true
  items_same (cons x xs) (cons y ys) = json_same x y && items_same xs ys
  items_same _ _ = false

  pub fields_same : Fields → Fields → Bool
  fields_same end gs = true
  fields_same (field k v fs) gs =
      let rest = fields_same fs gs in
      elim (find k gs) [ none ↦ false | some w ↦ json_same v w && rest ]

-- `a == b`: a NaN differs from itself.
abbrev pub json_eq : Json → Json → Bool
json_eq a b = not (is_nan a) && json_same a b

-- `_SUPPORTED_KEYWORDS`
abbrev pub supported_keywords : List String
supported_keywords =
    "$schema" ∷ "title" ∷ "description" ∷ "type" ∷ "properties" ∷ "required"
    ∷ "additionalProperties" ∷ "items" ∷ "enum" ∷ "const" ∷ "minItems" ∷ "maxItems" ∷ "minLength"
    ∷ "maxLength" ∷ "minimum" ∷ "maximum" ∷ []

-- `_SUPPORTED_TYPES`
abbrev pub supported_types : List String
supported_types = "array" ∷ "boolean" ∷ "integer" ∷ "null" ∷ "number" ∷ "object" ∷ "string" ∷ []

-- The texts of a list, or `none` where an element is no text.
abbrev pub texts : Items → Option (List String)
texts nil = some []
texts (cons x xs) =
    let rest = texts xs in
    elim x [ str s ↦ elim rest [ none ↦ none | some ts ↦ some (s ∷ ts) ] | _ ↦ none ]

-- `types`
unfoldable pub schema_types : Json → Result (List String)
schema_types (str t) = ok (t ∷ [])
schema_types (arr (cons x xs)) = elim (texts (cons x xs)) [
  | none ↦ err "type list must contain strings."
  | some ts ↦ if is_unique ts then ok ts else err "type list must not contain duplicates."
]
schema_types _ = err "an explicit type is required."

abbrev no_text : Fields → String → Bool
no_text schema k = elim (find k schema) [ none ↦ false | some v ↦ not (is_str v) ]

-- `for name, child in properties.items()`, with the check of a child.
unfoldable pub each_property : (Json → Result (Unit {0})) → Fields → Result (Unit {0})
each_property check end = ok tt
each_property check (field name child fs) = do
  refuse (not (is_obj child)) "each property must have a string name and object schema."
  check child
  each_property check fs

unfoldable pub check_properties :
    (Json → Result (Unit {0})) → List String → Json → Result (Unit {0})
unfolding each_property
check_properties check types null = ok tt
check_properties check types (obj properties) = do
  refuse (not (contains "object" types)) "properties requires object type and an object value."
  each_property check properties
check_properties check types _ = err "properties requires object type and an object value."

-- `not isinstance(properties, dict) or set(required) - set(properties)`
abbrev names_exist : List String → Json → Bool
names_exist names (obj properties) = all (λ n. contains n (keys properties)) names
names_exist names _ = false

unfoldable pub check_required : Json → Json → Result (Unit {0})
check_required null properties = ok tt
check_required (arr xs) properties = elim (texts xs) [
  | none ↦ err "required must be a string array."
  | some names ↦
      refuse (not (is_unique names)) "required must not contain duplicates."
      >> refuse (not (names_exist names properties)) "required names must all exist in properties."
]
check_required _ properties = err "required must be a string array."

unfoldable pub check_items : (Json → Result (Unit {0})) → List String → Json → Result (Unit {0})
check_items check types null = ok tt
check_items check types (obj items) = do
  refuse (not (contains "array" types)) "items requires array type and an object schema."
  check (obj items)
check_items check types _ = err "items requires array type and an object schema."

abbrev is_boolean : Json → Bool
is_boolean (bool b) = true
is_boolean _ = false

abbrev is_size : Json → Bool
is_size (int (pos n)) = true
is_size _ = false

abbrev is_numeric : Json → Bool
is_numeric (int n) = true
is_numeric (float x) = true
is_numeric _ = false

-- `value is not None and …`
abbrev malformed : (Json → Bool) → Fields → String → Bool
malformed p schema k = not (is_null (get k schema)) && not (p (get k schema))

-- `lower in schema and upper in schema and schema[lower] > schema[upper]`; None has no order.
unfoldable pub check_range : Fields → String → String → String → Result (Unit {0})
check_range schema lower upper message = elim (find lower schema) [
  | none ↦ ok tt
  | some low ↦ elim (find upper schema) [
    | none ↦ ok tt
    | some high ↦ elim (number low) [
      | none ↦ err "TypeError"
      | some x ↦ elim (number high) [
        | none ↦ err "TypeError"
        | some y ↦ refuse (number_lt y x) message
      ]
    ]
  ]
]

abbrev is_enum : Json → Bool
is_enum (arr (cons x xs)) = true
is_enum _ = false

-- The tests up to the unknown types.
unfoldable pub types_of : Fields → Result (List String)
unfolding schema_types
types_of schema = do
  refuse (length (keys schema) == 0) "schema must be a non-empty object."
  refuse (not (all (λ k. contains k supported_keywords) (keys schema)))
      "unsupported schema keyword(s)"
  types ← schema_types (get "type" schema)
  refuse (not (all (λ t. contains t supported_types) types)) "unsupported schema type(s)"
  ok types

-- From the texts to `items`, with the check of the schemas inside.
unfoldable pub check_children :
    (Json → Result (Unit {0})) → List String → Fields → Result (Unit {0})
unfolding check_properties check_required check_items
check_children check types schema = do
  refuse (any (no_text schema) ("$schema" ∷ "title" ∷ "description" ∷ [])) "must be a string."
  check_properties check types (get "properties" schema)
  check_required (get "required" schema) (get "properties" schema)
  refuse (malformed is_boolean schema "additionalProperties")
      "additionalProperties must be boolean."
  check_items check types (get "items" schema)

-- From the sizes to `enum`.
unfoldable pub check_limits : Fields → Result (Unit {0})
unfolding check_range
check_limits schema = do
  refuse (any (malformed is_size schema) ("minItems" ∷ "maxItems" ∷ "minLength" ∷ "maxLength" ∷ []))
      "must be a non-negative integer."
  check_range schema "minItems" "maxItems" "minItems exceeds maxItems."
  check_range schema "minLength" "maxLength" "minLength exceeds maxLength."
  refuse (any (malformed is_numeric schema) ("minimum" ∷ "maximum" ∷ [])) "must be numeric."
  check_range schema "minimum" "maximum" "minimum exceeds maximum."
  refuse (elim (find "enum" schema) [ none ↦ false | some v ↦ not (is_enum v) ])
      "enum must be a non-empty array."

-- The body of `validate_schema_definition`.
unfoldable pub check_definition : (Json → Result (Unit {0})) → Fields → Result (Unit {0})
unfolding types_of check_children check_limits
check_definition check schema =
    types_of schema >>= λ types. check_children check types schema >> check_limits schema

-- `validate_schema_definition`, on fuel for the schemas inside.
unfoldable pub validate_schema_definition : ℕ → Json → Result (Unit {0})
unfolding check_definition
validate_schema_definition zero schema = err "OutOfFuel"
validate_schema_definition (suc n) schema = elim schema [
  | obj fields ↦ check_definition (validate_schema_definition n) fields
  | _ ↦ err "schema must be a non-empty object."
]
