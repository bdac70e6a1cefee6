-- ===== src/Schema/Check.antt =====
-- agent_harness/schema.py: `validate_json_schema` at the root, with fuel of the schema's depth.
use dispatcher_for_codex_age.Prelude.{
  ℕ, zero, suc, ◌≤◌, String, ◌≡◌, refl, ap, not, ◌&&◌, Option, none, some, contains, all, nat_eq,
  string_eq, arith,
}
use dispatcher_for_codex_age.Prelude.Result.{Result, ok, ◌>>◌, refuse, bind_same}
use dispatcher_for_codex_age.Json.{
  Json, Items, Fields, arr, obj, nil, cons, end, field, find, get, is_obj, keys,
}
use dispatcher_for_codex_age.Schema.{validate_schema_definition}
use dispatcher_for_codex_age.Schema.Values.{
  check_fields, check_object, check_elements, check_array, check_parts, check_value, validate_part,
  properties_of, as_properties, get_or, check_each, required_of, is_closed,
}
use dispatcher_for_codex_age.Schema.Depth.{
  depth, fields_depth, depth-get, max_left, max_right, validate_schema_definition_fuel,
}

-- `validate_json_schema`
unfoldable pub validate_json_schema : Json → Json → Result (Unit {0})
validate_json_schema value schema =
    validate_schema_definition (depth schema) schema >> validate_part (depth schema) value schema

abbrev Check : Type 0
Check = Json → Json → Result (Unit {0})

abbrev Agree : ℕ → Check → Check → Type 0
Agree n f g = (v : Json) (fs : Fields) → suc (fields_depth fs) ≤ n → f v (obj fs) ≡ g v (obj fs)

Agree-less : {m n : ℕ} (f g : Check) → m ≤ n → Agree n f g → Agree m f g
Agree-less f g less same v fs d = same v fs (omega (arith, d, less))

by_value :
    (f g : Check) (p : Json) (o : Option Json) (rest other : Result (Unit {0}))
    → Agree (depth p) f g
    → rest ≡ other
    → Path
        (Result (Unit {0}))
        (elim o [
          | none ↦ rest
          | some v ↦ refuse (not (is_obj p)) "property schema must be an object." >> f v p >> rest
        ])
        (elim o [
          | none ↦ other
          | some v ↦ refuse (not (is_obj p)) "property schema must be an object." >> g v p >> other
        ])
by_value f g p none rest other same next = next
by_value f g (obj ps) (some v) rest other same next = rw (same v ps (omega arith), next) refl
by_value f g p (some v) rest other same next = refl

check_fields-same :
    (f g : Check) (ps value : Fields)
    → Agree (fields_depth ps) f g
    → check_fields f ps value ≡ check_fields g ps value
unfolding check_fields
check_fields-same f g end value same = refl
check_fields-same f g (field k p ps) value same =
    by_value f g p (find k value) (check_fields f ps value) (check_fields g ps value)
      (Agree-less f g (max_left (depth p) (fields_depth ps)) same)
      (check_fields-same f g ps value (Agree-less f g (max_right (depth p) (fields_depth ps)) same))

check_elements-same :
    (f g : Check) (xs : Items) (item : Fields)
    → Agree (suc (fields_depth item)) f g
    → check_elements f xs (obj item) ≡ check_elements g xs (obj item)
unfolding check_elements
check_elements-same f g nil item same = refl
check_elements-same f g (cons x xs) item same =
    rw (same x item (omega arith), check_elements-same f g xs item same) refl

-- What a value of `properties` holds.
abbrev inner : Json → ℕ
inner (obj fs) = fields_depth fs
inner _ = 0

inner-depth : (v : Json) → inner v ≤ depth v
inner-depth (obj fs) = omega arith
inner-depth v = omega arith

inner_get : (k : String) (fs : Fields) → inner (get_or (obj end) k fs) ≤ fields_depth fs
inner_get k end = omega arith
inner_get k (field j v fs) = ground (
  arith,
  inner-depth v,
  inner_get k fs,
  max_left (depth v) (fields_depth fs),
  max_right (depth v) (fields_depth fs),
)

inner_properties : (v : Json) (ps : Fields) → as_properties v ≡ ok ps → fields_depth ps ≤ inner v
inner_properties (obj fs) ps h = ground (arith, ap fields_depth {x = fs} {y = ps})
inner_properties v ps h = cc

check_object-same :
    (f g : Check) (schema value : Fields)
    → Agree (fields_depth schema) f g
    → check_object f schema value ≡ check_object g schema value
unfolding check_object
check_object-same f g schema value same = bind_same (properties_of schema) _ _ (λ ps h.
    bind_same (required_of schema) _ _ (λ ns _.
      bind_same (refuse (not (all (λ n. contains n (keys value)) ns)) "missing required keys") _ _
        (λ _ _.
          bind_same
            (refuse (is_closed schema && not (all (λ k. contains k (keys ps)) (keys value)))
              "additional properties are forbidden")
            _ _
            (λ _ _. check_fields-same f g ps value (
              Agree-less f g
                (omega (
                  arith,
                  inner_properties (get_or (obj end) "properties" schema) ps h,
                  inner_get "properties" schema,
                ))
                same)))))

check_each-same :
    (f g : Check) (xs : Items) (item : Json)
    → Agree (depth item) f g
    → check_each f xs item ≡ check_each g xs item
unfolding check_each
check_each-same f g xs (obj item) same = check_elements-same f g xs item same
check_each-same f g xs item same = refl

check_array-same :
    (f g : Check) (schema : Fields) (xs : Items)
    → Agree (fields_depth schema) f g
    → check_array f schema xs ≡ check_array g schema xs
unfolding check_array
check_array-same f g schema xs same =
    rw
      (check_each-same f g xs (get "items" schema) (Agree-less f g (depth-get "items" schema) same))
      refl

check_parts-same :
    (f g : Check) (value : Json) (schema : Fields)
    → Agree (fields_depth schema) f g
    → check_parts f value schema ≡ check_parts g value schema
unfolding check_parts
check_parts-same f g (obj fs) schema same = check_object-same f g schema fs same
check_parts-same f g (arr xs) schema same = check_array-same f g schema xs same
check_parts-same f g value schema same = refl

check_value-same :
    (f g : Check) (value : Json) (schema : Fields)
    → Agree (fields_depth schema) f g
    → check_value f value schema ≡ check_value g value schema
unfolding check_value
check_value-same f g value schema same = rw (check_parts-same f g value schema same) refl

validate_part_fuel :
    (m n : ℕ) (value : Json) (schema : Fields)
    → depth (obj schema) ≤ m
    → depth (obj schema) ≤ n
    → validate_part m value (obj schema) ≡ validate_part n value (obj schema)
unfolding validate_part
validate_part_fuel zero n value schema p q = absurd (omega (arith, p))
validate_part_fuel (suc m) zero value schema p q = absurd (omega (arith, q))
validate_part_fuel (suc m) (suc n) value schema p q =
    check_value-same (validate_part m) (validate_part n) value schema
      (λ v fs d. validate_part_fuel m n v fs (omega (arith, d, p)) (omega (arith, d, q)))

-- Any fuel from the depth of the schema on gives the result of the validation of a value.
validate_json_schema_fuel :
    (m n : ℕ) (value : Json) (schema : Fields)
    → depth (obj schema) ≤ m
    → depth (obj schema) ≤ n
    → validate_json_schema value (obj schema)
      ≡ (validate_schema_definition m (obj schema) >> validate_part n value (obj schema))
unfolding validate_json_schema
validate_json_schema_fuel m n value schema p q =
    rw
      (
        validate_schema_definition_fuel (depth (obj schema)) m schema (omega arith) p,
        validate_part_fuel (depth (obj schema)) n value schema (omega arith) q,
      )
      refl
