-- ===== src/Schema/Depth.antt =====
-- Fuel of the depth of a schema is enough: more fuel gives the same result.
use dispatcher_for_codex_age.Prelude.{
  ℕ, zero, suc, ◌≤◌, String, ◌≡◌, refl, ap, not, List, contains, leb, nat_eq, string_eq,
  if◌then◌else◌, arith,
}
use dispatcher_for_codex_age.Prelude.Result.{Result, ◌>>◌, refuse, bind_same}
use dispatcher_for_codex_age.Json.{Json, Fields, obj, end, field, get}
use dispatcher_for_codex_age.Schema.{
  each_property, check_properties, check_items, check_children, check_limits, types_of,
  check_definition, validate_schema_definition,
}

unfoldable pub max : ℕ → ℕ → ℕ
max a b = if leb a b then b else a

pub max_left : (a b : ℕ) → a ≤ max a b
unfolding max
max_left a b = ground arith

pub max_right : (a b : ℕ) → b ≤ max a b
unfolding max
max_right a b = ground arith

-- How deep objects are nested in objects.
abbrev mutual
  pub depth : Json → ℕ
  depth (obj fs) = suc (fields_depth fs)
  depth _ = 0

  pub fields_depth : Fields → ℕ
  fields_depth end = 0
  fields_depth (field k v fs) = max (depth v) (fields_depth fs)

pub depth-get : (k : String) (fs : Fields) → depth (get k fs) ≤ fields_depth fs
depth-get k end = omega arith
depth-get k (field j w fs) = ground (
  arith,
  depth-get k fs,
  max_left (depth w) (fields_depth fs),
  max_right (depth w) (fields_depth fs),
)

-- Two checks that agree on the objects that are not deeper than n.
abbrev Agree : ℕ → (Json → Result (Unit {0})) → (Json → Result (Unit {0})) → Type 0
Agree n f g = (fs : Fields) → suc (fields_depth fs) ≤ n → f (obj fs) ≡ g (obj fs)

Agree-less : {m n : ℕ} (f g : Json → Result (Unit {0})) → m ≤ n → Agree n f g → Agree m f g
Agree-less f g less same fs d = same fs (omega (arith, d, less))

each_property-same :
    (f g : Json → Result (Unit {0})) (fs : Fields)
    → Agree (fields_depth fs) f g
    → each_property f fs ≡ each_property g fs
unfolding each_property
each_property-same f g end same = refl
each_property-same f g (field k (obj ps) fs) same =
    rw
      (
        same ps (max_left (depth (obj ps)) (fields_depth fs)),
        each_property-same f g fs
            (Agree-less f g (max_right (depth (obj ps)) (fields_depth fs)) same),
      )
      refl
each_property-same f g (field k v fs) same = refl

check_properties-same :
    (f g : Json → Result (Unit {0})) (types : List String) (p : Json)
    → Agree (depth p) f g
    → check_properties f types p ≡ check_properties g types p
unfolding check_properties
check_properties-same f g types (obj fs) same =
    ap
      (λ m.
        refuse (not (contains "object" types))
          "properties requires object type and an object value."
        >> m)
      (each_property-same f g fs (Agree-less f g (omega arith) same))
check_properties-same f g types p same = refl

check_items-same :
    (f g : Json → Result (Unit {0})) (types : List String) (p : Json)
    → Agree (depth p) f g
    → check_items f types p ≡ check_items g types p
unfolding check_items
check_items-same f g types (obj fs) same = ground (arith, same fs (omega arith))
check_items-same f g types p same = refl

check_children-same :
    (f g : Json → Result (Unit {0})) (types : List String) (schema : Fields)
    → Agree (fields_depth schema) f g
    → check_children f types schema ≡ check_children g types schema
unfolding check_children
check_children-same f g types schema same =
    rw
      (
        check_properties-same f g types (get "properties" schema)
            (Agree-less f g (depth-get "properties" schema) same),
        check_items-same f g types (get "items" schema)
            (Agree-less f g (depth-get "items" schema) same),
      )
      refl

check_definition-same :
    (f g : Json → Result (Unit {0})) (schema : Fields)
    → Agree (fields_depth schema) f g
    → check_definition f schema ≡ check_definition g schema
unfolding check_definition
check_definition-same f g schema same =
    bind_same (types_of schema) _ _
      (λ types _. ap (λ m. m >> check_limits schema) (check_children-same f g types schema same))

-- The result for a schema does not depend on the fuel, once that is its depth.
pub validate_schema_definition_fuel :
    (m n : ℕ) (schema : Fields)
    → depth (obj schema) ≤ m
    → depth (obj schema) ≤ n
    → validate_schema_definition m (obj schema) ≡ validate_schema_definition n (obj schema)
unfolding validate_schema_definition
validate_schema_definition_fuel zero n schema p q = absurd (omega (arith, p))
validate_schema_definition_fuel (suc m) zero schema p q = absurd (omega (arith, q))
validate_schema_definition_fuel (suc m) (suc n) schema p q =
    check_definition-same (validate_schema_definition m) (validate_schema_definition n) schema
      (λ fs d. validate_schema_definition_fuel m n fs (omega (arith, d, p)) (omega (arith, d, q)))
