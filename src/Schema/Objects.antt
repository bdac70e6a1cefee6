-- ===== src/Schema/Objects.antt =====
-- What a schema promises of an object that it accepts.
use dispatcher_for_codex_age.Prelude.{
  String, ◌≡◌, refl, sym, Bool, true, false, not, ◌&&◌, Option, none, some, List, contains, all,
  ◌==◌, ==_iff, nat_eq, string_eq, Bool-cases, inl, inr,
}
use dispatcher_for_codex_age.Prelude.Result.{Result, ok, err, ◌>>◌, refuse}
use dispatcher_for_codex_age.Json.{Json, Fields, obj, end, field, find, get, is_obj, keys}
use dispatcher_for_codex_age.Schema.{supported_keywords, validate_schema_definition}
use dispatcher_for_codex_age.Schema.Values.{
  check_fields, check_object, check_parts, check_type, check_choice, check_value, validate_part,
  properties_of, required_of, is_closed,
}
use dispatcher_for_codex_age.Schema.Depth.{depth, fields_depth}
use dispatcher_for_codex_age.Schema.Check.{validate_json_schema}

abbrev Check : Type 0
Check = Json → Json → Result (Unit {0})

then_ok : (m k : Result (Unit {0})) → (m >> k) ≡ ok tt → (m ≡ ok tt) × (k ≡ ok tt)
then_ok (ok tt) k h = (refl, h)
then_ok (err e) k h = cc

unrefused : (b : Bool) (e : String) → refuse b e ≡ ok tt → b ≡ false
unrefused false e h = refl
unrefused true e h = cc

not-false : (b : Bool) → not b ≡ false → b ≡ true
not-false true h = refl
not-false false h = cc

second_false : (a b : Bool) → (a && not b) ≡ false → a ≡ true → b ≡ true
second_false true b h p = not-false b h
second_false false b h p = cc

some_same : (v w : Json) → some v ≡ some w → v ≡ w
some_same v w p = cc

-- The first property, and the rest.
head_checked :
    (check : Check) (c : Json) (o : Option Json) (rest : Result (Unit {0}))
    → Path
        (Result (Unit {0}))
        (elim o [
          | none ↦ rest
          | some v ↦
              refuse (not (is_obj c)) "property schema must be an object." >> check v c >> rest
        ])
        (ok tt)
    → (rest ≡ ok tt) × ((v : Json) → o ≡ some v → check v c ≡ ok tt)
head_checked check c none rest h = (h, λ v p. cc)
head_checked check c (some w) rest h =
    let allowed = refuse (not (is_obj c)) "property schema must be an object." in
    let (first, last) = then_ok (allowed >> check w c) rest h in
    (last, λ v p. rw (some_same w v p) at ((then_ok allowed (check w c) first).1))

-- Each value under a name of `properties` was checked.
checked :
    (check : Check) (ps value : Fields) (k : String) (child v : Json)
    → check_fields check ps value ≡ ok tt
    → find k ps ≡ some child
    → find k value ≡ some v
    → check v child ≡ ok tt
unfolding check_fields
checked check end value k child v h p q = cc
checked check (field j c ps) value k child v h p q =
    let (rest, first) = head_checked check c (find j value) (check_fields check ps value) h in
    elim (Bool-cases (k == j)) [
      | inl hit ↦
          let same : c ≡ child = some_same c child (rw hit at p) in
          rw (sym same) (first v (rw ((==_iff k j).0 hit) at q))
      | inr miss ↦ checked check ps value k child v rest (rw miss at p) q
    ]

object_parts :
    (check : Check) (schema value : Fields) {ps : Fields} {ns : List String}
    → check_object check schema value ≡ ok tt
    → properties_of schema ≡ ok ps
    → required_of schema ≡ ok ns
    → (all (λ n. contains n (keys value)) ns ≡ true)
      × ((is_closed schema && not (all (λ k. contains k (keys ps)) (keys value))) ≡ false)
      × (check_fields check ps value ≡ ok tt)
unfolding check_object
object_parts check schema value h p q =
    let (present, later) = then_ok _ _ (rw (p, q) at h) in
    let (known, last) = then_ok _ _ later in
    (not-false _ (unrefused _ _ present), unrefused _ _ known, last)

-- If an object is accepted by a schema, it has every required name; where additional properties are
-- forbidden, each of its names is one of `properties`; and the first value under a name of
-- `properties` is accepted by the schema there.
pub accepted_object :
    (value schema ps : Fields) (ns : List String)
    → validate_json_schema (obj value) (obj schema) ≡ ok tt
    → properties_of schema ≡ ok ps
    → required_of schema ≡ ok ns
    → (all (λ n. contains n (keys value)) ns ≡ true)
      × (is_closed schema ≡ true → all (λ k. contains k (keys ps)) (keys value) ≡ true)
      × ((k : String) (child v : Json)
          → find k ps ≡ some child
          → find k value ≡ some v
          → validate_part (fields_depth schema) v child ≡ ok tt)
unfolding validate_json_schema validate_part check_value check_parts
accepted_object value schema ps ns h p q =
    let known =
      refuse (not (all (λ k. contains k supported_keywords) (keys schema)))
        "unsupported schema keyword(s)" in
    let part = (then_ok (validate_schema_definition (depth (obj schema)) (obj schema)) _ h).1 in
    let chosen = (then_ok known _ part).1 in
    let typed = (then_ok (check_choice (obj value) schema) _ chosen).1 in
    let tests = (then_ok (check_type (obj value) (get "type" schema)) _ typed).1 in
    let parts = object_parts (validate_part (fields_depth schema)) schema value tests p q in
    (
      parts.0,
      λ closed. second_false _ _ parts.1 closed,
      λ k child v c w. checked (validate_part (fields_depth schema)) ps value k child v parts.2 c w,
    )
