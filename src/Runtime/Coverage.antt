-- ===== src/Runtime/Coverage.antt =====
-- agent_harness/runtime_contract.py, `validate_coverage`: each record of a batch stands in an output
-- exactly once.
pub mod ExactOnce
use Prim.Native.String.{String}
use dispatcher_for_codex_age.Prelude.{
  ℕ, Bool, true, false, not, ◌&&◌, ◌||◌, Option, none, some, List, [], ◌∷◌, ◌++◌, length, any, all,
  filter, map, contains, count, ◌==◌, nat_eq, string_eq, if◌then◌else◌,
}
use dispatcher_for_codex_age.Prelude.Result.{Result, ok, err, refuse, ◌>>=◌, ◌>>◌}
use dispatcher_for_codex_age.Json.{
  Json, Items, Fields, null, bool, int, float, str, arr, obj, elements, keys, find, get,
}

-- `tuple(text)`
abbrev characters : String → List Json
characters String.[] = []
characters (String.◌∷◌ c s) = str (String.◌∷◌ c String.[]) ∷ characters s

-- `tuple(value)`, or `none` where it raises TypeError.
unfoldable pub tuple_of : Json → Option (List Json)
tuple_of (arr xs) = some (elements xs)
tuple_of (obj fs) = some (map str (keys fs))
tuple_of (str s) = some (characters s)
tuple_of _ = none

-- `value[key]`, or `none` where it raises KeyError or TypeError.
abbrev index : String → Option Json → Option Json
index key (some (obj fs)) = find key fs
index key _ = none

-- `record_ids`, where the caller gives none.
unfoldable pub record_ids_of : Json → Option (List Json)
unfolding tuple_of
record_ids_of schema =
    elim (index "enum" (
      index "record_id" (
        index "properties" (index "items" (index "results" (index "properties" (some schema))))))) [
          | none ↦ none
          | some value ↦ tuple_of value
        ]

-- `row.get("record_id")` of the rows that are objects and have a text there.
unfoldable pub observed_ids : List Json → List String
observed_ids [] = []
observed_ids (row ∷ rows) =
    let rest = observed_ids rows in
    elim row [ obj fs ↦ elim (get "record_id" fs) [ str id ↦ id ∷ rest | _ ↦ rest ] | _ ↦ rest ]

abbrev pub is_unhashable : Json → Bool
is_unhashable (arr xs) = true
is_unhashable (obj fs) = true
is_unhashable _ = false

-- `set(record_ids) - set(observed)`, in the order of `record_ids`.
abbrev pub is_missing : List String → Json → Bool
is_missing observed (str id) = not (contains id observed)
is_missing observed _ = true

-- `sorted` orders texts among themselves, and numbers, but not one with the other.
abbrev pub is_text : Json → Bool
is_text (str id) = true
is_text _ = false

abbrev pub is_none : Json → Bool
is_none null = true
is_none _ = false

abbrev pub is_mixed : List Json → Bool
is_mixed missing =
    any is_text missing && any (λ m. not (is_text m)) missing
    || any is_none missing && any (λ m. not (is_none m)) missing

-- `set(observed) - set(record_ids)`
abbrev pub is_expected : List Json → String → Bool
is_expected ids id = any (λ j. elim j [ str s ↦ id == s | _ ↦ false ]) ids

-- `validate_coverage`, for given record ids.
unfoldable pub validate_coverage : List Json → Json → Result String
unfolding observed_ids
validate_coverage ids output = do
  results ← elim output [
    | obj fs ↦ elim (get "results" fs) [
      | arr xs ↦ ok (elements xs)
      | _ ↦ err "results is not an array"
    ]
    | _ ↦ err "results is not an array"
  ]
  refuse (any is_unhashable ids || is_mixed (filter (is_missing (observed_ids results)) ids))
      "TypeError"
  refuse
      (not (length (observed_ids results) == length ids)
        || any (is_missing (observed_ids results)) ids
        || not (all (is_expected ids) (observed_ids results))
        || not (all (λ k. count k (observed_ids results) == 1) (observed_ids results)))
      "COVERAGE_INVALID"
  ok "PASS"

-- `validate_coverage` with the record ids of the schema.
unfoldable pub schema_coverage : Json → Json → Result String
unfolding record_ids_of validate_coverage
schema_coverage schema output = elim (record_ids_of schema) [
  | none ↦ ok "NOT_APPLICABLE"
  | some ids ↦ validate_coverage ids output
]
