-- ===== src/Runtime/Output.antt =====
-- agent_harness/runtime_contract.py, `normalize_output`: an output is validated as it is, or without
-- one fence around it. `decode` is `json.loads(raw.decode("utf-8"))`, with no value where it raises
-- ValueError, `encodable` says whether `json.dumps(value, ensure_ascii=False)` encodes, and
-- `replaced` is `raw.decode("utf-8", errors="replace")`. A RecursionError of Python's library, which
-- would leave the function, is not modelled.
pub mod Fence
use dispatcher_for_codex_age.Prelude.{
  ℕ, zero, suc, ◌+◌, ◌-◌, String, Bool, true, false, not, ◌&&◌, ◌||◌, Option, none, some, List, [],
  ◌∷◌, ◌++◌, length, leb, ◌==◌, nat_eq, list_eq, string_eq, if◌then◌else◌,
}
use dispatcher_for_codex_age.Prelude.Result.{Result, ok, err}
use dispatcher_for_codex_age.Json.{Json, str}
use dispatcher_for_codex_age.Host.{Bytes}
use dispatcher_for_codex_age.Schema.Check.{validate_json_schema}

-- `JSON_WHITESPACE`
unfoldable pub is_space : ℕ → Bool
is_space c = c == 32 || c == 9 || c == 13 || c == 10

-- `raw.lstrip(JSON_WHITESPACE)`
unfoldable pub lstrip : Bytes → Bytes
unfolding is_space
lstrip [] = []
lstrip (c ∷ raw) = let rest = lstrip raw in if is_space c then rest else c ∷ raw

-- `raw.rstrip(JSON_WHITESPACE)`
unfoldable pub rstrip : Bytes → Bytes
unfolding is_space
rstrip [] = []
rstrip (c ∷ raw) = let rest = rstrip raw in if length rest == 0 && is_space c then [] else c ∷ rest

unfoldable pub take : ℕ → Bytes → Bytes
take zero raw = []
take (suc n) [] = []
take (suc n) (c ∷ raw) = c ∷ take n raw

unfoldable pub drop : ℕ → Bytes → Bytes
drop zero raw = raw
drop (suc n) [] = []
drop (suc n) (c ∷ raw) = drop n raw

-- `raw[a:b]`
abbrev pub slice : ℕ → ℕ → Bytes → Bytes
slice a b raw = take (b - a) (drop a raw)

-- b"```json\n" and b"```"
abbrev pub opening : Bytes
opening = 96 ∷ 96 ∷ 96 ∷ 106 ∷ 115 ∷ 111 ∷ 110 ∷ 10 ∷ []

abbrev pub closing : Bytes
closing = 96 ∷ 96 ∷ 96 ∷ []

abbrev pub start_of : Bytes → ℕ
start_of raw = length raw - length (lstrip raw)

abbrev pub end_of : Bytes → ℕ
end_of raw = length (rstrip raw)

-- The test for a fence. A `close` before the start of the text is 0 here and negative there; both
-- fail `close >= start + 8`.
unfoldable pub is_fenced : Bytes → Bool
unfolding lstrip rstrip take drop
is_fenced raw =
    let start = start_of raw in
    let close = end_of raw - 3 in
    slice start (start + 8) raw == opening
    && leb (start + 8) close
    && slice close (end_of raw) raw == closing
    && slice (close - 1) close raw == 10 ∷ []

-- `candidate`: the text without the two tokens.
unfoldable pub unfenced : Bytes → Bytes
unfolding lstrip rstrip take drop
unfenced raw =
    let start = start_of raw in
    let close = end_of raw - 3 in
    take start raw ++ slice (start + 8) close raw ++ drop (end_of raw) raw

-- `selected`, by whether the contract allows a fence.
unfoldable pub selected : (Bytes → Option Json) → Bool → Bytes → Bytes
unfolding is_fenced unfenced
selected decode fence_allowed raw = elim (decode raw) [
  | some value ↦ raw
  | none ↦
      if fence_allowed && is_fenced raw
      then elim (decode (unfenced raw)) [ some value ↦ unfenced raw | none ↦ raw ]
      else raw
]

-- Why an output failed.
pub data Failure : Type 0 where
  undecodable refused unencodable : Failure

pub record NormalizedOutput : Type 0 where
  pub value : Json
  pub validator_bytes : Bytes
  pub error : Option Failure  -- `schema_status` is PASS where there is none

-- `normalize_output`; a TypeError of the schema is not caught.
unfoldable pub normalize_output :
    (Bytes → Option Json)
    → (Json → Bool)
    → (Bytes → String)
    → Bytes
    → Json
    → Bool
    → Result NormalizedOutput
unfolding selected
normalize_output decode encodable replaced raw schema fence_allowed =
    let chosen = selected decode fence_allowed raw in
    elim (decode chosen) [
      | none ↦ ok (record {
        value = str (replaced raw);
        validator_bytes = chosen;
        error = some undecodable;
      })
      | some value ↦ elim (validate_json_schema value schema) [
        | err e ↦
            if e == "TypeError"
            then err e
            else ok (record { value = value; validator_bytes = chosen; error = some refused })
        | ok t ↦
            if encodable value
            then ok (record { value = value; validator_bytes = chosen; error = none })
            else ok (record {
              value = str (replaced raw);
              validator_bytes = chosen;
              error = some unencodable;
            })
      ]
    ]
