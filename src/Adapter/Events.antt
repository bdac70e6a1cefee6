-- ===== src/Adapter/Events.antt =====
-- agent_harness/adapter.py, `_parse_event_stream`: the lines of a captured stream.
use mathlib.Core.Path.{subst}
use dispatcher_for_codex_age.Prelude.{
  ℕ, suc, ◌≤◌, String, ◌≡◌, refl, Bool, true, false, not, ◌&&◌, Option, none, some, List, [], ◌∷◌,
  ◌++◌, filter, contains, length, ltb, ◌==◌, nat_eq, string_eq, if◌then◌else◌, arith,
}
use dispatcher_for_codex_age.Prelude.Int.{ℤ}
use dispatcher_for_codex_age.Prelude.Result.{Result, ok, ◌>>=◌, >>=-eq-ok}
use dispatcher_for_codex_age.Prelude.Sort.{sort}
use dispatcher_for_codex_age.Prelude.Text.{text_leb}
use dispatcher_for_codex_age.Json.{Json, Fields, str, int, obj, end, field, get, str_is}
use dispatcher_for_codex_age.Adapter.{Python, policy_violations}

pub data ParseError : Type 0 where
  invalid_line : ℕ → String → ParseError
  multiple_completions completion_not_last : ParseError
  invalid_encoding invalid_lifecycle : ParseError  -- of `evaluate_capture`

-- `_ParsedEvents`
pub record ParsedEvents : Type 0 where
  pub events : List Fields
  pub valid_jsonl : Bool
  pub parse_error : Option ParseError
  pub turn_completed_count : ℕ
  pub terminal_is_last : Bool
  pub final_text : Option String
  pub usage : List (String × ℤ)
  pub served_models : List String
  pub policy_violations : List String

-- The events up to a line that ends the loop, and why it ends.
abbrev pub Reading : Type 0
Reading = List Fields × Option ParseError

-- A line that was loaded, before the rest: `none` for a JSONDecodeError.
abbrev pub read_one : Python → ℕ → Result Reading → Option Json → Result Reading
read_one py n rest none = ok ([], some (invalid_line n "JSONDecodeError"))
read_one py n rest (some (obj event)) =
    if py.encodable (obj event)
    then (rest >>= λ more. ok (event ∷ more.0, more.1))
    else ok ([], some (invalid_line n "invalid Unicode scalar in JSONL event"))
read_one py n rest (some _) = ok ([], some (invalid_line n "JSONL event must be an object"))

-- The loop over the lines, from a line's number on. Another exception than JSONDecodeError leaves it.
unfoldable pub read_lines : Python → ℕ → List String → Result Reading
read_lines py n [] = ok ([], none)
read_lines py n (line ∷ lines) =
    let rest = read_lines py (suc n) lines in
    if py.strip line == "" then rest else (py.loads line >>= read_one py n rest)

abbrev pub is_completion : Fields → Bool
is_completion event = str_is "turn.completed" (get "type" event)

abbrev pub last_event : List Fields → Option Fields
last_event [] = none
last_event (e ∷ es) = elim (last_event es) [ none ↦ some e | some l ↦ some l ]

abbrev pub ends_in_completion : List Fields → Bool
ends_in_completion events = elim (last_event events) [ none ↦ false | some e ↦ is_completion e ]

-- The text of a completed agent message.
abbrev pub message_text : Fields → Option String
message_text event =
    if str_is "item.completed" (get "type" event)
    then elim (get "item" event) [
      | obj item ↦
          if str_is "agent_message" (get "type" item)
          then elim (get "text" item) [ str t ↦ some t | _ ↦ none ]
          else none
      | _ ↦ none
    ]
    else none

-- `final_text`: the last one counts.
unfoldable pub final_text_of : List Fields → Option String
final_text_of [] = none
final_text_of (e ∷ es) = elim (final_text_of es) [ none ↦ message_text e | some t ↦ some t ]

abbrev model_at : Python → Fields → String → List String
model_at py source key = elim (get key source) [
  | str value ↦ if py.strip value == "" then [] else py.strip value ∷ []
  | _ ↦ []
]

abbrev models_in : Python → Json → List String
models_in py (obj source) =
    model_at py source "provider_model"
    ++ model_at py source "provider_reported_served_model"
    ++ model_at py source "served_model"
models_in py _ = []

-- `_extract_served_models`
unfoldable pub extract_served_models : Python → Fields → List String
extract_served_models py event = models_in py (obj event) ++ models_in py (get "metadata" event)

abbrev distinct : List String → List String
distinct [] = []
distinct (x ∷ xs) = let rest = distinct xs in if contains x rest then rest else x ∷ rest

abbrev all_models : Python → List Fields → List String
all_models py [] = []
all_models py (e ∷ es) = extract_served_models py e ++ all_models py es

abbrev pub all_violations : Python → List String → List Fields → List String
all_violations py tools [] = []
all_violations py tools (e ∷ es) = policy_violations py tools e ++ all_violations py tools es

-- The integers of a dict; `bool` is left out.
abbrev integers : Fields → List (String × ℤ)
integers end = []
integers (field k v fs) = let rest = integers fs in elim v [ int n ↦ (k, n) ∷ rest | _ ↦ rest ]

abbrev usage_of : List Fields → List (String × ℤ)
usage_of completed = elim (last_event completed) [
  | none ↦ []
  | some e ↦ elim (get "usage" e) [ obj usage ↦ integers usage | _ ↦ [] ]
]

abbrev pub is_missing_error : Option ParseError → Bool
is_missing_error none = true
is_missing_error (some e) = false

-- What is made of the events, and of the error that ended the loop.
unfoldable pub parsed_of : Python → List String → List Fields → Option ParseError → ParsedEvents
unfolding extract_served_models final_text_of
parsed_of py tools events parse_error =
    let completed = filter is_completion events in
    let many = ltb 1 (length completed) in
    let early = not (length completed == 0) && not (ends_in_completion events) in
    record {
      events = events;
      valid_jsonl =
          is_missing_error parse_error && not (length events == 0) && not many && not early;
      parse_error =
          if early
          then some completion_not_last
          else if many
          then some multiple_completions
          else parse_error;
      turn_completed_count = length completed;
      terminal_is_last = ends_in_completion events;
      final_text = final_text_of events;
      usage = usage_of completed;
      served_models = sort text_leb (distinct (all_models py events));
      policy_violations = all_violations py tools events;
    }

-- `_parse_event_stream`, of the lines of the capture.
unfoldable pub parse_event_stream : Python → List String → List String → Result ParsedEvents
unfolding read_lines parsed_of
parse_event_stream py tools lines = do
  read ← read_lines py 1 lines
  ok (parsed_of py tools read.0 read.1)

-- What the result needs of the completions of a valid stream.
abbrev pub IsParsed : ParsedEvents → Type 0
IsParsed p =
    p.valid_jsonl ≡ true
    → (p.turn_completed_count ≤ 1) × (p.turn_completed_count ≡ 1 → p.terminal_is_last ≡ true)

parsed_of-IsParsed :
    (py : Python) (tools : List String) (events : List Fields) (e : Option ParseError)
    → IsParsed (parsed_of py tools events e)
unfolding parsed_of
parsed_of-IsParsed py tools events e valid = (ground arith, λ one. ground arith)

module _ (py : Python) (tools lines : List String) (p : ParsedEvents)
    (parsed : parse_event_stream py tools lines ≡ ok p) where
  pub read_from :
      (events : List Fields) × (e : Option ParseError) × (read_lines py 1 lines ≡ ok (events, e))
      × (parsed_of py tools events e ≡ p)
  unfolding parse_event_stream
  read_from =
      let (read, q, same) = >>=-eq-ok (read_lines py 1 lines) _ parsed in (read.0, read.1, q, cc)

  pub parse_event_stream-IsParsed : IsParsed p
  parse_event_stream-IsParsed =
      let (events, e, q, same) = read_from in
      subst IsParsed same (parsed_of-IsParsed py tools events e)

  pub parse_event_stream-all_violations : p.policy_violations ≡ all_violations py tools p.events
  unfolding parsed_of
  parse_event_stream-all_violations =
      let (events, e, q, same) = read_from in
      subst (λ x. x.policy_violations ≡ all_violations py tools x.events) same refl

  pub parse_event_stream-final_text_of : p.final_text ≡ final_text_of p.events
  unfolding parsed_of
  parse_event_stream-final_text_of =
      let (events, e, q, same) = read_from in
      subst (λ x. x.final_text ≡ final_text_of x.events) same refl
