-- ===== src/Adapter/Stream.antt =====
-- Which streams `_parse_event_stream` reads as valid.
use mathlib.Core.Path.{subst}
use dispatcher_for_codex_age.Prelude.{
  ℕ, zero, suc, ◌+◌, ◌≤◌, String, ◌≡◌, ◌≢◌, refl, sym, ap, ◌∙◌, Bool, true, false, not, Option,
  none, some, List, [], ◌∷◌, ◌++◌, any, all, map, filter, length, ◌==◌, nat_eq, string_eq,
  if◌then◌else◌, arith, Bool-cases, inl, inr,
}
use dispatcher_for_codex_age.Prelude.Result.{Result, ok, >>=-eq-ok}
use dispatcher_for_codex_age.Json.{Json, Fields, obj}
use dispatcher_for_codex_age.Adapter.{Python}
use dispatcher_for_codex_age.Adapter.Events.{
  ParsedEvents, ParseError, Reading, read_one, read_lines, is_completion, last_event,
  ends_in_completion, parsed_of, parse_event_stream, read_from,
}

-- The lines that are not blank.
abbrev pub written : Python → List String → List String
written py lines = filter (λ l. not (py.strip l == "")) lines

-- Every line holds an event.
abbrev pub HoldsEvents : Python → List String → List Fields → Type 0
HoldsEvents py lines events =
    (map py.loads (written py lines) ≡ map (λ e. ok (some (obj e))) events)
    × (all (λ e. py.encodable (obj e)) events ≡ true)

one_event :
    (py : Python) (n : ℕ) (rest : Result Reading) (loaded : Option Json) (events : List Fields)
    → read_one py n rest loaded ≡ ok (events, none)
    → (event : Fields) × (more : List Fields) × (loaded ≡ some (obj event))
      × (py.encodable (obj event) ≡ true)
      × (rest ≡ ok (more, none))
      × (event ∷ more ≡ events)
one_event py n rest none events h = absurd (ground arith)
one_event py n rest (some (obj event)) events h = elim (Bool-cases (py.encodable (obj event))) [
  | inl fine ↦
      let (more, read, same) = >>=-eq-ok rest (λ m. ok (event ∷ m.0, m.1)) (rw fine at h) in
      (event, more.0, refl, fine, ground arith, ground arith)
  | inr bad ↦ absurd (ground arith)
]
one_event py n rest (some value) events h = absurd (ground arith)

lines_hold :
    (py : Python) (n : ℕ) (lines : List String) (events : List Fields)
    → read_lines py n lines ≡ ok (events, none)
    → HoldsEvents py lines events
unfolding read_lines
lines_hold py n [] events h = subst (HoldsEvents py []) {x = []} (ground arith) (refl, refl)
lines_hold py n (line ∷ lines) events h = elim (Bool-cases (py.strip line == "")) [
  | inl blank ↦ rw blank (lines_hold py (suc n) lines events (rw blank at h))
  | inr other ↦
      let (loaded, p, q) = >>=-eq-ok (py.loads line) _ (rw other at h) in
      let (event, more, shape, fine, read, same) =
        one_event py n (read_lines py (suc n) lines) loaded events q in
      let (held, encoded) = lines_hold py (suc n) lines more read in
      subst (HoldsEvents py (line ∷ lines)) same (rw other (cc (p, shape, held), ground arith))
]

-- A list that is not empty ends.
snoc :
    (e : Fields) (es : List Fields)
    → (front : List Fields) × (last : Fields) × (e ∷ es ≡ front ++ last ∷ [])
      × (last_event (e ∷ es) ≡ some last)
snoc e [] = ([], e, refl, refl)
snoc e (x ∷ es) =
    let (front, last, same, end) = snoc x es in (e ∷ front, last, ap (λ l. e ∷ l) same, rw end refl)

length-filter-append :
    (p : Fields → Bool) (xs ys : List Fields)
    → length (filter p (xs ++ ys)) ≡ length (filter p xs) + length (filter p ys)
length-filter-append p [] ys = omega arith
length-filter-append p (x ∷ xs) ys = ground (arith, length-filter-append p xs ys)

none_filtered : (p : Fields → Bool) (xs : List Fields) → length (filter p xs) ≡ 0 → any p xs ≡ false
none_filtered p [] h = refl
none_filtered p (x ∷ xs) h = ground (arith, none_filtered p xs)

-- A valid stream: every line that is not blank holds an event that can be encoded, there is one, and
-- no event but the last completes the turn; and what the record says of the completion.
pub record IsStream (py : Python) (lines : List String) (p : ParsedEvents) : Type 0 where
  pub held : HoldsEvents py lines p.events
  pub front : List Fields
  pub last : Fields
  pub ended : p.events ≡ front ++ last ∷ []
  pub early : any is_completion front ≡ false
  pub counted : p.turn_completed_count ≡ (if is_completion last then 1 else 0)
  pub terminal : p.terminal_is_last ≡ is_completion last

only_last :
    (last : Bool) (before total : ℕ)
    → total ≡ before + (if last then 1 else 0)
    → total ≤ 1
    → ((total == 0) ≡ false → last ≡ true)
    → before ≡ 0
only_last true before total sum few late = omega (arith, sum, few)
only_last false before zero sum few late = omega (arith, sum)
only_last false before (suc total) sum few late = absurd (ground (arith, late))

last_alone : (before k total : ℕ) → total ≡ before + k → before ≡ 0 → total ≡ k
last_alone before k total sum zero_before = omega (arith, sum, zero_before)

one_counted :
    (last : Fields)
    → length (filter is_completion (last ∷ [])) ≡ (if is_completion last then 1 else 0)
one_counted last = elim (Bool-cases (is_completion last)) [
  | inl ends ↦ rw ends refl
  | inr other ↦ rw other refl
]

module _ (py : Python) (tools lines : List String) where
  valid_parts :
      (events : List Fields) (e : Option ParseError)
      → (parsed_of py tools events e).valid_jsonl ≡ true
      → (e ≡ none)
        × (length events ≢ 0)
        × (length (filter is_completion events) ≤ 1)
        × ((length (filter is_completion events) == 0) ≡ false → ends_in_completion events ≡ true)
  unfolding parsed_of
  valid_parts events e valid = (ground arith, ground arith, ground arith, λ some_end. ground arith)

  ended_at :
      (events : List Fields) (last : Fields)
      → last_event events ≡ some last
      → ends_in_completion events ≡ is_completion last
  ended_at events last end = rw (ends_in_completion, end) refl

  parsed_of-IsStream :
      (events : List Fields) (e : Option ParseError)
      → (parsed_of py tools events e).valid_jsonl ≡ true
      → read_lines py 1 lines ≡ ok (events, e)
      → IsStream py lines (parsed_of py tools events e)
  unfolding parsed_of
  parsed_of-IsStream [] e valid read = absurd ((valid_parts [] e valid).1 refl)
  parsed_of-IsStream (x ∷ xs) e valid read =
      let (none_left, filled, few, late) = valid_parts (x ∷ xs) e valid in
      let (front, last, same, end) = snoc x xs in
      let terminal = ended_at (x ∷ xs) last end in
      let count =
        ap (λ l. length (filter is_completion l)) same
        ∙ length-filter-append is_completion front (last ∷ [])
        ∙ ap (λ k. length (filter is_completion front) + k) (one_counted last) in
      let before : length (filter is_completion front) ≡ 0 =
        only_last (is_completion last) _ _ count few (λ some_end. sym terminal ∙ late some_end) in
      record {
        held = lines_hold py 1 lines (x ∷ xs) (rw (← none_left) read);
        front = front;
        last = last;
        ended = same;
        early = none_filtered is_completion front before;
        counted = last_alone _ _ _ count before;
        terminal = terminal;
      }

-- Whatever the lines are, if a stream is read as valid, its events are what the lines that are not
-- blank hold, in order, and each can be encoded; there is an event; only the last one may be the
-- completion of a turn; and the count and the flag of the record say whether it is.
pub parse_event_stream-IsStream :
    (py : Python) (tools lines : List String) (p : ParsedEvents)
    → parse_event_stream py tools lines ≡ ok p
    → p.valid_jsonl ≡ true
    → IsStream py lines p
parse_event_stream-IsStream py tools lines p parsed valid =
    let (events, e, q, same) = read_from py tools lines p parsed in
    subst (IsStream py lines) same
      (parsed_of-IsStream py tools lines events e (ap (λ x. x.valid_jsonl) same ∙ valid) q)
