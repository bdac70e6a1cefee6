-- ===== src/Bridge/Controller/Limits.antt =====
-- The jobs are started at most once, and the results are read at most once.
use dispatcher_for_codex_age.Prelude.{
  suc, ◌≤◌, String, ◌≡◌, refl, ◌∙◌, Bool, true, false, Option, some, List, [], ◌∷◌, arith, nat_eq,
  string_eq,
}
use dispatcher_for_codex_age.Prelude.Result.{Result, ok, err, ◌>>◌}
use dispatcher_for_codex_age.Json.{Json, Fields, null}
use dispatcher_for_codex_age.Host.{Host}
use dispatcher_for_codex_age.Bridge.Controller.{
  Spec, Controller, Moment, guard, check_tool, answer, run_tool, after_checks, tool,
}
use dispatcher_for_codex_age.Bridge.Controller.Turn.{
  Arrival, Progress, goes, returns, raises, complete, on_item, on_turn, turn_of, method_of,
  on_event, on_method, check_message, after_message, on_message, messages, run_turn,
}

abbrev Same : Controller → Controller → Type 0
Same c c' = (c'.launches ≡ c.launches) × (c'.result_reads ≡ c.result_reads)

-- What a part of a turn does to the two counters; `k` tells a continuation from the first turn.
abbrev Counts : Bool → Controller → Controller → Type 0
Counts k c c' =
    (c.launches ≤ 1 → c'.launches ≤ 1)
    × (c.result_reads ≤ 1 → c'.result_reads ≤ 1)
    × (k ≡ true → c'.launches ≡ c.launches)
    × (k ≡ false → c'.result_reads ≡ c.result_reads)

Same-Counts : (k : Bool) (c c' : Controller) → Same c c' → Counts k c c'
Same-Counts k c c' (l, r) = (λ h. rw l h, λ h. rw r h, λ _. l, λ _. r)

Counts-trans : (k : Bool) (c d e : Controller) → Counts k c d → Counts k d e → Counts k c e
Counts-trans k c d e (a, b, p, q) (a', b', p', q') =
    (λ h. a' (a h), λ h. b' (b h), λ h. p' h ∙ p h, λ h. q' h ∙ q h)

answer-Same : (r : Option String) (m : Fields) (c : Controller) → Same c (answer r m c).1
unfolding answer
answer-Same r m c = ground arith

run_tool-Counts :
    (h : Host) (k : Bool) (r : Option String) (m : Fields) (name : Json) (c : Controller)
    → Counts k c (run_tool h k r m name c).1
unfolding run_tool
run_tool-Counts h k r m name c =
    let started = answer-Same r m (record c { launches = suc c.launches }) in
    let reading = answer-Same r m (record c { result_reads = suc c.result_reads }) in
    (
      λ x. ground (arith, started, reading),
      λ x. ground (arith, started, reading),
      λ x. ground (arith, started, reading),
      λ x. ground (arith, started, reading),
    )

after_checks-Counts :
    (h : Host) (k : Bool) (r : Option String) (f : Fields) (c : Controller) (o : Result Json)
    → Counts k c (after_checks h k r f c o).1
unfolding after_checks
after_checks-Counts h k r f c (err e) = Same-Counts k c c (refl, refl)
after_checks-Counts h k r f c (ok name) = run_tool-Counts h k r f name c

tool-Counts :
    (h : Host) (spec : Spec) (k : Bool) (m : Moment) (r : Option String) (f : Fields)
    (c : Controller)
    → Counts k c (tool h spec k m r f c).1
unfolding tool
tool-Counts h spec k m r f c = after_checks-Counts h k r f c (guard spec m c >> check_tool c f)

controller_of : Progress → Controller
controller_of (goes c final) = c
controller_of (returns c text) = c
controller_of (raises c e) = c

complete-Same :
    (h : Host) (turn_id : String) (turn : Fields) (c : Controller) (final : Json)
    → Same c (controller_of (complete h turn_id turn c final))
unfolding complete controller_of
complete-Same h turn_id turn c final = ground arith

on_item-Same :
    (method : Json) (params : Fields) (c : Controller) (final : Json)
    → Same c (controller_of (on_item method params c final))
unfolding on_item controller_of
on_item-Same method params c final = ground arith

on_turn-Same :
    (h : Host) (turn_id : String) (c : Controller) (final : Json) (o : Result (Json × Fields))
    → Same c (controller_of (on_turn h turn_id c final o))
unfolding on_turn controller_of
on_turn-Same h turn_id c final (err e) = (refl, refl)
on_turn-Same h turn_id c final (ok (id, turn)) =
    ground (arith, complete-Same h turn_id turn c final)

on_event-Same :
    (h : Host) (turn_id : String) (method : Json) (params : Fields) (c : Controller) (final : Json)
    → Same c (controller_of (on_event h turn_id method params c final))
unfolding on_event controller_of
on_event-Same h turn_id method params c final =
    ground
      (arith, on_item-Same method params c final, on_turn-Same h turn_id c final (turn_of params))

on_method-Counts :
    (h : Host) (spec : Spec) (k : Bool) (turn_id : String) (a : Arrival) (params : Fields)
    (c : Controller) (final : Json)
    → Counts k c (controller_of (on_method h spec k turn_id a params c final))
unfolding on_method controller_of
on_method-Counts h spec k turn_id a params c final =
    let called = tool-Counts h spec k a.called a.responded a.message c in
    let handled = on_event-Same h turn_id (method_of a.message) params c final in
    (
      λ x. ground (arith, called.0, handled),
      λ x. ground (arith, called.1, handled),
      λ x. ground (arith, called.2, handled),
      λ x. ground (arith, called.3, handled),
    )

after_message-Counts :
    (h : Host) (spec : Spec) (k : Bool) (turn_id : String) (a : Arrival) (c : Controller)
    (final : Json) (o : Result Fields)
    → Counts k c (controller_of (after_message h spec k turn_id a c final o))
unfolding after_message controller_of
after_message-Counts h spec k turn_id a c final (err e) = Same-Counts k c c (refl, refl)
after_message-Counts h spec k turn_id a c final (ok params) =
    on_method-Counts h spec k turn_id a params c final

-- The loop after one message.
abbrev continued :
    Host → Spec → Bool → String → String → List Arrival → Progress → Result String × Controller
continued h spec k turn_id last arrivals (goes c final) =
    messages h spec k turn_id last arrivals c final
continued h spec k turn_id last arrivals (returns c text) = (ok text, c)
continued h spec k turn_id last arrivals (raises c e) = (err e, c)

messages-continued :
    (h : Host) (spec : Spec) (k : Bool) (turn_id last : String) (a : Arrival)
    (arrivals : List Arrival) (c : Controller) (final : Json)
    → messages h spec k turn_id last (a ∷ arrivals) c final
      ≡ continued h spec k turn_id last arrivals (on_message h spec k turn_id a c final)
unfolding messages
messages-continued h spec k turn_id last a arrivals c final = ground arith

on_message-Counts :
    (h : Host) (spec : Spec) (k : Bool) (turn_id : String) (a : Arrival) (c : Controller)
    (final : Json)
    → Counts k c (controller_of (on_message h spec k turn_id a c final))
unfolding on_message
on_message-Counts h spec k turn_id a c final =
    after_message-Counts h spec k turn_id a c final (check_message spec a c)

messages-nil :
    (h : Host) (spec : Spec) (k : Bool) (turn_id last : String) (c : Controller) (final : Json)
    → messages h spec k turn_id last [] c final ≡ (err last, c)
unfolding messages
messages-nil h spec k turn_id last c final = refl

continued-Counts :
    (h : Host) (spec : Spec) (k : Bool) (turn_id last : String) (arrivals : List Arrival)
    (p : Progress)
    → ((d : Controller) (f : Json) → Counts k d (messages h spec k turn_id last arrivals d f).1)
    → Counts k (controller_of p) (continued h spec k turn_id last arrivals p).1
unfolding controller_of
continued-Counts h spec k turn_id last arrivals (goes d f) rest = rest d f
continued-Counts h spec k turn_id last arrivals (returns d text) rest =
    Same-Counts k d d (refl, refl)
continued-Counts h spec k turn_id last arrivals (raises d e) rest = Same-Counts k d d (refl, refl)

messages-Counts :
    (h : Host) (spec : Spec) (k : Bool) (turn_id last : String) (arrivals : List Arrival)
    (c : Controller) (final : Json)
    → Counts k c (messages h spec k turn_id last arrivals c final).1
messages-Counts h spec k turn_id last [] c final =
    rw (messages-nil h spec k turn_id last c final) (Same-Counts k c c (refl, refl))
messages-Counts h spec k turn_id last (a ∷ arrivals) c final =
    Counts-trans k c (controller_of (on_message h spec k turn_id a c final))
      (messages h spec k turn_id last (a ∷ arrivals) c final).1
      (on_message-Counts h spec k turn_id a c final)
      (rw (messages-continued h spec k turn_id last a arrivals c final) (
        continued-Counts h spec k turn_id last arrivals (on_message h spec k turn_id a c final)
          (λ d f. messages-Counts h spec k turn_id last arrivals d f)))

-- One turn of the controller: whether it continues a delivery, its id, what ends the messages, and
-- the messages.
pub record Run : Type 0 where
  pub continuation : Bool
  pub turn_id : String
  pub last : String
  pub arrivals : List Arrival

abbrev pub run_turns : Host → Spec → List Run → Controller → Controller
run_turns h spec [] c = c
run_turns h spec (r ∷ runs) c =
    run_turns h spec runs (run_turn h spec r.continuation r.turn_id r.last r.arrivals c).1

run_turn-Counts :
    (h : Host) (spec : Spec) (r : Run) (c : Controller)
    → Counts r.continuation c (run_turn h spec r.continuation r.turn_id r.last r.arrivals c).1
unfolding run_turn
run_turn-Counts h spec r c =
    messages-Counts h spec r.continuation r.turn_id r.last r.arrivals
      (record c { active_turn = some r.turn_id }) null

runs_bounded :
    (h : Host) (spec : Spec) (runs : List Run) (c : Controller)
    → c.launches ≤ 1
    → c.result_reads ≤ 1
    → let c' = run_turns h spec runs c in (c'.launches ≤ 1) × (c'.result_reads ≤ 1)
runs_bounded h spec [] c p q = (p, q)
runs_bounded h spec (r ∷ runs) c p q =
    let counts = run_turn-Counts h spec r c in runs_bounded h spec runs _ (counts.0 p) (counts.1 q)

-- Whatever messages the host sends, in any number of turns, a controller that has not started its
-- jobs and has read no results starts the jobs at most once and reads the results at most once; and
-- no turn that continues a delivery starts the jobs, and no other turn reads results.
pub turn_limits :
    (h : Host) (spec : Spec) (runs : List Run) (c : Controller)
    → c.launches ≡ 0
    → c.result_reads ≡ 0
    → let c' = run_turns h spec runs c in
      (c'.launches ≤ 1)
      × (c'.result_reads ≤ 1)
      × ((r : Run)
          → let c'' = (run_turn h spec r.continuation r.turn_id r.last r.arrivals c').1 in
            (r.continuation ≡ true → c''.launches ≡ c'.launches)
            × (r.continuation ≡ false → c''.result_reads ≡ c'.result_reads))
turn_limits h spec runs c p q =
    let bounds = runs_bounded h spec runs c (omega (arith, p)) (omega (arith, q)) in
    (
      bounds.0,
      bounds.1,
      λ r. let counts = run_turn-Counts h spec r (run_turns h spec runs c) in (counts.2, counts.3),
    )
