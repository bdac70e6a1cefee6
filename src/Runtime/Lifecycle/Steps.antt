-- ===== src/Runtime/Lifecycle/Steps.antt =====
-- What one event does to the state of the pass, and to the items.
use dispatcher_for_codex_age.Prelude.{
  ℕ, String, ◌≡◌, refl, Bool, true, false, not, ◌||◌, Option, none, some, List, [], ◌∷◌, ◌++◌,
  string_eq, nat_eq, if◌then◌else◌, arith,
}
use dispatcher_for_codex_age.Json.{Fields, get}
use dispatcher_for_codex_age.Runtime.Lifecycle.{
  Kind, thread_started, turn_started, turn_completed, turn_failed, item_started, item_updated,
  item_completed, unknown, stream_error, identity_of, State, in_turn, terminal, Problem, Issue,
  find_item, set_item, item_problem, place_problem, report, item_event, item_step, thread_step,
  turn_step, step, is_in_turn, or_else,
}

abbrev pub is_clean : List Issue → Bool
is_clean [] = true
is_clean (_ ∷ _) = false

pub append_dirty : (xs : List Issue) (x : Issue) → is_clean (xs ++ x ∷ []) ≡ false
append_dirty [] x = refl
append_dirty (y ∷ ys) x = refl

pub report_dirty :
    (i : ℕ) (p : Option Problem) (s : State)
    → is_clean s.issues ≡ false
    → is_clean (report i p s).issues ≡ false
report_dirty i none s h = h
report_dirty i (some p) s h = append_dirty s.issues (Issue.at_event i p)

pub item_event_dirty :
    (d : Bool) (i : ℕ) (k : Kind) (o : Option (String × String)) (s : State)
    → is_clean s.issues ≡ false
    → is_clean (item_event d i k o s).issues ≡ false
unfolding item_event
item_event_dirty d i k none s h =
    report_dirty i (or_else (place_problem d s) (some Problem.invalid_item_identity)) s h
item_event_dirty d i k (some (id, type)) s h =
    report_dirty i (or_else (place_problem d s) (item_problem (find_item id s.items) type k))
      (record s { items = set_item id type k s.items; diagnostics = _ }) h

thread_step_dirty :
    (i : ℕ) (e : Fields) (s : State)
    → is_clean s.issues ≡ false
    → is_clean (thread_step i e s).issues ≡ false
thread_step_dirty i e s h = ground (
  arith,
  append_dirty s.issues (Issue.at_event i Problem.thread_start_out_of_order),
  append_dirty s.issues (Issue.at_event i Problem.invalid_thread_identity),
)

turn_step_dirty :
    (i : ℕ) (s : State) → is_clean s.issues ≡ false → is_clean (turn_step i s).issues ≡ false
turn_step_dirty i s h =
    ground (arith, append_dirty s.issues (Issue.at_event i Problem.turn_start_out_of_order))

pub step_dirty :
    (allow : Bool) (i : ℕ) (last : Bool) (k : Kind) (e : Fields) (s : State)
    → is_clean s.issues ≡ false
    → is_clean (step allow i last k e s).issues ≡ false
unfolding step item_step
step_dirty allow i last thread_started e s h = thread_step_dirty i e s h
step_dirty allow i last turn_started e s h = turn_step_dirty i s h
step_dirty allow i last turn_completed e s h =
    report_dirty i
      (if not (is_in_turn s.phase) || not last then some Problem.terminal_out_of_order else none) s
      h
step_dirty allow i last turn_failed e s h =
    report_dirty i
      (if not (is_in_turn s.phase) || not last then some Problem.terminal_out_of_order else none) s
      h
step_dirty allow i last item_started e s h =
    item_event_dirty _ i item_started (identity_of (get "item" e)) s h
step_dirty allow i last item_updated e s h =
    item_event_dirty _ i item_updated (identity_of (get "item" e)) s h
step_dirty allow i last item_completed e s h =
    item_event_dirty _ i item_completed (identity_of (get "item" e)) s h
step_dirty allow i last stream_error e s h =
    append_dirty s.issues (Issue.at_event i Problem.stream_error_seen)
step_dirty allow i last unknown e s h =
    report_dirty i
      (elim s.phase [
        | terminal ↦ some Problem.event_after_terminal
        | in_turn ↦ none
        | _ ↦ some Problem.unknown_event_outside_turn
      ])
      s h

-- An item event inside a turn.
pub item_accepted :
    (d : Bool) (i : ℕ) (k : Kind) (s : State) (id type : String)
    → place_problem d s ≡ none
    → s.issues ≡ []
    → item_problem (find_item id s.items) type k ≡ none
    → let s' = item_event d i k (some (id, type)) s in
      (s'.phase ≡ s.phase) × (s'.issues ≡ []) × (s'.items ≡ set_item id type k s.items)
unfolding item_event
item_accepted d i k s id type p q r = rw (p, r) (refl, q, refl)

-- A place or an item that the code refuses.
pub item_refused :
    (d : Bool) (i : ℕ) (k : Kind) (s : State) (id type : String) (p : Problem)
    → or_else (place_problem d s) (item_problem (find_item id s.items) type k) ≡ some p
    → is_clean (item_event d i k (some (id, type)) s).issues ≡ false
unfolding item_event
item_refused d i k s id type p r = rw r (append_dirty s.issues (Issue.at_event i p))

pub item_unnamed :
    (d : Bool) (i : ℕ) (k : Kind) (s : State) → is_clean (item_event d i k none s).issues ≡ false
unfolding item_event
item_unnamed d i k s = ground (
  arith,
  append_dirty s.issues (Issue.at_event i Problem.invalid_item_identity),
  append_dirty s.issues (Issue.at_event i Problem.item_outside_turn),
)
