-- ===== src/Runtime/Lifecycle/Pass.antt =====
-- The whole pass against the grammar.
use dispatcher_for_codex_age.Prelude.{
  ℕ, suc, String, ◌≡◌, refl, ◌↔◌, Bool, true, false, not, ◌&&◌, Option, none, some, List, [], ◌∷◌,
  ◌++◌, any, string_eq, nat_eq, ap, ◌∙◌, is_unique, if◌then◌else◌, is_some, arith, Bool-cases,
  Option-cases, inl, inr,
}
use dispatcher_for_codex_age.Json.{Fields, get}
use dispatcher_for_codex_age.Runtime.Lifecycle.{
  Kind, thread_started, turn_started, turn_completed, turn_failed, item_started, item_updated,
  item_completed, unknown, stream_error, kind_of, identity_of, text_of, is_last, State, Phase,
  Issue, before_turn, terminal, Problem, Items, find_item, item_problem, is_diagnostic, item_event,
  item_step, step, loop, begin, is_unfinished, lifecycle_issues,
}
use dispatcher_for_codex_age.Runtime.Lifecycle.Grammar.{
  is_item, is_turn_started, is_thread_started, in_preturn, is_turn, history, is_history, continues,
}
use dispatcher_for_codex_age.Runtime.Lifecycle.Items.{names, names-set_unique}
use dispatcher_for_codex_age.Runtime.Lifecycle.Steps.{
  is_clean, item_accepted, item_refused, item_unnamed,
}
use dispatcher_for_codex_age.Runtime.Lifecycle.Suffix.{
  is_ended, clean, loop_dirty, AllContinue, refused, loop_cons, loop_end, plain_continues,
}
use dispatcher_for_codex_age.Runtime.Lifecycle.Preturn.{
  Preturn, admits, begins_case, stray_case, unnamed_case, outside_case, conflict_case,
  accepted_case, place_admits,
}

item_case :
    (allow : Bool) (i : ℕ) (e : Fields) (es : List Fields) (s : State)
    → is_item (kind_of e) ≡ true
    → s.phase ≡ before_turn
    → s.issues ≡ []
    → is_unique (names s.items) ≡ true
    → ((s' : State)
        → s'.phase ≡ before_turn
        → s'.issues ≡ []
        → is_unique (names s'.items) ≡ true
        → Preturn allow (suc i) es s')
    → Preturn allow i (e ∷ es) s
item_case allow i e es s p q r u ih = elim (Option-cases (identity_of (get "item" e))) [
  | inl unnamed ↦ unnamed_case allow i e es s q p unnamed
  | inr ((id, type), named) ↦ elim (Bool-cases (admits allow e)) [
    | inr refusal ↦ outside_case allow i e es s q p id type named refusal
    | inl admitted ↦ elim (Option-cases (item_problem (find_item id s.items) type (kind_of e))) [
      | inl fine ↦
          let after =
            item_accepted (is_diagnostic allow (kind_of e) e s) i (kind_of e) s id type
              (place_admits allow i e es s q p ∙ rw admitted refl) r fine in
          accepted_case allow i e es s q p id type named admitted fine
            (ih _ (after.0 ∙ q) after.1
              (rw after.2 (names-set_unique id type (kind_of e) s.items u)))
            after.2
      | inr (problem, bad) ↦ conflict_case allow i e es s q p id type named problem admitted bad
    ]
  ]
]

Preturn-iff :
    (allow : Bool) (i : ℕ) (es : List Fields) (s : State)
    → s.phase ≡ before_turn
    → s.issues ≡ []
    → is_unique (names s.items) ≡ true
    → Preturn allow i es s
unfolding in_preturn
Preturn-iff allow i [] s q r u = refused (ap clean (loop_end allow i s) ∙ rw (r, q) refl) refl
Preturn-iff allow i (e ∷ es) s q r u = elim (Bool-cases (is_item (kind_of e))) [
  | inl item ↦ item_case allow i e es s item q r u (λ s'. Preturn-iff allow (suc i) es s')
  | inr other ↦ elim (Bool-cases (is_turn_started (kind_of e))) [
    | inl begins ↦ begins_case allow i e es s q begins r u
    | inr stray ↦ stray_case allow i e es s q (ground arith)
  ]
]

module _ (allow : Bool) (e : Fields) where
  first_item :
      (k : Kind) (o : Option (String × String))
      → is_clean (item_event (is_diagnostic allow k e begin) 0 k o begin).issues ≡ false
  first_item k none = item_unnamed (is_diagnostic allow k e begin) 0 k begin
  first_item k (some (id, type)) =
      item_refused (is_diagnostic allow k e begin) 0 k begin id type Problem.item_outside_turn
        (ground arith)

  -- The first event.
  first_other :
      (last : Bool) (k : Kind)
      → (is_thread_started k && is_some (text_of (get "thread_id" e))) ≡ false
      → is_clean (step allow 0 last k e begin).issues ≡ false
  unfolding step item_step
  first_other last thread_started p = ground arith
  first_other last turn_started p = refl
  first_other last turn_completed p = refl
  first_other last turn_failed p = refl
  first_other last item_started p = first_item item_started (identity_of (get "item" e))
  first_other last item_updated p = first_item item_updated (identity_of (get "item" e))
  first_other last item_completed p = first_item item_completed (identity_of (get "item" e))
  first_other last stream_error p = refl
  first_other last unknown p = refl

  first_thread :
      (last : Bool) (k : Kind)
      → (is_thread_started k && is_some (text_of (get "thread_id" e))) ≡ true
      → step allow 0 last k e begin ≡ record begin { phase = before_turn }
  unfolding step
  first_thread last thread_started p = ground arith
  first_thread last k p = cc

thread-item : (k : Kind) → is_thread_started k ≡ true → is_item k ≡ false
thread-item thread_started p = refl
thread-item k p = cc

stream_iff :
    (allow : Bool) (events : List Fields)
    → (clean (loop allow 0 events begin) ≡ true)
      ↔ ((is_turn allow events ≡ true) × AllContinue [] events)
unfolding is_turn loop
stream_iff allow [] = refused (ap clean (loop_end allow 0 begin)) refl
stream_iff allow (e ∷ es) =
    elim (Bool-cases (is_thread_started (kind_of e) && is_some (text_of (get "thread_id" e)))) [
      | inl ok ↦
          let plain = plain_continues e es [] (thread-item (kind_of e) (ground arith)) in
          let rest = Preturn-iff allow 1 es (record begin { phase = before_turn }) refl refl refl in
          rw (loop_cons allow 0 e es begin _ (first_thread allow e (is_last es) (kind_of e) ok)) (
            λ c. let good = rest.0 c in (ground (arith, good.0), plain.1 good.1),
            λ good. rest.1 (ground (arith, good.0), plain.0 good.1),
          )
      | inr bad ↦
          refused
            (loop_dirty allow 1 es (step allow 0 (is_last es) (kind_of e) e begin)
              (first_other allow e (is_last es) (kind_of e) bad))
            (ground arith)
    ]

-- The two lists that follow the issues of the loop.
clean-nil :
    (issues : List Issue) (phase : Phase) (items : Items)
    → (issues
          ++ elim phase [ terminal ↦ [] | _ ↦ Issue.missing_terminal ∷ [] ]
          ++ (if any is_unfinished items then Issue.unfinished_item ∷ [] else [])
        ≡ [])
      ↔ ((is_clean issues && is_ended phase && not (any is_unfinished items)) ≡ true)
clean-nil [] terminal items = elim (Bool-cases (any is_unfinished items)) [
  | inl left ↦ rw left (λ p. cc, λ p. cc)
  | inr ended ↦ rw ended (λ p. refl, λ p. refl)
]
clean-nil [] phase items = (λ p. cc, λ p. cc)
clean-nil (x ∷ issues) phase items = (λ p. cc, λ p. cc)

-- The pass over the events of a stream, with or without diagnostics before the turn, reports no
-- issue exactly if the stream is one thread, then diagnostics where they are allowed, one turn of
-- items and unknown events, and a terminal event last, and the events of every item id are a
-- completion alone, or a start, updates and a completion of one type.
pub lifecycle_issues_iff :
    (allow : Bool) (events : List Fields)
    → ((lifecycle_issues allow events).0 ≡ [])
      ↔ ((is_turn allow events ≡ true) × ((id : String) → is_history (history id events) ≡ true))
unfolding lifecycle_issues continues
lifecycle_issues_iff allow events =
    let s = loop allow 0 events begin in
    let reported = clean-nil s.issues s.phase s.items in
    let stream = stream_iff allow events in
    (λ p. stream.0 (reported.0 p), λ q. reported.1 (stream.1 q))
