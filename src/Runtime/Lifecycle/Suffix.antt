-- ===== src/Runtime/Lifecycle/Suffix.antt =====
-- What one event does to the rest of the pass, and to what the grammar says of the rest.
use dispatcher_for_codex_age.Prelude.{
  ℕ, suc, String, ◌≡◌, refl, ◌↔◌, Bool, true, false, not, ◌&&◌, ◌||◌, none, some, List, [], ◌∷◌,
  any, ◌==◌, ==_iff, ==_refl, string_eq, ap, sym, ◌∙◌, is_unique, arith, Bool-cases, inl, inr,
}
use dispatcher_for_codex_age.Json.{Fields, get}
use dispatcher_for_codex_age.Runtime.Lifecycle.{
  Kind, thread_started, turn_started, turn_completed, turn_failed, item_started, item_updated,
  item_completed, unknown, stream_error, kind_of, identity_of, is_last, State, Phase, Issue,
  in_turn, terminal, Problem, Items, find_item, set_item, item_problem, is_diagnostic, item_event,
  item_step, step, loop, is_unfinished,
}
use dispatcher_for_codex_age.Runtime.Lifecycle.Grammar.{
  is_item, is_terminal, is_unknown, names_item, in_order, history, continues,
}
use dispatcher_for_codex_age.Runtime.Lifecycle.Items.{
  names, find-set_same, find-set_other, finished-continues, continues-finished, continues_iff,
}
use dispatcher_for_codex_age.Runtime.Lifecycle.Steps.{is_clean, step_dirty, append_dirty}

abbrev pub is_ended : Phase → Bool
is_ended terminal = true
is_ended _ = false

-- The pass has nothing to report.
abbrev pub clean : State → Bool
clean s = is_clean s.issues && is_ended s.phase && not (any is_unfinished s.items)

pub loop_dirty :
    (allow : Bool) (i : ℕ) (es : List Fields) (s : State)
    → is_clean s.issues ≡ false
    → clean (loop allow i es s) ≡ false
unfolding loop
loop_dirty allow i [] s h = ground arith
loop_dirty allow i (e ∷ es) s h =
    loop_dirty allow (suc i) es (step allow i (is_last es) (kind_of e) e s)
      (step_dirty allow i (is_last es) (kind_of e) e s h)

-- Every item may go on with the events that remain.
abbrev pub AllContinue : Items → List Fields → Type 0
AllContinue items es = (id : String) → continues (find_item id items) (history id es) ≡ true

abbrev pub InTurn : Bool → ℕ → List Fields → State → Type 0
InTurn allow i es s =
    (clean (loop allow i es s) ≡ true) ↔ ((in_order es ≡ true) × AllContinue s.items es)

pub refused : {a b : Bool} {X : Type 0} → a ≡ false → b ≡ false → (a ≡ true) ↔ ((b ≡ true) × X)
refused p q = (λ r. cc, λ r. cc)

-- What an item event says of its own item, and of another.
mention_own :
    (id type : String) (k : Kind) (e : Fields) (es : List Fields)
    → kind_of e ≡ k
    → is_item k ≡ true
    → identity_of (get "item" e) ≡ some (id, type)
    → history id (e ∷ es) ≡ (type, k) ∷ history id es
unfolding history
mention_own id type k e es p q r =
    rw (ap is_item p ∙ q, r, ==_refl id) (ap (λ a. (type, a) ∷ history id es) p)

mention_other :
    (other id type : String) (e : Fields) (es : List Fields)
    → (other == id) ≡ false
    → identity_of (get "item" e) ≡ some (id, type)
    → history other (e ∷ es) ≡ history other es
unfolding history
mention_other other id type e es p r = elim (Bool-cases (is_item (kind_of e))) [
  | inl item ↦ rw (item, r, p) refl
  | inr plain ↦ rw plain refl
]

mention_none :
    (other : String) (e : Fields) (es : List Fields)
    → is_item (kind_of e) ≡ false
    → history other (e ∷ es) ≡ history other es
unfolding history
mention_none other e es p = rw p refl

module _ (items : Items) (id type : String) (k : Kind) (e : Fields) (es : List Fields)
    (p : kind_of e ≡ k) (q : is_item k ≡ true)
    (r : identity_of (get "item" e) ≡ some (id, type)) where
  own :
      AllContinue items (e ∷ es)
      → (item_problem (find_item id items) type k ≡ none)
        × (continues (some (type, k)) (history id es) ≡ true)
  own all =
      (continues_iff (find_item id items) type k (history id es) q).0
        (rw (sym (mention_own id type k e es p q r)) (all id))

  -- An item event: what was known of the items before and after.
  pub continue_item :
      AllContinue items (e ∷ es)
      → (item_problem (find_item id items) type k ≡ none)
        × AllContinue (set_item id type k items) es
  continue_item all = (
    (own all).0,
    λ other. elim (Bool-cases (other == id)) [
      | inl same ↦ rw ((==_iff other id).0 same, find-set_same id type k items) (own all).1
      | inr apart ↦
          rw
            (
              find-set_other id other type k items apart,
              sym (mention_other other id type e es apart r),
            )
            (all other)
    ],
  )

  pub item_continues :
      item_problem (find_item id items) type k ≡ none
      → AllContinue (set_item id type k items) es
      → AllContinue items (e ∷ es)
  item_continues fine all other = elim (Bool-cases (other == id)) [
    | inl same ↦
        rw ((==_iff other id).0 same, mention_own id type k e es p q r)
          ((continues_iff (find_item id items) type k (history id es) q).1
            (fine, rw (sym (find-set_same id type k items)) (all id)))
    | inr apart ↦
        rw
          (
            mention_other other id type e es apart r,
            sym (find-set_other id other type k items apart),
          )
          (all other)
  ]

module _ (allow : Bool) (i : ℕ) (e : Fields) (s : State) where
  pub step_terminal :
      (k : Kind)
      → is_terminal k ≡ true
      → s.phase ≡ in_turn
      → step allow i true k e s ≡ record s { phase = terminal }
  unfolding step
  step_terminal turn_completed t q = rw q refl
  step_terminal turn_failed t q = rw q refl
  step_terminal k t q = cc

  pub step_early :
      (k : Kind) → is_terminal k ≡ true → is_clean (step allow i false k e s).issues ≡ false
  unfolding step
  step_early turn_completed t =
      ground (arith, append_dirty s.issues (Issue.at_event i Problem.terminal_out_of_order))
  step_early turn_failed t =
      ground (arith, append_dirty s.issues (Issue.at_event i Problem.terminal_out_of_order))
  step_early k t = cc

  pub step_misplaced :
      (last : Bool) (k : Kind)
      → (is_item k || is_terminal k || is_unknown k) ≡ false
      → s.phase ≡ in_turn
      → is_clean (step allow i last k e s).issues ≡ false
  unfolding step
  step_misplaced last thread_started t q =
      rw q (append_dirty s.issues (Issue.at_event i Problem.thread_start_out_of_order))
  step_misplaced last turn_started t q =
      rw q (append_dirty s.issues (Issue.at_event i Problem.turn_start_out_of_order))
  step_misplaced last stream_error t q =
      append_dirty s.issues (Issue.at_event i Problem.stream_error_seen)
  step_misplaced last k t q = cc

  pub step_item :
      (last : Bool) (k : Kind)
      → is_item k ≡ true
      → step allow i last k e s
        ≡ item_event (is_diagnostic allow k e s) i k (identity_of (get "item" e)) s
  unfolding step item_step
  step_item last item_started t = refl
  step_item last item_updated t = refl
  step_item last item_completed t = refl
  step_item last k t = cc

  pub step_unknown : (last : Bool) → s.phase ≡ in_turn → step allow i last unknown e s ≡ s
  unfolding step
  step_unknown last q = rw q refl

-- The pass over one event more.
pub loop_cons :
    (allow : Bool) (i : ℕ) (e : Fields) (es : List Fields) (s s' : State)
    → step allow i (is_last es) (kind_of e) e s ≡ s'
    → loop allow i (e ∷ es) s ≡ loop allow (suc i) es s'
unfolding loop
loop_cons allow i e es s s' p = ap (loop allow (suc i) es) p

pub loop_end : (allow : Bool) (i : ℕ) (s : State) → loop allow i [] s ≡ s
unfolding loop
loop_end allow i s = refl

pub kinds_apart :
    (k : Kind)
    → ((is_item k && is_terminal k) ≡ false)
      × ((is_item k && is_unknown k) ≡ false)
      × ((is_terminal k && is_unknown k) ≡ false)
kinds_apart thread_started = (refl, refl, refl)
kinds_apart turn_started = (refl, refl, refl)
kinds_apart turn_completed = (refl, refl, refl)
kinds_apart turn_failed = (refl, refl, refl)
kinds_apart item_started = (refl, refl, refl)
kinds_apart item_updated = (refl, refl, refl)
kinds_apart item_completed = (refl, refl, refl)
kinds_apart stream_error = (refl, refl, refl)
kinds_apart unknown = (refl, refl, refl)

module _ (e : Fields) (es : List Fields) where
  pub order_terminal : is_terminal (kind_of e) ≡ true → in_order (e ∷ es) ≡ is_last es
  unfolding in_order
  order_terminal p = ground (arith, kinds_apart (kind_of e))

  pub order_item : is_item (kind_of e) ≡ true → in_order (e ∷ es) ≡ (names_item e && in_order es)
  unfolding in_order
  order_item p = ground (arith, kinds_apart (kind_of e))

  pub order_unknown : is_unknown (kind_of e) ≡ true → in_order (e ∷ es) ≡ in_order es
  unfolding in_order
  order_unknown p = ground (arith, kinds_apart (kind_of e))

  -- An event that is no item says nothing of the items.
  pub plain_continues :
      (items : Items)
      → is_item (kind_of e) ≡ false
      → AllContinue items (e ∷ es) ↔ AllContinue items es
  plain_continues items p = (
    λ all id. rw (sym (mention_none id e es p)) (all id),
    λ all id. rw (mention_none id e es p) (all id),
  )

-- All items are complete.
pub ended_continues :
    (items : Items)
    → is_unique (names items) ≡ true
    → (any is_unfinished items ≡ false) ↔ AllContinue items []
unfolding history
ended_continues items u =
    (λ h id. finished-continues id items h, λ all. continues-finished items u all)
