-- ===== src/Runtime/Lifecycle/Turn.antt =====
-- From inside a turn: the pass reports nothing exactly if what remains is in order.
use dispatcher_for_codex_age.Prelude.{
  ℕ, suc, String, ◌≡◌, refl, ◌↔◌, Bool, true, false, ◌&&◌, ◌||◌, Option, none, some, List, [], ◌∷◌,
  string_eq, ap, sym, ◌∙◌, is_unique, is_some, arith, Bool-cases, Option-cases, inl, inr,
}
use dispatcher_for_codex_age.Json.{Fields, get}
use dispatcher_for_codex_age.Runtime.Lifecycle.{
  Kind, unknown, kind_of, identity_of, is_last, State, in_turn, Problem, find_item, set_item,
  item_problem, place_problem, is_diagnostic, item_event, step, loop,
}
use dispatcher_for_codex_age.Runtime.Lifecycle.Grammar.{is_item, is_terminal, is_unknown, in_order}
use dispatcher_for_codex_age.Runtime.Lifecycle.Items.{names, names-set_unique}
use dispatcher_for_codex_age.Runtime.Lifecycle.Steps.{
  is_clean, item_accepted, item_refused, item_unnamed,
}
use dispatcher_for_codex_age.Runtime.Lifecycle.Suffix.{
  clean, loop_dirty, AllContinue, InTurn, refused, continue_item, item_continues, step_terminal,
  step_early, step_misplaced, step_item, step_unknown, loop_cons, loop_end, kinds_apart,
  order_terminal, order_item, order_unknown, plain_continues, ended_continues,
}

terminal_end :
    (allow : Bool) (i : ℕ) (e : Fields) (s : State)
    → is_terminal (kind_of e) ≡ true
    → s.phase ≡ in_turn
    → s.issues ≡ []
    → is_unique (names s.items) ≡ true
    → InTurn allow i (e ∷ []) s
unfolding loop
terminal_end allow i e s t q r u =
    let plain = plain_continues e [] s.items (ground (arith, kinds_apart (kind_of e))) in
    let ended = ended_continues s.items u in
    rw
      (
        loop_cons allow i e [] s _ (step_terminal allow i e s (kind_of e) t q),
        order_terminal e [] t,
        r,
      )
      (λ c. (refl, plain.1 (ended.0 (ground arith))), λ ok. ground (arith, ended.1 (plain.0 ok.1)))

module _ (allow : Bool) (i : ℕ) (e : Fields) (es : List Fields) (s : State) where
  refused_case :
      (is_item (kind_of e) || is_terminal (kind_of e) || is_unknown (kind_of e)) ≡ false
      → s.phase ≡ in_turn
      → InTurn allow i (e ∷ es) s
  unfolding loop in_order
  refused_case t q =
      refused
        (loop_dirty allow (suc i) es (step allow i (is_last es) (kind_of e) e s)
          (step_misplaced allow i e s (is_last es) (kind_of e) t q))
        (ground arith)

  terminal_early : is_terminal (kind_of e) ≡ true → is_last es ≡ false → InTurn allow i (e ∷ es) s
  unfolding loop
  terminal_early t l =
      refused
        (loop_dirty allow (suc i) es (step allow i (is_last es) (kind_of e) e s)
          (rw l (step_early allow i e s (kind_of e) t)))
        (order_terminal e es t ∙ l)

  module _ (p : is_item (kind_of e) ≡ true) where
    abbrev d : Bool
    d = is_diagnostic allow (kind_of e) e s

    -- The pass goes on from the state after the item.
    passed :
        (o : Option (String × String))
        → identity_of (get "item" e) ≡ o
        → loop allow i (e ∷ es) s ≡ loop allow (suc i) es (item_event d i (kind_of e) o s)
    passed o q = loop_cons allow i e es s _ (
        step_item allow i e s (is_last es) (kind_of e) p
        ∙ ap (λ x. item_event d i (kind_of e) x s) q)

    stopped :
        (o : Option (String × String))
        → identity_of (get "item" e) ≡ o
        → is_clean (item_event d i (kind_of e) o s).issues ≡ false
        → clean (loop allow i (e ∷ es) s) ≡ false
    stopped o q bad = ap clean (passed o q) ∙ loop_dirty allow (suc i) es _ bad

    unnamed_case : identity_of (get "item" e) ≡ none → InTurn allow i (e ∷ es) s
    unnamed_case q =
        refused (stopped none q (item_unnamed d i (kind_of e) s))
          (order_item e es p ∙ ap (λ o. is_some o && in_order es) q)

    module _ (id type : String) (named : identity_of (get "item" e) ≡ some (id, type))
        (q : s.phase ≡ in_turn) where
      inside : place_problem d s ≡ none
      inside = rw q refl

      conflict_case :
          (problem : Problem)
          → item_problem (find_item id s.items) type (kind_of e) ≡ some problem
          → InTurn allow i (e ∷ es) s
      conflict_case problem bad =
          let dirty =
            stopped (some (id, type)) named
              (item_refused d i (kind_of e) s id type problem (rw (inside, bad) refl)) in
          (
            λ c. cc,
            λ ok.
                let fine = (continue_item s.items id type (kind_of e) e es refl p named ok.1).0 in
                cc,
          )

      accepted_case :
          item_problem (find_item id s.items) type (kind_of e) ≡ none
          → InTurn allow (suc i) es (item_event d i (kind_of e) (some (id, type)) s)
          → (item_event d i (kind_of e) (some (id, type)) s).items
            ≡ set_item id type (kind_of e) s.items
          → InTurn allow i (e ∷ es) s
      accepted_case fine ih items = (
        λ c.
            let ok = ih.0 (ap clean (sym (passed (some (id, type)) named)) ∙ c) in
            (
              order_item e es p ∙ rw (named, ok.0) refl,
              item_continues s.items id type (kind_of e) e es refl p named fine
                  (rw (sym items) ok.1),
            ),
        λ ok.
            ap clean (passed (some (id, type)) named)
            ∙ ih.1 (
              ground (arith, sym (order_item e es p) ∙ ok.0),
              rw items (continue_item s.items id type (kind_of e) e es refl p named ok.1).1,
            ),
      )

  unknown_case :
      kind_of e ≡ unknown
      → s.phase ≡ in_turn
      → InTurn allow (suc i) es s
      → InTurn allow i (e ∷ es) s
  unknown_case p q ih =
      let plain = plain_continues e es s.items (ap is_item p) in
      rw
        (
          loop_cons allow i e es s s (
              ap (λ k. step allow i (is_last es) k e s) p
              ∙ step_unknown allow i e s (is_last es) q),
          order_unknown e es (ap is_unknown p),
        )
        (λ c. let ok = ih.0 c in (ok.0, plain.1 ok.1), λ ok. ih.1 (ok.0, plain.0 ok.1))

terminal_case :
    (allow : Bool) (i : ℕ) (e : Fields) (es : List Fields) (s : State)
    → is_terminal (kind_of e) ≡ true
    → s.phase ≡ in_turn
    → s.issues ≡ []
    → is_unique (names s.items) ≡ true
    → InTurn allow i (e ∷ es) s
terminal_case allow i e [] s t q r u = terminal_end allow i e s t q r u
terminal_case allow i e (f ∷ es) s t q r u = terminal_early allow i e (f ∷ es) s t refl

unknown-kind : (k : Kind) → is_unknown k ≡ true → k ≡ unknown
unknown-kind unknown h = refl
unknown-kind k h = cc

-- The item is accepted, refused for its history, or has no id.
item_case :
    (allow : Bool) (i : ℕ) (e : Fields) (es : List Fields) (s : State)
    → is_item (kind_of e) ≡ true
    → s.phase ≡ in_turn
    → s.issues ≡ []
    → is_unique (names s.items) ≡ true
    → ((s' : State)
        → s'.phase ≡ in_turn
        → s'.issues ≡ []
        → is_unique (names s'.items) ≡ true
        → InTurn allow (suc i) es s')
    → InTurn allow i (e ∷ es) s
item_case allow i e es s p q r u ih = elim (Option-cases (identity_of (get "item" e))) [
  | inl unnamed ↦ unnamed_case allow i e es s p unnamed
  | inr ((id, type), named) ↦
      elim (Option-cases (item_problem (find_item id s.items) type (kind_of e))) [
        | inl fine ↦
            let after =
              item_accepted (is_diagnostic allow (kind_of e) e s) i (kind_of e) s id type
                (rw q refl) r fine in
            accepted_case allow i e es s p id type named q fine
              (ih _ (after.0 ∙ q) after.1
                (rw after.2 (names-set_unique id type (kind_of e) s.items u)))
              after.2
        | inr (problem, bad) ↦ conflict_case allow i e es s p id type named q problem bad
      ]
]

-- From inside a turn with nothing reported so far.
pub in_turn_iff :
    (allow : Bool) (i : ℕ) (es : List Fields) (s : State)
    → s.phase ≡ in_turn
    → s.issues ≡ []
    → is_unique (names s.items) ≡ true
    → (clean (loop allow i es s) ≡ true) ↔ ((in_order es ≡ true) × AllContinue s.items es)
unfolding in_order
in_turn_iff allow i [] s q r u = refused (ap clean (loop_end allow i s) ∙ rw (r, q) refl) refl
in_turn_iff allow i (e ∷ es) s q r u = elim (Bool-cases (is_item (kind_of e))) [
  | inl item ↦ item_case allow i e es s item q r u (λ s'. in_turn_iff allow (suc i) es s')
  | inr other ↦ elim (Bool-cases (is_terminal (kind_of e))) [
    | inl ends ↦ terminal_case allow i e es s ends q r u
    | inr goes ↦ elim (Bool-cases (is_unknown (kind_of e))) [
      | inl new ↦
          unknown_case allow i e es s (unknown-kind (kind_of e) new) q
            (in_turn_iff allow (suc i) es s q r u)
      | inr known ↦ refused_case allow i e es s (ground arith) q
    ]
  ]
]
