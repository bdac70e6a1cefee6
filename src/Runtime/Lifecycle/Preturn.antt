-- ===== src/Runtime/Lifecycle/Preturn.antt =====
-- Before a turn: diagnostics, and the start of the turn.
use dispatcher_for_codex_age.Prelude.{
  ℕ, suc, String, ◌≡◌, refl, ◌↔◌, Bool, true, false, not, ◌&&◌, ◌||◌, Option, none, some, List, [],
  ◌∷◌, string_eq, nat_eq, ap, sym, ◌∙◌, is_unique, if◌then◌else◌, is_some, arith,
}
use dispatcher_for_codex_age.Json.{Fields, get}
use dispatcher_for_codex_age.Runtime.Lifecycle.{
  Kind, thread_started, turn_started, turn_completed, turn_failed, item_started, item_updated,
  item_completed, unknown, stream_error, kind_of, identity_of, is_error_item, is_completed, is_last,
  State, Issue, before_turn, in_turn, Problem, find_item, set_item, item_problem, place_problem,
  is_diagnostic, item_event, step, loop,
}
use dispatcher_for_codex_age.Runtime.Lifecycle.Grammar.{
  is_item, is_turn_started, names_item, in_order, in_preturn,
}
use dispatcher_for_codex_age.Runtime.Lifecycle.Items.{names}
use dispatcher_for_codex_age.Runtime.Lifecycle.Steps.{
  is_clean, append_dirty, item_refused, item_unnamed,
}
use dispatcher_for_codex_age.Runtime.Lifecycle.Suffix.{
  clean, loop_dirty, AllContinue, refused, continue_item, item_continues, step_item, loop_cons,
  plain_continues,
}
use dispatcher_for_codex_age.Runtime.Lifecycle.Turn.{in_turn_iff}

abbrev pub Preturn : Bool → ℕ → List Fields → State → Type 0
Preturn allow i es s =
    (clean (loop allow i es s) ≡ true) ↔ ((in_preturn allow es ≡ true) × AllContinue s.items es)

module _ (allow : Bool) (i : ℕ) (e : Fields) (s : State) where
  step_begins :
      (last : Bool)
      → s.phase ≡ before_turn
      → step allow i last turn_started e s ≡ record s { phase = in_turn }
  unfolding step
  step_begins last q = rw q refl

  -- Before a turn, an event that neither begins it nor is an item.
  step_stray :
      (last : Bool) (k : Kind)
      → (is_item k || is_turn_started k) ≡ false
      → s.phase ≡ before_turn
      → is_clean (step allow i last k e s).issues ≡ false
  unfolding step
  step_stray last thread_started t q =
      rw q (append_dirty s.issues (Issue.at_event i Problem.thread_start_out_of_order))
  step_stray last turn_completed t q =
      rw q (append_dirty s.issues (Issue.at_event i Problem.terminal_out_of_order))
  step_stray last turn_failed t q =
      rw q (append_dirty s.issues (Issue.at_event i Problem.terminal_out_of_order))
  step_stray last stream_error t q =
      append_dirty s.issues (Issue.at_event i Problem.stream_error_seen)
  step_stray last unknown t q =
      rw q (append_dirty s.issues (Issue.at_event i Problem.unknown_event_outside_turn))
  step_stray last k t q = cc

-- A diagnostic completes its item at once.
abbrev pub admits : Bool → Fields → Bool
admits allow e = allow && is_completed (kind_of e) && is_error_item (get "item" e)

kinds_split :
    (k : Kind)
    → ((is_item k && is_turn_started k) ≡ false) × ((is_completed k && not (is_item k)) ≡ false)
kinds_split thread_started = (refl, refl)
kinds_split turn_started = (refl, refl)
kinds_split turn_completed = (refl, refl)
kinds_split turn_failed = (refl, refl)
kinds_split item_started = (refl, refl)
kinds_split item_updated = (refl, refl)
kinds_split item_completed = (refl, refl)
kinds_split stream_error = (refl, refl)
kinds_split unknown = (refl, refl)

turn_started-kind : (k : Kind) → is_turn_started k ≡ true → k ≡ turn_started
turn_started-kind turn_started h = refl
turn_started-kind k h = cc

module _ (allow : Bool) (e : Fields) (es : List Fields) where
  preturn_begins : is_turn_started (kind_of e) ≡ true → in_preturn allow (e ∷ es) ≡ in_order es
  unfolding in_preturn
  preturn_begins p = ground (arith, kinds_split (kind_of e))

  preturn_item :
      is_item (kind_of e) ≡ true
      → in_preturn allow (e ∷ es) ≡ (admits allow e && names_item e && in_preturn allow es)
  unfolding in_preturn
  preturn_item p = ground (arith, kinds_split (kind_of e))

  preturn_stray :
      (is_item (kind_of e) || is_turn_started (kind_of e)) ≡ false
      → in_preturn allow (e ∷ es) ≡ false
  unfolding in_preturn
  preturn_stray p = ground (arith, kinds_split (kind_of e))

module _ (allow : Bool) (i : ℕ) (e : Fields) (es : List Fields) (s : State)
    (q : s.phase ≡ before_turn) where
  pub begins_case :
      is_turn_started (kind_of e) ≡ true
      → s.issues ≡ []
      → is_unique (names s.items) ≡ true
      → Preturn allow i (e ∷ es) s
  begins_case p r u =
      let k = turn_started-kind (kind_of e) p in
      let plain = plain_continues e es s.items (ap is_item k) in
      let rest = in_turn_iff allow (suc i) es (record s { phase = in_turn }) refl r u in
      rw
        (
          loop_cons allow i e es s _ (
              ap (λ x. step allow i (is_last es) x e s) k ∙ step_begins allow i e s (is_last es) q),
          preturn_begins allow e es p,
        )
        (λ c. let ok = rest.0 c in (ok.0, plain.1 ok.1), λ ok. rest.1 (ok.0, plain.0 ok.1))

  pub stray_case :
      (is_item (kind_of e) || is_turn_started (kind_of e)) ≡ false → Preturn allow i (e ∷ es) s
  unfolding loop
  stray_case t =
      refused
        (loop_dirty allow (suc i) es (step allow i (is_last es) (kind_of e) e s)
          (step_stray allow i e s (is_last es) (kind_of e) t q))
        (preturn_stray allow e es t)

  module _ (p : is_item (kind_of e) ≡ true) where
    abbrev d : Bool
    d = is_diagnostic allow (kind_of e) e s

    d-admits : d ≡ admits allow e
    d-admits = ground (arith, q)

    pub place_admits :
        place_problem d s ≡ (if admits allow e then none else some Problem.item_outside_turn)
    place_admits = rw q (ground arith)

    passed :
        (o : Option (String × String))
        → identity_of (get "item" e) ≡ o
        → loop allow i (e ∷ es) s ≡ loop allow (suc i) es (item_event d i (kind_of e) o s)
    passed o n = loop_cons allow i e es s _ (
        step_item allow i e s (is_last es) (kind_of e) p
        ∙ ap (λ x. item_event d i (kind_of e) x s) n)

    stopped :
        (o : Option (String × String))
        → identity_of (get "item" e) ≡ o
        → is_clean (item_event d i (kind_of e) o s).issues ≡ false
        → clean (loop allow i (e ∷ es) s) ≡ false
    stopped o n bad = ap clean (passed o n) ∙ loop_dirty allow (suc i) es _ bad

    pub unnamed_case : identity_of (get "item" e) ≡ none → Preturn allow i (e ∷ es) s
    unnamed_case n =
        refused (stopped none n (item_unnamed d i (kind_of e) s))
          (preturn_item allow e es p ∙ ground (arith, ap is_some n))

    module _ (id type : String) (named : identity_of (get "item" e) ≡ some (id, type)) where
      pub outside_case : admits allow e ≡ false → Preturn allow i (e ∷ es) s
      outside_case refusal =
          refused
            (stopped (some (id, type)) named (
              item_refused d i (kind_of e) s id type Problem.item_outside_turn
                (rw (place_admits, refusal) refl)))
            (preturn_item allow e es p ∙ ground (arith, refusal))

      pub conflict_case :
          (problem : Problem)
          → admits allow e ≡ true
          → item_problem (find_item id s.items) type (kind_of e) ≡ some problem
          → Preturn allow i (e ∷ es) s
      conflict_case problem admitted bad =
          let dirty = stopped (some (id, type)) named (
            item_refused d i (kind_of e) s id type problem
              (rw (place_admits, admitted, bad) refl)) in
          (
            λ c. cc,
            λ ok.
                let fine = (continue_item s.items id type (kind_of e) e es refl p named ok.1).0 in
                cc,
          )

      pub accepted_case :
          admits allow e ≡ true
          → item_problem (find_item id s.items) type (kind_of e) ≡ none
          → Preturn allow (suc i) es (item_event d i (kind_of e) (some (id, type)) s)
          → (item_event d i (kind_of e) (some (id, type)) s).items
            ≡ set_item id type (kind_of e) s.items
          → Preturn allow i (e ∷ es) s
      accepted_case admitted fine ih items = (
        λ c.
            let ok = ih.0 (ap clean (sym (passed (some (id, type)) named)) ∙ c) in
            (
              preturn_item allow e es p ∙ rw (admitted, named, ok.0) refl,
              item_continues s.items id type (kind_of e) e es refl p named fine
                  (rw (sym items) ok.1),
            ),
        λ ok.
            ap clean (passed (some (id, type)) named)
            ∙ ih.1 (
              ground (arith, sym (preturn_item allow e es p) ∙ ok.0),
              rw items (continue_item s.items id type (kind_of e) e es refl p named ok.1).1,
            ),
      )
