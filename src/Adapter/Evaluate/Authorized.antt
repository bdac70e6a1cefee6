-- ===== src/Adapter/Evaluate/Authorized.antt =====
-- What a result of `evaluate_capture` that is a success says of the policy of its task.
use dispatcher_for_codex_age.Prelude.{
  ℕ, String, zero, suc, ◌+◌, ◌≡◌, refl, sym, ap, ◌∙◌, ◌⊎◌, inl, inr, Bool, true, false, Option,
  none, some, List, [], ◌∷◌, ◌++◌, any, contains, nat_eq, string_eq, if◌then◌else◌, arith,
  Bool-cases,
}
use mathlib.Core.Path.{subst}
use dispatcher_for_codex_age.Prelude.Result.{ok}
use dispatcher_for_codex_age.Json.{Fields}
use dispatcher_for_codex_age.Adapter.{Python, policy_violations}
use dispatcher_for_codex_age.Adapter.Events.{
  ParsedEvents, all_violations, parse_event_stream, parse_event_stream-all_violations,
}
use dispatcher_for_codex_age.Adapter.Evaluate.{
  Codec, Capture, is_custom, activity_of, settle, remaining_violations, exempts, check_lifecycle,
  check_rejections, is_doubted, Evaluation, check_encoding, interpret, evaluate_capture,
}
use dispatcher_for_codex_age.Adapter.Evaluate.Settled.{settle-IsSame}
use dispatcher_for_codex_age.Adapter.Evaluate.Success.{
  evaluate_capture-stream, evaluated, read, success_parts, lifecycle_kept,
}
use dispatcher_for_codex_age.Runtime.Activity.{is_unclear}
use dispatcher_for_codex_age.Runtime.Activity.Classify.{Activity}

-- `events[i]`
abbrev pub event_at : ℕ → List Fields → Option Fields
event_at i [] = none
event_at zero (event ∷ events) = some event
event_at (suc i) (event ∷ events) = event_at i events

append_nil {ℓ} : {A : Type ℓ} (xs ys : List A) → xs ++ ys ≡ [] → (xs ≡ []) × (ys ≡ [])
append_nil [] ys h = (refl, h)
append_nil (x ∷ xs) ys h = cc

some_eq {ℓ} : {A : Type ℓ} {a b : A} → some a ≡ some b → a ≡ b
some_eq h = cc

plus_zero : (index : ℕ) → index ≡ index + zero
plus_zero index = omega arith

plus_suc : (index i : ℕ) → suc index + i ≡ index + suc i
plus_suc index i = omega arith

module _ (py : Python) (c : Capture) where
  remaining_nil :
      (exempt : List ℕ) (index : ℕ) (events : List Fields)
      → remaining_violations py c.tools exempt index events ≡ []
      → (i : ℕ) (event : Fields) → event_at i events ≡ some event
      → (contains (index + i) exempt ≡ true) ⊎ (policy_violations py c.tools event ≡ [])
  unfolding remaining_violations
  remaining_nil exempt index [] h i event at = cc
  remaining_nil exempt index (e ∷ events) h zero event at =
      elim (Bool-cases (contains index exempt)) [
        | inl spared ↦ inl (subst (λ k. contains k exempt ≡ true) (plus_zero index) spared)
        | inr judged ↦
            let (here, later) = append_nil _ _ h in
            inr (
              subst (λ x. policy_violations py c.tools x ≡ []) (some_eq at)
                (ap (λ b. if b then [] else policy_violations py c.tools e) (sym judged) ∙ here))
      ]
  remaining_nil exempt index (e ∷ events) h (suc i) event at =
      let (here, later) = append_nil _ _ h in
      subst (λ k. (contains k exempt ≡ true) ⊎ (policy_violations py c.tools event ≡ []))
        (plus_suc index i) (remaining_nil exempt (suc index) events later i event at)

  all_nil :
      (events : List Fields)
      → all_violations py c.tools events ≡ []
      → (i : ℕ) (event : Fields) → event_at i events ≡ some event
      → policy_violations py c.tools event ≡ []
  all_nil [] h i event at = cc
  all_nil (e ∷ events) h zero event at =
      let (here, later) = append_nil _ _ h in
      subst (λ x. policy_violations py c.tools x ≡ []) (some_eq at) here
  all_nil (e ∷ events) h (suc i) event at =
      let (here, later) = append_nil _ _ h in all_nil events later i event at

  -- The violations of a stream that a check may have replaced.
  replaced :
      (b : Bool) (q : ParsedEvents) (vs : List String)
      → (if b then record q { policy_violations = vs } else q).policy_violations
        ≡ (if b then vs else q.policy_violations)
  replaced true q vs = refl
  replaced false q vs = refl

  doubt_nil :
      (doubted : Bool) (q : ParsedEvents) (v : String)
      → (if doubted
          then record q { policy_violations = q.policy_violations ++ v ∷ [] }
          else q).policy_violations
        ≡ []
      → (doubted ≡ false) × (q.policy_violations ≡ [])
  doubt_nil true q v h = let (before, last) = append_nil q.policy_violations (v ∷ []) h in cc
  doubt_nil false q v h = (refl, h)

  -- The events that are not exempted have no violation.
  unspared :
      (a : Activity) (p : ParsedEvents)
      → p.policy_violations ≡ all_violations py c.tools p.events
      → (check_rejections py c a p).policy_violations ≡ []
      → (i : ℕ) (event : Fields) → event_at i p.events ≡ some event
      → (policy_violations py c.tools event ≡ [])
        ⊎ ((c.contract.rejection_warns ≡ true) × (contains i a.exempt ≡ true))
  unspared a p every clean i event at = elim (Bool-cases (exempts c a)) [
    | inl warned ↦
        let vs = remaining_violations py c.tools a.exempt 0 p.events in
        let left : vs ≡ [] =
          ap (λ b. if b then vs else p.policy_violations) (sym warned)
          ∙ sym (replaced (exempts c a) p vs)
          ∙ clean in
        elim (remaining_nil a.exempt 0 p.events left i event at) [
          | inl spared ↦
              inr (ground arith, subst (λ k. contains k a.exempt ≡ true) (omega arith) spared)
          | inr fine ↦ inl fine
        ]
    | inr other ↦
        let vs = remaining_violations py c.tools a.exempt 0 p.events in
        let left : p.policy_violations ≡ [] =
          ap (λ b. if b then vs else p.policy_violations) (sym other)
          ∙ sym (replaced (exempts c a) p vs)
          ∙ clean in
        inl (all_nil p.events (sym every ∙ left) i event at)
  ]

-- Every event of the stream meets the policy, or it is exempted and the contract makes rejections
-- warnings; and under a contract that is not the default one, no tool activity is UNKNOWN.
abbrev pub IsAuthorized : Python → Capture → List Fields → Activity → Type 0
IsAuthorized py c events a =
    ((i : ℕ) (event : Fields)
      → event_at i events ≡ some event
      → (policy_violations py c.tools event ≡ [])
        ⊎ ((c.contract.rejection_warns ≡ true) × (contains i a.exempt ≡ true)))
    × (is_custom c.contract ≡ true → any is_unclear a.classifications ≡ false)

module _ (py : Python) (codec : Codec) (c : Capture) (e : Evaluation) (stream : ParsedEvents)
    (parsed : parse_event_stream py c.tools c.lines ≡ ok stream)
    (returned : interpret py codec c stream ≡ ok e) (success : e.result.success ≡ true) where
  interpret-IsAuthorized : IsAuthorized py c stream.events e.activity
  unfolding settle
  interpret-IsAuthorized =
      let p = check_encoding c stream in
      let a = activity_of py c p in
      let (status, wins, made, judged, same) =
        evaluated py codec c e stream parsed returned success in
      let (valid, one, clean, pass) = success_parts py _ (settle py c a p) status wins in
      let (events, v, n, t, f) = settle-IsSame py codec c a p in
      let (fine, count, kept) = read py codec c e stream parsed returned success in
      let whole = (lifecycle_kept a p (sym v ∙ valid)).1 ∙ kept in
      let (certain, left) =
        doubt_nil py c (is_doubted c a) (check_rejections py c a (check_lifecycle a p)) _ clean in
      subst (λ x. IsAuthorized py c stream.events x) same
        (
          unspared py c a stream
              (parse_event_stream-all_violations py c.tools c.lines stream parsed)
              (subst (λ q. (check_rejections py c a q).policy_violations ≡ []) whole left),
          λ custom. ground (arith, certain, custom),
        )

-- If a capture is a success, every event of its stream meets the policy of the task, or it was
-- exempted and the contract makes rejections warnings; and where the contract is not the default
-- one, no tool activity is UNKNOWN.
pub evaluate_capture-IsAuthorized :
    (py : Python) (codec : Codec) (c : Capture) (e : Evaluation)
    → evaluate_capture py codec c ≡ ok e
    → e.result.success ≡ true
    → (stream : ParsedEvents) × (parse_event_stream py c.tools c.lines ≡ ok stream)
      × IsAuthorized py c stream.events e.activity
evaluate_capture-IsAuthorized py codec c e returned success =
    let (stream, parsed, done) = evaluate_capture-stream py codec c e returned in
    (stream, parsed, interpret-IsAuthorized py codec c e stream parsed done success)
