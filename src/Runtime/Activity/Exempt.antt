-- ===== src/Runtime/Activity/Exempt.antt =====
-- Which events `classify_activity` exempts.
use dispatcher_for_codex_age.Prelude.{
  ℕ, suc, String, ◌≡◌, refl, sym, ap, ◌∙◌, ◌⊎◌, inl, inr, Bool, true, false, ◌&&◌, ◌||◌, List, [],
  ◌∷◌, ◌++◌, any, All, length, contains, ◌==◌, nat_eq, list_eq, string_eq, if◌then◌else◌, arith,
  Bool-cases, ==_refl, ==_iff,
}
use dispatcher_for_codex_age.Json.{Fields, str, obj, get, str_is}
use dispatcher_for_codex_age.Adapter.{Python}
use dispatcher_for_codex_age.Runtime.Lifecycle.{lifecycle_issues, kind_of_text}
use dispatcher_for_codex_age.Runtime.Activity.{
  Protocol, is_synthetic, is_unclear, Call, is_rejection, judge, protocol_for_version, is_supported,
}
use dispatcher_for_codex_age.Runtime.Activity.Events.{
  Pass, call_of, earlier, call_event, event_step, pass_over, no_calls,
}
use dispatcher_for_codex_age.Runtime.Activity.Classify.{
  is_none, settled, Activity, classify_activity,
}
use dispatcher_for_codex_age.Runtime.Activity.Judged.{judge_exempts}
use dispatcher_for_codex_age.Runtime.Activity.Cases.{event_step-IsStep}
use dispatcher_for_codex_age.Runtime.Activity.Doubt.{doubt_shows, aggregated_unclear, lone_shown}
use dispatcher_for_codex_age.Runtime.Activity.Lone.{IsSettled, is_lone, call_settles}

-- A completed item of the exact shape.
abbrev pub is_rejection_event : Fields → Bool
is_rejection_event event = elim (get "type" event) [
  | str t ↦ elim (get "item" event) [
    | obj item ↦
        str_is "request_user_input_rejection" (get "type" item)
        && is_rejection (kind_of_text t) item
    | _ ↦ false
  ]
  | _ ↦ false
]

-- The event at an index is one, for a list whose first event has an index.
abbrev pub rejects_at : ℕ → ℕ → List Fields → Bool
rejects_at i index [] = false
rejects_at i index (event ∷ events) =
    i == index && is_rejection_event event || rejects_at i (suc index) events

with_last :
    (i index : ℕ) (exempts : Bool) (exempt : List ℕ)
    → contains i (if exempts then exempt ++ index ∷ [] else exempt) ≡ true
    → (contains i exempt ≡ true) ⊎ ((i ≡ index) × (exempts ≡ true))
with_last i index false exempt h = inl h
with_last i index true [] h = inr ((==_iff i index).0 (ground arith), refl)
with_last i index true (x ∷ exempt) h = elim (Bool-cases (i == x)) [
  | inl here ↦ inl (rw here refl)
  | inr other ↦ elim (with_last i index true exempt (ground arith)) [
    | inl later ↦ inl (rw other later)
    | inr last ↦ inr last
  ]
]

module _ (py : Python) (protocol : Protocol) (diagnostics : List ℕ) where
  -- Every event keeps the invariant.
  step_settles :
      (index : ℕ) (event : Fields) (s : Pass)
      → IsSettled s.calls s.exempt
      → let s' = event_step py protocol diagnostics index event s in IsSettled s'.calls s'.exempt
  unfolding call_event
  step_settles index event s h = elim (event_step-IsStep py protocol index s diagnostics event) [
    | inl (calls, exempt) ↦ rw (calls, exempt) h
    | inr (t, id, kind, item, before, (calls, exempt), p, q, r, called) ↦ rw called (
        call_settles protocol index (kind_of_text t) id kind item before.calls before.exempt
          (rw (calls, exempt) h))
  ]

  pass_settles :
      (index : ℕ) (events : List Fields) (s : Pass)
      → IsSettled s.calls s.exempt
      → let s' = pass_over py protocol diagnostics index events s in IsSettled s'.calls s'.exempt
  unfolding pass_over
  pass_settles index [] s h = h
  pass_settles index (event ∷ events) s h =
      pass_settles (suc index) events _ (step_settles index event s h)

  -- An index is exempted at its event only.
  step_exempts :
      (i index : ℕ) (event : Fields) (s : Pass)
      → contains i (event_step py protocol diagnostics index event s).exempt ≡ true
      → (contains i s.exempt ≡ true)
        ⊎ ((i ≡ index) × (is_synthetic protocol ≡ true) × (is_rejection_event event ≡ true))
  unfolding call_event
  step_exempts i index event s h = elim (event_step-IsStep py protocol index s diagnostics event) [
    | inl (calls, exempt) ↦ inl (ap (contains i) (sym exempt) ∙ h)
    | inr (t, id, kind, item, before, (calls, exempt), p, q, r, called) ↦
        let j =
          judge protocol (kind_of_text t) kind item (earlier kind (call_of id kind before.calls)) in
        elim (with_last i index j.exempts before.exempt
          (ap (λ x. contains i x.exempt) (sym called) ∙ h)) [
            | inl earliest ↦ inl (ap (contains i) (sym exempt) ∙ earliest)
            | inr (here, exempts) ↦
                let (asked, shaped, state) =
                  judge_exempts protocol (kind_of_text t) kind item _ exempts in
                inr (here, ground arith, rw (is_rejection_event, p, q, r) (ground arith))
          ]
  ]

  pass_exempts :
      (i index : ℕ) (events : List Fields) (s : Pass)
      → contains i (pass_over py protocol diagnostics index events s).exempt ≡ true
      → (contains i s.exempt ≡ true)
        ⊎ ((is_synthetic protocol ≡ true) × (rejects_at i index events ≡ true))
  unfolding pass_over
  pass_exempts i index [] s h = inl h
  pass_exempts i index (event ∷ events) s h = elim (pass_exempts i (suc index) events _ h) [
    | inl before ↦ elim (step_exempts i index event s before) [
      | inl earliest ↦ inl earliest
      | inr (here, synthetic, shaped) ↦ inr (synthetic, rw (here, ==_refl index, shaped) refl)
    ]
    | inr (synthetic, later) ↦ inr (synthetic, ground arith)
  ]

-- An event that is exempted is a completed item of the exact shape in a synthetic stream, it is the
-- only event of its call, and nothing in the stream is UNKNOWN.
abbrev pub IsExempted : List Fields → ℕ → Activity → Type 0
IsExempted events i a =
    (is_synthetic a.protocol ≡ true)
    × (rejects_at i 0 events ≡ true)
    × (any (λ x. is_lone i x.call) a.calls ≡ true)
    × (any is_unclear a.classifications ≡ false)

lone_of :
    (i : ℕ) (calls : List Call) (exempt : List ℕ)
    → contains i exempt ≡ true
    → All (λ k. any (is_lone k) calls ≡ true) exempt
    → any (is_lone i) calls ≡ true
lone_of i calls [] h alone = cc
lone_of i calls (x ∷ exempt) h alone = elim (Bool-cases (i == x)) [
  | inl here ↦ rw ((==_iff i x).0 here) alone.0
  | inr other ↦ lone_of i calls exempt (ground arith) alone.1
]

kept_exempt :
    (unknown : Bool) (i : ℕ) (exempt : List ℕ)
    → contains i (if unknown then [] else exempt) ≡ true
    → (unknown ≡ false) × (contains i exempt ≡ true)
kept_exempt true i exempt h = cc
kept_exempt false i exempt h = (refl, h)

-- An event that `classify_activity` exempts is a completed item of the exact shape of a rejection
-- before execution, in a stream of the synthetic protocol; it is the only event of its call; and
-- nothing in the stream is UNKNOWN.
pub classify_activity_exempts :
    (py : Python) (events : List Fields) (version : String) (complete : Bool) (stderr : String)
    (i : ℕ)
    → contains i (classify_activity py events version complete stderr).exempt ≡ true
    → IsExempted events i (classify_activity py events version complete stderr)
unfolding classify_activity
classify_activity_exempts py events version complete stderr i h =
    let a = classify_activity py events version complete stderr in
    let protocol = protocol_for_version version in
    let (lifecycle, diagnostics) = lifecycle_issues (is_supported protocol) events in
    let s = pass_over py protocol diagnostics 0 events no_calls in
    let (certain, exempt) = kept_exempt (any is_unclear a.classifications) i s.exempt h in
    let (full, settled) = pass_settles py protocol diagnostics 0 events no_calls (refl, inr tt) in
    elim (pass_exempts py protocol diagnostics i 0 events no_calls exempt) [
      | inl never ↦ cc
      | inr (synthetic, shaped) ↦ elim settled [
        | inl doubtful ↦
            let clear = is_none lifecycle && length a.issues == 0 in
            let unknown : any is_unclear a.classifications ≡ true =
              aggregated_unclear clear a.calls (doubt_shows lifecycle s.calls doubtful) in
            cc
        | inr alone ↦ (
          synthetic,
          shaped,
          lone_shown i lifecycle s.calls (lone_of i s.calls s.exempt exempt alone),
          certain,
        )
      ]
    ]
