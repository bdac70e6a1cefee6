-- ===== src/Runtime/Activity/Lone.antt =====
-- The invariant of the pass of `classify_activity`: an event that is exempted is the only one of its
-- call, or a call has an UNKNOWN state.
use dispatcher_for_codex_age.Prelude.{
  ℕ, String, ◌≡◌, refl, sym, ap, ◌∙◌, ◌⊎◌, inl, inr, Bool, true, false, not, ◌&&◌, ◌||◌, List, [],
  ◌∷◌, ◌++◌, any, all, any-append, All, All-append, All-imp, any-last, ◌==◌, nat_eq, list_eq,
  string_eq, if◌then◌else◌, arith, Bool-cases, ==_iff, ==_refl,
}
use dispatcher_for_codex_age.Json.{Fields}
use dispatcher_for_codex_age.Runtime.Lifecycle.{Kind, is_completed}
use dispatcher_for_codex_age.Runtime.Activity.{
  Protocol, Class, rejected, unclear, is_unclear, is_rejected, Call, is_rejection, Judgement, judge,
  is_nil,
}
use dispatcher_for_codex_age.Runtime.Activity.Events.{call_of, set_call, earlier, updated}
use dispatcher_for_codex_age.Runtime.Activity.Judged.{judge_exempts}

-- A call whose one event is the rejection at an index.
abbrev pub is_lone : ℕ → Call → Bool
is_lone i c = c.evidence == i ∷ [] && all is_rejected c.states && c.closed

abbrev pub is_doubtful : Call → Bool
is_doubtful c = any is_unclear c.states

abbrev has_states : Call → Bool
has_states c = not (is_nil c.states)

-- The call that an event changes.
call_of-id : (id kind : String) (calls : List Call) → (call_of id kind calls).call_id ≡ id
call_of-id id kind [] = refl
call_of-id id kind (c ∷ calls) = elim (Bool-cases (id == c.call_id)) [
  | inl here ↦ rw here (sym ((==_iff id c.call_id).0 here))
  | inr later ↦ rw later (call_of-id id kind calls)
]

module _ (id kind : String) (f : Call → Bool) (new : Call) (same : new.call_id ≡ id) where
  any-set_call :
      (calls : List Call)
      → any f calls ≡ true
      → (f (call_of id kind calls) ≡ true → f new ≡ true)
      → any f (set_call new calls) ≡ true
  any-set_call [] h g = cc
  any-set_call (c ∷ calls) h g = elim (Bool-cases (id == c.call_id)) [
    | inl here ↦
        let found : f c ≡ true → f new ≡ true = λ w. g (rw here w) in
        rw (same, here) (ground (arith, found))
    | inr later ↦
        let rest : any f calls ≡ true → any f (set_call new calls) ≡ true =
          λ w. any-set_call calls w λ v. g (rw later v) in
        rw (same, later) (ground (arith, rest))
  ]

  any_new : (calls : List Call) → f new ≡ true → any f (set_call new calls) ≡ true
  any_new [] h = ground arith
  any_new (c ∷ calls) h = elim (Bool-cases (id == c.call_id)) [
    | inl here ↦ rw (same, here) (ground arith)
    | inr later ↦ let rest = any_new calls h in rw (same, later) (ground (arith, rest))
  ]

  all-set_call :
      (calls : List Call) → all f calls ≡ true → f new ≡ true → all f (set_call new calls) ≡ true
  all-set_call [] h g = ground arith
  all-set_call (c ∷ calls) h g =
      let rest : all f calls ≡ true → all f (set_call new calls) ≡ true =
        λ w. all-set_call calls w g in
      elim (Bool-cases (id == c.call_id)) [
        | inl here ↦ rw (same, here) (ground arith)
        | inr later ↦ rw (same, later) (ground (arith, rest))
      ]

fresh :
    (id kind : String) (calls : List Call)
    → all has_states calls ≡ true
    → is_nil (call_of id kind calls).states ≡ true
    → (call_of id kind calls).evidence ≡ []
fresh id kind [] h n = refl
fresh id kind (c ∷ calls) h n = elim (Bool-cases (id == c.call_id)) [
  | inl here ↦
      let full : is_nil c.states ≡ true =
        ap (λ b. is_nil (if b then c else call_of id kind calls).states) (sym here) ∙ n in
      ground arith
  | inr later ↦ rw later (
      fresh id kind calls (ground arith)
        (ap (λ b. is_nil (if b then c else call_of id kind calls).states) (sym later) ∙ n))
]

shape_completed :
    (event_type : Kind) (item : Fields) (b : Bool)
    → (is_rejection event_type item && b) ≡ true
    → is_completed event_type ≡ true
unfolding is_rejection
shape_completed event_type item b h = ground arith

abbrev pub IsSettled : List Call → List ℕ → Type 0
IsSettled calls exempt =
    (all has_states calls ≡ true)
    × ((any is_doubtful calls ≡ true) ⊎ All (λ i. any (is_lone i) calls ≡ true) exempt)

last_state : (before : List Class) (c : Class) → not (is_nil (before ++ c ∷ [])) ≡ true
last_state [] c = refl
last_state (b ∷ before) c = refl

nil_states : (states : List Class) → is_nil states ≡ true → states ≡ []
nil_states [] h = refl
nil_states (c ∷ states) h = cc

-- A state that is added does not take the doubt away.
grown :
    (states : List Class) (c : Class)
    → any is_unclear states ≡ true
    → any is_unclear (states ++ c ∷ []) ≡ true
grown states c h = ground (arith, any-append is_unclear states (c ∷ []))

one_event :
    (index : ℕ) (evidence : List ℕ) (states : List Class) (c : Class) (was_closed closes : Bool)
    → evidence ≡ []
    → states ≡ []
    → c ≡ rejected
    → closes ≡ true
    → ((evidence ++ index ∷ []) == index ∷ []
        && all is_rejected (states ++ c ∷ [])
        && (was_closed || closes))
      ≡ true
one_event index evidence states c was_closed closes e s j h =
    rw (e, s, j, h) (ground (arith, ==_refl (index ∷ [])))

with_index :
    (P : ℕ → Type 0) (exempts : Bool) (exempt : List ℕ) (index : ℕ)
    → All P exempt
    → (exempts ≡ true → P index)
    → All P (if exempts then exempt ++ index ∷ [] else exempt)
with_index P true exempt index h p = All-append P exempt (index ∷ []) h (p refl, tt)
with_index P false exempt index h p = h

module _ (protocol : Protocol) (index : ℕ) (event_type : Kind) (id kind : String) (item : Fields)
    (calls : List Call) (exempt : List ℕ) where
  abbrev old : Call
  old = call_of id kind calls

  abbrev before : List Class
  before = earlier kind old

  abbrev judged : Judgement
  judged = judge protocol event_type kind item before

  abbrev new : Call
  new = updated index event_type before judged old

  -- A call that was closed, or has another tool, becomes doubtful.
  closed_doubtful : (not (kind == old.tool) || old.closed) ≡ true → is_doubtful new ≡ true
  closed_doubtful again =
      grown before judged.state (rw again (any-last is_unclear old.states unclear refl))

  still_doubtful :
      (not (kind == old.tool) || old.closed) ≡ false
      → is_doubtful old ≡ true
      → is_doubtful new ≡ true
  still_doubtful first doubt = grown before judged.state (rw first doubt)

  first_lone :
      (not (kind == old.tool) || old.closed) ≡ false
      → all has_states calls ≡ true
      → judged.exempts ≡ true
      → is_lone index new ≡ true
  first_lone first full exempts =
      let (asked, shaped, state) = judge_exempts protocol event_type kind item before exempts in
      let empty = nil_states before (ground (arith, shaped)) in
      let unused : is_nil old.states ≡ true = ap is_nil (rw first refl ∙ empty) in
      one_event index old.evidence before judged.state old.closed (is_completed event_type)
        (fresh id kind calls full unused) empty state
        (shape_completed event_type item (is_nil before) shaped)

  pub call_settles :
      IsSettled calls exempt
      → IsSettled (set_call new calls) (if judged.exempts then exempt ++ index ∷ [] else exempt)
  call_settles (full, doubt) =
      let same = call_of-id id kind calls in
      (
        all-set_call id kind has_states new same calls full (last_state before judged.state),
        elim (Bool-cases (not (kind == old.tool) || old.closed)) [
          | inl again ↦ inl (any_new id kind is_doubtful new same calls (closed_doubtful again))
          | inr first ↦ elim doubt [
            | inl doubtful ↦
                inl
                  (any-set_call id kind is_doubtful new same calls doubtful (still_doubtful first))
            | inr alone ↦
                let kept =
                  All-imp (λ i. any (is_lone i) calls ≡ true)
                    {Q = λ i. any (is_lone i) (set_call new calls) ≡ true} exempt
                    (λ i w. any-set_call id kind (is_lone i) new same calls w λ v. ground arith)
                    alone in
                inr (
                  with_index (λ i. any (is_lone i) (set_call new calls) ≡ true) judged.exempts
                    exempt index kept
                    λ exempts.
                      any_new id kind (is_lone index) new same calls
                        (first_lone first full exempts))
          ]
        ],
      )
