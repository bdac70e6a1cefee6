-- ===== src/Runtime/Activity/Conclusive.antt =====
-- When `classify_activity` says of nothing that it is UNKNOWN.
use dispatcher_for_codex_age.Prelude.{
  String, ◌≡◌, refl, sym, ap, ◌∙◌, ◌↔◌, Bool, true, false, not, ◌&&◌, ◌||◌, List, [], ◌∷◌, ◌++◌,
  map, any, all, any-append, any-last, length, ◌==◌, nat_eq, if◌then◌else◌, arith,
}
use dispatcher_for_codex_age.Json.{Fields}
use dispatcher_for_codex_age.Adapter.{Python}
use dispatcher_for_codex_age.Runtime.Lifecycle.{Issue, lifecycle_issues}
use dispatcher_for_codex_age.Runtime.Activity.{
  protocol_for_version, is_supported, Class, no_activity, rejected, executed, unclear, started,
  is_rejected, is_executed, is_unclear, is_in_progress, Call,
}
use dispatcher_for_codex_age.Runtime.Activity.Events.{Pass, pass_over, no_calls}
use dispatcher_for_codex_age.Runtime.Activity.Classify.{
  is_none, sorted_classes, is_conflicting, settled, call_classes, classify_call, ClassifiedCall,
  all_classes, all_issues, aggregated, Activity, classify_activity,
}
use dispatcher_for_codex_age.Runtime.Activity.Doubt.{sorted-unclear}

abbrev is_shown : Class → Bool
is_shown c = not (is_in_progress c)

-- A call that is over and of which the stream says one thing.
abbrev pub is_conclusive : Call → Bool
is_conclusive c =
    c.closed
    && not (any is_unclear c.states)
    && not (any is_rejected c.states && (any is_executed c.states || any is_in_progress c.states))
    && any is_shown c.states

none_listed :
    (a b c d : Bool)
    → (length (
          (if a then no_activity ∷ [] else [])
          ++ (if b then rejected ∷ [] else [])
          ++ (if c then executed ∷ [] else [])
          ++ (if d then unclear ∷ [] else []))
        == 0)
      ≡ not (a || b || c || d)
none_listed a b c d = ground arith

any_shown :
    (cs : List Class)
    → any is_shown cs ≡ (
        any (λ c. elim c [ no_activity ↦ true | _ ↦ false ]) cs
        || any is_rejected cs
        || any is_executed cs
        || any is_unclear cs)
any_shown [] = refl
any_shown (no_activity ∷ cs) = refl
any_shown (rejected ∷ cs) = ground arith
any_shown (executed ∷ cs) = ground arith
any_shown (unclear ∷ cs) = ground arith
any_shown (started ∷ cs) = any_shown cs

sorted-length : (cs : List Class) → (length (sorted_classes cs) == 0) ≡ not (any is_shown cs)
sorted-length cs = none_listed _ _ _ _ ∙ ap not (sym (any_shown cs))

settled-unclear :
    (cs : List Class) → any is_unclear (settled cs) ≡ (length cs == 0 || any is_unclear cs)
settled-unclear [] = refl
settled-unclear (c ∷ cs) =
    let filled : (length (c ∷ cs) == 0) ≡ false = ground arith in rw filled refl

listed-unclear :
    (cs : List Class)
    → any is_unclear (settled (sorted_classes cs)) ≡ (not (any is_shown cs) || any is_unclear cs)
listed-unclear cs =
    settled-unclear (sorted_classes cs) ∙ rw (sorted-length cs, sorted-unclear cs) refl

or_true : (b : Bool) → (b || true) ≡ true
or_true true = refl
or_true false = refl

doubted-unclear :
    (b : Bool) (states : List Class)
    → any is_unclear (settled (sorted_classes (if b then states ++ unclear ∷ [] else states)))
      ≡ (b || not (any is_shown states) || any is_unclear states)
doubted-unclear true states =
    listed-unclear (states ++ unclear ∷ [])
    ∙ rw (any-last is_unclear states unclear refl) (or_true _)
doubted-unclear false states = listed-unclear states

four_negated :
    (closed conflict shown doubt : Bool)
    → ((not closed || conflict) || not shown || doubt)
      ≡ not (closed && not doubt && not conflict && shown)
four_negated closed conflict shown doubt = ground arith

two_negated : (a b : Bool) → (not a || not b) ≡ not (a && b)
two_negated true b = refl
two_negated false b = refl

call_classes-unclear : (c : Call) → any is_unclear (call_classes c) ≡ not (is_conclusive c)
unfolding call_classes
call_classes-unclear c =
    doubted-unclear (is_conflicting c) c.states
    ∙ four_negated c.closed _ _ (any is_unclear c.states)

calls_unclear :
    (calls : List Call)
    → any is_unclear (all_classes (map (classify_call []) calls)) ≡ not (all is_conclusive calls)
calls_unclear [] = refl
calls_unclear (c ∷ calls) =
    any-append is_unclear (call_classes c) (all_classes (map (classify_call []) calls))
    ∙ rw (call_classes-unclear c, calls_unclear calls)
        (two_negated (is_conclusive c) (all is_conclusive calls))

chosen-unclear :
    (cs : List Class)
    → any is_unclear (if length cs == 0 then no_activity ∷ [] else sorted_classes cs)
      ≡ any is_unclear cs
chosen-unclear [] = refl
chosen-unclear (c ∷ cs) =
    let filled : (length (c ∷ cs) == 0) ≡ false = ground arith in
    rw filled (sorted-unclear (c ∷ cs))

issues_unclear : (clean : Bool) → any is_unclear (if clean then [] else unclear ∷ []) ≡ not clean
issues_unclear true = refl
issues_unclear false = refl

aggregated-unclear :
    (clean : Bool) (calls : List ClassifiedCall)
    → any is_unclear (aggregated clean calls) ≡ (any is_unclear (all_classes calls) || not clean)
aggregated-unclear clean calls =
    let rest = if clean then [] else unclear ∷ [] in
    chosen-unclear (all_classes calls ++ rest)
    ∙ any-append is_unclear (all_classes calls) rest
    ∙ ap (λ b. any is_unclear (all_classes calls) || b) (issues_unclear clean)

conclusive_calls :
    (lifecycle : List Issue) (calls : List Call)
    → all (λ x. is_conclusive x.call) (map (classify_call lifecycle) calls)
      ≡ all is_conclusive calls
conclusive_calls lifecycle [] = refl
conclusive_calls [] (c ∷ calls) = ap (λ b. is_conclusive c && b) (conclusive_calls [] calls)
conclusive_calls (x ∷ lifecycle) (c ∷ calls) =
    ap (λ b. is_conclusive c && b) (conclusive_calls (x ∷ lifecycle) calls)

-- What a stream without a doubt is.
abbrev pub is_certain : Bool → Activity → Bool
is_certain complete a =
    is_supported a.protocol
    && complete
    && is_none a.lifecycle
    && length a.issues == 0
    && all (λ x. is_conclusive x.call) a.calls

-- A capture that is not accepted has an issue.
no_issue :
    (py : Python) (accepted : Bool) (stderr : String) (s : Pass)
    → (length (all_issues py accepted stderr s) == 0) ≡ true
    → accepted ≡ true
no_issue py true stderr s h = refl
no_issue py false stderr s h = ground arith

certain_iff :
    (accepted complete : Bool) (lifecycle : List Issue) (none_left : Bool) (calls : List Call)
    → (none_left ≡ true → (accepted && complete) ≡ true)
    → (any is_unclear
          (aggregated (is_none lifecycle && none_left) (map (classify_call lifecycle) calls))
        ≡ false)
      ↔ ((accepted
            && complete
            && is_none lifecycle
            && none_left
            && all (λ x. is_conclusive x.call) (map (classify_call lifecycle) calls))
          ≡ true)
certain_iff accepted complete [] none_left calls h =
    rw
      (
        conclusive_calls [] calls,
        aggregated-unclear none_left (map (classify_call []) calls),
        calls_unclear calls,
      )
      (λ p. ground (arith, h), λ q. ground arith)
certain_iff accepted complete (x ∷ lifecycle) none_left calls h =
    rw (aggregated-unclear false (map (classify_call (x ∷ lifecycle)) calls))
      (λ p. ground arith, λ q. ground arith)

-- `classify_activity` finds nothing UNKNOWN exactly if the protocol is a known one and the stream is
-- complete, the pass over the turn reports no issue and nothing else is one, and every call is
-- closed, has no UNKNOWN state, is not both rejected and begun, and has a state that is not STARTED.
pub classify_activity_iff :
    (py : Python) (events : List Fields) (version : String) (complete : Bool) (stderr : String)
    → (any is_unclear (classify_activity py events version complete stderr).classifications ≡ false)
      ↔ (is_certain complete (classify_activity py events version complete stderr) ≡ true)
unfolding classify_activity
classify_activity_iff py events version complete stderr =
    let protocol = protocol_for_version version in
    let (lifecycle, diagnostics) = lifecycle_issues (is_supported protocol) events in
    let s = pass_over py protocol diagnostics 0 events no_calls in
    let issues = all_issues py (is_supported protocol && complete) stderr s in
    certain_iff (is_supported protocol) complete lifecycle (length issues == 0) s.calls
      (no_issue py (is_supported protocol && complete) stderr s)
