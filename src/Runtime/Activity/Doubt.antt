-- ===== src/Runtime/Activity/Doubt.antt =====
-- How a doubt about a call shows in the classification.
use dispatcher_for_codex_age.Prelude.{
  ℕ, ◌≡◌, refl, ◌∙◌, Bool, true, false, List, [], ◌∷◌, ◌++◌, any, any-append, any-last, map, length,
  ◌==◌, nat_eq, list_eq, string_eq, if◌then◌else◌, arith,
}
use dispatcher_for_codex_age.Runtime.Lifecycle.{Issue}
use dispatcher_for_codex_age.Runtime.Activity.{
  Class, rejected, unclear, is_unclear, Call, executed, no_activity,
}
use dispatcher_for_codex_age.Runtime.Activity.Classify.{
  is_conflicting, sorted_classes, settled, call_classes, classify_call, ClassifiedCall, all_classes,
  aggregated,
}
use dispatcher_for_codex_age.Runtime.Activity.Lone.{is_lone, is_doubtful}

four :
    (a b c d : Bool)
    → any is_unclear (
        (if a then no_activity ∷ [] else [])
        ++ (if b then rejected ∷ [] else [])
        ++ (if c then executed ∷ [] else [])
        ++ (if d then unclear ∷ [] else []))
      ≡ d
four a b c d = ground arith

pub sorted-unclear : (cs : List Class) → any is_unclear (sorted_classes cs) ≡ any is_unclear cs
sorted-unclear cs = four _ _ _ _

settled_unclear : (cs : List Class) → any is_unclear cs ≡ true → any is_unclear (settled cs) ≡ true
settled_unclear [] h = cc
settled_unclear (c ∷ cs) h = ground arith

doubted :
    (b : Bool) (states : List Class)
    → any is_unclear states ≡ true
    → any is_unclear (if b then states ++ unclear ∷ [] else states) ≡ true
doubted true states h = any-last is_unclear states unclear refl
doubted false states h = h

call_unclear : (c : Call) → is_doubtful c ≡ true → any is_unclear (call_classes c) ≡ true
unfolding call_classes
call_unclear c h =
    let states = if is_conflicting c then c.states ++ unclear ∷ [] else c.states in
    settled_unclear (sorted_classes states)
      (sorted-unclear states ∙ doubted (is_conflicting c) c.states h)

pub doubt_shows :
    (lifecycle : List Issue) (calls : List Call)
    → any is_doubtful calls ≡ true
    → any is_unclear (all_classes (map (classify_call lifecycle) calls)) ≡ true
doubt_shows lifecycle [] h = cc
doubt_shows (x ∷ lifecycle) (c ∷ calls) h = refl
doubt_shows [] (c ∷ calls) h = ground (
  arith,
  any-append is_unclear (call_classes c) (all_classes (map (classify_call []) calls)),
  call_unclear c,
  doubt_shows [] calls,
)

shown :
    (cs : List Class)
    → any is_unclear cs ≡ true
    → any is_unclear (if length cs == 0 then no_activity ∷ [] else sorted_classes cs) ≡ true
shown [] h = cc
shown (c ∷ cs) h =
    let filled : (length (c ∷ cs) == 0) ≡ false = ground arith in
    rw filled (sorted-unclear (c ∷ cs) ∙ h)

pub aggregated_unclear :
    (clean : Bool) (calls : List ClassifiedCall)
    → any is_unclear (all_classes calls) ≡ true
    → any is_unclear (aggregated clean calls) ≡ true
aggregated_unclear clean calls h =
    let rest = if clean then [] else unclear ∷ [] in
    shown (all_classes calls ++ rest) (any-append is_unclear (all_classes calls) rest ∙ rw h refl)

pub lone_shown :
    (i : ℕ) (lifecycle : List Issue) (calls : List Call)
    → any (is_lone i) calls ≡ true
    → any (λ x. is_lone i x.call) (map (classify_call lifecycle) calls) ≡ true
lone_shown i lifecycle [] h = cc
lone_shown i [] (c ∷ calls) h = ground (arith, lone_shown i [] calls)
lone_shown i (x ∷ lifecycle) (c ∷ calls) h = ground (arith, lone_shown i (x ∷ lifecycle) calls)
