-- ===== src/Runtime/Activity/Classify.antt =====
-- agent_harness/runtime_contract.py, `classify_activity`: the classification after the pass. The
-- entries of `issues` that `_lifecycle_issues` gives stand in their own field. Of a diagnostic, the
-- index of its event is kept.
use dispatcher_for_codex_age.Prelude.{
  ℕ, String, Bool, true, false, not, ◌&&◌, ◌||◌, none, List, [], ◌∷◌, ◌++◌, map, any, all, length,
  ◌==◌, nat_eq, if◌then◌else◌,
}
use dispatcher_for_codex_age.Json.{Json, Fields, obj, get}
use dispatcher_for_codex_age.Adapter.{Python}
use dispatcher_for_codex_age.Runtime.Lifecycle.{Issue, lifecycle_issues}
use dispatcher_for_codex_age.Runtime.Activity.{
  Protocol, protocol_for_version, is_supported, is_bool, Class, no_activity, rejected, executed,
  unclear, is_rejected, is_executed, is_unclear, is_in_progress, Call,
}
use dispatcher_for_codex_age.Runtime.Activity.Events.{
  Problem, unsupported_or_incomplete, unfinished_work, stderr_signal, Work, Pass, pass_over,
  no_calls,
}

abbrev pub is_done : Json → Bool
is_done (obj step) = is_bool true (get "completed" step)
is_done _ = false

abbrev pub is_work_done : Work → Bool
is_work_done work = all (λ entry. all is_done entry.1) work

-- `sorted` of a set of classifications, by their texts.
abbrev pub sorted_classes : List Class → List Class
sorted_classes cs =
    (if any (λ c. elim c [ no_activity ↦ true | _ ↦ false ]) cs then no_activity ∷ [] else [])
    ++ (if any is_rejected cs then rejected ∷ [] else [])
    ++ (if any is_executed cs then executed ∷ [] else [])
    ++ (if any is_unclear cs then unclear ∷ [] else [])

-- `UNKNOWN` is added to the states of the call, whose `"STARTED"` is then left out.
abbrev pub is_conflicting : Call → Bool
is_conflicting call =
    not call.closed
    || any is_rejected call.states
      && (any is_executed call.states || any is_in_progress call.states)

abbrev pub settled : List Class → List Class
settled states = if length states == 0 then unclear ∷ [] else states

unfoldable pub call_classes : Call → List Class
call_classes call =
    settled
      (sorted_classes (if is_conflicting call then call.states ++ unclear ∷ [] else call.states))

-- An entry of `calls` in the result.
pub record ClassifiedCall : Type 0 where
  pub call : Call
  pub classifications : List Class

abbrev pub is_none : List Issue → Bool
is_none [] = true
is_none (_ ∷ _) = false

abbrev pub classify_call : List Issue → Call → ClassifiedCall
classify_call [] call = record { call = call; classifications = call_classes call }
classify_call (_ ∷ _) call = record {
  call = record call { outcome = none };
  classifications = unclear ∷ [];
}

abbrev pub all_classes : List ClassifiedCall → List Class
all_classes [] = []
all_classes (c ∷ calls) = c.classifications ++ all_classes calls

-- The result of `classify_activity`.
pub record Activity : Type 0 where
  pub protocol : Protocol
  pub diagnostics : List ℕ
  pub lifecycle : List Issue
  pub lifecycle_passes : Bool
  pub classifications : List Class
  pub calls : List ClassifiedCall
  pub issues : List Problem
  pub exempt : List ℕ

abbrev stderr_pattern : String
stderr_pattern = "request_user_input|tool.{0,30}(?:reject|denied|unavailable)"

-- `issues`, but for those of the lifecycle.
abbrev pub all_issues : Python → Bool → String → Pass → List Problem
all_issues py accepted stderr s =
    (if accepted then [] else unsupported_or_incomplete ∷ [])
    ++ s.issues
    ++ (if is_work_done s.work then [] else unfinished_work ∷ [])
    ++ (if py.search stderr_pattern stderr then stderr_signal ∷ [] else [])

-- `aggregates`, for whether there are issues.
abbrev pub aggregated : Bool → List ClassifiedCall → List Class
aggregated clean calls =
    let classes = all_classes calls ++ (if clean then [] else unclear ∷ []) in
    if length classes == 0 then no_activity ∷ [] else sorted_classes classes

unfoldable pub classify_activity : Python → List Fields → String → Bool → String → Activity
unfolding protocol_for_version lifecycle_issues pass_over call_classes
classify_activity py events version complete stderr =
    let protocol = protocol_for_version version in
    let (lifecycle, diagnostics) = lifecycle_issues (is_supported protocol) events in
    let s = pass_over py protocol diagnostics 0 events no_calls in
    let issues = all_issues py (is_supported protocol && complete) stderr s in
    let calls = map (classify_call lifecycle) s.calls in
    let classes = aggregated (is_none lifecycle && length issues == 0) calls in
    record {
      protocol = protocol;
      diagnostics = diagnostics;
      lifecycle = lifecycle;
      lifecycle_passes = is_supported protocol && is_none lifecycle;
      classifications = classes;
      calls = calls;
      issues = issues;
      exempt = if any is_unclear classes then [] else s.exempt;
    }
