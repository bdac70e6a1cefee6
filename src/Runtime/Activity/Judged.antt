-- ===== src/Runtime/Activity/Judged.antt =====
-- Which judgements of `classify_activity` exempt their event.
use dispatcher_for_codex_age.Prelude.{
  String, ◌≡◌, refl, inl, inr, true, false, ◌&&◌, List, ◌==◌, nat_eq, list_eq, string_eq, arith,
  Bool-cases,
}
use dispatcher_for_codex_age.Json.{Fields}
use dispatcher_for_codex_age.Runtime.Lifecycle.{Kind}
use dispatcher_for_codex_age.Runtime.Activity.{
  Protocol, is_synthetic, Class, rejected, is_rejection, judge, judge_tool, judge_command,
  judge_dispatch, is_nil,
}

command_exempts :
    (event_type : Kind) (item : Fields) (states : List Class)
    → (judge_command event_type item states).exempts ≡ false
unfolding judge_command
command_exempts event_type item states = ground arith

dispatch_exempts :
    (event_type : Kind) (item : Fields) → (judge_dispatch event_type item).exempts ≡ false
unfolding judge_dispatch
dispatch_exempts event_type item = ground arith

tool_exempts :
    (event_type : Kind) (kind : String) (item : Fields) (states : List Class)
    → (judge_tool event_type kind item states).exempts ≡ false
unfolding judge_tool
tool_exempts event_type kind item states =
    ground (arith, command_exempts event_type item states, dispatch_exempts event_type item)

unasked :
    (protocol : Protocol) (event_type : Kind) (kind : String) (item : Fields) (states : List Class)
    → (kind == "request_user_input_rejection" && is_synthetic protocol) ≡ false
    → (judge protocol event_type kind item states).exempts ≡ false
unfolding judge
unasked protocol event_type kind item states other =
    rw other (ground (arith, tool_exempts event_type kind item states))

-- What an event that is exempted is.
pub judge_exempts :
    (protocol : Protocol) (event_type : Kind) (kind : String) (item : Fields) (states : List Class)
    → (judge protocol event_type kind item states).exempts ≡ true
    → ((kind == "request_user_input_rejection" && is_synthetic protocol) ≡ true)
      × ((is_rejection event_type item && is_nil states) ≡ true)
      × ((judge protocol event_type kind item states).state ≡ rejected)
unfolding judge
judge_exempts protocol event_type kind item states h =
    elim (Bool-cases (kind == "request_user_input_rejection" && is_synthetic protocol)) [
      | inl asked ↦ elim (Bool-cases (is_rejection event_type item && is_nil states)) [
        | inl shaped ↦ (asked, shaped, rw (asked, shaped) refl)
        | inr other ↦
            let spared : (judge protocol event_type kind item states).exempts ≡ false =
              rw (asked, other) refl in
            cc
      ]
      | inr other ↦ let spared = unasked protocol event_type kind item states other in cc
    ]
