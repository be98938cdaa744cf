-- ===== src/Clients/Printing.antt =====
-- offboarding/cli/main.py: what is printed. A line is its parts, which two spaces join.
use package.text.Mathlib.Text.{◌==◌ as str_eq}
use Prim.Native.String.{◌++◌ as str_append}
use offboarding_orchestrator.Prelude.{
  String, Option, none, some, List, [], ◌∷◌, ◌++◌, if◌then◌else◌,
}
use offboarding_orchestrator.Domain.RunStatus
use offboarding_orchestrator.Domain.StepStatus
use offboarding_orchestrator.Domain.PauseReason
use offboarding_orchestrator.Domain.PauseReason.{PauseReason}
use offboarding_orchestrator.Domain.FailureReason
use offboarding_orchestrator.Domain.FailureReason.{FailureReason}
use offboarding_orchestrator.Domain.Json.{Value, null, num, str, get_field}
use offboarding_orchestrator.Domain.JsonText.{Members, loads}
use offboarding_orchestrator.Domain.Errors.{Message, plain}
use offboarding_orchestrator.Domain.Models.{
  Run, StepAttempt, SideEffectRecord, EffectState, reserved, in_progress, completed, failed,
}
use offboarding_orchestrator.Orchestration.State.{or_default, truth}

abbrev pub Line : Type 0
Line = List Message

abbrev pub line : String → List Value → Line
line template values = record { template = template; values = values } ∷ []

-- A message within a message.
abbrev pub inlined : Option Message → List Value
inlined none = null ∷ []
inlined (some m) = str m.template ∷ m.values

abbrev paused_line : Option PauseReason → List Line
paused_line none = []
paused_line (some p) = line "paused_for   {}" (str (PauseReason.value p) ∷ []) ∷ []

abbrev failed_line : Option FailureReason → Option Message → List Line
failed_line none why = []
failed_line (some f) why =
    line "failed_with  {}: {}" (str (FailureReason.value f) ∷ inlined why) ∷ []

unfoldable pub run_lines : Run → List Line
run_lines run =
    line "run_id       {}" (str run.run_id ∷ [])
    ∷ line "employee_id  {}" (str run.employee_id ∷ [])
    ∷ line "status       {}" (str (RunStatus.value run.status) ∷ [])
    ∷ (paused_line run.pause_reason
        ++ (failed_line run.failure_reason run.failure_detail
            ++ (line "steps        {}/{}" (num run.step_count ∷ num run.max_steps ∷ [])
                ∷ line "tool_calls   {}/{}" (num run.tool_call_count ∷ num run.max_tool_calls ∷ [])
                ∷ [])))

-- f"[{run.pause_reason.value}]", if there is one
abbrev bracketed : Option PauseReason → String
bracketed none = ""
bracketed (some p) = str_append "[" (str_append (PauseReason.value p) "]")

unfoldable pub run_line : Run → Line
run_line run = line "{:<20} {:<28} emp={}" (
    str run.run_id
    ∷ str (str_append (RunStatus.value run.status) (bracketed run.pause_reason))
    ∷ str run.employee_id
    ∷ [])

abbrev if_text : Option String → (String → Line) → Line
if_text none part = []
if_text (some s) part = if str_eq s "" then [] else part s

abbrev if_paused : Option PauseReason → Line
if_paused none = []
if_paused (some p) = line "pause={}" (str (PauseReason.value p) ∷ [])

abbrev if_true : String → Members → String → Line
if_true key detail text =
    if truth (or_default null (get_field key (loads detail))) then plain text ∷ [] else []

unfoldable pub trace_line : StepAttempt → Line
trace_line attempt =
    line "#{:<2} {:<24} {}"
      (num attempt.attempt ∷ str attempt.step_name ∷ str (StepStatus.value attempt.status) ∷ [])
    ++ (if_text attempt.tool_invoked (λ tool. line "tool={}" (str tool ∷ []))
        ++ (if_paused attempt.pause_reason
            ++ (if_text attempt.error_type
                  (λ type. line "error={}: {}" (str type ∷ inlined attempt.error_message))
                ++ (if_true "replayed" attempt.detail "[replayed: idempotent no-op]"
                    ++ if_true "reconciled" attempt.detail
                        "[reconciled: recovered from provider after a crash]"))))

abbrev state_text : EffectState → String
state_text reserved = "reserved"
state_text in_progress = "in_progress"
state_text completed = "completed"
state_text failed = "failed"

unfoldable pub side_effect_line : SideEffectRecord → Line
side_effect_line row =
    line "{:<24} {:<12} key={}"
      (str row.step_name ∷ str (state_text row.state) ∷ str row.idempotency_key ∷ [])
