-- ===== src/Orchestration/RunService.antt =====
-- offboarding/orchestration/run_service.py: every operation on a run. The compiled graph is
-- LangGraph's, so it is a parameter: `invoke` gives the payloads of the pending interrupts, none of
-- them for a run that got to its end.
pub mod Outcomes
pub mod Refusals
pub mod Racing
pub mod Cancelling
pub mod Keeping
pub mod History
pub mod Budget
use package.text.Mathlib.Text.{◌==◌ as str_eq}
use offboarding_orchestrator.Prelude.{
  ℕ, String, Bool, true, false, not, ◌&&◌, ◌||◌, Option, none, some, List, [], ◌∷◌, if◌then◌else◌,
}
use offboarding_orchestrator.Domain.RunStatus
use offboarding_orchestrator.Domain.RunStatus.{RunStatus}
use offboarding_orchestrator.Domain.PauseReason
use offboarding_orchestrator.Domain.PauseReason.{PauseReason}
use offboarding_orchestrator.Domain.FailureReason.{FailureReason}
use offboarding_orchestrator.Domain.Json.{
  Value, null, bool, num, str, list, nil, Fields, end, field, get_field,
}
use offboarding_orchestrator.Domain.Errors.{
  Exc, Message, plain, run_cancelled, approval_rejected, budget_exceeded, tool_not_allowed,
  invalid_plan, reconciliation_required, tool_error, key_error, value_error, invalid_run_operation,
  is_instance,
}
use offboarding_orchestrator.Domain.Result.{Result, ok, err}
use offboarding_orchestrator.Domain.Models.{Run, StepAttempt, SideEffectRecord, is_terminal}
use offboarding_orchestrator.World.{gets}
use offboarding_orchestrator.World.{Call, pure, raise, reraise, with_result, ◌>>=◌, ◌>>◌, now}
use offboarding_orchestrator.Persistence.Runs
use offboarding_orchestrator.Persistence.Runs.{set_status, request_cancel}
use offboarding_orchestrator.Persistence.Trace
use offboarding_orchestrator.Persistence.SideEffects

-- What the graph is invoked with: a state, Command(resume=...), or None.
pub data Input : Type 0 where
  state : Fields → Input
  resume : Fields → Input
  nothing : Input

pub record Graph : Type 0 where
  -- graph.invoke(input, config for the thread)
  pub invoke : Input → String → Call (List Fields)

unfoldable pub fail : Run → FailureReason → Exc → Call (Unit {0})
fail run reason e = do
  set_status run.run_id RunStatus.failed none (some reason) (some e.message)
  pure tt

unfoldable pub valid_reason : Option PauseReason → Call PauseReason
valid_reason none = raise value_error (plain "not a valid PauseReason")
valid_reason (some reason) = pure reason

-- PauseReason(payload["pause_reason"])
unfoldable pub parse_reason : Option Value → Call PauseReason
parse_reason none = raise key_error (plain "'pause_reason'")
parse_reason (some (str s)) = valid_reason (PauseReason.parse s)
parse_reason (some _) = valid_reason none

-- After a normal return.
unfoldable pub land : Run → List Fields → Call (Unit {0})
land run (payload ∷ interrupts) = do
  reason ← parse_reason (get_field "pause_reason" payload)
  set_status run.run_id RunStatus.paused (some reason) none none
  pure tt
land run [] = do set_status run.run_id RunStatus.completed none none none; pure tt

unfoldable pub reconcile : Run → Result (List Fields) → Call (Unit {0})
reconcile run (ok interrupts) = land run interrupts
reconcile run (err e) =
    if is_instance e.class run_cancelled
    then (do set_status run.run_id RunStatus.cancelled none none none; pure tt)
    else if is_instance e.class approval_rejected
    then fail run FailureReason.approval_rejected e
    else if is_instance e.class budget_exceeded
    then fail run FailureReason.budget_exceeded e
    else if is_instance e.class tool_not_allowed
    then fail run FailureReason.tool_not_allowed e
    else if is_instance e.class invalid_plan
    then fail run FailureReason.invalid_plan e
    else if is_instance e.class reconciliation_required
    then fail run FailureReason.needs_reconciliation e
    else if is_instance e.class tool_error
    then fail run FailureReason.tool_failed e
    else reraise e

unfoldable pub advance : Graph → Run → Input → Call (Unit {0})
advance graph run input = with_result (graph.invoke input run.thread_id) (reconcile run)

unfoldable pub start_run : Graph → String → ℕ → ℕ → String → Call Run
start_run graph employee_id max_steps max_tool_calls uuid_hex = do
  created ← Runs.create employee_id none max_steps max_tool_calls uuid_hex
  run ← set_status created.run_id RunStatus.running none none none
  advance graph run (
      Input.state (
        field "run_id" (str run.run_id)
          (field "employee_id" (str employee_id) (field "events" (list nil) end))))
  Runs.get run.run_id

unfoldable pub get_trace : String → Call (List StepAttempt)
get_trace run_id = Runs.get run_id >> Trace.list_for_run run_id

unfoldable pub get_side_effects : String → Call (List SideEffectRecord)
get_side_effects run_id = Runs.get run_id >> SideEffects.list_for_run run_id

-- run.pause_reason is reason
abbrev pub is_reason : PauseReason → Option PauseReason → Bool
is_reason reason none = false
is_reason reason (some p) = PauseReason.same p reason

abbrev pub is_paused_for : PauseReason → Run → Bool
is_paused_for reason run =
    RunStatus.same run.status RunStatus.paused && is_reason reason run.pause_reason

abbrev paused_text : Run → PauseReason → Option PauseReason → Message
paused_text run reason none = record {
  template = "run {} is {}, not paused for {}";
  values = str run.run_id ∷ str (RunStatus.value run.status) ∷ str (PauseReason.value reason) ∷ [];
}
paused_text run reason (some p) = record {
  template = "run {} is {} ({}), not paused for {}";
  values =
      str run.run_id
      ∷ str (RunStatus.value run.status)
      ∷ str (PauseReason.value p)
      ∷ str (PauseReason.value reason)
      ∷ [];
}

abbrev pub not_paused_for : Run → PauseReason → Exc
not_paused_for run reason = record {
  class = invalid_run_operation;
  message = paused_text run reason run.pause_reason;
}

unfoldable pub require_paused_for : Run → PauseReason → Call (Unit {0})
require_paused_for run reason =
    if not (is_paused_for reason run) then reraise (not_paused_for run reason) else pure tt

-- The note, as it stands in the value that the run is resumed with.
unfoldable pub note_value : Option String → Value
note_value none = null
note_value (some remark) = str remark

-- From the write on, for the run that was read.
unfoldable pub resolve_paused : Graph → Bool → Run → String → Option String → Call Run
resolve_paused graph approved paused approver remark = do
  run ← set_status paused.run_id RunStatus.running none none none
  advance graph run (
      Input.resume (
        field "approved" (bool approved)
          (field "approver" (str approver) (field "note" (note_value remark) end))))
  Runs.get run.run_id

unfoldable pub resolve_approval : Graph → Bool → String → String → Option String → Call Run
resolve_approval graph approved run_id approver remark = do
  paused ← Runs.get run_id
  require_paused_for paused PauseReason.hr_approval
  resolve_paused graph approved paused approver remark

unfoldable pub approve : Graph → String → String → Option String → Call Run
approve graph run_id approver remark = resolve_approval graph true run_id approver remark

unfoldable pub reject : Graph → String → String → Option String → Call Run
reject graph run_id approver remark = resolve_approval graph false run_id approver remark

-- datetime.now(UTC).isoformat()
unfoldable pub time_text : Call Value
time_text = do ts ← now; gets (λ w. str (w.isoformat ts))

-- signed_at or datetime.now(UTC).isoformat()
unfoldable pub signing_time : Option String → Call Value
unfolding time_text
signing_time none = time_text
signing_time (some signed_at) = if str_eq signed_at "" then time_text else pure (str signed_at)

unfoldable pub submit_signed_document : Graph → String → String → Option String → Call Run
submit_signed_document graph run_id document_id signed_at = do
  paused ← Runs.get run_id
  require_paused_for paused PauseReason.signed_document
  run ← set_status paused.run_id RunStatus.running none none none
  at ← signing_time signed_at
  advance graph run
      (Input.resume (field "document_id" (str document_id) (field "signed_at" at end)))
  Runs.get run.run_id

abbrev pub not_running : Run → Exc
not_running run = record {
  class = invalid_run_operation;
  message = record {
    template =
        "run {} is {}, not running -- a paused run resumes via approve() or submit_signed_document(); a pending, completed, failed or cancelled run has nothing to continue";
    values = str run.run_id ∷ str (RunStatus.value run.status) ∷ [];
  };
}

unfoldable pub resume_run : Graph → String → Call Run
resume_run graph run_id = do
  run ← Runs.get run_id
  if not (RunStatus.same run.status RunStatus.running)
      then reraise (not_running run)
      else (do advance graph run Input.nothing; Runs.get run.run_id)

abbrev pub already_ended : Run → Exc
already_ended run = record {
  class = invalid_run_operation;
  message = record {
    template = "run {} is already {}";
    values = str run.run_id ∷ str (RunStatus.value run.status) ∷ [];
  };
}

unfoldable pub cancel_run : String → Call Run
cancel_run run_id = do
  run ← Runs.get run_id
  if is_terminal run
      then reraise (already_ended run)
      else if RunStatus.same run.status RunStatus.pending
          || RunStatus.same run.status RunStatus.paused
      then set_status run.run_id RunStatus.cancelled none none none
      else request_cancel run.run_id
