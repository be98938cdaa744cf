-- ===== src/Orchestration/Nodes/Pauses.antt =====
-- offboarding/orchestration/nodes.py: await_hr_approval and await_signed_document.
use offboarding_orchestrator.Prelude.{String, Bool, not, Option, none, some, [], ◌∷◌, if◌then◌else◌}
use offboarding_orchestrator.Domain.StepName
use offboarding_orchestrator.Domain.StepName.{StepName}
use offboarding_orchestrator.Domain.PauseReason
use offboarding_orchestrator.Domain.PauseReason.{PauseReason}
use offboarding_orchestrator.Domain.Json.{
  Value, null, bool, num, str, list, dict, nil, Fields, end, field, get_field,
}
use offboarding_orchestrator.Domain.Errors.{Exc, plain, approval_rejected}
use offboarding_orchestrator.Domain.Result.{ok, err}
use offboarding_orchestrator.World.{Call, pure, ◌>>=◌, ◌>>◌}
use offboarding_orchestrator.Tools.Arguments.{len}
use offboarding_orchestrator.Orchestration.State.{
  NodeResult, returns, interrupts, state_item, item, text_item, or_default, truth,
}
use offboarding_orchestrator.Orchestration.Tracing.{Spanned, step_span}
use offboarding_orchestrator.Orchestration.Nodes.{Services, guard, trace_pause}

abbrev rejection : Fields → Exc
rejection decision =
    if truth (or_default null (get_field "note" decision))
    then record {
      class = approval_rejected;
      message = record {
        template = "{}";
        values = or_default null (get_field "note" decision) ∷ [];
      };
    }
    else record { class = approval_rejected; message = plain "HR rejected the deprovisioning plan" }

abbrev pub is_approved : Fields → Bool
is_approved decision = truth (or_default null (get_field "approved" decision))

-- The body of the span after the approval.
abbrev pub decided : Fields → Spanned (Unit {0})
decided decision = record {
  outcome = if not (is_approved decision) then err (rejection decision) else ok tt;
  detail = field "approved" (bool (is_approved decision)) (
      field "approver" (or_default null (get_field "approver" decision))
        (field "note" (or_default null (get_field "note" decision)) end));
}

-- After `interrupt`, or the interrupt.
unfoldable pub after_approval : String → Fields → Option Fields → Call NodeResult
after_approval run_id payload none = pure (interrupts payload)
after_approval run_id payload (some decision) = do
  step_span run_id (StepName.value StepName.await_hr_approval) none (pure (decided decision))
  pure (
      returns (field "approval" (dict decision) end) (
        record {
          template = "Approved by {}.";
          values = or_default (str "unknown") (get_field "approver" decision) ∷ [];
        }
        ∷ []))

unfoldable pub await_hr_approval : Fields → Services → Option Fields → Call NodeResult
await_hr_approval state services resumed = do
  guard state StepName.await_hr_approval
  run_id ← text_item "run_id" state
  let checklist = or_default (list nil) (get_field "checklist" state)
  trace_pause run_id StepName.await_hr_approval PauseReason.hr_approval
      (do count ← len checklist; pure (field "item_count" (num count) end))
  employee ← state_item "employee" state
  employee_id ← item "employee_id" employee
  name ← item "name" employee
  department ← item "department" employee
  last_day ← item "last_day" employee
  let person =
      field "employee_id" employee_id
        (field "name" name (field "department" department (field "last_day" last_day end)))
  after_approval run_id
      (field "pause_reason" (str (PauseReason.value PauseReason.hr_approval)) (
        field "run_id" (str run_id) (
          field "employee" (dict person) (
            field "checklist" checklist (
              field "notes" (or_default (str "") (get_field "plan_notes" state)) (
                field "prompt"
                  (str
                    "Approve revoking access to these systems? This action cannot be undone from here.")
                  end))))))
      resumed

-- state["paperwork"]["document_id"]
unfoldable pub sent_document : Fields → Call Value
sent_document state = do paperwork ← state_item "paperwork" state; item "document_id" paperwork

abbrev received : Fields → Spanned (Unit {0})
received event = record {
  outcome = ok tt;
  detail =
      field "document_id" (or_default null (get_field "document_id" event))
        (field "signed_at" (or_default null (get_field "signed_at" event)) end);
}

unfoldable pub after_document : String → Fields → Option Fields → Call NodeResult
after_document run_id payload none = pure (interrupts payload)
after_document run_id payload (some event) = do
  step_span run_id (StepName.value StepName.await_signed_document) none (pure (received event))
  pure (
      returns (field "signed_document" (dict event) end) (
        record {
          template = "Received signed document {}.";
          values = or_default (str "unknown") (get_field "document_id" event) ∷ [];
        }
        ∷ []))

unfoldable pub await_signed_document : Fields → Services → Option Fields → Call NodeResult
await_signed_document state services resumed = do
  guard state StepName.await_signed_document
  run_id ← text_item "run_id" state
  trace_pause run_id StepName.await_signed_document PauseReason.signed_document
      (do document_id ← sent_document state; pure (field "document_id" document_id end))
  document_id ← sent_document state
  after_document run_id
      (field "pause_reason" (str (PauseReason.value PauseReason.signed_document)) (
        field "run_id" (str run_id) (
          field "document_id" document_id (
            field "prompt"
              (str
                "Waiting for the signed exit paperwork. Resume this run when the signed document is received.")
              end))))
      resumed
