-- ===== src/Orchestration/Nodes/Effects.antt =====
-- offboarding/orchestration/nodes.py: revoke_access, send_exit_paperwork and finalize.
use offboarding_orchestrator.Prelude.{String, some, [], ◌∷◌, if◌then◌else◌}
use offboarding_orchestrator.Domain.StepName
use offboarding_orchestrator.Domain.StepName.{StepName}
use offboarding_orchestrator.Domain.Json.{
  Value, null, num, str, list, dict, Fields, end, field, get_field,
}
use offboarding_orchestrator.Domain.Errors.{plain, exception}
use offboarding_orchestrator.World.{Call, pure, raise, ◌>>=◌, ◌>>◌}
use offboarding_orchestrator.Tools.Arguments.{to_list, length_items}
use offboarding_orchestrator.Tools.Executor.{ExecutionResult, execute}
use offboarding_orchestrator.Orchestration.State.{
  NodeResult, returns, state_item, item, text_item, or_default, systems_of,
}
use offboarding_orchestrator.Orchestration.Nodes.{Services, allowlists, guard}
use offboarding_orchestrator.Orchestration.Nodes.Pauses.{sent_document}

-- f"{verb} ..." by whether the outcome was replayed
abbrev verb : String → String → ExecutionResult → Value
verb replayed performed outcome = str (if outcome.replayed then replayed else performed)

unfoldable pub revoke_access : Fields → Services → Call NodeResult
revoke_access state services = do
  guard state StepName.revoke_access
  checklist ← state_item "checklist" state
  items ← to_list checklist
  systems ← systems_of items
  run_id ← text_item "run_id" state
  employee_id ← state_item "employee_id" state
  outcome ← execute services.executor (record {
    run_id = run_id;
    step_name = StepName.value StepName.revoke_access;
    tool_name = "iam.revoke_access";
    allowlist = allowlists StepName.revoke_access;
    kwargs = field "employee_id" employee_id (field "systems" (list systems) end);
    operation = some "revoke_all_systems";
  })
  revocation_id ← state_item "revocation_id" outcome.result
  pure (
      returns (field "revocation" (dict outcome.result) end) (
        record {
          template = "{} access to {} systems (attempts: {}, revocation {}).";
          values =
              verb "Replayed" "Revoked" outcome
              ∷ num (length_items systems)
              ∷ num outcome.attempts
              ∷ revocation_id
              ∷ [];
        }
        ∷ []))

unfoldable pub send_exit_paperwork : Fields → Services → Call NodeResult
send_exit_paperwork state services = do
  guard state StepName.send_exit_paperwork
  run_id ← text_item "run_id" state
  employee_id ← state_item "employee_id" state
  employee ← state_item "employee" state
  email ← item "email" employee
  checklist ← state_item "checklist" state
  outcome ← execute services.executor (record {
    run_id = run_id;
    step_name = StepName.value StepName.send_exit_paperwork;
    tool_name = "documents.send_exit_paperwork";
    allowlist = allowlists StepName.send_exit_paperwork;
    kwargs =
        field "employee_id" employee_id (field "email" email (field "checklist" checklist end));
    operation = some "send_packet";
  })
  document_id ← state_item "document_id" outcome.result
  pure (
      returns (field "paperwork" (dict outcome.result) end) (
        record {
          template = "{} exit paperwork to {} ({}).";
          values = verb "Replayed sending" "Sent" outcome ∷ email ∷ document_id ∷ [];
        }
        ∷ []))

unfoldable pub approver_in : Value → Call Value
approver_in (dict fs) = pure (or_default null (get_field "approver" fs))
approver_in _ = raise exception (plain "AttributeError")

-- state.get("approval", {}).get("approver")
unfoldable pub approver_of : Fields → Call Value
unfolding approver_in
approver_of state = approver_in (or_default (dict end) (get_field "approval" state))

unfoldable pub finalize : Fields → Services → Call NodeResult
finalize state services = do
  guard state StepName.finalize
  employee_id ← state_item "employee_id" state
  checklist ← state_item "checklist" state
  items ← to_list checklist
  systems ← systems_of items
  revocation ← state_item "revocation" state
  revocation_id ← item "revocation_id" revocation
  document_id ← sent_document state
  approver ← approver_of state
  run_id ← text_item "run_id" state
  let summary = field "employee_id" employee_id (
      field "systems_revoked" (list systems) (
        field "revocation_id" revocation_id
          (field "document_id" document_id (field "approved_by" approver end))))
  outcome ← execute services.executor (record {
    run_id = run_id;
    step_name = StepName.value StepName.finalize;
    tool_name = "documents.archive_record";
    allowlist = allowlists StepName.finalize;
    kwargs = field "employee_id" employee_id (field "summary" (dict summary) end);
    operation = some "archive";
  })
  archive_id ← state_item "archive_id" outcome.result
  pure (
      returns (field "archive" (dict outcome.result) end) (
        record { template = "Offboarding complete; archived as {}."; values = archive_id ∷ [] }
        ∷ []))
