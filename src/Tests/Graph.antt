-- ===== src/Tests/Graph.antt =====
-- A run up to the step after the approval.
use offboarding_orchestrator.Prelude.{true, ◌≡◌, refl, ap, Option, none, some, List, [], ◌∷◌}
use offboarding_orchestrator.Domain.StepName
use offboarding_orchestrator.Domain.StepName.{StepName}
use offboarding_orchestrator.Domain.Run.{transition_step}
use offboarding_orchestrator.Domain.Json.{bool, str, Fields, end, field}
use offboarding_orchestrator.Domain.Errors.{Message}
use offboarding_orchestrator.Domain.Result.{Result, ok, err}
use offboarding_orchestrator.World.{immediate, now}
use offboarding_orchestrator.Orchestration.State.{
  NodeResult, returns, interrupts, state_item, or_key_error, item, text_item, text_or_error, truth,
}
use offboarding_orchestrator.Orchestration.Tracing.{step_span, close_span}
use offboarding_orchestrator.Orchestration.Nodes.{guard, already_paused_here, trace_pause}
use offboarding_orchestrator.Orchestration.Nodes.Planning.{
  fetch_employee, planned, plan_deprovisioning,
}
use offboarding_orchestrator.Orchestration.Nodes.Pauses.{after_approval, await_hr_approval}
use offboarding_orchestrator.Orchestration.Graph.{node}
use offboarding_orchestrator.Orchestration.Graph.Progress.{first_state, merge, Reaches}
use offboarding_orchestrator.Orchestration.Graph.Approval.{Approved}
use offboarding_orchestrator.Orchestration.Graph.Gate.{Reaches-Approved}
use offboarding_orchestrator.Persistence.Runs
use offboarding_orchestrator.Persistence.Trace
use offboarding_orchestrator.Tools.Arguments.{
  to_list, len, length_items, check_names, argument, or_type_error,
}
use offboarding_orchestrator.Tools.Base.{resolve}
use offboarding_orchestrator.Tools.HrDirectory.{
  hr_directory_tool, find_record, or_no_record, call as call_hr_directory,
}
use offboarding_orchestrator.Tools.Executor.{execute, attempt, invoke, conclude, check_budget}
use offboarding_orchestrator.Tests.Data.{fresh_world}
use offboarding_orchestrator.Tests.Retry.{retrying_loop, loop}
use offboarding_orchestrator.Tests.Orchestration.{services}

abbrev update_of : Result NodeResult → Fields
update_of (ok (returns update events)) = update
update_of (ok (interrupts payload)) = end
update_of (err e) = end

abbrev events_of : Result NodeResult → List Message
events_of (ok (returns update events)) = events
events_of (ok (interrupts payload)) = []
events_of (err e) = []

abbrev decision : Fields
decision = field "approved" (bool true) (field "approver" (str "ann") end)

abbrev after : StepName → Fields → Option Fields → Fields
after step state resumed = merge state (update_of (node step state services resumed fresh_world).0)

abbrev state_1 : Fields
state_1 = first_state "run_1" "emp-001"

abbrev state_2 : Fields
state_2 = after StepName.fetch_employee state_1 none

abbrev state_3 : Fields
state_3 = after StepName.plan_deprovisioning state_2 none

abbrev state_4 : Fields
state_4 = after StepName.await_hr_approval state_3 (some decision)

completed :
    (step : StepName) (left : List StepName) (state : Fields) (resumed : Option Fields)
    → Reaches services state (step ∷ left)
    → (node step state services resumed fresh_world).0
      ≡ ok (
          returns
            (update_of (node step state services resumed fresh_world).0)
            (events_of (node step state services resumed fresh_world).0))
    → Reaches services (after step state resumed) left
completed step left state resumed reached returned =
    Reaches.completes step left state _ _ resumed fresh_world
      (node step state services resumed fresh_world).1 reached
      (ap (λ r. (r, (node step state services resumed fresh_world).1)) returned)

reached_2 : Reaches services state_2 (
    StepName.plan_deprovisioning ∷ StepName.await_hr_approval ∷ StepName.revoke_access
    ∷ StepName.send_exit_paperwork ∷ StepName.await_signed_document ∷ StepName.finalize ∷ [])
unfolding fetch_employee guard text_item state_item or_key_error text_or_error Runs.get
    Runs.bump_counters execute resolve attempt check_budget invoke conclude immediate now
    Trace.start_attempt Trace.next_attempt Trace.get Trace.complete_attempt Trace.close_attempt
    transition_step hr_directory_tool call_hr_directory check_names argument or_type_error
    find_record or_no_record retrying_loop loop to_list len length_items
reached_2 =
    completed StepName.fetch_employee
      (StepName.plan_deprovisioning ∷ StepName.await_hr_approval ∷ StepName.revoke_access
        ∷ StepName.send_exit_paperwork ∷ StepName.await_signed_document ∷ StepName.finalize ∷ [])
      state_1 none (Reaches.begins "run_1" "emp-001") refl

reached_3 : Reaches services state_3 (
    StepName.await_hr_approval ∷ StepName.revoke_access ∷ StepName.send_exit_paperwork
    ∷ StepName.await_signed_document ∷ StepName.finalize ∷ [])
unfolding fetch_employee guard text_item state_item or_key_error text_or_error Runs.get
    Runs.bump_counters execute resolve attempt check_budget invoke conclude immediate now
    Trace.start_attempt Trace.next_attempt Trace.get Trace.complete_attempt Trace.close_attempt
    transition_step hr_directory_tool call_hr_directory check_names argument or_type_error
    find_record or_no_record retrying_loop loop to_list len length_items plan_deprovisioning planned
    step_span close_span
reached_3 =
    completed StepName.plan_deprovisioning
      (StepName.await_hr_approval ∷ StepName.revoke_access ∷ StepName.send_exit_paperwork
        ∷ StepName.await_signed_document ∷ StepName.finalize ∷ [])
      state_2 none reached_2 refl

reached_4 : Reaches services state_4 (
    StepName.revoke_access ∷ StepName.send_exit_paperwork ∷ StepName.await_signed_document
    ∷ StepName.finalize ∷ [])
unfolding fetch_employee guard text_item state_item or_key_error text_or_error Runs.get
    Runs.bump_counters execute resolve attempt check_budget invoke conclude immediate now
    Trace.start_attempt Trace.next_attempt Trace.get Trace.complete_attempt Trace.close_attempt
    transition_step hr_directory_tool call_hr_directory check_names argument or_type_error
    find_record or_no_record retrying_loop loop to_list len length_items plan_deprovisioning planned
    step_span close_span await_hr_approval item trace_pause already_paused_here after_approval
    Trace.latest_for_step Trace.pause_attempt truth StepName.value
reached_4 =
    completed StepName.await_hr_approval
      (StepName.revoke_access ∷ StepName.send_exit_paperwork ∷ StepName.await_signed_document
        ∷ StepName.finalize ∷ [])
      state_3 (some decision) reached_3 refl

Reaches-Approved_example : Approved state_4
Reaches-Approved_example =
    Reaches-Approved services state_4 StepName.revoke_access
      (StepName.send_exit_paperwork ∷ StepName.await_signed_document ∷ StepName.finalize ∷ []) refl
      reached_4
