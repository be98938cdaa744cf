-- ===== src/Orchestration/Graph.antt =====
-- offboarding/orchestration/graph.py: the order of the workflow and the function of each step.
-- Compiling and running the graph is LangGraph's.
pub mod Progress
pub mod Approval
pub mod Gate
use offboarding_orchestrator.Prelude.{Option, List, [], ◌∷◌}
use offboarding_orchestrator.Domain.StepName.{StepName}
use offboarding_orchestrator.Domain.Json.{Fields}
use offboarding_orchestrator.World.{Call}
use offboarding_orchestrator.Orchestration.State.{NodeResult}
use offboarding_orchestrator.Orchestration.Nodes.{Services}
use offboarding_orchestrator.Orchestration.Nodes.Planning.{fetch_employee, plan_deprovisioning}
use offboarding_orchestrator.Orchestration.Nodes.Pauses.{await_hr_approval, await_signed_document}
use offboarding_orchestrator.Orchestration.Nodes.Effects.{
  revoke_access, send_exit_paperwork, finalize,
}

abbrev pub workflow : List StepName
workflow =
    StepName.fetch_employee ∷ StepName.plan_deprovisioning ∷ StepName.await_hr_approval
    ∷ StepName.revoke_access ∷ StepName.send_exit_paperwork ∷ StepName.await_signed_document
    ∷ StepName.finalize ∷ []

-- The step functions, by name.
abbrev pub node : StepName → Fields → Services → Option Fields → Call NodeResult
node StepName.fetch_employee state services resumed = fetch_employee state services
node StepName.plan_deprovisioning state services resumed = plan_deprovisioning state services
node StepName.await_hr_approval state services resumed = await_hr_approval state services resumed
node StepName.revoke_access state services resumed = revoke_access state services
node StepName.send_exit_paperwork state services resumed = send_exit_paperwork state services
node StepName.await_signed_document state services resumed =
    await_signed_document state services resumed
node StepName.finalize state services resumed = finalize state services
