-- ===== src/Orchestration/Nodes/Planning.antt =====
-- offboarding/orchestration/nodes.py: fetch_employee and plan_deprovisioning.
use Prim.Native.String.{◌++◌ as str_append}
use offboarding_orchestrator.Prelude.{String, none, some, List, [], ◌∷◌}
use offboarding_orchestrator.Domain.StepName
use offboarding_orchestrator.Domain.StepName.{StepName}
use offboarding_orchestrator.Domain.Json.{
  Value, num, str, list, dict, Items, nil, cons, Fields, end, field,
}
use offboarding_orchestrator.Domain.Result.{Result, ok, err}
use offboarding_orchestrator.World.{Call, pure, with_result, ◌>>=◌, ◌>>◌}
use offboarding_orchestrator.Tools.Arguments.{len, length_items}
use offboarding_orchestrator.Tools.Executor.{execute}
use offboarding_orchestrator.Llm.Provider.{
  LlmProvider, DeprovisioningPlan, ChecklistItem, RiskLevel, low, medium, high,
}
use offboarding_orchestrator.Orchestration.State.{NodeResult, returns, state_item, item, text_item}
use offboarding_orchestrator.Orchestration.Tracing.{Spanned, step_span}
use offboarding_orchestrator.Orchestration.Nodes.{Services, allowlists, guard}

unfoldable pub fetch_employee : Fields → Services → Call NodeResult
fetch_employee state services = do
  guard state StepName.fetch_employee
  run_id ← text_item "run_id" state
  employee_id ← state_item "employee_id" state
  outcome ← execute services.executor (record {
    run_id = run_id;
    step_name = StepName.value StepName.fetch_employee;
    tool_name = "hr_directory.get_employee";
    allowlist = allowlists StepName.fetch_employee;
    kwargs = field "employee_id" employee_id end;
    operation = none;
  })
  name ← state_item "name" outcome.result
  systems ← state_item "systems" outcome.result
  count ← len systems
  last_day ← state_item "last_day" outcome.result
  pure (
      returns (field "employee" (dict outcome.result) end) (
        record {
          template = "Fetched HR record for {} ({} systems, last day {}).";
          values = name ∷ num count ∷ last_day ∷ [];
        }
        ∷ []))

abbrev risk_text : RiskLevel → String
risk_text low = "low"
risk_text medium = "medium"
risk_text high = "high"

-- item.model_dump()
abbrev dump : ChecklistItem → Value
dump item = dict (
    field "system" (str item.system)
      (field "action" (str item.action) (field "risk_level" (str (risk_text item.risk_level)) end)))

abbrev dump_all : List ChecklistItem → Items
dump_all [] = nil
dump_all (item ∷ items) = cons (dump item) (dump_all items)

abbrev systems_in : List ChecklistItem → Items
systems_in [] = nil
systems_in (item ∷ items) = cons (str item.system) (systems_in items)

-- The end of the span of the plan.
unfoldable pub planned : LlmProvider → Result DeprovisioningPlan → Call (Spanned DeprovisioningPlan)
planned llm (err e) = pure (record { outcome = err e; detail = end })
planned llm (ok plan) = pure (record {
  outcome = ok plan;
  detail = field "provider" (str llm.name) (
      field "item_count" (num (length_items (dump_all plan.items)))
        (field "systems" (list (systems_in plan.items)) end));
})

unfoldable pub plan_deprovisioning : Fields → Services → Call NodeResult
plan_deprovisioning state services = do
  guard state StepName.plan_deprovisioning
  run_id ← text_item "run_id" state
  plan ←
      step_span run_id (StepName.value StepName.plan_deprovisioning)
        (some (str_append "llm:" services.llm.name))
        (with_result
          (do employee ← state_item "employee" state; services.llm.generate_plan employee)
          (planned services.llm))
  let checklist = dump_all plan.items
  pure (
      returns (field "checklist" (list checklist) (field "plan_notes" (str plan.notes) end)) (
        record {
          template = "Generated a {}-item deprovisioning plan.";
          values = num (length_items checklist) ∷ [];
        }
        ∷ []))
