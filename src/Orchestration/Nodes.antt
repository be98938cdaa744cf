-- ===== src/Orchestration/Nodes.antt =====
-- offboarding/orchestration/nodes.py: the guard, and the seven steps. `interrupt` is LangGraph's:
-- a step is run with the value that its pending interrupt is resumed with, if there is one, and
-- interrupts the run where it asks for a value that is not there.
pub mod Planning
pub mod Pauses
pub mod Effects
pub mod Guard
pub mod Keeping
pub mod Steady
pub mod History
use Prim.Native.String.{◌++◌ as str_append}
use offboarding_orchestrator.Prelude.{
  ℕ, String, Bool, true, false, not, Option, none, some, List, [], ◌∷◌, map, leb, if◌then◌else◌,
}
use offboarding_orchestrator.Domain.StepStatus
use offboarding_orchestrator.Domain.StepStatus.{StepStatus}
use offboarding_orchestrator.Domain.StepName
use offboarding_orchestrator.Domain.StepName.{StepName}
use offboarding_orchestrator.Domain.PauseReason
use offboarding_orchestrator.Domain.PauseReason.{PauseReason}
use offboarding_orchestrator.Domain.Json.{
  Value, null, bool, num, str, list, dict, Items, nil, cons, Fields, end, field, get_field,
}
use offboarding_orchestrator.Domain.Errors.{
  Exc, Message, plain, run_cancelled, budget_exceeded, approval_rejected, exception,
}
use offboarding_orchestrator.Domain.Result.{Result, ok, err}
use offboarding_orchestrator.Domain.Models.{Run, StepAttempt}
use offboarding_orchestrator.World.{Call, pure, raise, reraise, with_result, ◌>>=◌, ◌>>◌}
use offboarding_orchestrator.Persistence.Runs
use offboarding_orchestrator.Persistence.Trace
use offboarding_orchestrator.Tools.Arguments.{to_list, len, length_items}
use offboarding_orchestrator.Tools.Executor.{ToolExecutor, Request, ExecutionResult, execute}
use offboarding_orchestrator.Llm.Provider.{
  LlmProvider, DeprovisioningPlan, ChecklistItem, RiskLevel, low, medium, high,
}
use offboarding_orchestrator.Orchestration.State.{
  NodeResult, returns, interrupts, state_item, item, text_item, or_default, systems_of, truth,
}
use offboarding_orchestrator.Orchestration.Tracing.{Spanned, step_span}

-- Of services.Services, what the nodes use besides the repositories.
pub record Services : Type 0 where
  pub executor : ToolExecutor
  pub llm : LlmProvider

abbrev pub allowlists : StepName → List String
allowlists StepName.fetch_employee = "hr_directory.get_employee" ∷ []
allowlists StepName.plan_deprovisioning = []
allowlists StepName.await_hr_approval = []
allowlists StepName.revoke_access = "iam.revoke_access" ∷ []
allowlists StepName.send_exit_paperwork = "documents.send_exit_paperwork" ∷ []
allowlists StepName.await_signed_document = []
allowlists StepName.finalize = "documents.archive_record" ∷ []

abbrev pub cancelled_before : Run → StepName → Exc
cancelled_before run step = record {
  class = run_cancelled;
  message = record {
    template = "run {} was cancelled before {}";
    values = str run.run_id ∷ str (StepName.value step) ∷ [];
  };
}

abbrev pub steps_spent : Run → Exc
steps_spent run = record {
  class = budget_exceeded;
  message = record {
    template = "run {} has used its {} step allowance";
    values = str run.run_id ∷ num run.max_steps ∷ [];
  };
}

unfoldable pub guard : Fields → StepName → Call (Unit {0})
guard state step = do
  run_id ← text_item "run_id" state
  run ← Runs.get run_id
  if run.cancel_requested
      then reraise (cancelled_before run step)
      else if leb run.max_steps run.step_count
      then reraise (steps_spent run)
      else (do Runs.bump_counters run.run_id 1 0; pure tt)

abbrev is_pause : Option StepAttempt → Bool
is_pause none = false
is_pause (some row) = StepStatus.same row.status StepStatus.paused

unfoldable pub already_paused_here : String → StepName → Call Bool
already_paused_here run_id step = do
  latest ← Trace.latest_for_step run_id (StepName.value step)
  pure (is_pause latest)

-- The trace of a pause, unless the step is at that pause already.
unfoldable pub trace_pause : String → StepName → PauseReason → Call Fields → Call (Unit {0})
trace_pause run_id step reason detail = do
  paused ← already_paused_here run_id step
  if paused then pure tt else (do
    row ← Trace.start_attempt run_id (StepName.value step) none
    fields ← detail
    Trace.pause_attempt row.id reason (some fields)
    pure tt)
