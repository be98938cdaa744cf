-- ===== src/Domain/Run.antt =====
-- offboarding/domain/run.py: the transition tables of runs and steps, and the functions that every
-- change of status goes through.
use offboarding_orchestrator.Prelude.{Bool, List, [], ◌∷◌, if◌then◌else◌, any}
use offboarding_orchestrator.Domain.RunStatus
use offboarding_orchestrator.Domain.RunStatus.{RunStatus}
use offboarding_orchestrator.Domain.StepStatus
use offboarding_orchestrator.Domain.StepStatus.{StepStatus}
use offboarding_orchestrator.Domain.Errors.{Exc, invalid_state_transition}
use offboarding_orchestrator.Domain.Json.{str}
use offboarding_orchestrator.Domain.Result.{Result, ok, err}

abbrev pub allowed_run_transitions : RunStatus → List RunStatus
allowed_run_transitions RunStatus.pending = RunStatus.running ∷ RunStatus.cancelled ∷ []
allowed_run_transitions RunStatus.running =
    RunStatus.paused ∷ RunStatus.completed ∷ RunStatus.failed ∷ RunStatus.cancelled ∷ []
allowed_run_transitions RunStatus.paused =
    RunStatus.running ∷ RunStatus.failed ∷ RunStatus.cancelled ∷ []
allowed_run_transitions RunStatus.completed = []
allowed_run_transitions RunStatus.failed = []
allowed_run_transitions RunStatus.cancelled = []

abbrev pub allowed_step_transitions : StepStatus → List StepStatus
allowed_step_transitions StepStatus.pending = StepStatus.running ∷ StepStatus.skipped ∷ []
allowed_step_transitions StepStatus.running =
    StepStatus.completed ∷ StepStatus.failed ∷ StepStatus.paused ∷ StepStatus.running ∷ []
allowed_step_transitions StepStatus.paused =
    StepStatus.running ∷ StepStatus.completed ∷ StepStatus.failed ∷ []
allowed_step_transitions StepStatus.failed = StepStatus.running ∷ []
allowed_step_transitions StepStatus.completed = StepStatus.running ∷ []
allowed_step_transitions StepStatus.skipped = []

abbrev pub terminal_run_statuses : List RunStatus
terminal_run_statuses = RunStatus.completed ∷ RunStatus.failed ∷ RunStatus.cancelled ∷ []

abbrev pub resumable_run_statuses : List RunStatus
resumable_run_statuses = RunStatus.paused ∷ []

unfoldable pub is_terminal : RunStatus → Bool
is_terminal status = any (RunStatus.same status) terminal_run_statuses

abbrev pub illegal_run_transition : RunStatus → RunStatus → Exc
illegal_run_transition current target = record {
  class = invalid_state_transition;
  message = record {
    template = "illegal run transition {} -> {}";
    values = str (RunStatus.value current) ∷ str (RunStatus.value target) ∷ [];
  };
}

abbrev pub may_move : RunStatus → RunStatus → Bool
may_move current target = any (RunStatus.same target) (allowed_run_transitions current)

unfoldable pub transition_run : RunStatus → RunStatus → Result RunStatus
transition_run current target =
    if may_move current target then ok target else err (illegal_run_transition current target)

abbrev pub illegal_step_transition : StepStatus → StepStatus → Exc
illegal_step_transition current target = record {
  class = invalid_state_transition;
  message = record {
    template = "illegal step transition {} -> {}";
    values = str (StepStatus.value current) ∷ str (StepStatus.value target) ∷ [];
  };
}

abbrev pub may_follow : StepStatus → StepStatus → Bool
may_follow current target = any (StepStatus.same target) (allowed_step_transitions current)

unfoldable pub transition_step : StepStatus → StepStatus → Result StepStatus
transition_step current target =
    if may_follow current target then ok target else err (illegal_step_transition current target)
