-- ===== src/Domain/Models.antt =====
-- offboarding/domain/models.py: the records that the repositories build, which are the rows of the
-- tables too, `detail` and `result` by their JSON text. A timestamp is a number of microseconds.
use offboarding_orchestrator.Prelude.{ℕ, String, Bool, Option}
use offboarding_orchestrator.Domain.RunStatus.{RunStatus}
use offboarding_orchestrator.Domain.StepStatus.{StepStatus}
use offboarding_orchestrator.Domain.PauseReason.{PauseReason}
use offboarding_orchestrator.Domain.FailureReason.{FailureReason}
use offboarding_orchestrator.Domain.JsonText.{Members}
use offboarding_orchestrator.Domain.Errors.{Message}
use offboarding_orchestrator.Domain.Run.{is_terminal as is_terminal_status}

pub record Run : Type 0 where
  pub run_id : String
  pub thread_id : String
  pub employee_id : String
  pub status : RunStatus
  pub created_at : ℕ
  pub updated_at : ℕ
  pub pause_reason : Option PauseReason
  pub failure_reason : Option FailureReason
  pub failure_detail : Option Message
  pub cancel_requested : Bool
  pub step_count : ℕ
  pub tool_call_count : ℕ
  pub max_steps : ℕ
  pub max_tool_calls : ℕ

-- Run.is_terminal
unfoldable pub is_terminal : Run → Bool
unfolding is_terminal_status
is_terminal run = is_terminal_status run.status

pub record StepAttempt : Type 0 where
  pub id : ℕ
  pub run_id : String
  pub step_name : String
  pub attempt : ℕ
  pub status : StepStatus
  pub started_at : ℕ
  pub ended_at : Option ℕ
  pub tool_invoked : Option String
  pub pause_reason : Option PauseReason
  pub error_type : Option String
  pub error_message : Option Message
  pub detail : Members

-- The states of a ledger row.
pub data EffectState : Type 0 where
  reserved in_progress completed failed : EffectState

pub record SideEffectRecord : Type 0 where
  pub idempotency_key : String
  pub run_id : String
  pub step_name : String
  pub tool_name : String
  pub state : EffectState
  pub created_at : ℕ
  pub completed_at : Option ℕ
  pub result : Option Members
