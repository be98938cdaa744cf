-- ===== src/Clients/Api.antt =====
-- offboarding/api/main.py. Parsing a request and writing a response are FastAPI's; an exception
-- that no handler takes is its server error, and is raised here. A run's new id comes from `hex`.
use offboarding_orchestrator.Prelude.{or_else, ℕ, String, Option, none, some, List, if◌then◌else◌}
use offboarding_orchestrator.Domain.Errors.{
  Exc, Message, run_not_found, invalid_run_operation, is_instance,
}
use offboarding_orchestrator.Domain.Models.{Run, StepAttempt, SideEffectRecord}
use offboarding_orchestrator.World.{Call, pure, reraise, try_except, ◌>>=◌}
use offboarding_orchestrator.Persistence.Runs
use offboarding_orchestrator.Orchestration.Nodes.{Services}
use offboarding_orchestrator.Orchestration.Services.{Wiring, build_services}
use offboarding_orchestrator.Orchestration.RunService
use offboarding_orchestrator.Orchestration.RunService.{Graph}

pub record StartRunRequest : Type 0 where
  pub employee_id : String
  pub max_steps : Option ℕ
  pub max_tool_calls : Option ℕ

pub record ApprovalRequest : Type 0 where
  pub approver : String
  pub remark : Option String

pub record SignRequest : Type 0 where
  pub document_id : String
  pub signed_at : Option String

-- The routes, with what they take from the path, the query and the body.
pub data Request : Type 0 where
  start_run : StartRunRequest → Request
  list_runs : Option ℕ → Request
  get_run : String → Request
  approve : String → ApprovalRequest → Request
  reject : String → ApprovalRequest → Request
  sign : String → SignRequest → Request
  resume : String → Request
  cancel : String → Request
  get_trace : String → Request
  get_side_effects : String → Request

pub data Body : Type 0 where
  run : Run → Body
  runs : List Run → Body
  trace : List StepAttempt → Body
  side_effects : List SideEffectRecord → Body
  detail : Message → Body

pub record Response : Type 0 where
  pub status_code : ℕ
  pub content : Body

-- The two exception handlers.
unfoldable pub handle : Exc → Call Response
handle e =
    if is_instance e.class run_not_found
    then pure (record { status_code = 404; content = detail e.message })
    else if is_instance e.class invalid_run_operation
    then pure (record { status_code = 409; content = detail e.message })
    else reraise e

-- A route: its status code, its body, and its call of the service.
unfoldable pub answer : {A : Type 0} → ℕ → (A → Body) → Call A → Call Response
answer status_code body call =
    try_except (do a ← call; pure (record { status_code = status_code; content = body a })) handle

unfoldable pub route : Graph → String → Request → Call Response
route service hex (start_run body) = answer 201 Body.run (
    RunService.start_run service body.employee_id (or_else 20 body.max_steps)
      (or_else 30 body.max_tool_calls) hex)
route service hex (list_runs limit) = answer 200 runs (Runs.list_runs (or_else 50 limit))
route service hex (get_run run_id) = answer 200 Body.run (Runs.get run_id)
route service hex (approve run_id body) =
    answer 200 Body.run (RunService.approve service run_id body.approver body.remark)
route service hex (reject run_id body) =
    answer 200 Body.run (RunService.reject service run_id body.approver body.remark)
route service hex (sign run_id body) =
    answer 200 Body.run
      (RunService.submit_signed_document service run_id body.document_id body.signed_at)
route service hex (resume run_id) = answer 200 Body.run (RunService.resume_run service run_id)
route service hex (cancel run_id) = answer 200 Body.run (RunService.cancel_run run_id)
route service hex (get_trace run_id) = answer 200 trace (RunService.get_trace run_id)
route service hex (get_side_effects run_id) =
    answer 200 side_effects (RunService.get_side_effects run_id)

-- `_service` is the service that the process has built, if it has.
unfoldable pub get_service : Wiring → (Services → Graph) → Option Graph → Call Graph
get_service x compile none = do services ← build_services x; pure (compile services)
get_service x compile (some service) = pure service

unfoldable pub respond :
    Wiring → (Services → Graph) → Option Graph → String → Request → Call Response
respond x compile service hex request =
    get_service x compile service >>= λ built. route built hex request
