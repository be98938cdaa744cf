-- ===== src/Tests/Executor.antt =====
-- A request to the executor.
use offboarding_orchestrator.Prelude.{false, ◌≡◌, refl, some, List, [], ◌∷◌, All, select_one}
use offboarding_orchestrator.Domain.RunStatus.{RunStatus}
use offboarding_orchestrator.Domain.Models.{Run, is_terminal}
use offboarding_orchestrator.World.{World}
use offboarding_orchestrator.Persistence.Runs.{has_run_id}
use offboarding_orchestrator.Persistence.History.{IsValid, Extends}
use offboarding_orchestrator.Tools.Base.{Tool}
use offboarding_orchestrator.Tools.Contracts.{
  iam_tool-IsIsolated, hr_directory_tool-IsIsolated, send_exit_paperwork_tool-IsIsolated,
  archive_record_tool-IsIsolated,
}
use offboarding_orchestrator.Tools.Isolation.{IsIsolated}
use offboarding_orchestrator.Tools.HrDirectory.{hr_directory_tool}
use offboarding_orchestrator.Tools.Documents.{send_exit_paperwork_tool, archive_record_tool}
use offboarding_orchestrator.Tools.Executor.{ToolExecutor, Request, execute}
use offboarding_orchestrator.Orchestration.Services.History.{registered-IsValid}
use offboarding_orchestrator.Tools.Executor.History.{execute-terminal}
use offboarding_orchestrator.Prelude.{arith}
use offboarding_orchestrator.Domain.Errors.{Exc}
use offboarding_orchestrator.Domain.Result.{err}
use offboarding_orchestrator.Tools.Executor.{attempt}
use offboarding_orchestrator.Persistence.Trace.Alone.{TraceOnly}
use offboarding_orchestrator.Tools.Executor.Retries.{Tried, execute-Tried}
use offboarding_orchestrator.Tools.Base.{resolve}
use offboarding_orchestrator.Tools.Iam.{iam_tool}
use offboarding_orchestrator.Tools.Executor.Allowlist.{execute-not_listed, attempt-spent}
use offboarding_orchestrator.Tests.Retry.{retrying_loop}
use offboarding_orchestrator.Tests.Data.{run_1, fresh_world, kwargs, iam}

abbrev pub tools : List Tool
tools = hr_directory_tool ∷ iam ∷ send_exit_paperwork_tool ∷ archive_record_tool ∷ []

pub tools-IsIsolated : All IsIsolated tools
tools-IsIsolated = (
  hr_directory_tool-IsIsolated,
  (
    iam_tool-IsIsolated false false,
    (send_exit_paperwork_tool-IsIsolated, (archive_record_tool-IsIsolated, tt)),
  ),
)

abbrev pub executor : ToolExecutor
executor = record { registry = tools; max_attempts = 3; retrying = retrying_loop; depth = 10 }

abbrev revoke : Request
revoke = record {
  run_id = "run_1";
  step_name = "deprovision_systems";
  tool_name = "iam.revoke_access";
  allowlist = "iam.revoke_access" ∷ [];
  kwargs = kwargs;
  operation = some "revoke";
}

pub fresh-IsValid : IsValid fresh_world.db
fresh-IsValid = record { counted = tt; numbered = tt }

registered-IsValid_example :
    IsValid (execute executor revoke fresh_world).1.db
    × Extends fresh_world.db (execute executor revoke fresh_world).1.db
registered-IsValid_example = registered-IsValid executor false revoke fresh_world refl fresh-IsValid

abbrev pub ended_run : Run
ended_run = record run_1 { status = RunStatus.cancelled }

abbrev pub ended_world : World
ended_world = record fresh_world { db = record fresh_world.db { runs = ended_run ∷ [] } }

execute-terminal_example :
    (r' : Run) × (select_one (has_run_id "run_1") (execute executor revoke ended_world).1.db.runs
      ≡ some r')
    × (r'.status ≡ RunStatus.cancelled)
unfolding is_terminal
execute-terminal_example =
    execute-terminal executor revoke ended_world "run_1" ended_run tools-IsIsolated
      (record { counted = tt; numbered = tt }) refl refl

abbrev outside : Request
outside = record revoke { allowlist = [] }

execute-not_listed_example :
    ((e : Exc) × ((execute executor outside fresh_world).0 ≡ err e))
    × TraceOnly fresh_world.db (execute executor outside fresh_world).1.db
execute-not_listed_example = execute-not_listed executor outside fresh_world refl

abbrev spent_run : Run
spent_run = record run_1 { tool_call_count = 3 }

abbrev spent_world : World
spent_world = record fresh_world { db = record fresh_world.db { runs = spent_run ∷ [] } }

attempt-spent_example :
    ((e : Exc) × ((attempt executor revoke iam 1 spent_world).0 ≡ err e))
    × TraceOnly spent_world.db (attempt executor revoke iam 1 spent_world).1.db
attempt-spent_example = attempt-spent executor revoke iam 1 spent_world spent_run refl (omega arith)

-- IAM fails twice before it answers.
abbrev failing_world : World
failing_world = record fresh_world { iam_failures = 2 }

execute-Tried_example :
    Tried executor revoke iam 1 failing_world (execute executor revoke failing_world)
unfolding resolve iam_tool hr_directory_tool send_exit_paperwork_tool archive_record_tool
execute-Tried_example = execute-Tried executor revoke iam failing_world refl refl
