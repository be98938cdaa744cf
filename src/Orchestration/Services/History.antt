-- ===== src/Orchestration/Services/History.antt =====
-- The services that build_services of services.py makes, and the history of the database. Nothing
-- is asked of the tools here: they are the ones of the program.
use offboarding_orchestrator.Prelude.{Bool, ◌≡◌, Option}
use offboarding_orchestrator.Domain.StepName.{StepName}
use offboarding_orchestrator.Domain.Json.{Fields}
use offboarding_orchestrator.Domain.Result.{ok}
use offboarding_orchestrator.World.{World}
use offboarding_orchestrator.World.Gives.{Holds}
use mathlib.Core.Path.{subst}
use offboarding_orchestrator.Persistence.History.{IsValid, Extends}
use offboarding_orchestrator.Tools.Executor.{ToolExecutor, Request, execute}
use offboarding_orchestrator.Tools.Executor.History.{History-Footing, execute-IsValid}
use offboarding_orchestrator.Orchestration.Drive.{IsSound, sound_node_keeps}
use offboarding_orchestrator.Orchestration.Nodes.{Services}
use offboarding_orchestrator.Orchestration.Graph.{node}
use offboarding_orchestrator.Orchestration.Services.{Wiring, registered_tools, build_services}
use offboarding_orchestrator.Orchestration.Services.Sound.{
  Requests, AsksIfGiven, tools-IsIsolated, build-IsSound,
}

-- When the database is valid and the tools are the four that build_services registers, then
-- however a request to the executor ends (a result, any exception, retries included): the trace
-- stays numbered 1, 2, ... at each step of each run, its ids stay below the counter, and every
-- run, attempt, ledger row and provider effect is still there, with a run's and an attempt's
-- status reached along its transition table, no counter of a run lowered, no limit changed, a
-- completed row of the ledger completed with the same result, and what a provider applied
-- unchanged.
pub registered-IsValid :
    (x : ToolExecutor) (permanently : Bool) (q : Request) (w : World)
    → x.registry ≡ registered_tools permanently
    → IsValid w.db
    → IsValid (execute x q w).1.db × Extends w.db (execute x q w).1.db
registered-IsValid x permanently q w registered valid =
    execute-IsValid x q w (rw registered (tools-IsIsolated permanently)) valid

-- For services that build_services made, where a request to Gemini and a model that was passed in
-- leave the program's tables as they are, save that they may add what a provider applied: when the
-- database is valid, then however any step of the workflow ends, the trace stays numbered 1, 2,
-- ... at each step of each run, and every row of every table is still there, a run and an attempt
-- in a status that its transition table lets it reach from the old one, a completed row of the
-- ledger completed with the same result, and what a provider applied unchanged.
pub built-IsValid :
    (x : Wiring) (before w : World) (services : Services) (step : StepName) (state : Fields)
    (resumed : Option Fields)
    → Requests x.genai
    → AsksIfGiven x.llm
    → (build_services x before).0 ≡ ok services
    → IsValid w.db
    → IsValid (node step state services resumed w).1.db
      × Extends w.db (node step state services resumed w).1.db
built-IsValid x before w services step state resumed requests asks built valid =
    let sound : IsSound services =
      subst (Holds IsSound) built ((build-IsSound x requests asks).at before) in
    ((sound_node_keeps History-Footing services sound step state resumed).at w).after valid
