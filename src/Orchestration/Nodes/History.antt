-- ===== src/Orchestration/Nodes/History.antt =====
-- The steps of nodes.py and the history of the database.
use offboarding_orchestrator.Prelude.{Option, All}
use offboarding_orchestrator.Domain.StepName.{StepName}
use offboarding_orchestrator.Domain.Json.{Value, Fields}
use offboarding_orchestrator.World.{World}
use offboarding_orchestrator.World.Keeps.{Keeps}
use offboarding_orchestrator.Persistence.History.{History, IsValid, Extends}
use offboarding_orchestrator.Tools.Isolation.{IsIsolated}
use offboarding_orchestrator.Tools.Executor.History.{History-Footing}
use offboarding_orchestrator.Orchestration.Nodes.{Services}
use offboarding_orchestrator.Orchestration.Graph.{node}
use offboarding_orchestrator.Orchestration.Nodes.Keeping.{node_keeps}

-- When the database is valid, every registered tool only adds to its provider's own table, and
-- asking for a plan keeps the history: however any step of the workflow ends, the trace stays
-- numbered 1, 2, ... at each step of each run, and every row of every table is still there, a run
-- and an attempt in a status that its transition table lets it reach from the old one, and a
-- completed row of the ledger completed with the same result.
pub node-IsValid :
    (step : StepName) (state : Fields) (services : Services) (resumed : Option Fields) (w : World)
    → All IsIsolated services.executor.registry
    → ((employee : Value) → Keeps History (services.llm.generate_plan employee))
    → IsValid w.db
    → IsValid (node step state services resumed w).1.db
      × Extends w.db (node step state services resumed w).1.db
node-IsValid step state services resumed w isolated asks valid =
    ((node_keeps History-Footing services isolated asks step state resumed).at w).after valid
