-- ===== src/Orchestration/RunService/History.antt =====
-- The operations of RunService and the history of the database.
use offboarding_orchestrator.Prelude.{String, List}
use offboarding_orchestrator.World.{World}
use offboarding_orchestrator.World.Keeps.{Keeps}
use offboarding_orchestrator.Persistence.History.{History, History-preorder, IsValid, Extends}
use offboarding_orchestrator.Persistence.History.Runs.{
  set_status-History, request_cancel-History, create-History,
}
use offboarding_orchestrator.Orchestration.RunService.{Graph, Input}
use offboarding_orchestrator.Orchestration.RunService.Keeping.{
  Operation, serve, ServiceFooting, serve_keeps,
}

pub History-service : ServiceFooting History
History-service = record {
  order = History-preorder;
  moves = set_status-History;
  flags = request_cancel-History;
  creates = create-History;
}

-- When the database is valid and the graph keeps the history: after any sequence of requests to
-- the service, returning or raising, the trace is numbered 1, 2, ... at each step of each run, and
-- every row of every table is still there, a run and an attempt in a status that its transition
-- table lets it reach from the old one, and a completed row of the ledger completed with the same
-- result.
pub serve-IsValid :
    (graph : Graph) (operations : List Operation) (w : World)
    → ((input : Input) (thread_id : String) → Keeps History (graph.invoke input thread_id))
    → IsValid w.db
    → IsValid (serve graph operations w).1.db × Extends w.db (serve graph operations w).1.db
serve-IsValid graph operations w invokes valid =
    ((serve_keeps History-service graph invokes operations).at w).after valid
