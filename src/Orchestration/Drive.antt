-- ===== src/Orchestration/Drive.antt =====
-- What LangGraph does with the compiled graph of offboarding/orchestration/graph.py: it runs the
-- steps it was given, and keeps its checkpoints in tables of its own.
use offboarding_orchestrator.Prelude.{String, Option, All}
use offboarding_orchestrator.Domain.StepName.{StepName}
use offboarding_orchestrator.Domain.Json.{Value, Fields}
use offboarding_orchestrator.World.{Db, World}
use offboarding_orchestrator.World.Keeps.{Keeps}
use offboarding_orchestrator.Tools.Isolation.{Isolated, IsIsolated}
use offboarding_orchestrator.Tools.Footing.{Footing, Keeps-of_Isolated}
use offboarding_orchestrator.Orchestration.Nodes.{Services}
use offboarding_orchestrator.Orchestration.Nodes.Keeping.{node_keeps}
use offboarding_orchestrator.Orchestration.Graph.{node}
use offboarding_orchestrator.Orchestration.RunService.{Graph, Input}

-- From one world to another by runs of steps, on any states and with any resumed values.
pub data Drives (services : Services) : World → World → Type 0 where
  rests : (w : World) → Drives services w w
  runs :
      (step : StepName) (state : Fields) (resumed : Option Fields) (a b : World)
      → Drives services (node step state services resumed a).1 b
      → Drives services a b

-- Whatever the graph is invoked with, it writes to the program's tables by its steps alone.
pub record IsDriven (services : Services) (graph : Graph) : Type 0 where
  pub drives :
      (input : Input) (thread_id : String) (w : World)
      → Drives services w (graph.invoke input thread_id w).1

-- The tools and the language model write to none of the tables but their own.
pub record IsSound (services : Services) : Type 0 where
  pub tools : All IsIsolated services.executor.registry
  pub asks : (employee : Value) → Keeps Isolated (services.llm.generate_plan employee)

module _ {R : Db → Db → Type 0} (foot : Footing R) (services : Services)
    (sound : IsSound services) where
  pub sound_node_keeps :
      (step : StepName) (state : Fields) (resumed : Option Fields)
      → Keeps R (node step state services resumed)
  sound_node_keeps step state resumed =
      node_keeps foot services sound.tools
        (λ employee. Keeps-of_Isolated foot (sound.asks employee)) step state resumed

  drives_keep : (a b : World) → Drives services a b → R a.db b.db
  drives_keep a _ (rests _) = foot.order.stay a.db
  drives_keep a b (runs step state resumed _ _ rest) =
      foot.order.chain _ _ _ ((sound_node_keeps step state resumed).at a) (drives_keep _ b rest)

  pub driven_keeps :
      (graph : Graph)
      → IsDriven services graph
      → (input : Input) (thread_id : String) → Keeps R (graph.invoke input thread_id)
  driven_keeps graph driven input thread_id = record {
    at = λ w. drives_keep w _ (driven.drives input thread_id w);
  }
