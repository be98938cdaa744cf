-- ===== src/Orchestration/Graph/Progress.antt =====
-- How far the workflow of graph.py has come: the state that LangGraph's last checkpoint holds, and
-- the steps that are still to run. A key that a step returns overwrites the state's; the events,
-- which no step reads, are left out.
use package.text.Mathlib.Text.{◌==◌ as str_eq}
use offboarding_orchestrator.Prelude.{String, Option, List, ◌∷◌, ◌≡◌, if◌then◌else◌}
use offboarding_orchestrator.Domain.StepName.{StepName}
use offboarding_orchestrator.Domain.Json.{Value, str, list, nil, Fields, end, field}
use offboarding_orchestrator.Domain.Errors.{Message}
use offboarding_orchestrator.Domain.Result.{ok}
use offboarding_orchestrator.World.{World}
use offboarding_orchestrator.Orchestration.State.{returns}
use offboarding_orchestrator.Orchestration.Nodes.{Services}
use offboarding_orchestrator.Orchestration.Graph.{workflow, node}

abbrev pub set_field : String → Value → Fields → Fields
set_field k v end = field k v end
set_field k v (field j u fs) =
    let rest = set_field k v fs in if str_eq j k then field j v fs else field j u rest

abbrev pub merge : Fields → Fields → Fields
merge state end = state
merge state (field k v update) = merge (set_field k v state) update

-- The state that start_run gives the graph.
abbrev pub first_state : String → String → Fields
first_state run_id employee_id =
    field "run_id" (str run_id)
      (field "employee_id" (str employee_id) (field "events" (list nil) end))

-- The checkpoints of a run, whatever happens between two steps: a restart, a write by another
-- process, a step that raises or interrupts and is run again.
pub data Reaches (services : Services) : Fields → List StepName → Type 0 where
  begins :
      (run_id employee_id : String) → Reaches services (first_state run_id employee_id) workflow
  completes :
      (step : StepName) (left : List StepName) (state update : Fields) (events : List Message)
      (resumed : Option Fields) (w w' : World)
      → Reaches services state (step ∷ left)
      → node step state services resumed w ≡ (ok (returns update events), w')
      → Reaches services (merge state update) left
