-- ===== src/Clients/System.antt =====
-- The whole program: the commands and the requests of offboarding/cli/main.py and
-- offboarding/api/main.py, over services that are built as offboarding/orchestration/services.py
-- builds them.
use offboarding_orchestrator.Prelude.{or_else, String, Bool, Option, none, some, List, [], ◌∷◌}
use offboarding_orchestrator.Domain.Errors.{Exc}
use offboarding_orchestrator.Domain.Result.{Result, ok, err}
use offboarding_orchestrator.World.{Db, World, Call, ◌>>=◌}
use offboarding_orchestrator.World.Keeps.{Keeps, Keeps-pure, Keeps-with_result}
use offboarding_orchestrator.World.Gives.{
  Gives, Holds, Gives-pure, Gives-bind_with, Keeps-bind_with, Keeps-with_result_given,
}
use offboarding_orchestrator.Persistence.Runs.Budget.{InBudget}
use offboarding_orchestrator.Persistence.History.{IsValid, Extends}
use offboarding_orchestrator.Tools.Footing.{Footing}
use offboarding_orchestrator.Tools.Executor.History.{History-Footing}
use offboarding_orchestrator.Orchestration.Nodes.{Services}
use offboarding_orchestrator.Orchestration.Drive.{IsDriven, IsSound, driven_keeps}
use offboarding_orchestrator.Orchestration.Services.{Wiring, build_services}
use offboarding_orchestrator.Orchestration.Services.Sound.{Requests, AsksIfGiven, build-IsSound}
use offboarding_orchestrator.Orchestration.RunService.{Graph, Input}
use offboarding_orchestrator.Orchestration.RunService.Keeping.{
  starts, approves, rejects, submits, resumes, cancels, ServiceFooting, perform_keeps,
}
use offboarding_orchestrator.Orchestration.RunService.History.{History-service}
use offboarding_orchestrator.Orchestration.RunService.Budget.{Bounded-Footing, Bounded-service}
use offboarding_orchestrator.Clients.Api.{Request, get_service}
use offboarding_orchestrator.Clients.Printing.{Line}
use offboarding_orchestrator.Clients.Cli.{Command, command, execute}
use offboarding_orchestrator.Clients.Keeping.{
  build_services_keeps, finish_keeps, route_keeps, get_keeps, list_runs_keeps, get_trace_keeps,
  get_side_effects_keeps,
}
use offboarding_orchestrator.Clients.Traffic.{
  Visit, requests, commands, restarts, serviced, traffic,
}

-- What is asked of the packages: a request to Gemini, and a model that is passed in, write to none
-- of the program's tables; and a compiled graph writes to them by its steps alone.
pub record IsContained (x : Wiring) (compile : Services → Graph) : Type 0 where
  pub gemini : Requests x.genai
  pub model : AsksIfGiven x.llm
  pub graph : (services : Services) → IsDriven services (compile services)

module _ {R : Db → Db → Type 0} (steps : Footing R) (foot : ServiceFooting R) (x : Wiring)
    (compile : Services → Graph) (contained : IsContained x compile) where
  -- Its graph keeps the relation.
  abbrev IsKept : Graph → Type 0
  IsKept service = (input : Input) (thread_id : String) → Keeps R (service.invoke input thread_id)

  abbrev IsKeptIfBuilt : Option Graph → Type 0
  IsKeptIfBuilt none = Unit
  IsKeptIfBuilt (some service) = IsKept service

  built-IsSound : Gives IsSound (build_services x)
  built-IsSound = build-IsSound x contained.gemini contained.model

  compiled-IsKept : (services : Services) → IsSound services → IsKept (compile services)
  compiled-IsKept services sound =
      driven_keeps steps services sound (compile services) (contained.graph services)

  get_service-IsKept : (o : Option Graph) → IsKeptIfBuilt o → Gives IsKept (get_service x compile o)
  unfolding get_service
  get_service-IsKept none h =
      Gives-bind_with IsSound (build_services x) _ built-IsSound
        λ services sound. Gives-pure _ (compiled-IsKept services sound)
  get_service-IsKept (some service) h = Gives-pure service h

  get_service_keeps : (o : Option Graph) → Keeps R (get_service x compile o)
  unfolding get_service
  get_service_keeps none =
      Keeps-bind_with foot.order IsSound (build_services x) _ built-IsSound
        (build_services_keeps foot x) λ services sound. Keeps-pure foot.order _
  get_service_keeps (some service) = Keeps-pure foot.order service

  command_keeps :
      {A : Type 0} (caught : Exc → Bool) (print : A → List Line) (call : Graph → Call A)
      → ((service : Graph) → IsKept service → Keeps R (call service))
      → Keeps R (command x compile caught print call)
  unfolding command
  command_keeps caught print call h =
      Keeps-with_result foot.order (build_services x >>= λ services. call (compile services)) _
        (Keeps-bind_with foot.order IsSound (build_services x) _ built-IsSound
          (build_services_keeps foot x)
          λ services sound. h (compile services) (compiled-IsKept services sound))
        (finish_keeps foot caught print)

  execute_keeps : (hex : String) (c : Command) → Keeps R (execute x compile hex c)
  unfolding execute
  execute_keeps hex (Command.start employee_id max_steps max_tool_calls) =
      command_keeps _ _ _ λ service k.
        perform_keeps foot service k
          (starts employee_id (or_else 20 max_steps) (or_else 30 max_tool_calls) hex)
  execute_keeps hex (Command.show run_id) = command_keeps _ _ _ λ service k. get_keeps foot run_id
  execute_keeps hex (Command.list_runs limit) =
      command_keeps _ _ _ λ service k. list_runs_keeps foot _
  execute_keeps hex (Command.approve run_id approver remark) =
      command_keeps _ _ _
        λ service k. perform_keeps foot service k (approves run_id approver remark)
  execute_keeps hex (Command.reject run_id approver remark) =
      command_keeps _ _ _ λ service k. perform_keeps foot service k (rejects run_id approver remark)
  execute_keeps hex (Command.sign run_id document_id signed_at) =
      command_keeps _ _ _
        λ service k. perform_keeps foot service k (submits run_id document_id signed_at)
  execute_keeps hex (Command.resume run_id) =
      command_keeps _ _ _ λ service k. perform_keeps foot service k (resumes run_id)
  execute_keeps hex (Command.cancel run_id) =
      command_keeps _ _ _ λ service k. perform_keeps foot service k (cancels run_id)
  execute_keeps hex (Command.trace run_id) =
      command_keeps _ _ _ λ service k. get_trace_keeps foot run_id
  execute_keeps hex (Command.side_effects run_id) =
      command_keeps _ _ _ λ service k. get_side_effects_keeps foot run_id

  serviced_keeps :
      (hex : String) (request : Request) (rest : Option Graph → Call (Unit {0}))
      → ((o : Option Graph) → IsKeptIfBuilt o → Keeps R (rest o))
      → (r : Result Graph) → Holds IsKept r
      → Keeps R (serviced hex request rest r)
  unfolding serviced
  serviced_keeps hex request rest h (ok service) k =
      Keeps-with_result foot.order _ _ (route_keeps foot service hex request k)
        λ response. h (some service) k
  serviced_keeps hex request rest h (err e) k = h none tt

  traffic_keeps :
      (visits : List Visit) (o : Option Graph)
      → IsKeptIfBuilt o
      → Keeps R (traffic x compile o visits)
  unfolding traffic
  traffic_keeps [] o h = Keeps-pure foot.order tt
  traffic_keeps (requests hex request ∷ visits) o h =
      Keeps-with_result_given foot.order IsKept _ _ (get_service-IsKept o h) (get_service_keeps o)
        (serviced_keeps hex request _ (traffic_keeps visits))
  traffic_keeps (commands hex c ∷ visits) o h =
      Keeps-with_result foot.order _ _ (execute_keeps hex c) λ exit. traffic_keeps visits o h
  traffic_keeps (restarts ∷ visits) o h = traffic_keeps visits none tt

-- For packages that are contained (a request to Gemini, and a model that is passed in, write to
-- none of the program's tables; a compiled graph writes to them by its steps alone) and a valid
-- database: after any sequence of commands, HTTP requests and restarts of the server, returning or
-- raising, the trace is numbered 1, 2, ... at each step of each run, and every row of every table
-- is still there, a run and an attempt in a status that its transition table lets it reach from
-- the old one, and a completed row of the ledger completed with the same result.
pub traffic-IsValid :
    (x : Wiring) (compile : Services → Graph) (visits : List Visit) (w : World)
    → IsContained x compile
    → IsValid w.db
    → IsValid (traffic x compile none visits w).1.db
      × Extends w.db (traffic x compile none visits w).1.db
traffic-IsValid x compile visits w contained valid =
    ((traffic_keeps History-Footing History-service x compile contained visits none tt).at w).after
      valid

-- For contained packages: when no run has used more than its limits, then none has after any
-- sequence of commands, HTTP requests and restarts of the server, whatever the steps and the tools
-- do.
pub traffic-InBudget :
    (x : Wiring) (compile : Services → Graph) (visits : List Visit) (w : World)
    → IsContained x compile
    → InBudget w.db
    → InBudget (traffic x compile none visits w).1.db
traffic-InBudget x compile visits w contained within =
    ((traffic_keeps Bounded-Footing Bounded-service x compile contained visits none tt).at w).after
      within
