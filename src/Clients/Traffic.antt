-- ===== src/Clients/Traffic.antt =====
-- Any sequence of commands, requests and restarts of the server, over one database. A command is a
-- process of its own; the server keeps the service that it has built (`_service`) until it restarts.
use offboarding_orchestrator.Prelude.{String, Option, none, some, List, [], ◌∷◌}
use offboarding_orchestrator.Domain.Result.{Result, ok, err}
use offboarding_orchestrator.World.{Call, pure, with_result}
use offboarding_orchestrator.Orchestration.Nodes.{Services}
use offboarding_orchestrator.Orchestration.Services.{Wiring}
use offboarding_orchestrator.Orchestration.RunService.{Graph}
use offboarding_orchestrator.Clients.Api.{Request, route, get_service}
use offboarding_orchestrator.Clients.Cli.{Command, execute}

pub data Visit : Type 0 where
  requests : String → Request → Visit
  commands : String → Command → Visit
  restarts : Visit

-- A request to a server that has built its service, or could not.
unfoldable pub serviced :
    String → Request → (Option Graph → Call (Unit {0})) → Result Graph → Call (Unit {0})
serviced hex request rest (ok built) =
    with_result (route built hex request) λ response. rest (some built)
serviced hex request rest (err e) = rest none

unfoldable pub traffic : Wiring → (Services → Graph) → Option Graph → List Visit → Call (Unit {0})
traffic x compile service [] = pure tt
traffic x compile service (requests hex request ∷ visits) =
    with_result (get_service x compile service)
      (serviced hex request λ kept. traffic x compile kept visits)
traffic x compile service (commands hex c ∷ visits) =
    with_result (execute x compile hex c) λ exit. traffic x compile service visits
traffic x compile service (restarts ∷ visits) = traffic x compile none visits
