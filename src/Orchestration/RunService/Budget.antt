-- ===== src/Orchestration/RunService/Budget.antt =====
-- The operations of RunService and the limits of the runs.
use offboarding_orchestrator.Persistence.Runs.Budget.{
  Bounded, Bounded-preorder, same_runs-Bounded, set_status-Bounded, request_cancel-Bounded,
  create-Bounded, bump_call-Bounded, bump_step-Bounded,
}
use offboarding_orchestrator.Tools.Footing.{Footing, runs_Footing}
use offboarding_orchestrator.Orchestration.RunService.Keeping.{ServiceFooting}

pub Bounded-Footing : Footing Bounded
Bounded-Footing =
    runs_Footing Bounded-preorder same_runs-Bounded bump_call-Bounded bump_step-Bounded

pub Bounded-service : ServiceFooting Bounded
Bounded-service = record {
  order = Bounded-preorder;
  moves = set_status-Bounded;
  flags = request_cancel-Bounded;
  creates = create-Bounded;
}
