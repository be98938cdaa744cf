-- ===== src/Orchestration/Nodes/Steady.antt =====
-- The steps of nodes.py and the status of a run.
use offboarding_orchestrator.Prelude.{
  ℕ, String, ◌≡◌, refl, Option, Later, select_one, select_one-update, updated, Bool, none, some,
  Bool-cases, inl, inr,
}
use offboarding_orchestrator.Domain.StepName.{StepName}
use offboarding_orchestrator.Domain.Json.{Fields}
use offboarding_orchestrator.Domain.Models.{Run}
use offboarding_orchestrator.World.{Db, World}
use offboarding_orchestrator.Persistence.Runs.{has_run_id, with_counts, bump_counters}
use offboarding_orchestrator.Persistence.Runs.Budget.{bump_counters-runs}
use offboarding_orchestrator.Tools.Footing.{Footing, runs_Footing}
use offboarding_orchestrator.Orchestration.Nodes.{Services}
use offboarding_orchestrator.Orchestration.Graph.{node}
use offboarding_orchestrator.Orchestration.Drive.{IsSound, sound_node_keeps}
use offboarding_orchestrator.Orchestration.RunService.Outcomes.{SameStatus, Steady, Steady-preorder}

same_runs-Steady : (a b : Db) → a.runs ≡ b.runs → Steady a b
same_runs-Steady a b same = record { rows = λ k. rw (← same) ((Steady-preorder.stay a).rows k) }

counts-SameStatus :
    (p : Run → Bool) (steps calls ts : ℕ) (o : Option Run)
    → Later SameStatus o (updated p (with_counts steps calls ts) o)
counts-SameStatus p steps calls ts none = tt
counts-SameStatus p steps calls ts (some r) = elim (Bool-cases (p r)) [
  | inl hit ↦ rw hit (record { status = refl; pause = refl; failure = refl })
  | inr miss ↦ rw miss (record { status = refl; pause = refl; failure = refl })
]

bump_counters-Steady :
    (run_id : String) (steps calls : ℕ) (w : World)
    → Steady w.db (bump_counters run_id steps calls w).1.db
bump_counters-Steady run_id steps calls w = record {
  rows = λ k.
      rw
        (
          bump_counters-runs run_id steps calls w,
          select_one-update (has_run_id k) (has_run_id run_id)
              (with_counts steps calls (w.readings w.reads)) w.db.runs (λ a. refl),
        )
        (counts-SameStatus (has_run_id run_id) steps calls (w.readings w.reads)
          (select_one (has_run_id k) w.db.runs));
}

pub Steady-Footing : Footing Steady
Steady-Footing =
    runs_Footing Steady-preorder same_runs-Steady
      (λ run_id w r found more. bump_counters-Steady run_id 0 1 w)
      (λ run_id w r found more. bump_counters-Steady run_id 1 0 w)

-- For services whose tools and model write to no table but the providers', where they only add: no
-- step of the workflow, however it ends, changes the status, the pause reason or the failure
-- reason of any run.
pub node-Steady :
    (services : Services) (step : StepName) (state : Fields) (resumed : Option Fields) (w : World)
    → IsSound services
    → Steady w.db (node step state services resumed w).1.db
node-Steady services step state resumed w sound =
    (sound_node_keeps Steady-Footing services sound step state resumed).at w
