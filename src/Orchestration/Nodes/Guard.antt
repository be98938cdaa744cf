-- ===== src/Orchestration/Nodes/Guard.antt =====
-- The guard of nodes.py, and the steps that start with it.
use offboarding_orchestrator.Prelude.{
  ◌≤◌, String, true, false, ◌≡◌, refl, Option, some, leb, arith, [], ◌∷◌, ap, eq_iff,
  select_one_sound,
}
use offboarding_orchestrator.Domain.StepName
use offboarding_orchestrator.Domain.StepName.{StepName}
use offboarding_orchestrator.Domain.Json.{str, num, Fields, get_field}
use offboarding_orchestrator.Domain.Errors.{Exc, run_cancelled, budget_exceeded}
use offboarding_orchestrator.Domain.Result.{err}
use offboarding_orchestrator.Domain.Models.{Run}
use offboarding_orchestrator.World.{World}
use offboarding_orchestrator.Persistence.Runs
use offboarding_orchestrator.Persistence.Runs.{has_run_id, with_counts}
use offboarding_orchestrator.Persistence.Runs.Status.{find}
use offboarding_orchestrator.Orchestration.State.{
  state_item, text_or_error, or_key_error, text_item,
}
use offboarding_orchestrator.Orchestration.Graph.{node}
use offboarding_orchestrator.Orchestration.Nodes.{Services, guard, cancelled_before, steps_spent}
use offboarding_orchestrator.Orchestration.Nodes.Planning.{fetch_employee, plan_deprovisioning}
use offboarding_orchestrator.Orchestration.Nodes.Pauses.{await_hr_approval, await_signed_document}
use offboarding_orchestrator.Orchestration.Nodes.Effects.{
  revoke_access, send_exit_paperwork, finalize,
}

module _ (state : Fields) (step : StepName) (run_id : String) (w : World) (r : Run)
    (named : get_field "run_id" state ≡ some (str run_id)) (found : find run_id w ≡ some r) where
  guard_cancelled :
      r.cancel_requested ≡ true → guard state step w ≡ (err (cancelled_before r step), w)
  unfolding guard text_item state_item or_key_error text_or_error Runs.get
  guard_cancelled h = rw (named, found, h) refl

  guard_spent :
      r.cancel_requested ≡ false
      → leb r.max_steps r.step_count ≡ true
      → guard state step w ≡ (err (steps_spent r), w)
  unfolding guard text_item state_item or_key_error text_or_error Runs.get
  guard_spent h s = rw (named, found, h, s) refl

-- The row that was found for an id has that id.
find-run_id : (run_id : String) (w : World) (r : Run) → find run_id w ≡ some r → r.run_id ≡ run_id
find-run_id run_id w r found =
    (eq_iff r.run_id run_id).0 (select_one_sound (has_run_id run_id) w.db.runs found)

guard-stops :
    (step : StepName) (state : Fields) (services : Services) (resumed : Option Fields) (w : World)
    (e : Exc)
    → guard state step w ≡ (err e, w)
    → node step state services resumed w ≡ (err e, w)
unfolding fetch_employee plan_deprovisioning await_hr_approval revoke_access send_exit_paperwork
    await_signed_document finalize
guard-stops StepName.fetch_employee state services resumed w e h = rw h refl
guard-stops StepName.plan_deprovisioning state services resumed w e h = rw h refl
guard-stops StepName.await_hr_approval state services resumed w e h = rw h refl
guard-stops StepName.revoke_access state services resumed w e h = rw h refl
guard-stops StepName.send_exit_paperwork state services resumed w e h = rw h refl
guard-stops StepName.await_signed_document state services resumed w e h = rw h refl
guard-stops StepName.finalize state services resumed w e h = rw h refl

-- For a run whose cancellation was requested, every step of the workflow raises an exception of
-- the class RunCancelled, which names the run and the step, and changes nothing.
pub node-cancelled :
    (step : StepName) (state : Fields) (services : Services) (resumed : Option Fields)
    (run_id : String) (w : World) (r : Run)
    → get_field "run_id" state ≡ some (str run_id)
    → find run_id w ≡ some r
    → r.cancel_requested ≡ true
    → (e : Exc) × (e.class ≡ run_cancelled)
      × (e.message.values ≡ str run_id ∷ str (StepName.value step) ∷ [])
      × (node step state services resumed w ≡ (err e, w))
node-cancelled step state services resumed run_id w r named found h = (
  cancelled_before r step,
  refl,
  ap (λ own. str own ∷ str (StepName.value step) ∷ []) (find-run_id run_id w r found),
  guard-stops step state services resumed w (cancelled_before r step)
      (guard_cancelled state step run_id w r named found h),
)

-- For a run that is not to be cancelled and has used its steps, every step of the workflow raises
-- an exception of the class BudgetExceeded, which names the run and its limit, and changes
-- nothing.
pub node-spent :
    (step : StepName) (state : Fields) (services : Services) (resumed : Option Fields)
    (run_id : String) (w : World) (r : Run)
    → get_field "run_id" state ≡ some (str run_id)
    → find run_id w ≡ some r
    → r.cancel_requested ≡ false
    → r.max_steps ≤ r.step_count
    → (e : Exc) × (e.class ≡ budget_exceeded)
      × (e.message.values ≡ str run_id ∷ num r.max_steps ∷ [])
      × (node step state services resumed w ≡ (err e, w))
node-spent step state services resumed run_id w r named found h spent = (
  steps_spent r,
  refl,
  ap (λ own. str own ∷ num r.max_steps ∷ []) (find-run_id run_id w r found),
  guard-stops step state services resumed w (steps_spent r)
      (guard_spent state step run_id w r named found h (ground (arith, spent))),
)
