-- ===== src/Tests/Orchestration.antt =====
-- Steps and requests on small inputs.
use offboarding_orchestrator.Prelude.{true, ◌≡◌, refl, none, some, [], ◌∷◌, arith}
use offboarding_orchestrator.Domain.RunStatus.{RunStatus}
use offboarding_orchestrator.Domain.StepName
use offboarding_orchestrator.Domain.StepName.{StepName}
use offboarding_orchestrator.Domain.PauseReason.{PauseReason}
use offboarding_orchestrator.Domain.Json.{num, str, Fields, end, field}
use offboarding_orchestrator.Domain.Errors.{
  Exc, run_cancelled, budget_exceeded, plain, reconciliation_required,
}
use offboarding_orchestrator.Domain.Result.{ok, err}
use offboarding_orchestrator.Domain.Models.{Run, is_terminal}
use offboarding_orchestrator.World.{World, pure, raise}
use offboarding_orchestrator.World.Keeps.{Keeps-pure, Keeps-raise}
use offboarding_orchestrator.Orchestration.Nodes.{Services}
use offboarding_orchestrator.Orchestration.Graph.{node}
use offboarding_orchestrator.Orchestration.Nodes.Guard.{node-cancelled, node-spent}
use offboarding_orchestrator.Orchestration.RunService.{
  Graph, Input, not_paused_for, not_running, already_ended, advance, approve, reject,
  submit_signed_document, resume_run, cancel_run,
}
use offboarding_orchestrator.Tools.Isolation.{Isolated-preorder}
use offboarding_orchestrator.Orchestration.Nodes.Steady.{node-Steady}
use offboarding_orchestrator.Orchestration.RunService.Outcomes.{
  Steady, Steady-preorder, Follows, advance-Follows,
}
use offboarding_orchestrator.World.Gives.{Gives}
use offboarding_orchestrator.Persistence.Runs.Status.{moved, moved_world}
use offboarding_orchestrator.Orchestration.RunService.{require_paused_for, resolve_paused}
use offboarding_orchestrator.Orchestration.RunService.Racing.{
  decision, Takes, resolve_approval_raced,
}
use offboarding_orchestrator.Orchestration.RunService.Refusals.{
  approval_input, ended_run-refuses, approve_twice,
}
use offboarding_orchestrator.Orchestration.RunService.Cancelling.{Cancels, cancel_run-Cancels}
use offboarding_orchestrator.Tests.Data.{run_1, fresh_world}
use offboarding_orchestrator.Tests.Executor.{executor, tools-IsIsolated, ended_run, ended_world}

abbrev pub services : Services
services = record {
  executor = executor;
  llm = record {
    name = "fixed";
    generate_plan = λ employee. pure (record { items = []; notes = "" });
  };
}

abbrev pub state : Fields
state = field "run_id" (str "run_1") (field "employee_id" (str "emp-001") end)

abbrev pub with_run : Run → World
with_run r = record fresh_world { db = record fresh_world.db { runs = r ∷ [] } }

abbrev flagged_run : Run
flagged_run = record run_1 { cancel_requested = true }

node-cancelled_example :
    (e : Exc) × (e.class ≡ run_cancelled)
    × (e.message.values ≡ str "run_1" ∷ str "revoke_access" ∷ [])
    × (node StepName.revoke_access state services none (with_run flagged_run)
        ≡ (err e, with_run flagged_run))
unfolding StepName.value
node-cancelled_example =
    node-cancelled StepName.revoke_access state services none "run_1" (with_run flagged_run)
      flagged_run refl refl refl

abbrev spent_run : Run
spent_run = record run_1 { step_count = 50 }

node-spent_example :
    (e : Exc) × (e.class ≡ budget_exceeded)
    × (e.message.values ≡ str "run_1" ∷ num 50 ∷ [])
    × (node StepName.revoke_access state services none (with_run spent_run)
        ≡ (err e, with_run spent_run))
node-spent_example =
    node-spent StepName.revoke_access state services none "run_1" (with_run spent_run) spent_run
      refl refl refl (omega arith)

-- A graph that gets to its end at once.
abbrev pub finishing : Graph
finishing = record { invoke = λ input thread_id. pure [] }

-- A graph whose step cannot be reconciled.
abbrev stopping : Graph
stopping = record { invoke = λ input thread_id. raise reconciliation_required (plain "in flight") }

advance-Follows_example :
    Follows "run_1" none
      (advance stopping run_1 Input.nothing fresh_world)
      (err (record { class = reconciliation_required; message = plain "in flight" }))
advance-Follows_example =
    advance-Follows stopping run_1 Input.nothing fresh_world run_1
      (Keeps-raise Steady-preorder reconciliation_required (plain "in flight")) refl refl

ended_run-refuses_example :
    (approve finishing "run_1" "ann" none ended_world
      ≡ (err (not_paused_for ended_run PauseReason.hr_approval), ended_world))
    × (reject finishing "run_1" "ann" none ended_world
        ≡ (err (not_paused_for ended_run PauseReason.hr_approval), ended_world))
    × (submit_signed_document finishing "run_1" "doc_1" none ended_world
        ≡ (err (not_paused_for ended_run PauseReason.signed_document), ended_world))
    × (resume_run finishing "run_1" ended_world ≡ (err (not_running ended_run), ended_world))
    × (cancel_run "run_1" ended_world ≡ (err (already_ended ended_run), ended_world))
unfolding is_terminal
ended_run-refuses_example =
    ended_run-refuses finishing "run_1" ended_world ended_run refl "ann" "doc_1" none none refl

abbrev pub waiting_run : Run
waiting_run = record run_1 {
  status = RunStatus.paused;
  pause_reason = some PauseReason.hr_approval;
}

approve_twice_example :
    let w' = (approve finishing "run_1" "ann" none (with_run waiting_run)).1 in
    (r : Run) × (approve finishing "run_1" "bob" none w'
      ≡ (err (not_paused_for r PauseReason.hr_approval), w'))
approve_twice_example =
    approve_twice finishing "run_1" "ann" none (with_run waiting_run) waiting_run refl refl "bob"
      none (Keeps-pure Steady-preorder []) refl

cancel_run-Cancels_example :
    Cancels RunStatus.running "run_1" run_1 fresh_world (cancel_run "run_1" fresh_world)
cancel_run-Cancels_example = cancel_run-Cancels "run_1" fresh_world run_1 refl

node-Steady_example :
    Steady fresh_world.db (node StepName.fetch_employee state services none fresh_world).1.db
node-Steady_example =
    node-Steady services StepName.fetch_employee state none fresh_world
      (record { tools = tools-IsIsolated; asks = λ employee. Keeps-pure Isolated-preorder _ })

-- Another process has taken the run on to the signed document.
abbrev signing_run : Run
signing_run = record waiting_run { pause_reason = some PauseReason.signed_document }

resolve_approval_raced_example :
    (require_paused_for waiting_run PauseReason.hr_approval (with_run waiting_run)
      ≡ (ok tt, with_run waiting_run))
    × ((resolve_paused finishing true waiting_run "ann" none (with_run signing_run)).1
        ≡ (advance finishing
            (moved "run_1" RunStatus.running none none none (with_run signing_run) signing_run)
            (approval_input "ann" none)
            (moved_world "run_1" RunStatus.running none none none (with_run signing_run))).1)
    × Gives
        (Takes (decision "ann" none))
        (node StepName.await_signed_document state services (some (decision "ann" none)))
resolve_approval_raced_example =
    resolve_approval_raced finishing services state "ann" none waiting_run signing_run
      (with_run waiting_run) (with_run signing_run) refl refl refl
