-- ===== src/Clients/Cli.antt =====
-- offboarding/cli/main.py: the commands. Reading the command line is Typer's; an exception that a
-- command does not take is raised here. A run's new id comes from `hex`.
use offboarding_orchestrator.Prelude.{
  or_else, ℕ, String, Bool, false, ◌||◌, Option, some, List, [], ◌∷◌, map, if◌then◌else◌,
}
use offboarding_orchestrator.Domain.Errors.{Exc, run_not_found, invalid_run_operation, is_instance}
use offboarding_orchestrator.Domain.Result.{Result, ok, err}
use offboarding_orchestrator.World.{Call, pure, reraise, with_result, ◌>>=◌}
use offboarding_orchestrator.Persistence.Runs
use offboarding_orchestrator.Orchestration.Nodes.{Services}
use offboarding_orchestrator.Orchestration.Services.{Wiring, build_services}
use offboarding_orchestrator.Orchestration.RunService
use offboarding_orchestrator.Orchestration.RunService.{Graph}
use offboarding_orchestrator.Clients.Printing.{
  Line, line, inlined, run_lines, run_line, trace_line, side_effect_line,
}

pub data Command : Type 0 where
  start : String → Option ℕ → Option ℕ → Command
  show : String → Command
  list_runs : Option ℕ → Command
  approve reject sign : String → String → Option String → Command
  resume cancel trace side_effects : String → Command

-- What the process prints, and its exit code.
pub record Exit : Type 0 where
  pub printed : List Line
  pub errors : List Line
  pub code : ℕ

abbrev pub fail : Exc → Exit
fail e = record {
  printed = [];
  errors = line "error: {}" (inlined (some e.message)) ∷ [];
  code = 1;
}

-- except RunNotFound
abbrev pub not_found : Exc → Bool
not_found e = is_instance e.class run_not_found

-- except (RunNotFound, InvalidRunOperation)
abbrev pub refused : Exc → Bool
refused e = is_instance e.class run_not_found || is_instance e.class invalid_run_operation

unfoldable pub finish : {A : Type 0} → (Exc → Bool) → (A → List Line) → Result A → Call Exit
finish caught print (ok a) = pure (record { printed = print a; errors = []; code = 0 })
finish caught print (err e) = if caught e then pure (fail e) else reraise e

-- try: a call of a service that is built for it; except; print
unfoldable pub command :
    {A : Type 0}
    → Wiring
    → (Services → Graph)
    → (Exc → Bool)
    → (A → List Line)
    → (Graph → Call A)
    → Call Exit
command x compile caught print call =
    with_result (build_services x >>= λ services. call (compile services)) (finish caught print)

module _ (x : Wiring) (compile : Services → Graph) (hex : String) where
  unfoldable pub execute : Command → Call Exit
  execute (start employee_id max_steps max_tool_calls) =
      command x compile not_found run_lines λ service.
        RunService.start_run service employee_id (or_else 20 max_steps) (or_else 30 max_tool_calls)
          hex
  execute (show run_id) = command x compile not_found run_lines λ service. Runs.get run_id
  execute (list_runs limit) =
      command x compile (λ e. false) (map run_line) λ service. Runs.list_runs (or_else 20 limit)
  execute (approve run_id approver remark) =
      command x compile refused run_lines
        λ service. RunService.approve service run_id approver remark
  execute (reject run_id approver remark) =
      command x compile refused run_lines
        λ service. RunService.reject service run_id approver remark
  execute (sign run_id document_id signed_at) =
      command x compile refused run_lines
        λ service. RunService.submit_signed_document service run_id document_id signed_at
  execute (resume run_id) =
      command x compile refused run_lines λ service. RunService.resume_run service run_id
  execute (cancel run_id) =
      command x compile refused run_lines λ service. RunService.cancel_run run_id
  execute (trace run_id) =
      command x compile not_found (map trace_line) λ service. RunService.get_trace run_id
  execute (side_effects run_id) =
      command x compile not_found (map side_effect_line)
        λ service. RunService.get_side_effects run_id
