-- ===== src/Tests/Clients.antt =====
-- Requests and commands on small inputs.
use offboarding_orchestrator.Prelude.{
  true, false, Bool-cases, inl, inr, arith, ◌≡◌, refl, none, some, List, [], ◌∷◌,
}
use offboarding_orchestrator.Domain.PauseReason.{PauseReason}
use offboarding_orchestrator.Domain.StepName.{StepName}
use offboarding_orchestrator.Domain.Errors.{exception, plain}
use offboarding_orchestrator.Domain.Models.{Run, is_terminal}
use offboarding_orchestrator.Domain.JsonText.{as_json}
use offboarding_orchestrator.Domain.Result.{ok}
use offboarding_orchestrator.World.{pure, raise, with_result}
use offboarding_orchestrator.World.Keeps.{Keeps-raise, Keeps-pure}
use offboarding_orchestrator.Persistence.History.{IsValid, Extends}
use offboarding_orchestrator.Persistence.Runs.Budget.{InBudget}
use offboarding_orchestrator.Persistence.Runs.{has_run_id}
use offboarding_orchestrator.Tools.Isolation.{Isolated-preorder}
use offboarding_orchestrator.Tools.Base.{build_registry, register}
use offboarding_orchestrator.Tools.Iam.{iam_tool}
use offboarding_orchestrator.Tools.HrDirectory.{hr_directory_tool}
use offboarding_orchestrator.Tools.Documents.{send_exit_paperwork_tool, archive_record_tool}
use offboarding_orchestrator.Llm.Provider.{fails}
use offboarding_orchestrator.Llm.Gemini.{Genai, malformed}
use offboarding_orchestrator.Orchestration.Nodes.{Services}
use offboarding_orchestrator.Orchestration.Graph.{node}
use offboarding_orchestrator.Orchestration.Drive.{Drives}
use offboarding_orchestrator.Orchestration.Services.{
  Wiring, build_services, fail_times, wired, or_build, registered_tools, attempts_of,
}
use offboarding_orchestrator.Orchestration.RunService.{Graph, not_paused_for}
use offboarding_orchestrator.Orchestration.Services.History.{built-IsValid}
use offboarding_orchestrator.Clients.Api.{Request, ApprovalRequest, route, respond}
use offboarding_orchestrator.Clients.Cli.{Command, execute}
use offboarding_orchestrator.Clients.Missing.{not_found_response, route-not_found}
use offboarding_orchestrator.Clients.Conflicts.{conflict, route-conflict, route-approve_twice}
use offboarding_orchestrator.Clients.Agreement.{
  Change, approves, as_request, as_command, Agree, respond-Agree,
}
use offboarding_orchestrator.Clients.Traffic.{Visit, requests, commands, restarts, traffic}
use offboarding_orchestrator.Clients.System.{IsContained, traffic-IsValid, traffic-InBudget}
use offboarding_orchestrator.Domain.Models.{completed}
use offboarding_orchestrator.Tools.Ledger.{run_once}
use offboarding_orchestrator.Clients.Once.{traffic-once}
use offboarding_orchestrator.World.{World}
use offboarding_orchestrator.Tests.Data.{
  run_1, fresh_world, world_of, row_in, receipt, the_key, iam, kwargs,
}
use offboarding_orchestrator.Tests.Executor.{
  tools-IsIsolated, fresh-IsValid, ended_run, ended_world,
}
use offboarding_orchestrator.Tests.Orchestration.{state, services, finishing, waiting_run, with_run}
use offboarding_orchestrator.Tests.Retry.{retrying_loop}

-- Gemini cannot be reached.
abbrev genai : Genai
genai = record {
  installed = false;
  create = λ key model prompt. raise exception (plain "unreachable");
  loads = λ text. malformed (plain "");
  model_validate = λ value. fails (plain "");
}

abbrev wiring : Wiring
wiring = record {
  llm = some services.llm;
  max_attempts = none;
  iam_fail_times = 0;
  iam_fail_permanently = false;
  env_fail_times = ok 2;
  getenv = λ name. none;
  genai = genai;
  format = λ m. m.template;
  retrying = retrying_loop;
  depth = 10;
}

-- A graph that runs the first step and ends.
abbrev compile : Services → Graph
compile built = record {
  invoke =
      λ input thread_id. with_result (node StepName.fetch_employee state built none) λ r. pure [];
}

contained : IsContained wiring compile
contained = record {
  gemini = λ key model m. Keeps-raise Isolated-preorder exception (plain "unreachable");
  model = λ employee. Keeps-pure Isolated-preorder _;
  graph = λ built. record {
    drives =
        λ input thread_id w. Drives.runs StepName.fetch_employee state none w _ (Drives.rests _);
  };
}

abbrev built : Services
built = record {
  executor = record {
    registry = registered_tools false;
    max_attempts = attempts_of none;
    retrying = retrying_loop;
    depth = 10;
  };
  llm = services.llm;
}

built-IsValid_example :
    IsValid (node StepName.fetch_employee state built none fresh_world).1.db
    × Extends fresh_world.db (node StepName.fetch_employee state built none fresh_world).1.db
unfolding build_services fail_times wired or_build build_registry register iam_tool
    hr_directory_tool send_exit_paperwork_tool archive_record_tool
built-IsValid_example =
    built-IsValid wiring fresh_world fresh_world built StepName.fetch_employee state none
      contained.gemini contained.model refl fresh-IsValid

abbrev visits : List Visit
visits =
    commands "abc" (Command.start "emp-001" none none)
    ∷ requests "abd" (Request.cancel "run_abc")
    ∷ restarts
    ∷ requests "abe" (Request.resume "run_1")
    ∷ []

traffic-IsValid_example :
    IsValid (traffic wiring compile none visits fresh_world).1.db
    × Extends fresh_world.db (traffic wiring compile none visits fresh_world).1.db
traffic-IsValid_example = traffic-IsValid wiring compile visits fresh_world contained fresh-IsValid

fresh-InBudget : InBudget fresh_world.db
fresh-InBudget = record {
  runs = λ k. elim (Bool-cases (has_run_id k run_1)) [
    | inl own ↦ rw own (omega arith, omega arith)
    | inr other ↦ rw other tt
  ];
}

traffic-InBudget_example : InBudget (traffic wiring compile none visits fresh_world).1.db
traffic-InBudget_example =
    traffic-InBudget wiring compile visits fresh_world contained fresh-InBudget

route-not_found_example :
    route finishing "abc" (Request.cancel "run_9") fresh_world
    ≡ (ok (not_found_response "run_9"), fresh_world)
route-not_found_example =
    route-not_found finishing "abc" (Request.cancel "run_9") "run_9" fresh_world refl refl

abbrev approval : ApprovalRequest
approval = record { approver = "ann"; remark = none }

route-conflict_example :
    route finishing "abc" (Request.approve "run_1" approval) ended_world
    ≡ (ok (conflict (not_paused_for ended_run PauseReason.hr_approval)), ended_world)
unfolding is_terminal
route-conflict_example =
    route-conflict finishing "abc" (Request.approve "run_1" approval) "run_1" ended_world ended_run
      (not_paused_for ended_run PauseReason.hr_approval) refl refl refl refl

route-approve_twice_example :
    let w' = (route finishing "abc" (Request.approve "run_1" approval) (with_run waiting_run)).1 in
    (r : Run) × (route finishing "abc" (Request.approve "run_1" approval) w'
      ≡ (ok (conflict (not_paused_for r PauseReason.hr_approval)), w'))
route-approve_twice_example =
    route-approve_twice services finishing "abc" "run_1" approval approval (with_run waiting_run)
      waiting_run
      (record { tools = tools-IsIsolated; asks = λ employee. Keeps-pure Isolated-preorder _ })
      (record { drives = λ input thread_id w. Drives.rests w }) refl refl refl

abbrev change : Change
change = approves "run_1" "ann" none

respond-Agree_example :
    Agree
      (respond wiring compile none "abc" (as_request change) fresh_world).0
      (execute wiring compile "abc" (as_command change) fresh_world).0
    × ((respond wiring compile none "abc" (as_request change) fresh_world).1
        ≡ (execute wiring compile "abc" (as_command change) fresh_world).1)
unfolding build_services fail_times wired or_build build_registry register iam_tool
    hr_directory_tool send_exit_paperwork_tool archive_record_tool
respond-Agree_example =
    respond-Agree wiring compile "abc" change
      (record {
        executor = record {
          registry = registered_tools false;
          max_attempts = 3;
          retrying = retrying_loop;
          depth = 10;
        };
        llm = services.llm;
      })
      fresh_world (record fresh_world { iam_failures = 2 }) refl

-- A ledger in which the side effect is completed.
abbrev settled_world : World
settled_world = world_of (row_in completed (some receipt) ∷ []) [] []

traffic-once_example :
    let w' = (traffic wiring compile none visits settled_world).1 in
    run_once 1 the_key "run_1" "revoke_access" iam kwargs w'
    ≡ (ok (record { result = as_json receipt; replayed = true; reconciled = false }), w')
traffic-once_example =
    traffic-once wiring compile visits settled_world the_key (row_in completed (some receipt))
      contained (record { counted = tt; numbered = tt }) refl refl 0 "run_1" "revoke_access" iam
      kwargs
