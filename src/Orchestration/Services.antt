-- ===== src/Orchestration/Services.antt =====
-- offboarding/orchestration/services.py: the wiring of the program. The environment's number of
-- failures is what int(os.environ.get("OFFBOARDING_IAM_FAIL_TIMES", "0")) gives, or raises.
pub mod Sound
pub mod History
use offboarding_orchestrator.Prelude.{
  or_else, ℕ, String, Bool, false, Option, none, some, List, [], ◌∷◌, ◌==◌, if◌then◌else◌,
}
use offboarding_orchestrator.Domain.Errors.{Message}
use offboarding_orchestrator.World.{World, Call, pure, lift, ◌>>=◌, ◌>>◌}
use offboarding_orchestrator.Domain.Result.{Result, ok}
use offboarding_orchestrator.Tools.Base.{Tool, ToolRegistry, build_registry}
use offboarding_orchestrator.Tools.Iam
use offboarding_orchestrator.Tools.Documents
use offboarding_orchestrator.Tools.HrDirectory
use offboarding_orchestrator.Tools.Executor.{ExecutionResult}
use offboarding_orchestrator.Tools.Retrying.{Retrying}
use offboarding_orchestrator.Llm.Provider.{LlmProvider}
use offboarding_orchestrator.Llm.Gemini.{Genai}
use offboarding_orchestrator.Llm.Factory.{build_llm}
use offboarding_orchestrator.Orchestration.Nodes.{Services}

-- The arguments of build_services that reach the tools, the executor and the language model, with
-- what the program is run on: the packages it calls, and the environment.
pub record Wiring : Type 0 where
  pub llm : Option LlmProvider
  pub max_attempts : Option ℕ
  pub iam_fail_times : ℕ
  pub iam_fail_permanently : Bool
  pub env_fail_times : Result ℕ
  pub getenv : String → Option String
  pub genai : Genai
  pub format : Message → String
  pub retrying : Retrying ExecutionResult
  pub depth : ℕ

-- iam_fail_times or int(os.environ.get(...))
unfoldable pub fail_times : Wiring → Call ℕ
fail_times x = if x.iam_fail_times == 0 then lift x.env_fail_times else pure x.iam_fail_times

abbrev pub registered_tools : Bool → List Tool
registered_tools iam_fail_permanently =
    HrDirectory.hr_directory_tool
    ∷ Iam.iam_tool iam_fail_permanently false
    ∷ Documents.send_exit_paperwork_tool
    ∷ Documents.archive_record_tool
    ∷ []

-- The new tools, with the failures they are to have.
abbrev pub set_failures : ℕ → Call (Unit {0})
set_failures n w = (ok tt, record w { iam_failures = n; document_failures = 0 })

-- (policy or RetryPolicy()).max_attempts
abbrev pub attempts_of : Option ℕ → ℕ
attempts_of = or_else 3

-- llm or build_llm()
unfoldable pub or_build : Wiring → Option LlmProvider → Call LlmProvider
or_build x none = build_llm x.format x.genai x.getenv none
or_build x (some llm) = pure llm

-- The Services, over a registry.
unfoldable pub wired : Wiring → ToolRegistry → Call Services
wired x registry = do
  llm ← or_build x x.llm
  pure (record {
    executor = record {
      registry = registry;
      max_attempts = attempts_of x.max_attempts;
      retrying = x.retrying;
      depth = x.depth;
    };
    llm = llm;
  })

unfoldable pub build_services : Wiring → Call Services
build_services x = do
  failures ← fail_times x
  set_failures failures
  registry ← lift (build_registry (registered_tools x.iam_fail_permanently) [])
  wired x registry
