-- ===== src/Orchestration/Services/Sound.antt =====
-- The services that build_services of services.py makes.
use offboarding_orchestrator.Prelude.{String, Bool, false, ◌≡◌, refl, Option, none, some, [], All}
use offboarding_orchestrator.Domain.Json.{Value}
use offboarding_orchestrator.Domain.Errors.{Message}
use offboarding_orchestrator.Domain.Result.{ok}
use offboarding_orchestrator.World.{lift}
use offboarding_orchestrator.World.Keeps.{Keeps}
use offboarding_orchestrator.World.Gives.{
  Gives, Gives-pure, Gives-raise, Gives-if, Gives-bind, Gives-bind_with,
}
use offboarding_orchestrator.Tools.Base.{ToolRegistry, build_registry, register}
use offboarding_orchestrator.Tools.Isolation.{Isolated, IsIsolated}
use offboarding_orchestrator.Tools.Iam.{iam_tool}
use offboarding_orchestrator.Tools.HrDirectory.{hr_directory_tool}
use offboarding_orchestrator.Tools.Documents.{send_exit_paperwork_tool, archive_record_tool}
use offboarding_orchestrator.Tools.Contracts.{
  iam_tool-IsIsolated, hr_directory_tool-IsIsolated, send_exit_paperwork_tool-IsIsolated,
  archive_record_tool-IsIsolated,
}
use offboarding_orchestrator.Llm.Provider.{LlmProvider}
use offboarding_orchestrator.Llm.Fake.{fake_llm}
use offboarding_orchestrator.Llm.Gemini.{Genai, GeminiLlm, gemini_llm}
use offboarding_orchestrator.Llm.Factory.{build_llm}
use offboarding_orchestrator.Llm.Isolation.{fake_plan_Isolated, gemini_plan_Isolated}
use offboarding_orchestrator.Orchestration.Drive.{IsSound}
use offboarding_orchestrator.Orchestration.Services.{
  Wiring, registered_tools, or_build, build_services, set_failures, fail_times, wired,
}

pub tools-IsIsolated : (permanently : Bool) → All IsIsolated (registered_tools permanently)
tools-IsIsolated permanently = (
  hr_directory_tool-IsIsolated,
  (
    iam_tool-IsIsolated permanently false,
    (send_exit_paperwork_tool-IsIsolated, (archive_record_tool-IsIsolated, tt)),
  ),
)

registry_lem :
    (permanently : Bool)
    → build_registry (registered_tools permanently) [] ≡ ok (registered_tools permanently)
unfolding build_registry register iam_tool hr_directory_tool send_exit_paperwork_tool
    archive_record_tool
registry_lem permanently = refl

abbrev pub Asks : LlmProvider → Type 0
Asks llm = (employee : Value) → Keeps Isolated (llm.generate_plan employee)

-- What is asked of the model that is passed in, if there is one.
abbrev pub AsksIfGiven : Option LlmProvider → Type 0
AsksIfGiven none = Unit
AsksIfGiven (some llm) = Asks llm

-- A request to Gemini writes to none of the program's tables.
abbrev pub Requests : Genai → Type 0
Requests genai = (key model : String) (m : Message) → Keeps Isolated (genai.create key model m)

module _ (x : Wiring) (requests : Requests x.genai) where
  fake_llm-Asks : (format : Message → String) → Asks (fake_llm format)
  unfolding fake_llm
  fake_llm-Asks format employee = fake_plan_Isolated format employee

  gemini_llm-Asks : (gemini : GeminiLlm) → Asks (gemini_llm x.genai gemini)
  unfolding gemini_llm
  gemini_llm-Asks gemini employee = gemini_plan_Isolated x.genai requests gemini employee

  build_llm-Asks :
      (provider : Option String) → Gives Asks (build_llm x.format x.genai x.getenv provider)
  unfolding build_llm
  build_llm-Asks provider =
      search (Gives-if, Gives-bind, Gives-pure, Gives-raise, fake_llm-Asks, gemini_llm-Asks)

  or_build-Asks : (o : Option LlmProvider) → AsksIfGiven o → Gives Asks (or_build x o)
  unfolding or_build
  or_build-Asks none h = build_llm-Asks none
  or_build-Asks (some llm) h = Gives-pure llm h

  wired-IsSound :
      (registry : ToolRegistry)
      → AsksIfGiven x.llm
      → All IsIsolated registry
      → Gives IsSound (wired x registry)
  unfolding wired
  wired-IsSound registry h isolated =
      Gives-bind_with Asks (or_build x x.llm) _ (or_build-Asks x.llm h)
        λ llm asks. Gives-pure _ (record { tools = isolated; asks = asks })

  registry-IsIsolated :
      (permanently : Bool)
      → Gives (All IsIsolated) (lift (build_registry (registered_tools permanently) []))
  registry-IsIsolated permanently = record {
    at = λ w. rw (registry_lem permanently) (tools-IsIsolated permanently);
  }

  pub build-IsSound : AsksIfGiven x.llm → Gives IsSound (build_services x)
  unfolding build_services
  build-IsSound h = Gives-bind (fail_times x) _ λ failures.
      Gives-bind (set_failures failures) _ λ done.
        Gives-bind_with (All IsIsolated) _ _ (registry-IsIsolated x.iam_fail_permanently)
          λ registry isolated. wired-IsSound registry h isolated
