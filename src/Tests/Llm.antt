-- ===== src/Tests/Llm.antt =====
-- Plans for small records.
use offboarding_orchestrator.Prelude.{String, true, refl, List, [], ◌∷◌}
use offboarding_orchestrator.Domain.Json.{Value, null, str, list, dict, nil, cons, end, field}
use offboarding_orchestrator.Domain.Errors.{Message}
use offboarding_orchestrator.World.{pure}
use offboarding_orchestrator.Tools.Arguments.{to_list}
use offboarding_orchestrator.Llm.Provider.{
  DeprovisioningPlan, high, fits, texts, systems_or_none, systems_of_employee, check_plan,
  validate_plan, parsed, parse_plan,
}
use offboarding_orchestrator.Llm.Plans.{HasSystems, Covers, Verdict, validate_plan-Verdict}
use offboarding_orchestrator.Llm.Gemini.{Genai, GeminiLlm, json, answered, decoded, gemini_plan}
use offboarding_orchestrator.Llm.Covering.{Fakes, fake_plan-Fakes, gemini_plan-Covers}
use offboarding_orchestrator.Tests.Data.{fresh_world}

abbrev record_7 : Value
record_7 = dict (field "systems" (list (cons (str "aws") (cons (str "zoom") nil))) end)

abbrev names_7 : List String
names_7 = "aws" ∷ "zoom" ∷ []

has_7 : HasSystems record_7 names_7
has_7 = (_, refl, refl)

abbrev plan_7 : DeprovisioningPlan
plan_7 = record {
  items =
      record { system = "zoom"; action = "Revoke"; risk_level = high }
      ∷ record { system = "aws"; action = "Revoke"; risk_level = high }
      ∷ [];
  notes = "";
}

validate_plan-Verdict_example :
    Verdict plan_7 names_7 fresh_world (validate_plan plan_7 record_7 fresh_world)
validate_plan-Verdict_example = validate_plan-Verdict plan_7 record_7 names_7 fresh_world has_7

abbrev format : Message → String
format m = m.template

fake_plan-Fakes_example : Fakes format record_7 names_7 fresh_world
fake_plan-Fakes_example = fake_plan-Fakes format record_7 names_7 fresh_world has_7

-- A service that answers with the plan.
abbrev genai : Genai
genai = record {
  installed = true;
  create = λ key model prompt. pure "{}";
  loads = λ text. json null;
  model_validate = λ value. fits plan_7;
}

abbrev gemini : GeminiLlm
gemini = record { model_name = "gemini-3.5-flash-lite"; api_key = "key" }

gemini_plan-Covers_example : Covers plan_7 names_7
unfolding gemini_plan answered decoded parse_plan parsed validate_plan check_plan
    systems_of_employee systems_or_none texts to_list
gemini_plan-Covers_example =
    gemini_plan-Covers genai gemini record_7 names_7 fresh_world fresh_world plan_7 has_7 refl
