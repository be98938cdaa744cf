-- ===== src/Llm/Isolation.antt =====
-- The calls of offboarding/llm and the program's tables.
use offboarding_orchestrator.Prelude.{String, Option, none, some}
use offboarding_orchestrator.Domain.Json.{Value, str, dict, Items, nil, cons}
use offboarding_orchestrator.Domain.Errors.{Message}
use offboarding_orchestrator.Domain.Result.{Result, ok, err}
use offboarding_orchestrator.World.Keeps.{
  Keeps, Keeps-bind, Keeps-pure, Keeps-raise, Keeps-reraise, Keeps-if, Keeps-with_result,
}
use offboarding_orchestrator.Tools.Isolation.{Isolated, Isolated-preorder}
use offboarding_orchestrator.Tools.Contracts.{to_list_Isolated}
use offboarding_orchestrator.Llm.Provider.{
  DeprovisioningPlan, Validation, fits, fails, Payload, already, raw, texts, systems_or_none,
  systems_of_employee, check_plan, validate_plan, parsed, parse_plan,
}
use offboarding_orchestrator.Llm.Fake.{fake_plan}
use offboarding_orchestrator.Llm.Gemini.{
  Genai, GeminiLlm, Loaded, json, malformed, answered, decoded, gemini_plan,
}

ruleset call_rules = (
  Keeps-bind, Keeps-pure, Keeps-raise, Keeps-reraise, Keeps-if, Keeps-with_result,
  Isolated-preorder, to_list_Isolated,
)

texts_Isolated : (xs : Items) → Keeps Isolated (texts xs)
unfolding texts
texts_Isolated nil = search call_rules
texts_Isolated (cons (str s) xs) = search (call_rules, texts_Isolated xs)
texts_Isolated (cons _ xs) = search call_rules

systems_or_none_Isolated : (o : Option Value) → Keeps Isolated (systems_or_none o)
unfolding systems_or_none
systems_or_none_Isolated none = search call_rules
systems_or_none_Isolated (some v) = search (call_rules, texts_Isolated)

systems_of_employee_Isolated : (v : Value) → Keeps Isolated (systems_of_employee v)
unfolding systems_of_employee
systems_of_employee_Isolated (dict fs) = systems_or_none_Isolated _
systems_of_employee_Isolated _ = search call_rules

validate_plan_Isolated :
    (plan : DeprovisioningPlan) (v : Value) → Keeps Isolated (validate_plan plan v)
unfolding validate_plan check_plan
validate_plan_Isolated plan v = search (call_rules, systems_of_employee_Isolated) depth 9

parsed_Isolated : (v : Validation) → Keeps Isolated (parsed v)
unfolding parsed
parsed_Isolated (fits plan) = search call_rules
parsed_Isolated (fails why) = search call_rules

parse_plan_Isolated :
    (model_validate : Value → Validation) (payload : Payload) (v : Value)
    → Keeps Isolated (parse_plan model_validate payload v)
unfolding parse_plan
parse_plan_Isolated model_validate (already plan) v = search (call_rules, validate_plan_Isolated)
parse_plan_Isolated model_validate (raw value) v =
    search (call_rules, parsed_Isolated, validate_plan_Isolated)

pub fake_plan_Isolated :
    (format : Message → String) (v : Value) → Keeps Isolated (fake_plan format v)
unfolding fake_plan
fake_plan_Isolated format (dict fs) =
    search (call_rules, systems_of_employee_Isolated, validate_plan_Isolated)
fake_plan_Isolated format _ = search call_rules

answered_Isolated : (r : Result String) → Keeps Isolated (answered r)
unfolding answered
answered_Isolated (ok text) = search call_rules
answered_Isolated (err e) = search call_rules

decoded_Isolated : (l : Loaded) → Keeps Isolated (decoded l)
unfolding decoded
decoded_Isolated (json v) = search call_rules
decoded_Isolated (malformed why) = search call_rules

module _ (genai : Genai)
    (creates : (key model : String) (m : Message) → Keeps Isolated (genai.create key model m)) where
  pub gemini_plan_Isolated :
      (gemini : GeminiLlm) (v : Value) → Keeps Isolated (gemini_plan genai gemini v)
  unfolding gemini_plan
  gemini_plan_Isolated gemini (dict fs) =
      search (call_rules, creates, answered_Isolated, decoded_Isolated, parse_plan_Isolated) depth 9
  gemini_plan_Isolated gemini _ = search call_rules
