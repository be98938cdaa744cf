-- ===== src/Llm/Fake.antt =====
-- offboarding/llm/fake.py. `format` is Python's formatting of an f-string.
use Prim.Native.String.{◌++◌ as str_append}
use offboarding_orchestrator.Prelude.{
  String, Bool, true, false, Option, some, List, [], ◌∷◌, map, length, if◌then◌else◌,
}
use offboarding_orchestrator.Domain.Json.{
  Value, null, num, str, dict, Fields, end, field, get_field,
}
use offboarding_orchestrator.Domain.Errors.{Message, plain, exception}
use offboarding_orchestrator.World.{Call, raise, ◌>>=◌}
use offboarding_orchestrator.Orchestration.State.{or_default, truth}
use offboarding_orchestrator.Llm.Provider.{
  ChecklistItem, DeprovisioningPlan, LlmProvider, RiskLevel, medium, high, is_among,
  systems_of_employee, validate_plan,
}

abbrev pub high_risk_systems : List String
high_risk_systems = "aws" ∷ "github" ∷ "vpn" ∷ "netsuite" ∷ "salesforce" ∷ []

abbrev pub actions : Fields
actions = field "github" (str "Remove from all organisations and revoke personal access tokens") (
    field "aws" (str "Delete IAM user and rotate any shared keys they held") (
      field "slack" (str "Deactivate account and transfer owned channels") (
        field "jira" (str "Deactivate account and reassign open issues") (
          field "vpn" (str "Revoke client certificate and remove from the access group") (
            field "netsuite" (str "Disable login and revoke approval authority") (
              field "salesforce" (str "Freeze user and reassign owned opportunities")
                (field "zoom" (str "Deactivate account and release the licence") end)))))))

abbrev action_or : String → Option Value → String
action_or system (some (str action)) = action
action_or system _ = str_append "Revoke access to " system

-- ACTIONS.get(system, f"Revoke access to {system}")
abbrev pub action_for : String → String
action_for system = action_or system (get_field system actions)

abbrev pub risk_of : String → RiskLevel
risk_of system = if is_among high_risk_systems system then high else medium

abbrev pub item_for : String → ChecklistItem
item_for system = record {
  system = system;
  action = action_for system;
  risk_level = risk_of system;
}

abbrev hardware_text : Bool → String
hardware_text true = " Company hardware is outstanding and must be collected."
hardware_text false = ""

-- The f-string of the plan's notes.
abbrev pub notes_text : List String → Fields → Message
notes_text systems employee = record {
  template = "{} systems to deprovision before {}.{}";
  values =
      num (length systems)
      ∷ or_default (str "the last day") (get_field "last_day" employee)
      ∷ str (hardware_text (truth (or_default null (get_field "has_company_hardware" employee))))
      ∷ [];
}

abbrev pub plan_for : (Message → String) → List String → Fields → DeprovisioningPlan
plan_for format systems employee = record {
  items = map item_for systems;
  notes = format (notes_text systems employee);
}

unfoldable pub fake_plan : (Message → String) → Value → Call DeprovisioningPlan
fake_plan format (dict employee) = do
  systems ← systems_of_employee (dict employee)
  validate_plan (plan_for format systems employee) (dict employee)
fake_plan format _ = raise exception (plain "AttributeError")

unfoldable pub fake_llm : (Message → String) → LlmProvider
fake_llm format = record { name = "fake"; generate_plan = fake_plan format }
