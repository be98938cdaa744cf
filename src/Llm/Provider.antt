-- ===== src/Llm/Provider.antt =====
-- offboarding/llm/provider.py: the plan's schema, its check, and the protocol of a provider. The
-- schema's validation is pydantic's, so it is a parameter of `parse_plan`.
use package.text.Mathlib.Text.{◌==◌ as str_eq}
use offboarding_orchestrator.Prelude.{
  String, Bool, true, false, not, Option, none, some, List, [], ◌∷◌, map, any, select, order_by,
  text_before, if◌then◌else◌,
}
use offboarding_orchestrator.Domain.Json.{strs, Value, str, list, dict, Items, nil, cons, get_field}
use offboarding_orchestrator.Domain.Errors.{Message, plain, exception, type_error, invalid_plan}
use offboarding_orchestrator.World.{Call, pure, raise, ◌>>=◌}
use offboarding_orchestrator.Tools.Arguments.{to_list}

pub data RiskLevel : Type 0 where
  low medium high : RiskLevel

pub record ChecklistItem : Type 0 where
  pub system : String
  pub action : String
  pub risk_level : RiskLevel

pub record DeprovisioningPlan : Type 0 where
  pub items : List ChecklistItem
  pub notes : String

-- The protocol: its methods are an implementation's.
pub record LlmProvider : Type 0 where
  pub name : String
  pub generate_plan : Value → Call DeprovisioningPlan

-- The systems of a record are texts. Any other element has every check of a plan raise, which
-- exception it is depends on the element, and here it is a TypeError.
unfoldable pub texts : Items → Call (List String)
texts nil = pure []
texts (cons (str s) xs) = do rest ← texts xs; pure (s ∷ rest)
texts (cons _ xs) = raise type_error (plain "not a text")

unfoldable pub systems_or_none : Option Value → Call (List String)
systems_or_none none = pure []
systems_or_none (some v) = do xs ← to_list v; texts xs

-- employee.get("systems", [])
unfoldable pub systems_of_employee : Value → Call (List String)
systems_of_employee (dict fs) = systems_or_none (get_field "systems" fs)
systems_of_employee _ = raise exception (plain "AttributeError")

abbrev pub proposed : DeprovisioningPlan → List String
proposed plan = map (λ (item : ChecklistItem). item.system) plan.items

-- name in names
abbrev pub is_among : List String → String → Bool
is_among names name = any (str_eq name) names

-- The difference of two sets.
abbrev pub minus : List String → List String → List String
minus names others = select (λ name. not (is_among others name)) names

abbrev pub is_empty : {A : Type 0} → List A → Bool
is_empty [] = true
is_empty (x ∷ xs) = false

-- A list as a set: each name once.
abbrev distinct : List String → List String
distinct [] = []
distinct (name ∷ names) =
    let rest = distinct names in if is_among names name then rest else name ∷ rest

-- A message that names sorted(names).
abbrev pub naming : String → List String → Message
naming template names = record {
  template = template;
  values = list (strs (order_by text_before (distinct names))) ∷ [];
}

unfoldable pub check_plan : DeprovisioningPlan → List String → Call DeprovisioningPlan
check_plan plan known =
    if is_empty plan.items
    then raise invalid_plan (plain "the model returned an empty plan")
    else if not (is_empty (minus (proposed plan) known))
    then raise invalid_plan
        (naming "plan names systems the employee does not have: {}" (minus (proposed plan) known))
    else if not (is_empty (minus known (proposed plan)))
    then raise invalid_plan (
        naming "plan omits systems the employee still has access to: {}"
          (minus known (proposed plan)))
    else pure plan

unfoldable pub validate_plan : DeprovisioningPlan → Value → Call DeprovisioningPlan
validate_plan plan employee = systems_of_employee employee >>= check_plan plan

-- What DeprovisioningPlan.model_validate makes of a value: a plan, or a ValidationError.
pub data Validation : Type 0 where
  fits : DeprovisioningPlan → Validation
  fails : Message → Validation

-- Raw output, or a plan already.
pub data Payload : Type 0 where
  already : DeprovisioningPlan → Payload
  raw : Value → Payload

unfoldable pub parsed : Validation → Call DeprovisioningPlan
parsed (fits plan) = pure plan
parsed (fails why) = raise invalid_plan (record {
  template = "the model returned a plan that does not fit the schema: {}";
  values = str why.template ∷ why.values;
})

abbrev pub payload_plan : (Value → Validation) → Payload → Call DeprovisioningPlan
payload_plan model_validate (already plan) = pure plan
payload_plan model_validate (raw value) = parsed (model_validate value)

unfoldable pub parse_plan : (Value → Validation) → Payload → Value → Call DeprovisioningPlan
parse_plan model_validate payload employee =
    payload_plan model_validate payload >>= λ plan. validate_plan plan employee
