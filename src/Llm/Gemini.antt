-- ===== src/Llm/Gemini.antt =====
-- offboarding/llm/gemini.py. The client, the parsing of JSON and the schema are other packages', so
-- they are parameters; the environment is a function of the variable's name.
use package.text.Mathlib.Text.{◌==◌ as str_eq}
use offboarding_orchestrator.Prelude.{
  or_else, String, Bool, Option, none, some, [], ◌∷◌, if◌then◌else◌,
}
use offboarding_orchestrator.Domain.Json.{Value, null, str, dict, Fields, get_field}
use offboarding_orchestrator.Domain.Errors.{
  Exc, Message, plain, exception, transient_tool_error, permanent_tool_error, invalid_plan,
  is_instance, class_name,
}
use offboarding_orchestrator.Domain.Result.{Result, ok, err}
use offboarding_orchestrator.World.{Call, pure, raise, reraise, with_result, ◌>>=◌}
use offboarding_orchestrator.Orchestration.State.{or_default}
use offboarding_orchestrator.Llm.Provider.{
  DeprovisioningPlan, LlmProvider, Validation, raw, parse_plan,
}

abbrev default_model : String
default_model = "gemini-3.5-flash-lite"

abbrev system_prompt : String
system_prompt =
    "You are an IT offboarding assistant. Given an employee record, produce a deprovisioning checklist.\n\nRules:\n- Produce exactly one item per system listed in the employee's `systems` field.\n- Never invent a system that is not in that list.\n- risk_level is \"high\" when lingering access would expose production systems, customer data or money; otherwise \"medium\" or \"low\".\n- `action` is a single concrete instruction for an IT administrator.\n"

-- What json.loads makes of a text: a value, or a JSONDecodeError.
pub data Loaded : Type 0 where
  json : Value → Loaded
  malformed : Message → Loaded

-- google-genai, json and pydantic.
pub record Genai : Type 0 where
  -- The `google` package can be imported.
  pub installed : Bool
  -- Client(api_key).interactions.create(model, input).output_text
  pub create : String → String → Message → Call String
  pub loads : String → Loaded
  pub model_validate : Value → Validation

pub record GeminiLlm : Type 0 where
  pub model_name : String
  pub api_key : String

-- a or b
abbrev or_other : Option String → Option String → Option String
or_other none b = b
or_other (some s) b = if str_eq s "" then b else some s

abbrev no_extra : Message
no_extra = plain "the gemini provider requires the 'gemini' extra: pip install -e '.[gemini]'"

abbrev no_key : Message
no_key = plain "OFFBOARDING_LLM_PROVIDER=gemini but GEMINI_API_KEY is not set"

unfoldable pub with_key : String → Option String → Call GeminiLlm
with_key model none = raise permanent_tool_error no_key
with_key model (some key) =
    if str_eq key ""
    then raise permanent_tool_error no_key
    else pure (record { model_name = model; api_key = key })

abbrev or_default_model : Option String → (String → Option String) → String
or_default_model model getenv = elim (or_other model none) [
  | some name ↦ name
  | none ↦ or_else default_model (getenv "GEMINI_MODEL")
]

-- GeminiLLM(model, api_key)
unfoldable pub new_gemini :
    Genai → (String → Option String) → Option String → Option String → Call GeminiLlm
new_gemini genai getenv model api_key =
    if genai.installed
    then with_key (or_default_model model getenv) (or_other api_key (getenv "GEMINI_API_KEY"))
    else raise permanent_tool_error no_extra

abbrev entry : String → Fields → Value
entry key employee = or_default null (get_field key employee)

abbrev pub prompt : Fields → Message
prompt employee = record {
  template =
      "{}\n\nEmployee record:\n- department: {}\n- last day: {}\n- systems: {}\n- company hardware outstanding: {}\n";
  values =
      str system_prompt
      ∷ entry "department" employee
      ∷ entry "last_day" employee
      ∷ entry "systems" employee
      ∷ entry "has_company_hardware" employee
      ∷ [];
}

abbrev pub request_failed : Exc → Exc
request_failed e = record {
  class = transient_tool_error;
  message = record {
    template = "gemini request failed: {}: {}";
    values = str (class_name e.class) ∷ str e.message.template ∷ e.message.values;
  };
}

-- `except Exception` around the request
unfoldable pub answered : Result String → Call String
answered (ok text) = pure text
answered (err e) = if is_instance e.class exception then reraise (request_failed e) else reraise e

unfoldable pub decoded : Loaded → Call Value
decoded (json value) = pure value
decoded (malformed why) = raise invalid_plan (record {
  template = "gemini returned a response that is not valid JSON: {}";
  values = str why.template ∷ why.values;
})

unfoldable pub gemini_plan : Genai → GeminiLlm → Value → Call DeprovisioningPlan
gemini_plan genai gemini (dict employee) = do
  text ← with_result (genai.create gemini.api_key gemini.model_name (prompt employee)) answered
  payload ← decoded (genai.loads text)
  parse_plan genai.model_validate (raw payload) (dict employee)
gemini_plan genai gemini _ = raise exception (plain "AttributeError")

unfoldable pub gemini_llm : Genai → GeminiLlm → LlmProvider
gemini_llm genai gemini = record { name = "gemini"; generate_plan = gemini_plan genai gemini }
