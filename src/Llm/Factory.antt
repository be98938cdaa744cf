-- ===== src/Llm/Factory.antt =====
-- offboarding/llm/factory.py.
use package.text.Mathlib.Text.{◌==◌ as str_eq}
use offboarding_orchestrator.Prelude.{
  or_else, ℕ, String, Bool, true, false, ◌&&◌, ◌==◌, Option, none, some, List, [], ◌∷◌,
  if◌then◌else◌,
}
use offboarding_orchestrator.Domain.Json.{str}
use offboarding_orchestrator.Domain.Errors.{Message, permanent_tool_error}
use offboarding_orchestrator.Domain.Redaction.{codes, lower}
use offboarding_orchestrator.World.{Call, pure, raise, ◌>>=◌}
use offboarding_orchestrator.Llm.Provider.{LlmProvider}
use offboarding_orchestrator.Llm.Fake.{fake_llm}
use offboarding_orchestrator.Llm.Gemini.{Genai, new_gemini, gemini_llm}

abbrev same_codes : List ℕ → List ℕ → Bool
same_codes [] [] = true
same_codes [] (d ∷ ds) = false
same_codes (c ∷ cs) [] = false
same_codes (c ∷ cs) (d ∷ ds) = c == d && same_codes cs ds

-- provider or os.environ.get("OFFBOARDING_LLM_PROVIDER", "fake")
abbrev pub chosen : Option String → (String → Option String) → String
chosen none getenv = or_else "fake" (getenv "OFFBOARDING_LLM_PROVIDER")
chosen (some s) getenv =
    if str_eq s "" then or_else "fake" (getenv "OFFBOARDING_LLM_PROVIDER") else s

-- choice.lower() == name
abbrev pub is_choice : String → String → Bool
is_choice choice name = same_codes (lower (codes choice)) (codes name)

-- {!r} stands for choice.lower().
abbrev pub unknown_provider : String → Message
unknown_provider choice = record {
  template = "unknown LLM provider {!r}; expected 'fake' or 'gemini'";
  values = str choice ∷ [];
}

unfoldable pub build_llm :
    (Message → String) → Genai → (String → Option String) → Option String → Call LlmProvider
build_llm format genai getenv provider =
    if is_choice (chosen provider getenv) "fake"
    then pure (fake_llm format)
    else if is_choice (chosen provider getenv) "gemini"
    then (do gemini ← new_gemini genai getenv none none; pure (gemini_llm genai gemini))
    else raise permanent_tool_error (unknown_provider (chosen provider getenv))
