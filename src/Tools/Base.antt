-- ===== src/Tools/Base.antt =====
-- offboarding/tools/base.py: tools, and the registry that keeps a step to its allowlist. A tool is
-- its spec and its methods; `lookup` is none for a tool that is no SideEffectingTool. A result is
-- the items of a `dict`.
use package.text.Mathlib.Text.{◌==◌ as str_eq}
use offboarding_orchestrator.Prelude.{
  String, Bool, Option, none, some, List, [], ◌∷◌, ◌++◌, map, any, select_one, order_by,
  text_before, is_some, if◌then◌else◌,
}
use offboarding_orchestrator.Domain.Json.{Value, str, list, strs, Fields}
use offboarding_orchestrator.Domain.Errors.{ErrorClass, value_error, tool_not_allowed, Exc}
use offboarding_orchestrator.Domain.Result.{Result, ok, err}
use offboarding_orchestrator.World.{Call}

pub record ToolSpec : Type 0 where
  pub name : String
  pub description : String
  pub side_effecting : Bool
  pub requires_approval : Bool

pub record Tool : Type 0 where
  pub spec : ToolSpec
  pub call : Fields → Call Fields
  pub lookup : Option (String → Call (Option Fields))

-- isinstance(tool, SideEffectingTool)
abbrev pub is_side_effecting_tool : Tool → Bool
is_side_effecting_tool tool = is_some tool.lookup

-- The tools, in the order of registration.
abbrev pub ToolRegistry : Type 0
ToolRegistry = List Tool

abbrev pub has_name : String → Tool → Bool
has_name name tool = str_eq tool.spec.name name

abbrev pub about_tool : ErrorClass → String → String → Exc
about_tool class template name = record {
  class = class;
  message = record { template = template; values = str name ∷ [] };
}

unfoldable pub register : Tool → ToolRegistry → Result ToolRegistry
register tool registry =
    if any (has_name tool.spec.name) registry
    then err (about_tool value_error "tool {!r} is already registered" tool.spec.name)
    else ok (registry ++ tool ∷ [])

-- ToolRegistry(tools)
unfoldable pub build_registry : List Tool → ToolRegistry → Result ToolRegistry
build_registry [] registry = ok registry
build_registry (tool ∷ tools) registry = elim (register tool registry) [
  | ok extended ↦ build_registry tools extended
  | err e ↦ err e
]

-- sorted(self._tools)
unfoldable pub names : ToolRegistry → List String
names registry = order_by text_before (map (λ (tool : Tool). tool.spec.name) registry)

abbrev pub not_registered : String → Exc
not_registered name = about_tool tool_not_allowed "tool {!r} is not registered" name

abbrev or_not_registered : String → Option Tool → Result Tool
or_not_registered name none = err (not_registered name)
or_not_registered name (some tool) = ok tool

unfoldable pub spec : String → ToolRegistry → Result ToolSpec
spec name registry = elim (select_one (has_name name) registry) [
  | none ↦ err (not_registered name)
  | some tool ↦ ok tool.spec
]

-- sorted(allowlist) or 'empty', of a frozenset by its members
abbrev pub sorted_or_empty : List String → Value
sorted_or_empty [] = str "empty"
sorted_or_empty (name ∷ names) = list (strs (order_by text_before (name ∷ names)))

abbrev pub not_listed : String → List String → Exc
not_listed name allowlist = record {
  class = tool_not_allowed;
  message = record {
    template = "tool {!r} is not in this step's allowlist ({})";
    values = str name ∷ sorted_or_empty allowlist ∷ [];
  };
}

unfoldable pub resolve : String → List String → ToolRegistry → Result Tool
resolve name allowlist registry =
    if any (str_eq name) allowlist
    then or_not_registered name (select_one (has_name name) registry)
    else err (not_listed name allowlist)
