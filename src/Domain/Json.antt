-- ===== src/Domain/Json.antt =====
-- The values of Python that the program passes about and stores as JSON: a `dict` is its items in
-- order. `scalar` is any other atom (a float, a negative number), by its text.
use offboarding_orchestrator.Prelude.{
  ℕ, String, Bool, Option, none, some, List, [], ◌∷◌, if◌then◌else◌,
}
use text.Mathlib.Text.{◌==◌ as str_eq}

mutual
  pub data Value : Type 0 where
    null : Value
    bool : Bool → Value
    num : ℕ → Value
    str : String → Value
    scalar : String → Value
    list : Items → Value
    tuple : Items → Value
    dict : Fields → Value

  pub data Items : Type 0 where
    nil : Items
    cons : Value → Items → Items

  pub data Fields : Type 0 where
    end : Fields
    field : String → Value → Fields → Fields

-- A list of texts.
abbrev pub strs : List String → Items
strs [] = nil
strs (s ∷ texts) = cons (str s) (strs texts)

-- d.get(key)
abbrev pub get_field : String → Fields → Option Value
get_field k end = none
get_field k (field j v fs) = if str_eq j k then some v else get_field k fs
