-- ===== src/Domain/JsonText.antt =====
-- What json.dumps writes and json.loads reads back: the texts that the columns `result`, `detail`
-- and `payload` hold, by their structure. JSON has arrays only, so a tuple comes back as a list.
use offboarding_orchestrator.Prelude.{ℕ, String, Bool, Option, none, some, ◌≡◌, refl, ap}
use offboarding_orchestrator.Domain.Json.{Value, Items, Fields}

mutual
  pub data Json : Type 0 where
    null : Json
    bool : Bool → Json
    num : ℕ → Json
    str : String → Json
    scalar : String → Json
    array : Elements → Json
    object : Members → Json

  pub data Elements : Type 0 where
    no_elements : Elements
    element : Json → Elements → Elements

  pub data Members : Type 0 where
    no_members : Members
    member : String → Json → Members → Members

unfoldable mutual
  pub dumps_value : Value → Json
  dumps_value Value.null = Json.null
  dumps_value (Value.bool b) = Json.bool b
  dumps_value (Value.num n) = Json.num n
  dumps_value (Value.str s) = Json.str s
  dumps_value (Value.scalar s) = Json.scalar s
  dumps_value (Value.list xs) = Json.array (dumps_items xs)
  dumps_value (Value.tuple xs) = Json.array (dumps_items xs)
  dumps_value (Value.dict fs) = Json.object (dumps fs)

  pub dumps_items : Items → Elements
  dumps_items Items.nil = Elements.no_elements
  dumps_items (Items.cons x xs) = Elements.element (dumps_value x) (dumps_items xs)

  pub dumps : Fields → Members
  dumps Fields.end = Members.no_members
  dumps (Fields.field k v fs) = Members.member k (dumps_value v) (dumps fs)

unfoldable mutual
  pub loads_value : Json → Value
  loads_value Json.null = Value.null
  loads_value (Json.bool b) = Value.bool b
  loads_value (Json.num n) = Value.num n
  loads_value (Json.str s) = Value.str s
  loads_value (Json.scalar s) = Value.scalar s
  loads_value (Json.array xs) = Value.list (loads_elements xs)
  loads_value (Json.object ms) = Value.dict (loads ms)

  pub loads_elements : Elements → Items
  loads_elements Elements.no_elements = Items.nil
  loads_elements (Elements.element x xs) = Items.cons (loads_value x) (loads_elements xs)

  pub loads : Members → Fields
  loads Members.no_members = Fields.end
  loads (Members.member k v ms) = Fields.field k (loads_value v) (loads ms)

-- json.dumps(fs) if fs is not None else None
abbrev pub dumps_or_null : Option Fields → Option Members
dumps_or_null none = none
dumps_or_null (some fs) = some (dumps fs)

-- What a value is once it was stored and read back.
abbrev pub as_json : Fields → Fields
as_json fs = loads (dumps fs)

mutual
  unfolding dumps_value dumps_items dumps loads_value loads_elements loads

  again_value : (j : Json) → dumps_value (loads_value j) ≡ j
  again_value Json.null = refl
  again_value (Json.bool b) = refl
  again_value (Json.num n) = refl
  again_value (Json.str s) = refl
  again_value (Json.scalar s) = refl
  again_value (Json.array xs) = ap (λ ys. Json.array ys) (again_elements xs)
  again_value (Json.object ms) = ap (λ ns. Json.object ns) (again ms)

  again_elements : (xs : Elements) → dumps_items (loads_elements xs) ≡ xs
  again_elements Elements.no_elements = refl
  again_elements (Elements.element x xs) = rw (again_value x, again_elements xs) refl

  again : (ms : Members) → dumps (loads ms) ≡ ms
  again Members.no_members = refl
  again (Members.member k v ms) = rw (again_value v, again ms) refl

-- What was read is written back as it was.
pub dumps-loads : (ms : Members) → dumps (loads ms) ≡ ms
dumps-loads ms = again ms
