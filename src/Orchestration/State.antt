-- ===== src/Orchestration/State.antt =====
-- offboarding/orchestration/state.py: the state of a run's graph is a `dict` with the keys that
-- were written so far, here its items. A node's events are f-strings.
use offboarding_orchestrator.Prelude.{
  String, Bool, true, false, not, ◌&&◌, Option, none, some, List, ◌==◌,
}
use package.text.Mathlib.Text.{◌==◌ as str_eq}
use offboarding_orchestrator.Domain.Json.{
  Value, null, bool, num, str, scalar, list, tuple, dict, Items, nil, cons, Fields, end, field,
  get_field,
}
use offboarding_orchestrator.Domain.Errors.{Message, plain, key_error, type_error}
use offboarding_orchestrator.World.{Call, pure, raise, ◌>>=◌}

-- What a node returns, or the payload that it interrupts the run with.
pub data NodeResult : Type 0 where
  returns : Fields → List Message → NodeResult
  interrupts : Fields → NodeResult

unfoldable pub or_key_error : String → Option Value → Call Value
or_key_error key none =
    raise key_error (record { template = "{!r}"; values = List.◌∷◌ (str key) List.[] })
or_key_error key (some v) = pure v

-- state[key]
unfoldable pub state_item : String → Fields → Call Value
unfolding or_key_error
state_item key fs = or_key_error key (get_field key fs)

-- value[key]
unfoldable pub item : String → Value → Call Value
item key (dict fs) = state_item key fs
item key _ = raise type_error (plain "not a mapping")

-- state[key] of a key that holds a text
unfoldable pub text_or_error : Value → Call String
text_or_error (str s) = pure s
text_or_error _ = raise type_error (plain "not a text")

unfoldable pub text_item : String → Fields → Call String
text_item key fs = state_item key fs >>= text_or_error

-- d.get(key, default)
abbrev pub or_default : Value → Option Value → Value
or_default v none = v
or_default v (some u) = u

-- [item["system"] for item in items]
unfoldable pub systems_of : Items → Call Items
systems_of nil = pure nil
systems_of (cons x xs) = do system ← item "system" x; rest ← systems_of xs; pure (cons system rest)

-- bool(value): of the other atoms, the two zeros of a float are false.
unfoldable pub truth : Value → Bool
truth null = false
truth (bool b) = b
truth (num n) = not (n == 0)
truth (str s) = not (str_eq s "")
truth (scalar s) = not (str_eq s "0.0") && not (str_eq s "-0.0")
truth (list nil) = false
truth (list (cons x xs)) = true
truth (tuple nil) = false
truth (tuple (cons x xs)) = true
truth (dict end) = false
truth (dict (field k v fs)) = true
