-- ===== src/Tools/Arguments.antt =====
-- Keyword arguments: binding them to a method's names, and the built-ins that the tools apply.
use Prim.Native.String.{count}
use package.text.Mathlib.Text.{◌==◌ as str_eq}
use offboarding_orchestrator.Prelude.{
  ℕ, zero, suc, ◌-◌, String, Bool, true, ◌&&◌, Option, none, some, List, any, if◌then◌else◌,
}
use offboarding_orchestrator.Domain.Json.{
  Value, null, bool, num, str, scalar, list, tuple, dict, Items, nil, cons, Fields, end, field,
  get_field,
}
use offboarding_orchestrator.Domain.Errors.{plain, type_error}
use offboarding_orchestrator.World.{Call, pure, raise, ◌>>=◌}

-- The keywords are exactly the names, in any order.
abbrev all_expected : List String → Fields → Bool
all_expected names end = true
all_expected names (field k v fs) = any (str_eq k) names && all_expected names fs

unfoldable pub check_names : List String → Fields → Call (Unit {0})
check_names names kwargs =
    if all_expected names kwargs
    then pure tt
    else raise type_error (plain "unexpected keyword argument")

unfoldable pub or_type_error : Option Value → Call Value
or_type_error none = raise type_error (plain "missing keyword argument")
or_type_error (some v) = pure v

unfoldable pub argument : String → Fields → Call Value
unfolding or_type_error
argument name kwargs = or_type_error (get_field name kwargs)

-- call(**kwargs, name=v): a name given twice is a TypeError, found by the caller.
unfoldable pub append_field : Fields → String → Value → Fields
append_field end k v = field k v end
append_field (field j u fs) k v = field j u (append_field fs k v)

characters : String → Items
characters String.[] = nil
characters (String.◌∷◌ c s) = cons (str (String.◌∷◌ c String.[])) (characters s)

keys : Fields → Items
keys end = nil
keys (field k v fs) = cons (str k) (keys fs)

-- list(v)
unfoldable pub to_list : Value → Call Items
unfolding characters keys
to_list (list xs) = pure xs
to_list (tuple xs) = pure xs
to_list (dict fs) = pure (keys fs)
to_list (str s) = pure (characters s)
to_list null = raise type_error (plain "object is not iterable")
to_list (bool b) = raise type_error (plain "object is not iterable")
to_list (num n) = raise type_error (plain "object is not iterable")
to_list (scalar s) = raise type_error (plain "object is not iterable")

unfoldable pub length_items : Items → ℕ
length_items nil = 0
length_items (cons x xs) = suc (length_items xs)

-- len(v), which is defined on the values that list(v) is defined on
unfoldable pub len : Value → Call ℕ
unfolding length_items to_list
len v = do xs ← to_list v; pure (length_items xs)

drop_characters : ℕ → String → String
drop_characters zero s = s
drop_characters (suc n) String.[] = String.[]
drop_characters (suc n) (String.◌∷◌ c s) = drop_characters n s

-- s[-12:]
unfoldable pub last_12 : String → String
unfolding drop_characters
last_12 s = drop_characters (count s - 12) s

-- The key is a text wherever the ledger calls.
abbrev pub text_of : Value → String
text_of (str s) = s
text_of _ = ""
