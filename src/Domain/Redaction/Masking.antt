-- ===== src/Domain/Redaction/Masking.antt =====
-- `redact` of domain/redaction.py, at every depth.
use offboarding_orchestrator.Prelude.{
  ℕ, String, Bool, false, ◌≡◌, refl, ap, inl, inr, Bool-cases, arith, if◌then◌else◌,
}
use offboarding_orchestrator.Domain.Json.{
  Value, null, bool, num, str, scalar, list, tuple, dict, Items, nil, cons, Fields, end, field,
}
use offboarding_orchestrator.Domain.Redaction.{
  redacted, is_sensitive, redact, redact_items, redact_fields,
}

-- At every depth, a field with a sensitive key holds the mask, and no tuple is left.
mutual
  pub data IsMasked : Value → Type 0 where
    masked_null : IsMasked null
    masked_bool : (b : Bool) → IsMasked (bool b)
    masked_num : (n : ℕ) → IsMasked (num n)
    masked_str : (s : String) → IsMasked (str s)
    masked_scalar : (s : String) → IsMasked (scalar s)
    masked_list : (xs : Items) → IsMaskedItems xs → IsMasked (list xs)
    masked_dict : (fs : Fields) → IsMaskedFields fs → IsMasked (dict fs)

  pub data IsMaskedItems : Items → Type 0 where
    masked_nil : IsMaskedItems nil
    masked_cons :
        (x : Value) (xs : Items) → IsMasked x → IsMaskedItems xs → IsMaskedItems (cons x xs)

  pub data IsMaskedFields : Fields → Type 0 where
    masked_end : IsMaskedFields end
    masked_secret :
        (k : String) (fs : Fields) → IsMaskedFields fs → IsMaskedFields (field k (str redacted) fs)
    masked_plain :
        (k : String) (v : Value) (fs : Fields)
        → is_sensitive k ≡ false
        → IsMasked v
        → IsMaskedFields fs
        → IsMaskedFields (field k v fs)

masked_field :
    (k : String) (v : Value) (fs : Fields)
    → IsMasked (redact v)
    → IsMaskedFields (redact_fields fs)
    → IsMaskedFields
        (field k (if is_sensitive k then str redacted else redact v) (redact_fields fs))
masked_field k v fs hv hfs = elim (Bool-cases (is_sensitive k)) [
  | inl secret ↦ rw secret (masked_secret k (redact_fields fs) hfs)
  | inr plain ↦ rw plain (masked_plain k (redact v) (redact_fields fs) plain hv hfs)
]

mutual
  unfolding redact redact_items redact_fields

  value-IsMasked : (v : Value) → IsMasked (redact v)
  value-IsMasked null = masked_null
  value-IsMasked (bool b) = masked_bool b
  value-IsMasked (num n) = masked_num n
  value-IsMasked (str s) = masked_str s
  value-IsMasked (scalar s) = masked_scalar s
  value-IsMasked (list xs) = masked_list (redact_items xs) (items-IsMaskedItems xs)
  value-IsMasked (tuple xs) = masked_list (redact_items xs) (items-IsMaskedItems xs)
  value-IsMasked (dict fs) = masked_dict (redact_fields fs) (fields-IsMaskedFields fs)

  items-IsMaskedItems : (xs : Items) → IsMaskedItems (redact_items xs)
  items-IsMaskedItems nil = masked_nil
  items-IsMaskedItems (cons x xs) =
      masked_cons (redact x) (redact_items xs) (value-IsMasked x) (items-IsMaskedItems xs)

  fields-IsMaskedFields : (fs : Fields) → IsMaskedFields (redact_fields fs)
  fields-IsMaskedFields end = masked_end
  fields-IsMaskedFields (field k v fs) =
      masked_field k v fs (value-IsMasked v) (fields-IsMaskedFields fs)

-- In what redact returns, every field with a sensitive key, at every depth, holds the mask, and no
-- tuple is left.
pub redact-IsMasked : (v : Value) → IsMasked (redact v)
redact-IsMasked v = value-IsMasked v

redact_field_again :
    (k : String) (v : Value) (fs : Fields)
    → redact (redact v) ≡ redact v
    → redact_fields (redact_fields fs) ≡ redact_fields fs
    → redact_fields (redact_fields (field k v fs)) ≡ redact_fields (field k v fs)
unfolding redact redact_fields redact_items
redact_field_again k v fs hv hfs = ground arith

mutual
  unfolding redact redact_items redact_fields

  redact_again : (v : Value) → redact (redact v) ≡ redact v
  redact_again null = refl
  redact_again (bool b) = refl
  redact_again (num n) = refl
  redact_again (str s) = refl
  redact_again (scalar s) = refl
  redact_again (list xs) = ap list (redact_items_again xs)
  redact_again (tuple xs) = ap list (redact_items_again xs)
  redact_again (dict fs) = ap dict (redact_fields_again fs)

  redact_items_again : (xs : Items) → redact_items (redact_items xs) ≡ redact_items xs
  redact_items_again nil = refl
  redact_items_again (cons x xs) = cc (redact_again x, redact_items_again xs)

  redact_fields_again : (fs : Fields) → redact_fields (redact_fields fs) ≡ redact_fields fs
  redact_fields_again end = refl
  redact_fields_again (field k v fs) =
      redact_field_again k v fs (redact_again v) (redact_fields_again fs)

-- Redacting twice is redacting once.
redact-redact : (v : Value) → redact (redact v) ≡ redact v
redact-redact v = redact_again v
