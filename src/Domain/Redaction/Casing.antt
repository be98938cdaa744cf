-- ===== src/Domain/Redaction/Casing.antt =====
-- `redact` of domain/redaction.py, for a key that has a marker in any mix of cases.
use offboarding_orchestrator.Prelude.{
  ℕ, String, ◌≤◌, ◌-◌, ◌≡◌, refl, List, [], ◌∷◌, ◌++◌, arith, Listed, ap, sym, ◌∙◌, true,
}
use mathlib.Core.List.{append_assoc}
use offboarding_orchestrator.Domain.Json.{Value, str, Fields, field}
use offboarding_orchestrator.Domain.Redaction.{
  redacted, codes, lower_code, lower, is_sensitive, redact_fields,
}
use offboarding_orchestrator.Domain.Redaction.Matching.{is_sensitive_iff}

-- The second text is the first one, a marker, with any of its letters as capitals.
pub data Spells : List ℕ → List ℕ → Type 0 where
  whole : Spells [] []
  small : {ms cs : List ℕ} (c : ℕ) → 91 ≤ c → c ≤ 127 → Spells ms cs → Spells (c ∷ ms) (c ∷ cs)
  capital :
      {ms cs : List ℕ} (c : ℕ) → 97 ≤ c → c ≤ 122 → Spells ms cs → Spells (c ∷ ms) ((c - 32) ∷ cs)

lower_small : (c : ℕ) → 91 ≤ c → c ≤ 127 → lower_code c ≡ c ∷ []
unfolding lower_code
lower_small c h k = ground arith

lower_capital : (c : ℕ) → 97 ≤ c → c ≤ 122 → lower_code (c - 32) ≡ c ∷ []
unfolding lower_code
lower_capital c h k = ground arith

lower-Spells : {ms cs : List ℕ} → Spells ms cs → lower cs ≡ ms
unfolding lower
lower-Spells whole = refl
lower-Spells (small c h k s) = rw (lower_small c h k, lower-Spells s) refl
lower-Spells (capital c h k s) = rw (lower_capital c h k, lower-Spells s) refl

lower-append : (xs ys : List ℕ) → lower (xs ++ ys) ≡ lower xs ++ lower ys
unfolding lower
lower-append [] ys = refl
lower-append (x ∷ xs) ys =
    ap (λ l. lower_code x ++ l) (lower-append xs ys)
    ∙ sym (append_assoc (lower_code x) (lower xs) (lower ys))

-- What a secret's field is called, whatever the cases of its letters.
abbrev pub secret_words : List String
secret_words =
    "password" ∷ "secret" ∷ "token" ∷ "api_key" ∷ "apikey" ∷ "authorization" ∷ "credential"
    ∷ "private_key" ∷ "session" ∷ []

-- A field whose key has one of the nine words for a secret in it (password, secret, token,
-- api_key, apikey, authorization, credential, private_key, session), with any of its letters as
-- capitals and anything before and after it, is masked whatever its value.
pub redact_fields-Masks :
    (key word : String) (before spelled after : List ℕ) (v : Value) (fs : Fields)
    → Listed word secret_words
    → Spells (codes word) spelled
    → codes key ≡ before ++ (spelled ++ after)
    → redact_fields (field key v fs) ≡ field key (str redacted) (redact_fields fs)
unfolding redact_fields
redact_fields-Masks key word before spelled after v fs listed spells at =
    let lowered : lower (codes key) ≡ lower before ++ (codes word ++ lower after) =
      rw
        (
          at,
          lower-append before (spelled ++ after),
          lower-append spelled after,
          lower-Spells spells,
        )
        refl in
    let sensitive : is_sensitive key ≡ true =
      (is_sensitive_iff key).1 (word, listed, (lower before, lower after, lowered)) in
    rw sensitive refl
