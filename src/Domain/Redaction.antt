-- ===== src/Domain/Redaction.antt =====
-- offboarding/domain/redaction.py. Keys are compared as lists of code points. `lower` is exact on
-- ASCII and on the two letters outside it whose lower case has ASCII in it; every other character
-- lowers to characters outside ASCII, which no marker has.
pub mod Masking
pub mod Matching
pub mod Casing
use Prim.Native.Char.{code}
use offboarding_orchestrator.Prelude.{
  ℕ, String, Bool, true, false, ◌+◌, List, [], ◌∷◌, ◌++◌, ◌&&◌, ◌||◌, ◌==◌, leb, any, if◌then◌else◌,
}
use offboarding_orchestrator.Domain.Json.{
  Value, null, bool, num, str, scalar, list, tuple, dict, Items, nil, cons, Fields, end, field,
}

abbrev pub sensitive_key_markers : List String
sensitive_key_markers =
    "password" ∷ "secret" ∷ "token" ∷ "api_key" ∷ "apikey" ∷ "authorization" ∷ "credential"
    ∷ "private_key" ∷ "session" ∷ []

abbrev pub redacted : String
redacted = "***redacted***"

unfoldable pub codes : String → List ℕ
codes String.[] = []
codes (String.◌∷◌ c s) = code c ∷ codes s

-- str.lower of one character: A to Z, the Kelvin sign, and I with a dot above.
lower_code : ℕ → List ℕ
lower_code c =
    if leb 65 c && leb c 90
    then (c + 32) ∷ []
    else if c == 0x212A
    then 107 ∷ []
    else if c == 0x130
    then 105 ∷ 0x307 ∷ []
    else c ∷ []

pub lower : List ℕ → List ℕ
unfolding lower_code
lower [] = []
lower (c ∷ cs) = lower_code c ++ lower cs

starts_with : List ℕ → List ℕ → Bool
starts_with [] cs = true
starts_with (m ∷ ms) [] = false
starts_with (m ∷ ms) (c ∷ cs) = m == c && starts_with ms cs

-- marker in text
pub contains : List ℕ → List ℕ → Bool
unfolding starts_with
contains marker [] = starts_with marker []
contains marker (c ∷ cs) = starts_with marker (c ∷ cs) || contains marker cs

pub is_sensitive : String → Bool
unfolding codes lower contains
is_sensitive key =
    let lowered = lower (codes key) in
    any (λ marker. contains (codes marker) lowered) sensitive_key_markers

unfoldable mutual
  pub redact : Value → Value
  redact (dict fs) = dict (redact_fields fs)
  redact (list xs) = list (redact_items xs)
  redact (tuple xs) = list (redact_items xs)
  redact null = null
  redact (bool b) = bool b
  redact (num n) = num n
  redact (str s) = str s
  redact (scalar s) = scalar s

  pub redact_items : Items → Items
  redact_items nil = nil
  redact_items (cons x xs) = cons (redact x) (redact_items xs)

  pub redact_fields : Fields → Fields
  redact_fields end = end
  redact_fields (field k v fs) =
      field k (if is_sensitive k then str redacted else redact v) (redact_fields fs)
