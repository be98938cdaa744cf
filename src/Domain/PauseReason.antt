-- ===== src/Domain/PauseReason.antt =====
-- offboarding/domain/run.py, `PauseReason`: why a run is paused. `value` is a member's text, `parse` the call of the
-- enumeration on a text (none where Python raises ValueError), `same` the identity of members.
use text.Mathlib.Text.{◌==◌ as str_eq}
use offboarding_orchestrator.Prelude.{
  ℕ, String, Bool, true, ◌≡◌, refl, ◌↔◌, Option, none, some, arith, ◌==◌, if◌then◌else◌,
}

pub data PauseReason : Type 0 where
  hr_approval signed_document : PauseReason

unfoldable pub value : PauseReason → String
value hr_approval = "hr_approval"
value signed_document = "signed_document"

pub parse : String → Option PauseReason
parse s =
    if str_eq s "hr_approval"
    then some hr_approval
    else if str_eq s "signed_document"
    then some signed_document
    else none

abbrev number : PauseReason → ℕ
number hr_approval = 0
number signed_document = 1

abbrev pub same : PauseReason → PauseReason → Bool
same a b = number a == number b

-- A member's text parses back to the member.
pub parse-value : (a : PauseReason) → parse (value a) ≡ some a
unfolding parse value
parse-value hr_approval = refl
parse-value signed_document = refl

pub same_iff : (a b : PauseReason) → (same a b ≡ true) ↔ (a ≡ b)
same_iff a b = ground arith
