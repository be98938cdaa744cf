-- ===== src/Tests/Records.antt =====
-- The tables and the domain on small inputs.
use offboarding_orchestrator.Prelude.{none, some, ℕ, ◌≡◌, refl, List, [], ◌∷◌, here, arith}
use offboarding_orchestrator.Domain.RunStatus.{RunStatus}
use offboarding_orchestrator.Domain.PauseReason.{PauseReason}
use offboarding_orchestrator.Domain.Json.{Value, str, num, tuple, cons, nil, dict, end, field}
use offboarding_orchestrator.Domain.Redaction.{redact, redact_fields, redacted, codes}
use offboarding_orchestrator.Domain.Redaction.Casing.{
  Spells, whole, small, capital, redact_fields-Masks,
}
use offboarding_orchestrator.Domain.Redaction.Masking.{IsMasked, redact-IsMasked}
use offboarding_orchestrator.Persistence.Runs.{set_status}
use offboarding_orchestrator.Persistence.Runs.Status.{Moves, set_status-Moves}
use offboarding_orchestrator.Persistence.Trace.{start_attempt}
use offboarding_orchestrator.Persistence.Trace.Attempts.{Starts, start_attempt-Starts}
use offboarding_orchestrator.Tests.Data.{fresh_world}

set_status-Moves_example :
    Moves "run_1" RunStatus.paused fresh_world
      (set_status "run_1" RunStatus.paused (some PauseReason.hr_approval) none none fresh_world)
set_status-Moves_example =
    set_status-Moves "run_1" RunStatus.paused (some PauseReason.hr_approval) none none fresh_world

abbrev login : Value
login = dict (field "Api_Token" (str "abc") (field "tries" (tuple (cons (num 1) nil)) end))

redact-IsMasked_example : IsMasked (redact login)
redact-IsMasked_example = redact-IsMasked login

start_attempt-Starts_example :
    Starts "run_1" "deprovision_systems" none fresh_world
      (start_attempt "run_1" "deprovision_systems" none fresh_world)
start_attempt-Starts_example = start_attempt-Starts "run_1" "deprovision_systems" none fresh_world

-- A key with a marker in mixed case: the letters of "PassWord".
abbrev pass_word : List ℕ
pass_word = 80 ∷ 97 ∷ 115 ∷ 115 ∷ 87 ∷ 111 ∷ 114 ∷ 100 ∷ []

pass_word-Spells : Spells (codes "password") pass_word
unfolding codes
pass_word-Spells = capital 112 (omega arith) (omega arith) (
    small 97 (omega arith) (omega arith) (
      small 115 (omega arith) (omega arith) (
        small 115 (omega arith) (omega arith) (
          capital 119 (omega arith) (omega arith) (
            small 111 (omega arith) (omega arith) (
              small 114 (omega arith) (omega arith)
                (small 100 (omega arith) (omega arith) whole)))))))

redact_fields-Masks_example :
    redact_fields (field "db_PassWord2" (str "hunter2") end)
    ≡ field "db_PassWord2" (str redacted) (redact_fields end)
unfolding codes
redact_fields-Masks_example =
    redact_fields-Masks "db_PassWord2" "password" (100 ∷ 98 ∷ 95 ∷ []) pass_word (50 ∷ [])
      (str "hunter2") end (here refl) pass_word-Spells refl
