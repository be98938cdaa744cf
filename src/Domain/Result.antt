-- ===== src/Domain/Result.antt =====
-- What a call returns or raises.
use offboarding_orchestrator.Domain.Errors.{Exc}

pub data Result {ℓ} (A : Type ℓ) : Type ℓ where
  ok : A → Result A
  err : Exc → Result A
