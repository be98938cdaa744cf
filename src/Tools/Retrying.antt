-- ===== src/Tools/Retrying.antt =====
-- tenacity.Retrying, as RetryPolicy.build sets it up: `stop_after_attempt`,
-- `retry_if_exception_type` and `reraise=True`. The loop is tenacity's, so it is a parameter, with
-- its documented behaviour: an attempt that returns ends the loop; one that raises is made again
-- exactly when its exception is of the retried type and fewer than `max_attempts` were made, and
-- otherwise raises that exception. The wait between attempts changes no state.
use offboarding_orchestrator.Prelude.{ℕ, suc, ◌≤◌, ◌<◌, ◌≡◌, true, false, ◌⊎◌}
use offboarding_orchestrator.Domain.Errors.{ErrorClass, Exc, is_instance}
use offboarding_orchestrator.Domain.Result.{ok, err}
use offboarding_orchestrator.World.{World, Call}

pub record Retrying (A : Type 0) : Type 0 where
  -- max_attempts, the retried type, one attempt by its number, and the number of the next attempt
  pub attempts_from : ℕ → ErrorClass → (ℕ → Call A) → ℕ → Call A
  pub returns :
      (max : ℕ) (retried : ErrorClass) (body : ℕ → Call A) (n : ℕ) (w w' : World) (a : A)
      → body n w ≡ (ok a, w')
      → attempts_from max retried body n w ≡ (ok a, w')
  pub raises :
      (max : ℕ) (retried : ErrorClass) (body : ℕ → Call A) (n : ℕ) (w w' : World) (e : Exc)
      → body n w ≡ (err e, w')
      → (is_instance e.class retried ≡ false) ⊎ (max ≤ n)
      → attempts_from max retried body n w ≡ (err e, w')
  pub retries :
      (max : ℕ) (retried : ErrorClass) (body : ℕ → Call A) (n : ℕ) (w w' : World) (e : Exc)
      → body n w ≡ (err e, w')
      → is_instance e.class retried ≡ true
      → n < max
      → attempts_from max retried body n w ≡ attempts_from max retried body (suc n) w'
