-- ===== src/Tests/Retry.antt =====
-- A loop that behaves as Retrying does, to run requests with.
use offboarding_orchestrator.Prelude.{
  ℕ, zero, suc, ◌-◌, ◌≤◌, ◌<◌, ◌≡◌, refl, ◌⊎◌, inl, inr, Bool, true, false, ◌&&◌, arith,
  if◌then◌else◌,
}
use offboarding_orchestrator.Domain.Errors.{ErrorClass, Exc, is_instance}
use offboarding_orchestrator.Domain.Result.{Result, ok, err}
use offboarding_orchestrator.World.{World, Call}
use offboarding_orchestrator.Tools.Retrying.{Retrying}

-- What a failed attempt leads to, with `again` for the attempts that are left.
abbrev after_attempt : {A : Type 0} → ErrorClass → Bool → Call A → Result A → Call A
after_attempt retried more again (ok a) w = (ok a, w)
after_attempt retried more again (err e) w =
    if more && is_instance e.class retried then again w else (err e, w)

unfoldable pub loop : {A : Type 0} → ErrorClass → (ℕ → Call A) → ℕ → ℕ → Call A
loop retried body zero n w = body n w
loop retried body (suc left) n w =
    after_attempt retried true (loop retried body left (suc n)) (body n w).0 (body n w).1

module _ {A : Type 0} (retried : ErrorClass) (body : ℕ → Call A) (n : ℕ) (w w' : World) where
  pub loop_returns :
      (left : ℕ) (a : A) → body n w ≡ (ok a, w') → loop retried body left n w ≡ (ok a, w')
  unfolding loop
  loop_returns zero a e = e
  loop_returns (suc left) a e = rw e refl

  loop_stops :
      (left : ℕ) (e : Exc)
      → body n w ≡ (err e, w')
      → is_instance e.class retried ≡ false
      → loop retried body left n w ≡ (err e, w')
  unfolding loop
  loop_stops zero e raised other = raised
  loop_stops (suc left) e raised other = rw (raised, other) refl

  loop_goes_on :
      (left : ℕ) (e : Exc)
      → body n w ≡ (err e, w')
      → is_instance e.class retried ≡ true
      → loop retried body (suc left) n w ≡ loop retried body left (suc n) w'
  unfolding loop
  loop_goes_on left e raised same = rw (raised, same) refl

  pub loop_raises :
      (max : ℕ) (e : Exc)
      → body n w ≡ (err e, w')
      → (is_instance e.class retried ≡ false) ⊎ (max ≤ n)
      → loop retried body (max - n) n w ≡ (err e, w')
  unfolding loop
  loop_raises max e raised (inl other) = loop_stops (max - n) e raised other
  loop_raises max e raised (inr last) =
      let none_left : max - n ≡ 0 = omega (arith, last) in rw none_left raised

  pub loop_retries :
      (max : ℕ) (e : Exc)
      → body n w ≡ (err e, w')
      → is_instance e.class retried ≡ true
      → n < max
      → loop retried body (max - n) n w ≡ loop retried body (max - suc n) (suc n) w'
  loop_retries max e raised same more =
      let one_less : max - n ≡ suc (max - suc n) = omega (arith, more) in
      rw one_less (loop_goes_on (max - suc n) e raised same)

unfoldable pub retrying_loop : {A : Type 0} → Retrying A
retrying_loop = record {
  attempts_from = λ max retried body n. loop retried body (max - n) n;
  returns = λ max retried body n w w' a. loop_returns retried body n w w' (max - n) a;
  raises = λ max retried body n w w' e. loop_raises retried body n w w' max e;
  retries = λ max retried body n w w' e. loop_retries retried body n w w' max e;
}
