-- ===== src/Tools/Executor/Loop.antt =====
-- The retry loop: what holds of each attempt holds of the whole, by the documented behaviour of
-- tenacity's Retrying.
use offboarding_orchestrator.Prelude.{
  ℕ, zero, suc, ◌+◌, ◌≤◌, ◌<◌, ◌≡◌, refl, ap, inl, inr, leb, Bool-cases, arith,
}
use offboarding_orchestrator.Domain.Errors.{ErrorClass, Exc, is_instance}
use offboarding_orchestrator.Domain.Result.{Result, ok, err}
use offboarding_orchestrator.World.{Db, World, Call, continue, reraise, ◌>>=◌, ◌>>◌}
use offboarding_orchestrator.World.Keeps.{Keeps, IsPreorder}
use offboarding_orchestrator.Tools.Retrying.{Retrying}

module _ {R : Db → Db → Type 0} (o : IsPreorder R) where
  raised_on :
      {A B C : Type 0} (e : Exc) (f : B → Call C) (r : Result A) (w : World) (a : Db)
      → R a w.db
      → let m = continue {B = B} (λ _. reraise e) r w in R a (continue f m.0 m.1).1.db
  raised_on e f (ok _) w a h = h
  raised_on e f (err _) w a h = h

  -- Nothing runs after a raise.
  pub raises_on :
      {A B C : Type 0} (m : Call A) (e : Exc) (f : B → Call C)
      → Keeps R m
      → Keeps R ((m >> reraise e) >>= f)
  raises_on m e f k = record { at = λ w. raised_on e f (m w).0 (m w).1 w.db (k.at w) }

  module _ {A : Type 0} (retrying : Retrying A) (max : ℕ) (retried : ErrorClass) (body : ℕ → Call A)
      (k : (n : ℕ) → Keeps R (body n)) where
    retried_step :
        (d n : ℕ) (w : World)
        → max ≤ n + d
        → n < max
        → ((n' : ℕ) (w' : World) (d' : ℕ)
            → d ≡ suc d'
            → max ≤ n' + d'
            → R w'.db (retrying.attempts_from max retried body n' w').1.db)
        → R w.db (retrying.attempts_from max retried body (suc n) (body n w).1).1.db
    retried_step zero n w enough more again = absurd (omega (arith, enough, more))
    retried_step (suc d) n w enough more again =
        o.chain w.db (body n w).1.db _ ((k n).at w)
          (again (suc n) (body n w).1 d refl (omega (arith, enough)))

    loop_step :
        (d n : ℕ) (w : World) (r : Result A)
        → (body n w).0 ≡ r
        → max ≤ n + d
        → ((n' : ℕ) (w' : World) (d' : ℕ)
            → d ≡ suc d'
            → max ≤ n' + d'
            → R w'.db (retrying.attempts_from max retried body n' w').1.db)
        → R w.db (retrying.attempts_from max retried body n w).1.db
    loop_step d n w (ok a) e enough again =
        rw (retrying.returns max retried body n w (body n w).1 a (ap (λ r. (r, (body n w).1)) e))
          ((k n).at w)
    loop_step d n w (err x) e enough again =
        let raised : body n w ≡ (err x, (body n w).1) = ap (λ r. (r, (body n w).1)) e in
        elim (Bool-cases (is_instance x.class retried)) [
          | inr other ↦
              rw (retrying.raises max retried body n w _ x raised (inl other)) ((k n).at w)
          | inl same ↦ elim (Bool-cases (leb max n)) [
            | inl last ↦
                rw (retrying.raises max retried body n w _ x raised (inr (ground arith)))
                  ((k n).at w)
            | inr more ↦
                rw (retrying.retries max retried body n w _ x raised same (ground arith))
                  (retried_step d n w enough (ground arith) again)
          ]
        ]

    pub loop_keeps_from :
        (d n : ℕ) → max ≤ n + d → Keeps R (retrying.attempts_from max retried body n)
    loop_keeps_from zero n enough = record {
      at = λ w.
          loop_step zero n w (body n w).0 refl enough
            λ n' w' d' e enough'. absurd (omega (arith, e));
    }
    loop_keeps_from (suc d) n enough = record {
      at = λ w.
          loop_step (suc d) n w (body n w).0 refl enough
            λ n' w' d' e enough'. (loop_keeps_from d n' (omega (arith, e, enough'))).at w';
    }

    pub loop_keeps : (n : ℕ) → Keeps R (retrying.attempts_from max retried body n)
    loop_keeps n = loop_keeps_from max n (omega arith)
