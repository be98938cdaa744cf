-- ===== src/Tools/Executor/Retries.antt =====
-- The attempts that `execute` of tools/executor.py makes.
use offboarding_orchestrator.Prelude.{
  ℕ, zero, suc, ◌+◌, ◌≤◌, ◌<◌, true, false, not, ◌&&◌, ◌≡◌, refl, ◌⊎◌, inl, inr, is_some,
  Bool-cases, leb, arith,
}
use offboarding_orchestrator.Domain.Errors.{Exc, transient_tool_error, is_instance}
use offboarding_orchestrator.Domain.Result.{Result, ok, err}
use offboarding_orchestrator.World.{World, Call}
use offboarding_orchestrator.Tools.Base.{Tool, resolve}
use offboarding_orchestrator.Tools.Executor.{
  ToolExecutor, Request, ExecutionResult, attempt, execute,
}

-- An attempt that the executor stops at.
abbrev pub IsFinal : ℕ → ℕ → Result ExecutionResult → Type 0
IsFinal max n (ok a) = Unit
IsFinal max n (err e) = (is_instance e.class transient_tool_error ≡ false) ⊎ (max ≤ n)

-- From attempt `n` on: the attempts before the last one raised transient errors, each left fewer
-- than `max_attempts` made, and what comes out is what the last one returned or raised.
pub data Tried (x : ToolExecutor) (q : Request) (tool : Tool)
    : ℕ → World → Result ExecutionResult × World → Type 0 where
  last :
      (n : ℕ) (w : World) (out : Result ExecutionResult × World)
      → attempt x q tool n w ≡ out
      → IsFinal x.max_attempts n out.0
      → Tried x q tool n w out
  again :
      (n : ℕ) (w w' : World) (e : Exc) (out : Result ExecutionResult × World)
      → attempt x q tool n w ≡ (err e, w')
      → is_instance e.class transient_tool_error ≡ true
      → n < x.max_attempts
      → Tried x q tool (suc n) w' out
      → Tried x q tool n w out

module _ (x : ToolExecutor) (q : Request) (tool : Tool) where
  abbrev tries : ℕ → Call ExecutionResult
  tries n = x.retrying.attempts_from x.max_attempts transient_tool_error (attempt x q tool) n

  stopped :
      (n : ℕ) (w w' : World) (e : Exc)
      → attempt x q tool n w ≡ (err e, w')
      → (is_instance e.class transient_tool_error ≡ false) ⊎ (x.max_attempts ≤ n)
      → Tried x q tool n w (tries n w)
  stopped n w w' e came over =
      rw
        (x.retrying.raises x.max_attempts transient_tool_error (attempt x q tool) n w w' e came
          over)
        (Tried.last n w (err e, w') came over)

  after_attempt :
      (n : ℕ) (w w' : World) (r : Result ExecutionResult)
      → attempt x q tool n w ≡ (r, w')
      → (x.max_attempts ≤ n)
        ⊎ ((n < x.max_attempts) × ((v : World) → Tried x q tool (suc n) v (tries (suc n) v)))
      → Tried x q tool n w (tries n w)
  after_attempt n w w' (ok a) came rest =
      rw (x.retrying.returns x.max_attempts transient_tool_error (attempt x q tool) n w w' a came)
        (Tried.last n w (ok a, w') came tt)
  after_attempt n w w' (err e) came rest =
      elim (Bool-cases (is_instance e.class transient_tool_error)) [
        | inr other ↦ stopped n w w' e came (inl other)
        | inl transient ↦ elim rest [
          | inl spent ↦ stopped n w w' e came (inr spent)
          | inr (more, next) ↦
              rw
                (x.retrying.retries x.max_attempts transient_tool_error (attempt x q tool) n w w' e
                  came transient more)
                (Tried.again n w w' e _ came transient more (next w'))
        ]
      ]

  tried_from : (d n : ℕ) (w : World) → x.max_attempts ≤ n + d → Tried x q tool n w (tries n w)
  tried_from zero n w enough = after_attempt n w _ _ refl (inl (omega (arith, enough)))
  tried_from (suc d) n w enough = elim (Bool-cases (leb x.max_attempts n)) [
    | inl spent ↦ after_attempt n w _ _ refl (inl (ground (arith, spent)))
    | inr more ↦
        after_attempt n w _ _ refl
          (inr (ground (arith, more), λ v. tried_from d (suc n) v (omega (arith, enough))))
  ]

-- For a tool that is on the allowlist, with an operation if it is side-effecting: a request to the
-- executor ends. Its outcome is that of its last attempt; each attempt before that one raised a
-- TransientToolError, and was not attempt number max_attempts or later; and the last one returned,
-- raised something else, or was attempt number max_attempts or later.
pub execute-Tried :
    (x : ToolExecutor) (q : Request) (tool : Tool) (w : World)
    → resolve q.tool_name q.allowlist x.registry ≡ ok tool
    → (tool.spec.side_effecting && not (is_some q.operation)) ≡ false
    → Tried x q tool 1 w (execute x q w)
unfolding execute
execute-Tried x q tool w listed named =
    rw (listed, named) (tried_from x q tool x.max_attempts 1 w (ground arith))
