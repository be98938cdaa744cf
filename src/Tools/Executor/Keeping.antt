-- ===== src/Tools/Executor/Keeping.antt =====
-- `execute` of tools/executor.py and a relation with a footing.
use offboarding_orchestrator.Prelude.{
  ℕ, String, Bool, not, ◌&&◌, ◌≡◌, refl, inl, inr, some, List, [], ◌∷◌, is_some, Bool-cases, arith,
}
use offboarding_orchestrator.Domain.Errors.{Exc, is_instance}
use offboarding_orchestrator.Domain.Result.{Result, ok, err}
use offboarding_orchestrator.Domain.Models.{StepAttempt, Run}
use offboarding_orchestrator.World.{World, Call, reraise, ◌>>=◌}
use offboarding_orchestrator.World.Keeps.{
  Keeps, Keeps-bind, Keeps-reraise, Keeps-if, Keeps-with_result,
}
use offboarding_orchestrator.Tools.Base.{Tool, ToolRegistry, resolve}
use offboarding_orchestrator.Tools.Isolation.{IsIsolated}
use offboarding_orchestrator.Tools.Ledger.{LedgerOutcome, build_key}
use offboarding_orchestrator.Tools.Executor.{
  ToolExecutor, Request, trace_refusal, check_budget, invoke, conclude, attempt, refused, execute,
  or_blank, needs_operation, budget_spent, ExecutionResult,
}
use offboarding_orchestrator.Tools.Ledger.Keeping.{run_once_keeps}
use offboarding_orchestrator.Persistence.Runs.{has_run_id}
use offboarding_orchestrator.Tools.Executor.Loop.{loop_keeps, raises_on}
use mathlib.Core.Path.{subst}
use offboarding_orchestrator.Prelude.{All, select_one}
use offboarding_orchestrator.Domain.Errors.{transient_tool_error, tool_not_allowed}
use offboarding_orchestrator.Tools.Base.{has_name}
use offboarding_orchestrator.World.{lift, try_except}
use offboarding_orchestrator.World.{Db, continue}
use offboarding_orchestrator.World.Keeps.{Keeps-pure, Keeps-raise, continue-Keeps}
use offboarding_orchestrator.Prelude.{leb, ◌<◌, Option-cases}
use offboarding_orchestrator.Persistence.Runs
use offboarding_orchestrator.Persistence.Runs.{bump_counters}
use offboarding_orchestrator.Persistence.Runs.Status.{find}
use offboarding_orchestrator.Persistence.Trace.{start_attempt}
use offboarding_orchestrator.Persistence.Trace.Alone.{start_attempt-TraceOnly}
use offboarding_orchestrator.World.{with_result}
use offboarding_orchestrator.Tools.Footing.{
  Footing, preorder, Keeps-of_Isolated, get_keeps, start_keeps, complete_keeps, fail_keeps,
}

ruleset executor_rules = (
  Keeps-bind, Keeps-pure, Keeps-raise, Keeps-reraise, Keeps-if, Keeps-with_result, preorder,
  get_keeps, start_keeps, complete_keeps, fail_keeps,
)

select_one-IsIsolated :
    (p : Tool → Bool) (tools : List Tool) (tool : Tool)
    → All IsIsolated tools
    → select_one p tools ≡ some tool
    → IsIsolated tool
select_one-IsIsolated p [] tool h e = absurd (cc)
select_one-IsIsolated p (t ∷ tools) tool (h, hs) e = elim (Bool-cases (p t)) [
  | inl hit ↦ subst IsIsolated (ground (arith, hit, e)) h
  | inr miss ↦ select_one-IsIsolated p tools tool hs (ground (arith, miss, e))
]

pub resolve-IsIsolated :
    (name : String) (allowlist : List String) (registry : ToolRegistry) (tool : Tool)
    → All IsIsolated registry
    → resolve name allowlist registry ≡ ok tool
    → IsIsolated tool
unfolding resolve
resolve-IsIsolated name allowlist registry tool h e =
    select_one-IsIsolated (has_name name) registry tool h (ground arith)

module _ {R : Db → Db → Type 0} (foot : Footing R) where
  trace_refusal_keeps :
      (run_id step_name tool_name : String) (e : Exc)
      → Keeps R (trace_refusal run_id step_name tool_name e)
  unfolding trace_refusal
  trace_refusal_keeps run_id step_name tool_name e = search executor_rules depth 9

  check_budget_keeps :
      (run_id step_name tool_name : String) → Keeps R (check_budget run_id step_name tool_name)
  unfolding check_budget
  check_budget_keeps run_id step_name tool_name =
      search (executor_rules, trace_refusal_keeps) depth 9

  conclude_keeps :
      (x : ToolExecutor) (n : ℕ) (row : StepAttempt) (r : Result LedgerOutcome)
      → Keeps R (conclude x n row r)
  unfolding conclude
  conclude_keeps x n row (ok outcome) = search executor_rules depth 9
  conclude_keeps x n row (err e) = search executor_rules depth 12

  refused_keeps : (q : Request) (e : Exc) → Keeps R (refused q e)
  unfolding refused
  refused_keeps q e = search (executor_rules, trace_refusal_keeps) depth 9

  module _ (x : ToolExecutor) (q : Request) {tool : Tool} (isolated : IsIsolated tool) where
    invoke_keeps : Keeps R (invoke x q tool)
    unfolding invoke
    invoke_keeps =
        search
          (
            executor_rules,
            run_once_keeps foot tool isolated x.depth
                (build_key q.run_id q.step_name (or_blank q.operation)) q.run_id q.step_name
                q.kwargs,
            Keeps-of_Isolated foot (isolated.call q.kwargs),
          )
          depth 9

  module _ (x : ToolExecutor) (q : Request) {tool : Tool} (isolated : IsIsolated tool) (n : ℕ) where
    -- An attempt after its row was opened.
    abbrev counted : StepAttempt → Call ExecutionResult
    counted row =
        Runs.bump_counters q.run_id 0 1 >>= λ _. with_result (invoke x q tool) (conclude x n row)

    counted_keeps :
        (w : World) (r : Run)
        → find q.run_id w ≡ some r
        → r.tool_call_count < r.max_tool_calls
        → (c : Result StepAttempt) (w1 : World) → w.db.runs ≡ w1.db.runs
        → R w1.db (continue counted c w1).1.db
    counted_keeps w r found more (err e) w1 same = foot.order.stay w1.db
    counted_keeps w r found more (ok row) w1 same =
        let found1 : find q.run_id w1 ≡ some r =
          subst (λ (rows : List Run). select_one (has_run_id q.run_id) rows ≡ some r) same found in
        let m = Runs.bump_counters q.run_id 0 1 w1 in
        foot.order.chain w1.db m.1.db _ (foot.counts_call q.run_id w1 r found1 more) (
          continue-Keeps foot.order _ m.0 m.1 λ _.
            Keeps-with_result foot.order _ _ (invoke_keeps x q isolated) (conclude_keeps x n row))

    attempt_keeps : Keeps R (attempt x q tool n)
    unfolding attempt check_budget Runs.get
    attempt_keeps = record {
      at = λ w. elim (Option-cases (find q.run_id w)) [
        | inl missing ↦ rw missing (foot.order.stay w.db)
        | inr (r, found) ↦ elim (Bool-cases (leb r.max_tool_calls r.tool_call_count)) [
          | inl spent ↦
              rw (found, spent)
                ((raises_on foot.order _ (budget_spent r) _
                    (trace_refusal_keeps q.run_id q.step_name q.tool_name (budget_spent r))).at
                  w)
          | inr more ↦
              rw (found, more)
                (let m = start_attempt q.run_id q.step_name (some q.tool_name) w in
                  foot.order.chain w.db m.1.db _
                    ((foot.starts q.run_id q.step_name (some q.tool_name)).at w)
                    (counted_keeps w r found (ground (arith, more)) m.0 m.1
                      ((start_attempt-TraceOnly q.run_id q.step_name (some q.tool_name)).at
                        w).runs))
        ]
      ];
    }

  refused-then :
      {A : Type 0} (q : Request) (e : Exc) (f : Tool → Call A) → Keeps R (refused q e >>= f)
  unfolding refused
  refused-then q e f = elim (Bool-cases (is_instance e.class tool_not_allowed)) [
    | inl denied ↦
        rw denied
          (raises_on foot.order _ e f (trace_refusal_keeps q.run_id q.step_name q.tool_name e))
    | inr other ↦ rw other (record { at = λ w. foot.order.stay w.db })
  ]

  resolved_keeps :
      {A : Type 0} (q : Request) (r : Result Tool) (f : Tool → Call A)
      → ((tool : Tool) → r ≡ ok tool → Keeps R (f tool))
      → Keeps R (try_except (lift r) (refused q) >>= f)
  resolved_keeps q (ok tool) f h = record { at = (h tool refl).at }
  resolved_keeps q (err e) f h = record { at = (refused-then q e f).at }

  pub execute_keeps :
      (x : ToolExecutor) → All IsIsolated x.registry → (q : Request) → Keeps R (execute x q)
  unfolding execute
  execute_keeps x isolated q =
      resolved_keeps q (resolve q.tool_name q.allowlist x.registry) _ λ tool found.
        let safe = resolve-IsIsolated q.tool_name q.allowlist x.registry tool isolated found in
        Keeps-if foot.order (tool.spec.side_effecting && not (is_some q.operation))
          (reraise (needs_operation q.tool_name))
          (x.retrying.attempts_from x.max_attempts transient_tool_error (attempt x q tool) 1)
          (λ _. Keeps-reraise foot.order (needs_operation q.tool_name))
          (λ _.
            loop_keeps foot.order x.retrying x.max_attempts transient_tool_error (attempt x q tool)
              (attempt_keeps x q safe) 1)
