-- ===== src/Tools/Executor/History.antt =====
-- `execute` of tools/executor.py and the history of the database.
use offboarding_orchestrator.Prelude.{String, true, ◌≡◌, some}
use offboarding_orchestrator.Domain.Models.{Run}
use offboarding_orchestrator.World.{World}
use offboarding_orchestrator.Persistence.History.{History, IsValid, Extends, History-preorder}
use offboarding_orchestrator.Persistence.History.Runs.{bump_counters-History}
use offboarding_orchestrator.Persistence.History.Trace.{start_attempt-History}
use offboarding_orchestrator.Tools.Isolation.{IsIsolated}
use offboarding_orchestrator.Tools.Executor.{ToolExecutor, Request, execute}
use offboarding_orchestrator.Domain.Models.{is_terminal}
use offboarding_orchestrator.Persistence.Runs.{has_run_id}
use offboarding_orchestrator.Persistence.History.Lifecycle.{Extends-terminal}
use offboarding_orchestrator.Prelude.{All, select_one}
use offboarding_orchestrator.World.{Db}
use offboarding_orchestrator.Persistence.History.{Extends-refl}
use offboarding_orchestrator.Persistence.History.Trace.{close_attempt-History}
use offboarding_orchestrator.Persistence.History.SideEffects.{
  insert_effect-History, try_reserve-History, marked-History,
}
use offboarding_orchestrator.Tools.Isolation.{Isolated}
use offboarding_orchestrator.Tools.Footing.{Footing}
use offboarding_orchestrator.Tools.Executor.Keeping.{execute_keeps}

Isolated-History : (a b : Db) → Isolated a b → History a b
Isolated-History a b h = record {
  after = λ v. (
    record {
      counted = rw (← h.attempts, ← h.seq) v.counted;
      numbered = rw (← h.attempts) v.numbered;
    },
    record {
      runs = λ k. rw (← h.runs) ((Extends-refl a).runs k);
      attempts = λ i. rw (← h.attempts) ((Extends-refl a).attempts i);
      effects = λ k. rw (← h.effects) ((Extends-refl a).effects k);
      applied = h.applied;
    },
  );
}

pub History-Footing : Footing History
History-Footing = record {
  order = History-preorder;
  isolated = Isolated-History;
  starts = start_attempt-History;
  closes = close_attempt-History;
  inserts = insert_effect-History;
  reserves = try_reserve-History;
  sets = marked-History;
  counts_call = λ run_id w r found more. (bump_counters-History run_id 0 1).at w;
  counts_step = λ run_id w r found more. (bump_counters-History run_id 1 0).at w;
}

-- When the database is valid and every registered tool only adds to its provider's own table,
-- then however a request to the executor ends (a result, any exception, retries included): the
-- trace stays numbered 1, 2, ... at each step of each run, its ids stay below the counter, and
-- every run, attempt, ledger row and provider effect is still there, with a run's and an attempt's
-- status reached along its transition table, no counter of a run lowered, no limit changed, a
-- completed row of the ledger completed with the same result, and what a provider applied
-- unchanged.
pub execute-IsValid :
    (x : ToolExecutor) (q : Request) (w : World)
    → All IsIsolated x.registry
    → IsValid w.db
    → IsValid (execute x q w).1.db × Extends w.db (execute x q w).1.db
execute-IsValid x q w isolated valid =
    ((execute_keeps History-Footing x isolated q).at w).after valid

-- For a valid database and tools that only add to their providers' own tables: a run that has
-- ended has, after any request to the executor, the status it ended with.
pub execute-terminal :
    (x : ToolExecutor) (q : Request) (w : World) (run_id : String) (r : Run)
    → All IsIsolated x.registry
    → IsValid w.db
    → select_one (has_run_id run_id) w.db.runs ≡ some r
    → is_terminal r ≡ true
    → (r' : Run) × (select_one (has_run_id run_id) (execute x q w).1.db.runs ≡ some r')
      × (r'.status ≡ r.status)
unfolding is_terminal
execute-terminal x q w run_id r isolated valid found ended =
    Extends-terminal w.db (execute x q w).1.db run_id r (execute-IsValid x q w isolated valid).1
      found ended
