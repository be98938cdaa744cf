-- ===== src/Persistence/History/Lifecycle.antt =====
-- A run that has ended, in a later database.
use offboarding_orchestrator.Prelude.{
  String, true, false, ◌≡◌, refl, Option, none, some, select_one, Later, sym,
}
use offboarding_orchestrator.Domain.RunStatus.{RunStatus}
use offboarding_orchestrator.Domain.Run.{may_move, is_terminal}
use offboarding_orchestrator.Domain.Lifecycle.{is_terminal_iff}
use offboarding_orchestrator.Domain.Models.{Run}
use offboarding_orchestrator.World.{Db}
use offboarding_orchestrator.Persistence.Runs.{has_run_id}
use offboarding_orchestrator.Persistence.History.{RunPath, at_start, move, RunLater, Extends}

RunPath-terminal : (a b : RunStatus) → is_terminal a ≡ true → RunPath a b → a ≡ b
RunPath-terminal a _ h at_start = refl
RunPath-terminal a _ h (move {b} k c legal) =
    let same = RunPath-terminal a b h k in
    let stop : may_move a c ≡ false = (is_terminal_iff a).0 h c in absurd (cc)

Later-terminal :
    (o : Option Run) (r : Run)
    → Later RunLater (some r) o
    → is_terminal r.status ≡ true
    → (r' : Run) × (o ≡ some r') × (r'.status ≡ r.status)
Later-terminal none r h t = elim h [ ]
Later-terminal (some r') r h t = (r', refl, sym (RunPath-terminal r.status r'.status t h.status))

-- In a database that extends one in which a run has ended, the run has the status it ended with.
pub Extends-terminal :
    (a b : Db) (run_id : String) (r : Run)
    → Extends a b
    → select_one (has_run_id run_id) a.runs ≡ some r
    → is_terminal r.status ≡ true
    → (r' : Run) × (select_one (has_run_id run_id) b.runs ≡ some r') × (r'.status ≡ r.status)
Extends-terminal a b run_id r e found t =
    Later-terminal (select_one (has_run_id run_id) b.runs) r (rw (← found) (e.runs run_id)) t
