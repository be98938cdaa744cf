-- ===== src/Clients/Once.antt =====
-- A side effect that is completed in the ledger (tools/ledger.py), whatever the clients do later.
use offboarding_orchestrator.Prelude.{
  inl, inr, arith, ℕ, suc, String, true, false, ◌≡◌, refl, Option, none, some, List, Later,
}
use offboarding_orchestrator.Domain.Json.{Fields}
use offboarding_orchestrator.Domain.Result.{ok}
use offboarding_orchestrator.Domain.Models.{
  SideEffectRecord, EffectState, reserved, in_progress, completed, failed,
}
use offboarding_orchestrator.World.{World}
use offboarding_orchestrator.Persistence.History.{IsValid, EffectLater}
use offboarding_orchestrator.Persistence.SideEffects.Rows.{row, is_completed}
use offboarding_orchestrator.Tools.Base.{Tool}
use offboarding_orchestrator.Tools.Ledger.{or_empty, run_once}
use offboarding_orchestrator.Tools.Ledger.Replay.{run_once-completed}
use offboarding_orchestrator.Orchestration.Nodes.{Services}
use offboarding_orchestrator.Orchestration.Services.{Wiring}
use offboarding_orchestrator.Orchestration.RunService.{Graph}
use offboarding_orchestrator.Clients.Traffic.{Visit, traffic}
use offboarding_orchestrator.Clients.System.{IsContained, traffic-IsValid}

completed_sound : (s : EffectState) → is_completed s ≡ true → s ≡ completed
completed_sound completed h = refl
completed_sound reserved h = absurd (cc)
completed_sound in_progress h = absurd (cc)
completed_sound failed h = absurd (cc)

-- The row of a completed effect, later on.
Later-row :
    (r : SideEffectRecord) (o : Option SideEffectRecord)
    → r.state ≡ completed
    → Later EffectLater (some r) o
    → (r' : SideEffectRecord) × (o ≡ some r') × (r'.state ≡ completed) × (r.result ≡ r'.result)
Later-row r none done h = elim h [ ]
Later-row r (some r') done h = elim h.settled [
  | inl is_open ↦ absurd (ground (arith, done, is_open))
  | inr (done', same) ↦ (r', refl, completed_sound r'.state done', same)
]

-- For contained packages, a valid database and a row of the ledger that is completed: after any
-- sequence of commands, HTTP requests and restarts of the server, each call of run_once for the
-- row's key, by any run, step and tool and with any arguments, returns the result that json.loads
-- reads from the row, is marked as replayed, and changes nothing.
pub traffic-once :
    (x : Wiring) (compile : Services → Graph) (visits : List Visit) (w : World) (key : String)
    (r : SideEffectRecord)
    → IsContained x compile
    → IsValid w.db
    → row key w ≡ some r
    → r.state ≡ completed
    → (depth : ℕ) (run_id step_name : String) (tool : Tool) (kwargs : Fields)
    → let w' = (traffic x compile none visits w).1 in
      run_once (suc depth) key run_id step_name tool kwargs w'
      ≡ (ok (record { result = or_empty r.result; replayed = true; reconciled = false }), w')
traffic-once x compile visits w key r contained valid found done depth run_id step_name tool
      kwargs =
    let w' = (traffic x compile none visits w).1 in
    let (kept, later) = traffic-IsValid x compile visits w contained valid in
    let (r', found', done', same) =
      Later-row r (row key w') done (rw (← found) (later.effects key)) in
    rw same (run_once-completed key run_id step_name tool kwargs w' depth r' found' done')
