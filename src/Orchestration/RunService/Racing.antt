-- ===== src/Orchestration/RunService/Racing.antt =====
-- RunService._resolve_approval, when another process moves the run between the check and the write:
-- the check reads the run outside the transaction of the write.
use offboarding_orchestrator.Prelude.{String, true, ◌≡◌, refl, Option, none, some}
use offboarding_orchestrator.Domain.RunStatus.{RunStatus}
use offboarding_orchestrator.Domain.PauseReason.{PauseReason}
use offboarding_orchestrator.Domain.Run.{may_move}
use offboarding_orchestrator.Domain.StepName.{StepName}
use offboarding_orchestrator.Domain.Json.{bool, str, dict, Fields, end, field}
use offboarding_orchestrator.Domain.Models.{Run}
use offboarding_orchestrator.World.Gives.{Gives, Gives-bind, Gives-pure}
use offboarding_orchestrator.Orchestration.State.{NodeResult, returns, interrupts}
use offboarding_orchestrator.Orchestration.Nodes.{Services}
use offboarding_orchestrator.Orchestration.Nodes.Pauses.{after_document, await_signed_document}
use offboarding_orchestrator.Orchestration.Graph.{node}
use offboarding_orchestrator.Domain.Result.{ok}
use offboarding_orchestrator.World.{World}
use offboarding_orchestrator.Persistence.Runs.Status.{find, moved, moved_world, set_status_legal}
use offboarding_orchestrator.Orchestration.RunService.{
  Graph, is_paused_for, require_paused_for, resolve_paused, advance, note_value,
}
use offboarding_orchestrator.Orchestration.RunService.Refusals.{approval_input, then_get-state}

-- What `resume` gives to the step.
abbrev pub decision : String → Option String → Fields
decision approver remark =
    field "approved" (bool true)
      (field "approver" (str approver) (field "note" (note_value remark) end))

-- The step took the value for the signed document.
abbrev pub Takes : Fields → NodeResult → Type 0
Takes event (returns update events) = update ≡ field "signed_document" (dict event) end
Takes event (interrupts payload) = ⊥

after_document-Takes :
    (run_id : String) (payload event : Fields)
    → Gives (Takes event) (after_document run_id payload (some event))
unfolding after_document
after_document-Takes run_id payload event = search (Gives-bind, Gives-pure)

await_signed_document-Takes :
    (state : Fields) (services : Services) (event : Fields)
    → Gives (Takes event) (await_signed_document state services (some event))
unfolding await_signed_document
await_signed_document-Takes state services event =
    search (Gives-bind, after_document-Takes) depth 15

-- For a run that waits for HR approval when an approval reads it, and that another process leaves
-- paused for any reason before the approval writes: the check passes, the approval then sets the
-- run RUNNING and resumes the graph with its decision; and whenever the step that waits for the
-- signed document is resumed with that decision and returns, it returns the decision, which has no
-- document, as the signed document.
pub resolve_approval_raced :
    (graph : Graph) (services : Services) (state : Fields) (approver : String)
    (remark : Option String) (r r' : Run) (w w' : World)
    → is_paused_for PauseReason.hr_approval r ≡ true
    → find r.run_id w' ≡ some r'
    → r'.status ≡ RunStatus.paused
    → (require_paused_for r PauseReason.hr_approval w ≡ (ok tt, w))
      × ((resolve_paused graph true r approver remark w').1
          ≡ (advance graph
              (moved r.run_id RunStatus.running none none none w' r')
              (approval_input approver remark)
              (moved_world r.run_id RunStatus.running none none none w')).1)
      × Gives
          (Takes (decision approver remark))
          (node StepName.await_signed_document state services (some (decision approver remark)))
unfolding require_paused_for resolve_paused
resolve_approval_raced graph services state approver remark r r' w w' waiting found paused =
    let legal : may_move r'.status RunStatus.running ≡ true = rw paused refl in
    let run = moved r.run_id RunStatus.running none none none w' r' in
    let m =
      advance graph run (approval_input approver remark)
        (moved_world r.run_id RunStatus.running none none none w') in
    (
      rw waiting refl,
      rw (set_status_legal r.run_id RunStatus.running none none none w' r' found legal)
          (then_get-state run.run_id m.0 m.1),
      await_signed_document-Takes state services (decision approver remark),
    )
