-- ===== src/Orchestration/RunService/Cancelling.antt =====
-- RunService.cancel_run, by the status of the run.
use offboarding_orchestrator.Prelude.{
  suc, String, true, false, ◌||◌, ◌≡◌, refl, sym, none, some, arith, eq_iff, select_one_sound,
  select_one-update, update,
}
use mathlib.Core.Path.{subst}
use offboarding_orchestrator.Domain.RunStatus
use offboarding_orchestrator.Domain.RunStatus.{RunStatus}
use offboarding_orchestrator.Domain.Run.{is_terminal as is_terminal_status, may_move}
use offboarding_orchestrator.Domain.Result.{Result, ok, err}
use offboarding_orchestrator.Domain.Models.{Run, is_terminal}
use offboarding_orchestrator.World.{World, immediate, now}
use offboarding_orchestrator.Persistence.Runs
use offboarding_orchestrator.Persistence.Runs.{has_run_id, set_status, request_cancel, with_cancel}
use offboarding_orchestrator.Persistence.Runs.Status.{
  find, moved, find-moved_world_self, set_status_legal,
}
use offboarding_orchestrator.Orchestration.RunService.{already_ended, cancel_run}

-- The call returned the run's row.
abbrev pub Returns : String → Result Run × World → (Run → Type 0) → Type 0
Returns run_id x P = (r : Run) × (x.0 ≡ ok r) × (find run_id x.1 ≡ some r) × P r

-- What a cancellation owes.
abbrev pub Cancels : RunStatus → String → Run → World → Result Run × World → Type 0
Cancels RunStatus.pending run_id r w x = Returns run_id x λ r'. r'.status ≡ RunStatus.cancelled
Cancels RunStatus.paused run_id r w x = Returns run_id x λ r'. r'.status ≡ RunStatus.cancelled
Cancels RunStatus.running run_id r w x =
    Returns run_id x λ r'. (r'.status ≡ RunStatus.running) × (r'.cancel_requested ≡ true)
Cancels RunStatus.completed run_id r w x = x ≡ (err (already_ended r), w)
Cancels RunStatus.failed run_id r w x = x ≡ (err (already_ended r), w)
Cancels RunStatus.cancelled run_id r w x = x ≡ (err (already_ended r), w)

module _ (run_id : String) (w : World) (r : Run) (found : find run_id w ≡ some r) where
  own_id : r.run_id ≡ run_id
  own_id =
      ground (arith, select_one_sound (has_run_id run_id) w.db.runs found, eq_iff r.run_id run_id)

  found_own : find r.run_id w ≡ some r
  found_own = subst (λ (k : String). find k w ≡ some r) (sym own_id) found

  abbrev flagged_world : World
  flagged_world = record w {
    db = record w.db {
      runs = update (has_run_id r.run_id) (with_cancel (w.readings w.reads)) w.db.runs;
    };
    reads = suc w.reads;
  }

  find-flagged_world : find r.run_id flagged_world ≡ some (with_cancel (w.readings w.reads) r)
  find-flagged_world =
      rw
        (
          select_one-update (has_run_id r.run_id) (has_run_id r.run_id)
              (with_cancel (w.readings w.reads)) w.db.runs (λ a. refl),
          found_own,
          select_one_sound (has_run_id r.run_id) w.db.runs found_own,
        )
        refl

  request_cancel_lem :
      request_cancel r.run_id w ≡ (ok (with_cancel (w.readings w.reads) r), flagged_world)
  unfolding request_cancel immediate Runs.get now
  request_cancel_lem = rw (found_own, find-flagged_world) refl

  cancelled_now :
      (s : RunStatus)
      → r.status ≡ s
      → is_terminal_status s ≡ false
      → RunStatus.same s RunStatus.pending || RunStatus.same s RunStatus.paused ≡ true
      → may_move s RunStatus.cancelled ≡ true
      → Returns r.run_id (cancel_run run_id w) λ r'. r'.status ≡ RunStatus.cancelled
  unfolding cancel_run Runs.get is_terminal
  cancelled_now s e live idle legal =
      let go : may_move r.status RunStatus.cancelled ≡ true = rw e legal in
      rw
        (
          found,
          e,
          live,
          idle,
          set_status_legal r.run_id RunStatus.cancelled none none none w r found_own go,
        )
        (
          moved r.run_id RunStatus.cancelled none none none w r,
          refl,
          find-moved_world_self r.run_id RunStatus.cancelled none none none w found_own,
          refl,
        )

  flagged :
      r.status ≡ RunStatus.running
      → Returns r.run_id
          (cancel_run run_id w)
          λ r'. (r'.status ≡ RunStatus.running) × (r'.cancel_requested ≡ true)
  unfolding cancel_run Runs.get is_terminal is_terminal_status
  flagged e =
      rw (found, e, request_cancel_lem)
        (with_cancel (w.readings w.reads) r, refl, find-flagged_world, (e, refl))

  cancel_refused :
      (s : RunStatus)
      → r.status ≡ s
      → is_terminal_status s ≡ true
      → cancel_run run_id w ≡ (err (already_ended r), w)
  unfolding cancel_run Runs.get is_terminal
  cancel_refused s e ended =
      let over : is_terminal_status r.status ≡ true = rw e ended in rw (found, over) refl

  named :
      (P : Run → Type 0)
      → Returns r.run_id (cancel_run run_id w) P
      → Returns run_id (cancel_run run_id w) P
  named P h = subst (λ (k : String). Returns k (cancel_run run_id w) P) own_id h

  cancels : (s : RunStatus) → r.status ≡ s → Cancels s run_id r w (cancel_run run_id w)
  unfolding is_terminal_status
  cancels RunStatus.pending e = named _ (cancelled_now RunStatus.pending e refl refl refl)
  cancels RunStatus.paused e = named _ (cancelled_now RunStatus.paused e refl refl refl)
  cancels RunStatus.running e = named _ (flagged e)
  cancels RunStatus.completed e = cancel_refused RunStatus.completed e refl
  cancels RunStatus.failed e = cancel_refused RunStatus.failed e refl
  cancels RunStatus.cancelled e = cancel_refused RunStatus.cancelled e refl

-- For a run that exists, cancel_run makes a pending or paused run CANCELLED, flags a running run
-- and leaves it RUNNING, and refuses an ended run without a change; where it returns, it returns
-- the run's row.
pub cancel_run-Cancels :
    (run_id : String) (w : World) (r : Run)
    → find run_id w ≡ some r
    → Cancels r.status run_id r w (cancel_run run_id w)
cancel_run-Cancels run_id w r found = cancels run_id w r found r.status refl
