-- ===== src/Orchestration/RunService/Refusals.antt =====
-- RunService on a run that has ended, and on a second approval.
use mathlib.Core.Path.{subst}
use offboarding_orchestrator.Prelude.{
  String, Bool, true, false, ◌&&◌, ◌≡◌, refl, sym, Option, none, some, List, [], ◌∷◌, arith,
}
use offboarding_orchestrator.Domain.RunStatus
use offboarding_orchestrator.Domain.RunStatus.{RunStatus}
use offboarding_orchestrator.Domain.PauseReason.{PauseReason}
use offboarding_orchestrator.Domain.FailureReason.{FailureReason}
use offboarding_orchestrator.Domain.Run.{is_terminal as is_terminal_status, may_move}
use offboarding_orchestrator.Domain.Json.{bool, str, Fields, end, field, get_field}
use offboarding_orchestrator.Domain.Result.{Result, ok, err}
use offboarding_orchestrator.Domain.Models.{Run, is_terminal}
use offboarding_orchestrator.World.{World, continue}
use offboarding_orchestrator.World.Keeps.{Keeps}
use offboarding_orchestrator.Persistence.Runs
use offboarding_orchestrator.Prelude.{select_one_sound, eq_iff}
use offboarding_orchestrator.Persistence.Runs.{set_status, has_run_id}
use offboarding_orchestrator.Persistence.Runs.Status.{
  find, get-state, moved, moved_world, find-moved_world_self, set_status_legal,
}
use offboarding_orchestrator.Orchestration.RunService.{
  Graph, Input, note_value, is_reason, is_paused_for, not_paused_for, not_running, already_ended,
  require_paused_for, resolve_paused, advance, resolve_approval, approve, reject,
  submit_signed_document, resume_run, cancel_run,
}
use offboarding_orchestrator.Orchestration.RunService.Outcomes.{
  Ending, ending_of, Steady, IsAt, IsStuck, reason_in, Follows, FollowsException, FollowsPause,
  advance-Follows,
}

ended_not_paused :
    (s : RunStatus) → is_terminal_status s ≡ true → RunStatus.same s RunStatus.paused ≡ false
unfolding is_terminal_status
ended_not_paused RunStatus.pending h = absurd (cc)
ended_not_paused RunStatus.running h = absurd (cc)
ended_not_paused RunStatus.paused h = absurd (cc)
ended_not_paused RunStatus.completed h = refl
ended_not_paused RunStatus.failed h = refl
ended_not_paused RunStatus.cancelled h = refl

ended_not_running :
    (s : RunStatus) → is_terminal_status s ≡ true → RunStatus.same s RunStatus.running ≡ false
unfolding is_terminal_status
ended_not_running RunStatus.pending h = absurd (cc)
ended_not_running RunStatus.running h = absurd (cc)
ended_not_running RunStatus.paused h = absurd (cc)
ended_not_running RunStatus.completed h = refl
ended_not_running RunStatus.failed h = refl
ended_not_running RunStatus.cancelled h = refl

module _ (graph : Graph) (run_id : String) (w : World) (r : Run)
    (found : find run_id w ≡ some r) where
  resolve_refused :
      (approved : Bool) (approver : String) (remark : Option String)
      → is_paused_for PauseReason.hr_approval r ≡ false
      → resolve_approval graph approved run_id approver remark w
        ≡ (err (not_paused_for r PauseReason.hr_approval), w)
  unfolding resolve_approval Runs.get require_paused_for
  resolve_refused approved approver remark h = rw (found, h) refl

  submit_refused :
      (document_id : String) (signed_at : Option String)
      → is_paused_for PauseReason.signed_document r ≡ false
      → submit_signed_document graph run_id document_id signed_at w
        ≡ (err (not_paused_for r PauseReason.signed_document), w)
  unfolding submit_signed_document Runs.get require_paused_for
  submit_refused document_id signed_at h = rw (found, h) refl

  resume_refused :
      RunStatus.same r.status RunStatus.running ≡ false
      → resume_run graph run_id w ≡ (err (not_running r), w)
  unfolding resume_run Runs.get
  resume_refused h = rw (found, h) refl

  cancel_refused : is_terminal r ≡ true → cancel_run run_id w ≡ (err (already_ended r), w)
  unfolding cancel_run Runs.get
  cancel_refused h = rw (found, h) refl

  -- On a run that has ended, approve, reject, submit_signed_document, resume_run and cancel_run
  -- each raise InvalidRunOperation and change nothing.
  pub ended_run-refuses :
      (approver document_id : String) (remark signed_at : Option String)
      → is_terminal r ≡ true
      → (approve graph run_id approver remark w
          ≡ (err (not_paused_for r PauseReason.hr_approval), w))
        × (reject graph run_id approver remark w
            ≡ (err (not_paused_for r PauseReason.hr_approval), w))
        × (submit_signed_document graph run_id document_id signed_at w
            ≡ (err (not_paused_for r PauseReason.signed_document), w))
        × (resume_run graph run_id w ≡ (err (not_running r), w))
        × (cancel_run run_id w ≡ (err (already_ended r), w))
  unfolding approve reject is_terminal
  ended_run-refuses approver document_id remark signed_at ended =
      let p = ended_not_paused r.status ended in
      let hr : is_paused_for PauseReason.hr_approval r ≡ false = rw p refl in
      let doc : is_paused_for PauseReason.signed_document r ≡ false = rw p refl in
      (
        resolve_refused true approver remark hr,
        resolve_refused false approver remark hr,
        submit_refused document_id signed_at doc,
        resume_refused (ended_not_running r.status ended),
        cancel_refused ended,
      )

-- The outcome is another pause for the approval.
abbrev pub pauses_again : Result (List Fields) → Bool
pauses_again (err e) = false
pauses_again (ok []) = false
pauses_again (ok (payload ∷ rest)) =
    is_reason PauseReason.hr_approval (reason_in (get_field "pause_reason" payload))

abbrev NotWaiting : String → World → Type 0
NotWaiting run_id w =
    (r : Run) × (find run_id w ≡ some r) × (is_paused_for PauseReason.hr_approval r ≡ false)

module _ (run_id : String) (old : Option FailureReason) (x : Result (Unit {0}) × World) where
  IsAt-NotWaiting :
      (s : RunStatus) (p : Option PauseReason) (f : Option FailureReason)
      → RunStatus.same s RunStatus.paused && is_reason PauseReason.hr_approval p ≡ false
      → IsAt run_id s p f x
      → NotWaiting run_id x.1
  IsAt-NotWaiting s p f h at = (at.row, at.found, rw (at.status, at.pause) h)

  IsStuck-NotWaiting : IsStuck run_id x → NotWaiting run_id x.1
  IsStuck-NotWaiting k = (k.row, k.found, rw k.status refl)

  exception-NotWaiting : (k : Ending) → FollowsException run_id old x k → NotWaiting run_id x.1
  exception-NotWaiting Ending.stays_running h = IsStuck-NotWaiting h
  exception-NotWaiting Ending.is_cancelled h = IsAt-NotWaiting RunStatus.cancelled none old refl h
  exception-NotWaiting (Ending.fails_as f) h = IsAt-NotWaiting RunStatus.failed none (some f) refl h

  pause-NotWaiting :
      (o : Option PauseReason)
      → is_reason PauseReason.hr_approval o ≡ false
      → FollowsPause run_id old x o
      → NotWaiting run_id x.1
  pause-NotWaiting none e h = IsStuck-NotWaiting h
  pause-NotWaiting (some p) e h = IsAt-NotWaiting RunStatus.paused (some p) old e h

  Follows-NotWaiting :
      (o : Result (List Fields))
      → pauses_again o ≡ false
      → Follows run_id old x o
      → NotWaiting run_id x.1
  Follows-NotWaiting (err e) n h = exception-NotWaiting (ending_of e.class) h
  Follows-NotWaiting (ok []) n h = IsAt-NotWaiting RunStatus.completed none old refl h
  Follows-NotWaiting (ok (payload ∷ rest)) n h =
      pause-NotWaiting (reason_in (get_field "pause_reason" payload)) n h

pub then_get-state :
    (run_id : String) (m : Result (Unit {0})) (w : World)
    → (continue (λ _. Runs.get run_id) m w).1 ≡ w
then_get-state run_id (ok _) w = get-state run_id w
then_get-state run_id (err e) w = refl

is_paused-status :
    (reason : PauseReason) (r : Run) → is_paused_for reason r ≡ true → r.status ≡ RunStatus.paused
is_paused-status reason r h = ground (arith, RunStatus.same_iff r.status RunStatus.paused)

-- The value that the graph is resumed with after an approval.
abbrev pub approval_input : String → Option String → Input
approval_input approver remark = Input.resume (
    field "approved" (bool true)
      (field "approver" (str approver) (field "note" (note_value remark) end)))

-- The world in which it is resumed.
abbrev pub running_world : Run → World → World
running_world r w = moved_world r.run_id RunStatus.running none none none w

module _ (graph : Graph) (run_id approver : String) (remark : Option String) (w : World) (r : Run)
    (found : find run_id w ≡ some r)
    (waiting : is_paused_for PauseReason.hr_approval r ≡ true) where
  abbrev approval : Input
  approval = approval_input approver remark

  abbrev resumed_world : World
  resumed_world = running_world r w

  abbrev resumed_run : Run
  resumed_run = moved r.run_id RunStatus.running none none none w r

  own_id : r.run_id ≡ run_id
  own_id =
      ground (arith, select_one_sound (has_run_id run_id) w.db.runs found, eq_iff r.run_id run_id)

  found_own : find r.run_id w ≡ some r
  found_own = subst (λ (k : String). find k w ≡ some r) (sym own_id) found

  approve-advance :
      (approve graph run_id approver remark w).1
      ≡ (advance graph resumed_run approval resumed_world).1
  unfolding approve resolve_approval resolve_paused Runs.get require_paused_for
  approve-advance =
      let legal : may_move r.status RunStatus.running ≡ true =
        rw (is_paused-status PauseReason.hr_approval r waiting) refl in
      rw
        (
          found,
          waiting,
          set_status_legal r.run_id RunStatus.running none none none w r found_own legal,
        )
        (then_get-state r.run_id (advance graph resumed_run approval resumed_world).0
          (advance graph resumed_run approval resumed_world).1)

  after_approval :
      Keeps Steady (graph.invoke approval r.thread_id)
      → pauses_again (graph.invoke approval r.thread_id resumed_world).0 ≡ false
      → NotWaiting r.run_id (approve graph run_id approver remark w).1
  after_approval steady once = rw approve-advance (
      Follows-NotWaiting r.run_id r.failure_reason
        (advance graph resumed_run approval resumed_world)
        (graph.invoke approval r.thread_id resumed_world).0 once
        (advance-Follows graph resumed_run approval resumed_world resumed_run steady
          (find-moved_world_self r.run_id RunStatus.running none none none w found_own) refl))

  -- For a run that waits for HR approval, and a graph that leaves each run's status and reasons
  -- alone and does not pause for the approval again: after an approval, however it ended, a second
  -- one is refused with InvalidRunOperation before it reaches the graph, and changes nothing.
  pub approve_twice :
      (approver' : String) (remark' : Option String)
      → Keeps Steady (graph.invoke approval r.thread_id)
      → pauses_again (graph.invoke approval r.thread_id resumed_world).0 ≡ false
      → let w' = (approve graph run_id approver remark w).1 in
        (r' : Run) × (approve graph run_id approver' remark' w'
          ≡ (err (not_paused_for r' PauseReason.hr_approval), w'))
  unfolding approve
  approve_twice approver' remark' steady once =
      let end_world = (approve graph run_id approver remark w).1 in
      let (r', here, moved_on) =
        subst (λ (k : String). NotWaiting k end_world) own_id (after_approval steady once) in
      (r', resolve_refused graph run_id end_world r' here true approver' remark' moved_on)
