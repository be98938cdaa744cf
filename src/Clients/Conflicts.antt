-- ===== src/Clients/Conflicts.antt =====
-- The HTTP interface on a run that does not admit the request.
use offboarding_orchestrator.Prelude.{
  ℕ, String, Bool-cases, inl, inr, true, false, ◌≡◌, refl, Option, none, some,
}
use offboarding_orchestrator.Domain.PauseReason.{PauseReason}
use offboarding_orchestrator.Domain.Errors.{Exc, run_not_found, invalid_run_operation, is_instance}
use offboarding_orchestrator.Domain.Models.{Run, is_terminal}
use offboarding_orchestrator.Domain.Result.{Result, ok, err}
use offboarding_orchestrator.World.{World, Call, pure, lift, try_except, ◌>>=◌}
use offboarding_orchestrator.Persistence.Runs.Status.{find}
use offboarding_orchestrator.Orchestration.RunService.{
  Graph, not_paused_for, not_running, already_ended, is_paused_for, approve,
}
use offboarding_orchestrator.Orchestration.RunService.Refusals.{
  ended_run-refuses, approve_twice, approval_input, running_world, pauses_again,
}
use offboarding_orchestrator.Orchestration.Nodes.{Services}
use offboarding_orchestrator.Orchestration.Nodes.Steady.{Steady-Footing}
use offboarding_orchestrator.Orchestration.Drive.{IsSound, IsDriven, driven_keeps}
use offboarding_orchestrator.Clients.Missing.{request_run}
use offboarding_orchestrator.Clients.Api.{
  ApprovalRequest, Request, Response, Body, answer, handle, route,
}

abbrev pub conflict : Exc → Response
conflict e = record { status_code = 409; content = Body.detail e.message }

-- A run that is there, and a call that the service refuses.
answer_refused :
    {A : Type 0} (status_code : ℕ) (body : A → Body) (call : Call A) (w w' : World) (e : Exc)
    → call w ≡ (err e, w')
    → is_instance e.class run_not_found ≡ false
    → is_instance e.class invalid_run_operation ≡ true
    → answer status_code body call w ≡ (ok (conflict e), w')
unfolding answer handle
answer_refused status_code body call w w' e refused other conflicts =
    rw (refused, other, conflicts) refl

-- What the requests that would change an ended run are answered with.
abbrev pub ended_answer : Run → Request → Option Exc
ended_answer r (Request.approve run_id body) = some (not_paused_for r PauseReason.hr_approval)
ended_answer r (Request.reject run_id body) = some (not_paused_for r PauseReason.hr_approval)
ended_answer r (Request.sign run_id body) = some (not_paused_for r PauseReason.signed_document)
ended_answer r (Request.resume run_id) = some (not_running r)
ended_answer r (Request.cancel run_id) = some (already_ended r)
ended_answer r _ = none

the_exc : (a e : Exc) → some a ≡ some e → a ≡ e
the_exc a e h = cc

run_of : (j run_id : String) → some j ≡ some run_id → j ≡ run_id
run_of j run_id h = cc

-- On a run that has ended, an approval, a rejection, a signature, a resumption and a cancellation
-- over HTTP are each answered with 409 and the message of the service's refusal, and change
-- nothing.
pub route-conflict :
    (service : Graph) (hex : String) (request : Request) (run_id : String) (w : World) (r : Run)
    (e : Exc)
    → find run_id w ≡ some r
    → is_terminal r ≡ true
    → request_run request ≡ some run_id
    → ended_answer r request ≡ some e
    → route service hex request w ≡ (ok (conflict e), w)
unfolding route is_instance
route-conflict service hex (Request.approve j body) run_id w r e found ended about raises =
    rw (← the_exc _ e raises, run_of j run_id about)
      (answer_refused 200 Body.run _ w w _
        (ended_run-refuses service run_id w r found body.approver "" body.remark none ended).0 refl
        refl)
route-conflict service hex (Request.reject j body) run_id w r e found ended about raises =
    rw (← the_exc _ e raises, run_of j run_id about)
      (answer_refused 200 Body.run _ w w _
        (ended_run-refuses service run_id w r found body.approver "" body.remark none ended).1 refl
        refl)
route-conflict service hex (Request.sign j body) run_id w r e found ended about raises =
    rw (← the_exc _ e raises, run_of j run_id about)
      (answer_refused 200 Body.run _ w w _
        (ended_run-refuses service run_id w r found "" body.document_id none body.signed_at ended).2
        refl refl)
route-conflict service hex (Request.resume j) run_id w r e found ended about raises =
    rw (← the_exc _ e raises, run_of j run_id about)
      (answer_refused 200 Body.run _ w w _
        (ended_run-refuses service run_id w r found "" "" none none ended).3 refl refl)
route-conflict service hex (Request.cancel j) run_id w r e found ended about raises =
    rw (← the_exc _ e raises, run_of j run_id about)
      (answer_refused 200 Body.run _ w w _
        (ended_run-refuses service run_id w r found "" "" none none ended).4 refl refl)
route-conflict service hex _ run_id w r e found ended about raises = absurd (cc)

handle-state : (e : Exc) (w : World) → (handle e w).1 ≡ w
unfolding handle
handle-state e w = elim (Bool-cases (is_instance e.class run_not_found)) [
  | inl missing ↦ rw missing refl
  | inr other ↦ elim (Bool-cases (is_instance e.class invalid_run_operation)) [
    | inl refused ↦ rw (other, refused) refl
    | inr unknown ↦ rw (other, unknown) refl
  ]
]

-- An answer leaves what the call leaves.
pub answer-state :
    {A : Type 0} (status_code : ℕ) (body : A → Body) (call : Call A) (w : World)
    → (answer status_code body call w).1 ≡ (call w).1
unfolding answer
answer-state {A} status_code body call w = go (call w).0 (call w).1
  where
    go :
        (r : Result A) (w' : World)
        → (try_except
            (λ v. (do a ← lift r; pure (record { status_code = status_code; content = body a })) v)
            handle
            w').1
          ≡ w'
    go (ok a) w' = refl
    go (err e) w' = handle-state e w'

-- For services whose tools and model write to no table but the providers', where they only add, a
-- graph that runs their steps alone, and a run that waits for HR approval: when the graph does not
-- pause for the approval again, a second approval over HTTP is answered with 409, and changes
-- nothing.
pub route-approve_twice :
    (services : Services) (service : Graph) (hex run_id : String) (first second : ApprovalRequest)
    (w : World) (r : Run)
    → IsSound services
    → IsDriven services service
    → find run_id w ≡ some r
    → is_paused_for PauseReason.hr_approval r ≡ true
    → pauses_again
        (service.invoke
          (approval_input first.approver first.remark)
          r.thread_id
          (running_world r w)).0
      ≡ false
    → let w' = (route service hex (Request.approve run_id first) w).1 in
      (r' : Run) × (route service hex (Request.approve run_id second) w'
        ≡ (ok (conflict (not_paused_for r' PauseReason.hr_approval)), w'))
unfolding route is_instance
route-approve_twice services service hex run_id first second w r sound driven found waiting once =
    let steady =
      driven_keeps Steady-Footing services sound service driven
        (approval_input first.approver first.remark) r.thread_id in
    let (r', refused) =
      approve_twice service run_id first.approver first.remark w r found waiting second.approver
        second.remark steady once in
    (r', twice r' refused)
  where
    twice :
        (r' : Run)
        → approve service run_id second.approver second.remark
            (approve service run_id first.approver first.remark w).1
          ≡ (
            err (not_paused_for r' PauseReason.hr_approval),
            (approve service run_id first.approver first.remark w).1,
          )
        → route service hex
            (Request.approve run_id second)
            (route service hex (Request.approve run_id first) w).1
          ≡ (
            ok (conflict (not_paused_for r' PauseReason.hr_approval)),
            (route service hex (Request.approve run_id first) w).1,
          )
    twice r' refused =
        rw (answer-state 200 Body.run (approve service run_id first.approver first.remark) w)
          (answer_refused 200 Body.run _ _ _ _ refused refl refl)
