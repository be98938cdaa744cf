-- ===== src/Clients/Agreement.antt =====
-- The command line and the HTTP interface, on the same request.
use offboarding_orchestrator.Prelude.{String, true, ◌≡◌, refl, inl, inr, Option, Bool-cases, List}
use offboarding_orchestrator.Domain.Errors.{Exc, run_not_found, invalid_run_operation, is_instance}
use offboarding_orchestrator.Domain.Models.{Run}
use offboarding_orchestrator.Domain.Result.{Result, ok, err}
use offboarding_orchestrator.World.{World, Call, pure, lift, try_except, ◌>>=◌}
use offboarding_orchestrator.Orchestration.Nodes.{Services}
use offboarding_orchestrator.Orchestration.Services.{Wiring, build_services}
use offboarding_orchestrator.Orchestration.RunService.{Graph}
use offboarding_orchestrator.Clients.Api.{
  Request, Response, Body, answer, handle, route, respond, get_service,
}
use offboarding_orchestrator.Clients.Printing.{run_lines}
use offboarding_orchestrator.Clients.Cli.{Command, Exit, fail, refused, finish, command, execute}

-- A change of a run that exists.
pub data Change : Type 0 where
  approves rejects signs : String → String → Option String → Change
  resumes cancels : String → Change

abbrev pub as_request : Change → Request
as_request (approves run_id approver remark) =
    Request.approve run_id (record { approver = approver; remark = remark })
as_request (rejects run_id approver remark) =
    Request.reject run_id (record { approver = approver; remark = remark })
as_request (signs run_id document_id signed_at) =
    Request.sign run_id (record { document_id = document_id; signed_at = signed_at })
as_request (resumes run_id) = Request.resume run_id
as_request (cancels run_id) = Request.cancel run_id

abbrev pub as_command : Change → Command
as_command (approves run_id approver remark) = Command.approve run_id approver remark
as_command (rejects run_id approver remark) = Command.reject run_id approver remark
as_command (signs run_id document_id signed_at) = Command.sign run_id document_id signed_at
as_command (resumes run_id) = Command.resume run_id
as_command (cancels run_id) = Command.cancel run_id

-- 200 and exit code 0 with the same run, or 404 or 409 and exit code 1, or the same exception.
pub data Agree : Result Response → Result Exit → Type 0 where
  done :
      (run : Run)
      → Agree
          (ok (record { status_code = 200; content = Body.run run }))
          (ok (record { printed = run_lines run; errors = List.[]; code = 0 }))
  missing :
      (e : Exc)
      → is_instance e.class run_not_found ≡ true
      → Agree (ok (record { status_code = 404; content = Body.detail e.message })) (ok (fail e))
  conflicts :
      (e : Exc)
      → is_instance e.class invalid_run_operation ≡ true
      → Agree (ok (record { status_code = 409; content = Body.detail e.message })) (ok (fail e))
  raises : (e : Exc) → Agree (err e) (err e)

-- What both clients make of an outcome of the service.
abbrev answered : Result Run → Call Response
answered (ok run) = pure (record { status_code = 200; content = Body.run run })
answered (err e) = handle e

outcome-Agree :
    (r : Result Run) (w : World)
    → Agree (answered r w).0 (finish refused run_lines r w).0
      × ((answered r w).1 ≡ (finish refused run_lines r w).1)
unfolding handle finish
outcome-Agree (ok run) w = (done run, refl)
outcome-Agree (err e) w = elim (Bool-cases (is_instance e.class run_not_found)) [
  | inl absent ↦ rw absent (missing e absent, refl)
  | inr present ↦ elim (Bool-cases (is_instance e.class invalid_run_operation)) [
    | inl invalid ↦ rw (present, invalid) (conflicts e invalid, refl)
    | inr other ↦ rw (present, other) (raises e, refl)
  ]
]

answer_lem :
    (call : Call Run) (w : World) → answer 200 Body.run call w ≡ answered (call w).0 (call w).1
unfolding answer
answer_lem call w = go (call w).0 (call w).1
  where
    go :
        (r : Result Run) (w' : World)
        → try_except
            (λ v. (do a ← lift r; pure (record { status_code = 200; content = Body.run a })) v)
            handle
            w'
          ≡ answered r w'
    go (ok run) w' = refl
    go (err e) w' = refl

module _ (x : Wiring) (compile : Services → Graph) (hex : String) (services : Services)
    (w w' : World) (built : build_services x w ≡ (ok services, w')) where
  call-Agree :
      (call : Graph → Call Run)
      → Agree
          (answer 200 Body.run (call (compile services)) w').0
          (command x compile refused run_lines call w).0
        × ((answer 200 Body.run (call (compile services)) w').1
            ≡ (command x compile refused run_lines call w).1)
  unfolding command
  call-Agree call =
      rw (built, answer_lem (call (compile services)) w')
        (outcome-Agree (call (compile services) w').0 (call (compile services) w').1)

  route-Agree :
      (change : Change)
      → Agree
          (route (compile services) hex (as_request change) w').0
          (execute x compile hex (as_command change) w).0
        × ((route (compile services) hex (as_request change) w').1
            ≡ (execute x compile hex (as_command change) w).1)
  unfolding route execute
  route-Agree (approves run_id approver remark) = call-Agree _
  route-Agree (rejects run_id approver remark) = call-Agree _
  route-Agree (signs run_id document_id signed_at) = call-Agree _
  route-Agree (resumes run_id) = call-Agree _
  route-Agree (cancels run_id) = call-Agree _

-- For services that could be built: an approval, a rejection, a signature, a resumption or a
-- cancellation, made as a command and as the first request to a server, leaves the same state, and
-- ends alike: status 200 and exit code 0 with the same run, 404 or 409 and exit code 1 for the
-- same RunNotFound or InvalidRunOperation, or the same exception.
pub respond-Agree :
    (x : Wiring) (compile : Services → Graph) (hex : String) (change : Change) (services : Services)
    (w w' : World)
    → build_services x w ≡ (ok services, w')
    → Agree
        (respond x compile Option.none hex (as_request change) w).0
        (execute x compile hex (as_command change) w).0
      × ((respond x compile Option.none hex (as_request change) w).1
          ≡ (execute x compile hex (as_command change) w).1)
unfolding respond get_service
respond-Agree x compile hex change services w w' built =
    rw built (route-Agree x compile hex services w w' built change)
