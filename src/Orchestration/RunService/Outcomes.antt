-- ===== src/Orchestration/RunService/Outcomes.antt =====
-- RunService._advance, by the outcome of the graph.
use offboarding_orchestrator.Prelude.{
  String, true, ◌≡◌, refl, ◌∙◌, sym, Option, none, some, List, [], ◌∷◌, coalesce, Later, Later-refl,
  Later-trans, select_one,
}
use offboarding_orchestrator.Domain.RunStatus.{RunStatus}
use offboarding_orchestrator.Domain.PauseReason
use offboarding_orchestrator.Domain.PauseReason.{PauseReason}
use offboarding_orchestrator.Domain.FailureReason.{FailureReason}
use offboarding_orchestrator.Domain.Json.{
  Value, null, bool, num, str, scalar, list, tuple, dict, Fields, get_field,
}
use offboarding_orchestrator.Domain.Errors.{ErrorClass, Exc, Message, is_instance}
use offboarding_orchestrator.Domain.Result.{Result, ok, err}
use offboarding_orchestrator.Domain.Run.{may_move}
use offboarding_orchestrator.Domain.Models.{Run}
use offboarding_orchestrator.World.{Db, World, Call, pure, reraise, ◌>>=◌}
use offboarding_orchestrator.World.Keeps.{Keeps, IsPreorder}
use offboarding_orchestrator.Persistence.Runs.{has_run_id, set_status}
use offboarding_orchestrator.Persistence.Runs.Status.{
  find, moved, find-moved_world_self, set_status_legal,
}
use offboarding_orchestrator.Orchestration.RunService.{
  Graph, Input, fail, parse_reason, valid_reason, land, reconcile, advance,
}

-- What an exception of the graph makes of the run.
pub data Ending : Type 0 where
  stays_running is_cancelled : Ending
  fails_as : FailureReason → Ending

abbrev pub ending_of : ErrorClass → Ending
ending_of ErrorClass.run_cancelled = Ending.is_cancelled
ending_of ErrorClass.approval_rejected = Ending.fails_as FailureReason.approval_rejected
ending_of ErrorClass.budget_exceeded = Ending.fails_as FailureReason.budget_exceeded
ending_of ErrorClass.tool_not_allowed = Ending.fails_as FailureReason.tool_not_allowed
ending_of ErrorClass.invalid_plan = Ending.fails_as FailureReason.invalid_plan
ending_of ErrorClass.reconciliation_required = Ending.fails_as FailureReason.needs_reconciliation
ending_of ErrorClass.tool_error = Ending.fails_as FailureReason.tool_failed
ending_of ErrorClass.transient_tool_error = Ending.fails_as FailureReason.tool_failed
ending_of ErrorClass.permanent_tool_error = Ending.fails_as FailureReason.tool_failed
ending_of _ = Ending.stays_running

-- The calls that write each ending.
abbrev write_ending : Run → Ending → Exc → Call (Unit {0})
write_ending run Ending.stays_running e = reraise e
write_ending run Ending.is_cancelled e =
    set_status run.run_id RunStatus.cancelled none none none >>= λ _. pure tt
write_ending run (Ending.fails_as reason) e = fail run reason e

reconcile_lem :
    (run : Run) (c : ErrorClass) (m : Message) (w : World)
    → reconcile run (err (record { class = c; message = m })) w
      ≡ write_ending run (ending_of c) (record { class = c; message = m }) w
unfolding reconcile is_instance
reconcile_lem run ErrorClass.run_cancelled m w = refl
reconcile_lem run ErrorClass.approval_rejected m w = refl
reconcile_lem run ErrorClass.budget_exceeded m w = refl
reconcile_lem run ErrorClass.tool_not_allowed m w = refl
reconcile_lem run ErrorClass.invalid_plan m w = refl
reconcile_lem run ErrorClass.reconciliation_required m w = refl
reconcile_lem run ErrorClass.tool_error m w = refl
reconcile_lem run ErrorClass.transient_tool_error m w = refl
reconcile_lem run ErrorClass.permanent_tool_error m w = refl
reconcile_lem run ErrorClass.orchestrator_error m w = refl
reconcile_lem run ErrorClass.invalid_state_transition m w = refl
reconcile_lem run ErrorClass.run_not_found m w = refl
reconcile_lem run ErrorClass.invalid_run_operation m w = refl
reconcile_lem run ErrorClass.value_error m w = refl
reconcile_lem run ErrorClass.key_error m w = refl
reconcile_lem run ErrorClass.type_error m w = refl
reconcile_lem run ErrorClass.integrity_error m w = refl
reconcile_lem run ErrorClass.recursion_error m w = refl
reconcile_lem run ErrorClass.exception m w = refl
reconcile_lem run ErrorClass.base_exception m w = refl

-- What the graph leaves of a run's row: its nodes set no status.
pub record SameStatus (a b : Run) : Type 0 where
  pub status : a.status ≡ b.status
  pub pause : a.pause_reason ≡ b.pause_reason
  pub failure : a.failure_reason ≡ b.failure_reason

pub record Steady (a b : Db) : Type 0 where
  pub rows :
      (k : String)
      → Later SameStatus (select_one (has_run_id k) a.runs) (select_one (has_run_id k) b.runs)

SameStatus-refl : (a : Run) → SameStatus a a
SameStatus-refl a = record { status = refl; pause = refl; failure = refl }

pub Steady-preorder : IsPreorder Steady
Steady-preorder = record {
  stay = λ a. record {
    rows = λ k. Later-refl SameStatus SameStatus-refl (select_one (has_run_id k) a.runs);
  };
  chain = λ a b c h k. record {
    rows = λ j.
        Later-trans SameStatus
          (λ x y z e f. record {
            status = e.status ∙ f.status;
            pause = e.pause ∙ f.pause;
            failure = e.failure ∙ f.failure;
          })
          _ _ _ (h.rows j) (k.rows j);
  };
}

-- The call returned, and the run's row has the status and the reasons.
pub record IsAt (run_id : String) (s : RunStatus) (p : Option PauseReason)
    (f : Option FailureReason) (x : Result (Unit {0}) × World) : Type 0 where
  pub returned : x.0 ≡ ok tt
  pub row : Run
  pub found : find run_id x.1 ≡ some row
  pub status : row.status ≡ s
  pub pause : row.pause_reason ≡ p
  pub failure : row.failure_reason ≡ f

-- The call raised, and the run is still RUNNING.
pub record IsStuck (run_id : String) (x : Result (Unit {0}) × World) : Type 0 where
  pub exc : Exc
  pub raised : x.0 ≡ err exc
  pub row : Run
  pub found : find run_id x.1 ≡ some row
  pub status : row.status ≡ RunStatus.running

-- The pause reason that a payload names.
abbrev pub reason_in : Option Value → Option PauseReason
reason_in (some (str s)) = PauseReason.parse s
reason_in _ = none

module _ (run_id : String) (old : Option FailureReason) (x : Result (Unit {0}) × World) where
  abbrev pub FollowsException : Ending → Type 0
  FollowsException Ending.stays_running = IsStuck run_id x
  FollowsException Ending.is_cancelled = IsAt run_id RunStatus.cancelled none old x
  FollowsException (Ending.fails_as f) = IsAt run_id RunStatus.failed none (some f) x

  abbrev pub FollowsPause : Option PauseReason → Type 0
  FollowsPause none = IsStuck run_id x
  FollowsPause (some p) = IsAt run_id RunStatus.paused (some p) old x

  -- What `_advance` owes for each outcome of the graph.
  abbrev pub Follows : Result (List Fields) → Type 0
  Follows (err e) = FollowsException (ending_of e.class)
  Follows (ok []) = IsAt run_id RunStatus.completed none old x
  Follows (ok (payload ∷ rest)) = FollowsPause (reason_in (get_field "pause_reason" payload))

module _ (run : Run) (w : World) (r : Run) (found : find run.run_id w ≡ some r)
    (running : r.status ≡ RunStatus.running) where
  set_status-IsAt :
      (s : RunStatus) (p : Option PauseReason) (f : Option FailureReason) (d : Option Message)
      → may_move RunStatus.running s ≡ true
      → IsAt run.run_id s p
          (coalesce f r.failure_reason)
          ((set_status run.run_id s p f d >>= λ _. pure tt) w)
  set_status-IsAt s p f d legal =
      let go : may_move r.status s ≡ true = rw running legal in
      rw (set_status_legal run.run_id s p f d w r found go) (record {
        returned = refl;
        row = moved run.run_id s p f d w r;
        found = find-moved_world_self run.run_id s p f d w found;
        status = refl;
        pause = refl;
        failure = refl;
      })

  here-IsStuck : (e : Exc) → IsStuck run.run_id (err e, w)
  here-IsStuck e = record { exc = e; raised = refl; row = r; found = found; status = running }

  write_ending-Follows :
      (k : Ending) (e : Exc)
      → FollowsException run.run_id r.failure_reason (write_ending run k e w) k
  unfolding fail
  write_ending-Follows Ending.stays_running e = here-IsStuck e
  write_ending-Follows Ending.is_cancelled e =
      set_status-IsAt RunStatus.cancelled none none none refl
  write_ending-Follows (Ending.fails_as reason) e =
      set_status-IsAt RunStatus.failed none (some reason) (some e.message) refl

  reason-Follows :
      (o : Option PauseReason)
      → FollowsPause run.run_id r.failure_reason
          ((valid_reason o >>= λ p.
              set_status run.run_id RunStatus.paused (some p) none none >>= λ _. pure tt)
            w)
          o
  unfolding valid_reason
  reason-Follows none = here-IsStuck _
  reason-Follows (some p) = set_status-IsAt RunStatus.paused (some p) none none refl

  payload-Follows :
      (v : Option Value)
      → FollowsPause run.run_id r.failure_reason
          ((parse_reason v >>= λ p.
              set_status run.run_id RunStatus.paused (some p) none none >>= λ _. pure tt)
            w)
          (reason_in v)
  unfolding parse_reason valid_reason
  payload-Follows none = here-IsStuck _
  payload-Follows (some (str s)) = reason-Follows (PauseReason.parse s)
  payload-Follows (some null) = here-IsStuck _
  payload-Follows (some (bool b)) = here-IsStuck _
  payload-Follows (some (num n)) = here-IsStuck _
  payload-Follows (some (scalar s)) = here-IsStuck _
  payload-Follows (some (list xs)) = here-IsStuck _
  payload-Follows (some (tuple xs)) = here-IsStuck _
  payload-Follows (some (dict fs)) = here-IsStuck _

  reconcile-Follows :
      (o : Result (List Fields)) → Follows run.run_id r.failure_reason (reconcile run o w) o
  unfolding reconcile land
  reconcile-Follows (err e) =
      rw (reconcile_lem run e.class e.message w) (write_ending-Follows (ending_of e.class) e)
  reconcile-Follows (ok []) = set_status-IsAt RunStatus.completed none none none refl
  reconcile-Follows (ok (payload ∷ rest)) = payload-Follows (get_field "pause_reason" payload)

-- The row that a steady call leaves.
row-Steady :
    (run_id : String) (r : Run) (a b : Db)
    → Steady a b
    → select_one (has_run_id run_id) a.runs ≡ some r
    → (r' : Run) × (select_one (has_run_id run_id) b.runs ≡ some r') × SameStatus r r'
row-Steady run_id r a b h found =
    go (select_one (has_run_id run_id) b.runs) (rw (← found) (h.rows run_id))
  where
    go :
        (o : Option Run)
        → Later SameStatus (some r) o
        → (r' : Run) × (o ≡ some r') × SameStatus r r'
    go none k = elim k [ ]
    go (some r') k = (r', refl, k)

-- For a running run and a graph that leaves each run's status and reasons alone, what _advance
-- makes of each outcome: COMPLETED for a return without an interrupt; PAUSED with the payload's
-- reason for one with an interrupt; CANCELLED for RunCancelled; FAILED with the reason that the
-- exception class determines for each of the tool, approval and reconciliation errors; and for
-- every other exception, or a payload that names no pause reason, an exception with the run still
-- RUNNING.
pub advance-Follows :
    (graph : Graph) (run : Run) (input : Input) (w : World) (r : Run)
    → Keeps Steady (graph.invoke input run.thread_id)
    → find run.run_id w ≡ some r
    → r.status ≡ RunStatus.running
    → Follows run.run_id r.failure_reason
        (advance graph run input w)
        (graph.invoke input run.thread_id w).0
unfolding advance
advance-Follows graph run input w r steady found running =
    let m = graph.invoke input run.thread_id w in
    let (r', found', same) = row-Steady run.run_id r w.db m.1.db (steady.at w) found in
    rw same.failure (reconcile-Follows run m.1 r' found' (sym same.status ∙ running) m.0)
