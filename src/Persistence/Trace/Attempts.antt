-- ===== src/Persistence/Trace/Attempts.antt =====
-- TraceRepository.start_attempt and _close_attempt, on every branch.
use offboarding_orchestrator.Prelude.{
  ℕ, suc, String, Bool, true, false, ◌≡◌, refl, Option, none, some, ◌∷◌, any, select, select_one,
  update, select_one-update, select_one_sound, ◌+◌, ==-refl, ◌⊎◌, inl, inr, Bool-cases,
}
use offboarding_orchestrator.Domain.StepStatus
use offboarding_orchestrator.Domain.Errors.{
  is_instance, integrity_error, invalid_state_transition, plain,
}
use offboarding_orchestrator.Domain.Result.{Result, ok, err}
use offboarding_orchestrator.Domain.Run.{transition_step, may_follow, illegal_step_transition}
use offboarding_orchestrator.Domain.Models.{StepAttempt}
use offboarding_orchestrator.World.{World, now, immediate}
use offboarding_orchestrator.Persistence.Runs.{has_run_id}
use offboarding_orchestrator.Persistence.Trace.{
  is_at_step, has_id, highest, or_missing, no_attempt, get, next_attempt, opened, open_attempt,
  start_attempt, Closing, closed, close_attempt,
}

abbrev pub find_attempt : ℕ → World → Option StepAttempt
find_attempt id w = select_one (has_id id) w.db.step_trace

abbrev pub latest : String → String → World → Option StepAttempt
latest run_id step_name w = highest (select (is_at_step run_id step_name) w.db.step_trace)

-- The number that the next attempt gets.
abbrev pub next_number : Option StepAttempt → ℕ
next_number none = 1
next_number (some r) = r.attempt + 1

-- Whether the last attempt lets another one start.
abbrev pub may_start : Option StepAttempt → Bool
may_start none = true
may_start (some r) = may_follow r.status StepStatus.running

-- Reading an attempt writes nothing.
pub get_attempt-state : (id : ℕ) (w : World) → (get id w).1 ≡ w
unfolding get
get_attempt-state id w = go (find_attempt id w)
  where
    go : (o : Option StepAttempt) → (or_missing id o w).1 ≡ w
    go none = refl
    go (some r) = refl

module _ (id : ℕ) (c : Closing) (w : World) where
  abbrev pub closed_world : World
  closed_world = record w {
    db = record w.db {
      step_trace = update (has_id id) (closed c (w.readings w.reads)) w.db.step_trace;
    };
    reads = suc w.reads;
  }

  pub close_attempt_missing :
      find_attempt id w ≡ none → close_attempt id c w ≡ (err (no_attempt id), w)
  unfolding close_attempt immediate get is_instance
  close_attempt_missing e = rw e refl

  pub close_attempt_illegal :
      (r : StepAttempt)
      → find_attempt id w ≡ some r
      → may_follow r.status c.target ≡ false
      → close_attempt id c w ≡ (err (illegal_step_transition r.status c.target), w)
  unfolding close_attempt immediate get transition_step is_instance
  close_attempt_illegal r found illegal = rw (found, illegal) refl

  pub find-closed_world :
      {r : StepAttempt}
      → find_attempt id w ≡ some r
      → find_attempt id closed_world ≡ some (closed c (w.readings w.reads) r)
  find-closed_world {r} e =
      rw
        (
          select_one-update (has_id id) (has_id id) (closed c (w.readings w.reads)) w.db.step_trace
              (λ a. refl),
          e,
          select_one_sound (has_id id) w.db.step_trace e,
        )
        refl

  pub close_attempt_legal :
      (r : StepAttempt)
      → find_attempt id w ≡ some r
      → may_follow r.status c.target ≡ true
      → close_attempt id c w ≡ (ok (closed c (w.readings w.reads) r), closed_world)
  unfolding close_attempt immediate get transition_step now is_instance
  close_attempt_legal r found legal = rw (found, legal, find-closed_world found) refl

pub next_attempt_legal :
    (o : Option StepAttempt) (w : World)
    → may_start o ≡ true
    → next_attempt o w ≡ (ok (next_number o), w)
unfolding next_attempt transition_step
next_attempt_legal none w h = refl
next_attempt_legal (some r) w h = rw h refl

pub next_attempt_illegal :
    (r : StepAttempt) (w : World)
    → may_start (some r) ≡ false
    → next_attempt (some r) w ≡ (err (illegal_step_transition r.status StepStatus.running), w)
unfolding next_attempt transition_step
next_attempt_illegal r w h = rw h refl

module _ (run_id step_name : String) (tool : Option String) (w : World) where
  -- The row that a start adds.
  abbrev pub started : StepAttempt
  started =
      opened run_id step_name tool (next_number (latest run_id step_name w)) (w.readings w.reads)
        (suc w.db.step_trace_seq)

  abbrev pub started_world : World
  started_world = record w {
    db = record w.db {
      step_trace = started ∷ w.db.step_trace;
      step_trace_seq = suc w.db.step_trace_seq;
    };
    reads = suc w.reads;
  }

  find-started_world : find_attempt (suc w.db.step_trace_seq) started_world ≡ some started
  find-started_world = rw (==-refl (suc w.db.step_trace_seq)) refl

  open_attempt_legal :
      any (has_run_id run_id) w.db.runs ≡ true
      → may_start (latest run_id step_name w) ≡ true
      → open_attempt run_id step_name tool w ≡ (ok (suc w.db.step_trace_seq), started_world)
  unfolding open_attempt now
  open_attempt_legal known legal =
      rw (next_attempt_legal (latest run_id step_name w) w legal, known) refl

  -- For a run that exists and a step whose last attempt may be followed by RUNNING (or that has
  -- none): start_attempt adds one row with the next number and the next id, status RUNNING, and
  -- returns it.
  pub start_attempt_legal :
      any (has_run_id run_id) w.db.runs ≡ true
      → may_start (latest run_id step_name w) ≡ true
      → start_attempt run_id step_name tool w ≡ (ok started, started_world)
  unfolding start_attempt immediate get
  start_attempt_legal known legal = rw (open_attempt_legal known legal, find-started_world) refl

  -- A step whose last attempt may not be followed is not started, and nothing is written.
  pub start_attempt_illegal :
      (r : StepAttempt)
      → latest run_id step_name w ≡ some r
      → may_start (some r) ≡ false
      → start_attempt run_id step_name tool w
        ≡ (err (illegal_step_transition r.status StepStatus.running), w)
  unfolding start_attempt immediate is_instance
  start_attempt_illegal r e h = rw (e, next_attempt_illegal r w h) refl

  -- An attempt of a run that does not exist is refused by the foreign key, and no row is written.
  pub start_attempt_unknown :
      any (has_run_id run_id) w.db.runs ≡ false
      → may_start (latest run_id step_name w) ≡ true
      → start_attempt run_id step_name tool w ≡ (
        err (record { class = integrity_error; message = plain "FOREIGN KEY constraint failed" }),
        record w { reads = suc w.reads },
      )
  unfolding start_attempt immediate is_instance now
  start_attempt_unknown known legal =
      rw (next_attempt_legal (latest run_id step_name w) w legal, known) refl

-- What start_attempt is to do, from what it returns or raises and the worlds before and after.
abbrev pub Starts : String → String → Option String → World → Result StepAttempt × World → Type 0
Starts run_id step_name tool w (ok a, w') =
    (any (has_run_id run_id) w.db.runs ≡ true)
    × (may_start (latest run_id step_name w) ≡ true)
    × (a.run_id ≡ run_id)
    × (a.step_name ≡ step_name)
    × (a.attempt ≡ next_number (latest run_id step_name w))
    × (a.status ≡ StepStatus.running)
    × (a.tool_invoked ≡ tool)
    × (a.ended_at ≡ none)
    × (a.id ≡ suc w.db.step_trace_seq)
    × (w'.db ≡ record w.db { step_trace = a ∷ w.db.step_trace; step_trace_seq = a.id })
Starts run_id step_name tool w (err e, w') =
    (w'.db ≡ w.db)
    × (((may_start (latest run_id step_name w) ≡ false) × (e.class ≡ invalid_state_transition))
        ⊎ ((any (has_run_id run_id) w.db.runs ≡ false) × (e.class ≡ integrity_error)))

module _ (run_id step_name : String) (tool : Option String) (w : World) where
  illegal-Starts :
      (o : Option StepAttempt)
      → latest run_id step_name w ≡ o
      → may_start o ≡ false
      → Starts run_id step_name tool w (start_attempt run_id step_name tool w)
  illegal-Starts none e h = absurd (cc)
  illegal-Starts (some r) e h =
      rw (start_attempt_illegal run_id step_name tool w r e h, e) (refl, inl (h, refl))

  -- When start_attempt returns an attempt, the run exists and the last attempt at the step may be
  -- followed by RUNNING (or there is none), and the attempt is of that run, step and tool, RUNNING
  -- and not ended, with the next number and the next id, and is the one row that is added; when it
  -- raises, no table has changed, and either the last attempt may not be followed and the class is
  -- InvalidStateTransition, or the run does not exist and the class is IntegrityError.
  pub start_attempt-Starts : Starts run_id step_name tool w (start_attempt run_id step_name tool w)
  start_attempt-Starts = elim (Bool-cases (may_start (latest run_id step_name w))) [
    | inr illegal ↦ illegal-Starts (latest run_id step_name w) refl illegal
    | inl legal ↦ elim (Bool-cases (any (has_run_id run_id) w.db.runs)) [
      | inl known ↦
          rw (start_attempt_legal run_id step_name tool w known legal)
            (known, legal, refl, refl, refl, refl, refl, refl, refl, refl)
      | inr unknown ↦
          rw (start_attempt_unknown run_id step_name tool w unknown legal)
            (refl, inr (unknown, refl))
    ]
  ]
