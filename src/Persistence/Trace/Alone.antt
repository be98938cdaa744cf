-- ===== src/Persistence/Trace/Alone.antt =====
-- The operations of TraceRepository and the tables of the other repositories.
use offboarding_orchestrator.Prelude.{ℕ, String, ◌≡◌, refl, ◌∙◌, Option, none, some, List}
use offboarding_orchestrator.Domain.Json.{Fields}
use offboarding_orchestrator.Domain.Errors.{Message}
use offboarding_orchestrator.Domain.Models.{StepAttempt}
use offboarding_orchestrator.World.{Db, modify_db}
use offboarding_orchestrator.World.Keeps.{
  Keeps, IsPreorder, Keeps-bind, Keeps-pure, Keeps-raise, Keeps-reraise, Keeps-lift, Keeps-gets,
  Keeps-if, Keeps-now, Keeps-immediate,
}
use offboarding_orchestrator.Persistence.Trace
use offboarding_orchestrator.Persistence.Trace.{
  Closing, closed, has_id, next_attempt, insert_attempt, open_attempt, start_attempt, close_attempt,
  fail_attempt, latest_for_step,
}
use offboarding_orchestrator.Persistence.Trace.Attempts.{get_attempt-state}

-- Nothing but the trace has changed.
pub record TraceOnly (a b : Db) : Type 0 where
  pub runs : a.runs ≡ b.runs
  pub effects : a.side_effects ≡ b.side_effects
  pub applied : a.provider_effects ≡ b.provider_effects

pub TraceOnly-preorder : IsPreorder TraceOnly
TraceOnly-preorder = record {
  stay = λ a. record { runs = refl; effects = refl; applied = refl };
  chain = λ a b c h k. record {
    runs = h.runs ∙ k.runs;
    effects = h.effects ∙ k.effects;
    applied = h.applied ∙ k.applied;
  };
}

trace_rows-TraceOnly :
    (f : Db → List StepAttempt) (g : Db → ℕ)
    → Keeps TraceOnly (modify_db (λ db. record db { step_trace = f db; step_trace_seq = g db }))
trace_rows-TraceOnly f g = record {
  at = λ w. record { runs = refl; effects = refl; applied = refl };
}

closed_rows-TraceOnly :
    (f : Db → List StepAttempt)
    → Keeps TraceOnly (modify_db (λ db. record db { step_trace = f db }))
closed_rows-TraceOnly f = record {
  at = λ w. record { runs = refl; effects = refl; applied = refl };
}

ruleset trace_rules = (
  Keeps-bind, Keeps-pure, Keeps-raise, Keeps-reraise, Keeps-lift, Keeps-gets, Keeps-if, Keeps-now,
  Keeps-immediate, TraceOnly-preorder, trace_rows-TraceOnly, closed_rows-TraceOnly,
)

get-TraceOnly : (id : ℕ) → Keeps TraceOnly (Trace.get id)
get-TraceOnly id = record { at = λ w. rw (get_attempt-state id w) (TraceOnly-preorder.stay w.db) }

next_attempt-TraceOnly : (o : Option StepAttempt) → Keeps TraceOnly (next_attempt o)
unfolding next_attempt
next_attempt-TraceOnly none = search trace_rules
next_attempt-TraceOnly (some r) = search trace_rules

insert_attempt-TraceOnly :
    (run_id : String) (new : ℕ → StepAttempt) → Keeps TraceOnly (insert_attempt run_id new)
unfolding insert_attempt
insert_attempt-TraceOnly run_id new = search trace_rules depth 9

open_attempt-TraceOnly :
    (run_id step_name : String) (tool : Option String)
    → Keeps TraceOnly (open_attempt run_id step_name tool)
unfolding open_attempt latest_for_step
open_attempt-TraceOnly run_id step_name tool =
    search (trace_rules, next_attempt-TraceOnly, insert_attempt-TraceOnly) depth 9

pub start_attempt-TraceOnly :
    (run_id step_name : String) (tool : Option String)
    → Keeps TraceOnly (start_attempt run_id step_name tool)
unfolding start_attempt
start_attempt-TraceOnly run_id step_name tool =
    search (trace_rules, open_attempt-TraceOnly, get-TraceOnly)

pub close_attempt-TraceOnly : (id : ℕ) (c : Closing) → Keeps TraceOnly (close_attempt id c)
unfolding close_attempt
close_attempt-TraceOnly id c = search (trace_rules, get-TraceOnly) depth 9

pub fail_attempt-TraceOnly :
    (id : ℕ) (error_type : String) (m : Message) (detail : Option Fields)
    → Keeps TraceOnly (fail_attempt id error_type m detail)
unfolding fail_attempt
fail_attempt-TraceOnly id error_type m detail = close_attempt-TraceOnly id _
