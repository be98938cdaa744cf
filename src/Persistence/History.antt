-- ===== src/Persistence/History.antt =====
-- When a database is valid, and when one is later than another: it has every row of the other, in a
-- state that the row's state machine allows.
pub mod Numbering
pub mod Runs
pub mod Trace
pub mod SideEffects
pub mod Lifecycle
use Numbering.{IsNumbered}
use package.text.Mathlib.Text.{◌==◌ as str_eq}
use offboarding_orchestrator.Prelude.{
  ℕ, suc, ◌≤◌, String, Bool, true, false, ◌⊎◌, inl, inr, Option, Bool-cases, ◌&&◌, ◌≡◌, refl, ◌∙◌,
  List, [], ◌∷◌, All, length, select, select_one, Later, Later-refl, Later-trans, arith,
}
use offboarding_orchestrator.Domain.JsonText.{Members}
use offboarding_orchestrator.Domain.RunStatus.{RunStatus}
use offboarding_orchestrator.Domain.StepStatus.{StepStatus}
use offboarding_orchestrator.Domain.Run.{may_move, may_follow}
use offboarding_orchestrator.Domain.Models.{Run, StepAttempt, SideEffectRecord}
use offboarding_orchestrator.World.{Db, ProviderEffect, is_effect}
use offboarding_orchestrator.World.Keeps.{IsPreorder}
use offboarding_orchestrator.Persistence.Runs.{has_run_id}
use offboarding_orchestrator.Persistence.SideEffects.{has_key}
use offboarding_orchestrator.Persistence.SideEffects.Rows.{is_completed}
use offboarding_orchestrator.Persistence.Trace.{has_id, is_at_step}

-- Zero or more moves along the table of run transitions.
pub data RunPath (a : RunStatus) : RunStatus → Type 0 where
  at_start : RunPath a a
  move : {b : RunStatus} → RunPath a b → (c : RunStatus) → may_move b c ≡ true → RunPath a c

-- The same for the attempts at a step.
pub data StepPath (a : StepStatus) : StepStatus → Type 0 where
  at_start : StepPath a a
  move : {b : StepStatus} → StepPath a b → (c : StepStatus) → may_follow b c ≡ true → StepPath a c

pub record RunLater (a b : Run) : Type 0 where
  pub thread : a.thread_id ≡ b.thread_id
  pub employee : a.employee_id ≡ b.employee_id
  pub created : a.created_at ≡ b.created_at
  pub step_limit : a.max_steps ≡ b.max_steps
  pub call_limit : a.max_tool_calls ≡ b.max_tool_calls
  pub steps : a.step_count ≤ b.step_count
  pub calls : a.tool_call_count ≤ b.tool_call_count
  -- A flag that was set stays set.
  pub cancel : (a.cancel_requested ≡ false) ⊎ (b.cancel_requested ≡ true)
  pub status : RunPath a.status b.status

pub record StepLater (a b : StepAttempt) : Type 0 where
  pub run : a.run_id ≡ b.run_id
  pub step : a.step_name ≡ b.step_name
  pub number : a.attempt ≡ b.attempt
  pub started : a.started_at ≡ b.started_at
  pub status : StepPath a.status b.status

pub record EffectLater (a b : SideEffectRecord) : Type 0 where
  pub run : a.run_id ≡ b.run_id
  pub step : a.step_name ≡ b.step_name
  pub tool : a.tool_name ≡ b.tool_name
  pub created : a.created_at ≡ b.created_at
  -- A completed row stays completed, with its result.
  pub settled :
      (is_completed a.state ≡ false) ⊎ ((is_completed b.state ≡ true) × (a.result ≡ b.result))

abbrev pub PayloadLater : ProviderEffect → ProviderEffect → Type 0
PayloadLater a b = a.payload ≡ b.payload

-- Every row of `a` is in `b`, in a later state.
pub record Extends (a b : Db) : Type 0 where
  pub runs :
      (k : String)
      → Later RunLater (select_one (has_run_id k) a.runs) (select_one (has_run_id k) b.runs)
  pub attempts :
      (i : ℕ)
      → Later StepLater (select_one (has_id i) a.step_trace) (select_one (has_id i) b.step_trace)
  pub effects :
      (k : String)
      → Later EffectLater
          (select_one (has_key k) a.side_effects)
          (select_one (has_key k) b.side_effects)
  pub applied :
      (p k : String)
      → Later PayloadLater
          (select_one (is_effect p k) a.provider_effects)
          (select_one (is_effect p k) b.provider_effects)

pub record IsValid (db : Db) : Type 0 where
  pub counted : All (λ (r : StepAttempt). r.id ≤ db.step_trace_seq) db.step_trace
  pub numbered : IsNumbered db.step_trace

-- From a valid database to a valid one that extends it.
pub record History (a b : Db) : Type 0 where
  pub after : IsValid a → IsValid b × Extends a b

RunPath-trans : {a b c : RunStatus} → RunPath a b → RunPath b c → RunPath a c
RunPath-trans h at_start = h
RunPath-trans h (move k c legal) = move (RunPath-trans h k) c legal

StepPath-trans : {a b c : StepStatus} → StepPath a b → StepPath b c → StepPath a c
StepPath-trans h at_start = h
StepPath-trans h (move k c legal) = move (StepPath-trans h k) c legal

pub kept_flag : (b : Bool) → (b ≡ false) ⊎ (b ≡ true)
kept_flag true = inr refl
kept_flag false = inl refl

flag_on :
    (b c : Run)
    → b.cancel_requested ≡ true
    → (b.cancel_requested ≡ false) ⊎ (c.cancel_requested ≡ true)
    → c.cancel_requested ≡ true
flag_on b c flagged (inl unset) = absurd (ground (arith, flagged, unset))
flag_on b c flagged (inr later) = later

pub RunLater-refl : (a : Run) → RunLater a a
RunLater-refl a = record {
  thread = refl;
  employee = refl;
  created = refl;
  step_limit = refl;
  call_limit = refl;
  steps = omega arith;
  calls = omega arith;
  cancel = kept_flag a.cancel_requested;
  status = RunPath.at_start;
}

RunLater-trans : (a b c : Run) → RunLater a b → RunLater b c → RunLater a c
RunLater-trans a b c h k = record {
  thread = h.thread ∙ k.thread;
  employee = h.employee ∙ k.employee;
  created = h.created ∙ k.created;
  step_limit = h.step_limit ∙ k.step_limit;
  call_limit = h.call_limit ∙ k.call_limit;
  steps = omega (arith, h.steps, k.steps);
  calls = omega (arith, h.calls, k.calls);
  cancel = elim h.cancel [
    | inl unset ↦ inl unset
    | inr flagged ↦ inr (flag_on b c flagged k.cancel)
  ];
  status = RunPath-trans h.status k.status;
}

pub StepLater-refl : (a : StepAttempt) → StepLater a a
StepLater-refl a = record {
  run = refl;
  step = refl;
  number = refl;
  started = refl;
  status = StepPath.at_start;
}

StepLater-trans : (a b c : StepAttempt) → StepLater a b → StepLater b c → StepLater a c
StepLater-trans a b c h k = record {
  run = h.run ∙ k.run;
  step = h.step ∙ k.step;
  number = h.number ∙ k.number;
  started = h.started ∙ k.started;
  status = StepPath-trans h.status k.status;
}

settled_on :
    {o : Option Members} (b c : SideEffectRecord)
    → is_completed b.state ≡ true
    → o ≡ b.result
    → (is_completed b.state ≡ false) ⊎ ((is_completed c.state ≡ true) × (b.result ≡ c.result))
    → (is_completed c.state ≡ true) × (o ≡ c.result)
settled_on b c done same (inl is_open) = absurd (ground (arith, done, is_open))
settled_on b c done same (inr (done', same')) = (done', same ∙ same')

pub EffectLater-refl : (a : SideEffectRecord) → EffectLater a a
EffectLater-refl a = record {
  run = refl;
  step = refl;
  tool = refl;
  created = refl;
  settled = elim (Bool-cases (is_completed a.state)) [
    | inl done ↦ inr (done, refl)
    | inr is_open ↦ inl is_open
  ];
}

EffectLater-trans : (a b c : SideEffectRecord) → EffectLater a b → EffectLater b c → EffectLater a c
EffectLater-trans a b c h k = record {
  run = h.run ∙ k.run;
  step = h.step ∙ k.step;
  tool = h.tool ∙ k.tool;
  created = h.created ∙ k.created;
  settled = elim h.settled [
    | inl is_open ↦ inl is_open
    | inr (done, same) ↦ inr (settled_on b c done same k.settled)
  ];
}

pub Extends-refl : (a : Db) → Extends a a
Extends-refl a = record {
  runs = λ k. Later-refl RunLater RunLater-refl (select_one (has_run_id k) a.runs);
  attempts = λ i. Later-refl StepLater StepLater-refl (select_one (has_id i) a.step_trace);
  effects = λ k. Later-refl EffectLater EffectLater-refl (select_one (has_key k) a.side_effects);
  applied =
      λ p k. Later-refl PayloadLater (λ r. refl) (select_one (is_effect p k) a.provider_effects);
}

Extends-trans : (a b c : Db) → Extends a b → Extends b c → Extends a c
Extends-trans a b c h j = record {
  runs = λ k. Later-trans RunLater RunLater-trans _ _ _ (h.runs k) (j.runs k);
  attempts = λ i. Later-trans StepLater StepLater-trans _ _ _ (h.attempts i) (j.attempts i);
  effects = λ k. Later-trans EffectLater EffectLater-trans _ _ _ (h.effects k) (j.effects k);
  applied =
      λ p k. Later-trans PayloadLater (λ x y z e f. e ∙ f) _ _ _ (h.applied p k) (j.applied p k);
}

pub History-refl : (a : Db) → History a a
History-refl a = record { after = λ v. (v, Extends-refl a) }

pub History-preorder : IsPreorder History
History-preorder = record {
  stay = History-refl;
  chain = λ a b c h k. record {
    after = λ v.
        let (v', e) = h.after v in let (v'', e') = k.after v' in (v'', Extends-trans a b c e e');
  };
}
