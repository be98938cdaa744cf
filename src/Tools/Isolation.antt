-- ===== src/Tools/Isolation.antt =====
-- What the program may rely on of a tool: it touches no table but the providers' own, and a
-- provider forgets nothing that it has applied (persistence/db.py, provider_effects).
use offboarding_orchestrator.Prelude.{
  String, ◌≡◌, refl, ◌∙◌, Option, some, Later, Later-refl, Later-trans, select_one,
}
use offboarding_orchestrator.Domain.Json.{Fields}
use offboarding_orchestrator.World.{Db, Call, is_effect}
use offboarding_orchestrator.World.Keeps.{Keeps, IsPreorder}
use offboarding_orchestrator.Persistence.History.{PayloadLater}
use offboarding_orchestrator.Tools.Base.{Tool}

pub record Isolated (a b : Db) : Type 0 where
  pub runs : a.runs ≡ b.runs
  pub attempts : a.step_trace ≡ b.step_trace
  pub seq : a.step_trace_seq ≡ b.step_trace_seq
  pub effects : a.side_effects ≡ b.side_effects
  pub applied :
      (p k : String)
      → Later PayloadLater
          (select_one (is_effect p k) a.provider_effects)
          (select_one (is_effect p k) b.provider_effects)

pub record IsIsolated (tool : Tool) : Type 0 where
  pub call : (kwargs : Fields) → Keeps Isolated (tool.call kwargs)
  pub lookup :
      (f : String → Call (Option Fields)) (key : String)
      → tool.lookup ≡ some f
      → Keeps Isolated (f key)

pub Isolated-refl : (a : Db) → Isolated a a
Isolated-refl a = record {
  runs = refl;
  attempts = refl;
  seq = refl;
  effects = refl;
  applied =
      λ p k. Later-refl PayloadLater (λ r. refl) (select_one (is_effect p k) a.provider_effects);
}

pub Isolated-preorder : IsPreorder Isolated
Isolated-preorder = record {
  stay = Isolated-refl;
  chain = λ a b c h k. record {
    runs = h.runs ∙ k.runs;
    attempts = h.attempts ∙ k.attempts;
    seq = h.seq ∙ k.seq;
    effects = h.effects ∙ k.effects;
    applied =
        λ p j. Later-trans PayloadLater (λ x y z e f. e ∙ f) _ _ _ (h.applied p j) (k.applied p j);
  };
}
