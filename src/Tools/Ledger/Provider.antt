-- ===== src/Tools/Ledger/Provider.antt =====
-- The calls that the ledger makes of a tool, and the tables.
use offboarding_orchestrator.Prelude.{
  String, ◌≡◌, refl, sym, ap, inl, inr, Option, none, some, any, Bool-cases, is_some, select_one,
}
use offboarding_orchestrator.Domain.Json.{Fields, get_field}
use offboarding_orchestrator.Domain.Errors.{Exc}
use offboarding_orchestrator.World.{World, Call}
use offboarding_orchestrator.World.Keeps.{
  Keeps, Keeps-bind, Keeps-pure, Keeps-raise, Keeps-reraise, Keeps-if, Keeps-try_except,
}
use offboarding_orchestrator.Persistence.Runs.{has_run_id}
use offboarding_orchestrator.Persistence.SideEffects.{has_key}
use offboarding_orchestrator.Persistence.SideEffects.Rows.{row}
use offboarding_orchestrator.Tools.Base.{Tool}
use offboarding_orchestrator.Tools.Isolation.{Isolated, IsIsolated, Isolated-preorder}
use offboarding_orchestrator.Tools.Ledger.{call_with_key, ask_provider, query, unanswered}

ruleset isolated_rules = (
  Keeps-bind, Keeps-pure, Keeps-raise, Keeps-reraise, Keeps-if, Keeps-try_except, Isolated-preorder,
)

unanswered_Isolated : (e : Exc) → Keeps Isolated (unanswered e)
unfolding unanswered
unanswered_Isolated e = search isolated_rules

query_Isolated :
    (o : Option (String → Call (Option Fields))) (key : String)
    → ((f : String → Call (Option Fields)) → o ≡ some f → Keeps Isolated (f key))
    → Keeps Isolated (query o key)
unfolding query
query_Isolated none key h = search isolated_rules
query_Isolated (some f) key h =
    Keeps-try_except Isolated-preorder (f key) unanswered (h f refl) unanswered_Isolated

module _ {tool : Tool} (isolated : IsIsolated tool) where
  pub ask_provider_Isolated : (key : String) → Keeps Isolated (ask_provider tool key)
  unfolding ask_provider
  ask_provider_Isolated key = query_Isolated tool.lookup key (λ f e. isolated.lookup f key e)

  pub call_with_key_Isolated :
      (kwargs : Fields) (key : String) → Keeps Isolated (call_with_key tool kwargs key)
  unfolding call_with_key
  call_with_key_Isolated kwargs key =
      elim (Bool-cases (is_some (get_field "idempotency_key" kwargs))) [
        | inl twice ↦ rw twice (Keeps-raise Isolated-preorder _ _)
        | inr once ↦ rw once (isolated.call _)
      ]

-- What an isolated call does not change.
pub row_of_Isolated : (key : String) (a b : World) → Isolated a.db b.db → row key b ≡ row key a
row_of_Isolated key a b h = ap (λ rows. select_one (has_key key) rows) (sym h.effects)

pub known_of_Isolated :
    (run_id : String) (a b : World)
    → Isolated a.db b.db
    → any (has_run_id run_id) b.db.runs ≡ any (has_run_id run_id) a.db.runs
known_of_Isolated run_id a b h = ap (λ rows. any (has_run_id run_id) rows) (sym h.runs)
