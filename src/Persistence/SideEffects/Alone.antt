-- ===== src/Persistence/SideEffects/Alone.antt =====
-- The operations of SideEffectRepository and the tables of the other repositories.
use offboarding_orchestrator.Prelude.{
  List, String, Bool, true, false, ◌≡◌, refl, ◌∙◌, Option, none, some,
}
use offboarding_orchestrator.Domain.Json.{Fields}
use offboarding_orchestrator.Domain.Errors.{Exc}
use offboarding_orchestrator.Domain.Models.{SideEffectRecord, EffectState}
use offboarding_orchestrator.World.{Db, modify_db}
use offboarding_orchestrator.World.Keeps.{
  Keeps, IsPreorder, Keeps-bind, Keeps-pure, Keeps-raise, Keeps-reraise, Keeps-gets, Keeps-if,
  Keeps-now, Keeps-try_except,
}
use offboarding_orchestrator.Persistence.SideEffects.{
  get, insert_effect, not_reserved, try_reserve, completion_time, assert_found, update_effect,
  set_state,
}

-- Nothing but the ledger's rows has changed.
pub record EffectsOnly (a b : Db) : Type 0 where
  pub runs : a.runs ≡ b.runs
  pub attempts : a.step_trace ≡ b.step_trace
  pub applied : a.provider_effects ≡ b.provider_effects

EffectsOnly-preorder : IsPreorder EffectsOnly
EffectsOnly-preorder = record {
  stay = λ a. record { runs = refl; attempts = refl; applied = refl };
  chain = λ a b c h k. record {
    runs = h.runs ∙ k.runs;
    attempts = h.attempts ∙ k.attempts;
    applied = h.applied ∙ k.applied;
  };
}

effects-EffectsOnly :
    (f : Db → List SideEffectRecord)
    → Keeps EffectsOnly (modify_db (λ db. record db { side_effects = f db }))
effects-EffectsOnly f = record { at = λ w. record { runs = refl; attempts = refl; applied = refl } }

ruleset effect_rules = (
  Keeps-bind, Keeps-now, Keeps-gets, Keeps-raise, Keeps-reraise, Keeps-pure, Keeps-if,
  Keeps-try_except, EffectsOnly-preorder, effects-EffectsOnly,
)

pub get-EffectsOnly : (key : String) → Keeps EffectsOnly (get key)
unfolding get
get-EffectsOnly key = search effect_rules

pub insert_effect-EffectsOnly : (new : SideEffectRecord) → Keeps EffectsOnly (insert_effect new)
unfolding insert_effect
insert_effect-EffectsOnly new = search effect_rules

not_reserved-EffectsOnly : (e : Exc) → Keeps EffectsOnly (not_reserved e)
unfolding not_reserved
not_reserved-EffectsOnly e = search effect_rules

pub try_reserve-EffectsOnly :
    (key run_id step_name tool_name : String)
    → Keeps EffectsOnly (try_reserve key run_id step_name tool_name)
unfolding try_reserve
try_reserve-EffectsOnly key run_id step_name tool_name =
    search (effect_rules, not_reserved-EffectsOnly, insert_effect-EffectsOnly, get-EffectsOnly)
      depth 9

completion_time-EffectsOnly : (b : Bool) → Keeps EffectsOnly (completion_time b)
unfolding completion_time
completion_time-EffectsOnly true = search effect_rules
completion_time-EffectsOnly false = search effect_rules

assert_found-EffectsOnly : (o : Option SideEffectRecord) → Keeps EffectsOnly (assert_found o)
unfolding assert_found
assert_found-EffectsOnly none = search effect_rules
assert_found-EffectsOnly (some r) = search effect_rules

update_effect-EffectsOnly :
    (key : String) (f : SideEffectRecord → SideEffectRecord)
    → Keeps EffectsOnly (update_effect key f)
unfolding update_effect
update_effect-EffectsOnly key f = search effect_rules

pub set_state-EffectsOnly :
    (key : String) (state : EffectState) (result : Option Fields)
    → Keeps EffectsOnly (set_state key state result)
unfolding set_state
set_state-EffectsOnly key state result =
    search
      (
        effect_rules, completion_time-EffectsOnly, assert_found-EffectsOnly,
        update_effect-EffectsOnly, get-EffectsOnly,
      )
      depth 9
