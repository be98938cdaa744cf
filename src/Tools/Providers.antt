-- ===== src/Tools/Providers.antt =====
-- offboarding/tools/providers.py: what a provider has applied, by idempotency key.
use offboarding_orchestrator.Prelude.{
  ℕ, String, Option, none, some, ◌∷◌, any, length, select, select_one, if◌then◌else◌,
}
use package.text.Mathlib.Text.{◌==◌ as str_eq}
use offboarding_orchestrator.Domain.Json.{Fields}
use offboarding_orchestrator.Domain.JsonText.{dumps, loads}
use offboarding_orchestrator.World.{
  ProviderEffect, is_effect, Call, pure, gets, modify_db, ◌>>=◌, now,
}

abbrev pub payload_of : Option ProviderEffect → Option Fields
payload_of none = none
payload_of (some r) = some (loads r.payload)

-- INSERT OR IGNORE, with PRIMARY KEY (provider, idempotency_key); the time is read and not modelled
-- as a column, since nothing reads it.
unfoldable pub record_effect : String → String → Fields → Call (Unit {0})
record_effect provider key payload = do
  ts ← now
  modify_db (λ db. record db {
    provider_effects =
        if any (is_effect provider key) db.provider_effects
        then db.provider_effects
        else record { provider = provider; idempotency_key = key; payload = dumps payload }
          ∷ db.provider_effects;
  })

unfoldable pub lookup : String → String → Call (Option Fields)
lookup provider key =
    gets (λ w. payload_of (select_one (is_effect provider key) w.db.provider_effects))

unfoldable pub count : String → Call ℕ
count provider = gets (λ w. length (select (λ r. str_eq r.provider provider) w.db.provider_effects))

-- if existing is not None: return existing
unfoldable pub unless_applied : Call Fields → Option Fields → Call Fields
unless_applied otherwise none = otherwise
unless_applied otherwise (some existing) = pure existing
