-- ===== src/World.antt =====
-- The state that the program reads and writes, and the calls on it. `Db` is the part of the SQLite
-- file that the program's own tables take (persistence/db.py); a table is its rows, newest first.
-- `readings` are those of `datetime.now`. `iam_failures` and `document_failures` are the
-- fields of the two tool objects that change. `others` is what other processes insert in the
-- ledger's table while this one stands between its read and its insert, a list for each such time.
pub mod Keeps
pub mod Gives
use package.text.Mathlib.Text.{◌==◌ as str_eq}
use offboarding_orchestrator.Prelude.{ℕ, suc, List, String, Bool, ◌&&◌, if◌then◌else◌}
use offboarding_orchestrator.Domain.JsonText.{Members}
use offboarding_orchestrator.Domain.Errors.{ErrorClass, exception, Exc, Message, is_instance}
use offboarding_orchestrator.Domain.Result.{Result, ok, err}
use offboarding_orchestrator.Domain.Models.{Run, StepAttempt, SideEffectRecord}

-- A row of provider_effects.
pub record ProviderEffect : Type 0 where
  pub provider : String
  pub idempotency_key : String
  pub payload : Members

-- WHERE provider = ? AND idempotency_key = ?
abbrev pub is_effect : String → String → ProviderEffect → Bool
is_effect provider key r = str_eq r.provider provider && str_eq r.idempotency_key key

pub record Db : Type 0 where
  pub runs : List Run
  pub step_trace : List StepAttempt
  -- The AUTOINCREMENT counter of step_trace.
  pub step_trace_seq : ℕ
  pub side_effects : List SideEffectRecord
  pub provider_effects : List ProviderEffect

pub record World : Type 0 where
  pub db : Db
  pub readings : ℕ → ℕ
  -- isoformat of a reading
  pub isoformat : ℕ → String
  pub reads : ℕ
  pub iam_failures : ℕ
  pub document_failures : ℕ
  pub others : List (List SideEffectRecord)

-- A call returns or raises, and what it wrote before a raise stays written.
abbrev pub Call : Type 0 → Type 0
Call A = World → Result A × World

module _ {A : Type 0} where
  abbrev pub pure : A → Call A
  pure a w = (ok a, w)

  abbrev pub raise : ErrorClass → Message → Call A
  raise c m w = (err (record { class = c; message = m }), w)

  abbrev pub reraise : Exc → Call A
  reraise e w = (err e, w)

  abbrev pub lift : Result A → Call A
  lift r w = (r, w)

  abbrev pub gets : (World → A) → Call A
  gets f w = (ok (f w), w)

module _ {A B : Type 0} where
  abbrev pub continue : (A → Call B) → Result A → Call B
  continue f (ok a) w = f a w
  continue f (err e) w = (err e, w)

  infixl 5 ◌>>=◌ ◌>>◌
  abbrev pub ◌>>=◌ : Call A → (A → Call B) → Call B
  ◌>>=◌ m f w = continue f (m w).0 (m w).1

  abbrev pub ◌>>◌ : Call A → Call B → Call B
  m >> k = m >>= λ _. k

module _ {A : Type 0} where
  -- try: m, except: h
  abbrev pub handled : (Exc → Call A) → Result A → Call A
  handled h (ok a) w = (ok a, w)
  handled h (err e) w = h e w

  abbrev pub try_except : Call A → (Exc → Call A) → Call A
  try_except m h w = handled h (m w).0 (m w).1

-- Go on from what `m` returned or raised.
abbrev pub with_result : {A B : Type 0} → Call A → (Result A → Call B) → Call B
with_result m k w = k (m w).0 (m w).1

abbrev pub modify_db : (Db → Db) → Call (Unit {0})
modify_db f w = (ok tt, record w { db = f w.db })

-- persistence/base.py: the time, as every table stores it
unfoldable pub now : Call ℕ
now w = (ok (w.readings w.reads), record w { reads = suc w.reads })

-- `except Exception: rollback; raise`, `else: commit`
abbrev pub end_transaction : {A : Type 0} → Db → Result A → Call A
end_transaction before (ok a) w = (ok a, w)
end_transaction before (err e) w =
    (err e, if is_instance e.class exception then record w { db = before } else w)

-- persistence/base.py: a block under BEGIN IMMEDIATE
unfoldable pub immediate : {A : Type 0} → Call A → Call A
immediate block w = end_transaction w.db (block w).0 (block w).1
