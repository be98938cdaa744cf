-- ===== src/World/Gives.antt =====
-- What holds of the value of every call that returns: one rule for each way to build a call.
use offboarding_orchestrator.Prelude.{Bool, true, false, if◌then◌else◌}
use offboarding_orchestrator.Domain.Errors.{ErrorClass, Exc, Message}
use offboarding_orchestrator.Domain.Result.{Result, ok, err}
use offboarding_orchestrator.World.{
  Db, World, Call, pure, raise, reraise, continue, with_result, ◌>>=◌,
}
use offboarding_orchestrator.World.Keeps.{Keeps, IsPreorder}

abbrev pub Holds : {A : Type 0} → (A → Type 0) → Result A → Type 0
Holds P (ok a) = P a
Holds P (err e) = Unit

pub record Gives {A : Type 0} (P : A → Type 0) (m : Call A) : Type 0 where
  pub at : (w : World) → Holds P (m w).0

module _ {A : Type 0} {P : A → Type 0} where
  pub Gives-pure : (a : A) → P a → Gives P (pure a)
  Gives-pure a h = record { at = λ w. h }

  pub Gives-raise : (c : ErrorClass) (m : Message) → Gives P (raise c m)
  Gives-raise c m = record { at = λ w. tt }

  pub Gives-reraise : (e : Exc) → Gives P (reraise e)
  Gives-reraise e = record { at = λ w. tt }

  pub Gives-if : (b : Bool) (m k : Call A) → Gives P m → Gives P k → Gives P (if b then m else k)
  Gives-if true m k h j = h
  Gives-if false m k h j = j

  -- Nothing is asked of the value.
  pub Gives-any : (m : Call A) → ((a : A) → P a) → Gives P m
  Gives-any m h = record { at = λ w. go (m w).0 }
    where
      go : (r : Result A) → Holds P r
      go (ok a) = h a
      go (err e) = tt

module _ {A B : Type 0} {P : B → Type 0} where
  continue-Gives :
      (f : A → Call B)
      → ((a : A) → Gives P (f a))
      → (r : Result A) (w : World) → Holds P (continue f r w).0
  continue-Gives f h (ok a) w = (h a).at w
  continue-Gives f h (err e) w = tt

  pub Gives-bind : (m : Call A) (f : A → Call B) → ((a : A) → Gives P (f a)) → Gives P (m >>= f)
  Gives-bind m f h = record { at = λ w. continue-Gives f h (m w).0 (m w).1 }

  -- The same, with what holds of the first value.
  pub Gives-bind_with :
      (Q : A → Type 0) (m : Call A) (f : A → Call B)
      → Gives Q m
      → ((a : A) → Q a → Gives P (f a))
      → Gives P (m >>= f)
  Gives-bind_with Q m f h k = record { at = λ w. go (m w).0 (m w).1 (h.at w) }
    where
      go : (r : Result A) (w : World) → Holds Q r → Holds P (continue f r w).0
      go (ok a) w q = (k a q).at w
      go (err e) w q = tt

  pub Gives-with_result :
      (m : Call A) (k : Result A → Call B)
      → ((r : Result A) → Gives P (k r))
      → Gives P (with_result m k)
  Gives-with_result m k h = record { at = λ w. (h (m w).0).at (m w).1 }

module _ {R : Db → Db → Type 0} (o : IsPreorder R) {A B : Type 0} (Q : A → Type 0) where
  -- A relation that the second call keeps for the values that the first one gives.
  pub Keeps-bind_with :
      (m : Call A) (f : A → Call B)
      → Gives Q m
      → Keeps R m
      → ((a : A) → Q a → Keeps R (f a))
      → Keeps R (m >>= f)
  Keeps-bind_with m f gives keeps k = record {
    at = λ w. o.chain w.db _ _ (keeps.at w) (go (m w).0 (m w).1 (gives.at w));
  }
    where
      go : (r : Result A) (w : World) → Holds Q r → R w.db (continue f r w).1.db
      go (ok a) w q = (k a q).at w
      go (err e) w q = o.stay w.db

  pub Keeps-with_result_given :
      (m : Call A) (k : Result A → Call B)
      → Gives Q m
      → Keeps R m
      → ((r : Result A) → Holds Q r → Keeps R (k r))
      → Keeps R (with_result m k)
  Keeps-with_result_given m k gives keeps h = record {
    at = λ w. o.chain w.db _ _ (keeps.at w) ((h (m w).0 (gives.at w)).at (m w).1);
  }
