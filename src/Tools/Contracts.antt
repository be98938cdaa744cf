-- ===== src/Tools/Contracts.antt =====
-- The four tools of the program and the contract of Tools/Isolation.
use offboarding_orchestrator.Prelude.{
  String, Bool, false, ◌≡◌, refl, Option, none, some, inl, inr, any, select_one, Later,
  insert-Later, select_one_sound, select_one-not_any, arith, eq_iff, Bool-cases, List, ◌∷◌,
}
use mathlib.Core.Path.{subst}
use offboarding_orchestrator.Domain.Json.{Value, null, str, list, dict, Fields, get_field}
use offboarding_orchestrator.Domain.JsonText.{dumps}
use offboarding_orchestrator.World.{Db, Call, ProviderEffect, is_effect, now}
use offboarding_orchestrator.World.Keeps.{
  Keeps, Keeps-bind, Keeps-pure, Keeps-raise, Keeps-reraise, Keeps-if, Keeps-gets,
}
use offboarding_orchestrator.Persistence.History.{PayloadLater}
use offboarding_orchestrator.Tools.Arguments.{check_names, argument, to_list, len, or_type_error}
use offboarding_orchestrator.Tools.Providers
use offboarding_orchestrator.Tools.Providers.{unless_applied, record_effect}
use offboarding_orchestrator.Tools.Iam
use offboarding_orchestrator.Tools.Documents
use offboarding_orchestrator.Tools.HrDirectory
use offboarding_orchestrator.Tools.Isolation.{
  Isolated, IsIsolated, Isolated-refl, Isolated-preorder,
}

-- A change of the providers' table alone, which loses nothing.
providers_Isolated :
    (a : Db) (rows : List ProviderEffect)
    → ((p k : String)
        → Later PayloadLater
            (select_one (is_effect p k) a.provider_effects)
            (select_one (is_effect p k) rows))
    → Isolated a (record a { provider_effects = rows })
providers_Isolated a rows h = record {
  runs = refl;
  attempts = refl;
  seq = refl;
  effects = refl;
  applied = h;
}

unused_effect :
    (new : ProviderEffect) (p k : String) (a : ProviderEffect) (rows : List ProviderEffect)
    → select_one (is_effect p k) rows ≡ some a
    → any (is_effect new.provider new.idempotency_key) rows ≡ false
    → is_effect p k new ≡ false
unused_effect new p k a rows found fresh = ground (
  arith,
  select_one_sound (is_effect p k) rows found,
  select_one-not_any (is_effect p k) (is_effect new.provider new.idempotency_key) rows found fresh,
  eq_iff a.provider p,
  eq_iff a.provider new.provider,
  eq_iff new.provider p,
  eq_iff a.idempotency_key k,
  eq_iff a.idempotency_key new.idempotency_key,
  eq_iff new.idempotency_key k,
)

record_effect_Isolated :
    (provider key : String) (payload : Fields) → Keeps Isolated (record_effect provider key payload)
unfolding record_effect now
record_effect_Isolated provider key payload = record {
  at = λ w. elim (Bool-cases (any (is_effect provider key) w.db.provider_effects)) [
    | inl old ↦ rw old (Isolated-refl w.db)
    | inr new ↦ rw new (
        providers_Isolated w.db (_ ∷ w.db.provider_effects) λ p k.
          insert-Later PayloadLater (λ r. refl) (is_effect p k)
            (record { provider = provider; idempotency_key = key; payload = dumps payload })
            w.db.provider_effects
            (λ a found.
              unused_effect
                (record { provider = provider; idempotency_key = key; payload = dumps payload }) p k
                a w.db.provider_effects found new))
  ];
}

lookup_Isolated : (provider key : String) → Keeps Isolated (Providers.lookup provider key)
unfolding Providers.lookup
lookup_Isolated provider key = Keeps-gets Isolated-preorder _

ruleset tool_rules = (
  Keeps-bind, Keeps-pure, Keeps-raise, Keeps-reraise, Keeps-if, Keeps-gets, Isolated-preorder,
  record_effect_Isolated, lookup_Isolated,
)

check_names_Isolated :
    (names : List String) (kwargs : Fields) → Keeps Isolated (check_names names kwargs)
unfolding check_names
check_names_Isolated names kwargs = search tool_rules

or_type_error_Isolated : (o : Option Value) → Keeps Isolated (or_type_error o)
unfolding or_type_error
or_type_error_Isolated none = search tool_rules
or_type_error_Isolated (some v) = search tool_rules

argument_Isolated : (name : String) (kwargs : Fields) → Keeps Isolated (argument name kwargs)
unfolding argument
argument_Isolated name kwargs = or_type_error_Isolated (get_field name kwargs)

pub to_list_Isolated : (v : Value) → Keeps Isolated (to_list v)
unfolding to_list
to_list_Isolated null = search tool_rules
to_list_Isolated _ = search tool_rules

pub len_Isolated : (v : Value) → Keeps Isolated (len v)
unfolding len
len_Isolated v = search (tool_rules, to_list_Isolated)

unless_applied_Isolated :
    (m : Call Fields) (o : Option Fields) → Keeps Isolated m → Keeps Isolated (unless_applied m o)
unfolding unless_applied
unless_applied_Isolated m none h = h
unless_applied_Isolated m (some r) h = search tool_rules

ruleset argument_rules = (
  tool_rules, check_names_Isolated, argument_Isolated, to_list_Isolated, len_Isolated,
  unless_applied_Isolated,
)

fail_once_Isolated : Keeps Isolated Iam.fail_once
unfolding Iam.fail_once
fail_once_Isolated = record { at = λ w. Isolated-refl w.db }

time_out_once_Isolated : Keeps Isolated Documents.time_out_once
unfolding Documents.time_out_once
time_out_once_Isolated = record { at = λ w. Isolated-refl w.db }

apply_revocation_Isolated :
    (crash : Bool) (e s : Value) (key : String)
    → Keeps Isolated (Iam.apply_revocation crash e s key)
unfolding Iam.apply_revocation
apply_revocation_Isolated crash e s key = search argument_rules depth 9

revoke_Isolated :
    (permanently crash : Bool) (e s : Value) (key : String)
    → Keeps Isolated (Iam.revoke permanently crash e s key)
unfolding Iam.revoke
revoke_Isolated permanently crash e s key =
    search (argument_rules, fail_once_Isolated, apply_revocation_Isolated) depth 9

iam_call_Isolated :
    (permanently crash : Bool) (kwargs : Fields)
    → Keeps Isolated (Iam.call permanently crash kwargs)
unfolding Iam.call
iam_call_Isolated permanently crash kwargs = search (argument_rules, revoke_Isolated) depth 15

apply_send_Isolated :
    (e m c : Value) (key : String) → Keeps Isolated (Documents.apply_send e m c key)
unfolding Documents.apply_send
apply_send_Isolated e m c key = search argument_rules depth 9

send_Isolated : (e m c : Value) (key : String) → Keeps Isolated (Documents.send e m c key)
unfolding Documents.send
send_Isolated e m c key =
    search (argument_rules, time_out_once_Isolated, apply_send_Isolated) depth 9

send_call_Isolated : (kwargs : Fields) → Keeps Isolated (Documents.send_call kwargs)
unfolding Documents.send_call
send_call_Isolated kwargs = search (argument_rules, send_Isolated) depth 15

archive_Isolated : (e s : Value) (key : String) → Keeps Isolated (Documents.archive e s key)
unfolding Documents.archive
archive_Isolated e s key = search argument_rules depth 9

archive_call_Isolated : (kwargs : Fields) → Keeps Isolated (Documents.archive_call kwargs)
unfolding Documents.archive_call
archive_call_Isolated kwargs = search (argument_rules, archive_Isolated) depth 15

or_no_record_Isolated :
    (v : Value) (o : Option Value) → Keeps Isolated (HrDirectory.or_no_record v o)
unfolding HrDirectory.or_no_record
or_no_record_Isolated v (some (dict fs)) = search tool_rules
or_no_record_Isolated v (some _) = search tool_rules
or_no_record_Isolated v none = search tool_rules

find_record_Isolated : (v : Value) → Keeps Isolated (HrDirectory.find_record v)
unfolding HrDirectory.find_record
find_record_Isolated (str id) = or_no_record_Isolated (str id) _
find_record_Isolated (list xs) = search tool_rules
find_record_Isolated (dict fs) = search tool_rules
find_record_Isolated other = or_no_record_Isolated other none

hr_call_Isolated : (kwargs : Fields) → Keeps Isolated (HrDirectory.call kwargs)
unfolding HrDirectory.call
hr_call_Isolated kwargs = search (argument_rules, find_record_Isolated) depth 9

the_lookup_Isolated :
    (provider : String) (f : String → Call (Option Fields)) (key : String)
    → some (Providers.lookup provider) ≡ some f
    → Keeps Isolated (f key)
the_lookup_Isolated provider f key e =
    let same : Providers.lookup provider ≡ f = cc in
    subst (λ (g : String → Call (Option Fields)). Keeps Isolated (g key)) same
      (lookup_Isolated provider key)

pub iam_tool-IsIsolated : (permanently crash : Bool) → IsIsolated (Iam.iam_tool permanently crash)
unfolding Iam.iam_tool
iam_tool-IsIsolated permanently crash = record {
  call = iam_call_Isolated permanently crash;
  lookup = the_lookup_Isolated "iam";
}

pub send_exit_paperwork_tool-IsIsolated : IsIsolated Documents.send_exit_paperwork_tool
unfolding Documents.send_exit_paperwork_tool
send_exit_paperwork_tool-IsIsolated = record {
  call = send_call_Isolated;
  lookup = the_lookup_Isolated "documents";
}

pub archive_record_tool-IsIsolated : IsIsolated Documents.archive_record_tool
unfolding Documents.archive_record_tool
archive_record_tool-IsIsolated = record {
  call = archive_call_Isolated;
  lookup = the_lookup_Isolated "archive";
}

pub hr_directory_tool-IsIsolated : IsIsolated HrDirectory.hr_directory_tool
unfolding HrDirectory.hr_directory_tool
hr_directory_tool-IsIsolated = record { call = hr_call_Isolated; lookup = λ f key e. absurd (cc) }
