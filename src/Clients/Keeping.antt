-- ===== src/Clients/Keeping.antt =====
-- The commands, the requests and a relation between databases.
use offboarding_orchestrator.Prelude.{or_else, ℕ, String, Bool, Option, none, some, List}
use offboarding_orchestrator.Domain.Result.{Result, ok, err}
use offboarding_orchestrator.World.{Db, Call}
use offboarding_orchestrator.World.Keeps.{
  IsPreorder, Keeps, Keeps-bind, Keeps-pure, Keeps-raise, Keeps-reraise, Keeps-lift, Keeps-gets,
  Keeps-if, Keeps-with_result, Keeps-try_except,
}
use offboarding_orchestrator.Domain.Errors.{Exc}
use offboarding_orchestrator.Persistence.Runs
use offboarding_orchestrator.Persistence.Runs.Status.{get-state}
use offboarding_orchestrator.Persistence.Trace
use offboarding_orchestrator.Persistence.SideEffects
use offboarding_orchestrator.Llm.Provider.{LlmProvider}
use offboarding_orchestrator.Llm.Gemini.{new_gemini, with_key}
use offboarding_orchestrator.Llm.Factory.{build_llm}
use offboarding_orchestrator.Orchestration.Services.{
  fail_times, Wiring, set_failures, or_build, wired, build_services,
}
use offboarding_orchestrator.Orchestration.RunService.{Graph, Input, get_trace, get_side_effects}
use offboarding_orchestrator.Orchestration.RunService.Keeping.{
  starts, approves, rejects, submits, resumes, cancels, ServiceFooting, perform_keeps,
}
use offboarding_orchestrator.Clients.Api.{Request, Body, answer, handle, route}
use offboarding_orchestrator.Clients.Printing.{Line}
use offboarding_orchestrator.Tools.Base.{ToolRegistry}
use offboarding_orchestrator.Clients.Cli.{finish}

module _ {R : Db → Db → Type 0} (foot : ServiceFooting R) where
  pub get_keeps : (run_id : String) → Keeps R (Runs.get run_id)
  get_keeps run_id = record { at = λ w. rw (get-state run_id w) (foot.order.stay w.db) }

  pub list_runs_keeps : (limit : ℕ) → Keeps R (Runs.list_runs limit)
  unfolding Runs.list_runs
  list_runs_keeps limit = Keeps-gets foot.order _

  pub get_trace_keeps : (run_id : String) → Keeps R (get_trace run_id)
  unfolding get_trace Trace.list_for_run
  get_trace_keeps run_id = Keeps-bind foot.order _ _ (get_keeps run_id) λ r. Keeps-gets foot.order _

  pub get_side_effects_keeps : (run_id : String) → Keeps R (get_side_effects run_id)
  unfolding get_side_effects SideEffects.list_for_run
  get_side_effects_keeps run_id =
      Keeps-bind foot.order _ _ (get_keeps run_id) λ r. Keeps-gets foot.order _

  order : IsPreorder R
  order = foot.order

  ruleset client_rules = (
    Keeps-bind, Keeps-pure, Keeps-raise, Keeps-reraise, Keeps-lift, Keeps-if, Keeps-with_result,
    Keeps-try_except, order, get_keeps, list_runs_keeps, get_trace_keeps, get_side_effects_keeps,
  )

  set_failures_keeps : (n : ℕ) → Keeps R (set_failures n)
  set_failures_keeps n = record { at = λ w. foot.order.stay w.db }

  with_key_keeps : (model : String) (o : Option String) → Keeps R (with_key model o)
  unfolding with_key
  with_key_keeps model none = search client_rules
  with_key_keeps model (some key) = search client_rules

  new_gemini_keeps :
      (x : Wiring) (model key : Option String) → Keeps R (new_gemini x.genai x.getenv model key)
  unfolding new_gemini
  new_gemini_keeps x model key = search (client_rules, with_key_keeps)

  build_llm_keeps :
      (x : Wiring) (provider : Option String)
      → Keeps R (build_llm x.format x.genai x.getenv provider)
  unfolding build_llm
  build_llm_keeps x provider = search (client_rules, new_gemini_keeps)

  or_build_keeps : (x : Wiring) (o : Option LlmProvider) → Keeps R (or_build x o)
  unfolding or_build
  or_build_keeps x none = build_llm_keeps x none
  or_build_keeps x (some llm) = search client_rules

  wired_keeps : (x : Wiring) (registry : ToolRegistry) → Keeps R (wired x registry)
  unfolding wired
  wired_keeps x registry = search (client_rules, or_build_keeps)

  fail_times_keeps : (x : Wiring) → Keeps R (fail_times x)
  unfolding fail_times
  fail_times_keeps x = search client_rules

  pub build_services_keeps : (x : Wiring) → Keeps R (build_services x)
  unfolding build_services
  build_services_keeps x =
      search (client_rules, fail_times_keeps, set_failures_keeps, wired_keeps) depth 7

  handle_keeps : (e : Exc) → Keeps R (handle e)
  unfolding handle
  handle_keeps e = search client_rules

  answer_keeps :
      {A : Type 0} (status_code : ℕ) (body : A → Body) (call : Call A)
      → Keeps R call
      → Keeps R (answer status_code body call)
  unfolding answer
  answer_keeps status_code body call h = search (client_rules, handle_keeps)

  pub finish_keeps :
      {A : Type 0} (caught : Exc → Bool) (print : A → List Line) (r : Result A)
      → Keeps R (finish caught print r)
  unfolding finish
  finish_keeps caught print (ok a) = search client_rules
  finish_keeps caught print (err e) = search client_rules

  pub route_keeps :
      (service : Graph) (hex : String) (request : Request)
      → ((input : Input) (thread_id : String) → Keeps R (service.invoke input thread_id))
      → Keeps R (route service hex request)
  unfolding route
  route_keeps service hex (Request.start_run body) h = answer_keeps _ _ _ (
      perform_keeps foot service h
        (starts body.employee_id (or_else 20 body.max_steps) (or_else 30 body.max_tool_calls) hex))
  route_keeps service hex (Request.list_runs limit) h = answer_keeps _ _ _ (list_runs_keeps _)
  route_keeps service hex (Request.get_run run_id) h = answer_keeps _ _ _ (get_keeps run_id)
  route_keeps service hex (Request.approve run_id body) h =
      answer_keeps _ _ _ (perform_keeps foot service h (approves run_id body.approver body.remark))
  route_keeps service hex (Request.reject run_id body) h =
      answer_keeps _ _ _ (perform_keeps foot service h (rejects run_id body.approver body.remark))
  route_keeps service hex (Request.sign run_id body) h =
      answer_keeps _ _ _
        (perform_keeps foot service h (submits run_id body.document_id body.signed_at))
  route_keeps service hex (Request.resume run_id) h =
      answer_keeps _ _ _ (perform_keeps foot service h (resumes run_id))
  route_keeps service hex (Request.cancel run_id) h =
      answer_keeps _ _ _ (perform_keeps foot service h (cancels run_id))
  route_keeps service hex (Request.get_trace run_id) h = answer_keeps _ _ _ (get_trace_keeps run_id)
  route_keeps service hex (Request.get_side_effects run_id) h =
      answer_keeps _ _ _ (get_side_effects_keeps run_id)
