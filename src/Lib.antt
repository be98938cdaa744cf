-- ===== src/Lib.antt =====
-- The offboarding orchestrator: a program that takes an employee's departure through seven steps,
-- with approvals, retries and restarts, and that must not perform a side effect twice.
--
-- Its parts and how they interact. The domain (offboarding/domain) has the state machines of runs
-- and steps, the exceptions, the records and the redaction of what is logged. The persistence
-- (offboarding/persistence) keeps three tables in SQLite: the runs, the trace of attempts and the
-- idempotency ledger's rows. The tools (offboarding/tools) are reached through one executor, which
-- checks the step's allowlist and the run's budget, traces each attempt, retries transient errors,
-- and calls a side-effecting tool through the ledger, which decides from the key's row whether the
-- call is made, replayed or reconciled with the provider. The steps of the workflow and the run
-- service (offboarding/orchestration) stand on top: a step starts with the guard and reaches tools
-- through the executor alone, and the service moves a run along its status, invokes the graph, and
-- makes of its outcome the run's next status. A language model proposes the plan
-- (offboarding/llm), which is checked against the employee's record. The command line
-- (offboarding/cli) and the HTTP interface (offboarding/api) call the service and nothing else.
--
-- Files:
--   Prelude         shared names, lists, options and rows of a table
--   Domain          offboarding/domain: RunStatus, StepStatus, StepName, PauseReason, FailureReason
--                   and Run are run.py; Errors is errors.py; Models is models.py; Redaction is
--                   redaction.py; Json has the values that are passed, JsonText what json.dumps
--                   makes of them and json.loads gives back; Result has what a function that
--                   raises returns; Lifecycle has the theorems on the run table
--   World           persistence/db.py and base.py: the state, the calls on it, the clock and the
--                   transactions; World/Keeps has rules for relations between two databases
--   Persistence     Runs, Trace and SideEffects are runs.py, trace.py and side_effects.py, with a
--                   definition for each method under the method's name (`close_attempt` is
--                   _close_attempt, `set_state` of SideEffects is _set_state); History says
--                   when a database is valid, and when it is later than another
--   Tools           Base is base.py, Providers is providers.py, Iam, Documents and HrDirectory are
--                   the tools, Ledger is ledger.py, Executor is executor.py; Arguments binds
--                   keyword arguments; Retrying has the laws of tenacity's loop; Isolation says what
--                   is relied on of a tool, and Contracts is about the four tools
--   Llm             Provider is llm/provider.py (the plan, its check and the protocol), Fake is
--                   fake.py, Gemini is gemini.py and Factory is factory.py; Plans and Covering are
--                   about the plans that are accepted, Isolation about the tables
--   Orchestration   State is state.py with what reads the state, Tracing is tracing.py, Nodes is
--                   nodes.py, with the steps in Planning, Pauses and Effects, Graph has the workflow
--                   of graph.py (Progress the checkpoints that a run can reach, Approval and Gate
--                   the approval in them), Drive says what is relied on of LangGraph, Services is
--                   services.py (Sound and History are about what it builds), and RunService is
--                   run_service.py (`advance` is _advance,
--                   `resolve_approval` is _resolve_approval)
--   Clients         Api is offboarding/api/main.py (`route` has the routes, `handle` the exception
--                   handlers, `get_service` the cached service), Cli and Printing are
--                   offboarding/cli/main.py (`execute` has the commands, `command` is _service with
--                   a command's try); Traffic has sequences of both, Missing, Conflicts,
--                   Agreement, System and Once are about them
--   Tests           runs on small inputs
--
-- Relations between two databases (the histories, the limits, the statuses) are lifted from writes to
-- programs in one way: Tools/Footing says what a relation asks of the writes of the repositories, and
-- a file Keeping beside each component is about a relation that has that footing.
--
-- How the state is modelled. A call is a function of the world that returns a result or an
-- exception together with the world after it; writes made before an exception stay, save for those
-- of a transaction that an `Exception` rolls back. A table is the list of its rows, newest first;
-- primary keys, unique columns, foreign keys and the counter of ids are checked where SQLite checks
-- them. A timestamp is the number that the clock reads, a message is an f-string's text with its
-- values. A step is run with the value that its interrupt is resumed with, if there is one, and
-- LangGraph's invoke is a parameter of the service. `others` in the world is what other processes
-- insert in the ledger's table between the read and the insert of `run_once`. A wiring of the
-- services sets the failures that the tools still have to make; the clients share them.
--
-- Bounds and fuel. `run_once` calls itself; its depth argument is how deep Python's recursion limit
-- still lets it go. The loop of the executor is tenacity's, a parameter that is given by its
-- documented laws: it ends because an attempt is made again only below `max_attempts`. Python's
-- integers are not bounded, and the 64 bits of an SQLite column are taken as never reached.
--
-- Not modelled: opening the database and its pragmas, the lengths of the sleeps, the texts of
-- exceptions of Python and SQLite themselves; negative limits of a run or a list, which neither
-- client refuses; tenacity's loop, pydantic's validation, the client of
-- Gemini, the running of the graph and its checkpoints (LangGraph), and the reading of requests
-- (FastAPI) and of command lines (Typer), which are other packages' and parameters where the program
-- relies on them; and the demonstration script (scripts/demo.py), which prints runs of the program.
pub mod Prelude
pub mod Domain
pub mod World
pub mod Persistence
pub mod Tools
pub mod Llm
pub mod Orchestration
pub mod Clients
pub mod Tests
