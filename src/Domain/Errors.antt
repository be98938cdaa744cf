-- ===== src/Domain/Errors.antt =====
-- offboarding/domain/errors.py, with the exceptions of Python and sqlite3 that the code can meet.
use offboarding_orchestrator.Prelude.{ℕ, String, Bool, List, [], ◌∷◌, ◌==◌, any}
use offboarding_orchestrator.Domain.Json.{Value}

-- The exception classes. `exception` stands for any other subclass of `Exception`, and
-- `base_exception` for one that `except Exception` does not catch (a process that dies).
pub data ErrorClass : Type 0 where
  orchestrator_error invalid_state_transition run_not_found invalid_run_operation : ErrorClass
  tool_error transient_tool_error permanent_tool_error tool_not_allowed : ErrorClass
  budget_exceeded invalid_plan reconciliation_required run_cancelled : ErrorClass
  approval_rejected : ErrorClass
  value_error key_error type_error integrity_error recursion_error : ErrorClass
  exception base_exception : ErrorClass

-- The class and its ancestors, nearest first.
abbrev pub ancestors : ErrorClass → List ErrorClass
ancestors base_exception = base_exception ∷ []
ancestors exception = exception ∷ base_exception ∷ []
ancestors value_error = value_error ∷ exception ∷ base_exception ∷ []
ancestors key_error = key_error ∷ exception ∷ base_exception ∷ []
ancestors type_error = type_error ∷ exception ∷ base_exception ∷ []
ancestors integrity_error = integrity_error ∷ exception ∷ base_exception ∷ []
ancestors recursion_error = recursion_error ∷ exception ∷ base_exception ∷ []
ancestors orchestrator_error = orchestrator_error ∷ exception ∷ base_exception ∷ []
ancestors invalid_state_transition =
    invalid_state_transition ∷ orchestrator_error ∷ exception ∷ base_exception ∷ []
ancestors run_not_found = run_not_found ∷ orchestrator_error ∷ exception ∷ base_exception ∷ []
ancestors invalid_run_operation =
    invalid_run_operation ∷ orchestrator_error ∷ exception ∷ base_exception ∷ []
ancestors tool_error = tool_error ∷ orchestrator_error ∷ exception ∷ base_exception ∷ []
ancestors transient_tool_error =
    transient_tool_error ∷ tool_error ∷ orchestrator_error ∷ exception ∷ base_exception ∷ []
ancestors permanent_tool_error =
    permanent_tool_error ∷ tool_error ∷ orchestrator_error ∷ exception ∷ base_exception ∷ []
ancestors tool_not_allowed =
    tool_not_allowed ∷ permanent_tool_error ∷ tool_error ∷ orchestrator_error ∷ exception
    ∷ base_exception ∷ []
ancestors budget_exceeded =
    budget_exceeded ∷ permanent_tool_error ∷ tool_error ∷ orchestrator_error ∷ exception
    ∷ base_exception ∷ []
ancestors invalid_plan =
    invalid_plan ∷ permanent_tool_error ∷ tool_error ∷ orchestrator_error ∷ exception
    ∷ base_exception ∷ []
ancestors reconciliation_required =
    reconciliation_required ∷ orchestrator_error ∷ exception ∷ base_exception ∷ []
ancestors run_cancelled = run_cancelled ∷ orchestrator_error ∷ exception ∷ base_exception ∷ []
ancestors approval_rejected =
    approval_rejected ∷ orchestrator_error ∷ exception ∷ base_exception ∷ []

-- A number for each class, to compare classes by.
abbrev class_number : ErrorClass → ℕ
class_number orchestrator_error = 0
class_number invalid_state_transition = 1
class_number run_not_found = 2
class_number invalid_run_operation = 3
class_number tool_error = 4
class_number transient_tool_error = 5
class_number permanent_tool_error = 6
class_number tool_not_allowed = 7
class_number budget_exceeded = 8
class_number invalid_plan = 9
class_number reconciliation_required = 10
class_number run_cancelled = 11
class_number approval_rejected = 12
class_number value_error = 13
class_number key_error = 14
class_number type_error = 15
class_number integrity_error = 16
class_number recursion_error = 17
class_number exception = 18
class_number base_exception = 19

-- isinstance(exc, target), for an exception of class `c`
unfoldable pub is_instance : ErrorClass → ErrorClass → Bool
is_instance c target = any (λ a. class_number a == class_number target) (ancestors c)

-- type(exc).__name__
unfoldable pub class_name : ErrorClass → String
class_name orchestrator_error = "OrchestratorError"
class_name invalid_state_transition = "InvalidStateTransition"
class_name run_not_found = "RunNotFound"
class_name invalid_run_operation = "InvalidRunOperation"
class_name tool_error = "ToolError"
class_name transient_tool_error = "TransientToolError"
class_name permanent_tool_error = "PermanentToolError"
class_name tool_not_allowed = "ToolNotAllowed"
class_name budget_exceeded = "BudgetExceeded"
class_name invalid_plan = "InvalidPlan"
class_name reconciliation_required = "SideEffectReconciliationRequired"
class_name run_cancelled = "RunCancelled"
class_name approval_rejected = "ApprovalRejected"
class_name value_error = "ValueError"
class_name key_error = "KeyError"
class_name type_error = "TypeError"
class_name integrity_error = "IntegrityError"
class_name recursion_error = "RecursionError"
class_name exception = "Exception"
class_name base_exception = "BaseException"

-- str(exc): an f-string, as its fixed text and the values that it formats.
pub record Message : Type 0 where
  pub template : String
  pub values : List Value

abbrev pub plain : String → Message
plain s = record { template = s; values = [] }

pub record Exc : Type 0 where
  pub class : ErrorClass
  pub message : Message
