-- ===== src/Tools/HrDirectory.antt =====
-- offboarding/tools/hr_directory.py: the fixed directory, and the tool that reads it.
use offboarding_orchestrator.Prelude.{String, true, false, Option, none, some, [], ◌∷◌}
use offboarding_orchestrator.Domain.Json.{
  Value, bool, str, list, dict, Items, nil, cons, Fields, end, field, get_field,
}
use offboarding_orchestrator.Domain.Errors.{plain, permanent_tool_error, type_error}
use offboarding_orchestrator.World.{Call, pure, raise, ◌>>=◌, ◌>>◌}
use offboarding_orchestrator.Tools.Base.{ToolSpec, Tool}
use offboarding_orchestrator.Tools.Arguments.{check_names, argument}

abbrev employee : String → String → String → String → String → String → Items → Value → Value
employee id name email department manager last_day systems hardware = dict (
    field "employee_id" (str id) (
      field "name" (str name) (
        field "email" (str email) (
          field "department" (str department) (
            field "manager" (str manager) (
              field "last_day" (str last_day)
                (field "systems" (list systems) (field "has_company_hardware" hardware end))))))))

abbrev systems_001 : Items
systems_001 =
    cons (str "github")
      (cons (str "aws") (cons (str "slack") (cons (str "jira") (cons (str "vpn") nil))))

abbrev systems_002 : Items
systems_002 = cons (str "netsuite") (cons (str "slack") (cons (str "vpn") nil))

abbrev systems_003 : Items
systems_003 =
    cons (str "salesforce") (cons (str "slack") (cons (str "zoom") (cons (str "vpn") nil)))

abbrev pub employee_directory : Fields
employee_directory =
    field "emp-001"
      (employee "emp-001" "Dana Okafor" "dana.okafor@example.com" "Engineering" "Priya Raman"
        "2026-09-30" systems_001 (bool true))
      (field "emp-002"
        (employee "emp-002" "Luis Moreno" "luis.moreno@example.com" "Finance" "Aisha Bakr"
          "2026-10-15" systems_002 (bool false))
        (field "emp-003"
          (employee "emp-003" "Wei Zhang" "wei.zhang@example.com" "Sales" "Tom Becker" "2026-09-22"
            systems_003 (bool true))
          end))

abbrev pub hr_spec : ToolSpec
hr_spec = record {
  name = "hr_directory.get_employee";
  description = "Fetch an employee record from the HR system of record.";
  side_effecting = false;
  requires_approval = false;
}

-- `dict(record)`, or the PermanentToolError of an unknown employee
unfoldable pub or_no_record : Value → Option Value → Call Fields
or_no_record employee_id (some (dict record_fields)) = pure record_fields
or_no_record employee_id _ =
    raise permanent_tool_error
      (record { template = "no employee record for {!r}"; values = employee_id ∷ [] })

-- EMPLOYEE_DIRECTORY.get: a list or a dict is no key
unfoldable pub find_record : Value → Call Fields
unfolding or_no_record
find_record (str id) = or_no_record (str id) (get_field id employee_directory)
find_record (list xs) = raise type_error (plain "unhashable type")
find_record (dict fs) = raise type_error (plain "unhashable type")
find_record other = or_no_record other none

unfoldable pub call : Fields → Call Fields
unfolding find_record
call kwargs = do
  check_names ("employee_id" ∷ []) kwargs
  employee_id ← argument "employee_id" kwargs
  find_record employee_id

unfoldable pub hr_directory_tool : Tool
hr_directory_tool = record { spec = hr_spec; call = call; lookup = none }
