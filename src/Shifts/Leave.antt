-- ===== src/Shifts/Leave.antt =====
-- Holidays and leave requests of backend/app/services/shift_service.py.
pub mod Decisions
use attendance.Prelude.{
  ◌||◌, ℕ, String, Bool, true, false, Option, none, some, List, [], ◌∷◌, ◌++◌, ◌==◌, ◌&&◌, not, any,
  first_where, update_where, same_id,
}
use attendance.Prelude.Errors.{
  Result, ok, err, not_found, validation, integrity_error, ◌>>=◌, ◌>>◌, raise_if, or_raise,
}
use attendance.Tenant.{Organization, Scope, apply_employee_tenant_filter}
use attendance.Attendance.Tables.{Employee}
use attendance.Shifts.{employee_scope, require_org_employee}

pub data LeaveStatus : Type 0 where
  pending approved rejected : LeaveStatus

-- The dates as the body sends them.
pub record LeaveRequest : Type 0 where
  pub id : ℕ
  pub employee_id : ℕ
  pub kind : String
  pub start_date : String
  pub end_date : String
  pub reason : Option String
  pub status : LeaveStatus
  pub approved_by : Option ℕ
  pub approved_at : Option ℕ

pub record Holiday : Type 0 where
  pub id : ℕ
  pub organization_id : ℕ
  pub location_id : Option ℕ
  pub name : String
  pub date : ℕ
  pub is_recurring : Bool

-- The two partial unique indexes together.
abbrev pub is_same_holiday : Holiday → Holiday → Bool
is_same_holiday a b =
    a.organization_id == b.organization_id
    && (a.date == b.date && same_id a.location_id b.location_id)

-- The body of a new holiday, with the id that the database gives.
pub record HolidayBody : Type 0 where
  pub id : ℕ
  pub name : String
  pub date : ℕ
  pub location_id : Option ℕ
  pub is_recurring : Bool

abbrev pub new_holiday : ℕ → HolidayBody → Holiday
new_holiday org_id body = record {
  id = body.id;
  organization_id = org_id;
  location_id = body.location_id;
  name = body.name;
  date = body.date;
  is_recurring = body.is_recurring;
}

unfoldable pub create_holiday :
    Option ℕ → HolidayBody → List Holiday → Result (Holiday × List Holiday)
create_holiday org_id body rows = do
  org ← or_raise org_id validation
  raise_if (any (λ h. is_same_holiday h (new_holiday org body)) rows) integrity_error
  ok (new_holiday org body, rows ++ new_holiday org body ∷ [])

pub record LeaveBody : Type 0 where
  pub employee_id : Option ℕ
  pub kind : String
  pub start_date : String
  pub end_date : String
  pub reason : Option String

abbrev pub new_leave : ℕ → ℕ → LeaveBody → LeaveRequest
new_leave id employee_id body = record {
  id = id;
  employee_id = employee_id;
  kind = body.kind;
  start_date = body.start_date;
  end_date = body.end_date;
  reason = body.reason;
  status = pending;
  approved_by = none;
  approved_at = none;
}

abbrev pub insert_leave :
    List Organization
    → List Employee
    → ℕ
    → LeaveBody
    → Scope
    → Option Scope
    → List LeaveRequest
    → Option ℕ
    → Result (LeaveRequest × List LeaveRequest)
insert_leave organizations employees id body org node_scope rows none = err integrity_error
insert_leave organizations employees id body org node_scope rows (some employee_id) = do
  require_org_employee organizations employees employee_id org node_scope
  ok (new_leave id employee_id body, rows ++ new_leave id employee_id body ∷ [])

-- Without an employee nothing is checked, and the column that may not be null refuses the row.
unfoldable pub create_leave_request :
    List Organization
    → List Employee
    → ℕ
    → LeaveBody
    → Scope
    → Option Scope
    → List LeaveRequest
    → Result (LeaveRequest × List LeaveRequest)
create_leave_request organizations employees id body org node_scope rows =
    insert_leave organizations employees id body org node_scope rows body.employee_id

abbrev pub is_limited : Scope → Bool
is_limited Scope.everything = false
is_limited _ = true

-- Whether a request passes the filter on its employee's organization.
abbrev pub may_decide : List Organization → List Employee → Scope → LeaveRequest → Bool
may_decide organizations employees scope leave =
    not (is_limited scope)
    || any
        (λ e.
          e.id == leave.employee_id
          && apply_employee_tenant_filter organizations scope e.organization_id)
        employees

abbrev pub decided : LeaveStatus → ℕ → ℕ → LeaveRequest → LeaveRequest
decided status approver_id now leave = record leave {
  status = status;
  approved_by = some approver_id;
  approved_at = some now;
}

-- The status of the body is `approved` or `rejected`.
unfoldable pub decide_leave_request :
    List Organization
    → List Employee
    → ℕ
    → LeaveStatus
    → ℕ
    → ℕ
    → Scope
    → Option Scope
    → List LeaveRequest
    → Result (LeaveRequest × List LeaveRequest)
decide_leave_request organizations employees leave_id status approver_id now org node_scope rows =
    do
      leave ←
          or_raise
            (first_where
              (λ l.
                l.id == leave_id
                && may_decide organizations employees (employee_scope org node_scope) l)
              rows)
            not_found
      ok (
        decided status approver_id now leave,
        update_where (λ l. l.id == leave.id) (decided status approver_id now) rows,
      )
