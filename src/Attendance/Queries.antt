-- ===== src/Attendance/Queries.antt =====
-- The selects of backend/app/services/attendance_service.py: the employee, the shift that is in
-- force, the policy, and the day's record, fetched or created.
pub mod Keyed
pub mod Save
pub mod Create
use attendance.Prelude.{
  first_where, ℕ, Bool, true, Option, none, some, List, [], ◌∷◌, ◌++◌, not, leb, ltb, ◌==◌, ◌&&◌,
  if◌then◌else◌, select, any,
}
use attendance.Prelude.Errors.{
  Result, ok, err, integrity_error, invalid_request, ◌>>=◌, scalar_one_or_none,
}
use attendance.Attendance.Tables.{
  absent, Employee, AttendancePolicy, Shift, ShiftAssignment, AttendanceRecord, Directory,
}

abbrev pub find_employee : ℕ → Directory → Option Employee
find_employee employee_id dir = first_where (λ e. e.id == employee_id) dir.employees

abbrev in_force : ℕ → Option ℕ → Bool
in_force work_date none = true
in_force work_date (some last) = leb work_date last

abbrev is_assigned : ℕ → ℕ → ShiftAssignment → Bool
is_assigned employee_id work_date a =
    a.employee_id == employee_id
    && (leb a.effective_from work_date && in_force work_date a.effective_to)

-- `ORDER BY effective_from DESC LIMIT 1`; among equals the first.
abbrev latest : List ShiftAssignment → Option ShiftAssignment
latest [] = none
latest (a ∷ as') = elim (latest as') [
  | none ↦ some a
  | some b ↦ if ltb a.effective_from b.effective_from then some b else some a
]

unfoldable pub get_active_shift : Directory → ℕ → ℕ → Option Shift
get_active_shift dir employee_id work_date =
    elim (latest (select (is_assigned employee_id work_date) dir.assignments)) [
      | none ↦ none
      | some a ↦ first_where (λ s. s.id == a.shift_id && s.is_active) dir.shifts
    ]

abbrev default_policy : Directory → ℕ → Option AttendancePolicy
default_policy dir organization_id =
    first_where (λ p. p.organization_id == organization_id && (p.is_default && p.is_active))
      dir.policies

-- The policy that a shift names, by an id that is not falsy.
abbrev policy_of_shift : Directory → Option Shift → Option AttendancePolicy
policy_of_shift dir none = none
policy_of_shift dir (some shift) = elim shift.attendance_policy_id [
  | none ↦ none
  | some i ↦ if i == 0 then none else first_where (λ p. p.id == i) dir.policies
]

unfoldable pub get_policy : Directory → Option Shift → ℕ → Option AttendancePolicy
get_policy dir shift organization_id = elim (policy_of_shift dir shift) [
  | some policy ↦ some policy
  | none ↦ default_policy dir organization_id
]

abbrev pub has_key : ℕ → ℕ → AttendanceRecord → Bool
has_key employee_id work_date r = r.employee_id == employee_id && r.work_date == work_date

abbrev pub select_record : ℕ → ℕ → List AttendanceRecord → Result (Option AttendanceRecord)
select_record employee_id work_date rows =
    scalar_one_or_none (select (has_key employee_id work_date) rows)

-- What other transactions and the database do between the select and the flush of an insert: the
-- rows that they commit, the id that the new row gets, whether its other constraints hold, its
-- foreign keys among them, and whether those of the row hold when the call flushes its changes.
pub record Interference : Type 0 where
  pub rivals : List AttendanceRecord
  pub new_id : ℕ
  pub insertable : Bool
  pub updatable : Bool

abbrev pub new_record : ℕ → ℕ → ℕ → Option ℕ → Option ℕ → Option ℕ → AttendanceRecord
new_record new_id employee_id work_date location_id camera_id shift_id = record {
  id = new_id;
  employee_id = employee_id;
  work_date = work_date;
  location_id = location_id;
  camera_id = camera_id;
  shift_id = shift_id;
  check_in_at = none;
  check_out_at = none;
  check_in_method = none;
  check_out_method = none;
  worked_minutes = 0;
  overtime_minutes = 0;
  status = absent;
  attendance_type = none;
  notes = none;
}

-- `db.flush()` of a new row: the constraints are checked against the committed rows.
abbrev pub flush_insert :
    Bool → AttendanceRecord → List AttendanceRecord → Result (List AttendanceRecord)
flush_insert insertable r rows =
    if insertable && not (any (has_key r.employee_id r.work_date) rows)
    then ok (rows ++ r ∷ [])
    else err integrity_error

-- The end of the insert. `db.add` has put the row into the session, so the flush that fails is the
-- one that `begin_nested` makes before it sets the savepoint. As SQLAlchemy documents, that rolls
-- the whole transaction back and takes the new row out of the session. `db.expunge` of a row that
-- is in no session raises `InvalidRequestError`, so the select after it is never reached.
abbrev pub after_flush :
    AttendanceRecord
    → List AttendanceRecord
    → Result (List AttendanceRecord)
    → Result (AttendanceRecord × List AttendanceRecord)
after_flush r rows (ok rows') = ok (r, rows')
after_flush r rows (err _) = err invalid_request

abbrev insert_or_reselect :
    Interference
    → AttendanceRecord
    → List AttendanceRecord
    → Result (AttendanceRecord × List AttendanceRecord)
insert_or_reselect env r rows = after_flush r rows (flush_insert env.insertable r rows)

abbrev found_or_insert :
    Interference
    → AttendanceRecord
    → List AttendanceRecord
    → Option AttendanceRecord
    → Result (AttendanceRecord × List AttendanceRecord)
found_or_insert env new rows (some r) = ok (r, rows)
found_or_insert env new rows none = insert_or_reselect env new (rows ++ env.rivals)

unfoldable pub get_or_create_today_record :
    Interference
    → ℕ
    → ℕ
    → Option ℕ
    → Option ℕ
    → Option ℕ
    → List AttendanceRecord
    → Result (AttendanceRecord × List AttendanceRecord)
get_or_create_today_record env employee_id work_date location_id camera_id shift_id rows = do
  found ← select_record employee_id work_date rows
  found_or_insert env (new_record env.new_id employee_id work_date location_id camera_id shift_id)
      rows found

-- The flush of a changed row: the update of the row with its primary key.
abbrev pub save : AttendanceRecord → List AttendanceRecord → List AttendanceRecord
save r [] = []
save r (x ∷ xs) = (if x.id == r.id then r else x) ∷ save r xs
