-- ===== src/Attendance/Tables.antt =====
-- Rows of backend/app/models/attendance.py and backend/app/models/employee.py, with the columns
-- that the attendance service reads or writes, and the settings that it reads.
use attendance.Prelude.{ℕ, String, Bool, Option, List}
use attendance.Prelude.Int.{ℤ}
use attendance.Clock.{Datetime}
use attendance.Tenant.{Organization}

-- The values that the service gives to `status` and `attendance_type`.
pub data Status : Type 0 where
  absent present late half_day early_leave : Status

pub record TimeOfDay : Type 0 where
  pub hour : ℕ
  pub minute : ℕ

pub record Employee : Type 0 where
  pub id : ℕ
  pub organization_id : ℕ
  pub location_id : Option ℕ
  pub is_active : Bool

pub record AttendancePolicy : Type 0 where
  pub id : ℕ
  pub organization_id : ℕ
  pub grace_minutes : ℤ
  pub min_work_minutes : ℤ
  pub break_minutes : ℤ
  pub overtime_after_minutes : ℤ
  pub half_day_minutes : ℤ
  pub is_default : Bool
  pub is_active : Bool

pub record Shift : Type 0 where
  pub id : ℕ
  pub organization_id : ℕ
  pub attendance_policy_id : Option ℕ
  pub start_time : Option TimeOfDay
  pub grace_minutes : ℤ
  pub is_active : Bool

-- Days are counts since the start of the year 1.
pub record ShiftAssignment : Type 0 where
  pub employee_id : ℕ
  pub shift_id : ℕ
  pub effective_from : ℕ
  pub effective_to : Option ℕ

pub record AttendanceRecord : Type 0 where
  pub id : ℕ
  pub employee_id : ℕ
  pub work_date : ℕ
  pub location_id : Option ℕ
  pub camera_id : Option ℕ
  pub shift_id : Option ℕ
  pub check_in_at : Option Datetime
  pub check_out_at : Option Datetime
  pub check_in_method : Option String
  pub check_out_method : Option String
  pub worked_minutes : ℕ
  pub overtime_minutes : ℕ
  pub status : Status
  pub attendance_type : Option Status
  pub notes : Option String

-- The tables that the service only reads.
pub record Directory : Type 0 where
  pub employees : List Employee
  pub organizations : List Organization
  pub assignments : List ShiftAssignment
  pub shifts : List Shift
  pub policies : List AttendancePolicy

pub record Settings : Type 0 where
  pub attendance_break_minutes : ℤ
  pub attendance_overtime_threshold_minutes : ℤ
  pub attendance_half_day_minutes : ℤ
  pub attendance_min_work_minutes : ℤ
  pub face_duplicate_window_seconds : ℕ
  pub rfid_duplicate_window_seconds : ℕ
