-- ===== src/Tests/Data.antt =====
-- A company with one employee: the input of the tests.
use attendance.Prelude.{ℕ, true, none, some, List, [], ◌∷◌, ◌*◌, ◌+◌}
use attendance.Prelude.Int.{pos}
use attendance.Clock.{Zone, utc, day, minute}
use attendance.Tenant.{Organization}
use attendance.Attendance.Tables.{
  Employee, AttendancePolicy, Shift, AttendanceRecord, Directory, Settings, present,
}
use attendance.Attendance.Duplicates.{Marks, disabled}
use attendance.Attendance.Queries.{Interference, new_record}
use attendance.Attendance.Process.{Call, Ledger}

abbrev pub zone : Zone
zone = record { wall = λ t. t; midnight = λ d. d * day }

abbrev pub settings : Settings
settings = record {
  attendance_break_minutes = pos 60;
  attendance_overtime_threshold_minutes = pos 480;
  attendance_half_day_minutes = pos 240;
  attendance_min_work_minutes = pos 480;
  face_duplicate_window_seconds = 300;
  rfid_duplicate_window_seconds = 60;
}

abbrev pub company : Organization
company = record {
  id = 1;
  name = "Acme";
  code = "ACME";
  node_type = "company";
  parent_id = none;
  is_active = true;
}

abbrev pub branch : Organization
branch = record company { id = 2; code = "B"; node_type = "branch"; parent_id = some 1 }

abbrev pub team : Organization
team = record company { id = 3; code = "T"; node_type = "team"; parent_id = some 2 }

abbrev pub organizations : List Organization
organizations = company ∷ branch ∷ team ∷ []

abbrev pub worker : Employee
worker = record { id = 7; organization_id = 2; location_id = none; is_active = true }

abbrev pub policy : AttendancePolicy
policy = record {
  id = 1;
  organization_id = 1;
  grace_minutes = pos 5;
  min_work_minutes = pos 240;
  break_minutes = pos 30;
  overtime_after_minutes = pos 480;
  half_day_minutes = pos 240;
  is_default = true;
  is_active = true;
}

abbrev pub shift : Shift
shift = record {
  id = 4;
  organization_id = 1;
  attendance_policy_id = some 1;
  start_time = some (record { hour = 8; minute = 0 });
  grace_minutes = pos 5;
  is_active = true;
}

abbrev pub directory : Directory
directory = record {
  employees = worker ∷ [];
  organizations = organizations;
  assignments = [];
  shifts = [];
  policies = policy ∷ [];
}

abbrev pub morning : ℕ
morning = 738_000 * day + 480 * minute

abbrev pub evening : ℕ
evening = 738_000 * day + 1020 * minute

abbrev pub quiet : Interference
quiet = record { rivals = []; new_id = 5; insertable = true; updatable = true }

-- A row of the employee's day, written by another worker meanwhile.
abbrev pub rival : AttendanceRecord
rival = new_record 6 7 738_000 none none none

abbrev pub contested : Interference
contested = record { rivals = rival ∷ []; new_id = 8; insertable = true; updatable = true }

abbrev pub marks : Marks
marks = record { dup_cache = []; sent = [] }

abbrev pub punch_call : ℕ → Call
punch_call t = record {
  now = t;
  check_now = t;
  arm_now = t;
  redis_get = disabled;
  redis_set = disabled;
  interference = quiet;
}

abbrev pub empty_ledger : Ledger
empty_ledger = record { records = []; marks = marks }

-- The day's row after a check-in in the morning.
abbrev pub checked_in_row : AttendanceRecord
checked_in_row = record rival { check_in_at = some (utc morning); status = present }

abbrev pub open_ledger : Ledger
open_ledger = record { records = checked_in_row ∷ []; marks = marks }
