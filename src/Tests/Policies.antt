-- ===== src/Tests/Policies.antt =====
-- A company gets a second default policy.
use attendance.Prelude.{ℕ, ◌≤◌, true, false, none, some, List, [], ◌∷◌, arith}
use attendance.Prelude.Int.{pos}
use attendance.Attendance.Tables.{AttendancePolicy}
use attendance.Shifts.{PolicyBody}
use attendance.Shifts.Defaults.{default_count}
use attendance.Tests.Data.{policy}

abbrev strict : PolicyBody
strict = record {
  grace_minutes = some (pos 0);
  min_work_minutes = none;
  break_minutes = none;
  overtime_after_minutes = none;
  half_day_minutes = none;
  is_default = some true;
}

abbrev plain : AttendancePolicy
plain = record policy { id = 2; is_default = false }

abbrev policies : List AttendancePolicy
policies = policy ∷ plain ∷ []

policies-capped : (o : ℕ) → default_count o policies ≤ 1
policies-capped o = ground arith
