-- ===== src/Attendance/Status.antt =====
-- `_resolve_status`, `_calc_worked`, `_resolve_checkout_status`, `_apply_check_in` and
-- `_apply_check_out` of backend/app/services/attendance_service.py.
pub mod Bounds
use attendance.Prelude.{
  ℕ, String, Bool, true, false, Option, none, some, ltb, or_id, if◌then◌else◌, ◌*◌,
}
use attendance.Prelude.Int.{ℤ, pos, pos_part, ◌+ℤ◌, ◌-ℤ◌, ltb_ℤ, trunc_div, or_int, scale}
use attendance.Prelude.Errors.{Result, ok, err, type_error, ◌>>=◌}
use attendance.Clock.{Datetime, as_utc, subtract, Zone, to_local, replace_time, minute}
use attendance.Attendance.Tables.{
  Status, absent, present, late, half_day, early_leave, AttendancePolicy, Shift, AttendanceRecord,
  Settings,
}

abbrev pub grace_of : Shift → Option AttendancePolicy → ℤ
grace_of shift none = or_int shift.grace_minutes (pos 15)
grace_of shift (some policy) = or_int policy.grace_minutes (pos 15)

module _ (zone : Zone) where
  unfoldable pub resolve_status : Datetime → Option Shift → Option AttendancePolicy → Status
  resolve_status check_in_at none policy = present
  resolve_status check_in_at (some shift) policy = elim shift.start_time [
    | none ↦ present
    | some start ↦
        let local = to_local zone check_in_at in
        let scheduled = replace_time local start.hour start.minute in
        let limit = pos scheduled +ℤ scale (grace_of shift policy) minute in
        if ltb_ℤ limit (pos local) then late else present
  ]

module _ (settings : Settings) where
  abbrev pub break_of : Option AttendancePolicy → ℤ
  break_of none = settings.attendance_break_minutes
  break_of (some policy) = policy.break_minutes

  abbrev pub overtime_threshold_of : Option AttendancePolicy → ℤ
  overtime_threshold_of none = settings.attendance_overtime_threshold_minutes
  overtime_threshold_of (some policy) = policy.overtime_after_minutes

  abbrev pub half_day_of : Option AttendancePolicy → ℤ
  half_day_of none = settings.attendance_half_day_minutes
  half_day_of (some policy) = policy.half_day_minutes

  abbrev pub min_work_of : Option AttendancePolicy → ℤ
  min_work_of none = settings.attendance_min_work_minutes
  min_work_of (some policy) = policy.min_work_minutes

  -- The worked minutes and the overtime among them. `max(0, x)` is the part of `x` above zero.
  unfoldable pub calc_worked : Datetime → Datetime → Option AttendancePolicy → Result (ℕ × ℕ)
  calc_worked check_in check_out policy = do
    diff ← subtract (as_utc check_out) (as_utc check_in)
    let raw_minutes = pos_part (trunc_div diff minute -ℤ break_of policy)
    ok (raw_minutes, pos_part (pos raw_minutes -ℤ overtime_threshold_of policy))

  unfoldable pub resolve_checkout_status : ℕ → Option AttendancePolicy → Status → Status
  resolve_checkout_status worked policy current =
      if ltb_ℤ (pos worked) (half_day_of policy)
      then half_day
      else if ltb_ℤ (pos worked) (min_work_of policy)
      then early_leave
      else elim current [ late ↦ late | _ ↦ present ]

abbrev pub shift_id_of : Option Shift → Option ℕ → Option ℕ
shift_id_of none old = old
shift_id_of (some shift) old = some shift.id

module _ (zone : Zone) where
  unfoldable pub apply_check_in :
      AttendanceRecord
      → Datetime
      → String
      → Option ℕ
      → Option Shift
      → Option AttendancePolicy
      → AttendanceRecord
  unfolding resolve_status
  apply_check_in r now method camera_id shift policy =
      let status = resolve_status zone now shift policy in
      record r {
        check_in_at = some now;
        check_in_method = some method;
        camera_id = or_id camera_id r.camera_id;
        shift_id = shift_id_of shift r.shift_id;
        status = status;
        attendance_type = some status;
      }

module _ (settings : Settings) where
  -- What is written once the worked minutes are known.
  abbrev pub checked_out :
      AttendanceRecord → Datetime → String → Option AttendancePolicy → ℕ × ℕ → AttendanceRecord
  checked_out r now method policy (worked, overtime) =
      let status = resolve_checkout_status settings worked policy r.status in
      record r {
        check_out_at = some now;
        check_out_method = some method;
        worked_minutes = worked;
        overtime_minutes = overtime;
        status = status;
        attendance_type = some status;
      }

  -- `_calc_worked(None, now)` raises: `None` has no `tzinfo`.
  abbrev pub check_out_since :
      Option Datetime
      → AttendanceRecord
      → Datetime
      → String
      → Option AttendancePolicy
      → Result AttendanceRecord
  check_out_since none r now method policy = err type_error
  check_out_since (some check_in) r now method policy = do
    worked ← calc_worked settings check_in now policy
    ok (checked_out r now method policy worked)

  unfoldable pub apply_check_out :
      AttendanceRecord → Datetime → String → Option AttendancePolicy → Result AttendanceRecord
  apply_check_out r now method policy = check_out_since r.check_in_at r now method policy
