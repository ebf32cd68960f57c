-- ===== src/Attendance/Process.antt =====
-- `process_recognition`, `process_rfid_tap` and `apply_manual_attendance` of
-- backend/app/services/attendance_service.py.
pub mod Actions
pub mod Settle
pub mod Days
pub mod Windows
pub mod Absence
pub mod Paths
use attendance.Prelude.{
  ℕ, String, Bool, true, false, Option, none, some, List, not, ◌==◌, ◌&&◌, ◌||◌, or_else, or_id,
  is_some, same_id, if◌then◌else◌,
}
use text.Mathlib.Text.{◌==◌ as str_eq}
use attendance.Prelude.Errors.{Result, ok, ◌>>=◌, ◌>>◌, raise_if, integrity_error}
use attendance.Clock.{Datetime, utc, as_utc, subtract, shorter_than, Zone, local_date}
use attendance.Tenant.{root_id_of}
use attendance.Attendance.Tables.{
  Employee, AttendancePolicy, Shift, AttendanceRecord, Directory, Settings,
}
use attendance.Attendance.Status.{resolve_status, shift_id_of, apply_check_in, apply_check_out}
use attendance.Attendance.Duplicates.{
  face, rfid, DupKey, Reply, Marks, check_duplicate_shared, arm_duplicate_shared,
}
use attendance.Attendance.Queries.{
  find_employee, get_active_shift, get_policy, select_record, Interference,
  get_or_create_today_record, save,
}

-- `db.flush()` of the changed row: its foreign keys are checked again.
abbrev pub flush_update : Interference → Result (Unit {0})
flush_update env = raise_if (not env.updatable) integrity_error

-- `record.last_action`: what a call did.
pub data Action : Type 0 where
  check_in check_out already_checked_in already_complete nothing duplicate_ignored : Action

-- The `intent` of a recognition: "check_in", "check_out", or anything else.
pub data Intent : Type 0 where
  entry leave toggle : Intent

-- `reader_direction`: "in", "out", "both".
pub data Direction : Type 0 where
  inward outward both : Direction

pub record Ledger : Type 0 where
  pub records : List AttendanceRecord
  pub marks : Marks

-- What one call reads from outside: the clock, at each of its readings, Redis, and the database.
pub record Call : Type 0 where
  pub now : ℕ
  pub check_now : ℕ
  pub arm_now : ℕ
  pub redis_get : Reply Bool
  pub redis_set : Reply (Unit {0})
  pub interference : Interference

abbrev pub Punch : Type 0
Punch = Option (AttendanceRecord × Action)

abbrev pub recently : Option Datetime → ℕ → Datetime → Result Bool
recently none window now = ok false
recently (some last) window now = do
  diff ← subtract now (as_utc last)
  ok (shorter_than diff window)

pub recent_action_within : AttendanceRecord → ℕ → Datetime → Result Bool
recent_action_within r = recently (or_else r.check_out_at r.check_in_at)

abbrev pub writes : Action → Bool
writes check_in = true
writes check_out = true
writes _ = false

abbrev is_entry : Direction → Bool
is_entry outward = false
is_entry _ = true

abbrev is_exit : Direction → Bool
is_exit inward = false
is_exit _ = true

-- Whether the caller's organization is given and is neither the employee's nor its root.
abbrev is_foreign : Directory → Option ℕ → Employee → Result Bool
is_foreign dir none employee = ok false
is_foreign dir (some org) employee = if employee.organization_id == org then ok false else do
  root ← root_id_of dir.organizations employee.organization_id
  ok (not (same_id root (some org)))

abbrev org_of : Directory → Employee → Result (Option ℕ)
org_of dir employee = do
  root ← root_id_of dir.organizations employee.organization_id
  ok (or_id root (some employee.organization_id))

abbrev if_found :
    Ledger → Result (Punch × Ledger) → Option AttendanceRecord → Result (Punch × Ledger)
if_found ledger rest none = ok (none, ledger)
if_found ledger rest (some _) = rest

-- An exit with no record of the day: `select` before anything is created.
abbrev unless_absent : Bool → ℕ → ℕ → Ledger → Result (Punch × Ledger) → Result (Punch × Ledger)
unless_absent false employee_id today ledger rest = rest
unless_absent true employee_id today ledger rest = do
  found ← select_record employee_id today ledger.records
  if_found ledger rest found

abbrev is_leave : Intent → Bool
is_leave leave = true
is_leave _ = false

abbrev is_outward : Direction → Bool
is_outward outward = true
is_outward _ = false

module _ (zone : Zone) (settings : Settings) where
  -- The branches on `intent`.
  pub take_action :
      Intent
      → Datetime
      → String
      → Option ℕ
      → Option Shift
      → Option AttendancePolicy
      → AttendanceRecord
      → Result (AttendanceRecord × Action)
  take_action entry now method camera_id shift policy r =
      if not (is_some r.check_in_at)
      then ok (apply_check_in zone r now method camera_id shift policy, check_in)
      else ok (r, already_checked_in)
  take_action leave now method camera_id shift policy r =
      if is_some r.check_in_at && not (is_some r.check_out_at)
      then (do r' ← apply_check_out settings r now method policy; ok (r', check_out))
      else if not (is_some r.check_in_at)
      then ok (r, nothing)
      else ok (r, already_complete)
  take_action toggle now method camera_id shift policy r =
      if not (is_some r.check_in_at)
      then ok (apply_check_in zone r now method camera_id shift policy, check_in)
      else if not (is_some r.check_out_at)
      then (do r' ← apply_check_out settings r now method policy; ok (r', check_out))
      else ok (r, already_complete)

  abbrev tapped_in :
      AttendanceRecord → Datetime → Option Shift → Option AttendancePolicy → AttendanceRecord
  tapped_in r now shift policy =
      let status = resolve_status zone now shift policy in
      record r {
        check_in_at = some now;
        check_in_method = some "rfid";
        shift_id = shift_id_of shift r.shift_id;
        status = status;
        attendance_type = some status;
      }

  -- The branches on the reader's direction. Unlike a recognition, a tap leaves the camera alone.
  pub tap_action :
      Direction
      → Datetime
      → Option Shift
      → Option AttendancePolicy
      → AttendanceRecord
      → Result (AttendanceRecord × Action)
  tap_action direction now shift policy r =
      if is_entry direction && not (is_some r.check_in_at)
      then ok (tapped_in r now shift policy, check_in)
      else if is_exit direction && (is_some r.check_in_at && not (is_some r.check_out_at))
      then (do r' ← apply_check_out settings r now "rfid" policy; ok (r', check_out))
      else ok (r, nothing)

  -- The policy lookup of a company: none where the id is falsy.
  abbrev policy_for : Directory → Option Shift → Option ℕ → Option AttendancePolicy
  policy_for dir shift org_id = elim (or_id org_id none) [
    | none ↦ none
    | some org ↦ get_policy dir shift org
  ]

  -- The flush, and the arming of the duplicate window after a write.
  abbrev flushed :
      Call → DupKey → ℕ → Ledger → List AttendanceRecord → AttendanceRecord × Action → Ledger
  flushed call key window ledger rows (r, action) = record {
    records = save r rows;
    marks =
        if writes action
        then arm_duplicate_shared settings call.redis_set key window call.arm_now ledger.marks
        else ledger.marks;
  }

  -- What follows the duplicate tests: nothing, or the action and the flush.
  abbrev act_unless_duplicate :
      (AttendanceRecord → Result (AttendanceRecord × Action))
      → Call
      → DupKey
      → ℕ
      → Ledger
      → AttendanceRecord
      → List AttendanceRecord
      → Bool
      → Result (Punch × Ledger)
  act_unless_duplicate act call key window ledger r rows true =
      ok (some (r, duplicate_ignored), record ledger { records = rows })
  act_unless_duplicate act call key window ledger r rows false = do
    done ← act r
    flush_update call.interference >> ok (some done, flushed call key window ledger rows done)

  -- The part that both entry points share, from the shift on.
  pub settle :
      (Option Shift
        → Option AttendancePolicy
        → AttendanceRecord
        → Result (AttendanceRecord × Action))
      → Directory
      → Call
      → DupKey
      → ℕ
      → Option ℕ
      → Employee
      → Option ℕ
      → Ledger
      → Result (Punch × Ledger)
  settle act dir call key window camera_id employee org_id ledger =
      let today = local_date zone (utc call.now) in
      let shift = get_active_shift dir employee.id today in
      let policy = policy_for dir shift org_id in
      let fast_dup = check_duplicate_shared call.redis_get key window call.check_now ledger.marks in
      do
        (r, rows) ←
            get_or_create_today_record call.interference employee.id today employee.location_id
              camera_id (shift_id_of shift none) ledger.records
        recent ← recent_action_within r window (utc call.now)
        act_unless_duplicate (act shift policy) call key window ledger r rows (fast_dup || recent)

  abbrev recognize :
      Directory
      → Call
      → Employee
      → Option ℕ
      → Option ℕ
      → String
      → Intent
      → Ledger
      → Result (Punch × Ledger)
  recognize dir call employee camera_id organization_id method intent ledger = do
    foreign ← is_foreign dir organization_id employee
    if foreign then ok (none, ledger) else do
      org_id ← org_of dir employee
      unless_absent (is_leave intent) employee.id (local_date zone (utc call.now)) ledger (
          settle (take_action intent (utc call.now) method camera_id) dir call
            (record { source = face; employee = employee.id })
            settings.face_duplicate_window_seconds camera_id employee org_id ledger)

  abbrev recognize_found :
      Directory
      → Call
      → Option Employee
      → Option ℕ
      → Option ℕ
      → String
      → Intent
      → Ledger
      → Result (Punch × Ledger)
  recognize_found dir call none camera_id organization_id method intent ledger = ok (none, ledger)
  recognize_found dir call (some employee) camera_id organization_id method intent ledger =
      if not employee.is_active
      then ok (none, ledger)
      else recognize dir call employee camera_id organization_id method intent ledger

  pub process_recognition :
      Directory
      → Call
      → ℕ
      → Option ℕ
      → Option ℕ
      → String
      → Intent
      → Ledger
      → Result (Punch × Ledger)
  process_recognition dir call employee_id =
      recognize_found dir call (find_employee employee_id dir)

  abbrev tap : Directory → Call → Employee → Direction → Ledger → Result (Punch × Ledger)
  tap dir call employee direction ledger = do
    org_id ← org_of dir employee
    unless_absent (is_outward direction) employee.id (local_date zone (utc call.now)) ledger (
        settle (tap_action direction (utc call.now)) dir call
          (record { source = rfid; employee = employee.id }) settings.rfid_duplicate_window_seconds
          none employee org_id ledger)

  abbrev tap_found :
      Directory → Call → Option Employee → Direction → Ledger → Result (Punch × Ledger)
  tap_found dir call none direction ledger = ok (none, ledger)
  tap_found dir call (some employee) direction ledger =
      if not employee.is_active then ok (none, ledger) else tap dir call employee direction ledger

  pub process_rfid_tap : Directory → Call → ℕ → Direction → Ledger → Result (Punch × Ledger)
  process_rfid_tap dir call employee_id = tap_found dir call (find_employee employee_id dir)

  abbrev pub manual_check_in :
      Option Datetime → Option Shift → Option AttendancePolicy → AttendanceRecord → AttendanceRecord
  manual_check_in none shift policy r = r
  manual_check_in (some at') shift policy r = apply_check_in zone r at' "manual" none shift policy

  abbrev pub manual_check_out :
      Option Datetime → Option AttendancePolicy → AttendanceRecord → Result AttendanceRecord
  manual_check_out none policy r = ok r
  manual_check_out (some at') policy r =
      if is_some r.check_in_at
      then apply_check_out settings r at' "manual" policy
      else ok (record r { check_out_at = some at'; check_out_method = some "manual" })

  -- `if notes: record.notes = notes`: an empty text changes nothing.
  abbrev manual_notes : Option String → AttendanceRecord → AttendanceRecord
  manual_notes none r = r
  manual_notes (some text) r = if str_eq text "" then r else record r { notes = some text }

  pub apply_manual_attendance :
      Directory
      → Interference
      → ℕ
      → ℕ
      → ℕ
      → Option Datetime
      → Option Datetime
      → Option String
      → Ledger
      → Result (AttendanceRecord × Ledger)
  apply_manual_attendance dir env employee_id organization_id work_date in_at out_at notes ledger =
      let shift = get_active_shift dir employee_id work_date in
      let policy = get_policy dir shift organization_id in
      do
        (r, rows) ←
            get_or_create_today_record env employee_id work_date none none (shift_id_of shift none)
              ledger.records
        r' ← manual_check_out out_at policy (manual_check_in in_at shift policy r)
        let done = manual_notes notes r'
        flush_update env >> ok (done, record ledger { records = save done rows })
