-- ===== src/Clock.antt =====
-- Datetimes and the application's timezone: backend/app/core/timeutil.py, and `_as_utc` of
-- backend/app/services/attendance_service.py. An instant is the count of microseconds since the
-- start of the year 1, the least that Python's `datetime` holds. `zoneinfo` enters as `Zone`.
pub mod Laws
use attendance.Prelude.{ℕ, ◌+◌, ◌*◌, ◌/◌, Bool, true, false, if◌then◌else◌}
use attendance.Prelude.Int.{ℤ, pos, ◌-ℤ◌, ltb_ℤ}
use attendance.Prelude.Errors.{Result, ok, err, type_error}

abbrev pub second : ℕ
second = 1_000_000

abbrev pub minute : ℕ
minute = 60_000_000

abbrev pub day : ℕ
day = 86_400_000_000

-- An aware datetime holds its instant; a naive one the instant that it stands for in UTC.
pub record Datetime : Type 0 where
  pub micros : ℕ
  pub aware : Bool

-- `datetime.now(timezone.utc)` at an instant.
abbrev pub utc : ℕ → Datetime
utc t = record { micros = t; aware = true }

abbrev pub as_utc : Datetime → Datetime
as_utc dt = if dt.aware then dt else utc dt.micros

abbrev same_awareness : Bool → Bool → Bool
same_awareness true b = b
same_awareness false true = false
same_awareness false false = true

-- `a - b` in microseconds: Python raises a `TypeError` for a naive and an aware operand.
abbrev pub subtract : Datetime → Datetime → Result ℤ
subtract a b =
    if same_awareness a.aware b.aware then ok (pos a.micros -ℤ pos b.micros) else err type_error

-- `(a - b).total_seconds() < window` for a difference in microseconds.
abbrev pub shorter_than : ℤ → ℕ → Bool
shorter_than diff window = ltb_ℤ diff (pos (window * second))

-- The conversions of `zoneinfo`, for the configured timezone: the wall clock that an instant
-- shows, in microseconds since the start of the year 1, and the instant at which a day begins.
pub record Zone : Type 0 where
  pub wall : ℕ → ℕ
  pub midnight : ℕ → ℕ

module _ (zone : Zone) where
  -- The wall clock of `to_local(dt)`: a naive datetime is read as UTC.
  abbrev pub to_local : Datetime → ℕ
  to_local dt = zone.wall (as_utc dt).micros

  -- `to_local(dt).date()`, as the count of days since the start of the year 1.
  abbrev pub local_date : Datetime → ℕ
  local_date dt = to_local dt / day

  abbrev pub local_day_bounds_utc : ℕ → Datetime × Datetime
  local_day_bounds_utc d = (utc (zone.midnight d), utc (zone.midnight (d + 1)))

-- `local.replace(hour=h, minute=m, second=0, microsecond=0)` of a wall clock.
abbrev pub replace_time : ℕ → ℕ → ℕ → ℕ
replace_time local h m = local / day * day + h * (60 * minute) + m * minute
