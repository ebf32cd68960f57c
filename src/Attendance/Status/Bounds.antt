-- ===== src/Attendance/Status/Bounds.antt =====
-- What the status and the minutes of a record amount to, over every policy.
use attendance.Prelude.{ℕ, ◌/◌, ◌-◌, ◌≤◌, ◌≡◌, ◌≢◌, ap, Option, none, some, arith}
use attendance.Prelude.Int.{pos, pos_part, ◌≤ℤ◌, ◌-ℤ◌, trunc_div}
use attendance.Prelude.Errors.{Result, ok, ◌>>=◌}
use attendance.Clock.{Datetime, Zone, to_local, minute, day}
use attendance.Clock.Laws.{subtract-as_utc}
use attendance.Attendance.Tables.{
  Status, absent, present, late, half_day, early_leave, AttendancePolicy, Shift, Settings,
}
use attendance.Attendance.Status.{
  resolve_status, calc_worked, resolve_checkout_status, break_of, overtime_threshold_of,
  half_day_of, min_work_of,
}

-- Whole minutes from one datetime to a later one; none if the second is the earlier.
abbrev pub minutes_between : Datetime → Datetime → ℕ
minutes_between a b = (b.micros - a.micros) / minute

raw_minutes_lem :
    (a b n : ℕ) → pos_part (trunc_div (pos b -ℤ pos a) minute -ℤ pos n) ≡ (b - a) / minute - n
raw_minutes_lem a b n = ground arith

overtime_lem : (w n : ℕ) → pos_part (pos w -ℤ pos n) ≡ w - n
overtime_lem w n = ground arith

-- For a break and an overtime threshold that are not negative, the minutes never fail, whether
-- the datetimes are aware or naive; the worked minutes are the whole minutes between the two less
-- the break, at least zero, and the overtime is what passes the threshold.
pub calc_worked_lem :
    (settings : Settings) (check_in check_out : Datetime) (policy : Option AttendancePolicy)
    (rest threshold : ℕ)
    → break_of settings policy ≡ pos rest
    → overtime_threshold_of settings policy ≡ pos threshold
    → calc_worked settings check_in check_out policy
      ≡ ok (
        minutes_between check_in check_out - rest,
        minutes_between check_in check_out - rest - threshold,
      )
unfolding calc_worked
calc_worked_lem settings check_in check_out policy rest threshold b t =
    rw (subtract-as_utc check_out check_in, b, t, raw_minutes_lem)
      (ap (λ o. ok (minutes_between check_in check_out - rest, o)) (overtime_lem _ threshold))

total_bind {ℓ κ} :
    {A : Type ℓ} {B : Type κ} (m : Result A) (a : A) (f : A → B)
    → m ≡ ok a
    → (b : B) × ((m >>= λ x. ok (f x)) ≡ ok b)
total_bind m a f e = (f a, rw e)

-- The minutes are computed for every pair of datetimes and every policy, aware or naive and
-- negative settings included.
pub calc_worked_total :
    (settings : Settings) (check_in check_out : Datetime) (policy : Option AttendancePolicy)
    → (w : ℕ × ℕ) × (calc_worked settings check_in check_out policy ≡ ok w)
unfolding calc_worked
calc_worked_total settings check_in check_out policy =
    total_bind _ _ _ (subtract-as_utc check_out check_in)

-- Where the full day asks for no more minutes than the half day, no check-out is an early leave.
pub resolve_checkout_status-ne-early_leave :
    (settings : Settings) (worked : ℕ) (policy : Option AttendancePolicy) (current : Status)
    → min_work_of settings policy ≤ℤ half_day_of settings policy
    → resolve_checkout_status settings worked policy current ≢ early_leave
unfolding resolve_checkout_status
resolve_checkout_status-ne-early_leave settings worked policy current h = ground arith

-- How full a day the status at check-out stands for.
abbrev pub fullness : Status → ℕ
fullness absent = 0
fullness half_day = 1
fullness early_leave = 2
fullness late = 3
fullness present = 3

-- More worked minutes never give a less full day, whatever the policy and the status before.
pub fullness-resolve_checkout_status_mono :
    (settings : Settings) (v w : ℕ) (policy : Option AttendancePolicy) (current : Status)
    → v ≤ w
    → fullness (resolve_checkout_status settings v policy current)
      ≤ fullness (resolve_checkout_status settings w policy current)
unfolding resolve_checkout_status
fullness-resolve_checkout_status_mono settings v w policy current h = ground arith

-- On one local day, whoever checks in no earlier than a late arrival is late too.
pub resolve_status_mono :
    (zone : Zone) (a b : Datetime) (shift : Option Shift) (policy : Option AttendancePolicy)
    → to_local zone a ≤ to_local zone b
    → to_local zone a / day ≡ to_local zone b / day
    → resolve_status zone a shift policy ≡ late
    → resolve_status zone b shift policy ≡ late
unfolding resolve_status
resolve_status_mono zone a b none policy h same e = e
resolve_status_mono zone a b (some shift) policy h same e = ground arith

-- A policy with no minutes of grace gives the status of one with fifteen.
pub resolve_status_zero_grace :
    (zone : Zone) (check_in_at : Datetime) (shift : Option Shift) (policy : AttendancePolicy)
    → resolve_status zone check_in_at shift (some (record policy { grace_minutes = pos 0 }))
      ≡ resolve_status zone check_in_at shift (some (record policy { grace_minutes = pos 15 }))
unfolding resolve_status
resolve_status_zero_grace zone check_in_at none policy = ground arith
resolve_status_zero_grace zone check_in_at (some shift) policy = ground arith
