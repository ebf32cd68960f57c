-- ===== src/Tests/Status.antt =====
-- Status, minutes and duplicate marks at concrete inputs.
use attendance.Prelude.{◌+◌, ◌-◌, ◌*◌, ◌≡◌, refl, some, [], ◌∷◌}
use attendance.Prelude.Int.{pos, ◌-ℤ◌}
use attendance.Prelude.Errors.{ok}
use attendance.Clock.{utc, minute, shorter_than}
use attendance.Attendance.Tables.{late}
use attendance.Attendance.Status.{resolve_status, calc_worked}
use attendance.Attendance.Status.Bounds.{minutes_between, calc_worked_lem}
use attendance.Attendance.Duplicates.{
  face, DupKey, Marks, disabled, check_duplicate_shared, arm_duplicate_shared,
}
use attendance.Attendance.Duplicates.Cache.{check-arm_duplicate_shared}
use attendance.Tests.Data.{zone, settings, policy, shift, morning, evening, marks}

calc_worked_lem_example :
    calc_worked settings (utc morning) (utc evening) (some policy)
    ≡ ok (
      minutes_between (utc morning) (utc evening) - 30,
      minutes_between (utc morning) (utc evening) - 30 - 480,
    )
calc_worked_lem_example =
    calc_worked_lem settings (utc morning) (utc evening) (some policy) 30 480 refl refl

ten_late : resolve_status zone (utc (morning + 10 * minute)) (some shift) (some policy) ≡ late
unfolding resolve_status
ten_late = refl

abbrev key : DupKey
key = record { source = face; employee = 7 }

abbrev marked : Marks
marked = record marks { dup_cache = (key, morning) ∷ [] }

check-arm_duplicate_shared_example :
    check_duplicate_shared disabled key 300 evening
      (arm_duplicate_shared settings disabled key 300 morning marks)
    ≡ shorter_than (pos evening -ℤ pos morning) 300
check-arm_duplicate_shared_example =
    check-arm_duplicate_shared settings key 300 morning evening marks
