-- ===== src/Clock/Laws.antt =====
-- Coerced datetimes subtract without a `TypeError`, and the widths of the tests on differences.
use attendance.Prelude.{ℕ, ◌+◌, ◌*◌, ◌<◌, ◌≤◌, ◌≡◌, true, false, arith}
use attendance.Prelude.Int.{pos, ◌-ℤ◌}
use attendance.Prelude.Errors.{ok}
use attendance.Clock.{Datetime, as_utc, subtract, utc, shorter_than, second}

-- The difference of two coerced datetimes is that of their instants, aware or naive.
pub subtract-as_utc :
    (a b : Datetime) → subtract (as_utc a) (as_utc b) ≡ ok (pos a.micros -ℤ pos b.micros)
subtract-as_utc a b = ground arith

pub subtract-utc-as_utc :
    (t : ℕ) (b : Datetime) → subtract (utc t) (as_utc b) ≡ ok (pos t -ℤ pos b.micros)
subtract-utc-as_utc t b = ground arith

-- Within the window: from before the mark up to, and not including, its end.
pub shorter_than-true : (t b w : ℕ) → t < b + w * second → shorter_than (pos t -ℤ pos b) w ≡ true
shorter_than-true t b w h = ground arith

pub shorter_than-false : (t b w : ℕ) → b + w * second ≤ t → shorter_than (pos t -ℤ pos b) w ≡ false
shorter_than-false t b w h = ground arith
