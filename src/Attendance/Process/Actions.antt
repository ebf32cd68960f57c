-- ===== src/Attendance/Process/Actions.antt =====
-- What one punch may do to a record: `take_action` and `tap_action`.
use attendance.Prelude.{
  ℕ, String, ◌≡◌, refl, Bool, true, false, Option, none, some, is_some, arith, ◌∙◌, not, ◌&&◌,
  if◌then◌else◌, ap,
}
use attendance.Prelude.Errors.{Result, ok, ◌>>=◌}
use attendance.Clock.{Datetime, Zone}
use attendance.Attendance.Tables.{AttendancePolicy, Shift, AttendanceRecord, Settings}
use attendance.Attendance.Status.{
  apply_check_in, apply_check_out, calc_worked, checked_out, check_out_since,
}
use attendance.Attendance.Status.Bounds.{calc_worked_total}
use attendance.Attendance.Process.{
  Action, check_in, check_out, already_complete, already_checked_in, nothing, Intent, entry, leave,
  toggle, tapped_in, is_entry, is_exit, Direction, take_action, tap_action, writes,
}

check_out_since-ok :
    (settings : Settings) (r : AttendanceRecord) (now i : Datetime) (method : String)
    (policy : Option AttendancePolicy) (w : ℕ × ℕ)
    → calc_worked settings i now policy ≡ ok w
    → check_out_since settings (some i) r now method policy
      ≡ ok (checked_out settings r now method policy w)
check_out_since-ok settings r now i method policy w c =
    ap (λ m. m >>= λ worked. ok (checked_out settings r now method policy worked)) c

-- A check-out of a checked-in record never raises.
pub apply_check_out-ok :
    (settings : Settings) (r : AttendanceRecord) (now i : Datetime) (method : String)
    (policy : Option AttendancePolicy)
    → r.check_in_at ≡ some i
    → (w : ℕ × ℕ) × (calc_worked settings i now policy ≡ ok w)
      × (apply_check_out settings r now method policy
          ≡ ok (checked_out settings r now method policy w))
unfolding apply_check_out
apply_check_out-ok settings r now i method policy e =
    let (w, c) = calc_worked_total settings i now policy in
    (
      w,
      c,
      ap (λ o. check_out_since settings o r now method policy) e
          ∙ check_out_since-ok settings r now i method policy w c,
    )

-- What is left alone: the keys of the row, its punches that are there, and its notes.
pub record Keeps (r r' : AttendanceRecord) : Type 0 where
  pub id : r'.id ≡ r.id
  pub employee_id : r'.employee_id ≡ r.employee_id
  pub work_date : r'.work_date ≡ r.work_date
  pub check_in_at : is_some r.check_in_at ≡ true → r'.check_in_at ≡ r.check_in_at
  pub check_out_at : is_some r.check_out_at ≡ true → r'.check_out_at ≡ r.check_out_at
  pub notes : r'.notes ≡ r.notes

-- What an action says of the record before and after it.
abbrev pub Reports : Datetime → AttendanceRecord → AttendanceRecord → Action → Type 0
Reports now r r' check_in =
    (r.check_in_at ≡ none) × (r'.check_in_at ≡ some now) × (r'.check_out_at ≡ r.check_out_at)
Reports now r r' check_out =
    (is_some r.check_in_at ≡ true) × (r.check_out_at ≡ none) × (r'.check_out_at ≡ some now)
Reports now r r' _ = r' ≡ r

is_some-true {ℓ} : {A : Type ℓ} (o : Option A) → is_some o ≡ true → (a : A) × (o ≡ some a)
is_some-true none h = cc
is_some-true (some a) h = (a, refl)

is_some-false {ℓ} : {A : Type ℓ} (o : Option A) → is_some o ≡ false → o ≡ none
is_some-false none h = refl
is_some-false (some a) h = cc

module _ (zone : Zone) (settings : Settings) where
  abbrev Outcome : Datetime → AttendanceRecord → Result (AttendanceRecord × Action) → Type 0
  Outcome now r m =
      (r' : AttendanceRecord) × (a : Action) × (m ≡ ok (r', a)) × Keeps r r' × Reports now r r' a

  check_in-Outcome :
      (now : Datetime) (method : String) (camera_id : Option ℕ) (shift : Option Shift)
      (policy : Option AttendancePolicy) (r : AttendanceRecord)
      → r.check_in_at ≡ none
      → Outcome now r (ok (apply_check_in zone r now method camera_id shift policy, check_in))
  unfolding apply_check_in
  check_in-Outcome now method camera_id shift policy r e = (_, _, refl, ground arith, ground arith)

  check_out-Outcome :
      (now i : Datetime) (method : String) (policy : Option AttendancePolicy) (r : AttendanceRecord)
      → r.check_in_at ≡ some i
      → r.check_out_at ≡ none
      → Outcome now r (apply_check_out settings r now method policy >>= λ r'. ok (r', check_out))
  check_out-Outcome now i method policy r e f =
      let (w, c, d) = apply_check_out-ok settings r now i method policy e in
      (checked_out settings r now method policy w, check_out, rw d, ground arith, ground arith)

  kept-Outcome :
      (now : Datetime) (r : AttendanceRecord) (a : Action)
      → writes a ≡ false
      → Outcome now r (ok (r, a))
  kept-Outcome now r a h = (r, a, refl, ground arith, ground arith)

  if-Outcome :
      (now : Datetime) (r : AttendanceRecord) (b : Bool) (m n : Result (AttendanceRecord × Action))
      → (b ≡ true → Outcome now r m)
      → (b ≡ false → Outcome now r n)
      → Outcome now r (if b then m else n)
  if-Outcome now r true m n hm hn = hm refl
  if-Outcome now r false m n hm hn = hn refl

  check_out_if-Outcome :
      (now : Datetime) (method : String) (policy : Option AttendancePolicy) (r : AttendanceRecord)
      → is_some r.check_in_at ≡ true
      → is_some r.check_out_at ≡ false
      → Outcome now r (apply_check_out settings r now method policy >>= λ r'. ok (r', check_out))
  check_out_if-Outcome now method policy r e f =
      let (i, e') = is_some-true r.check_in_at e in
      check_out-Outcome now i method policy r e' (is_some-false r.check_out_at f)

  check_in_if-Outcome :
      (now : Datetime) (method : String) (camera_id : Option ℕ) (shift : Option Shift)
      (policy : Option AttendancePolicy) (r : AttendanceRecord)
      → not (is_some r.check_in_at) ≡ true
      → Outcome now r (ok (apply_check_in zone r now method camera_id shift policy, check_in))
  check_in_if-Outcome now method camera_id shift policy r e =
      check_in-Outcome now method camera_id shift policy r
        (is_some-false r.check_in_at (ground arith))

  tapped_in-Outcome :
      (now : Datetime) (shift : Option Shift) (policy : Option AttendancePolicy)
      (r : AttendanceRecord)
      → r.check_in_at ≡ none
      → Outcome now r (ok (tapped_in zone settings r now shift policy, check_in))
  tapped_in-Outcome now shift policy r e = (_, _, refl, ground arith, ground arith)

  -- Every recognition, whatever its intent, succeeds on every record. It keeps the row's keys,
  -- its notes and the punches that are there; a check-in is reported only for a day with none
  -- before and records the present time, a check-out only for a day that is checked in and not
  -- out; any other outcome leaves the record as it was.
  pub take_action-Outcome :
      (intent : Intent) (now : Datetime) (method : String) (camera_id : Option ℕ)
      (shift : Option Shift) (policy : Option AttendancePolicy) (r : AttendanceRecord)
      → (r' : AttendanceRecord) × (a : Action) × (take_action zone settings intent now method
            camera_id shift policy r
          ≡ ok (r', a))
        × Keeps r r'
        × Reports now r r' a
  unfolding take_action
  take_action-Outcome entry now method camera_id shift policy r =
      if-Outcome now r (not (is_some r.check_in_at)) _ _
        (check_in_if-Outcome now method camera_id shift policy r)
        (λ _. kept-Outcome now r already_checked_in refl)
  take_action-Outcome leave now method camera_id shift policy r =
      if-Outcome now r (is_some r.check_in_at && not (is_some r.check_out_at)) _ _
        (λ e. check_out_if-Outcome now method policy r (ground arith) (ground arith))
        (λ _.
          if-Outcome now r (not (is_some r.check_in_at)) _ _ (λ _. kept-Outcome now r nothing refl)
            (λ _. kept-Outcome now r already_complete refl))
  take_action-Outcome toggle now method camera_id shift policy r =
      if-Outcome now r (not (is_some r.check_in_at)) _ _
        (check_in_if-Outcome now method camera_id shift policy r)
        (λ e.
          if-Outcome now r (not (is_some r.check_out_at)) _ _
            (λ f. check_out_if-Outcome now method policy r (ground arith) (ground arith))
            (λ _. kept-Outcome now r already_complete refl))

  -- Every tap, whatever the reader's direction, succeeds on every record. It keeps the row's
  -- keys, its notes and the punches that are there; a check-in is reported only for a day with
  -- none before and records the present time, a check-out only for a day that is checked in and
  -- not out; any other outcome leaves the record as it was.
  pub tap_action-Outcome :
      (direction : Direction) (now : Datetime) (shift : Option Shift)
      (policy : Option AttendancePolicy) (r : AttendanceRecord)
      → (r' : AttendanceRecord) × (a : Action) × (tap_action zone settings direction now shift
            policy r
          ≡ ok (r', a))
        × Keeps r r'
        × Reports now r r' a
  unfolding tap_action
  tap_action-Outcome direction now shift policy r =
      if-Outcome now r (is_entry direction && not (is_some r.check_in_at)) _ _
        (λ e. tapped_in-Outcome now shift policy r (is_some-false r.check_in_at (ground arith)))
        (λ e.
          if-Outcome now r
            (is_exit direction && (is_some r.check_in_at && not (is_some r.check_out_at))) _ _
            (λ f. check_out_if-Outcome now "rfid" policy r (ground arith) (ground arith))
            (λ _. kept-Outcome now r nothing refl))
