-- ===== src/Attendance/Process/Windows.antt =====
-- The duplicate window: the calls that write nothing.
use attendance.Prelude.{
  ℕ, String, ◌+◌, ◌*◌, ◌<◌, ◌≡◌, refl, Bool, true, false, Option, none, some, List, not, ◌||◌,
  or_else, if◌then◌else◌, inl, inr, ap, ◌∙◌, ◌⊎◌, sym, first_where,
}
use attendance.Prelude.Errors.{Result, ok, ◌>>=◌}
use attendance.Clock.{Datetime, Zone, utc, second, local_date, shorter_than}
use attendance.Clock.Laws.{subtract-utc-as_utc, shorter_than-true}
use attendance.Attendance.Tables.{
  Employee, AttendancePolicy, Shift, AttendanceRecord, Directory, Settings,
}
use attendance.Attendance.Status.{shift_id_of}
use attendance.Attendance.Duplicates.{DupKey, check_duplicate_shared}
use attendance.Attendance.Queries.{has_key, select_record, get_active_shift, find_employee}
use attendance.Attendance.Queries.Keyed.{IsKeyed, select_record-eq-first_where}
use mathlib.Core.Path.{subst}
use attendance.Attendance.Queries.Create.{get_or_create_today_record-found}
use attendance.Attendance.Process.{
  Action, duplicate_ignored, Intent, Direction, Ledger, Call, Punch, recently, recent_action_within,
  take_action, tap_action, settle, unless_absent, recognize_found, process_recognition, tap_found,
  process_rfid_tap, policy_for, act_unless_duplicate, is_foreign, org_of, is_leave, is_outward,
  if_found, find_employee,
}
use attendance.Attendance.Process.Days.{HasRoots, find_employee-id, is_foreign-ok, org_of-ok}

-- The employee's record of the day shows a punch, and less than `window` seconds have passed.
pub record IsRecent (zone : Zone) (call : Call) (window employee_id : ℕ)
    (rows : List AttendanceRecord) (r : AttendanceRecord) : Type 0 where
  pub keyed : IsKeyed rows
  pub found : first_where (has_key employee_id (local_date zone (utc call.now))) rows ≡ some r
  pub last : Datetime
  pub punched : or_else r.check_out_at r.check_in_at ≡ some last
  pub recent : call.now < last.micros + window * second

recently-true :
    (last : Datetime) (window t : ℕ)
    → t < last.micros + window * second
    → recently (some last) window (utc t) ≡ ok true
recently-true last window t h =
    ap (λ o. o >>= λ diff. ok (shorter_than diff window)) (subtract-utc-as_utc t last)
    ∙ ap ok (shorter_than-true t last.micros window h)

or-true : (b : Bool) → (b || true) ≡ true
or-true true = refl
or-true false = refl

-- The ledger is as it was, and the outcome is nothing or a duplicate.
abbrev Ignored : AttendanceRecord → Ledger → Result (Punch × Ledger) → Type 0
Ignored r ledger m =
    (p : Punch) × (m ≡ ok (p, ledger)) × ((p ≡ none) ⊎ (p ≡ some (r, duplicate_ignored)))

Ignored-none : (r : AttendanceRecord) (ledger : Ledger) → Ignored r ledger (ok (none, ledger))
Ignored-none r ledger = (none, refl, inl refl)

Ignored-bind :
    {A : Type 0} (r : AttendanceRecord) (ledger : Ledger) (m : Result A)
    (f : A → Result (Punch × Ledger))
    → (a : A) × (m ≡ ok a)
    → ((a : A) → Ignored r ledger (f a))
    → Ignored r ledger (m >>= f)
Ignored-bind r ledger m f (a, e) h = let (p, n, k) = h a in (p, ap (λ o. o >>= f) e ∙ n, k)

Ignored-if :
    (r : AttendanceRecord) (ledger : Ledger) (b : Bool) (m n : Result (Punch × Ledger))
    → Ignored r ledger m
    → Ignored r ledger n
    → Ignored r ledger (if b then m else n)
Ignored-if r ledger true m n hm hn = hm
Ignored-if r ledger false m n hm hn = hn

if_found-Ignored :
    (o : Option AttendanceRecord) (ledger : Ledger) (r : AttendanceRecord)
    (m : Result (Punch × Ledger))
    → Ignored r ledger m
    → Ignored r ledger (if_found ledger m o)
if_found-Ignored none ledger r m h = Ignored-none r ledger
if_found-Ignored (some x) ledger r m h = h

module _ (zone : Zone) (settings : Settings) where
  settle-Ignored :
      (act : Option Shift
        → Option AttendancePolicy
        → AttendanceRecord
        → Result (AttendanceRecord × Action))
      (dir : Directory) (call : Call) (key : DupKey) (window : ℕ) (camera_id : Option ℕ)
      (employee : Employee) (org_id : Option ℕ) (ledger : Ledger) (r : AttendanceRecord)
      → IsRecent zone call window employee.id ledger.records r
      → settle zone settings act dir call key window camera_id employee org_id ledger
        ≡ ok (some (r, duplicate_ignored), ledger)
  unfolding settle recent_action_within
  settle-Ignored act dir call key window camera_id employee org_id ledger r h =
      let today = local_date zone (utc call.now) in
      let shift = get_active_shift dir employee.id today in
      let policy = policy_for zone settings dir shift org_id in
      let dup = check_duplicate_shared call.redis_get key window call.check_now ledger.marks in
      let test = λ (b : Bool).
        act_unless_duplicate zone settings (act shift policy) call key window ledger r
          ledger.records (dup || b) in
      ap
        (λ o. o >>= λ (r, rows). recent_action_within r window (utc call.now) >>= λ recent.
          act_unless_duplicate zone settings (act shift policy) call key window ledger r rows
            (dup || recent))
        (get_or_create_today_record-found call.interference employee.id today employee.location_id
          camera_id (shift_id_of shift none) ledger.records r h.keyed h.found)
      ∙ ap (λ o. recently o window (utc call.now) >>= test) h.punched
      ∙ ap (λ o. o >>= test) (recently-true h.last window call.now h.recent)
      ∙ ap
          (act_unless_duplicate zone settings (act shift policy) call key window ledger r
            ledger.records)
          (or-true dup)

  unless_absent-Ignored :
      (b : Bool) (e d : ℕ) (ledger : Ledger) (r : AttendanceRecord) (m : Result (Punch × Ledger))
      → IsKeyed ledger.records
      → Ignored r ledger m
      → Ignored r ledger (unless_absent b e d ledger m)
  unless_absent-Ignored false e d ledger r m keyed h = h
  unless_absent-Ignored true e d ledger r m keyed h =
      Ignored-bind r ledger (select_record e d ledger.records) _
        (_, select_record-eq-first_where e d ledger.records keyed)
        (λ o. if_found-Ignored o ledger r m h)

  -- Where organization ids are unique, a recognition of an employee whose record of the day shows
  -- a punch less than the window ago changes nothing: not the records, not the marks, whatever
  -- the camera, the intent, the caller and the state of Redis and of the cache. It reports a
  -- duplicate, or nothing at all.
  pub process_recognition-recent :
      (dir : Directory) (call : Call) (employee_id : ℕ) (camera_id organization_id : Option ℕ)
      (method : String) (intent : Intent) (ledger : Ledger) (r : AttendanceRecord)
      → HasRoots dir
      → IsRecent zone call settings.face_duplicate_window_seconds employee_id ledger.records r
      → (p : Punch) × (process_recognition zone settings dir call employee_id camera_id
            organization_id method intent ledger
          ≡ ok (p, ledger))
        × ((p ≡ none) ⊎ (p ≡ some (r, duplicate_ignored)))
  unfolding process_recognition
  process_recognition-recent dir call employee_id camera_id organization_id method intent ledger r
        roots h =
      found (find_employee employee_id dir)
        (λ employee. find_employee-id dir employee_id {employee = employee})
    where
      found :
          (o : Option Employee)
          → ((employee : Employee) → o ≡ some employee → employee.id ≡ employee_id)
          → Ignored r ledger (
              recognize_found zone settings dir call o camera_id organization_id method intent
                ledger)
      found none same = Ignored-none r ledger
      found (some employee) same =
          Ignored-if r ledger (not employee.is_active) _ _ (Ignored-none r ledger) (
            Ignored-bind r ledger (is_foreign dir organization_id employee) _
              (is_foreign-ok zone settings dir organization_id employee roots)
              λ b. Ignored-if r ledger b _ _ (Ignored-none r ledger) (
                Ignored-bind r ledger (org_of dir employee) _
                  (org_of-ok zone settings dir employee roots)
                  λ o. unless_absent-Ignored (is_leave intent) employee.id _ ledger r _ h.keyed (
                    some (r, duplicate_ignored),
                    settle-Ignored
                        (take_action zone settings intent (utc call.now) method camera_id) dir call
                        _ _ camera_id employee o ledger r
                        (subst
                          (λ n.
                            IsRecent zone call settings.face_duplicate_window_seconds n
                              ledger.records r)
                          (sym (same employee refl)) h),
                    inr refl,
                  )))

  -- Where organization ids are unique, a tap at any reader by an employee whose record of the day
  -- shows a punch less than the readers' window ago changes nothing: not the records and not the
  -- marks. It reports a duplicate, or nothing at all.
  pub process_rfid_tap-recent :
      (dir : Directory) (call : Call) (employee_id : ℕ) (direction : Direction) (ledger : Ledger)
      (r : AttendanceRecord)
      → HasRoots dir
      → IsRecent zone call settings.rfid_duplicate_window_seconds employee_id ledger.records r
      → (p : Punch) × (process_rfid_tap zone settings dir call employee_id direction ledger
          ≡ ok (p, ledger))
        × ((p ≡ none) ⊎ (p ≡ some (r, duplicate_ignored)))
  unfolding process_rfid_tap
  process_rfid_tap-recent dir call employee_id direction ledger r roots h =
      found (find_employee employee_id dir)
        (λ employee. find_employee-id dir employee_id {employee = employee})
    where
      found :
          (o : Option Employee)
          → ((employee : Employee) → o ≡ some employee → employee.id ≡ employee_id)
          → Ignored r ledger (tap_found zone settings dir call o direction ledger)
      found none same = Ignored-none r ledger
      found (some employee) same =
          Ignored-if r ledger (not employee.is_active) _ _ (Ignored-none r ledger) (
            Ignored-bind r ledger (org_of dir employee) _
              (org_of-ok zone settings dir employee roots)
              λ o. unless_absent-Ignored (is_outward direction) employee.id _ ledger r _ h.keyed (
                some (r, duplicate_ignored),
                settle-Ignored (tap_action zone settings direction (utc call.now)) dir call _ _ none
                    employee o ledger r
                    (subst
                      (λ n.
                        IsRecent zone call settings.rfid_duplicate_window_seconds n ledger.records
                          r)
                      (sym (same employee refl)) h),
                inr refl,
              ))
