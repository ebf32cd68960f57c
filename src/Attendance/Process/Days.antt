-- ===== src/Attendance/Process/Days.antt =====
-- What the entry points do to the table of records: the days stay unique, and no punch is lost.
use attendance.Prelude.{
  not, ◌==◌, if◌then◌else◌, same_id, or_id, ℕ, ◌≡◌, refl, Bool, true, false, Option, none, some,
  List, Bool-cases, inl, inr, ap, String, ==_iff,
}
use attendance.Prelude.Errors.{Result, ok, ◌>>=◌}
use attendance.Clock.{Zone, utc}
use attendance.Tenant.Ascents.{HasUniqueIds}
use attendance.Tenant.Single.{root_id_of_total}
use attendance.Attendance.Tables.{AttendanceRecord, Settings}
use attendance.Attendance.Queries.Keyed.{
  IsKeyed, select_record-eq-first_where, IsKeyed-prefix, first_where-true,
}
use attendance.Attendance.Queries.Create.{IsSerial, is_lost}
use attendance.Attendance.Process.{
  Ledger, Call, Punch, Directory, Employee, unless_absent, process_recognition, select_record,
  Intent, recognize_found, process_rfid_tap, org_of, is_foreign, if_found, is_leave, Direction,
  tap_found, local_date, take_action, is_outward, tap_action, find_employee,
}
use attendance.Attendance.Process.Actions.{take_action-Outcome, tap_action-Outcome}
use attendance.Attendance.Process.Settle.{KeepsDays-refl, Tried, Tried-bind, settle-Tried}
use mathlib.Core.Path.{subst}

-- The primary key of `organizations`, by which every node has at most one company root.
abbrev pub HasRoots : Directory → Type 0
HasRoots dir = HasUniqueIds dir.organizations

-- The employee that a search by id finds has that id.
pub find_employee-id :
    (dir : Directory) (employee_id : ℕ) {employee : Employee}
    → find_employee employee_id dir ≡ some employee
    → employee.id ≡ employee_id
find_employee-id dir employee_id {employee} h =
    (==_iff employee.id employee_id).0 (first_where-true (λ e. e.id == employee_id) dir.employees h)

-- Whether the employee's insert race is lost on the day of a call.
abbrev pub loses_race : Zone → Call → ℕ → Ledger → Bool
loses_race zone call employee_id ledger =
    is_lost call.interference employee_id (local_date zone (utc call.now)) ledger.records

Tried-refl :
    (lost : Bool) (ledger : Ledger)
    → IsKeyed ledger.records
    → Tried lost ledger.records (ok (none, ledger))
Tried-refl lost ledger keyed = inl (none, ledger, refl, keyed, KeepsDays-refl ledger.records)

Tried-if :
    (lost : Bool) (rows : List AttendanceRecord) (b : Bool) (m n : Result (Punch × Ledger))
    → Tried lost rows m
    → Tried lost rows n
    → Tried lost rows (if b then m else n)
Tried-if lost rows true m n hm hn = hm
Tried-if lost rows false m n hm hn = hn

if_found-Tried :
    (lost : Bool) (ledger : Ledger) (m : Result (Punch × Ledger)) (o : Option AttendanceRecord)
    → IsKeyed ledger.records
    → Tried lost ledger.records m
    → Tried lost ledger.records (if_found ledger m o)
if_found-Tried lost ledger m none keyed h = Tried-refl lost ledger keyed
if_found-Tried lost ledger m (some r) keyed h = h

module _ (zone : Zone) (settings : Settings) where
  unless_absent-Tried :
      (lost : Bool) (b : Bool) (e d : ℕ) (ledger : Ledger) (m : Result (Punch × Ledger))
      → IsKeyed ledger.records
      → Tried lost ledger.records m
      → Tried lost ledger.records (unless_absent b e d ledger m)
  unless_absent-Tried lost false e d ledger m keyed h = h
  unless_absent-Tried lost true e d ledger m keyed h =
      Tried-bind lost ledger.records (select_record e d ledger.records) _
        (_, select_record-eq-first_where e d ledger.records keyed)
        (λ o. if_found-Tried lost ledger m o keyed h)

  pub is_foreign-ok :
      (dir : Directory) (organization_id : Option ℕ) (employee : Employee)
      → HasRoots dir
      → (b : Bool) × (is_foreign dir organization_id employee ≡ ok b)
  is_foreign-ok dir none employee roots = (false, refl)
  is_foreign-ok dir (some org) employee roots =
      let (root, e) = root_id_of_total dir.organizations roots employee.organization_id in
      elim (Bool-cases (employee.organization_id == org)) [
        | inl same ↦ (false, rw same refl)
        | inr other ↦ (
          not (same_id root (some org)),
          rw other (ap (λ m. m >>= λ r. ok (not (same_id r (some org)))) e),
        )
      ]

  pub org_of-ok :
      (dir : Directory) (employee : Employee)
      → HasRoots dir
      → (o : Option ℕ) × (org_of dir employee ≡ ok o)
  org_of-ok dir employee roots =
      let (root, e) = root_id_of_total dir.organizations roots employee.organization_id in
      (
        or_id root (some employee.organization_id),
        ap (λ m. m >>= λ r. ok (or_id r (some employee.organization_id))) e,
      )

  -- Where organization ids are unique, the database serializes its constraints and the rows that
  -- are written meet every constraint but the unique day, a recognition of any employee, from any
  -- camera, for any caller and with any intent succeeds, unless the day's insert race is lost: no
  -- record is there yet, and another transaction commits one between the select and the flush.
  -- Then alone the call may raise, and it raises `InvalidRequestError`. After a success each
  -- employee has at most one record a day, and every record from before is there with the
  -- check-in and the check-out that it had.
  pub process_recognition-KeepsDays :
      (dir : Directory) (call : Call) (employee_id : ℕ) (camera_id organization_id : Option ℕ)
      (method : String) (intent : Intent) (ledger : Ledger)
      → HasRoots dir
      → IsSerial call.interference ledger.records
      → Tried (loses_race zone call employee_id ledger) ledger.records (
          process_recognition zone settings dir call employee_id camera_id organization_id method
            intent ledger)
  unfolding process_recognition
  process_recognition-KeepsDays dir call employee_id camera_id organization_id method intent ledger
        roots serial =
      let keyed = IsKeyed-prefix ledger.records call.interference.rivals serial.keyed in
      found (find_employee employee_id dir)
        (λ employee. find_employee-id dir employee_id {employee = employee}) keyed
    where
      found :
          (o : Option Employee)
          → ((employee : Employee) → o ≡ some employee → employee.id ≡ employee_id)
          → IsKeyed ledger.records
          → Tried (loses_race zone call employee_id ledger) ledger.records (
              recognize_found zone settings dir call o camera_id organization_id method intent
                ledger)
      found none same keyed = Tried-refl (loses_race zone call employee_id ledger) ledger keyed
      found (some employee) same keyed =
          subst
            (λ n. Tried (loses_race zone call n ledger) ledger.records (
              recognize_found zone settings dir call (some employee) camera_id organization_id
                method intent ledger))
            (same employee refl)
            (let lost = loses_race zone call employee.id ledger in
              Tried-if lost ledger.records (not employee.is_active) _ _
                (Tried-refl lost ledger keyed)
                (Tried-bind lost ledger.records (is_foreign dir organization_id employee) _
                  (is_foreign-ok dir organization_id employee roots)
                  λ b. Tried-if lost ledger.records b _ _ (Tried-refl lost ledger keyed) (
                    Tried-bind lost ledger.records (org_of dir employee) _
                      (org_of-ok dir employee roots)
                      λ o. unless_absent-Tried lost (is_leave intent) employee.id _ ledger _ keyed (
                        settle-Tried zone settings
                          (take_action zone settings intent (utc call.now) method camera_id) dir
                          call _ _ camera_id employee o ledger
                          (λ shift policy r.
                            let (r', a, m, k, _) =
                              take_action-Outcome zone settings intent (utc call.now) method
                                camera_id shift policy r in
                            (r', a, m, k))
                          serial))))

  -- Where organization ids are unique, the database serializes its constraints and the rows that
  -- are written meet every constraint but the unique day, a tap of any employee at a reader of
  -- any direction succeeds, unless the day's insert race is lost: no record is there yet, and
  -- another transaction commits one between the select and the flush. Then alone the call may
  -- raise, and it raises `InvalidRequestError`. After a success each employee has at most one
  -- record a day, and every record from before is there with the check-in and the check-out that
  -- it had.
  pub process_rfid_tap-KeepsDays :
      (dir : Directory) (call : Call) (employee_id : ℕ) (direction : Direction) (ledger : Ledger)
      → HasRoots dir
      → IsSerial call.interference ledger.records
      → Tried
          (loses_race zone call employee_id ledger)
          ledger.records
          (process_rfid_tap zone settings dir call employee_id direction ledger)
  unfolding process_rfid_tap
  process_rfid_tap-KeepsDays dir call employee_id direction ledger roots serial =
      let keyed = IsKeyed-prefix ledger.records call.interference.rivals serial.keyed in
      found (find_employee employee_id dir)
        (λ employee. find_employee-id dir employee_id {employee = employee}) keyed
    where
      found :
          (o : Option Employee)
          → ((employee : Employee) → o ≡ some employee → employee.id ≡ employee_id)
          → IsKeyed ledger.records
          → Tried
              (loses_race zone call employee_id ledger)
              ledger.records
              (tap_found zone settings dir call o direction ledger)
      found none same keyed = Tried-refl (loses_race zone call employee_id ledger) ledger keyed
      found (some employee) same keyed =
          subst
            (λ n.
              Tried (loses_race zone call n ledger) ledger.records
                (tap_found zone settings dir call (some employee) direction ledger))
            (same employee refl)
            (let lost = loses_race zone call employee.id ledger in
              Tried-if lost ledger.records (not employee.is_active) _ _
                (Tried-refl lost ledger keyed)
                (Tried-bind lost ledger.records (org_of dir employee) _
                  (org_of-ok dir employee roots)
                  λ o.
                    unless_absent-Tried lost (is_outward direction) employee.id _ ledger _ keyed (
                      settle-Tried zone settings (tap_action zone settings direction (utc call.now))
                        dir call _ _ none employee o ledger
                        (λ shift policy r.
                          let (r', a, m, k, _) =
                            tap_action-Outcome zone settings direction (utc call.now) shift policy
                              r in
                          (r', a, m, k))
                        serial)))
