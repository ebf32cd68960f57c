-- ===== src/Attendance/Process/Absence.antt =====
-- Exits without a record of the day: the calls that create nothing.
use attendance.Prelude.{
  ℕ, String, ◌≡◌, refl, Bool, true, false, Option, none, some, not, if◌then◌else◌, ap, ◌∙◌, sym,
  first_where,
}
use attendance.Prelude.Errors.{Result, ok, ◌>>=◌}
use attendance.Clock.{Zone, utc, local_date}
use attendance.Attendance.Tables.{Employee, Directory, Settings}
use attendance.Attendance.Queries.{has_key, find_employee}
use attendance.Attendance.Queries.Keyed.{IsKeyed, select_record-eq-first_where}
use mathlib.Core.Path.{subst}
use attendance.Attendance.Process.{
  leave, outward, Ledger, Call, Punch, unless_absent, recognize_found, process_recognition,
  tap_found, process_rfid_tap, is_foreign, org_of, if_found, find_employee,
}
use attendance.Attendance.Process.Days.{find_employee-id, HasRoots, is_foreign-ok, org_of-ok}

Same-if : {A : Type 0} (a : A) (b : Bool) (m n : A) → m ≡ a → n ≡ a → (if b then m else n) ≡ a
Same-if a true m n hm hn = hm
Same-if a false m n hm hn = hn

Same-bind :
    {A B : Type 0} (c : Result B) (m : Result A) (f : A → Result B)
    → (a : A) × (m ≡ ok a)
    → ((a : A) → f a ≡ c)
    → (m >>= f) ≡ c
Same-bind c m f (a, e) h = ap (λ o. o >>= f) e ∙ h a

module _ (zone : Zone) (settings : Settings) where
  absent-Ignored :
      (e d : ℕ) (ledger : Ledger) (m : Result (Punch × Ledger))
      → IsKeyed ledger.records
      → first_where (has_key e d) ledger.records ≡ none
      → unless_absent true e d ledger m ≡ ok (none, ledger)
  absent-Ignored e d ledger m keyed absent =
      ap (λ o. o >>= if_found ledger m)
        (select_record-eq-first_where e d ledger.records keyed ∙ ap ok absent)

  -- Where organization ids and days are unique, an exit camera that sees an employee with no
  -- record of the day writes nothing: neither to the records nor to the marks.
  pub process_recognition-leave_absent :
      (dir : Directory) (call : Call) (employee_id : ℕ) (camera_id organization_id : Option ℕ)
      (method : String) (ledger : Ledger)
      → HasRoots dir
      → IsKeyed ledger.records
      → first_where (has_key employee_id (local_date zone (utc call.now))) ledger.records ≡ none
      → process_recognition zone settings dir call employee_id camera_id organization_id method
          leave ledger
        ≡ ok (none, ledger)
  unfolding process_recognition
  process_recognition-leave_absent dir call employee_id camera_id organization_id method ledger
        roots keyed absent =
      found (find_employee employee_id dir)
        (λ employee. find_employee-id dir employee_id {employee = employee})
    where
      found :
          (o : Option Employee)
          → ((employee : Employee) → o ≡ some employee → employee.id ≡ employee_id)
          → recognize_found zone settings dir call o camera_id organization_id method leave ledger
            ≡ ok (none, ledger)
      found none same = refl
      found (some employee) same = Same-if _ (not employee.is_active) _ _ refl (
          Same-bind _ (is_foreign dir organization_id employee) _
            (is_foreign-ok zone settings dir organization_id employee roots)
            λ b. Same-if _ b _ _ refl (
              Same-bind _ (org_of dir employee) _ (org_of-ok zone settings dir employee roots) λ o.
                absent-Ignored employee.id _ ledger _ keyed (
                  subst
                    (λ n.
                      first_where (has_key n (local_date zone (utc call.now))) ledger.records
                      ≡ none)
                    (sym (same employee refl)) absent)))

  -- Where organization ids and days are unique, a tap at a reader that only lets out, by an
  -- employee with no record of the day, writes nothing: neither to the records nor to the marks.
  pub process_rfid_tap-outward_absent :
      (dir : Directory) (call : Call) (employee_id : ℕ) (ledger : Ledger)
      → HasRoots dir
      → IsKeyed ledger.records
      → first_where (has_key employee_id (local_date zone (utc call.now))) ledger.records ≡ none
      → process_rfid_tap zone settings dir call employee_id outward ledger ≡ ok (none, ledger)
  unfolding process_rfid_tap
  process_rfid_tap-outward_absent dir call employee_id ledger roots keyed absent =
      found (find_employee employee_id dir)
        (λ employee. find_employee-id dir employee_id {employee = employee})
    where
      found :
          (o : Option Employee)
          → ((employee : Employee) → o ≡ some employee → employee.id ≡ employee_id)
          → tap_found zone settings dir call o outward ledger ≡ ok (none, ledger)
      found none same = refl
      found (some employee) same = Same-if _ (not employee.is_active) _ _ refl (
          Same-bind _ (org_of dir employee) _ (org_of-ok zone settings dir employee roots) λ o.
            absent-Ignored employee.id _ ledger _ keyed (
              subst
                (λ n.
                  first_where (has_key n (local_date zone (utc call.now))) ledger.records ≡ none)
                (sym (same employee refl)) absent))
