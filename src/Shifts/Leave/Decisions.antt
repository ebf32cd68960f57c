-- ===== src/Shifts/Leave/Decisions.antt =====
-- A decision on leave stays within the scope of whoever decides.
use attendance.Prelude.{
  ℕ, Bool, true, false, Option, some, List, [], ◌∷◌, ◌≡◌, refl, sym, ap, ◌∙◌, ◌==◌, ◌&&◌,
  first_where, update_where, Bool-cases, inl, inr, arith, if◌then◌else◌, ==_iff,
}
use attendance.Attendance.Queries.Keyed.{first_where-true}
use attendance.Prelude.Errors.{ok, not_found, >>=-eq-ok, ok-injective, or_raise, or_raise-eq-ok}
use attendance.Tenant.{Organization, Scope}
use attendance.Attendance.Tables.{Employee}
use attendance.Shifts.{employee_scope}
use attendance.Shifts.Leave.{LeaveStatus, LeaveRequest, may_decide, decided, decide_leave_request}

-- Rows with other ids are found as before.
other-decided :
    (status : LeaveStatus) (approver_id now n other : ℕ) (rows : List LeaveRequest)
    → (n == other) ≡ false
    → first_where
        (λ l. l.id == other)
        (update_where (λ l. l.id == n) (decided status approver_id now) rows)
      ≡ first_where (λ l. l.id == other) rows
other-decided status approver_id now n other [] h = refl
other-decided status approver_id now n other (l ∷ ls) h = elim (Bool-cases (l.id == n)) [
  | inl here ↦
      let apart : (l.id == other) ≡ false = ground arith in
      rw here (rw apart (other-decided status approver_id now n other ls h))
  | inr there ↦ rw there (
      ap (λ rest. if l.id == other then some l else rest)
        (other-decided status approver_id now n other ls h))
]

-- A decision on leave that succeeds is on the request with the id, of an employee in the scope of
-- whoever decides, sets the status and the approver, and leaves every other request as it was.
pub decide_leave_request-scoped :
    (organizations : List Organization) (employees : List Employee) (leave_id : ℕ)
    (status : LeaveStatus) (approver_id now : ℕ) (org : Scope) (node_scope : Option Scope)
    (rows rows' : List LeaveRequest) (leave : LeaveRequest)
    → decide_leave_request organizations employees leave_id status approver_id now org node_scope
        rows
      ≡ ok (leave, rows')
    → (leave.id ≡ leave_id)
      × (may_decide organizations employees (employee_scope org node_scope) leave ≡ true)
      × (leave.status ≡ status)
      × (leave.approved_by ≡ some approver_id)
      × ((other : ℕ)
          → (leave_id == other) ≡ false
          → first_where (λ l. l.id == other) rows' ≡ first_where (λ l. l.id == other) rows)
unfolding decide_leave_request
decide_leave_request-scoped organizations employees leave_id status approver_id now org node_scope
      rows rows' leave h =
    let p : LeaveRequest → Bool = λ l.
      l.id == leave_id && may_decide organizations employees (employee_scope org node_scope) l in
    let (l, e, h1) = >>=-eq-ok (or_raise (first_where p rows) not_found) _ h in
    let passes = first_where-true p rows (or_raise-eq-ok (first_where p rows) not_found e) in
    let made = ok-injective h1 in
    let same : l.id ≡ leave_id = (==_iff l.id leave_id).0 (ground arith) in
    (
      sym (ap (λ q. q.0.id) made) ∙ same,
      sym (ap (λ q. may_decide organizations employees (employee_scope org node_scope) q.0) made)
          ∙ ground arith,
      sym (ap (λ q. q.0.status) made),
      sym (ap (λ q. q.0.approved_by) made),
      λ other apart.
          sym (ap (λ q. first_where (λ l. l.id == other) q.1) made)
          ∙ other-decided status approver_id now l.id other rows
              (ap (λ n. n == other) same ∙ apart),
    )
