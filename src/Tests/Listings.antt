-- ===== src/Tests/Listings.antt =====
-- Pages of five rows, and a decision on leave.
use attendance.Prelude.{ℕ, true, none, some, List, [], ◌∷◌, ◌≡◌, ◌<◌, refl, arith}
use attendance.Prelude.Errors.{ok}
use attendance.Tenant.{
  single, apply_employee_tenant_filter, descendants_subquery_multi, descendants_subquery,
}
use attendance.Pagination.{paginate}
use attendance.Pagination.Pages.{pages_up_to, pages_whole}
use attendance.Shifts.Leave.{
  approved, pending, LeaveRequest, decided, may_decide, decide_leave_request,
}
use attendance.Shifts.Leave.Decisions.{decide_leave_request-scoped}
use attendance.Shifts.{employee_scope}
use attendance.Tests.Data.{worker, organizations}

abbrev five : List ℕ
five = 1 ∷ 2 ∷ 3 ∷ 4 ∷ 5 ∷ []

last_page : (paginate five 3 2).rows ≡ 5 ∷ []
unfolding paginate
last_page = refl

pages_whole_example :
    (pages_up_to five (paginate five 1 2).last_page 2 ≡ five)
    × ((later : ℕ) → (paginate five 1 2).last_page < later → (paginate five later 2).rows ≡ [])
pages_whole_example = pages_whole five 1 2 (omega arith)

abbrev asked : LeaveRequest
asked = record {
  id = 3;
  employee_id = 7;
  kind = "annual";
  start_date = "2026-01-05";
  end_date = "2026-01-09";
  reason = none;
  status = pending;
  approved_by = none;
  approved_at = none;
}

granted :
    decide_leave_request organizations
      (worker ∷ [])
      3
      approved
      1
      10
      (single 1)
      (some (single 2))
      (asked ∷ [])
    ≡ ok (decided approved 1 10 asked, decided approved 1 10 asked ∷ [])
unfolding decide_leave_request apply_employee_tenant_filter descendants_subquery_multi
    descendants_subquery
granted = refl

decide_leave_request-scoped_example :
    may_decide organizations
      (worker ∷ [])
      (employee_scope (single 1) (some (single 2)))
      (decided approved 1 10 asked)
    ≡ true
decide_leave_request-scoped_example =
    (decide_leave_request-scoped organizations (worker ∷ []) 3 approved 1 10 (single 1)
      (some (single 2)) (asked ∷ []) (decided approved 1 10 asked ∷ [])
      (decided approved 1 10 asked) granted).1
