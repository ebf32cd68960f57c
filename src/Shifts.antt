-- ===== src/Shifts.antt =====
-- Policies, shifts and leave: backend/app/services/shift_service.py. Ids of new rows come from the
-- database. A body holds the fields that the client set; the schema's defaults stand for the others
-- in a new row.
pub mod Leave
pub mod Defaults
use attendance.Prelude.{
  ℕ, Bool, true, false, Option, none, some, List, [], ◌∷◌, ◌++◌, ◌==◌, ◌&&◌, not, if◌then◌else◌,
  is_some, select, any, member,
}
use attendance.Prelude.Int.{ℤ, pos}
use attendance.Prelude.Errors.{
  Result, ok, err, not_found, validation, ◌>>=◌, ◌>>◌, raise_if, or_raise, scalar_one_or_none,
}
use attendance.Tenant.{
  Organization, Scope, everything, single, apply_tenant_filter, apply_employee_tenant_filter,
}
use attendance.Attendance.Tables.{Employee, AttendancePolicy, Shift, ShiftAssignment}

pub record PolicyBody : Type 0 where
  pub grace_minutes : Option ℤ
  pub min_work_minutes : Option ℤ
  pub break_minutes : Option ℤ
  pub overtime_after_minutes : Option ℤ
  pub half_day_minutes : Option ℤ
  pub is_default : Option Bool

abbrev pub value_or {ℓ} : {A : Type ℓ} → Option A → A → A
value_or none d = d
value_or (some a) d = a

-- `body.is_default`
abbrev pub wants_default : PolicyBody → Bool
wants_default body = value_or body.is_default false

abbrev pub spared : Option ℕ → AttendancePolicy → Bool
spared none p = false
spared (some n) p = p.id == n

abbrev pub clear_default_policies : ℕ → Option ℕ → List AttendancePolicy → List AttendancePolicy
clear_default_policies org exclude [] = []
clear_default_policies org exclude (p ∷ ps) =
    (if p.organization_id == org && not (spared exclude p)
      then record p { is_default = false }
      else p)
    ∷ clear_default_policies org exclude ps

abbrev pub if_default : Bool → ℕ → Option ℕ → List AttendancePolicy → List AttendancePolicy
if_default true org exclude rows = clear_default_policies org exclude rows
if_default false org exclude rows = rows

abbrev pub new_policy : ℕ → ℕ → PolicyBody → AttendancePolicy
new_policy new_id org body = record {
  id = new_id;
  organization_id = org;
  grace_minutes = value_or body.grace_minutes (pos 15);
  min_work_minutes = value_or body.min_work_minutes (pos 240);
  break_minutes = value_or body.break_minutes (pos 60);
  overtime_after_minutes = value_or body.overtime_after_minutes (pos 480);
  half_day_minutes = value_or body.half_day_minutes (pos 240);
  is_default = wants_default body;
  is_active = true;
}

unfoldable pub create_policy :
    Option ℕ
    → ℕ
    → PolicyBody
    → List AttendancePolicy
    → Result (AttendancePolicy × List AttendancePolicy)
create_policy none new_id body rows = err validation
create_policy (some org) new_id body rows =
    let policy = new_policy new_id org body in
    ok (policy, if_default (wants_default body) org none rows ++ policy ∷ [])

abbrev pub is_visible : Scope → ℕ → AttendancePolicy → Bool
is_visible scope policy_id p = p.id == policy_id && apply_tenant_filter scope p.organization_id

unfoldable pub get_policy : ℕ → Scope → List AttendancePolicy → Result AttendancePolicy
get_policy policy_id scope rows = do
  found ← scalar_one_or_none (select (is_visible scope policy_id) rows)
  or_raise found not_found

-- The fields that were set, on the row with the primary key.
abbrev pub patch : PolicyBody → AttendancePolicy → AttendancePolicy
patch body p = record p {
  grace_minutes = value_or body.grace_minutes p.grace_minutes;
  min_work_minutes = value_or body.min_work_minutes p.min_work_minutes;
  break_minutes = value_or body.break_minutes p.break_minutes;
  overtime_after_minutes = value_or body.overtime_after_minutes p.overtime_after_minutes;
  half_day_minutes = value_or body.half_day_minutes p.half_day_minutes;
  is_default = value_or body.is_default p.is_default;
}

abbrev pub patch_row : ℕ → PolicyBody → List AttendancePolicy → List AttendancePolicy
patch_row n body [] = []
patch_row n body (p ∷ ps) = (if p.id == n then patch body p else p) ∷ patch_row n body ps

unfoldable pub update_policy :
    ℕ → PolicyBody → Scope → List AttendancePolicy → Result (List AttendancePolicy)
unfolding get_policy
update_policy policy_id body scope rows = do
  policy ← get_policy policy_id scope rows
  ok (
      patch_row policy_id body
        (if_default (wants_default body) policy.organization_id (some policy_id) rows))

-- The scope of an employee: the granted nodes, or else the company.
abbrev pub employee_scope : Scope → Option Scope → Scope
employee_scope org none = org
employee_scope org (some everything) = org
employee_scope org (some nodes) = nodes

abbrev pub require_org_employee :
    List Organization → List Employee → ℕ → Scope → Option Scope → Result (Unit {0})
require_org_employee organizations employees employee_id org node_scope =
    raise_if
      (not (
        any
          (λ e.
            e.id == employee_id
            && apply_employee_tenant_filter organizations (employee_scope org node_scope)
                e.organization_id)
          employees))
      not_found

unfoldable pub get_shift : ℕ → Scope → List Shift → Result Shift
get_shift shift_id scope rows = do
  found ←
      scalar_one_or_none
        (select (λ s. s.id == shift_id && apply_tenant_filter scope s.organization_id) rows)
  or_raise found not_found

abbrev off : ℕ → List Shift → List Shift
off n [] = []
off n (s ∷ ss) = (if s.id == n then record s { is_active = false } else s) ∷ off n ss

pub deactivate_shift : ℕ → Scope → List Shift → Result (List Shift)
unfolding get_shift
deactivate_shift shift_id scope rows = do
  shift ← get_shift shift_id scope rows
  ok (off shift.id rows)

unfoldable pub assign_shift :
    List Organization
    → List Employee
    → List Shift
    → ShiftAssignment
    → Scope
    → Option Scope
    → List ShiftAssignment
    → Result (List ShiftAssignment)
unfolding get_shift
assign_shift organizations employees shifts body org node_scope rows = do
  shift ← get_shift body.shift_id org shifts
  require_org_employee organizations employees body.employee_id org node_scope
  ok (rows ++ body ∷ [])
