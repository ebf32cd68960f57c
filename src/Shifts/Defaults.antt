-- ===== src/Shifts/Defaults.antt =====
-- The default policy of a company.
use attendance.Prelude.{
  ℕ, Bool, true, false, Option, none, some, List, [], ◌∷◌, ◌++◌, ◌+◌, ◌≤◌, ◌==◌, ◌&&◌, ◌≡◌, refl,
  length, select, arith, length-append, select-append,
}
use attendance.Prelude.Errors.{ok}
use attendance.Attendance.Tables.{AttendancePolicy}
use attendance.Shifts.{
  PolicyBody, wants_default, clear_default_policies, if_default, new_policy, create_policy,
}

abbrev pub is_default_of : ℕ → AttendancePolicy → Bool
is_default_of org p = p.organization_id == org && p.is_default

abbrev pub default_count : ℕ → List AttendancePolicy → ℕ
default_count org rows = length (select (is_default_of org) rows)

abbrev pub has_policy_id : ℕ → AttendancePolicy → Bool
has_policy_id n p = p.id == n

clear-none :
    (org : ℕ) (rows : List AttendancePolicy)
    → default_count org (clear_default_policies org none rows) ≡ 0
clear-none org [] = refl
clear-none org (p ∷ ps) = ground (arith, clear-none org ps)

clear-others :
    (org o : ℕ) (ex : Option ℕ) (rows : List AttendancePolicy)
    → default_count o (clear_default_policies org ex rows) ≤ default_count o rows
clear-others org o ex [] = omega arith
clear-others org o ex (p ∷ ps) = ground (arith, clear-others org o ex ps)

append-count :
    (o : ℕ) (rows : List AttendancePolicy) (p : AttendancePolicy)
    → default_count o (rows ++ p ∷ []) ≡ default_count o rows + default_count o (p ∷ [])
append-count o rows p =
    rw (select-append (is_default_of o) rows (p ∷ []))
      (length-append (select (is_default_of o) rows) (select (is_default_of o) (p ∷ [])))

created-count :
    (b : Bool) (o org : ℕ) (rows : List AttendancePolicy) (p : AttendancePolicy)
    → p.organization_id ≡ org
    → p.is_default ≡ b
    → default_count o rows ≤ 1
    → default_count o (if_default b org none rows ++ p ∷ []) ≤ 1
created-count true o org rows p e d h =
    rw (append-count o (clear_default_policies org none rows) p)
      (ground (arith, clear-none org rows, clear-others org o none rows))
created-count false o org rows p e d h = rw (append-count o rows p) (ground arith)

-- Where each company has at most one default policy, the creation of a policy in any company, as
-- a default or not, succeeds and leaves each company with at most one.
pub create_policy-one_default :
    (org new_id : ℕ) (body : PolicyBody) (rows : List AttendancePolicy)
    → ((o : ℕ) → default_count o rows ≤ 1)
    → (policy : AttendancePolicy) × (rows' : List AttendancePolicy) × (create_policy
          (some org)
          new_id
          body
          rows
        ≡ ok (policy, rows'))
      × ((o : ℕ) → default_count o rows' ≤ 1)
unfolding create_policy
create_policy-one_default org new_id body rows h = (
  new_policy new_id org body,
  if_default (wants_default body) org none rows ++ new_policy new_id org body ∷ [],
  refl,
  λ o. created-count (wants_default body) o org rows (new_policy new_id org body) refl refl (h o),
)
