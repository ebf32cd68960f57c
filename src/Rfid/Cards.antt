-- ===== src/Rfid/Cards.antt =====
-- Cards of employees.
pub mod Unique
use attendance.Prelude.{
  ℕ, Bool, true, false, Option, List, [], ◌∷◌, ◌++◌, ◌==◌, ◌&&◌, is_some, select, any, first_where,
  update_where,
}
use attendance.Prelude.Pytext.{Text, strip, same_text}
use attendance.Prelude.Errors.{
  Result, ok, not_found, conflict, ◌>>=◌, ◌>>◌, raise_if, or_raise, scalar_one_or_none,
}
use attendance.Tenant.{Organization, Scope, apply_employee_tenant_filter}
use attendance.Attendance.Tables.{Employee}
use attendance.Shifts.{employee_scope, require_org_employee}
use attendance.Rfid.Tables.{RfidCard}

abbrev pub has_uid : Text → RfidCard → Bool
has_uid uid c = same_text c.uid uid

-- `uid.strip().upper()`, with Python's `str.upper` as a parameter.
abbrev pub clean_uid : (Text → Text) → Text → Text
clean_uid upper uid = upper (strip uid)

abbrev pub new_card : ℕ → ℕ → Text → Option Text → RfidCard
new_card id employee_id uid label = record {
  id = id;
  employee_id = employee_id;
  uid = uid;
  label = label;
  is_active = true;
}

-- The id of the new card comes from the database.
unfoldable pub add_employee_card :
    (Text → Text)
    → List Organization
    → List Employee
    → ℕ
    → ℕ
    → Scope
    → Option Scope
    → Text
    → Option Text
    → List RfidCard
    → Result (RfidCard × List RfidCard)
add_employee_card upper organizations employees id employee_id org node_scope uid label cards = do
  require_org_employee organizations employees employee_id org node_scope
  existing ← scalar_one_or_none (select (has_uid (clean_uid upper uid)) cards)
  raise_if (is_some existing) conflict
  let card = new_card id employee_id (clean_uid upper uid) label
  ok (card, cards ++ card ∷ [])

-- The join of a card with its employee, under the filter of the tenant.
abbrev pub may_revoke : List Organization → List Employee → Scope → RfidCard → Bool
may_revoke organizations employees scope card =
    any
      (λ e.
        e.id == card.employee_id
        && apply_employee_tenant_filter organizations scope e.organization_id)
      employees

unfoldable pub revoke_card :
    List Organization
    → List Employee
    → ℕ
    → Scope
    → Option Scope
    → List RfidCard
    → Result (List RfidCard)
revoke_card organizations employees card_id org node_scope cards = do
  card ←
      or_raise
        (first_where
          (λ c.
            c.id == card_id && may_revoke organizations employees (employee_scope org node_scope) c)
          cards)
        not_found
  ok (update_where (λ c. c.id == card.id) (λ c. record c { is_active = false }) cards)
