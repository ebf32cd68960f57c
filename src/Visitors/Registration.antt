-- ===== src/Visitors/Registration.antt =====
-- The registration of a visitor: `create_visitor` of backend/app/services/visitor_service.py.
use text.Mathlib.Text.{◌==◌ as str_eq}
use attendance.Prelude.{
  ℕ, zero, suc, String, Bool, true, false, Option, none, some, List, [], ◌∷◌, ◌++◌, ◌+◌, ◌==◌, ◌&&◌,
  ◌||◌, not, if◌then◌else◌, is_some, select, any, member,
}
use attendance.Prelude.Errors.{Result, ok, value_error, ◌>>=◌, ◌>>◌, raise_if, scalar_one_or_none}
use attendance.Tenant.{Organization, descendants_subquery_multi}
use attendance.Attendance.Tables.{Employee}
use attendance.Visitors.Tables.{
  Visitor, VisitorBadge, VisitorBlacklist, Desk, VisitorSettings, pending_approval, scheduled,
  pending, approved,
}
use attendance.Visitors.Visits.{hours, log_visitor_event, set_access_permissions}

-- The fields of a registration that decide how it goes; names are resolved, zones are split.
pub record Body : Type 0 where
  pub full_name : String
  pub id_number : Option String
  pub host_employee_id : Option ℕ
  pub visit_start_at : Option ℕ
  pub visit_end_at : Option ℕ
  pub contract_end_date : Option ℕ
  pub is_pre_registered : Bool
  pub access_zones : List String

-- The tables that a registration looks into, and the database's `ilike`.
pub record Lobby : Type 0 where
  pub employees : List Employee
  pub organizations : List Organization
  pub blacklist : List VisitorBlacklist
  pub ilike : String → String → Bool

abbrev same_number : Option String → Option String → Bool
same_number none number = false
same_number (some wanted) none = false
same_number (some wanted) (some number) = not (str_eq wanted "") && str_eq number wanted

abbrev is_blocked : Lobby → ℕ → String → Option String → VisitorBlacklist → Bool
is_blocked lobby org_id name id_number b =
    b.organization_id == org_id
    && (b.is_active && (lobby.ilike b.name name || same_number id_number b.id_number))

pub check_blacklist : Lobby → ℕ → String → Option String → Result (Option VisitorBlacklist)
check_blacklist lobby org_id name id_number =
    scalar_one_or_none (select (is_blocked lobby org_id name id_number) lobby.blacklist)

pub is_org_employee : Lobby → ℕ → Option ℕ → Bool
is_org_employee lobby employee_id org_id =
    any
      (λ e. e.id == employee_id && elim org_id [
        | none ↦ true
        | some org ↦
            member e.organization_id (descendants_subquery_multi lobby.organizations (org ∷ []))
      ])
      lobby.employees

abbrev host_allowed : Lobby → ℕ → Option ℕ → Bool
host_allowed lobby org_id none = true
host_allowed lobby org_id (some host) = is_org_employee lobby host (some org_id)

abbrev given : Option ℕ → ℕ → ℕ
given none d = d
given (some t) d = t

abbrev with_host : Visitor → Option ℕ → Desk → Desk
with_host v none d = d
with_host v (some zero) d = d
with_host v (some (suc n)) d = record d {
  hosts = d.hosts ++ record { visitor_id = v.id; employee_id = suc n } ∷ [];
}

-- Permissions are written only where a zone is named.
abbrev with_zones : Visitor → List String → Desk → Desk
with_zones v [] d = d
with_zones v (z ∷ zs) d = set_access_permissions v (z ∷ zs) d

pub create_visitor :
    VisitorSettings → Lobby → ℕ → ℕ → ℕ → Body → Bool → Option ℕ → Desk → Result (Visitor × Desk)
unfolding check_blacklist is_org_employee
create_visitor settings lobby new_id now org_id body pre_registered user_id d = do
  blocked ← check_blacklist lobby org_id body.full_name body.id_number
  raise_if (is_some blocked) value_error
  raise_if (not (host_allowed lobby org_id body.host_employee_id)) value_error
  let visit_start = given body.visit_start_at now
  let visit_end = given body.visit_end_at (visit_start + hours settings.visitor_default_visit_hours)
  let requires_approval = pre_registered || body.is_pre_registered
  let v : Visitor = record {
    id = new_id;
    organization_id = org_id;
    host_employee_id = body.host_employee_id;
    name = body.full_name;
    visit_start_at = visit_start;
    visit_end_at = some visit_end;
    contract_end_date = body.contract_end_date;
    status = if requires_approval then pending_approval else scheduled;
    approval_status = if requires_approval then pending else approved;
    approval_notes = none;
    checked_in_at = none;
    checked_out_at = none;
    face_registered = false;
    ai_identity_id = none;
    face_expires_at = none;
    current_zone = none;
  }
  let badge : VisitorBadge = record {
    visitor_id = new_id;
    expires_at = visit_end;
    is_active = true;
  }
  ok (
    v,
    log_visitor_event new_id "created" user_id (
        with_zones v (select (λ z. not (str_eq z "")) body.access_zones)
          (with_host v v.host_employee_id (record d { badges = d.badges ++ badge ∷ [] }))),
  )
