-- ===== src/Visitors/Visits.antt =====
-- Check-in, check-out, approval, enrolment and expiry: backend/app/services/visitor_service.py.
use text.Mathlib.Text.{◌==◌ as str_eq}
use attendance.Prelude.{
  ℕ, zero, suc, String, Bool, true, false, Option, none, some, List, [], ◌∷◌, ◌++◌, ◌+◌, ◌*◌, ◌==◌,
  ◌&&◌, ◌||◌, not, ltb, leb, if◌then◌else◌, select, map,
}
use attendance.Prelude.Errors.{Result, ok, value_error, type_error, ◌>>=◌, ◌>>◌, raise_if, or_raise}
use attendance.Clock.{minute, utc, Zone, local_date}
use attendance.Visitors.Tables.{
  VisitorStatus, ApprovalStatus, Visitor, VisitorFace, VisitorBadge, Passage, Desk, VisitorSettings,
  scheduled, checked_in, checked_out, expired, cancelled, manager_approved, security_approved,
  approved, rejected,
}

abbrev pub is_checked_in : VisitorStatus → Bool
is_checked_in checked_in = true
is_checked_in _ = false

abbrev pub may_enter : ApprovalStatus → Bool
may_enter approved = true
may_enter security_approved = true
may_enter _ = false

abbrev pub hours : ℕ → ℕ
hours n = n * (60 * minute)

abbrev pub log_visitor_event : ℕ → String → Option ℕ → Desk → Desk
log_visitor_event visitor_id event_type user_id d = record d {
  logs =
      d.logs ++ record { visitor_id = visitor_id; event_type = event_type; user_id = user_id } ∷ [];
}

-- A host with the falsy id `0` is none.
abbrev pub notify : Option ℕ → ℕ → String → Desk → Desk
notify none visitor_id event_type d = d
notify (some zero) visitor_id event_type d = d
notify (some (suc n)) visitor_id event_type d = record d {
  notifications =
      d.notifications
      ++ record { visitor_id = visitor_id; recipient_employee_id = suc n; event_type = event_type }
        ∷ [];
}

abbrev pub notify_host : Visitor → String → Desk → Desk
notify_host v event_type = notify v.host_employee_id v.id event_type

abbrev pub end_face : ℕ → VisitorFace → VisitorFace
end_face n f = if f.visitor_id == n then record f { is_active = false } else f

abbrev pub end_badge : ℕ → VisitorBadge → VisitorBadge
end_badge n b = if b.visitor_id == n then record b { is_active = false } else b

-- What a check-out and an expiry both do to the other tables.
abbrev pub end_access : ℕ → Desk → Desk
end_access n d = record d {
  faces = map (end_face n) d.faces;
  badges = map (end_badge n) d.badges;
  enrolled = select (λ i. not (i == n)) d.enrolled;
}

abbrev pub kept_end : ℕ → ℕ → Option ℕ → ℕ
kept_end now stay none = now + stay
kept_end now stay (some t) = if ltb t now then now + stay else t

abbrev pub passage : ℕ → Option ℕ → String → Visitor → Passage
passage now user_id method v = record {
  visitor_id = v.id;
  passed_at = now;
  user_id = user_id;
  method = method;
}

abbrev pub arrived : VisitorSettings → ℕ → Visitor → Visitor
arrived settings now v =
    let visit_end = kept_end now (hours settings.visitor_default_visit_hours) v.visit_end_at in
    record v {
      status = checked_in;
      checked_in_at = some now;
      visit_end_at = some visit_end;
      face_expires_at = some (visit_end + settings.visitor_face_expiry_buffer_minutes * minute);
      current_zone = some "Reception";
    }

abbrev pub arrival : ℕ → Option ℕ → String → Visitor → Desk → Desk
arrival now user_id method v d = notify_host v "visitor_checked_in" (
    log_visitor_event v.id "checked_in" user_id
      (record d { checkins = d.checkins ++ passage now user_id method v ∷ [] }))

unfoldable pub check_in_visitor :
    VisitorSettings → ℕ → Option ℕ → String → Visitor → Desk → Result (Visitor × Desk)
check_in_visitor settings now user_id method v d = do
  raise_if (is_checked_in v.status) value_error
  raise_if (not (may_enter v.approval_status)) value_error
  ok (arrived settings now v, arrival now user_id method v d)

abbrev pub left : ℕ → Visitor → Visitor
left now v = record v {
  status = checked_out;
  checked_out_at = some now;
  current_zone = none;
  face_registered = false;
  ai_identity_id = none;
  face_expires_at = some now;
}

abbrev pub departure : ℕ → Option ℕ → String → Visitor → Desk → Desk
departure now user_id method v d = notify_host v "visitor_checked_out" (
    log_visitor_event v.id "checked_out" user_id
      (end_access v.id (record d { checkouts = d.checkouts ++ passage now user_id method v ∷ [] })))

unfoldable pub check_out_visitor : ℕ → Option ℕ → String → Visitor → Desk → Result (Visitor × Desk)
check_out_visitor now user_id method v d = do
  raise_if (not (is_checked_in v.status)) value_error
  ok (left now v, departure now user_id method v d)

pub reject_visitor : Option ℕ → Visitor → Desk → Visitor × Desk
reject_visitor user_id v d = (
  record v { approval_status = rejected; status = cancelled },
  log_visitor_event v.id "approval_rejected" user_id d,
)

-- `stage`: "manager", "security", "final".
abbrev pub stage_map : String → Option ApprovalStatus
stage_map stage =
    if str_eq stage "manager"
    then some manager_approved
    else if str_eq stage "security"
    then some security_approved
    else if str_eq stage "final"
    then some approved
    else none

abbrev pub is_final : ApprovalStatus → Bool
is_final approved = true
is_final _ = false

abbrev pub approval_event : ApprovalStatus → String
approval_event manager_approved = "approval_manager"
approval_event security_approved = "approval_security"
approval_event _ = "approval_final"

pub approve_visitor : String → Option ℕ → Option String → Visitor → Desk → Result (Visitor × Desk)
approve_visitor stage user_id notes v d = do
  new_status ← or_raise (stage_map stage) value_error
  ok (
    record v {
      approval_status = new_status;
      approval_notes = notes;
      status = if is_final new_status then scheduled else v.status;
    },
    log_visitor_event v.id (approval_event new_status) user_id d,
  )

-- The end of a face's access, from the visit's end where none is set.
abbrev pub face_end : VisitorSettings → Visitor → Result ℕ
face_end settings v = elim v.face_expires_at [
  | some t ↦ ok t
  | none ↦ do
    visit_end ← or_raise v.visit_end_at type_error
    ok (visit_end + settings.visitor_face_expiry_buffer_minutes * minute)
]

-- `success`: whether the face service took the image.
pub enroll_visitor_face : VisitorSettings → Bool → Visitor → Desk → Result (Visitor × Desk)
enroll_visitor_face settings false v d = ok (v, d)
enroll_visitor_face settings true v d = do
  t ← face_end settings v
  let face : VisitorFace = record { visitor_id = v.id; expires_at = t; is_active = true }
  ok (
    record v { face_registered = true; ai_identity_id = some v.id },
    log_visitor_event v.id "face_enrolled" none
        (record d { faces = d.faces ++ face ∷ []; enrolled = d.enrolled ++ v.id ∷ [] }),
  )

abbrev pub set_access_permissions : Visitor → List String → Desk → Desk
set_access_permissions v zones d = record d {
  permissions =
      select (λ p. not (p.visitor_id == v.id)) d.permissions
      ++ map (λ z. record { visitor_id = v.id; zone_name = z; expires_at = v.visit_end_at })
          (select (λ z. not (str_eq z "")) zones);
}

abbrev pub on_or_before : Option ℕ → ℕ → Bool
on_or_before none now = false
on_or_before (some t) now = leb t now

abbrev pub ended_before : Option ℕ → ℕ → Bool
ended_before none today = false
ended_before (some d) today = ltb d today

abbrev pub may_expire : VisitorStatus → Bool
may_expire checked_in = true
may_expire scheduled = true
may_expire _ = false

-- The visitors that `expire_visitors` selects.
abbrev pub is_due : Zone → ℕ → Visitor → Bool
is_due zone now v =
    may_expire v.status
    && (on_or_before v.face_expires_at now
        || (on_or_before v.visit_end_at now
            || ended_before v.contract_end_date (local_date zone (utc now))))

abbrev pub expire_one : ℕ → Visitor → Visitor
expire_one now v = record v {
  face_registered = false;
  ai_identity_id = none;
  status = expired;
  face_expires_at = some now;
}

abbrev pub expire_access : Visitor → Desk → Desk
expire_access v d =
    notify_host v "visitor_access_expired"
      (log_visitor_event v.id "expired" none (end_access v.id d))

abbrev pub expire_step : Bool → ℕ → Visitor → ℕ × List Visitor × Desk → ℕ × List Visitor × Desk
expire_step due now v (n, vs, d) =
    ((if due then suc n else n), (if due then expire_one now v else v) ∷ vs, d)

-- The number of expired visitors, the table of visitors, and the other tables.
unfoldable pub expire_visitors : Zone → ℕ → List Visitor → Desk → ℕ × List Visitor × Desk
expire_visitors zone now [] d = (0, [], d)
expire_visitors zone now (v ∷ vs) d =
    expire_step (is_due zone now v) now v
      (expire_visitors zone now vs (if is_due zone now v then expire_access v d else d))
