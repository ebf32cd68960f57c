-- ===== src/Tests/Desk.antt =====
-- A visit, and the mailboxes of the hub.
use attendance.Prelude.{
  ℕ, ◌≤◌, ◌≡◌, refl, true, false, none, some, [], ◌∷◌, length, select, All, arith, List,
}
use attendance.Prelude.Errors.{ok, err, value_error}
use attendance.Visitors.Tables.{
  Visitor, Desk, VisitorSettings, scheduled, checked_in, security_approved,
}
use attendance.Visitors.Visits.{check_out_visitor, is_due, expire_visitors}
use attendance.Visitors.Lifecycle.{
  HasNoAccess, check_out_visitor-HasNoAccess, expire_visitors-Ended,
}
use attendance.Realtime.{
  Presence, Connection, Message, max_connections_per_user, is_of, deliver_local,
}
use attendance.Realtime.Hub.{is_outsider, deliver_local-outsiders}
use attendance.Tests.Data.{zone, morning, evening}

abbrev visit_settings : VisitorSettings
visit_settings = record { visitor_default_visit_hours = 4; visitor_face_expiry_buffer_minutes = 15 }

abbrev guest : Visitor
guest = record {
  id = 9;
  organization_id = 1;
  host_employee_id = some 7;
  name = "Ada";
  visit_start_at = morning;
  visit_end_at = some evening;
  contract_end_date = none;
  status = scheduled;
  approval_status = security_approved;
  approval_notes = none;
  checked_in_at = none;
  checked_out_at = none;
  face_registered = true;
  ai_identity_id = some 9;
  face_expires_at = none;
  current_zone = none;
}

abbrev lobby_desk : Desk
lobby_desk = record {
  faces = record { visitor_id = 9; expires_at = evening; is_active = true } ∷ [];
  badges = record { visitor_id = 9; expires_at = evening; is_active = true } ∷ [];
  permissions = [];
  hosts = [];
  checkins = [];
  checkouts = [];
  logs = [];
  notifications = [];
  enrolled = 9 ∷ [];
}

check_out_visitor-HasNoAccess_example :
    (v' : Visitor) × (d' : Desk) × (check_out_visitor evening none "manual"
        (record guest { status = checked_in })
        lobby_desk
      ≡ ok (v', d'))
    × HasNoAccess 9 d'
    × (check_out_visitor evening none "manual" v' d' ≡ err value_error)
check_out_visitor-HasNoAccess_example =
    check_out_visitor-HasNoAccess evening evening none "manual"
      (record guest { status = checked_in }) lobby_desk refl

expire_visitors-Ended_example :
    All
      (λ v.
        is_due zone evening v ≡ true
        → HasNoAccess v.id (expire_visitors zone evening (guest ∷ []) lobby_desk).2)
      (guest ∷ [])
    × All
        (λ v. is_due zone evening v ≡ false)
        (expire_visitors zone evening (guest ∷ []) lobby_desk).1
    × ((expire_visitors zone evening (guest ∷ []) lobby_desk).0
        ≡ length (select (is_due zone evening) (guest ∷ [])))
expire_visitors-Ended_example = expire_visitors-Ended zone evening (guest ∷ []) lobby_desk

abbrev socket : Connection
socket = record { id = 1; user_id = 5; org_ids = some (2 ∷ []); queue = [] }

abbrev global_socket : Connection
global_socket = record { id = 2; user_id = 6; org_ids = none; queue = [] }

abbrev news : Message
news = record { org_id = some 1; to = none; body = "rfid.tap" }

deliver_local-outsiders_example :
    select (is_outsider (some 1)) (deliver_local (some 1) news none (socket ∷ global_socket ∷ []))
    ≡ select (is_outsider (some 1)) (socket ∷ global_socket ∷ [])
deliver_local-outsiders_example =
    deliver_local-outsiders (some 1) news (socket ∷ global_socket ∷ [])

sockets-capped : (user : ℕ) → length (select (is_of user) (socket ∷ [])) ≤ max_connections_per_user
sockets-capped user = ground arith

abbrev online : List Presence
online = record { org_id = 1; user_id = 5; sockets = 1 } ∷ []
