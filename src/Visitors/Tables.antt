-- ===== src/Visitors/Tables.antt =====
-- Rows of backend/app/models/visitor.py, with the columns that the lifecycle reads or writes.
use attendance.Prelude.{ℕ, String, Bool, Option, List}

pub data VisitorStatus : Type 0 where
  pending_approval scheduled checked_in checked_out expired cancelled : VisitorStatus

pub data ApprovalStatus : Type 0 where
  pending manager_approved security_approved approved rejected : ApprovalStatus

-- The face service knows a visitor by the identity `visitor-<id>`, which stands here as the id.
pub record Visitor : Type 0 where
  pub id : ℕ
  pub organization_id : ℕ
  pub host_employee_id : Option ℕ
  pub name : String
  pub visit_start_at : ℕ
  pub visit_end_at : Option ℕ
  pub contract_end_date : Option ℕ
  pub status : VisitorStatus
  pub approval_status : ApprovalStatus
  pub approval_notes : Option String
  pub checked_in_at : Option ℕ
  pub checked_out_at : Option ℕ
  pub face_registered : Bool
  pub ai_identity_id : Option ℕ
  pub face_expires_at : Option ℕ
  pub current_zone : Option String

pub record VisitorFace : Type 0 where
  pub visitor_id : ℕ
  pub expires_at : ℕ
  pub is_active : Bool

pub record VisitorBadge : Type 0 where
  pub visitor_id : ℕ
  pub expires_at : ℕ
  pub is_active : Bool

pub record VisitorAccessPermission : Type 0 where
  pub visitor_id : ℕ
  pub zone_name : String
  pub expires_at : Option ℕ

pub record VisitorBlacklist : Type 0 where
  pub organization_id : ℕ
  pub name : String
  pub id_number : Option String
  pub is_active : Bool

-- A row of the tables of check-ins and check-outs.
pub record Passage : Type 0 where
  pub visitor_id : ℕ
  pub passed_at : ℕ
  pub user_id : Option ℕ
  pub method : String

pub record VisitorLog : Type 0 where
  pub visitor_id : ℕ
  pub event_type : String
  pub user_id : Option ℕ

pub record VisitorNotification : Type 0 where
  pub visitor_id : ℕ
  pub recipient_employee_id : ℕ
  pub event_type : String

pub record VisitorHost : Type 0 where
  pub visitor_id : ℕ
  pub employee_id : ℕ

-- The tables beside the visitors, and the identities that the face service holds.
pub record Desk : Type 0 where
  pub faces : List VisitorFace
  pub badges : List VisitorBadge
  pub permissions : List VisitorAccessPermission
  pub hosts : List VisitorHost
  pub checkins : List Passage
  pub checkouts : List Passage
  pub logs : List VisitorLog
  pub notifications : List VisitorNotification
  pub enrolled : List ℕ

pub record VisitorSettings : Type 0 where
  pub visitor_default_visit_hours : ℕ
  pub visitor_face_expiry_buffer_minutes : ℕ
