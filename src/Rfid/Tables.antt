-- ===== src/Rfid/Tables.antt =====
-- Rows of backend/app/models/rfid.py, with the columns that the service reads or writes.
use attendance.Prelude.{ℕ, Bool, Option}
use attendance.Prelude.Pytext.{Text}
use attendance.Attendance.Process.{Action, Direction}

-- A row of `locations`.
pub record Location : Type 0 where
  pub id : ℕ
  pub organization_id : ℕ

pub record RfidReader : Type 0 where
  pub id : ℕ
  pub location_id : ℕ
  pub name : Text
  pub device_id : Text
  pub direction : Direction
  pub api_token : Text
  pub is_active : Bool
  pub last_heartbeat_at : Option ℕ

pub record RfidCard : Type 0 where
  pub id : ℕ
  pub employee_id : ℕ
  pub uid : Text
  pub label : Option Text
  pub is_active : Bool

pub data RfidEventResult : Type 0 where
  matched unknown inactive duplicate_ignored : RfidEventResult

-- The metadata of an event is the action of a tap that punched.
pub record RfidEvent : Type 0 where
  pub rfid_reader_id : ℕ
  pub employee_id : Option ℕ
  pub uid : Text
  pub result : RfidEventResult
  pub meta : Option Action
  pub tapped_at : ℕ
