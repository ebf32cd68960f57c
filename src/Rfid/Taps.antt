-- ===== src/Rfid/Taps.antt =====
-- A tap: the card, its employee, the punch in the ledger, and the event that records it.
pub mod Revoked
pub mod Logs
pub mod Events
use attendance.Prelude.{
  ℕ, Bool, true, false, Option, none, some, List, [], ◌∷◌, ◌++◌, ◌==◌, not, ◌||◌, select,
  first_where, if◌then◌else◌,
}
use attendance.Prelude.Pytext.{Text}
use attendance.Prelude.Errors.{Result, ok, ◌>>=◌, scalar_one_or_none}
use attendance.Clock.{Zone}
use attendance.Attendance.Tables.{Employee, Directory, Settings}
use attendance.Attendance.Process.{Action, Ledger, Call, Punch, process_rfid_tap}
use attendance.Rfid.Tables.{
  Location, RfidReader, RfidCard, RfidEvent, RfidEventResult, matched, unknown, inactive,
}
use attendance.Rfid.Cards.{has_uid, clean_uid}

-- An event that the hub is told of: the company of the reader's location, the reader, the result.
pub record TapEmission : Type 0 where
  pub org_id : Option ℕ
  pub reader_id : ℕ
  pub result : RfidEventResult

pub record TapState : Type 0 where
  pub ledger : Ledger
  pub events : List RfidEvent
  pub emitted : List TapEmission

pub data Reason : Type 0 where
  unknown_card card_inactive : Reason

pub record TapResponse : Type 0 where
  pub is_matched : Bool
  pub reason : Option Reason
  pub uid : Text
  pub attendance_action : Option Action
  pub employee_id : Option ℕ

abbrev pub id_of : Option Employee → Option ℕ
id_of none = none
id_of (some e) = some e.id

abbrev pub org_of_location : List Location → ℕ → Option ℕ
org_of_location [] n = none
org_of_location (l ∷ ls) n = if l.id == n then some l.organization_id else org_of_location ls n

abbrev pub record_event :
    List Location
    → RfidReader
    → Text
    → RfidEventResult
    → Option Employee
    → ℕ
    → Option Action
    → TapState
    → TapState
record_event locations reader uid result employee tapped_at meta state = record state {
  events =
      state.events
      ++ record {
        rfid_reader_id = reader.id;
        employee_id = id_of employee;
        uid = uid;
        result = result;
        meta = meta;
        tapped_at = tapped_at;
      }
        ∷ [];
  emitted =
      state.emitted
      ++ record {
        org_id = org_of_location locations reader.location_id;
        reader_id = reader.id;
        result = result;
      }
        ∷ [];
}

abbrev pub refused : Reason → Text → TapResponse
refused reason uid = record {
  is_matched = false;
  reason = some reason;
  uid = uid;
  attendance_action = none;
  employee_id = none;
}

abbrev pub accepted : Text → Action → Employee → TapResponse
accepted uid action employee = record {
  is_matched = true;
  reason = none;
  uid = uid;
  attendance_action = some action;
  employee_id = some employee.id;
}

-- What the punch of the ledger is recorded as.
abbrev pub conclude :
    List Location → RfidReader → Text → Employee → ℕ → Punch → TapState → TapResponse × TapState
conclude locations reader uid employee t none state = (
  refused card_inactive uid,
  record_event locations reader uid inactive (some employee) t none state,
)
conclude locations reader uid employee t (some (r, Action.duplicate_ignored)) state = (
  accepted uid Action.duplicate_ignored employee,
  record_event locations reader uid RfidEventResult.duplicate_ignored (some employee) t none state,
)
conclude locations reader uid employee t (some (r, action)) state = (
  accepted uid action employee,
  record_event locations reader uid matched (some employee) t (some action) state,
)

abbrev pub tap_time : Option ℕ → ℕ → ℕ
tap_time none now = now
tap_time (some t) now = t

module _ (zone : Zone) (settings : Settings) (upper : Text → Text) (locations : List Location) where
  -- `dir` is what `process_rfid_tap` selects from: it reads the employee again.
  abbrev pub punch :
      Directory
      → Call
      → RfidReader
      → Text
      → RfidCard
      → Employee
      → ℕ
      → TapState
      → Result (TapResponse × TapState)
  punch dir call reader uid card employee t state = do
    (outcome, ledger) ←
        process_rfid_tap zone settings dir call card.employee_id reader.direction state.ledger
    ok (conclude locations reader uid employee t outcome (record state { ledger = ledger }))

  abbrev pub tap_employee :
      Directory
      → Call
      → RfidReader
      → Text
      → RfidCard
      → Option Employee
      → ℕ
      → TapState
      → Result (TapResponse × TapState)
  tap_employee dir call reader uid card none t state =
      ok (refused card_inactive uid, record_event locations reader uid inactive none t none state)
  tap_employee dir call reader uid card (some employee) t state =
      if not card.is_active || not employee.is_active
      then ok (
        refused card_inactive uid,
        record_event locations reader uid inactive (some employee) t none state,
      )
      else punch dir call reader uid card employee t state

  abbrev pub tap_card :
      List Employee
      → Directory
      → Call
      → RfidReader
      → Text
      → Option RfidCard
      → ℕ
      → TapState
      → Result (TapResponse × TapState)
  tap_card employees dir call reader uid none t state =
      ok (refused unknown_card uid, record_event locations reader uid unknown none t none state)
  tap_card employees dir call reader uid (some card) t state =
      tap_employee dir call reader uid card (first_where (λ e. e.id == card.employee_id) employees)
        t state

  -- `now` is the clock of the service, `employees` what its own select sees.
  unfoldable pub process_tap :
      List RfidCard
      → List Employee
      → Directory
      → ℕ
      → Call
      → Text
      → RfidReader
      → Option ℕ
      → TapState
      → Result (TapResponse × TapState)
  process_tap cards employees dir now call uid reader tapped_at state = do
    card ← scalar_one_or_none (select (has_uid (clean_uid upper uid)) cards)
    tap_card employees dir call reader (clean_uid upper uid) card (tap_time tapped_at now) state
