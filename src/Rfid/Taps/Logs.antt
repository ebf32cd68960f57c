-- ===== src/Rfid/Taps/Logs.antt =====
-- What one tap adds to the log, and that each answer agrees with it.
use attendance.Prelude.{
  refl, ℕ, Bool, true, false, Option, none, some, sym, [], ◌∷◌, ◌++◌, ◌≡◌, List,
}
use attendance.Prelude.Errors.{Result, ok}
use attendance.Attendance.Queries.Keyed.{IsKeyed}
use attendance.Attendance.Process.{
  Action, check_in, check_out, already_checked_in, already_complete, nothing, duplicate_ignored,
  Punch, Ledger,
}
use attendance.Attendance.Process.Settle.{KeepsDays-refl, KeepsDays}
use attendance.Rfid.Tables.{
  Location, RfidReader, RfidEvent, RfidEventResult, matched, unknown, inactive,
}
use attendance.Rfid.Taps.{
  conclude, record_event, refused, card_inactive, Reason, id_of, accepted, TapState, TapResponse,
}
use attendance.Clock.{Zone}
use attendance.Attendance.Tables.{Employee, Settings}
use attendance.Prelude.Pytext.{Text}

-- Whether an event stands for a tap that the ledger has taken.
abbrev pub is_taken : RfidEventResult → Bool
is_taken matched = true
is_taken RfidEventResult.duplicate_ignored = true
is_taken unknown = false
is_taken inactive = false

-- A tap that has answered: it has added one event, for this reader, uid and time, which agrees
-- with the answer; each employee has at most one record a day, and no punch is lost.
pub record Logged (reader : RfidReader) (uid : Text) (t : ℕ) (before : TapState) (a : TapResponse)
    (after : TapState) : Type 0 where
  pub event : RfidEvent
  pub logged : after.events ≡ before.events ++ event ∷ []
  pub by_reader : event.rfid_reader_id ≡ reader.id
  pub of_uid : event.uid ≡ uid
  pub at_time : event.tapped_at ≡ t
  pub agrees : a.is_matched ≡ is_taken event.result
  pub employee : a.is_matched ≡ true → a.employee_id ≡ event.employee_id
  pub keyed : IsKeyed after.ledger.records
  pub kept : KeepsDays before.ledger.records after.ledger.records

abbrev pub Answered : RfidReader → Text → ℕ → TapState → Result (TapResponse × TapState) → Type 0
Answered reader uid t before m =
    (a : TapResponse) × (after : TapState) × (m ≡ ok (a, after))
    × Logged reader uid t before a after

module _ (zone : Zone) (settings : Settings) (upper : Text → Text) (locations : List Location)
    (reader : RfidReader) (uid : Text) (t : ℕ) where
  pub refused-Logged :
      (reason : Reason) (result : RfidEventResult) (employee : Option Employee) (before : TapState)
      → is_taken result ≡ false
      → IsKeyed before.ledger.records
      → Logged reader uid t before
          (refused reason uid)
          (record_event locations reader uid result employee t none before)
  refused-Logged reason result employee before low keyed = record {
    event = record {
      rfid_reader_id = reader.id;
      employee_id = id_of employee;
      uid = uid;
      result = result;
      meta = none;
      tapped_at = t;
    };
    logged = refl;
    by_reader = refl;
    of_uid = refl;
    at_time = refl;
    agrees = sym low;
    employee = λ h. cc;
    keyed = keyed;
    kept = KeepsDays-refl before.ledger.records;
  }

  -- A tap that the ledger has taken, with the ledger that it has left.
  taken-Logged :
      (action : Action) (result : RfidEventResult) (meta : Option Action) (employee : Employee)
      (before : TapState) (ledger : Ledger)
      → is_taken result ≡ true
      → IsKeyed ledger.records
      → KeepsDays before.ledger.records ledger.records
      → Logged reader uid t before (accepted uid action employee) (
          record_event locations reader uid result
            (some employee)
            t
            meta
            (record before { ledger = ledger }))
  taken-Logged action result meta employee before ledger high keyed kept = record {
    event = record {
      rfid_reader_id = reader.id;
      employee_id = some employee.id;
      uid = uid;
      result = result;
      meta = meta;
      tapped_at = t;
    };
    logged = refl;
    by_reader = refl;
    of_uid = refl;
    at_time = refl;
    agrees = sym high;
    employee = λ h. refl;
    keyed = keyed;
    kept = kept;
  }

  missing-Logged :
      (employee : Employee) (before : TapState) (ledger : Ledger)
      → IsKeyed ledger.records
      → KeepsDays before.ledger.records ledger.records
      → Logged reader uid t before (refused card_inactive uid) (
          record_event locations reader uid inactive
            (some employee)
            t
            none
            (record before { ledger = ledger }))
  missing-Logged employee before ledger keyed kept = record {
    event = record {
      rfid_reader_id = reader.id;
      employee_id = some employee.id;
      uid = uid;
      result = inactive;
      meta = none;
      tapped_at = t;
    };
    logged = refl;
    by_reader = refl;
    of_uid = refl;
    at_time = refl;
    agrees = refl;
    employee = λ h. cc;
    keyed = keyed;
    kept = kept;
  }

  pub conclude-Logged :
      (employee : Employee) (outcome : Punch) (before : TapState) (ledger : Ledger)
      → IsKeyed ledger.records
      → KeepsDays before.ledger.records ledger.records
      → Answered reader uid t before (
          ok (conclude locations reader uid employee t outcome (record before { ledger = ledger })))
  conclude-Logged employee none before ledger keyed kept =
      (_, _, refl, missing-Logged employee before ledger keyed kept)
  conclude-Logged employee (some (r, duplicate_ignored)) before ledger keyed kept = (
    _,
    _,
    refl,
    taken-Logged duplicate_ignored RfidEventResult.duplicate_ignored none employee before ledger
        refl keyed kept,
  )
  conclude-Logged employee (some (r, check_in)) before ledger keyed kept = (
    _,
    _,
    refl,
    taken-Logged check_in matched (some check_in) employee before ledger refl keyed kept,
  )
  conclude-Logged employee (some (r, check_out)) before ledger keyed kept = (
    _,
    _,
    refl,
    taken-Logged check_out matched (some check_out) employee before ledger refl keyed kept,
  )
  conclude-Logged employee (some (r, already_checked_in)) before ledger keyed kept = (
    _,
    _,
    refl,
    taken-Logged already_checked_in matched (some already_checked_in) employee before ledger refl
        keyed kept,
  )
  conclude-Logged employee (some (r, already_complete)) before ledger keyed kept = (
    _,
    _,
    refl,
    taken-Logged already_complete matched (some already_complete) employee before ledger refl keyed
        kept,
  )
  conclude-Logged employee (some (r, nothing)) before ledger keyed kept = (
    _,
    _,
    refl,
    taken-Logged nothing matched (some nothing) employee before ledger refl keyed kept,
  )
