-- ===== src/Rfid/Taps/Events.antt =====
-- What a tap leaves: one event, and the ledger's promises.
use attendance.Prelude.{ℕ, Bool, true, Option, some, ◌≡◌, List, ◌⊎◌}
use attendance.Prelude.Errors.{Result, err, invalid_request}
use attendance.Attendance.Process.{Call}
use attendance.Attendance.Process.Days.{HasRoots}
use attendance.Attendance.Queries.Create.{IsSerial}
use attendance.Rfid.Tables.{Location, RfidCard, RfidReader}
use attendance.Rfid.Taps.{TapState, TapResponse}
use attendance.Clock.{Zone}
use attendance.Attendance.Tables.{Directory, Settings}
use attendance.Prelude.Pytext.{Text}
use attendance.Rfid.Taps.Logs.{Answered}

-- Why a tap may raise: it is of a card whose employee's insert race is lost.
abbrev pub Lost : (ℕ → Bool) → Option RfidCard → Type 0
Lost loses o = (card : RfidCard) × (o ≡ some card) × (loses card.employee_id ≡ true)

module _ (zone : Zone) (settings : Settings) (upper : Text → Text) (locations : List Location)
    (reader : RfidReader) (uid : Text) (t : ℕ) where
  module _ (dir : Directory) (call : Call) (before : TapState) (roots : HasRoots dir)
      (serial : IsSerial call.interference before.ledger.records) where
    -- The answer, or the exception of the race that `lost` stands for.
    abbrev Tapped : Type 0 → Result (TapResponse × TapState) → Type 0
    Tapped lost m = Answered reader uid t before m ⊎ ((m ≡ err invalid_request) × lost)
