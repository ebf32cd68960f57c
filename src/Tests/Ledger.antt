-- ===== src/Tests/Ledger.antt =====
-- Punches at the door: runs of the ledger's operations.
use attendance.Prelude.{ℕ, ◌+◌, ◌*◌, ◌<◌, ◌≡◌, refl, true, false, none, some, [], ◌⊎◌, arith}
use attendance.Prelude.Errors.{ok, ◌>>=◌}
use attendance.Clock.{utc, second}
use attendance.Attendance.Tables.{AttendanceRecord}
use attendance.Attendance.Queries.{get_or_create_today_record}
use attendance.Attendance.Queries.Create.{
  IsSerial, is_lost, Outcome, get_or_create_today_record-Created,
}
use attendance.Attendance.Process.{
  Action, Punch, entry, leave, toggle, inward, both, duplicate_ignored, take_action, tap_action,
  process_recognition, process_rfid_tap, manual_check_in, manual_check_out,
}
use attendance.Attendance.Process.Actions.{Keeps, Reports, take_action-Outcome, tap_action-Outcome}
use attendance.Attendance.Process.Days.{
  loses_race, process_recognition-KeepsDays, process_rfid_tap-KeepsDays,
}
use attendance.Attendance.Process.Settle.{Tried}
use attendance.Attendance.Process.Windows.{
  IsRecent, process_recognition-recent, process_rfid_tap-recent,
}
use attendance.Attendance.Process.Paths.{
  record_of, record_of-tap_action_both, manual_entry-eq-toggles,
}
use attendance.Tenant.Ascents.{HasUniqueIds}
use attendance.Tests.Data.{
  zone, settings, directory, organizations, policy, shift, morning, evening, quiet, contested,
  rival, punch_call, empty_ledger, open_ledger, checked_in_row,
}

pub organizations-HasUniqueIds : HasUniqueIds organizations
organizations-HasUniqueIds = (refl, (refl, (refl, tt)))

pub quiet-IsSerial : IsSerial quiet []
quiet-IsSerial = record { keyed = tt; fresh = refl; insertable = refl; updatable = refl }

contested-IsSerial : IsSerial contested []
contested-IsSerial = record {
  keyed = (refl, refl, tt);
  fresh = refl;
  insertable = refl;
  updatable = refl;
}

process_recognition-KeepsDays_example :
    Tried (loses_race zone (punch_call morning) 7 empty_ledger) empty_ledger.records (
      process_recognition zone settings directory
        (punch_call morning)
        7
        (some 3)
        (some 1)
        "face"
        entry
        empty_ledger)
process_recognition-KeepsDays_example =
    process_recognition-KeepsDays zone settings directory (punch_call morning) 7 (some 3) (some 1)
      "face" entry empty_ledger organizations-HasUniqueIds quiet-IsSerial

process_rfid_tap-KeepsDays_example :
    Tried
      (loses_race zone (punch_call morning) 7 empty_ledger)
      empty_ledger.records
      (process_rfid_tap zone settings directory (punch_call morning) 7 inward empty_ledger)
process_rfid_tap-KeepsDays_example =
    process_rfid_tap-KeepsDays zone settings directory (punch_call morning) 7 inward empty_ledger
      organizations-HasUniqueIds quiet-IsSerial

take_action-Outcome_example :
    (r' : AttendanceRecord) × (a : Action) × (take_action zone settings leave
        (utc evening)
        "face"
        none
        (some shift)
        (some policy)
        checked_in_row
      ≡ ok (r', a))
    × Keeps checked_in_row r'
    × Reports (utc evening) checked_in_row r' a
take_action-Outcome_example =
    take_action-Outcome zone settings leave (utc evening) "face" none (some shift) (some policy)
      checked_in_row

tap_action-Outcome_example :
    (r' : AttendanceRecord) × (a : Action) × (tap_action zone settings both
        (utc evening)
        (some shift)
        (some policy)
        checked_in_row
      ≡ ok (r', a))
    × Keeps checked_in_row r'
    × Reports (utc evening) checked_in_row r' a
tap_action-Outcome_example =
    tap_action-Outcome zone settings both (utc evening) (some shift) (some policy) checked_in_row

get_or_create_today_record-Created_example :
    Outcome
      (is_lost contested 7 738_000 [])
      7
      738_000
      []
      (get_or_create_today_record contested 7 738_000 none none none [])
get_or_create_today_record-Created_example =
    get_or_create_today_record-Created contested 7 738_000 none none none [] contested-IsSerial

-- The rival's row of the day is committed first, so the call raises.
contested_loses : is_lost contested 7 738_000 [] ≡ true
contested_loses = refl

-- Without a rival it does not.
quiet_wins : is_lost quiet 7 738_000 [] ≡ false
quiet_wins = refl

soon : ℕ
soon = morning + 30 * second

soon-IsRecent :
    (window : ℕ)
    → 30 * second < window * second
    → IsRecent zone (punch_call soon) window 7 open_ledger.records checked_in_row
unfolding soon
soon-IsRecent window h = record {
  keyed = (refl, refl, tt);
  found = refl;
  last = utc morning;
  punched = refl;
  recent = omega arith;
}

process_recognition-recent_example :
    (p : Punch) × (process_recognition zone settings directory
        (punch_call soon)
        7
        none
        none
        "face"
        toggle
        open_ledger
      ≡ ok (p, open_ledger))
    × ((p ≡ none) ⊎ (p ≡ some (checked_in_row, duplicate_ignored)))
process_recognition-recent_example =
    process_recognition-recent zone settings directory (punch_call soon) 7 none none "face" toggle
      open_ledger checked_in_row organizations-HasUniqueIds (soon-IsRecent 300 (omega arith))

process_rfid_tap-recent_example :
    (p : Punch) × (process_rfid_tap zone settings directory (punch_call soon) 7 both open_ledger
      ≡ ok (p, open_ledger))
    × ((p ≡ none) ⊎ (p ≡ some (checked_in_row, duplicate_ignored)))
process_rfid_tap-recent_example =
    process_rfid_tap-recent zone settings directory (punch_call soon) 7 both open_ledger
      checked_in_row organizations-HasUniqueIds (soon-IsRecent 60 (omega arith))

record_of-tap_action_both_example :
    record_of
      (tap_action zone settings both (utc evening) (some shift) (some policy) checked_in_row)
    ≡ record_of (
        take_action zone settings toggle
          (utc evening)
          "rfid"
          none
          (some shift)
          (some policy)
          checked_in_row)
record_of-tap_action_both_example =
    record_of-tap_action_both zone settings (utc evening) (some shift) (some policy) checked_in_row

manual_entry-eq-toggles_example :
    manual_check_out zone settings
      (some (utc evening))
      (some policy)
      (manual_check_in zone settings (some (utc morning)) (some shift) (some policy) rival)
    ≡ (do
      (r', _) ←
          take_action zone settings toggle
            (utc morning)
            "manual"
            none
            (some shift)
            (some policy)
            rival
      record_of (
          take_action zone settings toggle
            (utc evening)
            "manual"
            none
            (some shift)
            (some policy)
            r'))
manual_entry-eq-toggles_example =
    manual_entry-eq-toggles zone settings (utc morning) (utc evening) (some shift) (some policy)
      rival refl refl
