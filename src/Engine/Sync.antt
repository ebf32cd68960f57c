-- ===== src/Engine/Sync.antt =====
-- The consumer that writes camera events into the ledger: backend/app/engine/attendance_sync.py.
-- What the database, Redis and the clock do to the event at each place of a batch is an input. The
-- library of streams answers the organization of a camera, and Python's `int` reads an identity.
pub mod Fates
pub mod Losses
use text.Mathlib.Text.{◌==◌ as str_eq}
use attendance.Prelude.{
  ℕ, zero, suc, String, Bool, true, false, Option, none, some, List, [], ◌∷◌, ◌++◌, ◌*◌,
  if◌then◌else◌,
}
use attendance.Prelude.Int.{ℤ, pos, negsuc, ◌-ℤ◌, ltb_ℤ}
use attendance.Prelude.Errors.{Result, ok, err}
use attendance.Clock.{second, Zone}
use attendance.Attendance.Tables.{Directory, Settings}
use attendance.Attendance.Duplicates.{face, Reply, Marks, clear_duplicate_marker}
use attendance.Attendance.Process.{
  Action, Intent, entry, leave, Call, Ledger, Punch, process_recognition, writes,
}
use attendance.Engine.Generator.{
  AttendanceEvent, AttendanceEventType, AttendanceGenerator, drain_events,
}

-- What `session.commit()` comes to, for an event that gets that far.
pub data Commit : Type 0 where
  committed failed : Commit

-- `is_cancelled`: whether the task is cancelled while the event is at the database.
pub record Turn : Type 0 where
  pub call : Call
  pub is_cancelled : Bool
  pub commit : Commit
  pub redis_delete : Reply (Unit {0})

pub data Outcome : Type 0 where
  persisted no_op skipped : Outcome

pub record Environment : Type 0 where
  pub zone : Zone
  pub settings : Settings
  pub directory : Directory
  pub stream_organization : ℕ → Option ℕ
  pub int_of : String → Option ℤ

abbrev intent_of : AttendanceEventType → Option Intent
intent_of AttendanceEventType.check_in = some entry
intent_of AttendanceEventType.check_out = some leave
intent_of _ = none

-- One event's end: the cancellation of the task, or an outcome with the events to retry.
pub data Persisted : Type 0 where
  interrupted : Ledger → Persisted
  routed : Outcome → List AttendanceEvent → Ledger → Persisted

abbrev outcome_of : Punch → Outcome
outcome_of none = skipped
outcome_of (some (_, action)) = if writes action then persisted else no_op

-- A drain's end: the ledger, the retry list, and the number persisted, or none when the task was
-- cancelled.
pub record Drained : Type 0 where
  pub ledger : Ledger
  pub retry : List AttendanceEvent
  pub count : Option ℕ

abbrev pub count_up : Outcome → ℕ → ℕ
count_up persisted n = suc n
count_up _ n = n

module _ (env : Environment) where
  abbrev pub employee_pk_from_identity : String → Option ℤ
  employee_pk_from_identity identity = if str_eq identity "" then none else env.int_of identity

  -- `age > max_age`
  abbrev is_stale : ℕ → ℕ → AttendanceEvent → Bool
  is_stale now max_age e = ltb_ℤ (pos (max_age * second)) (pos now -ℤ pos e.timestamp)

  abbrev camera_organization : Option ℕ → Option ℕ
  camera_organization none = none
  camera_organization (some c) = env.stream_organization c

  -- No row has a negative id.
  abbrev recognize_pk : Call → ℤ → AttendanceEvent → Intent → Ledger → Result (Punch × Ledger)
  recognize_pk call (negsuc n) e intent ledger = ok (none, ledger)
  recognize_pk call (pos n) e intent ledger =
      process_recognition env.zone env.settings env.directory call n e.camera_id
        (camera_organization e.camera_id) "face" intent ledger

  abbrev clear_pk : Reply (Unit {0}) → ℤ → Marks → Marks
  clear_pk redis (negsuc n) m = m
  clear_pk redis (pos n) m = clear_duplicate_marker redis n face m

  -- The handler of a failure: the rows are rolled back, the marker goes, the event is kept.
  abbrev recover : Turn → ℤ → AttendanceEvent → Ledger → Marks → Persisted
  recover turn pk e before marks =
      routed skipped (e ∷ [])
        (record { records = before.records; marks = clear_pk turn.redis_delete pk marks })

  abbrev at_commit : Commit → Turn → ℤ → AttendanceEvent → Ledger → Punch → Ledger → Persisted
  at_commit committed turn pk e before punch after = routed (outcome_of punch) [] after
  at_commit failed turn pk e before punch after = recover turn pk e before after.marks

  -- Only a recognition that returns gets to the commit.
  abbrev conclude : Turn → ℤ → AttendanceEvent → Ledger → Result (Punch × Ledger) → Persisted
  conclude turn pk e before (err _) =
      if turn.is_cancelled then interrupted before else recover turn pk e before before.marks
  conclude turn pk e before (ok (punch, after)) =
      if turn.is_cancelled
      then interrupted (record { records = before.records; marks = after.marks })
      else at_commit turn.commit turn pk e before punch after

  abbrev with_intent : Turn → ℤ → AttendanceEvent → Ledger → Option Intent → Persisted
  with_intent turn pk e ledger none = routed skipped [] ledger
  with_intent turn pk e ledger (some intent) =
      conclude turn pk e ledger (recognize_pk turn.call pk e intent ledger)

  abbrev with_pk : ℕ → ℕ → Turn → AttendanceEvent → Ledger → Option ℤ → Persisted
  with_pk now max_age turn e ledger none = routed skipped [] ledger
  with_pk now max_age turn e ledger (some pk) =
      if is_stale now max_age e
      then routed skipped [] ledger
      else with_intent turn pk e ledger (intent_of e.event_type)

  pub persist_event : ℕ → ℕ → Turn → AttendanceEvent → Ledger → Persisted
  persist_event now max_age turn e ledger =
      with_pk now max_age turn e ledger (employee_pk_from_identity e.employee_id)

  -- The events from place `i` of the batch on.
  pub persist_all :
      ℕ → ℕ → (ℕ → Turn) → ℕ → List AttendanceEvent → ℕ → List AttendanceEvent → Ledger → Drained
  unfolding persist_event
  persist_all now max_age turns i [] n retry ledger = record {
    ledger = ledger;
    retry = retry;
    count = some n;
  }
  persist_all now max_age turns i (e ∷ es) n retry ledger =
      elim (persist_event now max_age (turns i) e ledger) [
        | interrupted ledger' ↦ record { ledger = ledger'; retry = retry ++ e ∷ es; count = none }
        | routed outcome again ledger' ↦
            persist_all now max_age turns (suc i) es (count_up outcome n) (retry ++ again) ledger'
      ]

  -- `opened`: whether the session could be opened.
  pub drain_once :
      ℕ
      → ℕ
      → (ℕ → Turn)
      → Bool
      → List AttendanceEvent
      → AttendanceGenerator
      → Ledger
      → Drained × AttendanceGenerator
  unfolding persist_all
  drain_once now max_age turns opened retry g ledger =
      let events = retry ++ (drain_events g).0 in
      let session =
        if opened
        then persist_all now max_age turns 0 events 0 [] ledger
        else record { ledger = ledger; retry = events; count = none } in
      (session, (drain_events g).1)
