-- ===== src/Engine/Generator.antt =====
-- Attendance events of the cameras: backend/app/engine/attendance_generator.py. The clock's reading
-- at a call is an argument; the window is `engine_config.attendance.duplicate_window_seconds`.
pub mod Windows
use text.Mathlib.Text.{◌==◌ as str_eq}
use attendance.Prelude.{
  ℕ, suc, String, Bool, true, false, Option, none, some, List, [], ◌∷◌, ◌++◌, ◌+◌, ◌*◌, ◌-◌, ◌==◌,
  ◌&&◌, not, ltb, if◌then◌else◌, length, select,
}
use attendance.Prelude.Int.{pos, ◌-ℤ◌, ltb_ℤ}
use attendance.Clock.{second, shorter_than}

abbrev pub max_pending_events : ℕ
max_pending_events = 1000

pub data AttendanceEventType : Type 0 where
  check_in check_out break_start break_end overtime_start overtime_end : AttendanceEventType

-- The place of a type in its enumeration, by which types are told apart.
abbrev pub place : AttendanceEventType → ℕ
place check_in = 0
place check_out = 1
place break_start = 2
place break_end = 3
place overtime_start = 4
place overtime_end = 5

-- The fields that the ledger or the tracker reads.
pub record AttendanceEvent : Type 0 where
  pub employee_id : String
  pub camera_id : Option ℕ
  pub event_type : AttendanceEventType
  pub timestamp : ℕ

-- `DuplicateTracker._events`, by identity and type.
pub record Entry : Type 0 where
  pub employee_id : String
  pub event_type : AttendanceEventType
  pub seen_at : ℕ

abbrev pub has_key : String → AttendanceEventType → Entry → Bool
has_key i t e = str_eq e.employee_id i && place e.event_type == place t

abbrev pub last_seen : String → AttendanceEventType → List Entry → Option ℕ
last_seen i t [] = none
last_seen i t (e ∷ es) =
    let rest = last_seen i t es in if has_key i t e then some e.seen_at else rest

abbrev pub mark_seen : String → AttendanceEventType → ℕ → List Entry → List Entry
mark_seen i t now [] = record { employee_id = i; event_type = t; seen_at = now } ∷ []
mark_seen i t now (e ∷ es) =
    let rest = mark_seen i t now es in
    if has_key i t e then record e { seen_at = now } ∷ es else e ∷ rest

abbrev pub within_window : ℕ → ℕ → Option ℕ → Bool
within_window window now none = false
within_window window now (some last) = shorter_than (pos now -ℤ pos last) window

-- Whether the event is a duplicate, and the tracker after the question.
unfoldable pub is_duplicate : ℕ → String → AttendanceEventType → ℕ → List Entry → Bool × List Entry
is_duplicate window i t now tracker =
    if within_window window now (last_seen i t tracker)
    then (true, tracker)
    else (false, mark_seen i t now tracker)

-- `(now - v).total_seconds() > window * 2`
abbrev is_expired : ℕ → ℕ → Entry → Bool
is_expired window now e = ltb_ℤ (pos (window * 2 * second)) (pos now -ℤ pos e.seen_at)

-- The number of entries that went, and the rest.
pub clear_expired : ℕ → ℕ → List Entry → ℕ × List Entry
clear_expired window now tracker = (
  length (select (is_expired window now) tracker),
  select (λ e. not (is_expired window now e)) tracker,
)

pub record AttendanceGenerator : Type 0 where
  pub tracker : List Entry
  pub event_queue : List AttendanceEvent
  pub total_events : ℕ
  pub duplicates_prevented : ℕ

-- `append` on a deque with a largest length: the oldest entry makes room.
abbrev pub enqueue_bounded : AttendanceEvent → List AttendanceEvent → List AttendanceEvent
enqueue_bounded e [] = e ∷ []
enqueue_bounded e (x ∷ xs) =
    if ltb (length (x ∷ xs)) max_pending_events then x ∷ xs ++ e ∷ [] else xs ++ e ∷ []

-- A camera's direction, where it is "in" or "out".
pub data CameraDirection : Type 0 where
  inwards outwards unspecified : CameraDirection

abbrev pub resolve_event_type : AttendanceEventType → CameraDirection → AttendanceEventType
resolve_event_type t inwards = check_in
resolve_event_type t outwards = check_out
resolve_event_type t unspecified = t

-- Both readings of the clock: for the duplicate test, and for the event's time.
abbrev generate_unless :
    Bool × List Entry
    → AttendanceEvent
    → Bool
    → AttendanceGenerator
    → Option AttendanceEvent × AttendanceGenerator
generate_unless (true, tracker) event enqueue g =
    (none, record g { tracker = tracker; duplicates_prevented = suc g.duplicates_prevented })
generate_unless (false, tracker) event enqueue g = (
  some event,
  record g {
    tracker = tracker;
    event_queue = if enqueue then enqueue_bounded event g.event_queue else g.event_queue;
    total_events = suc g.total_events;
  },
)

unfoldable pub generate_event :
    ℕ
    → ℕ
    → ℕ
    → String
    → Option ℕ
    → AttendanceEventType
    → CameraDirection
    → Bool
    → AttendanceGenerator
    → Option AttendanceEvent × AttendanceGenerator
unfolding is_duplicate
generate_event window now stamp i camera event_type direction enqueue g =
    let resolved = resolve_event_type event_type direction in
    let event : AttendanceEvent = record {
      employee_id = i;
      camera_id = camera;
      event_type = resolved;
      timestamp = stamp;
    } in
    generate_unless (is_duplicate window i resolved now g.tracker) event enqueue g

unfoldable pub drain_events : AttendanceGenerator → List AttendanceEvent × AttendanceGenerator
drain_events g = (g.event_queue, record g { event_queue = [] })
