-- ===== src/Tests/Cameras.antt =====
-- Camera events: a queue, a second sighting, and a drain with failures.
use attendance.Prelude.{
  ◌==◌, ℕ, zero, suc, ◌+◌, ◌≡◌, refl, true, none, some, [], ◌∷◌, ◌++◌, if◌then◌else◌,
}
use attendance.Prelude.Int.{pos, ◌-ℤ◌}
use attendance.Clock.{second, shorter_than}
use attendance.Attendance.Duplicates.{disabled}
use attendance.Engine.Generator.{
  AttendanceEvent, AttendanceEventType, AttendanceGenerator, inwards, unspecified, generate_event,
  is_duplicate,
}
use attendance.Engine.Generator.Windows.{generate_event-again}
use attendance.Engine.Sync.{Commit, committed, failed, Turn, Environment, drain_once}
use attendance.Engine.Sync.Losses.{Parted, drain_once-Parted}
use attendance.Tests.Data.{zone, settings, directory, morning, punch_call, empty_ledger}

abbrev idle : AttendanceGenerator
idle = record { tracker = []; event_queue = []; total_events = 0; duplicates_prevented = 0 }

abbrev sighting : AttendanceEvent
sighting = record {
  employee_id = "7";
  camera_id = some 3;
  event_type = AttendanceEventType.check_in;
  timestamp = morning;
}

first_sighting :
    (generate_event 300 morning morning "7"
      (some 3)
      AttendanceEventType.check_out
      inwards
      true
      idle).0
    ≡ some sighting
unfolding generate_event is_duplicate
first_sighting = refl

generate_event-again_example :
    (generate_event 300
      (morning + second)
      morning
      "7"
      (some 4)
      AttendanceEventType.check_in
      unspecified
      true
      (generate_event 300 morning morning "7"
        (some 3)
        AttendanceEventType.check_out
        inwards
        true
        idle).1).0
    ≡ (if shorter_than (pos (morning + second) -ℤ pos morning) 300
        then none
        else some (record {
          employee_id = "7";
          camera_id = some 4;
          event_type = AttendanceEventType.check_in;
          timestamp = morning;
        }))
generate_event-again_example =
    generate_event-again 300 morning morning (morning + second) morning "7" (some 3) (some 4)
      AttendanceEventType.check_out AttendanceEventType.check_in inwards unspecified true true idle
      sighting refl first_sighting

abbrev environment : Environment
environment = record {
  zone = zone;
  settings = settings;
  directory = directory;
  stream_organization = λ c. some 1;
  int_of = λ identity. some (pos 7);
}

-- The first commit fails; the task is cancelled at the third event.
abbrev commit_at : ℕ → Commit
commit_at zero = failed
commit_at (suc i) = committed

abbrev turns : ℕ → Turn
turns i = record {
  call = punch_call morning;
  is_cancelled = i == 2;
  commit = commit_at i;
  redis_delete = disabled;
}

abbrev busy : AttendanceGenerator
busy = record idle { event_queue = sighting ∷ sighting ∷ [] }

drain_once-Parted_example :
    let (drained, g') =
      drain_once environment morning 300 turns true (sighting ∷ []) busy empty_ledger in
    Parted environment morning 300 turns true 0 empty_ledger
      (sighting ∷ [] ++ busy.event_queue)
      drained.retry
      drained.ledger
    × (g'.event_queue ≡ [])
drain_once-Parted_example =
    drain_once-Parted environment morning 300 turns true (sighting ∷ []) busy empty_ledger
