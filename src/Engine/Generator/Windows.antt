-- ===== src/Engine/Generator/Windows.antt =====
-- The tracker's window and the bounds of the queue.
use text.Mathlib.Text.{◌==◌ as str_eq}
use text.Mathlib.TextPositions.{eq_refl}
use attendance.Prelude.{
  ℕ, String, Bool, true, false, Option, none, some, List, [], ◌∷◌, ◌≤◌, ◌==◌, ◌≡◌, refl, ◌&&◌,
  if◌then◌else◌, length, arith, Bool-cases, inl, inr, length-append, ap, ◌∙◌, ==_refl,
}
use attendance.Prelude.Int.{pos, ◌-ℤ◌}
use attendance.Clock.{shorter_than}
use attendance.Engine.Generator.{
  AttendanceEvent, AttendanceEventType, AttendanceGenerator, CameraDirection, Entry,
  max_pending_events, has_key, last_seen, mark_seen, within_window, is_duplicate, enqueue_bounded,
  resolve_event_type, generate_unless, generate_event, place,
}

length-enqueue_bounded :
    (e : AttendanceEvent) (q : List AttendanceEvent)
    → length q ≤ max_pending_events
    → length (enqueue_bounded e q) ≤ max_pending_events
length-enqueue_bounded e [] h = omega arith
length-enqueue_bounded e (x ∷ xs) h = ground (arith, length-append xs (e ∷ []))

generate_unless-bounded :
    (d : Bool × List Entry) (event : AttendanceEvent) (enqueue : Bool) (g : AttendanceGenerator)
    → length g.event_queue ≤ max_pending_events
    → length (generate_unless d event enqueue g).1.event_queue ≤ max_pending_events
generate_unless-bounded (true, tracker) event enqueue g h = h
generate_unless-bounded (false, tracker) event true g h =
    length-enqueue_bounded event g.event_queue h
generate_unless-bounded (false, tracker) event false g h = h

-- A queue within its bound stays within it whatever event is generated: the oldest event makes
-- room.
pub length-generate_event :
    (window now stamp : ℕ) (i : String) (camera : Option ℕ) (event_type : AttendanceEventType)
    (direction : CameraDirection) (enqueue : Bool) (g : AttendanceGenerator)
    → length g.event_queue ≤ max_pending_events
    → length (generate_event window now stamp i camera event_type direction enqueue g).1.event_queue
      ≤ max_pending_events
unfolding generate_event
length-generate_event window now stamp i camera event_type direction enqueue g h =
    generate_unless-bounded
      (is_duplicate window i (resolve_event_type event_type direction) now g.tracker) _ enqueue g h

has_key_self : (i : String) (t : AttendanceEventType) → (str_eq i i && place t == place t) ≡ true
has_key_self i t = rw (eq_refl i, ==_refl (place t)) refl

last_seen-mark_seen :
    (i : String) (t : AttendanceEventType) (now : ℕ) (es : List Entry)
    → last_seen i t (mark_seen i t now es) ≡ some now
last_seen-mark_seen i t now [] = rw (has_key_self i t) refl
last_seen-mark_seen i t now (e ∷ es) = elim (Bool-cases (has_key i t e)) [
  | inl same ↦ rw same (rw same refl)
  | inr other ↦ rw other (rw other (last_seen-mark_seen i t now es))
]

abbrev tested : Bool → List Entry → List Entry → Bool × List Entry
tested b u v = if b then (true, u) else (false, v)

-- An admitted event, and what the next question for its key is told.
asked_again :
    (window now later : ℕ) (i : String) (t : AttendanceEventType) (event event' e : AttendanceEvent)
    (enqueue enqueue' b : Bool) (g : AttendanceGenerator)
    → let first = tested b g.tracker (mark_seen i t now g.tracker) in
      let g' = (generate_unless first event enqueue g).1 in
      (generate_unless first event enqueue g).0 ≡ some e
      → (generate_unless
          (tested
            (within_window window later (last_seen i t g'.tracker))
            g'.tracker
            (mark_seen i t later g'.tracker))
          event'
          enqueue'
          g').0
        ≡ (if shorter_than (pos later -ℤ pos now) window then none else some event')
asked_again window now later i t event event' e enqueue enqueue' true g h = cc
asked_again window now later i t event event' e enqueue enqueue' false g h =
    ap
      (λ o.
        (generate_unless
          (tested (within_window window later o) (mark_seen i t now g.tracker)
            (mark_seen i t later (mark_seen i t now g.tracker)))
          event' enqueue'
          (generate_unless (tested false g.tracker (mark_seen i t now g.tracker)) event enqueue
            g).1).0)
      (last_seen-mark_seen i t now g.tracker)
    ∙ answer (shorter_than (pos later -ℤ pos now) window) event' enqueue' _ _ _
  where
    answer :
        (b : Bool) (event' : AttendanceEvent) (enqueue' : Bool) (g' : AttendanceGenerator)
        (u v : List Entry)
        → (generate_unless (tested b u v) event' enqueue' g').0 ≡ (if b then none else some event')
    answer true event' enqueue' g' u v = refl
    answer false event' enqueue' g' u v = refl

-- Once an event is generated, the next request for its employee that resolves to its type gives
-- no event while less than the window has passed, and gives one from then on: whatever the
-- cameras, the requested types, the directions and the queueing of the two.
pub generate_event-again :
    (window now stamp later stamp' : ℕ) (i : String) (camera camera' : Option ℕ)
    (wanted wanted' : AttendanceEventType) (direction direction' : CameraDirection)
    (enqueue enqueue' : Bool) (g : AttendanceGenerator) (e : AttendanceEvent)
    → resolve_event_type wanted' direction' ≡ resolve_event_type wanted direction
    → (generate_event window now stamp i camera wanted direction enqueue g).0 ≡ some e
    → (generate_event window later stamp' i camera' wanted' direction' enqueue'
        (generate_event window now stamp i camera wanted direction enqueue g).1).0
      ≡ (if shorter_than (pos later -ℤ pos now) window
          then none
          else some (record {
            employee_id = i;
            camera_id = camera';
            event_type = resolve_event_type wanted direction;
            timestamp = stamp';
          }))
unfolding generate_event is_duplicate
generate_event-again window now stamp later stamp' i camera camera' wanted wanted' direction
      direction' enqueue enqueue' g e same h =
    rw same (
      asked_again window now later i (resolve_event_type wanted direction) _ _ e enqueue enqueue'
        (within_window window now (last_seen i (resolve_event_type wanted direction) g.tracker)) g
        h)
