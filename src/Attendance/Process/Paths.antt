-- ===== src/Attendance/Process/Paths.antt =====
-- The three ways into the ledger agree: a tap at a two-way reader, the kiosk toggle, and an
-- administrator's entry derive the same record.
use attendance.Prelude.{
  ◌≡◌, refl, Bool, true, false, Option, none, some, not, ◌&&◌, is_some, if◌then◌else◌, ap, ◌∙◌, sym,
}
use attendance.Prelude.Errors.{Result, ok, err, ◌>>=◌}
use attendance.Clock.{Datetime, Zone}
use attendance.Attendance.Tables.{AttendancePolicy, Shift, AttendanceRecord, Settings}
use attendance.Attendance.Status.{apply_check_in, apply_check_out}
use attendance.Attendance.Process.{
  Action, check_in, check_out, nothing, already_complete, toggle, both, take_action, tap_action,
  manual_check_in, manual_check_out,
}

-- The record that an action leaves, without the report.
abbrev pub record_of : Result (AttendanceRecord × Action) → Result AttendanceRecord
record_of m = do (r, _) ← m; ok r

record_of-bind : (m : Result AttendanceRecord) (a : Action) → record_of (m >>= λ r. ok (r, a)) ≡ m
record_of-bind (ok r) a = refl
record_of-bind (err e) a = refl

same_tests :
    (i o : Bool) (entered : AttendanceRecord) (m : Result AttendanceRecord) (r : AttendanceRecord)
    → record_of (
        if true && not i
        then ok (entered, check_in)
        else if true && (i && not o)
        then (m >>= λ r'. ok (r', check_out))
        else ok (r, nothing))
      ≡ record_of (
          if not i
          then ok (entered, check_in)
          else if not o
          then (m >>= λ r'. ok (r', check_out))
          else ok (r, already_complete))
same_tests true true entered m r = refl
same_tests true false entered m r = refl
same_tests false o entered m r = refl

first_toggle :
    (i : Bool) (entered : AttendanceRecord) (rest : Result (AttendanceRecord × Action))
    (next : AttendanceRecord → Result AttendanceRecord)
    → i ≡ false
    → ((if not i then ok (entered, check_in) else rest) >>= λ (r, _). next r) ≡ next entered
first_toggle i entered rest next e =
    ap (λ b. (if not b then ok (entered, check_in) else rest) >>= λ (r, _). next r) e

second_toggle :
    (o : Bool) (m : Result AttendanceRecord) (r : AttendanceRecord)
    → o ≡ false
    → record_of (if not o then (m >>= λ r'. ok (r', check_out)) else ok (r, already_complete)) ≡ m
second_toggle o m r e =
    ap
      (λ b.
        record_of (if not b then (m >>= λ r'. ok (r', check_out)) else ok (r, already_complete)))
      e
    ∙ record_of-bind m check_out

module _ (zone : Zone) (settings : Settings) where
  -- A tap at a two-way reader leaves the record that the kiosk toggle leaves for the method
  -- "rfid" and no camera: the two copies of the state machine agree on every record.
  pub record_of-tap_action_both :
      (now : Datetime) (shift : Option Shift) (policy : Option AttendancePolicy)
      (r : AttendanceRecord)
      → record_of (tap_action zone settings both now shift policy r)
        ≡ record_of (take_action zone settings toggle now "rfid" none shift policy r)
  unfolding tap_action take_action apply_check_in
  record_of-tap_action_both now shift policy r =
      same_tests (is_some r.check_in_at) (is_some r.check_out_at) _
        (apply_check_out settings r now "rfid" policy) r

  -- On a day without punches, a manual entry of both times gives the record that two toggles at
  -- those times give, one after the other, without a camera.
  pub manual_entry-eq-toggles :
      (a b : Datetime) (shift : Option Shift) (policy : Option AttendancePolicy)
      (r : AttendanceRecord)
      → r.check_in_at ≡ none
      → r.check_out_at ≡ none
      → manual_check_out zone settings
          (some b)
          policy
          (manual_check_in zone settings (some a) shift policy r)
        ≡ (do
          (r', _) ← take_action zone settings toggle a "manual" none shift policy r
          record_of (take_action zone settings toggle b "manual" none shift policy r'))
  unfolding take_action apply_check_in
  manual_entry-eq-toggles a b shift policy r e f =
      let entered = apply_check_in zone r a "manual" none shift policy in
      sym (
        first_toggle (is_some r.check_in_at) entered _
          (λ r'. record_of (take_action zone settings toggle b "manual" none shift policy r'))
          (ap is_some e)
        ∙ second_toggle (is_some r.check_out_at)
            (apply_check_out settings entered b "manual" policy) entered (ap is_some f))
