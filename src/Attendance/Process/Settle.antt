-- ===== src/Attendance/Process/Settle.antt =====
-- The part that both entry points share: the days stay unique, and no punch is lost.
use attendance.Prelude.{
  ◌||◌, or_else, ℕ, ◌≡◌, refl, Bool, true, false, Option, none, some, List, arith, Bool-cases, inl,
  inr, ap, ◌∙◌, sym, [], ◌∷◌, first_where, ◌⊎◌, not,
}
use mathlib.Core.Path.{subst, subst₂}
use mathlib.Core.Option.{some-injective}
use attendance.Prelude.Int.{pos, ◌-ℤ◌}
use attendance.Prelude.Errors.{
  Result, ok, err, ◌>>=◌, ◌>>◌, raise_if, integrity_error, invalid_request,
}
use attendance.Clock.{Datetime, Zone, utc, shorter_than}
use attendance.Clock.Laws.{subtract-utc-as_utc}
use attendance.Attendance.Tables.{AttendancePolicy, Shift, AttendanceRecord, Settings}
use attendance.Attendance.Status.{shift_id_of}
use attendance.Attendance.Duplicates.{DupKey, check_duplicate_shared}
use attendance.Attendance.Queries.{has_key, save}
use attendance.Attendance.Queries.Keyed.{IsKeyed, has_id, has_key-eq, first_where-true}
use attendance.Attendance.Queries.Save.{Agrees, Agrees-first_where, IsKeyed-save, first_where-save}
use attendance.Attendance.Queries.Create.{
  Extends, IsSerial, is_lost, Outcome, get_or_create_today_record-Created,
}
use attendance.Attendance.Process.{
  Action, Ledger, Call, Punch, recently, act_unless_duplicate, flush_update, flushed, policy_for,
  settle, recent_action_within, Directory, Employee, local_date, get_active_shift,
}
use attendance.Attendance.Process.Actions.{Keeps}

-- An action on a record that never raises and keeps its keys and punches.
abbrev IsKeeping :
    (Option Shift → Option AttendancePolicy → AttendanceRecord → Result (AttendanceRecord × Action))
    → Type 0
IsKeeping act =
    (shift : Option Shift) (policy : Option AttendancePolicy) (r : AttendanceRecord)
    → (r' : AttendanceRecord) × (a : Action) × (act shift policy r ≡ ok (r', a)) × Keeps r r'

Keeps-refl : (r : AttendanceRecord) → Keeps r r
Keeps-refl r = ground arith

-- Every day that was in the table is still there, with its punches.
abbrev pub KeepsDays : List AttendanceRecord → List AttendanceRecord → Type 0
KeepsDays xs ys =
    (e d : ℕ) (x : AttendanceRecord)
    → first_where (has_key e d) xs ≡ some x
    → (y : AttendanceRecord) × (first_where (has_key e d) ys ≡ some y) × Keeps x y

pub KeepsDays-refl : (xs : List AttendanceRecord) → KeepsDays xs xs
KeepsDays-refl xs e d x h = (x, h, Keeps-refl x)

pub recently-ok :
    (last : Option Datetime) (window t : ℕ) → (b : Bool) × (recently last window (utc t) ≡ ok b)
recently-ok none window t = (false, refl)
recently-ok (some last) window t = (
  shorter_than (pos t -ℤ pos last.micros) window,
  ap (λ m. m >>= λ diff. ok (shorter_than diff window)) (subtract-utc-as_utc t last),
)

Agrees-Keeps :
    (r r' : AttendanceRecord) (xs : List AttendanceRecord) → Keeps r r' → Agrees r xs → Agrees r' xs
Agrees-Keeps r r' [] k a = tt
Agrees-Keeps r r' (x ∷ xs) k a = (
  (λ same. let (p, q) = a.0 (rw (← k.id) same) in (p ∙ sym k.employee_id, q ∙ sym k.work_date)),
  Agrees-Keeps r r' xs k a.1,
)

Agrees-found :
    (r : AttendanceRecord) (p : AttendanceRecord → Bool) (xs : List AttendanceRecord)
    {x : AttendanceRecord}
    → Agrees r xs
    → first_where p xs ≡ some x
    → has_id r.id x ≡ true
    → (x.employee_id ≡ r.employee_id) × (x.work_date ≡ r.work_date)
Agrees-found r p [] a h = cc
Agrees-found r p (y ∷ xs) {x} a h = elim (Bool-cases (p y)) [
  | inl here ↦
      subst
        (λ z. has_id r.id z ≡ true → (z.employee_id ≡ r.employee_id) × (z.work_date ≡ r.work_date))
        (some-injective _ _ (rw here at (h))) a.0
  | inr later ↦ Agrees-found r p xs a.1 (rw later at (h))
]

-- Two days whose rows have one id are one day.
first_where-same :
    (r r' : AttendanceRecord) (rows : List AttendanceRecord) (e d e' d' : ℕ) (x : AttendanceRecord)
    → first_where (has_key e d) rows ≡ some r
    → Keeps r r'
    → Agrees r' rows
    → first_where (has_key e' d') rows ≡ some x
    → has_id r'.id x ≡ true
    → x ≡ r
first_where-same r r' rows e d e' d' x found keeps agrees h same =
    let (p, q) = Agrees-found r' (has_key e' d') rows agrees h same in
    let (xe, xd) = has_key-eq e' d' x (first_where-true (has_key e' d') rows h) in
    let (re, rd) = has_key-eq e d r (first_where-true (has_key e d) rows found) in
    let found' : first_where (has_key e' d') rows ≡ some r =
      subst₂ (λ a b. first_where (has_key a b) rows ≡ some r)
        (sym re ∙ sym keeps.employee_id ∙ sym p ∙ xe) (sym rd ∙ sym keeps.work_date ∙ sym q ∙ xd)
        found in
    some-injective _ _ (sym h ∙ found')

KeepsDays-save :
    (r r' : AttendanceRecord) (rows : List AttendanceRecord) (e d : ℕ)
    → IsKeyed rows
    → first_where (has_key e d) rows ≡ some r
    → Keeps r r'
    → IsKeyed (save r' rows) × KeepsDays rows (save r' rows)
KeepsDays-save r r' rows e d keyed found keeps =
    let agrees : Agrees r rows = Agrees-first_where (has_key e d) rows keyed found in
    let agrees' : Agrees r' rows = Agrees-Keeps r r' rows keeps agrees in
    (
      IsKeyed-save r' rows agrees' keyed,
      (λ e' d' x h. elim (Bool-cases (has_id r'.id x)) [
        | inr other ↦ (x, first_where-save e' d' r' rows agrees' ∙ (rw h (rw other)), Keeps-refl x)
        | inl same ↦ (
          r',
          first_where-save e' d' r' rows agrees' ∙ (rw h (rw same)),
          subst (λ z. Keeps z r')
              (sym (first_where-same r r' rows e d e' d' x found keeps agrees' h same)) keeps,
        )
      ]),
    )

KeepsDays-Extends :
    (xs ys zs : List AttendanceRecord) → Extends xs ys → KeepsDays ys zs → KeepsDays xs zs
KeepsDays-Extends xs ys zs g k e d x h = k e d x (g e d x h)

-- The call succeeds, and its table has unique days and every punch of the table before.
abbrev pub Settled : List AttendanceRecord → Result (Punch × Ledger) → Type 0
Settled rows m =
    (p : Punch) × (ledger : Ledger) × (m ≡ ok (p, ledger))
    × IsKeyed ledger.records
    × KeepsDays rows ledger.records

-- Settled, or the exception of a lost insert race, and that only if the race is lost.
abbrev pub Tried : Bool → List AttendanceRecord → Result (Punch × Ledger) → Type 0
Tried lost rows m = Settled rows m ⊎ ((m ≡ err invalid_request) × (lost ≡ true))

pub Tried-bind :
    {A : Type 0} (lost : Bool) (rows : List AttendanceRecord) (m : Result A)
    (f : A → Result (Punch × Ledger))
    → (a : A) × (m ≡ ok a)
    → ((a : A) → Tried lost rows (f a))
    → Tried lost rows (m >>= f)
Tried-bind lost rows m f (a, e) h = elim (h a) [
  | inl (p, l, n, k, d) ↦ inl (p, l, ap (λ o. o >>= f) e ∙ n, k, d)
  | inr (n, b) ↦ inr (ap (λ o. o >>= f) e ∙ n, b)
]

-- What follows the fetch of the day's record.
fetched-Tried :
    (lost : Bool) (e d : ℕ) (rows : List AttendanceRecord)
    (m : Result (AttendanceRecord × List AttendanceRecord))
    (f : AttendanceRecord × List AttendanceRecord → Result (Punch × Ledger))
    → Outcome lost e d rows m
    → ((r : AttendanceRecord) (rows' : List AttendanceRecord)
        → IsKeyed rows'
        → first_where (has_key e d) rows' ≡ some r
        → Settled rows' (f (r, rows')))
    → Tried lost rows (m >>= f)
fetched-Tried true e d rows m f h next = inr (ap (λ o. o >>= f) h, refl)
fetched-Tried false e d rows m f (r, rows', n, keyed, found, grows) next =
    let (p, ledger, k, keyed', kept) = next r rows' keyed found in
    inl (
      p,
      ledger,
      ap (λ o. o >>= f) n ∙ k,
      keyed',
      KeepsDays-Extends rows rows' ledger.records grows kept,
    )

module _ (zone : Zone) (settings : Settings) where
  act_unless_duplicate-Settled :
      (act : AttendanceRecord → Result (AttendanceRecord × Action)) (call : Call) (key : DupKey)
      (window : ℕ) (ledger : Ledger) (r : AttendanceRecord) (rows : List AttendanceRecord) (e d : ℕ)
      (duplicate : Bool)
      → (r' : AttendanceRecord) × (a : Action) × (act r ≡ ok (r', a)) × Keeps r r'
      → call.interference.updatable ≡ true
      → IsKeyed rows
      → first_where (has_key e d) rows ≡ some r
      → Settled rows
          (act_unless_duplicate zone settings act call key window ledger r rows duplicate)
  act_unless_duplicate-Settled act call key window ledger r rows e d true acted free keyed found =
      (_, _, refl, keyed, KeepsDays-refl rows)
  act_unless_duplicate-Settled act call key window ledger r rows e d false (r', a, m, k) free keyed
        found =
      let after : AttendanceRecord × Action → Punch × Ledger =
        (λ done. (some done, flushed zone settings call key window ledger rows done)) in
      let (keyed', kept) = KeepsDays-save r r' rows e d keyed found k in
      (
        some (r', a),
        flushed zone settings call key window ledger rows (r', a),
        ap (λ n. n >>= λ done. flush_update call.interference >> ok (after done)) m
            ∙ ap (λ b. raise_if (not b) integrity_error >> ok (after (r', a))) free,
        keyed',
        kept,
      )

  -- The shared part of both entry points.
  pub settle-Tried :
      (act : Option Shift
        → Option AttendancePolicy
        → AttendanceRecord
        → Result (AttendanceRecord × Action))
      (dir : Directory) (call : Call) (key : DupKey) (window : ℕ) (camera_id : Option ℕ)
      (employee : Employee) (org_id : Option ℕ) (ledger : Ledger)
      → IsKeeping act
      → IsSerial call.interference ledger.records
      → Tried
          (is_lost call.interference employee.id (local_date zone (utc call.now)) ledger.records)
          ledger.records
          (settle zone settings act dir call key window camera_id employee org_id ledger)
  unfolding settle recent_action_within
  settle-Tried act dir call key window camera_id employee org_id ledger keeping serial =
      let today = local_date zone (utc call.now) in
      let shift = get_active_shift dir employee.id today in
      let policy = policy_for zone settings dir shift org_id in
      let dup = check_duplicate_shared call.redis_get key window call.check_now ledger.marks in
      fetched-Tried (is_lost call.interference employee.id today ledger.records) employee.id today
        ledger.records _ _
        (get_or_create_today_record-Created call.interference employee.id today employee.location_id
          camera_id (shift_id_of shift none) ledger.records serial)
        λ r rows keyed found.
          let (b, e) = recently-ok (or_else r.check_out_at r.check_in_at) window call.now in
          let (p, ledger', n, keyed', kept) =
            act_unless_duplicate-Settled (act shift policy) call key window ledger r rows
              employee.id today (dup || b) (keeping shift policy r) serial.updatable keyed found in
          (
            p,
            ledger',
            ap
                  (λ o. o >>= λ recent.
                    act_unless_duplicate zone settings (act shift policy) call key window ledger r
                      rows (dup || recent))
                  e
                ∙ n,
            keyed',
            kept,
          )
