-- ===== src/Attendance/Queries/Create.antt =====
-- Fetching or creating the day's record, with rival inserts of other transactions in between.
use attendance.Prelude.{
  ℕ, ◌≡◌, refl, Bool, true, false, Option, some, List, [], ◌∷◌, ◌++◌, any, arith, Bool-cases,
  Option-cases, inl, inr, ap, ◌∙◌, ==_refl, first_where, not, ◌&&◌, ◌||◌, sym, any-append,
}
use mathlib.Core.Path.{subst}
use attendance.Prelude.Errors.{Result, ok, err, integrity_error, invalid_request, ◌>>=◌}
use attendance.Attendance.Tables.{AttendanceRecord}
use attendance.Attendance.Queries.{
  has_key, Interference, new_record, flush_insert, insert_or_reselect, after_flush, found_or_insert,
  get_or_create_today_record,
}
use attendance.Attendance.Queries.Keyed.{
  IsKeyed, has_id, IsKeyed-prefix, IsKeyed-snoc, select_record-eq-first_where, first_where-none,
  first_where-snoc,
}

-- Every day that is in the first table has the same row in the second.
abbrev pub Extends : List AttendanceRecord → List AttendanceRecord → Type 0
Extends xs ys =
    (e d : ℕ) (x : AttendanceRecord)
    → first_where (has_key e d) xs ≡ some x
    → first_where (has_key e d) ys ≡ some x

pub Extends-append : (xs ys : List AttendanceRecord) → Extends xs (xs ++ ys)
Extends-append [] ys e d x h = cc
Extends-append (y ∷ xs) ys e d x h = ground (arith, Extends-append xs ys e d x)

-- What a database promises of the rows that others commit and of the id that it gives, and that
-- the rows that the call writes meet all their constraints but the unique day.
pub record IsSerial (env : Interference) (rows : List AttendanceRecord) : Type 0 where
  pub keyed : IsKeyed (rows ++ env.rivals)
  pub fresh : any (has_id env.new_id) (rows ++ env.rivals) ≡ false
  pub insertable : env.insertable ≡ true
  pub updatable : env.updatable ≡ true

has_key_refl : (r : AttendanceRecord) → has_key r.employee_id r.work_date r ≡ true
has_key_refl r = rw (==_refl r.employee_id, ==_refl r.work_date)

flush_insert-ok :
    (free : Bool) (r : AttendanceRecord) (rows : List AttendanceRecord)
    → free ≡ true
    → any (has_key r.employee_id r.work_date) rows ≡ false
    → flush_insert free r rows ≡ ok (rows ++ r ∷ [])
flush_insert-ok free r rows f e = rw (f, e)

flush_insert-err :
    (free : Bool) (r : AttendanceRecord) (rows : List AttendanceRecord)
    → any (has_key r.employee_id r.work_date) rows ≡ true
    → flush_insert free r rows ≡ err integrity_error
flush_insert-err true r rows e = rw e
flush_insert-err false r rows e = refl

first_where-any :
    (p : AttendanceRecord → Bool) (xs : List AttendanceRecord) {x : AttendanceRecord}
    → first_where p xs ≡ some x
    → any p xs ≡ true
first_where-any p [] h = cc
first_where-any p (y ∷ xs) h = elim (Bool-cases (p y)) [
  | inl here ↦ rw here refl
  | inr later ↦ rw later (first_where-any p xs (rw later at (h)))
]

-- The day's row is in the new table, which has unique days and keeps the rows of the old one.
abbrev pub Created :
    ℕ → ℕ → List AttendanceRecord → Result (AttendanceRecord × List AttendanceRecord) → Type 0
Created e d rows m =
    (r : AttendanceRecord) × (rows' : List AttendanceRecord) × (m ≡ ok (r, rows'))
    × IsKeyed rows'
    × (first_where (has_key e d) rows' ≡ some r)
    × Extends rows rows'

-- The insert race is lost: the day has no record yet, and another transaction commits one between
-- the select and the flush.
abbrev pub is_lost : Interference → ℕ → ℕ → List AttendanceRecord → Bool
is_lost env e d rows = not (any (has_key e d) rows) && any (has_key e d) env.rivals

-- What the call comes to: the day's row, or the exception of a lost race.
abbrev pub Outcome :
    Bool
    → ℕ
    → ℕ
    → List AttendanceRecord
    → Result (AttendanceRecord × List AttendanceRecord)
    → Type 0
Outcome false e d rows m = Created e d rows m
Outcome true e d rows m = m ≡ err invalid_request

insert_or_reselect-Outcome :
    (env : Interference) (r : AttendanceRecord) (rows : List AttendanceRecord) (taken : Bool)
    → any (has_key r.employee_id r.work_date) rows ≡ taken
    → IsKeyed rows
    → any (has_id r.id) rows ≡ false
    → env.insertable ≡ true
    → Outcome taken r.employee_id r.work_date rows (insert_or_reselect env r rows)
insert_or_reselect-Outcome env r rows true taken keyed fresh free =
    ap (after_flush r rows) (flush_insert-err env.insertable r rows taken)
insert_or_reselect-Outcome env r rows false new keyed fresh free = (
  r,
  rows ++ r ∷ [],
  ap (after_flush r rows) (flush_insert-ok env.insertable r rows free new),
  IsKeyed-snoc rows r keyed new fresh,
  first_where-snoc (has_key r.employee_id r.work_date) rows r new (has_key_refl r),
  Extends-append rows (r ∷ []),
)

-- A longer table, reached by an equal call.
Outcome-grow :
    (lost : Bool) (e d : ℕ) (xs ys : List AttendanceRecord)
    {m n : Result (AttendanceRecord × List AttendanceRecord)}
    → n ≡ m
    → Extends xs ys
    → Outcome lost e d ys m
    → Outcome lost e d xs n
Outcome-grow true e d xs ys q g h = q ∙ h
Outcome-grow false e d xs ys q g (r, rows, m, keyed, found, x) =
    (r, rows, q ∙ m, keyed, found, (λ e' d' y p. x e' d' y (g e' d' y p)))

-- Where the database serializes its constraints and every constraint but the unique day holds of
-- the new row, the call returns the one row of the employee's day, unless the day has no row and
-- another transaction commits one between the select and the flush. The row is the one that was
-- there or a new one, the days stay unique, and every row that was there before is still there,
-- unchanged. If the race is lost, the call raises `InvalidRequestError`.
pub get_or_create_today_record-Created :
    (env : Interference) (employee_id work_date : ℕ) (location_id camera_id shift_id : Option ℕ)
    (rows : List AttendanceRecord)
    → IsSerial env rows
    → Outcome
        (is_lost env employee_id work_date rows)
        employee_id
        work_date
        rows
        (get_or_create_today_record env employee_id work_date location_id camera_id shift_id rows)
unfolding get_or_create_today_record
get_or_create_today_record-Created env e d location_id camera_id shift_id rows h =
    let new = new_record env.new_id e d location_id camera_id shift_id in
    let keyed = IsKeyed-prefix rows env.rivals h.keyed in
    let step =
      ap (λ m. m >>= found_or_insert env new rows) (select_record-eq-first_where e d rows keyed) in
    elim (Option-cases (first_where (has_key e d) rows)) [
      | inr (r, found) ↦
          subst
            (λ b.
              Outcome b e d rows
                (get_or_create_today_record env e d location_id camera_id shift_id rows))
            (sym (
              ap (λ b. not b && any (has_key e d) env.rivals)
                (first_where-any (has_key e d) rows found)))
            (
              r,
              rows,
              step ∙ ap (found_or_insert env new rows) found,
              keyed,
              found,
              (λ e' d' x k. k),
            )
      | inl absent ↦
          let free = first_where-none (has_key e d) rows absent in
          Outcome-grow (is_lost env e d rows) e d rows (rows ++ env.rivals)
            (step ∙ ap (found_or_insert env new rows) absent) (Extends-append rows env.rivals)
            (insert_or_reselect-Outcome env new (rows ++ env.rivals) (is_lost env e d rows)
              (any-append (has_key e d) rows env.rivals
                ∙ ap (λ b. b || any (has_key e d) env.rivals) free
                ∙ sym (ap (λ b. not b && any (has_key e d) env.rivals) free))
              h.keyed h.fresh h.insertable)
    ]

-- In a table with unique days, a day that has its record is fetched, and nothing is inserted,
-- whatever is committed meanwhile.
pub get_or_create_today_record-found :
    (env : Interference) (e d : ℕ) (location_id camera_id shift_id : Option ℕ)
    (rows : List AttendanceRecord) (r : AttendanceRecord)
    → IsKeyed rows
    → first_where (has_key e d) rows ≡ some r
    → get_or_create_today_record env e d location_id camera_id shift_id rows ≡ ok (r, rows)
unfolding get_or_create_today_record
get_or_create_today_record-found env e d location_id camera_id shift_id rows r keyed found =
    let new = new_record env.new_id e d location_id camera_id shift_id in
    ap (λ m. m >>= found_or_insert env new rows) (select_record-eq-first_where e d rows keyed)
    ∙ ap (found_or_insert env new rows) found
