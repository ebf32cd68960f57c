-- ===== src/Attendance/Queries/Keyed.antt =====
-- Tables of records with unique ids and unique days: the constraints of `attendance_records`, and
-- how the selects, inserts and updates stand to them.
use attendance.Prelude.{
  ℕ, ◌≡◌, refl, Bool, true, false, none, some, List, [], ◌∷◌, ◌++◌, ◌==◌, select, any, ◌||◌, arith,
  Bool-cases, inl, inr, ap, first_where,
}
use attendance.Prelude.Errors.{ok, scalar_one_or_none}
use mathlib.Core.Path.{subst, subst₂}
use mathlib.Core.Option.{some-injective}
use attendance.Attendance.Tables.{AttendanceRecord}
use attendance.Attendance.Queries.{has_key, select_record}

abbrev pub has_id : ℕ → AttendanceRecord → Bool
has_id n r = r.id == n

-- The primary key and the constraint UNIQUE(employee_id, work_date).
abbrev pub IsKeyed : List AttendanceRecord → Type 0
IsKeyed [] = Unit
IsKeyed (x ∷ xs) =
    (any (has_key x.employee_id x.work_date) xs ≡ false)
    × (any (has_id x.id) xs ≡ false)
    × IsKeyed xs

pub select-none :
    (p : AttendanceRecord → Bool) (rows : List AttendanceRecord)
    → any p rows ≡ false
    → select p rows ≡ []
select-none p [] h = refl
select-none p (x ∷ xs) h = ground (arith, select-none p xs)

pub first_where-none :
    (p : AttendanceRecord → Bool) (rows : List AttendanceRecord)
    → first_where p rows ≡ none
    → any p rows ≡ false
first_where-none p [] h = refl
first_where-none p (x ∷ xs) h = ground (arith, first_where-none p xs)

pub first_where-true {ℓ} :
    {A : Type ℓ} (p : A → Bool) (rows : List A) {r : A} → first_where p rows ≡ some r → p r ≡ true
first_where-true p [] h = cc
first_where-true p (x ∷ xs) {r} h = elim (Bool-cases (p x)) [
  | inl here ↦ subst (λ y. p y ≡ true) (some-injective _ _ (rw here at (h))) here
  | inr later ↦ first_where-true p xs (rw later at h)
]

pub has_key-eq :
    (e d : ℕ) (x : AttendanceRecord)
    → has_key e d x ≡ true
    → (x.employee_id ≡ e) × (x.work_date ≡ d)
has_key-eq e d x h = ground arith

has_key_unique :
    (e d : ℕ) (x : AttendanceRecord) (xs : List AttendanceRecord)
    → has_key e d x ≡ true
    → any (has_key x.employee_id x.work_date) xs ≡ false
    → select (has_key e d) xs ≡ []
has_key_unique e d x xs h u =
    let (p, q) = has_key-eq e d x h in
    select-none (has_key e d) xs (subst₂ (λ a b. any (has_key a b) xs ≡ false) p q u)

-- At most one row has a given day, so the select of a day is the first row that has it.
pub select_record-eq-first_where :
    (e d : ℕ) (rows : List AttendanceRecord)
    → IsKeyed rows
    → select_record e d rows ≡ ok (first_where (has_key e d) rows)
select_record-eq-first_where e d [] h = refl
select_record-eq-first_where e d (x ∷ xs) h = elim (Bool-cases (has_key e d x)) [
  | inl here ↦ rw here (ap (λ l. scalar_one_or_none (x ∷ l)) (has_key_unique e d x xs here h.0))
  | inr later ↦ rw later (select_record-eq-first_where e d xs h.2)
]

any-append :
    (p : AttendanceRecord → Bool) (xs ys : List AttendanceRecord)
    → any p (xs ++ ys) ≡ any p xs || any p ys
any-append p [] ys = refl
any-append p (x ∷ xs) ys = ground (arith, any-append p xs ys)

pub IsKeyed-prefix : (xs ys : List AttendanceRecord) → IsKeyed (xs ++ ys) → IsKeyed xs
IsKeyed-prefix [] ys h = tt
IsKeyed-prefix (x ∷ xs) ys h = (
  ground (arith, any-append (has_key x.employee_id x.work_date) xs ys),
  ground (arith, any-append (has_id x.id) xs ys),
  IsKeyed-prefix xs ys h.2,
)

has_key_sym :
    (x y : AttendanceRecord)
    → has_key x.employee_id x.work_date y ≡ has_key y.employee_id y.work_date x
has_key_sym x y = ground arith

has_id_sym : (x y : AttendanceRecord) → has_id x.id y ≡ has_id y.id x
has_id_sym x y = ground arith

-- A row with a new day and a new id may be added at the end.
pub IsKeyed-snoc :
    (xs : List AttendanceRecord) (r : AttendanceRecord)
    → IsKeyed xs
    → any (has_key r.employee_id r.work_date) xs ≡ false
    → any (has_id r.id) xs ≡ false
    → IsKeyed (xs ++ r ∷ [])
IsKeyed-snoc [] r h k i = (refl, refl, tt)
IsKeyed-snoc (x ∷ xs) r h k i = (
  ground (arith, any-append (has_key x.employee_id x.work_date) xs (r ∷ []), has_key_sym x r),
  ground (arith, any-append (has_id x.id) xs (r ∷ []), has_id_sym x r),
  IsKeyed-snoc xs r h.2 (ground arith) (ground arith),
)

pub first_where-snoc :
    (p : AttendanceRecord → Bool) (xs : List AttendanceRecord) (r : AttendanceRecord)
    → any p xs ≡ false
    → p r ≡ true
    → first_where p (xs ++ r ∷ []) ≡ some r
first_where-snoc p [] r h k = rw k
first_where-snoc p (x ∷ xs) r h k = ground (arith, first_where-snoc p xs r)
