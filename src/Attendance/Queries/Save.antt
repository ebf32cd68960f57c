-- ===== src/Attendance/Queries/Save.antt =====
-- The update of one row by its primary key.
use attendance.Prelude.{
  ℕ, ◌≡◌, refl, Bool, true, false, some, List, [], ◌∷◌, if◌then◌else◌, any, arith, Bool-cases, inl,
  inr, sym, first_where,
}
use mathlib.Core.Path.{subst}
use mathlib.Core.Option
use mathlib.Core.Option.{some-injective}
use attendance.Attendance.Tables.{AttendanceRecord}
use attendance.Attendance.Queries.{has_key, save}
use attendance.Attendance.Queries.Keyed.{IsKeyed, has_id}

-- Every row with the id of `r` has its day.
abbrev pub Agrees : AttendanceRecord → List AttendanceRecord → Type 0
Agrees r [] = Unit
Agrees r (x ∷ xs) =
    (has_id r.id x ≡ true → (x.employee_id ≡ r.employee_id) × (x.work_date ≡ r.work_date))
    × Agrees r xs

Agrees-of-no_id :
    (r : AttendanceRecord) (xs : List AttendanceRecord) → any (has_id r.id) xs ≡ false → Agrees r xs
Agrees-of-no_id r [] h = tt
Agrees-of-no_id r (x ∷ xs) h = ((λ e. ground arith), Agrees-of-no_id r xs (ground arith))

first_where-not :
    (q p : AttendanceRecord → Bool) (xs : List AttendanceRecord) {r : AttendanceRecord}
    → any q xs ≡ false
    → first_where p xs ≡ some r
    → q r ≡ false
first_where-not q p [] h e = cc
first_where-not q p (x ∷ xs) h e = elim (Bool-cases (p x)) [
  | inl here ↦ subst (λ y. q y ≡ false) (some-injective _ _ (rw here at (e))) (ground arith)
  | inr later ↦ first_where-not q p xs (ground arith) (rw later at (e))
]

-- The row that a select found agrees with the table.
pub Agrees-first_where :
    (p : AttendanceRecord → Bool) (xs : List AttendanceRecord) {r : AttendanceRecord}
    → IsKeyed xs
    → first_where p xs ≡ some r
    → Agrees r xs
Agrees-first_where p [] h e = cc
Agrees-first_where p (x ∷ xs) {r} h e = elim (Bool-cases (p x)) [
  | inl here ↦
      subst (λ y. Agrees y (x ∷ xs)) (some-injective _ _ (rw here at (e)))
        ((λ _. (refl, refl)), Agrees-of-no_id x xs h.1)
  | inr later ↦
      let e' = rw later at (e) in
      let apart = first_where-not (has_id x.id) p xs h.1 e' in
      ((λ same. ground arith), Agrees-first_where p xs h.2 e')
]

module _ (r x : AttendanceRecord) where
  abbrev updated : AttendanceRecord
  updated = if has_id r.id x then r else x

  has_id-updated : (n : ℕ) → has_id n updated ≡ has_id n x
  has_id-updated n = elim (Bool-cases (has_id r.id x)) [
    | inl same ↦ rw same (ground arith)
    | inr other ↦ rw other refl
  ]

  module _
      (h : has_id r.id x ≡ true
        → (x.employee_id ≡ r.employee_id) × (x.work_date ≡ r.work_date)) where
    employee-updated : updated.employee_id ≡ x.employee_id
    employee-updated = elim (Bool-cases (has_id r.id x)) [
      | inl same ↦ rw same (sym (h same).0)
      | inr other ↦ rw other refl
    ]

    date-updated : updated.work_date ≡ x.work_date
    date-updated = elim (Bool-cases (has_id r.id x)) [
      | inl same ↦ rw same (sym (h same).1)
      | inr other ↦ rw other refl
    ]

any-has_key-save :
    (e d : ℕ) (r : AttendanceRecord) (xs : List AttendanceRecord)
    → Agrees r xs
    → any (has_key e d) (save r xs) ≡ any (has_key e d) xs
any-has_key-save e d r [] h = refl
any-has_key-save e d r (x ∷ xs) h =
    rw (employee-updated r x h.0, date-updated r x h.0, any-has_key-save e d r xs h.1)

any-has_id-save :
    (n : ℕ) (r : AttendanceRecord) (xs : List AttendanceRecord)
    → any (has_id n) (save r xs) ≡ any (has_id n) xs
any-has_id-save n r [] = refl
any-has_id-save n r (x ∷ xs) = rw (has_id-updated r x n, any-has_id-save n r xs)

id-updated : (r x : AttendanceRecord) → (updated r x).id ≡ x.id
id-updated r x = elim (Bool-cases (has_id r.id x)) [
  | inl same ↦ rw same (ground arith)
  | inr other ↦ rw other refl
]

-- An update keeps the ids and the days unique.
pub IsKeyed-save :
    (r : AttendanceRecord) (xs : List AttendanceRecord)
    → Agrees r xs
    → IsKeyed xs
    → IsKeyed (save r xs)
IsKeyed-save r [] a h = tt
IsKeyed-save r (x ∷ xs) a h = (
  rw
      (
        employee-updated r x a.0,
        date-updated r x a.0,
        any-has_key-save x.employee_id x.work_date r xs a.1,
      )
      h.0,
  rw (id-updated r x, any-has_id-save x.id r xs) h.1,
  IsKeyed-save r xs a.1 h.2,
)

-- What a select of a day finds after an update.
pub first_where-save :
    (e d : ℕ) (r : AttendanceRecord) (xs : List AttendanceRecord)
    → Agrees r xs
    → first_where (has_key e d) (save r xs)
      ≡ Option.map (λ x. if has_id r.id x then r else x) (first_where (has_key e d) xs)
first_where-save e d r [] a = refl
first_where-save e d r (x ∷ xs) a =
    rw (employee-updated r x a.0, date-updated r x a.0, first_where-save e d r xs a.1)
      (elim (Bool-cases (has_key e d x)) [ inl here ↦ rw here refl | inr later ↦ rw later refl ])
