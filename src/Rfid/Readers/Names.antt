-- ===== src/Rfid/Readers/Names.antt =====
-- The name of a reader as a device: the loop over the suffixes finds one that is free.
use attendance.Prelude.{
  map, ℕ, zero, suc, Bool, true, false, not, some, List, [], ◌∷◌, ◌++◌, ◌+◌, ◌*◌, ◌-◌, ◌/◌, ◌<◌,
  ◌≡◌, ◌≢◌, refl, sym, ap, ◌∙◌, ◌==◌, any, select, length, Bool-cases, inl, inr, arith,
  length-append, length-select, ◌||◌,
}
use mathlib.Core.List.{reverse, reverse-reverse}
use attendance.Prelude.Pytext.{Text, same_text, same_text-eq}
use attendance.Rfid.Tables.{RfidReader}
use attendance.Rfid.Readers.{
  dash, digits, candidate, is_taken, search_free, base_name, generate_device_id,
}

-- The number that digits stand for, the last one first.
value : Text → ℕ
value [] = 0
value (c ∷ cs) = (c - 48) + 10 * value cs

value-digits : (fuel n : ℕ) → n < fuel → value (digits fuel n) ≡ n
unfolding value
value-digits zero n h = omega arith
value-digits (suc fuel) n h = elim (Bool-cases (n / 10 == 0)) [
  | inl small ↦ rw small (ground arith)
  | inr large ↦ let ih = value-digits fuel (n / 10) (ground arith) in rw large (omega (arith, ih))
]

tail : Text → Text
tail [] = []
tail (c ∷ cs) = cs

append-cancel : (xs ys zs : Text) → xs ++ ys ≡ xs ++ zs → ys ≡ zs
unfolding tail
append-cancel [] ys zs h = h
append-cancel (x ∷ xs) ys zs h = append-cancel xs ys zs (ap tail h)

longer : (base more : Text) (c : ℕ) → base ≢ base ++ c ∷ more
longer base more c h = omega (arith, length-append base (c ∷ more), ap length h)

candidate-injective : (base : Text) (i j : ℕ) → candidate base i ≡ candidate base j → i ≡ j
unfolding tail
candidate-injective base zero zero h = refl
candidate-injective base zero (suc j) h =
    absurd (longer base (reverse (digits (suc (suc j)) (suc j))) dash h)
candidate-injective base (suc i) zero h =
    absurd (longer base (reverse (digits (suc (suc i)) (suc i))) dash (sym h))
candidate-injective base (suc i) (suc j) h =
    let mirrored = ap tail (
      append-cancel base (dash ∷ reverse (digits (suc (suc i)) (suc i)))
        (dash ∷ reverse (digits (suc (suc j)) (suc j))) h) in
    let same =
      sym (reverse-reverse (digits (suc (suc i)) (suc i)))
      ∙ ap reverse mirrored
      ∙ reverse-reverse (digits (suc (suc j)) (suc j)) in
    sym (value-digits (suc (suc i)) (suc i) (omega arith))
    ∙ ap value same
    ∙ value-digits (suc (suc j)) (suc j) (omega arith)

-- Names among which a text stands.
has_name : Text → List Text → Bool
has_name t names = any (λ d. same_text d t) names

without : Text → List Text → List Text
without t names = select (λ d. not (same_text d t)) names

length-without :
    (t : Text) (names : List Text)
    → has_name t names ≡ true
    → length (without t names) < length names
unfolding has_name without
length-without t [] h = cc
length-without t (d ∷ ds) h = elim (Bool-cases (same_text d t)) [
  | inl here ↦ rw here (omega (arith, length-select (λ x. not (same_text x t)) ds))
  | inr later ↦ rw later (omega (arith, length-without t ds (rw later at h)))
]

has_name-without :
    (s t : Text) (names : List Text) → s ≢ t → has_name s (without t names) ≡ has_name s names
unfolding has_name without
has_name-without s t [] apart = refl
has_name-without s t (d ∷ ds) apart = elim (Bool-cases (same_text d t)) [
  | inl here ↦
      rw here (has_name-without s t ds apart ∙ sym (ap (λ b. b || has_name s ds) (other d here)))
  | inr later ↦ rw later (ap (λ b. same_text d s || b) (has_name-without s t ds apart))
]
  where
    other : (d : Text) → same_text d t ≡ true → same_text d s ≡ false
    other d here = elim (Bool-cases (same_text d s)) [
      | inl both ↦ absurd (apart (sym (same_text-eq d s both) ∙ same_text-eq d t here))
      | inr apart' ↦ apart'
    ]

-- Fewer names than rounds: some round's candidate is free.
free_round :
    (base : Text) (fuel n : ℕ) (names : List Text)
    → length names < fuel
    → (k : ℕ) × (k < fuel) × (has_name (candidate base (n + k)) names ≡ false)
free_round base zero n names h = ground arith
free_round base (suc fuel) n names h = elim (Bool-cases (has_name (candidate base n) names)) [
  | inl taken ↦
      let (k, lt, free) =
        free_round base fuel (suc n) (without (candidate base n) names)
          (omega (arith, length-without (candidate base n) names taken)) in
      (
        suc k,
        omega arith,
        ap (λ m. has_name (candidate base m) names) (omega arith)
            ∙ sym (
                has_name-without (candidate base (suc n + k)) (candidate base n) names
                  (λ same. omega (arith, candidate-injective base (suc n + k) n same)))
            ∙ free,
      )
  | inr free ↦ (0, omega arith, ap (λ m. has_name (candidate base m) names) (omega arith) ∙ free)
]

search_free-found :
    (base : Text) (readers : List RfidReader) (fuel n k : ℕ)
    → k < fuel
    → is_taken (candidate base (n + k)) readers ≡ false
    → (d : Text) × (search_free fuel base n readers ≡ some d) × (is_taken d readers ≡ false)
search_free-found base readers zero n k lt free = ground arith
search_free-found base readers (suc fuel) n zero lt free =
    let here : is_taken (candidate base n) readers ≡ false =
      ap (λ m. is_taken (candidate base m) readers) (omega arith) ∙ free in
    rw here (candidate base n, refl, here)
search_free-found base readers (suc fuel) n (suc k) lt free =
    elim (Bool-cases (is_taken (candidate base n) readers)) [
      | inl taken ↦ rw taken (
          search_free-found base readers fuel (suc n) k (omega arith)
            (ap (λ m. is_taken (candidate base m) readers) (omega arith) ∙ free))
      | inr here ↦ rw here (candidate base n, refl, here)
    ]

device_ids : List RfidReader → List Text
device_ids readers = map (λ r. r.device_id) readers

is_taken-has_name :
    (t : Text) (readers : List RfidReader) → is_taken t readers ≡ has_name t (device_ids readers)
unfolding has_name device_ids
is_taken-has_name t [] = refl
is_taken-has_name t (r ∷ rs) = ap (λ b. same_text r.device_id t || b) (is_taken-has_name t rs)

length-device_ids : (readers : List RfidReader) → length (device_ids readers) ≡ length readers
unfolding device_ids
length-device_ids [] = refl
length-device_ids (r ∷ rs) = ap suc (length-device_ids rs)

-- Whatever the name and the readers that there are, the loop over the suffixes ends after at most
-- one round more than there are readers, with a device id that no reader has.
pub generate_device_id-free :
    (upper : Text → Text) (name : Text) (readers : List RfidReader)
    → (d : Text) × (generate_device_id upper name readers ≡ some d) × (is_taken d readers ≡ false)
unfolding generate_device_id
generate_device_id-free upper name readers =
    let base = base_name upper name in
    let (k, lt, free) =
      free_round base (suc (length readers)) 0 (device_ids readers)
        (omega (arith, length-device_ids readers)) in
    search_free-found base readers (suc (length readers)) 0 k lt
      (is_taken-has_name (candidate base (0 + k)) readers ∙ free)
