-- ===== src/Prelude/Lists.antt =====
-- Lists measured by native numbers, predicates by recursion, and `filter` by a Boolean test.
use mathlib.Core.Option.{Option, none, some, some-injective}
use mathlib.Core.Path.{ap, ◌∙◌, ◌≡◌, refl}
use mathlib.Core.Logic.{inl, inr}
use attendance.Prelude.Tests.{Bool-cases, if◌then◌else◌, ◌==◌}
use Prim.Native.Nat.{ℕ, zero, suc, ◌+◌, ◌≤◌}
use mathlib.Core.Bool.{Bool, true, false, ◌||◌}
use mathlib.Core.List.{List, [], ◌∷◌, ◌++◌}
use native.Mathlib.Omega.{arith}

module _ {ℓ} {A : Type ℓ} where
  abbrev pub length : List A → ℕ
  length [] = 0
  length (x ∷ xs) = suc (length xs)

  abbrev pub select : (A → Bool) → List A → List A
  select p [] = []
  select p (x ∷ xs) = let rest = select p xs in if p x then x ∷ rest else rest

  abbrev pub any : (A → Bool) → List A → Bool
  any p [] = false
  any p (x ∷ xs) = p x || any p xs

  abbrev pub All {κ} : (A → Type κ) → List A → Type κ
  All P [] = Unit
  All P (x ∷ xs) = P x × All P xs

module _ {ℓ} {A : Type ℓ} where
  pub length-append : (xs ys : List A) → length (xs ++ ys) ≡ length xs + length ys
  length-append [] ys = omega arith
  length-append (x ∷ xs) ys = omega (arith, length-append xs ys)

  pub length-select : (p : A → Bool) (xs : List A) → length (select p xs) ≤ length xs
  length-select p [] = omega arith
  length-select p (x ∷ xs) = ground (arith, length-select p xs)

  pub All-append {κ} : (P : A → Type κ) (xs ys : List A) → All P xs → All P ys → All P (xs ++ ys)
  All-append P [] ys h k = k
  All-append P (x ∷ xs) ys h k = (h.0, All-append P xs ys h.1 k)

  All-if {κ} :
      (P : A → Type κ) (b : Bool) (x : A) (xs : List A)
      → (b ≡ true → P x)
      → All P xs
      → All P (if b then x ∷ xs else xs)
  All-if P true x xs h k = (h refl, k)
  All-if P false x xs h k = k

  -- What holds of all entries holds of the selected ones, which also pass the test.
  pub All-select {κ μ} :
      (P : A → Type κ) (Q : A → Type μ) (p : A → Bool) (xs : List A)
      → ((x : A) → p x ≡ true → P x → Q x)
      → All P xs
      → All Q (select p xs)
  All-select P Q p [] f h = tt
  All-select P Q p (x ∷ xs) f h =
      All-if Q (p x) x (select p xs) (λ e. f x e h.0) (All-select P Q p xs f h.1)

  pub All-map {κ μ} :
      (P : A → Type κ) (Q : A → Type μ) (xs : List A) → ((x : A) → P x → Q x) → All P xs → All Q xs
  All-map P Q [] f h = tt
  All-map P Q (x ∷ xs) f h = (f x h.0, All-map P Q xs f h.1)

  pub select-append :
      (p : A → Bool) (xs ys : List A) → select p (xs ++ ys) ≡ select p xs ++ select p ys
  select-append p [] ys = refl
  select-append p (x ∷ xs) ys = ground (arith, select-append p xs ys)

module _ {ℓ κ} {A : Type ℓ} {B : Type κ} where
  abbrev pub flat_map : (A → List B) → List A → List B
  flat_map f [] = []
  flat_map f (x ∷ xs) = f x ++ flat_map f xs

  pub All-flat_map {μ} :
      (P : B → Type μ) (f : A → List B) (xs : List A)
      → All (λ x. All P (f x)) xs
      → All P (flat_map f xs)
  All-flat_map P f [] h = tt
  All-flat_map P f (x ∷ xs) h = All-append P (f x) (flat_map f xs) h.0 (All-flat_map P f xs h.1)

abbrev pub member : ℕ → List ℕ → Bool
member a xs = any (λ x. x == a) xs

-- A select by a primary key or with `LIMIT 1`: the first row, if any.
abbrev pub first_where {ℓ} : {A : Type ℓ} → (A → Bool) → List A → Option A
first_where p [] = none
first_where p (x ∷ xs) = if p x then some x else first_where p xs

-- An update of the rows that a condition selects.
abbrev pub update_where {ℓ} : {A : Type ℓ} → (A → Bool) → (A → A) → List A → List A
update_where p f [] = []
update_where p f (x ∷ xs) = (if p x then f x else x) ∷ update_where p f xs

abbrev pub take {ℓ} : {A : Type ℓ} → ℕ → List A → List A
take zero xs = []
take (suc n) [] = []
take (suc n) (x ∷ xs) = x ∷ take n xs

abbrev pub is_empty {ℓ} : {A : Type ℓ} → List A → Bool
is_empty [] = true
is_empty (x ∷ xs) = false

-- `list(dict.fromkeys(ids))`: the first sight of each.
abbrev pub distinct_onto : List ℕ → List ℕ → List ℕ
distinct_onto seen [] = []
distinct_onto seen (x ∷ xs) =
    let rest = distinct_onto seen xs in
    let later = distinct_onto (x ∷ seen) xs in if member x seen then rest else x ∷ later

abbrev pub distinct : List ℕ → List ℕ
distinct xs = distinct_onto [] xs

-- Rows under updates, inserts and selects.
module _ {ℓ} {A : Type ℓ} where
  pub All-update {κ} :
      (P : A → Type κ) (p : A → Bool) (f : A → A) (xs : List A)
      → ((x : A) → P x → P (f x))
      → All P xs
      → All P (update_where p f xs)
  All-update P p f [] keep h = tt
  All-update P p f (x ∷ xs) keep h = (pick (p x), All-update P p f xs keep h.1)
    where
      pick : (b : Bool) → P (if b then f x else x)
      pick true = keep x h.0
      pick false = h.0

  pub any-update :
      (q p : A → Bool) (f : A → A) (xs : List A)
      → ((x : A) → q (f x) ≡ q x)
      → any q (update_where p f xs) ≡ any q xs
  any-update q p f [] same = refl
  any-update q p f (x ∷ xs) same = λ i. pick (p x) i || any-update q p f xs same i
    where
      pick : (b : Bool) → q (if b then f x else x) ≡ q x
      pick true = same x
      pick false = refl

  pub any-append : (q : A → Bool) (xs ys : List A) → any q (xs ++ ys) ≡ any q xs || any q ys
  any-append q [] ys = refl
  any-append q (x ∷ xs) ys = ground (arith, any-append q xs ys)

  pub any-select : (q p : A → Bool) (xs : List A) → any q xs ≡ false → any q (select p xs) ≡ false
  any-select q p [] h = refl
  any-select q p (x ∷ xs) h = ground (arith, any-select q p xs)

  pub any_same : {q r : A → Bool} → ((x : A) → q x ≡ r x) → (xs : List A) → any q xs ≡ any r xs
  any_same same [] = refl
  any_same same (x ∷ xs) = λ i. same x i || any_same same xs i

  pub select-nil : (p : A → Bool) (xs : List A) → any p xs ≡ false → select p xs ≡ []
  select-nil p [] h = refl
  select-nil p (x ∷ xs) h = ground (arith, select-nil p xs)

  -- The first row that a condition selects, after an update of it among others.
  pub first_where-update :
      (p q : A → Bool) (f : A → A) (xs : List A) {x : A}
      → ((y : A) → p (f y) ≡ p y)
      → q x ≡ true
      → first_where p xs ≡ some x
      → first_where p (update_where q f xs) ≡ some (f x)
  first_where-update p q f [] keep h e = cc
  first_where-update p q f (y ∷ ys) {x} keep h e = elim (Bool-cases (p y)) [
    | inl here ↦
        let same : y ≡ x = some-injective _ _ (rw here at (e)) in
        let chosen : q y ≡ true = ap q same ∙ h in
        rw chosen (rw (keep y ∙ here) (ap (λ z. some (f z)) same))
    | inr later ↦ rw (kept (q y) ∙ later) (first_where-update p q f ys keep h (rw later at (e)))
  ]
    where
      kept : (b : Bool) → p (if b then f y else y) ≡ p y
      kept true = keep y
      kept false = refl

abbrev pub drop {ℓ} : {A : Type ℓ} → ℕ → List A → List A
drop zero xs = xs
drop (suc n) [] = []
drop (suc n) (x ∷ xs) = drop n xs
