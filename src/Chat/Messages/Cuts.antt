-- ===== src/Chat/Messages/Cuts.antt =====
-- A history in the order of its ids, its newest messages, and the ones before them.
use mathlib.Core.Path.{subst}
use attendance.Chat.Tables.{Message}
use attendance.Chat.Messages.{insert_desc, order_desc, is_before, page_of}
use attendance.Prelude.{
  drop, ℕ, zero, suc, Bool, true, false, Option, some, List, [], ◌∷◌, ◌++◌, ◌≤◌, ◌<◌, ◌≡◌, refl,
  not, ltb, select, length, take, is_empty, All, All-append, arith, Bool-cases, inl, inr, ap, ◌∙◌,
  sym,
}
use mathlib.Core.List.{reverse, reverse-cons, reverse-append, reverse-reverse}

-- Messages in the order of their ids, as the table grows.
abbrev pub IsAscending : List Message → Type 0
IsAscending [] = Unit
IsAscending (x ∷ xs) = All (λ m. x.id < m.id) xs × IsAscending xs

All-reverse : (P : Message → Type 0) (xs : List Message) → All P xs → All P (reverse xs)
All-reverse P [] h = h
All-reverse P (x ∷ xs) h =
    subst (All P) (sym (reverse-cons x xs))
      (All-append P (reverse xs) (x ∷ []) (All-reverse P xs h.1) (h.0, tt))

insert_desc_last :
    (x : Message) (ys : List Message) → All (λ m. x.id < m.id) ys → insert_desc x ys ≡ ys ++ x ∷ []
insert_desc_last x [] h = refl
insert_desc_last x (y ∷ ys) h = ground (arith, insert_desc_last x ys h.1)

order_desc-reverse : (xs : List Message) → IsAscending xs → order_desc xs ≡ reverse xs
order_desc-reverse [] h = refl
order_desc-reverse (x ∷ xs) h =
    ap (insert_desc x) (order_desc-reverse xs h.1)
    ∙ insert_desc_last x (reverse xs) (All-reverse (λ m. x.id < m.id) xs h.0)
    ∙ sym (reverse-cons x xs)

take-append-drop : (n : ℕ) (xs : List Message) → take n xs ++ drop n xs ≡ xs
take-append-drop zero xs = refl
take-append-drop (suc n) [] = refl
take-append-drop (suc n) (x ∷ xs) = ap (λ l. x ∷ l) (take-append-drop n xs)

take-take-suc : (n : ℕ) (xs : List Message) → take n (take (suc n) xs) ≡ take n xs
take-take-suc zero xs = refl
take-take-suc (suc n) [] = refl
take-take-suc (suc n) (x ∷ xs) = ap (λ l. x ∷ l) (take-take-suc n xs)

more_iff :
    (n : ℕ) (xs : List Message) → ltb n (length (take (suc n) xs)) ≡ not (is_empty (drop n xs))
more_iff zero [] = refl
more_iff zero (x ∷ xs) = refl
more_iff (suc n) [] = ground arith
more_iff (suc n) (x ∷ xs) = ground (arith, more_iff n xs)

-- The messages of an earlier page, the page, and whether there are earlier ones.
abbrev pub older : ℕ → List Message → List Message
older n xs = reverse (drop n (reverse xs))

abbrev pub newest : ℕ → List Message → List Message
newest n xs = reverse (take n (reverse xs))

pub older-append-newest : (n : ℕ) (xs : List Message) → older n xs ++ newest n xs ≡ xs
older-append-newest n xs =
    sym (reverse-append (take n (reverse xs)) (drop n (reverse xs)))
    ∙ ap reverse (take-append-drop n (reverse xs))
    ∙ reverse-reverse xs

is_empty-snoc : (xs : List Message) (x : Message) → is_empty (xs ++ x ∷ []) ≡ false
is_empty-snoc [] x = refl
is_empty-snoc (y ∷ ys) x = refl

pub is_empty-reverse : (xs : List Message) → is_empty (reverse xs) ≡ is_empty xs
is_empty-reverse [] = refl
is_empty-reverse (x ∷ xs) = ap is_empty (reverse-cons x xs) ∙ is_empty-snoc (reverse xs) x

pub page_of_lem :
    (n : ℕ) (before : Option ℕ) (history : List Message)
    → IsAscending (select (is_before before) history)
    → page_of n before history ≡ (
      newest n (select (is_before before) history),
      not (is_empty (older n (select (is_before before) history))),
    )
page_of_lem n before history h =
    let xs = select (is_before before) history in
    ap (λ r. (reverse (take n (take (suc n) r)), ltb n (length (take (suc n) r))))
      (order_desc-reverse xs h)
    ∙ (λ i. (
      reverse (take-take-suc n (reverse xs) i),
      (more_iff n (reverse xs) ∙ ap not (sym (is_empty-reverse (drop n (reverse xs))))) i,
    ))

select-All :
    (p : Message → Bool) (xs : List Message) (P : Message → Type 0) → All P xs → All P (select p xs)
select-All p [] P h = tt
select-All p (x ∷ xs) P h = elim (Bool-cases (p x)) [
  | inl yes' ↦ rw yes' (h.0, select-All p xs P h.1)
  | inr no' ↦ rw no' (select-All p xs P h.1)
]

pub select-IsAscending :
    (p : Message → Bool) (xs : List Message) → IsAscending xs → IsAscending (select p xs)
select-IsAscending p [] h = tt
select-IsAscending p (x ∷ xs) h = elim (Bool-cases (p x)) [
  | inl yes' ↦ rw yes' (select-All p xs (λ m. x.id < m.id) h.0, select-IsAscending p xs h.1)
  | inr no' ↦ rw no' (select-IsAscending p xs h.1)
]

-- Cutting before a message of a cut: the first cut is implied.
pub select-select_before :
    (before : Option ℕ) (n : ℕ) (history : List Message)
    → ((m : Message) → (m.id < n) → is_before before m ≡ true)
    → select (is_before (some n)) history
      ≡ select (is_before (some n)) (select (is_before before) history)
select-select_before before n [] h = refl
select-select_before before n (m ∷ ms) h = elim (Bool-cases (is_before before m)) [
  | inl inside ↦ rw inside (ground (arith, select-select_before before n ms h))
  | inr outside ↦ rw outside (ground (arith, select-select_before before n ms h, h m))
]

none_before :
    (x : Message) (ys : List Message) (n : ℕ)
    → n ≤ x.id
    → All (λ m. x.id < m.id) ys
    → select (is_before (some n)) ys ≡ []
none_before x [] n le h = refl
none_before x (y ∷ ys) n le h = ground (arith, none_before x ys n le h.1)

-- Before the first message of the second part stands the first part.
pub select-parts :
    (xs : List Message) (y : Message) (ys : List Message)
    → IsAscending (xs ++ y ∷ ys)
    → select (is_before (some y.id)) (xs ++ y ∷ ys) ≡ xs
select-parts [] y ys h = ground (arith, none_before y ys y.id)
select-parts (x ∷ xs) y ys h = ground (arith, first_below x xs y ys h.0, select-parts xs y ys h.1)
  where
    first_below :
        (x : Message) (xs : List Message) (y : Message) (ys : List Message)
        → All (λ m. x.id < m.id) (xs ++ y ∷ ys)
        → x.id < y.id
    first_below x [] y ys h = h.0
    first_below x (z ∷ zs) y ys h = first_below x zs y ys h.1
