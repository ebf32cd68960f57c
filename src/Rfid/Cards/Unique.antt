-- ===== src/Rfid/Cards/Unique.antt =====
-- The uid of a card names one card.
use attendance.Prelude.{
  if◌then◌else◌, ℕ, Bool, true, false, Option, some, List, [], ◌∷◌, ◌++◌, ◌≡◌, refl, sym, ap, ◌∙◌,
  any, select, first_where, update_where, is_some, arith, Bool-cases, inl, inr, any-append,
  any-update, select-nil,
}
use attendance.Prelude.Errors.{
  raise_if, ok, err, conflict, ◌>>=◌, ◌>>◌, >>=-eq-ok, ok-injective, raise_if-eq-ok,
  scalar_one_or_none,
}
use mathlib.Core.Path.{subst}
use attendance.Prelude.Pytext.{Text, same_text, same_text_refl, same_text-eq, same_text_comm}
use attendance.Tenant.{Organization, Scope}
use attendance.Attendance.Tables.{Employee}
use attendance.Shifts.{require_org_employee}
use attendance.Rfid.Tables.{RfidCard}
use attendance.Rfid.Cards.{has_uid, clean_uid, new_card, add_employee_card}

-- The constraint UNIQUE(uid) of `rfid_cards`.
abbrev pub IsOneUid : List RfidCard → Type 0
IsOneUid [] = Unit
IsOneUid (c ∷ cs) = (any (has_uid c.uid) cs ≡ false) × IsOneUid cs

pub select_uid :
    (uid : Text) (cards : List RfidCard)
    → IsOneUid cards
    → scalar_one_or_none (select (has_uid uid) cards) ≡ ok (first_where (has_uid uid) cards)
select_uid uid [] h = refl
select_uid uid (c ∷ cs) h = elim (Bool-cases (has_uid uid c)) [
  | inl here ↦ rw here (
      ap (λ l. scalar_one_or_none (c ∷ l))
        (select-nil (has_uid uid) cs
          (subst (λ t. any (has_uid t) cs ≡ false) (same_text-eq c.uid uid here) h.0)))
  | inr later ↦ rw later (select_uid uid cs h.1)
]

pub update-IsOneUid :
    (q : RfidCard → Bool) (f : RfidCard → RfidCard) (cards : List RfidCard)
    → ((c : RfidCard) → (f c).uid ≡ c.uid)
    → IsOneUid cards
    → IsOneUid (update_where q f cards)
update-IsOneUid q f [] same h = tt
update-IsOneUid q f (c ∷ cs) same h = (head (q c), update-IsOneUid q f cs same h.1)
  where
    kept : any (has_uid c.uid) (update_where q f cs) ≡ false
    kept = any-update (has_uid c.uid) q f cs (λ x. ap (λ t. same_text t c.uid) (same x)) ∙ h.0

    head : (b : Bool) → any (has_uid (if b then f c else c).uid) (update_where q f cs) ≡ false
    head true = ap (λ t. any (has_uid t) (update_where q f cs)) (same c) ∙ kept
    head false = kept

snoc-IsOneUid :
    (cards : List RfidCard) (c : RfidCard)
    → any (has_uid c.uid) cards ≡ false
    → IsOneUid cards
    → IsOneUid (cards ++ c ∷ [])
snoc-IsOneUid [] c new h = (refl, tt)
snoc-IsOneUid (x ∷ xs) c new h = (
  ground (arith, any-append (has_uid x.uid) xs (c ∷ []), same_text_comm c.uid x.uid),
  snoc-IsOneUid xs c (ground arith) h.1,
)

first_where-some :
    (p : RfidCard → Bool) (xs : List RfidCard)
    → is_some (first_where p xs) ≡ false
    → any p xs ≡ false
first_where-some p [] h = refl
first_where-some p (x ∷ xs) h = ground (arith, first_where-some p xs)

found_last :
    (p : RfidCard → Bool) (xs : List RfidCard) (c : RfidCard)
    → any p xs ≡ false
    → p c ≡ true
    → first_where p (xs ++ c ∷ []) ≡ some c
found_last p [] c none' own = rw own refl
found_last p (x ∷ xs) c none' own =
    let apart : p x ≡ false = ground arith in rw apart (found_last p xs c (ground arith) own)

-- Where uids name one card each, they do after a card has been added, the cleaned uid then finds
-- the new card, and another card whose uid cleans to the same raises a conflict for every
-- employee in the tenant.
pub add_employee_card_unique :
    (upper : Text → Text) (organizations : List Organization) (employees : List Employee)
    (id employee_id : ℕ) (org : Scope) (node_scope : Option Scope) (uid : Text)
    (label : Option Text) (cards cards' : List RfidCard) (card : RfidCard)
    → IsOneUid cards
    → add_employee_card upper organizations employees id employee_id org node_scope uid label cards
      ≡ ok (card, cards')
    → IsOneUid cards'
      × (first_where (has_uid (clean_uid upper uid)) cards' ≡ some card)
      × ((id' other : ℕ) (uid' : Text) (label' : Option Text)
          → clean_uid upper uid' ≡ clean_uid upper uid
          → require_org_employee organizations employees other org node_scope ≡ ok tt
          → add_employee_card upper organizations employees id' other org node_scope uid' label'
              cards'
            ≡ err conflict)
unfolding add_employee_card
add_employee_card_unique upper organizations employees id employee_id org node_scope uid label cards
      cards' card one h =
    let u = clean_uid upper uid in
    let (_, _, h1) =
      >>=-eq-ok (require_org_employee organizations employees employee_id org node_scope) _ h in
    let (existing, e, h2) = >>=-eq-ok (scalar_one_or_none (select (has_uid u) cards)) _ h1 in
    let (free, h3) = raise_if-eq-ok (is_some existing) conflict _ h2 in
    let new : any (has_uid u) cards ≡ false =
      first_where-some (has_uid u) cards
        (ap is_some (ok-injective (sym (select_uid u cards one) ∙ e)) ∙ free) in
    let made = ok-injective h3 in
    let one' : IsOneUid cards' =
      subst IsOneUid (ap (λ p. p.1) made)
        (snoc-IsOneUid cards (new_card id employee_id u label) new one) in
    let found : first_where (has_uid u) cards' ≡ some card =
      subst (λ p. first_where (has_uid u) p.1 ≡ some p.0) made
        (found_last (has_uid u) cards (new_card id employee_id u label) new (same_text_refl u)) in
    (
      one',
      found,
      λ id' other uid' label' same passes. rw passes (
          ap
            (λ t. scalar_one_or_none (select (has_uid t) cards') >>= λ existing.
              raise_if (is_some existing) conflict
              >> ok (new_card id' other t label', cards' ++ new_card id' other t label' ∷ []))
            same
          ∙ ap
              (λ r. r >>= λ existing.
                raise_if (is_some existing) conflict
                >> ok (new_card id' other u label', cards' ++ new_card id' other u label' ∷ []))
              (select_uid u cards' one' ∙ ap ok found)),
    )
