-- ===== src/Chat/Members/Unique.antt =====
-- One direct conversation for two users, whoever asks first and also in a race.
use attendance.Prelude.{
  ℕ, Bool, true, false, Option, none, some, List, [], ◌∷◌, ◌++◌, ◌≡◌, refl, ap, ◌∙◌, ◌==◌,
  first_where, inl, inr, Bool-cases, arith, not, ◌||◌, if◌then◌else◌,
}
use mathlib.Core.Path.{subst}
use attendance.Prelude.Errors.{
  Result, ok, err, ◌>>◌, raise_if, validation, >>=-eq-ok, raise_if-eq-ok, ok-injective,
}
use attendance.Chat.Tables.{Conversation, Chat, Company, direct}
use attendance.Chat.Access.{is_company_user, require_company_users}
use attendance.Chat.Members.{
  direct_key, same_key, is_direct_of, find_direct, new_conversation, insert_direct, reuse_or_insert,
  get_or_create_direct,
}

direct_key_comm : (a b : ℕ) → (a == b) ≡ false → direct_key b a ≡ direct_key a b
direct_key_comm a b apart = ground arith

found_last :
    (p : Conversation → Bool) (cs : List Conversation) (c : Conversation)
    → first_where p cs ≡ none
    → p c ≡ true
    → first_where p (cs ++ c ∷ []) ≡ some c
found_last p [] c h e = rw e refl
found_last p (x ∷ xs) c h e = elim (Bool-cases (p x)) [
  | inl here ↦ cc (rw here at (h))
  | inr later ↦ rw later (found_last p xs c (rw later at (h)) e)
]

same_key_refl : (k : ℕ × ℕ) → same_key (some k) k ≡ true
same_key_refl (a, b) = ground arith

is_direct_of-new :
    (org_id n a b : ℕ)
    → is_direct_of org_id
        (direct_key a b)
        (record (new_conversation n org_id direct a) { direct_key = some (direct_key a b) })
      ≡ true
is_direct_of-new org_id n a b = ground (arith, same_key_refl (direct_key a b))

-- What the call has left finds the conversation that it has answered.
reuse_or_insert-found :
    (org_id a b : ℕ) (chat committed : Chat) (o : Option Conversation) {conv : Conversation}
    {chat' : Chat}
    → find_direct org_id (direct_key a b) chat ≡ o
    → reuse_or_insert org_id a b chat committed o ≡ ok (conv, chat')
    → find_direct org_id (direct_key a b) chat' ≡ some conv
reuse_or_insert-found org_id a b chat committed (some c) e h =
    subst (λ p. find_direct org_id (direct_key a b) p.1 ≡ some p.0) (ok-injective h) e
reuse_or_insert-found org_id a b chat committed none e h =
    inserted (find_direct org_id (direct_key a b) committed) refl h
  where
    inserted :
        (w : Option Conversation) {conv : Conversation} {chat' : Chat}
        → find_direct org_id (direct_key a b) committed ≡ w
        → insert_direct org_id a b committed w ≡ ok (conv, chat')
        → find_direct org_id (direct_key a b) chat' ≡ some conv
    inserted (some c) f k =
        subst (λ p. find_direct org_id (direct_key a b) p.1 ≡ some p.0) (ok-injective k) f
    inserted none f k =
        subst (λ p. find_direct org_id (direct_key a b) p.1 ≡ some p.0) (ok-injective k)
          (found_last (is_direct_of org_id (direct_key a b)) committed.conversations _ f
            (is_direct_of-new org_id committed.next_conversation a b))

-- When a user has opened a direct conversation with another, found, created or won by a rival in
-- a race, and the other opens one with the first, no second conversation comes to be: the other
-- gets the same one, and nothing is inserted, if the first is a user of the company, and is
-- refused for validation otherwise, as when the first is a super administrator without a grant.
pub get_or_create_direct-shared :
    (company : Company) (org_id a b : ℕ) (committed chat : Chat) (conv : Conversation)
    (chat' : Chat)
    → get_or_create_direct company org_id a b committed chat ≡ ok (conv, chat')
    → (later : Chat)
    → get_or_create_direct company org_id b a later chat'
      ≡ (if is_company_user company org_id a then ok (conv, chat') else err validation)
unfolding get_or_create_direct require_company_users
get_or_create_direct-shared company org_id a b committed chat conv chat' h later =
    let (apart, h1) = raise_if-eq-ok (b == a) validation _ h in
    let (_, _, h2) = >>=-eq-ok (require_company_users company org_id (b ∷ [])) _ h1 in
    let found =
      reuse_or_insert-found org_id a b chat committed (find_direct org_id (direct_key a b) chat)
        refl h2 in
    let again : find_direct org_id (direct_key b a) chat' ≡ some conv =
      ap (λ k. find_direct org_id k chat') (direct_key_comm a b (ground (arith, apart))) ∙ found in
    let apart' : (a == b) ≡ false = ground (arith, apart) in
    rw apart' (
      ap
        (λ o.
          raise_if (not (is_company_user company org_id a) || false) validation
          >> reuse_or_insert org_id b a chat' later o)
        again
      ∙ admitted (is_company_user company org_id a) (ok (conv, chat')))
  where
    admitted :
        (b : Bool) (m : Result (Conversation × Chat))
        → (raise_if (not b || false) validation >> m) ≡ (if b then m else err validation)
    admitted true m = refl
    admitted false m = refl
