-- ===== src/Chat/Sound/Rows.antt =====
-- Rows of the chat's tables under inserts, updates and deletes.
use attendance.Prelude.{
  ℕ, Bool, true, false, List, [], ◌∷◌, ◌++◌, ◌<◌, ◌≡◌, refl, sym, ◌∙◌, ◌==◌, ◌&&◌, any, All,
  All-append, select, update_where, arith, map, member, if◌then◌else◌, Bool-cases, inl, inr,
  distinct_onto, distinct, any-update, any-select, any-append, All-update,
}
use mathlib.Core.Path.{subst}
use mathlib.Core.List.{append_assoc, append-nil}
use attendance.Chat.Tables.{ConversationMember, Message, Role}
use attendance.Chat.Access.{is_membership}
use attendance.Chat.Members.{new_member}
use attendance.Chat.Messages.Cuts.{IsAscending}

-- Messages in ascending order, under an edit and an insert.
pub update-IsAscending :
    (p : Message → Bool) (f : Message → Message) (xs : List Message)
    → ((x : Message) → (f x).id ≡ x.id)
    → IsAscending xs
    → IsAscending (update_where p f xs)
update-IsAscending p f [] same h = tt
update-IsAscending p f (x ∷ xs) same h = (
  subst (λ n. All (λ m. n < m.id) (update_where p f xs)) (sym (pick (p x)))
      (All-update (λ m. x.id < m.id) p f xs (λ m lt. subst (λ n. x.id < n) (sym (same m)) lt) h.0),
  update-IsAscending p f xs same h.1,
)
  where
    pick : (b : Bool) → (if b then f x else x).id ≡ x.id
    pick true = same x
    pick false = refl

pub snoc-IsAscending :
    (xs : List Message) (m : Message)
    → IsAscending xs
    → All (λ x. x.id < m.id) xs
    → IsAscending (xs ++ m ∷ [])
snoc-IsAscending [] m h below = (tt, tt)
snoc-IsAscending (x ∷ xs) m h below =
    (All-append (λ y. x.id < y.id) xs (m ∷ []) h.0 (below.0, tt), snoc-IsAscending xs m h.1 below.1)

-- No user twice in a conversation.
abbrev pub IsOnce : List ConversationMember → Type 0
IsOnce [] = Unit
IsOnce (m ∷ ms) = (any (is_membership m.conversation_id m.user_id) ms ≡ false) × IsOnce ms

pub update-IsOnce :
    (p : ConversationMember → Bool) (f : ConversationMember → ConversationMember)
    (xs : List ConversationMember)
    → ((x : ConversationMember) → (f x).conversation_id ≡ x.conversation_id)
    → ((x : ConversationMember) → (f x).user_id ≡ x.user_id)
    → IsOnce xs
    → IsOnce (update_where p f xs)
update-IsOnce p f [] same same' h = tt
update-IsOnce p f (x ∷ xs) same same' h = (pick (p x), update-IsOnce p f xs same same' h.1)
  where
    kept : (c u : ℕ) → any (is_membership c u) (update_where p f xs) ≡ any (is_membership c u) xs
    kept c u = any-update (is_membership c u) p f xs (λ y i. same y i == c && same' y i == u)

    pick :
        (b : Bool)
        → any
            (is_membership (if b then f x else x).conversation_id (if b then f x else x).user_id)
            (update_where p f xs)
          ≡ false
    pick true =
        (λ i. any (is_membership (same x i) (same' x i)) (update_where p f xs))
        ∙ (kept x.conversation_id x.user_id ∙ h.0)
    pick false = kept x.conversation_id x.user_id ∙ h.0

pub select-IsOnce :
    (p : ConversationMember → Bool) (xs : List ConversationMember)
    → IsOnce xs
    → IsOnce (select p xs)
select-IsOnce p [] h = tt
select-IsOnce p (x ∷ xs) h = elim (Bool-cases (p x)) [
  | inl yes' ↦
      rw yes'
        (any-select (is_membership x.conversation_id x.user_id) p xs h.0, select-IsOnce p xs h.1)
  | inr no' ↦ rw no' (select-IsOnce p xs h.1)
]

snoc-IsOnce :
    (xs : List ConversationMember) (m : ConversationMember)
    → IsOnce xs
    → any (is_membership m.conversation_id m.user_id) xs ≡ false
    → IsOnce (xs ++ m ∷ [])
snoc-IsOnce [] m h new = (refl, tt)
snoc-IsOnce (x ∷ xs) m h new = (
  ground (arith, any-append (is_membership x.conversation_id x.user_id) xs (m ∷ [])),
  snoc-IsOnce xs m h.1 (ground arith),
)

-- Users who are not in a conversation, each named once.
abbrev pub IsNew : ℕ → List ℕ → List ConversationMember → Type 0
IsNew c [] ms = Unit
IsNew c (i ∷ is) ms = (any (is_membership c i) ms ≡ false) × (member i is ≡ false) × IsNew c is ms

IsNew-snoc :
    (c j : ℕ) (role : Role) (is : List ℕ) (ms : List ConversationMember)
    → IsNew c is ms
    → member j is ≡ false
    → IsNew c is (ms ++ new_member c role j ∷ [])
IsNew-snoc c j role [] ms h apart = tt
IsNew-snoc c j role (i ∷ is) ms h apart = (
  ground (arith, any-append (is_membership c i) ms (new_member c role j ∷ [])),
  h.1,
  IsNew-snoc c j role is ms h.2 (ground arith),
)

pub add-IsOnce :
    (c : ℕ) (role : Role) (is : List ℕ) (ms : List ConversationMember)
    → IsOnce ms
    → IsNew c is ms
    → IsOnce (ms ++ map (new_member c role) is)
add-IsOnce c role [] ms h new = subst IsOnce (sym (append-nil ms)) h
add-IsOnce c role (i ∷ is) ms h new =
    subst IsOnce (append_assoc ms (new_member c role i ∷ []) (map (new_member c role) is)) (
      add-IsOnce c role is (ms ++ new_member c role i ∷ [])
        (snoc-IsOnce ms (new_member c role i) h new.0) (IsNew-snoc c i role is ms new.2 new.1))

-- Ids without repetition.
abbrev pub IsNoDup : List ℕ → Type 0
IsNoDup [] = Unit
IsNoDup (i ∷ is) = (member i is ≡ false) × IsNoDup is

pub select-IsNoDup : (p : ℕ → Bool) (xs : List ℕ) → IsNoDup xs → IsNoDup (select p xs)
select-IsNoDup p [] h = tt
select-IsNoDup p (x ∷ xs) h = elim (Bool-cases (p x)) [
  | inl yes' ↦ rw yes' (any-select (λ y. y == x) p xs h.0, select-IsNoDup p xs h.1)
  | inr no' ↦ rw no' (select-IsNoDup p xs h.1)
]

member_same : (a x : ℕ) (xs : List ℕ) → (x == a) ≡ true → member a xs ≡ member x xs
member_same a x [] e = refl
member_same a x (y ∷ ys) e = ground (arith, member_same a x ys e)

not_seen :
    (a : ℕ) (seen xs : List ℕ) → member a seen ≡ true → member a (distinct_onto seen xs) ≡ false
not_seen a seen [] h = refl
not_seen a seen (x ∷ xs) h = elim (Bool-cases (member x seen)) [
  | inl old ↦ rw old (not_seen a seen xs h)
  | inr new ↦ rw new (ground (arith, member_same a x seen, not_seen a (x ∷ seen) xs))
]

distinct_onto-IsNoDup : (seen xs : List ℕ) → IsNoDup (distinct_onto seen xs)
distinct_onto-IsNoDup seen [] = tt
distinct_onto-IsNoDup seen (x ∷ xs) = elim (Bool-cases (member x seen)) [
  | inl old ↦ rw old (distinct_onto-IsNoDup seen xs)
  | inr new ↦ rw new (not_seen x (x ∷ seen) xs (ground arith), distinct_onto-IsNoDup (x ∷ seen) xs)
]

pub distinct-IsNoDup : (xs : List ℕ) → IsNoDup (distinct xs)
distinct-IsNoDup xs = distinct_onto-IsNoDup [] xs

pub All-distinct_onto {κ} :
    (P : ℕ → Type κ) (seen xs : List ℕ) → All P xs → All P (distinct_onto seen xs)
All-distinct_onto P seen [] h = tt
All-distinct_onto P seen (x ∷ xs) h =
    pick (distinct_onto seen xs) (x ∷ distinct_onto (x ∷ seen) xs) (member x seen)
      (All-distinct_onto P seen xs h.1) (h.0, All-distinct_onto P (x ∷ seen) xs h.1)
  where
    pick :
        (rest later : List ℕ) (b : Bool)
        → All P rest
        → All P later
        → All P (if b then rest else later)
    pick rest later true h k = h
    pick rest later false h k = k

pub IsNew-of :
    (c : ℕ) (is : List ℕ) (ms : List ConversationMember)
    → IsNoDup is
    → All (λ i. any (is_membership c i) ms ≡ false) is
    → IsNew c is ms
IsNew-of c [] ms h new = tt
IsNew-of c (i ∷ is) ms h new = (new.0, h.0, IsNew-of c is ms h.1 new.1)

-- An id that no row has reached.
pub any-unplaced :
    (c i : ℕ) (ms : List ConversationMember)
    → All (λ m. m.conversation_id < c) ms
    → any (is_membership c i) ms ≡ false
any-unplaced c i [] h = refl
any-unplaced c i (m ∷ ms) h = ground (arith, any-unplaced c i ms h.1)

pub All-new_member :
    (c n : ℕ) (role : Role) (is : List ℕ)
    → c < n
    → All (λ m. m.conversation_id < n) (map (new_member c role) is)
All-new_member c n role [] h = tt
All-new_member c n role (i ∷ is) h = (h, All-new_member c n role is h)
