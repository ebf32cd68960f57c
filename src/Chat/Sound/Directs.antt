-- ===== src/Chat/Sound/Directs.antt =====
-- One direct conversation for two users of a company, under inserts and updates.
use attendance.Prelude.{
  ℕ, Bool, true, false, List, [], ◌∷◌, ◌++◌, ◌≡◌, refl, ◌∙◌, ◌==◌, ◌&&◌, any, All, update_where,
  arith, if◌then◌else◌, Option, some, none, ap, any-update, any-append, any_same,
}
use attendance.Chat.Tables.{Conversation}
use attendance.Chat.Access.{is_direct}
use attendance.Chat.Members.{same_key, is_direct_of}

-- Two direct conversations of a company with one key.
abbrev pub clash_key : Option (ℕ × ℕ) → ℕ → Conversation → Bool
clash_key none org_id c = false
clash_key (some key) org_id c = is_direct_of org_id key c

abbrev pub clash : Conversation → Conversation → Bool
clash c c' = is_direct c.kind && clash_key c.direct_key c.organization_id c'

abbrev pub IsOneDirect : List Conversation → Type 0
IsOneDirect [] = Unit
IsOneDirect (c ∷ cs) = (any (clash c) cs ≡ false) × IsOneDirect cs

-- What an update of a conversation leaves alone.
abbrev pub Kept : (Conversation → Conversation) → Type 0
Kept f =
    (c : Conversation)
    → ((f c).organization_id ≡ c.organization_id)
      × ((f c).kind ≡ c.kind)
      × ((f c).direct_key ≡ c.direct_key)

clash_left :
    (f : Conversation → Conversation) (c d : Conversation) → Kept f → clash (f c) d ≡ clash c d
clash_left f c d kept i = is_direct ((kept c).1 i) && clash_key ((kept c).2 i) ((kept c).0 i) d

clash_right :
    (f : Conversation → Conversation) (c d : Conversation) → Kept f → clash c (f d) ≡ clash c d
clash_right f c d kept = keyed c.direct_key
  where
    keyed :
        (k : Option (ℕ × ℕ))
        → (is_direct c.kind && clash_key k c.organization_id (f d))
          ≡ (is_direct c.kind && clash_key k c.organization_id d)
    keyed none = refl
    keyed (some key) = λ i.
        is_direct c.kind
        && ((kept d).0 i == c.organization_id
            && (is_direct ((kept d).1 i) && same_key ((kept d).2 i) key))

pub update-IsOneDirect :
    (p : Conversation → Bool) (f : Conversation → Conversation) (xs : List Conversation)
    → Kept f
    → IsOneDirect xs
    → IsOneDirect (update_where p f xs)
update-IsOneDirect p f [] kept h = tt
update-IsOneDirect p f (x ∷ xs) kept h = (pick (p x), update-IsOneDirect p f xs kept h.1)
  where
    head : any (clash x) (update_where p f xs) ≡ false
    head = any-update (clash x) p f xs (λ y. clash_right f x y kept) ∙ h.0

    pick : (b : Bool) → any (clash (if b then f x else x)) (update_where p f xs) ≡ false
    pick true = any_same (λ d. clash_left f x d kept) (update_where p f xs) ∙ head
    pick false = head

pub snoc-IsOneDirect :
    (cs : List Conversation) (new : Conversation)
    → IsOneDirect cs
    → All (λ c. clash c new ≡ false) cs
    → IsOneDirect (cs ++ new ∷ [])
snoc-IsOneDirect [] new h apart = (refl, tt)
snoc-IsOneDirect (c ∷ cs) new h apart =
    (ground (arith, any-append (clash c) cs (new ∷ [])), snoc-IsOneDirect cs new h.1 apart.1)

-- A conversation without a key clashes with none.
pub no_clash :
    (cs : List Conversation) (new : Conversation)
    → new.direct_key ≡ none
    → All (λ c. clash c new ≡ false) cs
no_clash [] new h = tt
no_clash (c ∷ cs) new h = (keyless c.direct_key, no_clash cs new h)
  where
    keyless : (k : Option (ℕ × ℕ)) → is_direct c.kind && clash_key k c.organization_id new ≡ false
    keyless none = ground arith
    keyless (some key) = ground (arith, ap (λ o. same_key o key) h)

-- A new direct conversation clashes with none when no other is found for its key.
pub fresh_clash :
    (cs : List Conversation) (new : Conversation) (key : ℕ × ℕ)
    → new.direct_key ≡ some key
    → any (is_direct_of new.organization_id key) cs ≡ false
    → All (λ c. clash c new ≡ false) cs
fresh_clash [] new key same h = tt
fresh_clash (c ∷ cs) new key same h =
    (apart c.direct_key refl, fresh_clash cs new key same (ground arith))
  where
    apart :
        (k : Option (ℕ × ℕ))
        → c.direct_key ≡ k
        → is_direct c.kind && clash_key k c.organization_id new ≡ false
    apart none e = ground arith
    apart (some other) e =
        ground (arith, ap (λ o. same_key o key) e, ap (λ o. same_key o other) same)
