-- ===== src/Chat/Reading/Unread.antt =====
-- What a message and a read mark do to the unread counts.
use mathlib.Core.Path.{subst}
use attendance.Prelude.Errors.{
  ok, not_found, validation, >>=-eq-ok, or_raise, or_raise-eq-ok, ok-injective, raise_if-eq-ok,
}
use attendance.Prelude.{
  ◌&&◌, String, is_empty, All-append, All-map, ℕ, suc, Bool, true, false, Option, none, some, List,
  [], ◌∷◌, ◌++◌, ◌+◌, ◌≤◌, ◌<◌, ◌==◌, ◌≡◌, refl, if◌then◌else◌, select, length, first_where,
  update_where, max, arith, Bool-cases, inl, inr, length-append, select-append, ap, ◌∙◌, All, sym,
  ==_iff,
}
use attendance.Prelude.Pytext.{Text}
use attendance.Attendance.Queries.Keyed.{first_where-true}
use attendance.Chat.Tables.{Conversation, ConversationMember, Message, Chat, User}
use attendance.Chat.Access.{
  get_conversation, get_conversation_for_user, is_in_company, is_membership, get_membership,
  is_unread, conversation_unread,
}
use attendance.Chat.Messages.{send_message, clean_body, write_message, new_message, valid_reply}

-- No message has the next id or a later one.
abbrev pub IsBelow : ℕ → List Message → Type 0
IsBelow n messages = All (λ m. m.id < n) messages

unread-IsBelow :
    (m : ConversationMember) (n : ℕ) (messages : List Message)
    → IsBelow n messages
    → n ≤ suc m.last_read_message_id
    → length (select (is_unread m) messages) ≡ 0
unread-IsBelow m n [] h le = refl
unread-IsBelow m n (x ∷ xs) h le = ground (arith, unread-IsBelow m n xs h.1 le)

unread_more :
    (r : ConversationMember) (m : Message) (messages : List Message)
    → length (select (is_unread r) (messages ++ m ∷ []))
      ≡ length (select (is_unread r) messages) + length (select (is_unread r) (m ∷ []))
unread_more r m messages =
    rw (select-append (is_unread r) messages (m ∷ []))
      (length-append (select (is_unread r) messages) (select (is_unread r) (m ∷ [])))

-- A row of another user is found as before.
other-update :
    (c u o : ℕ) (f : ConversationMember → ConversationMember) (rows : List ConversationMember)
    → ((m : ConversationMember) → is_membership c o (f m) ≡ is_membership c o m)
    → (o == u) ≡ false
    → first_where (is_membership c o) (update_where (is_membership c u) f rows)
      ≡ first_where (is_membership c o) rows
other-update c u o f [] keep h = refl
other-update c u o f (m ∷ ms) keep h = elim (Bool-cases (is_membership c u m)) [
  | inl mine ↦
      let apart : is_membership c o m ≡ false = ground arith in
      rw mine (rw (keep m ∙ apart) (rw apart (other-update c u o f ms keep h)))
  | inr theirs ↦
      rw theirs
        (ap (λ rest. if is_membership c o m then some m else rest) (other-update c u o f ms keep h))
]

own-update :
    (c u : ℕ) (f : ConversationMember → ConversationMember) (rows : List ConversationMember)
    {m : ConversationMember}
    → ((x : ConversationMember) → is_membership c u (f x) ≡ is_membership c u x)
    → first_where (is_membership c u) rows ≡ some m
    → first_where (is_membership c u) (update_where (is_membership c u) f rows) ≡ some (f m)
own-update c u f [] keep h = cc
own-update c u f (x ∷ xs) {m} keep h = elim (Bool-cases (is_membership c u x)) [
  | inl mine ↦
      rw mine (
        rw (keep x ∙ mine)
          (ap (λ o. elim o [ none ↦ none | some y ↦ some (f y) ]) (rw mine at (h))))
  | inr theirs ↦ rw theirs (rw theirs (own-update c u f xs keep (rw theirs at (h))))
]

counted_if : (b : Bool) (m : Message) → b ≡ true → length (if b then m ∷ [] else []) ≡ 1
counted_if true m h = refl
counted_if false m h = cc

module _ (now : ℕ) (conv : Conversation) (user : User) (clean : Text) (reply_to : Option ℕ)
    (mentions : List ℕ) (urls : List String) (chat : Chat) where
  abbrev sent : Chat
  sent = (write_message now conv user.id clean reply_to mentions urls chat).1

  abbrev message : Message
  message =
      new_message chat.next_message conv user.id clean (valid_reply conv.id reply_to chat.messages)

  is_unread-new :
      (other : ConversationMember)
      → (other.user_id == user.id) ≡ false
      → other.conversation_id ≡ conv.id
      → other.last_read_message_id < chat.next_message
      → is_unread other message ≡ true
  is_unread-new other apart same old = ground arith

  write_message-unread :
      (mine : ConversationMember)
      → get_membership conv.id user.id chat ≡ some mine
      → IsBelow chat.next_message chat.messages
      → ((other : ConversationMember)
          → (other.user_id == user.id) ≡ false
          → other.conversation_id ≡ conv.id
          → other.last_read_message_id < chat.next_message
          → (get_membership conv.id other.user_id sent ≡ get_membership conv.id other.user_id chat)
            × (conversation_unread other sent ≡ conversation_unread other chat + 1))
        × ((mine' : ConversationMember) × (get_membership conv.id user.id sent ≡ some mine')
            × (conversation_unread mine' sent ≡ 0))
  unfolding conversation_unread
  write_message-unread mine found below = (
    λ other apart same old. (
      other-update conv.id user.id other.user_id
          (λ r. record r { last_read_message_id = max r.last_read_message_id chat.next_message })
          chat.members (λ m. refl) apart,
      unread_more other
            (new_message chat.next_message conv user.id clean
              (valid_reply conv.id reply_to chat.messages))
            chat.messages
          ∙ ap (λ n. length (select (is_unread other) chat.messages) + n)
              (counted_if (is_unread other message) message (is_unread-new other apart same old)),
    ),
    (
      record mine { last_read_message_id = max mine.last_read_message_id chat.next_message },
      own-update conv.id user.id
          (λ r. record r { last_read_message_id = max r.last_read_message_id chat.next_message })
          chat.members (λ m. refl) found,
      unread-IsBelow
          (record mine { last_read_message_id = max mine.last_read_message_id chat.next_message })
          (suc chat.next_message) (chat.messages ++ message ∷ [])
          (All-append (λ m. m.id < suc chat.next_message) chat.messages (message ∷ [])
            (All-map (λ m. m.id < chat.next_message) (λ m. m.id < suc chat.next_message)
              chat.messages (λ m h. omega arith) below)
            (omega arith, tt))
          (omega arith),
    ),
  )

-- What access to a conversation has found.
access-found :
    (org_id user_id conversation_id : ℕ) (chat : Chat) {conv : Conversation}
    {mine : ConversationMember}
    → get_conversation_for_user org_id user_id conversation_id chat ≡ ok (conv, mine)
    → (conv.id ≡ conversation_id) × (get_membership conversation_id user_id chat ≡ some mine)
unfolding get_conversation_for_user
access-found org_id user_id conversation_id chat h =
    let (c, f, h1) = >>=-eq-ok (get_conversation org_id conversation_id chat) _ h in
    let (m, g, h2) =
      >>=-eq-ok (or_raise (get_membership conversation_id user_id chat) not_found) _ h1 in
    let passes = first_where-true (is_in_company org_id conversation_id) chat.conversations (
      or_raise-eq-ok (first_where (is_in_company org_id conversation_id) chat.conversations)
        not_found f) in
    let e = ok-injective h2 in
    (
      sym (ap (λ p. p.0.id) e) ∙ (==_iff c.id conversation_id).0 (ground arith),
      or_raise-eq-ok (get_membership conversation_id user_id chat) not_found g
          ∙ ap (λ p. some p.1) e,
    )

-- The counts after a message: one more for every other member who has not read ahead, none for the
-- sender.
abbrev pub Counted : ℕ → ℕ → Chat → Chat → Type 0
Counted conversation_id sender chat chat' =
    ((other : ConversationMember)
      → (other.user_id == sender) ≡ false
      → other.conversation_id ≡ conversation_id
      → other.last_read_message_id < chat.next_message
      → (get_membership conversation_id other.user_id chat'
          ≡ get_membership conversation_id other.user_id chat)
        × (conversation_unread other chat' ≡ conversation_unread other chat + 1))
    × ((mine : ConversationMember) × (get_membership conversation_id sender chat' ≡ some mine)
        × (conversation_unread mine chat' ≡ 0))

-- Where all messages have ids below the next one, a message that is sent raises by one the unread
-- count of every other membership of the conversation whose mark is below the next id, leaves
-- those memberships as they were, and leaves the sender none unread.
pub send_message-Counted :
    (now org_id : ℕ) (user : User) (conversation_id : ℕ) (body : Option Text) (reply_to : Option ℕ)
    (mentions : List ℕ) (urls : List String) (chat chat' : Chat) (m : Message)
    → IsBelow chat.next_message chat.messages
    → send_message now org_id user conversation_id body reply_to mentions urls chat ≡ ok (m, chat')
    → Counted conversation_id user.id chat chat'
unfolding send_message
send_message-Counted now org_id user conversation_id body reply_to mentions urls chat chat' m below
      h =
    let ((conv, mine), access, h1) =
      >>=-eq-ok (get_conversation_for_user org_id user.id conversation_id chat) _ h in
    let (_, h2) = raise_if-eq-ok (is_empty (clean_body body) && is_empty urls) validation _ h1 in
    let (same, found) = access-found org_id user.id conversation_id chat access in
    subst (λ c. Counted c user.id chat chat') same
      (subst (λ after. Counted conv.id user.id chat after) (ap (λ p. p.1) (ok-injective h2))
        (write_message-unread now conv user (clean_body body) reply_to mentions urls chat mine
          (ap (λ c. get_membership c user.id chat) same ∙ found) below))
