-- ===== src/Chat/Reading.antt =====
-- Read marks, unread counts and typing: backend/app/services/chat_service.py.
pub mod Unread
use attendance.Prelude.{
  ℕ, Bool, true, false, Option, none, some, List, [], ◌∷◌, ◌+◌, ◌==◌, ◌&&◌, not, if◌then◌else◌,
  select, first_where, is_empty, length, max, any,
}
use attendance.Prelude.Int.{ℤ, pos, negsuc}
use attendance.Prelude.Errors.{Result, ok, ◌>>=◌, ◌>>◌}
use attendance.Chat.Tables.{ConversationMember, Message, chat_read, chat_typing, Chat, User}
use attendance.Chat.Access.{
  get_conversation_for_user, get_membership, member_ids, emit, change_membership, is_unread,
}

-- The larger of a mark and a number that a client names.
abbrev pub raise_mark : ℕ → ℤ → ℕ
raise_mark n (pos m) = max n m
raise_mark n (negsuc m) = n

abbrev pub write_mark : ℕ → User → ℕ → ℕ → Chat → Chat
write_mark org_id user conversation_id n chat =
    emit org_id chat_read conversation_id (member_ids conversation_id chat)
      (change_membership conversation_id user.id (λ m. record m { last_read_message_id = n }) chat)

unfoldable pub mark_read : ℕ → User → ℕ → ℤ → Chat → Result Chat
mark_read org_id user conversation_id last_read chat = do
  (conv, membership) ← get_conversation_for_user org_id user.id conversation_id chat
  let n = raise_mark membership.last_read_message_id last_read
  ok (
      if n == membership.last_read_message_id
      then chat
      else write_mark org_id user conversation_id n chat)

-- The memberships of a user in the conversations of a company.
abbrev pub in_company : ℕ → ℕ → Chat → ConversationMember → Bool
in_company org_id user_id chat m =
    m.user_id == user_id
    && any (λ c. c.id == m.conversation_id && c.organization_id == org_id) chat.conversations

-- The join of the messages with the user's memberships, counted.
abbrev pub joined_count : List ConversationMember → List Message → ℕ
joined_count [] messages = 0
joined_count (m ∷ ms) messages = length (select (is_unread m) messages) + joined_count ms messages

unfoldable pub unread_total : ℕ → ℕ → Chat → ℕ
unread_total org_id user_id chat =
    joined_count (select (in_company org_id user_id chat) chat.members) chat.messages

abbrev pub emit_unless_empty : ℕ → ℕ → List ℕ → Chat → Chat
emit_unless_empty org_id conversation_id [] chat = chat
emit_unless_empty org_id conversation_id (i ∷ is) chat =
    emit org_id chat_typing conversation_id (i ∷ is) chat

unfoldable pub notify_typing : ℕ → User → ℕ → Chat → Result Chat
notify_typing org_id user conversation_id chat = do
  access ← get_conversation_for_user org_id user.id conversation_id chat
  ok (
      emit_unless_empty org_id conversation_id
        (select (λ i. not (i == user.id)) (member_ids conversation_id chat)) chat)
