-- ===== src/Chat/Access.antt =====
-- Lookups, membership and the shared writes of backend/app/services/chat_service.py.
use attendance.Prelude.{
  ℕ, suc, Bool, true, false, Option, none, some, List, [], ◌∷◌, ◌++◌, ◌==◌, ◌&&◌, not, ltb,
  if◌then◌else◌, select, any, map, member, length, first_where, update_where, same_id,
}
use attendance.Prelude.Errors.{
  Result, ok, not_found, validation, permission_denied, ◌>>=◌, raise_if, or_raise,
  scalar_one_or_none,
}
use attendance.Tenant.{descendants_subquery}
use attendance.Chat.Tables.{
  Conversation, ConversationMember, ConversationType, direct, channel, Role, owner, admin, Notice,
  notice, Message, MessageType, of_user, of_system, Event, chat_message, chat_conversation, Chat,
  User, Company,
}

abbrev pub is_direct : ConversationType → Bool
is_direct direct = true
is_direct _ = false

abbrev pub is_channel : ConversationType → Bool
is_channel channel = true
is_channel _ = false

abbrev pub is_system : MessageType → Bool
is_system of_system = true
is_system of_user = false

abbrev pub is_manager : Role → Bool
is_manager owner = true
is_manager admin = true
is_manager Role.member = false

pub require_org : Option ℕ → Result ℕ
require_org org_id = or_raise org_id validation

-- Whether a user has a grant on any node of the company.
abbrev pub is_company_user : Company → ℕ → ℕ → Bool
is_company_user company org_id user_id =
    any
      (λ g.
        g.user_id == user_id
        && member g.organization_id (descendants_subquery company.organizations org_id))
      company.grants

unfoldable pub require_company_users : Company → ℕ → List ℕ → Result (Unit {0})
require_company_users company org_id ids =
    raise_if (any (λ i. not (is_company_user company org_id i)) ids) validation

abbrev pub is_in_company : ℕ → ℕ → Conversation → Bool
is_in_company org_id conversation_id c = c.id == conversation_id && c.organization_id == org_id

abbrev pub get_conversation : ℕ → ℕ → Chat → Result Conversation
get_conversation org_id conversation_id chat =
    or_raise (first_where (is_in_company org_id conversation_id) chat.conversations) not_found

abbrev pub is_membership : ℕ → ℕ → ConversationMember → Bool
is_membership conversation_id user_id m =
    m.conversation_id == conversation_id && m.user_id == user_id

abbrev pub get_membership : ℕ → ℕ → Chat → Option ConversationMember
get_membership conversation_id user_id chat =
    first_where (is_membership conversation_id user_id) chat.members

unfoldable pub get_conversation_for_user :
    ℕ → ℕ → ℕ → Chat → Result (Conversation × ConversationMember)
get_conversation_for_user org_id user_id conversation_id chat = do
  conv ← get_conversation org_id conversation_id chat
  membership ← or_raise (get_membership conversation_id user_id chat) not_found
  ok (conv, membership)

abbrev pub member_ids : ℕ → Chat → List ℕ
member_ids conversation_id chat =
    map (λ m. m.user_id) (select (λ m. m.conversation_id == conversation_id) chat.members)

abbrev pub require_role : ConversationMember → User → Result (Unit {0})
require_role membership user =
    if user.is_super then ok tt else raise_if (not (is_manager membership.role)) permission_denied

abbrev pub emit : ℕ → Event → ℕ → List ℕ → Chat → Chat
emit org_id event conversation_id user_ids chat = record chat {
  emitted =
      chat.emitted
      ++ record {
        org_id = org_id;
        event = event;
        conversation_id = conversation_id;
        user_ids = user_ids;
      }
        ∷ [];
}

-- `emit_conversation_changed`, to every present member.
abbrev pub emit_conversation_changed : Conversation → Chat → Chat
emit_conversation_changed conv chat =
    emit conv.organization_id chat_conversation conv.id (member_ids conv.id chat) chat

abbrev pub change_conversation : ℕ → (Conversation → Conversation) → Chat → Chat
change_conversation n f chat = record chat {
  conversations = update_where (λ c. c.id == n) f chat.conversations;
}

abbrev pub change_membership : ℕ → ℕ → (ConversationMember → ConversationMember) → Chat → Chat
change_membership conversation_id user_id f chat = record chat {
  members = update_where (is_membership conversation_id user_id) f chat.members;
}

abbrev pub change_message : ℕ → (Message → Message) → Chat → Chat
change_message n f chat = record chat { messages = update_where (λ m. m.id == n) f chat.messages }

-- A new row of `messages`, with the next id.
abbrev pub add_message : Message → Chat → Chat
add_message m chat = record chat {
  messages = chat.messages ++ m ∷ [];
  next_message = suc chat.next_message;
}

abbrev pub system_message : ℕ → Conversation → Notice → Message
system_message id conv what = record {
  id = id;
  conversation_id = conv.id;
  organization_id = conv.organization_id;
  sender_id = none;
  kind = of_system;
  body = some (notice what);
  reply_to_id = none;
  edited_at = none;
  deleted_at = none;
}

unfoldable pub post_system_message : ℕ → Conversation → Notice → Chat → Chat
post_system_message now conv what chat =
    emit conv.organization_id chat_message conv.id (member_ids conv.id chat) (
      change_conversation conv.id (λ c. record c { last_message_at = some now })
        (add_message (system_message chat.next_message conv what) chat))

-- Whether a message counts as unread for a member who has read up to an id. In SQL no sender
-- differs from nobody, so a message without a sender never counts.
abbrev pub sent_by_other : ℕ → Option ℕ → Bool
sent_by_other user_id none = false
sent_by_other user_id (some sender) = not (sender == user_id)

abbrev pub is_live : Message → Bool
is_live m = same_id m.deleted_at none

abbrev pub is_unread : ConversationMember → Message → Bool
is_unread membership m =
    m.conversation_id == membership.conversation_id
    && (ltb membership.last_read_message_id m.id
        && (sent_by_other membership.user_id m.sender_id && (not (is_system m.kind) && is_live m)))

unfoldable pub conversation_unread : ConversationMember → Chat → ℕ
conversation_unread membership chat = length (select (is_unread membership) chat.messages)

-- The parts of the answer that the rules decide.
pub record Detail : Type 0 where
  pub conversation : Conversation
  pub unread : ℕ
  pub member_count : ℕ
  pub counterpart : Option ℕ

abbrev pub other_member : ℕ → List ℕ → Result (Option ℕ)
other_member user_id ids = scalar_one_or_none (select (λ i. not (i == user_id)) ids)

unfoldable pub conversation_detail : ℕ → ℕ → ℕ → Chat → Result Detail
unfolding get_conversation_for_user conversation_unread
conversation_detail org_id user_id conversation_id chat = do
  (conv, membership) ← get_conversation_for_user org_id user_id conversation_id chat
  counterpart ←
      if is_direct conv.kind then other_member user_id (member_ids conv.id chat) else ok none
  ok (record {
    conversation = conv;
    unread = conversation_unread membership chat;
    member_count = length (member_ids conv.id chat);
    counterpart = counterpart;
  })
