-- ===== src/Chat/Messages.antt =====
-- Sending, editing, deleting and reacting: backend/app/services/chat_service.py.
pub mod Cuts
pub mod Paging
pub mod Toggling
pub mod Rights
use attendance.Prelude.{
  ℕ, suc, String, Bool, true, false, Option, none, some, List, [], ◌∷◌, ◌++◌, ◌+◌, ◌==◌, ◌&&◌, ◌||◌,
  not, ltb, if◌then◌else◌, select, any, map, member, first_where, is_empty, is_some, take, distinct,
  length, min, max, same_id,
}
use mathlib.Core.List.{reverse}
use attendance.Prelude.Int.{ℤ, pos, negsuc}
use attendance.Prelude.Pytext.{Text, strip, same_text}
use attendance.Prelude.Errors.{
  Result, ok, err, not_found, validation, permission_denied, ◌>>=◌, ◌>>◌, raise_if, or_raise,
}
use attendance.Chat.Tables.{
  Conversation, ConversationMember, Message, MessageAttachment, MessageMention, MessageReaction,
  text, of_user, chat_message, chat_updated, chat_deleted, Chat, User, Content,
}
use attendance.Chat.Access.{
  get_conversation_for_user, member_ids, is_live, is_manager, emit, change_conversation,
  change_membership, change_message, add_message,
}

abbrev pub max_body_len : ℕ
max_body_len = 8000

-- `(body or "").strip()`, cut at the limit.
abbrev pub clean_body : Option Text → Text
clean_body none = []
clean_body (some body) = take max_body_len (strip body)

-- A reply to a message of another conversation is dropped.
abbrev pub valid_reply : ℕ → Option ℕ → List Message → Option ℕ
valid_reply conversation_id none messages = none
valid_reply conversation_id (some n) messages =
    if any (λ m. m.id == n && m.conversation_id == conversation_id) messages then some n else none

abbrev pub body_of : Text → Option Content
body_of [] = none
body_of (c ∷ cs) = some (text (c ∷ cs))

abbrev pub add_extras : ℕ → List String → List ℕ → Chat → Chat
add_extras message_id urls mentioned chat = record chat {
  attachments = chat.attachments ++ map (λ u. record { message_id = message_id; url = u }) urls;
  mentions = chat.mentions ++ map (λ i. record { message_id = message_id; user_id = i }) mentioned;
}

-- Who is mentioned: members only, each once.
abbrev pub valid_mentions : List ℕ → List ℕ → List ℕ
valid_mentions ids mention_ids = select (λ i. member i ids) (distinct mention_ids)

abbrev pub new_message : ℕ → Conversation → ℕ → Text → Option ℕ → Message
new_message id conv sender clean reply_to_id = record {
  id = id;
  conversation_id = conv.id;
  organization_id = conv.organization_id;
  sender_id = some sender;
  kind = of_user;
  body = body_of clean;
  reply_to_id = reply_to_id;
  edited_at = none;
  deleted_at = none;
}

abbrev pub write_message :
    ℕ → Conversation → ℕ → Text → Option ℕ → List ℕ → List String → Chat → Message × Chat
write_message now conv sender clean reply_to_id mention_ids urls chat =
    let m =
      new_message chat.next_message conv sender clean
        (valid_reply conv.id reply_to_id chat.messages) in
    let ids = member_ids conv.id chat in
    (
      m,
      emit conv.organization_id chat_message conv.id ids (
          change_membership conv.id sender
            (λ r. record r { last_read_message_id = max r.last_read_message_id m.id })
            (change_conversation conv.id
              (λ c. record c { last_message_at = some now; is_archived = false })
              (add_extras m.id urls (valid_mentions ids mention_ids) (add_message m chat)))),
    )

unfoldable pub send_message :
    ℕ
    → ℕ
    → User
    → ℕ
    → Option Text
    → Option ℕ
    → List ℕ
    → List String
    → Chat
    → Result (Message × Chat)
send_message now org_id user conversation_id body reply_to_id mention_ids urls chat = do
  (conv, membership) ← get_conversation_for_user org_id user.id conversation_id chat
  raise_if (is_empty (clean_body body) && is_empty urls) validation
  ok (write_message now conv user.id (clean_body body) reply_to_id mention_ids urls chat)

unfoldable pub get_message_for_user :
    ℕ → ℕ → ℕ → Chat → Result (Message × Conversation × ConversationMember)
get_message_for_user org_id user_id message_id chat = do
  msg ←
      or_raise (first_where (λ m. m.id == message_id && m.organization_id == org_id) chat.messages)
        not_found
  (conv, membership) ← get_conversation_for_user org_id user_id msg.conversation_id chat
  ok (msg, conv, membership)

-- `_emit_message_updated`
abbrev pub emit_updated : Conversation → Chat → Chat
emit_updated conv chat =
    emit conv.organization_id chat_updated conv.id (member_ids conv.id chat) chat

unfoldable pub edit_message : ℕ → ℕ → User → ℕ → Text → Chat → Result Chat
edit_message now org_id user message_id body chat = do
  (msg, conv, membership) ← get_message_for_user org_id user.id message_id chat
  raise_if (not (is_live msg)) validation
  raise_if (not (same_id msg.sender_id (some user.id))) permission_denied
  raise_if (is_empty (strip body)) validation
  ok (
      emit_updated conv (
        change_message msg.id
          (λ m. record m { body = body_of (take max_body_len (strip body)); edited_at = some now })
          chat))

abbrev pub bury : ℕ → Message → Message
bury now m = record m { deleted_at = some now; body = none }

-- The attachments go, with their files, and the message becomes a tombstone.
abbrev pub write_tombstone : ℕ → Conversation → Message → Chat → Chat
write_tombstone now conv msg chat =
    emit conv.organization_id chat_deleted conv.id (member_ids conv.id chat) (
      change_message msg.id (bury now) (record chat {
        attachments = select (λ a. not (a.message_id == msg.id)) chat.attachments;
        deleted_files =
            chat.deleted_files
            ++ map (λ a. a.url) (select (λ a. a.message_id == msg.id) chat.attachments);
      }))

unfoldable pub delete_message : ℕ → ℕ → User → ℕ → Chat → Result Chat
delete_message now org_id user message_id chat = do
  (msg, conv, membership) ← get_message_for_user org_id user.id message_id chat
  if not (is_live msg) then ok chat else do
    raise_if
        (not (same_id msg.sender_id (some user.id))
          && not (is_manager membership.role || user.is_super))
        permission_denied
    ok (write_tombstone now conv msg chat)

abbrev pub is_reaction : ℕ → ℕ → Text → MessageReaction → Bool
is_reaction message_id user_id emoji r =
    r.message_id == message_id && (r.user_id == user_id && same_text r.emoji emoji)

abbrev pub has_reacted : ℕ → ℕ → Text → List MessageReaction → Bool
has_reacted message_id user_id emoji rows = any (is_reaction message_id user_id emoji) rows

abbrev pub flip_reaction : Bool → ℕ → ℕ → Text → List MessageReaction → List MessageReaction
flip_reaction true message_id user_id emoji rows =
    select (λ r. not (is_reaction message_id user_id emoji r)) rows
flip_reaction false message_id user_id emoji rows =
    rows ++ record { message_id = message_id; user_id = user_id; emoji = emoji } ∷ []

abbrev pub toggle : ℕ → ℕ → Text → List MessageReaction → List MessageReaction
toggle message_id user_id emoji rows =
    flip_reaction (has_reacted message_id user_id emoji rows) message_id user_id emoji rows

unfoldable pub toggle_reaction : ℕ → User → ℕ → Text → Chat → Result Chat
toggle_reaction org_id user message_id emoji chat = do
  (msg, conv, membership) ← get_message_for_user org_id user.id message_id chat
  raise_if (not (is_live msg)) validation
  raise_if (is_empty (take 32 (strip emoji))) validation
  ok (
      emit_updated conv
        (record chat { reactions = toggle msg.id user.id (take 32 (strip emoji)) chat.reactions }))

-- `max(1, min(limit, 100))`
abbrev pub page_size : ℤ → ℕ
page_size (pos n) = max 1 (min n 100)
page_size (negsuc n) = 1

-- `ORDER BY id DESC`
abbrev pub insert_desc : Message → List Message → List Message
insert_desc m [] = m ∷ []
insert_desc m (x ∷ xs) =
    let rest = insert_desc m xs in if ltb m.id x.id then x ∷ rest else m ∷ x ∷ xs

abbrev pub order_desc : List Message → List Message
order_desc [] = []
order_desc (m ∷ ms) = insert_desc m (order_desc ms)

abbrev pub is_before : Option ℕ → Message → Bool
is_before none m = true
is_before (some n) m = ltb m.id n

-- A page, oldest first, and whether there is more before it.
abbrev pub page_of : ℕ → Option ℕ → List Message → List Message × Bool
page_of limit before history =
    let rows = take (suc limit) (order_desc (select (is_before before) history)) in
    (reverse (take limit rows), ltb limit (length rows))

abbrev pub history_of : ℕ → Chat → List Message
history_of conversation_id chat = select (λ m. m.conversation_id == conversation_id) chat.messages

unfoldable pub list_messages : ℕ → ℕ → ℕ → Option ℕ → ℤ → Chat → Result (List Message × Bool)
list_messages org_id user_id conversation_id before limit chat = do
  access ← get_conversation_for_user org_id user_id conversation_id chat
  ok (page_of (page_size limit) before (history_of conversation_id chat))
