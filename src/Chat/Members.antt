-- ===== src/Chat/Members.antt =====
-- Creating and editing conversations, and who is in them: backend/app/services/chat_service.py.
pub mod Unique
use attendance.Prelude.{
  ℕ, suc, Bool, true, false, Option, none, some, List, [], ◌∷◌, ◌++◌, ◌==◌, ◌&&◌, not, leb,
  if◌then◌else◌, select, any, map, member, first_where, is_some, is_empty, take, distinct, min, max,
}
use attendance.Prelude.Pytext.{Text, strip}
use attendance.Prelude.Errors.{
  Result, ok, err, not_found, validation, integrity_error, ◌>>=◌, ◌>>◌, raise_if, or_raise,
}
use attendance.Chat.Tables.{
  Conversation, ConversationMember, ConversationType, direct, group, channel, Role, owner, added,
  left, joined, chat_conversation, Chat, User, Company,
}
use attendance.Chat.Access.{
  is_direct, is_channel, require_company_users, get_conversation, get_membership,
  get_conversation_for_user, member_ids, is_membership, require_role, emit,
  emit_conversation_changed, change_conversation, change_membership, post_system_message, Detail,
  conversation_detail,
}

-- `sorted((a, b))`
abbrev pub direct_key : ℕ → ℕ → ℕ × ℕ
direct_key a b = if leb a b then (a, b) else (b, a)

abbrev pub same_key : Option (ℕ × ℕ) → ℕ × ℕ → Bool
same_key none k = false
same_key (some (a, b)) (c, d) = a == c && b == d

abbrev pub is_direct_of : ℕ → ℕ × ℕ → Conversation → Bool
is_direct_of org_id key c =
    c.organization_id == org_id && (is_direct c.kind && same_key c.direct_key key)

abbrev pub find_direct : ℕ → ℕ × ℕ → Chat → Option Conversation
find_direct org_id key chat = first_where (is_direct_of org_id key) chat.conversations

abbrev pub new_member : ℕ → Role → ℕ → ConversationMember
new_member conversation_id role user_id = record {
  conversation_id = conversation_id;
  user_id = user_id;
  role = role;
  last_read_message_id = 0;
  is_pinned = false;
}

abbrev pub add_rows : ℕ → Role → List ℕ → Chat → Chat
add_rows conversation_id role ids chat = record chat {
  members = chat.members ++ map (new_member conversation_id role) ids;
}

-- A new row of `conversations`, with the next id.
abbrev pub add_conversation : Conversation → Chat → Chat
add_conversation c chat = record chat {
  conversations = chat.conversations ++ c ∷ [];
  next_conversation = suc chat.next_conversation;
}

abbrev pub new_conversation : ℕ → ℕ → ConversationType → ℕ → Conversation
new_conversation id org_id kind user_id = record {
  id = id;
  organization_id = org_id;
  kind = kind;
  name = none;
  topic = none;
  is_archived = false;
  created_by = user_id;
  last_message_at = none;
  direct_key = none;
}

-- The flush of a new direct conversation: UNIQUE(organization_id, direct_key) holds in the table
-- that others have committed meanwhile, or the winner's conversation is selected again.
abbrev pub insert_direct : ℕ → ℕ → ℕ → Chat → Option Conversation → Result (Conversation × Chat)
insert_direct org_id user_id other_id chat (some winner) = ok (winner, chat)
insert_direct org_id user_id other_id chat none =
    let conv : Conversation =
      record (new_conversation chat.next_conversation org_id direct user_id) {
        direct_key = some (direct_key user_id other_id);
      } in
    ok (conv, add_rows conv.id Role.member (user_id ∷ other_id ∷ []) (add_conversation conv chat))

-- `committed` is what the tables have become when the new row is flushed.
abbrev pub reuse_or_insert :
    ℕ → ℕ → ℕ → Chat → Chat → Option Conversation → Result (Conversation × Chat)
reuse_or_insert org_id user_id other_id chat committed (some existing) = ok (existing, chat)
reuse_or_insert org_id user_id other_id chat committed none =
    insert_direct org_id user_id other_id committed
      (find_direct org_id (direct_key user_id other_id) committed)

unfoldable pub get_or_create_direct :
    Company → ℕ → ℕ → ℕ → Chat → Chat → Result (Conversation × Chat)
get_or_create_direct company org_id user_id other_id committed chat = do
  raise_if (other_id == user_id) validation
  require_company_users company org_id (other_id ∷ [])
  reuse_or_insert org_id user_id other_id chat committed
      (find_direct org_id (direct_key user_id other_id) chat)

-- `text.strip()[:n] or None`
abbrev pub nonempty : Text → Option Text
nonempty [] = none
nonempty (c ∷ cs) = some (c ∷ cs)

abbrev pub or_blank : Option Text → Text
or_blank none = []
or_blank (some t) = t

abbrev pub with_detail : ℕ → ℕ → ℕ → Chat → Result (Detail × Chat)
with_detail org_id user_id conversation_id chat = do
  detail ← conversation_detail org_id user_id conversation_id chat
  ok (detail, chat)

-- The members named for a group, less the creator.
abbrev pub others_of : User → ConversationType → List ℕ → List ℕ
others_of user group ids = select (λ i. not (i == user.id)) ids
others_of user _ ids = []

unfoldable pub create_group :
    Company
    → ℕ
    → User
    → ConversationType
    → List ℕ
    → Option Text
    → Option Text
    → Chat
    → Result (Detail × Chat)
unfolding require_company_users
create_group company org_id user kind ids name topic chat = do
  raise_if (is_empty (strip (or_blank name))) validation
  require_company_users company org_id (others_of user kind ids)
  let conv : Conversation = record (new_conversation chat.next_conversation org_id kind user.id) {
    name = some (take 255 (strip (or_blank name)));
    topic = nonempty (take 500 (strip (or_blank topic)));
  }
  let chat' =
      add_rows conv.id Role.member (distinct (others_of user kind ids))
        (add_rows conv.id owner (user.id ∷ []) (add_conversation conv chat))
  with_detail org_id user.id conv.id (emit_conversation_changed conv chat')

-- `user_id` is required, and `0` is none.
abbrev pub given_id : Option ℕ → Result ℕ
given_id none = err validation
given_id (some n) = if n == 0 then err validation else ok n

unfoldable pub create_conversation :
    Company
    → ℕ
    → User
    → ConversationType
    → Option ℕ
    → List ℕ
    → Option Text
    → Option Text
    → Chat
    → Chat
    → Result (Detail × Chat)
unfolding get_or_create_direct create_group
create_conversation company org_id user direct user_id ids name topic committed chat = do
  other_id ← given_id user_id
  (conv, chat') ← get_or_create_direct company org_id user.id other_id committed chat
  with_detail org_id user.id conv.id (emit_conversation_changed conv chat')
create_conversation company org_id user kind user_id ids name topic committed chat =
    create_group company org_id user kind ids name topic chat

-- A new name, if one is given: an empty one raises.
abbrev pub new_name : Option Text → Conversation → Result Conversation
new_name none c = ok c
new_name (some name) c = do
  raise_if (is_empty (strip name)) validation
  ok (record c { name = some (take 255 (strip name)) })

abbrev pub new_topic : Option Text → Conversation → Conversation
new_topic none c = c
new_topic (some topic) c = record c { topic = nonempty (take 500 (strip topic)) }

abbrev pub archive : Option Bool → Conversation → Conversation
archive none c = c
archive (some b) c = record c { is_archived = b }

unfoldable pub update_conversation :
    ℕ → User → ℕ → Option Text → Option Text → Option Bool → Chat → Result (Detail × Chat)
update_conversation org_id user conversation_id name topic is_archived chat = do
  (conv, membership) ← get_conversation_for_user org_id user.id conversation_id chat
  raise_if (is_direct conv.kind) validation
  require_role membership user
  named ← new_name name conv
  let conv' = archive is_archived (new_topic topic named)
  with_detail org_id user.id conv.id (
      emit_conversation_changed conv (
        change_conversation conv.id
          (λ c. record c {
            name = conv'.name;
            topic = conv'.topic;
            is_archived = conv'.is_archived;
          })
          chat))

abbrev pub with_added : ℕ → Conversation → List ℕ → Chat → Chat
with_added now conv [] chat = chat
with_added now conv (i ∷ is) chat =
    post_system_message now conv (added (i ∷ is)) (add_rows conv.id Role.member (i ∷ is) chat)

abbrev pub newcomers : ℕ → List ℕ → Chat → List ℕ
newcomers conversation_id wanted chat =
    select (λ i. not (member i (member_ids conversation_id chat))) wanted

unfoldable pub add_members : Company → ℕ → ℕ → User → ℕ → List ℕ → Chat → Result (Detail × Chat)
unfolding require_company_users
add_members company now org_id user conversation_id user_ids chat = do
  (conv, membership) ← get_conversation_for_user org_id user.id conversation_id chat
  raise_if (is_direct conv.kind) validation
  require_role membership user
  let wanted = select (λ i. not (i == 0)) (distinct user_ids)
  if is_empty wanted then with_detail org_id user.id conv.id chat else do
    require_company_users company org_id wanted
    with_detail org_id user.id conv.id
        (emit_conversation_changed conv (with_added now conv (newcomers conv.id wanted chat) chat))

abbrev pub remove_row : ℕ → ℕ → Chat → Chat
remove_row conversation_id user_id chat = record chat {
  members = select (λ m. not (is_membership conversation_id user_id m)) chat.members;
}

unfoldable pub remove_member : ℕ → ℕ → User → ℕ → ℕ → Chat → Result Chat
remove_member now org_id user conversation_id target chat = do
  (conv, membership) ← get_conversation_for_user org_id user.id conversation_id chat
  raise_if (is_direct conv.kind) validation
  if target == user.id then ok tt else require_role membership user
  target_row ← or_raise (get_membership conv.id target chat) not_found
  let notify_ids = member_ids conv.id chat
  ok (
      emit conv.organization_id chat_conversation conv.id notify_ids
        (post_system_message now conv (left target) (remove_row conv.id target chat)))

abbrev pub join_unless : ℕ → Conversation → ℕ → Option ConversationMember → Chat → Chat
join_unless now conv user_id (some _) chat = chat
join_unless now conv user_id none chat = emit_conversation_changed conv (
    post_system_message now conv (joined user_id)
      (add_rows conv.id Role.member (user_id ∷ []) chat))

unfoldable pub join_channel : ℕ → ℕ → User → ℕ → Chat → Result (Detail × Chat)
join_channel now org_id user conversation_id chat = do
  conv ← get_conversation org_id conversation_id chat
  raise_if (not (is_channel conv.kind)) validation
  with_detail org_id user.id conv.id
      (join_unless now conv user.id (get_membership conv.id user.id chat) chat)

unfoldable pub set_pinned : ℕ → User → ℕ → Bool → Chat → Result (Detail × Chat)
set_pinned org_id user conversation_id pinned chat = do
  access ← get_conversation_for_user org_id user.id conversation_id chat
  with_detail org_id user.id conversation_id
      (change_membership conversation_id user.id (λ m. record m { is_pinned = pinned }) chat)
