-- ===== src/Chat/Tables.antt =====
-- Rows of backend/app/models/chat.py, with the columns that the service reads or writes, and the
-- events that it emits.
use attendance.Prelude.{ℕ, String, Bool, Option, List}
use attendance.Prelude.Pytext.{Text}
use attendance.Tenant.{Organization}

pub data ConversationType : Type 0 where
  direct group channel : ConversationType

pub data Role : Type 0 where
  owner admin member : Role

-- The direct key `lo:hi` as its two parts.
pub record Conversation : Type 0 where
  pub id : ℕ
  pub organization_id : ℕ
  pub kind : ConversationType
  pub name : Option Text
  pub topic : Option Text
  pub is_archived : Bool
  pub created_by : ℕ
  pub last_message_at : Option ℕ
  pub direct_key : Option (ℕ × ℕ)

pub record ConversationMember : Type 0 where
  pub conversation_id : ℕ
  pub user_id : ℕ
  pub role : Role
  pub last_read_message_id : ℕ
  pub is_pinned : Bool

-- What a system message says, in place of its wording.
pub data Notice : Type 0 where
  added : List ℕ → Notice
  left joined : ℕ → Notice
  call_ended : Option ℕ → Notice
  call_declined call_missed line_busy call_failed : Notice

pub data Content : Type 0 where
  text : Text → Content
  notice : Notice → Content

-- The type of a message, "text" or "system".
pub data MessageType : Type 0 where
  of_user of_system : MessageType

pub record Message : Type 0 where
  pub id : ℕ
  pub conversation_id : ℕ
  pub organization_id : ℕ
  pub sender_id : Option ℕ
  pub kind : MessageType
  pub body : Option Content
  pub reply_to_id : Option ℕ
  pub edited_at : Option ℕ
  pub deleted_at : Option ℕ

pub record MessageAttachment : Type 0 where
  pub message_id : ℕ
  pub url : String

pub record MessageMention : Type 0 where
  pub message_id : ℕ
  pub user_id : ℕ

pub record MessageReaction : Type 0 where
  pub message_id : ℕ
  pub user_id : ℕ
  pub emoji : Text

pub data Event : Type 0 where
  chat_message chat_updated chat_deleted chat_conversation chat_read chat_typing : Event
  call_offered call_answered call_candidate call_over : Event

-- One call of `emit` with the recipients named.
pub record Emission : Type 0 where
  pub org_id : ℕ
  pub event : Event
  pub conversation_id : ℕ
  pub user_ids : List ℕ

-- The tables, the sequences of their ids, and what has gone out: events, and removals of files.
pub record Chat : Type 0 where
  pub conversations : List Conversation
  pub members : List ConversationMember
  pub messages : List Message
  pub attachments : List MessageAttachment
  pub mentions : List MessageMention
  pub reactions : List MessageReaction
  pub next_conversation : ℕ
  pub next_message : ℕ
  pub emitted : List Emission
  pub deleted_files : List String

-- The signed-in user: `is_super` is `user.has_role(settings.super_admin_role)`.
pub record User : Type 0 where
  pub id : ℕ
  pub is_super : Bool

-- A row of `user_organization`.
pub record Grant : Type 0 where
  pub user_id : ℕ
  pub organization_id : ℕ

-- What the service only reads.
pub record Company : Type 0 where
  pub grants : List Grant
  pub organizations : List Organization
