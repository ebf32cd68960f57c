-- ===== src/Chat/Steps.antt =====
-- The chat as a sequence of calls: each runs in its own transaction, which an exception rolls back.
use attendance.Prelude.{ℕ, Bool, String, Option, List, [], ◌∷◌}
use attendance.Prelude.Int.{ℤ}
use attendance.Prelude.Pytext.{Text}
use attendance.Prelude.Errors.{Result, ok, err}
use attendance.Attendance.Duplicates.{Reply}
use attendance.Chat.Tables.{ConversationType, Event, Chat, User, Company}
use attendance.Chat.Members.{
  create_conversation, update_conversation, add_members, remove_member, join_channel, set_pinned,
}
use attendance.Chat.Messages.{send_message, edit_message, delete_message, toggle_reaction}
use attendance.Chat.Reading.{mark_read, notify_typing}
use attendance.Chat.Calls.{Claim, Reason, relay_call, call_end}

-- The operations of the service that write, with their arguments. A call's end carries what the
-- claim of its line of history is decided by.
pub data Call : Type 0 where
  create : ConversationType → Option ℕ → List ℕ → Option Text → Option Text → Call
  update : ℕ → Option Text → Option Text → Option Bool → Call
  add : ℕ → List ℕ → Call
  remove : ℕ → ℕ → Call
  join : ℕ → Call
  pin : ℕ → Bool → Call
  send : ℕ → Option Text → Option ℕ → List ℕ → List String → Call
  edit : ℕ → Text → Call
  delete : ℕ → Call
  react : ℕ → Text → Call
  read : ℕ → ℤ → Call
  typing : ℕ → Call
  relay : ℕ → Event → Call
  hang_up : Reply Bool → ℕ → ℕ → String → Reason → Option ℕ → List Claim → Call

abbrev pub second_of {ℓ} : {A : Type ℓ} → Result (A × Chat) → Result Chat
second_of (err e) = err e
second_of (ok (a, chat)) = ok chat

abbrev pub first_of {ℓ} : {A : Type ℓ} → Result (Chat × A) → Result Chat
first_of (err e) = err e
first_of (ok (chat, a)) = ok chat

unfoldable pub run : Company → ℕ → ℕ → User → Call → Chat → Result Chat
run company now org_id user (create kind other ids name topic) chat =
    second_of (create_conversation company org_id user kind other ids name topic chat chat)
run company now org_id user (update c name topic archived) chat =
    second_of (update_conversation org_id user c name topic archived chat)
run company now org_id user (add c ids) chat =
    second_of (add_members company now org_id user c ids chat)
run company now org_id user (remove c target) chat = remove_member now org_id user c target chat
run company now org_id user (join c) chat = second_of (join_channel now org_id user c chat)
run company now org_id user (pin c pinned) chat = second_of (set_pinned org_id user c pinned chat)
run company now org_id user (send c body reply_to mentions urls) chat =
    second_of (send_message now org_id user c body reply_to mentions urls chat)
run company now org_id user (edit n body) chat = edit_message now org_id user n body chat
run company now org_id user (delete n) chat = delete_message now org_id user n chat
run company now org_id user (react n emoji) chat = toggle_reaction org_id user n emoji chat
run company now org_id user (read c n) chat = mark_read org_id user c n chat
run company now org_id user (typing c) chat = notify_typing org_id user c chat
run company now org_id user (relay c event) chat = second_of (relay_call org_id user c event chat)
run company now org_id user (hang_up redis clock c call_id reason duration seen) chat =
    first_of (call_end redis now clock org_id user c call_id reason duration chat seen)

-- A call that raises leaves the tables as they were.
abbrev pub settle : Chat → Result Chat → Chat
settle chat (err e) = chat
settle chat (ok chat') = chat'

-- A request: who calls, on behalf of which company, when, and what.
pub record Request : Type 0 where
  pub now : ℕ
  pub org_id : ℕ
  pub user : User
  pub call : Call

unfoldable pub serve : Company → List Request → Chat → Chat
unfolding run
serve company [] chat = chat
serve company (r ∷ rs) chat =
    serve company rs (settle chat (run company r.now r.org_id r.user r.call chat))

abbrev pub empty_chat : Chat
empty_chat = record {
  conversations = [];
  members = [];
  messages = [];
  attachments = [];
  mentions = [];
  reactions = [];
  next_conversation = 1;
  next_message = 1;
  emitted = [];
  deleted_files = [];
}
