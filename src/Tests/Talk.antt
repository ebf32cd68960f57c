-- ===== src/Tests/Talk.antt =====
-- A group of two users with two messages, and their direct conversation.
use attendance.Prelude.{
  if◌then◌else◌, ℕ, suc, true, false, none, some, List, [], ◌∷◌, ◌≡◌, refl, length, arith, ap,
}
use attendance.Prelude.Int.{pos}
use attendance.Prelude.Errors.{validation, ok, err, not_found}
use attendance.Attendance.Duplicates.{disabled}
use attendance.Prelude.Pytext.{strip}
use attendance.Tenant.{descendants_subquery}
use attendance.Chat.Messages.{
  write_message, emit_updated, toggle, has_reacted, new_message, send_message, get_message_for_user,
  delete_message, toggle_reaction, history_of, write_tombstone,
}
use attendance.Chat.Access.{
  emit, get_conversation_for_user, require_company_users, conversation_unread, conversation_detail,
  is_company_user,
}
use attendance.Chat.Tables.{
  call_over, Conversation, ConversationMember, direct, group, Role, owner, Message, Chat, User,
  Company,
}
use attendance.Chat.Members.{
  new_conversation, new_member, get_or_create_direct, direct_key, create_conversation,
}
use attendance.Chat.Messages.Paging.{walk_back}
use attendance.Chat.Messages.Toggling.{toggle_reaction-flips}
use attendance.Chat.Messages.Rights.{MayDelete, Buried, delete_message-Buried}
use attendance.Chat.Members.Unique.{get_or_create_direct-shared}
use attendance.Chat.Reading.{notify_typing}
use attendance.Chat.Reading.Unread.{Counted, send_message-Counted}
use attendance.Chat.Calls.{Claim, claim_call_history, call_end, relay_call, hangup}
use attendance.Chat.Calls.Claims.{call_end-messages_once}
use attendance.Chat.Steps.{Request, create, send, serve, run, empty_chat}
use attendance.Chat.Outsiders.{outsider-not_found}
use attendance.Chat.Sound.{IsSound}
use attendance.Chat.Sound.Runs.{served-IsSound, served-walk_back}
use attendance.Tests.Data.{organizations}

abbrev someone : ℕ → User
someone n = record { id = n; is_super = false }

abbrev staff : Company
staff = record {
  grants =
      record { user_id = 1; organization_id = 1 }
      ∷ record { user_id = 2; organization_id = 1 }
      ∷ [];
  organizations = organizations;
}

abbrev team_room : Conversation
team_room = new_conversation 1 1 group 1

abbrev private_room : Conversation
private_room = record (new_conversation 2 1 direct 1) { direct_key = some (direct_key 1 2) }

abbrev talk : Chat
talk = record {
  conversations = team_room ∷ private_room ∷ [];
  members =
      new_member 1 owner 1
      ∷ new_member 1 Role.member 2
      ∷ new_member 2 Role.member 1
      ∷ new_member 2 Role.member 2
      ∷ [];
  messages =
      new_message 1 team_room 1 (72 ∷ []) none ∷ new_message 2 team_room 1 (73 ∷ []) none ∷ [];
  attachments = [];
  mentions = [];
  reactions = [];
  next_conversation = 3;
  next_message = 3;
  emitted = [];
  deleted_files = [];
}

outsider-not_found_example : notify_typing 1 (someone 3) 1 talk ≡ err not_found
outsider-not_found_example = (outsider-not_found 1 (someone 3) 1 talk staff 0 0 disabled [] refl).7

-- What a third message leaves.
abbrev answered : Message × Chat
answered = write_message 9 team_room 2 (74 ∷ []) none [] [] talk

answer : send_message 9 1 (someone 2) 1 (some (74 ∷ [])) none [] [] talk ≡ ok answered
unfolding send_message get_conversation_for_user strip
answer = refl

send_message-Counted_example : Counted 1 2 talk answered.1
send_message-Counted_example =
    send_message-Counted 9 1 (someone 2) 1 (some (74 ∷ [])) none [] [] talk answered.1 answered.0
      (omega arith, (omega arith, tt)) answer

abbrev requests : List Request
requests =
    record { now = 1; org_id = 1; user = someone 1; call = create direct (some 2) [] none none }
    ∷ record { now = 2; org_id = 1; user = someone 1; call = send 1 (some (72 ∷ [])) none [] [] }
    ∷ record { now = 3; org_id = 1; user = someone 2; call = send 1 (some (73 ∷ [])) none [] [] }
    ∷ record { now = 4; org_id = 1; user = someone 3; call = send 1 (some (74 ∷ [])) none [] [] }
    ∷ []

served-IsSound_example : IsSound (serve staff requests empty_chat)
served-IsSound_example = served-IsSound staff requests

abbrev first_seat : Conversation × ConversationMember
first_seat = (
  record (new_conversation 1 1 direct 1) {
    direct_key = some (direct_key 1 2);
    last_message_at = some 3;
  },
  record (new_member 1 Role.member 1) { last_read_message_id = 1 },
)

entered : get_conversation_for_user 1 1 1 (serve staff requests empty_chat) ≡ ok first_seat
unfolding serve run create_conversation get_or_create_direct require_company_users
    conversation_detail conversation_unread send_message get_conversation_for_user strip
    descendants_subquery
entered = refl

served-walk_back_example :
    walk_back
      (suc (length (history_of 1 (serve staff requests empty_chat))))
      1
      1
      1
      none
      (pos 1)
      (serve staff requests empty_chat)
    ≡ ok (history_of 1 (serve staff requests empty_chat))
served-walk_back_example = served-walk_back staff requests 1 1 1 (pos 1) first_seat entered

asked : get_or_create_direct staff 1 1 2 talk talk ≡ ok (private_room, talk)
unfolding get_or_create_direct require_company_users descendants_subquery
asked = refl

get_or_create_direct-shared_example :
    get_or_create_direct staff 1 2 1 talk talk
    ≡ (if is_company_user staff 1 1 then ok (private_room, talk) else err validation)
get_or_create_direct-shared_example =
    get_or_create_direct-shared staff 1 1 2 talk talk private_room talk asked talk

-- The sender of the first message deletes it.
abbrev said : Message
said = new_message 1 team_room 1 (72 ∷ []) none

deleted : delete_message 5 1 (someone 1) 1 talk ≡ ok (write_tombstone 5 team_room said talk)
unfolding delete_message get_message_for_user get_conversation_for_user
deleted = refl

delete_message-Buried_example :
    MayDelete (someone 1) said talk × Buried 5 1 1 said talk (write_tombstone 5 team_room said talk)
delete_message-Buried_example =
    delete_message-Buried 5 1 (someone 1) 1 talk (write_tombstone 5 team_room said talk) said refl
      refl deleted

abbrev liked : Chat
liked = emit_updated team_room (record talk { reactions = toggle 1 2 (128_077 ∷ []) [] })

like : toggle_reaction 1 (someone 2) 1 (128_077 ∷ []) talk ≡ ok liked
unfolding toggle_reaction get_message_for_user get_conversation_for_user strip
like = refl

toggle_reaction-flips_example : has_reacted 1 2 (128_077 ∷ []) liked.reactions ≡ true
unfolding strip
toggle_reaction-flips_example =
    toggle_reaction-flips 1 (someone 2) 1 (128_077 ∷ []) talk liked like 1 2 (128_077 ∷ [])

abbrev ended : Chat × List Claim
ended = (emit 1 call_over 2 (1 ∷ []) talk, record { call_id = "c"; claimed_at = 10 } ∷ [])

ends_again :
    call_end disabled 5 12 1
      (someone 2)
      2
      "c"
      hangup
      none
      talk
      (record { call_id = "c"; claimed_at = 10 } ∷ [])
    ≡ ok ended
unfolding call_end relay_call claim_call_history get_conversation_for_user
ends_again = refl

claimed :
    claim_call_history disabled "c" 10 [] ≡ (true, record { call_id = "c"; claimed_at = 10 } ∷ [])
unfolding claim_call_history
claimed = refl

call_end-messages_once_example : ended.0.messages ≡ talk.messages
unfolding claim_call_history
call_end-messages_once_example =
    call_end-messages_once 5 10 12 1 (someone 2) 2 "c" hangup none talk ended.0 [] ended.1
      (ap (λ p. p.0) claimed) (omega arith) ends_again
