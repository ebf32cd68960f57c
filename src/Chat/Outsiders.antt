-- ===== src/Chat/Outsiders.antt =====
-- What a user meets in a conversation without being a member of it.
use attendance.Prelude.{
  ℕ, String, Bool, Option, none, some, List, ◌≡◌, refl, ap, ◌∙◌, first_where, ◌==◌, ◌&&◌,
}
use attendance.Prelude.Int.{ℤ}
use attendance.Prelude.Pytext.{Text}
use attendance.Prelude.Errors.{ok, err, not_found, or_raise, ◌>>=◌, Result}
use attendance.Attendance.Duplicates.{Reply}
use attendance.Chat.Tables.{Conversation, Message, Chat, User, Company, ConversationMember}
use attendance.Chat.Access.{get_membership, get_conversation_for_user, is_in_company}
use attendance.Chat.Members.{update_conversation, add_members, remove_member, set_pinned}
use attendance.Chat.Messages.{
  send_message, get_message_for_user, edit_message, delete_message, toggle_reaction, list_messages,
}
use attendance.Chat.Reading.{mark_read, notify_typing}
use attendance.Chat.Calls.{Claim, Reason, call_end, relay_call}

module _ (org_id : ℕ) (user : User) (conversation_id : ℕ) (chat : Chat) where
  abbrev entered :
      Conversation → Option ConversationMember → Result (Conversation × ConversationMember)
  entered conv o = do membership ← or_raise o not_found; ok (conv, membership)

  no_conversation :
      (o : Option Conversation)
      → get_membership conversation_id user.id chat ≡ none
      → (or_raise o not_found >>= λ conv.
          entered conv (get_membership conversation_id user.id chat))
        ≡ err not_found
  no_conversation none outside = refl
  no_conversation (some c) outside = ap (entered c) outside

  no_access :
      get_membership conversation_id user.id chat ≡ none
      → get_conversation_for_user org_id user.id conversation_id chat ≡ err not_found
  unfolding get_conversation_for_user
  no_access outside =
      no_conversation (first_where (is_in_company org_id conversation_id) chat.conversations)
        outside

  -- Whoever is not a member of a conversation, with whatever role elsewhere, gets the error for a
  -- missing conversation from sending, listing, updating, adding, removing, pinning, reading,
  -- typing and ending a call there.
  pub outsider-not_found :
      (company : Company) (now clock : ℕ) (redis : Reply Bool) (seen : List Claim)
      → get_membership conversation_id user.id chat ≡ none
      → ((body : Option Text) (reply_to : Option ℕ) (mentions : List ℕ) (urls : List String)
          → send_message now org_id user conversation_id body reply_to mentions urls chat
            ≡ err not_found)
        × ((before : Option ℕ) (limit : ℤ)
            → list_messages org_id user.id conversation_id before limit chat ≡ err not_found)
        × ((name topic : Option Text) (archived : Option Bool)
            → update_conversation org_id user conversation_id name topic archived chat
              ≡ err not_found)
        × ((ids : List ℕ)
            → add_members company now org_id user conversation_id ids chat ≡ err not_found)
        × ((target : ℕ) → remove_member now org_id user conversation_id target chat ≡ err not_found)
        × ((pinned : Bool) → set_pinned org_id user conversation_id pinned chat ≡ err not_found)
        × ((n : ℤ) → mark_read org_id user conversation_id n chat ≡ err not_found)
        × (notify_typing org_id user conversation_id chat ≡ err not_found)
        × ((call_id : String) (reason : Reason) (duration : Option ℕ)
            → call_end redis now clock org_id user conversation_id call_id reason duration chat seen
              ≡ err not_found)
  unfolding send_message list_messages update_conversation add_members remove_member set_pinned
      mark_read notify_typing call_end relay_call
  outsider-not_found company now clock redis seen outside =
      let e = no_access outside in
      (
        λ body reply_to mentions urls. rw e refl,
        λ before limit. rw e refl,
        λ name topic archived. rw e refl,
        λ ids. rw e refl,
        λ target. rw e refl,
        λ pinned. rw e refl,
        λ n. rw e refl,
        rw e refl,
        λ call_id reason duration. rw e refl,
      )

  abbrev with_message :
      Message
      → Result (Conversation × ConversationMember)
      → Result (Message × Conversation × ConversationMember)
  with_message msg access = do (conv, membership) ← access; ok (msg, conv, membership)

  no_message :
      (message_id : ℕ) (m : Message)
      → get_membership conversation_id user.id chat ≡ none
      → first_where (λ x. x.id == message_id && x.organization_id == org_id) chat.messages ≡ some m
      → m.conversation_id ≡ conversation_id
      → get_message_for_user org_id user.id message_id chat ≡ err not_found
  unfolding get_message_for_user
  no_message message_id m outside found same =
      ap
        (λ o. or_raise o not_found >>= λ msg.
          with_message msg (get_conversation_for_user org_id user.id msg.conversation_id chat))
        found
      ∙ ap (λ c. with_message m (get_conversation_for_user org_id user.id c chat)) same
      ∙ ap (with_message m) (no_access outside)

  -- Whoever is not a member of the conversation of a message gets the error for a missing message
  -- from editing it, deleting it and reacting to it.
  pub outsider-message_not_found :
      (now message_id : ℕ) (m : Message)
      → get_membership conversation_id user.id chat ≡ none
      → first_where (λ x. x.id == message_id && x.organization_id == org_id) chat.messages ≡ some m
      → m.conversation_id ≡ conversation_id
      → ((body : Text) → edit_message now org_id user message_id body chat ≡ err not_found)
        × (delete_message now org_id user message_id chat ≡ err not_found)
        × ((emoji : Text) → toggle_reaction org_id user message_id emoji chat ≡ err not_found)
  unfolding edit_message delete_message toggle_reaction
  outsider-message_not_found now message_id m outside found same =
      let e = no_message message_id m outside found same in
      (λ body. rw e refl, rw e refl, λ emoji. rw e refl)
