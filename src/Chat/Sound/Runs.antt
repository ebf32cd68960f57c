-- ===== src/Chat/Sound/Runs.antt =====
-- Any sequence of calls leaves the tables of the chat sound.
use attendance.Prelude.{
  Bool, true, false, some, String, ℕ, suc, Option, none, List, [], ◌∷◌, ◌≡◌, length, ◌==◌,
}
use attendance.Prelude.Errors.{◌>>=◌, Result, ok, err, Holds}
use attendance.Chat.Calls.{
  post_if, Claim, Reason, record_end, call_end, relay_call, call_history_text, claim_call_history,
}
use attendance.Prelude.Int.{ℤ}
use attendance.Attendance.Duplicates.{Reply}
use attendance.Chat.Tables.{
  Conversation, ConversationMember, Notice, call_over, Chat, User, Company,
}
use attendance.Chat.Access.{get_conversation_for_user}
use attendance.Chat.Messages.{history_of}
use attendance.Chat.Messages.Paging.{walk_back, walk_back-history}
use attendance.Chat.Messages.Cuts.{select-IsAscending}
use attendance.Chat.Steps.{
  Call, create, update, add, remove, join, pin, send, edit, delete, react, read, typing, relay,
  hang_up, run, settle, Request, serve, empty_chat,
}
use attendance.Chat.Sound.{IsSound, post_system_message-IsSound}
use attendance.Chat.Sound.Writes.{
  Both, Holds-second, Holds-first, send_message-IsSound, edit_message-IsSound,
  delete_message-IsSound, toggle_reaction-IsSound, mark_read-IsSound, notify_typing-IsSound,
  set_pinned-IsSound, relay_call-IsSound, update_conversation-IsSound, remove_member-IsSound,
}
use attendance.Chat.Sound.Joins.{
  add_members-IsSound, join_channel-IsSound, create_conversation-IsSound,
}

module _ (now org_id : ℕ) (user : User) (chat : Chat) (h : IsSound chat) where
  call_end-IsSound :
      (redis : Reply Bool) (clock c : ℕ) (call_id : String) (reason : Reason) (duration : Option ℕ)
      (seen : List Claim)
      → Holds
          (λ p. IsSound p.0)
          (call_end redis now clock org_id user c call_id reason duration chat seen)
  unfolding call_end
  call_end-IsSound redis clock c call_id reason duration seen =
      after (relay_call org_id user c call_over chat)
        (relay_call-IsSound now org_id user chat h c call_over)
    where
      posted :
          (conv : Conversation) (chat' : Chat) (what : Notice) (b : Bool)
          → IsSound chat'
          → IsSound (post_if b now conv what chat')
      posted conv chat' what true k = post_system_message-IsSound now conv what chat' k
      posted conv chat' what false k = k

      recorded :
          (conv : Conversation) (chat' : Chat) (what : Option Notice)
          → IsSound chat'
          → IsSound (record_end redis now clock call_id conv what chat' seen).0
      recorded conv chat' none k = k
      recorded conv chat' (some what) k =
          posted conv chat' what (claim_call_history redis call_id clock seen).0 k

      after :
          (r : Result (Conversation × Chat))
          → Holds Both r
          → Holds
              (λ p. IsSound p.0)
              (r >>= λ p. ok (
                record_end redis now clock call_id p.0
                  (call_history_text reason duration)
                  p.1
                  seen))
      after (err e) k = tt
      after (ok (conv, chat')) k = recorded conv chat' (call_history_text reason duration) k

  run-IsSound :
      (company : Company) (call : Call) → Holds IsSound (run company now org_id user call chat)
  unfolding run
  run-IsSound company (create kind other ids name topic) =
      Holds-second _
        (create_conversation-IsSound chat h company org_id user kind other ids name topic)
  run-IsSound company (update c name topic archived) =
      Holds-second _ (update_conversation-IsSound now org_id user chat h c name topic archived)
  run-IsSound company (add c ids) =
      Holds-second _ (add_members-IsSound chat h company now org_id user c ids)
  run-IsSound company (remove c target) = remove_member-IsSound now org_id user chat h c target
  run-IsSound company (join c) = Holds-second _ (join_channel-IsSound chat h now org_id user c)
  run-IsSound company (pin c pinned) =
      Holds-second _ (set_pinned-IsSound now org_id user chat h c pinned)
  run-IsSound company (send c body reply_to mentions urls) =
      Holds-second _ (send_message-IsSound now org_id user chat h c body reply_to mentions urls)
  run-IsSound company (edit n body) = edit_message-IsSound now org_id user chat h n body
  run-IsSound company (delete n) = delete_message-IsSound now org_id user chat h n
  run-IsSound company (react n emoji) = toggle_reaction-IsSound now org_id user chat h n emoji
  run-IsSound company (read c n) = mark_read-IsSound now org_id user chat h c n
  run-IsSound company (typing c) = notify_typing-IsSound now org_id user chat h c
  run-IsSound company (relay c event) =
      Holds-second _ (relay_call-IsSound now org_id user chat h c event)
  run-IsSound company (hang_up redis clock c call_id reason duration seen) =
      Holds-first _ (call_end-IsSound redis clock c call_id reason duration seen)

settle-IsSound :
    (chat : Chat) (r : Result Chat) → IsSound chat → Holds IsSound r → IsSound (settle chat r)
settle-IsSound chat (err e) h k = h
settle-IsSound chat (ok chat') h k = k

serve-IsSound :
    (company : Company) (rs : List Request) (chat : Chat)
    → IsSound chat
    → IsSound (serve company rs chat)
unfolding serve
serve-IsSound company [] chat h = h
serve-IsSound company (r ∷ rs) chat h =
    serve-IsSound company rs _
      (settle-IsSound chat _ h (run-IsSound r.now r.org_id r.user chat h company r.call))

-- Whatever sequence of calls users make on an empty chat, refused calls included: messages stand
-- in the order of their ids and below the next id, no user has two memberships in a conversation,
-- memberships and conversations have ids below the next one, and no two direct conversations of a
-- company have the same key.
pub served-IsSound : (company : Company) (rs : List Request) → IsSound (serve company rs empty_chat)
served-IsSound company rs =
    serve-IsSound company rs empty_chat
      (record { ordered = tt; below = tt; once = tt; placed = tt; known = tt; one_direct = tt })

-- In any chat that calls have built up from an empty one, whoever has access to a conversation
-- gets exactly its whole history, in order and without a message twice, by paging back from the
-- newest message with any page size: after at most one page more than there are messages the walk
-- ends.
pub served-walk_back :
    (company : Company) (rs : List Request) (org_id user_id conversation_id : ℕ) (limit : ℤ)
    (access : Conversation × ConversationMember)
    → get_conversation_for_user org_id user_id conversation_id (serve company rs empty_chat)
      ≡ ok access
    → walk_back
        (suc (length (history_of conversation_id (serve company rs empty_chat))))
        org_id
        user_id
        conversation_id
        none
        limit
        (serve company rs empty_chat)
      ≡ ok (history_of conversation_id (serve company rs empty_chat))
served-walk_back company rs org_id user_id conversation_id limit access enters =
    let chat = serve company rs empty_chat in
    walk_back-history org_id user_id conversation_id limit chat access enters (
      select-IsAscending (λ m. m.conversation_id == conversation_id) chat.messages
        (served-IsSound company rs).ordered)
