-- ===== src/Chat/Sound/Writes.antt =====
-- The calls that change messages, marks and conversations keep the tables of the chat sound.
use attendance.Prelude.{
  Bool, true, false, [], ◌∷◌, if◌then◌else◌, ◌==◌, ◌&&◌, ◌||◌, ℕ, not, Option, some, List, refl,
  String, max, take, same_id, is_empty, select,
}
use attendance.Prelude.Int.{ℤ}
use attendance.Chat.Reading.{mark_read, notify_typing, emit_unless_empty, write_mark, raise_mark}
use attendance.Chat.Calls.{relay_call}
use attendance.Chat.Tables.{left, Event, Conversation, Chat, User}
use attendance.Prelude.Pytext.{Text, strip}
use attendance.Prelude.Errors.{
  Result, ok, err, validation, permission_denied, Holds, Holds-bind, Holds-guard, Holds-if,
  or_raise, not_found,
}
use attendance.Chat.Access.{
  get_conversation_for_user, is_live, Detail, conversation_detail, is_manager, is_direct,
  require_role, get_membership, member_ids,
}
use attendance.Chat.Members.{
  with_detail, update_conversation, set_pinned, remove_member, new_name, archive, new_topic,
}
use attendance.Chat.Messages.{
  write_message, send_message, new_message, valid_reply, edit_message, delete_message,
  get_message_for_user, toggle_reaction, clean_body, body_of, max_body_len, bury,
}
use attendance.Chat.Steps.{second_of, first_of}
use attendance.Chat.Sound.{
  IsSound, add_message-IsSound, change_message-IsSound, change_membership-IsSound,
  change_conversation-IsSound, Message, post_system_message-IsSound, remove_row-IsSound,
  ConversationMember,
}

abbrev pub Both : {A : Type 0} → A × Chat → Type 0
Both p = IsSound p.1

pub Holds-detail :
    (org_id user_id c : ℕ) (chat : Chat)
    → IsSound chat
    → Holds Both (with_detail org_id user_id c chat)
Holds-detail org_id user_id c chat h =
    Holds-bind (Both {A = Detail}) (conversation_detail org_id user_id c chat) _ (λ d _. h)

pub Holds-second : {A : Type 0} (r : Result (A × Chat)) → Holds Both r → Holds IsSound (second_of r)
Holds-second (err e) h = tt
Holds-second (ok (a, chat)) h = h

pub Holds-first :
    {A : Type 0} (r : Result (Chat × A)) → Holds (λ p. IsSound p.0) r → Holds IsSound (first_of r)
Holds-first (err e) h = tt
Holds-first (ok (chat, a)) h = h

module _ (now org_id : ℕ) (user : User) (chat : Chat) (h : IsSound chat) where
  pub write_message-IsSound :
      (conv : Conversation) (clean : Text) (reply_to : Option ℕ) (mentions : List ℕ)
      (urls : List String)
      → IsSound (write_message now conv user.id clean reply_to mentions urls chat).1
  write_message-IsSound conv clean reply_to mentions urls =
      let m =
        new_message chat.next_message conv user.id clean
          (valid_reply conv.id reply_to chat.messages) in
      change_membership-IsSound conv.id user.id
        (λ r. record r { last_read_message_id = max r.last_read_message_id m.id }) (λ r. refl)
        (λ r. refl)
        (change_conversation-IsSound conv.id
          (λ c. record c { last_message_at = some now; is_archived = false })
          (λ c. (refl, refl, refl)) (λ c. refl) (add_message-IsSound m refl h))

  pub send_message-IsSound :
      (c : ℕ) (body : Option Text) (reply_to : Option ℕ) (mentions : List ℕ) (urls : List String)
      → Holds Both (send_message now org_id user c body reply_to mentions urls chat)
  unfolding send_message
  send_message-IsSound c body reply_to mentions urls =
      Holds-bind (Both {A = Message}) (get_conversation_for_user org_id user.id c chat) _ (λ a _.
        Holds-guard (Both {A = Message}) (is_empty (clean_body body) && is_empty urls) validation _
          (λ _. write_message-IsSound a.0 (clean_body body) reply_to mentions urls))

  pub edit_message-IsSound :
      (n : ℕ) (body : Text) → Holds IsSound (edit_message now org_id user n body chat)
  unfolding edit_message
  edit_message-IsSound n body =
      Holds-bind IsSound (get_message_for_user org_id user.id n chat) _ (λ a _.
        Holds-guard IsSound (not (is_live a.0)) validation _ (λ _.
          Holds-guard IsSound (not (same_id a.0.sender_id (some user.id))) permission_denied _ (λ _.
            Holds-guard IsSound (is_empty (strip body)) validation _ (λ _.
              change_message-IsSound a.0.id
                (λ m. record m {
                  body = body_of (take max_body_len (strip body));
                  edited_at = some now;
                })
                (λ m. refl) h))))

  pub delete_message-IsSound : (n : ℕ) → Holds IsSound (delete_message now org_id user n chat)
  unfolding delete_message
  delete_message-IsSound n =
      Holds-bind IsSound (get_message_for_user org_id user.id n chat) _ (λ a _.
        Holds-if IsSound (not (is_live a.0)) _ _ h (
          Holds-guard IsSound
            (not (same_id a.0.sender_id (some user.id))
              && not (is_manager a.2.role || user.is_super))
            permission_denied _ (λ _. change_message-IsSound a.0.id (bury now) (λ m. refl) h)))

  pub toggle_reaction-IsSound :
      (n : ℕ) (emoji : Text) → Holds IsSound (toggle_reaction org_id user n emoji chat)
  unfolding toggle_reaction
  toggle_reaction-IsSound n emoji =
      Holds-bind IsSound (get_message_for_user org_id user.id n chat) _ (λ a _.
        Holds-guard IsSound (not (is_live a.0)) validation _
          (λ _. Holds-guard IsSound (is_empty (take 32 (strip emoji))) validation _ (λ _. h)))

  pub mark_read-IsSound : (c : ℕ) (n : ℤ) → Holds IsSound (mark_read org_id user c n chat)
  unfolding mark_read
  mark_read-IsSound c n =
      Holds-bind IsSound (get_conversation_for_user org_id user.id c chat) _
        (λ a _. keeps a.1 (raise_mark a.1.last_read_message_id n == a.1.last_read_message_id))
    where
      keeps :
          (m : ConversationMember) (b : Bool)
          → IsSound (
              if b
              then chat
              else write_mark org_id user c (raise_mark m.last_read_message_id n) chat)
      keeps m true = h
      keeps m false =
          change_membership-IsSound c user.id
            (λ r. record r { last_read_message_id = raise_mark m.last_read_message_id n })
            (λ r. refl) (λ r. refl) h

  pub notify_typing-IsSound : (c : ℕ) → Holds IsSound (notify_typing org_id user c chat)
  unfolding notify_typing
  notify_typing-IsSound c =
      Holds-bind IsSound (get_conversation_for_user org_id user.id c chat) _
        (λ a _. quiet (select (λ i. not (i == user.id)) (member_ids c chat)))
    where
      quiet : (ids : List ℕ) → IsSound (emit_unless_empty org_id c ids chat)
      quiet [] = h
      quiet (i ∷ is) = h

  pub set_pinned-IsSound :
      (c : ℕ) (pinned : Bool) → Holds Both (set_pinned org_id user c pinned chat)
  unfolding set_pinned
  set_pinned-IsSound c pinned =
      Holds-bind (Both {A = Detail}) (get_conversation_for_user org_id user.id c chat) _ (λ a _.
        Holds-detail org_id user.id c _ (
          change_membership-IsSound c user.id (λ m. record m { is_pinned = pinned }) (λ r. refl)
            (λ r. refl) h))

  pub relay_call-IsSound :
      (c : ℕ) (event : Event) → Holds Both (relay_call org_id user c event chat)
  unfolding relay_call
  relay_call-IsSound c event =
      Holds-bind (Both {A = Conversation}) (get_conversation_for_user org_id user.id c chat) _
        (λ a _.
          Holds-guard (Both {A = Conversation}) (not (is_direct a.0.kind)) validation _ (λ _. h))

  pub update_conversation-IsSound :
      (c : ℕ) (name topic : Option Text) (archived : Option Bool)
      → Holds Both (update_conversation org_id user c name topic archived chat)
  unfolding update_conversation
  update_conversation-IsSound c name topic archived =
      Holds-bind (Both {A = Detail}) (get_conversation_for_user org_id user.id c chat) _ (λ a _.
        Holds-guard (Both {A = Detail}) (is_direct a.0.kind) validation _ (λ _.
          Holds-bind (Both {A = Detail}) (require_role a.1 user) _ (λ _ _.
            Holds-bind (Both {A = Detail}) (new_name name a.0) _ (λ named _.
              Holds-detail org_id user.id a.0.id _ (
                change_conversation-IsSound a.0.id
                  (λ x. record x {
                    name = (archive archived (new_topic topic named)).name;
                    topic = (archive archived (new_topic topic named)).topic;
                    is_archived = (archive archived (new_topic topic named)).is_archived;
                  })
                  (λ x. (refl, refl, refl)) (λ x. refl) h)))))

  pub remove_member-IsSound :
      (c target : ℕ) → Holds IsSound (remove_member now org_id user c target chat)
  unfolding remove_member
  remove_member-IsSound c target =
      Holds-bind IsSound (get_conversation_for_user org_id user.id c chat) _ (λ a _.
        Holds-guard IsSound (is_direct a.0.kind) validation _ (λ _.
          Holds-bind IsSound (if target == user.id then ok tt else require_role a.1 user) _ (λ _ _.
            Holds-bind IsSound (or_raise (get_membership a.0.id target chat) not_found) _ (λ _ _.
              post_system_message-IsSound now a.0 (left target) _
                (remove_row-IsSound a.0.id target h)))))
