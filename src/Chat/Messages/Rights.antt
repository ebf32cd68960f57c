-- ===== src/Chat/Messages/Rights.antt =====
-- Who may delete a message, and what is left of it.
use attendance.Prelude.{
  ==_refl, ℕ, Bool, true, false, Option, none, some, List, [], ◌∷◌, ◌≡◌, refl, sym, ap, ◌∙◌, ◌==◌,
  ◌&&◌, ◌||◌, not, any, select, first_where, same_id, arith, Bool-cases, inl, inr, ◌⊎◌,
  if◌then◌else◌, update_where, first_where-update,
}
use mathlib.Core.Path.{subst}
use mathlib.Core.Option.{some-injective}
use attendance.Attendance.Queries.Keyed.{first_where-true}
use attendance.Prelude.Pytext.{Text}
use attendance.Prelude.Errors.{
  permission_denied, Result, ok, not_found, validation, ◌>>=◌, ◌>>◌, raise_if, or_raise, >>=-eq-ok,
  raise_if-eq-ok, or_raise-eq-ok, ok-injective,
}
use attendance.Chat.Tables.{
  Conversation, ConversationMember, Message, MessageAttachment, Chat, User,
}
use attendance.Chat.Access.{
  is_live, is_manager, get_membership, get_conversation, get_conversation_for_user,
}
use attendance.Chat.Messages.{
  get_message_for_user, edit_message, delete_message, write_tombstone, toggle_reaction, bury,
}

abbrev is_message : ℕ → ℕ → Message → Bool
is_message org_id n m = m.id == n && m.organization_id == org_id

-- The message of a company by its id.
abbrev pub find_message : ℕ → ℕ → Chat → Option Message
find_message org_id n chat = first_where (is_message org_id n) chat.messages

-- Who deletes a message is its sender, or a member who manages the conversation, or a super
-- administrator who is a member.
abbrev pub MayDelete : User → Message → Chat → Type 0
MayDelete user msg chat =
    (mine : ConversationMember) × (get_membership msg.conversation_id user.id chat ≡ some mine)
    × ((same_id msg.sender_id (some user.id) ≡ true)
        ⊎ (is_manager mine.role || user.is_super ≡ true))

-- A deleted message is a tombstone without text, with no attachment, for good: nobody edits it or
-- reacts to it, and to delete it again changes nothing. The other messages are as they were.
pub record Buried (now org_id n : ℕ) (msg : Message) (before after : Chat) : Type 0 where
  pub tombstone :
      find_message org_id n after ≡ some (record msg { deleted_at = some now; body = none })
  pub attachments : any (λ a. a.message_id == n) after.attachments ≡ false
  pub others :
      (k : ℕ) → (k == n) ≡ false → find_message org_id k after ≡ find_message org_id k before
  pub not_edited :
      (t : ℕ) (by : User) (body : Text) (c : Chat)
      → ¬ (edit_message t org_id by n body after ≡ ok c)
  pub not_reacted :
      (by : User) (emoji : Text) (c : Chat) → ¬ (toggle_reaction org_id by n emoji after ≡ ok c)
  pub deleted_once :
      (t : ℕ) (by : User) (c : Chat) → delete_message t org_id by n after ≡ ok c → c ≡ after

got-seat :
    (org_id u c : ℕ) (chat : Chat) (seat : Conversation × ConversationMember)
    → get_conversation_for_user org_id u c chat ≡ ok seat
    → get_membership c u chat ≡ some seat.1
unfolding get_conversation_for_user
got-seat org_id u c chat seat h =
    let (conv, there, h1) = >>=-eq-ok (get_conversation org_id c chat) _ h in
    let (mine, member, h2) = >>=-eq-ok (or_raise (get_membership c u chat) not_found) _ h1 in
    let seats : (conv, mine) ≡ seat = ok-injective h2 in
    or_raise-eq-ok (get_membership c u chat) not_found member ∙ ap (λ p. some p.1) seats

got-message :
    (org_id u n : ℕ) (chat : Chat) (got : Message × Conversation × ConversationMember)
    → get_message_for_user org_id u n chat ≡ ok got
    → (find_message org_id n chat ≡ some got.0)
      × (get_membership got.0.conversation_id u chat ≡ some got.2)
unfolding get_message_for_user
got-message org_id u n chat got h =
    let (m, found, h1) = >>=-eq-ok (or_raise (find_message org_id n chat) not_found) _ h in
    let (seat, access, h2) =
      >>=-eq-ok (get_conversation_for_user org_id u m.conversation_id chat) _ h1 in
    let member = got-seat org_id u m.conversation_id chat seat access in
    let same : (m, seat.0, seat.1) ≡ got = ok-injective h2 in
    (
      or_raise-eq-ok (find_message org_id n chat) not_found found ∙ ap (λ p. some p.0) same,
      ap (λ p. get_membership p.0.conversation_id u chat) (sym same)
          ∙ member
          ∙ ap (λ p. some p.2) same,
    )

-- A call that asks for a live message first never succeeds on one that is not.
dead-refused :
    {B : Type 0} (org_id u n : ℕ) (chat : Chat) (t : Message)
    (next : Message × Conversation × ConversationMember → Result B) {b : B}
    → find_message org_id n chat ≡ some t
    → is_live t ≡ false
    → ¬ (
        (get_message_for_user org_id u n chat >>= λ got.
        raise_if (not (is_live got.0)) validation >> next got)
        ≡ ok b)
dead-refused org_id u n chat t next found dead h =
    let (got, g, h1) = >>=-eq-ok (get_message_for_user org_id u n chat) _ h in
    let (live, _) = raise_if-eq-ok (not (is_live got.0)) validation _ h1 in
    let same : got.0 ≡ t = some-injective _ _ (sym (got-message org_id u n chat got g).0 ∙ found) in
    let now_dead : not (is_live got.0) ≡ true = ap (λ m. not (is_live m)) same ∙ ap not dead in
    cc (sym live ∙ now_dead)

no_attachments :
    (n : ℕ) (xs : List MessageAttachment)
    → any (λ a. a.message_id == n) (select (λ a. not (a.message_id == n)) xs) ≡ false
no_attachments n [] = refl
no_attachments n (x ∷ xs) = ground (arith, no_attachments n xs)

other_message :
    (now org_id n k : ℕ) (ms : List Message)
    → (k == n) ≡ false
    → first_where (is_message org_id k) (update_where (λ m. m.id == n) (bury now) ms)
      ≡ first_where (is_message org_id k) ms
other_message now org_id n k [] apart = refl
other_message now org_id n k (m ∷ ms) apart = elim (Bool-cases (m.id == n)) [
  | inl here ↦
      let elsewhere : (m.id == k) ≡ false = ground arith in
      rw here (rw elsewhere (other_message now org_id n k ms apart))
  | inr later ↦ rw later (
      ap (λ o. if is_message org_id k m then some m else o) (other_message now org_id n k ms apart))
]

has_message-id : (org_id n : ℕ) (m : Message) → is_message org_id n m ≡ true → m.id ≡ n
has_message-id org_id n m h = ground arith

tombstone-Buried :
    (now org_id : ℕ) (conv : Conversation) (msg : Message) (chat : Chat)
    → find_message org_id msg.id chat ≡ some msg
    → Buried now org_id msg.id msg chat (write_tombstone now conv msg chat)
unfolding edit_message delete_message toggle_reaction
tombstone-Buried now org_id conv msg chat found =
    let after = write_tombstone now conv msg chat in
    let there : find_message org_id msg.id after ≡ some (bury now msg) =
      first_where-update (is_message org_id msg.id) (λ m. m.id == msg.id) (bury now) chat.messages
        (λ y. refl) (==_refl msg.id) found in
    record {
      tombstone = there;
      attachments = no_attachments msg.id chat.attachments;
      others = λ k apart. other_message now org_id msg.id k chat.messages apart;
      not_edited =
          λ t by body c. dead-refused org_id by.id msg.id after (bury now msg) _ there refl;
      not_reacted =
          λ by emoji c. dead-refused org_id by.id msg.id after (bury now msg) _ there refl;
      deleted_once = λ t by c h.
          let (got, g, h1) = >>=-eq-ok (get_message_for_user org_id by.id msg.id after) _ h in
          let same : got.0 ≡ bury now msg =
            some-injective _ _ (sym (got-message org_id by.id msg.id after got g).0 ∙ there) in
          let dead : not (is_live got.0) ≡ true = ap (λ m. not (is_live m)) same in
          sym (ok-injective (rw dead at (h1)));
    }

may-delete :
    (own manages : Bool) → (not own && not manages) ≡ false → (own ≡ true) ⊎ (manages ≡ true)
may-delete true manages h = inl refl
may-delete false true h = inr refl
may-delete false false h = cc

-- When the delete of a live message succeeds, the user may delete it, and the message is buried:
-- a tombstone with the time of the delete and no text stands in its place, it has no attachment,
-- every other message is as it was, nobody can edit it or react to it afterwards, and a further
-- delete that succeeds changes nothing.
pub delete_message-Buried :
    (now org_id : ℕ) (user : User) (n : ℕ) (chat after : Chat) (msg : Message)
    → find_message org_id n chat ≡ some msg
    → is_live msg ≡ true
    → delete_message now org_id user n chat ≡ ok after
    → MayDelete user msg chat × Buried now org_id n msg chat after
unfolding delete_message
delete_message-Buried now org_id user n chat after msg found live h =
    let (got, g, h1) = >>=-eq-ok (get_message_for_user org_id user.id n chat) _ h in
    let (there, member) = got-message org_id user.id n chat got g in
    let same : got.0 ≡ msg = some-injective _ _ (sym there ∙ found) in
    let alive : not (is_live got.0) ≡ false = ap (λ m. not (is_live m)) same ∙ ap not live in
    let (may, done) = raise_if-eq-ok _ permission_denied _ (rw alive at (h1)) in
    let here : msg.id ≡ n = has_message-id org_id n msg (first_where-true _ chat.messages found) in
    (
      (
        got.2,
        ap (λ m. get_membership m.conversation_id user.id chat) (sym same) ∙ member,
        subst
            (λ m.
              (same_id m.sender_id (some user.id) ≡ true)
              ⊎ (is_manager got.2.role || user.is_super ≡ true))
            same
            (may-delete (same_id got.0.sender_id (some user.id))
              (is_manager got.2.role || user.is_super) may),
      ),
      subst (λ k. Buried now org_id k msg chat after) here
          (subst (Buried now org_id msg.id msg chat)
            (ap (λ m. write_tombstone now got.1 m chat) (sym same) ∙ ok-injective done)
            (tombstone-Buried now org_id got.1 msg chat
              (ap (λ k. find_message org_id k chat) here ∙ found))),
    )
