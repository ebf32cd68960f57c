-- ===== src/Chat/Sound.antt =====
-- What the tables of the chat keep through every operation, and how the shared writes keep it.
pub mod Rows
pub mod Directs
use attendance.Prelude.{
  All-update, not, ℕ, suc, Bool, true, false, Option, none, some, List, [], ◌∷◌, ◌++◌, ◌<◌, ◌≡◌,
  refl, sym, ◌==◌, ◌&&◌, any, All, All-append, All-map, All-select, select, first_where, arith, map,
  Bool-cases, inl, inr, update_where,
}
pub mod Writes
pub mod Joins
pub mod Runs
use mathlib.Core.Option.{some-injective}
use mathlib.Core.Path.{subst}
use attendance.Chat.Tables.{Conversation, ConversationMember, Message, Chat, Role, Notice}
use attendance.Chat.Access.{
  add_message, change_message, change_membership, change_conversation, is_direct, is_membership,
  post_system_message, system_message,
}
use attendance.Chat.Members.{add_rows, add_conversation, remove_row, new_member}
use attendance.Chat.Messages.Cuts.{IsAscending}
use attendance.Chat.Reading.Unread.{IsBelow}
use attendance.Chat.Sound.Rows.{
  IsOnce, IsNew, update-IsAscending, snoc-IsAscending, update-IsOnce, select-IsOnce, add-IsOnce,
  All-new_member,
}
use attendance.Chat.Sound.Directs.{IsOneDirect, Kept, clash, update-IsOneDirect, snoc-IsOneDirect}

-- Messages stand in the order of their ids, all below the next id. A user is in a conversation at
-- most once. Conversations have ids below the next one, and memberships name such ids. No two
-- direct conversations of a company have the same key.
pub record Sound (messages : List Message) (next_message : ℕ) (members : List ConversationMember)
    (conversations : List Conversation) (next_conversation : ℕ) : Type 0 where
  pub ordered : IsAscending messages
  pub below : IsBelow next_message messages
  pub once : IsOnce members
  pub placed : All (λ m. m.conversation_id < next_conversation) members
  pub known : All (λ c. c.id < next_conversation) conversations
  pub one_direct : IsOneDirect conversations

abbrev pub IsSound : Chat → Type 0
IsSound chat =
    Sound chat.messages chat.next_message chat.members chat.conversations chat.next_conversation

module _ {messages : List Message} {next : ℕ} {members : List ConversationMember}
    {conversations : List Conversation} {next_conv : ℕ} where
  pub add_message-IsSound :
      (m : Message)
      → m.id ≡ next
      → Sound messages next members conversations next_conv
      → Sound (messages ++ m ∷ []) (suc next) members conversations next_conv
  add_message-IsSound m new h = record {
    ordered =
        snoc-IsAscending messages m h.ordered (subst (λ n. IsBelow n messages) (sym new) h.below);
    below =
        All-append (λ x. x.id < suc next) messages (m ∷ [])
          (All-map (λ x. x.id < next) (λ x. x.id < suc next) messages (λ x lt. omega arith) h.below)
          (omega arith, tt);
    once = h.once;
    placed = h.placed;
    known = h.known;
    one_direct = h.one_direct;
  }

  pub change_message-IsSound :
      (n : ℕ) (f : Message → Message)
      → ((m : Message) → (f m).id ≡ m.id)
      → Sound messages next members conversations next_conv
      → Sound (update_where (λ m. m.id == n) f messages) next members conversations next_conv
  change_message-IsSound n f same h = record {
    ordered = update-IsAscending (λ m. m.id == n) f messages same h.ordered;
    below =
        All-update (λ m. m.id < next) (λ m. m.id == n) f messages
          (λ m lt. subst (λ i. i < next) (sym (same m)) lt) h.below;
    once = h.once;
    placed = h.placed;
    known = h.known;
    one_direct = h.one_direct;
  }

  pub change_membership-IsSound :
      (c u : ℕ) (f : ConversationMember → ConversationMember)
      → ((m : ConversationMember) → (f m).conversation_id ≡ m.conversation_id)
      → ((m : ConversationMember) → (f m).user_id ≡ m.user_id)
      → Sound messages next members conversations next_conv
      → Sound messages next (update_where (is_membership c u) f members) conversations next_conv
  change_membership-IsSound c u f same same' h = record {
    ordered = h.ordered;
    below = h.below;
    once = update-IsOnce (is_membership c u) f members same same' h.once;
    placed =
        All-update (λ m. m.conversation_id < next_conv) (is_membership c u) f members
          (λ m lt. subst (λ i. i < next_conv) (sym (same m)) lt) h.placed;
    known = h.known;
    one_direct = h.one_direct;
  }

  pub change_conversation-IsSound :
      (n : ℕ) (f : Conversation → Conversation)
      → Kept f
      → ((c : Conversation) → (f c).id ≡ c.id)
      → Sound messages next members conversations next_conv
      → Sound messages next members (update_where (λ c. c.id == n) f conversations) next_conv
  change_conversation-IsSound n f kept same h = record {
    ordered = h.ordered;
    below = h.below;
    once = h.once;
    placed = h.placed;
    known =
        All-update (λ c. c.id < next_conv) (λ c. c.id == n) f conversations
          (λ c lt. subst (λ i. i < next_conv) (sym (same c)) lt) h.known;
    one_direct = update-IsOneDirect (λ c. c.id == n) f conversations kept h.one_direct;
  }

  pub add_rows-IsSound :
      (c : ℕ) (role : Role) (ids : List ℕ)
      → c < next_conv
      → IsNew c ids members
      → Sound messages next members conversations next_conv
      → Sound messages next (members ++ map (new_member c role) ids) conversations next_conv
  add_rows-IsSound c role ids lt new h = record {
    ordered = h.ordered;
    below = h.below;
    once = add-IsOnce c role ids members h.once new;
    placed =
        All-append (λ m. m.conversation_id < next_conv) members (map (new_member c role) ids)
          h.placed (All-new_member c next_conv role ids lt);
    known = h.known;
    one_direct = h.one_direct;
  }

  pub add_conversation-IsSound :
      (c : Conversation)
      → c.id ≡ next_conv
      → All (λ x. clash x c ≡ false) conversations
      → Sound messages next members conversations next_conv
      → Sound messages next members (conversations ++ c ∷ []) (suc next_conv)
  add_conversation-IsSound c new apart h = record {
    ordered = h.ordered;
    below = h.below;
    once = h.once;
    placed =
        All-map (λ m. m.conversation_id < next_conv) (λ m. m.conversation_id < suc next_conv)
          members (λ m lt. omega arith) h.placed;
    known =
        All-append (λ x. x.id < suc next_conv) conversations (c ∷ [])
          (All-map (λ x. x.id < next_conv) (λ x. x.id < suc next_conv) conversations
            (λ x lt. omega arith) h.known)
          (omega arith, tt);
    one_direct = snoc-IsOneDirect conversations c h.one_direct apart;
  }

  pub remove_row-IsSound :
      (c u : ℕ)
      → Sound messages next members conversations next_conv
      → Sound messages next
          (select (λ m. not (is_membership c u m)) members)
          conversations
          next_conv
  remove_row-IsSound c u h = record {
    ordered = h.ordered;
    below = h.below;
    once = select-IsOnce (λ m. not (is_membership c u m)) members h.once;
    placed =
        All-select (λ m. m.conversation_id < next_conv) (λ m. m.conversation_id < next_conv)
          (λ m. not (is_membership c u m)) members (λ m e lt. lt) h.placed;
    known = h.known;
    one_direct = h.one_direct;
  }

pub post_system_message-IsSound :
    (now : ℕ) (conv : Conversation) (what : Notice) (chat : Chat)
    → IsSound chat
    → IsSound (post_system_message now conv what chat)
unfolding post_system_message
post_system_message-IsSound now conv what chat h =
    change_conversation-IsSound conv.id (λ c. record c { last_message_at = some now })
      (λ c. (refl, refl, refl)) (λ c. refl)
      (add_message-IsSound (system_message chat.next_message conv what) refl h)

-- What is found in a table has what all of its rows have.
pub first_where-All {ℓ κ} :
    {A : Type ℓ} (P : A → Type κ) (p : A → Bool) (xs : List A) {x : A}
    → All P xs
    → first_where p xs ≡ some x
    → P x
first_where-All P p [] h e = cc
first_where-All P p (y ∷ ys) {x} h e = elim (Bool-cases (p y)) [
  | inl here ↦ subst P (some-injective _ _ (rw here at (e))) h.0
  | inr later ↦ first_where-All P p ys h.1 (rw later at e)
]
