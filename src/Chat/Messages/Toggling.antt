-- ===== src/Chat/Messages/Toggling.antt =====
-- A reaction toggled: that one changes, and no other.
use attendance.Prelude.{
  ℕ, Bool, true, false, not, List, [], ◌∷◌, ◌++◌, ◌≡◌, refl, sym, ap, ◌∙◌, ◌==◌, ◌&&◌, ◌||◌, any,
  select, take, is_empty, if◌then◌else◌, Bool-cases, inl, inr, arith, ==_iff, first_where,
}
use attendance.Attendance.Queries.Keyed.{first_where-true}
use attendance.Chat.Tables.{Message, Conversation, ConversationMember, MessageReaction, Chat, User}
use attendance.Chat.Access.{get_conversation_for_user, is_live}
use attendance.Prelude.Errors.{
  not_found, or_raise, or_raise-eq-ok, ok, validation, >>=-eq-ok, raise_if-eq-ok, ok-injective,
}
use attendance.Prelude.Pytext.{Text, strip, same_text, same_text_refl, same_text-eq}
use attendance.Chat.Messages.{
  is_reaction, has_reacted, flip_reaction, toggle, toggle_reaction, get_message_for_user,
}

-- The reaction of a user with an emoji, as another is.
abbrev pub is_same_reaction : ℕ → ℕ → Text → ℕ → ℕ → Text → Bool
is_same_reaction m u e m' u' e' = m' == m && (u' == u && same_text e' e)

is_reaction-own :
    (m u : ℕ) (e : Text)
    → is_reaction m u e (record { message_id = m; user_id = u; emoji = e }) ≡ true
is_reaction-own m u e = ground (arith, same_text_refl e)

module _ (q p : MessageReaction → Bool) where
  any_filtered : (xs : List MessageReaction) → any p (select (λ r. not (p r)) xs) ≡ false
  any_filtered [] = refl
  any_filtered (x ∷ xs) = ground (arith, any_filtered xs)

  any_kept :
      (xs : List MessageReaction)
      → ((r : MessageReaction) → p r ≡ true → q r ≡ false)
      → any q (select (λ r. not (p r)) xs) ≡ any q xs
  any_kept [] apart = refl
  any_kept (x ∷ xs) apart = ground (arith, any_kept xs apart, apart x)

any_snoc :
    (q : MessageReaction → Bool) (xs : List MessageReaction) (x : MessageReaction)
    → any q (xs ++ x ∷ []) ≡ any q xs || q x
any_snoc q [] x = ground arith
any_snoc q (y ∷ ys) x = ground (arith, any_snoc q ys x)

module _ (m u : ℕ) (e : Text) (m' u' : ℕ) (e' : Text) where
  is_reaction-same :
      (r : MessageReaction)
      → is_reaction m' u' e' r ≡ true
      → is_reaction m u e r ≡ is_same_reaction m u e m' u' e'
  is_reaction-same r h =
      let a : r.message_id ≡ m' = ground arith in
      let b : r.user_id ≡ u' = ground arith in
      let c = same_text-eq r.emoji e' (ground arith) in
      λ i. a i == m && (b i == u && same_text (c i) e)

  flip-other :
      (b : Bool) (rows : List MessageReaction)
      → is_same_reaction m u e m' u' e' ≡ false
      → has_reacted m u e (flip_reaction b m' u' e' rows) ≡ has_reacted m u e rows
  flip-other true rows apart =
      any_kept (is_reaction m u e) (is_reaction m' u' e') rows (λ r h. is_reaction-same r h ∙ apart)
  flip-other false rows apart = ground (
    arith,
    any_snoc (is_reaction m u e) rows (record { message_id = m'; user_id = u'; emoji = e' }),
    is_reaction-same (record { message_id = m'; user_id = u'; emoji = e' }),
    is_reaction-own m' u' e',
  )

flip-own :
    (m u : ℕ) (e : Text) (rows : List MessageReaction) (b : Bool)
    → has_reacted m u e (flip_reaction b m u e rows) ≡ not b
flip-own m u e rows true = any_filtered (is_reaction m u e) (is_reaction m u e) rows
flip-own m u e rows false = ground (
  arith,
  any_snoc (is_reaction m u e) rows (record { message_id = m; user_id = u; emoji = e }),
  is_reaction-own m u e,
)

found-id :
    (org_id u n : ℕ) (chat : Chat) {a : Message × Conversation × ConversationMember}
    → get_message_for_user org_id u n chat ≡ ok a
    → a.0.id ≡ n
unfolding get_message_for_user
found-id org_id u n chat h =
    let p : Message → Bool = λ m. m.id == n && m.organization_id == org_id in
    let (msg, f, h1) = >>=-eq-ok (or_raise (first_where p chat.messages) not_found) _ h in
    let (a, g, h2) = >>=-eq-ok (get_conversation_for_user org_id u msg.conversation_id chat) _ h1 in
    let passes =
      first_where-true p chat.messages (or_raise-eq-ok (first_where p chat.messages) not_found f) in
    sym (ap (λ t. t.0.id) (ok-injective h2)) ∙ (==_iff msg.id n).0 (ground arith)

toggle-flips :
    (m u : ℕ) (e : Text) (m' u' : ℕ) (e' : Text) (rows : List MessageReaction)
    → has_reacted m u e (toggle m' u' e' rows) ≡ (
        if is_same_reaction m u e m' u' e'
        then not (has_reacted m u e rows)
        else has_reacted m u e rows)
toggle-flips m u e m' u' e' rows = elim (Bool-cases (is_same_reaction m u e m' u' e')) [
  | inl same ↦ rw same (
      let a : m' ≡ m = ground arith in
      let b : u' ≡ u = ground arith in
      let c = same_text-eq e' e (ground arith) in
      (λ i. has_reacted m u e (toggle (a i) (b i) (c i) rows))
      ∙ flip-own m u e rows (has_reacted m u e rows))
  | inr apart ↦ rw apart (flip-other m u e m' u' e' (has_reacted m' u' e' rows) rows apart)
]

-- A reaction that is toggled is there afterwards exactly when it was not before, and every other
-- reaction of every user to every message is there exactly when it was before.
pub toggle_reaction-flips :
    (org_id : ℕ) (user : User) (n : ℕ) (emoji : Text) (chat chat' : Chat)
    → toggle_reaction org_id user n emoji chat ≡ ok chat'
    → (m u : ℕ) (e : Text)
    → has_reacted m u e chat'.reactions ≡ (
        if is_same_reaction m u e n user.id (take 32 (strip emoji))
        then not (has_reacted m u e chat.reactions)
        else has_reacted m u e chat.reactions)
unfolding toggle_reaction
toggle_reaction-flips org_id user n emoji chat chat' h m u e =
    let ((msg, _, _), found, h1) = >>=-eq-ok (get_message_for_user org_id user.id n chat) _ h in
    let (_, h2) = raise_if-eq-ok (not (is_live msg)) validation _ h1 in
    let (_, h3) = raise_if-eq-ok (is_empty (take 32 (strip emoji))) validation _ h2 in
    ap (λ c. has_reacted m u e c.reactions) (sym (ok-injective h3))
    ∙ toggle-flips m u e msg.id user.id (take 32 (strip emoji)) chat.reactions
    ∙ ap
        (λ i.
          if is_same_reaction m u e i user.id (take 32 (strip emoji))
          then not (has_reacted m u e chat.reactions)
          else has_reacted m u e chat.reactions)
        (found-id org_id user.id n chat found)
