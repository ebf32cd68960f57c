-- ===== src/Chat/Sound/Joins.antt =====
-- The calls that bring users into conversations keep the tables of the chat sound.
use attendance.Prelude.{
  any-append, All-map, ℕ, Bool, true, false, not, Option, none, some, List, [], ◌∷◌, ◌++◌, ◌<◌, ◌≡◌,
  refl, sym, ap, ◌∙◌, ◌==◌, any, All, All-select, select, distinct, is_empty, first_where, arith,
  member, map, inl, inr, Bool-cases,
}
use attendance.Prelude.Errors.{
  >>=-eq-ok, ok-injective, Result, ok, err, validation, not_found, or_raise, or_raise-eq-ok, ◌>>=◌,
  Holds, Holds-bind, Holds-guard, Holds-if,
}
use attendance.Chat.Access.{
  emit_conversation_changed, get_conversation_for_user, get_conversation, get_membership,
  is_in_company, is_membership, member_ids, Detail, require_company_users, require_role, is_direct,
  is_channel,
}
use mathlib.Core.Path.{subst}
use attendance.Prelude.Pytext.{Text, strip}
use attendance.Chat.Tables.{
  Conversation, ConversationMember, ConversationType, direct, group, channel, Chat, Role, owner,
  User, Company, added, joined,
}
use attendance.Chat.Members.{
  with_detail, insert_direct, reuse_or_insert, get_or_create_direct, create_group,
  create_conversation, new_conversation, direct_key, find_direct, is_direct_of, others_of, or_blank,
  given_id, newcomers, with_added, add_members, join_unless, join_channel, new_member,
}
use attendance.Chat.Sound.{
  IsSound, add_rows-IsSound, add_conversation-IsSound, post_system_message-IsSound, first_where-All,
}
use attendance.Chat.Sound.Rows.{
  IsNew, IsNew-of, IsNoDup, select-IsNoDup, distinct-IsNoDup, All-distinct_onto, any-unplaced,
}
use attendance.Chat.Sound.Directs.{fresh_clash, no_clash}
use attendance.Chat.Sound.Writes.{Both, Holds-detail}

first_where-none {ℓ} :
    {A : Type ℓ} (p : A → Bool) (xs : List A) → first_where p xs ≡ none → any p xs ≡ false
first_where-none p [] h = refl
first_where-none p (x ∷ xs) h = ground (arith, first_where-none p xs)

-- Who is not among the ids of the members has no row.
any-member_ids :
    (c i : ℕ) (ms : List ConversationMember)
    → member i (map (λ m. m.user_id) (select (λ m. m.conversation_id == c) ms))
      ≡ any (is_membership c i) ms
any-member_ids c i [] = refl
any-member_ids c i (m ∷ ms) = ground (arith, any-member_ids c i ms)

newcomers-IsNew :
    (c : ℕ) (wanted : List ℕ) (chat : Chat)
    → IsNoDup wanted
    → IsNew c (newcomers c wanted chat) chat.members
newcomers-IsNew c wanted chat h =
    IsNew-of c (newcomers c wanted chat) chat.members (select-IsNoDup _ wanted h) (
      All-select (λ _. Unit {0}) (λ i. any (is_membership c i) chat.members ≡ false)
        (λ i. not (member i (member_ids c chat))) wanted
        (λ i e _.
          sym (any-member_ids c i chat.members) ∙ not-eq-true (member i (member_ids c chat)) e)
        (all_unit wanted))
  where
    not-eq-true : (b : Bool) → not b ≡ true → b ≡ false
    not-eq-true true e = cc
    not-eq-true false e = refl

    all_unit : (xs : List ℕ) → All (λ _. Unit {0}) xs
    all_unit [] = tt
    all_unit (x ∷ xs) = (tt, all_unit xs)

others_apart : (u : ℕ) (is : List ℕ) → All (λ i. (i == u) ≡ false) (select (λ i. not (i == u)) is)
others_apart u [] = tt
others_apart u (i ∷ is) = elim (Bool-cases (i == u)) [
  | inl same ↦ rw same (others_apart u is)
  | inr apart ↦ rw apart (apart, others_apart u is)
]

module _ (chat : Chat) (h : IsSound chat) where
  known-found :
      (org_id c : ℕ) {conv : Conversation}
      → get_conversation org_id c chat ≡ ok conv
      → conv.id < chat.next_conversation
  known-found org_id c found =
      first_where-All (λ x. x.id < chat.next_conversation) (is_in_company org_id c)
        chat.conversations h.known
        (or_raise-eq-ok (first_where (is_in_company org_id c) chat.conversations) not_found found)

  known-access :
      (org_id u c : ℕ) {a : Conversation × ConversationMember}
      → get_conversation_for_user org_id u c chat ≡ ok a
      → a.0.id < chat.next_conversation
  unfolding get_conversation_for_user
  known-access org_id u c e =
      let (conv, found, e1) = >>=-eq-ok (get_conversation org_id c chat) _ e in
      let (m, _, e2) = >>=-eq-ok (or_raise (get_membership c u chat) not_found) _ e1 in
      subst (λ x. x < chat.next_conversation) (ap (λ p. p.0.id) (ok-injective e2))
        (known-found org_id c found)

  with_added-IsSound :
      (now : ℕ) (conv : Conversation) (ids : List ℕ)
      → conv.id < chat.next_conversation
      → IsNew conv.id ids chat.members
      → IsSound (with_added now conv ids chat)
  with_added-IsSound now conv [] lt new = h
  with_added-IsSound now conv (i ∷ is) lt new =
      post_system_message-IsSound now conv (added (i ∷ is)) _
        (add_rows-IsSound conv.id Role.member (i ∷ is) lt new h)

  pub add_members-IsSound :
      (company : Company) (now org_id : ℕ) (user : User) (c : ℕ) (ids : List ℕ)
      → Holds Both (add_members company now org_id user c ids chat)
  unfolding add_members
  add_members-IsSound company now org_id user c ids =
      let wanted = select (λ i. not (i == 0)) (distinct ids) in
      Holds-bind (Both {A = Detail}) (get_conversation_for_user org_id user.id c chat) _ (λ a found.
        Holds-guard (Both {A = Detail}) (is_direct a.0.kind) validation _ (λ _.
          Holds-bind (Both {A = Detail}) (require_role a.1 user) _ (λ _ _.
            Holds-if (Both {A = Detail}) (is_empty wanted) _ _
              (Holds-detail org_id user.id a.0.id chat h)
              (Holds-bind (Both {A = Detail}) (require_company_users company org_id wanted) _
                (λ _ _. Holds-detail org_id user.id a.0.id _ (
                  with_added-IsSound now a.0 (newcomers a.0.id wanted chat)
                    (known-access org_id user.id c found)
                    (newcomers-IsNew a.0.id wanted chat (
                      select-IsNoDup (λ i. not (i == 0)) (distinct ids)
                        (distinct-IsNoDup ids)))))))))

  join_unless-IsSound :
      (now : ℕ) (conv : Conversation) (u : ℕ) (o : Option ConversationMember)
      → conv.id < chat.next_conversation
      → get_membership conv.id u chat ≡ o
      → IsSound (join_unless now conv u o chat)
  join_unless-IsSound now conv u (some m) lt e = h
  join_unless-IsSound now conv u none lt e = post_system_message-IsSound now conv (joined u) _ (
      add_rows-IsSound conv.id Role.member (u ∷ []) lt
        (first_where-none (is_membership conv.id u) chat.members e, refl, tt) h)

  pub join_channel-IsSound :
      (now org_id : ℕ) (user : User) (c : ℕ) → Holds Both (join_channel now org_id user c chat)
  unfolding join_channel
  join_channel-IsSound now org_id user c =
      Holds-bind (Both {A = Detail}) (get_conversation org_id c chat) _ (λ conv found.
        Holds-guard (Both {A = Detail}) (not (is_channel conv.kind)) validation _ (λ _.
          Holds-detail org_id user.id conv.id _ (
            join_unless-IsSound now conv user.id (get_membership conv.id user.id chat)
              (known-found org_id c found) refl)))

  -- A new direct conversation, with its two members.
  insert_direct-IsSound :
      (org_id u o : ℕ) (winner : Option Conversation)
      → (o == u) ≡ false
      → find_direct org_id (direct_key u o) chat ≡ winner
      → Holds Both (insert_direct org_id u o chat winner)
  insert_direct-IsSound org_id u o (some c) apart e = h
  insert_direct-IsSound org_id u o none apart e =
      add_rows-IsSound chat.next_conversation Role.member (u ∷ o ∷ []) (omega arith)
        (
          any-unplaced chat.next_conversation u chat.members h.placed,
          ground arith,
          (any-unplaced chat.next_conversation o chat.members h.placed, refl, tt),
        )
        (add_conversation-IsSound _ refl
          (fresh_clash chat.conversations
            (record (new_conversation chat.next_conversation org_id direct u) {
              direct_key = some (direct_key u o);
            })
            (direct_key u o) refl
            (first_where-none (is_direct_of org_id (direct_key u o)) chat.conversations e))
          h)

  get_or_create_direct-IsSound :
      (company : Company) (org_id u o : ℕ)
      → Holds Both (get_or_create_direct company org_id u o chat chat)
  unfolding get_or_create_direct
  get_or_create_direct-IsSound company org_id u o =
      Holds-guard (Both {A = Conversation}) (o == u) validation _ (λ apart.
        Holds-bind (Both {A = Conversation}) (require_company_users company org_id (o ∷ [])) _
          (λ _ _. reuse (find_direct org_id (direct_key u o) chat) refl apart))
    where
      reuse :
          (found : Option Conversation)
          → find_direct org_id (direct_key u o) chat ≡ found
          → (o == u) ≡ false
          → Holds Both (reuse_or_insert org_id u o chat chat found)
      reuse (some c) e apart = h
      reuse none e apart =
          insert_direct-IsSound org_id u o (find_direct org_id (direct_key u o) chat) apart refl

  create_group-IsSound :
      (company : Company) (org_id : ℕ) (user : User) (kind : ConversationType) (ids : List ℕ)
      (name topic : Option Text)
      → Holds Both (create_group company org_id user kind ids name topic chat)
  unfolding create_group
  create_group-IsSound company org_id user kind ids name topic =
      let n = chat.next_conversation in
      let others = distinct (others_of user kind ids) in
      Holds-guard (Both {A = Detail}) (is_empty (strip (or_blank name))) validation _ (λ _.
        Holds-bind (Both {A = Detail})
          (require_company_users company org_id (others_of user kind ids)) _
          (λ _ _. Holds-detail org_id user.id n _ (
            add_rows-IsSound n Role.member others (omega arith) (others-IsNew kind) (
              add_rows-IsSound n owner (user.id ∷ []) (omega arith)
                (any-unplaced n user.id chat.members h.placed, refl, tt)
                (add_conversation-IsSound _ refl (no_clash chat.conversations _ refl) h)))))
    where
      named :
          (kind : ConversationType) → All (λ i. (i == user.id) ≡ false) (others_of user kind ids)
      named group = others_apart user.id ids
      named direct = tt
      named channel = tt

      others-IsNew :
          (kind : ConversationType)
          → IsNew chat.next_conversation
              (distinct (others_of user kind ids))
              (chat.members ++ new_member chat.next_conversation owner user.id ∷ [])
      others-IsNew kind =
          IsNew-of chat.next_conversation (distinct (others_of user kind ids)) _
            (distinct-IsNoDup (others_of user kind ids))
            (All-map (λ i. (i == user.id) ≡ false) _ (distinct (others_of user kind ids))
              (λ i apart. ground (
                arith,
                any-append (is_membership chat.next_conversation i) chat.members
                    (new_member chat.next_conversation owner user.id ∷ []),
                any-unplaced chat.next_conversation i chat.members h.placed,
              ))
              (All-distinct_onto (λ i. (i == user.id) ≡ false) [] (others_of user kind ids)
                (named kind)))

  pub create_conversation-IsSound :
      (company : Company) (org_id : ℕ) (user : User) (kind : ConversationType) (other : Option ℕ)
      (ids : List ℕ) (name topic : Option Text)
      → Holds Both (create_conversation company org_id user kind other ids name topic chat chat)
  unfolding create_conversation
  create_conversation-IsSound company org_id user direct other ids name topic =
      Holds-bind (Both {A = Detail}) (given_id other) _ (λ o _.
        after (get_or_create_direct company org_id user.id o chat chat)
          (get_or_create_direct-IsSound company org_id user.id o))
    where
      after :
          (r : Result (Conversation × Chat))
          → Holds Both r
          → Holds Both
              (r >>= λ p. with_detail org_id user.id p.0.id (emit_conversation_changed p.0 p.1))
      after (err e) k = tt
      after (ok (conv, chat')) k = Holds-detail org_id user.id conv.id _ k
  create_conversation-IsSound company org_id user group other ids name topic =
      create_group-IsSound company org_id user group ids name topic
  create_conversation-IsSound company org_id user channel other ids name topic =
      create_group-IsSound company org_id user channel ids name topic
