-- ===== src/Chat/Messages/Paging.antt =====
-- Walking back through the pages of a conversation.
use mathlib.Core.Path.{subst}
use attendance.Prelude.Errors.{Result, ok, err, validation, ◌>>=◌}
use attendance.Prelude.Int.{ℤ, pos, negsuc}
use attendance.Chat.Access.{get_conversation_for_user}
use attendance.Chat.Tables.{Conversation, ConversationMember, Chat, Message}
use attendance.Chat.Messages.{
  page_size, history_of, list_messages, is_before, page_of, Result, ℤ, ok, Chat, err, validation,
}
use attendance.Prelude.{
  drop, All-select, length-append, ℕ, zero, suc, Bool, true, false, Option, some, List, [], ◌∷◌,
  ◌++◌, ◌≤◌, ◌<◌, ◌≡◌, refl, not, select, length, take, is_empty, All, arith, ap, ◌∙◌, sym, none,
}
use mathlib.Core.List.{reverse}
use attendance.Chat.Messages.Cuts.{
  IsAscending, older, newest, older-append-newest, is_empty-reverse, page_of_lem,
  select-IsAscending, select-select_before, select-parts,
}

select-true : (xs : List Message) → select (is_before none) xs ≡ xs
select-true [] = refl
select-true (x ∷ xs) = ap (λ l. x ∷ l) (select-true xs)

-- A client that pages back from the newest message: it asks for the messages before the first of
-- the page that it has got, until the answer says that there are no more.
abbrev first_id : List Message → Option ℕ
first_id [] = none
first_id (m ∷ ms) = some m.id

abbrev pub walk_on :
    (Option ℕ → Result (List Message)) → List Message × Bool → Result (List Message)
walk_on next (page, false) = ok page
walk_on next (page, true) = do earlier ← next (first_id page); ok (earlier ++ page)

abbrev pub walk_back : ℕ → ℕ → ℕ → ℕ → Option ℕ → ℤ → Chat → Result (List Message)
unfolding list_messages
walk_back zero org_id user_id conversation_id before limit chat = err validation
walk_back (suc n) org_id user_id conversation_id before limit chat = do
  page ← list_messages org_id user_id conversation_id before limit chat
  walk_on (λ b. walk_back n org_id user_id conversation_id b limit chat) page

walk_on_lem :
    (next : Option ℕ → Result (List Message)) (xs earlier page : List Message)
    → earlier ++ page ≡ xs
    → (page ≡ [] → earlier ≡ [])
    → ((y : Message) (ys : List Message) → page ≡ y ∷ ys → next (some y.id) ≡ ok earlier)
    → walk_on next (page, not (is_empty earlier)) ≡ ok xs
walk_on_lem next xs [] page whole ends continues = ap ok whole
walk_on_lem next xs (e ∷ es) [] whole ends continues = cc (ends refl)
walk_on_lem next xs (e ∷ es) (y ∷ ys) whole ends continues =
    ap (λ r. r >>= λ earlier. ok (earlier ++ y ∷ ys)) (continues y ys refl) ∙ ap ok whole

older_of_empty :
    (k : ℕ) (r : List Message) → 1 ≤ k → reverse (take k r) ≡ [] → reverse (drop k r) ≡ []
older_of_empty zero r le h = ground arith
older_of_empty (suc k) [] le h = refl
older_of_empty (suc k) (x ∷ xs) le h = cc (ap is_empty h, is_empty-reverse (take (suc k) (x ∷ xs)))

All-part :
    (P : Message → Type 0) (xs : List Message) (y : Message) (ys : List Message)
    → All P (xs ++ y ∷ ys)
    → P y
All-part P [] y ys h = h.0
All-part P (x ∷ xs) y ys h = All-part P xs y ys h.1

is_before_mono :
    (before : Option ℕ) (y m : Message)
    → is_before before y ≡ true
    → m.id < y.id
    → is_before before m ≡ true
is_before_mono none y m h lt = refl
is_before_mono (some n) y m h lt = ground arith

-- The next page starts where the page before the first message of this one would.
select-next :
    (before : Option ℕ) (history earlier : List Message) (y : Message) (ys : List Message)
    → IsAscending history
    → earlier ++ y ∷ ys ≡ select (is_before before) history
    → select (is_before (some y.id)) history ≡ earlier
select-next before history earlier y ys sorted whole =
    let inside =
      All-part (λ m. is_before before m ≡ true) earlier y ys
        (subst (All (λ m. is_before before m ≡ true)) (sym whole) (
          All-select (λ _. Unit {0}) (λ m. is_before before m ≡ true) (is_before before) history
            (λ x e _. e) (all_unit history))) in
    select-select_before before y.id history (λ m lt. is_before_mono before y m inside lt)
    ∙ ap (select (is_before (some y.id))) (sym whole)
    ∙ select-parts earlier y ys
        (subst IsAscending (sym whole) (select-IsAscending (is_before before) history sorted))
  where
    all_unit : (xs : List Message) → All (λ _. Unit {0}) xs
    all_unit [] = tt
    all_unit (x ∷ xs) = (tt, all_unit xs)

length-earlier :
    (earlier : List Message) (y : Message) (ys xs : List Message)
    → earlier ++ y ∷ ys ≡ xs
    → length earlier < length xs
length-earlier earlier y ys xs whole =
    omega (arith, length-append earlier (y ∷ ys), ap length whole)

one-page_size : (limit : ℤ) → 1 ≤ page_size limit
one-page_size (pos n) = ground arith
one-page_size (negsuc n) = ground arith

module _ (org_id user_id conversation_id : ℕ) (limit : ℤ) (chat : Chat) where
  walk_back-cut :
      (n : ℕ) (before : Option ℕ) (access : Conversation × ConversationMember)
      → get_conversation_for_user org_id user_id conversation_id chat ≡ ok access
      → IsAscending (history_of conversation_id chat)
      → length (select (is_before before) (history_of conversation_id chat)) < n
      → walk_back n org_id user_id conversation_id before limit chat
        ≡ ok (select (is_before before) (history_of conversation_id chat))
  unfolding list_messages
  walk_back-cut zero before access enters sorted enough = ground arith
  walk_back-cut (suc n) before access enters sorted enough =
      let history = history_of conversation_id chat in
      let xs = select (is_before before) history in
      let k = page_size limit in
      let next : Option ℕ → Result (List Message) =
        λ b. walk_back n org_id user_id conversation_id b limit chat in
      ap (λ r. (r >>= λ _. ok (page_of k before history)) >>= walk_on next) enters
      ∙ ap (walk_on next)
          (page_of_lem k before history (select-IsAscending (is_before before) history sorted))
      ∙ walk_on_lem next xs (older k xs) (newest k xs) (older-append-newest k xs)
          (older_of_empty k (reverse xs) (one-page_size limit))
          (λ y ys e.
            let whole = ap (λ p. older k xs ++ p) (sym e) ∙ older-append-newest k xs in
            let cut = select-next before history (older k xs) y ys sorted whole in
            walk_back-cut n (some y.id) access enters sorted (
              subst (λ l. length l < n) (sym cut)
                (omega (arith, length-earlier (older k xs) y ys xs whole, enough)))
            ∙ ap ok cut)

  pub walk_back-history :
      (access : Conversation × ConversationMember)
      → get_conversation_for_user org_id user_id conversation_id chat ≡ ok access
      → IsAscending (history_of conversation_id chat)
      → walk_back
          (suc (length (history_of conversation_id chat)))
          org_id
          user_id
          conversation_id
          none
          limit
          chat
        ≡ ok (history_of conversation_id chat)
  walk_back-history access enters sorted =
      let history = history_of conversation_id chat in
      walk_back-cut (suc (length history)) none access enters sorted
        (omega (arith, ap length (select-true history)))
      ∙ ap ok (select-true history)
