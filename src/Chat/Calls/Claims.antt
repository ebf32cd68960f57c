-- ===== src/Chat/Calls/Claims.antt =====
-- One line of history for a call, however many of its two sides report the end.
use text.Mathlib.TextPositions.{eq_refl}
use attendance.Prelude.Errors.{validation, raise_if-eq-ok, ok, >>=-eq-ok, ok-injective}
use attendance.Chat.Tables.{Event, Conversation, Notice, call_over, Chat, User}
use attendance.Chat.Access.{is_direct, get_conversation_for_user}
use text.Mathlib.Text.{◌==◌ as str_eq}
use attendance.Prelude.{
  ℕ, Bool, true, false, not, Option, none, some, String, List, [], ◌∷◌, ◌++◌, ◌+◌, ◌≤◌, ◌≡◌, refl,
  sym, ap, ◌∙◌, any, select, arith,
}
use attendance.Attendance.Duplicates.{disabled}
use attendance.Chat.Calls.{
  Claim, is_stale, claim_locally, claim_call_history, call_history_ttl, record_end, post_if,
  call_end, Reason, relay_call, call_history_text,
}

any_fresh :
    (call_id : String) (now : ℕ) (c : Claim) (xs : List Claim)
    → str_eq c.call_id call_id ≡ true
    → is_stale now c ≡ false
    → any (λ x. str_eq x.call_id call_id) (select (λ x. not (is_stale now x)) (xs ++ c ∷ [])) ≡ true
any_fresh call_id now c [] e f = rw f (rw e refl)
any_fresh call_id now c (x ∷ xs) e f = ground (arith, any_fresh call_id now c xs e f)

-- A claim that was granted is refused to others while it stands.
second_locally :
    (call_id : String) (now later : ℕ) (b : Bool) (kept others : List Claim)
    → (claim_locally b call_id now kept).0 ≡ true
    → later ≤ now + call_history_ttl
    → (claim_locally
        (any
          (λ c. str_eq c.call_id call_id)
          (select (λ c. not (is_stale later c)) (claim_locally b call_id now kept).1))
        call_id
        later
        others).0
      ≡ false
second_locally call_id now later true kept others granted soon = cc
second_locally call_id now later false kept others granted soon =
    ap (λ t. (claim_locally t call_id later others).0)
      (any_fresh call_id later (record { call_id = call_id; claimed_at = now }) kept
        (eq_refl call_id) (ground arith))

second_claim :
    (call_id : String) (now later : ℕ) (seen : List Claim)
    → (claim_call_history disabled call_id now seen).0 ≡ true
    → later ≤ now + call_history_ttl
    → (claim_call_history disabled call_id later (claim_call_history disabled call_id now seen).1).0
      ≡ false
unfolding claim_call_history
second_claim call_id now later seen granted soon =
    second_locally call_id now later _ (select (λ c. not (is_stale now c)) seen) _ granted soon

relay_call-messages :
    (org_id : ℕ) (user : User) (c : ℕ) (event : Event) (chat : Chat) {p : Conversation × Chat}
    → relay_call org_id user c event chat ≡ ok p
    → p.1.messages ≡ chat.messages
unfolding relay_call
relay_call-messages org_id user c event chat h =
    let (a, _, h1) = >>=-eq-ok (get_conversation_for_user org_id user.id c chat) _ h in
    let (_, h2) = raise_if-eq-ok (not (is_direct a.0.kind)) validation _ h1 in
    sym (ap (λ t. t.1.messages) (ok-injective h2))

record_end-messages :
    (now clock : ℕ) (call_id : String) (conv : Conversation) (what : Option Notice) (chat : Chat)
    (seen : List Claim)
    → (claim_call_history disabled call_id clock seen).0 ≡ false
    → (record_end disabled now clock call_id conv what chat seen).0.messages ≡ chat.messages
record_end-messages now clock call_id conv none chat seen refused = refl
record_end-messages now clock call_id conv (some what) chat seen refused =
    ap (λ b. (post_if b now conv what chat).messages) refused

-- With Redis switched off, once a side has claimed the line of history of a call, the other
-- side's report of the end within the lifetime of the claim adds no message, whatever its reason
-- and duration.
pub call_end-messages_once :
    (now clock later org_id : ℕ) (user : User) (c : ℕ) (call_id : String) (reason : Reason)
    (duration : Option ℕ) (chat chat' : Chat) (seen seen' : List Claim)
    → (claim_call_history disabled call_id clock seen).0 ≡ true
    → later ≤ clock + call_history_ttl
    → call_end disabled now later org_id user c call_id reason duration chat
        (claim_call_history disabled call_id clock seen).1
      ≡ ok (chat', seen')
    → chat'.messages ≡ chat.messages
unfolding call_end
call_end-messages_once now clock later org_id user c call_id reason duration chat chat' seen seen'
      granted soon h =
    let claims = (claim_call_history disabled call_id clock seen).1 in
    let ((conv, chat1), relayed, h1) = >>=-eq-ok (relay_call org_id user c call_over chat) _ h in
    sym (ap (λ p. p.0.messages) (ok-injective h1))
    ∙ record_end-messages now later call_id conv (call_history_text reason duration) chat1 claims
        (second_claim call_id clock later seen granted soon)
    ∙ relay_call-messages org_id user c call_over chat relayed
