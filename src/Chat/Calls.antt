-- ===== src/Chat/Calls.antt =====
-- The signals of calls, and their one line of history: backend/app/services/chat_service.py. What
-- Redis answers to the claim of a call is an input.
pub mod Claims
use text.Mathlib.Text.{◌==◌ as str_eq}
use attendance.Prelude.{
  ℕ, String, Bool, true, false, Option, none, some, List, [], ◌∷◌, ◌++◌, ◌+◌, ◌==◌, ◌&&◌, not, ltb,
  leb, if◌then◌else◌, select, any,
}
use attendance.Prelude.Errors.{Result, ok, validation, ◌>>=◌, ◌>>◌, raise_if}
use attendance.Attendance.Duplicates.{Reply, disabled, unreachable, answered}
use attendance.Chat.Tables.{
  Conversation, Notice, call_ended, call_declined, call_missed, line_busy, call_failed, Event,
  call_over, Chat, User,
}
use attendance.Chat.Access.{
  is_direct, get_conversation_for_user, member_ids, emit, post_system_message,
}

unfoldable pub relay_call : ℕ → User → ℕ → Event → Chat → Result (Conversation × Chat)
relay_call org_id user conversation_id event chat = do
  (conv, membership) ← get_conversation_for_user org_id user.id conversation_id chat
  raise_if (not (is_direct conv.kind)) validation
  ok (
    conv,
    emit conv.organization_id event conv.id
        (select (λ i. not (i == user.id)) (member_ids conv.id chat)) chat,
  )

abbrev pub call_history_ttl : ℕ
call_history_ttl = 3600

-- An entry of `_call_history_seen`, with its second of the monotonic clock.
pub record Claim : Type 0 where
  pub call_id : String
  pub claimed_at : ℕ

abbrev pub is_stale : ℕ → Claim → Bool
is_stale now c = ltb (c.claimed_at + call_history_ttl) now

abbrev pub claim_locally : Bool → String → ℕ → List Claim → Bool × List Claim
claim_locally true call_id now seen = (false, seen)
claim_locally false call_id now seen =
    (true, seen ++ record { call_id = call_id; claimed_at = now } ∷ [])

-- `redis.set(..., nx=True)` answers whether the key is new.
unfoldable pub claim_call_history : Reply Bool → String → ℕ → List Claim → Bool × List Claim
claim_call_history (answered fresh) call_id now seen = (fresh, seen)
claim_call_history unreachable call_id now seen = (true, seen)
claim_call_history disabled call_id now seen =
    let kept = select (λ c. not (is_stale now c)) seen in
    claim_locally (any (λ c. str_eq c.call_id call_id) kept) call_id now kept

-- The reasons for which a call ends.
pub data Reason : Type 0 where
  hangup reject cancel unanswered busy failed other : Reason

abbrev pub shown_duration : Option ℕ → Option ℕ
shown_duration none = none
shown_duration (some s) = if ltb 0 s && leb s 86_400 then some s else none

abbrev pub call_history_text : Reason → Option ℕ → Option Notice
call_history_text hangup duration = some (call_ended (shown_duration duration))
call_history_text reject duration = some call_declined
call_history_text cancel duration = some call_missed
call_history_text unanswered duration = some call_missed
call_history_text busy duration = some line_busy
call_history_text failed duration = some call_failed
call_history_text other duration = none

abbrev pub post_if : Bool → ℕ → Conversation → Notice → Chat → Chat
post_if true now conv what chat = post_system_message now conv what chat
post_if false now conv what chat = chat

-- A call without a line of history claims none.
abbrev pub record_end :
    Reply Bool
    → ℕ
    → ℕ
    → String
    → Conversation
    → Option Notice
    → Chat
    → List Claim
    → Chat × List Claim
record_end redis now clock call_id conv none chat seen = (chat, seen)
record_end redis now clock call_id conv (some what) chat seen =
    let claim = claim_call_history redis call_id clock seen in
    (post_if claim.0 now conv what chat, claim.1)

unfoldable pub call_end :
    Reply Bool
    → ℕ
    → ℕ
    → ℕ
    → User
    → ℕ
    → String
    → Reason
    → Option ℕ
    → Chat
    → List Claim
    → Result (Chat × List Claim)
unfolding relay_call claim_call_history
call_end redis now clock org_id user conversation_id call_id reason duration chat seen = do
  (conv, chat') ← relay_call org_id user conversation_id call_over chat
  ok (record_end redis now clock call_id conv (call_history_text reason duration) chat' seen)
