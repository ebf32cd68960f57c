-- ===== src/Realtime/Hub.antt =====
-- Who hears what, and the bounds of the hub.
use attendance.Prelude.{
  some, ℕ, Bool, true, false, Option, none, List, [], ◌∷◌, ◌++◌, ◌≤◌, ◌==◌, not, leb, if◌then◌else◌,
  length, select, ◌≡◌, refl, All, ap, ◌∙◌, sym, arith, Bool-cases, inl, inr, length-append,
  select-append, ==_iff, member,
}
use attendance.Attendance.Duplicates.{Reply, disabled, unreachable, answered}
use attendance.Realtime.{
  register_into, Message, Connection, max_queued_events, max_connections_per_user, is_of, is_target,
  put_nowait, hears, register, deliver_local, publish,
}

-- Some companies are watched, and the event's is none of them: an event for no company is for none
-- of them either.
abbrev pub watches_others : Option ℕ → Option (List ℕ) → Bool
watches_others org none = false
watches_others none (some ids) = true
watches_others (some o) (some ids) = not (member o ids)

abbrev pub is_outsider : Option ℕ → Connection → Bool
is_outsider org c = watches_others org c.org_ids

hears_lem : (org : Option ℕ) (ids : Option (List ℕ)) → watches_others org ids ≡ not (hears org ids)
hears_lem org none = refl
hears_lem none (some ids) = refl
hears_lem (some o) (some ids) = refl

put_nowait-queue :
    (m : Message) (c : Connection)
    → length c.queue ≤ max_queued_events
    → length (put_nowait m c).queue ≤ max_queued_events
put_nowait-queue m c h = ground (arith, length-append c.queue (m ∷ []))

put_nowait-org_ids : (m : Message) (c : Connection) → (put_nowait m c).org_ids ≡ c.org_ids
put_nowait-org_ids m c = ground arith

outsider-kept :
    (org : Option ℕ) (m : Message) (b : Bool) (c : Connection) (xs ys : List Connection)
    → hears org c.org_ids ≡ b
    → xs ≡ ys
    → (let c' = if b then put_nowait m c else c in if is_outsider org c' then c' ∷ xs else xs)
      ≡ (if is_outsider org c then c ∷ ys else ys)
outsider-kept org m true c xs ys h e =
    let deaf : is_outsider org c ≡ false = hears_lem org c.org_ids ∙ ap not h in
    ap (λ b. if b then put_nowait m c ∷ xs else xs)
      (ap (watches_others org) (put_nowait-org_ids m c) ∙ deaf)
    ∙ e
    ∙ sym (ap (λ b. if b then c ∷ ys else ys) deaf)
outsider-kept org m false c xs ys h e = ap (λ zs. if is_outsider org c then c ∷ zs else zs) e

-- A broadcast for a company, or for none, leaves the mailbox of every connection that watches
-- only other companies as it was.
pub deliver_local-outsiders :
    (org : Option ℕ) (m : Message) (connections : List Connection)
    → select (is_outsider org) (deliver_local org m none connections)
      ≡ select (is_outsider org) connections
unfolding deliver_local
deliver_local-outsiders org m [] = refl
deliver_local-outsiders org m (c ∷ cs) =
    outsider-kept org m (hears org c.org_ids) c _ _ refl (deliver_local-outsiders org m cs)

if_target-queue :
    (b : Bool) (m : Message) (c : Connection)
    → length c.queue ≤ max_queued_events
    → length (if b then put_nowait m c else c).queue ≤ max_queued_events
if_target-queue true m c h = put_nowait-queue m c h
if_target-queue false m c h = h

deliver_local-bounded :
    (org : Option ℕ) (m : Message) (users : Option (List ℕ)) (connections : List Connection)
    → All (λ c. length c.queue ≤ max_queued_events) connections
    → All (λ c. length c.queue ≤ max_queued_events) (deliver_local org m users connections)
unfolding deliver_local
deliver_local-bounded org m users [] h = tt
deliver_local-bounded org m users (c ∷ cs) h =
    (if_target-queue (is_target org users c) m c h.0, deliver_local-bounded org m users cs h.1)

-- Mailboxes within their bound stay within it, whoever publishes what and whatever Redis does.
pub publish-bounded :
    (redis : Reply (Unit {0})) (m : Message) (connections : List Connection)
    → All (λ c. length c.queue ≤ max_queued_events) connections
    → All (λ c. length c.queue ≤ max_queued_events) (publish redis m connections)
unfolding publish
publish-bounded (answered _) m connections h = h
publish-bounded disabled m connections h = deliver_local-bounded m.org_id m m.to connections h
publish-bounded unreachable m connections h = deliver_local-bounded m.org_id m m.to connections h

same_user :
    (a b : ℕ) (cs : List Connection)
    → (a == b) ≡ true
    → length (select (is_of a) cs) ≡ length (select (is_of b) cs)
same_user a b cs e = ap (λ u. length (select (is_of u) cs)) ((==_iff a b).0 e)

one_more :
    (user : ℕ) (conn : Connection) (cs : List Connection)
    → length (select (is_of user) cs) ≤ max_connections_per_user
    → leb max_connections_per_user (length (select (is_of conn.user_id) cs)) ≡ false
    → length (select (is_of user) (cs ++ conn ∷ [])) ≤ max_connections_per_user
one_more user conn cs h room = rw (select-append (is_of user) cs (conn ∷ [])) (
    rw (length-append (select (is_of user) cs) (select (is_of user) (conn ∷ [])))
      (elim (Bool-cases (conn.user_id == user)) [
        | inl same ↦ rw same (ground (arith, same_user conn.user_id user cs same))
        | inr other ↦ rw other (ground arith)
      ]))

register_if :
    (b : Bool) (user : ℕ) (conn : Connection) (cs : List Connection)
    → length (select (is_of user) cs) ≤ max_connections_per_user
    → leb max_connections_per_user (length (select (is_of conn.user_id) cs)) ≡ b
    → length (select (is_of user) (register_into b conn cs).1) ≤ max_connections_per_user
register_if true user conn cs h e = h
register_if false user conn cs h e = one_more user conn cs h e

-- Where no user has more than the largest number of connections, none has after a registration.
pub register-capped :
    (new_id user_id : ℕ) (org_ids : Option (List ℕ)) (connections : List Connection)
    → ((user : ℕ) → length (select (is_of user) connections) ≤ max_connections_per_user)
    → (user : ℕ)
    → length (select (is_of user) (register new_id user_id org_ids connections).1)
      ≤ max_connections_per_user
unfolding register
register-capped new_id user_id org_ids connections h user =
    register_if (leb max_connections_per_user (length (select (is_of user_id) connections))) user _
      connections (h user) refl
