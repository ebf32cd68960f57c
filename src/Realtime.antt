-- ===== src/Realtime.antt =====
-- The hub of realtime events: backend/app/realtime/hub.py. A connection is a mailbox of one socket,
-- told apart by `id` where Python compares objects. What Redis answers is an input. Live sockets are
-- counted in the process, or in a hash of Redis that all workers share.
pub mod Hub
pub mod Online
use attendance.Prelude.{
  ℕ, zero, suc, String, Bool, true, false, Option, none, some, List, [], ◌∷◌, ◌++◌, ◌-◌, ◌==◌, ◌&&◌,
  not, ltb, leb, if◌then◌else◌, length, select, map, member,
}
use attendance.Prelude.Int.{ℤ, pos, negsuc, ltb_ℤ}
use attendance.Attendance.Duplicates.{Reply, disabled, unreachable, answered}

abbrev pub max_queued_events : ℕ
max_queued_events = 100

abbrev pub max_connections_per_user : ℕ
max_connections_per_user = 8

pub record Message : Type 0 where
  pub org_id : Option ℕ
  pub to : Option (List ℕ)
  pub body : String

-- `org_ids`: the company roots it hears of, or none for all.
pub record Connection : Type 0 where
  pub id : ℕ
  pub user_id : ℕ
  pub org_ids : Option (List ℕ)
  pub queue : List Message

abbrev pub is_of : ℕ → Connection → Bool
is_of user c = c.user_id == user

abbrev pub register_into : Bool → Connection → List Connection → Option Connection × List Connection
register_into true conn connections = (none, connections)
register_into false conn connections = (some conn, connections ++ conn ∷ [])

pub register : ℕ → ℕ → Option (List ℕ) → List Connection → Option Connection × List Connection
register new_id user_id org_ids connections =
    let conn : Connection = record {
      id = new_id;
      user_id = user_id;
      org_ids = org_ids;
      queue = [];
    } in
    let active = length (select (is_of user_id) connections) in
    register_into (leb max_connections_per_user active) conn connections

pub unregister : ℕ → List Connection → List Connection
unregister id connections = select (λ c. not (c.id == id)) connections

abbrev hears : Option ℕ → Option (List ℕ) → Bool
hears org none = true
hears none (some ids) = false
hears (some org) (some ids) = member org ids

abbrev pub is_target : Option ℕ → Option (List ℕ) → Connection → Bool
is_target org (some users) c = member c.user_id users
is_target org none c = hears org c.org_ids

-- `put_nowait`: a full queue drops the message.
abbrev pub put_nowait : Message → Connection → Connection
put_nowait m c =
    if ltb (length c.queue) max_queued_events then record c { queue = c.queue ++ m ∷ [] } else c

pub deliver_local : Option ℕ → Message → Option (List ℕ) → List Connection → List Connection
deliver_local org m users connections =
    map (λ c. if is_target org users c then put_nowait m c else c) connections

-- What a publish does here: a message that Redis took reaches this process by the subscription.
pub publish : Reply (Unit {0}) → Message → List Connection → List Connection
publish (answered _) m connections = connections
publish disabled m connections = deliver_local m.org_id m m.to connections
publish unreachable m connections = deliver_local m.org_id m m.to connections

-- One message that the subscriber loop received.
pub consume_message : Message → List Connection → List Connection
consume_message m connections = deliver_local m.org_id m m.to connections

-- Live sockets by company root and user.
pub record Presence : Type 0 where
  pub org_id : ℕ
  pub user_id : ℕ
  pub sockets : ℕ

abbrev pub has_pair : ℕ → ℕ → Presence → Bool
has_pair org user p = p.org_id == org && p.user_id == user

abbrev pub get_count : ℕ → ℕ → List Presence → ℕ
get_count org user [] = 0
get_count org user (p ∷ ps) =
    let rest = get_count org user ps in if has_pair org user p then p.sockets else rest

abbrev pub set_count : ℕ → ℕ → ℕ → List Presence → List Presence
set_count org user n [] = record { org_id = org; user_id = user; sockets = n } ∷ []
set_count org user n (p ∷ ps) =
    let rest = set_count org user n ps in
    if has_pair org user p then record p { sockets = n } ∷ ps else p ∷ rest

abbrev pub pop_count : ℕ → ℕ → List Presence → List Presence
pop_count org user ps = select (λ p. not (has_pair org user p)) ps

abbrev is_one : ℤ → Bool
is_one (pos n) = n == 1
is_one (negsuc n) = false

-- One `hincrby` of a company's hash by one: the count after it, or none where Redis raises. The
-- roots that have come online before the failure are still answered.
pub presence_connect_shared : List (ℕ × Option ℤ) → List ℕ
presence_connect_shared [] = []
presence_connect_shared ((org, none) ∷ replies) = []
presence_connect_shared ((org, some n) ∷ replies) =
    let became = presence_connect_shared replies in if is_one n then org ∷ became else became

-- A `hincrby` by minus one, and whether the `hdel` of a count that is used up succeeds.
pub presence_disconnect_shared : List (ℕ × Option ℤ × Bool) → List ℕ
presence_disconnect_shared [] = []
presence_disconnect_shared ((org, none, deleted) ∷ replies) = []
presence_disconnect_shared ((org, some n, deleted) ∷ replies) =
    let gone = presence_disconnect_shared replies in
    if ltb_ℤ n (pos 1) then (if deleted then org ∷ gone else []) else gone

-- Without Redis: the company roots where the user came online, and the counters.
pub presence_connect : ℕ → List ℕ → List Presence → List ℕ × List Presence
presence_connect user [] counts = ([], counts)
presence_connect user (org ∷ orgs) counts =
    let n = suc (get_count org user counts) in
    let (became, counts') = presence_connect user orgs (set_count org user n counts) in
    ((if n == 1 then org ∷ became else became), counts')

-- Without Redis: the company roots where the user went offline. A count of none less one is below zero.
pub presence_disconnect : ℕ → List ℕ → List Presence → List ℕ × List Presence
presence_disconnect user [] counts = ([], counts)
presence_disconnect user (org ∷ orgs) counts =
    let n = get_count org user counts in
    let (gone, counts') =
      presence_disconnect user orgs
        (if leb n 1 then pop_count org user counts else set_count org user (n - 1) counts) in
    ((if leb n 1 then org ∷ gone else gone), counts')

-- `sorted` of user ids.
abbrev insert_sorted : ℕ → List ℕ → List ℕ
insert_sorted a [] = a ∷ []
insert_sorted a (x ∷ xs) = let rest = insert_sorted a xs in if leb a x then a ∷ x ∷ xs else x ∷ rest

abbrev sorted : List ℕ → List ℕ
sorted [] = []
sorted (x ∷ xs) = insert_sorted x (sorted xs)

-- The roster of a company in Redis, or none where Redis raises.
pub online_user_ids_shared : Option ℕ → Option (List ℕ) → List ℕ
online_user_ids_shared none fields = []
online_user_ids_shared (some org) none = []
online_user_ids_shared (some org) (some fields) = sorted fields

-- Without Redis.
pub online_user_ids : Option ℕ → List Presence → List ℕ
online_user_ids none counts = []
online_user_ids (some org) counts =
    sorted (map (λ p. p.user_id) (select (λ p. p.org_id == org && ltb 0 p.sockets) counts))
