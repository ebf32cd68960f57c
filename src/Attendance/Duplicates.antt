-- ===== src/Attendance/Duplicates.antt =====
-- The duplicate fast path of backend/app/services/attendance_service.py: the in-process cache of
-- recent punches, and the marker that Redis holds for all workers. What Redis answers is an input,
-- and what it is told is recorded in `sent`.
pub mod Cache
use attendance.Prelude.{
  ℕ, ◌+◌, ◌*◌, Bool, true, false, Option, none, some, List, [], ◌∷◌, ◌++◌, not, ltb, leb, ◌==◌,
  ◌&&◌, if◌then◌else◌, length, select, max,
}
use attendance.Prelude.Int.{pos, ◌-ℤ◌}
use attendance.Clock.{second, shorter_than}
use attendance.Attendance.Tables.{Settings}

pub data Source : Type 0 where
  face rfid : Source

abbrev pub same_source : Source → Source → Bool
same_source face face = true
same_source rfid rfid = true
same_source _ _ = false

-- The key `f"{method}:{employee_id}"`.
pub record DupKey : Type 0 where
  pub source : Source
  pub employee : ℕ

abbrev pub same_key : DupKey → DupKey → Bool
same_key a b = same_source a.source b.source && a.employee == b.employee

-- A Python dict from keys to instants, in insertion order.
abbrev pub DupCache : Type 0
DupCache = List (DupKey × ℕ)

abbrev pub dup_cache_max : ℕ
dup_cache_max = 10_000

abbrev pub get_mark : DupKey → DupCache → Option ℕ
get_mark k [] = none
get_mark k ((j, t) ∷ c) = if same_key j k then some t else get_mark k c

abbrev pub set_mark : DupKey → ℕ → DupCache → DupCache
set_mark k t [] = (k, t) ∷ []
set_mark k t ((j, u) ∷ c) =
    let rest = set_mark k t c in if same_key j k then (j, t) ∷ c else (j, u) ∷ rest

abbrev pub pop_mark : DupKey → DupCache → DupCache
pop_mark k [] = []
pop_mark k ((j, t) ∷ c) = let rest = pop_mark k c in if same_key j k then c else (j, t) ∷ rest

-- A call of Redis: switched off, failed with a `RedisError`, or answered.
pub data Reply (A : Type 0) : Type 0 where
  disabled : Reply A
  unreachable : Reply A
  answered : A → Reply A

pub data Command : Type 0 where
  set_nx_ex : DupKey → ℕ → Command
  delete : DupKey → Command

pub record Marks : Type 0 where
  pub dup_cache : DupCache
  pub sent : List Command

pub check_duplicate_local : DupKey → ℕ → ℕ → DupCache → Bool
check_duplicate_local key window now cache = elim (get_mark key cache) [
  | none ↦ false
  | some last ↦ shorter_than (pos now -ℤ pos last) window
]

-- Entries from before the cutoff go; if all are fresh, everything goes.
pub prune_dup_cache : Settings → ℕ → DupCache → DupCache
prune_dup_cache settings now cache =
    let window =
      max settings.face_duplicate_window_seconds settings.rfid_duplicate_window_seconds in
    let kept = select (λ e. not (ltb (e.1 + window * second) now)) cache in
    if ltb (length cache) dup_cache_max
    then cache
    else if leb dup_cache_max (length kept)
    then []
    else kept

pub arm_duplicate_local : Settings → DupKey → ℕ → DupCache → DupCache
unfolding prune_dup_cache
arm_duplicate_local settings key now cache = set_mark key now (prune_dup_cache settings now cache)

-- `redis.get` answers whether the key is there.
pub check_duplicate_shared : Reply Bool → DupKey → ℕ → ℕ → Marks → Bool
unfolding check_duplicate_local
check_duplicate_shared (answered hit) key window now m = hit
check_duplicate_shared disabled key window now m = check_duplicate_local key window now m.dup_cache
check_duplicate_shared unreachable key window now m =
    check_duplicate_local key window now m.dup_cache

pub arm_duplicate_shared : Settings → Reply (Unit {0}) → DupKey → ℕ → ℕ → Marks → Marks
unfolding arm_duplicate_local
arm_duplicate_shared settings (answered _) key window now m = record m {
  sent = m.sent ++ set_nx_ex key window ∷ [];
}
arm_duplicate_shared settings disabled key window now m = record m {
  dup_cache = arm_duplicate_local settings key now m.dup_cache;
}
arm_duplicate_shared settings unreachable key window now m = record m {
  dup_cache = arm_duplicate_local settings key now m.dup_cache;
  sent = m.sent ++ set_nx_ex key window ∷ [];
}

-- The local entry goes first; an enabled Redis is told to drop the marker, whatever it answers.
pub clear_duplicate_marker : Reply (Unit {0}) → ℕ → Source → Marks → Marks
clear_duplicate_marker disabled employee_id method m =
    let key : DupKey = record { source = method; employee = employee_id } in
    record m { dup_cache = pop_mark key m.dup_cache }
clear_duplicate_marker _ employee_id method m =
    let key : DupKey = record { source = method; employee = employee_id } in
    record m { dup_cache = pop_mark key m.dup_cache; sent = m.sent ++ delete key ∷ [] }
