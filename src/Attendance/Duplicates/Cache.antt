-- ===== src/Attendance/Duplicates/Cache.antt =====
-- The cache of recent punches: its size, and what an armed or cleared key reads as.
use attendance.Prelude.{
  ℕ, suc, ◌≤◌, ◌<◌, ◌≡◌, true, false, [], ◌∷◌, none, some, arith, if◌then◌else◌, length, Bool-cases,
  inl, inr, refl, ==_refl, ap,
}
use attendance.Clock.{shorter_than}
use attendance.Prelude.Int.{pos, ◌-ℤ◌}
use attendance.Attendance.Tables.{Settings}
use attendance.Attendance.Duplicates.{
  Source, same_source, face, rfid, DupKey, same_key, DupCache, dup_cache_max, get_mark, set_mark,
  pop_mark, Reply, disabled, unreachable, answered, Marks, check_duplicate_local, prune_dup_cache,
  arm_duplicate_local, check_duplicate_shared, arm_duplicate_shared, clear_duplicate_marker,
}

same_source_refl : (s : Source) → same_source s s ≡ true
same_source_refl face = refl
same_source_refl rfid = refl

same_key_refl : (k : DupKey) → same_key k k ≡ true
same_key_refl k = rw (same_source_refl k.source, ==_refl k.employee)

get_mark-set_mark_self : (k : DupKey) (t : ℕ) (c : DupCache) → get_mark k (set_mark k t c) ≡ some t
get_mark-set_mark_self k t [] = rw (same_key_refl k)
get_mark-set_mark_self k t ((j, u) ∷ c) = elim (Bool-cases (same_key j k)) [
  | inl same ↦ rw same (rw same)
  | inr other ↦ rw other (rw other (get_mark-set_mark_self k t c))
]

length-set_mark : (k : DupKey) (t : ℕ) (c : DupCache) → length (set_mark k t c) ≤ suc (length c)
length-set_mark k t [] = omega arith
length-set_mark k t ((j, u) ∷ c) = elim (Bool-cases (same_key j k)) [
  | inl same ↦ rw same (omega arith)
  | inr other ↦ rw other (omega (arith, length-set_mark k t c))
]

length-prune_dup_cache :
    (settings : Settings) (now : ℕ) (c : DupCache)
    → length (prune_dup_cache settings now c) < dup_cache_max
unfolding prune_dup_cache
length-prune_dup_cache settings now c = ground arith

length-arm_duplicate_local :
    (settings : Settings) (key : DupKey) (now : ℕ) (c : DupCache)
    → length (arm_duplicate_local settings key now c) ≤ dup_cache_max
unfolding arm_duplicate_local
length-arm_duplicate_local settings key now c = omega (
  arith,
  length-set_mark key now (prune_dup_cache settings now c),
  length-prune_dup_cache settings now c,
)

-- Arming a key, whatever Redis answers, keeps a cache that is within its largest size within it.
pub length-arm_duplicate_shared :
    (settings : Settings) (r : Reply (Unit {0})) (key : DupKey) (window now : ℕ) (m : Marks)
    → length m.dup_cache ≤ dup_cache_max
    → length (arm_duplicate_shared settings r key window now m).dup_cache ≤ dup_cache_max
unfolding arm_duplicate_shared
length-arm_duplicate_shared settings disabled key window now m h =
    length-arm_duplicate_local settings key now m.dup_cache
length-arm_duplicate_shared settings unreachable key window now m h =
    length-arm_duplicate_local settings key now m.dup_cache
length-arm_duplicate_shared settings (answered _) key window now m h = h

check_duplicate_local-some :
    (key : DupKey) (window now last : ℕ) (c : DupCache)
    → get_mark key c ≡ some last
    → check_duplicate_local key window now c ≡ shorter_than (pos now -ℤ pos last) window
unfolding check_duplicate_local
check_duplicate_local-some key window now last c e = rw (e, check_duplicate_local)

-- With Redis switched off, a key that was armed reads as a duplicate until its window has passed,
-- and as new from then on.
pub check-arm_duplicate_shared :
    (settings : Settings) (key : DupKey) (window armed now : ℕ) (m : Marks)
    → check_duplicate_shared disabled key window now
        (arm_duplicate_shared settings disabled key window armed m)
      ≡ shorter_than (pos now -ℤ pos armed) window
unfolding check_duplicate_shared arm_duplicate_shared
check-arm_duplicate_shared settings key window armed now m =
    check_duplicate_local-some key window now armed _
      (get_mark-set_mark_self key armed (prune_dup_cache settings armed m.dup_cache))

check_duplicate_local-none :
    (key : DupKey) (window now : ℕ) (c : DupCache)
    → get_mark key c ≡ none
    → check_duplicate_local key window now c ≡ false
unfolding check_duplicate_local
check_duplicate_local-none key window now c e = rw (e, check_duplicate_local)

-- A key stands at most once.
abbrev pub HasUniqueKeys : DupCache → Type 0
HasUniqueKeys [] = Unit
HasUniqueKeys ((k, t) ∷ c) = (get_mark k c ≡ none) × HasUniqueKeys c

same_key-eq : (j k : DupKey) → same_key j k ≡ true → j ≡ k
same_key-eq j k h = ground arith

get_mark-pop_mark_self :
    (k : DupKey) (c : DupCache) → HasUniqueKeys c → get_mark k (pop_mark k c) ≡ none
get_mark-pop_mark_self k [] h = refl
get_mark-pop_mark_self k ((j, u) ∷ c) h = elim (Bool-cases (same_key j k)) [
  | inl same ↦ rw same (rw (← same_key-eq j k same) h.0)
  | inr other ↦ rw other (rw other (get_mark-pop_mark_self k c h.1))
]

get_mark-set_mark_ne :
    (j k : DupKey) (t : ℕ) (c : DupCache)
    → same_key k j ≡ false
    → get_mark j (set_mark k t c) ≡ get_mark j c
get_mark-set_mark_ne j k t [] h = rw h
get_mark-set_mark_ne j k t ((i, u) ∷ c) h = elim (Bool-cases (same_key i k)) [
  | inl same ↦ let apart : same_key i j ≡ false = rw (same_key-eq i k same) h in rw same (rw apart)
  | inr other ↦
      rw other (ap (λ o. if same_key i j then some u else o) (get_mark-set_mark_ne j k t c h))
]

-- With Redis switched off and the keys of the cache unique, a cleared marker of an employee no
-- longer reads as a duplicate.
pub check-clear_duplicate_marker :
    (employee_id window now : ℕ) (method : Source) (m : Marks)
    → HasUniqueKeys m.dup_cache
    → check_duplicate_shared disabled
        (record { source = method; employee = employee_id })
        window
        now
        (clear_duplicate_marker disabled employee_id method m)
      ≡ false
unfolding check_duplicate_shared clear_duplicate_marker
check-clear_duplicate_marker employee_id window now method m h =
    check_duplicate_local-none (record { source = method; employee = employee_id }) window now _
      (get_mark-pop_mark_self (record { source = method; employee = employee_id }) m.dup_cache h)
