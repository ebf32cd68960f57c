-- ===== src/RateLimit.antt =====
-- The rate limiter: backend/app/core/rate_limit.py. The monotonic clock is an argument, in the unit of
-- the window; a key is the text of the name of the limit and the address of the client.
pub mod Window
use text.Mathlib.Text.{◌==◌ as str_eq}
use attendance.Prelude.Int.{ℤ, pos, negsuc}
use attendance.Prelude.Errors.{Result, ok, err, too_many_requests}
use attendance.Attendance.Duplicates.{Reply, disabled, unreachable, answered}
use attendance.Prelude.{
  Option, none, some, ◌||◌, ◌==◌, true, false, ℕ, String, Bool, List, [], ◌∷◌, ◌++◌, ◌+◌, not, ltb,
  leb, if◌then◌else◌, length, select,
}

-- One entry of `_hits`.
pub record Bucket : Type 0 where
  pub key : String
  pub times : List ℕ

abbrev pub max_tracked_keys : ℕ
max_tracked_keys = 50_000

abbrev pub get_times : String → List Bucket → List ℕ
get_times key [] = []
get_times key (b ∷ bs) = let rest = get_times key bs in if str_eq b.key key then b.times else rest

abbrev pub put_times : String → List ℕ → List Bucket → List Bucket
put_times key times [] = record { key = key; times = times } ∷ []
put_times key times (b ∷ bs) =
    let rest = put_times key times bs in
    if str_eq b.key key then record b { times = times } ∷ bs else b ∷ rest

-- `t < now - window_seconds`
abbrev pub is_past : ℕ → ℕ → ℕ → Bool
is_past now window t = ltb (t + window) now

-- The pops from the left while the oldest entry is before the cutoff.
abbrev pub evict : ℕ → ℕ → List ℕ → List ℕ
evict now window [] = []
evict now window (t ∷ ts) =
    let rest = evict now window ts in if is_past now window t then rest else t ∷ ts

abbrev pub is_idle : ℕ → ℕ → List ℕ → Bool
is_idle now window [] = true
is_idle now window (t ∷ []) = is_past now window t
is_idle now window (t ∷ u ∷ ts) = is_idle now window (u ∷ ts)

abbrev pub purge_if_needed : ℕ → ℕ → List Bucket → List Bucket
purge_if_needed now window hits =
    let kept = select (λ b. not (is_idle now window b.times)) hits in
    if leb (length hits) max_tracked_keys
    then hits
    else if ltb max_tracked_keys (length kept)
    then []
    else kept

-- Whether a request is allowed, with the time of its bucket's requests in the window.
abbrev pub decide : Bool → String → ℕ → ℕ → List ℕ → List Bucket → Bool × List Bucket
decide true key window now bucket hits = (false, put_times key bucket hits)
decide false key window now bucket hits =
    (true, purge_if_needed now window (put_times key (bucket ++ now ∷ []) hits))

unfoldable pub allow_in_memory : String → ℕ → ℕ → ℕ → List Bucket → Bool × List Bucket
allow_in_memory key max_requests window now hits =
    let bucket = evict now window (get_times key hits) in
    decide (leb max_requests (length bucket)) key window now bucket hits

-- The fixed window in Redis: `incr` answers how many requests the window has now. Nothing is
-- answered when Redis is off or unreachable.
abbrev pub allow_redis : Reply ℕ → ℕ → Option Bool
allow_redis disabled max_requests = none
allow_redis unreachable max_requests = none
allow_redis (answered count) max_requests = some (leb count max_requests)

abbrev pub allow : Option Bool → String → ℕ → ℕ → ℕ → List Bucket → Bool × List Bucket
allow none key max_requests window now hits = allow_in_memory key max_requests window now hits
allow (some allowed) key max_requests window now hits = (allowed, hits)

abbrev pub or_refuse : Bool × List Bucket → Result (List Bucket)
or_refuse (true, hits) = ok hits
or_refuse (false, hits) = err too_many_requests

-- The dependency of a route. A limit that is not positive limits nothing.
unfoldable pub rate_limit : Bool → Reply ℕ → String → ℤ → ℕ → ℕ → List Bucket → Result (List Bucket)
rate_limit enabled redis key (negsuc n) window now hits = ok hits
rate_limit enabled redis key (pos n) window now hits =
    if not enabled || n == 0
    then ok hits
    else or_refuse (allow (allow_redis redis n) key n window now hits)
