-- ===== src/RateLimit/Window.antt =====
-- The sliding window and its bound.
use text.Mathlib.Text.{◌==◌ as str_eq}
use attendance.Prelude.{
  ◌<◌, ◌==◌, none, sym, ℕ, String, Bool, true, false, List, [], ◌∷◌, ◌++◌, ◌≤◌, ◌≡◌, refl, not, ltb,
  leb, if◌then◌else◌, length, select, All, All-select, arith, Bool-cases, inl, inr, length-append,
  ap, ◌∙◌,
}
use attendance.Prelude.Int.{pos}
use attendance.Prelude.Errors.{ok, err, too_many_requests}
use attendance.Attendance.Duplicates.{Reply}
use attendance.RateLimit.{
  allow_redis, allow, or_refuse, rate_limit, Bucket, get_times, put_times, is_past, is_idle, evict,
  purge_if_needed, decide, allow_in_memory, max_tracked_keys,
}

-- Times in the order of their requests.
abbrev pub IsOrdered : List ℕ → Type 0
IsOrdered [] = Unit
IsOrdered (t ∷ ts) = All (λ u. t ≤ u) ts × IsOrdered ts

-- The requests of the last window.
abbrev pub recent : ℕ → ℕ → List ℕ → List ℕ
recent now window times = select (λ t. not (is_past now window t)) times

recent-eq_self :
    (now window t : ℕ) (ts : List ℕ)
    → is_past now window t ≡ false
    → All (λ u. t ≤ u) ts
    → recent now window ts ≡ ts
recent-eq_self now window t [] h a = refl
recent-eq_self now window t (u ∷ us) h a = ground (arith, recent-eq_self now window t us h a.1)

-- In order, the eviction leaves the requests of the window.
evict-recent :
    (now window : ℕ) (ts : List ℕ) → IsOrdered ts → evict now window ts ≡ recent now window ts
evict-recent now window [] o = refl
evict-recent now window (t ∷ ts) o = elim (Bool-cases (is_past now window t)) [
  | inl past ↦ rw past (evict-recent now window ts o.1)
  | inr fresh ↦ rw fresh (ap (λ l. t ∷ l) (sym (recent-eq_self now window t ts fresh o.0)))
]

decide-fst :
    (b : Bool) (key : String) (window now : ℕ) (bucket : List ℕ) (hits : List Bucket)
    → (decide b key window now bucket hits).0 ≡ not b
decide-fst true key window now bucket hits = refl
decide-fst false key window now bucket hits = refl

-- Where the requests of a key stand in the order of their times, the next one is allowed exactly
-- when fewer than the allowed number of them fall in the window that ends now.
pub allow_in_memory-recent :
    (key : String) (max_requests window now : ℕ) (hits : List Bucket)
    → IsOrdered (get_times key hits)
    → (allow_in_memory key max_requests window now hits).0
      ≡ not (leb max_requests (length (recent now window (get_times key hits))))
unfolding allow_in_memory
allow_in_memory-recent key max_requests window now hits o =
    decide-fst (leb max_requests (length (evict now window (get_times key hits)))) key window now
      (evict now window (get_times key hits)) hits
    ∙ ap (λ l. not (leb max_requests (length l))) (evict-recent now window (get_times key hits) o)

abbrev pub IsBounded : ℕ → List Bucket → Type 0
IsBounded n hits = All (λ b. length b.times ≤ n) hits

length-get_times :
    (n : ℕ) (key : String) (hits : List Bucket) → IsBounded n hits → length (get_times key hits) ≤ n
length-get_times n key [] h = omega arith
length-get_times n key (b ∷ bs) h = ground (arith, length-get_times n key bs h.1)

put_times-IsBounded :
    (n : ℕ) (key : String) (times : List ℕ) (hits : List Bucket)
    → length times ≤ n
    → IsBounded n hits
    → IsBounded n (put_times key times hits)
put_times-IsBounded n key times [] l h = (l, tt)
put_times-IsBounded n key times (b ∷ bs) l h = elim (Bool-cases (str_eq b.key key)) [
  | inl same ↦ rw same (l, h.1)
  | inr other ↦ rw other (h.0, put_times-IsBounded n key times bs l h.1)
]

purge-IsBounded :
    (n now window : ℕ) (hits : List Bucket)
    → IsBounded n hits
    → IsBounded n (purge_if_needed now window hits)
purge-IsBounded n now window hits h = elim (Bool-cases (leb (length hits) max_tracked_keys)) [
  | inl small ↦ rw small h
  | inr large ↦
      rw large
        (kept (ltb max_tracked_keys (length (select (λ b. not (is_idle now window b.times)) hits))))
]
  where
    kept :
        (c : Bool)
        → IsBounded n (if c then [] else select (λ b. not (is_idle now window b.times)) hits)
    kept true = tt
    kept false =
        All-select (λ b. length b.times ≤ n) (λ b. length b.times ≤ n)
          (λ b. not (is_idle now window b.times)) hits (λ b e l. l) h

length-evict : (now window : ℕ) (ts : List ℕ) → length (evict now window ts) ≤ length ts
length-evict now window [] = omega arith
length-evict now window (t ∷ ts) = ground (arith, length-evict now window ts)

decide-IsBounded :
    (b : Bool) (key : String) (n window now : ℕ) (bucket : List ℕ) (hits : List Bucket)
    → leb n (length bucket) ≡ b
    → length bucket ≤ n
    → IsBounded n hits
    → IsBounded n (decide b key window now bucket hits).1
decide-IsBounded true key n window now bucket hits e l h = put_times-IsBounded n key bucket hits l h
decide-IsBounded false key n window now bucket hits e l h = purge-IsBounded n now window _ (
    put_times-IsBounded n key (bucket ++ now ∷ []) hits
      (ground (arith, length-append bucket (now ∷ []))) h)

-- Where no key holds more times than the allowed number, none does after a request, allowed or
-- not, with or without a purge.
pub allow_in_memory-IsBounded :
    (key : String) (max_requests window now : ℕ) (hits : List Bucket)
    → IsBounded max_requests hits
    → IsBounded max_requests (allow_in_memory key max_requests window now hits).1
unfolding allow_in_memory
allow_in_memory-IsBounded key max_requests window now hits h =
    decide-IsBounded (leb max_requests (length (evict now window (get_times key hits)))) key
      max_requests window now (evict now window (get_times key hits)) hits refl
      (omega (
        arith,
        length-evict now window (get_times key hits),
        length-get_times max_requests key hits h,
      ))
      h

refused-or_refuse : (p : Bool × List Bucket) → p.0 ≡ false → or_refuse p ≡ err too_many_requests
refused-or_refuse (true, hits) h = cc
refused-or_refuse (false, hits) h = refl

allowed-or_refuse :
    (p : Bool × List Bucket) → p.0 ≡ true → (hits : List Bucket) × (or_refuse p ≡ ok hits)
allowed-or_refuse (true, hits) h = (hits, refl)
allowed-or_refuse (false, hits) h = cc

rate_limit-allow_in_memory :
    (redis : Reply ℕ) (key : String) (n window now : ℕ) (hits : List Bucket)
    → allow_redis redis n ≡ none
    → 1 ≤ n
    → rate_limit true redis key (pos n) window now hits
      ≡ or_refuse (allow_in_memory key n window now hits)
unfolding rate_limit
rate_limit-allow_in_memory redis key n window now hits silent some' =
    let positive : (n == 0) ≡ false = ground arith in
    rw positive (ap (λ o. or_refuse (allow o key n window now hits)) silent)

-- Where the limit is on and positive, Redis gives no count and the requests of the key stand in
-- the order of their times, a request is refused with too many requests when at least the allowed
-- number of them fall in the window that ends now, and passes when fewer do.
pub rate_limit-recent :
    (redis : Reply ℕ) (key : String) (n window now : ℕ) (hits : List Bucket)
    → allow_redis redis n ≡ none
    → 1 ≤ n
    → IsOrdered (get_times key hits)
    → (n ≤ length (recent now window (get_times key hits))
        → rate_limit true redis key (pos n) window now hits ≡ err too_many_requests)
      × (length (recent now window (get_times key hits)) < n
          → (hits' : List Bucket) × (rate_limit true redis key (pos n) window now hits ≡ ok hits'))
rate_limit-recent redis key n window now hits silent some' o =
    let same = rate_limit-allow_in_memory redis key n window now hits silent some' in
    let count = allow_in_memory-recent key n window now hits o in
    (
      λ full.
          same ∙ refused-or_refuse (allow_in_memory key n window now hits) (count ∙ ground arith),
      λ free.
          let (hits', e) =
            allowed-or_refuse (allow_in_memory key n window now hits) (count ∙ ground arith) in
          (hits', same ∙ e),
    )
