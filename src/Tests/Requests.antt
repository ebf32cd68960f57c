-- ===== src/Tests/Requests.antt =====
-- Requests of one client against a limit.
use attendance.Prelude.{◌≤◌, ◌≡◌, length, List, [], ◌∷◌, All, arith, true, refl}
use attendance.Prelude.Int.{pos}
use attendance.Prelude.Errors.{err, too_many_requests}
use attendance.Attendance.Duplicates.{disabled}
use attendance.RateLimit.{rate_limit, Bucket, allow_in_memory}
use attendance.RateLimit.Window.{rate_limit-recent, allow_in_memory-IsBounded}

abbrev hits : List Bucket
hits = record { key = "login:10.0.0.1"; times = 5 ∷ 70 ∷ 80 ∷ [] } ∷ []

rate_limit-recent_example :
    rate_limit true disabled "login:10.0.0.1" (pos 2) 60 90 hits ≡ err too_many_requests
rate_limit-recent_example =
    (rate_limit-recent disabled "login:10.0.0.1" 2 60 90 hits refl (omega arith)
        ((omega arith, (omega arith, tt)), ((omega arith, tt), (tt, tt)))).0
      (omega arith)

allow_in_memory-IsBounded_example :
    All (λ b. length b.times ≤ 3) (allow_in_memory "login:10.0.0.1" 3 60 90 hits).1
allow_in_memory-IsBounded_example =
    allow_in_memory-IsBounded "login:10.0.0.1" 3 60 90 hits (omega arith, tt)
