-- ===== src/Tests/Limits.antt =====
-- The quota, at concrete inputs.
use thermite_rs.Prelude.{List, [], arith, err, if◌then◌else◌, leb, ok, refl, some, ◌∷◌, ◌≡◌, ◌≤◌}
use thermite_rs.RateLimit.{RateLimiter, check_at, new, seconds_left}
use thermite_rs.RateLimit.Quota.{
  Request, admitted, quota_never_exceeded, refused_exactly_at_limit, run,
}

-- Two requests fill minute 1 of project 7; the third is refused, and minute 2 admits again.
abbrev requests : List Request
requests = (7, 60) ∷ (7, 61) ∷ (8, 62) ∷ (7, 63) ∷ (7, 120) ∷ []

two_admitted : admitted 7 1 (new (some 2)) requests ≡ 2
unfolding admitted new check_at
two_admitted = refl

quota_never_exceeded_example : admitted 7 1 (new (some 2)) requests ≤ 2
quota_never_exceeded_example = quota_never_exceeded 2 (omega arith) 7 1 60 requests (omega arith)

abbrev early : List Request
early = (7, 60) ∷ (7, 61) ∷ (8, 62) ∷ []

refused_exactly_at_limit_example :
    (check_at (run (new (some 2)) early) 7 63).1
    ≡ (if leb 2 (admitted 7 1 (new (some 2)) early) then err (seconds_left 63) else ok tt)
refused_exactly_at_limit_example =
    refused_exactly_at_limit 2 (omega arith) 7 60 63 early (omega arith) (omega arith)

-- A limiter whose project 7 is out of budget in minute 1.
abbrev full : RateLimiter
full = record { per_minute = some 2; windows = λ _. some (record { minute = 1; count = 2 }) }

full_refuses : (check_at full 7 63).1 ≡ err 57
unfolding check_at
full_refuses = refl
