-- ===== src/RateLimit/Quota.antt =====
-- What the limiter admits over every sequence of checks.
use thermite_rs.Prelude.{
  Bool, Bool-cases, List, Option, Result, [], ap, arith, err, false, if◌then◌else◌, inl, inr, leb,
  leb→le, none, ok, refl, some, true, ℕ, ◌%◌, ◌&&◌, ◌+◌, ◌/◌, ◌<◌, ◌==◌, ◌^◌, ◌↔◌, ◌∙◌, ◌∷◌, ◌≡◌,
  ◌≢◌, ◌≤◌,
}
use thermite_rs.RateLimit.{RateLimiter, Window, check_at, exhausted_at, new, seconds_left}

-- A request: the project and the clock reading.
abbrev pub Request : Type 0
Request = ℕ × ℕ

-- The clock does not run backwards, from `t` on.
abbrev Ordered : ℕ → List Request → Type 0
Ordered t [] = Unit
Ordered t ((p, now) ∷ rs) = (t ≤ now) × Ordered now rs

abbrev pub admits : Result ℕ (Unit {0}) → Bool
admits (ok _) = true
admits (err _) = false

-- How many of the requests are project `p`'s, fall in minute `m`, and are admitted.
unfoldable pub admitted : ℕ → ℕ → RateLimiter → List Request → ℕ
admitted p m l [] = 0
admitted p m l ((q, now) ∷ rs) =
    let (l', r) = check_at l q now in
    (if q == p && now / 60 == m && admits r then 1 else 0) + admitted p m l' rs

pub run : RateLimiter → List Request → RateLimiter
run l [] = l
run l ((q, now) ∷ rs) = run (check_at l q now).0 rs

abbrev pub used_in : Option Window → ℕ → ℕ
used_in none m = 0
used_in (some w) m = if w.minute == m then w.count else 0

abbrev pub WindowFits : ℕ → ℕ → Option Window → Type 0
WindowFits limit t none = Unit
WindowFits limit t (some w) = (w.count ≤ limit) × (w.minute ≤ t / 60)

module _ (limit : ℕ) (small : limit < 2 ^ 32) where
  pub check_at-Fits :
      (l : RateLimiter) (p q t now : ℕ)
      → l.per_minute ≡ some limit
      → t ≤ now
      → WindowFits limit t (l.windows p)
      → WindowFits limit now ((check_at l q now).0.windows p)
  unfolding check_at
  check_at-Fits l p q t now e h f = ground (arith, ap l.windows)

  pub check_at-used :
      (l : RateLimiter) (p q t now m : ℕ)
      → l.per_minute ≡ some limit
      → t ≤ now
      → now / 60 ≤ m
      → WindowFits limit t (l.windows p)
      → used_in ((check_at l q now).0.windows p) m
        ≡ (if q == p && now / 60 == m && admits (check_at l q now).1 then 1 else 0)
          + used_in (l.windows p) m
  unfolding check_at
  check_at-used l p q t now m e h k f = ground (arith, ap l.windows)

  pub check_at-per_minute :
      (l : RateLimiter) (q now : ℕ) → (check_at l q now).0.per_minute ≡ l.per_minute
  unfolding check_at
  check_at-per_minute l q now = ground arith

  pub used-le : (w : Option Window) (t m : ℕ) → WindowFits limit t w → used_in w m ≤ limit
  used-le w t m f = ground arith

  admitted_later :
      (p m t : ℕ) (l : RateLimiter) (rs : List Request)
      → m < t / 60
      → Ordered t rs
      → admitted p m l rs ≡ 0
  unfolding admitted
  admitted_later p m t l [] h o = refl
  admitted_later p m t l ((q, now) ∷ rs) h o =
      ground (arith, admitted_later p m now (check_at l q now).0 rs)

  admitted_used-le :
      (p m t : ℕ) (l : RateLimiter) (rs : List Request)
      → l.per_minute ≡ some limit
      → Ordered t rs
      → WindowFits limit t (l.windows p)
      → admitted p m l rs + used_in (l.windows p) m ≤ limit
  unfolding admitted
  admitted_used-le p m t l [] e o f = omega (arith, used-le (l.windows p) t m f)
  admitted_used-le p m t l ((q, now) ∷ rs) e o f = elim (Bool-cases (leb (now / 60) m)) [
    | inl early ↦ omega (
      arith,
      check_at-used l p q t now m e o.0 (leb→le _ _ early) f,
      admitted_used-le p m now (check_at l q now).0 rs (check_at-per_minute l q now ∙ e) o.1
          (check_at-Fits l p q t now e o.0 f),
    )
    | inr late ↦
        ground (arith, used-le (l.windows p) t m f, admitted_later p m now (check_at l q now).0 rs)
  ]

  -- In every minute, over every sequence of checks with a clock that does not run backwards,
  -- a project has at most `limit` events admitted.
  pub quota_never_exceeded :
      (p m t : ℕ) (rs : List Request) → Ordered t rs → admitted p m (new (some limit)) rs ≤ limit
  unfolding new
  quota_never_exceeded p m t rs o =
      omega (arith, admitted_used-le p m t (new (some limit)) rs refl o tt)

  -- Every request of the list comes no later than `now`.
  abbrev Until : ℕ → List Request → Type 0
  Until now [] = Unit
  Until now ((p, at) ∷ rs) = (at ≤ now) × Until now rs

  run_used :
      (p t now : ℕ) (l : RateLimiter) (rs : List Request)
      → l.per_minute ≡ some limit
      → Ordered t rs
      → Until now rs
      → WindowFits limit t (l.windows p)
      → used_in ((run l rs).windows p) (now / 60)
        ≡ admitted p (now / 60) l rs + used_in (l.windows p) (now / 60)
  unfolding admitted run
  run_used p t now l [] e o u f = omega arith
  run_used p t now l ((q, at) ∷ rs) e o u f = omega (
    arith,
    check_at-used l p q t at (now / 60) e o.0 (omega arith) f,
    run_used p at now (check_at l q at).0 rs (check_at-per_minute l q at ∙ e) o.1 u.1
        (check_at-Fits l p q t at e o.0 f),
  )

  run-per_minute : (l : RateLimiter) (rs : List Request) → (run l rs).per_minute ≡ l.per_minute
  unfolding run
  run-per_minute l [] = refl
  run-per_minute l ((q, at) ∷ rs) =
      run-per_minute (check_at l q at).0 rs ∙ check_at-per_minute l q at

  check_at_by_used :
      (l : RateLimiter) (p now : ℕ)
      → l.per_minute ≡ some limit
      → (check_at l p now).1
        ≡ (if leb limit (used_in (l.windows p) (now / 60)) then err (seconds_left now) else ok tt)
  unfolding check_at
  check_at_by_used l p now e = ground arith

  -- With a clock that does not run backwards, the check at `now` of project `p` is refused exactly
  -- if the checks before it admitted `limit` or more of the project's events in the minute of
  -- `now`; the error is the number of seconds left in that minute.
  pub refused_exactly_at_limit :
      (p t now : ℕ) (rs : List Request)
      → Ordered t rs
      → Until now rs
      → (check_at (run (new (some limit)) rs) p now).1 ≡ (
          if leb limit (admitted p (now / 60) (new (some limit)) rs)
          then err (seconds_left now)
          else ok tt)
  unfolding new
  refused_exactly_at_limit p t now rs o u = ground (
    arith,
    check_at_by_used (run (new (some limit)) rs) p now (run-per_minute (new (some limit)) rs),
    run_used p t now (new (some limit)) rs refl o u tt,
  )

-- A refusal carries a wait of 1 to 60 seconds, and it ends exactly at the start of the next
-- minute.
retry_after_window :
    (l : RateLimiter) (p now r : ℕ)
    → (check_at l p now).1 ≡ err r
    → (0 < r) × (r ≤ 60) × ((now + r) % 60 ≡ 0) × ((now + r) / 60 ≡ now / 60 + 1)
unfolding check_at
retry_after_window l p now r h = ground arith

-- For a positive limit, `exhausted_at` reports a wait exactly when `check_at` would refuse, and the
-- same wait; it returns no new limiter, so it charges nothing.
pub exhausted_iff_refused :
    (l : RateLimiter) (limit p now r : ℕ)
    → l.per_minute ≡ some limit
    → 0 < limit
    → (exhausted_at l p now ≡ some r) ↔ ((check_at l p now).1 ≡ err r)
unfolding check_at exhausted_at
exhausted_iff_refused l limit p now r e pos = (λ h. ground arith, λ h. ground arith)

-- A check for one project leaves the answers for every other project as they were, for `check_at`
-- and for `exhausted_at`, at every time.
projects_are_isolated :
    (l : RateLimiter) (p q now later : ℕ)
    → p ≢ q
    → ((check_at (check_at l q now).0 p later).1 ≡ (check_at l p later).1)
      × (exhausted_at (check_at l q now).0 p later ≡ exhausted_at l p later)
unfolding check_at exhausted_at
projects_are_isolated l p q now later ne = (ground arith, ground arith)
