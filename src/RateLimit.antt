-- ===== src/RateLimit.antt =====
-- The ingest quota of crates/thermite-core/src/ingest/ratelimit.rs.
pub mod Quota
use thermite_rs.Prelude.{
  Option, Result, err, if◌then◌else◌, leb, min, none, not, ok, some, ℕ, ◌%◌, ◌&&◌, ◌+◌, ◌-◌, ◌/◌,
  ◌==◌, ◌^◌,
}

-- `minute` is a u64, `count` a u32.
pub record Window : Type 0 where
  pub minute : ℕ
  pub count : ℕ

-- `windows` stands for the `HashMap`: a missing key is `none`. The mutex makes each method atomic.
pub record RateLimiter : Type 0 where
  pub per_minute : Option ℕ
  pub windows : ℕ → Option Window

unfoldable pub new : Option ℕ → RateLimiter
new per_minute = record { per_minute = per_minute; windows = λ _. none }

abbrev insert : ℕ → Window → (ℕ → Option Window) → ℕ → Option Window
insert k w m j = if k == j then some w else m j

-- Seconds until the window that holds `now` rolls over.
abbrev pub seconds_left : ℕ → ℕ
seconds_left now = 60 - min (now % 60) 59

exhausted_in : Option ℕ → Option Window → ℕ → Option ℕ
exhausted_in none w now = none
exhausted_in (some limit) none now = none
exhausted_in (some limit) (some w) now =
    if w.minute == now / 60 && leb limit w.count then some (seconds_left now) else none

unfoldable pub exhausted_at : RateLimiter → ℕ → ℕ → Option ℕ
unfolding exhausted_in
exhausted_at l project_id now = exhausted_in l.per_minute (l.windows project_id) now

-- `entry(project_id).or_insert(..)`.
abbrev or_insert : Option Window → Window → Window
or_insert none w = w
or_insert (some w) _ = w

-- The window that `check_at` counts in: the stored one, or a fresh one for a new minute.
current : Option Window → ℕ → Window
current stored now =
    let w = or_insert stored (record { minute = now / 60; count = 0 }) in
    if not (w.minute == now / 60) then record { minute = now / 60; count = 0 } else w

charge : RateLimiter → ℕ → ℕ → Window → ℕ → RateLimiter × Result ℕ (Unit {0})
charge l project_id limit w now =
    if leb limit w.count
    then (record l { windows = insert project_id w l.windows }, err (seconds_left now))
    else (
      record l {
        windows = insert project_id (record w { count = (w.count + 1) % 2 ^ 32 }) l.windows;
      },
      ok tt,
    )

check_in : Option ℕ → RateLimiter → ℕ → ℕ → RateLimiter × Result ℕ (Unit {0})
unfolding current charge
check_in none l project_id now = (l, ok tt)
check_in (some limit) l project_id now =
    charge l project_id limit (current (l.windows project_id) now) now

unfoldable pub check_at : RateLimiter → ℕ → ℕ → RateLimiter × Result ℕ (Unit {0})
unfolding check_in
check_at l project_id now = check_in l.per_minute l project_id now
