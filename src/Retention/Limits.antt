-- ===== src/Retention/Limits.antt =====
-- The limits that `Policy::from_env` reads.
use thermite_rs.Prelude.{Option, arith, none, some, ℕ, ℤ, ◌<◌, ◌≤◌}
use thermite_rs.Retention.Policy.{Environment, clamp_batch, from_env, positive}

-- A limit that is set is positive.
abbrev IsLimit : Option ℕ → Type 0
IsLimit none = Unit
IsLimit (some n) = 0 < n

positive-IsLimit : (n : ℤ) → IsLimit (positive n)
unfolding positive
positive-IsLimit n = ground arith

clamp_bounds : (n : ℤ) → (100 ≤ clamp_batch n) × (clamp_batch n ≤ 50000)
unfolding clamp_batch
clamp_bounds n = ground arith

-- Whatever the environment holds, a batch is 100 to 50,000 rows, and a limit that is set is positive: a
-- zero or negative value means no limit, never to keep nothing.
from_env_bounds :
    (env : Environment)
    → (100 ≤ (from_env env).batch)
      × ((from_env env).batch ≤ 50000)
      × IsLimit (from_env env).max_age_days
      × IsLimit (from_env env).max_events_per_project
unfolding from_env
from_env_bounds env =
    ((clamp_bounds _).0, (clamp_bounds _).1, positive-IsLimit _, positive-IsLimit _)
