-- ===== src/Retention/Policy.antt =====
-- The limits of a sweep: `Policy::from_env` and `env_i64`.
use thermite_rs.Prelude.{
  Bool, Option, Text, codes, false, max, min, negsuc, none, pos, some, suc, true, zero, ℕ, ℤ, ◌&&◌,
}
use thermite_rs.Strings.{str_trim}

-- What the process gets from the system: its environment, where a variable that is missing or is not
-- Unicode is `none`, and `str::parse::<i64>`.
pub record Environment : Type 0 where
  pub var : Text → Option Text
  pub parse : Text → Option ℤ

-- A limit is positive.
pub record Policy : Type 0 where
  pub max_age_days : Option ℕ
  pub max_events_per_project : Option ℕ
  pub batch : ℕ

abbrev parsed : Option ℤ → ℤ → ℤ
parsed none default = default
parsed (some n) default = n

abbrev env_value : Environment → Option Text → ℤ → ℤ
env_value env none default = default
env_value env (some raw) default = parsed (env.parse (str_trim raw)) default

unfoldable pub env_i64 : Environment → Text → ℤ → ℤ
env_i64 env key default = env_value env (env.var key) default

-- `(n > 0).then_some(n)`.
unfoldable pub positive : ℤ → Option ℕ
positive (pos zero) = none
positive (pos (suc n)) = some (suc n)
positive (negsuc n) = none

-- `clamp(100, 50_000)`.
unfoldable pub clamp_batch : ℤ → ℕ
clamp_batch (pos n) = min (max n 100) 50000
clamp_batch (negsuc n) = 100

unfoldable pub from_env : Environment → Policy
unfolding positive clamp_batch
from_env env = record {
  max_age_days = positive (env_i64 env (codes "THERMITE_RETENTION_DAYS") (pos 90));
  max_events_per_project =
      positive (env_i64 env (codes "THERMITE_MAX_EVENTS_PER_PROJECT") (pos 100000));
  batch = clamp_batch (env_i64 env (codes "THERMITE_RETENTION_BATCH") (pos 5000));
}

abbrev pub is_none : Option ℕ → Bool
is_none none = true
is_none (some n) = false

abbrev pub disabled : Policy → Bool
disabled p = is_none p.max_age_days && is_none p.max_events_per_project
