-- ===== src/Event/Basic/Clock.antt =====
-- The bounds on a client's clock.
use thermite_rs.Prelude.{Option, arith, codes, none, refl, some, ℕ, ◌+◌, ◌↔◌, ◌≡◌, ◌≤◌, ◌⊎◌}
use thermite_rs.Json.{Value, get}
use thermite_rs.Event.Basic.{TimeParser, clamp, days, parse_timestamp, seconds, timestamp}

clamp_bounds :
    (parsed : Option ℕ) (received_at : ℕ)
    → (clamp parsed received_at ≤ received_at + seconds 3600)
      × (received_at ≤ clamp parsed received_at + days 30)
unfolding clamp
clamp_bounds none received_at = omega arith
clamp_bounds (some ts) received_at = ground arith

-- A time that the client supplied is kept exactly when it is at most an hour ahead of the receiving
-- time and at most 30 days behind it, both ends included; otherwise, and when it is absent, the
-- result is the receiving time.
pub clamp_keeps_iff :
    (ts received_at : ℕ)
    → ((clamp (some ts) received_at ≡ ts)
        ↔ ((ts ≤ received_at + seconds 3600) × (received_at ≤ ts + days 30)))
      × (((clamp (some ts) received_at) ≡ ts) ⊎ (clamp (some ts) received_at ≡ received_at))
      × (clamp none received_at ≡ received_at)
unfolding clamp
clamp_keeps_iff ts received_at = ((λ h. ground arith, λ h. ground arith), ground arith, refl)

-- Whatever the payload says, the event's time lies within an hour after and 30 days before the
-- receiving time.
timestamp_bounds :
    (p : TimeParser) (event : Value) (received_at : ℕ)
    → (timestamp p event received_at ≤ received_at + seconds 3600)
      × (received_at ≤ timestamp p event received_at + days 30)
unfolding timestamp
timestamp_bounds p event received_at =
    clamp_bounds (parse_timestamp p (get (codes "timestamp") event)) received_at
