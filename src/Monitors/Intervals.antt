-- ===== src/Monitors/Intervals.antt =====
-- When a job on an interval is next expected.
use thermite_rs.Prelude.{
  Bool, Text, arith, false, if◌then◌else◌, leb, ltb, pos, refl, some, true, ℕ, ◌%◌, ◌&&◌, ◌*◌, ◌+◌,
  ◌<◌, ◌^◌, ◌≡◌,
}
use thermite_rs.Event.Basic.{seconds}
use thermite_rs.Monitors.Schedule.{
  Calendar, IntervalUnit, add_duration, day, duration, hour, interval, minute, month, next_after,
  panics, returns, signed, times_seconds, week,
}

-- The seconds of a unit.
abbrev pub seconds_of : IntervalUnit → ℕ
seconds_of minute = 60
seconds_of hour = 60 * 60
seconds_of day = 24 * 60 * 60
seconds_of week = 7 * 24 * 60 * 60
seconds_of month = 30 * 24 * 60 * 60

duration_lem :
    (cal : Calendar) (unit : IntervalUnit) (every : ℕ)
    → 30 * every < 2 ^ 63
    → duration cal unit every ≡ (
        if leb (every * seconds_of unit) cal.max_duration
        then returns (pos (every * seconds_of unit))
        else panics)
unfolding duration times_seconds signed
duration_lem cal minute every h = refl
duration_lem cal hour every h = refl
duration_lem cal day every h = refl
duration_lem cal week every h = refl
duration_lem cal month every h =
    let small : 30 * every % 2 ^ 64 ≡ 30 * every = omega arith in
    let positive : ltb (30 * every) (2 ^ 63) ≡ true = ground arith in
    let product : 30 * every * 86400 ≡ every * 2592000 = omega arith in
    rw (small, positive, product) refl

-- A job on an interval, of fewer than 2^63 / 30 units, is expected a whole interval after its last
-- finished run; the computation panics exactly when the interval is longer than a duration can be,
-- or its end is later than the last instant.
pub interval_next_lem :
    (cal : Calendar) (unit : IntervalUnit) (every after : ℕ) (timezone : Text)
    → 30 * every < 2 ^ 63
    → next_after cal (interval every unit) after timezone ≡ (
        if leb (every * seconds_of unit) cal.max_duration
          && leb (after + seconds (every * seconds_of unit)) cal.last_instant
        then returns (some (after + seconds (every * seconds_of unit)))
        else panics)
unfolding next_after add_duration
interval_next_lem cal unit every after timezone h =
    rw (duration_lem cal unit every h) (sum (leb (every * seconds_of unit) cal.max_duration))
  where
    sum :
        (fits : Bool)
        → add_duration cal after (if fits then returns (pos (every * seconds_of unit)) else panics)
          ≡ (if fits && leb (after + seconds (every * seconds_of unit)) cal.last_instant
              then returns (some (after + seconds (every * seconds_of unit)))
              else panics)
    sum true = refl
    sum false = refl
