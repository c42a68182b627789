-- ===== src/Monitors/Schedule.antt =====
-- `Schedule`, `IntervalUnit` and `parse_cron` of monitors/schedule.rs. Instants are nanoseconds, as
-- they are for events.
use thermite_rs.Prelude.{
  Bool, Option, Result, Text, [], codes, err, false, if◌then◌else◌, leb, ltb, map, negsuc, none, ok,
  pos, some, suc, text_eq, true, ℕ, ℤ, ◌%◌, ◌*◌, ◌++◌, ◌+◌, ◌-◌, ◌==◌, ◌^◌, ◌∷◌,
}
use thermite_rs.Strings.{ascii_lower, is_whitespace, str_trim}
use thermite_rs.Strings.Split.{trim_end_matches}
use thermite_rs.Strings.Decimal.{parse_i64, to_string}
use thermite_rs.Json.{and_then, unwrap_or}
use thermite_rs.Event.Basic.{seconds}

pub data ScheduleError : Type 0 where
  unknown_type : Text → ScheduleError
  invalid_crontab : Text → Text → ScheduleError
  invalid_interval : Text → Text → ScheduleError

pub data IntervalUnit : Type 0 where
  minute hour day week month : IntervalUnit

-- The i64 of an interval is positive.
pub data Schedule : Type 0 where
  crontab : Text → Schedule
  interval : ℕ → IntervalUnit → Schedule

-- What the program takes from chrono, chrono-tz and cron: the name of a zone; an expression with
-- seconds, which gives the next instant after one in a zone, if there is one; the greatest number
-- of seconds of a `Duration`, and the last instant.
pub record Calendar : Type 0 where
  pub tz_from_str : Text → Option Text
  pub cron_from_str : Text → Result Text (Text → ℕ → Option ℕ)
  pub max_duration : ℕ
  pub last_instant : ℕ
  pub to_rfc3339 : ℕ → Text

-- A call that returns, or that panics as chrono does beyond its bounds.
pub data Ran {ℓ} (A : Type ℓ) : Type ℓ where
  returns : A → Ran A
  panics : Ran A

parse_unit : Text → Option IntervalUnit
unfolding str_trim ascii_lower trim_end_matches text_eq
parse_unit raw =
    let unit = trim_end_matches b's' (map ascii_lower (str_trim raw)) in
    if text_eq unit (codes "minute")
    then some minute
    else if text_eq unit (codes "hour")
    then some hour
    else if text_eq unit (codes "day")
    then some day
    else if text_eq unit (codes "week")
    then some week
    else if text_eq unit (codes "month")
    then some month
    else none

pub as_str : IntervalUnit → Text
as_str minute = codes "minute"
as_str hour = codes "hour"
as_str day = codes "day"
as_str week = codes "week"
as_str month = codes "month"

-- An i64 from its 64 bits.
unfoldable pub signed : ℕ → ℤ
signed n = if ltb n (2 ^ 63) then pos n else negsuc (2 ^ 64 - 1 - n)

-- `Duration::minutes(n)` and the others, from the seconds of one.
unfoldable pub times_seconds : Calendar → ℕ → ℤ → Ran ℤ
times_seconds cal one (pos n) =
    if leb (n * one) cal.max_duration then returns (pos (n * one)) else panics
times_seconds cal one (negsuc n) =
    if leb ((n + 1) * one) cal.max_duration then returns (negsuc ((n + 1) * one - 1)) else panics

-- The product for months wraps.
unfoldable pub duration : Calendar → IntervalUnit → ℕ → Ran ℤ
unfolding times_seconds signed
duration cal minute every = times_seconds cal 60 (pos every)
duration cal hour every = times_seconds cal 3600 (pos every)
duration cal day every = times_seconds cal 86400 (pos every)
duration cal week every = times_seconds cal 604800 (pos every)
duration cal month every = times_seconds cal 86400 (signed (30 * every % 2 ^ 64))

-- `split_whitespace().count()`, inside a word or not.
word_count : Bool → Text → ℕ
unfolding is_whitespace
word_count inside [] = 0
word_count inside (c ∷ cs) =
    let blank = word_count false cs in
    let more = word_count true cs in
    if is_whitespace c then blank else (if inside then 0 else 1) + more

with_seconds : ℕ → Text → Result ScheduleError Text
unfolding to_string
with_seconds field_count expression =
    if field_count == 5
    then ok (codes "0 " ++ expression)
    else if field_count == 6
    then ok expression
    else err (invalid_crontab expression (codes "expected 5 fields, got " ++ to_string field_count))

from_str : Calendar → Text → Result ScheduleError Text → Result ScheduleError (Text → ℕ → Option ℕ)
from_str cal expression (err e) = err e
from_str cal expression (ok text) = elim (cal.cron_from_str text) [
  | ok next ↦ ok next
  | err reason ↦ err (invalid_crontab expression reason)
]

parse_cron : Calendar → Text → Result ScheduleError (Text → ℕ → Option ℕ)
unfolding from_str with_seconds word_count str_trim
parse_cron cal given =
    let expression = str_trim given in
    from_str cal expression (with_seconds (word_count false expression) expression)

crontab_of : Text → Result ScheduleError (Text → ℕ → Option ℕ) → Result ScheduleError Schedule
unfolding str_trim
crontab_of value (err e) = err e
crontab_of value (ok _) = ok (crontab (str_trim value))

-- `every > 0` and a known unit.
interval_of : Text → Option Text → Option ℤ → Option IntervalUnit → Result ScheduleError Schedule
interval_of value unit (some (pos (suc n))) (some u) = ok (interval (suc n) u)
interval_of value unit _ _ = err (invalid_interval value (unwrap_or unit []))

-- `Schedule::parse`.
unfoldable pub parse_schedule : Calendar → Text → Text → Option Text → Result ScheduleError Schedule
unfolding parse_cron crontab_of interval_of parse_unit parse_i64 str_trim text_eq
parse_schedule cal schedule_type value unit =
    if text_eq schedule_type (codes "crontab")
    then crontab_of value (parse_cron cal value)
    else if text_eq schedule_type (codes "interval")
    then interval_of value unit (parse_i64 (str_trim value)) (and_then unit parse_unit)
    else err (unknown_type schedule_type)

-- `after + duration`.
unfoldable pub add_duration : Calendar → ℕ → Ran ℤ → Ran (Option ℕ)
add_duration cal after panics = panics
add_duration cal after (returns (pos n)) =
    if leb (after + seconds n) cal.last_instant then returns (some (after + seconds n)) else panics
add_duration cal after (returns (negsuc n)) =
    if leb (seconds (n + 1)) after then returns (some (after - seconds (n + 1))) else panics

abbrev cron_next : Result ScheduleError (Text → ℕ → Option ℕ) → Text → ℕ → Option ℕ
cron_next (err e) zone after = none
cron_next (ok next) zone after = next zone after

unfoldable pub next_after : Calendar → Schedule → ℕ → Text → Ran (Option ℕ)
unfolding add_duration duration parse_cron
next_after cal (crontab expression) after timezone = returns (
    cron_next (parse_cron cal expression) (unwrap_or (cal.tz_from_str timezone) (codes "UTC"))
      after)
next_after cal (interval every unit) after timezone =
    add_duration cal after (duration cal unit every)

-- `Schedule::parse(..).ok().and_then(|schedule| schedule.next_after(..))`.
unfoldable pub next_of : Calendar → Result ScheduleError Schedule → ℕ → Text → Ran (Option ℕ)
unfolding next_after
next_of cal (err e) after timezone = returns none
next_of cal (ok schedule) after timezone = next_after cal schedule after timezone
