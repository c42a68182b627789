-- ===== src/Event/Basic.antt =====
-- Times, the level, text fields and the interchangeable list shapes.
pub mod Clock
use mathlib.Core.Option
use thermite_rs.Prelude.{
  Bool, List, Option, Text, [], codes, if◌then◌else◌, leb, map, max, none, some, take, text_eq, ℕ,
  ◌&&◌, ◌*◌, ◌+◌, ◌/◌, ◌||◌, ◌∷◌,
}
use thermite_rs.Strings.{str_trim}
use thermite_rs.Json.{
  Value, and_then, array, as_str, get, lookup, non_empty, number, object, or_else, string, to_list,
}

abbrev pub max_type_len : ℕ
max_type_len = 128

abbrev pub max_value_len : ℕ
max_value_len = 1024

abbrev pub max_title_len : ℕ
max_title_len = 200

abbrev max_clock_skew_secs : ℕ
max_clock_skew_secs = 3600

abbrev max_backdate_days : ℕ
max_backdate_days = 30

-- Truncates to `max` characters.
abbrev pub trim : Text → ℕ → Text
trim value max = take max value

-- Instants are nanoseconds since the first one that chrono represents; a subtraction of a duration
-- is written on the other side of the comparison, where it cannot stop at 0.
abbrev pub seconds : ℕ → ℕ
seconds n = n * 1_000_000_000

abbrev pub days : ℕ → ℕ
days n = seconds (n * 86400)

-- `date_trunc('hour', ..)`; the first instant begins an hour.
abbrev pub hour_of : ℕ → ℕ
hour_of t = t / seconds 3600 * seconds 3600

unfoldable pub clamp : Option ℕ → ℕ → ℕ
clamp none received_at = received_at
clamp (some ts) received_at =
    if leb ts (received_at + seconds max_clock_skew_secs)
      && leb received_at (ts + days max_backdate_days)
    then ts
    else received_at

-- What the program takes from chrono and from `f64`: the two datetime parsers (the second with its
-- format), and the instant of a number of epoch seconds, given as a JSON number or as a text.
pub record TimeParser : Type 0 where
  pub parse_from_rfc3339 : Text → Option ℕ
  pub parse_naive : Text → Text → Option ℕ
  pub epoch_of_number : Text → Option ℕ
  pub epoch_of_text : Text → Option ℕ

abbrev naive_formats : List Text
naive_formats = codes "%Y-%m-%dT%H:%M:%S%.f" ∷ codes "%Y-%m-%d %H:%M:%S%.f" ∷ []

parse_naive_formats : TimeParser → List Text → Text → Option ℕ
parse_naive_formats p [] raw = none
parse_naive_formats p (format ∷ formats) raw =
    or_else (p.parse_naive format raw) (parse_naive_formats p formats raw)

parse_timestamp_str : TimeParser → Text → Option ℕ
unfolding parse_naive_formats
parse_timestamp_str p raw =
    or_else (p.parse_from_rfc3339 raw)
      (or_else (parse_naive_formats p naive_formats raw) (p.epoch_of_text raw))

unfoldable pub parse_timestamp : TimeParser → Option Value → Option ℕ
unfolding parse_timestamp_str
parse_timestamp p (some (number n)) = p.epoch_of_number n
parse_timestamp p (some (string s)) = parse_timestamp_str p s
parse_timestamp p _ = none

unfoldable pub timestamp : TimeParser → Value → ℕ → ℕ
unfolding clamp parse_timestamp get
timestamp p event received_at =
    clamp (parse_timestamp p (get (codes "timestamp") event)) received_at

known_level : Text → Bool
unfolding text_eq
known_level s =
    text_eq s (codes "fatal")
    || (text_eq s (codes "error")
        || (text_eq s (codes "warning") || (text_eq s (codes "info") || text_eq s (codes "debug"))))

level_of : Option Text → Text
level_of none = codes "error"
level_of (some s) = if known_level s then s else codes "error"

unfoldable pub level : Value → Text
unfolding level_of known_level get
level event = level_of (and_then (get (codes "level") event) as_str)

unfoldable pub str_field : Value → Text → Option Text
unfolding get str_trim
str_field event key = non_empty (Option.map str_trim (and_then (get key event) as_str))

values_in : Value → Option Value → List Value
values_in whole (some (array vs)) = to_list vs
values_in whole _ = whole ∷ []

unfoldable pub values_of : Option Value → List Value
unfolding values_in get to_list
values_of (some (object map)) = values_in (object map) (lookup (codes "values") map)
values_of (some (array vs)) = to_list vs
values_of _ = []
