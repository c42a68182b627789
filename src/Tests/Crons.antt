-- ===== src/Tests/Crons.antt =====
-- The monitors, at a job that runs every five minutes.
use thermite_rs.Prelude.{
  [], arith, codes, err, false, if◌then◌else◌, leb, none, pos, refl, some, true, ◌&&◌, ◌*◌, ◌++◌,
  ◌+◌, ◌↔◌, ◌∷◌, ◌≡◌,
}
use thermite_rs.Event.Basic.{seconds}
use thermite_rs.Grouping.{group}
use thermite_rs.Digest.Store.{Store}
use thermite_rs.Monitors.Schedule.{Calendar, interval, minute, next_after, panics, returns}
use thermite_rs.Monitors.Intervals.{interval_next_lem, seconds_of}
use thermite_rs.Monitors.Tables.{Monitor, Tables, find_monitor}
use thermite_rs.Monitors.Sweep.{
  Context, SweepState, failure_event, failure_of, is_overdue, minutes, sweep,
}
use thermite_rs.Monitors.CheckIns.{here, next, reported_only_once, swept}
use thermite_rs.Monitors.Failures.{failure_key}

abbrev calendar : Calendar
calendar = record {
  tz_from_str = λ _. none;
  cron_from_str = λ _. err (codes "no expression");
  max_duration = 9223372036854775;
  last_instant = 16_500_000_000_000_000_000_000;
  to_rfc3339 = λ _. codes "then";
}

abbrev context : Context
context = record {
  calendar = calendar;
  times = record {
    parse_from_rfc3339 = λ _. none;
    parse_naive = λ _ _. none;
    epoch_of_number = λ _. none;
    epoch_of_text = λ _. none;
  };
  engine = record { parameterize = λ t. t; sha256 = λ t. t };
  quote = λ t. t;
  fresh_id = λ _. codes "00000000000000000000000000000000";
}

abbrev empty_store : Store
empty_store = record {
  releases = [];
  next_release = 1;
  issues = [];
  next_issue = 1;
  events = [];
  event_counts = [];
  issue_tags = [];
  notifications = [];
  activity = [];
}

abbrev backup : Monitor
backup = record {
  id = 3;
  project_id = 7;
  slug = codes "backup";
  schedule_type = codes "interval";
  schedule_value = codes "5";
  schedule_unit = some (codes "minutes");
  timezone = codes "UTC";
  checkin_margin_minutes = pos 1;
  max_runtime_minutes = pos 60;
  status = none;
  last_checkin_at = none;
  next_due_at = some (minutes 10);
  reported_at = none;
}

abbrev tables : Tables
tables = record { monitors = backup ∷ []; next_monitor = 4; checkins = [] }

abbrev start : SweepState
start = record { tables = tables; store = empty_store }

-- An interval that is longer than a duration can be: the code panics.
too_long : next_after calendar (interval 9223372036854775807 minute) 0 (codes "UTC") ≡ panics
unfolding next_after
too_long = refl

interval_next_lem_example : next_after calendar (interval 5 minute) (minutes 10) (codes "UTC") ≡ (
    if leb (5 * seconds_of minute) calendar.max_duration
      && leb (minutes 10 + seconds (5 * seconds_of minute)) calendar.last_instant
    then returns (some (minutes 10 + seconds (5 * seconds_of minute)))
    else panics)
interval_next_lem_example =
    interval_next_lem calendar minute 5 (minutes 10) (codes "UTC") (omega arith)

abbrev reported : Monitor
reported = record backup { reported_at = some (minutes 12) }

abbrev after_report : SweepState
after_report = record {
  tables = record { monitors = reported ∷ []; next_monitor = 4; checkins = [] };
  store = empty_store;
}

found_reported : find_monitor 3 after_report.tables.monitors ≡ some reported
unfolding find_monitor
found_reported = refl

reported_only_once_example :
    (left : Monitor) × (find_monitor 3 (sweep context (minutes 500) after_report).0.tables.monitors
      ≡ some left)
    × (is_overdue (minutes 9000) left ≡ false)
reported_only_once_example =
    reported_only_once 3 (minutes 12) (minutes 9000) after_report
      (sweep context (minutes 500) after_report).0 reported found_reported refl (omega arith)
      (next here (swept context (minutes 500) after_report))

failure_key_example :
    let id = codes "e1" in
    let key = (group context.engine (failure_event calendar context.quote id 0 backup true)).key in
    let key' =
      (group context.engine (failure_event calendar context.quote id 9 backup false)).key in
    (key ≡ codes "monitor:" ++ (backup.slug ++ (b':' ∷ failure_of true)))
    × ((key ≡ key') ↔ ((backup.slug ≡ backup.slug) × (true ≡ false)))
failure_key_example =
    failure_key context (codes "e1") (codes "e1") 0 9 backup backup true false (omega arith)
      (omega arith)

one_missed :
    sweep context (minutes 12) start
    ≡ ((sweep context (minutes 12) start).0, returns (record { missed = 1; timed_out = 0 }))
unfolding sweep
one_missed = refl
