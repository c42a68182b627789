-- ===== src/Monitors/Tables.antt =====
-- The tables of monitors/mod.rs, with `upsert_monitor`, `complete_run` and `record_check_in`.
use thermite_rs.Prelude.{
  Bool, List, Option, Text, [], codes, err, if◌then◌else◌, map, none, ok, pos, some, text_eq, ℕ, ℤ,
  ◌&&◌, ◌+◌, ◌==◌, ◌>>=◌, ◌∷◌,
}
use thermite_rs.Strings.{ascii_lower, str_trim}
use thermite_rs.Json.{Value, is_empty, number, or_else, string, unwrap_or}
use thermite_rs.Monitors.Schedule.{Calendar, Ran, next_of, panics, parse_schedule, returns}

pub record ScheduleConfig : Type 0 where
  pub type : Option Text
  pub value : Option Value
  pub unit : Option Text

pub record MonitorConfig : Type 0 where
  pub schedule : Option ScheduleConfig
  pub checkin_margin : Option ℤ
  pub max_runtime : Option ℤ
  pub timezone : Option Text

-- The duration is kept as the number that was sent.
pub record CheckIn : Type 0 where
  pub check_in_id : Option Text
  pub monitor_slug : Text
  pub status : Text
  pub duration : Option Text
  pub environment : Option Text
  pub release : Option Text
  pub monitor_config : Option MonitorConfig

pub record Monitor : Type 0 where
  pub id : ℕ
  pub project_id : ℕ
  pub slug : Text
  pub schedule_type : Text
  pub schedule_value : Text
  pub schedule_unit : Option Text
  pub timezone : Text
  pub checkin_margin_minutes : ℤ
  pub max_runtime_minutes : ℤ
  pub status : Option Text
  pub last_checkin_at : Option ℕ
  pub next_due_at : Option ℕ
  pub reported_at : Option ℕ

-- A row of `monitor_checkins`.
pub record Reported : Type 0 where
  pub monitor_id : ℕ
  pub check_in_id : Text
  pub status : Text
  pub duration_seconds : Option Text
  pub environment : Option Text
  pub release : Option Text
  pub created_at : ℕ
  pub updated_at : ℕ

pub record Tables : Type 0 where
  pub monitors : List Monitor
  pub next_monitor : ℕ
  pub checkins : List Reported

abbrev is_slug : ℕ → Text → Monitor → Bool
is_slug project_id slug m = m.project_id == project_id && text_eq m.slug slug

unfoldable pub find_slug : ℕ → Text → List Monitor → Option Monitor
unfolding text_eq
find_slug project_id slug [] = none
find_slug project_id slug (m ∷ ms) =
    let later = find_slug project_id slug ms in if is_slug project_id slug m then some m else later

-- `load`.
unfoldable pub find_monitor : ℕ → List Monitor → Option Monitor
find_monitor id [] = none
find_monitor id (m ∷ ms) = let later = find_monitor id ms in if m.id == id then some m else later

unfoldable pub update_monitor : ℕ → (Monitor → Monitor) → List Monitor → List Monitor
update_monitor id f ms = map (λ (m : Monitor). if m.id == id then f m else m) ms

-- The value is a text for crontab and a number for interval.
abbrev value_text : Value → Option Text
value_text (string s) = some s
value_text (number n) = some n
value_text _ = none

-- A schedule that parses, with the type, value and unit to store.
pub record Accepted : Type 0 where
  pub schedule_type : Text
  pub schedule_value : Text
  pub schedule_unit : Option Text

accepted_as : Calendar → Text → Text → Option Text → Option Accepted
unfolding parse_schedule
accepted_as cal kind value unit = elim (parse_schedule cal kind value unit) [
  | ok _ ↦ some (record { schedule_type = kind; schedule_value = value; schedule_unit = unit })
  | err _ ↦ none
]

accepted_config : Calendar → MonitorConfig → Option Accepted
unfolding accepted_as
accepted_config cal config = do
  schedule ← config.schedule
  given ← schedule.value
  value ← value_text given
  accepted_as cal (unwrap_or schedule.type (codes "crontab")) value schedule.unit

-- What the upsert writes from the configuration; absent values have defaults.
unfoldable pub configured : MonitorConfig → Accepted → Monitor → Monitor
configured config a m = record m {
  schedule_type = a.schedule_type;
  schedule_value = a.schedule_value;
  schedule_unit = a.schedule_unit;
  timezone = unwrap_or config.timezone (codes "UTC");
  checkin_margin_minutes = unwrap_or config.checkin_margin (pos 5);
  max_runtime_minutes = unwrap_or config.max_runtime (pos 60);
}

abbrev blank_monitor : ℕ → ℕ → Text → Monitor
blank_monitor id project_id slug = record {
  id = id;
  project_id = project_id;
  slug = slug;
  schedule_type = [];
  schedule_value = [];
  schedule_unit = none;
  timezone = [];
  checkin_margin_minutes = pos 0;
  max_runtime_minutes = pos 0;
  status = none;
  last_checkin_at = none;
  next_due_at = none;
  reported_at = none;
}

-- The insert, or on conflict the update.
unfoldable pub store_monitor :
    Option Monitor → ℕ → Text → MonitorConfig → Accepted → Tables → ℕ × Tables
unfolding configured update_monitor
store_monitor (some m) project_id slug config a t =
    (m.id, record t { monitors = update_monitor m.id (configured config a) t.monitors })
store_monitor none project_id slug config a t = (
  t.next_monitor,
  record t {
    monitors = configured config a (blank_monitor t.next_monitor project_id slug) ∷ t.monitors;
    next_monitor = t.next_monitor + 1;
  },
)

abbrev id_of : Option Monitor → Option ℕ
id_of none = none
id_of (some m) = some m.id

unfoldable pub upsert_parsed :
    Option (MonitorConfig × Accepted) → ℕ → Text → Tables → Option ℕ × Tables
unfolding store_monitor find_slug
upsert_parsed none project_id slug t = (id_of (find_slug project_id slug t.monitors), t)
upsert_parsed (some (config, a)) project_id slug t =
    let stored = store_monitor (find_slug project_id slug t.monitors) project_id slug config a t in
    (some stored.0, stored.1)

abbrev pub with_config : Calendar → MonitorConfig → Option (MonitorConfig × Accepted)
unfolding accepted_config
with_config cal config = do a ← accepted_config cal config; some (config, a)

unfoldable pub upsert_monitor :
    Calendar → ℕ → Text → Option MonitorConfig → Tables → Option ℕ × Tables
unfolding upsert_parsed accepted_config
upsert_monitor cal project_id slug config t =
    upsert_parsed (config >>= with_config cal) project_id slug t

unfoldable pub finished : Text → ℕ → Option ℕ → Monitor → Monitor
finished status now next_due m = record m {
  status = some status;
  last_checkin_at = some now;
  next_due_at = next_due;
  reported_at = none;
}

unfoldable pub finish_run : ℕ → Text → ℕ → Ran (Option ℕ) → Tables → Ran (Unit {0}) × Tables
unfolding finished update_monitor
finish_run id status now panics t = (panics, t)
finish_run id status now (returns next_due) t = (
  returns tt,
  record t { monitors = update_monitor id (finished status now next_due) t.monitors },
)

unfoldable pub complete_loaded :
    Calendar → ℕ → Option Monitor → Text → ℕ → Tables → Ran (Unit {0}) × Tables
unfolding finish_run next_of parse_schedule
complete_loaded cal id none status now t = (returns tt, t)
complete_loaded cal id (some m) status now t =
    finish_run id status now
      (next_of cal (parse_schedule cal m.schedule_type m.schedule_value m.schedule_unit) now
        m.timezone)
      t

unfoldable pub complete_run : Calendar → ℕ → Text → ℕ → Tables → Ran (Unit {0}) × Tables
unfolding complete_loaded find_monitor
complete_run cal id status now t = complete_loaded cal id (find_monitor id t.monitors) status now t

abbrev pub in_progress : Text
in_progress = codes "in_progress"

unfoldable pub status_of : Text → Text
unfolding str_trim ascii_lower text_eq
status_of raw =
    let status = map ascii_lower (str_trim raw) in
    if text_eq status in_progress
    then in_progress
    else if text_eq status (codes "error")
    then codes "error"
    else codes "ok"

abbrev is_run : ℕ → Text → Reported → Bool
is_run id check_in_id r = r.monitor_id == id && text_eq r.check_in_id check_in_id

-- The insert of a check-in, or on conflict the update.
store_check_in : ℕ → Text → Text → CheckIn → ℕ → List Reported → List Reported
unfolding text_eq
store_check_in id check_in_id status c now [] =
    record {
      monitor_id = id;
      check_in_id = check_in_id;
      status = status;
      duration_seconds = c.duration;
      environment = c.environment;
      release = c.release;
      created_at = now;
      updated_at = now;
    }
    ∷ []
store_check_in id check_in_id status c now (r ∷ rs) =
    let later = store_check_in id check_in_id status c now rs in
    if is_run id check_in_id r
    then record r {
      status = status;
      duration_seconds = or_else c.duration r.duration_seconds;
      environment = or_else c.environment r.environment;
      release = or_else c.release r.release;
      updated_at = now;
    }
      ∷ rs
    else r ∷ later

unfoldable pub close_run : Calendar → ℕ → Text → ℕ → Tables → Ran (Unit {0}) × Tables
unfolding complete_run text_eq
close_run cal id status now t =
    if text_eq status in_progress then (returns tt, t) else complete_run cal id status now t

abbrev pub answered : ℕ → Ran (Unit {0}) → Ran (Option ℕ)
answered id (returns _) = returns (some id)
answered id panics = panics

unfoldable pub record_for :
    Calendar → Text → CheckIn → ℕ → Option ℕ × Tables → Ran (Option ℕ) × Tables
unfolding store_check_in status_of close_run
record_for cal fresh_id c now (none, t) = (returns none, t)
record_for cal fresh_id c now (some id, t) =
    let status = status_of c.status in
    let check_in_id = unwrap_or c.check_in_id fresh_id in
    let noted = record t { checkins = store_check_in id check_in_id status c now t.checkins } in
    let closed = close_run cal id status now noted in (answered id closed.0, closed.1)

-- `record_check_in`. The id that `Uuid::new_v4` would make is an argument.
unfoldable pub record_check_in :
    Calendar → Text → ℕ → CheckIn → ℕ → Tables → Ran (Option ℕ) × Tables
unfolding upsert_monitor record_for str_trim
record_check_in cal fresh_id project_id c now t =
    let slug = str_trim c.monitor_slug in
    if is_empty slug
    then (returns none, t)
    else record_for cal fresh_id c now (upsert_monitor cal project_id slug c.monitor_config t)
