-- ===== src/Monitors/Sweep.antt =====
-- `sweep` and `failure_event` of monitors/mod.rs. Database errors, which end a sweep, are left out.
use thermite_rs.Prelude.{
  Bool, List, Option, Text, [], any, codes, false, filter, if◌then◌else◌, leb, ltb, map, max,
  negsuc, none, pos, some, take, text_eq, ℕ, ℤ, ◌&&◌, ◌*◌, ◌++◌, ◌+◌, ◌==◌, ◌∷◌,
}
use thermite_rs.Json.{Value, array, end, field, item, nil, object, string}
use thermite_rs.Event.Basic.{TimeParser, seconds}
use thermite_rs.Grouping.{Engine}
use thermite_rs.Digest.Store.{Store}
use thermite_rs.Digest.Steps.{digest}
use thermite_rs.Strings.Decimal.{to_string}
use thermite_rs.Monitors.Schedule.{Calendar, Ran, next_of, panics, parse_schedule, returns}
use thermite_rs.Monitors.Tables.{Monitor, Reported, Tables, in_progress, update_monitor}

abbrev pub sweep_batch : ℕ
sweep_batch = 500

abbrev pub minutes : ℕ → ℕ
minutes n = seconds (n * 60)

-- `next_due_at + margin < now`, with the sum on the side where it stays in ℕ.
abbrev pub is_late : ℤ → ℕ → ℕ → Bool
is_late (pos margin) due now = ltb (due + minutes margin) now
is_late (negsuc margin) due now = ltb due (now + minutes (margin + 1))

abbrev pub late_for : Monitor → Option ℕ → Option ℕ → ℕ → Bool
late_for m none reported now = false
late_for m (some due) (some at) now = false
late_for m (some due) none now = is_late m.checkin_margin_minutes due now

-- The `where` of the claim.
abbrev pub is_overdue : ℕ → Monitor → Bool
is_overdue now m = late_for m m.next_due_at m.reported_at now

abbrev pub due_of : Monitor → ℕ
due_of m = elim m.next_due_at [ none ↦ 0 | some due ↦ due ]

-- `order by next_due_at`. Rows that are due at one time stand in the order of the table, which is any.
unfoldable pub insert_by_due : Monitor → List Monitor → List Monitor
insert_by_due m [] = m ∷ []
insert_by_due m (n ∷ ms) =
    let later = insert_by_due m ms in if leb (due_of m) (due_of n) then m ∷ n ∷ ms else n ∷ later

unfoldable pub by_due : List Monitor → List Monitor
unfolding insert_by_due
by_due [] = []
by_due (m ∷ ms) = insert_by_due m (by_due ms)

unfoldable pub claimed : ℕ → List Monitor → List Monitor
unfolding by_due
claimed now ms = take sweep_batch (by_due (filter (is_overdue now) ms))

abbrev pub has_id : ℕ → List Monitor → Bool
has_id id ms = any (λ (c : Monitor). c.id == id) ms

-- The update of the claimed rows.
unfoldable pub mark_reported : ℕ → List Monitor → List Monitor → List Monitor
mark_reported now cs ms =
    map (λ (m : Monitor). if has_id m.id cs then record m { reported_at = some now } else m) ms

-- The start of the latest run of a monitor that is still open.
pub open_since : ℕ → List Reported → Option ℕ
unfolding text_eq
open_since id [] = none
open_since id (r ∷ rs) =
    let later = open_since id rs in
    if r.monitor_id == id && text_eq r.status in_progress
    then elim later [ none ↦ some r.created_at | some t ↦ some (max r.created_at t) ]
    else later

-- `max_runtime_minutes.max(1)`.
abbrev allowed_minutes : ℤ → ℕ
allowed_minutes (pos n) = max n 1
allowed_minutes (negsuc n) = 1

abbrev pub has_timed_out : ℤ → Option ℕ → ℕ → Bool
has_timed_out runtime none now = false
has_timed_out runtime (some started) now = ltb (started + minutes (allowed_minutes runtime)) now

abbrev pub failure_of : Bool → Text
failure_of timed_out = if timed_out then codes "timeout" else codes "missed"

-- A decimal i32.
abbrev signed_text : ℤ → Text
signed_text (pos n) = to_string n
signed_text (negsuc n) = b'-' ∷ to_string (n + 1)

-- The quoting of a text by `{:?}`.
abbrev Quote : Type 0
Quote = Text → Text

abbrev kind_of : Bool → Text
kind_of timed_out = if timed_out then codes "MonitorTimeout" else codes "MonitorMissed"

message_of : Calendar → Quote → Monitor → Bool → Text
unfolding to_string
message_of cal quote m timed_out =
    if timed_out
    then codes "Cron monitor "
      ++ (quote m.slug
          ++ (codes " started but did not finish within "
              ++ (signed_text m.max_runtime_minutes ++ codes " minutes")))
    else codes "Cron monitor "
      ++ (quote m.slug ++ (codes " did not check in; expected at " ++ cal.to_rfc3339 (due_of m)))

abbrev pub fingerprint_of : Text → Text → Text
fingerprint_of slug status = codes "monitor:" ++ (slug ++ (b':' ∷ status))

-- The parts of the payload that the digest reads besides its texts.
unfoldable pub failure_event : Calendar → Quote → Text → ℕ → Monitor → Bool → Value
unfolding message_of
failure_event cal quote event_id now m timed_out =
    let status = failure_of timed_out in
    object (
      field (codes "event_id") (string event_id) (
        field (codes "timestamp") (string (cal.to_rfc3339 now)) (
          field (codes "platform") (string (codes "other")) (
            field (codes "level") (string (codes "error")) (
              field (codes "logger") (string (codes "thermite.monitors")) (
                field (codes "fingerprint")
                  (array (item (string (fingerprint_of m.slug status)) nil))
                  (field (codes "exception")
                    (object (
                      field (codes "values")
                        (array (
                          item
                            (object (
                              field (codes "type") (string (kind_of timed_out)) (
                                field (codes "value") (string (message_of cal quote m timed_out))
                                  end)))
                            nil))
                        end))
                    (field (codes "tags")
                      (object (
                        field (codes "monitor") (string m.slug)
                          (field (codes "monitor_status") (string status) end)))
                      end))))))))

pub record Swept : Type 0 where
  pub missed : ℕ
  pub timed_out : ℕ

abbrev pub total : Swept → ℕ
total s = s.missed + s.timed_out

unfoldable pub counted : Bool → Swept → Swept
counted timed_out s =
    if timed_out
    then record s { timed_out = s.timed_out + 1 }
    else record s { missed = s.missed + 1 }

-- The two tables that a sweep writes.
pub record SweepState : Type 0 where
  pub tables : Tables
  pub store : Store

-- The libraries, and the ids that `Uuid::new_v4` makes, one for each event.
pub record Context : Type 0 where
  pub calendar : Calendar
  pub times : TimeParser
  pub engine : Engine
  pub quote : Quote
  pub fresh_id : ℕ → Text

unfoldable pub rescheduled : Text → Option ℕ → Monitor → Monitor
rescheduled status next_due m = record m { status = some status; next_due_at = next_due }

unfoldable pub report : Context → ℕ → Monitor → Bool → SweepState → SweepState
unfolding digest failure_event
report x now m timed_out s = record s {
  store =
      (digest x.times x.engine m.project_id none (x.fresh_id m.id)
        (failure_event x.calendar x.quote (x.fresh_id m.id) now m timed_out) now s.store).0;
}

unfoldable pub move_window : Monitor → Bool → Option ℕ → SweepState → SweepState
unfolding rescheduled update_monitor
move_window m timed_out next_due s = record s {
  tables = record s.tables {
    monitors = update_monitor m.id (rescheduled (failure_of timed_out) next_due) s.tables.monitors;
  };
}

-- The loop over the claimed rows; each stands with the run that was open when it was claimed.
unfoldable pub sweep_rows :
    Context → ℕ → List (Monitor × Option ℕ) → SweepState → Swept → SweepState × Ran Swept
unfolding report move_window counted next_of parse_schedule
sweep_rows x now [] s swept = (s, returns swept)
sweep_rows x now ((m, opened) ∷ rows) s swept =
    let timed_out = has_timed_out m.max_runtime_minutes opened now in
    let reported = report x now m timed_out s in
    elim (next_of x.calendar
      (parse_schedule x.calendar m.schedule_type m.schedule_value m.schedule_unit) now m.timezone) [
        | panics ↦ (reported, panics)
        | returns next_due ↦
            sweep_rows x now rows (move_window m timed_out next_due reported)
              (counted timed_out swept)
      ]

unfoldable pub with_open : List Reported → List Monitor → List (Monitor × Option ℕ)
unfolding open_since
with_open checkins [] = []
with_open checkins (m ∷ ms) = (m, open_since m.id checkins) ∷ with_open checkins ms

abbrev pub nothing_swept : Swept
nothing_swept = record { missed = 0; timed_out = 0 }

unfoldable pub claim : ℕ → SweepState → SweepState
unfolding claimed mark_reported
claim now s = record s {
  tables = record s.tables {
    monitors = mark_reported now (claimed now s.tables.monitors) s.tables.monitors;
  };
}

-- One pass. All of its readings of the clock are one instant.
unfoldable pub sweep : Context → ℕ → SweepState → SweepState × Ran Swept
unfolding claim with_open sweep_rows
sweep x now s =
    sweep_rows x now (with_open s.tables.checkins (claimed now s.tables.monitors)) (claim now s)
      nothing_swept
