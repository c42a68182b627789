-- ===== src/Monitors/Silence.antt =====
-- A job that falls silent is reported.
use mathlib.Core.Option
use thermite_rs.Prelude.{Option, ℕ, ◌*◌, ◌+◌}
use thermite_rs.Event.Basic.{seconds}
use thermite_rs.Digest.Store.{Store}
use thermite_rs.Monitors.Schedule.{IntervalUnit}
use thermite_rs.Monitors.Intervals.{seconds_of}
use thermite_rs.Monitors.Tables.{Tables}

-- The instant that a run on an interval is next expected at.
abbrev pub due_after : ℕ → ℕ → IntervalUnit → ℕ
due_after at every unit = at + seconds (every * seconds_of unit)
