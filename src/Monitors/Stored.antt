-- ===== src/Monitors/Stored.antt =====
-- What a sweep stores of the monitors that it claims.
use thermite_rs.Prelude.{Bool, List, Option, [], true, ℕ, ◌∷◌, ◌≡◌, ◌⊎◌}
use thermite_rs.Digest.Steps.{is_stored}
use thermite_rs.Monitors.Tables.{Monitor}
use thermite_rs.Monitors.Schedule.{Ran, next_of, panics, parse_schedule, returns}
use thermite_rs.Monitors.Sweep.{Context, SweepState, Swept, counted, move_window, sweep_rows}

-- A monitor is one of a list.
abbrev Among : Monitor → List Monitor → Type 0
Among m [] = ⊥
Among m (n ∷ ns) = (n ≡ m) ⊎ Among m ns

-- The rest of the loop, after the window of a row is computed.
abbrev after :
    Context
    → ℕ
    → List (Monitor × Option ℕ)
    → Monitor
    → Bool
    → SweepState
    → Swept
    → Ran (Option ℕ)
    → SweepState × Ran Swept
after x now rows m late reported swept next = elim next [
  | panics ↦ (reported, panics)
  | returns next_due ↦
      sweep_rows x now rows (move_window m late next_due reported) (counted late swept)
]

abbrev next_due_of : Context → ℕ → Monitor → Ran (Option ℕ)
next_due_of x now m =
    next_of x.calendar (parse_schedule x.calendar m.schedule_type m.schedule_value m.schedule_unit)
      now m.timezone

-- The events of the claimed rows, or else a panic on the way.
abbrev Reports : Context → Monitor → SweepState × Ran Swept → Type 0
Reports x m d = (is_stored m.project_id (x.fresh_id m.id) d.0.store.events ≡ true) ⊎ (d.1 ≡ panics)
