-- ===== src/Tests/Sweeps.antt =====
-- The retention sweep, at a concrete database.
use thermite_rs.Prelude.{
  List, [], any, arith, codes, filter, if◌then◌else◌, length, not, pos, refl, some, ℕ, ◌+◌, ◌-◌,
  ◌==◌, ◌∷◌, ◌≡◌,
}
use thermite_rs.Retention.Policy.{Environment, Policy}
use thermite_rs.Retention.Sweep.{Database, Event, Readings, Swept, days, done_before, own, sweep}
use thermite_rs.Retention.Kept.{Newest}
use thermite_rs.Retention.Projects.{kept}
use thermite_rs.Retention.Passes.{RollupsAged, sweep_lem}

abbrev at_time : ℕ → ℕ → ℕ → Event
at_time n p t = record { id = n; project_id = p; received_at = t }

abbrev stored : List Event
stored = at_time 5 1 900000 ∷ at_time 4 2 800000 ∷ at_time 3 1 700000 ∷ at_time 1 1 600000 ∷ []

abbrev db : Database
db = record {
  projects = 1 ∷ 2 ∷ [];
  events = stored;
  tag_values = [];
  count_buckets = record { key = 1; at = 100 } ∷ record { key = 2; at = 900000 } ∷ [];
  session_buckets = [];
  outcome_buckets = [];
  notifications = [];
}

abbrev policy : Policy
policy = record { max_age_days = some 3; max_events_per_project = some 1; batch = 100 }

-- The clock moves on by a second for each project.
abbrev readings : Readings
readings = record {
  at_project = λ p. 1000000 + p;
  at_rollups = 1000007;
  at_notifications = 1000009;
}

sweep_lem_example :
    (swept : Swept) × (left : Database) × (sweep 9 readings policy db ≡ some (swept, left))
    × (filter (own 1) left.events ≡ (
        if any (λ p. p == 1) db.projects
        then kept policy 1000001 (filter (own 1) db.events)
        else filter (own 1) db.events))
    × Newest left.events
    × RollupsAged policy.max_age_days 1000007 db left
    × (left.notifications ≡ filter (λ r. not (done_before (1000009 - days 30) r)) db.notifications)
    × (swept.notifications + length left.notifications ≡ length db.notifications)
sweep_lem_example =
    sweep_lem 9 readings 1 policy db refl (λ p. omega arith) (omega arith) (ground arith)
      (refl, (refl, tt)) (omega arith) (omega arith)

-- An environment that sets every variable to 0.
abbrev zeros : Environment
zeros = record { var = λ _. some (codes "0"); parse = λ _. some (pos 0) }
