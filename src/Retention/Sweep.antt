-- ===== src/Retention/Sweep.antt =====
-- A pass over the tables: `sweep`, `delete_older_than`, `enforce_quota` and the sweeps of the rollups.
use thermite_rs.Prelude.{
  Bool, List, Option, [], false, filter, if◌then◌else◌, leb, ltb, none, some, suc, zero, ℕ, ◌&&◌,
  ◌*◌, ◌+◌, ◌-◌, ◌==◌, ◌>>=◌, ◌||◌, ◌∷◌,
}
use thermite_rs.Retention.Policy.{Policy, disabled}
use thermite_rs.Retention.Batches.{delete_all}
use thermite_rs.Outbox.Row.{Row}

-- A row of `events`. Times are seconds.
pub record Event : Type 0 where
  pub id : ℕ
  pub project_id : ℕ
  pub received_at : ℕ

-- A row of a rollup: its key, and the `last_seen` or the `bucket`.
pub record Bucket : Type 0 where
  pub key : ℕ
  pub at : ℕ

-- The tables. `events` stands in the order `received_at desc, id desc` of its index.
pub record Database : Type 0 where
  pub projects : List ℕ
  pub events : List Event
  pub tag_values : List Bucket
  pub count_buckets : List Bucket
  pub session_buckets : List Bucket
  pub outcome_buckets : List Bucket
  pub notifications : List Row

pub record Swept : Type 0 where
  pub events_by_age : ℕ
  pub events_by_quota : ℕ
  pub notifications : ℕ
  pub tag_values : ℕ
  pub count_buckets : ℕ
  pub session_buckets : ℕ
  pub outcome_buckets : ℕ

abbrev pub days : ℕ → ℕ
days d = d * 86400

-- `received_at < cutoff`, and the project's.
abbrev pub older_than : ℕ → ℕ → Event → Bool
older_than project_id cutoff e = e.project_id == project_id && ltb e.received_at cutoff

unfoldable pub delete_older_than : ℕ → ℕ → ℕ → ℕ → List Event → Option (ℕ × List Event)
delete_older_than fuel project_id cutoff batch events =
    delete_all fuel batch (older_than project_id cutoff) 0 events

abbrev pub own : ℕ → Event → Bool
own project_id e = e.project_id == project_id

-- `offset n limit 1`.
abbrev pub offset {ℓ} : {A : Type ℓ} → ℕ → List A → Option A
offset n [] = none
offset zero (x ∷ xs) = some x
offset (suc n) (x ∷ xs) = offset n xs

-- `(received_at, id) <= (at, id)` of two rows.
abbrev pub up_to : Event → Event → Bool
up_to boundary e =
    ltb e.received_at boundary.received_at
    || e.received_at == boundary.received_at && leb e.id boundary.id

abbrev pub below_quota : ℕ → Event → Event → Bool
below_quota project_id boundary e = own project_id e && up_to boundary e

unfoldable pub trim_to : Option Event → ℕ → ℕ → ℕ → List Event → Option (ℕ × List Event)
trim_to none fuel project_id batch events = some (0, events)
trim_to (some boundary) fuel project_id batch events =
    delete_all fuel batch (below_quota project_id boundary) 0 events

unfoldable pub enforce_quota : ℕ → ℕ → ℕ → ℕ → List Event → Option (ℕ × List Event)
unfolding trim_to
enforce_quota fuel project_id keep batch events =
    trim_to (offset keep (filter (own project_id) events)) fuel project_id batch events

abbrev pub older : ℕ → Bucket → Bool
older cutoff b = ltb b.at cutoff

-- The four sweeps of the rollups differ in the table and the column only.
unfoldable pub sweep_buckets : ℕ → ℕ → ℕ → List Bucket → Option (ℕ × List Bucket)
sweep_buckets fuel cutoff batch table = delete_all fuel batch (older cutoff) 0 table

-- `column is not null and column < cutoff`.
abbrev set_before : Option ℕ → ℕ → Bool
set_before none cutoff = false
set_before (some t) cutoff = ltb t cutoff

abbrev pub done_before : ℕ → Row → Bool
done_before cutoff r = set_before r.acked_at cutoff

unfoldable pub sweep_notifications : ℕ → ℕ → ℕ → List Row → Option (ℕ × List Row)
sweep_notifications fuel now batch table =
    delete_all fuel batch (done_before (now - days 30)) 0 table

-- `Utc::now() - Duration::days(days)`. Time 0 is the first instant that chrono represents: before it the
-- subtraction panics, and so does a number of days beyond the bounds of a duration, which is more.
unfoldable pub cutoff_of : ℕ → ℕ → Option ℕ
cutoff_of now d = if ltb now (days d) then none else some (now - days d)

unfoldable pub by_age : Option ℕ → ℕ → ℕ → ℕ → ℕ → List Event → Option (ℕ × List Event)
unfolding cutoff_of
by_age none fuel now batch project_id events = some (0, events)
by_age (some d) fuel now batch project_id events = do
  cutoff ← cutoff_of now d
  delete_older_than fuel project_id cutoff batch events

unfoldable pub by_quota : Option ℕ → ℕ → ℕ → ℕ → List Event → Option (ℕ × List Event)
by_quota none fuel batch project_id events = some (0, events)
by_quota (some keep) fuel batch project_id events = enforce_quota fuel project_id keep batch events

-- The readings of the clock in a pass: one for each project that has its turn, by the project's id, one
-- for the rollups, and the database's for the notifications.
pub record Readings : Type 0 where
  pub at_project : ℕ → ℕ
  pub at_rollups : ℕ
  pub at_notifications : ℕ

-- The loop over the projects, with the two counts.
unfoldable pub sweep_projects :
    ℕ → (ℕ → ℕ) → Policy → List ℕ → ℕ × ℕ → List Event → Option ((ℕ × ℕ) × List Event)
sweep_projects fuel now policy [] counts events = some (counts, events)
sweep_projects fuel now policy (p ∷ ps) counts events = do
  (aged, events') ← by_age policy.max_age_days fuel (now p) policy.batch p events
  (over, events'') ← by_quota policy.max_events_per_project fuel policy.batch p events'
  sweep_projects fuel now policy ps (counts.0 + aged, counts.1 + over) events''

unfoldable pub no_swept : Swept
no_swept = record {
  events_by_age = 0;
  events_by_quota = 0;
  notifications = 0;
  tag_values = 0;
  count_buckets = 0;
  session_buckets = 0;
  outcome_buckets = 0;
}

unfoldable pub sweep_rollups : Option ℕ → ℕ → ℕ → ℕ → Swept → Database → Option (Swept × Database)
unfolding cutoff_of
sweep_rollups none fuel now batch swept db = some (swept, db)
sweep_rollups (some d) fuel now batch swept db = do
  cutoff ← cutoff_of now d
  (tags, tag_values') ← sweep_buckets fuel cutoff batch db.tag_values
  (counts, count_buckets') ← sweep_buckets fuel cutoff batch db.count_buckets
  (sessions, session_buckets') ← sweep_buckets fuel cutoff batch db.session_buckets
  (outcomes, outcome_buckets') ← sweep_buckets fuel cutoff batch db.outcome_buckets
  some (
    record swept {
      tag_values = tags;
      count_buckets = counts;
      session_buckets = sessions;
      outcome_buckets = outcomes;
    },
    record db {
      tag_values = tag_values';
      count_buckets = count_buckets';
      session_buckets = session_buckets';
      outcome_buckets = outcome_buckets';
    },
  )

-- A database error, which ends a pass, is left out. The result is `none` where chrono panics, which ends the pass.
unfoldable pub sweep : ℕ → Readings → Policy → Database → Option (Swept × Database)
unfolding no_swept
sweep fuel now policy db = if disabled policy then some (no_swept, db) else do
  ((aged, over), events') ← sweep_projects fuel now.at_project policy db.projects (0, 0) db.events
  (swept, db') ←
      sweep_rollups policy.max_age_days fuel now.at_rollups policy.batch
        (record no_swept { events_by_age = aged; events_by_quota = over })
        (record db { events = events' })
  (notes, notifications') ←
      sweep_notifications fuel now.at_notifications policy.batch db'.notifications
  some (record swept { notifications = notes }, record db' { notifications = notifications' })
