-- ===== src/Retention/Passes.antt =====
-- A whole pass over the tables.
use thermite_rs.Prelude.{
  List, Option, any, ap, arith, false, filter, if◌then◌else◌, length, length-filter-le, none, not,
  refl, some, subst, sym, ℕ, ◌+◌, ◌-◌, ◌<◌, ◌==◌, ◌∙◌, ◌≡◌,
}
use thermite_rs.Outbox.Row.{Row}
use thermite_rs.Retention.Policy.{Policy, disabled}
use thermite_rs.Retention.Sweep.{
  Bucket, Database, Readings, Swept, days, done_before, no_swept, older, own, sweep, sweep_buckets,
  sweep_notifications, sweep_rollups,
}
use thermite_rs.Retention.Batches.{delete_all_lem}
use thermite_rs.Retention.Kept.{Newest, length-split}
use thermite_rs.Retention.Projects.{Distinct, IsInRange, cutoff_in_range, kept, sweep_projects_lem}

-- What the age rule keeps of a rollup.
abbrev pub fresh : Option ℕ → ℕ → List Bucket → List Bucket
fresh none now table = table
fresh (some d) now table = filter (λ b. not (older (now - days d) b)) table

-- The four tables of rollups are fresh, and the others as before.
abbrev pub RollupsAged : Option ℕ → ℕ → Database → Database → Type 0
RollupsAged d now db left =
    (left.tag_values ≡ fresh d now db.tag_values)
    × (left.count_buckets ≡ fresh d now db.count_buckets)
    × (left.session_buckets ≡ fresh d now db.session_buckets)
    × (left.outcome_buckets ≡ fresh d now db.outcome_buckets)

-- The fuel is more than any table has rows.
abbrev Enough : ℕ → Database → Type 0
Enough fuel db =
    (length db.events < fuel)
    × (length db.tag_values < fuel)
    × (length db.count_buckets < fuel)
    × (length db.session_buckets < fuel)
    × (length db.outcome_buckets < fuel)
    × (length db.notifications < fuel)

sweep_buckets_lem :
    (fuel cutoff batch : ℕ) (table : List Bucket)
    → 0 < batch
    → length table < fuel
    → sweep_buckets fuel cutoff batch table
      ≡ some (length (filter (older cutoff) table), filter (λ b. not (older cutoff b)) table)
unfolding sweep_buckets
sweep_buckets_lem fuel cutoff batch table b f =
    delete_all_lem fuel batch (older cutoff) 0 table b
      (omega (arith, length-filter-le (older cutoff) table))
    ∙ ap (λ n. some (n, filter (λ b. not (older cutoff b)) table)) (omega arith)

sweep_rollups_lem :
    (d : Option ℕ) (fuel now batch : ℕ) (swept : Swept) (db : Database)
    → IsInRange now d
    → 0 < batch
    → length db.tag_values < fuel
    → length db.count_buckets < fuel
    → length db.session_buckets < fuel
    → length db.outcome_buckets < fuel
    → (swept' : Swept) × (left : Database) × (sweep_rollups d fuel now batch swept db
        ≡ some (swept', left))
      × RollupsAged d now db left
      × (left.events ≡ db.events)
      × (left.notifications ≡ db.notifications)
unfolding sweep_rollups
sweep_rollups_lem none fuel now batch swept db range b f1 f2 f3 f4 =
    (swept, db, refl, (refl, refl, refl, refl), refl, refl)
sweep_rollups_lem (some d) fuel now batch swept db range b f1 f2 f3 f4 =
    let cutoff = now - days d in
    let old = older cutoff in
    let left = filter (λ (r : Bucket). not (old r)) in
    (
      record swept {
        tag_values = length (filter old db.tag_values);
        count_buckets = length (filter old db.count_buckets);
        session_buckets = length (filter old db.session_buckets);
        outcome_buckets = length (filter old db.outcome_buckets);
      },
      record db {
        tag_values = left db.tag_values;
        count_buckets = left db.count_buckets;
        session_buckets = left db.session_buckets;
        outcome_buckets = left db.outcome_buckets;
      },
      rw
          (
            cutoff_in_range now d range,
            sweep_buckets_lem fuel cutoff batch db.tag_values b f1,
            sweep_buckets_lem fuel cutoff batch db.count_buckets b f2,
            sweep_buckets_lem fuel cutoff batch db.session_buckets b f3,
            sweep_buckets_lem fuel cutoff batch db.outcome_buckets b f4,
          )
          refl,
      (refl, refl, refl, refl),
      refl,
      refl,
    )

sweep_notifications_lem :
    (fuel now batch : ℕ) (table : List Row)
    → 0 < batch
    → length table < fuel
    → sweep_notifications fuel now batch table
      ≡ some (
        length (filter (done_before (now - days 30)) table),
        filter (λ r. not (done_before (now - days 30) r)) table,
      )
unfolding sweep_notifications
sweep_notifications_lem fuel now batch table b f =
    delete_all_lem fuel batch (done_before (now - days 30)) 0 table b
      (omega (arith, length-filter-le (done_before (now - days 30)) table))
    ∙ ap (λ n. some (n, filter (λ r. not (done_before (now - days 30) r)) table)) (omega arith)

-- A pass with either rule set, an age limit that reaches at no reading of the clock behind the first
-- instant that chrono represents, a positive batch, and more fuel than any table has rows, over events in the order of
-- their index and over different projects, ends. Of a project that is listed it leaves
-- the newest events within the quota among those within the age limit at the project's turn, and of any
-- other project all;
-- the order is kept. The rollups lose what the age limit excludes. Of the notifications it drops
-- those acknowledged more than 30 days ago, and no others, and counts them.
pub sweep_lem :
    (fuel : ℕ) (now : Readings) (q : ℕ) (policy : Policy) (db : Database)
    → disabled policy ≡ false
    → ((p : ℕ) → IsInRange (now.at_project p) policy.max_age_days)
    → IsInRange now.at_rollups policy.max_age_days
    → Newest db.events
    → Distinct db.projects
    → 0 < policy.batch
    → Enough fuel db
    → (swept : Swept) × (left : Database) × (sweep fuel now policy db ≡ some (swept, left))
      × (filter (own q) left.events ≡ (
          if any (λ p. p == q) db.projects
          then kept policy (now.at_project q) (filter (own q) db.events)
          else filter (own q) db.events))
      × Newest left.events
      × RollupsAged policy.max_age_days now.at_rollups db left
      × (left.notifications
          ≡ filter (λ r. not (done_before (now.at_notifications - days 30) r)) db.notifications)
      × (swept.notifications + length left.notifications ≡ length db.notifications)
unfolding sweep
sweep_lem fuel now q policy db e range late h d b f =
    let events =
      sweep_projects_lem fuel now.at_project policy db.projects (0, 0) db.events range h d b f.0 in
    let rollups =
      sweep_rollups_lem policy.max_age_days fuel now.at_rollups policy.batch
        (record no_swept { events_by_age = events.0.0; events_by_quota = events.0.1 })
        (record db { events = events.1 }) late b f.1 f.2 f.3 f.4 in
    let done = done_before (now.at_notifications - days 30) in
    (
      record rollups.0 { notifications = length (filter done db.notifications) },
      record rollups.1 { notifications = filter (λ r. not (done r)) db.notifications },
      rw
          (
            e,
            events.2,
            rollups.2,
            rollups.5,
            sweep_notifications_lem fuel now.at_notifications policy.batch db.notifications b f.5,
          )
          refl,
      ap (filter (own q)) rollups.4 ∙ events.3 q,
      subst Newest (sym rollups.4) events.4,
      rollups.3,
      refl,
      length-split done db.notifications,
    )
