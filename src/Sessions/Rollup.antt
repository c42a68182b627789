-- ===== src/Sessions/Rollup.antt =====
-- `record` and `parse` of crates/thermite-core/src/ingest/sessions.rs.
use thermite_rs.Prelude.{
  Bool, Bytes, List, Option, Text, [], filter, if◌then◌else◌, map, none, not, some, ℕ, ◌&&◌, ◌==◌,
  ◌∷◌,
}
use thermite_rs.Json.{Value, non_empty}
use thermite_rs.Event.Basic.{TimeParser, clamp, hour_of, parse_timestamp}
use thermite_rs.Digest.Store.{Store, resolve}
use thermite_rs.Sessions.{
  Aggregate, Delta, Session, aggregate_delta, delta, fold_buckets, merge, started_at,
  is_empty as is_no_change,
}

-- A row of `session_counts`.
pub record SessionCount : Type 0 where
  pub project_id : ℕ
  pub release_id : ℕ
  pub bucket : ℕ
  pub counts : Delta

pub record Aggregates : Type 0 where
  pub release : Option Text
  pub aggregates : List (Aggregate Value)

-- `serde_json::from_slice` at the two types.
pub record SessionCodec : Type 0 where
  pub session_from_slice : Bytes → Option (Session Value)
  pub aggregates_from_slice : Bytes → Option Aggregates

pub record Parsed : Type 0 where
  pub release : Option Text
  pub buckets : List (ℕ × Delta)

unfoldable pub parse_session : TimeParser → ℕ → Option (Session Value) → Option Parsed
unfolding delta is_no_change started_at clamp parse_timestamp
parse_session times received_at none = none
parse_session times received_at (some s) =
    if is_no_change (delta s)
    then none
    else some (record {
      release = s.release;
      buckets = (clamp (parse_timestamp times (started_at s)) received_at, delta s) ∷ [];
    })

abbrev entry_of : TimeParser → ℕ → Aggregate Value → ℕ × Delta
entry_of times received_at a =
    (clamp (parse_timestamp times a.started) received_at, aggregate_delta a)

unless_no_buckets : Option Text → List (ℕ × Delta) → Option Parsed
unless_no_buckets release [] = none
unless_no_buckets release (b ∷ bs) = some (record { release = release; buckets = b ∷ bs })

unfoldable pub parse_aggregates : TimeParser → ℕ → Option Aggregates → Option Parsed
unfolding unless_no_buckets fold_buckets aggregate_delta clamp parse_timestamp is_no_change
parse_aggregates times received_at none = none
parse_aggregates times received_at (some batch) = unless_no_buckets batch.release (
    fold_buckets [] (
      filter (λ (b : ℕ × Delta). not (is_no_change b.1))
        (map (entry_of times received_at) batch.aggregates)))

abbrev is_bucket : ℕ → ℕ → SessionCount → Bool
is_bucket release_id bucket c = c.release_id == release_id && c.bucket == bucket

-- The upsert of one bucket.
upsert_bucket : ℕ → ℕ → ℕ × Delta → List SessionCount → List SessionCount
unfolding merge
upsert_bucket project_id release_id b [] =
    record { project_id = project_id; release_id = release_id; bucket = hour_of b.0; counts = b.1 }
    ∷ []
upsert_bucket project_id release_id b (c ∷ cs) =
    let later = upsert_bucket project_id release_id b cs in
    if is_bucket release_id (hour_of b.0) c
    then record c { counts = merge c.counts b.1 } ∷ cs
    else c ∷ later

upsert_buckets : ℕ → ℕ → List (ℕ × Delta) → List SessionCount → List SessionCount
unfolding upsert_bucket
upsert_buckets project_id release_id [] cs = cs
upsert_buckets project_id release_id (b ∷ bs) cs =
    upsert_buckets project_id release_id bs (upsert_bucket project_id release_id b cs)

-- A session at the cap of releases is counted nowhere.
unfoldable pub record_at : ℕ → Option ℕ → List (ℕ × Delta) → List SessionCount → List SessionCount
unfolding upsert_buckets
record_at project_id none buckets cs = cs
record_at project_id (some release_id) buckets cs = upsert_buckets project_id release_id buckets cs

unfoldable pub record_release :
    ℕ → Option Text → List (ℕ × Delta) → Store → List SessionCount → Store × List SessionCount
unfolding resolve record_at
record_release project_id none buckets st cs = (st, cs)
record_release project_id (some version) buckets st cs =
    let resolved = resolve project_id version st in
    (resolved.1, record_at project_id resolved.0 buckets cs)

-- `record`, behind `parse`.
unfoldable pub record_parsed :
    ℕ → Option Parsed → Store → List SessionCount → Store × List SessionCount
unfolding record_release
record_parsed project_id none st cs = (st, cs)
record_parsed project_id (some p) st cs =
    record_release project_id (non_empty p.release) p.buckets st cs
