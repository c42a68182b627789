-- ===== src/Otlp/Counted.antt =====
-- What the counters hold of a batch of logs.
use thermite_rs.Prelude.{
  Bool, Bool-cases, List, Option, Result, Text, [], ap, arith, codes, err, if◌then◌else◌, inl, inr,
  none, ok, refl, some, text_eq, ℕ, ◌+◌, ◌∙◌, ◌∷◌, ◌≡◌,
}
use thermite_rs.Event.Basic.{hour_of}
use thermite_rs.Json.{Fields}
use thermite_rs.Outcomes.{as_key, bump, over_quota}
use thermite_rs.Outcomes.Totals.{bump_unsupported-log}
use thermite_rs.Ingest.Requests.{
  AppError, Config, Libraries, Project, Request, ThermiteState, with_outcomes,
}
use thermite_rs.Ingest.Endpoints.{check_quota, digest_payload, with_store}
use thermite_rs.Otlp.Record.{Group, Record, is_error}
use thermite_rs.Otlp.Endpoint.{
  Batch, LogsAnswer, OtelLibraries, digest_record, finish_logs, handle_groups, handle_record,
  handle_records, on_checked, serve_groups, unless_failed,
}
use thermite_rs.Otlp.Tally.{counted, counted-add, rows_for, tally, tally-flush}

unfoldable pub errors_of : List Record → ℕ
errors_of [] = 0
errors_of (log ∷ logs) = (if is_error log then 1 else 0) + errors_of logs

unfoldable pub others_of : List Record → ℕ
others_of [] = 0
others_of (log ∷ logs) = (if is_error log then 0 else 1) + others_of logs

unfoldable pub errors_in : List Group → ℕ
unfolding errors_of
errors_in [] = 0
errors_in (g ∷ gs) = errors_of g.records + errors_in gs

unfoldable pub others_in : List Group → ℕ
unfolding others_of
others_in [] = 0
others_in (g ∷ gs) = others_of g.records + others_in gs

abbrev log_key : Text
log_key = codes "unsupported:log"

module _ (lib : Libraries) (otel : OtelLibraries) (config : Config) (r : Request)
    (project : Project) where
  -- What so many errors and so many other records add to a batch.
  record Adds (errors others : ℕ) (b c : Batch) : Type 0 where
    to_accepted : counted (codes "accepted") c.counts ≡ errors + counted (codes "accepted") b.counts
    to_log : counted log_key c.counts ≡ others + counted log_key b.counts
    to_over_quota : counted (codes "over_quota") c.counts ≡ counted (codes "over_quota") b.counts
    no_row : c.state.db.outcomes ≡ b.state.db.outcomes

  -- The records are all counted, or the quota was used up at one, which is counted in a row.
  abbrev Went : ℕ → ℕ → Batch → Batch × Option AppError → Type 0
  Went errors others b (c, none) = Adds errors others b c
  Went errors others b (c, some e) =
      rows_for r project (codes "over_quota") c.state
      ≡ 1 + counted (codes "over_quota") b.counts + rows_for r project (codes "over_quota") b.state

  joined :
      (e o e' o' : ℕ) (b c : Batch) (last : Batch × Option AppError)
      → Adds e o b c
      → Went e' o' c last
      → Went (e + e') (o + o') b last
  joined e o e' o' b c (d, none) h k = record {
    to_accepted = omega (arith, h.to_accepted, k.to_accepted);
    to_log = omega (arith, h.to_log, k.to_log);
    to_over_quota = k.to_over_quota ∙ h.to_over_quota;
    no_row = k.no_row ∙ h.no_row;
  }
  joined e o e' o' b c (d, some failure) h k = omega (
    arith,
    h.to_over_quota,
    k,
    ap (tally project.id (hour_of r.received_at) (codes "over_quota")) h.no_row,
  )

  unless_failed-Went :
      (e o e' o' : ℕ) (b : Batch) (first : Batch × Option AppError)
      (rest : Batch → Batch × Option AppError)
      → Went e o b first
      → ((c : Batch) → Went e' o' c (rest c))
      → Went (e + e') (o + o') b (unless_failed first rest)
  unless_failed-Went e o e' o' b (c, some failure) rest h k = h
  unless_failed-Went e o e' o' b (c, none) rest h k = joined e o e' o' b c (rest c) h (k c)

  on_checked-Went :
      (log : Record) (resource : Fields) (b : Batch) (s : ThermiteState) (ran : Result ℕ (Unit {0}))
      → s.db.outcomes ≡ b.state.db.outcomes
      → Went 1 0 b (on_checked lib otel config r project log resource b (s, ran))
  unfolding on_checked with_outcomes digest_record digest_payload with_store bump as_key text_eq
  on_checked-Went log resource b s (ok _) same = record {
    to_accepted = counted-add (codes "accepted") (codes "accepted") 1 b.counts;
    to_log = counted-add log_key (codes "accepted") 1 b.counts;
    to_over_quota = omega (arith, counted-add (codes "over_quota") (codes "accepted") 1 b.counts);
    no_row = same;
  }
  on_checked-Went log resource b s (err retry_after) same = omega (
    arith,
    tally-flush project.id (codes "over_quota") r.received_at (bump over_quota b.counts)
        s.db.outcomes,
    counted-add (codes "over_quota") (codes "over_quota") 1 b.counts,
    ap (tally project.id (hour_of r.received_at) (codes "over_quota")) same,
  )

  handle_record-Went :
      (log : Record) (resource : Fields) (b : Batch)
      → Went
          (if is_error log then 1 else 0)
          (if is_error log then 0 else 1)
          b
          (handle_record lib otel config r project log resource b)
  unfolding handle_record check_quota text_eq
  handle_record-Went log resource b = elim (Bool-cases (is_error log)) [
    | inl e ↦ rw e (on_checked-Went log resource b _ _ refl)
    | inr e ↦ rw e (
        rw (bump_unsupported-log b.counts) (record {
          to_accepted = counted-add (codes "accepted") log_key 1 b.counts;
          to_log = counted-add log_key log_key 1 b.counts;
          to_over_quota = omega (arith, counted-add (codes "over_quota") log_key 1 b.counts);
          no_row = refl;
        }))
  ]

  handle_records-Went :
      (resource : Fields) (logs : List Record) (b : Batch)
      → Went
          (errors_of logs)
          (others_of logs)
          b
          (handle_records lib otel config r project resource logs b)
  unfolding handle_records errors_of others_of
  handle_records-Went resource [] b = record {
    to_accepted = omega arith;
    to_log = omega arith;
    to_over_quota = refl;
    no_row = refl;
  }
  handle_records-Went resource (log ∷ logs) b =
      unless_failed-Went _ _ _ _ b (handle_record lib otel config r project log resource b) _
        (handle_record-Went log resource b) (handle_records-Went resource logs)

  handle_groups-Went :
      (gs : List Group) (b : Batch)
      → Went (errors_in gs) (others_in gs) b (handle_groups lib otel config r project gs b)
  unfolding handle_groups errors_in others_in
  handle_groups-Went [] b = record {
    to_accepted = omega arith;
    to_log = omega arith;
    to_over_quota = refl;
    no_row = refl;
  }
  handle_groups-Went (g ∷ gs) b =
      unless_failed-Went _ _ _ _ b (handle_records lib otel config r project g.resource g.records b)
        _ (handle_records-Went g.resource g.records b) (handle_groups-Went gs)

-- What the answer and the rows are after a batch with so many errors and so many other records.
abbrev pub Answered :
    Request → Project → ℕ → ℕ → ThermiteState → ThermiteState × LogsAnswer → Type 0
Answered r project errors others s (t, none) = ⊥
Answered r project errors others s (t, some (ok answer)) =
    (rows_for r project (codes "accepted") t ≡ errors + rows_for r project (codes "accepted") s)
    × (rows_for r project log_key t ≡ others + rows_for r project log_key s)
Answered r project errors others s (t, some (err e)) =
    rows_for r project (codes "over_quota") t ≡ 1 + rows_for r project (codes "over_quota") s

finish_logs-Answered :
    (lib : Libraries) (otel : OtelLibraries) (config : Config) (r : Request) (project : Project)
    (json : Bool) (errors others : ℕ) (s : ThermiteState) (done : Batch × Option AppError)
    → Went lib otel config r project errors others
        (record { state = s; counts = []; made = 1 })
        done
    → Answered r project errors others s (finish_logs r project json done)
unfolding finish_logs with_outcomes counted
finish_logs-Answered lib otel config r project json errors others s (c, some e) h = h
finish_logs-Answered lib otel config r project json errors others s (c, none) h =
    let rows =
      λ (key : Text). tally-flush project.id key r.received_at c.counts c.state.db.outcomes in
    let same = λ (key : Text). ap (tally project.id (hour_of r.received_at) key) h.no_row in
    (
      omega (arith, h.to_accepted, rows (codes "accepted"), same (codes "accepted")),
      omega (arith, h.to_log, rows log_key, same log_key),
    )

-- A batch that is read is answered, and counted in the rows of its project and hour. If it is
-- accepted, the errors among its records are all counted as accepted and the others all as
-- unsupported logs; otherwise one record more is counted over the quota.
pub batch_is_counted :
    (lib : Libraries) (otel : OtelLibraries) (config : Config) (r : Request) (project : Project)
    (json : Bool) (groups : List Group) (s : ThermiteState)
    → Answered r project
        (errors_in groups)
        (others_in groups)
        s
        (serve_groups lib otel config r project json (some (ok groups)) s)
unfolding serve_groups
batch_is_counted lib otel config r project json groups s =
    let b : Batch = record { state = s; counts = []; made = 1 } in
    finish_logs-Answered lib otel config r project json (errors_in groups) (others_in groups) s
      (handle_groups lib otel config r project groups b)
      (handle_groups-Went lib otel config r project groups b)
