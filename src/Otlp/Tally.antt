-- ===== src/Otlp/Tally.antt =====
-- What the counters of a request, and the rows of `ingest_outcomes`, hold under a key.
use thermite_rs.Prelude.{
  Bool-cases, List, Text, [], arith, if◌then◌else◌, inl, inr, refl, text_eq, text_eq_iff, true, ℕ,
  ◌&&◌, ◌+◌, ◌==◌, ◌∷◌, ◌≡◌,
}
use thermite_rs.Event.Basic.{hour_of}
use thermite_rs.Outcomes.{Counts, add}
use thermite_rs.Ingest.Requests.{OutcomeCount, Project, Request, ThermiteState, flush, record_key}

-- What is counted under a key.
unfoldable pub counted : Text → Counts → ℕ
unfolding text_eq
counted key [] = 0
counted key ((k, n) ∷ cs) = (if text_eq k key then n else 0) + counted key cs

pub counted-add :
    (key outcome : Text) (count : ℕ) (cs : Counts)
    → counted key (add outcome count cs)
      ≡ (if text_eq outcome key then count else 0) + counted key cs
unfolding counted add
counted-add key outcome count [] = omega arith
counted-add key outcome count ((k, n) ∷ cs) = elim (Bool-cases (text_eq k outcome)) [
  | inl e ↦ rw (e, (text_eq_iff k outcome).0 e) (ground arith)
  | inr e ↦ rw e (omega (arith, counted-add key outcome count cs))
]

-- What the rows of a project have for an hour under a key.
pub tally : ℕ → ℕ → Text → List OutcomeCount → ℕ
unfolding text_eq
tally project_id bucket key [] = 0
tally project_id bucket key (c ∷ cs) =
    (if c.project_id == project_id && (c.bucket == bucket && text_eq c.outcome key)
      then c.count
      else 0)
    + tally project_id bucket key cs

equal_texts : (a b key : Text) → text_eq a b ≡ true → text_eq a key ≡ text_eq b key
equal_texts a b key e = rw ((text_eq_iff a b).0 e) refl

tally-record_key :
    (project_id : ℕ) (key outcome : Text) (count received_at : ℕ) (rows : List OutcomeCount)
    → tally project_id
        (hour_of received_at)
        key
        (record_key project_id outcome count received_at rows)
      ≡ (if text_eq outcome key then count else 0) + tally project_id (hour_of received_at) key rows
unfolding tally record_key
tally-record_key project_id key outcome count received_at [] = ground arith
tally-record_key project_id key outcome count received_at (c ∷ cs) = ground (
  arith,
  tally-record_key project_id key outcome count received_at cs,
  equal_texts c.outcome outcome key,
)

pub tally-flush :
    (project_id : ℕ) (key : Text) (received_at : ℕ) (counts : Counts) (rows : List OutcomeCount)
    → tally project_id (hour_of received_at) key (flush project_id received_at counts rows)
      ≡ counted key counts + tally project_id (hour_of received_at) key rows
unfolding flush counted
tally-flush project_id key received_at [] rows = omega arith
tally-flush project_id key received_at ((outcome, count) ∷ counts) rows = omega (
  arith,
  tally-flush project_id key received_at counts
      (record_key project_id outcome count received_at rows),
  tally-record_key project_id key outcome count received_at rows,
)

-- The rows of a project, in the hour of a request.
abbrev pub rows_for : Request → Project → Text → ThermiteState → ℕ
rows_for r project key s = tally project.id (hour_of r.received_at) key s.db.outcomes
