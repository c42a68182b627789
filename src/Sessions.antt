-- ===== src/Sessions.antt =====
-- Release health: the counting rule of crates/thermite-core/src/protocol/session.rs, and the merge of
-- a batch in crates/thermite-core/src/ingest/sessions.rs.
pub mod Lifecycle
pub mod Batches
pub mod Rollup
use thermite_rs.Prelude.{
  Bool, List, Option, Text, [], codes, if◌then◌else◌, ltb, none, some, text_eq, ℕ, ◌&&◌, ◌+◌, ◌==◌,
  ◌∷◌,
}

-- The four i64 counters; all that is added to them is unsigned.
pub record Delta : Type 0 where
  pub sessions : ℕ
  pub errored : ℕ
  pub crashed : ℕ
  pub abnormal : ℕ

abbrev no_delta : Delta
no_delta = record { sessions = 0; errored = 0; crashed = 0; abnormal = 0 }

unfoldable pub is_empty : Delta → Bool
is_empty d = d.sessions == 0 && (d.errored == 0 && (d.crashed == 0 && d.abnormal == 0))

unfoldable pub merge : Delta → Delta → Delta
merge d other = record {
  sessions = d.sessions + other.sessions;
  errored = d.errored + other.errored;
  crashed = d.crashed + other.crashed;
  abnormal = d.abnormal + other.abnormal;
}

-- The fields that the rollup reads. The instants are of any type: the JSON values that arrive, or the
-- times that the SDK sends.
pub record Session (I : Type 0) : Type 0 where
  pub init : Bool
  pub status : Option Text
  pub errors : ℕ
  pub started : Option I
  pub timestamp : Option I
  pub release : Option Text

abbrev pub count_if : Bool → ℕ
count_if b = if b then 1 else 0

abbrev status_or_ok : Option Text → Text
status_or_ok none = codes "ok"
status_or_ok (some s) = s

unfoldable pub delta : {I : Type 0} → Session I → Delta
unfolding text_eq
delta s =
    let status = status_or_ok s.status in
    record {
      sessions = count_if s.init;
      errored = count_if (text_eq status (codes "exited") && ltb 0 s.errors);
      crashed = count_if (text_eq status (codes "crashed"));
      abnormal = count_if (text_eq status (codes "abnormal"));
    }

unfoldable pub started_at : {I : Type 0} → Session I → Option I
started_at s = elim s.started [ none ↦ s.timestamp | some t ↦ some t ]

-- One bucket of a batch; each counter is a u32.
pub record Aggregate (I : Type 0) : Type 0 where
  pub started : Option I
  pub exited : ℕ
  pub errored : ℕ
  pub crashed : ℕ
  pub abnormal : ℕ

unfoldable pub aggregate_delta : {I : Type 0} → Aggregate I → Delta
aggregate_delta a = record {
  sessions = a.exited + a.errored + a.crashed + a.abnormal;
  errored = a.errored;
  crashed = a.crashed;
  abnormal = a.abnormal;
}

-- The fold of `parse`: a delta joins the entry of its bucket, or opens one at the end.
unfoldable pub merge_into : ℕ → Delta → List (ℕ × Delta) → List (ℕ × Delta)
unfolding merge
merge_into bucket d [] = (bucket, d) ∷ []
merge_into bucket d ((at, existing) ∷ merged) =
    if at == bucket
    then (at, merge existing d) ∷ merged
    else (at, existing) ∷ merge_into bucket d merged

unfoldable pub fold_buckets : List (ℕ × Delta) → List (ℕ × Delta) → List (ℕ × Delta)
unfolding merge_into
fold_buckets merged [] = merged
fold_buckets merged ((bucket, d) ∷ ds) = fold_buckets (merge_into bucket d merged) ds
