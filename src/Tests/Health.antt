-- ===== src/Tests/Health.antt =====
-- The session counts, at concrete inputs.
use thermite_rs.Prelude.{List, [], any, codes, not, some, ℕ, ◌&&◌, ◌∷◌, ◌≡◌}
use thermite_rs.Sessions.{Delta, count_if, delta, fold_buckets, merge, started_at}
use thermite_rs.Sessions.Lifecycle.{
  Happening, closed, crash, error, is_crash, live, new, opened, received, session_counted_once,
}
use thermite_rs.Sessions.Batches.{Counter, IsDistinct, batch_merged_exactly, sum_in}

abbrev happenings : List Happening
happenings = error ∷ crash ∷ error ∷ []

session_counted_once_example :
    let s = live (new (codes "app@1") 100) happenings in
    (merge
        (delta (received (opened (new (codes "app@1") 100) 101)))
        (delta (received (closed s 160)))
      ≡ record {
        sessions = 1;
        errored =
            count_if (not (any is_crash happenings) && any (λ h. not (is_crash h)) happenings);
        crashed = count_if (any is_crash happenings);
        abnormal = 0;
      })
    × (started_at (received (opened (new (codes "app@1") 100) 101)) ≡ some 100)
    × (started_at (received (closed s 160)) ≡ some 100)
session_counted_once_example = session_counted_once (codes "app@1") 100 101 160 happenings

-- Two entries of bucket 3600 and one of bucket 7200.
abbrev deltas : List (ℕ × Delta)
deltas =
    (3600, record { sessions = 2; errored = 1; crashed = 0; abnormal = 0 })
    ∷ (7200, record { sessions = 1; errored = 0; crashed = 1; abnormal = 0 })
    ∷ (3600, record { sessions = 4; errored = 0; crashed = 0; abnormal = 2 })
    ∷ []

batch_merged_exactly_example :
    IsDistinct (fold_buckets [] deltas)
    × ((c : Counter) (b : ℕ) → sum_in c b (fold_buckets [] deltas) ≡ sum_in c b deltas)
batch_merged_exactly_example = batch_merged_exactly deltas
