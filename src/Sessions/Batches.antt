-- ===== src/Sessions/Batches.antt =====
-- Merging the entries of a batch loses nothing and leaves one entry to a bucket.
use thermite_rs.Prelude.{
  Bool, List, [], any, arith, false, if◌then◌else◌, refl, ℕ, ◌+◌, ◌==◌, ◌||◌, ◌∷◌, ◌≡◌,
}
use thermite_rs.Sessions.{Delta, fold_buckets, merge, merge_into}

-- One of the four counters.
pub data Counter : Type 0 where
  sessions errored crashed abnormal : Counter

abbrev pub value : Counter → Delta → ℕ
value sessions d = d.sessions
value errored d = d.errored
value crashed d = d.crashed
value abnormal d = d.abnormal

-- What the entries of one bucket come to.
pub sum_in : Counter → ℕ → List (ℕ × Delta) → ℕ
sum_in c bucket [] = 0
sum_in c bucket ((at, d) ∷ ds) = (if at == bucket then value c d else 0) + sum_in c bucket ds

value-merge : (c : Counter) (d e : Delta) → value c (merge d e) ≡ value c d + value c e
unfolding merge
value-merge sessions d e = refl
value-merge _ d e = refl

sum_in-merge_into :
    (c : Counter) (b at : ℕ) (d : Delta) (merged : List (ℕ × Delta))
    → sum_in c b (merge_into at d merged) ≡ (if at == b then value c d else 0) + sum_in c b merged
unfolding sum_in merge_into
sum_in-merge_into c b at d [] = refl
sum_in-merge_into c b at d ((i, e) ∷ merged) =
    ground (arith, value-merge c e d, sum_in-merge_into c b at d merged)

fold_buckets_sum :
    (c : Counter) (b : ℕ) (merged ds : List (ℕ × Delta))
    → sum_in c b (fold_buckets merged ds) ≡ sum_in c b merged + sum_in c b ds
unfolding sum_in fold_buckets
fold_buckets_sum c b merged [] = omega arith
fold_buckets_sum c b merged ((at, d) ∷ ds) =
    omega
      (arith, fold_buckets_sum c b (merge_into at d merged) ds, sum_in-merge_into c b at d merged)

abbrev has_bucket : ℕ → List (ℕ × Delta) → Bool
has_bucket b ds = any (λ e. e.0 == b) ds

abbrev pub IsDistinct : List (ℕ × Delta) → Type 0
IsDistinct [] = Unit
IsDistinct ((b, d) ∷ ds) = (any (λ e. e.0 == b) ds ≡ false) × IsDistinct ds

merge_into-has :
    (b at : ℕ) (d : Delta) (merged : List (ℕ × Delta))
    → has_bucket b (merge_into at d merged) ≡ (at == b || has_bucket b merged)
unfolding merge_into
merge_into-has b at d [] = ground arith
merge_into-has b at d ((i, e) ∷ merged) = ground (arith, merge_into-has b at d merged)

merge_into-IsDistinct :
    (at : ℕ) (d : Delta) (merged : List (ℕ × Delta))
    → IsDistinct merged
    → IsDistinct (merge_into at d merged)
unfolding merge_into
merge_into-IsDistinct at d [] h = (refl, tt)
merge_into-IsDistinct at d ((i, e) ∷ merged) h =
    ground (arith, merge_into-IsDistinct at d merged, merge_into-has i at d merged)

fold_buckets-IsDistinct :
    (merged ds : List (ℕ × Delta)) → IsDistinct merged → IsDistinct (fold_buckets merged ds)
unfolding fold_buckets
fold_buckets-IsDistinct merged [] h = h
fold_buckets-IsDistinct merged ((b, d) ∷ ds) h =
    fold_buckets-IsDistinct (merge_into b d merged) ds (merge_into-IsDistinct b d merged h)

-- After the fold over a batch, no bucket stands twice, and for every bucket each of the four
-- counters is the sum of what the batch's entries gave for that bucket.
pub batch_merged_exactly :
    (ds : List (ℕ × Delta))
    → IsDistinct (fold_buckets [] ds)
      × ((c : Counter) (b : ℕ) → sum_in c b (fold_buckets [] ds) ≡ sum_in c b ds)
unfolding sum_in
batch_merged_exactly ds =
    (fold_buckets-IsDistinct [] ds tt, λ c b. omega (arith, fold_buckets_sum c b [] ds))
