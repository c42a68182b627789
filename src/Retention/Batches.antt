-- ===== src/Retention/Batches.antt =====
-- The loop that every sweep runs: delete a batch of the rows that a test selects, until a batch is
-- short.
use thermite_rs.Prelude.{
  Bool, Bool-cases, List, Option, [], arith, filter, if◌then◌else◌, inl, inr, length, ltb, ltb→lt,
  min, none, not, refl, some, suc, zero, ℕ, ◌&&◌, ◌+◌, ◌-◌, ◌<◌, ◌∷◌, ◌≡◌,
}

module _ {A : Type 0} where
  -- One statement: the last `batch` rows that pass the test, which are the oldest where the table
  -- stands newest first, and how many they were.
  unfoldable pub delete_batch : ℕ → (A → Bool) → List A → ℕ × List A
  delete_batch batch p [] = (0, [])
  delete_batch batch p (r ∷ rs) =
      let (affected, rest) = delete_batch batch p rs in
      if p r && ltb affected batch then (affected + 1, rest) else (affected, r ∷ rest)

  -- The loop; `none` is fuel that has run out.
  unfoldable pub delete_all : ℕ → ℕ → (A → Bool) → ℕ → List A → Option (ℕ × List A)
  delete_all zero batch p deleted rs = none
  delete_all (suc fuel) batch p deleted rs =
      let (affected, rest) = delete_batch batch p rs in
      let more = delete_all fuel batch p (deleted + affected) rest in
      if ltb affected batch then some (deleted + affected, rest) else more

  affected_lem :
      (batch : ℕ) (p : A → Bool) (rs : List A)
      → (delete_batch batch p rs).0 ≡ min (length (filter p rs)) batch
  unfolding delete_batch
  affected_lem batch p [] = omega arith
  affected_lem batch p (r ∷ rs) = ground (arith, affected_lem batch p rs)

  left_lem :
      (batch : ℕ) (p : A → Bool) (rs : List A)
      → (length (filter p (delete_batch batch p rs).1) ≡ length (filter p rs) - batch)
        × (filter (λ r. not (p r)) (delete_batch batch p rs).1 ≡ filter (λ r. not (p r)) rs)
  unfolding delete_batch
  left_lem batch p [] = (omega arith, refl)
  left_lem batch p (r ∷ rs) = elim (Bool-cases (p r)) [
    | inl e ↦ elim (Bool-cases (ltb (delete_batch batch p rs).0 batch)) [
      | inl e' ↦
          rw (e, e') ground (arith, left_lem batch p rs, affected_lem batch p rs, ltb→lt _ _ e')
      | inr e' ↦ rw (e, e', e) ground (arith, left_lem batch p rs, affected_lem batch p rs)
    ]
    | inr e ↦ rw (e, e) ground (arith, left_lem batch p rs)
  ]

  none_left :
      (p : A → Bool) (rs : List A) → length (filter p rs) ≡ 0 → rs ≡ filter (λ r. not (p r)) rs
  none_left p [] h = refl
  none_left p (r ∷ rs) h = ground (arith, none_left p rs)

  -- With a positive batch and more fuel than there are rows to delete, the loop ends: it counts
  -- exactly the rows that pass the test, and keeps exactly the others, in order.
  pub delete_all_lem :
      (fuel batch : ℕ) (p : A → Bool) (deleted : ℕ) (rs : List A)
      → 0 < batch
      → length (filter p rs) < fuel
      → delete_all fuel batch p deleted rs
        ≡ some (deleted + length (filter p rs), filter (λ r. not (p r)) rs)
  unfolding delete_all
  delete_all_lem zero batch p deleted rs h f = ground arith
  delete_all_lem (suc fuel) batch p deleted rs h f =
      let rest = (delete_batch batch p rs).1 in
      let left = left_lem batch p rs in
      ground (
        arith,
        affected_lem batch p rs,
        left,
        none_left p rest,
        delete_all_lem fuel batch p (deleted + (delete_batch batch p rs).0) rest h,
      )
