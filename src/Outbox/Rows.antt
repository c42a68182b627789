-- ===== src/Outbox/Rows.antt =====
-- The updates of one row and the claims of the first rows, over the whole table.
use thermite_rs.Prelude.{
  All, Bool, Bool-cases, List, [], any, ap, arith, drop, false, filter, inl, inr, map, not, refl,
  some, suc, take, zero, ℕ, ◌==◌, ◌∷◌, ◌≡◌,
}
use thermite_rs.Outbox.Row.{Row, claim_first, update_id}
use thermite_rs.Outbox.Alerts.{find_id}

-- A claim returns the changed first rows among those that pass the test.
pub claimed_lem :
    (n : ℕ) (p : Row → Bool) (f : Row → Row) (rs : List Row)
    → (claim_first n p f rs).0 ≡ map f (take n (filter p rs))
unfolding claim_first
claimed_lem zero p f rs = refl
claimed_lem (suc n) p f [] = refl
claimed_lem (suc n) p f (r ∷ rs) = elim (Bool-cases (p r)) [
  | inl e ↦ rw e (ap (◌∷◌ (f r)) (claimed_lem n p f rs))
  | inr e ↦ rw e (claimed_lem (suc n) p f rs)
]

-- When a changed row fails the test, the table that a claim leaves offers the rows after the first.
pub left_lem :
    (n : ℕ) (p : Row → Bool) (f : Row → Row) (rs : List Row)
    → ((r : Row) → p (f r) ≡ false)
    → filter p (claim_first n p f rs).1 ≡ drop n (filter p rs)
unfolding claim_first
left_lem zero p f rs h = refl
left_lem (suc n) p f [] h = refl
left_lem (suc n) p f (r ∷ rs) h = elim (Bool-cases (p r)) [
  | inl e ↦ rw (e, h r) (left_lem n p f rs h)
  | inr e ↦ rw (e, e) (left_lem (suc n) p f rs h)
]

-- A change that keeps the id, at the row that it is made for.
pub find_id-update_id :
    (id : ℕ) (f : Row → Row) (rs : List Row) (r : Row)
    → ((s : Row) → (f s).id ≡ s.id)
    → find_id id rs ≡ some r
    → find_id id (update_id id f rs) ≡ some (f r)
unfolding find_id update_id
find_id-update_id id f [] r h e = ground arith
find_id-update_id id f (s ∷ rs) r h e = ground (arith, find_id-update_id id f rs r h, h s, ap f)

-- A change that is its own repetition, made twice.
pub update_id-update_id :
    (id : ℕ) (f g : Row → Row) (rs : List Row)
    → ((s : Row) → (f s).id ≡ s.id)
    → ((s : Row) → g (f s) ≡ f s)
    → update_id id g (update_id id f rs) ≡ update_id id f rs
unfolding update_id
update_id-update_id id f g [] h k = refl
update_id-update_id id f g (s ∷ rs) h k =
    ground (arith, update_id-update_id id f g rs h k, h s, k s)

-- A change that makes the test fail removes the row from what the test selects, and a change of other
-- rows than those does not add any.
pub filter-update_id :
    (id : ℕ) (p : Row → Bool) (f : Row → Row) (rs : List Row)
    → ((s : Row) → p (f s) ≡ false)
    → filter p (update_id id f rs) ≡ filter (λ (s : Row). not (s.id == id)) (filter p rs)
unfolding update_id
filter-update_id id p f [] h = refl
filter-update_id id p f (s ∷ rs) h = elim (Bool-cases (s.id == id)) [
  | inl e ↦ elim (Bool-cases (p s)) [
    | inl e' ↦ rw (e, h s, e', e) (filter-update_id id p f rs h)
    | inr e' ↦ rw (e, h s, e') (filter-update_id id p f rs h)
  ]
  | inr e ↦ elim (Bool-cases (p s)) [
    | inl e' ↦ rw (e, e', e) (ap (◌∷◌ s) (filter-update_id id p f rs h))
    | inr e' ↦ rw (e, e') (filter-update_id id p f rs h)
  ]
]

pub All-map :
    (P : Row → Type 0) (f : Row → Row) (rs : List Row) → ((r : Row) → P (f r)) → All P (map f rs)
All-map P f [] h = tt
All-map P f (r ∷ rs) h = (h r, All-map P f rs h)

pub any-update_id :
    (id : ℕ) (f : Row → Row) (rs : List Row)
    → ((s : Row) → (f s).id ≡ s.id)
    → any (λ (r : Row). r.id == id) (update_id id f rs) ≡ any (λ (r : Row). r.id == id) rs
unfolding update_id
any-update_id id f [] h = refl
any-update_id id f (s ∷ rs) h = ground (arith, any-update_id id f rs h, h s)
