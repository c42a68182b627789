-- ===== src/Retention/Kept.antt =====
-- What a pass keeps of the events.
use thermite_rs.Prelude.{
  ==_iff, All, Bool, Bool-cases, List, Option, [], ap, arith, false, filter, if◌then◌else◌, inl,
  inr, length, length-filter-le, none, not, refl, some, subst, suc, sym, take, true, zero, ℕ, ◌&&◌,
  ◌+◌, ◌-◌, ◌<◌, ◌==◌, ◌∙◌, ◌∷◌, ◌≡◌, ◌≤◌,
}
use thermite_rs.Json.{unwrap_or}
use thermite_rs.Retention.Batches.{delete_all_lem}
use thermite_rs.Retention.Sweep.{Event, below_quota, enforce_quota, offset, own, trim_to, up_to}

-- The order of the index, strict since ids differ.
abbrev pub Newest : List Event → Type 0
Newest [] = Unit
Newest (x ∷ xs) = All (λ (y : Event). up_to y x ≡ false) xs × Newest xs

All-filter :
    {A : Type 0} (P : A → Type 0) (p : A → Bool) (xs : List A) → All P xs → All P (filter p xs)
All-filter P p [] h = tt
All-filter P p (x ∷ xs) h = elim (Bool-cases (p x)) [
  | inl e ↦ rw e (h.0, All-filter P p xs h.1)
  | inr e ↦ rw e (All-filter P p xs h.1)
]

pub Newest-filter : (p : Event → Bool) (xs : List Event) → Newest xs → Newest (filter p xs)
Newest-filter p [] h = tt
Newest-filter p (x ∷ xs) h = elim (Bool-cases (p x)) [
  | inl e ↦ rw e (All-filter (λ (y : Event). up_to y x ≡ false) p xs h.0, Newest-filter p xs h.1)
  | inr e ↦ rw e (Newest-filter p xs h.1)
]

pub filter-filter :
    {A : Type 0} (p q : A → Bool) (xs : List A)
    → filter p (filter q xs) ≡ filter (λ x. q x && p x) xs
filter-filter p q [] = refl
filter-filter p q (x ∷ xs) = ground (arith, filter-filter p q xs)

up_to-total : (x y : Event) → up_to y x ≡ false → up_to x y ≡ true
up_to-total x y h = ground arith

none_newer :
    (b : Event) (xs : List Event)
    → All (λ (y : Event). up_to y b ≡ false) xs
    → filter (λ (y : Event). not (up_to b y)) xs ≡ []
none_newer b [] h = refl
none_newer b (y ∷ xs) h = rw (up_to-total b y h.0) (none_newer b xs h.1)

newer_head :
    (n : ℕ) (x b : Event) (xs : List Event)
    → All (λ (y : Event). up_to y x ≡ false) xs
    → offset n xs ≡ some b
    → up_to b x ≡ false
newer_head n x b [] h e = ground arith
newer_head zero x b (y ∷ xs) h e = ground (arith, ap (λ (z : Event). up_to z x))
newer_head (suc n) x b (y ∷ xs) h e = newer_head n x b xs h.1 e

up_to_refl : (x : Event) → up_to x x ≡ true
up_to_refl x = ground arith

newer_lem :
    (n : ℕ) (b : Event) (xs : List Event)
    → Newest xs
    → offset n xs ≡ some b
    → filter (λ (y : Event). not (up_to b y)) xs ≡ take n xs
newer_lem n b [] h e = ground arith
newer_lem zero b (x ∷ xs) h e =
    subst (λ z. filter (λ (y : Event). not (up_to z y)) (x ∷ xs) ≡ []) (ap (λ o. unwrap_or o x) e)
      (rw (up_to_refl x) (none_newer x xs h.0))
newer_lem (suc n) b (x ∷ xs) h e =
    rw (newer_head n x b xs h.0 e) (ap (◌∷◌ x) (newer_lem n b xs h.1 e))

offset-none : {A : Type 0} (n : ℕ) (xs : List A) → offset n xs ≡ none → take n xs ≡ xs
offset-none zero [] e = refl
offset-none (suc n) [] e = refl
offset-none zero (x ∷ xs) e = ground arith
offset-none (suc n) (x ∷ xs) e = ap (◌∷◌ x) (offset-none n xs e)

pub length-split :
    {A : Type 0} (p : A → Bool) (xs : List A)
    → length (filter p xs) + length (filter (λ x. not (p x)) xs) ≡ length xs
length-split p [] = refl
length-split p (x ∷ xs) = ground (arith, length-split p xs)

pub filter-cong :
    {A : Type 0} (p q : A → Bool) (xs : List A) → ((x : A) → p x ≡ q x) → filter p xs ≡ filter q xs
filter-cong p q [] h = refl
filter-cong p q (x ∷ xs) h = ground (arith, filter-cong p q xs h, h x)

below-own :
    (p : ℕ) (b e : Event) → (not (below_quota p b e) && own p e) ≡ (own p e && not (up_to b e))
below-own p b e = ground arith

below-other :
    (p q : ℕ) (b e : Event) → (q == p) ≡ false → (not (below_quota p b e) && own q e) ≡ own q e
below-other p q b e h = ground arith

-- The events of project `q` once those of `p` are trimmed.
abbrev trimmed_part : ℕ → ℕ → ℕ → List Event → List Event
trimmed_part p keep q xs = if q == p then take keep xs else xs

below_same :
    (p keep : ℕ) (b : Event) (events : List Event)
    → offset keep (filter (own p) events) ≡ some b
    → Newest events
    → filter (own p) (filter (λ e. not (below_quota p b e)) events)
      ≡ take keep (filter (own p) events)
below_same p keep b events e h =
    filter-filter (own p) (λ e. not (below_quota p b e)) events
    ∙ filter-cong _ (λ e. own p e && not (up_to b e)) events (below-own p b)
    ∙ sym (filter-filter (λ e. not (up_to b e)) (own p) events)
    ∙ newer_lem keep b (filter (own p) events) (Newest-filter (own p) events h) e

below_lem :
    (p keep q : ℕ) (b : Event) (events : List Event)
    → offset keep (filter (own p) events) ≡ some b
    → Newest events
    → filter (own q) (filter (λ e. not (below_quota p b e)) events)
      ≡ trimmed_part p keep q (filter (own q) events)
below_lem p keep q b events e h = elim (Bool-cases (q == p)) [
  | inl k ↦ rw k (
      subst
        (λ z.
          filter (own z) (filter (λ e. not (below_quota p b e)) events)
          ≡ take keep (filter (own z) events))
        (sym ((==_iff q p).0 k)) (below_same p keep b events e h))
  | inr k ↦ rw k (
      filter-filter (own q) (λ e. not (below_quota p b e)) events
      ∙ filter-cong _ (own q) events (λ e. below-other p q b e k))
]

length-take : (n : ℕ) (b : Event) (xs : List Event) → offset n xs ≡ some b → length (take n xs) ≡ n
length-take n b [] e = ground arith
length-take zero b (x ∷ xs) e = refl
length-take (suc n) b (x ∷ xs) e = omega (arith, length-take n b xs e)

length-none : (n : ℕ) (xs : List Event) → offset n xs ≡ none → length xs ≤ n
length-none n [] e = ground arith
length-none zero (x ∷ xs) e = ground arith
length-none (suc n) (x ∷ xs) e = omega (arith, length-none n xs e)

trimmed_whole :
    (p keep q : ℕ) (events : List Event)
    → offset keep (filter (own p) events) ≡ none
    → filter (own q) events ≡ trimmed_part p keep q (filter (own q) events)
trimmed_whole p keep q events e = elim (Bool-cases (q == p)) [
  | inl k ↦ rw k (
      subst (λ z. filter (own z) events ≡ take keep (filter (own z) events))
        (sym ((==_iff q p).0 k)) (sym (offset-none keep (filter (own p) events) e)))
  | inr k ↦ rw k refl
]

below_count :
    (p keep : ℕ) (b : Event) (events : List Event)
    → offset keep (filter (own p) events) ≡ some b
    → Newest events
    → length (filter (below_quota p b) events) ≡ length (filter (own p) events) - keep
below_count p keep b events e h =
    let xs = filter (own p) events in
    omega (
      arith,
      length-split (up_to b) xs,
      ap length (filter-filter (up_to b) (own p) events),
      ap length (newer_lem keep b xs (Newest-filter (own p) events h) e),
      length-take keep b xs e,
    )

pub trimmed :
    (o : Option Event) (fuel p keep batch : ℕ) (events : List Event)
    → offset keep (filter (own p) events) ≡ o
    → Newest events
    → 0 < batch
    → length events < fuel
    → (rest : List Event) × (trim_to o fuel p batch events
        ≡ some (length (filter (own p) events) - keep, rest))
      × ((q : ℕ) → filter (own q) rest ≡ trimmed_part p keep q (filter (own q) events))
      × Newest rest
      × (length rest ≤ length events)
unfolding trim_to
trimmed none fuel p keep batch events e h b f = (
  events,
  ap (λ n. some (n, events)) (omega (arith, length-none keep (filter (own p) events) e)),
  λ q. trimmed_whole p keep q events e,
  h,
  omega arith,
)
trimmed (some x) fuel p keep batch events e h b f = (
  filter (λ e. not (below_quota p x e)) events,
  delete_all_lem fuel batch (below_quota p x) 0 events b
        (omega (arith, length-filter-le (below_quota p x) events))
      ∙ ap (λ n. some (n, filter (λ e. not (below_quota p x e)) events))
          (omega (arith, below_count p keep x events e h)),
  λ q. below_lem p keep q x events e h,
  Newest-filter _ events h,
  length-filter-le _ events,
)

-- Trimming a project to `keep` ends with more fuel than there are events; it deletes the excess over
-- `keep` of the project's events, and what remains of a table in the order of the index is the newest
-- `keep` events of that project, and every event of the other projects, still in that order.
enforce_quota_lem :
    (fuel p keep batch q : ℕ) (events : List Event)
    → Newest events
    → 0 < batch
    → length events < fuel
    → (rest : List Event) × (enforce_quota fuel p keep batch events
        ≡ some (length (filter (own p) events) - keep, rest))
      × (filter (own q) rest
          ≡ (if q == p then take keep (filter (own q) events) else filter (own q) events))
      × Newest rest
unfolding enforce_quota
enforce_quota_lem fuel p keep batch q events h b f =
    let done = trimmed (offset keep (filter (own p) events)) fuel p keep batch events refl h b f in
    (done.0, done.1, done.2 q, done.3)
