-- ===== src/Retention/Projects.antt =====
-- The loop of a pass over the projects.
use thermite_rs.Prelude.{
  ==_iff, Bool, Bool-cases, List, Option, [], any, ap, arith, false, filter, if◌then◌else◌, inl,
  inr, length, length-filter-le, ltb, none, not, refl, some, subst, sym, take, true, ℕ, ◌&&◌, ◌+◌,
  ◌-◌, ◌<◌, ◌==◌, ◌||◌, ◌∙◌, ◌∷◌, ◌≡◌, ◌≤◌,
}
use thermite_rs.Retention.Policy.{Policy}
use thermite_rs.Retention.Sweep.{
  Event, by_age, by_quota, cutoff_of, days, delete_older_than, enforce_quota, offset, older_than,
  own, sweep_projects,
}
use thermite_rs.Retention.Batches.{delete_all_lem}
use thermite_rs.Retention.Kept.{Newest, Newest-filter, filter-cong, filter-filter, trimmed}

-- What the age rule and the quota keep of the events of one project, newest first.
abbrev young : Option ℕ → ℕ → List Event → List Event
young none now xs = xs
young (some d) now xs = filter (λ (e : Event). not (ltb e.received_at (now - days d))) xs

abbrev pub newest : Option ℕ → List Event → List Event
newest none xs = xs
newest (some keep) xs = take keep xs

others-unaged :
    (p q c : ℕ) (e : Event) → (q == p) ≡ false → (not (older_than p c e) && own q e) ≡ own q e
others-unaged p q c e h = ground arith

own-aged :
    (p c : ℕ) (e : Event)
    → (not (older_than p c e) && own p e) ≡ (own p e && not (ltb e.received_at c))
own-aged p c e = ground arith

aged_lem :
    (d now p q : ℕ) (events : List Event)
    → filter (own q) (filter (λ e. not (older_than p (now - days d) e)) events)
      ≡ (if q == p then young (some d) now (filter (own q) events) else filter (own q) events)
aged_lem d now p q events = elim (Bool-cases (q == p)) [
  | inl k ↦ rw k (
      subst
        (λ z.
          filter (own z) (filter (λ e. not (older_than p (now - days d) e)) events)
          ≡ young (some d) now (filter (own z) events))
        (sym ((==_iff q p).0 k))
        (filter-filter (own p) (λ e. not (older_than p (now - days d) e)) events
          ∙ filter-cong _ (λ e. own p e && not (ltb e.received_at (now - days d))) events
              (own-aged p (now - days d))
          ∙ sym (
              filter-filter (λ (e : Event). not (ltb e.received_at (now - days d))) (own p)
                events)))
  | inr k ↦ rw k (
      filter-filter (own q) (λ e. not (older_than p (now - days d) e)) events
      ∙ filter-cong _ (own q) events (λ e. others-unaged p q (now - days d) e k))
]

-- Both rules, on the newest-first events of one project.
abbrev pub kept : Policy → ℕ → List Event → List Event
kept policy now xs = newest policy.max_events_per_project (young policy.max_age_days now xs)

-- The age limit does not reach behind the first instant that chrono represents.
abbrev pub IsInRange : ℕ → Option ℕ → Type 0
IsInRange now none = Unit
IsInRange now (some d) = days d ≤ now

pub cutoff_in_range : (now d : ℕ) → IsInRange now (some d) → cutoff_of now d ≡ some (now - days d)
unfolding cutoff_of
cutoff_in_range now d h = let late : ltb now (days d) ≡ false = ground arith in rw late refl

by_age_lem :
    (d : Option ℕ) (fuel now batch p : ℕ) (events : List Event)
    → IsInRange now d
    → Newest events
    → 0 < batch
    → length events < fuel
    → (n : ℕ) × (rest : List Event) × (by_age d fuel now batch p events ≡ some (n, rest))
      × ((q : ℕ)
          → filter (own q) rest
            ≡ (if q == p then young d now (filter (own q) events) else filter (own q) events))
      × Newest rest
      × (length rest ≤ length events)
unfolding by_age delete_older_than
by_age_lem none fuel now batch p events range h b f = (
  0,
  events,
  refl,
  λ q. elim (Bool-cases (q == p)) [ inl k ↦ rw k refl | inr k ↦ rw k refl ],
  h,
  omega arith,
)
by_age_lem (some d) fuel now batch p events range h b f = (
  0 + length (filter (older_than p (now - days d)) events),
  filter (λ e. not (older_than p (now - days d) e)) events,
  rw (cutoff_in_range now d range) (
      delete_all_lem fuel batch (older_than p (now - days d)) 0 events b
        (omega (arith, length-filter-le (older_than p (now - days d)) events))),
  λ q. aged_lem d now p q events,
  Newest-filter _ events h,
  length-filter-le _ events,
)

by_quota_lem :
    (k : Option ℕ) (fuel batch p : ℕ) (events : List Event)
    → Newest events
    → 0 < batch
    → length events < fuel
    → (n : ℕ) × (rest : List Event) × (by_quota k fuel batch p events ≡ some (n, rest))
      × ((q : ℕ)
          → filter (own q) rest
            ≡ (if q == p then newest k (filter (own q) events) else filter (own q) events))
      × Newest rest
      × (length rest ≤ length events)
unfolding by_quota enforce_quota
by_quota_lem none fuel batch p events h b f = (
  0,
  events,
  refl,
  λ q. elim (Bool-cases (q == p)) [ inl k ↦ rw k refl | inr k ↦ rw k refl ],
  h,
  omega arith,
)
by_quota_lem (some keep) fuel batch p events h b f =
    let done = trimmed (offset keep (filter (own p) events)) fuel p keep batch events refl h b f in
    (_, done.0, done.1, done.2, done.3, done.4)

abbrev pub Distinct : List ℕ → Type 0
Distinct [] = Unit
Distinct (p ∷ ps) = (any (λ q. q == p) ps ≡ false) × Distinct ps

both_rules :
    (f g : List Event → List Event) (here later : Bool) (x0 x1 x2 x3 : List Event)
    → x1 ≡ (if here then f x0 else x0)
    → x2 ≡ (if here then g x1 else x1)
    → x3 ≡ (if later then g (f x2) else x2)
    → (here ≡ true → later ≡ false)
    → x3 ≡ (if here || later then g (f x0) else x0)
both_rules f g true true x0 x1 x2 x3 h1 h2 h3 d = ground (arith, d refl)
both_rules f g true false x0 x1 x2 x3 h1 h2 h3 d = h3 ∙ h2 ∙ ap g h1
both_rules f g false later x0 x1 x2 x3 h1 h2 h3 d =
    h3 ∙ ap (λ z. if later then g (f z) else z) (h2 ∙ h1)

==-sym : (p q : ℕ) → (p == q) ≡ (q == p)
==-sym p q = ground arith

project_part :
    (policy : Policy) (now p q : ℕ) (later : Bool) (x0 x1 x2 x3 : List Event)
    → x1 ≡ (if q == p then young policy.max_age_days now x0 else x0)
    → x2 ≡ (if q == p then newest policy.max_events_per_project x1 else x1)
    → x3 ≡ (if later then kept policy now x2 else x2)
    → ((q == p) ≡ true → later ≡ false)
    → x3 ≡ (if p == q || later then kept policy now x0 else x0)
project_part policy now p q later x0 x1 x2 x3 h1 h2 h3 d = rw (==-sym p q) (
    both_rules (young policy.max_age_days now) (newest policy.max_events_per_project) (q == p) later
      x0 x1 x2 x3 h1 h2 h3 d)

once :
    (p q : ℕ) (ps : List ℕ)
    → any (λ r. r == p) ps ≡ false
    → (q == p) ≡ true
    → any (λ r. r == q) ps ≡ false
once p q ps h e = subst (λ z. any (λ r. r == z) ps ≡ false) (sym ((==_iff q p).0 e)) h

-- Of the readings only the one of the project itself is used.
at_own :
    (p q : ℕ) (f : ℕ → List Event) (xs : List Event)
    → (if q == p then f p else xs) ≡ (if q == p then f q else xs)
at_own p q f xs = elim (Bool-cases (q == p)) [
  | inl k ↦ rw k (ap f (sym ((==_iff q p).0 k)))
  | inr k ↦ rw k refl
]

pub sweep_projects_lem :
    (fuel : ℕ) (now : ℕ → ℕ) (policy : Policy) (ps : List ℕ) (counts : ℕ × ℕ) (events : List Event)
    → ((p : ℕ) → IsInRange (now p) policy.max_age_days)
    → Newest events
    → Distinct ps
    → 0 < policy.batch
    → length events < fuel
    → (totals : ℕ × ℕ) × (rest : List Event) × (sweep_projects fuel now policy ps counts events
        ≡ some (totals, rest))
      × ((q : ℕ)
          → filter (own q) rest ≡ (
              if any (λ p. p == q) ps
              then kept policy (now q) (filter (own q) events)
              else filter (own q) events))
      × Newest rest
unfolding sweep_projects
sweep_projects_lem fuel now policy [] counts events range h d b f =
    (counts, events, refl, λ q. refl, h)
sweep_projects_lem fuel now policy (p ∷ ps) counts events range h d b f =
    let aged = by_age_lem policy.max_age_days fuel (now p) policy.batch p events (range p) h b f in
    let capped =
      by_quota_lem policy.max_events_per_project fuel policy.batch p aged.1 aged.4 b
        (omega (arith, aged.5)) in
    let rest =
      sweep_projects_lem fuel now policy ps (counts.0 + aged.0, counts.1 + capped.0) capped.1 range
        capped.4 d.1 b (omega (arith, aged.5, capped.5)) in
    (
      rest.0,
      rest.1,
      rw (aged.2, capped.2) rest.2,
      λ q.
          project_part policy (now q) p q (any (λ r. r == q) ps) _ _ _ _
            (aged.3 q
              ∙ at_own p q (λ z. young policy.max_age_days (now z) (filter (own q) events)) _)
            (capped.3 q) (rest.3 q) (once p q ps d.0),
      rest.4,
    )
