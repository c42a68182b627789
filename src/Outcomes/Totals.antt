-- ===== src/Outcomes/Totals.antt =====
-- Nothing that is counted is lost, and the set of keys is fixed.
use thermite_rs.Prelude.{
  List, Text, [], arith, codes, filter, if◌then◌else◌, ltb, map, none, refl, some, text_eq, ℕ, ◌&&◌,
  ◌++◌, ◌+◌, ◌∷◌, ◌≡◌,
}
use thermite_rs.Outcomes.{
  ClientReport, Counts, Discarded, add, add_client_discarded, add_discards, as_key, bump,
  bump_unsupported, client_discarded_key, event_discards, first_match, invalid, is_event_category,
  record_client_report, unsupported_key,
}

pub total : Counts → ℕ
total [] = 0
total ((k, n) ∷ cs) = n + total cs

total-add : (k : Text) (n : ℕ) (cs : Counts) → total (add k n cs) ≡ n + total cs
unfolding total add
total-add k n [] = omega arith
total-add k n ((j, m) ∷ cs) = ground (arith, total-add k n cs)

-- What a report says was lost of the categories that are stored here.
pub lost : List Discarded → ℕ
lost [] = 0
lost (d ∷ ds) = (if is_event_category d.category then d.quantity else 0) + lost ds

total_discards : List (Text × ℕ) → ℕ
total_discards [] = 0
total_discards ((r, q) ∷ ds) = q + total_discards ds

lost-append : (xs ys : List Discarded) → lost (xs ++ ys) ≡ lost xs + lost ys
unfolding lost
lost-append [] ys = omega arith
lost-append (x ∷ xs) ys = omega (arith, lost-append xs ys)

lost-filter :
    (ds : List Discarded)
    → total_discards (
        map
          (λ (d : Discarded). (d.reason, d.quantity))
          (filter (λ (d : Discarded). ltb 0 d.quantity && is_event_category d.category) ds))
      ≡ lost ds
unfolding lost total_discards
lost-filter [] = refl
lost-filter (d ∷ ds) = ground (arith, lost-filter ds)

total-add_discards :
    (ds : List (Text × ℕ)) (cs : Counts) → total (add_discards ds cs) ≡ total_discards ds + total cs
unfolding add_discards total_discards add_client_discarded
total-add_discards [] cs = omega arith
total-add_discards ((r, q) ∷ ds) cs = omega (
  arith,
  total-add_discards ds (add (client_discarded_key r) q cs),
  total-add (client_discarded_key r) q cs,
)

total-bump : (cs : Counts) → total (bump invalid cs) ≡ total cs + 1
unfolding bump
total-bump cs = omega (arith, total-add (as_key invalid) 1 cs)

discards_total :
    (r : ClientReport) (cs : Counts)
    → total (add_discards (event_discards r) cs)
      ≡ lost r.discarded_events + lost r.rate_limited_events + lost r.filtered_events + total cs
unfolding event_discards
discards_total r cs =
    let all = r.discarded_events ++ (r.rate_limited_events ++ r.filtered_events) in
    omega (
      arith,
      total-add_discards (event_discards r) cs,
      lost-filter all,
      lost-append r.discarded_events (r.rate_limited_events ++ r.filtered_events),
      lost-append r.rate_limited_events r.filtered_events,
    )

-- A client report raises the counters, taken together, by exactly the quantities that its three
-- lists give for the event categories; a report that does not decode raises them by one.
pub client_report_total :
    (r : ClientReport) (cs : Counts)
    → (total (record_client_report (some r) cs)
        ≡ lost r.discarded_events + lost r.rate_limited_events + lost r.filtered_events + total cs)
      × (total (record_client_report none cs) ≡ total cs + 1)
unfolding record_client_report
client_report_total r cs = (discards_total r cs, total-bump cs)

-- The key of the records of OTLP that are dropped.
pub bump_unsupported-log :
    (cs : Counts) → bump_unsupported (codes "log") cs ≡ add (codes "unsupported:log") 1 cs
unfolding bump_unsupported unsupported_key first_match text_eq
bump_unsupported-log cs = refl
