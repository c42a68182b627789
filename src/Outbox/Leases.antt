-- ===== src/Outbox/Leases.antt =====
-- The leases of both consumers: a claimed row is not offered again before its lease ends, an
-- acknowledged one is never offered, and a released one is offered at once.
use thermite_rs.Prelude.{
  All, Bool, List, Option, Result, Text, [], any, ap, arith, drop, err, false, filter, map, none,
  not, ok, refl, some, subst, sym, take, true, ℕ, ◌&&◌, ◌+◌, ◌==◌, ◌∙◌, ◌∷◌, ◌≡◌, ◌≤◌,
}
use thermite_rs.Outbox.Row.{Row, claim_first, clamp, is_null}
use thermite_rs.Outbox.Alerts.{AlertState, claim, deliverable, find_id, lease}
use thermite_rs.Outbox.Triage.{
  AppError, ClaimRequest, Joined, ack_item, ack_row, bad_request, claim_items, claim_row,
  claimed_of, lease_seconds_of, matches_filter, page_size, pending_items, pending_of, release,
  release_row, validate_kind, waiting,
}
use thermite_rs.Outbox.Rows.{
  All-map, any-update_id, claimed_lem, filter-update_id, find_id-update_id, left_lem,
  update_id-update_id,
}

leased-undeliverable :
    (st : AlertState) (g : Bool) (now t : ℕ) (r : Row)
    → t ≤ now + 300
    → deliverable st g t (lease now r) ≡ false
unfolding deliverable lease
leased-undeliverable st g now t r h = ground arith

-- `claim` returns the first rows that delivery may take, as many as the limit clamped to 1 to 500,
-- with a lease of five minutes; what a second claim at the same time may take is
-- the rest, in order; and at no time up to the end of the lease may a row be taken again.
pub claim_lem :
    (st : AlertState) (limit now t : ℕ) (g : Bool) (rows : List Row)
    → t ≤ now + 300
    → ((claim st limit g now rows).0
        ≡ map (lease now) (take (clamp limit 1 500) (filter (deliverable st g now) rows)))
      × (filter (deliverable st g now) (claim st limit g now rows).1
          ≡ drop (clamp limit 1 500) (filter (deliverable st g now) rows))
      × All (λ (r : Row). deliverable st g t r ≡ false) (claim st limit g now rows).0
unfolding claim
claim_lem st limit now t g rows h =
    let leased = λ (r : Row). leased-undeliverable st g now now r (omega arith) in
    let returned = claimed_lem (clamp limit 1 500) (deliverable st g now) (lease now) rows in
    (
      returned,
      left_lem (clamp limit 1 500) (deliverable st g now) (lease now) rows leased,
      subst (All (λ (r : Row). deliverable st g t r ≡ false)) (sym returned) (
          All-map _ (lease now) (take (clamp limit 1 500) (filter (deliverable st g now) rows))
            (λ r. leased-undeliverable st g now t r h)),
    )

claimed-not_waiting :
    (j : Joined) (request : ClaimRequest) (project kind level : Option Text) (now t : ℕ) (r : Row)
    → t ≤ now + lease_seconds_of request.lease_seconds
    → waiting j project kind level t (claim_row request now r) ≡ false
unfolding waiting claim_row
claimed-not_waiting j request project kind level now t r h = ground arith

claimed_by_items :
    (v : Result AppError (Unit {0})) (rows : List Row) (c : List Row × List Row)
    (claimed : List Row)
    → (claimed_of v rows c).0 ≡ ok claimed
    → (c.0 ≡ claimed) × ((claimed_of v rows c).1 ≡ c.1)
unfolding claimed_of
claimed_by_items v rows c claimed e = ground arith

-- A `claim_items` whose `kind` is valid answers with the first waiting rows that match its filters, as
-- many as the page allows, claimed for the clamped lease; a claim that repeats it at the same time is
-- offered the rest; and until the end of the lease no listing or claim, whatever its
-- filters, is offered the rows again.
pub claim_items_lem :
    (j : Joined) (request : ClaimRequest) (now t : ℕ) (rows claimed : List Row)
    (project kind level : Option Text)
    → (claim_items j request now rows).0 ≡ ok claimed
    → t ≤ now + lease_seconds_of request.lease_seconds
    → (claimed
        ≡ map (claim_row request now) (
            take
              (page_size request.limit)
              (filter (waiting j request.project request.kind request.level now) rows)))
      × (filter
            (waiting j request.project request.kind request.level now)
            (claim_items j request now rows).1
          ≡ drop
              (page_size request.limit)
              (filter (waiting j request.project request.kind request.level now) rows))
      × All (λ (r : Row). waiting j project kind level t r ≡ false) claimed
unfolding claim_items
claim_items_lem j request now t rows claimed project kind level e h =
    let p = waiting j request.project request.kind request.level now in
    let n = page_size request.limit in
    let returned =
      claimed_by_items (validate_kind request.kind) rows
        (claim_first n p (claim_row request now) rows) claimed e in
    let chosen = sym returned.0 ∙ claimed_lem n p (claim_row request now) rows in
    (
      chosen,
      ap (filter p) returned.1
          ∙ left_lem n p (claim_row request now) rows
              (λ r. claimed-not_waiting j request _ _ _ now now r (omega arith)),
      subst (All (λ (r : Row). waiting j project kind level t r ≡ false)) (sym chosen) (
          All-map _ (claim_row request now) (take n (filter p rows))
            (λ r. claimed-not_waiting j request project kind level now t r h)),
    )

refused_by_both :
    (v : Result AppError (Unit {0})) (rows : List Row) (c : List Row × List Row) (page : List Row)
    (e : AppError)
    → (claimed_of v rows c).0 ≡ err e
    → ((claimed_of v rows c).1 ≡ rows) × (v ≡ err e) × (pending_of v page ≡ err e)
unfolding claimed_of pending_of
refused_by_both v rows c page e h = ground arith

invalid_kind : (kind : Option Text) (e : AppError) → validate_kind kind ≡ err e → e ≡ bad_request
unfolding validate_kind
invalid_kind kind e h = ground arith

-- A `claim_items` that is refused leaves the table as it was, and the refusal is a bad request, which
-- `pending_items` gives for the same `kind`.
refused_claim_changes_nothing :
    (j : Joined) (request : ClaimRequest) (now : ℕ) (rows : List Row) (e : AppError)
    → (claim_items j request now rows).0 ≡ err e
    → ((claim_items j request now rows).1 ≡ rows)
      × (e ≡ bad_request)
      × (pending_items j request.project request.kind request.level request.limit now rows ≡ err e)
unfolding claim_items pending_items
refused_claim_changes_nothing j request now rows e h =
    let refused =
      refused_by_both (validate_kind request.kind) rows
        (claim_first (page_size request.limit)
          (waiting j request.project request.kind request.level now) (claim_row request now) rows)
        (take (page_size request.limit)
          (filter (waiting j request.project request.kind request.level now) rows))
        e h in
    (refused.0, invalid_kind request.kind e refused.1, refused.2)

acked-not_waiting :
    (j : Joined) (project kind level : Option Text) (now t : ℕ) (r : Row)
    → waiting j project kind level t (ack_row now r) ≡ false
unfolding waiting ack_row
acked-not_waiting j project kind level now t r = ground arith

ack_row-twice : (now later : ℕ) (r : Row) → ack_row later (ack_row now r) ≡ ack_row now r
unfolding ack_row
ack_row-twice now later r = ground arith

-- `ack_item` takes the rows of its id, and no others, from what is waiting, for all filters and at
-- all times; its answer is not found exactly if no row has the id; and a repetition changes
-- nothing and is answered alike.
pub ack_is_final :
    (j : Joined) (project kind level : Option Text) (id now later t : ℕ) (rows : List Row)
    → (filter (waiting j project kind level t) (ack_item id now rows).1
        ≡ filter (λ (r : Row). not (r.id == id)) (filter (waiting j project kind level t) rows))
      × (ack_item id later (ack_item id now rows).1 ≡ ack_item id now rows)
unfolding ack_item ack_row
ack_is_final j project kind level id now later t rows = (
  filter-update_id id (waiting j project kind level t) (ack_row now) rows
      (acked-not_waiting j project kind level now t),
  ground (
    arith,
    any-update_id id (ack_row now) rows (λ s. refl),
    update_id-update_id id (ack_row now) (ack_row later) rows (λ s. refl) (ack_row-twice now later),
  ),
)

any_unacked :
    (id : ℕ) (rows : List Row) (r : Row)
    → find_id id rows ≡ some r
    → r.acked_at ≡ none
    → any (λ (s : Row). s.id == id && is_null s.acked_at) rows ≡ true
unfolding find_id
any_unacked id [] r e a = ground arith
any_unacked id (s ∷ rows) r e a =
    ground (arith, any_unacked id rows r, ap (λ (x : Row). x.acked_at))

release_row-id : (r : Row) → (release_row r).id ≡ r.id
unfolding release_row
release_row-id r = ground arith

-- The first row of an id that is not acknowledged: after `release` the answer is ok, and the row is
-- waiting again at once, for the filters that its project, kind and level match.
release_offers_again :
    (j : Joined) (project kind level : Option Text) (id t : ℕ) (rows : List Row) (r : Row)
    → find_id id rows ≡ some r
    → r.acked_at ≡ none
    → ((release id rows).0 ≡ ok tt)
      × (find_id id (release id rows).1 ≡ some (release_row r))
      × (waiting j project kind level t (release_row r) ≡ (
          matches_filter project (j.slug_of r.project_id)
          && (matches_filter kind r.kind && matches_filter level (j.level_of r.issue_id))))
unfolding release release_row waiting
release_offers_again j project kind level id t rows r e a = (
  ground (arith, any_unacked id rows r e a),
  find_id-update_id id release_row rows r release_row-id e,
  ground arith,
)
