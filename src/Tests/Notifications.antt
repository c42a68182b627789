-- ===== src/Tests/Notifications.antt =====
-- The outbox, at a concrete table.
use thermite_rs.Prelude.{
  All, List, [], arith, codes, drop, err, false, filter, leb, ltb, map, max, min, none, ok, refl,
  some, take, true, ℕ, ◌&&◌, ◌*◌, ◌+◌, ◌^◌, ◌||◌, ◌∷◌, ◌≡◌, ◌≤◌,
}
use thermite_rs.Outbox.Row.{Row, clamp, is_null}
use thermite_rs.Outbox.Alerts.{
  AlertState, claim, deliverable, find_id, is_dead_letter, lease, past_floor, record_failure,
}
use thermite_rs.Outbox.Triage.{
  ClaimRequest, Joined, bad_request, claim_items, claim_row, lease_seconds_of, page_size, waiting,
}
use thermite_rs.Outbox.Delivery.{failed_row_backs_off}
use thermite_rs.Outbox.Leases.{claim_items_lem, claim_lem}

-- A fresh notification, with its id.
abbrev fresh : ℕ → Row
fresh n = record {
  id = n;
  project_id = 1;
  issue_id = n;
  kind = codes "new_issue";
  created_at = 50;
  claimed_at = none;
  claimed_by = none;
  lease_until = none;
  acked_at = none;
  alerted_at = none;
  alert_failed_at = none;
  alert_lease_until = none;
  alert_next_attempt_at = none;
  alert_attempts = 0;
  alert_email_at = none;
  alert_webhook_at = none;
}

abbrev table : List Row
table = fresh 1 ∷ fresh 2 ∷ fresh 3 ∷ []

abbrev state : AlertState
state = record { backlog_floor = some 40; has_override = λ _. false }

abbrev failing : List ℕ
failing = 60 ∷ 200 ∷ []

abbrev again : List ℕ
again = 99 ∷ []

found : find_id 2 table ≡ some (fresh 2)
unfolding find_id
found = refl

failed_row_backs_off_example :
    ((record_failure 2 3 60 table).0 ≡ some (leb (max 3 1) (0 + 1)))
    × (s : Row) × (find_id 2 (record_failure 2 3 60 table).1 ≡ some s)
    × (deliverable state true 100 s ≡ (
        is_null none
        && (ltb (0 + 1) (max 3 1)
            && (leb (60 + min (2 ^ 0 * 60) 3600) 100
                && (past_floor state.backlog_floor (fresh 2).created_at
                    && (true || state.has_override (fresh 2).project_id))))))
failed_row_backs_off_example = failed_row_backs_off state true 2 3 60 100 table (fresh 2) found

abbrev dead : Row
dead = record (fresh 2) { alert_attempts = 3; alert_failed_at = some 90 }

dead_is_dead : is_dead_letter dead ≡ true
unfolding is_dead_letter
dead_is_dead = refl

claim_lem_example :
    ((claim state 2 true 60 table).0
      ≡ map (lease 60) (take (clamp 2 1 500) (filter (deliverable state true 60) table)))
    × (filter (deliverable state true 60) (claim state 2 true 60 table).1
        ≡ drop (clamp 2 1 500) (filter (deliverable state true 60) table))
    × All (λ (r : Row). deliverable state true 100 r ≡ false) (claim state 2 true 60 table).0
claim_lem_example = claim_lem state 2 60 100 true table (omega arith)

abbrev joined : Joined
joined = record { slug_of = λ _. codes "shop"; level_of = λ _. codes "error" }

abbrev request : ClaimRequest
request = record {
  project = none;
  kind = some (codes "new_issue");
  level = none;
  limit = some 2;
  lease_seconds = some 60;
  claimed_by = none;
}

abbrev two_claimed : List Row
two_claimed =
    record (fresh 1) { claimed_at = some 60; lease_until = some 120 }
    ∷ record (fresh 2) { claimed_at = some 60; lease_until = some 120 }
    ∷ []

claims_two : (claim_items joined request 60 table).0 ≡ ok two_claimed
unfolding claim_items
claims_two = refl

lease_lasts : 100 ≤ 60 + lease_seconds_of (some 60)
unfolding lease_seconds_of
lease_lasts = omega arith

claim_items_lem_example :
    (two_claimed
      ≡ map (claim_row request 60) (
          take
            (page_size (some 2))
            (filter (waiting joined none (some (codes "new_issue")) none 60) table)))
    × (filter
          (waiting joined none (some (codes "new_issue")) none 60)
          (claim_items joined request 60 table).1
        ≡ drop
            (page_size (some 2))
            (filter (waiting joined none (some (codes "new_issue")) none 60) table))
    × All (λ (r : Row). waiting joined none none none 100 r ≡ false) two_claimed
claim_items_lem_example =
    claim_items_lem joined request 60 100 table two_claimed none none none claims_two lease_lasts

abbrev bad_kind : ClaimRequest
bad_kind = record request { kind = some (codes "new") }

refused : (claim_items joined bad_kind 60 table).0 ≡ err bad_request
unfolding claim_items
refused = refl
