-- ===== src/Outbox/Alerts.antt =====
-- The alert columns: `claim`, `mark_channel`, `mark_alerted`, `record_failure` and `retry`.
use thermite_rs.Prelude.{
  Bool, List, Option, [], any, false, filter, if◌then◌else◌, leb, ltb, max, min, none, not, some, ℕ,
  ◌&&◌, ◌*◌, ◌+◌, ◌==◌, ◌^◌, ◌||◌, ◌∷◌,
}
use thermite_rs.Outbox.Row.{
  Row, claim_first, clamp, coalesce, is_null, null_or_before, null_or_reached, update_id,
}

abbrev lease_minutes : ℕ
lease_minutes = 5

-- `alert_state`: the floor, if it was recorded, and the projects' routing overrides.
pub record AlertState : Type 0 where
  pub backlog_floor : Option ℕ
  pub has_override : ℕ → Bool

-- `created_at >= coalesce(backlog_floor, 'infinity')`.
abbrev pub past_floor : Option ℕ → ℕ → Bool
past_floor none created = false
past_floor (some f) created = leb f created

-- The `where` of the claim.
unfoldable pub deliverable : AlertState → Bool → ℕ → Row → Bool
deliverable st globally_configured now r =
    is_null r.alerted_at
    && (is_null r.alert_failed_at
        && (null_or_before r.alert_lease_until now
            && (null_or_reached r.alert_next_attempt_at now
                && (past_floor st.backlog_floor r.created_at
                    && (globally_configured || st.has_override r.project_id)))))

unfoldable pub lease : ℕ → Row → Row
lease now r = record r { alert_lease_until = some (now + lease_minutes * 60) }

unfoldable pub claim : AlertState → ℕ → Bool → ℕ → List Row → List Row × List Row
unfolding claim_first deliverable lease
claim st limit globally_configured now rows =
    claim_first (clamp limit 1 500) (deliverable st globally_configured now) (lease now) rows

ensure_backlog_floor : ℕ → AlertState → AlertState
ensure_backlog_floor now st = record st { backlog_floor = coalesce st.backlog_floor now }

floor_moved : Option ℕ → ℕ → Option ℕ
floor_moved none now = none
floor_moved (some f) now = some now

-- `any_override`: some project has an override.
advance_floor_while_unconfigured : Bool → Bool → ℕ → AlertState → AlertState
unfolding floor_moved
advance_floor_while_unconfigured globally_configured any_override now st =
    if not globally_configured && not any_override
    then record st { backlog_floor = floor_moved st.backlog_floor now }
    else st

pub data Channel : Type 0 where
  email webhook : Channel

unfoldable pub mark_channel_row : Channel → ℕ → Row → Row
mark_channel_row email now r = record r { alert_email_at = coalesce r.alert_email_at now }
mark_channel_row webhook now r = record r { alert_webhook_at = coalesce r.alert_webhook_at now }

unfoldable pub mark_channel : ℕ → Channel → ℕ → List Row → List Row
unfolding update_id mark_channel_row
mark_channel id channel now rows = update_id id (mark_channel_row channel now) rows

unfoldable pub mark_alerted_row : ℕ → Row → Row
mark_alerted_row now r = record r { alerted_at = coalesce r.alerted_at now }

unfoldable pub mark_alerted : ℕ → ℕ → List Row → List Row
unfolding update_id mark_alerted_row
mark_alerted id now rows = update_id id (mark_alerted_row now) rows

-- Every right-hand side of the `update` reads the old row.
unfoldable pub record_failure_row : ℕ → ℕ → Row → Row
record_failure_row max_attempts now r = record r {
  alert_attempts = r.alert_attempts + 1;
  alert_next_attempt_at = some (now + min (2 ^ r.alert_attempts * 60) 3600);
  alert_failed_at = if leb (max max_attempts 1) (r.alert_attempts + 1) then some now else none;
  alert_lease_until = none;
}

unfoldable pub find_id : ℕ → List Row → Option Row
find_id id [] = none
find_id id (r ∷ rs) = let later = find_id id rs in if r.id == id then some r else later

-- `power(2, alert_attempts) * interval '1 minute'`: an interval counts microseconds in an i64, and the
-- database refuses one that does not fit.
abbrev pub backoff_fits : ℕ → Bool
backoff_fits attempts = ltb (2 ^ attempts * 60000000) (2 ^ 63)

failed_now : Option Row → Option Bool
failed_now none = none
failed_now (some r) = some (not (is_null r.alert_failed_at))

-- The statement on the row that is found; a database error is `none`, and changes nothing.
unfoldable pub fail_found : Option Row → ℕ → ℕ → ℕ → List Row → Option Bool × List Row
unfolding update_id record_failure_row find_id failed_now
fail_found none id max_attempts now rows = (none, rows)
fail_found (some r) id max_attempts now rows =
    let rows' = update_id id (record_failure_row max_attempts now) rows in
    if backoff_fits r.alert_attempts then (failed_now (find_id id rows'), rows') else (none, rows)

unfoldable pub record_failure : ℕ → ℕ → ℕ → List Row → Option Bool × List Row
unfolding fail_found find_id
record_failure id max_attempts now rows = fail_found (find_id id rows) id max_attempts now rows

unfoldable pub is_dead_letter : Row → Bool
is_dead_letter r = not (is_null r.alert_failed_at) && is_null r.alerted_at

-- `dead_lettered`, without the columns that it joins.
unfoldable pub dead_lettered : List Row → List Row
unfolding is_dead_letter
dead_lettered rows = filter is_dead_letter rows

unfoldable pub retry_row : Row → Row
unfolding is_dead_letter
retry_row r =
    if is_dead_letter r
    then record r {
      alert_failed_at = none;
      alert_attempts = 0;
      alert_next_attempt_at = none;
      alert_lease_until = none;
    }
    else r

unfoldable pub retry : ℕ → List Row → Bool × List Row
unfolding update_id retry_row
retry id rows =
    (any (λ (r : Row). r.id == id && is_dead_letter r) rows, update_id id retry_row rows)
