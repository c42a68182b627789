-- ===== src/Outbox/Delivery.antt =====
-- The life of a notification under alert delivery: failures, the backoff, dead letters and retries.
use thermite_rs.Outbox.Rows.{filter-update_id, find_id-update_id, update_id-update_id}
use thermite_rs.Prelude.{
  Bool, Bool-cases, if◌then◌else◌, inl, inr, List, [], any, arith, false, filter, leb, length, ltb,
  max, min, none, not, refl, some, true, ℕ, ◌&&◌, ◌*◌, ◌+◌, ◌==◌, ◌^◌, ◌||◌, ◌∷◌, ◌≡◌,
}
use thermite_rs.Outbox.Row.{Row, is_null}
use thermite_rs.Outbox.Alerts.{
  AlertState, Channel, backoff_fits, fail_found, dead_lettered, deliverable, find_id,
  is_dead_letter, mark_alerted, mark_alerted_row, mark_channel, mark_channel_row, past_floor,
  record_failure, record_failure_row, retry, retry_row,
}

-- The row after failures at the times of the list.
pub failures : ℕ → List ℕ → Row → Row
failures max_attempts [] r = r
failures max_attempts (now ∷ times) r =
    failures max_attempts times (record_failure_row max_attempts now r)

failed_at :
    (m : ℕ) (times : List ℕ) (r : Row)
    → is_null r.alert_failed_at ≡ ltb r.alert_attempts (max m 1)
    → is_null (failures m times r).alert_failed_at ≡ ltb (length times + r.alert_attempts) (max m 1)
unfolding failures record_failure_row
failed_at m [] r h = ground arith
failed_at m (now ∷ times) r h =
    ground (arith, failed_at m times (record_failure_row m now r) (ground arith))

still_undelivered :
    (m : ℕ) (times : List ℕ) (r : Row) → (failures m times r).alerted_at ≡ r.alerted_at
unfolding failures record_failure_row
still_undelivered m [] r = refl
still_undelivered m (now ∷ times) r = still_undelivered m times (record_failure_row m now r)

-- A notification whose count of attempts is 0 and which has not failed is a dead letter after a
-- number of failures exactly when the number is `max_attempts` or more (1 or more, for a
-- `max_attempts` of 0), at whatever times the failures come; before that it has none.
dead_letter_after_max_attempts :
    (m : ℕ) (times : List ℕ) (r : Row)
    → r.alert_attempts ≡ 0
    → r.alert_failed_at ≡ none
    → r.alerted_at ≡ none
    → is_dead_letter (failures m times r) ≡ leb (max m 1) (length times)
unfolding is_dead_letter
dead_letter_after_max_attempts m times r a f d =
    ground (arith, failed_at m times r (ground arith), still_undelivered m times r)

failed_row :
    (m now : ℕ) (r : Row)
    → some (not (is_null (record_failure_row m now r).alert_failed_at))
      ≡ some (leb (max m 1) (r.alert_attempts + 1))
unfolding record_failure_row
failed_row m now r = ground arith

failed_deliverable :
    (st : AlertState) (g : Bool) (m now t : ℕ) (r : Row)
    → deliverable st g t (record_failure_row m now r) ≡ (
        is_null r.alerted_at
        && (ltb (r.alert_attempts + 1) (max m 1)
            && (leb (now + min (2 ^ r.alert_attempts * 60) 3600) t
                && (past_floor st.backlog_floor r.created_at
                    && (g || st.has_override r.project_id)))))
unfolding deliverable record_failure_row
failed_deliverable st g m now t r = ground arith

-- `record_failure` of a row of the table, be it leased or not, reports whether the attempts have
-- reached `max_attempts` (at least 1). The row it leaves may be claimed at a time `t` exactly if they have
-- not, `t` is at least `min(2^attempts * 60, 3600)` seconds after `now`, and the row is not alerted,
-- is past the floor and is addressed: a lease that it had does not count any more. From the attempt on
-- whose backoff no interval can hold, the statement fails and leaves the table as it was.
pub failed_row_backs_off :
    (st : AlertState) (g : Bool) (id m now t : ℕ) (rows : List Row) (r : Row)
    → find_id id rows ≡ some r
    → let fits = backoff_fits r.alert_attempts in
      let done = record_failure id m now rows in
      (done.0 ≡ (if fits then some (leb (max m 1) (r.alert_attempts + 1)) else none))
      × (s : Row) × (find_id id done.1 ≡ some s)
      × (deliverable st g t s ≡ (
          if fits
          then is_null r.alerted_at
            && (ltb (r.alert_attempts + 1) (max m 1)
                && (leb (now + min (2 ^ r.alert_attempts * 60) 3600) t
                    && (past_floor st.backlog_floor r.created_at
                        && (g || st.has_override r.project_id))))
          else deliverable st g t r))
unfolding record_failure fail_found record_failure_row
failed_row_backs_off st g id m now t rows r e =
    let found = find_id-update_id id (record_failure_row m now) rows r (λ s. refl) e in
    elim (Bool-cases (backoff_fits r.alert_attempts)) [
      | inl fits ↦
          rw (e, fits, found)
            (
              failed_row m now r,
              record_failure_row m now r,
              refl,
              failed_deliverable st g m now t r,
            )
      | inr over ↦ rw (e, over, e) (refl, r, refl, refl)
    ]

any-filter :
    (id : ℕ) (rows : List Row)
    → any (λ (r : Row). r.id == id && is_dead_letter r) rows
      ≡ any (λ (r : Row). r.id == id) (filter is_dead_letter rows)
any-filter id [] = refl
any-filter id (r ∷ rows) = ground (arith, any-filter id rows)

retried_alive : (r : Row) → is_dead_letter (retry_row r) ≡ false
unfolding retry_row is_dead_letter
retried_alive r = ground arith

-- `retry` answers true exactly if a dead letter has the id; afterwards the dead letters are those
-- before, less the ones with the id.
retry_clears_dead_letter :
    (id : ℕ) (rows : List Row)
    → ((retry id rows).0 ≡ any (λ (r : Row). r.id == id) (dead_lettered rows))
      × (dead_lettered (retry id rows).1
          ≡ filter (λ (r : Row). not (r.id == id)) (dead_lettered rows))
unfolding retry dead_lettered
retry_clears_dead_letter id rows =
    (any-filter id rows, filter-update_id id is_dead_letter retry_row rows retried_alive)

-- Retrying the row of a dead letter gives it a fresh budget: no attempts, open to a claim at once
-- (as far as floor and routing allow), and alive until `max_attempts` further failures (1, for 0);
-- the marks of the channels that were delivered stay.
pub retry_gives_a_fresh_budget :
    (st : AlertState) (g : Bool) (m now : ℕ) (times : List ℕ) (r : Row)
    → is_dead_letter r ≡ true
    → (deliverable st g now (retry_row r)
        ≡ (past_floor st.backlog_floor r.created_at && (g || st.has_override r.project_id)))
      × (is_dead_letter (failures m times (retry_row r)) ≡ leb (max m 1) (length times))
      × ((retry_row r).alert_email_at ≡ r.alert_email_at)
      × ((retry_row r).alert_webhook_at ≡ r.alert_webhook_at)
unfolding retry_row deliverable is_dead_letter
retry_gives_a_fresh_budget st g m now times r d = (
  ground arith,
  dead_letter_after_max_attempts m times (retry_row r) (ground arith) (ground arith) (ground arith),
  ground arith,
  ground arith,
)

mark_channel_row-twice :
    (c : Channel) (now later : ℕ) (r : Row)
    → mark_channel_row c later (mark_channel_row c now r) ≡ mark_channel_row c now r
unfolding mark_channel_row
mark_channel_row-twice c now later r = ground arith

mark_channel_row-id : (c : Channel) (now : ℕ) (r : Row) → (mark_channel_row c now r).id ≡ r.id
unfolding mark_channel_row
mark_channel_row-id c now r = ground arith

mark_alerted_row-twice :
    (now later : ℕ) (r : Row)
    → mark_alerted_row later (mark_alerted_row now r) ≡ mark_alerted_row now r
unfolding mark_alerted_row
mark_alerted_row-twice now later r = ground arith

alerted-undeliverable :
    (st : AlertState) (g : Bool) (now t : ℕ) (r : Row)
    → deliverable st g t (mark_alerted_row now r) ≡ false
unfolding mark_alerted_row deliverable
alerted-undeliverable st g now t r = ground arith

alerted-alive : (now : ℕ) (r : Row) → is_dead_letter (mark_alerted_row now r) ≡ false
unfolding mark_alerted_row is_dead_letter
alerted-alive now r = ground arith

-- A second `mark_channel` of a channel, and a second `mark_alerted`, change nothing: the first time
-- stays.
marks_keep_the_first_time :
    (id : ℕ) (c : Channel) (now later : ℕ) (rows : List Row)
    → (mark_channel id c later (mark_channel id c now rows) ≡ mark_channel id c now rows)
      × (mark_alerted id later (mark_alerted id now rows) ≡ mark_alerted id now rows)
unfolding mark_channel mark_alerted mark_alerted_row
marks_keep_the_first_time id c now later rows = (
  update_id-update_id id (mark_channel_row c now) (mark_channel_row c later) rows
      (mark_channel_row-id c now) (mark_channel_row-twice c now later),
  update_id-update_id id (mark_alerted_row now) (mark_alerted_row later) rows (λ s. refl)
      (mark_alerted_row-twice now later),
)

-- `mark_alerted` takes the rows of its id, and no others, from what delivery may claim at any time
-- under any state, and from the dead letters.
pub alerted_is_final :
    (st : AlertState) (g : Bool) (id now t : ℕ) (rows : List Row)
    → (filter (deliverable st g t) (mark_alerted id now rows)
        ≡ filter (λ (r : Row). not (r.id == id)) (filter (deliverable st g t) rows))
      × (dead_lettered (mark_alerted id now rows)
          ≡ filter (λ (r : Row). not (r.id == id)) (dead_lettered rows))
unfolding mark_alerted dead_lettered
alerted_is_final st g id now t rows = (
  filter-update_id id (deliverable st g t) (mark_alerted_row now) rows
      (alerted-undeliverable st g now t),
  filter-update_id id is_dead_letter (mark_alerted_row now) rows (alerted-alive now),
)
