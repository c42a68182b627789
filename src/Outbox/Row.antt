-- ===== src/Outbox/Row.antt =====
-- A row of `notifications`, with the columns of both consumers.
use thermite_rs.Prelude.{
  Bool, List, Option, Text, [], false, if◌then◌else◌, leb, ltb, none, some, suc, true, zero, ℕ,
  ◌==◌, ◌∷◌,
}

-- Times are seconds; `null` is `none`.
pub record Row : Type 0 where
  pub id : ℕ
  pub project_id : ℕ
  pub issue_id : ℕ
  pub kind : Text
  pub created_at : ℕ
  pub claimed_at : Option ℕ
  pub claimed_by : Option Text
  pub lease_until : Option ℕ
  pub acked_at : Option ℕ
  pub alerted_at : Option ℕ
  pub alert_failed_at : Option ℕ
  pub alert_lease_until : Option ℕ
  pub alert_next_attempt_at : Option ℕ
  pub alert_attempts : ℕ
  pub alert_email_at : Option ℕ
  pub alert_webhook_at : Option ℕ

-- `column is null`.
abbrev pub is_null : Option ℕ → Bool
is_null none = true
is_null (some t) = false

-- `column is null or column < now()`.
abbrev pub null_or_before : Option ℕ → ℕ → Bool
null_or_before none now = true
null_or_before (some t) now = ltb t now

-- `column is null or column <= now()`.
abbrev pub null_or_reached : Option ℕ → ℕ → Bool
null_or_reached none now = true
null_or_reached (some t) now = leb t now

-- `coalesce(column, now())`.
abbrev pub coalesce : Option ℕ → ℕ → Option ℕ
coalesce none now = some now
coalesce (some t) now = some t

-- `update .. where id = $1`, the new row computed from the old one.
unfoldable pub update_id : ℕ → (Row → Row) → List Row → List Row
update_id id f [] = []
update_id id f (r ∷ rs) = (if r.id == id then f r else r) ∷ update_id id f rs

-- `update .. where id in (select .. limit $n)`: the first `n` of the rows, in the order of the select,
-- that pass the test. The table stands in that order (`created_at`).
unfoldable pub claim_first : ℕ → (Row → Bool) → (Row → Row) → List Row → List Row × List Row
claim_first zero p f rs = ([], rs)
claim_first (suc n) p f [] = ([], [])
claim_first (suc n) p f (r ∷ rs) =
    let taken = claim_first n p f rs in
    let passed = claim_first (suc n) p f rs in
    if p r then (f r ∷ taken.0, f r ∷ taken.1) else (passed.0, r ∷ passed.1)

-- `i64::clamp(low, high)`.
abbrev pub clamp : ℕ → ℕ → ℕ → ℕ
clamp x low high = if ltb x low then low else if ltb high x then high else x
