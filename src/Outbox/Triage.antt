-- ===== src/Outbox/Triage.antt =====
-- The triage columns: `pending_items`, `claim_items`, `ack_item` and `release`.
use thermite_rs.Prelude.{
  Bool, List, Option, Result, Text, [], any, codes, err, filter, if◌then◌else◌, none, not, ok, some,
  take, text_eq, true, ℕ, ◌&&◌, ◌*◌, ◌+◌, ◌==◌, ◌∷◌,
}
use thermite_rs.Json.{unwrap_or}
use thermite_rs.Outbox.Row.{Row, claim_first, clamp, coalesce, is_null, null_or_before, update_id}

abbrev default_lease_seconds : ℕ
default_lease_seconds = 900

-- The joined columns that the filters read: the slug of the row's project and the level of its issue.
pub record Joined : Type 0 where
  pub slug_of : ℕ → Text
  pub level_of : ℕ → Text

-- A claim's limits are i64 in the source; what is below 1 or 30 is clamped, so ℕ loses nothing.
pub record ClaimRequest : Type 0 where
  pub project : Option Text
  pub kind : Option Text
  pub level : Option Text
  pub limit : Option ℕ
  pub lease_seconds : Option ℕ
  pub claimed_by : Option Text

pub data AppError : Type 0 where
  bad_request not_found : AppError

-- `$1 is null or column = $1`.
unfoldable pub matches_filter : Option Text → Text → Bool
unfolding text_eq
matches_filter none s = true
matches_filter (some f) s = text_eq s f

abbrev kinds : List Text
kinds = codes "new_issue" ∷ codes "regression" ∷ []

unfoldable pub validate_kind : Option Text → Result AppError (Unit {0})
unfolding text_eq
validate_kind none = ok tt
validate_kind (some kind) = if not (any (λ k. text_eq k kind) kinds) then err bad_request else ok tt

-- `page_size` of crates/thermite-core/src/api/mod.rs.
unfoldable pub page_size : Option ℕ → ℕ
page_size limit = clamp (unwrap_or limit 50) 1 100

unfoldable pub waiting : Joined → Option Text → Option Text → Option Text → ℕ → Row → Bool
unfolding matches_filter
waiting j project kind level now r =
    is_null r.acked_at
    && (null_or_before r.lease_until now
        && (matches_filter project (j.slug_of r.project_id)
            && (matches_filter kind r.kind && matches_filter level (j.level_of r.issue_id))))

unfoldable pub pending_of : Result AppError (Unit {0}) → List Row → Result AppError (List Row)
pending_of (err e) rows = err e
pending_of (ok _) rows = ok rows

unfoldable pub pending_items :
    Joined
    → Option Text
    → Option Text
    → Option Text
    → Option ℕ
    → ℕ
    → List Row
    → Result AppError (List Row)
unfolding pending_of validate_kind page_size waiting
pending_items j project kind level limit now rows =
    pending_of (validate_kind kind)
      (take (page_size limit) (filter (waiting j project kind level now) rows))

unfoldable pub lease_seconds_of : Option ℕ → ℕ
lease_seconds_of s = clamp (unwrap_or s default_lease_seconds) 30 (24 * 3600)

unfoldable pub claim_row : ClaimRequest → ℕ → Row → Row
unfolding lease_seconds_of
claim_row request now r = record r {
  claimed_at = some now;
  claimed_by = request.claimed_by;
  lease_until = some (now + lease_seconds_of request.lease_seconds);
}

unfoldable pub claimed_of :
    Result AppError (Unit {0})
    → List Row
    → List Row × List Row
    → Result AppError (List Row) × List Row
claimed_of (err e) rows c = (err e, rows)
claimed_of (ok _) rows c = (ok c.0, c.1)

unfoldable pub claim_items :
    Joined → ClaimRequest → ℕ → List Row → Result AppError (List Row) × List Row
unfolding claimed_of validate_kind claim_first page_size waiting claim_row
claim_items j request now rows = claimed_of (validate_kind request.kind) rows (
    claim_first (page_size request.limit) (waiting j request.project request.kind request.level now)
      (claim_row request now) rows)

unfoldable pub ack_row : ℕ → Row → Row
ack_row now r = record r { acked_at = coalesce r.acked_at now }

unfoldable pub ack_item : ℕ → ℕ → List Row → Result AppError (Unit {0}) × List Row
unfolding update_id ack_row
ack_item id now rows = (
  if any (λ (r : Row). r.id == id) rows then ok tt else err not_found,
  update_id id (ack_row now) rows,
)

unfoldable pub release_row : Row → Row
release_row r =
    if is_null r.acked_at
    then record r { claimed_at = none; claimed_by = none; lease_until = none }
    else r

unfoldable pub release : ℕ → List Row → Result AppError (Unit {0}) × List Row
unfolding update_id release_row
release id rows = (
  if any (λ (r : Row). r.id == id && is_null r.acked_at) rows then ok tt else err not_found,
  update_id id release_row rows,
)
