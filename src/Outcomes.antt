-- ===== src/Outcomes.antt =====
-- The outcome counters of crates/thermite-core/src/ingest/outcomes.rs, and the SDK's own drop
-- counters of crates/thermite-core/src/protocol/client_report.rs.
pub mod Totals
use thermite_rs.Prelude.{
  Bool, List, Option, Text, [], any, codes, filter, if◌then◌else◌, ltb, map, none, some, text_eq, ℕ,
  ◌&&◌, ◌++◌, ◌+◌, ◌||◌, ◌∷◌,
}

pub data Outcome : Type 0 where
  accepted over_quota invalid : Outcome

unfoldable pub as_key : Outcome → Text
as_key accepted = codes "accepted"
as_key over_quota = codes "over_quota"
as_key invalid = codes "invalid"

-- The `BTreeMap`, as an association list; `lookup` of a missing key is 0. Every quantity that is
-- added is positive, so the i64 counters are natural numbers: a sum is the i64's as long as it is below
-- 2^63, where an addition of the source would panic or wrap.
abbrev pub Counts : Type 0
Counts = List (Text × ℕ)

unfoldable pub add : Text → ℕ → Counts → Counts
unfolding text_eq
add outcome count [] = (outcome, count) ∷ []
add outcome count ((k, n) ∷ cs) =
    if text_eq k outcome then (k, n + count) ∷ cs else (k, n) ∷ add outcome count cs

unfoldable pub bump : Outcome → Counts → Counts
unfolding as_key add
bump outcome counts = add (as_key outcome) 1 counts

-- The arms of a `match` on a text: the first pattern that is equal, or the default.
first_match : List (Text × Text) → Text → Text → Text
unfolding text_eq
first_match [] default s = default
first_match ((pattern_text, result) ∷ arms) default s =
    if text_eq pattern_text s then result else first_match arms default s

abbrev unsupported_arms : List (Text × Text)
unsupported_arms =
    (codes "transaction", codes "unsupported:transaction")
    ∷ (codes "span", codes "unsupported:span")
    ∷ (codes "log", codes "unsupported:log")
    ∷ (codes "otel_log", codes "unsupported:log")
    ∷ (codes "attachment", codes "unsupported:attachment")
    ∷ (codes "profile", codes "unsupported:profile")
    ∷ (codes "profile_chunk", codes "unsupported:profile")
    ∷ (codes "replay_event", codes "unsupported:replay")
    ∷ (codes "replay_recording", codes "unsupported:replay")
    ∷ (codes "user_report", codes "unsupported:feedback")
    ∷ (codes "feedback", codes "unsupported:feedback")
    ∷ (codes "statsd", codes "unsupported:metrics")
    ∷ (codes "metric_buckets", codes "unsupported:metrics")
    ∷ []

unsupported_key : Text → Text
unfolding first_match
unsupported_key item_type = first_match unsupported_arms (codes "unsupported:other") item_type

discard_reasons : List Text
discard_reasons =
    codes "queue_overflow"
    ∷ codes "cache_overflow"
    ∷ codes "buffer_overflow"
    ∷ codes "backpressure"
    ∷ codes "ratelimit_backoff"
    ∷ codes "network_error"
    ∷ codes "send_error"
    ∷ codes "sample_rate"
    ∷ codes "before_send"
    ∷ codes "event_processor"
    ∷ codes "internal_sdk_error"
    ∷ []

pub client_discarded_key : Text → Text
unfolding discard_reasons text_eq
client_discarded_key reason =
    if any (λ r. text_eq r reason) discard_reasons
    then codes "client_discarded:" ++ reason
    else codes "client_discarded:other"

unfoldable pub bump_unsupported : Text → Counts → Counts
unfolding add unsupported_key
bump_unsupported item_type counts = add (unsupported_key item_type) 1 counts

pub add_client_discarded : Text → ℕ → Counts → Counts
unfolding add client_discarded_key
add_client_discarded reason quantity counts = add (client_discarded_key reason) quantity counts

-- A negative quantity is dropped by the filter as 0 is, so it is kept as 0 here.
pub record Discarded : Type 0 where
  pub reason : Text
  pub category : Text
  pub quantity : ℕ

pub record ClientReport : Type 0 where
  pub discarded_events : List Discarded
  pub rate_limited_events : List Discarded
  pub filtered_events : List Discarded

pub is_event_category : Text → Bool
unfolding text_eq
is_event_category c =
    text_eq c (codes "error") || (text_eq c (codes "default") || text_eq c (codes "security"))

pub event_discards : ClientReport → List (Text × ℕ)
unfolding is_event_category
event_discards r =
    map (λ (d : Discarded). (d.reason, d.quantity))
      (filter (λ (d : Discarded). ltb 0 d.quantity && is_event_category d.category)
        (r.discarded_events ++ (r.rate_limited_events ++ r.filtered_events)))

add_discards : List (Text × ℕ) → Counts → Counts
unfolding add_client_discarded
add_discards [] counts = counts
add_discards ((reason, quantity) ∷ ds) counts =
    add_discards ds (add_client_discarded reason quantity counts)

-- `record_client_report` of crates/thermite-core/src/ingest/mod.rs, on the decoded payload.
unfoldable pub record_client_report : Option ClientReport → Counts → Counts
unfolding add_discards event_discards bump
record_client_report (some report) counts = add_discards (event_discards report) counts
record_client_report none counts = bump invalid counts
