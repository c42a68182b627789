-- ===== src/Ingest/Requests.antt =====
-- A request, the state that it changes, and how it is authorized.
use thermite_rs.Prelude.{
  Bool, Bytes, List, Option, Result, Text, [], codes, err, if◌then◌else◌, min, none, ok, some,
  text_eq, ℕ, ◌&&◌, ◌*◌, ◌+◌, ◌==◌, ◌>>=◌, ◌∷◌,
}
use thermite_rs.Json.{Value, and_then, non_empty, or_else}
use thermite_rs.Credentials.Header.{sentry_key_from_auth_header}
use thermite_rs.Compression.{DecodeError, Decoders, decode, decode_prefix, too_large}
use thermite_rs.Envelope.Parser.{Codec, EnvelopeHeaders, ParseError, parse_envelope_headers}
use thermite_rs.Event.Basic.{TimeParser, hour_of}
use thermite_rs.Grouping.{Engine}
use thermite_rs.RateLimit.{RateLimiter, exhausted_at}
use thermite_rs.Outcomes.{ClientReport, Counts, Outcome, as_key, over_quota}
use thermite_rs.Scrub.{ScrubList}
use thermite_rs.Sessions.Rollup.{SessionCodec, SessionCount}
use thermite_rs.Monitors.Schedule.{Calendar}
use thermite_rs.Monitors.Tables.{CheckIn, Tables}
use thermite_rs.Digest.Store.{Store}

pub record ProjectKey : Type 0 where
  pub project_id : ℕ
  pub public_key : Text
  pub label : Option Text

-- A row of `ingest_outcomes`.
pub record OutcomeCount : Type 0 where
  pub project_id : ℕ
  pub bucket : ℕ
  pub outcome : Text
  pub count : ℕ

pub record Database : Type 0 where
  pub keys : List ProjectKey
  pub store : Store
  pub outcomes : List OutcomeCount
  pub session_counts : List SessionCount
  pub monitors : Tables

pub record ThermiteState : Type 0 where
  pub db : Database
  pub rate_limiter : RateLimiter

pub record Config : Type 0 where
  pub max_envelope_bytes : ℕ
  pub scrub_fields : ScrubList

-- The library code that the endpoints call: the readers, `serde_json::from_slice` at each type, the
-- user name of a URL that parses, `Uuid::parse_str` as the simple form, and the ids that
-- `Uuid::new_v4` makes, numbered.
pub record Libraries : Type 0 where
  pub codec : Codec
  pub decoders : Decoders
  pub value_from_slice : Bytes → Option Value
  pub check_in_from_slice : Bytes → Option CheckIn
  pub report_from_slice : Bytes → Option ClientReport
  pub sessions : SessionCodec
  pub times : TimeParser
  pub engine : Engine
  pub calendar : Calendar
  pub url_username : Text → Option Text
  pub parse_uuid : Text → Option Text
  pub new_uuid : ℕ → Text

-- `unix_now` is the clock of the limiter, in seconds since the epoch, at each reading of it: 0 is the one
-- before the body is read, and each check of an event has its own.
pub record Request : Type 0 where
  pub project_id : ℕ
  pub sentry_key : Option Text
  pub x_sentry_auth : Option Text
  pub content_encoding : Option Text
  pub body : Bytes
  pub received_at : ℕ
  pub unix_now : ℕ → ℕ

-- What a bad request is refused for, in place of its text.
pub data Reason : Type 0 where
  bad_envelope : ParseError → Reason
  bad_encoding : DecodeError → Reason
  bad_payload : Reason

pub data AppError : Type 0 where
  bad_request : Reason → AppError
  unauthorized : Text → AppError
  payload_too_large : AppError
  rate_limited : ℕ → AppError

pub record Project : Type 0 where
  pub id : ℕ
  pub component : Option Text

abbrev is_outcome : ℕ → ℕ → Text → OutcomeCount → Bool
is_outcome project_id bucket outcome c =
    c.project_id == project_id && (c.bucket == bucket && text_eq c.outcome outcome)

-- `record_key`.
unfoldable pub record_key : ℕ → Text → ℕ → ℕ → List OutcomeCount → List OutcomeCount
unfolding text_eq
record_key project_id outcome count received_at [] =
    record {
      project_id = project_id;
      bucket = hour_of received_at;
      outcome = outcome;
      count = count;
    }
    ∷ []
record_key project_id outcome count received_at (c ∷ cs) =
    let later = record_key project_id outcome count received_at cs in
    if is_outcome project_id (hour_of received_at) outcome c
    then record c { count = c.count + count } ∷ cs
    else c ∷ later

-- `Counts::flush`.
unfoldable pub flush : ℕ → ℕ → Counts → List OutcomeCount → List OutcomeCount
unfolding record_key
flush project_id received_at [] rows = rows
flush project_id received_at ((outcome, count) ∷ counts) rows =
    flush project_id received_at counts (record_key project_id outcome count received_at rows)

unfoldable pub with_outcomes : List OutcomeCount → ThermiteState → ThermiteState
with_outcomes rows s = record s { db = record s.db { outcomes = rows } }

-- `outcomes::record` of one.
unfoldable pub record_outcome : ℕ → Outcome → ℕ → ThermiteState → ThermiteState
unfolding with_outcomes record_key as_key
record_outcome project_id outcome received_at s =
    with_outcomes (record_key project_id (as_key outcome) 1 received_at s.db.outcomes) s

-- The query string, then the header.
unfoldable pub credential : Request → Option Text
unfolding sentry_key_from_auth_header
credential r =
    or_else (non_empty r.sentry_key) (and_then r.x_sentry_auth sentry_key_from_auth_header)

abbrev pub preauth_prefix_bytes : ℕ
preauth_prefix_bytes = 8 * 1024

abbrev pub dsn_of_headers : Result ParseError EnvelopeHeaders → Option Text
dsn_of_headers (ok h) = h.dsn
dsn_of_headers (err e) = none

unfoldable pub sentry_key_from_dsn : Libraries → Text → Option Text
sentry_key_from_dsn lib dsn = non_empty (lib.url_username dsn)

unfoldable pub dsn_key_from_prefix : Libraries → Config → Request → Option Text
dsn_key_from_prefix lib config r = do
  prefix ←
      decode_prefix lib.decoders r.body r.content_encoding
        (min preauth_prefix_bytes config.max_envelope_bytes)
  dsn ← dsn_of_headers (parse_envelope_headers lib.codec prefix)
  sentry_key_from_dsn lib dsn

abbrev is_key : ℕ → Text → ProjectKey → Bool
is_key project_id key k = k.project_id == project_id && text_eq k.public_key key

unfoldable pub authenticate : ℕ → Text → List ProjectKey → Result AppError Project
unfolding text_eq
authenticate project_id key [] = err (unauthorized (codes "invalid project id or sentry_key"))
authenticate project_id key (k ∷ ks) =
    let later = authenticate project_id key ks in
    if is_key project_id key k
    then ok (record { id = k.project_id; component = k.label })
    else later

unfoldable pub identify : Option Text → ℕ → List ProjectKey → Result AppError Project
unfolding authenticate
identify none project_id keys = err (unauthorized (codes "missing sentry_key"))
identify (some key) project_id keys = authenticate project_id key keys

unfoldable pub refuse_exhausted :
    Project → Option ℕ → ℕ → ThermiteState → ThermiteState × Result AppError Project
unfolding record_outcome
refuse_exhausted project none received_at s = (s, ok project)
refuse_exhausted project (some retry_after) received_at s =
    (record_outcome project.id over_quota received_at s, err (rate_limited retry_after))

unfoldable pub admit :
    Result AppError Project → Request → ThermiteState → ThermiteState × Result AppError Project
unfolding refuse_exhausted exhausted_at
admit (err e) r s = (s, err e)
admit (ok project) r s =
    refuse_exhausted project (exhausted_at s.rate_limiter project.id (r.unix_now 0)) r.received_at s

-- `authorize`, for a request with a body.
unfoldable pub authorize :
    Libraries → Config → Request → ThermiteState → ThermiteState × Result AppError Project
unfolding admit identify credential dsn_key_from_prefix
authorize lib config r s =
    admit
      (identify (or_else (credential r) (dsn_key_from_prefix lib config r)) r.project_id s.db.keys)
      r s

abbrev decode_failure : DecodeError → AppError
decode_failure (too_large limit) = payload_too_large
decode_failure e = bad_request (bad_encoding e)

abbrev decoded : Result DecodeError Bytes → Result AppError Bytes
decoded (ok body) = ok body
decoded (err e) = err (decode_failure e)

unfoldable pub decode_body : Libraries → Config → Request → Result AppError Bytes
unfolding decode
decode_body lib config r =
    decoded (decode lib.decoders r.body r.content_encoding config.max_envelope_bytes)
