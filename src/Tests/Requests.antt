-- ===== src/Tests/Requests.antt =====
-- The endpoints, at requests of one project.
use thermite_rs.Prelude.{
  Text, [], arith, codes, err, min, none, ok, refl, some, true, ℕ, ◌+◌, ◌∷◌, ◌≡◌, ◌≤◌,
}
use thermite_rs.Scrub
use thermite_rs.Envelope.Cursor.{read_line}
use thermite_rs.Json.{Value, end, field, object, or_else, string}
use thermite_rs.Compression.{decode_prefix}
use thermite_rs.Envelope.Parser.{parse_envelope_headers, parse_headers, read_envelope_headers}
use thermite_rs.RateLimit.{RateLimiter}
use thermite_rs.Monitors.Schedule.{returns}
use thermite_rs.Ingest.Requests.{
  Config, Libraries, Project, Request, ThermiteState, credential, dsn_key_from_prefix, identify,
  sentry_key_from_dsn, unauthorized,
}
use thermite_rs.Ingest.Endpoints.{envelope_endpoint, store_endpoint}
use thermite_rs.Ingest.Payloads.{IsScrubbed}
use thermite_rs.Ingest.Quota.{quota_bounds_an_envelope, stored, used}
use thermite_rs.Ingest.Stored.{no_secret_is_stored}
use thermite_rs.Ingest.Refusals.{unknown_project_is_refused}

abbrev login : Value
login = object (field (codes "password") (string (codes "hunter2")) end)

-- Readers at which every item is an event with a password.
abbrev pub lib : Libraries
lib = record {
  codec = record {
    is_utf8 = λ _. true;
    envelope_from_slice = λ _. ok (record {
      event_id = none;
      dsn = some (codes "http://abc123@localhost/7");
      sent_at = none;
    });
    item_from_slice = λ _. ok (record {
      type = some (codes "event");
      length = none;
      content_type = none;
      filename = none;
    });
  };
  decoders = record {
    gzip = λ body. record { bytes = body; failure = none };
    deflate = λ body. record { bytes = body; failure = none };
    br = λ body. record { bytes = body; failure = none };
    zstd = λ body. err (codes "no frame");
  };
  value_from_slice = λ _. some login;
  check_in_from_slice = λ _. none;
  report_from_slice = λ _. none;
  sessions = record { session_from_slice = λ _. none; aggregates_from_slice = λ _. none };
  times = record {
    parse_from_rfc3339 = λ _. none;
    parse_naive = λ _ _. none;
    epoch_of_number = λ _. none;
    epoch_of_text = λ _. none;
  };
  engine = record { parameterize = λ t. t; sha256 = λ t. t };
  calendar = record {
    tz_from_str = λ _. none;
    cron_from_str = λ _. err (codes "no expression");
    max_duration = 9223372036854775;
    last_instant = 16_500_000_000_000_000_000_000;
    to_rfc3339 = λ _. codes "then";
  };
  url_username = λ _. some (codes "abc123");
  parse_uuid = λ _. none;
  new_uuid = λ n. codes "00000000000000000000000000000000";
}

abbrev pub config : Config
config = record { max_envelope_bytes = 20971520; scrub_fields = Scrub.new [] }

abbrev state_with : RateLimiter → ThermiteState
state_with limiter = record {
  db = record {
    keys = record { project_id = 7; public_key = codes "abc123"; label = none } ∷ [];
    store = record {
      releases = [];
      next_release = 1;
      issues = [];
      next_issue = 1;
      events = [];
      event_counts = [];
      issue_tags = [];
      notifications = [];
      activity = [];
    };
    outcomes = [];
    session_counts = [];
    monitors = record { monitors = []; next_monitor = 1; checkins = [] };
  };
  rate_limiter = limiter;
}

abbrev pub fresh : ThermiteState
fresh = state_with (record { per_minute = some 1; windows = λ _. none })

-- An envelope with two events, and the key in its headers only.
abbrev pub request_for : ℕ → Request
request_for project_id = record {
  project_id = project_id;
  sentry_key = none;
  x_sentry_auth = none;
  content_encoding = none;
  body = codes "{}\n{}\n{}\n{}\n{}\n";
  received_at = 5000;
  unix_now = λ n. 130 + min n 5;
}

no_secret_is_stored_example :
    IsScrubbed config (envelope_endpoint lib config (request_for 7) fresh).0
    × IsScrubbed config (store_endpoint lib config (request_for 7) fresh).0
no_secret_is_stored_example = no_secret_is_stored lib config (request_for 7) fresh tt

unknown_project_is_refused_example :
    ((why : Text) × (envelope_endpoint lib config (request_for 8) fresh
        ≡ (fresh, returns (err (unauthorized why)))))
    × ((why : Text) × (store_endpoint lib config (request_for 8) fresh
          ≡ (fresh, err (unauthorized why))))
unknown_project_is_refused_example =
    unknown_project_is_refused lib config (request_for 8) fresh refl

identified :
    identify
      (or_else (credential (request_for 7)) (dsn_key_from_prefix lib config (request_for 7)))
      7
      fresh.db.keys
    ≡ ok (record { id = 7; component = none })
unfolding identify credential dsn_key_from_prefix decode_prefix parse_envelope_headers read_line
    sentry_key_from_dsn read_envelope_headers parse_headers
identified = refl

-- Two events, and quota for one.
quota_bounds_an_envelope_example :
    let r = request_for 7 in
    let project : Project = record { id = 7; component = none } in
    stored (envelope_endpoint lib config r fresh).0 + used project r fresh ≤ stored fresh + 1
quota_bounds_an_envelope_example =
    quota_bounds_an_envelope 1 lib config (request_for 7) fresh
      (record { id = 7; component = none }) (omega arith) identified (λ n. omega arith) (refl, tt)
