-- ===== src/Otlp/Endpoint.antt =====
-- `logs_endpoint` of ingest/otlp/mod.rs. Database errors are left out.
use thermite_rs.Prelude.{
  Bool, Bytes, List, Option, Result, Text, [], codes, err, false, if◌then◌else◌, none, ok, some,
  true, ℕ, ℤ, ◌+◌, ◌==◌, ◌||◌, ◌∷◌,
}
use thermite_rs.Strings.{contains}
use thermite_rs.Json.{Fields}
use thermite_rs.Outcomes.{Counts, accepted, bump, bump_unsupported, over_quota}
use thermite_rs.Ingest.Requests.{
  AppError, Config, Libraries, Project, Request, ThermiteState, admit, credential, decode_body,
  flush, identify, rate_limited, with_outcomes,
}
use thermite_rs.Ingest.Endpoints.{check_quota, digest_payload}
use thermite_rs.Otlp.Record.{Group, Record, is_error}
use thermite_rs.Otlp.Convert.{to_event}
use thermite_rs.Otlp.Proto.{ParseError, Prost, decode as decode_proto, max_records}
use thermite_rs.Otlp.Json.{JsonError, Numbers, decode as decode_json}

-- The library code that only this endpoint calls.
pub record OtelLibraries : Type 0 where
  pub prost : Prost
  pub numbers : Numbers
  pub to_rfc3339 : ℤ → Text

-- An error, with the reader's own where the code turns it to the text of a bad request.
pub data LogsError : Type 0 where
  app_error : AppError → LogsError
  bad_proto : ParseError → LogsError
  bad_json : JsonError → LogsError

-- The state, the counters, and the number of the next id that is made.
pub record Batch : Type 0 where
  pub state : ThermiteState
  pub counts : Counts
  pub made : ℕ

unfoldable pub declares_json : Option Text → Bool
unfolding contains
declares_json none = false
declares_json (some content_type) = contains (codes "json") content_type

abbrev pub starts_with_brace : Bytes → Bool
starts_with_brace [] = false
starts_with_brace (b ∷ bs) = b == b'{'

unfoldable pub is_json : Option Text → Bytes → Bool
unfolding declares_json
is_json content_type body = declares_json content_type || starts_with_brace body

-- The content type and the body of the answer to what is accepted.
unfoldable pub logs_accepted : Bool → Text × Bytes
logs_accepted true = (codes "application/json", codes "{}")
logs_accepted false = (codes "application/x-protobuf", [])

unfoldable pub digest_record :
    Libraries → OtelLibraries → Config → Request → Project → Record → Fields → Batch → Batch
unfolding digest_payload to_event bump
digest_record lib otel config r project log resource b =
    let done =
      digest_payload lib config r project b.made (to_event otel.to_rfc3339 log resource) b.state in
    record { state = done.0; counts = bump accepted b.counts; made = b.made + 1 }

-- Past the quota the counts are flushed and the request ends.
unfoldable pub on_checked :
    Libraries
    → OtelLibraries
    → Config
    → Request
    → Project
    → Record
    → Fields
    → Batch
    → ThermiteState × Result ℕ (Unit {0})
    → Batch × Option AppError
unfolding digest_record bump flush with_outcomes
on_checked lib otel config r project log resource b (s, ok _) =
    (digest_record lib otel config r project log resource (record b { state = s }), none)
on_checked lib otel config r project log resource b (s, err retry_after) =
    let counts = bump over_quota b.counts in
    (
      record b {
        state = with_outcomes (flush project.id r.received_at counts s.db.outcomes) s;
        counts = counts;
      },
      some (rate_limited retry_after),
    )

unfoldable pub handle_record :
    Libraries
    → OtelLibraries
    → Config
    → Request
    → Project
    → Record
    → Fields
    → Batch
    → Batch × Option AppError
unfolding on_checked check_quota is_error bump_unsupported
handle_record lib otel config r project log resource b =
    if is_error log
    then on_checked lib otel config r project log resource b
        (check_quota project.id b.made r b.state)
    else (record b { counts = bump_unsupported (codes "log") b.counts }, none)

-- What is left to do is not done after an error.
abbrev pub unless_failed :
    Batch × Option AppError → (Batch → Batch × Option AppError) → Batch × Option AppError
unless_failed (b, none) f = f b
unless_failed (b, some e) f = (b, some e)

unfoldable pub handle_records :
    Libraries
    → OtelLibraries
    → Config
    → Request
    → Project
    → Fields
    → List Record
    → Batch
    → Batch × Option AppError
unfolding handle_record
handle_records lib otel config r project resource [] b = (b, none)
handle_records lib otel config r project resource (log ∷ logs) b =
    unless_failed (handle_record lib otel config r project log resource b)
      (handle_records lib otel config r project resource logs)

unfoldable pub handle_groups :
    Libraries
    → OtelLibraries
    → Config
    → Request
    → Project
    → List Group
    → Batch
    → Batch × Option AppError
unfolding handle_records
handle_groups lib otel config r project [] b = (b, none)
handle_groups lib otel config r project (g ∷ gs) b =
    unless_failed (handle_records lib otel config r project g.resource g.records b)
      (handle_groups lib otel config r project gs)

-- The answer; there is none if a walk runs out of fuel.
abbrev pub LogsAnswer : Type 0
LogsAnswer = Option (Result LogsError (Text × Bytes))

unfoldable pub finish_logs :
    Request → Project → Bool → Batch × Option AppError → ThermiteState × LogsAnswer
unfolding flush with_outcomes logs_accepted
finish_logs r project json (b, some e) = (b.state, some (err (app_error e)))
finish_logs r project json (b, none) = (
  with_outcomes (flush project.id r.received_at b.counts b.state.db.outcomes) b.state,
  some (ok (logs_accepted json)),
)

abbrev pub Groups : Type 0
Groups = Option (Result LogsError (List Group))

abbrev pub from_json : Result JsonError (List Group) → Groups
from_json (ok groups) = some (ok groups)
from_json (err e) = some (err (bad_json e))

abbrev pub from_proto : Option (Result ParseError (List Group)) → Groups
from_proto none = none
from_proto (some (ok groups)) = some (ok groups)
from_proto (some (err e)) = some (err (bad_proto e))

unfoldable pub decode_groups : Libraries → OtelLibraries → Bool → Bytes → Groups
unfolding decode_json decode_proto
decode_groups lib otel true body =
    from_json (decode_json lib.value_from_slice otel.numbers max_records body)
decode_groups lib otel false body = from_proto (decode_proto otel.prost body)

unfoldable pub serve_groups :
    Libraries
    → OtelLibraries
    → Config
    → Request
    → Project
    → Bool
    → Groups
    → ThermiteState
    → ThermiteState × LogsAnswer
unfolding handle_groups finish_logs
serve_groups lib otel config r project json none s = (s, none)
serve_groups lib otel config r project json (some (err e)) s = (s, some (err e))
serve_groups lib otel config r project json (some (ok groups)) s =
    finish_logs r project json
      (handle_groups lib otel config r project groups (record { state = s; counts = []; made = 1 }))

unfoldable pub serve_logs :
    Libraries
    → OtelLibraries
    → Config
    → Request
    → Option Text
    → Project
    → Result AppError Bytes
    → ThermiteState
    → ThermiteState × LogsAnswer
unfolding serve_groups decode_groups is_json
serve_logs lib otel config r content_type project (err e) s = (s, some (err (app_error e)))
serve_logs lib otel config r content_type project (ok body) s =
    let json = is_json content_type body in
    serve_groups lib otel config r project json (decode_groups lib otel json body) s

unfoldable pub serve_admitted :
    Libraries
    → OtelLibraries
    → Config
    → Request
    → Option Text
    → ThermiteState × Result AppError Project
    → ThermiteState × LogsAnswer
unfolding serve_logs decode_body
serve_admitted lib otel config r content_type (s, err e) = (s, some (err (app_error e)))
serve_admitted lib otel config r content_type (s, ok project) =
    serve_logs lib otel config r content_type project (decode_body lib config r) s

-- The body holds no credential. `content_type` is the header, if it is there and is text.
unfoldable pub logs_endpoint :
    Libraries
    → OtelLibraries
    → Config
    → Request
    → Option Text
    → ThermiteState
    → ThermiteState × LogsAnswer
unfolding serve_admitted admit identify credential
logs_endpoint lib otel config r content_type s =
    serve_admitted lib otel config r content_type
      (admit (identify (credential r) r.project_id s.db.keys) r s)
