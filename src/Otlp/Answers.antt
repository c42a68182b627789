-- ===== src/Otlp/Answers.antt =====
-- The endpoint of the logs answers every request.
use thermite_rs.Prelude.{
  Bool, Bytes, List, Option, Result, Text, err, false, is_some, none, ok, refl, some, true, ◌≡◌,
}
use thermite_rs.Ingest.Requests.{
  AppError, Config, Libraries, Project, Request, ThermiteState, admit, credential, decode_body,
  identify,
}
use thermite_rs.Otlp.Record.{Group}
use thermite_rs.Otlp.Proto.{ParseError, max_records, decode as decode_proto}
use thermite_rs.Otlp.Json.{JsonError, decode as decode_json}
use thermite_rs.Otlp.Ends.{Consumes, decode_ends}
use thermite_rs.Otlp.Endpoint.{
  Batch, Groups, OtelLibraries, decode_groups, finish_logs, from_json, from_proto, handle_groups,
  is_json, logs_endpoint, serve_admitted, serve_groups, serve_logs,
}

from_json-answers : (read : Result JsonError (List Group)) → is_some (from_json read) ≡ true
from_json-answers (ok groups) = refl
from_json-answers (err e) = refl

from_proto-answers :
    (read : Option (Result ParseError (List Group)))
    → is_some read ≡ true
    → is_some (from_proto read) ≡ true
from_proto-answers none h = h
from_proto-answers (some (ok groups)) h = refl
from_proto-answers (some (err e)) h = refl

module _ (lib : Libraries) (otel : OtelLibraries) (config : Config) (r : Request) where
  decode_groups-answers :
      Consumes otel.prost
      → (json : Bool) (body : Bytes) → is_some (decode_groups lib otel json body) ≡ true
  unfolding decode_groups
  decode_groups-answers c true body =
      from_json-answers (decode_json lib.value_from_slice otel.numbers max_records body)
  decode_groups-answers c false body =
      from_proto-answers (decode_proto otel.prost body) (decode_ends otel.prost c body)

  finish_logs-answers :
      (project : Project) (json : Bool) (done : Batch × Option AppError)
      → is_some (finish_logs r project json done).1 ≡ true
  unfolding finish_logs
  finish_logs-answers project json (b, none) = refl
  finish_logs-answers project json (b, some e) = refl

  serve_groups-answers :
      (project : Project) (json : Bool) (groups : Groups) (s : ThermiteState)
      → is_some groups ≡ true
      → is_some (serve_groups lib otel config r project json groups s).1 ≡ true
  unfolding serve_groups
  serve_groups-answers project json none s h = h
  serve_groups-answers project json (some (err e)) s h = refl
  serve_groups-answers project json (some (ok groups)) s h =
      finish_logs-answers project json (handle_groups lib otel config r project groups _)

  serve_logs-answers :
      Consumes otel.prost
      → (content_type : Option Text) (project : Project) (body : Result AppError Bytes)
        (s : ThermiteState)
      → is_some (serve_logs lib otel config r content_type project body s).1 ≡ true
  unfolding serve_logs
  serve_logs-answers c content_type project (err e) s = refl
  serve_logs-answers c content_type project (ok body) s =
      let json = is_json content_type body in
      serve_groups-answers project json (decode_groups lib otel json body) s
        (decode_groups-answers c json body)

  serve_admitted-answers :
      Consumes otel.prost
      → (content_type : Option Text) (admitted : ThermiteState × Result AppError Project)
      → is_some (serve_admitted lib otel config r content_type admitted).1 ≡ true
  unfolding serve_admitted
  serve_admitted-answers c content_type (s, err e) = refl
  serve_admitted-answers c content_type (s, ok project) =
      serve_logs-answers c content_type project (decode_body lib config r) s

-- The endpoint of the logs answers every request, whatever its body, when reading the key of a field
-- takes a byte and no reader of the rest of it gives bytes back.
pub logs_endpoint_answers :
    (lib : Libraries) (otel : OtelLibraries) (config : Config) (r : Request)
    (content_type : Option Text) (s : ThermiteState)
    → Consumes otel.prost
    → is_some (logs_endpoint lib otel config r content_type s).1 ≡ true
unfolding logs_endpoint
logs_endpoint_answers lib otel config r content_type s c =
    serve_admitted-answers lib otel config r c content_type
      (admit (identify (credential r) r.project_id s.db.keys) r s)
