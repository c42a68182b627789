-- ===== src/Otlp/Clean.antt =====
-- What the endpoint of the logs stores is scrubbed.
use thermite_rs.Prelude.{
  Bool, Bytes, List, Option, Result, Text, [], ap, err, if_keeps, none, ok, some, subst, sym, ℕ,
  ◌∷◌, ◌≡◌,
}
use thermite_rs.Json.{Fields}
use thermite_rs.Scrub.{scrub}
use thermite_rs.Digest.Store.{Store}
use thermite_rs.Ingest.Requests.{
  AppError, Config, Libraries, Project, Request, ThermiteState, admit, credential, decode_body,
  identify, with_outcomes,
}
use thermite_rs.Ingest.Endpoints.{check_quota}
use thermite_rs.Ingest.Payloads.{IsScrubbed, Payloads, digest_payload-IsScrubbed}
use thermite_rs.Ingest.Stored.{admit-store}
use thermite_rs.Otlp.Convert.{to_event}
use thermite_rs.Otlp.Record.{Group, Record, is_error}
use thermite_rs.Otlp.Endpoint.{
  Batch, Groups, OtelLibraries, decode_groups, digest_record, finish_logs, handle_groups,
  handle_record, handle_records, is_json, logs_endpoint, on_checked, serve_admitted, serve_groups,
  serve_logs, unless_failed,
}

module _ (lib : Libraries) (otel : OtelLibraries) (config : Config) (r : Request)
    (project : Project) where
  abbrev Clean : Batch → Type 0
  Clean b = IsScrubbed config b.state

  on_checked-Clean :
      (log : Record) (resource : Fields) (b : Batch) (s : ThermiteState) (ran : Result ℕ (Unit {0}))
      → IsScrubbed config s
      → Clean (on_checked lib otel config r project log resource b (s, ran)).0
  unfolding on_checked digest_record with_outcomes
  on_checked-Clean log resource b s (ok _) h =
      digest_payload-IsScrubbed lib config r project b.made (to_event otel.to_rfc3339 log resource)
        s h
  on_checked-Clean log resource b s (err retry_after) h = h

  handle_record-Clean :
      (log : Record) (resource : Fields) (b : Batch)
      → Clean b
      → Clean (handle_record lib otel config r project log resource b).0
  unfolding handle_record check_quota
  handle_record-Clean log resource b h =
      if_keeps (λ (d : Batch × Option AppError). Clean d.0) (is_error log) _ _
        (on_checked-Clean log resource b _ _ h) h

  unless_failed-Clean :
      (first : Batch × Option AppError) (rest : Batch → Batch × Option AppError)
      → Clean first.0
      → ((b : Batch) → Clean b → Clean (rest b).0)
      → Clean (unless_failed first rest).0
  unless_failed-Clean (b, none) rest h k = k b h
  unless_failed-Clean (b, some e) rest h k = h

  handle_records-Clean :
      (resource : Fields) (logs : List Record) (b : Batch)
      → Clean b
      → Clean (handle_records lib otel config r project resource logs b).0
  unfolding handle_records
  handle_records-Clean resource [] b h = h
  handle_records-Clean resource (log ∷ logs) b h =
      unless_failed-Clean (handle_record lib otel config r project log resource b) _
        (handle_record-Clean log resource b h) (handle_records-Clean resource logs)

  handle_groups-Clean :
      (gs : List Group) (b : Batch)
      → Clean b
      → Clean (handle_groups lib otel config r project gs b).0
  unfolding handle_groups
  handle_groups-Clean [] b h = h
  handle_groups-Clean (g ∷ gs) b h =
      unless_failed-Clean (handle_records lib otel config r project g.resource g.records b) _
        (handle_records-Clean g.resource g.records b h) (handle_groups-Clean gs)

  finish_logs-Clean :
      (json : Bool) (done : Batch × Option AppError)
      → Clean done.0
      → IsScrubbed config (finish_logs r project json done).0
  unfolding finish_logs with_outcomes
  finish_logs-Clean json (b, some e) h = h
  finish_logs-Clean json (b, none) h = h

  serve_groups-Clean :
      (json : Bool) (groups : Groups) (s : ThermiteState)
      → IsScrubbed config s
      → IsScrubbed config (serve_groups lib otel config r project json groups s).0
  unfolding serve_groups
  serve_groups-Clean json none s h = h
  serve_groups-Clean json (some (err e)) s h = h
  serve_groups-Clean json (some (ok groups)) s h =
      let b : Batch = record { state = s; counts = []; made = 1 } in
      finish_logs-Clean json (handle_groups lib otel config r project groups b)
        (handle_groups-Clean groups b h)

  serve_logs-Clean :
      (content_type : Option Text) (body : Result AppError Bytes) (s : ThermiteState)
      → IsScrubbed config s
      → IsScrubbed config (serve_logs lib otel config r content_type project body s).0
  unfolding serve_logs
  serve_logs-Clean content_type (err e) s h = h
  serve_logs-Clean content_type (ok body) s h =
      let json = is_json content_type body in
      serve_groups-Clean json (decode_groups lib otel json body) s h

serve_admitted-Clean :
    (lib : Libraries) (otel : OtelLibraries) (config : Config) (r : Request)
    (content_type : Option Text) (s : ThermiteState) (found : Result AppError Project)
    → IsScrubbed config s
    → IsScrubbed config (serve_admitted lib otel config r content_type (s, found)).0
unfolding serve_admitted
serve_admitted-Clean lib otel config r content_type s (err e) h = h
serve_admitted-Clean lib otel config r content_type s (ok project) h =
    serve_logs-Clean lib otel config r project content_type (decode_body lib config r) s h

-- The endpoint of the logs stores only scrubbed payloads: if each payload of the events table is as
-- scrubbing leaves it, then so it is after a request, whatever records it carries and however it ends.
pub no_secret_of_a_log_is_stored :
    (lib : Libraries) (otel : OtelLibraries) (config : Config) (r : Request)
    (content_type : Option Text) (s : ThermiteState)
    → IsScrubbed config s
    → IsScrubbed config (logs_endpoint lib otel config r content_type s).0
unfolding logs_endpoint
no_secret_of_a_log_is_stored lib otel config r content_type s h =
    let found = identify (credential r) r.project_id s.db.keys in
    let admitted = admit found r s in
    serve_admitted-Clean lib otel config r content_type admitted.0 admitted.1 (
      subst (Payloads (λ v. scrub config.scrub_fields v ≡ v))
        (ap (λ (st : Store). st.events) (sym (admit-store found r s))) h)
