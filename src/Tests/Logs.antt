-- ===== src/Tests/Logs.antt =====
-- The logs endpoint, at a record of each kind.
use thermite_rs.Prelude.{
  Bool, Bytes, List, Result, Text, [], arith, codes, drop, err, is_some, length, length-drop, none,
  ok, pos, refl, some, text_eq, true, ℕ, ◌%◌, ◌/◌, ◌<◌, ◌==◌, ◌∷◌, ◌≡◌, ◌≤◌,
}
use thermite_rs.Json.{Fields, Value, array, end, field, item, nil, object, string}
use thermite_rs.Grouping.{group}
use thermite_rs.Ingest.Payloads.{IsScrubbed}
use thermite_rs.Ingest.Requests.{Project, Request}
use thermite_rs.Otlp.Record.{Group, Record, exception_message, exception_type, is_error}
use thermite_rs.Otlp.Convert.{to_event, type_of}
use thermite_rs.Otlp.Proto.{Prost, max_groups, max_records, decode as decode_proto}
use thermite_rs.Otlp.Json.{Numbers, too_many, decode as decode_json}
use thermite_rs.Otlp.Bounds.{decode_caps, total_records}
use thermite_rs.Otlp.Whole.{all_or_nothing, count_records, json_reads_all_or_nothing}
use thermite_rs.Otlp.Ends.{Consumes, Leaves}
use thermite_rs.Otlp.Endpoint.{OtelLibraries, logs_endpoint, serve_groups}
use thermite_rs.Otlp.Answers.{logs_endpoint_answers}
use thermite_rs.Otlp.Clean.{no_secret_of_a_log_is_stored}
use thermite_rs.Otlp.Counted.{Answered, batch_is_counted, errors_in, others_in}
use thermite_rs.Otlp.Events.{records_with_one_message_group}
use thermite_rs.Tests.Requests.{config, fresh, lib, request_for}

abbrev one_key : Bytes → Result Text ((ℕ × Bool) × Bytes)
one_key [] = err []
one_key (b ∷ bs) = ok ((b / 8, b % 8 == 2), bs)

abbrev one_byte : Bytes → Result Text (ℕ × Bytes)
one_byte [] = err []
one_byte (b ∷ bs) = ok (b, bs)

-- Fields whose keys and lengths are one byte each. Every record is an error.
abbrev prost : Prost
prost = record {
  decode_key = one_key;
  skip_field = λ tag buf. ok (drop 8 buf);
  decode_varint = one_byte;
  decode_resource = λ _. ok [];
  decode_record = λ _. ok (record {
    time_unix_nano = 0;
    severity_number = pos 17;
    body = none;
    attributes = [];
    trace_id = [];
    span_id = [];
    observed_time_unix_nano = 0;
  });
  render = λ _. [];
}

key_takes : (bs : Bytes) → Leaves (λ (k : (ℕ × Bool) × Bytes). length k.1 < length bs) (one_key bs)
key_takes [] = tt
key_takes (b ∷ bs) = omega arith

byte_takes : (bs : Bytes) → Leaves (λ (n : ℕ × Bytes). length n.1 ≤ length bs) (one_byte bs)
byte_takes [] = tt
byte_takes (b ∷ bs) = omega arith

prost-Consumes : Consumes prost
prost-Consumes = record {
  key_takes = key_takes;
  skip_takes = λ tag bs. omega (arith, length-drop 8 bs);
  varint_takes = byte_takes;
}

abbrev numbers : Numbers
numbers = record { as_i64 = λ _. some (pos 17); as_u64 = λ _. none; render = λ _. [] }

abbrev otel : OtelLibraries
otel = record { prost = prost; numbers = numbers; to_rfc3339 = λ _. codes "then" }

-- One resource with one scope with one record.
abbrev body : Bytes
body = 10 ∷ 5 ∷ 18 ∷ 3 ∷ 18 ∷ 1 ∷ 120 ∷ []

abbrev bare : Record
bare = record {
  time_unix_nano = 0;
  severity_number = pos 17;
  body = none;
  attributes = end;
  trace_id = none;
  span_id = none;
}

abbrev one_group : List Group
one_group = record { resource = end; records = bare ∷ [] } ∷ []

body_read : decode_proto prost body ≡ some (ok one_group)
unfolding decode_proto
body_read = refl

decode_caps_example : (length one_group ≤ max_groups) × (total_records one_group ≤ max_records)
decode_caps_example = decode_caps prost body one_group body_read

abbrev request : Request
request = record (request_for 7) { sentry_key = some (codes "abc123"); body = body }

logs_endpoint_answers_example : is_some (logs_endpoint lib otel config request none fresh).1 ≡ true
logs_endpoint_answers_example =
    logs_endpoint_answers lib otel config request none fresh prost-Consumes

no_secret_of_a_log_is_stored_example :
    IsScrubbed config (logs_endpoint lib otel config request none fresh).0
no_secret_of_a_log_is_stored_example =
    no_secret_of_a_log_is_stored lib otel config request none fresh tt

-- An error, and a record below the floor.
abbrev batch : List Group
batch =
    record { resource = end; records = bare ∷ record bare { severity_number = pos 9 } ∷ [] } ∷ []

abbrev project : Project
project = record { id = 7; component = none }

batch_is_counted_example :
    Answered request project
      (errors_in batch)
      (others_in batch)
      fresh
      (serve_groups lib otel config request project true (some (ok batch)) fresh)
batch_is_counted_example = batch_is_counted lib otel config request project true batch fresh

two_counted : (errors_in batch ≡ 1) × (others_in batch ≡ 1)
unfolding errors_in others_in is_error
two_counted = (refl, refl)

abbrev logs : Value
logs = object (
    field (codes "resourceLogs")
      (array (
        item
          (object (
            field (codes "scopeLogs")
              (array (
                item
                  (object (
                    field (codes "logRecords") (array (item (object end) (item (object end) nil)))
                      end))
                  nil))
              end))
          nil))
      end)

json_reads_all_or_nothing_example :
    decode_json (λ _. some logs) numbers 2 (codes "{}") ≡ all_or_nothing numbers 2 (some logs)
json_reads_all_or_nothing_example =
    json_reads_all_or_nothing (λ _. some logs) numbers 2 (codes "{}")

-- The batch has one record too many.
refused : all_or_nothing numbers 1 (some logs) ≡ err (too_many 1)
unfolding count_records
refused = refl

abbrev thrown : Text → Record
thrown message = record bare {
  attributes =
      field exception_type (string (codes "Timeout"))
        (field exception_message (string message) end);
}

-- One exception, of two hosts.
abbrev host : Text → Fields
host name = field (codes "host.name") (string name) end

records_with_one_message_group_example :
    (group lib.engine
      (to_event otel.to_rfc3339 (thrown (codes "took 9 ms")) (host (codes "a")))).hash
    ≡ (group lib.engine
        (to_event otel.to_rfc3339 (thrown (codes "took 9 ms")) (host (codes "b")))).hash
unfolding type_of text_eq
records_with_one_message_group_example =
    records_with_one_message_group lib.engine otel.to_rfc3339 (thrown (codes "took 9 ms"))
      (thrown (codes "took 9 ms")) (host (codes "a")) (host (codes "b")) (codes "Timeout") refl refl
      refl
