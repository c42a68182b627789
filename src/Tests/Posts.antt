-- ===== src/Tests/Posts.antt =====
-- An envelope of the client, at a concrete event.
use thermite_rs.Prelude.{Bytes, [], arith, codes, none, ok, refl, some, true, ◌++◌, ◌∷◌, ◌≡◌}
use thermite_rs.Envelope.Parser.{Codec, parse}
use thermite_rs.Credentials.Dsn.{Dsn}
use thermite_rs.Sdk.Event.{Event, message_event, warning}
use thermite_rs.Sdk.Frame.{Serializer, frame, headers_of}
use thermite_rs.Sdk.Received.{IsAgreed, parse-frame, sent_item}

abbrev target : Dsn
target = record {
  public_key = codes "abc";
  project_id = 42;
  ingest_url = codes "http://h/api/42/envelope/?sentry_key=abc";
  raw = codes "http://abc@h/42";
}

-- Header lines without their punctuation.
abbrev serializer : Serializer
serializer = record {
  headers_to_writer = λ h. ok (codes "dsn " ++ h.dsn);
  item_to_writer = λ i. ok (codes "type " ++ i.type);
  event_to_writer = λ event. ok (codes "{}");
  update_to_writer = λ session. ok (codes "{}");
  simple = λ id. codes "07";
}

abbrev codec : Codec
codec = record {
  is_utf8 = λ _. true;
  envelope_from_slice =
      λ _. ok (record { event_id = some (codes "07"); dsn = some target.raw; sent_at = none });
  item_from_slice = λ _.
      ok (record {
        type = some (codes "event");
        length = none;
        content_type = none;
        filename = none;
      });
}

abbrev boom : Event
boom = message_event 7 9 (codes "boom") warning

agreed :
    IsAgreed serializer codec
      (headers_of serializer (some 7) target)
      (record { type = codes "event" })
      (codes "dsn http://abc@h/42")
      (codes "type event")
agreed = record {
  headers_written = refl;
  item_written = refl;
  not_empty = ground arith;
  item_not_empty = ground arith;
  one_line = refl;
  item_one_line = refl;
  utf8 = refl;
  item_utf8 = refl;
  headers_read = refl;
  item_read = refl;
}

parse-frame_example :
    (bytes : Bytes) × (frame serializer serializer.event_to_writer
        (some 7)
        (codes "event")
        boom
        target
      ≡ ok bytes)
    × (parse codec bytes
        ≡ some (
            ok (record {
              headers = record {
                event_id = some (codes "07");
                dsn = some (codes "http://abc@h/42");
                sent_at = none;
              };
              items = sent_item (codes "event") (codes "{}") ∷ [];
            })))
parse-frame_example =
    parse-frame serializer codec serializer.event_to_writer (some 7) (codes "event") boom target
      (codes "dsn http://abc@h/42") (codes "type event") (codes "{}") agreed refl refl (omega arith)
