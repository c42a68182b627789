-- ===== src/Tests/Wire.antt =====
-- The envelope parser, at a concrete envelope.
use thermite_rs.Prelude.{
  Bytes, [], arith, codes, false, length, map, none, ok, refl, some, true, ◌++◌, ◌<◌, ◌^◌, ◌∷◌, ◌≡◌,
}
use thermite_rs.Envelope.Cursor.{read_line, take_bytes}
use thermite_rs.Envelope.Suffix.{has_newline}
use thermite_rs.Envelope.Parser.{
  Codec, EnvelopeHeaders, ItemHeaders, parse, parse_headers, parse_item, parse_items, payload_of,
  read_envelope_headers,
}
use thermite_rs.Envelope.Limits.{IsParsed, parse-IsParsed}
use thermite_rs.Envelope.RoundTrip.{IsWritten, Written, parse-write, write}

abbrev no_headers : EnvelopeHeaders
no_headers = record { event_id = none; dsn = none; sent_at = none }

abbrev event_headers : ItemHeaders
event_headers = record {
  type = some (codes "event");
  length = some 2;
  content_type = none;
  filename = none;
}

-- A decoder that accepts every line and reads every item header as that of an event of two bytes.
abbrev codec : Codec
codec = record {
  is_utf8 = λ _. true;
  envelope_from_slice = λ _. ok no_headers;
  item_from_slice = λ _. ok event_headers;
}

abbrev written : Written
written = record {
  header = codes "{}";
  item = record { headers = event_headers; payload = codes "{}" };
}

abbrev body : Bytes
body = codes "{}" ++ b'\n' ∷ write (written ∷ [])

body_reads :
    parse codec body ≡ some (ok (record { headers = no_headers; items = written.item ∷ [] }))
unfolding parse write read_envelope_headers read_line parse_headers parse_items parse_item
    payload_of take_bytes
body_reads = refl

parse-IsParsed_example : IsParsed body (parse codec body)
parse-IsParsed_example = parse-IsParsed codec body

written-IsWritten : IsWritten codec written
written-IsWritten = record {
  one_line = refl;
  not_empty = ground arith;
  utf8 = refl;
  decodes = refl;
  framed = refl;
}

one_line : has_newline (codes "{}") ≡ false
one_line = refl

small : length body < 2 ^ 64
unfolding write
small = omega arith

parse-write_example :
    parse codec body
    ≡ some
        (ok (record { headers = no_headers; items = map (λ (w : Written). w.item) (written ∷ []) }))
parse-write_example =
    parse-write codec (codes "{}") no_headers (written ∷ []) (ground arith) one_line refl refl
      (omega arith) (written-IsWritten, tt) small
